-- ===== src/Stream/RoundTrip.antt =====
-- What `um9_tx_message` sends, `um9_rx_packet` and `um9_rx_message` give back (core/midi_stream.c).
use usbmidi.Prelude.{
  ◌==◌, if◌then◌else◌, ==_iff, length, get_or, take, ℕ, zero, suc, ◌+◌, ◌*◌, ◌%◌, ◌≤◌, ◌<◌, ◌≡◌,
  refl, ap, ◌∙◌, Bool, true, false, some, List, [], ◌∷◌, ◌++◌, arith,
}
use usbmidi.Packets.{packet_of, cin_data_length, max_cable, Packet}
use usbmidi.Packets.Cin
use usbmidi.Rx.{RxMsg, Sysex, whole, start, mid, end, RxStream}
use usbmidi.Rx.Spec.{hear, kind, feed}
use usbmidi.Tx.{padded, tx_packet_build, tx_end_cin, tx_message, TxStream}
use usbmidi.Tx.Sysex.{packets_of, length-packets_of, packet_count, tx_message-packets_of, IsSysex}
use usbmidi.Stream.{payload, deliver}
use usbmidi.Stream.Listen.{listen, heard, deliver-listen, IsIdle}

-- The parts in which a SysEx run is delivered, with their tags.
abbrev pub pieces : Bool → List ℕ → List (List ℕ × Sysex)
pieces run (a ∷ b ∷ c ∷ d ∷ rest) =
    (a ∷ b ∷ c ∷ [], if run then mid else start) ∷ pieces true (d ∷ rest)
pieces run msg = (msg, if run then end else if get_or msg 0 0 == 0xf0 then whole else end) ∷ []

abbrev pub view : List RxMsg → List (List ℕ × Sysex)
view [] = []
view (m ∷ ms) = (payload m, m.sysex) ∷ view ms

take_front {ℓ} : {A : Type ℓ} (xs ys : List A) (n : ℕ) → length xs ≡ n → take n (xs ++ ys) ≡ xs
take_front [] ys n e = rw (← e)
take_front (x ∷ xs) ys zero e = absurd (omega arith)
take_front (x ∷ xs) ys (suc n) e = ap (◌∷◌ x) (take_front xs ys n (omega arith))

-- a packet on the wire, decoded
pub packet_of-build :
    (cable cin len : ℕ) (msg : List ℕ)
    → cable < 16
    → cin < 16
    → let p = packet_of (tx_packet_build cable cin msg len) in
      (p.cable ≡ cable)
      × (p.cin ≡ cin)
      × (p.length ≡ cin_data_length cin)
      × (p.data0 ≡ padded msg len 0)
      × (p.data1 ≡ padded msg len 1)
      × (p.data2 ≡ padded msg len 2)
unfolding packet_of tx_packet_build
packet_of-build cable cin len msg h k =
    let low : (cable % 16 * 16 + cin % 16) % 16 ≡ cin = omega arith in
    (omega arith, low, ap cin_data_length low, refl, refl, refl)

abbrev pub wire : ℕ → ℕ → List ℕ → ℕ → Packet
wire cable cin msg len = record {
  cable = cable;
  cin = cin;
  length = cin_data_length cin;
  data0 = padded msg len 0;
  data1 = padded msg len 1;
  data2 = padded msg len 2;
}

-- A packet on the wire is heard by the stream of its cable.
pub heard-build :
    (cable cin len : ℕ) (run : Bool) (msg : List ℕ)
    → cable < 16
    → cin < 16
    → heard cable run (tx_packet_build cable cin msg len)
      ≡ hear (kind cin) (record { run = run; queue = [] }) (wire cable cin msg len)
unfolding feed
heard-build cable cin len run msg h k =
    let (c, n, l, d₀, d₁, d₂) = packet_of-build cable cin len msg h k in
    let decoded : packet_of (tx_packet_build cable cin msg len) ≡ wire cable cin msg len = λ i.
      record { cable = c i; cin = n i; length = l i; data0 = d₀ i; data1 = d₁ i; data2 = d₂ i } in
    ap (feed cable (record { run = run; queue = [] })) decoded ∙ rw ((==_iff cable cable).1 refl)

pub listen-packets_of :
    (cable : ℕ) (run : Bool) (msg : List ℕ)
    → cable < 16
    → 0 < length msg
    → view (listen cable run (packets_of cable msg)) ≡ pieces run msg
unfolding listen hear kind cin_data_length tx_end_cin
listen-packets_of cable run (a ∷ b ∷ c ∷ d ∷ rest) h pos =
    rw (heard-build cable Cin.sysex_start 3 run (a ∷ b ∷ c ∷ []) h (omega arith)) (
      ap (◌∷◌ (a ∷ b ∷ c ∷ [], if run then mid else start))
        (listen-packets_of cable true (d ∷ rest) h (omega arith)))
listen-packets_of cable run (a ∷ b ∷ c ∷ []) h pos =
    rw (heard-build cable Cin.sysex_end_3 3 run (a ∷ b ∷ c ∷ []) h (omega arith)) refl
listen-packets_of cable run (a ∷ b ∷ []) h pos =
    rw (heard-build cable Cin.sysex_end_2 2 run (a ∷ b ∷ []) h (omega arith)) refl
listen-packets_of cable run (a ∷ []) h pos =
    rw (heard-build cable Cin.sysex_end_1 1 run (a ∷ []) h (omega arith)) refl
listen-packets_of cable run [] h pos = absurd (omega arith)

-- A SysEx message F0 ... F7 of any length, on a cable of at most 15, for which `max_packets` is
-- enough and `out` has that room, is delivered whole and in order by an idle stream of its cable
-- with no SysEx open: in pieces tagged start, middle and end, or as one complete message if it
-- has three bytes or fewer.
pub sysex_round_trip :
    (tx : TxStream) (max_packets : ℕ) (msg : List ℕ) (out : List (List ℕ)) {s : RxStream}
    → IsIdle s
    → s.cable ≤ max_cable
    → s.in_sysex ≡ false
    → IsSysex msg
    → packet_count msg ≤ max_packets
    → max_packets ≤ length out
    → let (sent, _, out') = tx_message tx s.cable (some msg) (length msg) out max_packets in
      view (deliver s (take sent out')) ≡ pieces false msg
sysex_round_trip tx max_packets msg out {s} idle c f h n m =
    rw (tx_message-packets_of tx s.cable max_packets msg out c h n m) (
      rw
        (take_front (packets_of s.cable msg) _ (packet_count msg)
          (length-packets_of s.cable msg (omega (arith, h.two))))
        (rw (deliver-listen (packets_of s.cable msg) idle, f)
          (listen-packets_of s.cable false msg (omega arith) (omega (arith, h.two)))))
