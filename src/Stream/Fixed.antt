-- ===== src/Stream/Fixed.antt =====
-- Messages of one to three bytes, sent by `um9_tx_message` and received again.
use usbmidi.Prelude.{
  length, set, take, ℕ, ◌+◌, ◌*◌, ◌%◌, ◌≤◌, ◌<◌, ◌≡◌, refl, ap, ◌∙◌, inl, inr, Bool, true, some,
  List, [], ◌∷◌, arith,
}
use usbmidi.Packets.{max_cable, cin_data_length, encoded, packet_encode}
use usbmidi.Packets.Codec.{
  is_single, message_size, packet_encode_cases, packet_encode_accepts, packet_encode_fields,
  message_size_bounds,
}
use usbmidi.Rx.{whole, message_of, RxStream}
use usbmidi.Rx.Spec.{kind, single, hear}
use usbmidi.Tx.{
  TxStream, padded, tx_packet_build, accepted, packet_bytes, no_packet, tx_fixed, tx_message,
}
use usbmidi.Stream.{payload, deliver}
use usbmidi.Stream.Listen.{listen, deliver-listen, IsIdle}
use usbmidi.Stream.RoundTrip.{view, wire, heard-build}

pub kind-is_single : (cin : ℕ) → is_single cin ≡ true → kind cin ≡ single
unfolding kind
kind-is_single cin h = ground arith

-- Such a message has one to three bytes, and all of them are in its packet.
payload-wire :
    (cable cin : ℕ) (msg : List ℕ)
    → cin_data_length cin ≡ length msg
    → 0 < length msg
    → length msg ≤ 3
    → payload (message_of (wire cable cin msg (length msg)) whole) ≡ msg
payload-wire cable cin [] e pos le = absurd (omega arith)
payload-wire cable cin (a ∷ []) e pos le = rw e
payload-wire cable cin (a ∷ b ∷ []) e pos le = rw e
payload-wire cable cin (a ∷ b ∷ c ∷ []) e pos le = rw e
payload-wire cable cin (a ∷ b ∷ c ∷ d ∷ rest) e pos le = absurd (omega arith)

listen_single :
    (cable cin : ℕ) (run : Bool) (msg : List ℕ)
    → cable < 16
    → cin < 16
    → is_single cin ≡ true
    → cin_data_length cin ≡ length msg
    → 0 < length msg
    → length msg ≤ 3
    → view (listen cable run (tx_packet_build cable cin msg (length msg) ∷ [])) ≡ (msg, whole) ∷ []
unfolding listen hear
listen_single cable cin run msg h k single_cin e pos le =
    rw (heard-build cable cin (length msg) run msg h k, kind-is_single cin single_cin)
      (ap (λ p. (p, whole) ∷ []) (payload-wire cable cin msg e pos le))

-- The bytes that `um9_packet_encode` padded are padded once more.
build-encoded :
    (cable cin : ℕ) (msg : List ℕ) (len : ℕ)
    → let p = encoded cable cin msg len in
      tx_packet_build cable cin (packet_bytes p) len ≡ tx_packet_build cable cin msg len
unfolding tx_packet_build
build-encoded cable cin msg len =
    let head : ℕ = cable % 16 * 16 + cin % 16 in
    let e₀ : padded (packet_bytes (encoded cable cin msg len)) len 0 ≡ padded msg len 0 =
      ground arith in
    let e₁ : padded (packet_bytes (encoded cable cin msg len)) len 1 ≡ padded msg len 1 =
      ground arith in
    let e₂ : padded (packet_bytes (encoded cable cin msg len)) len 2 ≡ padded msg len 2 =
      ground arith in
    λ i. head ∷ e₀ i ∷ e₁ i ∷ e₂ i ∷ []

record SentOne (s : TxStream) (cable : ℕ) (msg : List ℕ) (len : ℕ) (out : List (List ℕ))
    (r : ℕ × TxStream × List (List ℕ)) : Type 0 where
  cin : ℕ
  small : cin < 16
  complete : is_single cin ≡ true
  carries : cin_data_length cin ≡ len
  result : r ≡ (1, accepted s, set out 0 (tx_packet_build cable cin msg len))

tx_fixed_sent :
    (s : TxStream) (cable cin max_packets len : ℕ) (msg : List ℕ) (out : List (List ℕ))
    → packet_encode cable (some msg) len (some no_packet) ≡ (1, some (encoded cable cin msg len))
    → 1 ≤ max_packets
    → tx_fixed s cable msg len out max_packets ≡ (
      1,
      accepted s,
      set out 0 (tx_packet_build cable cin (packet_bytes (encoded cable cin msg len)) len),
    )
unfolding tx_fixed
tx_fixed_sent s cable cin max_packets len msg out e n = rw e (ground arith)

tx_message-tx_fixed :
    (s : TxStream) (cable max_packets status len : ℕ) (rest : List ℕ) (out : List (List ℕ))
    → status < 256
    → cable ≤ max_cable
    → 0 < message_size status
    → len ≡ message_size status
    → tx_message s cable (some (status ∷ rest)) len out max_packets
      ≡ tx_fixed s cable (status ∷ rest) len out max_packets
unfolding tx_message
tx_message-tx_fixed s cable max_packets status len rest out b c pos e =
    ground (arith, message_size_bounds status b)

view-deliver :
    (buf : List ℕ) {s : RxStream}
    → IsIdle s
    → view (deliver s (buf ∷ [])) ≡ view (listen s.cable s.in_sysex (buf ∷ []))
view-deliver buf idle = ap view (deliver-listen (buf ∷ []) idle)

tx_fixed-SentOne :
    (s : TxStream) (cable max_packets status len : ℕ) (rest : List ℕ) (out : List (List ℕ))
    → status < 256
    → cable ≤ max_cable
    → 0 < len
    → len ≡ message_size status
    → 1 ≤ max_packets
    → SentOne s cable (status ∷ rest) len out (tx_fixed s cable (status ∷ rest) len out max_packets)
tx_fixed-SentOne s cable max_packets status len rest out b c pos e n =
    elim (packet_encode_cases cable len (status ∷ rest) no_packet) [
      | inl refused ↦
          absurd (ground (arith, refused, packet_encode_accepts cable status len rest no_packet b))
      | inr (cin, sent) ↦
          let fields = packet_encode_fields cable len (status ∷ rest) no_packet _ b sent in
          record {
            cin = cin;
            small = fields.2;
            complete = fields.3;
            carries = fields.5;
            result =
                tx_fixed_sent s cable cin max_packets len (status ∷ rest) out sent n
                ∙ ap (λ p. (1, accepted s, set out 0 p))
                    (build-encoded cable cin (status ∷ rest) len);
          }
    ]

-- A message of the size that MIDI 1.0 gives for its status byte, on a cable of at most 15 and
-- with room for a packet, goes out as one packet, and an idle stream of its cable delivers
-- exactly its bytes, as a complete message, also inside a SysEx run.
pub fixed_round_trip :
    (tx : TxStream) (max_packets status : ℕ) (rest : List ℕ) (out : List (List ℕ)) {s : RxStream}
    → IsIdle s
    → s.cable ≤ max_cable
    → status < 256
    → 0 < message_size status
    → length (status ∷ rest) ≡ message_size status
    → 1 ≤ max_packets
    → max_packets ≤ length out
    → let msg = status ∷ rest in
      let (sent, _, out') = tx_message tx s.cable (some msg) (length msg) out max_packets in
      (sent ≡ 1) × (view (deliver s (take sent out')) ≡ (msg, whole) ∷ [])
fixed_round_trip tx max_packets status rest [] idle c b pos e n m = absurd (omega arith)
fixed_round_trip tx max_packets status rest (y ∷ room) {s} idle c b pos e n m =
    let msg = status ∷ rest in
    let one =
      tx_fixed-SentOne tx s.cable max_packets status (length msg) rest (y ∷ room) b c (omega arith)
        e n in
    rw (tx_message-tx_fixed tx s.cable max_packets status (length msg) rest (y ∷ room) b c pos e) (
      rw one.result (
        refl,
        view-deliver (tx_packet_build s.cable one.cin msg (length msg)) idle
            ∙ listen_single s.cable one.cin s.in_sysex msg (omega arith) one.small one.complete
                one.carries (omega arith) (omega (arith, message_size_bounds status b)),
      ))
