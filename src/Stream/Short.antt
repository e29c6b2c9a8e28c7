-- ===== src/Stream/Short.antt =====
-- The messages of a stream of core/midi_stream.c are short, whatever a device sends.
use usbmidi.Prelude.{
  Each, Each-append, IsBytes, get_or-lt, if_true, pick, ltb, leb, ◌==◌, Bool-cases, all_below,
  all_below_sound, get_or, ℕ, ◌%◌, ◌≤◌, ◌<◌, ◌≡◌, refl, ◌⊎◌, inl, inr, Bool, true, ◌&&◌, ◌||◌, List,
  [], ◌∷◌, arith,
}
use usbmidi.Packets.{cin_data_length, packet_of, Packet}
use usbmidi.Rx.{RxMsg, message_of, Sysex}
use usbmidi.Rx.Spec.{Kind, Line, silent, continued, final, single, kind, hear, feed}
use usbmidi.Stream.Listen.{heard, listen}

-- a message of one to three bytes
pub record IsShort (m : RxMsg) : Type 0 where
  pub some_bytes : 0 < m.len
  pub short : m.len ≤ 3
  pub byte0 : m.data0 < 256
  pub byte1 : m.data1 < 256
  pub byte2 : m.data2 < 256

length_table :
    all_below 16 (λ cin. leb (cin_data_length cin) 3 && (ltb cin 2 || ltb 0 (cin_data_length cin)))
    ≡ true
unfolding all_below cin_data_length
length_table = refl

length_bounds :
    (cin : ℕ)
    → cin < 16
    → (cin_data_length cin ≤ 3) × ((kind cin ≡ silent) ⊎ (0 < cin_data_length cin))
unfolding kind
length_bounds cin lt =
    let row =
      all_below_sound 16 (λ c. leb (cin_data_length c) 3 && (ltb c 2 || ltb 0 (cin_data_length c)))
        cin length_table lt in
    (
      ground (arith, row),
      elim (Bool-cases (ltb cin 2)) [
        | inl quiet ↦ inl (if_true (ltb cin 2) silent _ quiet)
        | inr more ↦ inr (ground (arith, row, more))
      ],
    )

packet_of-Bounded :
    (buf : List ℕ)
    → IsBytes buf
    → let pkt = packet_of buf in
      (pkt.length ≤ 3)
      × ((kind pkt.cin ≡ silent) ⊎ (0 < pkt.length))
      × (pkt.data0 < 256)
      × (pkt.data1 < 256)
      × (pkt.data2 < 256)
unfolding packet_of
packet_of-Bounded buf h =
    let (short, full) = length_bounds (get_or buf 0 0 % 16) (omega arith) in
    (short, full, get_or-lt buf 1 h, get_or-lt buf 2 h, get_or-lt buf 3 h)

message_of-IsShort :
    (pkt : Packet) (sysex : Sysex)
    → 0 < pkt.length
    → pkt.length ≤ 3
    → pkt.data0 < 256
    → pkt.data1 < 256
    → pkt.data2 < 256
    → IsShort (message_of pkt sysex)
message_of-IsShort pkt sysex pos short b0 b1 b2 = record {
  some_bytes = pos;
  short = short;
  byte0 = b0;
  byte1 = pick (λ b. b < 256) (ltb 1 pkt.length) pkt.data1 0 b1 (omega arith);
  byte2 = pick (λ b. b < 256) (ltb 2 pkt.length) pkt.data2 0 b2 (omega arith);
}

abbrev quiet : Bool → Line
quiet run = record { run = run; queue = [] }

hear-IsShort :
    (k : Kind) (run : Bool) (pkt : Packet)
    → (k ≡ silent) ⊎ ((sysex : Sysex) → IsShort (message_of pkt sysex))
    → Each IsShort (hear k (quiet run) pkt).queue
unfolding hear
hear-IsShort silent run pkt h = tt
hear-IsShort continued run pkt (inl e) = cc
hear-IsShort continued run pkt (inr typed) = (typed _, tt)
hear-IsShort final run pkt (inl e) = cc
hear-IsShort final run pkt (inr typed) = (typed _, tt)
hear-IsShort single run pkt (inl e) = cc
hear-IsShort single run pkt (inr typed) = (typed _, tt)

heard-IsShort :
    (cable : ℕ) (run : Bool) (buf : List ℕ) → IsBytes buf → Each IsShort (heard cable run buf).queue
unfolding feed
heard-IsShort cable run buf h =
    let pkt = packet_of buf in
    let (short, full, b0, b1, b2) = packet_of-Bounded buf h in
    let typed : (kind pkt.cin ≡ silent) ⊎ ((sysex : Sysex) → IsShort (message_of pkt sysex)) =
      elim full [
        | inl e ↦ inl e
        | inr pos ↦ inr (λ sysex. message_of-IsShort pkt sysex pos short b0 b1 b2)
      ] in
    pick (λ (l : Line). Each IsShort l.queue) (pkt.cable == cable)
      (hear (kind pkt.cin) (quiet run) pkt) (quiet run) (hear-IsShort (kind pkt.cin) run pkt typed)
      tt

pub listen-IsShort :
    (cable : ℕ) (run : Bool) (bufs : List (List ℕ))
    → Each IsBytes bufs
    → Each IsShort (listen cable run bufs)
unfolding listen
listen-IsShort cable run [] h = tt
listen-IsShort cable run (buf ∷ bufs) h =
    Each-append IsShort (heard cable run buf).queue _ (heard-IsShort cable run buf h.0)
      (listen-IsShort cable (heard cable run buf).run bufs h.1)
