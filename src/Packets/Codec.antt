-- ===== src/Packets/Codec.antt =====
-- Which messages `um9_packet_encode` of core/packets.c accepts, and the CIN it gives them.
use usbmidi.Prelude.{
  ltb, leb, ◌==◌, if◌then◌else◌, Bool-cases, Option-cases, all_below, all_below_sound, get_or, ℕ,
  ◌+◌, ◌-◌, ◌/◌, ◌≤◌, ◌<◌, ◌≡◌, refl, ◌↔◌, ◌⊎◌, inl, inr, Bool, true, not, ◌&&◌, ◌||◌, Option, none,
  some, List, [], ◌∷◌, arith,
}
use usbmidi.Packets.{Packet, max_cable, cin_data_length, cin_for_status, encoded, packet_encode}

-- Message sizes by MIDI 1.0, from the status byte; 0 for data bytes, SysEx and undefined statuses.
unfoldable pub message_size : ℕ → ℕ
message_size status =
    if ltb status 0x80
    then 0
    else if ltb status 0xf0
    then get_or (3 ∷ 3 ∷ 3 ∷ 3 ∷ 2 ∷ 2 ∷ 3 ∷ []) (status / 16 - 8) 0
    else get_or (0 ∷ 2 ∷ 3 ∷ 2 ∷ 0 ∷ 0 ∷ 1 ∷ 0 ∷ 1 ∷ 1 ∷ 1 ∷ 1 ∷ 1 ∷ 1 ∷ 1 ∷ 1 ∷ []) (status - 0xf0)
        0

pub message_size_channel :
    (status : ℕ)
    → 0x80 ≤ status
    → status < 0xf0
    → message_size status ≡ get_or (3 ∷ 3 ∷ 3 ∷ 3 ∷ 2 ∷ 2 ∷ 3 ∷ []) (status / 16 - 8) 0
unfolding message_size
message_size_channel status lo hi = ground arith

message_size_table :
    all_below 256 (λ s.
      leb (message_size s) 3
      && (message_size s == 0 || leb 0x80 s && not (s == 0xf0) && not (s == 0xf7)))
    ≡ true
unfolding all_below message_size
message_size_table = refl

pub message_size_bounds :
    (status : ℕ)
    → status < 256
    → (message_size status ≤ 3)
      × (status < 0x80 → message_size status ≡ 0)
      × (status ≡ 0xf0 → message_size status ≡ 0)
      × (status ≡ 0xf7 → message_size status ≡ 0)
message_size_bounds status h = ground (arith, all_below_sound 256 _ status message_size_table h)

-- a code index number whose packet is a complete message
abbrev pub is_single : ℕ → Bool
is_single cin = leb 2 cin && not (cin == 4) && not (leb 6 cin && leb cin 8)

-- what one status byte's mapping must satisfy
abbrev mapping_fits : ℕ → Option (ℕ × ℕ) → Bool
mapping_fits status none = message_size status == 0
mapping_fits status (some (cin, need)) =
    message_size status == need
    && ltb 0 need
    && ltb cin 16
    && is_single cin
    && cin_data_length cin == need

mapping_table : all_below 256 (λ s. mapping_fits s (cin_for_status s)) ≡ true
unfolding all_below cin_for_status cin_data_length message_size
mapping_table = refl

pub cin_for_status_fits :
    (status : ℕ) → status < 256 → mapping_fits status (cin_for_status status) ≡ true
cin_for_status_fits status h = all_below_sound 256 _ status mapping_table h

-- The two ways in which `um9_packet_encode` returns.
pub packet_encode_cases :
    (cable len : ℕ) (msg : List ℕ) (old : Packet)
    → (packet_encode cable (some msg) len (some old) ≡ (0, some old))
      ⊎ ((cin : ℕ) × (packet_encode cable (some msg) len (some old)
            ≡ (1, some (encoded cable cin msg len))))
unfolding packet_encode
packet_encode_cases cable len msg old = elim (Option-cases (cin_for_status (get_or msg 0 0))) [
  | inl e ↦ rw e (inl (ground arith))
  | inr ((cin, need), e) ↦
      rw e (elim (Bool-cases (ltb max_cable cable || ltb len 1 || ltb 3 len || not (len == need))) [
        | inl bad ↦ inl (ground arith)
        | inr good ↦ inr (cin, ground arith)
      ])
]

-- For a status byte and a packet to write, the encoder returns 1 exactly when the cable is at
-- most 15 and the length is the one that MIDI 1.0 gives for the status byte; otherwise it
-- returns 0 and leaves `*out` alone.
pub packet_encode_accepts :
    (cable status len : ℕ) (rest : List ℕ) (old : Packet)
    → status < 256
    → let r = packet_encode cable (some (status ∷ rest)) len (some old) in
      ((r.0 ≡ 1) ↔ ((cable ≤ max_cable) × (0 < len) × (len ≡ message_size status)))
      × ((r.0 ≡ 1) ⊎ (r ≡ (0, some old)))
unfolding packet_encode
packet_encode_accepts cable status len rest old h = elim (Option-cases (cin_for_status status)) [
  | inl e ↦
      rw (e) (ground (arith, message_size_bounds status h, rw e at (cin_for_status_fits status h)))
  | inr ((cin, need), e) ↦
      rw (e) (ground (arith, message_size_bounds status h, rw e at (cin_for_status_fits status h)))
]

-- When the encoder returns 1, what it has written carries the message: its cable, its length,
-- its bytes padded by zeros, and a CIN of a complete message, from which a receiver reads the
-- same length again.
pub packet_encode_fields :
    (cable len : ℕ) (msg : List ℕ) (old pkt : Packet)
    → get_or msg 0 0 < 256
    → packet_encode cable (some msg) len (some old) ≡ (1, some pkt)
    → (pkt.cable ≡ cable)
      × (cable ≤ max_cable)
      × (pkt.cin < 16)
      × (is_single pkt.cin ≡ true)
      × (pkt.length ≡ len)
      × (cin_data_length pkt.cin ≡ len)
      × (pkt ≡ encoded cable pkt.cin msg len)
unfolding packet_encode
packet_encode_fields cable len msg old pkt h =
    elim (Option-cases (cin_for_status (get_or msg 0 0))) [
      | inl e ↦ rw (e) (λ r. absurd (ground arith))
      | inr ((cin, need), e) ↦
          let fits = rw e at (cin_for_status_fits (get_or msg 0 0) h) in rw (e) (λ r. ground arith)
    ]

-- The encoder's CIN of a channel voice message is one above the status nibble.
pub packet_encode_channel_cin :
    (cable status len : ℕ) (rest : List ℕ) (old pkt : Packet)
    → 0x80 ≤ status
    → status < 0xf0
    → packet_encode cable (some (status ∷ rest)) len (some old) ≡ (1, some pkt)
    → pkt.cin ≡ status / 16 + 1
unfolding packet_encode cin_for_status
packet_encode_channel_cin cable status len rest old pkt lo hi = ground arith
