-- ===== src/Tx/Accept.antt =====
-- When `um9_tx_message` of core/midi_stream.c accepts a message, and what a refusal leaves alone.
use usbmidi.Prelude.{
  get_or, ℕ, ◌+◌, ◌-◌, ◌/◌, ◌≤◌, ◌<◌, ◌≡◌, refl, ◌≢◌, ◌↔◌, ◌⊎◌, inl, inr, Option, none, some, List,
  ◌∷◌, arith,
}
use usbmidi.Packets.{max_cable}
use usbmidi.Packets.Codec.{
  message_size, message_size_bounds, packet_encode_accepts, packet_encode_cases,
}
use usbmidi.Tx.{TxStream, rejected, tx_sysex, tx_eox, tx_fixed, tx_message, no_packet}

-- The messages that can be sent: of the size of their status byte, or a lone F7, or F0 ... F7.
abbrev pub IsMessage : ℕ → List ℕ → ℕ → Type 0
IsMessage status msg len =
    ((0 < len) × (len ≡ message_size status))
    ⊎ ((status ≡ 0xf7) × (len ≡ 1))
    ⊎ ((status ≡ 0xf0) × (2 ≤ len) × (get_or msg (len - 1) 0 ≡ 0xf7))

-- When the result is 0, nothing was written to `out`, and the stream has changed in its
-- malformed counter alone, by one.
pub tx_message_rejects :
    (s : TxStream) (cable len max_packets : ℕ) (msg : Option (List ℕ)) (out : List (List ℕ))
    → (tx_message s cable msg len out max_packets).0 ≡ 0
    → tx_message s cable msg len out max_packets ≡ (0, rejected s, out)
unfolding tx_message tx_sysex tx_eox tx_fixed
tx_message_rejects s cable len max_packets none out h = refl
tx_message_rejects s cable len max_packets (some msg) out h = ground arith

fixed_accepts :
    (s : TxStream) (cable status len max_packets : ℕ) (rest : List ℕ) (out : List (List ℕ))
    → status < 256
    → ((tx_fixed s cable (status ∷ rest) len out max_packets).0 ≢ 0)
      ↔ ((cable ≤ max_cable) × (0 < len) × (len ≡ message_size status) × (1 ≤ max_packets))
unfolding tx_fixed
fixed_accepts s cable status len max_packets rest out h =
    let exact = packet_encode_accepts cable status len rest no_packet h in
    elim (packet_encode_cases cable len (status ∷ rest) no_packet) [
      | inl e ↦ rw e (ground (arith, rw e at exact))
      | inr (cin, e) ↦ rw e (ground (arith, rw e at exact))
    ]

-- A message is sent, with a result other than 0, exactly when the cable is at most 15, the
-- message is F0 ... F7, a lone F7, or of the size that MIDI 1.0 gives for its status byte, and
-- `max_packets` packets hold its bytes by threes.
pub tx_message_accepts :
    (s : TxStream) (cable status len max_packets : ℕ) (rest : List ℕ) (out : List (List ℕ))
    → status < 256
    → ((tx_message s cable (some (status ∷ rest)) len out max_packets).0 ≢ 0)
      ↔ ((cable ≤ max_cable) × IsMessage status (status ∷ rest) len × ((len + 2) / 3 ≤ max_packets))
unfolding tx_message tx_sysex tx_eox
tx_message_accepts s cable status len max_packets rest out h =
    ground
      (arith, message_size_bounds status h, fixed_accepts s cable status len max_packets rest out h)
