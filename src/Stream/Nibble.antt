-- ===== src/Stream/Nibble.antt =====
-- Channel voice packets whose CIN is the high nibble of their status byte, as the device log of
-- README.md shows them (`09 90 30 50`), against the CIN table of core/packets.h.
use usbmidi.Prelude.{
  ==_iff, get_or, take, ℕ, zero, suc, ◌+◌, ◌-◌, ◌*◌, ◌/◌, ◌%◌, ◌≤◌, ◌<◌, ◌≡◌, refl, ap, ◌↔◌, ◌⊎◌,
  inl, inr, Bool, List, [], ◌∷◌, append-nil, arith,
}
use usbmidi.Packets.{packet_of, cin_data_length, Packet, max_cable}
use usbmidi.Packets.Codec.{message_size, message_size_channel}
use usbmidi.Rx.{Sysex, whole, RxStream}
use usbmidi.Rx.Spec.{kind, feed, hear}
use usbmidi.Stream.{deliver}
use usbmidi.Stream.Listen.{IsIdle, listen, deliver-listen}
use usbmidi.Stream.RoundTrip.{view}

-- the packet of a channel voice message on the log
abbrev pub logged : ℕ → ℕ → ℕ → ℕ → List ℕ
logged cable status d₁ d₂ = (cable * 16 + status / 16) ∷ status ∷ d₁ ∷ d₂ ∷ []

-- The nibbles for which the table's entry of the same number fits.
abbrev pub Fits : ℕ → Type 0
Fits n = (n ≡ 9) ⊎ (n ≡ 0xa) ⊎ (n ≡ 0xb) ⊎ (n ≡ 0xd)

abbrev heard_as : ℕ → ℕ → ℕ → ℕ → ℕ → Packet
heard_as cable n status d₁ d₂ = record {
  cable = cable;
  cin = n;
  length = cin_data_length n;
  data0 = status;
  data1 = d₁;
  data2 = d₂;
}

packet_of-logged :
    (cable status d₁ d₂ : ℕ)
    → cable < 16
    → status < 256
    → packet_of (logged cable status d₁ d₂) ≡ heard_as cable (status / 16) status d₁ d₂
unfolding packet_of
packet_of-logged cable status d₁ d₂ c b =
    let hi : (cable * 16 + status / 16) / 16 % 16 ≡ cable = omega arith in
    let lo : (cable * 16 + status / 16) % 16 ≡ status / 16 = omega arith in
    λ i. record {
      cable = hi i;
      cin = lo i;
      length = cin_data_length (lo i);
      data0 = status;
      data1 = d₁;
      data2 = d₂;
    }

-- what is delivered, for the nibble `n`
abbrev outcome : ℕ → Bool → ℕ → ℕ → ℕ → ℕ → List (List ℕ × Sysex)
outcome cable run n status d₁ d₂ =
    view (hear (kind n) (record { run = run; queue = [] }) (heard_as cable n status d₁ d₂)).queue

outcome-Fits :
    (k cable status d₁ d₂ : ℕ) (run : Bool)
    → status < 0xf0
    → k ≤ 6
    → (outcome cable run (8 + k) status d₁ d₂
        ≡ (take (get_or (3 ∷ 3 ∷ 3 ∷ 3 ∷ 2 ∷ 2 ∷ 3 ∷ []) k 0) (status ∷ d₁ ∷ d₂ ∷ []), whole) ∷ [])
      ↔ Fits (8 + k)
unfolding hear kind cin_data_length
outcome-Fits zero cable status d₁ d₂ run b h = ground arith
outcome-Fits (suc zero) cable status d₁ d₂ run b h = (λ e. inl refl, λ f. refl)
outcome-Fits (suc (suc zero)) cable status d₁ d₂ run b h = (λ e. inr (inl refl), λ f. refl)
outcome-Fits (suc (suc (suc zero))) cable status d₁ d₂ run b h =
    (λ e. inr (inr (inl refl)), λ f. refl)
outcome-Fits (suc (suc (suc (suc zero)))) cable status d₁ d₂ run b h = ground arith
outcome-Fits (suc (suc (suc (suc (suc zero))))) cable status d₁ d₂ run b h =
    (λ e. inr (inr (inr refl)), λ f. refl)
outcome-Fits (suc (suc (suc (suc (suc (suc zero)))))) cable status d₁ d₂ run b h = ground arith
outcome-Fits (suc (suc (suc (suc (suc (suc (suc k))))))) cable status d₁ d₂ run b h =
    absurd (omega arith)

outcome-Fits_at :
    (n k cable status d₁ d₂ : ℕ) (run : Bool)
    → 8 + k ≡ n
    → status < 0xf0
    → k ≤ 6
    → (outcome cable run n status d₁ d₂
        ≡ (take (get_or (3 ∷ 3 ∷ 3 ∷ 3 ∷ 2 ∷ 2 ∷ 3 ∷ []) k 0) (status ∷ d₁ ∷ d₂ ∷ []), whole) ∷ [])
      ↔ Fits n
outcome-Fits_at n k cable status d₁ d₂ run e b h =
    rw (← e) (outcome-Fits k cable status d₁ d₂ run b h)

-- A channel voice message in a packet whose CIN is its status nibble, as on the device log, is
-- delivered by an idle stream of its cable as it was sent, with the length of its status byte
-- and as a complete message, exactly if the nibble is 9, A, B or D: not for Note Off (8),
-- Program Change (C) and Pitch Bend (E).
pub logged-Fits :
    (status d₁ d₂ : ℕ) {s : RxStream}
    → IsIdle s
    → s.cable ≤ max_cable
    → 0x80 ≤ status
    → status < 0xf0
    → (view (deliver s (logged s.cable status d₁ d₂ ∷ []))
        ≡ (take (message_size status) (status ∷ d₁ ∷ d₂ ∷ []), whole) ∷ [])
      ↔ Fits (status / 16)
unfolding listen feed
logged-Fits status d₁ d₂ {s} idle c lo hi =
    let k = status / 16 - 8 in
    let n : 8 + k ≡ status / 16 = omega arith in
    let told : view (deliver s (logged s.cable status d₁ d₂ ∷ []))
        ≡ outcome s.cable s.in_sysex (status / 16) status d₁ d₂ =
      rw
        (
          deliver-listen (logged s.cable status d₁ d₂ ∷ []) idle,
          packet_of-logged s.cable status d₁ d₂ (omega arith) (omega arith),
          (==_iff s.cable s.cable).1 refl,
        )
        (ap view (append-nil _)) in
    rw (told, message_size_channel status lo hi)
      (outcome-Fits_at (status / 16) k s.cable status d₁ d₂ s.in_sysex n hi (omega arith))
