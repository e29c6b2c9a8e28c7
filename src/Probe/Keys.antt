-- ===== src/Probe/Keys.antt =====
-- The test of one key of probe/probe.c.
use native.Mathlib.Nat.{pow-suc, div-div-eq-div-mul}
use Prim.Native.Nat.{bit_and}
use native.Mathlib.Decide.{ℕ_discrete}
use usbmidi.Prelude.{
  leb, ◌==◌, leb→le, Bool-cases, get_or, ℕ, zero, suc, ◌*◌, ◌/◌, ◌%◌, ◌^◌, ◌<◌, ◌≡◌, sym, ap, ◌∙◌,
  ◌↔◌, inl, inr, true, not, List, arith,
}
use usbmidi.Prelude.Bits.{bit_and-zero, bit_and_step, pow_pos}
use usbmidi.Probe.{key_down}

-- a mask of one bit
bit_and_bit : (k a : ℕ) → bit_and a (2 ^ k) ≡ a / 2 ^ k % 2 * 2 ^ k
bit_and_bit zero a = omega (arith, bit_and_step a 1, bit_and-zero (a / 2))
bit_and_bit (suc k) a =
    let p = 2 ^ k in
    let double : 2 ^ suc k ≡ 2 * p = omega (arith, pow-suc 2 k) in
    let half : 2 * p / 2 ≡ p = omega arith in
    let even : 2 * p % 2 ≡ 0 = omega arith in
    let lower : bit_and (a / 2) (2 * p / 2) ≡ a / 2 / p % 2 * p =
      ap (bit_and (a / 2)) half ∙ bit_and_bit k (a / 2) in
    let whole : a / 2 / p ≡ a / (2 * p) = div-div-eq-div-mul a 2 p in
    let weight : a / 2 / p % 2 * p * 2 ≡ a / 2 / p % 2 * (2 * p) = omega arith in
    ap (bit_and a) double
    ∙ omega (arith, bit_and_step a (2 * p), lower, even, weight)
    ∙ ap (λ t. t % 2 * (2 * p)) whole
    ∙ sym (ap (λ q. a / q % 2 * q) double)

bit_set : (a p : ℕ) → 0 < p → (not (a % 2 * p == 0) ≡ true) ↔ (a % 2 ≡ 1)
bit_set a p pos = elim (ℕ_discrete (a % 2) 1) [
  | yes e ↦
      let whole : a % 2 * p ≡ p = rw e (omega arith) in (λ _. e, λ _. ground (arith, whole, pos))
  | no ne ↦
      let e : a % 2 ≡ 0 = omega (arith, ne) in
      let nothing : a % 2 * p ≡ 0 = rw e (omega arith) in
      (λ h. ground (arith, h, nothing), λ h. absurd (ne h))
]

-- `ProbeKeyDown`: a key is down exactly if its code is below 128 and, in byte `keycode / 8` of the key
-- map, the bit of weight 2 to the `keycode % 8` is set; so Q is bit 4 of byte 1.
pub key_down_iff :
    (keys : List ℕ) (keycode : ℕ)
    → (key_down keys keycode ≡ true)
      ↔ ((keycode < 128) × (get_or keys (keycode / 8) 0 / 2 ^ (keycode % 8) % 2 ≡ 1))
unfolding key_down
key_down_iff keys keycode =
    let byte = get_or keys (keycode / 8) 0 in
    let k = keycode % 8 in
    elim (Bool-cases (leb 128 keycode)) [
      | inl high ↦ rw high (λ e. cc, λ h. absurd (omega (arith, h.0, leb→le 128 keycode high)))
      | inr low ↦
          let lt : keycode < 128 = ground (arith, low) in
          let same : not (bit_and byte (2 ^ k) == 0) ≡ not (byte / 2 ^ k % 2 * 2 ^ k == 0) =
            ap (λ m. not (m == 0)) (bit_and_bit k byte) in
          let set_bit = bit_set (byte / 2 ^ k) (2 ^ k) (pow_pos k) in
          rw low (λ e. (lt, set_bit.0 (sym same ∙ e)), λ h. same ∙ set_bit.1 h.1)
    ]
