-- ===== src/Ring/Window.antt =====
-- The bytes that a ring holds, and its representation invariant.
use native.Mathlib.Nat.{mod-add-mod, mod-mod_of_dvd, pow-suc, pow-le-pow_right}
use native.Mathlib.Decide.{dec_lt}
use Prim.Native.Nat.{bit_and}
use usbmidi.Prelude.{
  word, length, get_or, ℕ, zero, suc, ◌+◌, ◌-◌, ◌*◌, ◌%◌, ◌^◌, ◌≤◌, ◌<◌, ◌≡◌, refl, sym, ap, ap₂,
  ◌∙◌, true, some, List, [], ◌∷◌, ◌++◌, arith,
}
use usbmidi.Prelude.Bits.{is_power_of_two, is_power_of_two_iff, pow_pos, bit_and_mask}
use usbmidi.Ring.{Ring, sub_word}

-- The `n` bytes from counter `h` on; the counter is not wrapped here.
abbrev pub window : List ℕ → ℕ → ℕ → ℕ → List ℕ
window mem size h zero = []
window mem size h (suc n) = get_or mem (h % size) 0 ∷ window mem size (h + 1) n

abbrev pub used : Ring → ℕ
used r = sub_word r.tail r.head

-- A ring of `size` slots over the memory `mem`.
pub record IsValid (r : Ring) (size : ℕ) (mem : List ℕ) : Type 0 where
  pub at : r.buf ≡ some mem
  pub power : is_power_of_two size ≡ true
  pub small : size < word
  pub slots : length mem ≡ size
  pub head_in : r.head < word
  pub tail_in : r.tail < word
  pub fits : used r ≤ size

abbrev pub contents : Ring → ℕ → List ℕ → List ℕ
contents r size mem = window mem size r.head (used r)

pow_split : (k j : ℕ) → 2 ^ (k + j) ≡ 2 ^ k * 2 ^ j
pow_split k zero = let e : k ≡ k + 0 = omega arith in rw (← e) (omega arith)
pow_split k (suc j) =
    let e : suc (k + j) ≡ k + suc j = omega arith in
    rw (← e)
      (omega (arith, pow-suc 2 (k + j), ap (λ (t : ℕ). 2 ^ k * t) (pow-suc 2 j), pow_split k j))

-- `size` divides the modulus of the counters.
word_multiple : (size : ℕ) → is_power_of_two size ≡ true → size < word → (q : ℕ) × (word ≡ size * q)
word_multiple size p h =
    let (k, e) = (is_power_of_two_iff size).0 p in
    let small : k < 32 = elim (dec_lt k 32) [
      | yes lt ↦ lt
      | no ge ↦ absurd (
          omega
            (arith, e, h, pow-le-pow_right {n = 2} (omega arith) {i = 32} {j = k} (omega arith)))
    ] in
    let sum : k + (32 - k) ≡ 32 = omega arith in
    (2 ^ (32 - k), rw e (rw sum at (pow_split k (32 - k))))

-- A wrapped counter names the same slot.
pub slot_of_wrapped :
    (size a : ℕ) → is_power_of_two size ≡ true → size < word → a % word % size ≡ a % size
slot_of_wrapped size a p h =
    let (q, e) = word_multiple size p h in mod-mod_of_dvd size a ∣ (q, e) ∣₁

-- The mask of the code is the remainder.
pub slot_of_mask : (size a : ℕ) → is_power_of_two size ≡ true → bit_and a (size - 1) ≡ a % size
slot_of_mask size a p = let (k, e) = (is_power_of_two_iff size).0 p in rw e (bit_and_mask k a)

pub size_pos : (size : ℕ) → is_power_of_two size ≡ true → 0 < size
size_pos size p = let (k, e) = (is_power_of_two_iff size).0 p in rw e (pow_pos k)

pub length-window : (mem : List ℕ) (size h n : ℕ) → length (window mem size h n) ≡ n
length-window mem size h zero = refl
length-window mem size h (suc n) = ap suc (length-window mem size (h + 1) n)

pub window-append :
    (mem : List ℕ) (size h a b : ℕ)
    → window mem size h (a + b) ≡ window mem size h a ++ window mem size (h + a) b
window-append mem size h zero b =
    let e : zero + b ≡ b = omega arith in let e' : h + zero ≡ h = omega arith in rw (e, e')
window-append mem size h (suc a) b =
    let e : suc a + b ≡ suc (a + b) = omega arith in
    let e' : h + 1 + a ≡ h + suc a = omega arith in
    rw e (ap (◌∷◌ (get_or mem (h % size) 0)) (rw e' at (window-append mem size (h + 1) a b)))

-- Only the slot of the counter matters.
pub window_of_slot :
    (mem : List ℕ) (size h h' n : ℕ)
    → h % size ≡ h' % size
    → window mem size h n ≡ window mem size h' n
window_of_slot mem size h h' zero e = refl
window_of_slot mem size h h' (suc n) e = ap₂ ◌∷◌ (ap (λ s. get_or mem s 0) e) (
    window_of_slot mem size (h + 1) (h' + 1) n
      (sym (mod-add-mod h size 1) ∙ ap (λ s. (s + 1) % size) e ∙ mod-add-mod h' size 1))
