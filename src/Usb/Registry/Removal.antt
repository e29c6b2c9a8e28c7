-- ===== src/Usb/Registry/Removal.antt =====
-- classic/usb_driver.c: how instances go.
use native.Mathlib.Decide.{ℕ_discrete}
use usbmidi.Prelude.{
  ◌==◌, if◌then◌else◌, Bool-cases, ℕ, zero, suc, ◌+◌, ◌-◌, ◌≤◌, ◌<◌, ◌≡◌, refl, sym, ap, ◌∙◌, ◌≢◌,
  ◌⊎◌, inl, inr, arith,
}
use usbmidi.Usb.Registry.{Driver, instance_at, dispose_instance, finalize_from, finalize}
use usbmidi.Usb.Registry.Slots.{IsRegistry, dispose-count, dispose_keeps}

abbrev pub ref_at : Driver → ℕ → ℕ
ref_at d j = (instance_at d j).interface_ref

-- The loop disposes the first instance with the reference, or finds none.
pub finalize_from-found :
    (d : Driver) (ref i n : ℕ)
    → ((k : ℕ) × (i ≤ k)
        × (k < i + n)
        × (ref_at d k ≡ ref)
        × (finalize_from d ref i n ≡ dispose_instance d k))
      ⊎ (((j : ℕ) → i ≤ j → j < i + n → ref_at d j ≢ ref) × (finalize_from d ref i n ≡ d))
unfolding finalize_from
finalize_from-found d ref i zero = inr (λ j le lt. absurd (omega (arith, le, lt)), refl)
finalize_from-found d ref i (suc n) = elim (Bool-cases (ref_at d i == ref)) [
  | inl e ↦ rw e (inl (i, omega arith, omega arith, ground (arith, e), refl))
  | inr e ↦
      let ne : ref_at d i ≢ ref = ground (arith, e) in
      elim (finalize_from-found d ref (i + 1) n) [
        | inl (k, le, lt, at, eq) ↦ rw e (inl (k, omega (arith, le), omega (arith, lt), at, eq))
        | inr (none_later, eq) ↦ rw e (
            inr (
              λ j le lt. elim (ℕ_discrete i j) [
                | yes s ↦ λ r. ne (ap (λ m. ref_at d m) s ∙ r)
                | no n ↦ none_later j (omega (arith, le, n)) (omega (arith, lt))
              ],
              eq,
            ))
      ]
]

-- If no two live instances have the same interface reference, then none has the reference of a
-- finalised connection any more.
pub finalize_forgets :
    (d : Driver) (ref j : ℕ)
    → IsRegistry d
    → ((i k : ℕ) → i < d.count → k < d.count → ref_at d i ≡ ref_at d k → i ≡ k)
    → let d' = (finalize d ref).1 in j < d'.count → ref_at d' j ≢ ref
unfolding finalize
finalize_forgets d ref j r distinct lt = elim (finalize_from-found d ref 0 d.count) [
  | inl (k, _, found, at, eq) ↦
      let below : k < d.count = omega (arith, found) in
      let live : j + 1 < d.count = omega (arith, lt, ap (λ x. x.count) eq, dispose-count d k) in
      let (_, _, same) = dispose_keeps d k j r below live in
      let m = if j == k then d.count - 1 else j in
      let other : m ≢ k = ground (arith, live, below) in
      let inside : m < d.count = ground (arith, live, below) in
      λ bad. other (
        distinct m k inside below
          (sym (ap (λ x. x.interface_ref) same) ∙ sym (ap (λ x. ref_at x j) eq) ∙ bad ∙ sym at))
  | inr (none_at, eq) ↦ λ bad.
      none_at j (omega arith) (omega (arith, lt, ap (λ x. x.count) eq))
        (sym (ap (λ x. ref_at x j) eq) ∙ bad)
]
