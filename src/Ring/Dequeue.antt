-- ===== src/Ring/Dequeue.antt =====
-- `um9_ring_dequeue` of classic/ring.c takes the oldest bytes off the ring.
use native.Mathlib.Nat.{mod-lt}
use Prim.Native.Nat.{bit_and}
use native.Mathlib.Decide.{ℕ_discrete}
use usbmidi.Prelude.{
  leb, leb→le, Bool-cases, word, get_or, take, drop, ℕ, zero, suc, ◌+◌, ◌-◌, ◌%◌, ◌≤◌, ◌<◌, min,
  ◌≡◌, refl, sym, ap, ap₂, ◌∙◌, ◌≢◌, inl, inr, true, List, [], ◌∷◌, arith,
}
use usbmidi.Ring.{Ring, copy_out, loaded, dequeue_count, dequeue_at, ring_dequeue}
use usbmidi.Ring.Window.{
  window, IsValid, used, contents, slot_of_wrapped, slot_of_mask, size_pos, window-append,
  window_of_slot,
}
use usbmidi.Ring.Enqueue.{next_slot, wrap_slot}

-- One loop of loads that does not go round.
copy_out-window :
    (n i off size h : ℕ) (mem : List ℕ)
    → off + i ≡ h % size
    → off + i + n ≤ size
    → copy_out n i off mem ≡ window mem size h n
unfolding copy_out
copy_out-window zero i off size h mem e le = refl
copy_out-window (suc zero) i off size h mem e le = rw e
copy_out-window (suc (suc n)) i off size h mem e le = ap₂ ◌∷◌ (ap (λ s. get_or mem s 0) e) (
    copy_out-window (suc n) (i + 1) off size (h + 1) mem
      (omega (arith, next_slot h size (omega arith))) (omega arith))

-- Both loops.
loaded-window :
    (mem : List ℕ) (size h n : ℕ)
    → 0 < size
    → n ≤ size
    → loaded mem size (h % size) n ≡ window mem size h n
unfolding loaded
loaded-window mem size h n pos le = elim (Bool-cases (leb n (size - h % size))) [
  | inl straight ↦ rw straight (
      copy_out-window n 0 (h % size) size h mem (omega arith)
        (omega (arith, mod-lt h pos, leb→le n (size - h % size) straight)))
  | inr round ↦
      let avail1 : ℕ = size - h % size in
      let more : avail1 < n = ground arith in
      let count : avail1 + (n - avail1) ≡ n = omega arith in
      rw
        (
          round,
          copy_out-window avail1 0 (h % size) size h mem (omega arith)
              (omega (arith, mod-lt h pos)),
          copy_out-window (n - avail1) 0 0 size (h + avail1) mem (wrap_slot h size pos)
              (omega arith),
        )
        (sym (ap (window mem size h) (sym count) ∙ window-append mem size h avail1 (n - avail1)))
]

take-window :
    (mem : List ℕ) (size h a b : ℕ) → take a (window mem size h (a + b)) ≡ window mem size h a
take-window mem size h zero b = refl
take-window mem size h (suc a) b =
    let e : suc a + b ≡ suc (a + b) = omega arith in
    rw e (ap (◌∷◌ (get_or mem (h % size) 0)) (take-window mem size (h + 1) a b))

drop-window :
    (mem : List ℕ) (size h a b : ℕ) → drop a (window mem size h (a + b)) ≡ window mem size (h + a) b
drop-window mem size h zero b =
    let e : zero + b ≡ b = omega arith in let e' : h + zero ≡ h = omega arith in rw (e, e')
drop-window mem size h (suc a) b =
    let e : suc a + b ≡ suc (a + b) = omega arith in
    let e' : h + 1 + a ≡ h + suc a = omega arith in
    rw e (rw e' at (drop-window mem size (h + 1) a b))

-- the ring behind a load of `n` bytes
abbrev dequeued : Ring → ℕ → Ring
dequeued r n = record r { head = (r.head + n) % word }

module _ {r : Ring} {size : ℕ} {mem : List ℕ} (v : IsValid r size mem) where
  used-dequeued : (n : ℕ) → n ≤ used r → used (dequeued r n) ≡ used r - n
  used-dequeued n le = omega (arith, v.fits, v.small, v.head_in, v.tail_in)

  dequeued-IsValid : (n : ℕ) → n ≤ used r → IsValid (dequeued r n) size mem
  dequeued-IsValid n le = record {
    at = v.at;
    power = v.power;
    small = v.small;
    slots = v.slots;
    head_in = omega arith;
    tail_in = v.tail_in;
    fits = omega (arith, used-dequeued n le, v.fits);
  }

  dequeue_nothing :
      (max_bytes : ℕ) → min max_bytes (used r) ≡ 0 → ring_dequeue r size true max_bytes ≡ (0, [], r)
  unfolding ring_dequeue
  dequeue_nothing max_bytes e =
      ap (λ b. dequeue_at r size b true max_bytes) v.at ∙ ground (arith, v.power)

  dequeue_some :
      (max_bytes : ℕ)
      → min max_bytes (used r) ≢ 0
      → let n = min max_bytes (used r) in
        ring_dequeue r size true max_bytes
        ≡ (n, loaded mem size (bit_and r.head (size - 1)) n, dequeued r n)
  unfolding ring_dequeue
  dequeue_some max_bytes ne =
      let n : dequeue_count r max_bytes ≡ min max_bytes (used r) = ground arith in
      ap (λ b. dequeue_at r size b true max_bytes) v.at ∙ ground (arith, n, v.power)

  -- On a well-formed ring `um9_ring_dequeue` gives the oldest bytes in order, as many as asked
  -- for or as there are, and leaves exactly the others in the ring, which stays well formed.
  pub ring_dequeue_takes :
      (max_bytes : ℕ)
      → let (n, out, r') = ring_dequeue r size true max_bytes in
        (n ≡ min max_bytes (used r))
        × (out ≡ take n (contents r size mem))
        × IsValid r' size mem
        × (contents r' size mem ≡ drop n (contents r size mem))
  ring_dequeue_takes max_bytes = elim (ℕ_discrete (min max_bytes (used r)) 0) [
    | yes e ↦ rw (dequeue_nothing max_bytes e) (sym e, refl, v, refl)
    | no ne ↦
        let n : ℕ = min max_bytes (used r) in
        let le : n ≤ used r = omega arith in
        let count : n + (used r - n) ≡ used r = omega arith in
        rw (dequeue_some max_bytes ne) (
          refl,
          ap (λ o. loaded mem size o n) (slot_of_mask size r.head v.power)
              ∙ loaded-window mem size r.head n (size_pos size v.power) (omega (arith, v.fits))
              ∙ sym (take-window mem size r.head n (used r - n))
              ∙ ap (λ k. take n (window mem size r.head k)) count,
          dequeued-IsValid n le,
          ap (window mem size ((r.head + n) % word)) (used-dequeued n le)
              ∙ window_of_slot mem size ((r.head + n) % word) (r.head + n) (used r - n)
                  (slot_of_wrapped size (r.head + n) v.power v.small)
              ∙ sym (drop-window mem size r.head n (used r - n))
              ∙ ap (λ k. drop n (window mem size r.head k)) count,
        )
  ]
