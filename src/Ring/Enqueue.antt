-- ===== src/Ring/Enqueue.antt =====
-- `um9_ring_enqueue` of classic/ring.c appends to the bytes that the ring holds.
use native.Mathlib.Decide.{dec_lt}
use native.Mathlib.Nat.{mod-add-mod, mod-eq_of_lt, mod-lt, mod_self, mod-eq-sub-mod}
use usbmidi.Prelude.{
  leb, leb→le, Bool-cases, length, get_or, set, take, length-set, get_or-set_self, get_or-set_ne, ℕ,
  zero, suc, ◌+◌, ◌-◌, ◌%◌, ◌≤◌, ◌<◌, ◌≡◌, refl, sym, ap, ap₂, ◌∙◌, ◌≢◌, inl, inr, List, [], ◌∷◌,
  ◌++◌, append-nil, append_assoc, arith,
}
use usbmidi.Ring.{copy_in, stored}
use usbmidi.Ring.Window.{window}

-- `n` bytes of `src` from `j` on
abbrev pub slice : List ℕ → ℕ → ℕ → List ℕ
slice src j zero = []
slice src j (suc n) = get_or src j 0 ∷ slice src (j + 1) n

pub length-slice : (src : List ℕ) (j n : ℕ) → length (slice src j n) ≡ n
length-slice src j zero = refl
length-slice src j (suc n) = ap suc (length-slice src (j + 1) n)

pub slice-append :
    (src : List ℕ) (j a b : ℕ) → slice src j (a + b) ≡ slice src j a ++ slice src (j + a) b
slice-append src j zero b =
    let e : zero + b ≡ b = omega arith in let e' : j + zero ≡ j = omega arith in rw (e, e')
slice-append src j (suc a) b =
    let e : suc a + b ≡ suc (a + b) = omega arith in
    let e' : j + 1 + a ≡ j + suc a = omega arith in
    rw e (ap (◌∷◌ (get_or src j 0)) (rw e' at (slice-append src (j + 1) a b)))

slice-cons : (x : ℕ) (src : List ℕ) (j n : ℕ) → slice (x ∷ src) (suc j) n ≡ slice src j n
slice-cons x src j zero = refl
slice-cons x src j (suc n) =
    let e : suc j + 1 ≡ suc (j + 1) = omega arith in
    rw e (ap (◌∷◌ (get_or src j 0)) (slice-cons x src (j + 1) n))

pub slice-take : (n : ℕ) (src : List ℕ) → n ≤ length src → slice src 0 n ≡ take n src
slice-take zero src h = refl
slice-take (suc n) [] h = absurd (omega arith)
slice-take (suc n) (x ∷ src) h = ap (◌∷◌ x) (slice-cons x src 0 n ∙ slice-take n src (omega arith))

-- The stores, byte by byte, at the slots of the counters from `t` on.
abbrev pub write_all : List ℕ → ℕ → ℕ → List ℕ → List ℕ
write_all mem size t [] = mem
write_all mem size t (b ∷ bs) = write_all (set mem (t % size) b) size (t + 1) bs

write_all-append :
    (mem : List ℕ) (size t : ℕ) (xs ys : List ℕ)
    → write_all mem size t (xs ++ ys) ≡ write_all (write_all mem size t xs) size (t + length xs) ys
write_all-append mem size t [] ys = let e : t + 0 ≡ t = omega arith in rw e
write_all-append mem size t (x ∷ xs) ys =
    let e : t + 1 + length xs ≡ t + suc (length xs) = omega arith in
    rw e at (write_all-append (set mem (t % size) x) size (t + 1) xs ys)

pub length-write_all :
    (mem : List ℕ) (size t : ℕ) (bs : List ℕ) → length (write_all mem size t bs) ≡ length mem
length-write_all mem size t [] = refl
length-write_all mem size t (b ∷ bs) =
    length-write_all (set mem (t % size) b) size (t + 1) bs ∙ length-set mem (t % size) b

pub next_slot : (t size : ℕ) → t % size + 1 < size → (t + 1) % size ≡ t % size + 1
next_slot t size h = sym (mod-add-mod t size 1) ∙ mod-eq_of_lt h

pub wrap_slot : (t size : ℕ) → 0 < size → 0 + 0 ≡ (t + (size - t % size)) % size
wrap_slot t size pos =
    let r : ℕ = t % size in
    let whole : r + (size - r) ≡ size = omega (arith, mod-lt t pos) in
    sym (sym (mod-add-mod t size (size - r)) ∙ ap (λ k. k % size) whole ∙ mod_self size)

-- One loop of stores that does not go round.
copy_in-write_all :
    (n i off from size t : ℕ) (mem src : List ℕ)
    → off + i ≡ t % size
    → off + i + n ≤ size
    → copy_in n i off mem from src ≡ write_all mem size t (slice src (from + i) n)
unfolding copy_in
copy_in-write_all zero i off from size t mem src e h = refl
copy_in-write_all (suc zero) i off from size t mem src e h = rw e
copy_in-write_all (suc (suc n)) i off from size t mem src e h =
    let shift : from + (i + 1) ≡ from + i + 1 = omega arith in
    let here : t % size + 1 < size = omega arith in
    let mem' = set mem (t % size) (get_or src (from + i) 0) in
    let rest =
      copy_in-write_all (suc n) (i + 1) off from size (t + 1) mem' src
        (omega (arith, next_slot t size here)) (omega arith) in
    rw e (rest ∙ ap (λ k. write_all mem' size (t + 1) (slice src k (suc n))) shift)

-- Both loops: the second starts at slot 0, where the first has reached the end.
pub stored-write_all :
    (mem src : List ℕ) (size t n : ℕ)
    → 0 < size
    → n ≤ size
    → stored mem size (t % size) src n ≡ write_all mem size t (slice src 0 n)
unfolding stored
stored-write_all mem src size t n pos le = elim (Bool-cases (leb n (size - t % size))) [
  | inl straight ↦ rw straight (
      copy_in-write_all n 0 (t % size) 0 size t mem src (omega arith)
        (omega (arith, mod-lt t pos, leb→le n (size - t % size) straight)))
  | inr round ↦
      let free1 : ℕ = size - t % size in
      let more : free1 < n = ground arith in
      let zero_slot : 0 + 0 ≡ (t + free1) % size = wrap_slot t size pos in
      let first =
        copy_in-write_all free1 0 (t % size) 0 size t mem src (omega arith)
          (omega (arith, mod-lt t pos)) in
      let second =
        copy_in-write_all (n - free1) 0 0 free1 size (t + free1)
          (write_all mem size t (slice src 0 free1)) src zero_slot (omega arith) in
      let count : free1 + (n - free1) ≡ n = omega arith in
      let start_at : free1 + 0 ≡ free1 = omega arith in
      let start_from : 0 + free1 ≡ free1 = omega arith in
      rw (round, first)
        (second
          ∙ rw start_at (
              sym (
                ap (write_all mem size t) (
                  ap (slice src 0) (sym count)
                  ∙ slice-append src 0 free1 (n - free1)
                  ∙ ap (λ k. slice src 0 free1 ++ slice src k (n - free1)) start_from)
                ∙ write_all-append mem size t (slice src 0 free1) (slice src free1 (n - free1))
                ∙ ap
                    (λ k.
                      write_all (write_all mem size t (slice src 0 free1)) size (t + k)
                        (slice src free1 (n - free1)))
                    (length-slice src 0 free1))))
]

-- Fewer than `size` steps round the ring do not come back to the same slot.
slot_ne : (size h k : ℕ) → suc k < size → h % size ≢ (h + suc k) % size
slot_ne size h k lt e =
    let a : ℕ = h % size in
    let fits : a < size = mod-lt h (omega arith) in
    let same : a ≡ (a + suc k) % size = e ∙ sym (mod-add-mod h size (suc k)) in
    elim (dec_lt (a + suc k) size) [
      | yes p ↦ omega (arith, same, mod-eq_of_lt p)
      | no p ↦ omega (
        arith,
        same,
        mod-eq-sub-mod {n = a + suc k} {m = size} (omega arith),
        mod-eq_of_lt {n = a + suc k - size} {m = size} (omega arith),
      )
    ]

-- Writing just behind a window extends it by that byte.
window-set :
    (mem : List ℕ) (size x n h : ℕ)
    → length mem ≡ size
    → n < size
    → window (set mem ((h + n) % size) x) size h (n + 1) ≡ window mem size h n ++ x ∷ []
window-set mem size x zero h l lt =
    let e : h + 0 ≡ h = omega arith in
    rw e (ap (λ b. b ∷ []) (get_or-set_self mem (h % size) x 0 (omega (arith, l, mod-lt h lt))))
window-set mem size x (suc n) h l lt =
    let e : h + suc n ≡ h + 1 + n = omega arith in
    let e' : suc n + 1 ≡ suc (n + 1) = omega arith in
    let other : (h + 1 + n) % size ≢ h % size = λ p. slot_ne size h n lt (sym (rw (← e) at p)) in
    rw (e, e')
      (ap₂ ◌∷◌ (get_or-set_ne mem x 0 other) (window-set mem size x n (h + 1) l (omega arith)))

-- Writing all the bytes behind a window appends them.
pub window-write_all :
    (bs : List ℕ) (mem : List ℕ) (size h n : ℕ)
    → length mem ≡ size
    → n + length bs ≤ size
    → window (write_all mem size (h + n) bs) size h (n + length bs) ≡ window mem size h n ++ bs
window-write_all [] mem size h n l fits =
    let e : n + 0 ≡ n = omega arith in rw e (sym (append-nil _))
window-write_all (b ∷ bs) mem size h n l fits =
    let e : n + suc (length bs) ≡ n + 1 + length bs = omega arith in
    let e' : h + n + 1 ≡ h + (n + 1) = omega arith in
    rw (e, e')
      (window-write_all bs (set mem ((h + n) % size) b) size h (n + 1)
          (length-set mem ((h + n) % size) b ∙ l) (omega arith)
        ∙ ap (λ w. w ++ bs) (window-set mem size b n h l (omega arith))
        ∙ append_assoc (window mem size h n) (b ∷ []) bs)
