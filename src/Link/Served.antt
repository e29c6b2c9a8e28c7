-- ===== src/Link/Served.antt =====
-- classic/usb_driver.c: the bytes that the driver holds for each interface, and that a well-formed
-- registry of well-formed rings stays one.
use mathlib.Core.Path.{subst}
use native.Mathlib.Decide.{ℕ_discrete}
use usbmidi.Prelude.{
  drop_short, leb, if◌then◌else◌, Bool-cases, length, take, drop, take-nil, ℕ, zero, suc, ◌≤◌, ◌<◌,
  min, ◌≡◌, refl, sym, ap, ◌∙◌, ◌⊎◌, inl, inr, true, false, Option, none, some, List, [], ◌∷◌,
  arith,
}
use usbmidi.Ring.{Ring, ring_dequeue, dequeue_at}
use usbmidi.Ring.Window.{IsValid, contents, length-window, used}
use usbmidi.Ring.Dequeue.{ring_dequeue_takes}
use usbmidi.Usb.{World, ring_size}
use usbmidi.Usb.Registry.{Driver, instance_at, put_world}
use usbmidi.Usb.Registry.Slots.{
  IsRegistry, instance_at-put_world, instance_at-put_world_ne, put_world-IsRegistry,
}

-- a ring before its memory is there, or a well-formed one
abbrev pub IsRing : Ring → Type 0
IsRing r = (r.buf ≡ none) ⊎ ((mem : List ℕ) × IsValid r ring_size mem)

-- the registry is sound, and so is each ring
pub record IsServed (d : Driver) : Type 0 where
  pub registry : IsRegistry d
  pub rings : (i : ℕ) → i < d.count → IsRing (instance_at d i).ring

abbrev pub bytes_of : Ring → Option (List ℕ) → List ℕ
bytes_of r none = []
bytes_of r (some mem) = contents r ring_size mem

abbrev pub ring_bytes : Ring → List ℕ
ring_bytes r = bytes_of r r.buf

-- the bytes that are held for an interface
unfoldable pub held_bytes : Driver → ℕ → List ℕ
held_bytes d i = if leb d.count i then [] else ring_bytes (instance_at d i).ring

take-min {ℓ} : {A : Type ℓ} (n : ℕ) (xs : List A) → take (min n (length xs)) xs ≡ take n xs
take-min zero xs = let none_asked : min zero (length xs) ≡ 0 = omega arith in rw none_asked refl
take-min {A = A} (suc n) [] = take-nil A _
take-min (suc n) (x ∷ xs) =
    let step : min (suc n) (suc (length xs)) ≡ suc (min n (length xs)) = omega arith in
    rw step (ap (◌∷◌ x) (take-min n xs))

drop-min {ℓ} : {A : Type ℓ} (n : ℕ) (xs : List A) → drop (min n (length xs)) xs ≡ drop n xs
drop-min zero xs = let none_asked : min zero (length xs) ≡ 0 = omega arith in rw none_asked refl
drop-min (suc n) [] = drop_short _ [] (omega arith)
drop-min (suc n) (x ∷ xs) =
    let step : min (suc n) (suc (length xs)) ≡ suc (min n (length xs)) = omega arith in
    rw step (drop-min n xs)

-- What a dequeue of `n` bytes gives, and leaves.
pub record Dequeued (r : Ring) (n : ℕ) (out : List ℕ) (r' : Ring) : Type 0 where
  pub taken : out ≡ take n (ring_bytes r)
  pub left : ring_bytes r' ≡ drop n (ring_bytes r)
  pub sound : IsRing r'

pub valid_bytes :
    {r : Ring} {mem : List ℕ} → IsValid r ring_size mem → ring_bytes r ≡ contents r ring_size mem
valid_bytes {r} v = ap (bytes_of r) v.at

pub ring_dequeue-Dequeued :
    (r : Ring) (n : ℕ)
    → IsRing r
    → let (k, out, r') = ring_dequeue r ring_size true n in Dequeued r n out r'
unfolding ring_dequeue
ring_dequeue-Dequeued r n (inl e) =
    let nothing : ring_dequeue r ring_size true n ≡ (0, [], r) =
      ap (λ b. dequeue_at r ring_size b true n) e in
    let no_bytes : ring_bytes r ≡ [] = ap (bytes_of r) e in
    rw nothing (record {
      taken = sym (ap (take n) no_bytes ∙ take-nil ℕ n);
      left = no_bytes ∙ sym (ap (drop n) no_bytes ∙ drop_short n [] (omega arith));
      sound = inl e;
    })
ring_dequeue-Dequeued r n (inr (mem, v)) =
    let (k, taken, v', left) = ring_dequeue_takes v n in
    let all = contents r ring_size mem in
    let many : min n (used r) ≡ min n (length all) =
      ap (min n) (sym (length-window mem ring_size r.head (used r))) in
    record {
      taken =
          taken
          ∙ ap (λ j. take j all) (k ∙ many)
          ∙ take-min n all
          ∙ ap (take n) (sym (valid_bytes v));
      left =
          valid_bytes v'
          ∙ left
          ∙ ap (λ j. drop j all) (k ∙ many)
          ∙ drop-min n all
          ∙ ap (drop n) (sym (valid_bytes v));
      sound = inr (mem, v');
    }

ring_bounded : (r : Ring) → IsRing r → length (ring_bytes r) ≤ ring_size
ring_bounded r (inl e) = rw (ap (λ b. length (bytes_of r b)) e) (omega arith)
ring_bounded r (inr (mem, v)) =
    omega (arith, v.fits, ap length (valid_bytes v), length-window mem ring_size r.head (used r))

-- an instance is replaced by one with a sound ring
pub put_world-IsServed :
    (d : Driver) (i : ℕ) (w : World)
    → IsServed d
    → i < d.count
    → IsRing w.inst.ring
    → IsServed (put_world d i w)
put_world-IsServed d i w s lt sound =
    let self = instance_at-put_world d i w s.registry (omega (arith, s.registry.live, lt)) in
    record {
      registry = put_world-IsRegistry d i w s.registry;
      rings = λ j live. elim (ℕ_discrete j i) [
        | yes e ↦
            subst (λ k. IsRing (instance_at (put_world d i w) k).ring) (sym e)
              (subst (λ x. IsRing x.ring) (sym self) sound)
        | no ne ↦
            subst (λ x. IsRing x.ring) (sym (instance_at-put_world_ne d i j w ne)) (s.rings j live)
      ];
    }

pub held_bytes_gone : (d : Driver) (i : ℕ) → leb d.count i ≡ true → held_bytes d i ≡ []
unfolding held_bytes
held_bytes_gone d i gone = rw gone refl

pub held_bytes_live :
    (d : Driver) (i : ℕ) → i < d.count → held_bytes d i ≡ ring_bytes (instance_at d i).ring
unfolding held_bytes
held_bytes_live d i lt = let live : leb d.count i ≡ false = ground (arith, lt) in rw live refl

pub held_bytes_bounded : (d : Driver) (i : ℕ) → IsServed d → length (held_bytes d i) ≤ ring_size
unfolding held_bytes
held_bytes_bounded d i s = elim (Bool-cases (leb d.count i)) [
  | inl gone ↦ rw gone (omega arith)
  | inr live ↦ rw live (ring_bounded (instance_at d i).ring (s.rings i (ground (arith, live))))
]
