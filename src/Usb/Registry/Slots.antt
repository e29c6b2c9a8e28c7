-- ===== src/Usb/Registry/Slots.antt =====
-- The slots of the registry of classic/usb_driver.c: which instance is where.
use native.Mathlib.Decide.{ℕ_discrete}
use usbmidi.Prelude.{
  ltb, ◌==◌, if◌then◌else◌, Bool-cases, length, get_or, set, length-set, get_or-set_self,
  get_or-set_ne, ℕ, ◌+◌, ◌-◌, ◌≤◌, ◌<◌, ◌≡◌, refl, sym, ap, ◌∙◌, ◌≢◌, inl, inr, true, false, List,
  [], arith,
}
use usbmidi.Usb.{Instance, World}
use usbmidi.Usb.Machine.Settled.{IsSettled}
use usbmidi.Usb.Registry.{
  Driver, max_interfaces, zero_instance, instance_at, put_world, dispose_instance, world_of,
  release_buffers,
}

-- the static array and its count
pub record IsRegistry (d : Driver) : Type 0 where
  pub slots : length d.instances ≡ max_interfaces
  pub live : d.count ≤ max_interfaces

-- the instance in slot `index` is outside of all calls, and at rest
abbrev pub IsResting : ℕ → Instance → Type 0
IsResting index inst =
    IsSettled index (record { inst = inst; answers = []; issued = []; events = [] })
    × (inst.trans_depth ≡ 0)

pub instance_at-put_world :
    (d : Driver) (i : ℕ) (w : World)
    → IsRegistry d
    → i < max_interfaces
    → instance_at (put_world d i w) i ≡ w.inst
instance_at-put_world d i w r lt =
    get_or-set_self d.instances i w.inst zero_instance (omega (arith, r.slots, lt))

pub instance_at-put_world_ne :
    (d : Driver) (i j : ℕ) (w : World) → j ≢ i → instance_at (put_world d i w) j ≡ instance_at d j
instance_at-put_world_ne d i j w ne =
    get_or-set_ne d.instances w.inst zero_instance (λ e. ne (sym e))

pub put_world-IsRegistry :
    (d : Driver) (i : ℕ) (w : World) → IsRegistry d → IsRegistry (put_world d i w)
put_world-IsRegistry d i w r = record {
  slots = length-set d.instances i w.inst ∙ r.slots;
  live = r.live;
}

-- the last slot `k` moved over slot `i`, whose contents were overwritten before
moved_at :
    (xs : List Instance) (i j k : ℕ) (v z : Instance)
    → i < length xs
    → i ≢ k
    → get_or (set (set xs i v) i (get_or (set xs i v) k z)) j z
      ≡ get_or xs (if j == i then k else j) z
moved_at xs i j k v z lt ne = elim (ℕ_discrete j i) [
  | yes e ↦
      let same : (j == i) ≡ true = ground (arith, e) in
      ap (λ m. get_or (set (set xs i v) i (get_or (set xs i v) k z)) m z) e
      ∙ get_or-set_self (set xs i v) i (get_or (set xs i v) k z) z
          (omega (arith, length-set xs i v, lt))
      ∙ get_or-set_ne xs v z ne
      ∙ ap (λ b. get_or xs (if b then k else j) z) (sym same)
  | no n ↦
      let other : (j == i) ≡ false = ground (arith, n) in
      get_or-set_ne (set xs i v) (get_or (set xs i v) k z) z (λ e. n (sym e))
      ∙ get_or-set_ne xs v z (λ e. n (sym e))
      ∙ ap (λ b. get_or xs (if b then k else j) z) (sym other)
]

pub dispose-count : (d : Driver) (index : ℕ) → (dispose_instance d index).count ≡ d.count - 1
unfolding dispose_instance
dispose-count d index = elim (Bool-cases (ltb index (d.count - 1))) [
  | inl e ↦ rw e refl
  | inr e ↦ rw e refl
]

pub dispose-IsRegistry :
    (d : Driver) (index : ℕ) → IsRegistry d → IsRegistry (dispose_instance d index)
unfolding dispose_instance
dispose-IsRegistry d index r =
    let freed = (release_buffers (world_of d index)).inst in
    let same = length-set d.instances index freed ∙ r.slots in
    elim (Bool-cases (ltb index (d.count - 1))) [
      | inl e ↦ rw e (record { slots = length-set _ index _ ∙ same; live = omega (arith, r.live) })
      | inr e ↦ rw e (record { slots = same; live = omega (arith, r.live) })
    ]

-- A disposal takes one live instance away. Every slot that stays live holds what it held, but that
-- the last instance has moved into the slot of the one that is gone.
pub dispose_keeps :
    (d : Driver) (index j : ℕ)
    → IsRegistry d
    → index < d.count
    → j + 1 < d.count
    → let d' = dispose_instance d index in
      IsRegistry d'
      × (d'.count + 1 ≡ d.count)
      × (instance_at d' j ≡ instance_at d (if j == index then d.count - 1 else j))
unfolding dispose_instance
dispose_keeps d index j r lt more =
    let freed = (release_buffers (world_of d index)).inst in
    let other : j ≢ index → (if j == index then d.count - 1 else j) ≡ j = λ n. ground (arith, n) in
    (
      dispose-IsRegistry d index r,
      omega (arith, dispose-count d index, lt),
      elim (Bool-cases (ltb index (d.count - 1))) [
        | inl e ↦ rw e (
            moved_at d.instances index j (d.count - 1) freed zero_instance
              (omega (arith, r.slots, r.live, lt)) (ground (arith, e)))
        | inr e ↦
            let ne : j ≢ index = ground (arith, e, lt, more) in
            rw e (
              get_or-set_ne d.instances freed zero_instance (λ e. ne (sym e))
              ∙ ap (λ m. instance_at d m) (sym (other ne)))
      ],
    )
