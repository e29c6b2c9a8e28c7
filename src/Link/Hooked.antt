-- ===== src/Link/Hooked.antt =====
-- oms/oms_driver.c with classic/usb_driver.c: the event callback of the OMS driver in the instances
-- of the class driver.
use native.Mathlib.Decide.{ℕ_discrete}
use usbmidi.Prelude.{
  leb, if◌then◌else◌, Bool-cases, ℕ, zero, suc, ◌+◌, ◌≤◌, ◌<◌, ◌≡◌, refl, ap, ◌∙◌, ◌≢◌, inl, inr,
  Bool, true, none, some, arith,
}
use usbmidi.Usb.Registry.{
  Driver, instance_at, world_of, set_event_callback, fill_interface_info, put_instance,
}
use usbmidi.Usb.Registry.Slots.{
  IsRegistry, instance_at-put_world, instance_at-put_world_ne, put_world-IsRegistry,
}
use usbmidi.Oms.Lifecycle.{set_callbacks}
use usbmidi.Link.{is_usb_no_err}

-- a driver with other hooks, set for the slots from `i` to below `m`
pub record Hooked (hook i m : ℕ) (d d' : Driver) : Type 0 where
  pub registry : IsRegistry d'
  pub count : d'.count ≡ d.count
  pub infos :
      (j : ℕ) → fill_interface_info j (instance_at d' j) ≡ fill_interface_info j (instance_at d j)
  pub rings : (j : ℕ) → (instance_at d' j).ring ≡ (instance_at d j).ring
  pub hooks : (j : ℕ) → i ≤ j → j < m → j < d.count → (instance_at d' j).event_callback ≡ some hook
  pub below : (j : ℕ) → j < i → instance_at d' j ≡ instance_at d j

set_event_callback-Hooked :
    (hook i : ℕ) (d : Driver)
    → IsRegistry d
    → Hooked hook i (i + 1) d (set_event_callback d i (some hook) 0).1
unfolding set_event_callback fill_interface_info
set_event_callback-Hooked hook i d r = elim (Bool-cases (leb d.count i)) [
  | inl e ↦ rw e (record {
    registry = r;
    count = refl;
    infos = λ j. refl;
    rings = λ j. refl;
    hooks = λ j le lt live. absurd (ground (arith, e, le, lt, live));
    below = λ j lt. refl;
  })
  | inr e ↦
      let inst = record (instance_at d i) { event_refcon = 0; event_callback = some hook } in
      let w = record (world_of d i) { inst = inst } in
      let lt : i < d.count = ground (arith, e) in
      let self = instance_at-put_world d i w r (omega (arith, lt, r.live)) in
      let others : (j : ℕ) → j ≢ i → instance_at (put_instance d i inst) j ≡ instance_at d j =
        λ j ne. instance_at-put_world_ne d i j w ne in
      rw e (record {
        registry = put_world-IsRegistry d i w r;
        count = refl;
        infos = λ j. elim (ℕ_discrete j i) [
          | yes same ↦ rw same (ap (fill_interface_info i) self)
          | no ne ↦ ap (fill_interface_info j) (others j ne)
        ];
        rings = λ j. elim (ℕ_discrete j i) [
          | yes same ↦ rw same (ap (λ x. x.ring) self)
          | no ne ↦ ap (λ x. x.ring) (others j ne)
        ];
        hooks = λ j le below live.
            let same : j ≡ i = omega (arith, le, below) in
            rw same (ap (λ x. x.event_callback) self);
        below = λ j below. others j (omega (arith, below));
      })
]

Hooked-then :
    (hook i n : ℕ) {d d1 d2 : Driver}
    → Hooked hook i (i + 1) d d1
    → Hooked hook (i + 1) (i + 1 + n) d1 d2
    → Hooked hook i (i + suc n) d d2
Hooked-then hook i n a b = record {
  registry = b.registry;
  count = b.count ∙ a.count;
  infos = λ j. b.infos j ∙ a.infos j;
  rings = λ j. b.rings j ∙ a.rings j;
  hooks = λ j le lt live. elim (ℕ_discrete j i) [
    | yes same ↦
        ap (λ x. x.event_callback) (b.below j (omega (arith, same)))
        ∙ a.hooks j le (omega (arith, same)) live
    | no ne ↦ b.hooks j (omega (arith, le, ne)) (omega (arith, lt)) (omega (arith, live, a.count))
  ];
  below = λ j lt. b.below j (omega (arith, lt)) ∙ a.below j lt;
}

-- the entry `setEventCallback` of the table
abbrev pub set_hook : ℕ → Driver → ℕ → Bool → Bool × Driver
set_hook hook d index on =
    let r = set_event_callback d index (if on then some hook else none) 0 in
    (is_usb_no_err r.0, r.1)

pub set_callbacks-Hooked :
    (hook i n : ℕ) (d : Driver)
    → IsRegistry d
    → Hooked hook i (i + n) d (set_callbacks (set_hook hook) true i n d).1
unfolding set_callbacks
set_callbacks-Hooked hook i zero d r = record {
  registry = r;
  count = refl;
  infos = λ j. refl;
  rings = λ j. refl;
  hooks = λ j le lt live. absurd (omega (arith, le, lt));
  below = λ j lt. refl;
}
set_callbacks-Hooked hook i (suc n) d r =
    let first = set_event_callback-Hooked hook i d r in
    Hooked-then hook i n first (set_callbacks-Hooked hook (i + 1) n _ first.registry)
