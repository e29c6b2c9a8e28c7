-- ===== src/Link/Source.antt =====
-- The dispatch table of classic/usb_driver.c is the source of bytes that the drain of oms/oms_rx.c
-- relies on.
use usbmidi.Prelude.{
  drop_short, leb, if◌then◌else◌, Bool-cases, take, drop, take-nil, ℕ, ◌<◌, ◌≡◌, refl, sym, ap, ◌∙◌,
  ◌≢◌, inl, inr, true, Option, none, some, List, [], arith,
}
use usbmidi.Ring.{ring_dequeue}
use usbmidi.Usb.{ring_size}
use usbmidi.Usb.Registry.{
  Driver, dequeue_bytes, put_instance, instance_at, world_of, set_event_callback,
}
use usbmidi.Usb.Registry.Slots.{instance_at-put_world, instance_at-put_world_ne}
use usbmidi.Oms.{Table}
use usbmidi.Oms.Receive.Drained.{IsSource}
use usbmidi.Link.{dispatch_table, is_usb_no_err}
use usbmidi.Link.Served.{
  IsServed, ring_bytes, held_bytes, ring_dequeue-Dequeued, put_world-IsServed, held_bytes_gone,
  held_bytes_live, held_bytes_bounded,
}

-- what a dequeue does for its interface, and that the driver stays sound
pub record Served (d : Driver) (i n : ℕ) (out : List ℕ) (d' : Driver) : Type 0 where
  pub given : out ≡ take n (held_bytes d i)
  pub kept : held_bytes d' i ≡ drop n (held_bytes d i)
  pub served : IsServed d'

pub dequeue_bytes-Served :
    (d : Driver) (i n : ℕ) → IsServed d → let r = dequeue_bytes d i true n in Served d i n r.1 r.2
unfolding dequeue_bytes
dequeue_bytes-Served d i n s = elim (Bool-cases (leb d.count i)) [
  | inl gone ↦
      let nothing = held_bytes_gone d i gone in
      rw gone (record {
        given = sym (ap (take n) nothing ∙ take-nil ℕ n);
        kept = nothing ∙ sym (ap (drop n) nothing ∙ drop_short n [] (omega arith));
        served = s;
      })
  | inr live ↦
      let lt : i < d.count = ground (arith, live) in
      let (k, out, ring') = ring_dequeue (instance_at d i).ring ring_size true n in
      let q = ring_dequeue-Dequeued (instance_at d i).ring n (s.rings i lt) in
      let inst = record (instance_at d i) { ring = ring' } in
      let w = record (world_of d i) { inst = inst } in
      let self = instance_at-put_world d i w s.registry (omega (arith, s.registry.live, lt)) in
      let before = held_bytes_live d i lt in
      rw live (record {
        given = q.taken ∙ ap (take n) (sym before);
        kept =
            held_bytes_live (put_instance d i inst) i lt
            ∙ ap (λ x. ring_bytes x.ring) self
            ∙ q.left
            ∙ ap (drop n) (sym before);
        served = put_world-IsServed d i w s lt q.sound;
      })
]

-- The other interfaces are left alone.
pub dequeue_bytes_apart :
    (d : Driver) (i j n : ℕ) → j ≢ i → held_bytes (dequeue_bytes d i true n).2 j ≡ held_bytes d j
unfolding dequeue_bytes held_bytes
dequeue_bytes_apart d i j n ne = elim (Bool-cases (leb d.count i)) [
  | inl gone ↦ rw gone refl
  | inr live ↦
      let (k, out, ring') = ring_dequeue (instance_at d i).ring ring_size true n in
      let w = record (world_of d i) { inst = record (instance_at d i) { ring = ring' } } in
      rw live (
        ap (λ x. if leb d.count j then [] else ring_bytes x.ring)
          (instance_at-put_world_ne d i j w ne))
]

pub set_event_callback-IsServed :
    (d : Driver) (i : ℕ) (hook : Option ℕ) (refcon : ℕ)
    → IsServed d
    → IsServed (set_event_callback d i hook refcon).1
unfolding set_event_callback
set_event_callback-IsServed d i hook refcon s = elim (Bool-cases (leb d.count i)) [
  | inl gone ↦ rw gone s
  | inr live ↦
      let lt : i < d.count = ground (arith, live) in
      let inst = record (instance_at d i) { event_refcon = refcon; event_callback = hook } in
      rw live (put_world-IsServed d i (record (world_of d i) { inst = inst }) s lt (s.rings i lt))
]

-- the driver with its soundness
abbrev pub Sound : Type 0
Sound = (d : Driver) × IsServed d

-- The dispatch table over a sound driver: its procs keep the driver sound.
abbrev pub served_table : ℕ → Table Sound
served_table hook =
    let t = dispatch_table hook in
    record {
      version = t.version;
      dequeue_bytes = λ (s : Sound) index max_bytes.
          let r = dequeue_bytes s.0 index true max_bytes in
          (r.1, (r.2, (dequeue_bytes-Served s.0 index max_bytes s.1).served));
      set_event_callback = some (λ (s : Sound) index on.
          let f = if on then some hook else none in
          let r = set_event_callback s.0 index f 0 in
          (is_usb_no_err r.0, (r.1, set_event_callback-IsServed s.0 index f 0 s.1)));
      enumerate_interfaces = λ (s : Sound). t.enumerate_interfaces s.0;
      get_interface_info = λ (s : Sound) index. t.get_interface_info s.0 index;
    }

-- The dispatch table of the class driver is a source of bytes as the OMS driver needs it: for every
-- interface, live or not, `dequeueBytes` gives the oldest bytes of its ring, as many as asked for
-- or as there are, keeps the others, and leaves the registry and all rings well formed; and a ring
-- never holds more bytes than its size.
pub served_table-IsSource :
    (hook : ℕ) → IsSource (served_table hook) (λ (s : Sound) i. held_bytes s.0 i)
served_table-IsSource hook = record {
  taken = λ s i n. (dequeue_bytes-Served s.0 i n s.1).given;
  left = λ s i n. (dequeue_bytes-Served s.0 i n s.1).kept;
  bounded = λ s i. held_bytes_bounded s.0 i s.1;
}
