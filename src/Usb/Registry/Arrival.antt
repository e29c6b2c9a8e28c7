-- ===== src/Usb/Registry/Arrival.antt =====
-- classic/usb_driver.c: how an instance comes.
use mathlib.Core.Path.{subst}
use usbmidi.Prelude.{
  Returns-Ends, if_Returns, then_Returns, ltb, leb, Returns, ◌==◌, if◌then◌else◌, Bool-cases, ℕ,
  ◌+◌, ◌≤◌, ◌<◌, ◌≡◌, refl, sym, ap, ◌∙◌, ◌≢◌, ◌⊎◌, inl, inr, false, not, ◌||◌, Option, none, some,
  [], ◌∷◌, ◌++◌, arith,
}
use usbmidi.Usb.Completion.{Callback}
use usbmidi.Usb.Machine.{initiate}
use usbmidi.Usb.Machine.Start.{machine_fuel}
use usbmidi.Usb.Machine.Progress.{initiate_settles, IsOver}
use usbmidi.Usb.Registry.{
  Driver, max_interfaces, instance_at, world_of, claim_instance, OsStatus, usb_no_err, internal_err,
  put_world,
}
use usbmidi.Usb.Registry.Attach.{
  started, class_audio, sub_class_midi_streaming, new_instance, initialize_interface,
  InterfaceDescriptor, DeviceDescriptor, set_up,
}
use usbmidi.Usb.{Pb, World, alloc_mem, alloc_ring_state, max_sync_depth}
use usbmidi.Usb.Machine.Issued.{Calls, AsksRing, IsBehind, initiate_asks}
use usbmidi.Usb.Machine.Settled.{Identity, identity}
use usbmidi.Usb.Registry.Slots.{
  IsRegistry, IsResting, instance_at-put_world, instance_at-put_world_ne, put_world-IsRegistry,
}

-- the interface is one that the driver supports
abbrev pub IsMidiStreaming : InterfaceDescriptor → Type 0
IsMidiStreaming i =
    (i.interface_class ≡ class_audio)
    × (i.interface_sub_class ≡ sub_class_midi_streaming)
    × (1 ≤ i.num_endpoints)

-- The calls begin with one of `USBAllocMem` for the interface, behind those of before.
abbrev pub FirstAsks : ℕ → Calls → Calls → Type 0
FirstAsks ref before calls =
    (pb : Pb) × AsksRing ref pb × IsBehind (before ++ (alloc_mem, pb) ∷ []) calls

-- An instance whose counters are zero is started in its slot.
abbrev StartedAt : Driver → ℕ → ℕ → Driver → Type 0
StartedAt d index j d' =
    IsRegistry d'
    × (d'.count ≡ d.count)
    × IsResting index (instance_at d' index)
    × (identity (instance_at d' index) ≡ identity (instance_at d index))
    × (instance_at d' j ≡ instance_at d j)
    × FirstAsks (instance_at d index).interface_ref d.issued d'.issued

started-StartedAt :
    (callback : Callback) (d : Driver) (index j : ℕ)
    → IsRegistry d
    → index < max_interfaces
    → j ≢ index
    → (instance_at d index).trans_depth ≡ 0
    → (instance_at d index).call_in_flight ≡ 0
    → (instance_at d index).call_token ≡ 0
    → (instance_at d index).pb.usb_refcon.return_from_driver ≡ false
    → (instance_at d index).pb.usb_refcon.stage ≡ alloc_ring_state
    → (instance_at d index).removing ≡ false
    → Returns (StartedAt d index j) (started callback d index)
unfolding started
started-StartedAt callback d index j r lt ne depth flight token runs first kept =
    let w = world_of d index in
    let (pb, asks, calls) = initiate_asks callback index max_sync_depth w kept depth first in
    let Asked : World → Type 0 = λ w'. IsBehind (w.issued ++ (alloc_mem, pb) ∷ []) w'.issued in
    let o = initiate callback index machine_fuel w in
    then_Returns (λ w'. IsOver index w w' × Asked w') (StartedAt d index j) o _
      (Returns-Ends (IsOver index w) Asked o
        (initiate_settles callback index w depth flight runs (omega (arith, token))) calls)
      (λ w' ((rest, out, few, same), asked). (
        put_world-IsRegistry d index w' r,
        refl,
        subst (IsResting index) (sym (instance_at-put_world d index w' r lt)) (rest, out),
        ap identity (instance_at-put_world d index w' r lt) ∙ same,
        instance_at-put_world_ne d index j w' ne,
        (pb, asks, asked),
      ))

-- the instance of the interface, that nobody is removing
abbrev pub introduced : (ℕ → ℕ) → ℕ → InterfaceDescriptor → DeviceDescriptor → ℕ → Identity
introduced to_host_word num interface device connection = record {
  ref = connection;
  num = num;
  class = interface.interface_class;
  sub_class = interface.interface_sub_class;
  protocol = interface.interface_protocol;
  vendor = to_host_word device.vendor;
  product = to_host_word device.product;
  leaving = false;
}

-- what becomes of an interface that is offered
abbrev pub Offered :
    (ℕ → ℕ)
    → ℕ
    → InterfaceDescriptor
    → DeviceDescriptor
    → ℕ
    → Driver
    → ℕ
    → OsStatus × Driver
    → Type 0
Offered to_host_word num interface device ref d j (status, d') =
    ((status ≡ internal_err)
      × (d' ≡ d)
      × ((¬ IsMidiStreaming interface) ⊎ (d.count ≡ max_interfaces)))
    ⊎ ((status ≡ usb_no_err)
        × IsMidiStreaming interface
        × IsRegistry d'
        × (d'.count ≡ d.count + 1)
        × IsResting d.count (instance_at d' d.count)
        × (identity (instance_at d' d.count) ≡ introduced to_host_word num interface device ref)
        × (instance_at d' j ≡ instance_at d j)
        × FirstAsks ref d.issued d'.issued)

-- An interface with a descriptor is declined, and the registry left as it is, only if it is not a
-- MIDIStreaming interface with an endpoint, or the registry is full. Otherwise the first free slot
-- is an instance with the reference, the number and the descriptors of the interface, that is not
-- being removed. Its state machine has started: the calls that the driver makes then begin with
-- `USBAllocMem` for its ring. And it is at rest, whatever the services have answered: it waits for
-- a call that a service has accepted, or has stopped. Every other slot holds what it held.
pub initialize_claims :
    (callback : Callback) (to_host_word : ℕ → ℕ) (num : ℕ) (interface : InterfaceDescriptor)
    (device : DeviceDescriptor) (ref : ℕ) (d : Driver) (j : ℕ)
    → IsRegistry d
    → j ≢ d.count
    → Returns
        (Offered to_host_word num interface device ref d j)
        (initialize_interface callback to_host_word num (some interface) (some device) ref d)
unfolding initialize_interface set_up new_instance claim_instance
initialize_claims callback to_host_word num interface device ref d j r ne =
    let claimed = record d { count = d.count + 1 } in
    let at : (c : Option ℕ × Driver)
        → claim_instance d ≡ c
        → Returns (Offered to_host_word num interface device ref d j)
            (set_up callback to_host_word num interface device ref c)
        → Returns (Offered to_host_word num interface device ref d j)
            (set_up callback to_host_word num interface device ref (claim_instance d)) =
      λ c e h.
        subst
          (λ x.
            Returns (Offered to_host_word num interface device ref d j)
              (set_up callback to_host_word num interface device ref x))
          (sym e) h in
    if_Returns (Offered to_host_word num interface device ref d j)
      (not (interface.interface_class == class_audio)
        || not (interface.interface_sub_class == sub_class_midi_streaming)
        || ltb interface.num_endpoints 1)
      (some (internal_err, d))
      (set_up callback to_host_word num interface device ref (claim_instance d))
      (λ declined. inl (refl, refl, inl (λ (c, s, e). absurd (ground (arith, declined, c, s, e)))))
      (λ taken. elim (Bool-cases (leb max_interfaces d.count)) [
        | inl full ↦
            at (none, d) (ap (λ b. if b then (none, d) else (some d.count, claimed)) full)
              (inl (refl, refl, inr (ground (arith, full, r.live))))
        | inr room ↦
            let lt : d.count < max_interfaces = ground (arith, room) in
            let fits : IsMidiStreaming interface =
              (ground (arith, taken), ground (arith, taken), ground (arith, taken)) in
            let inst =
              new_instance to_host_word num interface device ref (instance_at claimed d.count) in
            let w = record (world_of claimed d.count) { inst = inst } in
            let ready = put_world claimed d.count w in
            let counted : IsRegistry claimed = record {
              slots = r.slots;
              live = omega (arith, lt);
            } in
            let self = instance_at-put_world claimed d.count w counted lt in
            at (some d.count, claimed)
              (ap (λ b. if b then (none, d) else (some d.count, claimed)) room)
              (then_Returns (StartedAt ready d.count j)
                (Offered to_host_word num interface device ref d j) (started callback ready d.count)
                _
                (started-StartedAt callback ready d.count j
                  (put_world-IsRegistry claimed d.count w counted) lt ne
                  (ap (λ i. i.trans_depth) self) (ap (λ i. i.call_in_flight) self)
                  (ap (λ i. i.call_token) self) (ap (λ i. i.pb.usb_refcon.return_from_driver) self)
                  (ap (λ i. i.pb.usb_refcon.stage) self) (ap (λ i. i.removing) self))
                (λ d' (kept, same, rest, who, other, first). inr (
                  refl,
                  fits,
                  kept,
                  same,
                  rest,
                  who ∙ ap identity self,
                  other ∙ instance_at-put_world_ne claimed d.count j w ne,
                  subst (λ i. FirstAsks i d.issued d'.issued) (ap (λ i. i.interface_ref) self)
                      first,
                )))
      ])
