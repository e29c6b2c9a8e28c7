-- ===== src/Usb/Registry/Within.antt =====
-- classic/usb_driver.c: the bounds of the rings in every reachable state of the driver.
use mathlib.Core.Path.{subst}
use usbmidi.Prelude.{
  Ends, then_Ends, pick, ltb, leb, ◌==◌, Bool-cases, ℕ, ◌+◌, ◌≤◌, ◌<◌, ◌≡◌, sym, inl, inr, Bool,
  not, ◌||◌, some, arith,
}
use usbmidi.Prelude.Bits.{is_power_of_two}
use usbmidi.Ring.{ring_used}
use usbmidi.Ring.Window.{used}
use usbmidi.Ring.Bounds.{IsInBounds, ring_dequeue-IsInBounds}
use usbmidi.Usb.{ring_size}
use usbmidi.Usb.Completion.{collected, fill, Callback}
use usbmidi.Usb.Machine.Counters.{IsCounted, KeepsBounds, initiate-IsCounted, machine-IsCounted}
use usbmidi.Usb.Machine.{initiate}
use usbmidi.Usb.Machine.Start.{machine_fuel}
use usbmidi.Usb.Registry.{
  dequeue_bytes, Driver, finalize, claim_instance, max_interfaces, instance_at, put_instance,
  world_of, set_event_callback, internal_err, fill_interface_info,
}
use usbmidi.Usb.Registry.Attach.{
  notify, InterfaceDescriptor, DeviceDescriptor, initialize_interface, set_up, new_instance,
  started, class_audio, sub_class_midi_streaming, remove_all, driver_being_removed,
}
use usbmidi.Usb.Registry.Slots.{IsRegistry}
use usbmidi.Usb.Registry.Removal.{finalize_from-found}
use usbmidi.Usb.Registry.Counters.{
  IsBounded, put_world-IsBounded, put_back, dispose-IsBounded, ended_with, BoundedAfter,
  remove_all-IsBounded,
}
use usbmidi.Usb.Registry.Steps.{
  Step, Reach, here, next, offered, finalized, told, dequeued, registered, completes,
}

module _ (callback : Callback) (keeps : KeepsBounds callback) (to_host_word : ℕ → ℕ) where
  -- the slot that was claimed, set up and started
  set_up-IsBounded :
      (num : ℕ) (interface : InterfaceDescriptor) (device : DeviceDescriptor) (ref : ℕ) (d : Driver)
      → IsBounded d
      → d.count < max_interfaces
      → Ends BoundedAfter (
          set_up callback to_host_word num interface device ref
            (some d.count, record d { count = d.count + 1 }))
  unfolding set_up started new_instance
  set_up-IsBounded num interface device ref d q lt =
      let more = record d { count = d.count + 1 } in
      let inst = new_instance to_host_word num interface device ref (instance_at d d.count) in
      let kept : IsRegistry more = record { slots = q.kept.slots; live = omega (arith, lt) } in
      let fresh : IsInBounds ring_size inst.ring = record {
        head_in = omega arith;
        tail_in = omega arith;
        fits = omega arith;
      } in
      let placed : IsBounded (put_instance more d.count inst) =
        put_world-IsBounded more d.count (record (world_of more d.count) { inst = inst }) kept
          (λ j live ne. q.rings j (omega (arith, live, ne))) (omega arith) fresh in
      let p = put_instance more d.count inst in
      then_Ends IsBounded BoundedAfter (started callback p d.count) _
        (then_Ends IsCounted IsBounded (initiate callback d.count machine_fuel (world_of p d.count))
          _
          (initiate-IsCounted callback keeps d.count machine_fuel (world_of p d.count)
            (placed.rings d.count (omega arith)))
          (λ w k. put_back p d.count w placed (omega arith) k))
        (λ d' k. k)

  initialize-IsBounded :
      (num : ℕ) (interface : InterfaceDescriptor) (device : DeviceDescriptor) (ref : ℕ) (d : Driver)
      → IsBounded d
      → Ends BoundedAfter
          (initialize_interface callback to_host_word num (some interface) (some device) ref d)
  unfolding initialize_interface claim_instance set_up
  initialize-IsBounded num interface device ref d q =
      pick (Ends BoundedAfter)
        (not (interface.interface_class == class_audio)
          || not (interface.interface_sub_class == sub_class_midi_streaming)
          || ltb interface.num_endpoints 1)
        (some (internal_err, d)) _ q
        (elim (Bool-cases (leb max_interfaces d.count)) [
          | inl full ↦ rw full q
          | inr room ↦
              rw room (set_up-IsBounded num interface device ref d q (ground (arith, room)))
        ])

  notify-IsBounded :
      (d : Driver) → IsBounded d → Ends BoundedAfter (notify callback driver_being_removed d)
  unfolding notify
  notify-IsBounded d q =
      then_Ends (λ (r : Bool × Driver). IsBounded r.1) BoundedAfter
        (remove_all callback d 0 d.count) _
        (remove_all-IsBounded callback keeps d 0 d.count q (omega arith)) (λ r k. k)

  Step-IsBounded : {d d' : Driver} → Step callback to_host_word d d' → IsBounded d → IsBounded d'
  unfolding finalize dequeue_bytes set_event_callback
  Step-IsBounded (offered num interface device ref {d} status e) q =
      ended_with BoundedAfter e (initialize-IsBounded num interface device ref d q)
  Step-IsBounded (finalized ref d) q = elim (finalize_from-found d ref 0 d.count) [
    | inl (k, _, lt, _, e) ↦ subst IsBounded (sym e) (dispose-IsBounded d k q (omega (arith, lt)))
    | inr (_, e) ↦ subst IsBounded (sym e) q
  ]
  Step-IsBounded (told {d} status e) q = ended_with BoundedAfter e (notify-IsBounded d q)
  Step-IsBounded (dequeued index has_buffer max_bytes d) q = elim (Bool-cases (leb d.count index)) [
    | inl e ↦ rw e q
    | inr e ↦
        let lt : index < d.count = ground (arith, e) in
        rw e (
          put_back d index _ q lt (
            ring_dequeue-IsInBounds ring_size (omega arith) (instance_at d index).ring has_buffer
              max_bytes (q.rings index lt)))
  ]
  Step-IsBounded (registered index f refcon d) q = elim (Bool-cases (leb d.count index)) [
    | inl e ↦ rw e q
    | inr e ↦
        let lt : index < d.count = ground (arith, e) in
        rw e (put_back d index _ q lt (q.rings index lt))
  ]
  Step-IsBounded (completes index reply d lt pending room e) q =
      let w = record (world_of d index) { inst = fill (collected (instance_at d index)) reply } in
      put_back d index _ q lt
        (ended_with IsCounted e (machine-IsCounted callback keeps index w (q.rings index lt)))

  Reach-IsBounded : {d d' : Driver} → IsBounded d → Reach callback to_host_word d d' → IsBounded d'
  Reach-IsBounded q here = q
  Reach-IsBounded q (next r s) = Step-IsBounded s (Reach-IsBounded q r)

-- From an empty registry, whatever interfaces come and go, clients call and services answer, in any
-- order, with clients that keep a ring within its bounds: the ring of every live instance has counters
-- of 32 bits and holds at most its 4096 bytes, and so at most that many are reported as available.
pub reachable_within :
    (callback : Callback) (to_host_word : ℕ → ℕ) (start d : Driver) (j : ℕ)
    → KeepsBounds callback
    → IsRegistry start
    → start.count ≡ 0
    → Reach callback to_host_word start d
    → j < d.count
    → IsInBounds ring_size (instance_at d j).ring
      × ((fill_interface_info j (instance_at d j)).available_bytes ≤ ring_size)
unfolding fill_interface_info ring_used
reachable_within callback to_host_word start d j keeps r empty path live =
    let q : IsBounded start = record {
      kept = r;
      rings = λ i lt. absurd (omega (arith, lt, empty));
    } in
    let h = (Reach-IsBounded callback keeps to_host_word q path).rings j live in
    (
      h,
      pick (λ n. n ≤ ring_size) (not (is_power_of_two ring_size)) 0 (used (instance_at d j).ring)
          (omega arith) h.fits,
    )
