-- ===== src/Tests/Link.antt =====
-- The theorems on the dispatch table between the two drivers applied to concrete values.
use usbmidi.Prelude.{
  Returns, replicate, ℕ, zero, suc, ◌<◌, ◌≡◌, refl, inl, inr, true, false, none, some, [], ◌∷◌,
  arith,
}
use usbmidi.Usb.Registry.{zero_instance, Driver, instance_at, world_of}
use usbmidi.Oms.{Shim, Oms, Table}
use usbmidi.Oms.Devices.{add_devices}
use usbmidi.Link.{dispatch_table}
use usbmidi.Link.Announced.{Announced, add_devices_announces}
use usbmidi.Usb.Receive.{IsRead}
use usbmidi.Usb.Registry.Slots.{IsRegistry}
use usbmidi.Tests.Drain.{one_port}
use usbmidi.Link.Backlog.{bind_keeps_rings}
use usbmidi.Oms.Lifecycle.{bind_dispatch, is_bound, success, zero_iface}
use usbmidi.Oms.Receive.Drained.{IsSource}
use usbmidi.Link.Served.{IsServed, IsRing, held_bytes}
use usbmidi.Oms.Messages.{start_midi2}
use usbmidi.Oms.Messages.Started.{Discarded, start_midi2_discards}
use usbmidi.Link.Source.{dequeue_bytes_apart, Sound, served_table, served_table-IsSource}
use usbmidi.Link.Delivery.{notifying, notifying-IsServed}
use usbmidi.Tests.Usb.{reading, two_live, full_memory, empty_ring-IsValid, two_live-IsRegistry}

served_table-IsSource_example : IsSource (served_table 1) (λ (s : Sound) i. held_bytes s.0 i)
served_table-IsSource_example = served_table-IsSource 1

two_rings : (i : ℕ) → i < 2 → IsRing (instance_at two_live i).ring
two_rings zero lt = inr (full_memory, empty_ring-IsValid)
two_rings (suc zero) lt = inr (full_memory, empty_ring-IsValid)
two_rings (suc (suc i)) lt = absurd (omega (arith, lt))

pub two_live-IsServed : IsServed two_live
two_live-IsServed = record { registry = two_live-IsRegistry; rings = two_rings }

pub two_live-IsRead : IsRead (world_of two_live 0)
two_live-IsRead = record {
  reading = refl;
  succeeded = refl;
  some_bytes = omega arith;
  in_memory = omega arith;
  not_nil = ground arith;
}

-- the OMS driver with a class driver of one interface
abbrev pub bound_to : {D : Type 0} → Table D → Oms D
bound_to table = record {
  table = some table;
  device_ref = 3;
  midi_started = true;
  notifier_installed = true;
  callback_registered = true;
  n_interfaces = 1;
  interface_list = 0;
  ifaces = λ _. record zero_iface { valid = true };
  send_upp = 77;
  rx_routine = 1;
  rx_packets = 0;
  rx_messages = 0;
  rx_dropped = 0;
  sends = record { sent = []; tx_converted = 0; tx_malformed = 0 };
  tx_dropped = 0;
  relocates = 0;
  locate_failures = 0;
  events = 0;
}

-- the first of the two instances has read
abbrev pub having_read : Sound
having_read = (
  notifying two_live 0,
  notifying-IsServed two_live 0 {mem = full_memory} two_live-IsServed (omega arith) two_live-IsRead
      empty_ring-IsValid,
)

-- the first of the two instances has a client
abbrev hearing : Driver
hearing = record two_live {
  instances =
      record reading { event_callback = some 4 }
      ∷ record reading { interface_ref = 8; awaited = some 1 }
      ∷ replicate 6 zero_instance;
}

hearing-IsRegistry : IsRegistry hearing
hearing-IsRegistry = record { slots = refl; live = omega arith }

hearing_rings : (i : ℕ) → i < 2 → IsRing (instance_at hearing i).ring
hearing_rings zero lt = inr (full_memory, empty_ring-IsValid)
hearing_rings (suc zero) lt = inr (full_memory, empty_ring-IsValid)
hearing_rings (suc (suc i)) lt = absurd (omega (arith, lt))

hearing-IsServed : IsServed hearing
hearing-IsServed = record { registry = hearing-IsRegistry; rings = hearing_rings }

hearing-IsRead : IsRead (world_of hearing 0)
hearing-IsRead = record {
  reading = refl;
  succeeded = refl;
  some_bytes = omega arith;
  in_memory = omega arith;
  not_nil = ground arith;
}

-- its client is the OMS driver, with the port of cable 0 in use
abbrev client : Shim Sound
client = record {
  driver = (
    notifying hearing 0,
    notifying-IsServed hearing 0 {mem = full_memory} hearing-IsServed (omega arith) hearing-IsRead
        empty_ring-IsValid,
  );
  delivered = [];
  oms = record (bound_to (served_table 1)) {
    ifaces = λ _. record zero_iface { valid = true; ports = one_port };
  };
}

-- the second interface has appeared
abbrev caller : Shim Driver
caller = record { driver = two_live; delivered = []; oms = bound_to (dispatch_table 1) }

add_devices_announces_example : Returns (Announced 1 two_live) (add_devices true [] caller)
add_devices_announces_example = add_devices_announces 1 [] caller refl two_live-IsRegistry

-- MIDI is off, and the second interface holds nothing to be delivered
abbrev halted : Shim Sound
halted = record {
  driver = (two_live, two_live-IsServed);
  delivered = [];
  oms = record (bound_to (served_table 1)) { midi_started = false };
}

start_midi2_discards_example :
    Returns
      (λ (s' : Shim Sound).
        ((s'.oms.midi_started ≡ true) × (s'.delivered ≡ []))
        × Discarded (λ (s : Sound) i. held_bytes s.0 i) 0 3 halted s')
      (start_midi2 [] halted)
start_midi2_discards_example =
    start_midi2_discards (λ (s : Sound) i. held_bytes s.0 i) [] halted 0 3 tt
      (record { served = served_table-IsSource 1; tied = inl refl })
      (λ d i j n ne. dequeue_bytes_apart d.0 i j n ne) refl (omega arith) (omega arith)

-- no class driver is bound
abbrev unbound : Shim Driver
unbound = record {
  driver = two_live;
  delivered = [];
  oms = record (bound_to (dispatch_table 1)) {
    table = none;
    callback_registered = false;
    ifaces = λ _. zero_iface;
  };
}

bind_keeps_rings_example :
    (s' : Shim Driver) × (bind_dispatch 9 true (some (dispatch_table 1)) unbound
      ≡ some (success, s'))
    × (is_bound s'.oms.table ≡ true)
    × (s'.delivered ≡ [])
    × (s'.driver.count ≡ 2)
    × ((instance_at s'.driver 1).event_callback ≡ some 1)
    × ((instance_at s'.driver 1).ring ≡ (instance_at two_live 1).ring)
bind_keeps_rings_example =
    bind_keeps_rings 1 9 1 unbound refl (inr (refl, λ i. refl)) two_live-IsRegistry (omega arith)
