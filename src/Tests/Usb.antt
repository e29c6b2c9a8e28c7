-- ===== src/Tests/Usb.antt =====
-- The theorems on the class driver applied to concrete values, and the values.
use usbmidi.Prelude.{
  Returns, ◌==◌, if◌then◌else◌, replicate, length-replicate, ℕ, ◌+◌, ◌-◌, ◌≤◌, ◌≡◌, refl, ◌⊎◌, inl,
  true, false, none, some, List, [], ◌∷◌, arith,
}
use usbmidi.Prelude.Bits.{is_power_of_two}
use usbmidi.Ring.{Ring}
use usbmidi.Ring.Window.{IsValid, used}
use usbmidi.Usb.{Instance, ring_size, World, read_bulk_in_pipe_state, no_err, pipe_stalled}
use usbmidi.Usb.Completion.{Callback}
use usbmidi.Usb.Machine.{completion, initiate, transact}
use usbmidi.Usb.Machine.Start.{machine_fuel}
use usbmidi.Usb.Machine.Progress.{IsOver, completion_settles}
use usbmidi.Usb.Receive.{IsRead}
use usbmidi.Usb.Registry.{
  fill_interface_info, Driver, zero_instance, instance_at, dispose_instance, OsStatus, device_busy,
  max_interfaces, claim_instance, usb_no_err,
}
use usbmidi.Usb.Registry.Attach.{
  notify, initialize_interface, InterfaceDescriptor, DeviceDescriptor, driver_being_removed,
  new_instance, started, set_up,
}
use usbmidi.Ring.Bounds.{IsInBounds}
use usbmidi.Usb.Registry.Within.{reachable_within}
use usbmidi.Usb.Registry.Slots.{IsRegistry, IsResting, dispose_keeps}
use usbmidi.Usb.Registry.Goodbye.{notify_removes}
use usbmidi.Usb.Registry.Arrival.{Offered, initialize_claims}
use usbmidi.Usb.Registry.Steps.{reachable_rests, here, next, offered}

-- a client that takes nothing from the ring
abbrev idle_client : Callback
idle_client f index refcon r = r

abbrev pub full_memory : List ℕ
full_memory = replicate ring_size 0

abbrev pub empty_ring : Ring
empty_ring = record { buf = some full_memory; head = 0; tail = 0 }

pub empty_ring-IsValid : IsValid empty_ring ring_size full_memory
unfolding used is_power_of_two
empty_ring-IsValid = record {
  at = refl;
  power = refl;
  small = omega arith;
  slots = length-replicate {A = ℕ} ring_size 0;
  head_in = omega arith;
  tail_in = omega arith;
  fits = omega arith;
}

-- an instance whose bulk read has brought one Event Packet
abbrev pub reading : Instance
reading = record zero_instance {
  pb = record zero_instance.pb {
    usb_buffer = record { address = 64; bytes = 9 ∷ 144 ∷ 60 ∷ 100 ∷ [] };
    usb_act_count = 4;
    usb_refcon = record {
      stage = read_bulk_in_pipe_state;
      return_from_driver = false;
      completion_pending = true;
    };
  };
  interface_ref = 7;
  bulk_in_pipe = 5;
  max_packet_size = 64;
  ring_address = 4096;
  ring = empty_ring;
  read_buffer_base = 60;
  read_buffer = 64;
  call_token = 1;
  call_in_flight = 1;
  awaited = some 0;
}

-- The next read is stalled at once, and the one behind it stays in flight.
abbrev read_done : World
read_done = record {
  inst = reading;
  answers =
      record {
        ran = true;
        reply = record {
          status = pipe_stalled;
          act_count = 0;
          buffer = record { address = 0; bytes = [] };
          reference = 5;
          value = 0;
        };
        returned = no_err;
      }
      ∷ [];
  issued = [];
  events = [];
}

completion_settles_example :
    Returns
      (IsOver 0 read_done)
      (completion idle_client 0 (λ u. initiate idle_client 0 machine_fuel u) read_done)
completion_settles_example = completion_settles idle_client 0 read_done refl (omega arith)

pub read_done-IsRead : IsRead read_done
read_done-IsRead = record {
  reading = refl;
  succeeded = refl;
  some_bytes = omega arith;
  in_memory = omega arith;
  not_nil = ground arith;
}

-- a registry of two instances that are read from, and of none
abbrev pub two_live : Driver
two_live = record {
  instances =
      reading ∷ record reading { interface_ref = 8; awaited = some 1 } ∷ replicate 6 zero_instance;
  count = 2;
  answers = [];
  issued = [];
  events = [];
}

abbrev none_live : Driver
none_live = record {
  instances = replicate 8 zero_instance;
  count = 0;
  answers = [];
  issued = [];
  events = [];
}

pub two_live-IsRegistry : IsRegistry two_live
two_live-IsRegistry = record { slots = refl; live = omega arith }

none_live-IsRegistry : IsRegistry none_live
none_live-IsRegistry = record { slots = refl; live = omega arith }

dispose_keeps_example :
    let d' = dispose_instance two_live 0 in
    IsRegistry d'
    × (d'.count + 1 ≡ 2)
    × (instance_at d' 0 ≡ instance_at two_live (if 0 == 0 then 2 - 1 else 0))
dispose_keeps_example = dispose_keeps two_live 0 0 two_live-IsRegistry (omega arith) (omega arith)

notify_removes_example :
    Returns
      (λ (r : OsStatus × Driver).
        IsRegistry r.1
        × (r.1.count ≡ 2)
        × ((instance_at r.1 1).removing ≡ true)
        × ((instance_at r.1 1).event_callback ≡ none)
        × IsResting 1 (instance_at r.1 1)
        × ((r.0 ≡ device_busy) ⊎ (true ≡ false)))
      (notify idle_client driver_being_removed two_live)
notify_removes_example =
    notify_removes idle_client two_live 1 two_live-IsRegistry (omega arith)
      (inl (refl, ground arith, refl), refl)

abbrev midi_interface : InterfaceDescriptor
midi_interface = record {
  interface_class = 1;
  interface_sub_class = 3;
  interface_protocol = 0;
  num_endpoints = 2;
}

abbrev device : DeviceDescriptor
device = record { vendor = 1410; product = 42 }

abbrev same_order : ℕ → ℕ
same_order w = w

initialize_claims_example :
    Returns
      (Offered same_order 1 midi_interface device 9 two_live 1)
      (initialize_interface idle_client same_order 1 (some midi_interface) (some device) 9 two_live)
initialize_claims_example =
    initialize_claims idle_client same_order 1 midi_interface device 9 two_live 1
      two_live-IsRegistry (ground arith)

-- the registry behind the first interface
unfoldable one_live : Driver
unfolding initialize_interface set_up started claim_instance new_instance initiate transact
one_live =
    elim (initialize_interface idle_client same_order 1 (some midi_interface) (some device) 9
      none_live) [ none ↦ none_live | some (status, d) ↦ d ]

first_offer :
    initialize_interface idle_client same_order 1 (some midi_interface) (some device) 9 none_live
    ≡ some (usb_no_err, one_live)
unfolding one_live initialize_interface set_up started claim_instance new_instance initiate transact
first_offer = refl

one_live-count : one_live.count ≡ 1
unfolding one_live
one_live-count = refl

reachable_rests_example : (one_live.count ≤ max_interfaces) × IsResting 0 (instance_at one_live 0)
reachable_rests_example =
    reachable_rests idle_client same_order none_live one_live 0 none_live-IsRegistry refl
      (next here (offered 1 midi_interface device 9 usb_no_err first_offer)) (tt, tt)
      (omega (arith, one_live-count))

reachable_within_example :
    IsInBounds ring_size (instance_at one_live 0).ring
    × ((fill_interface_info 0 (instance_at one_live 0)).available_bytes ≤ ring_size)
reachable_within_example =
    reachable_within idle_client same_order none_live one_live 0 (λ f index refcon r h. h)
      none_live-IsRegistry refl
      (next here (offered 1 midi_interface device 9 usb_no_err first_offer))
      (omega (arith, one_live-count))
