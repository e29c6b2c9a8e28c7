-- ===== src/Tests/Oms.antt =====
-- The theorems on the OMS driver applied to concrete values, and the values.
use usbmidi.Prelude.{
  take_short, Returns, ◌==◌, take, drop, replicate, length-take, length-drop, ℕ, ◌≡◌, refl, ◌≢◌,
  ◌⊎◌, inl, inr, Bool, true, false, none, some, List, [], ◌∷◌, arith,
}
use usbmidi.Usb.{ring_size}
use usbmidi.Oms.{Table, Shim}
use usbmidi.Oms.Send.{OmsTx, Sends, OmsMidiPacket}
use usbmidi.Oms.Receive.{Flow, drain_chunk, drain_rounds, rx_event}
use usbmidi.Oms.Receive.Drained.{IsSource, drain_takes_all}
use usbmidi.Oms.Receive.Idle.{IsSound, drain_leaves_idle}
use usbmidi.Oms.Lifecycle.{
  Lookup, zero_iface, zero_port, is_bound, locate_dispatch, usb_notify, OmsErr, added, removed,
}
use usbmidi.Oms.Lifecycle.Lived.{IsSane, SourcesOf}
use usbmidi.Oms.Lifecycle.Located.{Offers, Succeeds, locate_finds}
use usbmidi.Oms.Messages.{Host, Message, OmsPortId, get_port_send_proc, handle_message, init_msg}
use usbmidi.Oms.Messages.Owned.{IsOwned}
use usbmidi.Oms.Messages.Handled.{handle_message_keeps}
use usbmidi.Oms.Messages.Started.{usb_notify_forgets}
use usbmidi.Oms.Messages.Ports.{HandedOut, send_proc_leads_back}

-- a class driver with one interface: its state is what it has received, cut at the size of the ring
abbrev pub held_of : List ℕ → ℕ → List ℕ
held_of d i = take ring_size d

abbrev pub source : Table (List ℕ)
source = record {
  version = 2;
  dequeue_bytes = λ d i n. (take n (take ring_size d), drop n (take ring_size d));
  set_event_callback = some (λ d i hook. (i == 0, d));
  enumerate_interfaces = λ d. some 1;
  get_interface_info = λ d i. none;
}

pub source-IsSource : IsSource source held_of
source-IsSource = record {
  taken = λ d i n. refl;
  left = λ d i n.
      take_short ring_size (drop n (take ring_size d))
        (omega (arith, length-drop n (take ring_size d), length-take ring_size d));
  bounded = λ d i. omega (arith, length-take ring_size d);
}

abbrev ports : Flow
ports = record { ports = λ _. zero_port; messages = 0; dropped = 0; delivered = [] }

-- a Note On, and a byte too many
abbrev pub received_bytes : List ℕ
received_bytes = 9 ∷ 144 ∷ 60 ∷ 100 ∷ 7 ∷ []

drain_takes_all_example :
    (d' : List ℕ) × (held_of d' 0 ≡ [])
    × (drain_rounds true 1 10 source 0 (ports, 0) received_bytes
        ≡ some (drain_chunk true 1 (ports, 0) (held_of received_bytes 0), d'))
drain_takes_all_example =
    drain_takes_all true 1 10 0 ports 0 received_bytes source-IsSource (omega arith) (omega arith)

zero_port-IsSound : IsSound zero_port
zero_port-IsSound = record { slots = refl; idle = inl refl }

drain_leaves_idle_example :
    Returns
      (λ (r : (Flow × ℕ) × List ℕ). IsSound (r.0.0.ports 0))
      (drain_rounds true 1 10 source 0 (ports, 0) received_bytes)
drain_leaves_idle_example =
    drain_leaves_idle true 1 10 0 ports 0 received_bytes 0 source-IsSource (omega arith)
      (omega arith) (λ k. zero_port-IsSound)

abbrev no_sends : Sends
no_sends = record { sent = []; tx_converted = 0; tx_malformed = 0 }

-- the driver without a class driver, and with one
abbrev unbound : Shim (List ℕ)
unbound = record {
  driver = received_bytes;
  delivered = [];
  oms = record {
    table = none;
    device_ref = 0;
    midi_started = false;
    notifier_installed = true;
    callback_registered = false;
    n_interfaces = 0;
    interface_list = 0;
    ifaces = λ _. zero_iface;
    send_upp = 77;
    rx_routine = 1;
    rx_packets = 0;
    rx_messages = 0;
    rx_dropped = 0;
    sends = no_sends;
    tx_dropped = 0;
    relocates = 0;
    locate_failures = 0;
    events = 0;
  };
}

abbrev bound : Shim (List ℕ)
bound = record unbound {
  oms = record unbound.oms { table = some source; device_ref = 3; callback_registered = true };
}

unbound-IsSane : IsSane held_of unbound
unbound-IsSane = record { served = tt; tied = inr (refl, λ i. refl) }

-- another driver without the table, then the right one
abbrev devices : List (ℕ × Lookup (List ℕ))
devices =
    (2, record { found = false; symbol = none })
    ∷ (3, record { found = true; symbol = some source })
    ∷ []

devices-Offers : Offers devices
devices-Offers = inr (
    inl (record {
      table = source;
      hook = λ d i hook. (i == 0, d);
      found = refl;
      symbol = refl;
      has_hook = refl;
      recent = omega arith;
    }))

devices-SourcesOf : SourcesOf held_of devices
devices-SourcesOf = (tt, (source-IsSource, tt))

locate_finds_example : Returns Succeeds (locate_dispatch devices unbound)
locate_finds_example =
    locate_finds held_of devices unbound devices-SourcesOf unbound-IsSane devices-Offers

usb_notify_forgets_example :
    Returns
      (λ (s' : Shim (List ℕ)).
        ((3 ≢ bound.oms.device_ref) × (s' ≡ bound))
        ⊎ ((3 ≡ bound.oms.device_ref)
            × (is_bound s'.oms.table ≡ false)
            × ((s'.oms.ifaces 0).valid ≡ false)
            × Returns (λ (s'' : Shim (List ℕ)). s''.delivered ≡ s'.delivered) (rx_event 0 s')))
      (usb_notify (some (removed 3)) bound)
usb_notify_forgets_example = usb_notify_forgets 3 0 bound refl

abbrev host : Host (List ℕ)
host = record {
  shim = unbound;
  descriptors = 3;
  disposed = 2;
  notifiers = 1;
  removed_notifiers = 0;
  devices = [];
  send_params = none;
}

host-IsOwned : IsOwned held_of host
host-IsOwned = record { sane = unbound-IsSane; one_descriptor = refl; one_notifier = refl }

abbrev second_init : Message (List ℕ)
second_init = init_msg (record {
  descriptor = 78;
  notified = added 3 (some (record { found = true; symbol = some source })) ∷ [];
  installed = true;
  found = devices;
  routine = some 1;
})

handle_message_keeps_example :
    Returns (λ (r : OmsErr × Host (List ℕ)). IsOwned held_of r.1) (handle_message second_init host)
handle_message_keeps_example =
    handle_message_keeps held_of second_init host host-IsOwned
      ((source-IsSource, tt), devices-SourcesOf)

abbrev second_port : OmsPortId
second_port = record { which_interface = 1; which_port = 2 }

abbrev sender : OmsTx
sender = record { ports = λ i c. zero_port.send; sends = no_sends }

abbrev note_on : OmsMidiPacket
note_on = record { flags = 0; len = 3; data_bytes = 146 ∷ 60 ∷ 100 ∷ 0 ∷ [] }

abbrev spare : ℕ
spare = 78

abbrev two_rows : List (List ℕ)
two_rows = replicate 2 (0 ∷ 0 ∷ 0 ∷ 0 ∷ [])

send_proc_leads_back_example :
    HandedOut sender second_port note_on two_rows
      ((host.shim.oms.send_upp ≡ 0) × (spare ≡ 0))
      (get_port_send_proc (some second_port) true spare host)
send_proc_leads_back_example =
    send_proc_leads_back host second_port spare sender note_on two_rows refl

abbrev hook_first : List ℕ → ℕ → Bool → Bool × List ℕ
hook_first d i hook = (i == 0, d)
