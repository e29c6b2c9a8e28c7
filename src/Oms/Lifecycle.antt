-- ===== src/Oms/Lifecycle.antt =====
-- oms/oms_driver.c: how the OMS driver finds the class driver and loses it.
pub mod Lived
pub mod Located
pub mod Backlog
use usbmidi.Prelude.{
  ltb, ◌>>=◌, ◌==◌, if◌then◌else◌, inc, replicate, ℕ, zero, suc, ◌+◌, Bool, true, false, ◌&&◌, ◌||◌,
  Option, none, some, List, [], ◌∷◌,
}
use usbmidi.Rx.{rx_init, rx_queue, zero_stats, empty_slot}
use usbmidi.Tx.{tx_init}
use usbmidi.Oms.{OmsPort, Table, Shim, oms_max_interfaces, dispatch_min_version, OmsIface}
use usbmidi.Oms.Receive.{rx_drain_all}

-- the results of type `OSErr` that the driver tells apart
pub data OmsErr : Type 0 where
  success bad_dispatch_table driver_not_found find_error : OmsErr

abbrev pub is_success : OmsErr → Bool
is_success success = true
is_success _ = false

abbrev pub no_device_ref : ℕ
no_device_ref = 0xffffffff

-- what `FindSymbol` gives: whether it succeeds, and the table
pub record Lookup (D : Type 0) : Type 0 where
  pub found : Bool
  pub symbol : Option (Table D)

-- the data of a port behind `oms_zero`
abbrev pub zero_port : OmsPort
zero_port = record {
  io_ref_num = 0;
  valid = false;
  rx = record {
    cable = 0;
    in_sysex = false;
    head = 0;
    count = 0;
    pending = replicate rx_queue empty_slot;
    stats = zero_stats;
  };
  send = record {
    tx = record { cable = 0; stats = record { messages = 0; malformed = 0 } };
    tx_carry = 0 ∷ 0 ∷ 0 ∷ [];
    tx_carry_len = 0;
  };
}

abbrev pub zero_iface : OmsIface
zero_iface = record { valid = false; info = none; ports = λ _. zero_port }

-- `um9_rx_init`, `um9_tx_init` and `txCarryLen = 0`
abbrev pub restarted : OmsPort → ℕ → OmsPort
restarted port cable =
    if port.valid
    then record port {
      rx = rx_init port.rx cable;
      send = record port.send { tx = tx_init cable; tx_carry_len = 0 };
    }
    else port

-- The two loops, over arrays that are functions here: only the entries below their bounds count.
unfoldable pub reset_ports : (ℕ → OmsIface) → ℕ → OmsIface
reset_ports ifaces i = record (ifaces i) { ports = λ c. restarted ((ifaces i).ports c) c }

-- the loop of `oms_register_callbacks` from `i` on, with the rounds that are left; tells whether one
-- call has succeeded
unfoldable pub set_callbacks :
    {D : Type 0} → (D → ℕ → Bool → Bool × D) → Bool → ℕ → ℕ → D → Bool × D
set_callbacks set_callback hook i zero d = (false, d)
set_callbacks set_callback hook i (suc n) d =
    let (ok, d1) = set_callback d i hook in
    let (more, d2) = set_callbacks set_callback hook (i + 1) n d1 in (ok || more, d2)

unfoldable pub register_callbacks : {D : Type 0} → (D → ℕ → Bool → Bool × D) → Shim D → Shim D
unfolding set_callbacks
register_callbacks set_callback s =
    let (ok, d) = set_callbacks set_callback true 0 oms_max_interfaces s.driver in
    record s { driver = d; oms = record s.oms { callback_registered = ok } }

abbrev pub failed : {D : Type 0} → OmsErr → Shim D → Option (OmsErr × Shim D)
failed err s =
    some (err, record s { oms = record s.oms { locate_failures = inc s.oms.locate_failures } })

-- the end of `oms_bind_dispatch`, with a table that will do
unfoldable pub bind_table :
    {D : Type 0} → ℕ → Table D → (D → ℕ → Bool → Bool × D) → Shim D → Option (OmsErr × Shim D)
unfolding register_callbacks rx_drain_all reset_ports
bind_table ref table set_callback s =
    let bound = record s {
      oms = record s.oms {
        table = some table;
        device_ref = ref;
        relocates = inc s.oms.relocates;
        ifaces = reset_ports s.oms.ifaces;
      };
    } in
    let hooked = register_callbacks set_callback bound in
    rx_drain_all hooked.oms.midi_started hooked >>= λ s'. some (success, s')

unfoldable pub bind_symbol :
    {D : Type 0}
    → ℕ
    → Table D
    → Option (D → ℕ → Bool → Bool × D)
    → Shim D
    → Option (OmsErr × Shim D)
unfolding bind_table
bind_symbol ref table none s = failed bad_dispatch_table s
bind_symbol ref table (some set_callback) s =
    if ltb table.version dispatch_min_version
    then failed bad_dispatch_table s
    else bind_table ref table set_callback s

-- `oms_bind_dispatch`, with what `FindSymbol` gives for the connection
unfoldable pub bind_dispatch :
    {D : Type 0} → ℕ → Bool → Option (Table D) → Shim D → Option (OmsErr × Shim D)
unfolding bind_symbol
bind_dispatch ref false symbol s = failed find_error s
bind_dispatch ref true none s = failed bad_dispatch_table s
bind_dispatch ref true (some table) s = bind_symbol ref table table.set_event_callback s

abbrev pub is_bound : {D : Type 0} → Option (Table D) → Bool
is_bound none = false
is_bound (some table) = true

-- The lookup is `none` where `USBGetDriverConnectionID` fails.
unfoldable pub attach_device :
    {D : Type 0} → ℕ → Option (Lookup D) → Shim D → Option (OmsErr × Shim D)
unfolding bind_dispatch
attach_device ref lookup s = if is_bound s.oms.table then some (success, s) else elim lookup [
  | none ↦ some (driver_not_found, s)
  | some l ↦ bind_dispatch ref l.found l.symbol s
]

-- the walk of `USBGetNextDeviceByClass`: the devices that it gives, each with what `FindSymbol` gives
unfoldable pub walk : {D : Type 0} → List (ℕ × Lookup D) → Shim D → Option (OmsErr × Shim D)
unfolding bind_dispatch
walk [] s = failed driver_not_found s
walk ((ref, l) ∷ rest) s = bind_dispatch ref l.found l.symbol s >>= λ (err, s').
    elim (is_success err) [ true ↦ some (success, s') | false ↦ walk rest s' ]

unfoldable pub locate_dispatch :
    {D : Type 0} → List (ℕ × Lookup D) → Shim D → Option (OmsErr × Shim D)
unfolding walk
locate_dispatch devices s = if is_bound s.oms.table then some (success, s) else walk devices s

unfoldable pub detach : {D : Type 0} → Shim D → Shim D
detach s = record s {
  oms = record s.oms {
    table = none;
    device_ref = no_device_ref;
    callback_registered = false;
    n_interfaces = 0;
    ifaces = λ _. zero_iface;
  };
}

unfoldable pub ensure_dispatch :
    {D : Type 0} → List (ℕ × Lookup D) → Shim D → Option (OmsErr × Shim D)
unfolding locate_dispatch
ensure_dispatch devices s =
    if is_bound s.oms.table then some (success, s) else locate_dispatch devices s

-- `kNotifyAddDevice` and `kNotifyAddInterface`, with what is found for the device;
-- `kNotifyRemoveDevice` and `kNotifyRemoveInterface`; every other notification
pub data DeviceNotification (D : Type 0) : Type 0 where
  added : ℕ → Option (Lookup D) → DeviceNotification D
  removed : ℕ → DeviceNotification D
  other_event : DeviceNotification D

unfoldable pub usb_notify : {D : Type 0} → Option (DeviceNotification D) → Shim D → Option (Shim D)
unfolding attach_device detach
usb_notify none s = some s
usb_notify (some (added ref lookup)) s = attach_device ref lookup s >>= λ (_, s'). some s'
usb_notify (some (removed ref)) s =
    some (if is_bound s.oms.table && ref == s.oms.device_ref then detach s else s)
usb_notify (some other_event) s = some s
