-- ===== src/Oms/Messages.antt =====
-- oms/oms_driver.c: the messages of OMS to its driver.
pub mod Steady
pub mod Owned
pub mod Handled
pub mod Started
pub mod Ports
use usbmidi.Prelude.{
  ltb, leb, ◌>>=◌, ◌==◌, if◌then◌else◌, ℕ, ◌+◌, ◌-◌, ◌*◌, Bool, true, false, not, ◌||◌, Option,
  none, some, List, [], ◌∷◌, ◌++◌,
}
use usbmidi.Oms.{Shim, oms_max_interfaces, oms_cables, put_at, OmsIface, Oms}
use usbmidi.Oms.Lifecycle.{
  Lookup, ensure_dispatch, zero_iface, restarted, set_callbacks, locate_dispatch, usb_notify,
  OmsErr, DeviceNotification, success, bad_dispatch_table,
}
use usbmidi.Oms.Devices.{OmsDevice, add_devices, callback_entry}
use usbmidi.Oms.Receive.{rx_drain_all}
use usbmidi.Rx.{rx_init}
use usbmidi.Tx.{tx_init}

-- `OMSPortID`, each field as the `unsigned` that it is cast to
pub record OmsPortId : Type 0 where
  pub which_interface : ℕ
  pub which_port : ℕ

-- `OMSSendParams`; `proc` is a routine descriptor, 0 for nil.
pub record SendParams : Type 0 where
  pub proc : ℕ
  pub param_d0 : ℕ
  pub param_d1 : ℕ

-- The driver, with the numbers of routine descriptors that it was given and has disposed of, and of
-- device notifications that it has installed and removed, the devices that OMS was told of, and the last `OMSSendParams` that it wrote.
pub record Host (D : Type 0) : Type 0 where
  pub shim : Shim D
  pub descriptors : ℕ
  pub disposed : ℕ
  pub notifiers : ℕ
  pub removed_notifiers : ℕ
  pub devices : List OmsDevice
  pub send_params : Option SendParams

-- What the system answers during `omdvInit`: the routine descriptor, 0 for none; the notifications
-- that come while one is installed; whether it was installed; the devices; and the address of the
-- receive routine, `none` where `LinkToOMSGlue` fails.
pub record InitAnswers (D : Type 0) : Type 0 where
  pub descriptor : ℕ
  pub notified : List (DeviceNotification D)
  pub installed : Bool
  pub found : List (ℕ × Lookup D)
  pub routine : Option ℕ

-- `oms_zero(&g_oms, sizeof(g_oms))`; what was sent stays sent.
unfoldable pub zero_oms : {D : Type 0} → Oms D → Oms D
zero_oms g = record {
  table = none;
  device_ref = 0;
  midi_started = false;
  notifier_installed = false;
  callback_registered = false;
  n_interfaces = 0;
  interface_list = 0;
  ifaces = λ _. zero_iface;
  send_upp = 0;
  rx_routine = 0;
  rx_packets = 0;
  rx_messages = 0;
  rx_dropped = 0;
  sends = record g.sends { tx_converted = 0; tx_malformed = 0 };
  tx_dropped = 0;
  relocates = 0;
  locate_failures = 0;
  events = 0;
}

abbrev pub put_oms : {D : Type 0} → Host D → Oms D → Host D
put_oms h g = record h { shim = record h.shim { oms = g } }

-- what `oms_init` and `oms_dispose` give back before they zero the state
unfoldable pub give_back : {D : Type 0} → Host D → Host D
unfolding zero_oms
give_back h =
    let g = h.shim.oms in
    put_oms
      (record h {
        removed_notifiers =
            if g.notifier_installed then h.removed_notifiers + 1 else h.removed_notifiers;
        disposed = if not (g.send_upp == 0) then h.disposed + 1 else h.disposed;
      })
      (zero_oms g)

-- `sendUpp = NewOMSReadHook2(oms_tx_send)`
unfoldable pub new_descriptor : {D : Type 0} → ℕ → Host D → Host D
new_descriptor upp h =
    put_oms (record h { descriptors = if upp == 0 then h.descriptors else h.descriptors + 1 })
      (record h.shim.oms { send_upp = upp })

-- the notifications that come while the notification is installed
unfoldable pub notify_each : {D : Type 0} → List (DeviceNotification D) → Shim D → Option (Shim D)
unfolding usb_notify
notify_each [] s = some s
notify_each (n ∷ rest) s = usb_notify (some n) s >>= λ s'. notify_each rest s'

unfoldable pub init : {D : Type 0} → InitAnswers D → Host D → Option (Host D)
unfolding give_back new_descriptor notify_each locate_dispatch
init a h =
    let fresh = new_descriptor a.descriptor (give_back h) in
    notify_each a.notified fresh.shim >>= λ s.
    (let installed = record s { oms = record s.oms { notifier_installed = a.installed } } in
      locate_dispatch a.found installed >>= λ (_, s'). some (record fresh {
        notifiers = if a.installed then fresh.notifiers + 1 else fresh.notifiers;
        shim = record s' {
          oms = record s'.oms { rx_routine = elim a.routine [ none ↦ 0 | some r ↦ r ] };
        };
      }))

-- the class driver behind the unregistering of `oms_dispose`
unfoldable pub unregistered : {D : Type 0} → Option (D → ℕ → Bool → Bool × D) → D → D
unfolding set_callbacks
unregistered none d = d
unregistered (some set_callback) d = (set_callbacks set_callback false 0 oms_max_interfaces d).1

unfoldable pub dispose : {D : Type 0} → Host D → Host D
unfolding unregistered give_back
dispose h =
    let d = unregistered (callback_entry h.shim.oms.table) h.shim.driver in
    give_back (record h { shim = record h.shim { driver = d } })

-- the loop of `oms_start_midi2` over the interfaces and their ports
unfoldable pub restart_ports : (ℕ → OmsIface) → ℕ → OmsIface
restart_ports ifaces i =
    if (ifaces i).valid
    then record (ifaces i) { ports = λ c. restarted ((ifaces i).ports c) c }
    else ifaces i

unfoldable pub start_midi2 : {D : Type 0} → List (ℕ × Lookup D) → Shim D → Option (Shim D)
unfolding ensure_dispatch rx_drain_all restart_ports
start_midi2 found s = ensure_dispatch found s >>= λ (_, s1).
    (rx_drain_all false s1 >>= λ s2. some (record s2 {
      oms = record s2.oms { ifaces = restart_ports s2.oms.ifaces; midi_started = true };
    }))

-- a port that the two messages about ports refuse
abbrev pub is_outside : OmsPortId → Bool
is_outside id =
    ltb id.which_interface 1
    || ltb oms_max_interfaces id.which_interface
    || leb oms_cables id.which_port

-- the end of `oms_get_port_send_proc`, with a descriptor or without one
unfoldable pub hand_out : {D : Type 0} → OmsPortId → Host D → OmsErr × Host D
hand_out id h =
    if h.shim.oms.send_upp == 0
    then (
      bad_dispatch_table,
      record h { send_params = some (record { proc = 0; param_d0 = 0; param_d1 = 0 }) },
    )
    else (
      success,
      record h {
        send_params = some (record {
          proc = h.shim.oms.send_upp;
          param_d0 = id.which_interface * 256 + id.which_port;
          param_d1 = 0;
        });
      },
    )

-- `upp` is what `NewOMSReadHook2` gives where it is tried again.
unfoldable pub get_port_send_proc :
    {D : Type 0} → Option OmsPortId → Bool → ℕ → Host D → OmsErr × Host D
unfolding hand_out new_descriptor
get_port_send_proc none has_params upp h = (success, h)
get_port_send_proc (some id) has_params upp h =
    if not has_params || is_outside id
    then (success, h)
    else hand_out id (if h.shim.oms.send_upp == 0 then new_descriptor upp h else h)

-- `ref` is the 16 bits of `ioRefNum`.
unfoldable pub set_port_receive_refnum : {D : Type 0} → Option OmsPortId → ℕ → Shim D → Shim D
set_port_receive_refnum none ref s = s
set_port_receive_refnum (some id) ref s =
    let index = id.which_interface - 1 in
    let iface = s.oms.ifaces index in
    let port = iface.ports id.which_port in
    let port' = record port {
      valid = true;
      io_ref_num = ref;
      rx = rx_init port.rx id.which_port;
      send = record port.send { tx = tx_init id.which_port };
    } in
    let iface' = record iface { ports = put_at iface.ports id.which_port port' } in
    if is_outside id
    then s
    else record s { oms = record s.oms { ifaces = put_at s.oms.ifaces index iface' } }

-- The messages that do something, with their parameters and what the system answers; `other` is
-- every other one, `omdvStartMIDI` among them.
pub data Message (D : Type 0) : Type 0 where
  init_msg : InitAnswers D → Message D
  dispose_msg : Message D
  add_devices_msg : Bool → List (ℕ × Lookup D) → Message D
  set_interface_list_msg : ℕ → Message D
  start_midi2_msg : List (ℕ × Lookup D) → Message D
  stop_midi_msg : Message D
  get_port_send_proc_msg : Option OmsPortId → Bool → ℕ → Message D
  set_port_receive_refnum_msg : Option OmsPortId → ℕ → Message D
  other_msg : Message D

-- `oms_handle_message`
unfoldable pub handle_message : {D : Type 0} → Message D → Host D → Option (OmsErr × Host D)
unfolding init dispose add_devices start_midi2 get_port_send_proc set_port_receive_refnum
handle_message (init_msg a) h = init a h >>= λ h'. some (success, h')
handle_message dispose_msg h = some (success, dispose h)
handle_message (add_devices_msg has_callback found) h =
    add_devices has_callback found h.shim >>= λ (s, told).
    some (success, record h { shim = s; devices = h.devices ++ told })
handle_message (set_interface_list_msg list) h =
    some (success, put_oms h (record h.shim.oms { interface_list = list }))
handle_message (start_midi2_msg found) h =
    start_midi2 found h.shim >>= λ s. some (success, record h { shim = s })
handle_message stop_midi_msg h =
    some (success, put_oms h (record h.shim.oms { midi_started = false }))
handle_message (get_port_send_proc_msg id has_params upp) h =
    some (get_port_send_proc id has_params upp h)
handle_message (set_port_receive_refnum_msg id ref) h =
    some (success, record h { shim = set_port_receive_refnum id ref h.shim })
handle_message other_msg h = some (success, h)
