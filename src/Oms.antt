-- ===== src/Oms.antt =====
-- The OMS driver of oms/: its state `g_oms`, and the class driver as it sees it.
pub mod Send
pub mod Receive
pub mod Lifecycle
pub mod Devices
pub mod Messages
use usbmidi.Prelude.{◌==◌, if◌then◌else◌, ℕ, Bool, Option, List}
use usbmidi.Rx.{RxStream}
use usbmidi.Usb.Registry.{InterfaceInfo}
use usbmidi.Oms.Send.{Port, Sends}

abbrev pub oms_max_interfaces : ℕ
oms_max_interfaces = 8

abbrev pub oms_cables : ℕ
oms_cables = 16

abbrev pub dequeue_chunk : ℕ
dequeue_chunk = 64

abbrev pub dispatch_min_version : ℕ
dispatch_min_version = 2

-- `struct oms_port`; `ioRefNum` is the 16 bits of a `short`.
pub record OmsPort : Type 0 where
  pub io_ref_num : ℕ
  pub valid : Bool
  pub rx : RxStream
  pub send : Port

-- `struct oms_iface`
pub record OmsIface : Type 0 where
  pub valid : Bool
  pub info : Option InterfaceInfo
  pub ports : ℕ → OmsPort

-- `struct USBMIDI9DispatchTable`, over the state `D` of the class driver. `dequeue_bytes` gives the
-- bytes it has written, as many as it returns; `set_event_callback` takes whether the hook is set or
-- cleared and tells whether it returned `noErr`; it is `none` for a NULL entry.
-- `enumerate_interfaces` is the query of the count alone, `none` for an error.
pub record Table (D : Type 0) : Type 0 where
  pub version : ℕ
  pub dequeue_bytes : D → ℕ → ℕ → List ℕ × D
  pub set_event_callback : Option (D → ℕ → Bool → Bool × D)
  pub enumerate_interfaces : D → Option ℕ
  pub get_interface_info : D → ℕ → Option InterfaceInfo

-- `struct oms_state`; a handle or an address is a number, 0 for nil.
pub record Oms (D : Type 0) : Type 0 where
  pub table : Option (Table D)
  pub device_ref : ℕ
  pub midi_started : Bool
  pub notifier_installed : Bool
  pub callback_registered : Bool
  pub n_interfaces : ℕ
  pub interface_list : ℕ
  pub ifaces : ℕ → OmsIface
  pub send_upp : ℕ
  pub rx_routine : ℕ
  pub rx_packets : ℕ
  pub rx_messages : ℕ
  pub rx_dropped : ℕ
  pub sends : Sends
  pub tx_dropped : ℕ
  pub relocates : ℕ
  pub locate_failures : ℕ
  pub events : ℕ

-- `OMSPacket`
pub record OmsPacket : Type 0 where
  pub flags : ℕ
  pub len : ℕ
  pub src_io_ref_num : ℕ
  pub app_conn_ref_con : ℕ
  pub data_bytes : List ℕ

-- The driver with its surroundings: the class driver, and the calls of the receive routine of OMS
-- in their order, with their packets and reference numbers.
pub record Shim (D : Type 0) : Type 0 where
  pub oms : Oms D
  pub driver : D
  pub delivered : List (OmsPacket × ℕ)

-- an entry of an array of C
abbrev pub put_at {ℓ} : {A : Type ℓ} → (ℕ → A) → ℕ → A → ℕ → A
put_at f i x k = if k == i then x else f k
