-- ===== src/Link.antt =====
-- classic/usb_driver.c with oms/: the dispatch table that the class driver exports, as the OMS driver
-- uses it.
pub mod Served
pub mod Source
pub mod Delivery
pub mod Hooked
pub mod Announced
pub mod Backlog
use usbmidi.Prelude.{if◌then◌else◌, ℕ, Bool, true, false, none, some}
use usbmidi.Usb.Registry.{
  Driver, dequeue_bytes, enumerate_interfaces, get_interface_info, OsStatus, usb_no_err,
  set_event_callback,
}
use usbmidi.Oms.{Table}

abbrev pub dispatch_version : ℕ
dispatch_version = 2

abbrev pub is_usb_no_err : OsStatus → Bool
is_usb_no_err usb_no_err = true
is_usb_no_err _ = false

-- `USBMIDI9DispatchTable`; `hook` is the number of the event callback of the client.
abbrev pub dispatch_table : ℕ → Table Driver
dispatch_table hook = record {
  version = dispatch_version;
  dequeue_bytes = λ d index max_bytes. let r = dequeue_bytes d index true max_bytes in (r.1, r.2);
  set_event_callback = some (λ d index on.
      let r = set_event_callback d index (if on then some hook else none) 0 in
      (is_usb_no_err r.0, r.1));
  enumerate_interfaces = λ d. (enumerate_interfaces d false 0 true).2;
  get_interface_info = λ d index. (get_interface_info d index true).1;
}
