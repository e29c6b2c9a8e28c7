-- ===== src/Usb/Registry.antt =====
-- classic/usb_driver.c: the registry of instances and the procs of the dispatch table of
-- classic/usbmidi9_dispatch.h.
pub mod Attach
pub mod Slots
pub mod Table
pub mod Removal
pub mod Notice
pub mod Goodbye
pub mod Arrival
pub mod Steps
pub mod Counters
pub mod Within
use usbmidi.Prelude.{
  ltb, leb, ◌==◌, if◌then◌else◌, get_or, set, ℕ, zero, suc, ◌+◌, ◌-◌, min, Bool, false, not, ◌&&◌,
  ◌||◌, Option, none, some, List, [], ◌∷◌, ◌++◌,
}
use usbmidi.Ring.{ring_used, ring_dequeue}
use usbmidi.Usb.{
  Instance, World, Pb, Answer, Service, ring_size, alloc_ring_state, no_err, dealloc_mem,
}
use usbmidi.Usb.Completion.{goto}

abbrev pub max_interfaces : ℕ
max_interfaces = 8

-- the `OSStatus` results of the procs
pub data OsStatus : Type 0 where
  usb_no_err param_err not_found internal_err device_busy : OsStatus

-- `gUSBMIDI9Instances` and `gUSBMIDI9InstanceCount`, and the surroundings as in `World`
pub record Driver : Type 0 where
  pub instances : List Instance
  pub count : ℕ
  pub answers : List Answer
  pub issued : List (Service × Pb)
  pub events : List (ℕ × ℕ × ℕ)

-- `USBMIDI9InterfaceInfo`
pub record InterfaceInfo : Type 0 where
  pub index : ℕ
  pub vendor_id : ℕ
  pub product_id : ℕ
  pub interface_num : ℕ
  pub interface_class : ℕ
  pub interface_sub_class : ℕ
  pub interface_protocol : ℕ
  pub max_packet_size : ℕ
  pub available_bytes : ℕ

-- an instance of the static array before its first use
abbrev pub zero_instance : Instance
zero_instance = record {
  pb = record {
    usb_reference = 0;
    w_index = 0;
    w_value = 0;
    usb_buffer = record { address = 0; bytes = [] };
    usb_req_count = 0;
    usb_act_count = 0;
    usb_flags = 0;
    usb_class_type = 0;
    usb_subclass = 0;
    usb_other = 0;
    usb_status = no_err;
    usb_refcon = goto alloc_ring_state;
  };
  interface_ref = 0;
  bulk_in_pipe = 0;
  interface_num = 0;
  interface_class = 0;
  interface_sub_class = 0;
  interface_protocol = 0;
  vendor_id = 0;
  product_id = 0;
  max_packet_size = 0;
  read_buffer_base = 0;
  read_buffer = 0;
  ring_address = 0;
  ring = record { buf = none; head = 0; tail = 0 };
  last_read_status = no_err;
  last_read_count = 0;
  call_token = 0;
  call_in_flight = 0;
  trans_depth = 0;
  removing = false;
  event_callback = none;
  event_refcon = 0;
  awaited = none;
}

abbrev pub instance_at : Driver → ℕ → Instance
instance_at d index = get_or d.instances index zero_instance

abbrev pub put_instance : Driver → ℕ → Instance → Driver
put_instance d index inst = record d { instances = set d.instances index inst }

-- one instance with the surroundings, and back
abbrev pub world_of : Driver → ℕ → World
world_of d index = record {
  inst = instance_at d index;
  answers = d.answers;
  issued = d.issued;
  events = d.events;
}

abbrev pub put_world : Driver → ℕ → World → Driver
put_world d index w = record d {
  instances = set d.instances index w.inst;
  answers = w.answers;
  issued = w.issued;
  events = w.events;
}

unfoldable pub fill_interface_info : ℕ → Instance → InterfaceInfo
fill_interface_info index inst = record {
  index = index;
  vendor_id = inst.vendor_id;
  product_id = inst.product_id;
  interface_num = inst.interface_num;
  interface_class = inst.interface_class;
  interface_sub_class = inst.interface_sub_class;
  interface_protocol = inst.interface_protocol;
  max_packet_size = inst.max_packet_size;
  available_bytes = ring_used inst.ring ring_size;
}

-- the loop of `USBMIDI9EnumerateInterfaces` from `i` on, with the rounds that are left
unfoldable pub fill_all : Driver → ℕ → ℕ → List InterfaceInfo
unfolding fill_interface_info
fill_all d i zero = []
fill_all d i (suc n) = fill_interface_info i (instance_at d i) ∷ fill_all d (i + 1) n

-- The flags are `outArray != nil` and `outCount != nil`. Returns the result, the records written,
-- and `*outCount` if written.
unfoldable pub enumerate_interfaces :
    Driver → Bool → ℕ → Bool → OsStatus × List InterfaceInfo × Option ℕ
unfolding fill_all
enumerate_interfaces d has_array max_count has_count =
    if not has_count || (ltb 0 max_count && not has_array)
    then (param_err, [], none)
    else (usb_no_err, fill_all d 0 (min d.count max_count), some d.count)

unfoldable pub get_interface_info : Driver → ℕ → Bool → OsStatus × Option InterfaceInfo
unfolding fill_interface_info
get_interface_info d index has_info =
    if not has_info
    then (param_err, none)
    else if leb d.count index
    then (not_found, none)
    else (usb_no_err, some (fill_interface_info index (instance_at d index)))

-- Returns the count, the bytes written to `buffer`, and the driver.
unfoldable pub dequeue_bytes : Driver → ℕ → Bool → ℕ → ℕ × List ℕ × Driver
dequeue_bytes d index has_buffer max_bytes =
    if leb d.count index
    then (0, [], d)
    else let inst = instance_at d index in
      let (n, out, ring') = ring_dequeue inst.ring ring_size has_buffer max_bytes in
      (n, out, put_instance d index (record inst { ring = ring' }))

unfoldable pub set_event_callback : Driver → ℕ → Option ℕ → ℕ → OsStatus × Driver
set_event_callback d index f refcon = if leb d.count index then (not_found, d) else (
  usb_no_err,
  put_instance d index (record (instance_at d index) { event_refcon = refcon; event_callback = f }),
)

-- The index of the instance, and the registry.
unfoldable pub claim_instance : Driver → Option ℕ × Driver
claim_instance d =
    if leb max_interfaces d.count
    then (none, d)
    else (some d.count, record d { count = d.count + 1 })

-- `USBDeallocMem` of a block that is not nil
unfoldable pub dealloc_block : World → ℕ → World
dealloc_block w block =
    let pb = record w.inst.pb {
      usb_reference = w.inst.interface_ref;
      usb_flags = 0;
      usb_refcon = goto alloc_ring_state;
      usb_buffer = record { address = block; bytes = [] };
    } in
    if block == 0
    then w
    else record w { inst = record w.inst { pb = pb }; issued = w.issued ++ (dealloc_mem, pb) ∷ [] }

-- the buffers of an instance are given back
unfoldable pub release_buffers : World → World
unfolding dealloc_block
release_buffers w =
    let ring_gone = dealloc_block w w.inst.ring_address in
    let both_gone = dealloc_block ring_gone ring_gone.inst.read_buffer_base in
    record both_gone {
      inst = record both_gone.inst {
        ring_address = 0;
        ring = record both_gone.inst.ring { buf = none };
        read_buffer_base = 0;
        read_buffer = 0;
      };
    }

unfoldable pub dispose_instance : Driver → ℕ → Driver
unfolding release_buffers
dispose_instance d index =
    let freed = put_world d index (release_buffers (world_of d index)) in
    let last = freed.count - 1 in
    let fewer = record freed { count = last } in
    if ltb index last then put_instance fewer index (instance_at fewer last) else fewer

-- the loop of `USBMIDI9FinalizeProc` from `i` on, with the rounds that are left
unfoldable pub finalize_from : Driver → ℕ → ℕ → ℕ → Driver
unfolding dispose_instance
finalize_from d ref i zero = d
finalize_from d ref i (suc n) =
    if (instance_at d i).interface_ref == ref
    then dispose_instance d i
    else finalize_from d ref (i + 1) n

unfoldable pub finalize : Driver → ℕ → OsStatus × Driver
unfolding finalize_from
finalize d ref = (usb_no_err, finalize_from d ref 0 d.count)
