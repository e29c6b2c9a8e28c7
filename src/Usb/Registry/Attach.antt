-- ===== src/Usb/Registry/Attach.antt =====
-- classic/usb_driver.c: the procs of the plug-in table, by which interfaces come and go.
use usbmidi.Prelude.{
  ltb, ◌>>=◌, ◌==◌, if◌then◌else◌, ℕ, zero, suc, ◌+◌, Bool, true, false, not, ◌||◌, Option, none,
  some, List, [], ◌∷◌, ◌++◌,
}
use usbmidi.Usb.{Instance, Status, World, alloc_ring_state, no_err, abort_pipe, Answer}
use usbmidi.Usb.Completion.{Callback, collected, goto, init_param_block, fill, clear_pending, is_ok}
use usbmidi.Usb.Machine.{completion, initiate}
use usbmidi.Usb.Machine.Start.{machine_fuel}
use usbmidi.Usb.Registry.{
  Driver, instance_at, put_instance, world_of, put_world, claim_instance, OsStatus, usb_no_err,
  internal_err, device_busy,
}

abbrev pub class_audio : ℕ
class_audio = 1

abbrev pub sub_class_midi_streaming : ℕ
sub_class_midi_streaming = 3

-- the fields of the two descriptors that the driver reads
pub record InterfaceDescriptor : Type 0 where
  pub interface_class : ℕ
  pub interface_sub_class : ℕ
  pub interface_protocol : ℕ
  pub num_endpoints : ℕ

pub record DeviceDescriptor : Type 0 where
  pub vendor : ℕ
  pub product : ℕ

-- `kNotifyDriverBeingRemoved`, `kNotifyExpertTerminating`, and every other notification
pub data Notification : Type 0 where
  driver_being_removed expert_terminating other_notification : Notification

unfoldable pub validate_hw : Driver → OsStatus × Driver
validate_hw d = (usb_no_err, d)

unfoldable pub initialize_device : Driver → OsStatus × Driver
initialize_device d = (internal_err, d)

-- what `USBMIDI9InitializeInterfaceProc` writes to a claimed instance; `eventCallback` and
-- `eventRefcon` are not among it; no service has accepted a call yet
unfoldable pub new_instance :
    (ℕ → ℕ) → ℕ → InterfaceDescriptor → DeviceDescriptor → ℕ → Instance → Instance
new_instance to_host_word interface_num interface device ref inst =
    let cleared = record inst {
      interface_ref = ref;
      bulk_in_pipe = 0;
      interface_num = interface_num;
      interface_class = interface.interface_class;
      interface_sub_class = interface.interface_sub_class;
      interface_protocol = interface.interface_protocol;
      vendor_id = to_host_word device.vendor;
      product_id = to_host_word device.product;
      max_packet_size = 0;
      read_buffer_base = 0;
      read_buffer = 0;
      ring_address = 0;
      ring = record { buf = none; head = 0; tail = 0 };
      last_read_status = no_err;
      last_read_count = 0;
      call_token = 0;
      call_in_flight = 0;
      trans_depth = 0;
      removing = false;
      awaited = none;
    } in
    let readied = init_param_block cleared ref in
    record readied { pb = record readied.pb { usb_refcon = goto alloc_ring_state } }

abbrev pub put_some_world : Driver → ℕ → Option World → Option Driver
put_some_world d index w = w >>= λ w'. some (put_world d index w')

module _ (callback : Callback) where
  unfoldable pub started : Driver → ℕ → Option Driver
  started d index = put_some_world d index (initiate callback index machine_fuel (world_of d index))

  -- what `USBMIDI9InitializeInterfaceProc` does with what `USBMIDI9ClaimInstance` gave
  unfoldable pub set_up :
      (ℕ → ℕ)
      → ℕ
      → InterfaceDescriptor
      → DeviceDescriptor
      → ℕ
      → Option ℕ × Driver
      → Option (OsStatus × Driver)
  unfolding started
  set_up to_host_word interface_num interface device ref (none, d) = some (internal_err, d)
  set_up to_host_word interface_num interface device ref (some index, d) =
      let inst =
        new_instance to_host_word interface_num interface device ref (instance_at d index) in
      started (put_instance d index inst) index >>= λ d'. some (usb_no_err, d')

  -- A descriptor is `none` for nil; `to_host_word` is `USBToHostWord`.
  unfoldable pub initialize_interface :
      (ℕ → ℕ)
      → ℕ
      → Option InterfaceDescriptor
      → Option DeviceDescriptor
      → ℕ
      → Driver
      → Option (OsStatus × Driver)
  unfolding set_up
  initialize_interface to_host_word interface_num none _ ref d = some (internal_err, d)
  initialize_interface to_host_word interface_num (some interface) none ref d =
      some (internal_err, d)
  initialize_interface to_host_word interface_num (some interface) (some device) ref d =
      if not (interface.interface_class == class_audio)
        || not (interface.interface_sub_class == sub_class_midi_streaming)
        || ltb interface.num_endpoints 1
      then some (internal_err, d)
      else set_up to_host_word interface_num interface device ref (claim_instance d)

  -- How `USBAbortPipeByReference` goes: the completion of the read may run inside of it. An abort
  -- without an answer succeeds, and the completion is still to come.
  unfoldable pub abort_answer : ℕ → World → List Answer → Option (World × Status)
  unfolding completion
  abort_answer index asked [] = some (asked, no_err)
  abort_answer index asked (a ∷ rest) =
      let aborting = record asked { answers = rest } in
      elim a.ran [
        | true ↦
            completion callback index (λ u. initiate callback index machine_fuel u)
              (record aborting { inst = fill (collected aborting.inst) a.reply })
            >>= λ w'. some (w', a.returned)
        | false ↦ some (aborting, a.returned)
      ]

  unfoldable pub abort : ℕ → World → Option (World × Status)
  unfolding abort_answer
  abort index w =
      let pb = record w.inst.pb { usb_reference = w.inst.bulk_in_pipe } in
      abort_answer index (record w { issued = w.issued ++ (abort_pipe, pb) ∷ [] }) w.answers

  -- the body of the loop of `kNotifyDriverBeingRemoved`, with `busy`
  unfoldable pub remove_one : ℕ → World → Option (Bool × World)
  unfolding abort
  remove_one index w =
      let marked = record w {
        inst = record w.inst { removing = true; event_callback = none; event_refcon = 0 };
      } in
      if not w.inst.pb.usb_refcon.completion_pending
      then some (false, marked)
      else if w.inst.bulk_in_pipe == 0
      then some (true, marked)
      else abort index marked >>= λ (w', err).
          some (true, if is_ok err then w' else record w' { inst = clear_pending w'.inst })

  -- the loop from `i` on, with the rounds that are left
  unfoldable pub remove_all : Driver → ℕ → ℕ → Option (Bool × Driver)
  unfolding remove_one
  remove_all d i zero = some (false, d)
  remove_all d i (suc n) = remove_one i (world_of d i) >>= λ (busy, w).
      (remove_all (put_world d i w) (i + 1) n >>= λ (more, d'). some (busy || more, d'))

  unfoldable pub notify : Notification → Driver → Option (OsStatus × Driver)
  unfolding remove_all
  notify driver_being_removed d =
      remove_all d 0 d.count >>= λ (busy, d'). some (if busy then device_busy else usb_no_err, d')
  notify expert_terminating d = some (usb_no_err, d)
  notify other_notification d = some (usb_no_err, d)
