-- ===== src/Usb.antt =====
-- classic/usb_driver.h: the state of the class driver for one interface, and the USB services as the
-- driver sees them. A pointer is an address, 0 for nil, with the bytes there where the driver reads
-- them.
pub mod Completion
pub mod Machine
pub mod Receive
pub mod Registry
use usbmidi.Prelude.{ℕ, Bool, Option, List}
use usbmidi.Ring.{Ring}

-- The stages of `usbRefcon`; `unknown_state` stands for every other number.
pub data Stage : Type 0 where
  alloc_ring_state configure_interface_state find_bulk_in_pipe_state alloc_read_buffer_state
        read_bulk_in_pipe_state unknown_state :
      Stage

-- `usbRefcon`: the stage and two flag bits. `kReturnFromDriver` alone has stage 0.
pub record Refcon : Type 0 where
  pub stage : Stage
  pub return_from_driver : Bool
  pub completion_pending : Bool

-- `OSStatus`; no other code is told apart.
pub data Status : Type 0 where
  no_err usb_pending pipe_stalled other_err : Status

pub record Block : Type 0 where
  pub address : ℕ
  pub bytes : List ℕ

-- The fields of `USBPB` that the driver writes, but for constants.
pub record Pb : Type 0 where
  pub usb_reference : ℕ
  pub w_index : ℕ
  pub w_value : ℕ
  pub usb_buffer : Block
  pub usb_req_count : ℕ
  pub usb_act_count : ℕ
  pub usb_flags : ℕ
  pub usb_class_type : ℕ
  pub usb_subclass : ℕ
  pub usb_other : ℕ
  pub usb_status : Status
  pub usb_refcon : Refcon

-- `usbmidi9_instance`. `ringBuffer` is `ring_address` and the memory of `ring`, with the indices
-- `ringHead` and `ringTail`. `awaited` is no field of the source but belongs to the surroundings: the slot
-- in which the instance was when a service accepted a call whose completion is still to come.
pub record Instance : Type 0 where
  pub pb : Pb
  pub interface_ref : ℕ
  pub bulk_in_pipe : ℕ
  pub interface_num : ℕ
  pub interface_class : ℕ
  pub interface_sub_class : ℕ
  pub interface_protocol : ℕ
  pub vendor_id : ℕ
  pub product_id : ℕ
  pub max_packet_size : ℕ
  pub read_buffer_base : ℕ
  pub read_buffer : ℕ
  pub ring_address : ℕ
  pub ring : Ring
  pub last_read_status : Status
  pub last_read_count : ℕ
  pub call_token : ℕ
  pub call_in_flight : ℕ
  pub trans_depth : ℕ
  pub removing : Bool
  pub event_callback : Option ℕ
  pub event_refcon : ℕ
  pub awaited : Option ℕ

abbrev pub ring_size : ℕ
ring_size = 4096

abbrev pub read_alignment : ℕ
read_alignment = 64

abbrev pub max_sync_depth : ℕ
max_sync_depth = 16

-- the services that the driver calls
pub data Service : Type 0 where
  alloc_mem configure_interface find_next_pipe bulk_read clear_stall abort_pipe dealloc_mem :
      Service

-- What a service writes to the parameter block.
pub record Reply : Type 0 where
  pub status : Status
  pub act_count : ℕ
  pub buffer : Block
  pub reference : ℕ
  pub value : ℕ

-- How a call goes: `ran` if its completion runs inside of it, with `reply`; and what it returns.
-- A call that returns without its completion has written `reply` too if it has succeeded.
pub record Answer : Type 0 where
  pub ran : Bool
  pub reply : Reply
  pub returned : Status

-- One instance and its surroundings: the answers of the services to come, the calls made so far,
-- with their parameter blocks, and the event callbacks made, with their arguments.
pub record World : Type 0 where
  pub inst : Instance
  pub answers : List Answer
  pub issued : List (Service × Pb)
  pub events : List (ℕ × ℕ × ℕ)
