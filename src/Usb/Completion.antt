-- ===== src/Usb/Completion.antt =====
-- classic/usb_driver.c: what the completion routine of one instance does.
use usbmidi.Prelude.{
  ltb, ◌==◌, if◌then◌else◌, word, ℕ, ◌+◌, ◌-◌, ◌*◌, ◌/◌, ◌%◌, Bool, true, false, not, ◌&&◌, Option,
  none, some, List, [], ◌∷◌, ◌++◌,
}
use usbmidi.Ring.{Ring, ring_enqueue}
use usbmidi.Usb.{
  Instance, World, Refcon, Stage, Status, Block, Reply, ring_size, read_alignment, no_err,
  usb_pending, pipe_stalled, clear_stall, alloc_ring_state, configure_interface_state,
  find_bulk_in_pipe_state, alloc_read_buffer_state, read_bulk_in_pipe_state, unknown_state,
}

abbrev pub with_refcon : Instance → Refcon → Instance
with_refcon inst r = record inst { pb = record inst.pb { usb_refcon = r } }

-- `usbRefcon = <stage>`
abbrev pub goto : Stage → Refcon
goto s = record { stage = s; return_from_driver = false; completion_pending = false }

-- `usbRefcon = kReturnFromDriver`
abbrev pub return_now : Refcon
return_now = record {
  stage = alloc_ring_state;
  return_from_driver = true;
  completion_pending = false;
}

abbrev pub stopped : Instance → Instance
stopped inst = with_refcon inst return_now

-- `usbRefcon |= kCompletionPending`
abbrev pub set_pending : Instance → Instance
set_pending inst = with_refcon inst (record inst.pb.usb_refcon { completion_pending = true })

-- `usbRefcon &= ~kCompletionPending`
abbrev pub clear_pending : Instance → Instance
clear_pending inst = with_refcon inst (record inst.pb.usb_refcon { completion_pending = false })

abbrev pub nil : Block
nil = record { address = 0; bytes = [] }

-- `USBMIDI9InitParamBlock`; `usbRefcon` is left as it was.
abbrev pub init_param_block : Instance → ℕ → Instance
init_param_block inst ref = record inst {
  pb = record inst.pb {
    usb_reference = ref;
    w_index = 0;
    w_value = 0;
    usb_buffer = nil;
    usb_req_count = 0;
    usb_act_count = 0;
    usb_flags = 0;
    usb_class_type = 0;
    usb_subclass = 0;
    usb_other = 0;
    usb_status = no_err;
  };
}

-- a service has accepted a call from slot `index`, and will complete it
abbrev pub await : ℕ → World → World
await index w = record w { inst = record w.inst { awaited = some index } }

-- the completion is there
abbrev pub collected : Instance → Instance
collected inst = record inst { awaited = none }

-- what the service has written when the completion runs
abbrev pub fill : Instance → Reply → Instance
fill inst r = record inst {
  pb = record inst.pb {
    usb_status = r.status;
    usb_act_count = r.act_count;
    usb_buffer = r.buffer;
    usb_reference = r.reference;
    w_value = r.value;
  };
}

abbrev pub is_ok : Status → Bool
is_ok no_err = true
is_ok _ = false

abbrev pub is_stalled : Status → Bool
is_stalled pipe_stalled = true
is_stalled _ = false

abbrev pub is_pending : Status → Bool
is_pending usb_pending = true
is_pending _ = false

-- `((unsigned long)base + 63) & ~63` on 32-bit addresses
abbrev pub aligned : ℕ → ℕ
aligned base = (base + (read_alignment - 1)) % word / read_alignment * read_alignment

abbrev pub memory_at : Block → Option (List ℕ)
memory_at b = if b.address == 0 then none else some b.bytes

-- What an event callback does to the ring, by `dequeueBytes`: it is code of the client, told by its
-- number, and given the index of the instance and the refcon.
abbrev pub Callback : Type 0
Callback = ℕ → ℕ → ℕ → Ring → Ring

-- the second half of `case kReadBulkInPipeState`: read again, clear a stall, or stop
unfoldable pub after_read : World → World
after_read w =
    if is_ok w.inst.pb.usb_status
    then record w { inst = with_refcon w.inst (goto read_bulk_in_pipe_state) }
    else if is_stalled w.inst.pb.usb_status
    then record w {
      issued =
          w.issued ++ (clear_stall, record w.inst.pb { usb_reference = w.inst.bulk_in_pipe }) ∷ [];
      inst = with_refcon w.inst (goto read_bulk_in_pipe_state);
    }
    else record w { inst = stopped w.inst }

module _ (callback : Callback) (index : ℕ) where
  -- the bytes of a completed read, and the push notification
  unfoldable pub received : World → World
  received w =
      let inst = w.inst in
      let (_, ring') =
        ring_enqueue inst.ring ring_size (memory_at inst.pb.usb_buffer) inst.pb.usb_act_count in
      let stored = record inst { ring = ring' } in
      elim inst.event_callback [
        | none ↦ record w { inst = stored }
        | some f ↦ record w {
          inst = record stored { ring = callback f index inst.event_refcon ring' };
          events = w.events ++ (f, index, inst.event_refcon) ∷ [];
        }
      ]

  -- the first half of `case kReadBulkInPipeState`
  unfoldable pub taken_in : World → World
  unfolding received
  taken_in w =
      let noted = record w {
        inst = record w.inst {
          last_read_status = w.inst.pb.usb_status;
          last_read_count = w.inst.pb.usb_act_count;
        };
      } in
      if is_ok w.inst.pb.usb_status && ltb 0 w.inst.pb.usb_act_count then received noted else noted

  -- `case kReadBulkInPipeState`
  unfoldable pub read_completed : World → World
  unfolding taken_in after_read
  read_completed w = after_read (taken_in w)

  -- the `switch` of `USBMIDI9CompletionProc`
  unfoldable pub advance : World → Stage → World
  unfolding read_completed
  advance w alloc_ring_state =
      let inst = w.inst in
      record w {
        inst =
            if is_ok inst.pb.usb_status
            then with_refcon
                (record inst {
                  ring_address = inst.pb.usb_buffer.address;
                  ring = record inst.ring { buf = memory_at inst.pb.usb_buffer };
                })
                (goto configure_interface_state)
            else stopped inst;
      }
  advance w configure_interface_state =
      let inst = w.inst in
      record w {
        inst =
            if is_ok inst.pb.usb_status
            then with_refcon inst (goto find_bulk_in_pipe_state)
            else stopped inst;
      }
  advance w find_bulk_in_pipe_state =
      let inst = w.inst in
      record w {
        inst =
            if is_ok inst.pb.usb_status
            then with_refcon
                (record inst {
                  bulk_in_pipe = inst.pb.usb_reference;
                  max_packet_size = inst.pb.w_value;
                })
                (goto alloc_read_buffer_state)
            else stopped inst;
      }
  advance w alloc_read_buffer_state =
      let inst = w.inst in
      record w {
        inst =
            if is_ok inst.pb.usb_status
            then with_refcon
                (record inst {
                  read_buffer_base = inst.pb.usb_buffer.address;
                  read_buffer = aligned inst.pb.usb_buffer.address;
                })
                (goto read_bulk_in_pipe_state)
            else stopped inst;
      }
  advance w read_bulk_in_pipe_state = read_completed w
  advance w unknown_state = record w { inst = stopped w.inst }

  -- `USBMIDI9CompletionProc` up to the call of the machine, with the decision to make that call
  unfoldable pub completed : World → Bool × World
  unfolding advance
  completed w =
      let stage = w.inst.pb.usb_refcon.stage in
      let w' = advance (record w { inst = record w.inst { call_in_flight = 0 } }) stage in
      let w'' = record w' { inst = clear_pending w'.inst } in
      (not w''.inst.pb.usb_refcon.return_from_driver && not w''.inst.removing, w'')
