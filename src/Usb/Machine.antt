-- ===== src/Usb/Machine.antt =====
-- classic/usb_driver.c: the asynchronous state machine of one instance.
pub mod Settled
pub mod Rest
pub mod Start
pub mod Progress
pub mod Counters
pub mod Issued
use usbmidi.Prelude.{
  ltb, ◌>>=◌, ◌==◌, if◌then◌else◌, word, ℕ, zero, suc, ◌+◌, ◌-◌, ◌%◌, true, false, not, ◌&&◌, ◌||◌,
  Option, none, some, List, [], ◌∷◌, ◌++◌,
}
use usbmidi.Usb.{
  Instance, World, Stage, Status, Service, Answer, ring_size, read_alignment, max_sync_depth,
  alloc_ring_state, configure_interface_state, find_bulk_in_pipe_state, alloc_read_buffer_state,
  read_bulk_in_pipe_state, unknown_state, no_err, usb_pending, alloc_mem, configure_interface,
  find_next_pipe, bulk_read,
}
use usbmidi.Usb.Completion.{
  await, stopped, fill, set_pending, clear_pending, init_param_block, is_ok, is_pending, Callback,
  completed,
}

-- `kUSBIn` and `kUSBBulk` of USB.h
abbrev pub usb_in : ℕ
usb_in = 1

abbrev pub usb_bulk : ℕ
usb_bulk = 2

-- the parameter block and the service of each stage, at the call
unfoldable pub prepare : Instance → Stage → Option (Service × Instance)
prepare inst alloc_ring_state =
    let i = init_param_block inst inst.interface_ref in
    some (alloc_mem, set_pending (record i { pb = record i.pb { usb_req_count = ring_size } }))
prepare inst configure_interface_state =
    some (configure_interface, set_pending (init_param_block inst inst.interface_ref))
prepare inst find_bulk_in_pipe_state =
    let i = init_param_block inst inst.interface_ref in
    some (
      find_next_pipe,
      set_pending (record i { pb = record i.pb { usb_flags = usb_in; usb_class_type = usb_bulk } }),
    )
prepare inst alloc_read_buffer_state =
    let i = init_param_block inst inst.interface_ref in
    some (
      alloc_mem,
      set_pending (record i {
        pb = record i.pb { usb_req_count = inst.max_packet_size + (read_alignment - 1) };
      }),
    )
prepare inst read_bulk_in_pipe_state =
    let i = init_param_block inst inst.bulk_in_pipe in
    some (
      bulk_read,
      set_pending (record i {
        pb = record i.pb {
          usb_buffer = record { address = inst.read_buffer; bytes = [] };
          usb_req_count = inst.max_packet_size;
        };
      }),
    )
prepare inst unknown_state = none

module _ (callback : Callback) (index : ℕ) where
  -- `USBMIDI9CompletionProc`, with the machine that it may start again
  unfoldable pub completion : (World → Option World) → World → Option World
  unfolding completed
  completion machine w =
      let (again, w') = completed callback index w in
      elim again [ true ↦ machine w' | false ↦ some w' ]

  -- How one call of a service goes: the world behind it, and what it returned. Only a call that is
  -- pending, and has not been completed, will be completed later.
  unfoldable pub answer : (World → Option World) → World → Answer → Option (World × Status)
  unfolding completion
  answer machine w a =
      let filled = record w { inst = fill w.inst a.reply } in
      elim a.ran [
        | true ↦ completion machine filled >>= λ w'. some (w', a.returned)
        | false ↦ some (
          if is_pending a.returned then await index w else if is_ok a.returned then filled else w,
          a.returned,
        )
      ]

  -- A call without an answer stays in flight.
  unfoldable pub next_answer :
      (World → Option World) → World → List Answer → Option (World × Status)
  unfolding answer
  next_answer machine asked [] = some (await index asked, usb_pending)
  next_answer machine asked (a ∷ rest) = answer machine (record asked { answers = rest }) a

  unfoldable pub call : (World → Option World) → World → Service → Option (World × Status)
  unfolding next_answer
  call machine w service =
      let asked = record w { issued = w.issued ++ (service, w.inst.pb) ∷ [] } in
      next_answer machine asked w.answers

  abbrev pub leave : World → World
  leave w = record w {
    inst = record w.inst { trans_depth = (w.inst.trans_depth + word - 1) % word };
  }

  abbrev pub stop : World → World
  stop w = record w { inst = stopped w.inst }

  -- `if (err != kUSBPending) ...`, for the call with the token `token`
  unfoldable pub settle : (World → Option World) → ℕ → World × Status → Option World
  unfolding completion
  settle machine token (w, err) =
      let flag = w.inst.pb.usb_refcon.return_from_driver in
      let quiet = clear_pending w.inst in
      let succeeded = record w {
        inst = record quiet { pb = record quiet.pb { usb_status = no_err; usb_act_count = 0 } };
      } in
      if is_pending err || not (w.inst.call_in_flight == token)
      then some w
      else elim (is_ok err && not flag) [
        | true ↦ completion machine succeeded
        | false ↦ some (if is_ok err then w else stop w)
      ]

  -- the call of the service, and what follows; without one, the `default` of the `switch`
  unfoldable pub issue :
      (World → Option World) → ℕ → World → Option (Service × Instance) → Option World
  unfolding call settle
  issue machine token w none = some (leave (stop w))
  issue machine token w (some (service, ready)) =
      call machine (record w { inst = ready }) service >>= λ r.
      (settle machine token r >>= λ w'. some (leave w'))

  -- `USBMIDI9InitiateTransaction` behind the two early returns
  unfoldable pub transact : (World → Option World) → World → Option World
  unfolding issue prepare
  transact machine w =
      let token = (w.inst.call_token + 1) % word in
      let inst = record w.inst { call_token = token; call_in_flight = token } in
      issue machine token (record w { inst = inst }) (prepare inst inst.pb.usb_refcon.stage)

  -- `USBMIDI9InitiateTransaction`, on fuel for its depth of recursion
  unfoldable pub initiate : ℕ → World → Option World
  unfolding transact
  initiate zero w = none
  initiate (suc n) w =
      let deeper = (w.inst.trans_depth + 1) % word in
      let inside = record w { inst = record w.inst { trans_depth = deeper } } in
      if w.inst.removing then some (stop w) else elim (ltb max_sync_depth deeper) [
        | true ↦ some (leave (stop inside))
        | false ↦ transact (λ w'. initiate n w') inside
      ]
