-- ===== src/Usb/Machine/Issued.antt =====
-- The state machine of classic/usb_driver.c only adds to the calls that it has made; and the first call of
-- a new instance.
use mathlib.Core.Path.{subst}
use usbmidi.Prelude.{
  Ends, then_Ends, elim_Ends, if_false, pick, ltb, ◌>>=◌, ◌==◌, if◌then◌else◌, Bool-cases,
  Option-cases, word, ℕ, zero, suc, ◌+◌, ◌%◌, ◌≡◌, refl, sym, ap, ◌∙◌, inl, inr, true, false, not,
  ◌&&◌, ◌||◌, Option, none, some, List, [], ◌∷◌, ◌++◌, append-nil, append_assoc, arith,
}
use usbmidi.Usb.{
  World, Stage, ring_size, alloc_ring_state, configure_interface_state, find_bulk_in_pipe_state,
  alloc_read_buffer_state, read_bulk_in_pipe_state, unknown_state, Instance, Pb, max_sync_depth,
  Status, Service, Answer, no_err, alloc_mem,
}
use usbmidi.Usb.Completion.{
  await, fill, Callback, received, taken_in, after_read, read_completed, advance, completed, is_ok,
  is_stalled, clear_pending, is_pending, set_pending, init_param_block,
}
use usbmidi.Usb.Machine.{
  completion, answer, next_answer, call, settle, issue, prepare, transact, initiate, leave, stop,
}

abbrev pub Calls : Type 0
Calls = List (Service × Pb)

-- the calls made begin with those of `base`
abbrev pub IsBehind : Calls → Calls → Type 0
IsBehind base calls = (more : Calls) × (calls ≡ base ++ more)

IsBehind-append : (base calls new : Calls) → IsBehind base calls → IsBehind base (calls ++ new)
IsBehind-append base calls new (more, e) =
    (more ++ new, ap (λ l. l ++ new) e ∙ append_assoc base more new)

module _ (callback : Callback) (index : ℕ) (base : Calls) where
  abbrev pub IsAfter : World → Type 0
  IsAfter w = IsBehind base w.issued

  received-IsAfter : (w : World) → IsAfter w → IsAfter (received callback index w)
  unfolding received
  received-IsAfter w h = elim (Option-cases w.inst.event_callback) [
    | inl e ↦ rw e h
    | inr (f, e) ↦ rw e h
  ]

  after_read-IsAfter : (w : World) → IsAfter w → IsAfter (after_read w)
  unfolding after_read
  after_read-IsAfter w h = elim (Bool-cases (is_ok w.inst.pb.usb_status)) [
    | inl e ↦ rw e h
    | inr e ↦ elim (Bool-cases (is_stalled w.inst.pb.usb_status)) [
      | inl e' ↦ rw (e, e') (IsBehind-append base w.issued _ h)
      | inr e' ↦ rw (e, e') h
    ]
  ]

  taken_in-IsAfter : (w : World) → IsAfter w → IsAfter (taken_in callback index w)
  unfolding taken_in
  taken_in-IsAfter w h =
      let noted = record w {
        inst = record w.inst {
          last_read_status = w.inst.pb.usb_status;
          last_read_count = w.inst.pb.usb_act_count;
        };
      } in
      pick IsAfter (is_ok w.inst.pb.usb_status && ltb 0 w.inst.pb.usb_act_count)
        (received callback index noted) noted (received-IsAfter noted h) h

  advance-IsAfter : (w : World) (s : Stage) → IsAfter w → IsAfter (advance callback index w s)
  unfolding advance read_completed
  advance-IsAfter w alloc_ring_state h = h
  advance-IsAfter w configure_interface_state h = h
  advance-IsAfter w find_bulk_in_pipe_state h = h
  advance-IsAfter w alloc_read_buffer_state h = h
  advance-IsAfter w read_bulk_in_pipe_state h =
      after_read-IsAfter (taken_in callback index w) (taken_in-IsAfter w h)
  advance-IsAfter w unknown_state h = h

  -- whatever the machine comes to, it has only added calls
  abbrev pub Adds : (World → Option World) → Type 0
  Adds machine = (w : World) → IsAfter w → Ends IsAfter (machine w)

  abbrev IsAfterCall : World × Status → Type 0
  IsAfterCall r = IsAfter r.0

  module _ (machine : World → Option World) (runs : Adds machine) where
    completion-IsAfter :
        (w : World) → IsAfter w → Ends IsAfter (completion callback index machine w)
    unfolding completion completed
    completion-IsAfter w h =
        let (again, w') = completed callback index w in
        let still =
          advance-IsAfter (record w { inst = record w.inst { call_in_flight = 0 } })
            w.inst.pb.usb_refcon.stage h in
        elim_Ends IsAfter again (machine w') (some w') (runs w' still) still

    answer-IsAfter :
        (w : World) (a : Answer) → IsAfter w → Ends IsAfterCall (answer callback index machine w a)
    unfolding answer
    answer-IsAfter w a h =
        let filled = record w { inst = fill w.inst a.reply } in
        elim_Ends IsAfterCall a.ran
          (completion callback index machine filled >>= λ w'. some (w', a.returned))
          (some (
            if is_pending a.returned then await index w else if is_ok a.returned then filled else w,
            a.returned,
          ))
          (then_Ends IsAfter IsAfterCall (completion callback index machine filled)
            (λ w'. some (w', a.returned)) (completion-IsAfter filled h) (λ w' k. k))
          (pick IsAfter (is_pending a.returned) (await index w) _ h
            (pick IsAfter (is_ok a.returned) filled w h h))

    next_answer-IsAfter :
        (w : World) (l : List Answer)
        → IsAfter w
        → Ends IsAfterCall (next_answer callback index machine w l)
    unfolding next_answer
    next_answer-IsAfter w [] h = h
    next_answer-IsAfter w (a ∷ rest) h = answer-IsAfter (record w { answers = rest }) a h

    settle-IsAfter :
        (token : ℕ) (w : World) (err : Status)
        → IsAfter w
        → Ends IsAfter (settle callback index machine token (w, err))
    unfolding settle
    settle-IsAfter token w err h =
        let quiet = clear_pending w.inst in
        let succeeded = record w {
          inst = record quiet { pb = record quiet.pb { usb_status = no_err; usb_act_count = 0 } };
        } in
        let flag = w.inst.pb.usb_refcon.return_from_driver in
        let behind : Option World = elim (is_ok err && not flag) [
          | true ↦ completion callback index machine succeeded
          | false ↦ some (if is_ok err then w else stop callback index w)
        ] in
        pick (Ends IsAfter) (is_pending err || not (w.inst.call_in_flight == token)) (some w) behind
          h
          (elim_Ends IsAfter (is_ok err && not flag) (completion callback index machine succeeded)
            (some (if is_ok err then w else stop callback index w)) (completion-IsAfter succeeded h)
            (pick IsAfter (is_ok err) w (stop callback index w) h h))

    issue_call-IsAfter :
        (token : ℕ) (w : World) (service : Service) (ready : Instance)
        → IsBehind base (w.issued ++ (service, ready.pb) ∷ [])
        → Ends IsAfter (issue callback index machine token w (some (service, ready)))
    unfolding issue call
    issue_call-IsAfter token w service ready h =
        let asked = record w { inst = ready; issued = w.issued ++ (service, ready.pb) ∷ [] } in
        then_Ends IsAfterCall IsAfter (next_answer callback index machine asked w.answers) _
          (next_answer-IsAfter asked w.answers h)
          (λ (r : World × Status) k.
            then_Ends IsAfter IsAfter (settle callback index machine token r)
              (λ w'. some (leave callback index w')) (settle-IsAfter token r.0 r.1 k) (λ w' k'. k'))

    issue-IsAfter :
        (token : ℕ) (w : World) (o : Option (Service × Instance))
        → IsAfter w
        → Ends IsAfter (issue callback index machine token w o)
    unfolding issue
    issue-IsAfter token w none h = h
    issue-IsAfter token w (some (service, ready)) h =
        issue_call-IsAfter token w service ready (IsBehind-append base w.issued _ h)

  initiate-IsAfter : (n : ℕ) → Adds (initiate callback index n)
  unfolding initiate transact
  initiate-IsAfter zero w h = tt
  initiate-IsAfter (suc n) w h =
      let deeper = (w.inst.trans_depth + 1) % word in
      let inside = record w { inst = record w.inst { trans_depth = deeper } } in
      let run = λ (u : World). initiate callback index n u in
      let token = (w.inst.call_token + 1) % word in
      let inst = record inside.inst { call_token = token; call_in_flight = token } in
      pick (Ends IsAfter) w.inst.removing (some (stop callback index w)) _ h (
        elim_Ends IsAfter (ltb max_sync_depth deeper)
          (some (leave callback index (stop callback index inside)))
          (transact callback index run inside) h
          (issue-IsAfter run (initiate-IsAfter n) token (record w { inst = inst })
            (prepare inst inst.pb.usb_refcon.stage) h))

-- what the first call asks for: the memory of the ring, for the interface
abbrev pub AsksRing : ℕ → Pb → Type 0
AsksRing ref pb = (pb.usb_reference ≡ ref) × (pb.usb_req_count ≡ ring_size)

-- A machine that is started in the first stage, outside of all calls, calls `USBAllocMem` first.
pub initiate_asks :
    (callback : Callback) (index n : ℕ) (w : World)
    → w.inst.removing ≡ false
    → w.inst.trans_depth ≡ 0
    → w.inst.pb.usb_refcon.stage ≡ alloc_ring_state
    → (pb : Pb) × AsksRing w.inst.interface_ref pb
      × Ends
          (λ (w' : World). IsBehind (w.issued ++ (alloc_mem, pb) ∷ []) w'.issued)
          (initiate callback index (suc n) w)
unfolding initiate transact prepare
initiate_asks callback index n w kept outside first =
    let run = λ (u : World). initiate callback index n u in
    let deeper = (w.inst.trans_depth + 1) % word in
    let token = (w.inst.call_token + 1) % word in
    let inst = record w.inst { trans_depth = deeper; call_token = token; call_in_flight = token } in
    let blank = init_param_block inst inst.interface_ref in
    let ready = set_pending (record blank { pb = record blank.pb { usb_req_count = ring_size } }) in
    let base = w.issued ++ (alloc_mem, ready.pb) ∷ [] in
    let inside = record w { inst = inst } in
    let room : ltb max_sync_depth deeper ≡ false = ground (arith, outside) in
    let P : Option World → Type 0 = Ends (λ (w' : World). IsBehind base w'.issued) in
    let made : P (issue callback index run token inside (some (alloc_mem, ready))) =
      issue_call-IsAfter callback index base run (initiate-IsAfter callback index base n) token
        inside alloc_mem ready ([], sym (append-nil base)) in
    let halt = some (
      leave callback index
        (stop callback index (record w { inst = record w.inst { trans_depth = deeper } }))) in
    let same : initiate callback index (suc n) w
        ≡ issue callback index run token inside (some (alloc_mem, ready)) =
      if_false w.inst.removing _ _ kept
      ∙ ap
          (λ b. elim b [
            | true ↦ halt
            | false ↦ issue callback index run token inside (prepare inst inst.pb.usb_refcon.stage)
          ])
          room
      ∙ ap (λ s. issue callback index run token inside (prepare inst s)) first in
    (ready.pb, (refl, refl), subst P (sym same) made)
