-- ===== src/Usb/Machine/Counters.antt =====
-- The ring of an instance of classic/usb_driver.c stays within its bounds through its state machine,
-- whatever the services answer.
use usbmidi.Prelude.{
  Ends, then_Ends, elim_Ends, pick, ltb, ◌>>=◌, ◌==◌, if◌then◌else◌, Bool-cases, Option-cases, word,
  ℕ, zero, suc, ◌+◌, ◌%◌, inl, inr, true, false, not, ◌&&◌, ◌||◌, Option, none, some, List, [], ◌∷◌,
  ◌++◌, arith,
}
use usbmidi.Ring.{Ring}
use usbmidi.Ring.Bounds.{IsInBounds, ring_enqueue-IsInBounds}
use usbmidi.Usb.{
  World, Stage, ring_size, alloc_ring_state, configure_interface_state, find_bulk_in_pipe_state,
  alloc_read_buffer_state, read_bulk_in_pipe_state, unknown_state, Instance, max_sync_depth, Status,
  Service, Answer, no_err,
}
use usbmidi.Usb.Completion.{
  await, fill, Callback, received, taken_in, after_read, read_completed, advance, completed, is_ok,
  memory_at, is_stalled, clear_pending, is_pending,
}
use usbmidi.Usb.Machine.Start.{machine_fuel}
use usbmidi.Usb.Machine.{
  completion, answer, next_answer, call, settle, issue, prepare, transact, initiate, leave, stop,
}

-- what a callback may do to the ring by dequeueing
abbrev pub KeepsBounds : Callback → Type 0
KeepsBounds callback =
    (f index refcon : ℕ) (r : Ring)
    → IsInBounds ring_size r
    → IsInBounds ring_size (callback f index refcon r)

abbrev pub IsCounted : World → Type 0
IsCounted w = IsInBounds ring_size w.inst.ring

same_counters :
    (r : Ring) (buf : Option (List ℕ))
    → IsInBounds ring_size r
    → IsInBounds ring_size (record r { buf = buf })
same_counters r buf h = record { head_in = h.head_in; tail_in = h.tail_in; fits = h.fits }

prepare-IsCounted :
    (inst : Instance) (s : Stage)
    → IsInBounds ring_size inst.ring
    → Ends (λ (r : Service × Instance). IsInBounds ring_size r.1.ring) (prepare inst s)
unfolding prepare
prepare-IsCounted inst alloc_ring_state h = h
prepare-IsCounted inst configure_interface_state h = h
prepare-IsCounted inst find_bulk_in_pipe_state h = h
prepare-IsCounted inst alloc_read_buffer_state h = h
prepare-IsCounted inst read_bulk_in_pipe_state h = h
prepare-IsCounted inst unknown_state h = tt

module _ (callback : Callback) (keeps : KeepsBounds callback) (index : ℕ) where
  received-IsCounted : (w : World) → IsCounted w → IsCounted (received callback index w)
  unfolding received
  received-IsCounted w h =
      let inst = w.inst in
      let filled =
        ring_enqueue-IsInBounds ring_size (omega arith) inst.ring (memory_at inst.pb.usb_buffer)
          inst.pb.usb_act_count h in
      elim (Option-cases w.inst.event_callback) [
        | inl e ↦ rw e filled
        | inr (f, e) ↦ rw e (keeps f index inst.event_refcon _ filled)
      ]

  taken_in-IsCounted : (w : World) → IsCounted w → IsCounted (taken_in callback index w)
  unfolding taken_in
  taken_in-IsCounted w h =
      let noted = record w {
        inst = record w.inst {
          last_read_status = w.inst.pb.usb_status;
          last_read_count = w.inst.pb.usb_act_count;
        };
      } in
      pick IsCounted (is_ok w.inst.pb.usb_status && ltb 0 w.inst.pb.usb_act_count)
        (received callback index noted) noted (received-IsCounted noted h) h

  after_read-IsCounted : (w : World) → IsCounted w → IsCounted (after_read w)
  unfolding after_read
  after_read-IsCounted w h = elim (Bool-cases (is_ok w.inst.pb.usb_status)) [
    | inl e ↦ rw e h
    | inr e ↦ elim (Bool-cases (is_stalled w.inst.pb.usb_status)) [
      | inl e' ↦ rw (e, e') h
      | inr e' ↦ rw (e, e') h
    ]
  ]

  advance-IsCounted : (w : World) (s : Stage) → IsCounted w → IsCounted (advance callback index w s)
  unfolding advance read_completed
  advance-IsCounted w alloc_ring_state h =
      pick (λ (i : Instance). IsInBounds ring_size i.ring) (is_ok w.inst.pb.usb_status) _ _
        (same_counters w.inst.ring _ h) h
  advance-IsCounted w configure_interface_state h =
      pick (λ (i : Instance). IsInBounds ring_size i.ring) (is_ok w.inst.pb.usb_status) _ _ h h
  advance-IsCounted w find_bulk_in_pipe_state h =
      pick (λ (i : Instance). IsInBounds ring_size i.ring) (is_ok w.inst.pb.usb_status) _ _ h h
  advance-IsCounted w alloc_read_buffer_state h =
      pick (λ (i : Instance). IsInBounds ring_size i.ring) (is_ok w.inst.pb.usb_status) _ _ h h
  advance-IsCounted w read_bulk_in_pipe_state h =
      after_read-IsCounted (taken_in callback index w) (taken_in-IsCounted w h)
  advance-IsCounted w unknown_state h = h

  completed-IsCounted : (w : World) → IsCounted w → IsCounted (completed callback index w).1
  unfolding completed
  completed-IsCounted w h =
      advance-IsCounted (record w { inst = record w.inst { call_in_flight = 0 } })
        w.inst.pb.usb_refcon.stage h

  -- whatever the machine comes to, the ring is within its bounds
  abbrev pub KeepsCounted : (World → Option World) → Type 0
  KeepsCounted machine = (w : World) → IsCounted w → Ends IsCounted (machine w)

  module _ (machine : World → Option World) (runs : KeepsCounted machine) where
    completion-IsCounted :
        (w : World) → IsCounted w → Ends IsCounted (completion callback index machine w)
    unfolding completion
    completion-IsCounted w h =
        let (again, w') = completed callback index w in
        let still = completed-IsCounted w h in
        elim_Ends IsCounted again (machine w') (some w') (runs w' still) still

    answer-IsCounted :
        (w : World) (a : Answer)
        → IsCounted w
        → Ends (λ (r : World × Status). IsCounted r.0) (answer callback index machine w a)
    unfolding answer
    answer-IsCounted w a h =
        let filled = record w { inst = fill w.inst a.reply } in
        elim_Ends (λ (r : World × Status). IsCounted r.0) a.ran
          (completion callback index machine filled >>= λ w'. some (w', a.returned))
          (some (
            if is_pending a.returned then await index w else if is_ok a.returned then filled else w,
            a.returned,
          ))
          (then_Ends IsCounted (λ (r : World × Status). IsCounted r.0)
            (completion callback index machine filled) (λ w'. some (w', a.returned))
            (completion-IsCounted filled h) (λ w' k. k))
          (pick IsCounted (is_pending a.returned) (await index w) _ h
            (pick IsCounted (is_ok a.returned) filled w h h))

    next_answer-IsCounted :
        (w : World) (l : List Answer)
        → IsCounted w
        → Ends (λ (r : World × Status). IsCounted r.0) (next_answer callback index machine w l)
    unfolding next_answer
    next_answer-IsCounted w [] h = h
    next_answer-IsCounted w (a ∷ rest) h = answer-IsCounted (record w { answers = rest }) a h

    settle-IsCounted :
        (token : ℕ) (w : World) (err : Status)
        → IsCounted w
        → Ends IsCounted (settle callback index machine token (w, err))
    unfolding settle
    settle-IsCounted token w err h =
        let quiet = clear_pending w.inst in
        let succeeded = record w {
          inst = record quiet { pb = record quiet.pb { usb_status = no_err; usb_act_count = 0 } };
        } in
        let flag = w.inst.pb.usb_refcon.return_from_driver in
        let behind : Option World = elim (is_ok err && not flag) [
          | true ↦ completion callback index machine succeeded
          | false ↦ some (if is_ok err then w else stop callback index w)
        ] in
        pick (Ends IsCounted) (is_pending err || not (w.inst.call_in_flight == token)) (some w)
          behind h
          (elim_Ends IsCounted (is_ok err && not flag) (completion callback index machine succeeded)
            (some (if is_ok err then w else stop callback index w))
            (completion-IsCounted succeeded h)
            (pick IsCounted (is_ok err) w (stop callback index w) h h))

    issue-IsCounted :
        (token : ℕ) (w : World) (o : Option (Service × Instance))
        → IsCounted w
        → Ends (λ (r : Service × Instance). IsInBounds ring_size r.1.ring) o
        → Ends IsCounted (issue callback index machine token w o)
    unfolding issue call
    issue-IsCounted token w none h ready = h
    issue-IsCounted token w (some (service, inst)) h ready =
        let asked = record w { inst = inst; issued = w.issued ++ (service, inst.pb) ∷ [] } in
        then_Ends (λ (r : World × Status). IsCounted r.0) IsCounted
          (next_answer callback index machine asked w.answers) _
          (next_answer-IsCounted asked w.answers ready)
          (λ (r : World × Status) k.
            then_Ends IsCounted IsCounted (settle callback index machine token r)
              (λ w'. some (leave callback index w')) (settle-IsCounted token r.0 r.1 k)
              (λ w' k'. k'))

    transact-IsCounted :
        (w : World) → IsCounted w → Ends IsCounted (transact callback index machine w)
    unfolding transact
    transact-IsCounted w h =
        let token = (w.inst.call_token + 1) % word in
        let inst = record w.inst { call_token = token; call_in_flight = token } in
        issue-IsCounted token (record w { inst = inst }) (prepare inst inst.pb.usb_refcon.stage) h
          (prepare-IsCounted inst inst.pb.usb_refcon.stage h)

  pub initiate-IsCounted : (n : ℕ) → KeepsCounted (initiate callback index n)
  unfolding initiate
  initiate-IsCounted zero w h = tt
  initiate-IsCounted (suc n) w h =
      let deeper = (w.inst.trans_depth + 1) % word in
      let inside = record w { inst = record w.inst { trans_depth = deeper } } in
      let run = λ (u : World). initiate callback index n u in
      pick (Ends IsCounted) w.inst.removing (some (stop callback index w)) _ h (
        elim_Ends IsCounted (ltb max_sync_depth deeper)
          (some (leave callback index (stop callback index inside)))
          (transact callback index run inside) h
          (transact-IsCounted run (initiate-IsCounted n) inside h))

  pub machine-IsCounted :
      (w : World)
      → IsCounted w
      → Ends IsCounted (completion callback index (λ u. initiate callback index machine_fuel u) w)
  machine-IsCounted w h =
      completion-IsCounted (λ u. initiate callback index machine_fuel u)
        (initiate-IsCounted machine_fuel) w h
