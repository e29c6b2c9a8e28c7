-- ===== src/Usb/Machine/Settled.antt =====
-- The state machine of classic/usb_driver.c always comes to rest: a call is in flight, or it is
-- stopped for good.
use usbmidi.Prelude.{
  ltb, Bool-cases, Option-cases, word, ℕ, ◌+◌, ◌≤◌, ◌<◌, ◌≡◌, refl, ◌∙◌, ◌≢◌, ◌⊎◌, inl, inr, Bool,
  true, false, not, ◌&&◌, some, arith,
}
use usbmidi.Usb.{
  World, Stage, max_sync_depth, alloc_ring_state, configure_interface_state,
  find_bulk_in_pipe_state, alloc_read_buffer_state, read_bulk_in_pipe_state, unknown_state,
  Instance,
}
use usbmidi.Usb.Completion.{
  Callback, received, read_completed, advance, is_ok, after_read, taken_in, completed,
}

abbrev pub is_pending_now : World → Bool
is_pending_now w = w.inst.pb.usb_refcon.completion_pending

abbrev pub is_returning : World → Bool
is_returning w = w.inst.pb.usb_refcon.return_from_driver

-- `kCompletionPending` is set, and a call is in flight that a service has accepted for the slot of the
-- instance, and whose completion is still to come; or it is clear, and the machine has stopped, or
-- stops because the instance is being removed.
abbrev pub IsSettled : ℕ → World → Type 0
IsSettled index w =
    ((is_pending_now w ≡ true) × (w.inst.call_in_flight ≢ 0) × (w.inst.awaited ≡ some index))
    ⊎ ((is_pending_now w ≡ false) × ((is_returning w ≡ true) ⊎ (w.inst.removing ≡ true)))

-- what an instance is: its interface, and whether it is being removed
pub record Identity : Type 0 where
  pub ref : ℕ
  pub num : ℕ
  pub class : ℕ
  pub sub_class : ℕ
  pub protocol : ℕ
  pub vendor : ℕ
  pub product : ℕ
  pub leaving : Bool

abbrev pub identity : Instance → Identity
identity inst = record {
  ref = inst.interface_ref;
  num = inst.interface_num;
  class = inst.interface_class;
  sub_class = inst.interface_sub_class;
  protocol = inst.interface_protocol;
  vendor = inst.vendor_id;
  product = inst.product_id;
  leaving = inst.removing;
}

-- A machine that may be started with `n` levels of recursion to come.
pub record IsReady (n : ℕ) (w : World) : Type 0 where
  pub running : is_returning w ≡ false
  pub fresh : w.inst.call_in_flight ≡ 0
  pub depth_in : w.inst.trans_depth ≤ max_sync_depth
  pub enough : max_sync_depth + 1 ≤ w.inst.trans_depth + n
  pub no_wrap : w.inst.call_token + n < word

-- what starting it does
pub record Ran (index n : ℕ) (w w' : World) : Type 0 where
  pub depth : w'.inst.trans_depth ≡ w.inst.trans_depth
  pub more : w.inst.call_token ≤ w'.inst.call_token
  pub few : w'.inst.call_token ≤ w.inst.call_token + n
  pub flight : (w'.inst.call_in_flight ≡ 0) ⊎ (w.inst.call_token < w'.inst.call_in_flight)
  pub rest : IsSettled index w'
  pub same : identity w'.inst ≡ identity w.inst

record Advanced (w w' : World) : Type 0 where
  pub depth : w'.inst.trans_depth ≡ w.inst.trans_depth
  pub token : w'.inst.call_token ≡ w.inst.call_token
  pub same : identity w'.inst ≡ identity w.inst
  pub flight : w'.inst.call_in_flight ≡ w.inst.call_in_flight
  pub client : w'.inst.event_callback ≡ w.inst.event_callback

module _ (callback : Callback) (index : ℕ) where
  received-Advanced : (w : World) → Advanced w (received callback index w)
  unfolding received
  received-Advanced w = elim (Option-cases w.inst.event_callback) [
    | inl e ↦
        rw e (record { depth = refl; token = refl; same = refl; flight = refl; client = refl })
    | inr (f, e) ↦
        rw e (record { depth = refl; token = refl; same = refl; flight = refl; client = refl })
  ]

  taken_in-Advanced : (w : World) → Advanced w (taken_in callback index w)
  unfolding taken_in
  taken_in-Advanced w =
      elim (Bool-cases (is_ok w.inst.pb.usb_status && ltb 0 w.inst.pb.usb_act_count)) [
        | inl e ↦ rw e (record {
          depth = (received-Advanced _).depth;
          token = (received-Advanced _).token;
          same = (received-Advanced _).same;
          flight = (received-Advanced _).flight;
          client = (received-Advanced _).client;
        })
        | inr e ↦
            rw e (record { depth = refl; token = refl; same = refl; flight = refl; client = refl })
      ]

  after_read-Advanced : (w : World) → Advanced w (after_read w)
  unfolding after_read
  after_read-Advanced w = ground arith

  read_completed-Advanced : (w : World) → Advanced w (read_completed callback index w)
  unfolding read_completed
  read_completed-Advanced w =
      let t = taken_in-Advanced w in
      let a = after_read-Advanced (taken_in callback index w) in
      record {
        depth = a.depth ∙ t.depth;
        token = a.token ∙ t.token;
        same = a.same ∙ t.same;
        flight = a.flight ∙ t.flight;
        client = a.client ∙ t.client;
      }

  advance-Advanced : (w : World) (s : Stage) → Advanced w (advance callback index w s)
  unfolding advance
  advance-Advanced w alloc_ring_state = ground arith
  advance-Advanced w configure_interface_state = ground arith
  advance-Advanced w find_bulk_in_pipe_state = ground arith
  advance-Advanced w alloc_read_buffer_state = ground arith
  advance-Advanced w read_bulk_in_pipe_state = read_completed-Advanced w
  advance-Advanced w unknown_state = ground arith

  -- The machine goes on exactly if the completion has neither stopped it nor found a removal.
  pub record Decided (w : World) (r : Bool × World) : Type 0 where
    pub depth : r.1.inst.trans_depth ≡ w.inst.trans_depth
    pub token : r.1.inst.call_token ≡ w.inst.call_token
    pub flight : r.1.inst.call_in_flight ≡ 0
    pub idle : is_pending_now r.1 ≡ false
    pub same : identity r.1.inst ≡ identity w.inst
    pub client : r.1.inst.event_callback ≡ w.inst.event_callback
    pub choice : r.0 ≡ not (is_returning r.1) && not r.1.inst.removing

  pub completed-Decided : (w : World) → Decided w (completed callback index w)
  unfolding completed
  completed-Decided w =
      let a =
        advance-Advanced (record w { inst = record w.inst { call_in_flight = 0 } })
          w.inst.pb.usb_refcon.stage in
      record {
        depth = a.depth;
        token = a.token;
        flight = a.flight;
        idle = refl;
        same = a.same;
        client = a.client;
        choice = refl;
      }
