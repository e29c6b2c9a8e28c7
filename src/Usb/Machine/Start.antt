-- ===== src/Usb/Machine/Start.antt =====
-- The start of the state machine of classic/usb_driver.c, at every depth.
use usbmidi.Prelude.{
  elim_Returns, Returns-map, if_Returns, then_Returns, ltb, Returns, word, ℕ, zero, suc, ◌+◌, ◌%◌,
  ◌≤◌, ◌<◌, ◌≡◌, refl, ◌∙◌, ◌⊎◌, inl, inr, true, false, Option, none, some, [], ◌∷◌, ◌++◌, arith,
}
use usbmidi.Usb.{
  Instance, World, Stage, Service, max_sync_depth, alloc_ring_state, configure_interface_state,
  find_bulk_in_pipe_state, alloc_read_buffer_state, read_bulk_in_pipe_state, unknown_state,
}
use usbmidi.Usb.Completion.{Callback}
use usbmidi.Usb.Machine.{call, settle, transact, initiate, prepare, next_answer, leave, stop, issue}
use usbmidi.Usb.Machine.Settled.{IsSettled, identity, Ran, is_returning}
use usbmidi.Usb.Machine.Rest.{Runs, IsDue, Answered, Over, next_answer-Answered, settle-Over}

-- What the parameter block is set up for leaves the counters alone.
record Prepared (i i' : Instance) : Type 0 where
  asks : i'.pb.usb_refcon.completion_pending ≡ true
  runs : i'.pb.usb_refcon.return_from_driver ≡ i.pb.usb_refcon.return_from_driver
  flight : i'.call_in_flight ≡ i.call_in_flight
  token : i'.call_token ≡ i.call_token
  depth : i'.trans_depth ≡ i.trans_depth
  same : identity i' ≡ identity i

abbrev PreparedFrom : Instance → Option (Service × Instance) → Type 0
PreparedFrom i none = Unit
PreparedFrom i (some (service, i')) = Prepared i i'

prepare-PreparedFrom : (i : Instance) (s : Stage) → PreparedFrom i (prepare i s)
unfolding prepare
prepare-PreparedFrom i unknown_state = tt
prepare-PreparedFrom i alloc_ring_state = ground arith
prepare-PreparedFrom i configure_interface_state = ground arith
prepare-PreparedFrom i find_bulk_in_pipe_state = ground arith
prepare-PreparedFrom i alloc_read_buffer_state = ground arith
prepare-PreparedFrom i read_bulk_in_pipe_state = ground arith

-- as `Over`, one level up
record Left (index n token : ℕ) (w w' : World) : Type 0 where
  depth : w'.inst.trans_depth + 1 ≡ w.inst.trans_depth
  more : token ≤ w'.inst.call_token
  few : w'.inst.call_token ≤ token + n
  flight : (w'.inst.call_in_flight ≡ 0) ⊎ (token ≤ w'.inst.call_in_flight)
  rest : IsSettled index w'
  same : identity w'.inst ≡ identity w.inst

module _ (callback : Callback) (index : ℕ) (n : ℕ) (machine : World → Option World) where
  leave-Left :
      (token : ℕ) (w w' : World)
      → IsDue n w
      → 0 < w.inst.trans_depth
      → Over index n token w w'
      → Left index n token w (leave callback index w')
  leave-Left token w w' due pos o = record {
    depth = omega (arith, o.depth, due.depth_in);
    more = o.more;
    few = o.few;
    flight = o.flight;
    rest = o.rest;
    same = o.same;
  }

  issue-Left :
      Runs index n machine
      → (token : ℕ) (w : World) (p : Option (Service × Instance)) → IsDue n w
      → 0 < token
      → 0 < w.inst.trans_depth
      → w.inst.call_token ≡ token
      → w.inst.call_in_flight ≡ token
      → is_returning w ≡ false
      → PreparedFrom w.inst p
      → Returns (Left index n token w) (issue callback index machine token w p)
  unfolding issue call
  issue-Left runs token w none due pos deep t f quiet p =
      leave-Left token w (stop callback index w) due deep (record {
        depth = refl;
        more = omega (arith, t);
        few = omega (arith, t);
        flight = inr (omega (arith, f));
        rest = inr (refl, inl refl);
        same = refl;
      })
  issue-Left runs token w (some (service, ready)) due pos deep t f quiet p =
      let w' = record w { inst = ready; issued = w.issued ++ (service, ready.pb) ∷ [] } in
      let due' : IsDue n w' = record {
        depth_in = omega (arith, p.depth, due.depth_in);
        enough = omega (arith, p.depth, due.enough);
        no_wrap = omega (arith, p.token, due.no_wrap);
      } in
      then_Returns (Answered index n token w') (Left index n token w)
        (next_answer callback index machine w' w.answers) _
        (next_answer-Answered callback index n machine runs token w' w.answers due' (record {
          asks = p.asks;
          runs = p.runs ∙ quiet;
          same = p.flight ∙ f;
          latest = p.token ∙ t;
        }))
        (λ (u, err) h.
          then_Returns (Over index n token w') (Left index n token w)
            (settle callback index machine token (u, err)) _
            (settle-Over callback index n machine runs token w' u err due' pos (p.token ∙ t) h)
            (λ v o. leave-Left token w v due deep (record {
              depth = o.depth ∙ p.depth;
              more = o.more;
              few = o.few;
              flight = o.flight;
              rest = o.rest;
              same = o.same ∙ p.same;
            })))

-- The fuel is the depth of recursion that is left.
pub initiate-Ran :
    (callback : Callback) (index n : ℕ) → Runs index n (λ w. initiate callback index n w)
unfolding initiate transact
initiate-Ran callback index zero w r = absurd (omega (arith, r.enough, r.depth_in))
initiate-Ran callback index (suc n) w r =
    let deeper : (w.inst.trans_depth + 1) % word ≡ w.inst.trans_depth + 1 =
      omega (arith, r.depth_in) in
    let next : (w.inst.call_token + 1) % word ≡ w.inst.call_token + 1 = omega (arith, r.no_wrap) in
    let halted : (x : World)
        → x.inst.trans_depth ≡ w.inst.trans_depth
        → x.inst.call_token ≡ w.inst.call_token
        → x.inst.call_in_flight ≡ w.inst.call_in_flight
        → identity x.inst ≡ identity w.inst
        → IsSettled index x
        → Ran index (suc n) w x =
      λ x d t f sm rest. record {
        depth = d;
        more = omega (arith, t);
        few = omega (arith, t);
        flight = inl (f ∙ r.fresh);
        rest = rest;
        same = sm;
      } in
    let token = (w.inst.call_token + 1) % word in
    let inside = record w {
      inst = record w.inst {
        trans_depth = (w.inst.trans_depth + 1) % word;
        call_token = token;
        call_in_flight = token;
      };
    } in
    if_Returns (Ran index (suc n) w) w.inst.removing _ _
      (λ gone. halted (stop callback index w) refl refl refl refl (inr (refl, inl refl)))
      (λ kept.
        elim_Returns (Ran index (suc n) w) (ltb max_sync_depth ((w.inst.trans_depth + 1) % word)) _
          _ (λ full. halted _ (omega (arith, r.depth_in)) refl refl refl (inr (refl, inl refl)))
          (λ room.
            Returns-map (Left index n token inside) (Ran index (suc n) w) _
              (issue-Left callback index n (λ w'. initiate callback index n w')
                (initiate-Ran callback index n) token inside _
                (record {
                  depth_in = ground (arith, room, deeper);
                  enough = omega (arith, deeper, r.enough);
                  no_wrap = omega (arith, next, r.no_wrap);
                })
                (omega (arith, next)) (omega (arith, deeper)) refl refl r.running
                (prepare-PreparedFrom inside.inst inside.inst.pb.usb_refcon.stage))
              (λ u o. record {
                depth = omega (arith, o.depth, deeper);
                more = omega (arith, o.more, next);
                few = omega (arith, o.few, next);
                flight = ground (arith, o.flight, next);
                rest = o.rest;
                same = o.same;
              })))

-- the depth that is allowed, and the level that finds it exceeded
abbrev pub machine_fuel : ℕ
machine_fuel = max_sync_depth + 1
