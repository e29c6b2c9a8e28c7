-- ===== src/Usb/Registry/Notice.antt =====
-- classic/usb_driver.c: what `kNotifyDriverBeingRemoved` does to one instance.
use usbmidi.Prelude.{
  elim_Returns, pick, if_Returns, then_Returns, ◌>>=◌, Returns, ◌==◌, ℕ, ◌≡◌, refl, ap, ◌∙◌, ◌⊎◌,
  inl, inr, Bool, true, false, not, Option, none, some, List, [], ◌∷◌, ◌++◌, arith,
}
use usbmidi.Usb.{World, Status, Answer, abort_pipe, Instance}
use usbmidi.Usb.Machine.Settled.{is_pending_now, completed-Decided}
use usbmidi.Usb.Machine.{completion, initiate}
use usbmidi.Usb.Machine.Start.{machine_fuel}
use usbmidi.Usb.Registry.Attach.{abort, abort_answer, remove_one}
use usbmidi.Usb.Completion.{collected, fill, Callback, completed, clear_pending, is_ok}

-- an instance told to go: it is removing, its client hears nothing more, and no read is left
-- pending that was not
pub record Removed (i i' : Instance) : Type 0 where
  pub removing : i'.removing ≡ true
  pub silent : i'.event_callback ≡ none
  pub depth : i'.trans_depth ≡ i.trans_depth
  pub waits :
      (i'.pb.usb_refcon.completion_pending ≡ false)
      ⊎ ((i'.pb.usb_refcon.completion_pending ≡ i.pb.usb_refcon.completion_pending)
          × (i'.call_in_flight ≡ i.call_in_flight)
          × (i'.awaited ≡ i.awaited))

abbrev pub RemovedTo : World → World → Type 0
RemovedTo w w' = Removed w.inst w'.inst

-- and it waits for nothing
abbrev LeftTo : World → World → Type 0
LeftTo w w' = RemovedTo w w' × (is_pending_now w' ≡ false)

module _ (callback : Callback) (index : ℕ) where
  completion-Removed :
      (machine : World → Option World) (w : World)
      → w.inst.removing ≡ true
      → w.inst.event_callback ≡ none
      → Returns (LeftTo w) (completion callback index machine w)
  unfolding completion
  completion-Removed machine w gone quiet =
      let d = completed-Decided callback index w in
      let w' = (completed callback index w).1 in
      elim_Returns (LeftTo w) (completed callback index w).0 (machine w') (some w')
        (λ go. absurd (ground (arith, go, d.choice, ap (λ i. i.leaving) d.same, gone)))
        (λ _. (
          record {
            removing = ap (λ i. i.leaving) d.same ∙ gone;
            silent = d.client ∙ quiet;
            depth = d.depth;
            waits = inl d.idle;
          },
          d.idle,
        ))

  abort_answer-Removed :
      (w : World) (l : List Answer)
      → w.inst.removing ≡ true
      → w.inst.event_callback ≡ none
      → Returns (λ (r : World × Status). RemovedTo w r.0) (abort_answer callback index w l)
  unfolding abort_answer
  abort_answer-Removed w [] gone quiet = record {
    removing = gone;
    silent = quiet;
    depth = refl;
    waits = inr (refl, refl, refl);
  }
  abort_answer-Removed w (a ∷ rest) gone quiet =
      let P : World × Status → Type 0 = λ r. RemovedTo w r.0 in
      let aborting = record w { answers = rest } in
      let aborted = record aborting { inst = fill (collected aborting.inst) a.reply } in
      let machine : World → Option World = λ u. initiate callback index machine_fuel u in
      elim_Returns P a.ran
        (completion callback index machine aborted >>= λ w'. some (w', a.returned))
        (some (aborting, a.returned))
        (λ _.
          then_Returns (LeftTo aborted) P (completion callback index machine aborted) _
            (completion-Removed machine aborted gone quiet)
            (λ w' (r, quiet_now). record {
              removing = r.removing;
              silent = r.silent;
              depth = r.depth;
              waits = inl quiet_now;
            }))
        (λ _. record {
          removing = gone;
          silent = quiet;
          depth = refl;
          waits = inr (refl, refl, refl);
        })

  -- with `busy`
  abbrev pub Told : World → Bool × World → Type 0
  Told w (busy, w') = RemovedTo w w' × (busy ≡ is_pending_now w)

  pub remove_one-Told : (w : World) → Returns (Told w) (remove_one callback index w)
  unfolding remove_one abort
  remove_one-Told w =
      let marked = record w {
        inst = record w.inst { removing = true; event_callback = none; event_refcon = 0 };
      } in
      let pb = record w.inst.pb { usb_reference = w.inst.bulk_in_pipe } in
      let asked = record marked { issued = w.issued ++ (abort_pipe, pb) ∷ [] } in
      let kept : RemovedTo w marked = record {
        removing = refl;
        silent = refl;
        depth = refl;
        waits = inr (refl, refl, refl);
      } in
      if_Returns (Told w) (not (is_pending_now w)) _ _ (λ n. (kept, ground (arith, n)))
        (λ p.
          if_Returns (Told w) (w.inst.bulk_in_pipe == 0) _ _ (λ _. (kept, ground (arith, p)))
            (λ _.
              then_Returns (λ (r : World × Status). RemovedTo asked r.0) (Told w)
                (abort callback index marked) _ (abort_answer-Removed asked w.answers refl refl)
                (λ (w', err) r. (
                  pick (RemovedTo w) (is_ok err) w' (record w' { inst = clear_pending w'.inst })
                      (record {
                        removing = r.removing;
                        silent = r.silent;
                        depth = r.depth;
                        waits = r.waits;
                      })
                      (record {
                        removing = r.removing;
                        silent = r.silent;
                        depth = r.depth;
                        waits = inl refl;
                      }),
                  ground (arith, p),
                ))))
