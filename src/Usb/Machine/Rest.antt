-- ===== src/Usb/Machine/Rest.antt =====
-- The state machine of classic/usb_driver.c comes to rest whatever the services answer, also where
-- they complete inside of the call.
use usbmidi.Prelude.{
  elim_Returns, Returns-map, pick, if_Returns, then_Returns, ◌>>=◌, Returns, ◌==◌, if◌then◌else◌,
  Bool-cases, word, ℕ, ◌+◌, ◌≤◌, ◌<◌, ◌≡◌, refl, ◌∙◌, ◌⊎◌, inl, inr, true, false, not, ◌&&◌, ◌||◌,
  Option, some, List, [], ◌∷◌, arith,
}
use usbmidi.Usb.{World, max_sync_depth, Status, Answer, no_err}
use usbmidi.Usb.Completion.{await, fill, completed, Callback, is_ok, clear_pending, is_pending}
use usbmidi.Usb.Machine.{completion, answer, next_answer, settle, stop}
use usbmidi.Usb.Machine.Settled.{
  IsSettled, identity, IsReady, Ran, completed-Decided, is_pending_now, is_returning,
}

-- `machine` with `n` levels to come, started in any state that it can be started in
abbrev pub Runs : ℕ → ℕ → (World → Option World) → Type 0
Runs index n machine = (w : World) → IsReady n w → Returns (Ran index n w) (machine w)

-- a completion in this state finds the machine with `n` levels to come
pub record IsDue (n : ℕ) (w : World) : Type 0 where
  pub depth_in : w.inst.trans_depth ≤ max_sync_depth
  pub enough : max_sync_depth + 1 ≤ w.inst.trans_depth + n
  pub no_wrap : w.inst.call_token + n < word

-- the call in flight is the one with the token `token`
pub record Asked (token : ℕ) (w : World) : Type 0 where
  pub asks : is_pending_now w ≡ true
  pub runs : is_returning w ≡ false
  pub same : w.inst.call_in_flight ≡ token
  pub latest : w.inst.call_token ≡ token

-- Behind the call, its completion has run, or it has not, and will if the call is pending.
abbrev pub Answered : ℕ → ℕ → ℕ → World → World × Status → Type 0
Answered index n token w (w', err) =
    (Ran index n w w' × (w.inst.call_token ≡ token))
    ⊎ (Asked token w'
        × (w'.inst.trans_depth ≡ w.inst.trans_depth)
        × (identity w'.inst ≡ identity w.inst)
        × (is_pending err ≡ true → w'.inst.awaited ≡ some index))

-- the machine at rest behind a call
pub record Over (index n token : ℕ) (w w' : World) : Type 0 where
  pub depth : w'.inst.trans_depth ≡ w.inst.trans_depth
  pub more : token ≤ w'.inst.call_token
  pub few : w'.inst.call_token ≤ token + n
  pub flight : (w'.inst.call_in_flight ≡ 0) ⊎ (token ≤ w'.inst.call_in_flight)
  pub rest : IsSettled index w'
  pub same : identity w'.inst ≡ identity w.inst

module _ (callback : Callback) (index : ℕ) (n : ℕ) (machine : World → Option World) where
  pub completion-Ran :
      Runs index n machine
      → (w : World) → IsDue n w
      → Returns (Ran index n w) (completion callback index machine w)
  unfolding completion
  completion-Ran runs w due =
      let d = completed-Decided callback index w in
      let w' = (completed callback index w).1 in
      elim_Returns (Ran index n w) (completed callback index w).0 (machine w') (some w')
        (λ go.
          Returns-map (Ran index n w') (Ran index n w) (machine w')
            (runs w' (record {
              running = ground (arith, d.choice, go);
              fresh = d.flight;
              depth_in = omega (arith, d.depth, due.depth_in);
              enough = omega (arith, d.depth, due.enough);
              no_wrap = omega (arith, d.token, due.no_wrap);
            }))
            (λ u r. record {
              depth = r.depth ∙ d.depth;
              more = omega (arith, r.more, d.token);
              few = omega (arith, r.few, d.token);
              flight = ground (arith, r.flight, d.token);
              rest = r.rest;
              same = r.same ∙ d.same;
            }))
        (λ halt. record {
          depth = d.depth;
          more = omega (arith, d.token);
          few = omega (arith, d.token);
          flight = inl d.flight;
          rest = inr (d.idle, ground (arith, d.choice, halt));
          same = d.same;
        })

  answer-Answered :
      Runs index n machine
      → (token : ℕ) (w : World) (a : Answer) → IsDue n w
      → Asked token w
      → Returns (Answered index n token w) (answer callback index machine w a)
  unfolding answer
  answer-Answered runs token w a due asked =
      let filled = record w { inst = fill w.inst a.reply } in
      let Held : World → Type 0 = λ u.
        Asked token u
        × (u.inst.trans_depth ≡ w.inst.trans_depth)
        × (identity u.inst ≡ identity w.inst)
        × (false ≡ true → u.inst.awaited ≡ some index) in
      let waiting : Asked token (await index w) = record {
        asks = asked.asks;
        runs = asked.runs;
        same = asked.same;
        latest = asked.latest;
      } in
      let kept : Asked token filled = record {
        asks = asked.asks;
        runs = asked.runs;
        same = asked.same;
        latest = asked.latest;
      } in
      elim_Returns (Answered index n token w) a.ran
        (completion callback index machine filled >>= λ w'. some (w', a.returned))
        (some (
          if is_pending a.returned then await index w else if is_ok a.returned then filled else w,
          a.returned,
        ))
        (λ t.
          then_Returns (Ran index n filled) (Answered index n token w)
            (completion callback index machine filled) _
            (completion-Ran runs filled
              (record { depth_in = due.depth_in; enough = due.enough; no_wrap = due.no_wrap }))
            (λ w' c. inl (
              record {
                depth = c.depth;
                more = c.more;
                few = c.few;
                flight = c.flight;
                rest = c.rest;
                same = c.same;
              },
              asked.latest,
            )))
        (λ f. inr (elim (Bool-cases (is_pending a.returned)) [
          | inl e ↦ rw e (waiting, refl, refl, λ _. refl)
          | inr e ↦ rw e (
              pick Held (is_ok a.returned) filled w
                (kept, refl, refl, λ p. absurd (ground (arith, p)))
                (asked, refl, refl, λ p. absurd (ground (arith, p))))
        ]))

  pub next_answer-Answered :
      Runs index n machine
      → (token : ℕ) (w : World) (l : List Answer) → IsDue n w
      → Asked token w
      → Returns (Answered index n token w) (next_answer callback index machine w l)
  unfolding next_answer
  next_answer-Answered runs token w [] due asked = inr (
    record { asks = asked.asks; runs = asked.runs; same = asked.same; latest = asked.latest },
    refl,
    refl,
    λ _. refl,
  )
  next_answer-Answered runs token w (a ∷ rest) due asked =
      let w' = record w { answers = rest } in
      Returns-map (Answered index n token w') (Answered index n token w)
        (answer callback index machine w' a)
        (answer-Answered runs token w' a
          (record { depth_in = due.depth_in; enough = due.enough; no_wrap = due.no_wrap })
          (record {
            asks = asked.asks;
            runs = asked.runs;
            same = asked.same;
            latest = asked.latest;
          }))
        (λ (u, err) h. again u err h)
    where
      again :
          (u : World) (err : Status)
          → Answered index n token (record w { answers = rest }) (u, err)
          → Answered index n token w (u, err)
      again u err (inl (r, t)) = inl (
        record {
          depth = r.depth;
          more = r.more;
          few = r.few;
          flight = r.flight;
          rest = r.rest;
          same = r.same;
        },
        t,
      )
      again u err (inr h) = inr h

  pub settle-Over :
      Runs index n machine
      → (token : ℕ) (w w' : World) (err : Status) → IsDue n w
      → 0 < token
      → w.inst.call_token ≡ token
      → Answered index n token w (w', err)
      → Returns (Over index n token w) (settle callback index machine token (w', err))
  unfolding settle
  settle-Over runs token w w' err due pos t (inl (r, _)) =
      let differs : (w'.inst.call_in_flight == token) ≡ false = ground (arith, r.flight, t) in
      if_Returns (Over index n token w) (is_pending err || not (w'.inst.call_in_flight == token)) _
        _
        (λ _. record {
          depth = r.depth;
          more = omega (arith, r.more, t);
          few = omega (arith, r.few, t);
          flight = ground (arith, r.flight, t);
          rest = r.rest;
          same = r.same;
        })
        (λ f. absurd (ground (arith, f, differs)))
  settle-Over runs token w w' err due pos t (inr (a, d, sm, p)) =
      let waits : is_pending err ≡ true → Over index n token w w' = λ e. record {
        depth = d;
        more = omega (arith, a.latest);
        few = omega (arith, a.latest);
        flight = inr (omega (arith, a.same));
        rest = inl (a.asks, omega (arith, a.same), p e);
        same = sm;
      } in
      let quiet = clear_pending w'.inst in
      let succeeded = record w' {
        inst = record quiet { pb = record quiet.pb { usb_status = no_err; usb_act_count = 0 } };
      } in
      if_Returns (Over index n token w) (is_pending err || not (w'.inst.call_in_flight == token)) _
        _ (λ e. waits (ground (arith, e, a.same)))
        (λ _.
          elim_Returns (Over index n token w) (is_ok err && not (is_returning w'))
            (completion callback index machine succeeded)
            (some (if is_ok err then w' else stop callback index w'))
            (λ _.
              Returns-map (Ran index n succeeded) (Over index n token w)
                (completion callback index machine succeeded)
                (completion-Ran runs succeeded (record {
                  depth_in = omega (arith, d, due.depth_in);
                  enough = omega (arith, d, due.enough);
                  no_wrap = omega (arith, a.latest, t, due.no_wrap);
                }))
                (λ u r. record {
                  depth = r.depth ∙ d;
                  more = omega (arith, r.more, a.latest);
                  few = omega (arith, r.few, a.latest);
                  flight = ground (arith, r.flight, a.latest);
                  rest = r.rest;
                  same = r.same ∙ sm;
                }))
            (λ f. elim (Bool-cases (is_ok err)) [
              | inl e ↦ absurd (ground (arith, f, e, a.runs))
              | inr e ↦ rw e (record {
                depth = d;
                more = omega (arith, a.latest);
                few = omega (arith, a.latest);
                flight = inr (omega (arith, a.same));
                rest = inr (refl, inl refl);
                same = sm;
              })
            ]))
