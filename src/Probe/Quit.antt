-- ===== src/Probe/Quit.antt =====
-- The loop of `main` of probe/probe.c.
use usbmidi.Prelude.{
  ◌>>=◌, if◌then◌else◌, ℕ, ◌≡◌, refl, sym, ap, ◌∙◌, Bool, true, false, Option, none, some, List, [],
  ◌∷◌, ◌++◌,
}
use usbmidi.Probe.{
  Console, Turn, key_down, probe_quit_keycode, poll, poll_loop, main, first_state, title, hint,
  farewell, say, find_dispatch_table, poll_found,
}

module _ {D : Type 0} where
  -- no poll finds the quit key down
  abbrev pub IsQuiet : List (Turn D) → Type 0
  IsQuiet [] = Unit
  IsQuiet (turn ∷ turns) = (key_down turn.keys probe_quit_keycode ≡ false) × IsQuiet turns

  -- the console when a poll starts
  abbrev pub arrive : Turn D → Console D → Console D
  arrive turn c = record c { driver = turn.meanwhile c.driver }

  -- poll after poll
  abbrev pub polls : ℕ → List (Turn D) → Console D → Console D
  polls system [] c = c
  polls system (turn ∷ turns) c = polls system turns (poll system turn (arrive turn c)).1

  -- `main` in front of its loop
  abbrev pub started : ℕ → D → Console D
  started zone d = record {
    state = first_state;
    zone = zone;
    driver = d;
    printed = title ∷ hint ∷ [];
  }

  -- the poll without the test of the key
  abbrev pub polled : ℕ → Turn D → Console D → Console D
  polled system turn c =
      let (table, zone') = find_dispatch_table system c.zone turn.lookups in
      poll_found table (record c { zone = zone' })

  pub poll-quiet :
      (system : ℕ) (turn : Turn D) (c : Console D)
      → key_down turn.keys probe_quit_keycode ≡ false
      → poll system turn c ≡ (false, polled system turn c)
  unfolding poll
  poll-quiet system turn c quiet =
      ap (λ (b : Bool). if b then (true, c) else (false, polled system turn c)) quiet

  poll-quits :
      (system : ℕ) (turn : Turn D) (c : Console D)
      → key_down turn.keys probe_quit_keycode ≡ true
      → poll system turn c ≡ (true, c)
  unfolding poll
  poll-quits system turn c down =
      ap (λ (b : Bool). if b then (true, c) else (false, polled system turn c)) down

  -- the rest of the loop behind a poll
  abbrev next : ℕ → List (Turn D) → Bool × Console D → Option (Console D)
  next system turns r = elim r.0 [ true ↦ some r.1 | false ↦ poll_loop system turns r.1 ]

  poll_loop_runs :
      (system : ℕ) (turns : List (Turn D)) (c : Console D)
      → IsQuiet turns
      → poll_loop system turns c ≡ none
  unfolding poll_loop
  poll_loop_runs system [] c quiet = refl
  poll_loop_runs system (turn ∷ turns) c quiet =
      let polled_on = poll-quiet system turn (arrive turn c) quiet.0 in
      ap (next system turns) polled_on
      ∙ poll_loop_runs system turns (polled system turn (arrive turn c)) quiet.1

  poll_loop_quits :
      (system : ℕ) (before : List (Turn D)) (turn : Turn D) (later : List (Turn D)) (c : Console D)
      → IsQuiet before
      → key_down turn.keys probe_quit_keycode ≡ true
      → poll_loop system (before ++ turn ∷ later) c ≡ some (arrive turn (polls system before c))
  unfolding poll_loop
  poll_loop_quits system [] turn later c quiet down =
      ap (next system later) (poll-quits system turn (arrive turn c) down)
  poll_loop_quits system (first ∷ before) turn later c quiet down =
      let polled_on = poll-quiet system first (arrive first c) quiet.0 in
      ap (next system (before ++ turn ∷ later)) polled_on
      ∙ poll_loop_quits system before turn later (polled system first (arrive first c)) quiet.1 down
      ∙ ap (λ (r : Bool × Console D). some (arrive turn (polls system before r.1))) (sym polled_on)

  -- `main` behind its loop
  abbrev ended : Option (Console D) → Option (Console D)
  ended r = r >>= λ c. some (say c farewell)

  -- `main` goes on polling as long as no poll finds the quit key down. At the first that does, it
  -- ends: this poll and what would come later touch nothing and print nothing, and the last line is
  -- the farewell.
  pub main_quits :
      (system zone : ℕ) (d : D) (before : List (Turn D)) (turn : Turn D) (later : List (Turn D))
      → IsQuiet before
      → key_down turn.keys probe_quit_keycode ≡ true
      → let c = arrive turn (polls system before (started zone d)) in
        (main system before zone d ≡ none)
        × (main system (before ++ turn ∷ later) zone d
            ≡ some (record c { printed = c.printed ++ farewell ∷ [] }))
  unfolding main
  main_quits system zone d before turn later quiet down = (
    ap ended (poll_loop_runs system before (started zone d) quiet),
    ap ended (poll_loop_quits system before turn later (started zone d) quiet down),
  )
