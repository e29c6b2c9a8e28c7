-- ===== src/Probe/Reports.antt =====
-- When probe/probe.c reports that no driver is loaded.
use mathlib.Core.Path.{subst}
use usbmidi.Prelude.{
  pick, ltb, if◌then◌else◌, ℕ, ◌+◌, ◌≡◌, refl, ap, ◌∙◌, Bool, true, false, not, ◌||◌, Option, none,
  some, List, [], ◌∷◌, arith,
}
use usbmidi.Oms.{Table}
use usbmidi.Probe.{
  probe_min_dispatch_table_version, no_count, SymbolLookup, say, usable, find_dispatch_table,
  poll_table, poll_found, Console, Turn, no_driver, too_old,
}
use usbmidi.Probe.Quit.{IsQuiet, arrive, polls, started, polled, poll-quiet}
use usbmidi.Probe.Silent.{say-Silent, no_driver_lines, lines-append, poll_table-Silent}

-- How many absences of the driver begin; `present` is whether it was there before.
abbrev pub absences : Bool → List Bool → ℕ
absences present [] = 0
absences present (true ∷ rest) = absences true rest
absences present (false ∷ rest) = (if present then 1 else 0) + absences false rest

abbrev is_there : {A : Type 0} → Option A → Bool
is_there none = false
is_there (some a) = true

not-not : (b : Bool) → not (not b) ≡ b
not-not true = refl
not-not false = refl

absences_step :
    (told there : Bool) (rest : List Bool)
    → absences (not told) (there ∷ rest)
      ≡ (if there then 0 else if told then 0 else 1) + absences there rest
absences_step told true rest = omega arith
absences_step true false rest = refl
absences_step false false rest = refl

module _ {D : Type 0} where
  -- whether a matching device exports a table, looked up in the system zone
  abbrev pub any_usable : ℕ → List (SymbolLookup D) → Bool
  any_usable system [] = false
  any_usable system (lookup ∷ rest) = is_there (usable (lookup system)) || any_usable system rest

  abbrev pub presences : ℕ → List (Turn D) → List Bool
  presences system [] = []
  presences system (turn ∷ turns) = any_usable system turn.lookups ∷ presences system turns

  -- what a poll does to the reports
  record Reported (there : Bool) (c c' : Console D) : Type 0 where
    more :
        no_driver_lines c'.printed
        ≡ no_driver_lines c.printed
          + (if there then 0 else if c.state.no_driver_reported then 0 else 1)
    now : c'.state.no_driver_reported ≡ not there

  -- the branch without a driver; `told` is whether it was reported
  absent-Reported :
      (told : Bool) (c : Console D)
      → c.state.no_driver_reported ≡ told
      → let c' =
          if told
          then c
          else record (say c no_driver) { state = record c.state { no_driver_reported = true } } in
        Reported false c (record c' { state = record c'.state { last_count = no_count } })
  absent-Reported true c e =
      let fresh : ℕ = if c.state.no_driver_reported then 0 else 1 in
      let zero_more : fresh ≡ 0 = ap (λ (b : Bool). if b then 0 else 1) e in
      record { more = omega (arith, zero_more); now = e }
  absent-Reported false c e =
      let fresh : ℕ = if c.state.no_driver_reported then 0 else 1 in
      let one_more : fresh ≡ 1 = ap (λ (b : Bool). if b then 0 else 1) e in
      record { more = omega (arith, one_more, lines-append c.printed (no_driver ∷ [])); now = refl }

  poll_found-Reported :
      (table : Option (Table D)) (c : Console D) → Reported (is_there table) c (poll_found table c)
  unfolding poll_found
  poll_found-Reported none c = absent-Reported c.state.no_driver_reported c refl
  poll_found-Reported (some table) c =
      let present = record c { state = record c.state { no_driver_reported = false } } in
      let old = say-Silent present (too_old table.version) refl in
      let silent = poll_table-Silent table present in
      pick (Reported true c) (ltb table.version probe_min_dispatch_table_version)
        (say present (too_old table.version)) (poll_table table present)
        (record { more = omega (arith, old.lines); now = refl })
        (record { more = omega (arith, silent.lines); now = silent.reported })

  find_dispatch_table-any :
      (system zone : ℕ) (lookups : List (SymbolLookup D))
      → is_there (find_dispatch_table system zone lookups).0 ≡ any_usable system lookups
  unfolding find_dispatch_table
  find_dispatch_table-any system zone [] = refl
  find_dispatch_table-any system zone (lookup ∷ rest) =
      elim (usable (lookup system))
        as (λ o.
          is_there
            (elim o as (λ o'. Option (Table D) × ℕ) [
              | none ↦ find_dispatch_table system zone rest
              | some table ↦ (some table, zone)
            ]).0
          ≡ is_there o || any_usable system rest) [
            | none ↦ find_dispatch_table-any system zone rest
            | some table ↦ refl
          ]

  polls-Reported :
      (system : ℕ) (turns : List (Turn D)) (c : Console D)
      → IsQuiet turns
      → no_driver_lines (polls system turns c).printed
        ≡ no_driver_lines c.printed
          + absences (not c.state.no_driver_reported) (presences system turns)
  polls-Reported system [] c quiet = omega arith
  polls-Reported system (turn ∷ turns) c quiet =
      let found = find_dispatch_table system c.zone turn.lookups in
      let there = any_usable system turn.lookups in
      let arrived = record (arrive turn c) { zone = found.1 } in
      let p = polled system turn (arrive turn c) in
      let r : Reported there arrived p =
        subst (λ b. Reported b arrived p) (find_dispatch_table-any system c.zone turn.lookups)
          (poll_found-Reported found.0 arrived) in
      let shown : no_driver_lines (polls system turns p).printed
          ≡ no_driver_lines p.printed + absences there (presences system turns) =
        polls-Reported system turns p quiet.1
        ∙ ap (λ b. no_driver_lines p.printed + absences b (presences system turns))
            (ap not r.now ∙ not-not there) in
      ap (λ (r : Bool × Console D). no_driver_lines (polls system turns r.1).printed)
        (poll-quiet system turn (arrive turn c) quiet.0)
      ∙ omega (
        arith,
        shown,
        r.more,
        absences_step c.state.no_driver_reported there (presences system turns),
      )

  -- Over any polls from the start of `main` on, none of which finds the quit key down, the message
  -- that no driver is loaded is printed once for each absence of the driver that begins, the first
  -- poll counting as a beginning, and never again as long as the driver stays away; the driver is
  -- there if the table of a matching device is found from the system zone.
  pub reported_once :
      (system zone : ℕ) (d : D) (turns : List (Turn D))
      → IsQuiet turns
      → no_driver_lines (polls system turns (started zone d)).printed
        ≡ absences true (presences system turns)
  reported_once system zone d turns quiet =
      omega (arith, polls-Reported system turns (started zone d) quiet)
