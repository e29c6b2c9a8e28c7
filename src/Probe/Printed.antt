-- ===== src/Probe/Printed.antt =====
-- A poll of probe/probe.c through the dispatch table of classic/usb_driver.c.
use usbmidi.Prelude.{
  leb, ◌==◌, if◌then◌else◌, Bool-cases, drop, ℕ, zero, suc, ◌+◌, ◌<◌, ◌≡◌, refl, ap, ◌∙◌, inl, inr,
  Bool, true, false, Option, none, some, List, [], ◌∷◌, ◌++◌, arith,
}
use usbmidi.Usb.Registry.{dequeue_bytes, Driver}
use usbmidi.Link.Served.{held_bytes}
use usbmidi.Link.Source.{Sound, dequeue_bytes_apart, served_table, served_table-IsSource}
use usbmidi.Probe.{
  probe_dequeue_chunk, probe_quit_keycode, SymbolLookup, key_down, usable, find_dispatch_table,
  take_received, take_all_received, poll_table, poll_found, poll, Console, Turn,
}
use usbmidi.Probe.Quit.{poll-quiet}
use usbmidi.Oms.{Table}
use usbmidi.Probe.Taken.{
  received_lines, IsApart, take_all_received-zone, take_received-driver, take_all_received-left,
  take_all_received-printed,
}
use usbmidi.Probe.Shown.{table_lines, refreshed_console, poll_table-served}

abbrev held_for : Sound → ℕ → List ℕ
held_for s i = held_bytes s.0 i

served_table-IsApart : (hook : ℕ) → IsApart (served_table hook) held_for
served_table-IsApart hook s i j n ne = dequeue_bytes_apart s.0 i j n ne

dequeue_bytes-count : (d : Driver) (i n : ℕ) → (dequeue_bytes d i true n).2.count ≡ d.count
unfolding dequeue_bytes
dequeue_bytes-count d i n = elim (Bool-cases (leb d.count i)) [
  | inl gone ↦ rw gone refl
  | inr live ↦ rw live refl
]

take_all_received-count :
    (hook i n : ℕ) (c : Console Sound)
    → (take_all_received (served_table hook) i n c).driver.0.count ≡ c.driver.0.count
unfolding take_all_received
take_all_received-count hook i zero c = refl
take_all_received-count hook i (suc n) c =
    take_all_received-count hook (i + 1) n (take_received (served_table hook) i c)
    ∙ ap (λ (s : Sound). s.0.count)
        (take_received-driver (served_table-IsSource hook) (served_table-IsApart hook) i c)
    ∙ dequeue_bytes-count c.driver.0 i probe_dequeue_chunk

-- The current zone is put back.
find_dispatch_table-zone :
    {D : Type 0} (system zone : ℕ) (lookups : List (SymbolLookup D))
    → (find_dispatch_table system zone lookups).1 ≡ zone
unfolding find_dispatch_table
find_dispatch_table-zone system zone [] = refl
find_dispatch_table-zone {D} system zone (lookup ∷ rest) =
    elim (usable (lookup system))
      as (λ o.
        (elim o as (λ o'. Option (Table D) × ℕ) [
          | none ↦ find_dispatch_table system zone rest
          | some table ↦ (some table, zone)
        ]).1
        ≡ zone) [ none ↦ find_dispatch_table-zone system zone rest | some table ↦ refl ]

poll_found-served :
    (hook : ℕ) (c : Console Sound)
    → poll_found (some (served_table hook)) c
      ≡ poll_table
          (served_table hook)
          (record c { state = record c.state { no_driver_reported = false } })
unfolding poll_found
poll_found-served hook c = refl

-- A poll that does not find the quit key down, and finds the table of the class driver, prints the
-- interfaces if their number is not the one printed last, with the records of an enumeration; then,
-- for each interface in turn for which bytes are held, the oldest 64 of them or as many as there
-- are. These bytes are gone from the class driver behind it, exactly the others are still there, its
-- interfaces are as many as before, and the current zone is what it was.
pub poll_prints :
    (hook system i : ℕ) (turn : Turn Sound) (c : Console Sound)
    → key_down turn.keys probe_quit_keycode ≡ false
    → (find_dispatch_table system c.zone turn.lookups).0 ≡ some (served_table hook)
    → i < c.driver.0.count
    → let d = c.driver.0 in
      let (quit, c') = poll system turn c in
      (quit ≡ false)
      × (c'.printed
          ≡ (c.printed ++ (if d.count == c.state.last_count then [] else table_lines d))
            ++ received_lines (held_bytes d) 0 d.count)
      × (held_bytes c'.driver.0 i ≡ drop probe_dequeue_chunk (held_bytes d i))
      × (c'.zone ≡ c.zone)
      × (c'.driver.0.count ≡ d.count)
poll_prints hook system i turn c quiet found lt =
    let zone' = (find_dispatch_table system c.zone turn.lookups).1 in
    let present = record c {
      zone = zone';
      state = record c.state { no_driver_reported = false };
    } in
    let run = take_all_received (served_table hook) 0 c.driver.0.count in
    let start = refreshed_console hook present in
    let polled_on : poll system turn c ≡ (false, run start) =
      poll-quiet system turn c quiet
      ∙ ap (λ t. (false, poll_found t (record c { zone = zone' }))) found
      ∙ ap (λ x. (false, x)) (poll_found-served hook (record c { zone = zone' }))
      ∙ ap (λ x. (false, x)) (poll_table-served hook present) in
    let source = served_table-IsSource hook in
    let apart = served_table-IsApart hook in
    (
      ap (λ (r : Bool × Console Sound). r.0) polled_on,
      ap (λ (r : Bool × Console Sound). r.1.printed) polled_on
          ∙ take_all_received-printed source apart 0 c.driver.0.count start,
      ap (λ (r : Bool × Console Sound). held_bytes r.1.driver.0 i) polled_on
          ∙ take_all_received-left source apart 0 c.driver.0.count i start (omega arith)
              (omega (arith, lt)),
      ap (λ (r : Bool × Console Sound). r.1.zone) polled_on
          ∙ take_all_received-zone (served_table hook) 0 c.driver.0.count start
          ∙ find_dispatch_table-zone system c.zone turn.lookups,
      ap (λ (r : Bool × Console Sound). r.1.driver.0.count) polled_on
          ∙ take_all_received-count hook 0 c.driver.0.count start,
    )
