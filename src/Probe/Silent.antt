-- ===== src/Probe/Silent.antt =====
-- The parts of a poll of probe/probe.c that do not report an absence of the driver.
use usbmidi.Prelude.{
  pick, ltb, ◌==◌, if◌then◌else◌, length, ℕ, zero, suc, ◌+◌, min, ◌≡◌, refl, ◌∙◌, none, some, List,
  [], ◌∷◌, ◌++◌, arith,
}
use usbmidi.Oms.{Table}
use usbmidi.Probe.{
  Line, probe_max_interfaces, probe_dequeue_chunk, info_line, say, print_interfaces,
  print_interface_table, take_received, take_all_received, interface_count, poll_table, Console,
  title, hint, farewell, no_driver, too_old, attached, unavailable, interface, bytes_received,
}

-- how many of the lines are the message that no driver is loaded
abbrev pub no_driver_lines : List Line → ℕ
no_driver_lines [] = 0
no_driver_lines (no_driver ∷ lines) = 1 + no_driver_lines lines
no_driver_lines (_ ∷ lines) = no_driver_lines lines

pub lines-append :
    (xs ys : List Line) → no_driver_lines (xs ++ ys) ≡ no_driver_lines xs + no_driver_lines ys
lines-append [] ys = omega arith
lines-append (title ∷ xs) ys = lines-append xs ys
lines-append (hint ∷ xs) ys = lines-append xs ys
lines-append (farewell ∷ xs) ys = lines-append xs ys
lines-append (no_driver ∷ xs) ys = omega (arith, lines-append xs ys)
lines-append (too_old version ∷ xs) ys = lines-append xs ys
lines-append (attached count ∷ xs) ys = lines-append xs ys
lines-append (unavailable i ∷ xs) ys = lines-append xs ys
lines-append (interface info ∷ xs) ys = lines-append xs ys
lines-append (bytes_received i bytes ∷ xs) ys = lines-append xs ys

module _ {D : Type 0} where
  -- nothing more is reported, and what has been reported is remembered
  pub record Silent (c c' : Console D) : Type 0 where
    pub lines : no_driver_lines c'.printed ≡ no_driver_lines c.printed
    pub reported : c'.state.no_driver_reported ≡ c.state.no_driver_reported

  Silent-trans : {c c' c'' : Console D} → Silent c c' → Silent c' c'' → Silent c c''
  Silent-trans a b = record { lines = b.lines ∙ a.lines; reported = b.reported ∙ a.reported }

  pub say-Silent :
      (c : Console D) (line : Line) → no_driver_lines (line ∷ []) ≡ 0 → Silent c (say c line)
  say-Silent c line e = record {
    lines = omega (arith, lines-append c.printed (line ∷ []), e);
    reported = refl;
  }

  print_interfaces-Silent :
      (table : Table D) (i n : ℕ) (c : Console D) → Silent c (print_interfaces table i n c)
  unfolding print_interfaces
  print_interfaces-Silent table i zero c = record { lines = refl; reported = refl }
  print_interfaces-Silent table i (suc n) c =
      let line = info_line i (table.get_interface_info c.driver i) in
      Silent-trans
        (say-Silent c line
          (elim (table.get_interface_info c.driver i)
            as (λ o. no_driver_lines (info_line i o ∷ []) ≡ 0) [ none ↦ refl | some info ↦ refl ]))
        (print_interfaces-Silent table (i + 1) n (say c line))

  take_received-Silent :
      (table : Table D) (i : ℕ) (c : Console D) → Silent c (take_received table i c)
  unfolding take_received
  take_received-Silent table i c =
      let (bytes, driver') = table.dequeue_bytes c.driver i probe_dequeue_chunk in
      let c' = record c { driver = driver' } in
      let told = say-Silent c' (bytes_received i bytes) refl in
      pick (Silent c) (ltb 0 (length bytes)) (say c' (bytes_received i bytes)) c'
        (record { lines = told.lines; reported = told.reported })
        (record { lines = refl; reported = refl })

  take_all_received-Silent :
      (table : Table D) (i n : ℕ) (c : Console D) → Silent c (take_all_received table i n c)
  unfolding take_all_received
  take_all_received-Silent table i zero c = record { lines = refl; reported = refl }
  take_all_received-Silent table i (suc n) c =
      Silent-trans (take_received-Silent table i c)
        (take_all_received-Silent table (i + 1) n (take_received table i c))

  pub poll_table-Silent : (table : Table D) (c : Console D) → Silent c (poll_table table c)
  unfolding poll_table print_interface_table
  poll_table-Silent table c =
      let count = interface_count table c.driver in
      let shown = print_interface_table table count c in
      let fresh = record shown { state = record shown.state { last_count = count } } in
      let silent = Silent-trans (say-Silent c (attached count) refl) (
        print_interfaces-Silent table 0 (min count probe_max_interfaces)
          (say c (attached count))) in
      Silent-trans
        (pick (Silent c) (count == c.state.last_count) c fresh
          (record { lines = refl; reported = refl })
          (record { lines = silent.lines; reported = silent.reported }))
        (take_all_received-Silent table 0 (min count probe_max_interfaces)
          (if count == c.state.last_count then c else fresh))
