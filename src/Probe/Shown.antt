-- ===== src/Probe/Shown.antt =====
-- What a poll of probe/probe.c prints of the interfaces of classic/usb_driver.c.
use usbmidi.Prelude.{
  leb, ◌==◌, if◌then◌else◌, ==_iff, ℕ, zero, suc, ◌+◌, ◌≤◌, ◌<◌, min, ◌≡◌, refl, sym, ap, ap₂, ◌∙◌,
  Bool, true, false, some, List, [], ◌∷◌, ◌++◌, append-nil, append_assoc, arith,
}
use usbmidi.Usb.Registry.{
  instance_at, fill_interface_info, fill_all, enumerate_interfaces, get_interface_info, Driver,
  InterfaceInfo,
}
use usbmidi.Link.{dispatch_table}
use usbmidi.Link.Served.{IsServed}
use usbmidi.Link.Source.{Sound, served_table}
use usbmidi.Probe.{
  Line, probe_max_interfaces, info_line, say, print_interfaces, print_interface_table,
  take_all_received, interface_count, poll_table, Console, attached, interface,
}

-- a line for each record
abbrev pub interface_lines : List InterfaceInfo → List Line
interface_lines [] = []
interface_lines (info ∷ infos) = interface info ∷ interface_lines infos

-- The table of the live instances, with the records of an enumeration.
abbrev pub table_lines : Driver → List Line
table_lines d = attached d.count ∷ interface_lines (fill_all d 0 d.count)

module _ (hook : ℕ) where
  get_interface_info_live :
      (d : Driver) (i : ℕ)
      → i < d.count
      → (dispatch_table hook).get_interface_info d i
        ≡ some (fill_interface_info i (instance_at d i))
  unfolding get_interface_info
  get_interface_info_live d i lt =
      let live : leb d.count i ≡ false = ground (arith, lt) in rw live refl

  print_interfaces-served :
      (i n : ℕ) (c : Console Sound)
      → i + n ≤ c.driver.0.count
      → print_interfaces (served_table hook) i n c
        ≡ record c { printed = c.printed ++ interface_lines (fill_all c.driver.0 i n) }
  unfolding print_interfaces fill_all
  print_interfaces-served i zero c le =
      ap (λ l. record c { printed = l }) (sym (append-nil c.printed))
  print_interfaces-served i (suc n) c le =
      let d = c.driver.0 in
      let line = interface (fill_interface_info i (instance_at d i)) in
      ap (λ o. print_interfaces (served_table hook) (i + 1) n (say c (info_line i o)))
        (get_interface_info_live d i (omega (arith, le)))
      ∙ print_interfaces-served (i + 1) n (say c line) (omega (arith, le))
      ∙ ap (λ l. record c { printed = l }) (append_assoc c.printed (line ∷ []) _)

-- the table is printed if the count has changed
refreshed :
    {D : Type 0} (b : Bool) (c : Console D) (count : ℕ) (lines : List Line)
    → (b ≡ true → count ≡ c.state.last_count)
    → (if b then c else record c {
      printed = c.printed ++ lines;
      state = record c.state { last_count = count };
    })
      ≡ record c {
        printed = c.printed ++ (if b then [] else lines);
        state = record c.state { last_count = count };
      }
refreshed true c count lines same =
    ap₂ (λ l k. record c { printed = l; state = record c.state { last_count = k } })
      (sym (append-nil c.printed)) (sym (same refl))
refreshed false c count lines same = refl

all_fit : (d : Driver) → IsServed d → min d.count probe_max_interfaces ≡ d.count
all_fit d s = omega (arith, s.registry.live)

module _ (hook : ℕ) (c : Console Sound) where
  -- the lines for the interfaces, if their number has changed
  abbrev pub changed_lines : List Line
  changed_lines = let d = c.driver.0 in if d.count == c.state.last_count then [] else table_lines d

  abbrev pub refreshed_console : Console Sound
  refreshed_console = record c {
    printed = c.printed ++ changed_lines;
    state = record c.state { last_count = c.driver.0.count };
  }

  count_served : interface_count (served_table hook) c.driver ≡ c.driver.0.count
  unfolding enumerate_interfaces
  count_served = refl

  print_interface_table-served :
      print_interface_table (served_table hook) c.driver.0.count c
      ≡ record c { printed = c.printed ++ table_lines c.driver.0 }
  unfolding print_interface_table
  print_interface_table-served =
      let d = c.driver.0 in
      ap (λ n. print_interfaces (served_table hook) 0 n (say c (attached d.count)))
        (all_fit d c.driver.1)
      ∙ print_interfaces-served hook 0 d.count (say c (attached d.count)) (omega arith)
      ∙ ap (λ l. record c { printed = l }) (append_assoc c.printed (attached d.count ∷ []) _)

  pub poll_table-served :
      poll_table (served_table hook) c
      ≡ take_all_received (served_table hook) 0 c.driver.0.count refreshed_console
  unfolding poll_table
  poll_table-served =
      let d = c.driver.0 in
      let run = take_all_received (served_table hook) 0 in
      let next = λ (count : ℕ).
        if count == c.state.last_count
        then c
        else record (print_interface_table (served_table hook) count c) {
          state = record (print_interface_table (served_table hook) count c).state {
            last_count = count;
          };
        } in
      ap (λ count. run (min count probe_max_interfaces) (next count)) count_served
      ∙ ap (λ n. run n (next d.count)) (all_fit d c.driver.1)
      ∙ ap
          (λ (shown : Console Sound). run d.count (
            if d.count == c.state.last_count
            then c
            else record shown { state = record shown.state { last_count = d.count } }))
          print_interface_table-served
      ∙ ap (run d.count) (
          refreshed (d.count == c.state.last_count) c d.count (table_lines d)
            (λ e. (==_iff d.count c.state.last_count).0 e))
