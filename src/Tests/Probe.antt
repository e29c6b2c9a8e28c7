-- ===== src/Tests/Probe.antt =====
-- The theorems on the probe applied to concrete values.
use usbmidi.Prelude.{
  ◌==◌, if◌then◌else◌, drop, replicate, ℕ, ◌≡◌, refl, sym, ap, ◌∙◌, true, false, none, some, List,
  [], ◌∷◌, ◌++◌, arith,
}
use usbmidi.Link.Delivery.{notifying-held}
use usbmidi.Link.Served.{held_bytes}
use usbmidi.Link.Source.{Sound, served_table}
use usbmidi.Probe.{Console, Turn, SymbolLookup, key_down, main, poll, farewell, find_dispatch_table}
use usbmidi.Probe.Text.{print_hex}
use usbmidi.Probe.Hex.{read_rows, concat, IsFilled, print_hex-read}
use usbmidi.Probe.Quit.{polls, started, arrive, main_quits}
use usbmidi.Probe.Reports.{reported_once, absences}
use usbmidi.Probe.Silent.{no_driver_lines}
use usbmidi.Probe.Taken.{received_lines}
use usbmidi.Probe.Shown.{table_lines}
use usbmidi.Probe.Printed.{poll_prints}
use usbmidi.Probe.Order.{Fed, turns_of, seen, printed_in_order}
use usbmidi.Tests.Usb.{two_live, full_memory, empty_ring-IsValid, two_live-IsRegistry}
use usbmidi.Tests.Link.{having_read, two_live-IsServed, two_live-IsRead}

abbrev q_down : List ℕ
q_down = 0 ∷ 16 ∷ replicate 14 0

abbrev no_keys : List ℕ
no_keys = replicate 16 0

print_hex-read_example :
    let rows = read_rows (print_hex (9 ∷ 144 ∷ 60 ∷ 87 ∷ [])) in
    (concat rows ≡ 9 ∷ 144 ∷ 60 ∷ 87 ∷ []) × IsFilled 16 rows
print_hex-read_example =
    print_hex-read (9 ∷ 144 ∷ 60 ∷ 87 ∷ [])
      (omega arith, (omega arith, (omega arith, (omega arith, tt))))

quit_down : key_down q_down 12 ≡ true
unfolding key_down
quit_down = refl

quit_up : key_down no_keys 12 ≡ false
unfolding key_down
quit_up = refl

-- a device without the table, and the class driver
abbrev stranger : SymbolLookup Sound
stranger zone = (true, none)

abbrev found_driver : SymbolLookup Sound
found_driver zone = (zone == 1, some (served_table 1))

abbrev with_driver : Turn Sound
with_driver = record { keys = no_keys; lookups = stranger ∷ found_driver ∷ []; meanwhile = λ s. s }

driver_found : (find_dispatch_table 1 2 with_driver.lookups).0 ≡ some (served_table 1)
unfolding find_dispatch_table
driver_found = refl

abbrev without_driver : Turn Sound
without_driver = record with_driver { lookups = stranger ∷ [] }

abbrev quitting : Turn Sound
quitting = record with_driver { keys = q_down }

abbrev idle_driver : Sound
idle_driver = (two_live, two_live-IsServed)

main_quits_example :
    let c = arrive quitting (polls 1 (without_driver ∷ []) (started 2 idle_driver)) in
    (main 1 (without_driver ∷ []) 2 idle_driver ≡ none)
    × (main 1 (without_driver ∷ quitting ∷ with_driver ∷ []) 2 idle_driver
        ≡ some (record c { printed = c.printed ++ farewell ∷ [] }))
main_quits_example =
    main_quits 1 2 idle_driver (without_driver ∷ []) quitting (with_driver ∷ []) (quit_up, tt)
      quit_down

reported_once_example :
    no_driver_lines
      (polls 1
        (without_driver ∷ without_driver ∷ with_driver ∷ without_driver ∷ [])
        (started 2 idle_driver)).printed
    ≡ absences true (false ∷ false ∷ true ∷ false ∷ [])
reported_once_example =
    reported_once 1 2 idle_driver
      (without_driver ∷ without_driver ∷ with_driver ∷ without_driver ∷ [])
      (quit_up, (quit_up, (quit_up, (quit_up, tt))))

-- a console whose class driver has just read four bytes
abbrev console : Console Sound
console = record (started 2 idle_driver) { driver = having_read }

poll_prints_example :
    let d = console.driver.0 in
    let (quit, c') = poll 1 with_driver console in
    (quit ≡ false)
    × (c'.printed
        ≡ (console.printed ++ (if d.count == console.state.last_count then [] else table_lines d))
          ++ received_lines (held_bytes d) 0 d.count)
    × (held_bytes c'.driver.0 0 ≡ drop 64 (held_bytes d 0))
    × (c'.zone ≡ 2)
    × (c'.driver.0.count ≡ 2)
poll_prints_example = poll_prints 1 1 0 with_driver console quit_up driver_found (omega arith)

-- the read comes in before the poll
abbrev feeding : Turn Sound
feeding = record with_driver { meanwhile = λ s. having_read }

abbrev fed : Fed
fed = (feeding, 9 ∷ 144 ∷ 60 ∷ 100 ∷ []) ∷ []

nothing_held : held_bytes two_live 0 ≡ []
unfolding held_bytes
nothing_held = refl

four_held : held_bytes having_read.0 0 ≡ 9 ∷ 144 ∷ 60 ∷ 100 ∷ []
four_held =
    notifying-held two_live 0 {mem = full_memory} two_live-IsRegistry (omega arith) two_live-IsRead
      empty_ring-IsValid

printed_in_order_example :
    seen 0 (polls 1 (turns_of fed) (started 2 idle_driver))
    ≡ seen 0 (started 2 idle_driver) ++ 9 ∷ 144 ∷ 60 ∷ 100 ∷ []
printed_in_order_example = printed_in_order 1 1 0 fed (started 2 idle_driver) (omega arith) (
  quit_up,
  driver_found,
  refl,
  four_held ∙ ap (λ l. l ++ 9 ∷ 144 ∷ 60 ∷ 100 ∷ []) (sym nothing_held),
  tt,
)
