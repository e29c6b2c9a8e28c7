-- ===== src/Probe/Order.antt =====
-- The bytes that probe/probe.c prints for one interface, over many polls.
use native.Mathlib.Decide.{ℕ_discrete}
use usbmidi.Prelude.{
  pick, ◌==◌, if◌then◌else◌, take, drop, take-append-drop, ℕ, zero, suc, ◌+◌, ◌≤◌, ◌<◌, ◌≡◌, refl,
  sym, ap, ap₂, ◌∙◌, Bool, true, false, some, List, [], ◌∷◌, ◌++◌, append-nil, append_assoc, arith,
}
use usbmidi.Usb.Registry.{Driver, InterfaceInfo, fill_all}
use usbmidi.Link.Served.{held_bytes}
use usbmidi.Link.Source.{Sound, served_table}
use usbmidi.Probe.{
  Line, probe_dequeue_chunk, title, hint, farewell, no_driver, too_old, attached, unavailable,
  interface, bytes_received, probe_quit_keycode, key_down, find_dispatch_table, poll, Console, Turn,
}
use usbmidi.Probe.Quit.{arrive, polls}
use usbmidi.Probe.Taken.{received_lines, line_for}
use usbmidi.Probe.Printed.{poll_prints}
use usbmidi.Probe.Shown.{interface_lines, table_lines}

-- the bytes printed for interface `i`
abbrev pub bytes_for : ℕ → List Line → List ℕ
bytes_for i [] = []
bytes_for i (bytes_received j bytes ∷ lines) = (if j == i then bytes else []) ++ bytes_for i lines
bytes_for i (_ ∷ lines) = bytes_for i lines

bytes_for-append :
    (i : ℕ) (xs ys : List Line) → bytes_for i (xs ++ ys) ≡ bytes_for i xs ++ bytes_for i ys
bytes_for-append i [] ys = refl
bytes_for-append i (title ∷ xs) ys = bytes_for-append i xs ys
bytes_for-append i (hint ∷ xs) ys = bytes_for-append i xs ys
bytes_for-append i (farewell ∷ xs) ys = bytes_for-append i xs ys
bytes_for-append i (no_driver ∷ xs) ys = bytes_for-append i xs ys
bytes_for-append i (too_old version ∷ xs) ys = bytes_for-append i xs ys
bytes_for-append i (attached count ∷ xs) ys = bytes_for-append i xs ys
bytes_for-append i (unavailable j ∷ xs) ys = bytes_for-append i xs ys
bytes_for-append i (interface info ∷ xs) ys = bytes_for-append i xs ys
bytes_for-append i (bytes_received j bytes ∷ xs) ys =
    ap (◌++◌ (if j == i then bytes else [])) (bytes_for-append i xs ys)
    ∙ sym (append_assoc (if j == i then bytes else []) (bytes_for i xs) (bytes_for i ys))

bytes_for-interface_lines :
    (i : ℕ) (infos : List InterfaceInfo) → bytes_for i (interface_lines infos) ≡ []
bytes_for-interface_lines i [] = refl
bytes_for-interface_lines i (info ∷ infos) = bytes_for-interface_lines i infos

-- the lines of a poll in front of the bytes
bytes_for-changed :
    (i : ℕ) (b : Bool) (d : Driver) → bytes_for i (if b then [] else table_lines d) ≡ []
bytes_for-changed i true d = refl
bytes_for-changed i false d = bytes_for-interface_lines i (fill_all d 0 d.count)

bytes_for-line_for :
    (i j : ℕ) (bytes : List ℕ) → bytes_for i (line_for j bytes) ≡ (if j == i then bytes else [])
bytes_for-line_for i j [] = pick (λ l. [] ≡ l) (j == i) [] [] refl refl
bytes_for-line_for i j (b ∷ bytes) = append-nil (if j == i then b ∷ bytes else [])

bytes_for-before : (h : ℕ → List ℕ) (i k n : ℕ) → i < k → bytes_for i (received_lines h k n) ≡ []
bytes_for-before h i k zero lt = refl
bytes_for-before h i k (suc n) lt =
    let other : (k == i) ≡ false = ground (arith, lt) in
    let bytes = take probe_dequeue_chunk (h k) in
    bytes_for-append i (line_for k bytes) (received_lines h (k + 1) n)
    ∙ ap₂ ◌++◌ (bytes_for-line_for i k bytes ∙ ap (λ (b : Bool). if b then bytes else []) other)
        (bytes_for-before h i (k + 1) n (omega (arith, lt)))

bytes_for-received_lines :
    (h : ℕ → List ℕ) (i k n : ℕ)
    → k ≤ i
    → i < k + n
    → bytes_for i (received_lines h k n) ≡ take probe_dequeue_chunk (h i)
bytes_for-received_lines h i k zero le lt = absurd (omega (arith, le, lt))
bytes_for-received_lines h i k (suc n) le lt =
    let bytes = take probe_dequeue_chunk (h k) in
    let first = bytes_for-append i (line_for k bytes) (received_lines h (k + 1) n) in
    elim (ℕ_discrete k i) [
      | yes e ↦
          let same : (k == i) ≡ true = ground (arith, e) in
          first
          ∙ ap₂ ◌++◌
              (bytes_for-line_for i k bytes ∙ ap (λ (b : Bool). if b then bytes else []) same)
              (bytes_for-before h i (k + 1) n (omega (arith, e)))
          ∙ append-nil bytes
          ∙ ap (λ j. take probe_dequeue_chunk (h j)) e
      | no ne ↦
          let other : (k == i) ≡ false = ground (arith, ne) in
          first
          ∙ ap₂ ◌++◌
              (bytes_for-line_for i k bytes ∙ ap (λ (b : Bool). if b then bytes else []) other)
              (bytes_for-received_lines h i (k + 1) n (omega (arith, le, ne)) (omega (arith, lt)))
    ]

-- polls, each with the bytes that have come in for the interface since the poll before
abbrev pub Fed : Type 0
Fed = List (Turn Sound × List ℕ)

abbrev pub turns_of : Fed → List (Turn Sound)
turns_of [] = []
turns_of ((turn, new) ∷ fed) = turn ∷ turns_of fed

abbrev pub all_new : Fed → List ℕ
all_new [] = []
all_new ((turn, new) ∷ fed) = new ++ all_new fed

-- No poll finds the quit key down, each finds the table of the class driver, and between them the
-- driver does nothing but append what has come in to what it holds for interface `i`, as far as that
-- interface and the number of interfaces go.
abbrev pub IsFed : ℕ → ℕ → ℕ → Fed → Console Sound → Type 0
IsFed hook system i [] c = Unit
IsFed hook system i ((turn, new) ∷ fed) c =
    (key_down turn.keys probe_quit_keycode ≡ false)
    × ((find_dispatch_table system c.zone turn.lookups).0 ≡ some (served_table hook))
    × ((turn.meanwhile c.driver).0.count ≡ c.driver.0.count)
    × (held_bytes (turn.meanwhile c.driver).0 i ≡ held_bytes c.driver.0 i ++ new)
    × IsFed hook system i fed (poll system turn (arrive turn c)).1

-- the bytes printed for interface `i`, and those that the class driver holds for it
abbrev pub seen : ℕ → Console Sound → List ℕ
seen i c = bytes_for i c.printed ++ held_bytes c.driver.0 i

poll-seen :
    (hook system i : ℕ) (turn : Turn Sound) (c : Console Sound)
    → key_down turn.keys probe_quit_keycode ≡ false
    → (find_dispatch_table system c.zone turn.lookups).0 ≡ some (served_table hook)
    → i < c.driver.0.count
    → seen i (poll system turn c).1 ≡ seen i c
poll-seen hook system i turn c quiet found lt =
    let d = c.driver.0 in
    let (went_on, printed, left, same_zone, same_count) =
      poll_prints hook system i turn c quiet found lt in
    let changed = if d.count == c.state.last_count then [] else table_lines d in
    let lines = received_lines (held_bytes d) 0 d.count in
    ap₂ (λ l b. bytes_for i l ++ b) printed left
    ∙ ap (λ b. b ++ drop probe_dequeue_chunk (held_bytes d i))
        (bytes_for-append i (c.printed ++ changed) lines
          ∙ ap₂ ◌++◌
              (bytes_for-append i c.printed changed
                ∙ ap (◌++◌ (bytes_for i c.printed))
                    (bytes_for-changed i (d.count == c.state.last_count) d)
                ∙ append-nil (bytes_for i c.printed))
              (bytes_for-received_lines (held_bytes d) i 0 d.count (omega arith)
                (omega (arith, lt))))
    ∙ append_assoc (bytes_for i c.printed) _ _
    ∙ ap (◌++◌ (bytes_for i c.printed)) (take-append-drop probe_dequeue_chunk (held_bytes d i))

-- For polls that all find the table of the class driver and none of which finds the quit key down, where
-- between two polls the number of interfaces stays the same and the driver appends all that comes in
-- for a live interface to what it holds, without overflow: however many polls there are and however
-- the bytes come in, the bytes printed for the interface, followed by those that the class driver
-- still holds for it, are those printed and held before, followed by those that have come in: none
-- is lost, repeated or out of order.
pub printed_in_order :
    (hook system i : ℕ) (fed : Fed) (c : Console Sound)
    → i < c.driver.0.count
    → IsFed hook system i fed c
    → seen i (polls system (turns_of fed) c) ≡ seen i c ++ all_new fed
printed_in_order hook system i [] c lt h = sym (append-nil (seen i c))
printed_in_order hook system i ((turn, new) ∷ fed) c lt (quiet, found, same, came, more) =
    let c1 = arrive turn c in
    let live : i < c1.driver.0.count = omega (arith, lt, same) in
    let (went_on, printed, left, same_zone, same_count) =
      poll_prints hook system i turn c1 quiet found live in
    let p = (poll system turn c1).1 in
    printed_in_order hook system i fed p (omega (arith, live, same_count)) more
    ∙ ap (λ l. l ++ all_new fed)
        (poll-seen hook system i turn c1 quiet found live
          ∙ ap (◌++◌ (bytes_for i c.printed)) came
          ∙ sym (append_assoc (bytes_for i c.printed) (held_bytes c.driver.0 i) new))
    ∙ append_assoc (seen i c) new (all_new fed)
