-- ===== src/Probe.antt =====
-- probe/probe.c: the console application that polls the class driver. What `printf` has printed is a
-- list of lines; Probe/Text gives their characters.
pub mod Text
pub mod Hex
pub mod Keys
pub mod Quit
pub mod Silent
pub mod Reports
pub mod Taken
pub mod Shown
pub mod Printed
pub mod Order
use Prim.Native.Nat.{bit_and}
use usbmidi.Prelude.{
  ltb, leb, ◌>>=◌, ◌==◌, if◌then◌else◌, word, length, get_or, ℕ, zero, suc, ◌+◌, ◌-◌, ◌/◌, ◌%◌, ◌^◌,
  min, Bool, true, false, not, Option, none, some, List, [], ◌∷◌, ◌++◌,
}
use usbmidi.Usb.Registry.{InterfaceInfo}
use usbmidi.Oms.{Table}

abbrev pub probe_max_interfaces : ℕ
probe_max_interfaces = 8

abbrev pub probe_dequeue_chunk : ℕ
probe_dequeue_chunk = 64

abbrev pub probe_min_dispatch_table_version : ℕ
probe_min_dispatch_table_version = 1

abbrev pub probe_quit_keycode : ℕ
probe_quit_keycode = 12

-- 0xFFFFFFFF, the count before any
abbrev pub no_count : ℕ
no_count = word - 1

-- one call of `printf`, or the calls that print the bytes received for an interface
pub data Line : Type 0 where
  title hint farewell no_driver : Line
  too_old : ℕ → Line
  attached : ℕ → Line
  unavailable : ℕ → Line
  interface : InterfaceInfo → Line
  bytes_received : ℕ → List ℕ → Line

-- `USBMIDI9ProbeState`
pub record ProbeState : Type 0 where
  pub last_count : ℕ
  pub no_driver_reported : Bool

-- The application with its surroundings: the current zone, the class driver, and what is printed.
pub record Console (D : Type 0) : Type 0 where
  pub state : ProbeState
  pub zone : ℕ
  pub driver : D
  pub printed : List Line

-- A matching device of `USBGetNextDeviceByClass`: what `FindSymbol` gives for it, with the current
-- zone; whether it returns `noErr`, and the table, if it is not nil.
abbrev pub SymbolLookup : Type 0 → Type 0
SymbolLookup D = ℕ → Bool × Option (Table D)

-- What a poll finds: the key map, the matching devices, and what has happened to the class driver
-- since the poll before.
pub record Turn (D : Type 0) : Type 0 where
  pub keys : List ℕ
  pub lookups : List (SymbolLookup D)
  pub meanwhile : D → D

-- `keys` are the bytes of the key map.
unfoldable pub key_down : List ℕ → ℕ → Bool
key_down keys keycode =
    if leb 128 keycode
    then false
    else not (bit_and (get_or keys (keycode / 8) 0) (2 ^ (keycode % 8)) == 0)

-- the state that `main` starts with
abbrev pub first_state : ProbeState
first_state = record { last_count = no_count; no_driver_reported = false }

-- the line for interface `i`, with the result of `getInterfaceInfo`
abbrev pub info_line : ℕ → Option InterfaceInfo → Line
info_line i none = unavailable i
info_line i (some info) = interface info

module _ {D : Type 0} where
  abbrev pub say : Console D → Line → Console D
  say c line = record c { printed = c.printed ++ line ∷ [] }

  -- `err == noErr && table != nil`
  abbrev pub usable : Bool × Option (Table D) → Option (Table D)
  usable (false, table) = none
  usable (true, table) = table

  -- The table, and the zone; `system` is the system zone.
  unfoldable pub find_dispatch_table : ℕ → ℕ → List (SymbolLookup D) → Option (Table D) × ℕ
  find_dispatch_table system zone [] = (none, zone)
  find_dispatch_table system zone (lookup ∷ rest) =
      let current_zone = zone in
      let others = find_dispatch_table system current_zone rest in
      elim (usable (lookup system)) [ none ↦ others | some table ↦ (some table, current_zone) ]

  -- the loop of `ProbePrintInterfaceTable` from `i` on, with the rounds that are left
  unfoldable pub print_interfaces : Table D → ℕ → ℕ → Console D → Console D
  print_interfaces table i zero c = c
  print_interfaces table i (suc n) c =
      print_interfaces table (i + 1) n (say c (info_line i (table.get_interface_info c.driver i)))

  unfoldable pub print_interface_table : Table D → ℕ → Console D → Console D
  unfolding print_interfaces
  print_interface_table table count c =
      print_interfaces table 0 (min count probe_max_interfaces) (say c (attached count))

  -- the body of the loop that dequeues
  unfoldable pub take_received : Table D → ℕ → Console D → Console D
  take_received table i c =
      let (bytes, driver') = table.dequeue_bytes c.driver i probe_dequeue_chunk in
      let c' = record c { driver = driver' } in
      if ltb 0 (length bytes) then say c' (bytes_received i bytes) else c'

  -- that loop from `i` on, with the rounds that are left
  unfoldable pub take_all_received : Table D → ℕ → ℕ → Console D → Console D
  unfolding take_received
  take_all_received table i zero c = c
  take_all_received table i (suc n) c = take_all_received table (i + 1) n (take_received table i c)

  -- `count`; an error of `enumerateInterfaces` leaves it at 0.
  abbrev pub interface_count : Table D → D → ℕ
  interface_count table d = elim (table.enumerate_interfaces d) [ none ↦ 0 | some n ↦ n ]

  -- the branch of a table of a version that serves
  unfoldable pub poll_table : Table D → Console D → Console D
  unfolding print_interface_table take_all_received
  poll_table table c =
      let count = interface_count table c.driver in
      let shown = print_interface_table table count c in
      let c' =
        if count == c.state.last_count
        then c
        else record shown { state = record shown.state { last_count = count } } in
      take_all_received table 0 (min count probe_max_interfaces) c'

  -- the branches on the table that was found
  unfoldable pub poll_found : Option (Table D) → Console D → Console D
  unfolding poll_table
  poll_found none c =
      let told =
        if c.state.no_driver_reported
        then c
        else record (say c no_driver) { state = record c.state { no_driver_reported = true } } in
      record told { state = record told.state { last_count = no_count } }
  poll_found (some table) c =
      let present = record c { state = record c.state { no_driver_reported = false } } in
      if ltb table.version probe_min_dispatch_table_version
      then say present (too_old table.version)
      else poll_table table present

  -- Returns whether the quit key is down.
  unfoldable pub poll : ℕ → Turn D → Console D → Bool × Console D
  unfolding key_down find_dispatch_table poll_found
  poll system turn c =
      let (table, zone') = find_dispatch_table system c.zone turn.lookups in
      if key_down turn.keys probe_quit_keycode
      then (true, c)
      else (false, poll_found table (record c { zone = zone' }))

  -- The loop of `main`, over the polls to come; `none` is a loop that is still running when they are
  -- used up.
  unfoldable pub poll_loop : ℕ → List (Turn D) → Console D → Option (Console D)
  unfolding poll
  poll_loop system [] c = none
  poll_loop system (turn ∷ turns) c =
      let (quit, c') = poll system turn (record c { driver = turn.meanwhile c.driver }) in
      elim quit [ true ↦ some c' | false ↦ poll_loop system turns c' ]

  -- `main`, from zone `zone` and a driver, with nothing printed
  unfoldable pub main : ℕ → List (Turn D) → ℕ → D → Option (Console D)
  unfolding poll_loop
  main system turns zone d =
      let lines = title ∷ hint ∷ [] in
      let c : Console D = record {
        state = first_state;
        zone = zone;
        driver = d;
        printed = lines;
      } in
      poll_loop system turns c >>= λ c'. some (say c' farewell)
