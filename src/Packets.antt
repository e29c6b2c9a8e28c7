-- ===== src/Packets.antt =====
-- core/packets.h and core/packets.c: USB-MIDI 1.0 Event Packets. A C pointer is an `Option` of
-- what it points at. `>> k` and `& (2^k - 1)` are written as `/ 2^k` and `% 2^k`.
pub mod Cin
pub mod Codec
use Cin
use usbmidi.Prelude.{
  ltb, leb, ◌==◌, if◌then◌else◌, get_or, ℕ, ◌+◌, ◌/◌, ◌%◌, Bool, not, ◌&&◌, ◌||◌, Option, none,
  some, List, [], ◌∷◌,
}

abbrev pub packet_size : ℕ
packet_size = 4

abbrev pub max_cable : ℕ
max_cable = 15

-- `um9_packet`; the array `data[3]` is three fields.
pub record Packet : Type 0 where
  pub cable : ℕ
  pub cin : ℕ
  pub length : ℕ
  pub data0 : ℕ
  pub data1 : ℕ
  pub data2 : ℕ

abbrev pub cin_lengths : List ℕ
cin_lengths = 0 ∷ 1 ∷ 2 ∷ 3 ∷ 3 ∷ 1 ∷ 1 ∷ 2 ∷ 3 ∷ 3 ∷ 3 ∷ 3 ∷ 3 ∷ 2 ∷ 2 ∷ 3 ∷ []

unfoldable pub cin_data_length : ℕ → ℕ
cin_data_length cin = if ltb 15 cin then 0 else get_or cin_lengths cin 0

-- `*out`, as filled from the four bytes of `buf`
unfoldable pub packet_of : List ℕ → Packet
packet_of buf =
    let byte0 = get_or buf 0 0 in
    let cin = byte0 % 16 in
    record {
      cable = byte0 / 16 % 16;
      cin = cin;
      length = cin_data_length cin;
      data0 = get_or buf 1 0;
      data1 = get_or buf 2 0;
      data2 = get_or buf 3 0;
    }

-- Returns the C result and `*out`.
unfoldable pub packet_decode : Option (List ℕ) → ℕ → Option Packet → ℕ × Option Packet
unfolding packet_of
packet_decode none len out = (0, out)
packet_decode (some buf) len none = (0, none)
packet_decode (some buf) len (some old) =
    if not (len == packet_size) then (0, some old) else (1, some (packet_of buf))

-- The one-byte system messages: Tune Request and the realtime statuses.
abbrev is_sys_common_1 : ℕ → Bool
is_sys_common_1 status =
    status == 0xf6
    || status == 0xf8
    || status == 0xf9
    || status == 0xfa
    || status == 0xfb
    || status == 0xfc
    || status == 0xfd
    || status == 0xfe
    || status == 0xff

-- A channel voice status, with its cin
abbrev channel_cin : ℕ → Option (ℕ × ℕ)
channel_cin cin =
    some (cin, if cin == Cin.program_change || cin == Cin.channel_pressure then 2 else 3)

-- The CIN of a status byte, and the message length it requires; `none` is the result -1.
unfoldable pub cin_for_status : ℕ → Option (ℕ × ℕ)
cin_for_status status =
    if leb 0x80 status && leb status 0xef
    then channel_cin (status / 16 + 1)
    else if status == 0xf1 || status == 0xf3
    then some (Cin.sys_common_2, 2)
    else if status == 0xf2
    then some (Cin.sys_common_3, 3)
    else if is_sys_common_1 status
    then some (Cin.sys_common_1, 1)
    else none

-- `msg[i]` for `i < len`, and 0 behind it
abbrev padded : List ℕ → ℕ → ℕ → ℕ
padded msg len i = if ltb i len then get_or msg i 0 else 0

-- `*out`, as filled for a message with code index number `cin`
abbrev pub encoded : ℕ → ℕ → List ℕ → ℕ → Packet
encoded cable cin msg len = record {
  cable = cable;
  cin = cin;
  length = len;
  data0 = padded msg len 0;
  data1 = padded msg len 1;
  data2 = padded msg len 2;
}

unfoldable pub packet_encode : ℕ → Option (List ℕ) → ℕ → Option Packet → ℕ × Option Packet
packet_encode cable none len out = (0, out)
packet_encode cable (some msg) len none = (0, none)
packet_encode cable (some msg) len (some old) =
    if ltb max_cable cable
    then (0, some old)
    else if ltb len 1 || ltb 3 len
    then (0, some old)
    else elim (cin_for_status (get_or msg 0 0)) [
      | none ↦ (0, some old)
      | some (cin, need) ↦
          if not (len == need) then (0, some old) else (1, some (encoded cable cin msg len))
    ]
