-- ===== src/Packets/Cin.antt =====
-- `UM9_CIN_*` of core/packets.h, Code Index Numbers.
use usbmidi.Prelude.{ℕ}

abbrev pub misc : ℕ
misc = 0x0

abbrev pub cable_event : ℕ
cable_event = 0x1

abbrev pub sys_common_2 : ℕ
sys_common_2 = 0x2

abbrev pub sys_common_3 : ℕ
sys_common_3 = 0x3

abbrev pub sysex_start : ℕ
sysex_start = 0x4

abbrev pub sys_common_1 : ℕ
sys_common_1 = 0x5

abbrev pub sysex_end_1 : ℕ
sysex_end_1 = 0x6

abbrev pub sysex_end_2 : ℕ
sysex_end_2 = 0x7

abbrev pub sysex_end_3 : ℕ
sysex_end_3 = 0x8

abbrev pub program_change : ℕ
program_change = 0xd

abbrev pub channel_pressure : ℕ
channel_pressure = 0xe
