-- ===== src/Rx.antt =====
-- The receive half of core/midi_stream.h and core/midi_stream.c: Event Packets to MIDI messages.
pub mod Queue
pub mod Spec
pub mod Refine
pub mod Account
use usbmidi.Prelude.{
  ltb, leb, ◌==◌, if◌then◌else◌, inc, get_or, set, ℕ, ◌+◌, ◌-◌, ◌%◌, Bool, true, false, not, ◌&&◌,
  ◌||◌, Option, none, some, List,
}
use mathlib.Core.List.{map}
use usbmidi.Packets.{Packet, packet_size, max_cable, packet_of}
use usbmidi.Packets.Cin

-- `UM9_RX_QUEUE`
abbrev pub rx_queue : ℕ
rx_queue = 16

-- `UM9_SYSEX_*`
pub data Sysex : Type 0 where
  whole start mid end : Sysex

-- `struct um9_rx_stats`; each counter is an `unsigned long`.
pub record RxStats : Type 0 where
  pub packets : ℕ
  pub messages : ℕ
  pub dropped_misc : ℕ
  pub dropped_cable : ℕ
  pub dropped_full : ℕ
  pub dropped_misroute : ℕ
  pub malformed_start : ℕ
  pub sysex_end_no_eox : ℕ

-- `struct um9_rx_msg`
pub record RxMsg : Type 0 where
  pub data0 : ℕ
  pub data1 : ℕ
  pub data2 : ℕ
  pub len : ℕ
  pub sysex : Sysex

-- `struct um9_rx_stream`
pub record RxStream : Type 0 where
  pub cable : ℕ
  pub in_sysex : Bool
  pub head : ℕ
  pub count : ℕ
  pub pending : List RxMsg
  pub stats : RxStats

abbrev pub zero_stats : RxStats
zero_stats = record {
  packets = 0;
  messages = 0;
  dropped_misc = 0;
  dropped_cable = 0;
  dropped_full = 0;
  dropped_misroute = 0;
  malformed_start = 0;
  sysex_end_no_eox = 0;
}

-- The data bytes of a queue slot are left as they were.
abbrev pub clear_slot : RxMsg → RxMsg
clear_slot m = record m { len = 0; sysex = whole }

unfoldable pub rx_init : RxStream → ℕ → RxStream
rx_init s cable = record {
  cable = if leb cable max_cable then cable else 0;
  in_sysex = false;
  head = 0;
  count = 0;
  pending = map clear_slot s.pending;
  stats = zero_stats;
}

-- the queue slot that a packet's message fills
abbrev pub message_of : Packet → Sysex → RxMsg
message_of pkt sysex = record {
  data0 = pkt.data0;
  data1 = if ltb 1 pkt.length then pkt.data1 else 0;
  data2 = if ltb 2 pkt.length then pkt.data2 else 0;
  len = pkt.length;
  sysex = sysex;
}

-- `count` is an `unsigned char`.
unfoldable pub rx_enqueue : RxStream → Packet → Sysex → RxStream
rx_enqueue s pkt sysex =
    if leb rx_queue s.count
    then record s { stats = record s.stats { dropped_full = inc s.stats.dropped_full } }
    else record s {
      pending = set s.pending ((s.head + s.count) % rx_queue) (message_of pkt sysex);
      count = (s.count + 1) % 256;
    }

-- `case UM9_CIN_SYSEX_START`
unfoldable pub rx_start : RxStream → Packet → RxStream × Sysex
rx_start s pkt =
    if not s.in_sysex
    then (
      record s {
        in_sysex = true;
        stats =
            if not (pkt.data0 == 0xf0)
            then record s.stats { malformed_start = inc s.stats.malformed_start }
            else s.stats;
      },
      start,
    )
    else (s, mid)

-- `pkt.data[pkt.length - 1u]` for `0 < pkt.length ≤ 3`
abbrev last_byte : Packet → ℕ
last_byte pkt =
    if pkt.length == 1 then pkt.data0 else if pkt.length == 2 then pkt.data1 else pkt.data2

-- `case UM9_CIN_SYSEX_END_1` to `UM9_CIN_SYSEX_END_3`
unfoldable pub rx_end : RxStream → Packet → RxStream × Sysex
rx_end s pkt = (
  record s {
    in_sysex = false;
    stats =
        if ltb 0 pkt.length && not (last_byte pkt == 0xf7)
        then record s.stats { sysex_end_no_eox = inc s.stats.sysex_end_no_eox }
        else s.stats;
  },
  if not s.in_sysex && ltb 0 pkt.length && pkt.data0 == 0xf0 then whole else end,
)

abbrev pub is_sysex_end : ℕ → Bool
is_sysex_end cin = cin == Cin.sysex_end_1 || cin == Cin.sysex_end_2 || cin == Cin.sysex_end_3

-- the end of `um9_rx_packet`, behind the `switch`
abbrev pub rx_finish : Packet → RxStream × Sysex → RxStream
rx_finish pkt (s, sysex) = if pkt.length == 0 then s else rx_enqueue s pkt sysex

-- `um9_rx_packet` once the packet is decoded and counted
unfoldable pub rx_feed : RxStream → Packet → RxStream
unfolding rx_start rx_end
rx_feed s pkt =
    if not (pkt.cable == s.cable)
    then record s { stats = record s.stats { dropped_misroute = inc s.stats.dropped_misroute } }
    else if pkt.cin == Cin.misc
    then record s { stats = record s.stats { dropped_misc = inc s.stats.dropped_misc } }
    else if pkt.cin == Cin.cable_event
    then record s { stats = record s.stats { dropped_cable = inc s.stats.dropped_cable } }
    else if pkt.cin == Cin.sysex_start
    then rx_finish pkt (rx_start s pkt)
    else if is_sysex_end pkt.cin
    then rx_finish pkt (rx_end s pkt)
    else rx_finish pkt (s, whole)

abbrev pub counted : RxStream → RxStream
counted s = record s { stats = record s.stats { packets = inc s.stats.packets } }

-- Returns the C result and the stream.
unfoldable pub rx_packet : RxStream → Option (List ℕ) → ℕ → ℕ × RxStream
unfolding rx_feed
rx_packet s none len = (0, s)
rx_packet s (some buf) len =
    if not (len == packet_size) then (0, s) else (1, rx_feed (counted s) (packet_of buf))

abbrev pub empty_slot : RxMsg
empty_slot = record { data0 = 0; data1 = 0; data2 = 0; len = 0; sysex = whole }

-- `none` is the C result 0; `some m` is the result 1, with `m` copied out.
unfoldable pub rx_message : RxStream → Option RxMsg × RxStream
rx_message s = if s.count == 0 then (none, s) else (
  some (get_or s.pending s.head empty_slot),
  record s {
    head = (s.head + 1) % rx_queue;
    count = s.count - 1;
    stats = record s.stats { messages = inc s.stats.messages };
  },
)
