-- ===== src/Tx.antt =====
-- The transmit half of core/midi_stream.h and core/midi_stream.c: MIDI messages to Event Packets.
-- `out[][4]` is a list of packets, each a list of four bytes; a write behind its end is lost.
pub mod Sysex
pub mod Accept
use usbmidi.Prelude.{
  ltb, leb, ◌==◌, if◌then◌else◌, inc, get_or, set, drop, ℕ, zero, suc, ◌+◌, ◌-◌, ◌*◌, ◌/◌, ◌%◌, not,
  ◌||◌, Option, none, some, List, [], ◌∷◌,
}
use usbmidi.Packets.{Packet, max_cable, packet_encode}
use usbmidi.Packets.Cin

-- `struct um9_tx_stats`
pub record TxStats : Type 0 where
  pub messages : ℕ
  pub malformed : ℕ

-- `struct um9_tx_stream`
pub record TxStream : Type 0 where
  pub cable : ℕ
  pub stats : TxStats

unfoldable pub tx_init : ℕ → TxStream
tx_init cable = record {
  cable = if leb cable max_cable then cable else 0;
  stats = record { messages = 0; malformed = 0 };
}

unfoldable pub tx_end_cin : ℕ → ℕ
tx_end_cin len =
    if leb len 1 then Cin.sysex_end_1 else if len == 2 then Cin.sysex_end_2 else Cin.sysex_end_3

-- `msg[i]` for `i < len`, and 0 behind it
abbrev pub padded : List ℕ → ℕ → ℕ → ℕ
padded msg len i = if ltb i len then get_or msg i 0 else 0

-- `((cable & 0x0F) << 4) | (cin & 0x0F)`: the two fields are disjoint. `msg` points at the bytes.
unfoldable pub tx_packet_build : ℕ → ℕ → List ℕ → ℕ → List ℕ
tx_packet_build cable cin msg len =
    (cable % 16 * 16 + cin % 16) ∷ padded msg len 0 ∷ padded msg len 1 ∷ padded msg len 2 ∷ []

unfoldable pub tx_sysex_packet_count : ℕ → ℕ
tx_sysex_packet_count len = 1 + (len - 3 + 2) / 3

abbrev Out : Type 0
Out = List (List ℕ)

-- `while (len - pos > 3u)`, on `fuel` rounds: returns `pos` and `out`.
unfoldable pub tx_middle : ℕ → ℕ → List ℕ → ℕ → ℕ → Out → ℕ × Out
unfolding tx_packet_build
tx_middle zero cable msg len pos out = (pos, out)
tx_middle (suc fuel) cable msg len pos out =
    let packet = tx_packet_build cable Cin.sysex_start (drop pos msg) 3 in
    let next = tx_middle fuel cable msg len (pos + 3) (set out (1 + (pos - 3) / 3) packet) in
    if ltb 3 (len - pos) then next else (pos, out)

abbrev pub accepted : TxStream → TxStream
accepted s = record s { stats = record s.stats { messages = inc s.stats.messages } }

abbrev pub rejected : TxStream → TxStream
rejected s = record s { stats = record s.stats { malformed = inc s.stats.malformed } }

-- the result, the stream, and `out`
abbrev pub Sent : Type 0
Sent = ℕ × TxStream × Out

-- `msg[0] == 0xF0u`
unfoldable pub tx_sysex : TxStream → ℕ → List ℕ → ℕ → Out → ℕ → Sent
unfolding tx_end_cin tx_packet_build tx_sysex_packet_count
tx_sysex s cable msg len out max_packets =
    if ltb len 2 || not (get_or msg (len - 1) 0 == 0xf7)
    then (0, rejected s, out)
    else if leb len 3
    then if ltb max_packets 1
      then (0, rejected s, out)
      else (1, accepted s, set out 0 (tx_packet_build cable (tx_end_cin len) msg len))
    else let needed = tx_sysex_packet_count len in
      if ltb max_packets needed
      then (0, rejected s, out)
      else let started = set out 0 (tx_packet_build cable Cin.sysex_start msg 3) in
        let (pos, filled) = tx_middle len cable msg len 3 started in
        let rest = len - pos in
        let last = tx_packet_build cable (tx_end_cin rest) (drop pos msg) rest in
        (needed, accepted s, set filled (needed - 1) last)

-- `msg[0] == 0xF7u`: a lone EOX
unfoldable pub tx_eox : TxStream → ℕ → List ℕ → ℕ → Out → ℕ → Sent
unfolding tx_packet_build
tx_eox s cable msg len out max_packets =
    if not (len == 1)
    then (0, rejected s, out)
    else if ltb max_packets 1
    then (0, rejected s, out)
    else (1, accepted s, set out 0 (tx_packet_build cable Cin.sysex_end_1 msg 1))

abbrev pub packet_bytes : Packet → List ℕ
packet_bytes pkt = pkt.data0 ∷ pkt.data1 ∷ pkt.data2 ∷ []

abbrev pub no_packet : Packet
no_packet = record { cable = 0; cin = 0; length = 0; data0 = 0; data1 = 0; data2 = 0 }

-- `out` after `um9_packet_encode` returned `ret` and filled `pkt`
unfoldable pub tx_encoded : TxStream → Out → ℕ → ℕ × Option Packet → Sent
unfolding tx_packet_build
tx_encoded s out max_packets (ret, none) = (0, rejected s, out)
tx_encoded s out max_packets (ret, some pkt) =
    if ret == 0 then (0, rejected s, out) else if ltb max_packets 1 then (0, rejected s, out) else (
      1,
      accepted s,
      set out 0 (tx_packet_build pkt.cable pkt.cin (packet_bytes pkt) pkt.length),
    )

-- channel voice and fixed-length system messages
unfoldable pub tx_fixed : TxStream → ℕ → List ℕ → ℕ → Out → ℕ → Sent
unfolding tx_encoded
tx_fixed s cable msg len out max_packets =
    tx_encoded s out max_packets (packet_encode cable (some msg) len (some no_packet))

-- `um9_tx_message` for `out` not NULL
unfoldable pub tx_message : TxStream → ℕ → Option (List ℕ) → ℕ → Out → ℕ → Sent
tx_message s cable none len out max_packets = (0, rejected s, out)
tx_message s cable (some msg) len out max_packets =
    if ltb max_cable cable || ltb len 1 || ltb (get_or msg 0 0) 0x80
    then (0, rejected s, out)
    else if get_or msg 0 0 == 0xf0
    then tx_sysex s cable msg len out max_packets
    else if get_or msg 0 0 == 0xf7
    then tx_eox s cable msg len out max_packets
    else tx_fixed s cable msg len out max_packets
