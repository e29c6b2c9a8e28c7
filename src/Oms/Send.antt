-- ===== src/Oms/Send.antt =====
-- oms/oms_tx.c: the send hook of the OMS driver. SysEx comes in chunks of up to four bytes; the
-- carry of a port holds what is left of them behind whole packets of three.
pub mod Run
pub mod Whole
pub mod Heard
use usbmidi.Prelude.{
  ltb, leb, ◌==◌, if◌then◌else◌, inc, get_or, take, drop, ℕ, zero, suc, ◌+◌, ◌-◌, ◌*◌, ◌/◌, ◌%◌,
  Bool, not, ◌&&◌, ◌||◌, Option, none, some, List, [], ◌∷◌, ◌++◌,
}
use usbmidi.Packets.Cin
use usbmidi.Tx.{TxStream, tx_message, padded}

-- The fields of `struct oms_port` for sending.
pub record Port : Type 0 where
  pub tx : TxStream
  pub tx_carry : List ℕ
  pub tx_carry_len : ℕ

-- The counters of `g_oms`, and the calls of `oms_tx_transport` in their order.
pub record Sends : Type 0 where
  pub sent : List (ℕ × List ℕ)
  pub tx_converted : ℕ
  pub tx_malformed : ℕ

-- `ifaces[i].ports[cable]`
pub record OmsTx : Type 0 where
  pub ports : ℕ → ℕ → Port
  pub sends : Sends

-- `OMSMIDIPacket`, with four data bytes
pub record OmsMidiPacket : Type 0 where
  pub flags : ℕ
  pub len : ℕ
  pub data_bytes : List ℕ

-- `oms_tx_drop`, the transport of this version, on its counter `txDropped`
unfoldable pub oms_tx_drop : ℕ → List ℕ → ℕ → ℕ
oms_tx_drop port_code pkt tx_dropped = inc tx_dropped

abbrev pub malformed : Sends → Sends
malformed g = record g { tx_malformed = inc g.tx_malformed }

-- `pkt[4]` of `oms_tx_emit`
abbrev pub event_packet : ℕ → ℕ → List ℕ → ℕ → List ℕ
event_packet cable cin bytes len =
    (cable % 16 * 16 + cin % 16) ∷ padded bytes len 0 ∷ padded bytes len 1 ∷ padded bytes len 2 ∷ []

unfoldable pub oms_tx_emit : ℕ → ℕ → ℕ → List ℕ → ℕ → Sends → Sends
oms_tx_emit port_code cable cin bytes len g = record g {
  tx_converted = inc g.tx_converted;
  sent = g.sent ++ (port_code, event_packet cable cin bytes len) ∷ [];
}

unfoldable pub oms_tx_end_cin : ℕ → ℕ
oms_tx_end_cin len =
    if leb len 1 then Cin.sysex_end_1 else if len == 2 then Cin.sysex_end_2 else Cin.sysex_end_3

-- `kTxStart`, `kTxEnd`, `kTxMid`, `kTxWhole`
abbrev pub tx_start : ℕ
tx_start = 1

abbrev pub tx_end : ℕ
tx_end = 2

abbrev pub tx_mid : ℕ
tx_mid = 3

abbrev pub tx_whole : ℕ
tx_whole = 4

-- `while (carryLen - pos >= least) { oms_tx_emit(...); pos += 3u; }` on `fuel` rounds: `pos` and
-- the sends. `carryLen` is at most 6, so two rounds are enough.
unfoldable pub emit_triples : ℕ → ℕ → ℕ → ℕ → List ℕ → ℕ → ℕ → Sends → ℕ × Sends
unfolding oms_tx_emit
emit_triples least zero port_code cable carry carry_len pos g = (pos, g)
emit_triples least (suc fuel) port_code cable carry carry_len pos g =
    let one = oms_tx_emit port_code cable Cin.sysex_start (drop pos carry) 3 g in
    let next = emit_triples least fuel port_code cable carry carry_len (pos + 3) one in
    if leb least (carry_len - pos) then next else (pos, g)

-- `carry`, behind the two loops that fill it
abbrev pub joined : Port → List ℕ → ℕ → List ℕ
joined port bytes len = take port.tx_carry_len port.tx_carry ++ take len bytes

-- the branch `isEnd`
unfoldable pub flush : ℕ → ℕ → List ℕ → ℕ → Port → Sends → Port × Sends
unfolding emit_triples oms_tx_emit oms_tx_end_cin
flush port_code cable carry carry_len port g =
    let (pos, g') = emit_triples 4 2 port_code cable carry carry_len 0 g in
    (
      record port { tx_carry_len = 0 },
      oms_tx_emit port_code cable (oms_tx_end_cin (carry_len - pos)) (drop pos carry)
          (carry_len - pos) g',
    )

-- the branch of start and middle chunks
unfoldable pub keep_rest : ℕ → ℕ → List ℕ → ℕ → Port → Sends → Port × Sends
unfolding emit_triples
keep_rest port_code cable carry carry_len port g =
    let (pos, g') = emit_triples 3 2 port_code cable carry carry_len 0 g in
    let left = (carry_len - pos) % 256 in
    (
      record port {
        tx_carry_len = left;
        tx_carry = take left (drop pos carry) ++ drop left port.tx_carry;
      },
      g',
    )

abbrev pub is_start : ℕ → Bool
is_start mode = mode == tx_start || mode == tx_whole

abbrev pub is_end : ℕ → Bool
is_end mode = mode == tx_end || mode == tx_whole

-- `oms_tx_sysex_chunk` from the test of the whole message on. A byte behind the four of the packet
-- is read as 0; whatever it is, this part counts the message as malformed once.
unfoldable pub chunk_body : Port × Sends → ℕ → ℕ → ℕ → List ℕ → ℕ → Port × Sends
unfolding flush keep_rest
chunk_body (port, g) port_code cable mode bytes len =
    if mode == tx_whole && (ltb len 2 || not (get_or bytes (len - 1) 0 == 0xf7))
    then (port, malformed g)
    else if len == 0 || ltb 4 len
    then (port, malformed g)
    else if ltb 6 (port.tx_carry_len + len)
    then (record port { tx_carry_len = 0 }, malformed g)
    else let carry = joined port bytes len in
      let carry_len = port.tx_carry_len + len in
      if is_end mode
      then flush port_code cable carry carry_len port g
      else keep_rest port_code cable carry carry_len port g

-- the first `if` of `oms_tx_sysex_chunk`
abbrev pub started : Port × Sends → ℕ → List ℕ → ℕ → Port × Sends
started (port, g) mode bytes len =
    if is_start mode && (not (port.tx_carry_len == 0) || len == 0 || not (get_or bytes 0 0 == 0xf0))
    then (record port { tx_carry_len = 0 }, malformed g)
    else (port, g)

unfoldable pub oms_tx_sysex_chunk : Port × Sends → ℕ → ℕ → ℕ → List ℕ → ℕ → Port × Sends
unfolding chunk_body
oms_tx_sysex_chunk s port_code cable mode bytes len =
    chunk_body (started s mode bytes len) port_code cable mode bytes len

-- the other messages: `out` is what the stack held
unfoldable pub send_message : Port × Sends → ℕ → ℕ → List ℕ → ℕ → List (List ℕ) → Port × Sends
unfolding oms_tx_emit
send_message (port, g) port_code cable bytes len out =
    if ltb len 1 || ltb 3 len
    then (port, malformed g)
    else let (n, tx', out') = tx_message port.tx cable (some bytes) len out 2 in
      let port' = record port { tx = tx' } in
      let first = get_or out' 0 [] in
      if not (n == 1)
      then (port', malformed g)
      else (port', oms_tx_emit port_code cable (get_or first 0 0 % 16) (drop 1 first) len g)

-- what `oms_tx_send` does with its port
unfoldable pub send_on : Port × Sends → ℕ → ℕ → OmsMidiPacket → List (List ℕ) → Port × Sends
unfolding oms_tx_sysex_chunk send_message
send_on s port_code cable pkt out =
    let cont = pkt.flags % 4 in
    if cont == 0
    then if leb 1 pkt.len && get_or pkt.data_bytes 0 0 == 0xf0
      then oms_tx_sysex_chunk s port_code cable tx_whole pkt.data_bytes pkt.len
      else send_message s port_code cable pkt.data_bytes pkt.len out
    else oms_tx_sysex_chunk s port_code cable cont pkt.data_bytes pkt.len

-- the ports, with one replaced
abbrev pub put_port : (ℕ → ℕ → Port) → ℕ → ℕ → Port → ℕ → ℕ → Port
put_port ports i c port i' c' = if i' == i && c' == c then port else ports i' c'

unfoldable pub oms_tx_send : OmsTx → Option OmsMidiPacket → ℕ → List (List ℕ) → OmsTx
unfolding send_on
oms_tx_send g none refcon out = record g { sends = malformed g.sends }
oms_tx_send g (some pkt) refcon out =
    let iface_no = refcon / 256 % 256 in
    let cable = refcon % 256 in
    if ltb iface_no 1 || ltb 8 iface_no || leb 16 cable
    then record g { sends = malformed g.sends }
    else let port_code = iface_no * 256 + cable in
      let (port, sends') =
        send_on (g.ports (iface_no - 1) cable, g.sends) port_code cable pkt out in
      record g { ports = put_port g.ports (iface_no - 1) cable port; sends = sends' }
