-- ===== src/Oms/Receive.antt =====
-- oms/oms_rx.c: what the class driver has received goes through the streams of the ports to OMS.
pub mod Whole
pub mod Idle
pub mod Drained
pub mod Kept
pub mod Emptied
pub mod Cable
pub mod Apart
pub mod Split
pub mod Typed
pub mod Message
use usbmidi.Prelude.{
  ltb, leb, ◌>>=◌, ◌==◌, if◌then◌else◌, word, inc, length, get_or, ℕ, zero, suc, ◌+◌, ◌/◌, ◌%◌,
  Bool, true, false, not, ◌||◌, Option, none, some, List, [], ◌∷◌, ◌++◌,
}
use usbmidi.Rx.{RxMsg, Sysex, whole, start, mid, end, rx_init}
use usbmidi.Tx.{tx_init}
use usbmidi.Stream.{deliver_one, deliver}
use usbmidi.Usb.{ring_size}
use usbmidi.Oms.{
  OmsPort, Table, oms_cables, dequeue_chunk, put_at, OmsPacket, oms_max_interfaces, Shim,
}

-- `omsNoCont`, `omsStartCont`, `omsEndCont`, `omsMidCont`
abbrev pub cont_flags : Sysex → ℕ
cont_flags whole = 0
cont_flags start = 1
cont_flags end = 2
cont_flags mid = 3

-- `ioRefNum < 0`
abbrev pub is_negative : ℕ → Bool
is_negative ref = leb 32768 ref

-- What a drain works on: the ports of its interface, the counters and the calls of OMS.
pub record Flow : Type 0 where
  pub ports : ℕ → OmsPort
  pub messages : ℕ
  pub dropped : ℕ
  pub delivered : List (OmsPacket × ℕ)

unfoldable pub build_packet : OmsPort → RxMsg → OmsPacket
build_packet port m = record {
  flags = cont_flags m.sysex;
  len = m.len % 256;
  src_io_ref_num = port.io_ref_num;
  app_conn_ref_con = 0;
  data_bytes =
      (if ltb 0 m.len then m.data0 else 0)
      ∷ (if ltb 1 m.len then m.data1 else 0)
      ∷ (if ltb 2 m.len then m.data2 else 0)
      ∷ 0
      ∷ [];
}

-- the `if (!port->valid)` of the drain
unfoldable pub opened : OmsPort → ℕ → OmsPort
opened port cable = if port.valid then port else record port {
  valid = true;
  io_ref_num = 0xffff;
  rx = rx_init port.rx cable;
  send = record port.send { tx = tx_init cable };
}

-- `deliver` is the argument of `oms_rx_drain`, `routine` the cached `rxRoutine`.
module _ (deliver : Bool) (routine : ℕ) where
  -- the body of the loop over the messages, for one message
  unfoldable pub pass_on : OmsPort → Flow → RxMsg → Flow
  unfolding build_packet
  pass_on port f m =
      let heard = record f { messages = inc f.messages } in
      if not deliver || is_negative port.io_ref_num
      then heard
      else if not (routine == 0)
      then record heard { delivered = f.delivered ++ (build_packet port m, port.io_ref_num) ∷ [] }
      else heard

  unfoldable pub pass_all : OmsPort → Flow → List RxMsg → Flow
  unfolding pass_on
  pass_all port f [] = f
  pass_all port f (m ∷ ms) = pass_all port (pass_on port f m) ms

  -- the body of the loop over the Event Packets of a chunk
  unfoldable pub drain_packet : Flow → List ℕ → Flow
  unfolding opened pass_all
  drain_packet f buf =
      let cable = get_or buf 0 0 / 16 % 16 in
      let port = opened (f.ports cable) cable in
      let (messages, rx') = deliver_one port.rx buf in
      let heard = record port { rx = rx' } in
      if leb oms_cables cable
      then record f { dropped = inc f.dropped }
      else pass_all heard (record f { ports = put_at f.ports cable heard }) messages

  -- the loop over the Event Packets
  unfoldable pub drain_packets : Flow → List ℕ → Flow
  unfolding drain_packet
  drain_packets f (a ∷ b ∷ c ∷ d ∷ rest) = drain_packets (drain_packet f (a ∷ b ∷ c ∷ d ∷ [])) rest
  drain_packets f _ = f

  -- the body of the outer loop, with `rxPackets`
  unfoldable pub drain_chunk : Flow × ℕ → List ℕ → Flow × ℕ
  unfolding drain_packets
  drain_chunk (f, packets) bytes =
      let n = length bytes in
      let f' = drain_packets f bytes in
      (
        if not (n % 4 == 0) then record f' { dropped = (f'.dropped + n % 4) % word } else f',
        (packets + n / 4) % word,
      )

-- The outer loop, on fuel for its rounds; `none` is a loop that is still running.
unfoldable pub drain_rounds :
    {D : Type 0} → Bool → ℕ → ℕ → Table D → ℕ → Flow × ℕ → D → Option ((Flow × ℕ) × D)
unfolding drain_chunk
drain_rounds deliver routine zero table index f d = none
drain_rounds deliver routine (suc fuel) table index f d =
    let (bytes, d') = table.dequeue_bytes d index dequeue_chunk in
    elim (length bytes == 0) [
      | true ↦ some (f, d')
      | false ↦
          drain_rounds deliver routine fuel table index (drain_chunk deliver routine f bytes) d'
    ]

abbrev pub flow_of : {D : Type 0} → Shim D → ℕ → Flow × ℕ
flow_of s index = (
  record {
    ports = (s.oms.ifaces index).ports;
    messages = s.oms.rx_messages;
    dropped = s.oms.rx_dropped;
    delivered = s.delivered;
  },
  s.oms.rx_packets,
)

abbrev pub put_flow : {D : Type 0} → Shim D → ℕ → (Flow × ℕ) × D → Shim D
put_flow s index ((f, packets), d) = record s {
  driver = d;
  delivered = f.delivered;
  oms = record s.oms {
    ifaces = put_at s.oms.ifaces index (record (s.oms.ifaces index) { ports = f.ports });
    rx_messages = f.messages;
    rx_dropped = f.dropped;
    rx_packets = packets;
  };
}

-- The ring of the class driver holds less than this many bytes, and each round takes one at least.
abbrev pub drain_fuel : ℕ
drain_fuel = ring_size + 1

unfoldable pub drain_from : {D : Type 0} → Option (Table D) → ℕ → Bool → Shim D → Option (Shim D)
unfolding drain_rounds
drain_from none index deliver s = some s
drain_from (some table) index deliver s =
    if not (s.oms.ifaces index).valid
    then some s
    else drain_rounds deliver s.oms.rx_routine drain_fuel table index (flow_of s index) s.driver
      >>= λ r. some (put_flow s index r)

unfoldable pub rx_drain : {D : Type 0} → ℕ → Bool → Shim D → Option (Shim D)
unfolding drain_from
rx_drain index deliver s =
    if leb oms_max_interfaces index then some s else drain_from s.oms.table index deliver s

-- the loop of `oms_rx_drain_all` from `i` on, with the rounds that are left
unfoldable pub drain_all_from : {D : Type 0} → ℕ → ℕ → Bool → Shim D → Option (Shim D)
unfolding rx_drain
drain_all_from i zero deliver s = some s
drain_all_from i (suc n) deliver s =
    (if (s.oms.ifaces i).valid then rx_drain i deliver s else some s) >>= λ s'.
    drain_all_from (i + 1) n deliver s'

unfoldable pub drain_all_of : {D : Type 0} → Option (Table D) → Bool → Shim D → Option (Shim D)
unfolding drain_all_from
drain_all_of none deliver s = some s
drain_all_of (some table) deliver s = drain_all_from 0 oms_max_interfaces deliver s

unfoldable pub rx_drain_all : {D : Type 0} → Bool → Shim D → Option (Shim D)
unfolding drain_all_of
rx_drain_all deliver s = drain_all_of s.oms.table deliver s

-- the event callback of the class driver; its refcon is not used
unfoldable pub rx_event : {D : Type 0} → ℕ → Shim D → Option (Shim D)
unfolding rx_drain
rx_event index s =
    rx_drain index s.oms.midi_started
      (record s { oms = record s.oms { events = inc s.oms.events } })
