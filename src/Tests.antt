-- ===== src/Tests.antt =====
-- Each theorem of the library applied to concrete values, and the values.
pub mod Usb
pub mod Oms
pub mod Drain
pub mod Link
pub mod Probe
use usbmidi.Prelude.{
  Returns, length, take, drop, replicate, ℕ, ◌+◌, ◌-◌, ◌/◌, ◌^◌, ◌≤◌, min, ◌≡◌, refl, ◌≢◌, ◌↔◌,
  true, false, some, List, [], ◌∷◌, ◌++◌, arith,
}
use usbmidi.Prelude.Bits.{is_power_of_two}
use usbmidi.Packets.{Packet, encoded, max_cable, packet_size, packet_of}
use usbmidi.Packets.Codec.{message_size}
use usbmidi.Rx.{RxStream, RxMsg, zero_stats, empty_slot, rx_packet, rx_message, message_of, whole}
use usbmidi.Rx.Queue.{IsValid}
use usbmidi.Rx.Spec.{Op, packet, message, run_spec}
use usbmidi.Rx.Refine.{line, run, run_refines}
use usbmidi.Rx.Account.{Balanced, rx_packet-Balanced}
use usbmidi.Tx.{TxStream, tx_message, accepted}
use usbmidi.Tx.Accept.{IsMessage, tx_message_accepts}
use usbmidi.Tx.Sysex.{IsSysex, packet_count, packets_of, tx_message-packets_of}
use usbmidi.Oms.Send.{Port, Sends}
use usbmidi.Oms.Send.Run.{tag}
use usbmidi.Oms.Send.Whole.{send_run, all_fit, send_run_sends}
use usbmidi.Ports.{MsInfo, zero_info, ports_from_ms}
use usbmidi.Ports.Derive.{all_ports, ports_from_ms_all}
use usbmidi.Ports.Parse.{ms_parse}
use usbmidi.Ports.Parse.Limits.{IsWithin}
use usbmidi.Ports.Parse.Safety.{ms_parse-IsWithin}
use usbmidi.Oms.Send.Heard.{send_run_heard}
use usbmidi.Stream.{deliver}
use usbmidi.Ring.{Ring, ring_enqueue, ring_dequeue}
use usbmidi.Ring.Window.{IsValid as HoldsIn, contents as held_bytes, used}
use usbmidi.Ring.Fifo.{ring_enqueue_appends}
use usbmidi.Ring.Dequeue.{ring_dequeue_takes}
use usbmidi.Stream.Listen.{IsIdle}
use usbmidi.Descriptors.{DescIter, desc_iter_init, no_error}
use usbmidi.Descriptors.Walk.{IsValid as WalkIsValid, Covers, walk, walk_fills}
use usbmidi.Stream.RoundTrip.{pieces, view, sysex_round_trip}
use usbmidi.Stream.Fixed.{fixed_round_trip}
use usbmidi.Stream.Realtime.{single_between}
use usbmidi.Stream.Nibble.{logged, logged-Fits, Fits}

-- a stream on cable 0 just behind `um9_rx_init`
abbrev fresh : RxStream
fresh = record {
  cable = 0;
  in_sysex = false;
  head = 0;
  count = 0;
  pending = replicate 16 empty_slot;
  stats = zero_stats;
}

fresh-IsValid : IsValid fresh
fresh-IsValid = record { slots = refl; head_in = omega arith; count_in = omega arith }

fresh-IsIdle : IsIdle fresh
fresh-IsIdle = record { valid = fresh-IsValid; nothing = refl }

abbrev sender : TxStream
sender = record { cable = 0; stats = record { messages = 0; malformed = 0 } }

abbrev note_on : List ℕ
note_on = 0x90 ∷ 0x30 ∷ 0x50 ∷ []

abbrev sysex_run : List ℕ
sysex_run = 0xf0 ∷ 1 ∷ 2 ∷ 3 ∷ 0xf7 ∷ []

sysex_run-IsSysex : IsSysex sysex_run
sysex_run-IsSysex = record { starts = refl; two = omega arith; ends = refl }

abbrev room : List (List ℕ)
room = replicate 2 (0 ∷ 0 ∷ 0 ∷ 0 ∷ [])

abbrev blank : Packet
blank = record { cable = 0; cin = 0; data0 = 0; data1 = 0; data2 = 0; length = 0 }

abbrev note_packet : List ℕ
note_packet = 0x0a ∷ 0x90 ∷ 0x30 ∷ 0x50 ∷ []

abbrev script : List Op
script = packet note_packet ∷ message ∷ message ∷ []

run_refines_example : run fresh script ≡ run_spec 0 (line fresh) script
run_refines_example = run_refines script fresh-IsValid

rx_packet-Balanced_example :
    Balanced (rx_packet fresh (some note_packet) packet_size).1 × Balanced (rx_message fresh).1
rx_packet-Balanced_example = rx_packet-Balanced (some note_packet) packet_size fresh-IsValid refl

sysex_round_trip_example :
    let (sent, _, out') = tx_message sender 0 (some sysex_run) (length sysex_run) room 2 in
    view (deliver fresh (take sent out')) ≡ pieces false sysex_run
sysex_round_trip_example =
    sysex_round_trip sender 2 sysex_run room fresh-IsIdle (omega arith) refl sysex_run-IsSysex
      (omega arith) (omega arith)

fixed_round_trip_example :
    let (sent, _, out') = tx_message sender 0 (some note_on) (length note_on) room 2 in
    (sent ≡ 1) × (view (deliver fresh (take sent out')) ≡ (note_on, whole) ∷ [])
unfolding message_size
fixed_round_trip_example =
    fixed_round_trip sender 2 0x90 (0x30 ∷ 0x50 ∷ []) room fresh-IsIdle (omega arith) (omega arith)
      (omega arith) refl (omega arith) (omega arith)

tx_message-packets_of_example : tx_message sender 0 (some sysex_run) (length sysex_run) room 2 ≡ (
  packet_count sysex_run,
  accepted sender,
  packets_of 0 sysex_run ++ drop (packet_count sysex_run) room,
)
tx_message-packets_of_example =
    tx_message-packets_of sender 0 2 sysex_run room (omega arith) sysex_run-IsSysex (omega arith)
      (omega arith)

tx_message_accepts_example :
    ((tx_message sender 0 (some note_on) 3 room 2).0 ≢ 0)
    ↔ ((0 ≤ max_cable) × IsMessage 0x90 note_on 3 × ((3 + 2) / 3 ≤ 2))
tx_message_accepts_example =
    tx_message_accepts sender 0 0x90 3 2 (0x30 ∷ 0x50 ∷ []) room (omega arith)

single_between_example :
    (after : List RxMsg) × (deliver fresh ([] ++ []) ≡ deliver fresh [] ++ after)
    × (deliver fresh ([] ++ note_packet ∷ [])
        ≡ deliver fresh [] ++ message_of (packet_of note_packet) whole ∷ after)
unfolding packet_of
single_between_example = single_between [] [] note_packet fresh-IsIdle refl refl

logged-Fits_example :
    (view (deliver fresh (logged 0 0x90 0x30 0x50 ∷ []))
      ≡ (take (message_size 0x90) note_on, whole) ∷ [])
    ↔ Fits (0x90 / 16)
logged-Fits_example =
    logged-Fits 0x90 0x30 0x50 fresh-IsIdle (omega arith) (omega arith) (omega arith)

abbrev note_encoded : Packet
note_encoded = encoded 0 0xa note_on 3

abbrev ring_memory : List ℕ
ring_memory = 7 ∷ 8 ∷ 0 ∷ 0 ∷ []

-- 7 and 8 are held, in slots 0 and 1 of four; the counters are about to wrap
abbrev ring : Ring
ring = record { buf = some ring_memory; head = 2 ^ 32 - 4; tail = 2 ^ 32 - 2 }

ring-IsValid : HoldsIn ring 4 ring_memory
unfolding is_power_of_two
ring-IsValid = record {
  at = refl;
  power = refl;
  small = omega arith;
  slots = refl;
  head_in = omega arith;
  tail_in = omega arith;
  fits = omega arith;
}

ring_enqueue_appends_example :
    let (n, r') = ring_enqueue ring 4 (some (9 ∷ 10 ∷ 11 ∷ [])) 3 in
    (n ≡ min 3 (4 - used ring))
    × (mem' : List ℕ) × HoldsIn r' 4 mem'
    × (held_bytes r' 4 mem' ≡ held_bytes ring 4 ring_memory ++ take n (9 ∷ 10 ∷ 11 ∷ []))
ring_enqueue_appends_example = ring_enqueue_appends ring-IsValid (9 ∷ 10 ∷ 11 ∷ []) 3 (omega arith)

ring_dequeue_takes_example :
    let (n, out, r') = ring_dequeue ring 4 true 5 in
    (n ≡ min 5 (used ring))
    × (out ≡ take n (held_bytes ring 4 ring_memory))
    × HoldsIn r' 4 ring_memory
    × (held_bytes r' 4 ring_memory ≡ drop n (held_bytes ring 4 ring_memory))
ring_dequeue_takes_example = ring_dequeue_takes ring-IsValid 5

-- a header of an interface descriptor, and one that is cut short
abbrev descriptors : List ℕ
descriptors = 3 ∷ 4 ∷ 0 ∷ 2 ∷ 5 ∷ 9 ∷ []

abbrev walker : DescIter
walker = record {
  buf = some descriptors;
  len = 6;
  pos = 3;
  off = 0;
  blen = 3;
  btype = 4;
  err = no_error;
}

walker-IsValid : WalkIsValid walker descriptors
walker-IsValid = record {
  at = refl;
  held = omega arith;
  small = omega arith;
  pos_in = omega arith;
  current_in = omega arith;
}

walk_fills_example : Returns (Covers 0 6) (walk 7 (desc_iter_init (some descriptors) 6))
walk_fills_example = walk_fills descriptors (omega arith)

abbrev port : Port
port = record { tx = sender; tx_carry = 0 ∷ 0 ∷ 0 ∷ []; tx_carry_len = 0 }

abbrev sends : Sends
sends = record { sent = []; tx_converted = 0; tx_malformed = 0 }

send_run_sends_example :
    let (port', g') =
      send_run (port, sends) 0x100 0 (0xf0 ∷ 1 ∷ []) ((2 ∷ 3 ∷ 4 ∷ 5 ∷ []) ∷ []) (0xf7 ∷ []) room in
    (port'.tx_carry_len ≡ 0)
    × (g'.sent ≡ tag 0x100 (packets_of 0 (0xf0 ∷ 1 ∷ 2 ∷ 3 ∷ 4 ∷ 5 ∷ 0xf7 ∷ [])))
    × (g'.tx_malformed ≡ 0)
unfolding all_fit
send_run_sends_example =
    send_run_sends port sends 0x100 0 (0xf0 ∷ 1 ∷ []) ((2 ∷ 3 ∷ 4 ∷ 5 ∷ []) ∷ []) (0xf7 ∷ []) room
      refl refl refl

ms_parse-IsWithin_example : Returns (λ (ret, info). IsWithin info) (ms_parse (some descriptors) 6)
ms_parse-IsWithin_example = ms_parse-IsWithin descriptors (omega arith)

abbrev two_jacks : MsInfo
two_jacks = record zero_info {
  endpoints =
      record { address = 0x81; attributes = 2; max_packet_size = 64; embedded_ids = 3 ∷ 4 ∷ [] }
      ∷ [];
}

ports_from_ms_all_example :
    ports_from_ms (some two_jacks) ≡ (1, take 32 (all_ports two_jacks.endpoints))
ports_from_ms_all_example = ports_from_ms_all two_jacks

send_run_heard_example :
    let (port', g') =
      send_run (port, sends) 0x100 0 (0xf0 ∷ 1 ∷ []) ((2 ∷ 3 ∷ 4 ∷ 5 ∷ []) ∷ []) (0xf7 ∷ []) room in
    (packets : List (List ℕ)) × (g'.sent ≡ tag 0x100 packets)
    × (view (deliver fresh packets) ≡ pieces false (0xf0 ∷ 1 ∷ 2 ∷ 3 ∷ 4 ∷ 5 ∷ 0xf7 ∷ []))
unfolding all_fit
send_run_heard_example =
    send_run_heard port sends 0x100 (0xf0 ∷ 1 ∷ []) ((2 ∷ 3 ∷ 4 ∷ 5 ∷ []) ∷ []) (0xf7 ∷ []) room
      refl refl refl fresh-IsIdle (omega arith) refl
