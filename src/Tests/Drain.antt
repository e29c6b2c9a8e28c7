-- ===== src/Tests/Drain.antt =====
-- The theorems on the ports of a drain applied to concrete values.
use usbmidi.Prelude.{
  Each, IsBytes, Returns, take, replicate, ℕ, zero, suc, ◌≡◌, refl, ◌≢◌, true, false, some, List,
  [], ◌∷◌, ◌++◌, arith,
}
use usbmidi.Stream.{deliver}
use usbmidi.Stream.Listen.{IsIdle}
use usbmidi.Oms.{OmsPort, OmsPacket}
use usbmidi.Oms.Lifecycle.{zero_port}
use usbmidi.Oms.Receive.{Flow, drain_rounds}
use usbmidi.Oms.Receive.Cable.{IsTied, for_port, of_cable, packets_for}
use usbmidi.Oms.Receive.Split.{drain_splits}
use usbmidi.Oms.Receive.Typed.{IsOmsPacket, drain_gives_packets}
use usbmidi.Tx.{TxStream, tx_message, tx_sysex, tx_middle}
use usbmidi.Tx.Sysex.{IsSysex}
use usbmidi.Stream.RoundTrip.{pieces}
use usbmidi.Oms.Receive.Message.{sysex_reaches_oms, oms_view, flagged}
use usbmidi.Tests.Oms.{held_of, source, source-IsSource, received_bytes}

abbrev busy : OmsPort
busy = record zero_port { valid = true; io_ref_num = 5 }

-- the port of cable 0 is in use, and no other
abbrev pub one_port : ℕ → OmsPort
one_port zero = busy
one_port (suc cable) = zero_port

other_ports : (j : ℕ) → j ≢ 0 → (one_port j).io_ref_num ≢ 5
other_ports zero ne = absurd (ne refl)
other_ports (suc j) ne = ground arith

pub one_port-IsTied : IsTied one_port 0 5
one_port-IsTied = record { in_use = refl; tied = refl; apart = other_ports }

busy-IsIdle : IsIdle busy.rx
busy-IsIdle = record {
  valid = record { slots = refl; head_in = omega arith; count_in = omega arith };
  nothing = refl;
}

abbrev flow : Flow
flow = record { ports = one_port; messages = 0; dropped = 0; delivered = [] }

drain_splits_example :
    Returns
      (λ (r : (Flow × ℕ) × List ℕ).
        for_port 5 r.0.0.delivered
        ≡ [] ++ packets_for busy (deliver busy.rx (of_cable 0 (held_of received_bytes 0))))
      (drain_rounds true 1 10 source 0 (flow, 0) received_bytes)
drain_splits_example =
    drain_splits 1 5 (ground arith) refl 10 0 flow 0 received_bytes 0 source-IsSource (omega arith)
      (omega arith) one_port-IsTied

drain_gives_packets_example :
    Returns
      (λ (r : (Flow × ℕ) × List ℕ).
        (new : List OmsPacket) × (for_port 5 r.0.0.delivered ≡ [] ++ new)
        × Each (IsOmsPacket 5) new)
      (drain_rounds true 1 10 source 0 (flow, 0) received_bytes)
drain_gives_packets_example =
    drain_gives_packets 1 5 10 0 flow 0 received_bytes 0 (ground arith) refl source-IsSource
      (omega arith) (omega arith) one_port-IsTied busy-IsIdle
      (omega arith, (omega arith, (omega arith, (omega arith, (omega arith, tt)))))

-- a SysEx message in two Event Packets of cable 0, with a Note On of cable 1 between them
abbrev run_of_two : List ℕ
run_of_two = 240 ∷ 1 ∷ 2 ∷ 247 ∷ []

abbrev mixed_bytes : List ℕ
mixed_bytes = 4 ∷ 240 ∷ 1 ∷ 2 ∷ 26 ∷ 144 ∷ 60 ∷ 100 ∷ 6 ∷ 247 ∷ 0 ∷ 0 ∷ []

abbrev blank_rows : List (List ℕ)
blank_rows = replicate 2 (0 ∷ 0 ∷ 0 ∷ 0 ∷ [])

abbrev device_tx : TxStream
device_tx = zero_port.send.tx

run_of_two-IsSysex : IsSysex run_of_two
run_of_two-IsSysex = record { starts = refl; two = omega arith; ends = refl }

as_sent :
    let (sent, _, out') = tx_message device_tx 0 (some run_of_two) 4 blank_rows 2 in
    of_cable 0 (held_of mixed_bytes 0) ≡ take sent out'
unfolding tx_message tx_sysex tx_middle
as_sent = refl

mixed_bytes-IsBytes : IsBytes mixed_bytes
mixed_bytes-IsBytes = (
  omega arith,
  (
    omega arith,
    (
      omega arith,
      (
        omega arith,
        (
          omega arith,
          (
            omega arith,
            (
              omega arith,
              (omega arith, (omega arith, (omega arith, (omega arith, (omega arith, tt))))),
            ),
          ),
        ),
      ),
    ),
  ),
)

sysex_reaches_oms_example :
    Returns
      (λ (r : (Flow × ℕ) × List ℕ).
        (new : List OmsPacket) × (for_port 5 r.0.0.delivered ≡ [] ++ new)
        × (oms_view new ≡ flagged (pieces false run_of_two)))
      (drain_rounds true 1 20 source 0 (flow, 0) mixed_bytes)
sysex_reaches_oms_example =
    sysex_reaches_oms 1 5 20 0 flow 0 mixed_bytes 0 device_tx 2 run_of_two blank_rows (ground arith)
      refl source-IsSource (omega arith) (omega arith) one_port-IsTied busy-IsIdle refl
      (omega arith) mixed_bytes-IsBytes run_of_two-IsSysex (omega arith) (omega arith) as_sent
