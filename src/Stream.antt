-- ===== src/Stream.antt =====
-- The two halves of core/midi_stream.c used together, as oms/oms_rx.c uses the receive half: each
-- packet is fed, and the stream is then read until it is empty.
pub mod Listen
pub mod Short
pub mod RoundTrip
pub mod Fixed
pub mod Realtime
pub mod Nibble
use usbmidi.Prelude.{take, ℕ, zero, suc, none, some, List, [], ◌∷◌, ◌++◌}
use usbmidi.Packets.{packet_size}
use usbmidi.Rx.{RxMsg, RxStream, rx_packet, rx_message}

-- `for (;;) { if (um9_rx_message(...) != 1) break; ... }` on `fuel` rounds
unfoldable pub take_all : ℕ → RxStream → List RxMsg × RxStream
take_all zero s = ([], s)
take_all (suc fuel) s =
    let (m, s') = rx_message s in
    let rest = take_all fuel s' in elim m [ none ↦ ([], s') | some m' ↦ (m' ∷ rest.0, rest.1) ]

-- The queue holds sixteen messages, so seventeen rounds empty it.
unfoldable pub deliver_one : RxStream → List ℕ → List RxMsg × RxStream
deliver_one s buf = take_all 17 (rx_packet s (some buf) packet_size).1

unfoldable pub deliver : RxStream → List (List ℕ) → List RxMsg
deliver s [] = []
deliver s (buf ∷ bufs) = let (ms, s') = deliver_one s buf in ms ++ deliver s' bufs

-- the valid bytes of a message
abbrev pub payload : RxMsg → List ℕ
payload m = take m.len (m.data0 ∷ m.data1 ∷ m.data2 ∷ [])

abbrev pub payloads : List RxMsg → List ℕ
payloads [] = []
payloads (m ∷ ms) = payload m ++ payloads ms
