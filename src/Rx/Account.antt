-- ===== src/Rx/Account.antt =====
-- Every packet that a receive stream of core/midi_stream.c is fed is accounted for.
use usbmidi.Prelude.{word, ℕ, ◌+◌, ◌%◌, ◌≤◌, ◌≡◌, refl, Option, none, some, List, arith}
use usbmidi.Packets.{Packet, packet_of}
use usbmidi.Rx.{
  whole, RxStream, rx_queue, rx_init, rx_enqueue, rx_start, rx_end, rx_feed, counted, rx_packet,
  rx_message, Sysex,
}
use usbmidi.Rx.Queue.{IsValid}
use usbmidi.Rx.Refine.{packet_of-carries}

-- delivered, waiting, or in one of the drop counters
abbrev pub accounted : RxStream → ℕ
accounted s =
    s.stats.messages + s.count + s.stats.dropped_misc + s.stats.dropped_cable + s.stats.dropped_full
    + s.stats.dropped_misroute

-- The counters wrap at 32 bits, so the balance is kept modulo that.
abbrev pub Balanced : RxStream → Type 0
Balanced s = s.stats.packets % word ≡ accounted s % word

-- A stream that was just initialised is balanced.
pub rx_init-Balanced : (s : RxStream) (cable : ℕ) → Balanced (rx_init s cable)
unfolding rx_init
rx_init-Balanced s cable = refl

-- one packet more on the left or on the right
abbrev Moved : RxStream → RxStream → Type 0
Moved s t = (t.stats.packets ≡ s.stats.packets) × (accounted t % word ≡ (accounted s + 1) % word)

rx_enqueue-Moved :
    (s : RxStream) (pkt : Packet) (t : Sysex) → s.count ≤ rx_queue → Moved s (rx_enqueue s pkt t)
unfolding rx_enqueue
rx_enqueue-Moved s pkt t v = ground arith

rx_start-same :
    (s : RxStream) (pkt : Packet)
    → let t = (rx_start s pkt).0 in
      (t.stats.packets ≡ s.stats.packets) × (accounted t ≡ accounted s) × (t.count ≡ s.count)
unfolding rx_start
rx_start-same s pkt = ground arith

rx_end-same :
    (s : RxStream) (pkt : Packet)
    → let t = (rx_end s pkt).0 in
      (t.stats.packets ≡ s.stats.packets) × (accounted t ≡ accounted s) × (t.count ≡ s.count)
unfolding rx_end
rx_end-same s pkt = ground arith

rx_feed-Moved :
    (s : RxStream) (pkt : Packet)
    → s.count ≤ rx_queue
    → (pkt.length ≡ 0 → pkt.cin ≡ 0)
    → Moved s (rx_feed s pkt)
unfolding rx_feed
rx_feed-Moved s pkt v carries = ground (
  arith,
  rx_enqueue-Moved s pkt whole,
  rx_enqueue-Moved (rx_start s pkt).0 pkt (rx_start s pkt).1,
  rx_start-same s pkt,
  rx_enqueue-Moved (rx_end s pkt).0 pkt (rx_end s pkt).1,
  rx_end-same s pkt,
)

-- In a well-formed and balanced stream, the number of packets fed is, modulo 2^32, that of the
-- messages delivered and waiting and of the packets in the drop counters; `um9_rx_packet` and
-- `um9_rx_message` keep this, whatever bytes a packet holds.
pub rx_packet-Balanced :
    {s : RxStream} (buf : Option (List ℕ)) (len : ℕ)
    → IsValid s
    → Balanced s
    → Balanced (rx_packet s buf len).1 × Balanced (rx_message s).1
unfolding rx_packet rx_message
rx_packet-Balanced {s} none len v b = ground arith
rx_packet-Balanced {s} (some buf) len v b =
    ground (arith, rx_feed-Moved (counted s) (packet_of buf), packet_of-carries buf)
