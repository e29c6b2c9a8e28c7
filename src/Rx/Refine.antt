-- ===== src/Rx/Refine.antt =====
-- A receive stream of core/midi_stream.c behaves as the queue and flag of `Rx.Spec`.
use usbmidi.Prelude.{
  ltb, ◌==◌, if◌then◌else◌, Bool-cases, all_below, all_below_sound, get_or, ℕ, ◌%◌, ◌<◌, ◌≡◌, refl,
  ap, ap₂, ◌∙◌, ◌≢◌, inl, inr, Bool, true, false, not, ◌&&◌, ◌||◌, Option, some, List, [], ◌∷◌,
  arith,
}
use usbmidi.Packets.{cin_data_length, Packet, packet_of, packet_size}
use usbmidi.Rx.{
  whole, start, mid, end, RxStream, Sysex, message_of, rx_enqueue, rx_feed, rx_start, rx_end,
  RxStats, rx_packet, rx_message, RxMsg, counted,
}
use usbmidi.Rx.Queue.{
  IsValid, contents, length-contents, rx_enqueue-contents, rx_enqueue-in_sysex, queued_of_ne_zero,
  rx_enqueue-cable, rx_enqueue-IsValid,
}
use usbmidi.Rx.Spec.{pop, packet, message, feed, offer, Line, run_spec, Op}

abbrev pub line : RxStream → Line
line s = record { run = s.in_sysex; queue = contents s }

length_table : all_below 16 (λ c. ltb 0 (cin_data_length c) || c == 0) ≡ true
unfolding all_below cin_data_length
length_table = refl

-- Of the code index numbers only 0 carries no byte.
pub cin_data_length-pos : (cin : ℕ) → cin < 16 → cin_data_length cin ≡ 0 → cin ≡ 0
cin_data_length-pos cin h e = ground (arith, all_below_sound 16 _ cin length_table h)

pub packet_of-carries : (buf : List ℕ) → let pkt = packet_of buf in pkt.length ≡ 0 → pkt.cin ≡ 0
unfolding packet_of
packet_of-carries buf e = cin_data_length-pos (get_or buf 0 0 % 16) (omega arith) e

rx_enqueue-line :
    (s : RxStream) (pkt : Packet) (t : Sysex)
    → IsValid s
    → line (rx_enqueue s pkt t)
      ≡ record { run = s.in_sysex; queue = offer (contents s) (message_of pkt t) }
unfolding offer
rx_enqueue-line s pkt t v =
    let queue : contents (rx_enqueue s pkt t) ≡ offer (contents s) (message_of pkt t) =
      rw (length-contents s) (rx_enqueue-contents pkt t v) in
    λ i. record { run = rx_enqueue-in_sysex s pkt t i; queue = queue i }

-- The same where the packet has already changed the flag and the counters.
rx_enqueue-line_after :
    (s : RxStream) (run : Bool) (stats : RxStats) (pkt : Packet) (t : Sysex)
    → IsValid s
    → line (rx_enqueue (record s { in_sysex = run; stats = stats }) pkt t)
      ≡ record { run = run; queue = offer (contents s) (message_of pkt t) }
rx_enqueue-line_after s run stats pkt t v =
    rx_enqueue-line (record s { in_sysex = run; stats = stats }) pkt t
      (record { slots = v.slots; head_in = v.head_in; count_in = v.count_in })

rx_start-line :
    (s : RxStream) (pkt : Packet)
    → IsValid s
    → let (s', t) = rx_start s pkt in
      line (rx_enqueue s' pkt t) ≡ record {
        run = true;
        queue = offer (contents s) (message_of pkt (if s.in_sysex then mid else start));
      }
unfolding rx_start
rx_start-line s pkt v = elim (Bool-cases s.in_sysex) [
  | inl open_run ↦ rw open_run (rx_enqueue-line_after s true s.stats pkt mid v)
  | inr closed ↦ rw closed (rx_enqueue-line_after s true _ pkt start v)
]

rx_end-line :
    (s : RxStream) (pkt : Packet)
    → IsValid s
    → pkt.length ≢ 0
    → let (s', t) = rx_end s pkt in
      line (rx_enqueue s' pkt t) ≡ record {
        run = false;
        queue =
            offer (contents s) (
              message_of pkt
                (if s.in_sysex then end else if pkt.data0 == 0xf0 then whole else end));
      }
unfolding rx_end
rx_end-line s pkt v ne =
    let e : (if not s.in_sysex && ltb 0 pkt.length && pkt.data0 == 0xf0 then whole else end)
        ≡ (if s.in_sysex then end else if pkt.data0 == 0xf0 then whole else end) =
      ground arith in
    rx_enqueue-line_after s false _ pkt _ v
    ∙ ap (λ t. record { run = false; queue = offer (contents s) (message_of pkt t) }) e

-- Feeding one decoded packet is what `Rx.Spec.feed` says.
pub rx_feed-line :
    (s : RxStream) (pkt : Packet)
    → IsValid s
    → (pkt.length ≡ 0 → pkt.cin ≡ 0)
    → line (rx_feed s pkt) ≡ feed s.cable (line s) pkt
unfolding rx_feed feed
rx_feed-line s pkt v carries =
    ground (arith, rx_start-line s pkt v, rx_end-line s pkt v, rx_enqueue-line s pkt whole v)

rx_start-IsValid : {s : RxStream} (pkt : Packet) → IsValid s → IsValid (rx_start s pkt).0
unfolding rx_start
rx_start-IsValid pkt v = ground arith

rx_end-IsValid : {s : RxStream} (pkt : Packet) → IsValid s → IsValid (rx_end s pkt).0
unfolding rx_end
rx_end-IsValid pkt v = ground arith

pub rx_feed-IsValid : {s : RxStream} (pkt : Packet) → IsValid s → IsValid (rx_feed s pkt)
unfolding rx_feed
rx_feed-IsValid {s} pkt v = ground (
  arith,
  rx_enqueue-IsValid pkt whole v,
  rx_enqueue-IsValid pkt (rx_start s pkt).1 (rx_start-IsValid pkt v),
  rx_enqueue-IsValid pkt (rx_end s pkt).1 (rx_end-IsValid pkt v),
)

pub rx_feed-cable : (s : RxStream) (pkt : Packet) → (rx_feed s pkt).cable ≡ s.cable
unfolding rx_feed
rx_feed-cable s pkt = ground (
  arith,
  rx_enqueue-cable s pkt whole,
  rx_enqueue-cable (rx_start s pkt).0 pkt (rx_start s pkt).1,
  rx_enqueue-cable (rx_end s pkt).0 pkt (rx_end s pkt).1,
)

-- On a well-formed stream every packet of four bytes is taken: the result is 1, the stream stays
-- well formed and on its cable, and its flag and queue change as `Rx.Spec.feed` says.
pub rx_packet_refines :
    {s : RxStream} (buf : List ℕ)
    → IsValid s
    → let (ret, s') = rx_packet s (some buf) packet_size in
      (ret ≡ 1)
      × IsValid s'
      × (s'.cable ≡ s.cable)
      × (line s' ≡ feed s.cable (line s) (packet_of buf))
unfolding rx_packet
rx_packet_refines {s} buf v =
    let v' : IsValid (counted s) = record {
      slots = v.slots;
      head_in = v.head_in;
      count_in = v.count_in;
    } in
    (
      refl,
      rx_feed-IsValid (packet_of buf) v',
      rx_feed-cable (counted s) (packet_of buf),
      rx_feed-line (counted s) (packet_of buf) v' (packet_of-carries buf),
    )

-- On a well-formed stream `um9_rx_message` takes the oldest message off, or returns none from an
-- empty queue; the stream stays well formed, with its cable and its flag.
pub rx_message_refines :
    {s : RxStream}
    → IsValid s
    → let (m, s') = rx_message s in
      IsValid s'
      × (s'.cable ≡ s.cable)
      × (s'.in_sysex ≡ s.in_sysex)
      × ((m, contents s') ≡ pop (contents s))
unfolding rx_message pop
rx_message_refines {s} v = ground (arith, queued_of_ne_zero s.pending s.head s.count)

-- a client's calls in order, and what its calls of `um9_rx_message` return
unfoldable pub run : RxStream → List Op → List (Option RxMsg)
run s [] = []
run s (packet buf ∷ ops) = run (rx_packet s (some buf) packet_size).1 ops
run s (message ∷ ops) = let (m, s') = rx_message s in m ∷ run s' ops

-- From a well-formed stream, any sequence of calls of `um9_rx_packet` with four bytes and of
-- `um9_rx_message` returns the messages that the abstract flag and queue of `Rx.Spec` return.
pub run_refines :
    (ops : List Op) {s : RxStream} → IsValid s → run s ops ≡ run_spec s.cable (line s) ops
unfolding run run_spec
run_refines [] v = refl
run_refines (packet buf ∷ ops) {s} v =
    let (_, v', c, l) = rx_packet_refines buf v in
    run_refines ops v' ∙ ap₂ (λ c l. run_spec c l ops) c l
run_refines (message ∷ ops) {s} v =
    let (v', c, f, e) = rx_message_refines v in
    ap₂ ◌∷◌ (ap (λ r. r.0) e)
      (run_refines ops v' ∙ (λ i. run_spec (c i) (record { run = f i; queue = (e i).1 }) ops))
