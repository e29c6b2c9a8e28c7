-- ===== src/Rx/Queue.antt =====
-- The pending queue of `um9_rx_stream`: sixteen slots used round.
use usbmidi.Prelude.{
  leb, if◌then◌else◌, Bool-cases, length, get_or, set, length-set, get_or-set_self, get_or-set_ne,
  ℕ, zero, suc, ◌+◌, ◌-◌, ◌%◌, ◌≤◌, ◌<◌, ◌≡◌, refl, ap, ap₂, ◌≢◌, inl, inr, List, [], ◌∷◌, ◌++◌,
  arith,
}
use usbmidi.Packets.{Packet}
use usbmidi.Rx.{RxMsg, RxStream, Sysex, rx_queue, empty_slot, message_of, rx_enqueue}

pub record IsValid (s : RxStream) : Type 0 where
  pub slots : length s.pending ≡ rx_queue
  pub head_in : s.head < rx_queue
  pub count_in : s.count ≤ rx_queue

-- the `n` messages from slot `h` on
abbrev pub queued : List RxMsg → ℕ → ℕ → List RxMsg
queued pending h zero = []
queued pending h (suc n) = get_or pending h empty_slot ∷ queued pending ((h + 1) % rx_queue) n

abbrev pub contents : RxStream → List RxMsg
contents s = queued s.pending s.head s.count

length-queued : (pending : List RxMsg) (h n : ℕ) → length (queued pending h n) ≡ n
length-queued pending h zero = refl
length-queued pending h (suc n) = ap suc (length-queued pending ((h + 1) % rx_queue) n)

pub length-contents : (s : RxStream) → length (contents s) ≡ s.count
length-contents s = length-queued s.pending s.head s.count

-- the code tests `count == 0`, and `queued` matches on `suc`
pub queued_of_ne_zero :
    (pending : List RxMsg) (h n : ℕ)
    → n ≢ 0
    → queued pending h n ≡ get_or pending h empty_slot ∷ queued pending ((h + 1) % rx_queue) (n - 1)
queued_of_ne_zero pending h zero p = absurd (p refl)
queued_of_ne_zero pending h (suc n) p = ap (λ k. queued pending h (suc k)) (omega arith)

-- A write just behind the queue extends it.
queued-set :
    (pending : List RxMsg) (m : RxMsg) (n h i : ℕ)
    → length pending ≡ rx_queue
    → h < rx_queue
    → n < rx_queue
    → i ≡ (h + n) % rx_queue
    → queued (set pending i m) h (suc n) ≡ queued pending h n ++ (m ∷ [])
queued-set pending m zero h i l hh hn e =
    let e' : i ≡ h = omega arith in rw (e', get_or-set_self pending h m empty_slot (omega arith))
queued-set pending m (suc n) h i l hh hn e =
    ap₂ ◌∷◌ (get_or-set_ne pending m empty_slot (omega arith))
      (queued-set pending m n ((h + 1) % rx_queue) i l (omega arith) (omega arith) (omega arith))

pub rx_enqueue-contents :
    {s : RxStream} (pkt : Packet) (t : Sysex)
    → IsValid s
    → contents (rx_enqueue s pkt t)
      ≡ (if leb rx_queue s.count then contents s else contents s ++ message_of pkt t ∷ [])
unfolding rx_enqueue
rx_enqueue-contents {s} pkt t v = elim (Bool-cases (leb rx_queue s.count)) [
  | inl full ↦ rw full
  | inr room ↦
      let next : (s.count + 1) % 256 ≡ suc s.count = ground arith in
      rw (room, next)
        (queued-set s.pending (message_of pkt t) s.count s.head ((s.head + s.count) % rx_queue)
          v.slots v.head_in (ground arith) refl)
]

pub rx_enqueue-IsValid :
    {s : RxStream} (pkt : Packet) (t : Sysex) → IsValid s → IsValid (rx_enqueue s pkt t)
unfolding rx_enqueue
rx_enqueue-IsValid {s} pkt t v =
    ground (arith, length-set s.pending ((s.head + s.count) % rx_queue) (message_of pkt t))

pub rx_enqueue-in_sysex :
    (s : RxStream) (pkt : Packet) (t : Sysex) → (rx_enqueue s pkt t).in_sysex ≡ s.in_sysex
unfolding rx_enqueue
rx_enqueue-in_sysex s pkt t = ground arith

pub rx_enqueue-cable :
    (s : RxStream) (pkt : Packet) (t : Sysex) → (rx_enqueue s pkt t).cable ≡ s.cable
unfolding rx_enqueue
rx_enqueue-cable s pkt t = ground arith
