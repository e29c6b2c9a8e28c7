-- ===== src/Stream/Listen.antt =====
-- What a stream that is emptied after each packet delivers, without its queue.
use usbmidi.Prelude.{
  Option-cases, ℕ, zero, suc, ◌+◌, ◌<◌, ◌≡◌, refl, sym, ap, ap₂, ◌∙◌, inl, inr, Bool, none, some,
  List, [], ◌∷◌, ◌++◌, append_assoc, arith,
}
use usbmidi.Packets.{packet_of, packet_size}
use usbmidi.Rx.{RxMsg, RxStream, rx_message, rx_packet}
use usbmidi.Rx.Queue.{IsValid, contents, queued, queued_of_ne_zero}
use usbmidi.Rx.Refine.{line, rx_packet_refines, rx_message_refines}
use usbmidi.Rx.Spec.{Line, feed}
use usbmidi.Stream.{take_all, deliver_one, deliver}

-- one packet, heard with an empty queue
abbrev pub heard : ℕ → Bool → List ℕ → Line
heard cable run buf = feed cable (record { run = run; queue = [] }) (packet_of buf)

unfoldable pub listen : ℕ → Bool → List (List ℕ) → List RxMsg
listen cable run [] = []
listen cable run (buf ∷ bufs) =
    (heard cable run buf).queue ++ listen cable (heard cable run buf).run bufs

-- the flag behind the packets
unfoldable pub open_after : ℕ → Bool → List (List ℕ) → Bool
open_after cable run [] = run
open_after cable run (buf ∷ bufs) = open_after cable (heard cable run buf).run bufs

-- A stream with nothing queued.
pub record IsIdle (s : RxStream) : Type 0 where
  pub valid : IsValid s
  pub nothing : contents s ≡ []

record Emptied (s : RxStream) (out : List RxMsg × RxStream) : Type 0 where
  idle : IsIdle out.1
  all : out.0 ≡ contents s
  same : (out.1.cable ≡ s.cable) × (out.1.in_sysex ≡ s.in_sysex)

rx_message-none :
    {s : RxStream}
    → IsValid s
    → (rx_message s).0 ≡ none
    → ((rx_message s).1 ≡ s) × (contents s ≡ [])
unfolding rx_message
rx_message-none {s} v h =
    let none_left : s.count ≡ 0 = ground arith in
    (rw none_left, ap (queued s.pending s.head) none_left)

rx_message-some :
    {s : RxStream} {m : RxMsg}
    → IsValid s
    → (rx_message s).0 ≡ some m
    → ((rx_message s).1.count + 1 ≡ s.count) × (contents s ≡ m ∷ contents (rx_message s).1)
unfolding rx_message
rx_message-some {s} v h = ground (arith, queued_of_ne_zero s.pending s.head s.count)

take_all-none :
    (fuel : ℕ) (s : RxStream)
    → (rx_message s).0 ≡ none
    → take_all (suc fuel) s ≡ ([], (rx_message s).1)
unfolding take_all
take_all-none fuel s h = ground arith

take_all-some :
    (fuel : ℕ) (s : RxStream) (m : RxMsg)
    → (rx_message s).0 ≡ some m
    → let rest = take_all fuel (rx_message s).1 in take_all (suc fuel) s ≡ (m ∷ rest.0, rest.1)
unfolding take_all
take_all-some fuel s m h = ground arith

-- Read on until nothing is left, with more rounds than there are messages.
take_all-Emptied :
    (fuel : ℕ) {s : RxStream} → IsValid s → s.count < fuel → Emptied s (take_all fuel s)
take_all-Emptied zero v h = absurd (omega arith)
take_all-Emptied (suc fuel) {s} v h = elim (Option-cases (rx_message s).0) [
  | inl e ↦
      let (same, none_left) = rx_message-none v e in
      rw (take_all-none fuel s e) (
        rw same (record {
          idle = record { valid = v; nothing = none_left };
          all = sym none_left;
          same = (refl, refl);
        }))
  | inr (m, e) ↦
      let (fewer, first) = rx_message-some v e in
      let (v', c, f, _) = rx_message_refines v in
      let rest = take_all-Emptied fuel v' (omega arith) in
      rw (take_all-some fuel s m e) (record {
        idle = rest.idle;
        all = ap (◌∷◌ m) rest.all ∙ sym first;
        same = (rest.same.0 ∙ c, rest.same.1 ∙ f);
      })
]

-- One packet, fed to an idle stream and read off again.
pub record DeliversOne (s : RxStream) (buf : List ℕ) (out : List RxMsg × RxStream) : Type 0 where
  pub idle : IsIdle out.1
  pub messages : out.0 ≡ (heard s.cable s.in_sysex buf).queue
  pub same_cable : out.1.cable ≡ s.cable
  pub flag : out.1.in_sysex ≡ (heard s.cable s.in_sysex buf).run

pub deliver_one-heard :
    {s : RxStream} (buf : List ℕ) → IsIdle s → DeliversOne s buf (deliver_one s buf)
unfolding deliver_one
deliver_one-heard {s} buf idle =
    let (_, v, c, l) = rx_packet_refines buf idle.valid in
    let e = take_all-Emptied 17 v (omega (arith, v.count_in)) in
    let spec : line (rx_packet s (some buf) packet_size).1 ≡ heard s.cable s.in_sysex buf =
      rw idle.nothing at l in
    record {
      idle = e.idle;
      messages = e.all ∙ ap (λ k. k.queue) spec;
      same_cable = e.same.0 ∙ c;
      flag = e.same.1 ∙ ap (λ k. k.run) spec;
    }

-- What an idle stream delivers for any list of packets is what the abstract listener hears from
-- its cable and its flag alone.
pub deliver-listen :
    (bufs : List (List ℕ)) {s : RxStream}
    → IsIdle s
    → deliver s bufs ≡ listen s.cable s.in_sysex bufs
unfolding deliver listen
deliver-listen [] idle = refl
deliver-listen (buf ∷ bufs) {s} idle =
    let one = deliver_one-heard buf idle in
    ap₂ ◌++◌ one.messages
      (deliver-listen bufs one.idle ∙ (λ i. listen (one.same_cable i) (one.flag i) bufs))

pub listen-append :
    (cable : ℕ) (run : Bool) (xs ys : List (List ℕ))
    → listen cable run (xs ++ ys) ≡ listen cable run xs ++ listen cable (open_after cable run xs) ys
unfolding listen open_after
listen-append cable run [] ys = refl
listen-append cable run (x ∷ xs) ys =
    ap (λ l. (heard cable run x).queue ++ l) (listen-append cable (heard cable run x).run xs ys)
    ∙ sym (append_assoc (heard cable run x).queue _ _)
