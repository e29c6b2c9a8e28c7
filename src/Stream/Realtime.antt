-- ===== src/Stream/Realtime.antt =====
-- Complete messages between the packets of a SysEx run (core/midi_stream.h: "Realtime messages
-- interleaved inside a SysEx run").
use usbmidi.Prelude.{==_iff, ℕ, ◌≡◌, ap, ◌∙◌, Bool, true, List, [], ◌∷◌, ◌++◌}
use usbmidi.Packets.{packet_of}
use usbmidi.Packets.Codec.{is_single}
use usbmidi.Rx.{RxStream, RxMsg, whole, message_of}
use usbmidi.Rx.Spec.{feed, hear}
use usbmidi.Stream.{deliver}
use usbmidi.Stream.Listen.{IsIdle, heard, listen, open_after, deliver-listen, listen-append}
use usbmidi.Stream.Fixed.{kind-is_single}

heard_single :
    (cable : ℕ) (run : Bool) (buf : List ℕ)
    → (packet_of buf).cable ≡ cable
    → is_single (packet_of buf).cin ≡ true
    → heard cable run buf ≡ record { run = run; queue = message_of (packet_of buf) whole ∷ [] }
unfolding feed hear
heard_single cable run buf c h =
    rw ((==_iff (packet_of buf).cable cable).1 c, kind-is_single (packet_of buf).cin h)

-- A packet for the cable of an idle stream that is a complete message by its CIN is delivered as
-- one message of its own, wherever it stands between the packets of the stream; what is
-- delivered before and behind it is the same as without it.
pub single_between :
    (xs ys : List (List ℕ)) (buf : List ℕ) {s : RxStream}
    → IsIdle s
    → (packet_of buf).cable ≡ s.cable
    → is_single (packet_of buf).cin ≡ true
    → (after : List RxMsg) × (deliver s (xs ++ ys) ≡ deliver s xs ++ after)
      × (deliver s (xs ++ buf ∷ ys) ≡ deliver s xs ++ message_of (packet_of buf) whole ∷ after)
unfolding listen
single_between xs ys buf {s} idle c h =
    let run = open_after s.cable s.in_sysex xs in
    let one = heard_single s.cable run buf c h in
    (
      listen s.cable run ys,
      rw (deliver-listen (xs ++ ys) idle, deliver-listen xs idle)
          (listen-append s.cable s.in_sysex xs ys),
      rw (deliver-listen (xs ++ buf ∷ ys) idle, deliver-listen xs idle)
          (listen-append s.cable s.in_sysex xs (buf ∷ ys)
            ∙ ap (λ l. listen s.cable s.in_sysex xs ++ (l.queue ++ listen s.cable l.run ys)) one),
    )
