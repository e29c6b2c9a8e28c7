-- ===== src/Oms/Send/Heard.antt =====
-- The send hook of oms/oms_tx.c against the receive half of core/midi_stream.c.
use usbmidi.Prelude.{
  length, get_or, ℕ, ◌≤◌, ◌<◌, ◌≡◌, ap, ◌∙◌, true, false, List, [], ◌∷◌, ◌++◌, arith,
}
use usbmidi.Packets.{max_cable}
use usbmidi.Rx.{RxStream}
use usbmidi.Stream.{deliver}
use usbmidi.Stream.Listen.{IsIdle, deliver-listen, listen}
use usbmidi.Stream.RoundTrip.{pieces, view, listen-packets_of}
use usbmidi.Tx.Sysex.{packets_of}
use usbmidi.Oms.Send.{Port, Sends}
use usbmidi.Oms.Send.Run.{tag}
use usbmidi.Oms.Send.Whole.{send_run, all_fit, whole_of, send_run_sends}

first_pos :
    (first : List ℕ) (rest : List (List ℕ)) (last : List ℕ)
    → get_or first 0 0 ≡ 0xf0
    → 0 < length (first ++ whole_of rest last)
first_pos [] rest last h = absurd (ground (arith, h))
first_pos (x ∷ xs) rest last h = omega arith

-- What the send hook emits for a SysEx message in chunks, of one to four bytes each, is delivered by
-- an idle stream of the port's cable as the whole message, in the pieces of three bytes that do
-- not depend on how OMS cut it.
pub send_run_heard :
    (port : Port) (g : Sends) (port_code : ℕ) (first : List ℕ) (rest : List (List ℕ))
    (last : List ℕ) (out : List (List ℕ)) {s : RxStream}
    → port.tx_carry_len ≡ 0
    → get_or first 0 0 ≡ 0xf0
    → all_fit (first ∷ last ∷ rest) ≡ true
    → IsIdle s
    → s.cable ≤ max_cable
    → s.in_sysex ≡ false
    → let (port', g') = send_run (port, g) port_code s.cable first rest last out in
      (packets : List (List ℕ)) × (g'.sent ≡ g.sent ++ tag port_code packets)
      × (view (deliver s packets) ≡ pieces false (first ++ whole_of rest last))
send_run_heard port g port_code first rest last out {s} z f0 fit idle c quiet =
    let run = send_run_sends port g port_code s.cable first rest last out z f0 fit in
    let msg = first ++ whole_of rest last in
    (
      packets_of s.cable msg,
      run.1,
      ap view (deliver-listen (packets_of s.cable msg) idle)
          ∙ ap (λ b. view (listen s.cable b (packets_of s.cable msg))) quiet
          ∙ listen-packets_of s.cable false msg (omega arith) (first_pos first rest last f0),
    )
