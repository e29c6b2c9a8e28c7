-- ===== src/Rx/Spec.antt =====
-- What a receive stream promises: a state of one flag and a bounded queue of messages, and what
-- each Event Packet and each call of `um9_rx_message` does to it.
use usbmidi.Prelude.{
  ltb, leb, ◌==◌, if◌then◌else◌, length, ℕ, Bool, true, false, ◌&&◌, Option, none, some, List, [],
  ◌∷◌, ◌++◌,
}
use usbmidi.Packets.{Packet, packet_of}
use usbmidi.Rx.{RxMsg, Sysex, whole, start, mid, end, rx_queue, message_of}

-- What a code index number says of the bytes behind it.
pub data Kind : Type 0 where
  silent continued final single : Kind

unfoldable pub kind : ℕ → Kind
kind cin =
    if ltb cin 2
    then silent
    else if cin == 4
    then continued
    else if leb 6 cin && leb cin 8
    then final
    else single

-- whether a SysEx run is open behind a packet of this kind
unfoldable pub still_open : Kind → Bool → Bool
still_open continued run = true
still_open final run = false
still_open _ run = run

-- the tag of a message, from the kind, the open run and the first byte
unfoldable pub tag : Kind → Bool → ℕ → Sysex
tag continued run b = if run then mid else start
tag final run b = if run then end else if b == 0xf0 then whole else end
tag _ run b = whole

pub record Line : Type 0 where
  pub run : Bool
  pub queue : List RxMsg

-- a bounded queue that drops the newest message
unfoldable pub offer : List RxMsg → RxMsg → List RxMsg
offer queue m = if leb rx_queue (length queue) then queue else queue ++ m ∷ []

unfoldable pub hear : Kind → Line → Packet → Line
unfolding still_open tag offer
hear silent l pkt = l
hear k l pkt = record {
  run = still_open k l.run;
  queue = offer l.queue (message_of pkt (tag k l.run pkt.data0));
}

-- a packet for another cable is not heard
unfoldable pub feed : ℕ → Line → Packet → Line
unfolding hear kind
feed cable l pkt = if pkt.cable == cable then hear (kind pkt.cin) l pkt else l

unfoldable pub pop : List RxMsg → Option RxMsg × List RxMsg
pop [] = (none, [])
pop (m ∷ queue) = (some m, queue)

-- the calls of a client
pub data Op : Type 0 where
  packet : List ℕ → Op
  message : Op

-- what a client's calls of `um9_rx_message` return
unfoldable pub run_spec : ℕ → Line → List Op → List (Option RxMsg)
run_spec cable l [] = []
run_spec cable l (packet buf ∷ ops) = run_spec cable (feed cable l (packet_of buf)) ops
run_spec cable l (message ∷ ops) =
    let (m, queue) = pop l.queue in m ∷ run_spec cable (record l { queue = queue }) ops
