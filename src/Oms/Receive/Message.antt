-- ===== src/Oms/Receive/Message.antt =====
-- A SysEx message on its way through oms/oms_rx.c: what OMS gets of it.
use mathlib.Core.Path.{subst}
use usbmidi.Prelude.{
  Each, IsBytes, Returns-map, ltb, Returns, if◌then◌else◌, word, length, take, ℕ, zero, suc, ◌%◌,
  ◌≤◌, ◌<◌, ◌≡◌, refl, sym, ap, ap₂, ◌∙◌, ◌≢◌, true, false, some, List, [], ◌∷◌, ◌++◌, arith,
}
use usbmidi.Packets.{max_cable}
use usbmidi.Rx.{whole, start, mid, end, RxMsg, Sysex}
use usbmidi.Tx.{TxStream, tx_message}
use usbmidi.Tx.Sysex.{IsSysex, packet_count}
use usbmidi.Stream.{deliver, payload}
use usbmidi.Stream.Listen.{IsIdle, deliver-listen}
use usbmidi.Stream.Short.{IsShort, listen-IsShort}
use usbmidi.Stream.RoundTrip.{pieces, view, sysex_round_trip}
use usbmidi.Oms.{OmsPort, OmsPacket, Table}
use usbmidi.Oms.Receive.{Flow, cont_flags, build_packet, is_negative, drain_rounds}
use usbmidi.Oms.Receive.Drained.{IsSource}
use usbmidi.Oms.Receive.Split.{drain_splits}
use usbmidi.Oms.Receive.Cable.{IsTied, for_port, of_cable, packets_for}
use usbmidi.Oms.Receive.Typed.{of_cable-IsBytes}

-- the bytes and the continuation flag of each packet
abbrev pub oms_view : List OmsPacket → List (List ℕ × ℕ)
oms_view [] = []
oms_view (p ∷ ps) = (take p.len p.data_bytes, p.flags) ∷ oms_view ps

-- `omsNoCont`, `omsStartCont`, `omsMidCont` and `omsEndCont` of OMS.h
abbrev pub oms_flag : Sysex → ℕ
oms_flag whole = 0
oms_flag start = 1
oms_flag mid = 3
oms_flag end = 2

-- pieces with the flags of OMS for their tags
abbrev pub flagged : List (List ℕ × Sysex) → List (List ℕ × ℕ)
flagged [] = []
flagged ((bytes, tag) ∷ rest) = (bytes, oms_flag tag) ∷ flagged rest

short_bytes :
    (n a b c : ℕ)
    → n ≤ 3
    → take n (
        (if ltb 0 n then a else 0)
        ∷ (if ltb 1 n then b else 0)
        ∷ (if ltb 2 n then c else 0)
        ∷ 0
        ∷ [])
      ≡ take n (a ∷ b ∷ c ∷ [])
short_bytes zero a b c le = refl
short_bytes (suc zero) a b c le = refl
short_bytes (suc (suc zero)) a b c le = refl
short_bytes (suc (suc (suc zero))) a b c le = refl
short_bytes (suc (suc (suc (suc n)))) a b c le = absurd (omega (arith, le))

build_packet-payload :
    (port : OmsPort) (m : RxMsg)
    → IsShort m
    → take (build_packet port m).len (build_packet port m).data_bytes ≡ payload m
unfolding build_packet
build_packet-payload port m h =
    let fits : m.len % 256 ≡ m.len = omega (arith, h.short) in
    ap (λ n. take n (build_packet port m).data_bytes) fits
    ∙ short_bytes m.len m.data0 m.data1 m.data2 h.short

cont_flags-eq-oms_flag : (tag : Sysex) → cont_flags tag ≡ oms_flag tag
cont_flags-eq-oms_flag whole = refl
cont_flags-eq-oms_flag start = refl
cont_flags-eq-oms_flag mid = refl
cont_flags-eq-oms_flag end = refl

build_packet-flags : (port : OmsPort) (m : RxMsg) → (build_packet port m).flags ≡ oms_flag m.sysex
unfolding build_packet
build_packet-flags port m = cont_flags-eq-oms_flag m.sysex

oms_view-packets_for :
    (port : OmsPort) (ms : List RxMsg)
    → Each IsShort ms
    → oms_view (packets_for port ms) ≡ flagged (view ms)
oms_view-packets_for port [] h = refl
oms_view-packets_for port (m ∷ ms) h =
    ap₂ ◌∷◌
      (ap₂ (λ bytes flags. (bytes, flags)) (build_packet-payload port m h.0)
        (build_packet-flags port m))
      (oms_view-packets_for port ms h.1)

-- If the Event Packets of one cable among the bytes held are those that `um9_tx_message` makes of a
-- SysEx message F0 ... F7, whatever stands between them for other cables, then a drain that delivers
-- gives OMS for the port of the cable, in use and idle with no SysEx open, under the reference number
-- that is its alone, exactly this message: in its pieces of three bytes, flagged as start, middle
-- and end, or as one whole packet if it has three bytes or fewer.
pub sysex_reaches_oms :
    {D : Type 0} {table : Table D} {held : D → ℕ → List ℕ} (routine ref fuel index : ℕ) (f : Flow)
    (packets : ℕ) (d : D) (k : ℕ) (tx : TxStream) (max_packets : ℕ) (msg : List ℕ)
    (out : List (List ℕ))
    → routine ≢ 0
    → is_negative ref ≡ false
    → IsSource table held
    → packets < word
    → length (held d index) < fuel
    → IsTied f.ports k ref
    → IsIdle (f.ports k).rx
    → (f.ports k).rx.in_sysex ≡ false
    → (f.ports k).rx.cable ≤ max_cable
    → IsBytes (held d index)
    → IsSysex msg
    → packet_count msg ≤ max_packets
    → max_packets ≤ length out
    → (let (sent, _, out') =
          tx_message tx (f.ports k).rx.cable (some msg) (length msg) out max_packets in
        of_cable k (held d index) ≡ take sent out')
    → Returns
        (λ (r : (Flow × ℕ) × D).
          (new : List OmsPacket) × (for_port ref r.0.0.delivered ≡ for_port ref f.delivered ++ new)
          × (oms_view new ≡ flagged (pieces false msg)))
        (drain_rounds true routine fuel table index (f, packets) d)
sysex_reaches_oms {D} {table = table} {held = held} routine ref fuel index f packets d k tx
      max_packets msg out hooked open_ref s small lt t idle closed cable h is_sysex enough room
      same =
    let port = f.ports k in
    let bufs = of_cable k (held d index) in
    let ms = deliver port.rx bufs in
    let short : Each IsShort ms =
      subst (Each IsShort) (sym (deliver-listen bufs idle)) (
        listen-IsShort port.rx.cable port.rx.in_sysex bufs (of_cable-IsBytes k (held d index) h)) in
    let whole_message : view ms ≡ pieces false msg =
      ap (λ b. view (deliver port.rx b)) same
      ∙ sysex_round_trip tx max_packets msg out idle cable closed is_sysex enough room in
    let given = λ (r : (Flow × ℕ) × D).
      for_port ref r.0.0.delivered ≡ for_port ref f.delivered ++ packets_for port ms in
    let goal = λ (r : (Flow × ℕ) × D).
      (new : List OmsPacket) × (for_port ref r.0.0.delivered ≡ for_port ref f.delivered ++ new)
      × (oms_view new ≡ flagged (pieces false msg)) in
    Returns-map given goal (drain_rounds true routine fuel table index (f, packets) d)
      (drain_splits routine ref hooked open_ref fuel index f packets d k s small lt t)
      (λ r e.
        (packets_for port ms, e, oms_view-packets_for port ms short ∙ ap flagged whole_message))
