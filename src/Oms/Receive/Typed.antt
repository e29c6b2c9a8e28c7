-- ===== src/Oms/Receive/Typed.antt =====
-- The OMS packets of oms/oms_rx.c are well formed, whatever a device sends.
use mathlib.Core.Path.{subst}
use usbmidi.Prelude.{
  Each, Each-append, IsBytes, Returns-map, pick, ltb, Returns, ◌==◌, if◌then◌else◌, word, length,
  drop, ℕ, zero, suc, ◌/◌, ◌%◌, ◌≤◌, ◌<◌, ◌≡◌, refl, sym, ◌≢◌, true, false, List, [], ◌∷◌, ◌++◌,
  arith,
}
use usbmidi.Rx.{RxMsg, Sysex}
use usbmidi.Stream.Listen.{deliver-listen, IsIdle}
use usbmidi.Oms.{Table, OmsPort, OmsPacket}
use usbmidi.Oms.Receive.{Flow, cont_flags, is_negative, build_packet, drain_rounds}
use usbmidi.Oms.Receive.Drained.{IsSource}
use usbmidi.Oms.Receive.Split.{drain_splits}
use usbmidi.Stream.{deliver}
use usbmidi.Oms.Receive.Cable.{packets_for, for_port, of_cable, IsTied}
use usbmidi.Stream.Short.{IsShort, listen-IsShort}

-- An `OMSPacket` for the port `ref`: a continuation flag, one to three bytes of four, zeros behind
-- them, and no reference constant.
pub record IsOmsPacket (ref : ℕ) (p : OmsPacket) : Type 0 where
  pub flag : p.flags < 4
  pub some_bytes : 0 < p.len
  pub short : p.len ≤ 3
  pub four : length p.data_bytes ≡ 4
  pub in_range : IsBytes p.data_bytes
  pub zeros : Each (λ b. b ≡ 0) (drop p.len p.data_bytes)
  pub from : p.src_io_ref_num ≡ ref
  pub no_con : p.app_conn_ref_con ≡ 0

cont_flags-lt : (sysex : Sysex) → cont_flags sysex < 4
cont_flags-lt Sysex.whole = omega arith
cont_flags-lt Sysex.start = omega arith
cont_flags-lt Sysex.mid = omega arith
cont_flags-lt Sysex.end = omega arith

kept_byte : (i n b : ℕ) → b < 256 → (if ltb i n then b else 0) < 256
kept_byte i n b lt = pick (λ x. x < 256) (ltb i n) b 0 lt (omega arith)

zero_tail :
    (n a b c : ℕ)
    → 0 < n
    → n ≤ 3
    → Each
        (λ x. x ≡ 0)
        (drop n (
          (if ltb 0 n then a else 0)
          ∷ (if ltb 1 n then b else 0)
          ∷ (if ltb 2 n then c else 0)
          ∷ 0
          ∷ []))
zero_tail zero a b c pos le = absurd (omega (arith, pos))
zero_tail (suc zero) a b c pos le = (refl, (refl, (refl, tt)))
zero_tail (suc (suc zero)) a b c pos le = (refl, (refl, tt))
zero_tail (suc (suc (suc zero))) a b c pos le = (refl, tt)
zero_tail (suc (suc (suc (suc n)))) a b c pos le = absurd (omega (arith, le))

build_packet-IsOmsPacket :
    (port : OmsPort) (m : RxMsg) → IsShort m → IsOmsPacket port.io_ref_num (build_packet port m)
unfolding build_packet
build_packet-IsOmsPacket port m h = record {
  flag = cont_flags-lt m.sysex;
  some_bytes = omega (arith, h.some_bytes, h.short);
  short = omega (arith, h.short);
  four = refl;
  in_range = (
    kept_byte 0 m.len m.data0 h.byte0,
    (kept_byte 1 m.len m.data1 h.byte1, (kept_byte 2 m.len m.data2 h.byte2, (omega arith, tt))),
  );
  zeros =
      let fits : m.len ≡ m.len % 256 = omega (arith, h.short) in
      subst (λ n. Each (λ b. b ≡ 0) (drop n (build_packet port m).data_bytes)) fits
        (zero_tail m.len m.data0 m.data1 m.data2 h.some_bytes h.short);
  from = refl;
  no_con = refl;
}

packets_for-IsOmsPacket :
    (port : OmsPort) (ms : List RxMsg)
    → Each IsShort ms
    → Each (IsOmsPacket port.io_ref_num) (packets_for port ms)
packets_for-IsOmsPacket port [] h = tt
packets_for-IsOmsPacket port (m ∷ ms) h =
    (build_packet-IsOmsPacket port m h.0, packets_for-IsOmsPacket port ms h.1)

pub of_cable-IsBytes : (k : ℕ) (bytes : List ℕ) → IsBytes bytes → Each IsBytes (of_cable k bytes)
of_cable-IsBytes k [] h = tt
of_cable-IsBytes k (a ∷ []) h = tt
of_cable-IsBytes k (a ∷ b ∷ []) h = tt
of_cable-IsBytes k (a ∷ b ∷ c ∷ []) h = tt
of_cable-IsBytes k (a ∷ b ∷ c ∷ d ∷ rest) (ha, (hb, (hc, (hd, more)))) =
    Each-append IsBytes (if a / 16 % 16 == k then (a ∷ b ∷ c ∷ d ∷ []) ∷ [] else [])
      (of_cable k rest)
      (pick (Each IsBytes) (a / 16 % 16 == k) ((a ∷ b ∷ c ∷ d ∷ []) ∷ []) []
        ((ha, (hb, (hc, (hd, tt)))), tt) tt)
      (of_cable-IsBytes k rest more)

-- Whatever bytes the class driver holds, a drain that delivers gives OMS for a port, in use and idle
-- before, under the reference number that is its alone, only well-formed packets behind those that it
-- had been given: a continuation flag from 0 to 3, one to three bytes in range, zeros behind them,
-- and the reference number of the port.
pub drain_gives_packets :
    {D : Type 0} {table : Table D} {held : D → ℕ → List ℕ} (routine ref fuel index : ℕ) (f : Flow)
    (packets : ℕ) (d : D) (k : ℕ)
    → routine ≢ 0
    → is_negative ref ≡ false
    → IsSource table held
    → packets < word
    → length (held d index) < fuel
    → IsTied f.ports k ref
    → IsIdle (f.ports k).rx
    → IsBytes (held d index)
    → Returns
        (λ (r : (Flow × ℕ) × D).
          (new : List OmsPacket) × (for_port ref r.0.0.delivered ≡ for_port ref f.delivered ++ new)
          × Each (IsOmsPacket ref) new)
        (drain_rounds true routine fuel table index (f, packets) d)
drain_gives_packets {D} {table = table} {held = held} routine ref fuel index f packets d k hooked
      open_ref s small lt t idle h =
    let port = f.ports k in
    let bufs = of_cable k (held d index) in
    let ms = deliver port.rx bufs in
    let short : Each IsShort ms =
      subst (Each IsShort) (sym (deliver-listen bufs idle)) (
        listen-IsShort port.rx.cable port.rx.in_sysex bufs (of_cable-IsBytes k (held d index) h)) in
    let typed : Each (IsOmsPacket ref) (packets_for port ms) =
      subst (λ r. Each (IsOmsPacket r) (packets_for port ms)) t.tied
        (packets_for-IsOmsPacket port ms short) in
    let given = λ (r : (Flow × ℕ) × D).
      for_port ref r.0.0.delivered ≡ for_port ref f.delivered ++ packets_for port ms in
    let typed_calls = λ (r : (Flow × ℕ) × D).
      (new : List OmsPacket) × (for_port ref r.0.0.delivered ≡ for_port ref f.delivered ++ new)
      × Each (IsOmsPacket ref) new in
    Returns-map given typed_calls (drain_rounds true routine fuel table index (f, packets) d)
      (drain_splits routine ref hooked open_ref fuel index f packets d k s small lt t)
      (λ r e. (packets_for port ms, e, typed))
