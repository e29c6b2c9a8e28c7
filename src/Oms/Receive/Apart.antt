-- ===== src/Oms/Receive/Apart.antt =====
-- One Event Packet in a drain of oms/oms_rx.c: for the port of its cable, and for another.
use mathlib.Core.Path.{subst}
use usbmidi.Prelude.{
  if_true, if_false, pick, leb, ◌==◌, Bool-cases, get_or, ℕ, ◌/◌, ◌%◌, ◌≡◌, sym, ap, ◌∙◌, ◌≢◌, inl,
  inr, true, false, List, ◌++◌, arith,
}
use usbmidi.Rx.{RxMsg}
use usbmidi.Stream.{deliver_one}
use usbmidi.Oms.{OmsPort, oms_cables, put_at}
use usbmidi.Oms.Receive.{Flow, is_negative, opened, pass_all, drain_packet}
use usbmidi.Oms.Receive.Idle.{pass_all-ports}
use usbmidi.Oms.Receive.Cable.{
  IsTied, for_port, packets_for, packets_for-same, pass_all-mine, pass_all-other,
}

put_at_self {ℓ} : {A : Type ℓ} (f : ℕ → A) (i : ℕ) (x : A) → put_at f i x i ≡ x
put_at_self f i x = if_true (i == i) x (f i) (ground arith)

put_at_ne {ℓ} : {A : Type ℓ} (f : ℕ → A) (i j : ℕ) (x : A) → j ≢ i → put_at f i x j ≡ f j
put_at_ne f i j x ne = if_false (j == i) x (f j) (ground (arith, ne))

abbrev pub cable_of : List ℕ → ℕ
cable_of buf = get_or buf 0 0 / 16 % 16

in_range : (buf : List ℕ) → leb oms_cables (cable_of buf) ≡ false
in_range buf = ground arith

opened_in_use : (port : OmsPort) (cable : ℕ) → port.valid ≡ true → opened port cable ≡ port
unfolding opened
opened_in_use port cable e = if_true port.valid port _ e

-- A port that is opened here has no reference number.
opened-apart :
    (port : OmsPort) (cable ref : ℕ)
    → is_negative ref ≡ false
    → port.io_ref_num ≢ ref
    → (opened port cable).io_ref_num ≢ ref
unfolding opened
opened-apart port cable ref open_ref ne = elim (Bool-cases port.valid) [
  | inl e ↦ rw e ne
  | inr e ↦ rw e (λ same. absurd (ground (arith, same, open_ref)))
]

-- what a drain of one Event Packet of the cable of a port does to the port, and of another cable
pub record Mine (ref : ℕ) (f f' : Flow) (buf : List ℕ) (k : ℕ) : Type 0 where
  pub tied : IsTied f'.ports k ref
  pub rx : (f'.ports k).rx ≡ (deliver_one (f.ports k).rx buf).1
  pub calls :
      for_port ref f'.delivered
      ≡ for_port ref f.delivered ++ packets_for (f.ports k) (deliver_one (f.ports k).rx buf).0

pub record Other (ref : ℕ) (f f' : Flow) (k : ℕ) : Type 0 where
  pub tied : IsTied f'.ports k ref
  pub port : f'.ports k ≡ f.ports k
  pub calls : for_port ref f'.delivered ≡ for_port ref f.delivered

module _ (routine ref : ℕ) (hooked : routine ≢ 0) (open_ref : is_negative ref ≡ false) where
  -- the port behind the packet
  abbrev heard : Flow → List ℕ → OmsPort
  heard f buf =
      let port = opened (f.ports (cable_of buf)) (cable_of buf) in
      record port { rx = (deliver_one port.rx buf).1 }

  abbrev kept : Flow → List ℕ → Flow
  kept f buf = record f { ports = put_at f.ports (cable_of buf) (heard f buf) }

  abbrev messages_of : Flow → List ℕ → List RxMsg
  messages_of f buf = (deliver_one (opened (f.ports (cable_of buf)) (cable_of buf)).rx buf).0

  drain_packet_taken :
      (f : Flow) (buf : List ℕ)
      → drain_packet true routine f buf
        ≡ pass_all true routine (heard f buf) (kept f buf) (messages_of f buf)
  unfolding drain_packet
  drain_packet_taken f buf = if_false (leb oms_cables (cable_of buf)) _ _ (in_range buf)

  drain_packet-ports :
      (f : Flow) (buf : List ℕ)
      → (drain_packet true routine f buf).ports ≡ put_at f.ports (cable_of buf) (heard f buf)
  drain_packet-ports f buf =
      ap (λ (g : Flow). g.ports) (drain_packet_taken f buf)
      ∙ pass_all-ports true routine (heard f buf) (kept f buf) (messages_of f buf)

  pub drain_packet-Mine :
      (f : Flow) (buf : List ℕ)
      → IsTied f.ports (cable_of buf) ref
      → Mine ref f (drain_packet true routine f buf) buf (cable_of buf)
  drain_packet-Mine f buf t =
      let c = cable_of buf in
      let same : opened (f.ports c) c ≡ f.ports c = opened_in_use (f.ports c) c t.in_use in
      let here : (drain_packet true routine f buf).ports c ≡ heard f buf =
        ap (λ (ps : ℕ → OmsPort). ps c) (drain_packet-ports f buf)
        ∙ put_at_self f.ports c (heard f buf) in
      let ref_here : (heard f buf).io_ref_num ≡ ref =
        ap (λ (p : OmsPort). p.io_ref_num) same ∙ t.tied in
      record {
        tied = record {
          in_use =
              ap (λ (p : OmsPort). p.valid)
                (here ∙ ap (λ (p : OmsPort). record p { rx = (deliver_one p.rx buf).1 }) same)
              ∙ t.in_use;
          tied = ap (λ (p : OmsPort). p.io_ref_num) here ∙ ref_here;
          apart = λ j ne e. t.apart j ne (
              sym (
                ap (λ (ps : ℕ → OmsPort). (ps j).io_ref_num) (drain_packet-ports f buf)
                ∙ ap (λ (p : OmsPort). p.io_ref_num) (put_at_ne f.ports c j (heard f buf) ne))
              ∙ e);
        };
        rx = ap (λ (p : OmsPort). p.rx) here ∙ ap (λ (p : OmsPort). (deliver_one p.rx buf).1) same;
        calls =
            ap (λ (g : Flow). for_port ref g.delivered) (drain_packet_taken f buf)
            ∙ pass_all-mine routine ref hooked open_ref (heard f buf) (kept f buf)
                (messages_of f buf) ref_here
            ∙ ap (◌++◌ (for_port ref f.delivered)) (
                packets_for-same (heard f buf) (f.ports c) (messages_of f buf)
                  (ap (λ (p : OmsPort). p.io_ref_num) same)
                ∙ ap (λ (p : OmsPort). packets_for (f.ports c) (deliver_one p.rx buf).0) same);
      }

  pub drain_packet-Other :
      (f : Flow) (buf : List ℕ) (k : ℕ)
      → IsTied f.ports k ref
      → k ≢ cable_of buf
      → Other ref f (drain_packet true routine f buf) k
  drain_packet-Other f buf k t ne =
      let c = cable_of buf in
      let away : (heard f buf).io_ref_num ≢ ref =
        opened-apart (f.ports c) c ref open_ref (t.apart c (λ e. ne (sym e))) in
      let there : (drain_packet true routine f buf).ports k ≡ f.ports k =
        ap (λ (ps : ℕ → OmsPort). ps k) (drain_packet-ports f buf)
        ∙ put_at_ne f.ports c k (heard f buf) ne in
      record {
        tied = record {
          in_use = ap (λ (p : OmsPort). p.valid) there ∙ t.in_use;
          tied = ap (λ (p : OmsPort). p.io_ref_num) there ∙ t.tied;
          apart = λ j nk.
              subst (λ (ps : ℕ → OmsPort). (ps j).io_ref_num ≢ ref) (sym (drain_packet-ports f buf))
                (pick (λ (p : OmsPort). p.io_ref_num ≢ ref) (j == c) (heard f buf) (f.ports j) away
                  (t.apart j nk));
        };
        port = there;
        calls =
            ap (λ (g : Flow). for_port ref g.delivered) (drain_packet_taken f buf)
            ∙ pass_all-other routine ref hooked open_ref (heard f buf) (kept f buf)
                (messages_of f buf) away;
      }
