-- ===== src/Oms/Receive/Split.antt =====
-- A drain of oms/oms_rx.c takes the cables apart: each port gets what its own stream makes of the
-- Event Packets of its cable.
use mathlib.Core.Path.{subst}
use native.Mathlib.Decide.{ℕ_discrete}
use usbmidi.Prelude.{
  if_true, if_false, pick, Returns, ◌==◌, word, length, ℕ, ◌+◌, ◌%◌, ◌<◌, ◌≡◌, refl, sym, ap, ap₂,
  ◌∙◌, ◌≢◌, true, false, not, List, [], ◌∷◌, ◌++◌, append-nil, append_assoc, arith,
}
use usbmidi.Rx.{RxStream}
use usbmidi.Stream.{deliver_one, deliver}
use usbmidi.Oms.{OmsPort, Table}
use usbmidi.Oms.Receive.{Flow, is_negative, drain_packet, drain_packets, drain_chunk, drain_rounds}
use usbmidi.Oms.Receive.Drained.{IsSource, drain_takes_all}
use usbmidi.Oms.Receive.Cable.{
  IsTied, for_port, of_cable, packets_for, packets_for-append, packets_for-same,
}
use usbmidi.Oms.Receive.Apart.{Mine, cable_of, drain_packet-Mine, drain_packet-Other}

module _ (routine ref : ℕ) (hooked : routine ≢ 0) (open_ref : is_negative ref ≡ false) where
  drain_packets_split :
      (f : Flow) (bytes : List ℕ) (k : ℕ)
      → IsTied f.ports k ref
      → for_port ref (drain_packets true routine f bytes).delivered
        ≡ for_port ref f.delivered
          ++ packets_for (f.ports k) (deliver (f.ports k).rx (of_cable k bytes))
  unfolding drain_packets deliver
  drain_packets_split f [] k t = sym (append-nil (for_port ref f.delivered))
  drain_packets_split f (a ∷ []) k t = sym (append-nil (for_port ref f.delivered))
  drain_packets_split f (a ∷ b ∷ []) k t = sym (append-nil (for_port ref f.delivered))
  drain_packets_split f (a ∷ b ∷ c ∷ []) k t = sym (append-nil (for_port ref f.delivered))
  drain_packets_split f (a ∷ b ∷ c ∷ d ∷ rest) k t =
      let buf = a ∷ b ∷ c ∷ d ∷ [] in
      let f' = drain_packet true routine f buf in
      let rx = (f.ports k).rx in
      let goal = λ (l : List (List ℕ)).
        for_port ref f.delivered ++ packets_for (f.ports k) (deliver rx (l ++ of_cable k rest)) in
      elim (ℕ_discrete (cable_of buf) k) [
        | yes e ↦
            let m : Mine ref f f' buf k = subst (Mine ref f f' buf) e (
              drain_packet-Mine routine ref hooked open_ref f buf
                (subst (λ j. IsTied f.ports j ref) (sym e) t)) in
            let first = (deliver_one rx buf).0 in
            let more = deliver (deliver_one rx buf).1 (of_cable k rest) in
            drain_packets_split f' rest k m.tied
            ∙ ap₂ ◌++◌ m.calls (
                packets_for-same (f'.ports k) (f.ports k)
                  (deliver (f'.ports k).rx (of_cable k rest)) (m.tied.tied ∙ sym t.tied)
                ∙ ap (λ (x : RxStream). packets_for (f.ports k) (deliver x (of_cable k rest))) m.rx)
            ∙ append_assoc (for_port ref f.delivered) (packets_for (f.ports k) first) _
            ∙ ap (◌++◌ (for_port ref f.delivered)) (sym (packets_for-append (f.ports k) first more))
            ∙ sym (ap goal (if_true (cable_of buf == k) (buf ∷ []) [] (ground (arith, e))))
        | no ne ↦
            let o = drain_packet-Other routine ref hooked open_ref f buf k t (λ e. ne (sym e)) in
            drain_packets_split f' rest k o.tied
            ∙ ap₂ (λ l (p : OmsPort). l ++ packets_for p (deliver p.rx (of_cable k rest))) o.calls
                o.port
            ∙ sym (ap goal (if_false (cable_of buf == k) (buf ∷ []) [] (ground (arith, ne))))
      ]

  drain_chunk-delivered :
      (f : Flow) (packets : ℕ) (bytes : List ℕ)
      → (drain_chunk true routine (f, packets) bytes).0.delivered
        ≡ (drain_packets true routine f bytes).delivered
  unfolding drain_chunk
  drain_chunk-delivered f packets bytes =
      let f' = drain_packets true routine f bytes in
      pick (λ (g : Flow). g.delivered ≡ f'.delivered) (not (length bytes % 4 == 0))
        (record f' { dropped = (f'.dropped + length bytes % 4) % word }) f' refl refl

  -- A drain that delivers takes the cables apart. What OMS gets for a port that is in use with a
  -- reference number that is not negative and that no other port of the interface has, is what
  -- the stream of the port makes of the Event Packets of its cable among all bytes held, one OMS
  -- packet for each message, in order: neither the packets of other cables between them nor the
  -- chunks of the drain make a difference.
  pub drain_splits :
      {D : Type 0} {table : Table D} {held : D → ℕ → List ℕ} (fuel index : ℕ) (f : Flow)
      (packets : ℕ) (d : D) (k : ℕ)
      → IsSource table held
      → packets < word
      → length (held d index) < fuel
      → IsTied f.ports k ref
      → Returns
          (λ (r : (Flow × ℕ) × D).
            for_port ref r.0.0.delivered
            ≡ for_port ref f.delivered
              ++ packets_for (f.ports k) (deliver (f.ports k).rx (of_cable k (held d index))))
          (drain_rounds true routine fuel table index (f, packets) d)
  drain_splits {held = held} fuel index f packets d k s small lt t =
      let (d', _, done) = drain_takes_all true routine fuel index f packets d s small lt in
      let all =
        for_port ref f.delivered
        ++ packets_for (f.ports k) (deliver (f.ports k).rx (of_cable k (held d index))) in
      subst (Returns (λ r. for_port ref r.0.0.delivered ≡ all)) (sym done) (
        ap (for_port ref) (drain_chunk-delivered f packets (held d index))
        ∙ drain_packets_split f (held d index) k t)
