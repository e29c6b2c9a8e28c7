-- ===== src/Oms/Receive/Kept.antt =====
-- What the drains of oms/oms_rx.c leave as it was.
use mathlib.Core.Path.{subst}
use usbmidi.Prelude.{
  Returns-map, if_Returns, then_Returns, leb, Returns, ◌==◌, if◌then◌else◌, Bool-cases, ℕ, zero,
  suc, ◌+◌, ◌≡◌, refl, sym, ap, ◌∙◌, ◌⊎◌, inl, inr, Bool, true, false, not, Option, none, some,
  List, arith,
}
use usbmidi.Oms.{Table, Shim, oms_max_interfaces, OmsPacket}
use usbmidi.Oms.Receive.{
  Flow, rx_drain, drain_chunk, drain_rounds, flow_of, put_flow, drain_fuel, drain_from,
  drain_all_from, drain_all_of, rx_drain_all,
}
use usbmidi.Oms.Receive.Drained.{IsSource, drain_rounds_keeps}
use usbmidi.Oms.Receive.Idle.{drain_chunk-silent}

-- a table, if there is one, that the driver can rely on
abbrev pub SourceOf : {D : Type 0} → (D → ℕ → List ℕ) → Option (Table D) → Type 0
SourceOf held none = Unit
SourceOf held (some table) = IsSource table held

-- Behind a drain the ports and the counters of reception are others; and if the drain does not
-- deliver, OMS has not been called.
pub record Kept {D : Type 0} (deliver : Bool) (s s' : Shim D) : Type 0 where
  pub table : s'.oms.table ≡ s.oms.table
  pub device_ref : s'.oms.device_ref ≡ s.oms.device_ref
  pub started : s'.oms.midi_started ≡ s.oms.midi_started
  pub installed : s'.oms.notifier_installed ≡ s.oms.notifier_installed
  pub registered : s'.oms.callback_registered ≡ s.oms.callback_registered
  pub upp : s'.oms.send_upp ≡ s.oms.send_upp
  pub valid : (i : ℕ) → (s'.oms.ifaces i).valid ≡ (s.oms.ifaces i).valid
  pub silent : (deliver ≡ true) ⊎ (s'.delivered ≡ s.delivered)

pub Kept-refl : {D : Type 0} (deliver : Bool) (s : Shim D) → Kept deliver s s
Kept-refl deliver s = record {
  table = refl;
  device_ref = refl;
  started = refl;
  installed = refl;
  registered = refl;
  upp = refl;
  valid = λ i. refl;
  silent = inr refl;
}

pub Kept-trans :
    {D : Type 0} {deliver : Bool} {s t u : Shim D}
    → Kept deliver s t
    → Kept deliver t u
    → Kept deliver s u
Kept-trans a b = record {
  table = b.table ∙ a.table;
  device_ref = b.device_ref ∙ a.device_ref;
  started = b.started ∙ a.started;
  installed = b.installed ∙ a.installed;
  registered = b.registered ∙ a.registered;
  upp = b.upp ∙ a.upp;
  valid = λ i. b.valid i ∙ a.valid i;
  silent = elim a.silent [
    | inl d ↦ inl d
    | inr same ↦ elim b.silent [ inl d ↦ inl d | inr same' ↦ inr (same' ∙ same) ]
  ];
}

pub put_flow-Kept :
    {D : Type 0} (deliver : Bool) (s : Shim D) (index : ℕ) (r : (Flow × ℕ) × D)
    → (deliver ≡ true) ⊎ (r.0.0.delivered ≡ s.delivered)
    → Kept deliver s (put_flow s index r)
put_flow-Kept deliver s index r silent = record {
  table = refl;
  device_ref = refl;
  started = refl;
  installed = refl;
  registered = refl;
  upp = refl;
  valid = λ i. elim (Bool-cases (i == index)) [
    | inl e ↦
        let same : index ≡ i = ground (arith, e) in rw e (ap (λ m. (s.oms.ifaces m).valid) same)
    | inr e ↦ rw e refl
  ];
  silent = silent;
}

chunk-silent :
    (deliver : Bool) (routine : ℕ) (g : Flow × ℕ) (bytes : List ℕ) (l : List (OmsPacket × ℕ))
    → (deliver ≡ true) ⊎ (g.0.delivered ≡ l)
    → (deliver ≡ true) ⊎ ((drain_chunk deliver routine g bytes).0.delivered ≡ l)
chunk-silent true routine g bytes l h = inl refl
chunk-silent false routine g bytes l (inl e) = inl e
chunk-silent false routine g bytes l (inr e) = inr (drain_chunk-silent routine g bytes ∙ e)

module _ {D : Type 0} (held : D → ℕ → List ℕ) where
  drain_from-Kept :
      (table : Option (Table D)) (index : ℕ) (deliver : Bool) (s : Shim D)
      → SourceOf held table
      → Returns (Kept deliver s) (drain_from table index deliver s)
  unfolding drain_from
  drain_from-Kept none index deliver s h = Kept-refl deliver s
  drain_from-Kept (some table) index deliver s h =
      if_Returns (Kept deliver s) (not (s.oms.ifaces index).valid) _ _ (λ _. Kept-refl deliver s)
        (λ _.
          then_Returns (λ r. (deliver ≡ true) ⊎ (r.0.0.delivered ≡ s.delivered)) (Kept deliver s)
            (drain_rounds deliver s.oms.rx_routine drain_fuel table index (flow_of s index)
              s.driver)
            _
            (drain_rounds_keeps (λ g. (deliver ≡ true) ⊎ (g.0.delivered ≡ s.delivered)) deliver
              s.oms.rx_routine drain_fuel index (flow_of s index) s.driver h
              (omega (arith, h.bounded s.driver index))
              (λ g bytes k. chunk-silent deliver s.oms.rx_routine g bytes s.delivered k) (inr refl))
            (λ r silent. put_flow-Kept deliver s index r silent))

  pub rx_drain-Kept :
      (index : ℕ) (deliver : Bool) (s : Shim D)
      → SourceOf held s.oms.table
      → Returns (Kept deliver s) (rx_drain index deliver s)
  unfolding rx_drain
  rx_drain-Kept index deliver s h =
      if_Returns (Kept deliver s) (leb oms_max_interfaces index) _ _ (λ _. Kept-refl deliver s)
        (λ _. drain_from-Kept s.oms.table index deliver s h)

  drain_all_from-Kept :
      (i n : ℕ) (deliver : Bool) (s : Shim D)
      → SourceOf held s.oms.table
      → Returns (Kept deliver s) (drain_all_from i n deliver s)
  unfolding drain_all_from
  drain_all_from-Kept i zero deliver s h = Kept-refl deliver s
  drain_all_from-Kept i (suc n) deliver s h =
      then_Returns (Kept deliver s) (Kept deliver s)
        (if (s.oms.ifaces i).valid then rx_drain i deliver s else some s) _
        (if_Returns (Kept deliver s) (s.oms.ifaces i).valid _ _ (λ _. rx_drain-Kept i deliver s h)
          (λ _. Kept-refl deliver s))
        (λ s' k.
          Returns-map (Kept deliver s') (Kept deliver s) (drain_all_from (i + 1) n deliver s')
            (drain_all_from-Kept (i + 1) n deliver s' (subst (SourceOf held) (sym k.table) h))
            (λ u k'. Kept-trans k k'))

  drain_all_of-Kept :
      (t : Option (Table D)) (deliver : Bool) (s : Shim D)
      → SourceOf held s.oms.table
      → Returns (Kept deliver s) (drain_all_of t deliver s)
  unfolding drain_all_of
  drain_all_of-Kept none deliver s h = Kept-refl deliver s
  drain_all_of-Kept (some table) deliver s h = drain_all_from-Kept 0 oms_max_interfaces deliver s h

  pub rx_drain_all-Kept :
      (deliver : Bool) (s : Shim D)
      → SourceOf held s.oms.table
      → Returns (Kept deliver s) (rx_drain_all deliver s)
  unfolding rx_drain_all
  rx_drain_all-Kept deliver s h = drain_all_of-Kept s.oms.table deliver s h
