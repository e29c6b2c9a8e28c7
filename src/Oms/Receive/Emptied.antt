-- ===== src/Oms/Receive/Emptied.antt =====
-- oms/oms_rx.c: a drain of all interfaces leaves nothing behind in the class driver.
use mathlib.Core.Path.{subst}
use native.Mathlib.Decide.{ℕ_discrete}
use usbmidi.Prelude.{
  Ends, elim_Ends, Returns-map, if_Returns, then_Returns, leb, ◌>>=◌, Returns, ◌==◌, if◌then◌else◌,
  word, length, ℕ, zero, suc, ◌+◌, ◌≤◌, ◌<◌, ◌≡◌, refl, sym, ap, ◌∙◌, ◌≢◌, inl, Bool, true, not,
  some, List, [], arith,
}
use usbmidi.Oms.{Table, dequeue_chunk, oms_max_interfaces, Shim}
use usbmidi.Oms.Receive.{
  Flow, drain_chunk, drain_rounds, flow_of, put_flow, drain_fuel, drain_from, rx_drain,
  drain_all_from, drain_all_of, rx_drain_all,
}
use usbmidi.Oms.Receive.Drained.{IsSource, drain_takes_all}
use usbmidi.Oms.Receive.Whole.{drain_chunk-counted}
use usbmidi.Oms.Receive.Kept.{Kept-trans, Kept, put_flow-Kept, Kept-refl}

-- A dequeue for one interface leaves the bytes of the others.
abbrev pub IsApart : {D : Type 0} → Table D → (D → ℕ → List ℕ) → Type 0
IsApart {D} table held =
    (d : D) (i j n : ℕ) → j ≢ i → held (table.dequeue_bytes d i n).1 j ≡ held d j

module _ {D : Type 0} {table : Table D} {held : D → ℕ → List ℕ} (source : IsSource table held)
    (apart : IsApart table held) where
  drain_rounds-apart :
      (deliver : Bool) (routine fuel i j : ℕ) (f : Flow × ℕ) (d : D)
      → j ≢ i
      → Ends
          (λ (r : (Flow × ℕ) × D). held r.1 j ≡ held d j)
          (drain_rounds deliver routine fuel table i f d)
  unfolding drain_rounds
  drain_rounds-apart deliver routine zero i j f d ne = tt
  drain_rounds-apart deliver routine (suc fuel) i j f d ne =
      let (bytes, d1) = table.dequeue_bytes d i dequeue_chunk in
      let P = λ (e : D) (r : (Flow × ℕ) × D). held r.1 j ≡ held e j in
      let one : held d1 j ≡ held d j = apart d i j dequeue_chunk ne in
      let f1 = drain_chunk deliver routine f bytes in
      elim_Ends (P d) (length bytes == 0) (some (f, d1))
        (drain_rounds deliver routine fuel table i f1 d1) one
        (subst
          (λ l.
            Ends (λ (r : (Flow × ℕ) × D). held r.1 j ≡ l)
              (drain_rounds deliver routine fuel table i f1 d1))
          one (drain_rounds-apart deliver routine fuel i j f1 d1 ne))

  -- what a drain of interface `i` does to the bytes that are held
  record Drained (i : ℕ) (s s' : Shim D) : Type 0 where
    kept : Kept true s s'
    empty : (s.oms.ifaces i).valid ≡ true → held s'.driver i ≡ []
    others : (j : ℕ) → j ≢ i → held s'.driver j ≡ held s.driver j

  drain_from-Drained :
      (deliver : Bool) (i : ℕ) (s : Shim D)
      → s.oms.rx_packets < word
      → Returns
          (λ (s' : Shim D). Drained i s s' × (s'.oms.rx_packets < word))
          (drain_from (some table) i deliver s)
  unfolding drain_from
  drain_from-Drained deliver i s small =
      let P : Shim D → Type 0 = λ s'. Drained i s s' × (s'.oms.rx_packets < word) in
      let routine = s.oms.rx_routine in
      let f = flow_of s i in
      let rounds = drain_rounds deliver routine drain_fuel table i f s.driver in
      let (d', none_left, done) =
        drain_takes_all deliver routine drain_fuel i f.0 f.1 s.driver source small
          (omega (arith, source.bounded s.driver i)) in
      let g = drain_chunk deliver routine f (held s.driver i) in
      if_Returns P (not (s.oms.ifaces i).valid) _ _
        (λ off. (
          record {
            kept = Kept-refl true s;
            empty = λ on. absurd (ground (arith, off, on));
            others = λ j ne. refl;
          },
          small,
        ))
        (λ _.
          subst (λ o. Returns P (o >>= λ r. some (put_flow s i r))) (sym done)
            (
              record {
                kept = put_flow-Kept true s i (g, d') (inl refl);
                empty = λ on. none_left;
                others = λ j ne.
                    subst (Ends (λ (r : (Flow × ℕ) × D). held r.1 j ≡ held s.driver j)) done
                      (drain_rounds-apart deliver routine drain_fuel i j f s.driver ne);
              },
              drain_chunk-counted deliver routine f.0 f.1 (held s.driver i),
            ))

  -- Interfaces that are valid and below `m` have nothing left, and what was empty stays so.
  record Cleared (i m : ℕ) (s s' : Shim D) : Type 0 where
    kept : Kept true s s'
    empty : (j : ℕ) → i ≤ j → j < m → (s.oms.ifaces j).valid ≡ true → held s'.driver j ≡ []
    still : (j : ℕ) → j < i → held s'.driver j ≡ held s.driver j

  visit-Drained :
      (deliver : Bool) (i : ℕ) (s : Shim D)
      → s.oms.table ≡ some table
      → i < oms_max_interfaces
      → s.oms.rx_packets < word
      → Returns
          (λ (s' : Shim D). Drained i s s' × (s'.oms.rx_packets < word))
          (if (s.oms.ifaces i).valid then rx_drain i deliver s else some s)
  unfolding rx_drain
  visit-Drained deliver i s there lt small =
      let P : Shim D → Type 0 = λ s'. Drained i s s' × (s'.oms.rx_packets < word) in
      if_Returns P (s.oms.ifaces i).valid _ _
        (λ _.
          if_Returns P (leb oms_max_interfaces i) _ _ (λ out. absurd (ground (arith, out, lt)))
            (λ _.
              subst (λ t. Returns P (drain_from t i deliver s)) (sym there)
                (drain_from-Drained deliver i s small)))
        (λ off. (
          record {
            kept = Kept-refl true s;
            empty = λ on. absurd (ground (arith, off, on));
            others = λ j ne. refl;
          },
          small,
        ))

  drain_all_from-Cleared :
      (deliver : Bool) (i n : ℕ) (s : Shim D)
      → s.oms.table ≡ some table
      → i + n ≤ oms_max_interfaces
      → s.oms.rx_packets < word
      → Returns (Cleared i (i + n) s) (drain_all_from i n deliver s)
  unfolding drain_all_from
  drain_all_from-Cleared deliver i zero s there le small = record {
    kept = Kept-refl true s;
    empty = λ j from below on. absurd (omega (arith, from, below));
    still = λ j lt. refl;
  }
  drain_all_from-Cleared deliver i (suc n) s there le small =
      then_Returns (λ (s' : Shim D). Drained i s s' × (s'.oms.rx_packets < word))
        (Cleared i (i + suc n) s) (if (s.oms.ifaces i).valid then rx_drain i deliver s else some s)
        _ (visit-Drained deliver i s there (omega (arith, le)) small)
        (λ s1 (a, fits).
          Returns-map (Cleared (i + 1) (i + 1 + n) s1) (Cleared i (i + suc n) s)
            (drain_all_from (i + 1) n deliver s1)
            (drain_all_from-Cleared deliver (i + 1) n s1 (a.kept.table ∙ there) (omega (arith, le))
              fits)
            (λ u b. record {
              kept = Kept-trans a.kept b.kept;
              empty = λ j from below on. elim (ℕ_discrete j i) [
                | yes e ↦
                    b.still j (omega (arith, e))
                    ∙ ap (λ m. held s1.driver m) e
                    ∙ a.empty (ap (λ m. (s.oms.ifaces m).valid) (sym e) ∙ on)
                | no ne ↦
                    b.empty j (omega (arith, from, ne)) (omega (arith, below)) (a.kept.valid j ∙ on)
              ];
              still = λ j lt.
                  b.still j (omega (arith, lt)) ∙ a.others j (λ e. absurd (omega (arith, e, lt)));
            }))

  -- Behind a drain of all interfaces, nothing is held for one that is valid.
  pub rx_drain_all-empties :
      (deliver : Bool) (j : ℕ) (s : Shim D)
      → s.oms.table ≡ some table
      → j < oms_max_interfaces
      → (s.oms.ifaces j).valid ≡ true
      → s.oms.rx_packets < word
      → Returns (λ (s' : Shim D). held s'.driver j ≡ []) (rx_drain_all deliver s)
  unfolding rx_drain_all drain_all_of
  rx_drain_all-empties deliver j s there lt on small =
      subst (λ t. Returns (λ (s' : Shim D). held s'.driver j ≡ []) (drain_all_of t deliver s))
        (sym there)
        (Returns-map (Cleared 0 oms_max_interfaces s) _
          (drain_all_from 0 oms_max_interfaces deliver s)
          (drain_all_from-Cleared deliver 0 oms_max_interfaces s there (omega arith) small)
          (λ s' c. c.empty j (omega arith) lt on))
