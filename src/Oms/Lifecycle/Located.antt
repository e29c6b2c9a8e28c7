-- ===== src/Oms/Lifecycle/Located.antt =====
-- oms/oms_driver.c: what the walk over the devices finds, and what a removal ends.
use mathlib.Core.Path.{subst}
use usbmidi.Prelude.{
  elim_Returns, Returns-both, if_Returns, then_Returns, ltb, Returns, inc, ℕ, ◌≤◌, ◌≡◌, refl, sym,
  ap, ◌⊎◌, inl, inr, Bool, true, some, List, [], ◌∷◌, arith,
}
use usbmidi.Oms.{Table, Shim, dispatch_min_version}
use usbmidi.Oms.Receive.{rx_drain_all}
use usbmidi.Oms.Receive.Drained.{IsSource}
use usbmidi.Oms.Receive.Kept.{SourceOf, Kept, rx_drain_all-Kept}
use usbmidi.Oms.Lifecycle.{
  bind_table, is_success, reset_ports, register_callbacks, bind_symbol, bind_dispatch, is_bound,
  walk, locate_dispatch, OmsErr, Lookup, success,
}
use usbmidi.Oms.Lifecycle.Lived.{IsSane, Tried, bind_dispatch-Tried, SourcesOf}

-- a class driver that will do: it has the table, of a version that has the hook
pub record IsUsable {D : Type 0} (l : Lookup D) : Type 0 where
  pub table : Table D
  pub hook : D → ℕ → Bool → Bool × D
  pub found : l.found ≡ true
  pub symbol : l.symbol ≡ some table
  pub has_hook : table.set_event_callback ≡ some hook
  pub recent : dispatch_min_version ≤ table.version

abbrev pub Offers : {D : Type 0} → List (ℕ × Lookup D) → Type 0
Offers [] = ⊥
Offers ((ref, l) ∷ rest) = IsUsable l ⊎ Offers rest

abbrev pub Succeeds : {D : Type 0} → OmsErr × Shim D → Type 0
Succeeds (err, s) = (err ≡ success) × (is_bound s.oms.table ≡ true)

module _ {D : Type 0} (held : D → ℕ → List ℕ) where
  bind_table-success :
      (ref : ℕ) (table : Table D) (set_callback : D → ℕ → Bool → Bool × D) (s : Shim D)
      → IsSource table held
      → Returns (λ (r : OmsErr × Shim D). r.0 ≡ success) (bind_table ref table set_callback s)
  unfolding bind_table register_callbacks
  bind_table-success ref table set_callback s h =
      let bound = record s {
        oms = record s.oms {
          table = some table;
          device_ref = ref;
          relocates = inc s.oms.relocates;
          ifaces = reset_ports s.oms.ifaces;
        };
      } in
      let hooked = register_callbacks set_callback bound in
      then_Returns (Kept s.oms.midi_started hooked) _ (rx_drain_all s.oms.midi_started hooked) _
        (rx_drain_all-Kept held s.oms.midi_started hooked h) (λ s' k. refl)

  bind_usable :
      (ref : ℕ) (l : Lookup D) (s : Shim D)
      → SourceOf held l.symbol
      → IsUsable l
      → Returns (λ (r : OmsErr × Shim D). r.0 ≡ success) (bind_dispatch ref l.found l.symbol s)
  unfolding bind_dispatch bind_symbol
  bind_usable ref l s h u =
      let Done : OmsErr × Shim D → Type 0 = λ r. r.0 ≡ success in
      let source : IsSource u.table held = subst (SourceOf held) u.symbol h in
      subst (λ b. Returns Done (bind_dispatch ref b l.symbol s)) (sym u.found)
        (subst (λ y. Returns Done (bind_dispatch ref true y s)) (sym u.symbol)
          (subst (λ e. Returns Done (bind_symbol ref u.table e s)) (sym u.has_hook)
            (if_Returns Done (ltb u.table.version dispatch_min_version) _ _
              (λ old. absurd (ground (arith, old, u.recent)))
              (λ _. bind_table-success ref u.table u.hook s source))))

  walk_finds :
      (devices : List (ℕ × Lookup D)) (s : Shim D)
      → SourcesOf held devices
      → IsSane held s
      → Offers devices
      → Returns Succeeds (walk devices s)
  unfolding walk
  walk_finds [] s h k none_offered = absurd none_offered
  walk_finds ((ref, l) ∷ rest) s (h, hs) k (inl u) =
      let o = bind_dispatch ref l.found l.symbol s in
      then_Returns (λ r. (r.0 ≡ success) × Tried held s r) Succeeds o _
        (Returns-both (λ r. r.0 ≡ success) (Tried held s) o (bind_usable ref l s h u)
          (bind_dispatch-Tried held ref l.found l.symbol s h k))
        (λ (err, s') (done, (_, tried)).
          rw done (
            refl,
            elim tried [ inl n ↦ absurd (ground (arith, ap is_success done, n)) | inr b ↦ b ],
          ))
  walk_finds ((ref, l) ∷ rest) s (h, hs) k (inr later) =
      then_Returns (Tried held s) Succeeds (bind_dispatch ref l.found l.symbol s) _
        (bind_dispatch-Tried held ref l.found l.symbol s h k)
        (λ (err, s') (lived, tried).
          elim_Returns Succeeds (is_success err) (some (success, s')) (walk rest s')
            (λ yes. (refl, elim tried [ inl n ↦ absurd (ground (arith, yes, n)) | inr b ↦ b ]))
            (λ _. walk_finds rest s' hs lived.sane later))

-- Where all tables are sources and the state is in order: if one of the attached devices has a
-- class driver with a table of a version that will do, then locating it succeeds and leaves a
-- table cached, whichever devices stand before it and whatever is wrong with theirs; the walk
-- and the drain of the backlog end.
pub locate_finds :
    {D : Type 0} (held : D → ℕ → List ℕ) (devices : List (ℕ × Lookup D)) (s : Shim D)
    → SourcesOf held devices
    → IsSane held s
    → Offers devices
    → Returns Succeeds (locate_dispatch devices s)
unfolding locate_dispatch
locate_finds held devices s h k o =
    if_Returns Succeeds (is_bound s.oms.table) _ _ (λ b. (refl, b))
      (λ _. walk_finds held devices s h k o)
