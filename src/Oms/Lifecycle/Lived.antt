-- ===== src/Oms/Lifecycle/Lived.antt =====
-- What finding and losing the class driver keeps in the state of oms/oms_driver.c.
use mathlib.Core.Path.{subst}
use usbmidi.Prelude.{
  elim_Returns, Returns-map, if_Returns, then_Returns, ltb, Returns, inc, ℕ, ◌≡◌, refl, sym, ap,
  ◌∙◌, ◌⊎◌, inl, inr, Bool, true, false, Option, none, some, List, [], ◌∷◌, arith,
}
use usbmidi.Oms.{Table, Shim, dispatch_min_version}
use usbmidi.Oms.Receive.{rx_drain_all}
use usbmidi.Oms.Receive.Drained.{IsSource}
use usbmidi.Oms.Receive.Kept.{SourceOf, Kept, rx_drain_all-Kept}
use usbmidi.Oms.Lifecycle.{
  bind_table, is_success, reset_ports, register_callbacks, failed, bind_symbol, bind_dispatch,
  is_bound, walk, locate_dispatch, ensure_dispatch, OmsErr, Lookup, success, bad_dispatch_table,
  driver_not_found, find_error,
}

-- There is a table; or no hook counts as registered and no interface as valid.
abbrev pub IsTied : {D : Type 0} → Shim D → Type 0
IsTied s =
    (is_bound s.oms.table ≡ true)
    ⊎ ((s.oms.callback_registered ≡ false) × ((i : ℕ) → (s.oms.ifaces i).valid ≡ false))

module _ {D : Type 0} (held : D → ℕ → List ℕ) where
  -- the state of the driver by itself
  pub record IsSane (s : Shim D) : Type 0 where
    pub served : SourceOf held s.oms.table
    pub tied : IsTied s

  -- from one state to a later one
  pub record Lived (s s' : Shim D) : Type 0 where
    pub started : s'.oms.midi_started ≡ s.oms.midi_started
    pub installed : s'.oms.notifier_installed ≡ s.oms.notifier_installed
    pub upp : s'.oms.send_upp ≡ s.oms.send_upp
    pub sane : IsSane s'
    pub silent : (s.oms.midi_started ≡ true) ⊎ (s'.delivered ≡ s.delivered)

  pub Lived-refl : (s : Shim D) → IsSane s → Lived s s
  Lived-refl s h = record {
    started = refl;
    installed = refl;
    upp = refl;
    sane = h;
    silent = inr refl;
  }

  pub Lived-trans : {s t u : Shim D} → Lived s t → Lived t u → Lived s u
  Lived-trans a b = record {
    started = b.started ∙ a.started;
    installed = b.installed ∙ a.installed;
    upp = b.upp ∙ a.upp;
    sane = b.sane;
    silent = elim a.silent [
      | inl m ↦ inl m
      | inr same ↦ elim b.silent [
        | inl m ↦ inl (sym a.started ∙ m)
        | inr same' ↦ inr (same' ∙ same)
      ]
    ];
  }

  -- an attempt to bind: it has failed, or there is a table now
  abbrev pub Tried : Shim D → OmsErr × Shim D → Type 0
  Tried s (err, s') = Lived s s' × ((is_success err ≡ false) ⊎ (is_bound s'.oms.table ≡ true))

  pub bind_table-Tried :
      (ref : ℕ) (table : Table D) (set_callback : D → ℕ → Bool → Bool × D) (s : Shim D)
      → IsSource table held
      → Returns (Tried s) (bind_table ref table set_callback s)
  unfolding bind_table register_callbacks
  bind_table-Tried ref table set_callback s h =
      let bound = record s {
        oms = record s.oms {
          table = some table;
          device_ref = ref;
          relocates = inc s.oms.relocates;
          ifaces = reset_ports s.oms.ifaces;
        };
      } in
      let hooked = register_callbacks set_callback bound in
      then_Returns (Kept s.oms.midi_started hooked) (Tried s)
        (rx_drain_all s.oms.midi_started hooked) _
        (rx_drain_all-Kept held s.oms.midi_started hooked h)
        (λ s' k. (
          record {
            started = k.started;
            installed = k.installed;
            upp = k.upp;
            sane = record {
              served = subst (SourceOf held) (sym k.table) h;
              tied = inl (ap is_bound k.table);
            };
            silent = k.silent;
          },
          inr (ap is_bound k.table),
        ))

  failed-Tried :
      (err : OmsErr) (s : Shim D)
      → is_success err ≡ false
      → IsSane s
      → Returns (Tried s) (failed err s)
  failed-Tried err s e h = (
    record {
      started = refl;
      installed = refl;
      upp = refl;
      sane = record { served = h.served; tied = h.tied };
      silent = inr refl;
    },
    inl e,
  )

  bind_symbol-Tried :
      (ref : ℕ) (table : Table D) (entry : Option (D → ℕ → Bool → Bool × D)) (s : Shim D)
      → IsSource table held
      → IsSane s
      → Returns (Tried s) (bind_symbol ref table entry s)
  unfolding bind_symbol
  bind_symbol-Tried ref table none s h k = failed-Tried bad_dispatch_table s refl k
  bind_symbol-Tried ref table (some set_callback) s h k =
      if_Returns (Tried s) (ltb table.version dispatch_min_version) _ _
        (λ _. failed-Tried bad_dispatch_table s refl k)
        (λ _. bind_table-Tried ref table set_callback s h)

  pub bind_dispatch-Tried :
      (ref : ℕ) (found : Bool) (symbol : Option (Table D)) (s : Shim D)
      → SourceOf held symbol
      → IsSane s
      → Returns (Tried s) (bind_dispatch ref found symbol s)
  unfolding bind_dispatch
  bind_dispatch-Tried ref false symbol s h k = failed-Tried find_error s refl k
  bind_dispatch-Tried ref true none s h k = failed-Tried bad_dispatch_table s refl k
  bind_dispatch-Tried ref true (some table) s h k =
      bind_symbol-Tried ref table table.set_event_callback s h k

  -- the tables that the devices have, if any
  abbrev pub SourcesOf : List (ℕ × Lookup D) → Type 0
  SourcesOf [] = Unit
  SourcesOf ((ref, l) ∷ rest) = SourceOf held l.symbol × SourcesOf rest

  pub walk-Tried :
      (devices : List (ℕ × Lookup D)) (s : Shim D)
      → SourcesOf devices
      → IsSane s
      → Returns (Tried s) (walk devices s)
  unfolding walk
  walk-Tried [] s h k = failed-Tried driver_not_found s refl k
  walk-Tried ((ref, l) ∷ rest) s (h, hs) k =
      then_Returns (Tried s) (Tried s) (bind_dispatch ref l.found l.symbol s) _
        (bind_dispatch-Tried ref l.found l.symbol s h k)
        (λ (err, s') (lived, tried).
          elim_Returns (Tried s) (is_success err) (some (success, s')) (walk rest s')
            (λ yes. (lived, elim tried [ inl n ↦ absurd (ground (arith, yes, n)) | inr b ↦ inr b ]))
            (λ _.
              Returns-map (Tried s') (Tried s) (walk rest s') (walk-Tried rest s' hs lived.sane)
                (λ r t. (Lived-trans lived t.0, t.1))))

  pub locate_dispatch-Tried :
      (devices : List (ℕ × Lookup D)) (s : Shim D)
      → SourcesOf devices
      → IsSane s
      → Returns (Tried s) (locate_dispatch devices s)
  unfolding locate_dispatch
  locate_dispatch-Tried devices s h k =
      if_Returns (Tried s) (is_bound s.oms.table) _ _ (λ b. (Lived-refl s k, inr b))
        (λ _. walk-Tried devices s h k)

  pub ensure_dispatch-Tried :
      (devices : List (ℕ × Lookup D)) (s : Shim D)
      → SourcesOf devices
      → IsSane s
      → Returns (Tried s) (ensure_dispatch devices s)
  unfolding ensure_dispatch
  ensure_dispatch-Tried devices s h k =
      if_Returns (Tried s) (is_bound s.oms.table) _ _ (λ b. (Lived-refl s k, inr b))
        (λ n. locate_dispatch-Tried devices s h k)
