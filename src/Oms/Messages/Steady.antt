-- ===== src/Oms/Messages/Steady.antt =====
-- oms/oms_driver.c: what notifications and `omdvAddDevices` keep.
use usbmidi.Prelude.{
  Returns-map, pick, if_Returns, then_Returns, Returns, ◌==◌, if◌then◌else◌, ℕ, ◌≡◌, refl, inl, inr,
  Bool, true, ◌&&◌, Option, none, some, List, [], ◌∷◌,
}
use usbmidi.Oms.{Table, Shim}
use usbmidi.Oms.Receive.Kept.{SourceOf}
use usbmidi.Oms.Lifecycle.{
  OmsErr, usb_notify, register_callbacks, bind_dispatch, is_bound, attach_device, detach, Lookup,
  DeviceNotification, driver_not_found, added, removed, other_event,
}
use usbmidi.Oms.Lifecycle.Lived.{Lived, IsSane, Tried, Lived-refl, Lived-trans, bind_dispatch-Tried}
use usbmidi.Oms.Devices.{add_bound, add_counted}
use usbmidi.Oms.Messages.{notify_each}

module _ {D : Type 0} (held : D → ℕ → List ℕ) where
  abbrev SourceOfLookup : Option (Lookup D) → Type 0
  SourceOfLookup none = Unit
  SourceOfLookup (some l) = SourceOf held l.symbol

  -- the tables behind the notifications
  abbrev pub SourcesOfNotified : List (DeviceNotification D) → Type 0
  SourcesOfNotified [] = Unit
  SourcesOfNotified (added ref lookup ∷ rest) = SourceOfLookup lookup × SourcesOfNotified rest
  SourcesOfNotified (removed ref ∷ rest) = SourcesOfNotified rest
  SourcesOfNotified (other_event ∷ rest) = SourcesOfNotified rest

  attach_found :
      (ref : ℕ) (s : Shim D) (l : Option (Lookup D))
      → IsSane held s
      → SourceOfLookup l
      → Returns
          (λ (r : OmsErr × Shim D). Lived held s r.1)
          (elim l [
            | none ↦ some (driver_not_found, s)
            | some m ↦ bind_dispatch ref m.found m.symbol s
          ])
  attach_found ref s none k h = Lived-refl held s k
  attach_found ref s (some m) k h =
      Returns-map (Tried held s) (λ (r : OmsErr × Shim D). Lived held s r.1)
        (bind_dispatch ref m.found m.symbol s) (bind_dispatch-Tried held ref m.found m.symbol s h k)
        (λ r t. t.0)

  attach_device-Lived :
      (ref : ℕ) (lookup : Option (Lookup D)) (s : Shim D)
      → SourceOfLookup lookup
      → IsSane held s
      → Returns (λ (r : OmsErr × Shim D). Lived held s r.1) (attach_device ref lookup s)
  unfolding attach_device
  attach_device-Lived ref lookup s h k =
      if_Returns (λ (r : OmsErr × Shim D). Lived held s r.1) (is_bound s.oms.table) _ _
        (λ _. Lived-refl held s k) (λ _. attach_found ref s lookup k h)

  detach-Lived : (s : Shim D) → Lived held s (detach s)
  unfolding detach
  detach-Lived s = record {
    started = refl;
    installed = refl;
    upp = refl;
    sane = record { served = tt; tied = inr (refl, λ i. refl) };
    silent = inr refl;
  }

  pub notify_each-Lived :
      (notified : List (DeviceNotification D)) (s : Shim D)
      → SourcesOfNotified notified
      → IsSane held s
      → Returns (Lived held s) (notify_each notified s)
  unfolding notify_each usb_notify
  notify_each-Lived [] s h k = Lived-refl held s k
  notify_each-Lived (added ref lookup ∷ rest) s (h, hs) k =
      then_Returns (Lived held s) (Lived held s) (usb_notify (some (added ref lookup)) s) _
        (then_Returns (λ (r : OmsErr × Shim D). Lived held s r.1) (Lived held s)
          (attach_device ref lookup s) _ (attach_device-Lived ref lookup s h k) (λ r l. l))
        (λ s' l.
          Returns-map (Lived held s') (Lived held s) (notify_each rest s')
            (notify_each-Lived rest s' hs l.sane) (λ u l'. Lived-trans held l l'))
  notify_each-Lived (removed ref ∷ rest) s hs k =
      let s' = if is_bound s.oms.table && ref == s.oms.device_ref then detach s else s in
      let l =
        pick (λ (x : Shim D). Lived held s x) (is_bound s.oms.table && ref == s.oms.device_ref)
          (detach s) s (detach-Lived s) (Lived-refl held s k) in
      Returns-map (Lived held s') (Lived held s) (notify_each rest s')
        (notify_each-Lived rest s' hs l.sane) (λ u l'. Lived-trans held l l')
  notify_each-Lived (other_event ∷ rest) s hs k = notify_each-Lived rest s hs k

  add_counted-Lived :
      (table : Table D) (c : Option ℕ) (s : Shim D)
      → is_bound s.oms.table ≡ true
      → SourceOf held s.oms.table
      → Lived held s (add_counted table c s).0
  unfolding add_counted
  add_counted-Lived table none s b k = Lived-refl held s (record { served = k; tied = inl b })
  add_counted-Lived table (some all) s b k = record {
    started = refl;
    installed = refl;
    upp = refl;
    sane = record { served = k; tied = inl b };
    silent = inr refl;
  }

  pub add_bound-Lived :
      (table : Option (Table D)) (entry : Option (D → ℕ → Bool → Bool × D)) (s : Shim D)
      → is_bound s.oms.table ≡ true
      → IsSane held s
      → Lived held s (add_bound table entry s).0
  unfolding add_bound register_callbacks
  add_bound-Lived none entry s b k = Lived-refl held s k
  add_bound-Lived (some table) none s b k = Lived-refl held s k
  add_bound-Lived (some table) (some set_callback) s b k =
      let hooked = register_callbacks set_callback s in
      let l =
        add_counted-Lived table (table.enumerate_interfaces hooked.driver) hooked b k.served in
      record {
        started = l.started;
        installed = l.installed;
        upp = l.upp;
        sane = l.sane;
        silent = l.silent;
      }
