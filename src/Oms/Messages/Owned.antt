-- ===== src/Oms/Messages/Owned.antt =====
-- oms/oms_driver.c: what the driver has taken of the system, and gives back, message by message.
use usbmidi.Prelude.{
  then_Returns, Returns, ◌==◌, if◌then◌else◌, Bool-cases, ℕ, ◌+◌, ◌≡◌, refl, sym, ap, ◌∙◌, inl, inr,
  Bool, true, false, List, ◌++◌, arith,
}
use usbmidi.Oms.{Shim}
use usbmidi.Oms.Lifecycle.{locate_dispatch, is_success, is_bound, ensure_dispatch, Lookup}
use usbmidi.Oms.Lifecycle.Lived.{
  Lived, IsSane, Tried, SourcesOf, locate_dispatch-Tried, ensure_dispatch-Tried, Lived-trans,
}
use usbmidi.Oms.Devices.{callback_entry, add_devices, OmsDevice}
use usbmidi.Oms.Messages.{
  init, zero_oms, give_back, new_descriptor, Host, Message, init_msg, add_devices_msg,
  start_midi2_msg, notify_each, InitAnswers,
}
use usbmidi.Oms.Messages.Steady.{SourcesOfNotified, notify_each-Lived, add_bound-Lived}

module _ {D : Type 0} (held : D → ℕ → List ℕ) where
  -- All routine descriptors and notifications that the driver ever had it has given back exactly once,
  -- but for the one that its state names.
  pub record IsOwned (h : Host D) : Type 0 where
    pub sane : IsSane held h.shim
    pub one_descriptor : h.descriptors ≡ h.disposed + (if h.shim.oms.send_upp == 0 then 0 else 1)
    pub one_notifier :
        h.notifiers ≡ h.removed_notifiers + (if h.shim.oms.notifier_installed then 1 else 0)

  -- the tables behind what the system answers to a message
  abbrev pub IsSourced : Message D → Type 0
  IsSourced (init_msg a) = SourcesOfNotified held a.notified × SourcesOf held a.found
  IsSourced (add_devices_msg has_callback found) = SourcesOf held found
  IsSourced (start_midi2_msg found) = SourcesOf held found
  IsSourced _ = Unit

  -- a step that changes neither
  pub same_resources-IsOwned :
      (h : Host D) (s : Shim D)
      → IsOwned h
      → IsSane held s
      → s.oms.send_upp ≡ h.shim.oms.send_upp
      → s.oms.notifier_installed ≡ h.shim.oms.notifier_installed
      → IsOwned (record h { shim = s })
  same_resources-IsOwned h s o k u n = record {
    sane = k;
    one_descriptor = o.one_descriptor ∙ ap (λ x. h.disposed + (if x == 0 then 0 else 1)) (sym u);
    one_notifier = o.one_notifier ∙ ap (λ b. h.removed_notifiers + (if b then 1 else 0)) (sym n);
  }

  pub told_by :
      (h : Host D) (s : Shim D) (told : List OmsDevice)
      → IsOwned h
      → Lived held h.shim s
      → IsOwned (record h { shim = s; devices = h.devices ++ told })
  told_by h s told o l =
      let o' = same_resources-IsOwned h s o l.sane l.upp l.installed in
      record { sane = o'.sane; one_descriptor = o'.one_descriptor; one_notifier = o'.one_notifier }

  pub give_back-IsOwned : (h : Host D) → IsOwned h → IsOwned (give_back h)
  unfolding give_back zero_oms
  give_back-IsOwned h o = record {
    sane = record { served = tt; tied = inr (refl, λ i. refl) };
    one_descriptor = ground (arith, o.one_descriptor);
    one_notifier = ground (arith, o.one_notifier);
  }

  pub new_descriptor-IsOwned :
      (desc : ℕ) (h : Host D)
      → IsOwned h
      → h.shim.oms.send_upp ≡ 0
      → IsOwned (new_descriptor desc h)
  unfolding new_descriptor
  new_descriptor-IsOwned desc h o none_left = record {
    sane = record { served = o.sane.served; tied = o.sane.tied };
    one_descriptor = ground (arith, o.one_descriptor, none_left);
    one_notifier = o.one_notifier;
  }

  pub add_devices-Lived :
      (found : List (ℕ × Lookup D)) (s : Shim D)
      → SourcesOf held found
      → IsSane held s
      → Returns (λ (r : Shim D × List OmsDevice). Lived held s r.0) (add_devices true found s)
  unfolding add_devices
  add_devices-Lived found s h k =
      then_Returns (Tried held s) _ (ensure_dispatch found s) _
        (ensure_dispatch-Tried held found s h k)
        (λ (err, s') (l, tried). elim (Bool-cases (is_success err)) [
          | inl e ↦
              let b : is_bound s'.oms.table ≡ true = elim tried [
                | inl n ↦ absurd (ground (arith, e, n))
                | inr b ↦ b
              ] in
              rw e (
                Lived-trans held l
                  (add_bound-Lived held s'.oms.table (callback_entry s'.oms.table) s' b l.sane))
          | inr e ↦ rw e l
        ])

  one_more : (b : Bool) (n k : ℕ) → n ≡ k + 0 → (if b then n + 1 else n) ≡ k + (if b then 1 else 0)
  one_more true n k e = omega (arith, e)
  one_more false n k e = e

  pub init-IsOwned :
      (a : InitAnswers D) (h : Host D)
      → IsOwned h
      → SourcesOfNotified held a.notified
      → SourcesOf held a.found
      → Returns IsOwned (init a h)
  unfolding init locate_dispatch give_back zero_oms new_descriptor
  init-IsOwned a h o n f =
      let fresh = new_descriptor a.descriptor (give_back h) in
      let o' = new_descriptor-IsOwned a.descriptor (give_back h) (give_back-IsOwned h o) refl in
      then_Returns (Lived held fresh.shim) IsOwned (notify_each a.notified fresh.shim) _
        (notify_each-Lived held a.notified fresh.shim n o'.sane)
        (λ s l.
          let ready = record s { oms = record s.oms { notifier_installed = a.installed } } in
          then_Returns (Tried held ready) IsOwned (locate_dispatch a.found ready) _
            (locate_dispatch-Tried held a.found ready f
              (record { served = l.sane.served; tied = l.sane.tied }))
            (λ (err, s') (m, _). record {
              sane = record { served = m.sane.served; tied = m.sane.tied };
              one_descriptor =
                  o'.one_descriptor
                  ∙ ap (λ x. fresh.disposed + (if x == 0 then 0 else 1)) (sym (m.upp ∙ l.upp));
              one_notifier =
                  one_more a.installed fresh.notifiers fresh.removed_notifiers o'.one_notifier
                  ∙ ap (λ b. fresh.removed_notifiers + (if b then 1 else 0)) (sym m.installed);
            }))
