-- ===== src/Oms/Lifecycle/Backlog.antt =====
-- oms/oms_driver.c: what becomes of the bytes that were received before the class driver was found.
use usbmidi.Prelude.{
  ◌>>=◌, if◌then◌else◌, inc, ℕ, zero, suc, ◌+◌, ◌≡◌, refl, ap, ◌∙◌, inl, inr, Bool, true, false,
  some, arith,
}
use usbmidi.Oms.{Table, Shim, oms_max_interfaces}
use usbmidi.Oms.Receive.{drain_all_from, rx_drain_all, rx_drain, drain_all_of}
use usbmidi.Oms.Lifecycle.{bind_table, register_callbacks, reset_ports, is_bound, success}
use usbmidi.Oms.Lifecycle.Lived.{IsTied}

drain_all_from-none_valid :
    {D : Type 0} (i n : ℕ) (deliver : Bool) (s : Shim D)
    → ((k : ℕ) → (s.oms.ifaces k).valid ≡ false)
    → drain_all_from i n deliver s ≡ some s
unfolding drain_all_from
drain_all_from-none_valid i zero deliver s h = refl
drain_all_from-none_valid i (suc n) deliver s h =
    ap
      (λ b.
        (if b then rx_drain i deliver s else some s) >>= λ s'. drain_all_from (i + 1) n deliver s')
      (h i)
    ∙ drain_all_from-none_valid (i + 1) n deliver s h

-- Binding a class driver where there was none, in a state that is in order, registers the hook
-- and takes nothing from the class driver: no interface counts as valid then, so that the drain
-- of the backlog passes all of them over, and nothing is handed to OMS.
pub bind_leaves_backlog :
    {D : Type 0} (ref : ℕ) (table : Table D) (set_callback : D → ℕ → Bool → Bool × D) (s : Shim D)
    → is_bound s.oms.table ≡ false
    → IsTied s
    → (s' : Shim D) × (bind_table ref table set_callback s ≡ some (success, s'))
      × (s'.driver ≡ (register_callbacks set_callback s).driver)
      × (s'.delivered ≡ s.delivered)
      × (is_bound s'.oms.table ≡ true)
unfolding bind_table register_callbacks rx_drain_all drain_all_of reset_ports
bind_leaves_backlog ref table set_callback s b (inl t) = absurd (ground (arith, b, t))
bind_leaves_backlog ref table set_callback s b (inr (off, invalid)) =
    let bound = record s {
      oms = record s.oms {
        table = some table;
        device_ref = ref;
        relocates = inc s.oms.relocates;
        ifaces = reset_ports s.oms.ifaces;
      };
    } in
    let hooked = register_callbacks set_callback bound in
    (
      hooked,
      ap (λ o. o >>= λ s'. some (success, s'))
          (drain_all_from-none_valid 0 oms_max_interfaces s.oms.midi_started hooked invalid),
      refl,
      refl,
      refl,
    )
