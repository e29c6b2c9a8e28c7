-- ===== src/Link/Backlog.antt =====
-- oms/oms_driver.c with classic/usb_driver.c: what the OMS driver does to the class driver that it binds.
use usbmidi.Prelude.{ℕ, ◌<◌, ◌≡◌, ap, ◌∙◌, true, false, some, arith}
use usbmidi.Usb.Registry.{Driver, instance_at}
use usbmidi.Usb.Registry.Slots.{IsRegistry}
use usbmidi.Oms.{Shim, oms_max_interfaces}
use usbmidi.Oms.Lifecycle.{bind_dispatch, bind_symbol, register_callbacks, is_bound, success}
use usbmidi.Oms.Lifecycle.Lived.{IsTied}
use usbmidi.Oms.Lifecycle.Backlog.{bind_leaves_backlog}
use usbmidi.Link.{dispatch_table}
use usbmidi.Link.Hooked.{set_hook, set_callbacks-Hooked}

-- Binding the class driver where there was none, in a state that is in order, succeeds and leaves
-- its table cached. Behind it the class driver has the same live instances, calls the OMS driver for
-- each of them, and holds in each of its rings what it held: nothing of the backlog has been taken,
-- and OMS has been given nothing.
pub bind_keeps_rings :
    (hook ref j : ℕ) (s : Shim Driver)
    → is_bound s.oms.table ≡ false
    → IsTied s
    → IsRegistry s.driver
    → j < s.driver.count
    → (s' : Shim Driver) × (bind_dispatch ref true (some (dispatch_table hook)) s
        ≡ some (success, s'))
      × (is_bound s'.oms.table ≡ true)
      × (s'.delivered ≡ s.delivered)
      × (s'.driver.count ≡ s.driver.count)
      × ((instance_at s'.driver j).event_callback ≡ some hook)
      × ((instance_at s'.driver j).ring ≡ (instance_at s.driver j).ring)
unfolding bind_dispatch bind_symbol register_callbacks
bind_keeps_rings hook ref j s b ready r lt =
    let (s', bound, same, silent, there) =
      bind_leaves_backlog ref (dispatch_table hook) (set_hook hook) s b ready in
    let k = set_callbacks-Hooked hook 0 oms_max_interfaces s.driver r in
    (
      s',
      bound,
      there,
      silent,
      ap (λ (d : Driver). d.count) same ∙ k.count,
      ap (λ (d : Driver). (instance_at d j).event_callback) same
          ∙ k.hooks j (omega arith) (omega (arith, lt, r.live)) lt,
      ap (λ (d : Driver). (instance_at d j).ring) same ∙ k.rings j,
    )
