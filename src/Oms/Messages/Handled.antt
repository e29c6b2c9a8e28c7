-- ===== src/Oms/Messages/Handled.antt =====
-- oms/oms_driver.c: every message leaves the driver in order.
use usbmidi.Prelude.{
  pick, then_Returns, Returns, ◌==◌, if◌then◌else◌, Bool-cases, ℕ, ◌-◌, ◌≡◌, refl, inl, inr, Bool,
  true, false, not, ◌||◌, Option, none, some, List, [], arith,
}
use usbmidi.Oms.{Shim, OmsIface}
use usbmidi.Oms.Lifecycle.{OmsErr, success}
use usbmidi.Oms.Lifecycle.Lived.{Lived, Lived-refl}
use usbmidi.Oms.Devices.{callback_entry, add_devices, OmsDevice}
use usbmidi.Oms.Messages.{
  init, new_descriptor, Host, Message, init_msg, add_devices_msg, start_midi2_msg, start_midi2,
  handle_message, dispose_msg, set_interface_list_msg, stop_midi_msg, get_port_send_proc_msg,
  set_port_receive_refnum_msg, other_msg, dispose, is_outside, hand_out, get_port_send_proc,
  set_port_receive_refnum, OmsPortId, unregistered,
}
use usbmidi.Oms.Messages.Started.{Restarted, start_midi2-Restarted}
use usbmidi.Oms.Messages.Owned.{
  IsOwned, IsSourced, same_resources-IsOwned, told_by, give_back-IsOwned, new_descriptor-IsOwned,
  add_devices-Lived, init-IsOwned,
}

module _ {D : Type 0} (held : D → ℕ → List ℕ) where
  hand_out-IsOwned : (id : OmsPortId) (h : Host D) → IsOwned held h → IsOwned held (hand_out id h).1
  unfolding hand_out
  hand_out-IsOwned id h o = elim (Bool-cases (h.shim.oms.send_upp == 0)) [
    | inl e ↦
        rw e (record {
          sane = o.sane;
          one_descriptor = o.one_descriptor;
          one_notifier = o.one_notifier;
        })
    | inr e ↦
        rw e (record {
          sane = o.sane;
          one_descriptor = o.one_descriptor;
          one_notifier = o.one_notifier;
        })
  ]

  get_port_send_proc-IsOwned :
      (id : Option OmsPortId) (has_params : Bool) (desc : ℕ) (h : Host D)
      → IsOwned held h
      → IsOwned held (get_port_send_proc id has_params desc h).1
  unfolding get_port_send_proc
  get_port_send_proc-IsOwned none has_params desc h o = o
  get_port_send_proc-IsOwned (some id) has_params desc h o =
      let h0 = if h.shim.oms.send_upp == 0 then new_descriptor desc h else h in
      let ready : IsOwned held h0 = elim (Bool-cases (h.shim.oms.send_upp == 0)) [
        | inl e ↦ rw e (new_descriptor-IsOwned held desc h o (ground (arith, e)))
        | inr e ↦ rw e o
      ] in
      pick (λ (r : OmsErr × Host D). IsOwned held r.1) (not has_params || is_outside id)
        (success, h) (hand_out id h0) o (hand_out-IsOwned id h0 ready)

  set_port_receive_refnum-IsOwned :
      (id : Option OmsPortId) (ref : ℕ) (h : Host D)
      → IsOwned held h
      → IsOwned held (record h { shim = set_port_receive_refnum id ref h.shim })
  unfolding set_port_receive_refnum
  set_port_receive_refnum-IsOwned none ref h o = o
  set_port_receive_refnum-IsOwned (some id) ref h o =
      pick (λ (s : Shim D). IsOwned held (record h { shim = s })) (is_outside id) h.shim _ o
        (record {
          sane = record {
            served = o.sane.served;
            tied = elim o.sane.tied [
              | inl b ↦ inl b
              | inr (off, invalid) ↦ inr (
                off,
                λ i.
                    pick (λ (x : OmsIface). x.valid ≡ false) (i == id.which_interface - 1) _
                      (h.shim.oms.ifaces i) (invalid (id.which_interface - 1)) (invalid i),
              )
            ];
          };
          one_descriptor = o.one_descriptor;
          one_notifier = o.one_notifier;
        })

  -- Where the state is in order and the tables that the driver has or finds are sources, every
  -- message of OMS is handled to its end. Before and behind it the driver has
  -- given back as many routine descriptors, and as many device notifications, as it was given, less
  -- one exactly where its state names one; and without a class driver no interface counts as valid and no hook as
  -- registered.
  pub handle_message_keeps :
      (m : Message D) (h : Host D)
      → IsOwned held h
      → IsSourced held m
      → Returns (λ (r : OmsErr × Host D). IsOwned held r.1) (handle_message m h)
  unfolding handle_message add_devices dispose
  handle_message_keeps (init_msg a) h o (n, f) =
      then_Returns (IsOwned held) _ (init a h) _ (init-IsOwned held a h o n f) (λ h' k. k)
  handle_message_keeps dispose_msg h o q =
      let d = unregistered (callback_entry h.shim.oms.table) h.shim.driver in
      give_back-IsOwned held (record h { shim = record h.shim { driver = d } })
        (same_resources-IsOwned held h (record h.shim { driver = d }) o
          (record { served = o.sane.served; tied = o.sane.tied }) refl refl)
  handle_message_keeps (add_devices_msg false found) h o q =
      told_by held h h.shim [] o (Lived-refl held h.shim o.sane)
  handle_message_keeps (add_devices_msg true found) h o q =
      then_Returns (λ (r : Shim D × List OmsDevice). Lived held h.shim r.0) _
        (add_devices true found h.shim) _ (add_devices-Lived held found h.shim q o.sane)
        (λ (s, told) l. told_by held h s told o l)
  handle_message_keeps (set_interface_list_msg list) h o q =
      same_resources-IsOwned held h _ o (record { served = o.sane.served; tied = o.sane.tied }) refl
        refl
  handle_message_keeps (start_midi2_msg found) h o q =
      then_Returns (Restarted held h.shim) _ (start_midi2 found h.shim) _
        (start_midi2-Restarted held found h.shim q o.sane)
        (λ s (_, n, u, k, _). same_resources-IsOwned held h s o k u n)
  handle_message_keeps stop_midi_msg h o q =
      same_resources-IsOwned held h _ o (record { served = o.sane.served; tied = o.sane.tied }) refl
        refl
  handle_message_keeps (get_port_send_proc_msg id has_params desc) h o q =
      get_port_send_proc-IsOwned id has_params desc h o
  handle_message_keeps (set_port_receive_refnum_msg id ref) h o q =
      set_port_receive_refnum-IsOwned id ref h o
  handle_message_keeps other_msg h o q = o
