-- ===== src/Link/Announced.antt =====
-- oms/oms_driver.c with classic/usb_driver.c: the devices that `omdvAddDevices` tells OMS of, for the
-- interfaces of the class driver.
use mathlib.Core.Path.{subst}
use native.Mathlib.Decide.{ℕ_discrete}
use usbmidi.Prelude.{
  leb, ◌>>=◌, Returns, ◌==◌, if◌then◌else◌, length, get_elem?, ℕ, zero, suc, ◌+◌, ◌%◌, ◌≤◌, ◌<◌,
  min, ◌≡◌, refl, sym, ap, ◌∙◌, true, false, Option, none, some, List, [], ◌∷◌, ◌++◌, arith,
}
use usbmidi.Usb.Registry.{
  Driver, InterfaceInfo, instance_at, fill_interface_info, enumerate_interfaces, get_interface_info,
}
use usbmidi.Usb.Registry.Slots.{IsRegistry}
use usbmidi.Oms.{Table, OmsIface, put_at, oms_max_interfaces, Shim}
use usbmidi.Oms.Lifecycle.{
  register_callbacks, ensure_dispatch, Lookup, is_success, is_bound, locate_dispatch, OmsErr,
  success,
}
use usbmidi.Oms.Devices.{
  callback_entry, OmsDevice, device_of, add_from, driver_signature, manuf_literal, model_literal,
  port_prefix, make_port_name, pstr_set_n, add_counted, add_bound, add_devices,
}
use usbmidi.Link.Hooked.{Hooked, set_hook, set_callbacks-Hooked}
use usbmidi.Link.{dispatch_table}

-- the device for interface `j`, with names of at most nine ports in decimal
abbrev pub announced : ℕ → OmsDevice
announced j = record {
  which_out = j + 1;
  owner_driver = driver_signature;
  flags1 = 0x34;
  flags2 = 0x84;
  midi_channels = 0xffff;
  interface_index = j;
  dev_name = 15 ∷ (port_prefix ++ (49 + j) ∷ []);
  manuf = 8 ∷ manuf_literal;
  model = 18 ∷ model_literal;
}

abbrev with_info : OmsIface → InterfaceInfo → OmsIface
with_info iface info = record iface { valid = true; info = some info }

-- what a loop over the interfaces from `i` on has done behind `n` rounds
record AddedFrom (info : ℕ → InterfaceInfo) (ifaces : ℕ → OmsIface) (i n : ℕ)
    (r : (ℕ → OmsIface) × List OmsDevice) : Type 0 where
  one_each : length r.1 ≡ n
  told : (j : ℕ) → j < n → get_elem? r.1 j ≡ some (device_of (i + j))
  marked : (k : ℕ) → i ≤ k → k < i + n → r.0 k ≡ with_info (ifaces k) (info k)
  others : (k : ℕ) → k < i → r.0 k ≡ ifaces k

put_at-here : (f : ℕ → OmsIface) (i : ℕ) (x : OmsIface) → put_at f i x i ≡ x
put_at-here f i x = let same : (i == i) ≡ true = ground arith in rw same refl

put_at-there : (f : ℕ → OmsIface) (i k : ℕ) (x : OmsIface) → (k == i) ≡ false → put_at f i x k ≡ f k
put_at-there f i k x e = rw e refl

add_from_known :
    {D : Type 0} (table : Table D) (d : D) (ifaces : ℕ → OmsIface) (i n : ℕ) (x : InterfaceInfo)
    → table.get_interface_info d i ≡ some x
    → let r = add_from table d (put_at ifaces i (with_info (ifaces i) x)) (i + 1) n in
      add_from table d ifaces i (suc n) ≡ (r.0, device_of i ∷ r.1)
unfolding add_from
add_from_known table d ifaces i n x e =
    ap
      (λ (o : Option InterfaceInfo). elim o [
        | none ↦ add_from table d ifaces (i + 1) n
        | some info ↦
            let (ifaces', told) =
              add_from table d (put_at ifaces i (with_info (ifaces i) info)) (i + 1) n in
            (ifaces', device_of i ∷ told)
      ])
      e

add_from-AddedFrom :
    {D : Type 0} (table : Table D) (d : D) (info : ℕ → InterfaceInfo) (ifaces : ℕ → OmsIface)
    (i n : ℕ)
    → ((k : ℕ) → k < i + n → table.get_interface_info d k ≡ some (info k))
    → AddedFrom info ifaces i n (add_from table d ifaces i n)
unfolding add_from
add_from-AddedFrom table d info ifaces i zero known = record {
  one_each = refl;
  told = λ j lt. absurd (omega (arith, lt));
  marked = λ k le lt. absurd (omega (arith, le, lt));
  others = λ k lt. refl;
}
add_from-AddedFrom table d info ifaces i (suc n) known =
    let iface = with_info (ifaces i) (info i) in
    let next = put_at ifaces i iface in
    let h = add_from-AddedFrom table d info next (i + 1) n (λ k lt. known k (omega (arith, lt))) in
    subst (AddedFrom info ifaces i (suc n))
      (sym (add_from_known table d ifaces i n (info i) (known i (omega arith))))
      (record {
        one_each = ap suc h.one_each;
        told = told_next h;
        marked = λ k le lt. elim (ℕ_discrete k i) [
          | yes e ↦ rw e (h.others i (omega arith) ∙ put_at-here ifaces i iface)
          | no ne ↦
              h.marked k (omega (arith, le, ne)) (omega (arith, lt))
              ∙ ap (λ x. with_info x (info k)) (put_at-there ifaces i k iface (ground (arith, ne)))
        ];
        others = λ k lt.
            h.others k (omega (arith, lt)) ∙ put_at-there ifaces i k iface (ground (arith, lt));
      })
  where
    told_next :
        {r : (ℕ → OmsIface) × List OmsDevice} {f : ℕ → OmsIface}
        → AddedFrom info f (i + 1) n r
        → (j : ℕ) → j < suc n
        → get_elem? (device_of i ∷ r.1) j ≡ some (device_of (i + j))
    told_next h zero lt = ap (λ k. some (device_of k)) (omega arith)
    told_next h (suc j) lt =
        h.told j (omega (arith, lt)) ∙ ap (λ k. some (device_of k)) (omega arith)

-- What OMS is told of the interfaces of `d`, and what the OMS driver and the class driver keep.
pub record Announced (hook : ℕ) (d : Driver) (r : Shim Driver × List OmsDevice) : Type 0 where
  pub one_each : length r.1 ≡ d.count
  pub told : (j : ℕ) → j < d.count → get_elem? r.1 j ≡ some (announced j)
  pub counted : r.0.oms.n_interfaces ≡ d.count
  pub valid : (j : ℕ) → j < d.count → (r.0.oms.ifaces j).valid ≡ true
  pub infos :
      (j : ℕ)
      → j < d.count
      → (r.0.oms.ifaces j).info ≡ some (fill_interface_info j (instance_at d j))
  pub live : r.0.driver.count ≡ d.count
  pub hooks : (j : ℕ) → j < d.count → (instance_at r.0.driver j).event_callback ≡ some hook

device_of-announced : (j : ℕ) → j < oms_max_interfaces → device_of (0 + j) ≡ announced j
unfolding device_of make_port_name pstr_set_n
device_of-announced j lt =
    let first : 0 + j ≡ j = omega arith in
    let byte : j % 256 ≡ j = omega (arith, lt) in
    let digit : (48 + (j + 1) % 10) % 256 ≡ 49 + j = omega (arith, lt) in
    rw first (rw byte (rw digit refl))

-- the count that the enumeration gives
enumerated : (hook : ℕ) (d : Driver) → (dispatch_table hook).enumerate_interfaces d ≡ some d.count
unfolding enumerate_interfaces
enumerated hook d = refl

queried :
    (hook : ℕ) (d : Driver) (k : ℕ)
    → k < d.count
    → (dispatch_table hook).get_interface_info d k ≡ some (fill_interface_info k (instance_at d k))
unfolding get_interface_info
queried hook d k lt = let live : leb d.count k ≡ false = ground (arith, lt) in rw live refl

counted_in :
    (hook : ℕ) (d : Driver) (s : Shim Driver)
    → IsRegistry d
    → Hooked hook 0 oms_max_interfaces d s.driver
    → Announced hook d (add_counted (dispatch_table hook) (some s.driver.count) s)
unfolding add_counted
counted_in hook d s r k =
    let all = min s.driver.count oms_max_interfaces in
    let same : all ≡ d.count = omega (arith, k.count, r.live) in
    let info : ℕ → InterfaceInfo = λ j. fill_interface_info j (instance_at s.driver j) in
    let h =
      add_from-AddedFrom (dispatch_table hook) s.driver info s.oms.ifaces 0 all
        (λ j lt. queried hook s.driver j (omega (arith, lt, same, k.count))) in
    let entry : (j : ℕ) → j < d.count → _ =
      λ j lt. h.marked j (omega arith) (omega (arith, lt, same)) in
    record {
      one_each = h.one_each ∙ same;
      told = λ j lt.
          h.told j (omega (arith, lt, same))
          ∙ ap some (device_of-announced j (omega (arith, lt, r.live)));
      counted = same;
      valid = λ j lt. ap (λ x. x.valid) (entry j lt);
      infos = λ j lt. ap (λ x. x.info) (entry j lt) ∙ ap some (k.infos j);
      live = k.count;
      hooks = λ j lt. k.hooks j (omega arith) (omega (arith, lt, r.live)) lt;
    }

-- where the table is cached, the interfaces that are counted are added
bound_adds :
    (hook : ℕ) (devices : List (ℕ × Lookup Driver)) (s : Shim Driver)
    → s.oms.table ≡ some (dispatch_table hook)
    → let hooked = register_callbacks (set_hook hook) s in
      add_devices true devices s
      ≡ some (add_counted (dispatch_table hook) (some hooked.driver.count) hooked)
unfolding add_devices ensure_dispatch add_bound
bound_adds hook devices s e =
    let hooked = register_callbacks (set_hook hook) s in
    let found : ensure_dispatch devices s ≡ some (success, s) =
      ap (λ o. if is_bound o then some (success, s) else locate_dispatch devices s) e in
    ap
      (λ (o : Option (OmsErr × Shim Driver)). o >>= λ (err, s').
        (let table = s'.oms.table in
          some (if is_success err then add_bound table (callback_entry table) s' else (s', []))))
      found
    ∙ ap (λ o. some (add_bound o (callback_entry o) s)) e
    ∙ ap (λ c. some (add_counted (dispatch_table hook) c hooked)) (enumerated hook hooked.driver)

-- With the dispatch table of the class driver cached, `omdvAddDevices` tells OMS of exactly one device
-- for each live interface, in their order: numbered from 1, named "USBMIDI9 Port" with that number
-- as its digit, and with the index of the interface in its driver data. Behind it the OMS driver counts
-- exactly the live interfaces and holds each as valid with the information of the class driver, and
-- the class driver calls the OMS driver for each of them.
pub add_devices_announces :
    (hook : ℕ) (devices : List (ℕ × Lookup Driver)) (s : Shim Driver)
    → s.oms.table ≡ some (dispatch_table hook)
    → IsRegistry s.driver
    → Returns (Announced hook s.driver) (add_devices true devices s)
unfolding register_callbacks
add_devices_announces hook devices s e r =
    let hooked = register_callbacks (set_hook hook) s in
    let k = set_callbacks-Hooked hook 0 oms_max_interfaces s.driver r in
    subst (Returns (Announced hook s.driver)) (sym (bound_adds hook devices s e))
      (counted_in hook s.driver hooked r k)
