-- ===== src/Oms/Devices.antt =====
-- oms/oms_driver.c: `omdvAddDevices`, which tells OMS of a device for each interface.
use usbmidi.Prelude.{
  ◌>>=◌, if◌then◌else◌, length, take, ℕ, zero, suc, ◌+◌, ◌%◌, min, Bool, true, false, Option, none,
  some, List, [], ◌∷◌, ◌++◌,
}
use usbmidi.Oms.{Table, Shim, oms_max_interfaces, put_at, OmsIface}
use usbmidi.Oms.Lifecycle.{Lookup, ensure_dispatch, is_success, register_callbacks}

abbrev pub oms_string_len : ℕ
oms_string_len = 31

-- `OD_MAX_MANUF_LEN` and `OD_MAX_MODEL_LEN`
abbrev pub od_max_len : ℕ
od_max_len = 23

-- the signature 'USM9'
abbrev pub driver_signature : ℕ
driver_signature = 0x55534D39

-- "USBMIDI9"
abbrev pub manuf_literal : List ℕ
manuf_literal = 85 ∷ 83 ∷ 66 ∷ 77 ∷ 73 ∷ 68 ∷ 73 ∷ 57 ∷ []

-- "USBMIDI9 Port "
abbrev pub port_prefix : List ℕ
port_prefix = manuf_literal ++ (32 ∷ 80 ∷ 111 ∷ 114 ∷ 116 ∷ 32 ∷ [])

-- "USB-MIDI Interface"
abbrev pub model_literal : List ℕ
model_literal =
    85 ∷ 83 ∷ 66 ∷ 45 ∷ 77 ∷ 73 ∷ 68 ∷ 73 ∷ 32 ∷ 73 ∷ 110 ∷ 116 ∷ 101 ∷ 114 ∷ 102 ∷ 97 ∷ 99 ∷ 101
    ∷ []

-- The bytes that are written, the length byte first.
unfoldable pub make_port_name : ℕ → List ℕ
make_port_name n =
    let prefix = take oms_string_len port_prefix in
    ((length prefix + 1) % 256) ∷ (prefix ++ (48 + n % 10) % 256 ∷ [])

unfoldable pub pstr_set_n : List ℕ → ℕ → List ℕ
pstr_set_n literal max = let chars = take max literal in (length chars % 256) ∷ chars

-- The fields of `OMSDevice` that are set; every other one is 0.
pub record OmsDevice : Type 0 where
  pub which_out : ℕ
  pub owner_driver : ℕ
  pub flags1 : ℕ
  pub flags2 : ℕ
  pub midi_channels : ℕ
  pub interface_index : ℕ
  pub dev_name : List ℕ
  pub manuf : List ℕ
  pub model : List ℕ

unfoldable pub device_of : ℕ → OmsDevice
unfolding make_port_name pstr_set_n
device_of i = record {
  which_out = i + 1;
  owner_driver = driver_signature;
  flags1 = 0x34;
  flags2 = 0x84;
  midi_channels = 0xffff;
  interface_index = i % 256;
  dev_name = make_port_name (i + 1);
  manuf = pstr_set_n manuf_literal od_max_len;
  model = pstr_set_n model_literal od_max_len;
}

-- the loop of `oms_add_devices` from `i` on, with the rounds that are left: the interfaces, and the
-- devices that OMS is told of
unfoldable pub add_from :
    {D : Type 0} → Table D → D → (ℕ → OmsIface) → ℕ → ℕ → (ℕ → OmsIface) × List OmsDevice
unfolding device_of
add_from table d ifaces i zero = (ifaces, [])
add_from table d ifaces i (suc n) = elim (table.get_interface_info d i) [
  | none ↦ add_from table d ifaces (i + 1) n
  | some info ↦
      let iface = record (ifaces i) { valid = true; info = some info } in
      let (ifaces', told) = add_from table d (put_at ifaces i iface) (i + 1) n in
      (ifaces', device_of i ∷ told)
]

-- The count is what the enumeration gives, `none` for an error.
unfoldable pub add_counted : {D : Type 0} → Table D → Option ℕ → Shim D → Shim D × List OmsDevice
unfolding add_from
add_counted table none s = (s, [])
add_counted table (some all) s =
    let count = min all oms_max_interfaces in
    let (ifaces', told) = add_from table s.driver s.oms.ifaces 0 count in
    (record s { oms = record s.oms { n_interfaces = count; ifaces = ifaces' } }, told)

-- behind `oms_ensure_dispatch`, with the table and its entry `setEventCallback`
unfoldable pub add_bound :
    {D : Type 0}
    → Option (Table D)
    → Option (D → ℕ → Bool → Bool × D)
    → Shim D
    → Shim D × List OmsDevice
unfolding add_counted register_callbacks
add_bound (some table) (some set_callback) s =
    let hooked = register_callbacks set_callback s in
    add_counted table (table.enumerate_interfaces hooked.driver) hooked
add_bound _ _ s = (s, [])

abbrev pub callback_entry : {D : Type 0} → Option (Table D) → Option (D → ℕ → Bool → Bool × D)
callback_entry none = none
callback_entry (some table) = table.set_event_callback

-- The flag is whether OMS has passed a callback. The result is 0 throughout.
unfoldable pub add_devices :
    {D : Type 0} → Bool → List (ℕ × Lookup D) → Shim D → Option (Shim D × List OmsDevice)
unfolding ensure_dispatch add_bound
add_devices false devices s = some (s, [])
add_devices true devices s = ensure_dispatch devices s >>= λ (err, s').
    (let table = s'.oms.table in
      some (if is_success err then add_bound table (callback_entry table) s' else (s', [])))
