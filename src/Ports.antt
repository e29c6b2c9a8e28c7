-- ===== src/Ports.antt =====
-- core/ports.h and core/ports.c: what a MIDIStreaming interface declares, and its logical ports.
-- The arrays of the C structs are lists of their used entries; `none` is a read outside of the
-- descriptor buffer.
pub mod Derive
pub mod Parse
use usbmidi.Prelude.{
  leb, ◌==◌, if◌then◌else◌, length, ℕ, ◌+◌, ◌/◌, ◌%◌, Bool, true, false, Option, none, some, List,
  [], ◌∷◌, ◌++◌,
}

-- `UM9_MAX_*`
abbrev pub max_jacks : ℕ
max_jacks = 16

abbrev pub max_jack_sources : ℕ
max_jack_sources = 8

abbrev pub max_endpoints : ℕ
max_endpoints = 8

abbrev pub max_embedded_jacks : ℕ
max_embedded_jacks = 16

abbrev pub max_ports : ℕ
max_ports = 32

-- `UM9_JACK_DIR_*`
pub data JackDir : Type 0 where
  jack_in jack_out : JackDir

-- `UM9_PORT_DIR_*`
pub data PortDir : Type 0 where
  port_in port_out : PortDir

-- `um9_jack`; `num_sources` is the length of `source_ids`.
pub record Jack : Type 0 where
  pub id : ℕ
  pub jack_type : ℕ
  pub direction : JackDir
  pub source_ids : List ℕ

-- `um9_endpoint`; `num_embedded` is the length of `embedded_ids`.
pub record Endpoint : Type 0 where
  pub address : ℕ
  pub attributes : ℕ
  pub max_packet_size : ℕ
  pub embedded_ids : List ℕ

-- `um9_ms_info`; `num_jacks` and `num_endpoints` are the lengths of the lists.
pub record MsInfo : Type 0 where
  pub found : ℕ
  pub vid : ℕ
  pub pid : ℕ
  pub interface_number : ℕ
  pub alternate_setting : ℕ
  pub interface_class : ℕ
  pub interface_subclass : ℕ
  pub num_endpoints_declared : ℕ
  pub bcd_msc : ℕ
  pub wtotal_length : ℕ
  pub jacks : List Jack
  pub num_in_jacks : ℕ
  pub num_out_jacks : ℕ
  pub endpoints : List Endpoint

-- `um9_port`
pub record LogicalPort : Type 0 where
  pub endpoint_address : ℕ
  pub port_direction : PortDir
  pub cable : ℕ
  pub embedded_jack_id : ℕ

abbrev pub zero_info : MsInfo
zero_info = record {
  found = 0;
  vid = 0;
  pid = 0;
  interface_number = 0;
  alternate_setting = 0;
  interface_class = 0;
  interface_subclass = 0;
  num_endpoints_declared = 0;
  bcd_msc = 0;
  wtotal_length = 0;
  jacks = [];
  num_in_jacks = 0;
  num_out_jacks = 0;
  endpoints = [];
}

-- the inner loop of `um9_ports_from_ms`, from cable `i` on; `true` is the return at the cap
unfoldable pub add_cables :
    Endpoint → PortDir → ℕ → List ℕ → List LogicalPort → Bool × List LogicalPort
add_cables ep dir i [] ports = (false, ports)
add_cables ep dir i (id ∷ ids) ports =
    let port : LogicalPort = record {
      endpoint_address = ep.address;
      port_direction = dir;
      cable = i;
      embedded_jack_id = id;
    } in
    let rest = add_cables ep dir (i + 1) ids (ports ++ port ∷ []) in
    if leb max_ports (length ports) then (true, ports) else rest

-- `(ep->address & UM9_EP_DIR_IN) ? ... : ...`
abbrev pub direction_of : ℕ → PortDir
direction_of address = if address / 128 % 2 == 1 then port_in else port_out

-- the outer loop
unfoldable pub add_endpoints : List Endpoint → List LogicalPort → List LogicalPort
unfolding add_cables
add_endpoints [] ports = ports
add_endpoints (ep ∷ eps) ports =
    let (capped, ports') = add_cables ep (direction_of ep.address) 0 ep.embedded_ids ports in
    let rest = add_endpoints eps ports' in if capped then ports' else rest

-- The C result, and `*out` by its used entries.
unfoldable pub ports_from_ms : Option MsInfo → ℕ × List LogicalPort
unfolding add_endpoints
ports_from_ms none = (0, [])
ports_from_ms (some info) = (1, add_endpoints info.endpoints [])
