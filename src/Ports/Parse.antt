-- ===== src/Ports/Parse.antt =====
-- `um9_ms_parse` of core/ports.c, on the walker of core/descriptors.c.
pub mod Limits
pub mod Safety
use usbmidi.Prelude.{
  ltb, leb, ◌>>=◌, ◌==◌, if◌then◌else◌, length, ℕ, zero, suc, ◌+◌, ◌-◌, Bool, true, false, not,
  ◌&&◌, ◌||◌, Option, none, some, List, [], ◌∷◌, ◌++◌,
}
use usbmidi.Descriptors.{
  DescIter, DescErr, desc_iter_init, desc_iter_next, desc_u8, desc_u16le, no_error,
}
use usbmidi.Ports.{
  Jack, Endpoint, MsInfo, zero_info, max_jacks, max_jack_sources, max_endpoints, max_embedded_jacks,
  ports_from_ms, LogicalPort, jack_in, jack_out,
}

-- the local variables of `um9_ms_parse`, and `*out`
pub record Parser : Type 0 where
  pub in_ms : Bool
  pub cur_ep_address : ℕ
  pub cur_ep_attributes : ℕ
  pub cur_ep_max_packet : ℕ
  pub info : MsInfo

-- `for (i = 0u; i < n; i++) ...[i] = um9_desc_u8(&it, off + i)`, with the rounds that are left
unfoldable pub read_ids : DescIter → ℕ → ℕ → Option (List ℕ)
read_ids it off zero = some []
read_ids it off (suc n) =
    desc_u8 it off >>= λ id. (read_ids it (off + 1) n >>= λ ids. some (id ∷ ids))

abbrev pub clamp : ℕ → ℕ → ℕ
clamp n limit = if ltb limit n then limit else n

-- `um9_ms_add_jack`, with the fields that its callers fill in
abbrev pub add_jack : MsInfo → Jack → MsInfo
add_jack info jack = record info {
  jacks = info.jacks ++ jack ∷ [];
  num_in_jacks = elim jack.direction [
    | jack_in ↦ info.num_in_jacks + 1
    | jack_out ↦ info.num_in_jacks
  ];
  num_out_jacks = elim jack.direction [
    | jack_in ↦ info.num_out_jacks
    | jack_out ↦ info.num_out_jacks + 1
  ];
}

-- `subtype == UM9_MS_MIDI_IN_JACK`
abbrev pub in_jack : DescIter → MsInfo → Option MsInfo
in_jack it info =
    if leb max_jacks (length info.jacks)
    then some info
    else (desc_u8 it 3 >>= λ jack_type.
        (desc_u8 it 4 >>= λ id. some (
          add_jack info
            (record { id = id; jack_type = jack_type; direction = jack_in; source_ids = [] }))))

-- `subtype == UM9_MS_MIDI_OUT_JACK`
abbrev pub out_jack : DescIter → MsInfo → Option MsInfo
out_jack it info = desc_u8 it 5 >>= λ npins.
    (if leb max_jacks (length info.jacks)
      then some info
      else (desc_u8 it 3 >>= λ jack_type.
          (desc_u8 it 4 >>= λ id.
          (read_ids it 6 (clamp (clamp npins max_jack_sources) (it.blen - 7)) >>= λ ids. some (
            add_jack info (record {
              id = id;
              jack_type = jack_type;
              direction = jack_out;
              source_ids = ids;
            }))))))

-- `UM9_DT_CS_INTERFACE`
unfoldable pub cs_interface : DescIter → MsInfo → ℕ → Option MsInfo
cs_interface it info subtype =
    if subtype == 1 && leb 7 it.blen
    then (desc_u16le it 3 >>= λ bcd.
        (desc_u16le it 5 >>= λ total. some (record info { bcd_msc = bcd; wtotal_length = total })))
    else if subtype == 2 && leb 6 it.blen
    then in_jack it info
    else if subtype == 3 && leb 9 it.blen
    then out_jack it info
    else some info

abbrev pub new_endpoint : Parser → List ℕ → Endpoint
new_endpoint p ids = record {
  address = p.cur_ep_address;
  attributes = p.cur_ep_attributes;
  max_packet_size = p.cur_ep_max_packet;
  embedded_ids = ids;
}

-- `um9_ms_add_endpoint`, with the identifiers that its caller fills in
abbrev pub add_endpoint : Parser → List ℕ → MsInfo
add_endpoint p ids = record p.info { endpoints = p.info.endpoints ++ new_endpoint p ids ∷ [] }

-- `UM9_DT_CS_ENDPOINT`
unfoldable pub cs_endpoint : DescIter → Parser → ℕ → Option MsInfo
cs_endpoint it p subtype =
    if subtype == 1 && leb 5 it.blen && not (p.cur_ep_address == 0)
    then (desc_u8 it 3 >>= λ n.
        (if leb max_endpoints (length p.info.endpoints)
          then some p.info
          else (read_ids it 4 (clamp (clamp n max_embedded_jacks) (it.blen - 4)) >>= λ ids.
              some (add_endpoint p ids))))
    else some p.info

-- the fields of the MIDIStreaming interface descriptor
abbrev pub found_interface : DescIter → Parser → ℕ → ℕ → Option Parser
found_interface it p class subclass = desc_u8 it 2 >>= λ number.
    (desc_u8 it 3 >>= λ alternate.
    (desc_u8 it 4 >>= λ endpoints. some (record p {
      in_ms = true;
      info = record p.info {
        found = 1;
        interface_number = number;
        alternate_setting = alternate;
        num_endpoints_declared = endpoints;
        interface_class = class;
        interface_subclass = subclass;
      };
    })))

-- `if (!in_ms) { ... continue; }`
unfoldable pub outside : DescIter → Parser → Option Parser
outside it p =
    if it.btype == 1 && leb 18 it.blen
    then (desc_u16le it 8 >>= λ vid.
        (desc_u16le it 10 >>= λ pid.
        some (record p { info = record p.info { vid = vid; pid = pid } })))
    else if it.btype == 4 && leb 9 it.blen
    then (desc_u8 it 5 >>= λ class.
        (if not (class == 1)
          then some p
          else (desc_u8 it 6 >>= λ subclass.
              (if subclass == 3 then found_interface it p class subclass else some p))))
    else some p

-- the descriptors of the MIDIStreaming set
unfoldable pub inside : DescIter → Parser → Option Parser
unfolding cs_interface cs_endpoint
inside it p =
    if it.btype == 5 && leb 7 it.blen
    then (desc_u8 it 2 >>= λ address.
        (desc_u8 it 3 >>= λ attributes.
        (desc_u16le it 4 >>= λ max_packet. some (record p {
          cur_ep_address = address;
          cur_ep_attributes = attributes;
          cur_ep_max_packet = max_packet;
        }))))
    else if it.btype == 0x24
    then (desc_u8 it 2 >>= λ subtype.
        (cs_interface it p.info subtype >>= λ info. some (record p { info = info })))
    else if it.btype == 0x25
    then (desc_u8 it 2 >>= λ subtype.
        (cs_endpoint it p subtype >>= λ info. some (record p { info = info })))
    else some p

-- the body of the loop; `false` is its `break`
unfoldable pub body : DescIter → Parser → Option (Bool × Parser)
unfolding outside inside
body it p =
    if not p.in_ms
    then (outside it p >>= λ p'. some (true, p'))
    else if it.btype == 4 || it.btype == 2 || it.btype == 1
    then some (false, p)
    else (inside it p >>= λ p'. some (true, p'))

-- the loop, on fuel
unfoldable pub ms_loop : ℕ → DescIter → Parser → Option (DescIter × Parser)
unfolding body
ms_loop zero it p = none
ms_loop (suc fuel) it p = desc_iter_next it >>= λ step.
    (if not step.0
      then some (step.1, p)
      else (body step.1 p >>= λ r.
          (if not r.0 then some (step.1, r.1) else ms_loop fuel step.1 r.1)))

abbrev pub result_of : DescErr → ℕ
result_of no_error = 1
result_of _ = 0

abbrev pub new_parser : Parser
new_parser = record {
  in_ms = false;
  cur_ep_address = 0;
  cur_ep_attributes = 0;
  cur_ep_max_packet = 0;
  info = zero_info;
}

-- `um9_ms_parse` with `out` not NULL: the C result and `*out`. Each round but the last moves the
-- walker on, so one more than the bytes is enough.
unfoldable pub ms_parse : Option (List ℕ) → ℕ → Option (ℕ × MsInfo)
unfolding ms_loop
ms_parse buf len = ms_loop (len + 1) (desc_iter_init buf len) new_parser >>= λ (it, p).
    some (result_of it.err, p.info)

-- `um9_ports_parse`: on a failure `*out` is left alone, written as `none`.
unfoldable pub ports_parse : Option (List ℕ) → ℕ → Option (ℕ × Option (List LogicalPort))
unfolding ms_parse
ports_parse buf len = ms_parse buf len >>= λ (ret, info).
    (if ret == 0
      then some (0, none)
      else let (ret', ports) = ports_from_ms (some info) in some (ret', some ports))
