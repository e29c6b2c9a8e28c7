-- ===== src/Oms/Messages/Ports.antt =====
-- oms/oms_driver.c with oms/oms_tx.c: the reference constant that the driver hands to OMS for a port
-- leads back to that port.
use usbmidi.Prelude.{
  ltb, leb, ◌==◌, if◌then◌else◌, Bool-cases, ℕ, ◌+◌, ◌-◌, ◌*◌, ◌/◌, ◌%◌, ◌≡◌, refl, ap, ap₂, ◌∙◌,
  ◌≢◌, ◌⊎◌, inl, inr, true, false, ◌||◌, some, List, arith,
}
use usbmidi.Oms.Send.{OmsTx, oms_tx_send, malformed, send_on, put_port, OmsMidiPacket}
use usbmidi.Oms.Lifecycle.{success, bad_dispatch_table, OmsErr}
use usbmidi.Oms.Messages.{
  get_port_send_proc, new_descriptor, is_outside, hand_out, OmsPortId, SendParams, Host,
}

-- what a send to this port does
abbrev pub sent_to : OmsTx → OmsPortId → OmsMidiPacket → List (List ℕ) → OmsTx
sent_to g id pkt out =
    let index = id.which_interface - 1 in
    let code = id.which_interface * 256 + id.which_port in
    let (port, sends') =
      send_on (g.ports index id.which_port, g.sends) code id.which_port pkt out in
    record g { ports = put_port g.ports index id.which_port port; sends = sends' }

-- `oms_tx_send` on the two numbers in its reference constant
send_at : OmsTx → ℕ → ℕ → OmsMidiPacket → List (List ℕ) → OmsTx
send_at g iface_no cable pkt out =
    if ltb iface_no 1 || ltb 8 iface_no || leb 16 cable
    then record g { sends = malformed g.sends }
    else sent_to g (record { which_interface = iface_no; which_port = cable }) pkt out

send_by_refcon :
    (g : OmsTx) (id : OmsPortId) (pkt : OmsMidiPacket) (out : List (List ℕ))
    → is_outside id ≡ false
    → oms_tx_send g (some pkt) (id.which_interface * 256 + id.which_port) out ≡ sent_to g id pkt out
unfolding oms_tx_send send_at
send_by_refcon g id pkt out inside =
    let refcon = id.which_interface * 256 + id.which_port in
    let i : refcon / 256 % 256 ≡ id.which_interface = ground (arith, inside) in
    let c : refcon % 256 ≡ id.which_port = ground (arith, inside) in
    ap₂ (λ m n. send_at g m n pkt out) i c
    ∙ ap (λ b. if b then record g { sends = malformed g.sends } else sent_to g id pkt out) inside

-- what is handed out, and where it leads
abbrev pub HandedOut :
    {D : Type 0}
    → OmsTx
    → OmsPortId
    → OmsMidiPacket
    → List (List ℕ)
    → Type 0
    → OmsErr × Host D
    → Type 0
HandedOut g id pkt out NoDescriptor (err, h') =
    (params : SendParams) × (h'.send_params ≡ some params)
    × (((err ≡ bad_dispatch_table) × (params.proc ≡ 0) × NoDescriptor)
        ⊎ ((err ≡ success)
            × (params.proc ≡ h'.shim.oms.send_upp)
            × (params.proc ≢ 0)
            × (oms_tx_send g (some pkt) params.param_d0 out ≡ sent_to g id pkt out)))

hand_out-HandedOut :
    {D : Type 0} (h : Host D) (id : OmsPortId) (g : OmsTx) (pkt : OmsMidiPacket)
    (out : List (List ℕ))
    → is_outside id ≡ false
    → HandedOut g id pkt out (h.shim.oms.send_upp ≡ 0) (hand_out id h)
unfolding hand_out
hand_out-HandedOut h id g pkt out inside = elim (Bool-cases (h.shim.oms.send_upp == 0)) [
  | inl e ↦ rw e (_, refl, inl (refl, refl, ground (arith, e)))
  | inr e ↦ rw e (_, refl, inr (refl, refl, ground (arith, e), send_by_refcon g id pkt out inside))
]

-- For a port that exists, the driver either has no routine descriptor and cannot get one, and then
-- says so and hands out no proc; or it hands out a proc with a reference constant, and a packet that
-- is sent with that constant is converted on the stream and the carry of just this port.
pub send_proc_leads_back :
    {D : Type 0} (h : Host D) (id : OmsPortId) (upp : ℕ) (g : OmsTx) (pkt : OmsMidiPacket)
    (out : List (List ℕ))
    → is_outside id ≡ false
    → HandedOut g id pkt out
        ((h.shim.oms.send_upp ≡ 0) × (upp ≡ 0))
        (get_port_send_proc (some id) true upp h)
unfolding get_port_send_proc new_descriptor
send_proc_leads_back h id upp g pkt out inside = elim (Bool-cases (h.shim.oms.send_upp == 0)) [
  | inl e ↦
      let h0 = new_descriptor upp h in
      let handed : get_port_send_proc (some id) true upp h ≡ hand_out id h0 =
        ap
          (λ b.
            if b then (success, h) else hand_out id (if h.shim.oms.send_upp == 0 then h0 else h))
          inside
        ∙ ap (λ b. hand_out id (if b then h0 else h)) e in
      let (params, written, result) = hand_out-HandedOut h0 id g pkt out inside in
      rw handed (
        params,
        written,
        elim result [
          | inl (err, no_proc, none_left) ↦ inl (err, no_proc, (ground (arith, e), none_left))
          | inr r ↦ inr r
        ],
      )
  | inr e ↦
      let h0 = new_descriptor upp h in
      let handed : get_port_send_proc (some id) true upp h ≡ hand_out id h =
        ap
          (λ b.
            if b then (success, h) else hand_out id (if h.shim.oms.send_upp == 0 then h0 else h))
          inside
        ∙ ap (λ b. hand_out id (if b then h0 else h)) e in
      let (params, written, result) = hand_out-HandedOut h id g pkt out inside in
      rw handed (
        params,
        written,
        elim result [
          | inl (err, no_proc, none_left) ↦ absurd (ground (arith, e, none_left))
          | inr r ↦ inr r
        ],
      )
]
