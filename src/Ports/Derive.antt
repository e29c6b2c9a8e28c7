-- ===== src/Ports/Derive.antt =====
-- The logical ports of core/ports.c, against their description.
use mathlib.Core.Path.{subst}
use usbmidi.Prelude.{
  leb, leb→le, Bool-cases, length, take, length-append, ℕ, zero, suc, ◌+◌, ◌≤◌, ◌<◌, ◌≡◌, refl, sym,
  ap, ◌∙◌, ◌⊎◌, inl, inr, Bool, true, false, some, List, [], ◌∷◌, ◌++◌, append-nil, append_assoc,
  arith,
}
use usbmidi.Ports.{
  Endpoint, LogicalPort, PortDir, MsInfo, max_ports, add_cables, direction_of, add_endpoints,
  ports_from_ms,
}

-- one port for each embedded jack of an endpoint, from cable `i` on
abbrev pub cables : Endpoint → PortDir → ℕ → List ℕ → List LogicalPort
cables ep dir i [] = []
cables ep dir i (id ∷ ids) =
    record { endpoint_address = ep.address; port_direction = dir; cable = i; embedded_jack_id = id }
    ∷ cables ep dir (i + 1) ids

-- Cable N of an endpoint is its Nth embedded jack.
abbrev pub all_ports : List Endpoint → List LogicalPort
all_ports [] = []
all_ports (ep ∷ eps) = cables ep (direction_of ep.address) 0 ep.embedded_ids ++ all_ports eps

take_all_of {ℓ} : {A : Type ℓ} (n : ℕ) (xs : List A) → length xs ≤ n → take n xs ≡ xs
take_all_of zero [] h = refl
take_all_of (suc n) [] h = refl
take_all_of zero (x ∷ xs) h = absurd (omega arith)
take_all_of (suc n) (x ∷ xs) h = ap (◌∷◌ x) (take_all_of n xs (omega arith))

-- What stands behind the first `n` does not matter.
take_behind {ℓ} :
    {A : Type ℓ} (n : ℕ) (xs ys : List A) → length (take n xs) ≡ n → take n (xs ++ ys) ≡ take n xs
take_behind zero [] [] h = refl
take_behind zero [] (y ∷ ys) h = refl
take_behind zero (x ∷ xs) ys h = refl
take_behind (suc n) [] ys h = absurd (omega arith)
take_behind (suc n) (x ∷ xs) ys h = ap (◌∷◌ x) (take_behind n xs ys (omega arith))

-- Either the cap was reached, or all the ports were added.
abbrev Added : List LogicalPort → Bool × List LogicalPort → Type 0
Added ports (capped, ports') =
    ((capped ≡ true) × (ports' ≡ take max_ports ports) × (length ports' ≡ max_ports))
    ⊎ ((capped ≡ false) × (ports' ≡ ports) × (length ports' ≤ max_ports))

add_cables-Added :
    (ep : Endpoint) (dir : PortDir) (i : ℕ) (ids : List ℕ) (ports : List LogicalPort)
    → length ports ≤ max_ports
    → Added (ports ++ cables ep dir i ids) (add_cables ep dir i ids ports)
unfolding add_cables
add_cables-Added ep dir i [] ports h = inr (refl, sym (append-nil ports), h)
add_cables-Added ep dir i (id ∷ ids) ports h =
    let port : LogicalPort = record {
      endpoint_address = ep.address;
      port_direction = dir;
      cable = i;
      embedded_jack_id = id;
    } in
    elim (Bool-cases (leb max_ports (length ports))) [
      | inl full ↦
          let n : length ports ≡ max_ports = omega (arith, leb→le max_ports (length ports) full) in
          let front : take max_ports ports ≡ ports = take_all_of max_ports ports h in
          let e = take_behind max_ports ports (cables ep dir i (id ∷ ids)) (ap length front ∙ n) in
          rw (full) (inl (refl, sym (e ∙ front), n))
      | inr room ↦
          let less : length ports < max_ports = ground (arith, room) in
          let more =
            add_cables-Added ep dir (i + 1) ids (ports ++ port ∷ [])
              (omega (arith, length-append ports (port ∷ []))) in
          rw (room) (
            subst (λ l. Added l (add_cables ep dir (i + 1) ids (ports ++ port ∷ [])))
              (append_assoc ports (port ∷ []) (cables ep dir (i + 1) ids)) more)
    ]

add_endpoints-take :
    (eps : List Endpoint) (ports : List LogicalPort)
    → length ports ≤ max_ports
    → add_endpoints eps ports ≡ take max_ports (ports ++ all_ports eps)
unfolding add_endpoints
add_endpoints-take [] ports h =
    sym (ap (λ l. take max_ports l) (append-nil ports) ∙ take_all_of max_ports ports h)
add_endpoints-take (ep ∷ eps) ports h =
    let dir = direction_of ep.address in
    let here = cables ep dir 0 ep.embedded_ids in
    let added = add_cables ep dir 0 ep.embedded_ids ports in
    let join = append_assoc ports here (all_ports eps) in
    elim (add_cables-Added ep dir 0 ep.embedded_ids ports h) [
      | inl (c, e, n) ↦ rw (c) (
          e
          ∙ sym (take_behind max_ports (ports ++ here) (all_ports eps) (ap length (sym e) ∙ n))
          ∙ ap (λ l. take max_ports l) join)
      | inr (c, e, n) ↦ rw (c) (
          add_endpoints-take eps added.1 n
          ∙ ap (λ l. take max_ports (l ++ all_ports eps)) e
          ∙ ap (λ l. take max_ports l) join)
    ]

-- The ports of a parsed interface are one for each embedded jack of each endpoint, in order, with
-- the jack's place in its endpoint for the cable; the first 32 of them if there are more.
pub ports_from_ms_all :
    (info : MsInfo) → ports_from_ms (some info) ≡ (1, take max_ports (all_ports info.endpoints))
unfolding ports_from_ms
ports_from_ms_all info = ap (λ l. (1, l)) (add_endpoints-take info.endpoints [] (omega arith))
