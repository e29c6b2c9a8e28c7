-- ===== src/Oms/Receive/Cable.antt =====
-- What a drain of oms/oms_rx.c passes to OMS for one port.
use usbmidi.Prelude.{
  ◌==◌, if◌then◌else◌, Bool-cases, ℕ, ◌/◌, ◌%◌, ◌≡◌, refl, sym, ap, ap₂, ◌∙◌, ◌≢◌, inl, inr, Bool,
  true, false, List, [], ◌∷◌, ◌++◌, append-nil, append_assoc, arith,
}
use usbmidi.Rx.{RxMsg}
use usbmidi.Oms.{OmsPort, OmsPacket}
use usbmidi.Oms.Receive.{Flow, is_negative, build_packet, pass_on, pass_all}

-- the packets among the calls of OMS that are for one reference number
abbrev pub for_port : ℕ → List (OmsPacket × ℕ) → List OmsPacket
for_port ref [] = []
for_port ref ((packet, to) ∷ calls) = (if to == ref then packet ∷ [] else []) ++ for_port ref calls

-- the Event Packets of one cable among the bytes; what is left behind the last of four is passed over
abbrev pub of_cable : ℕ → List ℕ → List (List ℕ)
of_cable k (a ∷ b ∷ c ∷ d ∷ rest) =
    (if a / 16 % 16 == k then (a ∷ b ∷ c ∷ d ∷ []) ∷ [] else []) ++ of_cable k rest
of_cable k _ = []

-- the OMS packets of messages for one port
abbrev pub packets_for : OmsPort → List RxMsg → List OmsPacket
packets_for port [] = []
packets_for port (m ∷ ms) = build_packet port m ∷ packets_for port ms

-- The port of cable `k` is in use with reference number `ref`, which no other has.
pub record IsTied (ports : ℕ → OmsPort) (k ref : ℕ) : Type 0 where
  pub in_use : (ports k).valid ≡ true
  pub tied : (ports k).io_ref_num ≡ ref
  pub apart : (j : ℕ) → j ≢ k → (ports j).io_ref_num ≢ ref

for_port-append :
    (ref : ℕ) (xs ys : List (OmsPacket × ℕ))
    → for_port ref (xs ++ ys) ≡ for_port ref xs ++ for_port ref ys
for_port-append ref [] ys = refl
for_port-append ref ((packet, to) ∷ xs) ys =
    let one = if to == ref then packet ∷ [] else [] in
    ap (◌++◌ one) (for_port-append ref xs ys)
    ∙ sym (append_assoc one (for_port ref xs) (for_port ref ys))

pub packets_for-append :
    (port : OmsPort) (xs ys : List RxMsg)
    → packets_for port (xs ++ ys) ≡ packets_for port xs ++ packets_for port ys
packets_for-append port [] ys = refl
packets_for-append port (m ∷ xs) ys = ap (◌∷◌ (build_packet port m)) (packets_for-append port xs ys)

-- Only the reference number of the port is in its packets.
pub packets_for-same :
    (p q : OmsPort) (ms : List RxMsg)
    → p.io_ref_num ≡ q.io_ref_num
    → packets_for p ms ≡ packets_for q ms
unfolding build_packet
packets_for-same p q [] e = refl
packets_for-same p q (m ∷ ms) e =
    ap₂ ◌∷◌ (ap (λ r. build_packet (record p { io_ref_num = r }) m) e) (packets_for-same p q ms e)

module _ (routine ref : ℕ) (hooked : routine ≢ 0) (open_ref : is_negative ref ≡ false) where
  has_routine : (routine == 0) ≡ false
  has_routine = ground (arith, hooked)

  pass_on-mine :
      (port : OmsPort) (f : Flow) (m : RxMsg)
      → port.io_ref_num ≡ ref
      → for_port ref (pass_on true routine port f m).delivered
        ≡ for_port ref f.delivered ++ build_packet port m ∷ []
  unfolding pass_on
  pass_on-mine port f m e =
      let usable : is_negative port.io_ref_num ≡ false = ap is_negative e ∙ open_ref in
      let same : (port.io_ref_num == ref) ≡ true = ground (arith, e) in
      rw (usable, has_routine)
        (for_port-append ref f.delivered ((build_packet port m, port.io_ref_num) ∷ [])
          ∙ ap
              (λ (b : Bool).
                for_port ref f.delivered ++ ((if b then build_packet port m ∷ [] else []) ++ []))
              same)

  pass_on-other :
      (port : OmsPort) (f : Flow) (m : RxMsg)
      → port.io_ref_num ≢ ref
      → for_port ref (pass_on true routine port f m).delivered ≡ for_port ref f.delivered
  unfolding pass_on
  pass_on-other port f m ne =
      let other : (port.io_ref_num == ref) ≡ false = ground (arith, ne) in
      elim (Bool-cases (is_negative port.io_ref_num)) [
        | inl closed ↦ rw closed refl
        | inr usable ↦
            rw (usable, has_routine)
              (for_port-append ref f.delivered ((build_packet port m, port.io_ref_num) ∷ [])
                ∙ ap
                    (λ (b : Bool).
                      for_port ref f.delivered
                      ++ ((if b then build_packet port m ∷ [] else []) ++ []))
                    other
                ∙ append-nil (for_port ref f.delivered))
      ]

  pub pass_all-mine :
      (port : OmsPort) (f : Flow) (ms : List RxMsg)
      → port.io_ref_num ≡ ref
      → for_port ref (pass_all true routine port f ms).delivered
        ≡ for_port ref f.delivered ++ packets_for port ms
  unfolding pass_all
  pass_all-mine port f [] e = sym (append-nil (for_port ref f.delivered))
  pass_all-mine port f (m ∷ ms) e =
      pass_all-mine port (pass_on true routine port f m) ms e
      ∙ ap (λ l. l ++ packets_for port ms) (pass_on-mine port f m e)
      ∙ append_assoc (for_port ref f.delivered) (build_packet port m ∷ []) (packets_for port ms)

  pub pass_all-other :
      (port : OmsPort) (f : Flow) (ms : List RxMsg)
      → port.io_ref_num ≢ ref
      → for_port ref (pass_all true routine port f ms).delivered ≡ for_port ref f.delivered
  unfolding pass_all
  pass_all-other port f [] ne = refl
  pass_all-other port f (m ∷ ms) ne =
      pass_all-other port (pass_on true routine port f m) ms ne ∙ pass_on-other port f m ne
