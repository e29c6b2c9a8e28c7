-- ===== src/Oms/Receive/Idle.antt =====
-- The ports of an interface behind a drain of oms/oms_rx.c.
use mathlib.Core.Path.{subst}
use mathlib.Core.List.{map}
use usbmidi.Prelude.{
  pick, leb, Returns, ◌==◌, Bool-cases, word, inc, length, get_or, ℕ, suc, ◌+◌, ◌/◌, ◌%◌, ◌<◌, ◌≡◌,
  refl, sym, ap, ◌∙◌, ◌⊎◌, inl, inr, Bool, false, not, List, [], ◌∷◌, arith,
}
use usbmidi.Rx.{RxStream, rx_init, rx_queue, clear_slot, RxMsg}
use usbmidi.Stream.Listen.{IsIdle, deliver_one-heard}
use usbmidi.Stream.{deliver, deliver_one}
use usbmidi.Oms.{OmsPort, oms_cables, put_at, Table}
use usbmidi.Oms.Receive.{
  Flow, opened, pass_on, pass_all, drain_packet, drain_packets, drain_chunk, drain_rounds,
}
use usbmidi.Oms.Receive.Drained.{IsSource, drain_takes_all}

-- The queue has its slots, and holds nothing if the port is in use.
pub record IsSound (p : OmsPort) : Type 0 where
  pub slots : length p.rx.pending ≡ rx_queue
  pub idle : (p.valid ≡ false) ⊎ IsIdle p.rx

abbrev map_clear : List RxMsg → List RxMsg
map_clear l = map clear_slot l

length-map_clear : (l : List RxMsg) → length (map_clear l) ≡ length l
length-map_clear [] = refl
length-map_clear (x ∷ l) = ap suc (length-map_clear l)

pub rx_init-IsIdle :
    (s : RxStream) (cable : ℕ) → length s.pending ≡ rx_queue → IsIdle (rx_init s cable)
unfolding rx_init
rx_init-IsIdle s cable slots = record {
  valid = record {
    slots = length-map_clear s.pending ∙ slots;
    head_in = omega arith;
    count_in = omega arith;
  };
  nothing = refl;
}

opened-IsIdle : (p : OmsPort) (cable : ℕ) → IsSound p → IsIdle (opened p cable).rx
unfolding opened
opened-IsIdle p cable h = elim (Bool-cases p.valid) [
  | inl e ↦ elim h.idle [ inl n ↦ absurd (ground (arith, e, n)) | inr i ↦ rw e i ]
  | inr e ↦ rw e (rx_init-IsIdle p.rx cable h.slots)
]

module _ (deliver : Bool) (routine : ℕ) where
  pub pass_all-ports :
      (port : OmsPort) (f : Flow) (ms : List RxMsg)
      → (pass_all deliver routine port f ms).ports ≡ f.ports
  unfolding pass_all pass_on
  pass_all-ports port f [] = refl
  pass_all-ports port f (m ∷ ms) =
      pass_all-ports port (pass_on deliver routine port f m) ms ∙ ground arith

  drain_packet-IsSound :
      (f : Flow) (buf : List ℕ) (c : ℕ)
      → ((k : ℕ) → IsSound (f.ports k))
      → IsSound ((drain_packet deliver routine f buf).ports c)
  unfolding drain_packet
  drain_packet-IsSound f buf c h =
      let cable = get_or buf 0 0 / 16 % 16 in
      let port = opened (f.ports cable) cable in
      let (messages, rx') = deliver_one port.rx buf in
      let heard = record port { rx = rx' } in
      let stored = record f { ports = put_at f.ports cable heard } in
      let idle = (deliver_one-heard buf (opened-IsIdle (f.ports cable) cable (h cable))).idle in
      pick (λ g. IsSound (g.ports c)) (leb oms_cables cable) (record f { dropped = inc f.dropped })
        (pass_all deliver routine heard stored messages) (h c)
        (subst (λ ps. IsSound (ps c)) (sym (pass_all-ports heard stored messages))
          (pick IsSound (c == cable) heard (f.ports c)
            (record { slots = idle.valid.slots; idle = inr idle }) (h c)))

  drain_packets-IsSound :
      (f : Flow) (bytes : List ℕ) (c : ℕ)
      → ((k : ℕ) → IsSound (f.ports k))
      → IsSound ((drain_packets deliver routine f bytes).ports c)
  unfolding drain_packets
  drain_packets-IsSound f [] c h = h c
  drain_packets-IsSound f (a ∷ []) c h = h c
  drain_packets-IsSound f (a ∷ b ∷ []) c h = h c
  drain_packets-IsSound f (a ∷ b ∷ x ∷ []) c h = h c
  drain_packets-IsSound f (a ∷ b ∷ x ∷ y ∷ rest) c h =
      drain_packets-IsSound (drain_packet deliver routine f (a ∷ b ∷ x ∷ y ∷ [])) rest c
        (λ k. drain_packet-IsSound f (a ∷ b ∷ x ∷ y ∷ []) k h)

  drain_chunk-IsSound :
      (f : Flow) (packets : ℕ) (bytes : List ℕ) (c : ℕ)
      → ((k : ℕ) → IsSound (f.ports k))
      → IsSound ((drain_chunk deliver routine (f, packets) bytes).0.ports c)
  unfolding drain_chunk
  drain_chunk-IsSound f packets bytes c h =
      let f' = drain_packets deliver routine f bytes in
      let sound = drain_packets-IsSound f bytes c h in
      pick (λ g. IsSound (g.ports c)) (not (length bytes % 4 == 0))
        (record f' { dropped = (f'.dropped + length bytes % 4) % word }) f' sound sound

-- A drain of a source with more rounds than there are bytes leaves no message behind in the
-- queue of a port, whatever the bytes are and whether or not their messages go to OMS: if every
-- port in use was empty before the drain, a port in use is empty behind it.
pub drain_leaves_idle :
    {D : Type 0} {table : Table D} {held : D → ℕ → List ℕ} (deliver : Bool) (routine fuel index : ℕ)
    (f : Flow) (packets : ℕ) (d : D) (c : ℕ)
    → IsSource table held
    → packets < word
    → length (held d index) < fuel
    → ((k : ℕ) → IsSound (f.ports k))
    → Returns
        (λ (r : (Flow × ℕ) × D). IsSound (r.0.0.ports c))
        (drain_rounds deliver routine fuel table index (f, packets) d)
drain_leaves_idle {held = held} deliver routine fuel index f packets d c s p lt h =
    let (d', _, done) = drain_takes_all deliver routine fuel index f packets d s p lt in
    subst (Returns (λ r. IsSound (r.0.0.ports c))) (sym done)
      (drain_chunk-IsSound deliver routine f packets (held d index) c h)

-- A drain that does not deliver makes no call of OMS.
pub pass_all-silent :
    (routine : ℕ) (port : OmsPort) (f : Flow) (ms : List RxMsg)
    → (pass_all false routine port f ms).delivered ≡ f.delivered
unfolding pass_all pass_on
pass_all-silent routine port f [] = refl
pass_all-silent routine port f (m ∷ ms) =
    pass_all-silent routine port (pass_on false routine port f m) ms

drain_packet-silent :
    (routine : ℕ) (f : Flow) (buf : List ℕ)
    → (drain_packet false routine f buf).delivered ≡ f.delivered
unfolding drain_packet
drain_packet-silent routine f buf =
    let cable = get_or buf 0 0 / 16 % 16 in
    let port = opened (f.ports cable) cable in
    let (messages, rx') = deliver_one port.rx buf in
    let heard = record port { rx = rx' } in
    let stored = record f { ports = put_at f.ports cable heard } in
    pick (λ (g : Flow). g.delivered ≡ f.delivered) (leb oms_cables cable)
      (record f { dropped = inc f.dropped }) (pass_all false routine heard stored messages) refl
      (pass_all-silent routine heard stored messages)

drain_packets-silent :
    (routine : ℕ) (f : Flow) (bytes : List ℕ)
    → (drain_packets false routine f bytes).delivered ≡ f.delivered
unfolding drain_packets
drain_packets-silent routine f [] = refl
drain_packets-silent routine f (a ∷ []) = refl
drain_packets-silent routine f (a ∷ b ∷ []) = refl
drain_packets-silent routine f (a ∷ b ∷ x ∷ []) = refl
drain_packets-silent routine f (a ∷ b ∷ x ∷ y ∷ rest) =
    drain_packets-silent routine (drain_packet false routine f (a ∷ b ∷ x ∷ y ∷ [])) rest
    ∙ drain_packet-silent routine f (a ∷ b ∷ x ∷ y ∷ [])

pub drain_chunk-silent :
    (routine : ℕ) (f : Flow × ℕ) (bytes : List ℕ)
    → (drain_chunk false routine f bytes).0.delivered ≡ f.0.delivered
unfolding drain_chunk
drain_chunk-silent routine (f, packets) bytes =
    let silent = drain_packets-silent routine f bytes in
    pick (λ (g : Flow). g.delivered ≡ f.delivered) (not (length bytes % 4 == 0)) _ _ silent silent
