-- ===== src/Oms/Messages/Started.antt =====
-- oms/oms_driver.c: the start of MIDI, and notifications about other devices.
use mathlib.Core.Path.{subst}
use native.Mathlib.Decide.{ℕ_discrete}
use usbmidi.Prelude.{
  Returns-map, Returns-both, pick, if_Returns, then_Returns, leb, Returns, ◌==◌, Bool-cases, word,
  ℕ, ◌<◌, ◌≡◌, refl, sym, ap, ◌∙◌, ◌≢◌, ◌⊎◌, inl, inr, true, false, ◌&&◌, Option, none, some, List,
  [], arith,
}
use usbmidi.Rx.{rx_init}
use usbmidi.Oms.Receive.Drained.{IsSource}
use usbmidi.Oms.Receive.Emptied.{IsApart, rx_drain_all-empties}
use usbmidi.Oms.{Table, OmsPort, Shim, oms_max_interfaces, OmsIface}
use usbmidi.Oms.Receive.{rx_drain_all, rx_event, drain_from, rx_drain}
use usbmidi.Oms.Receive.Kept.{Kept, rx_drain_all-Kept, SourceOf}
use usbmidi.Oms.Lifecycle.{
  restarted, usb_notify, is_bound, ensure_dispatch, Lookup, removed, detach,
}
use usbmidi.Oms.Lifecycle.Lived.{IsSane, Tried, SourcesOf, ensure_dispatch-Tried}
use usbmidi.Oms.Messages.{start_midi2, restart_ports}

module _ {D : Type 0} (held : D → ℕ → List ℕ) where
  -- Behind the start, MIDI runs, and nothing has been delivered that came before.
  abbrev pub Restarted : Shim D → Shim D → Type 0
  Restarted s s' =
      (s'.oms.midi_started ≡ true)
      × (s'.oms.notifier_installed ≡ s.oms.notifier_installed)
      × (s'.oms.send_upp ≡ s.oms.send_upp)
      × IsSane held s'
      × ((s.oms.midi_started ≡ true) ⊎ (s'.delivered ≡ s.delivered))

  restarted-IsSane :
      (s1 s2 : Shim D)
      → IsSane held s1
      → Kept false s1 s2
      → IsSane held (record s2 {
        oms = record s2.oms { ifaces = restart_ports s2.oms.ifaces; midi_started = true };
      })
  unfolding restart_ports
  restarted-IsSane s1 s2 good kept = record {
    served = subst (SourceOf held) (sym kept.table) good.served;
    tied = elim good.tied [
      | inl b ↦ inl (ap is_bound kept.table ∙ b)
      | inr (off, invalid) ↦ inr (
        kept.registered ∙ off,
        λ i.
            pick (λ (x : OmsIface). x.valid ≡ false) (s2.oms.ifaces i).valid _ (s2.oms.ifaces i)
              (kept.valid i ∙ invalid i) (kept.valid i ∙ invalid i),
      )
    ];
  }

  pub start_midi2-Restarted :
      (found : List (ℕ × Lookup D)) (s : Shim D)
      → SourcesOf held found
      → IsSane held s
      → Returns (Restarted s) (start_midi2 found s)
  unfolding start_midi2
  start_midi2-Restarted found s h k =
      then_Returns (Tried held s) (Restarted s) (ensure_dispatch found s) _
        (ensure_dispatch-Tried held found s h k)
        (λ (err, s1) (lived, _).
          then_Returns (Kept false s1) (Restarted s) (rx_drain_all false s1) _
            (rx_drain_all-Kept held false s1 lived.sane.served)
            (λ s2 kept. (
              refl,
              kept.installed ∙ lived.installed,
              kept.upp ∙ lived.upp,
              restarted-IsSane s1 s2 lived.sane kept,
              elim lived.silent [
                | inl m ↦ inl m
                | inr same ↦ elim kept.silent [
                  | inl f ↦ absurd (ground (arith, f))
                  | inr same' ↦ inr (same' ∙ same)
                ]
              ],
            )))

-- a port that is not in use, or has no message open, none waiting, and nothing carried over
abbrev pub IsFresh : OmsPort → Type 0
IsFresh port =
    (port.valid ≡ false)
    ⊎ ((port.rx.in_sysex ≡ false) × (port.rx.count ≡ 0) × (port.send.tx_carry_len ≡ 0))

restarted-IsFresh : (port : OmsPort) (c : ℕ) → IsFresh (restarted port c)
unfolding rx_init
restarted-IsFresh port c = elim (Bool-cases port.valid) [
  | inl e ↦ rw e (inr (refl, refl, refl))
  | inr e ↦ rw e (inl refl)
]

restart_ports-IsFresh :
    (ifaces : ℕ → OmsIface) (j c : ℕ)
    → (ifaces j).valid ≡ true
    → IsFresh ((restart_ports ifaces j).ports c)
unfolding restart_ports
restart_ports-IsFresh ifaces j c on = rw on (restarted-IsFresh ((ifaces j).ports c) c)

-- With the table at hand, the start discards what interface `j` has received.
start_midi2-empties :
    {D : Type 0} {table : Table D} {held : D → ℕ → List ℕ} (found : List (ℕ × Lookup D))
    (s : Shim D) (j c : ℕ)
    → IsSource table held
    → IsApart table held
    → s.oms.table ≡ some table
    → s.oms.rx_packets < word
    → j < oms_max_interfaces
    → (s.oms.ifaces j).valid ≡ true
    → Returns
        (λ (s' : Shim D). (held s'.driver j ≡ []) × IsFresh ((s'.oms.ifaces j).ports c))
        (start_midi2 found s)
unfolding start_midi2 ensure_dispatch
start_midi2-empties {D} {table} {held} found s j c source apart there small lt on =
    let P : Shim D → Type 0 = λ s'. (held s'.driver j ≡ []) × IsFresh ((s'.oms.ifaces j).ports c) in
    let relied : SourceOf held s.oms.table = subst (SourceOf held) (sym there) source in
    let Q : Shim D → Type 0 = λ s2. (held s2.driver j ≡ []) × Kept false s s2 in
    let known : is_bound s.oms.table ≡ true = ap is_bound there in
    let drained =
      Returns-both (λ (s2 : Shim D). held s2.driver j ≡ []) (Kept false s) (rx_drain_all false s)
        (rx_drain_all-empties source apart false j s there lt on small)
        (rx_drain_all-Kept held false s relied) in
    rw known (
      then_Returns Q P (rx_drain_all false s) _ drained
        (λ s2 (empty, kept). (empty, restart_ports-IsFresh s2.oms.ifaces j c (kept.valid j ∙ on))))

-- the law of the class driver that is cached, if one is
abbrev pub ApartOf : {D : Type 0} → (D → ℕ → List ℕ) → Option (Table D) → Type 0
ApartOf held none = Unit
ApartOf held (some table) = IsApart table held

-- what is left for interface `j` and its port `c`
abbrev pub Discarded : {D : Type 0} → (D → ℕ → List ℕ) → ℕ → ℕ → Shim D → Shim D → Type 0
Discarded held j c s s' =
    (is_bound s.oms.table ≡ false)
    ⊎ (((s.oms.ifaces j).valid ≡ false)
        ⊎ ((held s'.driver j ≡ []) × IsFresh ((s'.oms.ifaces j).ports c)))

start_midi2-Discarded :
    {D : Type 0} (held : D → ℕ → List ℕ) (found : List (ℕ × Lookup D)) (s : Shim D) (j c : ℕ)
    (t : Option (Table D))
    → s.oms.table ≡ t
    → SourceOf held t
    → ApartOf held t
    → s.oms.rx_packets < word
    → j < oms_max_interfaces
    → Returns (Restarted held s) (start_midi2 found s)
    → Returns (Discarded held j c s) (start_midi2 found s)
start_midi2-Discarded held found s j c none e source apart small lt ends =
    Returns-map (Restarted held s) (Discarded held j c s) (start_midi2 found s) ends
      (λ s' k. inl (ap is_bound e))
start_midi2-Discarded held found s j c (some table) e source apart small lt ends =
    elim (Bool-cases (s.oms.ifaces j).valid) [
      | inl on ↦
          Returns-map _ (Discarded held j c s) (start_midi2 found s)
            (start_midi2-empties found s j c source apart e small lt on) (λ s' k. inr (inr k))
      | inr off ↦
          Returns-map (Restarted held s) (Discarded held j c s) (start_midi2 found s) ends
            (λ s' k. inr (inl off))
    ]

-- Where all tables are sources, a dequeue for one interface leaves the others alone, and the state is
-- in order: a start of MIDI that was off ends with MIDI on, and hands nothing to OMS of what came
-- before. If the class driver was known, then for every valid interface all bytes that it held are
-- gone, so that they are not delivered later either, and no port in use has a SysEx open, a message
-- waiting or bytes carried over.
pub start_midi2_discards :
    {D : Type 0} (held : D → ℕ → List ℕ) (found : List (ℕ × Lookup D)) (s : Shim D) (j c : ℕ)
    → SourcesOf held found
    → IsSane held s
    → ApartOf held s.oms.table
    → s.oms.midi_started ≡ false
    → s.oms.rx_packets < word
    → j < oms_max_interfaces
    → Returns
        (λ (s' : Shim D).
          ((s'.oms.midi_started ≡ true) × (s'.delivered ≡ s.delivered)) × Discarded held j c s s')
        (start_midi2 found s)
start_midi2_discards {D} held found s j c h k apart off small lt =
    let silent : Shim D → Type 0 =
      λ s'. (s'.oms.midi_started ≡ true) × (s'.delivered ≡ s.delivered) in
    let ends = start_midi2-Restarted held found s h k in
    Returns-both silent (Discarded held j c s) (start_midi2 found s)
      (Returns-map (Restarted held s) silent (start_midi2 found s) ends (λ s' (on, _, _, _, quiet).
        (on, elim quiet [ inl was ↦ absurd (ground (arith, off, was)) | inr same ↦ same ])))
      (start_midi2-Discarded held found s j c s.oms.table refl k.served apart small lt ends)

-- With a class driver cached, the removal of another device changes nothing. The removal of its
-- own device leaves no table and no valid interface, and an event behind it ends and hands
-- nothing to OMS.
pub usb_notify_forgets :
    {D : Type 0} (ref index : ℕ) (s : Shim D)
    → is_bound s.oms.table ≡ true
    → Returns
        (λ (s' : Shim D).
          ((ref ≢ s.oms.device_ref) × (s' ≡ s))
          ⊎ ((ref ≡ s.oms.device_ref)
              × (is_bound s'.oms.table ≡ false)
              × ((s'.oms.ifaces index).valid ≡ false)
              × Returns (λ (s'' : Shim D). s''.delivered ≡ s'.delivered) (rx_event index s')))
        (usb_notify (some (removed ref)) s)
unfolding usb_notify detach rx_event rx_drain drain_from
usb_notify_forgets {D = D} ref index s b = elim (ℕ_discrete ref s.oms.device_ref) [
  | yes e ↦
      let both : (is_bound s.oms.table && ref == s.oms.device_ref) ≡ true = ground (arith, b, e) in
      rw both (
        inr (
          e,
          refl,
          refl,
          if_Returns (λ (s'' : Shim D). s''.delivered ≡ s.delivered) (leb oms_max_interfaces index)
              _ _ (λ _. refl) (λ _. refl),
        ))
  | no ne ↦
      let other : (is_bound s.oms.table && ref == s.oms.device_ref) ≡ false = ground (arith, ne) in
      rw other (inl (ne, refl))
]
