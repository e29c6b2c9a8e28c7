-- ===== src/Usb/Registry/Goodbye.antt =====
-- classic/usb_driver.c: what `kNotifyDriverBeingRemoved` does to the registry.
use mathlib.Core.Path.{subst}
use native.Mathlib.Decide.{ℕ_discrete}
use usbmidi.Prelude.{
  then_Returns, Returns, if◌then◌else◌, Bool-cases, ℕ, zero, suc, ◌+◌, ◌≤◌, ◌<◌, ◌≡◌, refl, sym, ap,
  ◌∙◌, ◌⊎◌, inl, inr, Bool, true, false, none, arith,
}
use usbmidi.Usb.{Instance}
use usbmidi.Usb.Registry.{
  Driver, instance_at, max_interfaces, world_of, put_world, OsStatus, device_busy, usb_no_err,
}
use usbmidi.Usb.Registry.Attach.{remove_one, remove_all, notify, driver_being_removed}
use usbmidi.Usb.Completion.{Callback}
use usbmidi.Usb.Registry.Notice.{Told, remove_one-Told, Removed}
use usbmidi.Usb.Registry.Slots.{
  instance_at-put_world_ne, instance_at-put_world, put_world-IsRegistry, IsRegistry, IsResting,
}

module _ (callback : Callback) where
  -- what the loop over the slots from `i` to `i + n` does to slot `j`
  abbrev pub Visited : Driver → ℕ → ℕ → ℕ → Bool × Driver → Type 0
  Visited d i n j (busy, d') =
      IsRegistry d'
      × (d'.count ≡ d.count)
      × (((i ≤ j)
            × Removed (instance_at d j) (instance_at d' j)
            × ((busy ≡ true) ⊎ ((instance_at d j).pb.usb_refcon.completion_pending ≡ false)))
          ⊎ (((j < i) ⊎ (i + n ≤ j)) × (instance_at d' j ≡ instance_at d j)))

  pub remove_all-Visited :
      (d : Driver) (i n j : ℕ)
      → IsRegistry d
      → i + n ≤ max_interfaces
      → Returns (Visited d i n j) (remove_all callback d i n)
  unfolding remove_all
  remove_all-Visited d i zero j r le = (r, refl, inr (omega arith, refl))
  remove_all-Visited d i (suc n) j r le =
      then_Returns (Told callback i (world_of d i)) (Visited d i (suc n) j)
        (remove_one callback i (world_of d i)) _ (remove_one-Told callback i (world_of d i))
        (λ (busy, w) told.
          let d1 = put_world d i w in
          let lt : i < max_interfaces = omega (arith, le) in
          let self = instance_at-put_world d i w r lt in
          then_Returns (Visited d1 (i + 1) n j) (Visited d i (suc n) j)
            (remove_all callback d1 (i + 1) n) _
            (remove_all-Visited d1 (i + 1) n j (put_world-IsRegistry d i w r) (omega (arith, le)))
            (λ (more, d') v. (
              v.0,
              v.1,
              elim v.2 [
                | inl (le_j, rem, asked) ↦
                    let away =
                      instance_at-put_world_ne d i j w (λ e. absurd (omega (arith, e, le_j))) in
                    inl (
                      omega (arith, le_j),
                      subst (λ x. Removed x (instance_at d' j)) away rem,
                      elim asked [
                        | inl m ↦ inl (ground (arith, m))
                        | inr q ↦ inr (sym (ap (λ x. x.pb.usb_refcon.completion_pending) away) ∙ q)
                      ],
                    )
                | inr (out, same) ↦ elim (ℕ_discrete j i) [
                  | yes e ↦ inl (
                    omega (arith, e),
                    subst (λ m. Removed (instance_at d m) (instance_at d' m)) (sym e)
                        (subst (λ x. Removed (instance_at d i) x)
                          (sym (
                            sym (ap (λ m. instance_at d' m) e)
                            ∙ same
                            ∙ ap (λ m. instance_at d1 m) e
                            ∙ self))
                          told.0),
                    elim (Bool-cases busy) [
                      | inl b ↦ inl (ground (arith, b))
                      | inr b ↦ inr (
                          ap (λ m. (instance_at d m).pb.usb_refcon.completion_pending) e
                          ∙ sym told.1
                          ∙ b)
                    ],
                  )
                  | no ne ↦ inr (omega (arith, out, ne), same ∙ instance_at-put_world_ne d i j w ne)
                ]
              ],
            )))

IsResting-Removed :
    (index : ℕ) (i i' : Instance) → IsResting index i → Removed i i' → IsResting index i'
IsResting-Removed index i i' (rest, d) m = (
  elim m.waits [
    | inl clear ↦ inr (clear, inr m.removing)
    | inr (same, flight, due) ↦ elim rest [
      | inl (p, ne, a) ↦ inl (same ∙ p, (λ e. ne (sym flight ∙ e)), due ∙ a)
      | inr (q, _) ↦ inr (same ∙ q, inr m.removing)
    ]
  ],
  m.depth ∙ d,
)

pub notify-IsRegistry :
    (callback : Callback) (d : Driver)
    → IsRegistry d
    → Returns
        (λ (r : OsStatus × Driver). IsRegistry r.1 × (r.1.count ≡ d.count))
        (notify callback driver_being_removed d)
unfolding notify
notify-IsRegistry callback d r =
    then_Returns (Visited callback d 0 d.count 0) _ (remove_all callback d 0 d.count) _
      (remove_all-Visited callback d 0 d.count 0 r (omega (arith, r.live)))
      (λ (busy, d') v. (v.0, v.1))

-- When the driver is told of a removal, the notification returns whatever the aborts answer.
-- Each live instance that was at rest is then marked as removing, calls no client any more, and
-- is at rest; and the answer is "busy" unless no call was outstanding for it.
pub notify_removes :
    (callback : Callback) (d : Driver) (j : ℕ)
    → IsRegistry d
    → j < d.count
    → IsResting j (instance_at d j)
    → Returns
        (λ (r : OsStatus × Driver).
          IsRegistry r.1
          × (r.1.count ≡ d.count)
          × ((instance_at r.1 j).removing ≡ true)
          × ((instance_at r.1 j).event_callback ≡ none)
          × IsResting j (instance_at r.1 j)
          × ((r.0 ≡ device_busy) ⊎ ((instance_at d j).pb.usb_refcon.completion_pending ≡ false)))
        (notify callback driver_being_removed d)
unfolding notify
notify_removes callback d j r lt rest =
    then_Returns (Visited callback d 0 d.count j) _ (remove_all callback d 0 d.count) _
      (remove_all-Visited callback d 0 d.count j r (omega (arith, r.live)))
      (λ (busy, d') v. elim v.2 [
        | inl (_, rem, asked) ↦ (
          v.0,
          v.1,
          rem.removing,
          rem.silent,
          IsResting-Removed j (instance_at d j) (instance_at d' j) rest rem,
          elim asked [
            | inl b ↦ inl (ap (λ x. if x then device_busy else usb_no_err) b)
            | inr q ↦ inr q
          ],
        )
        | inr (out, _) ↦ absurd (omega (arith, out, lt))
      ])
