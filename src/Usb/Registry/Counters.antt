-- ===== src/Usb/Registry/Counters.antt =====
-- classic/usb_driver.c: no ring of a live instance ever leaves its bounds, whatever the order of
-- the entries of the driver.
use mathlib.Core.Path.{subst}
use native.Mathlib.Decide.{ℕ_discrete}
use usbmidi.Prelude.{
  Ends, then_Ends, elim_Ends, pick, ◌>>=◌, ◌==◌, if◌then◌else◌, ℕ, zero, suc, ◌+◌, ◌-◌, ◌≤◌, ◌<◌,
  ◌≡◌, sym, ap, ◌∙◌, ◌≢◌, Bool, true, false, not, Option, none, some, List, [], ◌∷◌, ◌++◌, arith,
}
use usbmidi.Ring.Bounds.{IsInBounds}
use usbmidi.Usb.{World, Instance, Status, Answer, ring_size, abort_pipe}
use usbmidi.Usb.Completion.{collected, fill, Callback, clear_pending, is_ok}
use usbmidi.Usb.Machine.{completion, initiate}
use usbmidi.Usb.Machine.Start.{machine_fuel}
use usbmidi.Usb.Machine.Counters.{IsCounted, KeepsBounds, machine-IsCounted}
use usbmidi.Usb.Registry.{Driver, OsStatus, instance_at, world_of, put_world, dispose_instance}
use usbmidi.Usb.Registry.Attach.{remove_one, abort_answer, abort, remove_all}
use usbmidi.Usb.Registry.Slots.{
  IsRegistry, dispose-count, instance_at-put_world, instance_at-put_world_ne, put_world-IsRegistry,
  dispose-IsRegistry, dispose_keeps,
}

-- every live instance has a ring within its bounds
pub record IsBounded (d : Driver) : Type 0 where
  pub kept : IsRegistry d
  pub rings : (j : ℕ) → j < d.count → IsInBounds ring_size (instance_at d j).ring

pub put_world-IsBounded :
    (d : Driver) (i : ℕ) (w : World)
    → IsRegistry d
    → ((j : ℕ) → j < d.count → j ≢ i → IsInBounds ring_size (instance_at d j).ring)
    → i < d.count
    → IsCounted w
    → IsBounded (put_world d i w)
put_world-IsBounded d i w r others lt h = record {
  kept = put_world-IsRegistry d i w r;
  rings = λ j live. elim (ℕ_discrete j i) [
    | yes e ↦
        subst (λ (x : Instance). IsInBounds ring_size x.ring)
          (sym (
            ap (λ m. instance_at (put_world d i w) m) e
            ∙ instance_at-put_world d i w r (omega (arith, lt, r.live))))
          h
    | no ne ↦
        subst (λ (x : Instance). IsInBounds ring_size x.ring)
          (sym (instance_at-put_world_ne d i j w ne)) (others j live ne)
  ];
}

-- a world put back in a bounded registry
pub put_back :
    (d : Driver) (i : ℕ) (w : World)
    → IsBounded d
    → i < d.count
    → IsCounted w
    → IsBounded (put_world d i w)
put_back d i w q lt h = put_world-IsBounded d i w q.kept (λ j live ne. q.rings j live) lt h

pub dispose-IsBounded :
    (d : Driver) (k : ℕ) → IsBounded d → k < d.count → IsBounded (dispose_instance d k)
dispose-IsBounded d k q lt = record {
  kept = dispose-IsRegistry d k q.kept;
  rings = λ j live.
      let more : j + 1 < d.count = omega (arith, live, dispose-count d k) in
      let (_, _, same) = dispose_keeps d k j q.kept lt more in
      let m = if j == k then d.count - 1 else j in
      subst (λ (x : Instance). IsInBounds ring_size x.ring) (sym same)
        (q.rings m (ground (arith, more, lt)));
}

abbrev pub ended_with :
    {A : Type 0} (P : A → Type 0) {o : Option A} {a : A} → o ≡ some a → Ends P o → P a
ended_with P e h = subst (Ends P) e h

-- what an entry that may not end leaves
abbrev pub BoundedAfter : OsStatus × Driver → Type 0
BoundedAfter r = IsBounded r.1

module _ (callback : Callback) (keeps : KeepsBounds callback) where
  abort-IsCounted :
      (i : ℕ) (w : World)
      → IsCounted w
      → Ends (λ (r : World × Status). IsCounted r.0) (abort callback i w)
  unfolding abort
  abort-IsCounted i w h = by_answer w.answers
    where
      by_answer :
          (l : List Answer)
          → Ends
              (λ (r : World × Status). IsCounted r.0)
              (abort_answer callback i
                (record w {
                  issued =
                      w.issued
                      ++ (abort_pipe, record w.inst.pb { usb_reference = w.inst.bulk_in_pipe })
                        ∷ [];
                })
                l)
      by_answer [] = h
      by_answer (a ∷ rest) =
          let asked = record w {
            issued =
                w.issued
                ++ (abort_pipe, record w.inst.pb { usb_reference = w.inst.bulk_in_pipe }) ∷ [];
            answers = rest;
          } in
          let filled = record asked { inst = fill (collected asked.inst) a.reply } in
          let run = completion callback i (λ u. initiate callback i machine_fuel u) filled in
          elim_Ends (λ (r : World × Status). IsCounted r.0) a.ran
            (run >>= λ w'. some (w', a.returned)) (some (asked, a.returned))
            (then_Ends IsCounted (λ (r : World × Status). IsCounted r.0) run
              (λ w'. some (w', a.returned)) (machine-IsCounted callback keeps i filled h)
              (λ w' k. k))
            h

  remove_one-IsCounted :
      (i : ℕ) (w : World)
      → IsCounted w
      → Ends (λ (r : Bool × World). IsCounted r.1) (remove_one callback i w)
  unfolding remove_one
  remove_one-IsCounted i w h =
      let marked = record w {
        inst = record w.inst { removing = true; event_callback = none; event_refcon = 0 };
      } in
      let P = λ (r : Bool × World). IsCounted r.1 in
      pick (Ends P) (not w.inst.pb.usb_refcon.completion_pending) (some (false, marked)) _ h (
        pick (Ends P) (w.inst.bulk_in_pipe == 0) (some (true, marked)) _ h (
          then_Ends (λ (r : World × Status). IsCounted r.0) P (abort callback i marked) _
            (abort-IsCounted i marked h)
            (λ (r : World × Status) k.
              pick IsCounted (is_ok r.1) r.0 (record r.0 { inst = clear_pending r.0.inst }) k k)))

  pub remove_all-IsBounded :
      (d : Driver) (i n : ℕ)
      → IsBounded d
      → i + n ≤ d.count
      → Ends (λ (r : Bool × Driver). IsBounded r.1) (remove_all callback d i n)
  unfolding remove_all
  remove_all-IsBounded d i zero q le = q
  remove_all-IsBounded d i (suc n) q le =
      let lt : i < d.count = omega (arith, le) in
      let P = λ (r : Bool × Driver). IsBounded r.1 in
      then_Ends (λ (r : Bool × World). IsCounted r.1) P (remove_one callback i (world_of d i)) _
        (remove_one-IsCounted i (world_of d i) (q.rings i lt))
        (λ (r : Bool × World) k.
          then_Ends P P (remove_all callback (put_world d i r.1) (i + 1) n) _
            (remove_all-IsBounded (put_world d i r.1) (i + 1) n (put_back d i r.1 q lt k)
              (omega (arith, le)))
            (λ r' k'. k'))
