-- ===== src/Usb/Registry/Steps.antt =====
-- classic/usb_driver.c: the entries of the driver in any order, as the steps of a relation.
use mathlib.Core.Path.{subst}
use native.Mathlib.Decide.{ℕ_discrete}
use usbmidi.Prelude.{
  leb, Returns, ◌==◌, Bool-cases, word, ℕ, ◌+◌, ◌-◌, ◌≤◌, ◌<◌, ◌≡◌, sym, ap, ◌∙◌, ◌≢◌, inl, inr,
  Bool, Option, none, some, arith,
}
use usbmidi.Usb.{Reply, World, Instance}
use usbmidi.Usb.Completion.{Callback, collected, fill}
use usbmidi.Usb.Machine.{completion, initiate}
use usbmidi.Usb.Machine.Start.{machine_fuel}
use usbmidi.Usb.Machine.Progress.{completion_settles, IsOver}
use usbmidi.Usb.Registry.{
  Driver, instance_at, world_of, put_world, dequeue_bytes, set_event_callback, dispose_instance,
  finalize, OsStatus, max_interfaces,
}
use usbmidi.Usb.Registry.Attach.{
  notify, initialize_interface, InterfaceDescriptor, DeviceDescriptor, driver_being_removed,
}
use usbmidi.Usb.Registry.Slots.{
  IsRegistry, IsResting, instance_at-put_world, instance_at-put_world_ne, put_world-IsRegistry,
  dispose-count, dispose-IsRegistry, dispose_keeps,
}
use usbmidi.Usb.Registry.Removal.{finalize_from-found}
use usbmidi.Usb.Registry.Goodbye.{notify-IsRegistry, notify_removes}
use usbmidi.Usb.Registry.Arrival.{initialize_claims, Offered}

-- One entry of the driver, from outside: a proc of one of the two tables, or the completion of a call
-- that a service has accepted, with what the service has written. A completion comes to the address of
-- the parameter block: an instance that has been moved with its call in flight is not reached by it.
pub data Step (callback : Callback) (to_host_word : ℕ → ℕ) : Driver → Driver → Type 0 where
  offered :
      (num : ℕ) (interface : InterfaceDescriptor) (device : DeviceDescriptor) (ref : ℕ)
      {d d' : Driver} (status : OsStatus)
      → initialize_interface callback to_host_word num (some interface) (some device) ref d
        ≡ some (status, d')
      → Step callback to_host_word d d'
  finalized : (ref : ℕ) (d : Driver) → Step callback to_host_word d (finalize d ref).1
  told :
      {d d' : Driver} (status : OsStatus)
      → notify callback driver_being_removed d ≡ some (status, d')
      → Step callback to_host_word d d'
  dequeued :
      (index : ℕ) (has_buffer : Bool) (max_bytes : ℕ) (d : Driver)
      → Step callback to_host_word d (dequeue_bytes d index has_buffer max_bytes).2
  registered :
      (index : ℕ) (f : Option ℕ) (refcon : ℕ) (d : Driver)
      → Step callback to_host_word d (set_event_callback d index f refcon).1
  completes :
      (index : ℕ) (reply : Reply) (d : Driver) {w : World}
      → index < d.count
      → (instance_at d index).awaited ≡ some index
      → (instance_at d index).call_token + machine_fuel < word
      → completion callback index
          (λ u. initiate callback index machine_fuel u)
          (record (world_of d index) { inst = fill (collected (instance_at d index)) reply })
        ≡ some w
      → Step callback to_host_word d (put_world d index w)

pub data Reach (callback : Callback) (to_host_word : ℕ → ℕ) (d : Driver) : Driver → Type 0 where
  here : Reach callback to_host_word d d
  next :
      {e f : Driver}
      → Reach callback to_host_word d e
      → Step callback to_host_word e f
      → Reach callback to_host_word d f

-- every live instance is at rest
record IsQuiet (d : Driver) : Type 0 where
  kept : IsRegistry d
  resting : (j : ℕ) → j < d.count → IsResting j (instance_at d j)

put_world-IsQuiet :
    (d : Driver) (i : ℕ) (w : World)
    → IsQuiet d
    → i < d.count
    → IsResting i w.inst
    → IsQuiet (put_world d i w)
put_world-IsQuiet d i w q lt rest = record {
  kept = put_world-IsRegistry d i w q.kept;
  resting = λ j live. elim (ℕ_discrete j i) [
    | yes e ↦
        subst (IsResting j)
          (sym (
            ap (λ m. instance_at (put_world d i w) m) e
            ∙ instance_at-put_world d i w q.kept (omega (arith, lt, q.kept.live))))
          (subst (λ m. IsResting m w.inst) (sym e) rest)
    | no ne ↦ subst (IsResting j) (sym (instance_at-put_world_ne d i j w ne)) (q.resting j live)
  ];
}

abbrev result_of {ℓ} :
    {A : Type ℓ} (P : A → Type 0) {o : Option A} {a : A} → o ≡ some a → Returns P o → P a
result_of P e h = subst (Returns P) e h

-- An instance that waits for no call is at rest wherever it is.
moved-IsResting :
    (i j : ℕ) (inst : Instance) → inst.awaited ≡ none → IsResting i inst → IsResting j inst
moved-IsResting i j inst free (inl (_, _, due), depth) = absurd (ground (arith, free, due))
moved-IsResting i j inst free (inr halted, depth) = (inr halted, depth)

dispose-IsQuiet :
    (d : Driver) (k : ℕ)
    → IsQuiet d
    → k < d.count
    → (instance_at d (d.count - 1)).awaited ≡ none
    → IsQuiet (dispose_instance d k)
dispose-IsQuiet d k q lt free = record {
  kept = dispose-IsRegistry d k q.kept;
  resting = λ j live.
      let more : j + 1 < d.count = omega (arith, live, dispose-count d k) in
      let (_, _, same) = dispose_keeps d k j q.kept lt more in
      let last = d.count - 1 in
      subst (IsResting j) (sym same) (elim (Bool-cases (j == k)) [
        | inl e ↦
            rw e (
              moved-IsResting last j (instance_at d last) free (q.resting last (omega (arith, lt))))
        | inr e ↦ rw e (q.resting j (omega (arith, more)))
      ]);
}

Offered-IsQuiet :
    (to_host_word : ℕ → ℕ) (num : ℕ) (interface : InterfaceDescriptor) (device : DeviceDescriptor)
    (ref : ℕ) (d d' : Driver) (status : OsStatus)
    → IsQuiet d
    → ((j : ℕ) → j ≢ d.count → Offered to_host_word num interface device ref d j (status, d'))
    → IsQuiet d'
Offered-IsQuiet to_host_word num interface device ref d d' status q h =
    elim (h (d.count + 1) (omega arith)) [
      | inl (_, same, _) ↦ subst IsQuiet (sym same) q
      | inr (_, _, kept, more, rest, _, _, _) ↦ record {
        kept = kept;
        resting = λ j live. elim (ℕ_discrete j d.count) [
          | yes e ↦ subst (λ m. IsResting m (instance_at d' m)) (sym e) rest
          | no ne ↦ elim (h j ne) [
            | inl (_, same, _) ↦
                subst (λ x. IsResting j (instance_at x j)) (sym same)
                  (q.resting j (omega (arith, live, ap (λ x. x.count) same)))
            | inr (_, _, _, _, _, _, other, _) ↦
                subst (IsResting j) (sym other) (q.resting j (omega (arith, live, more, ne)))
          ]
        ];
      }
    ]

module _ (callback : Callback) (to_host_word : ℕ → ℕ) where
  -- No call is in flight for an instance that goes, nor for one that is moved then.
  abbrev pub IsCalm : {d d' : Driver} → Step callback to_host_word d d' → Type 0
  IsCalm (finalized ref d) =
      (k : ℕ)
      → k < d.count
      → (instance_at d k).interface_ref ≡ ref
      → ((instance_at d k).awaited ≡ none) × ((instance_at d (d.count - 1)).awaited ≡ none)
  IsCalm _ = Unit

  abbrev pub IsCalmPath : {d d' : Driver} → Reach callback to_host_word d d' → Type 0
  IsCalmPath here = Unit
  IsCalmPath (next r s) = IsCalmPath r × IsCalm s

  Step-IsQuiet :
      {d d' : Driver} (s : Step callback to_host_word d d') → IsCalm s → IsQuiet d → IsQuiet d'
  unfolding finalize dequeue_bytes set_event_callback
  Step-IsQuiet (offered num interface device ref status e) calm q =
      Offered-IsQuiet to_host_word num interface device ref _ _ status q (λ j ne.
        result_of (Offered to_host_word num interface device ref _ j) e
          (initialize_claims callback to_host_word num interface device ref _ j q.kept ne))
  Step-IsQuiet (finalized ref d) calm q = elim (finalize_from-found d ref 0 d.count) [
    | inl (k, _, lt, at, e) ↦
        let live : k < d.count = omega (arith, lt) in
        subst IsQuiet (sym e) (dispose-IsQuiet d k q live (calm k live at).1)
    | inr (_, e) ↦ subst IsQuiet (sym e) q
  ]
  Step-IsQuiet (told {d} {d'} status e) calm q =
      let (kept, same) = result_of _ e (notify-IsRegistry callback d q.kept) in
      record {
        kept = kept;
        resting = λ j live.
            let lt : j < d.count = omega (arith, live, same) in
            let (_, _, _, _, rest, _) =
              result_of _ e (notify_removes callback d j q.kept lt (q.resting j lt)) in
            rest;
      }
  Step-IsQuiet (dequeued index has_buffer max_bytes d) calm q =
      elim (Bool-cases (leb d.count index)) [
        | inl e ↦ rw e q
        | inr e ↦
            let lt : index < d.count = ground (arith, e) in
            rw e (put_world-IsQuiet d index _ q lt (q.resting index lt))
      ]
  Step-IsQuiet (registered index f refcon d) calm q = elim (Bool-cases (leb d.count index)) [
    | inl e ↦ rw e q
    | inr e ↦
        let lt : index < d.count = ground (arith, e) in
        rw e (put_world-IsQuiet d index _ q lt (q.resting index lt))
  ]
  Step-IsQuiet (completes index reply d lt pending room e) calm q =
      let w = record (world_of d index) { inst = fill (collected (instance_at d index)) reply } in
      let (rest, out, _, _) =
        result_of (IsOver index w) e
          (completion_settles callback index w (q.resting index lt).1 room) in
      put_world-IsQuiet d index _ q lt (rest, out)

  Reach-IsQuiet :
      {d d' : Driver} (r : Reach callback to_host_word d d') → IsCalmPath r → IsQuiet d → IsQuiet d'
  Reach-IsQuiet here calm q = q
  Reach-IsQuiet (next r s) (before, calm) q = Step-IsQuiet s calm (Reach-IsQuiet r before q)

-- From an empty registry, whatever interfaces come and go, clients call and services answer, in
-- any order, with each instance completing its calls before it has made 2^32 of them, and none
-- finalised or moved to another slot while a call of it is in flight: at most eight instances are
-- live, each of them is outside of all calls, and its state machine waits for a call that a service
-- has accepted from its slot and not completed, or has stopped, or is being removed.
pub reachable_rests :
    (callback : Callback) (to_host_word : ℕ → ℕ) (start d : Driver) (j : ℕ)
    → IsRegistry start
    → start.count ≡ 0
    → (path : Reach callback to_host_word start d) → IsCalmPath callback to_host_word path
    → j < d.count
    → (d.count ≤ max_interfaces) × IsResting j (instance_at d j)
reachable_rests callback to_host_word start d j r empty path calm live =
    let q : IsQuiet start = record {
      kept = r;
      resting = λ i lt. absurd (omega (arith, lt, empty));
    } in
    let q' = Reach-IsQuiet callback to_host_word path calm q in (q'.kept.live, q'.resting j live)
