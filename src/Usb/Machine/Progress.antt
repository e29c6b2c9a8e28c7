-- ===== src/Usb/Machine/Progress.antt =====
-- What the completion routine of classic/usb_driver.c leaves behind.
use usbmidi.Prelude.{
  Returns-map, Returns, word, ℕ, ◌+◌, ◌%◌, ◌≤◌, ◌<◌, ◌≡◌, ap, ◌∙◌, true, false, Option, some, arith,
}
use usbmidi.Usb.{World}
use usbmidi.Usb.Completion.{completed, aligned, Callback}
use usbmidi.Usb.Machine.{completion, initiate}
use usbmidi.Usb.Machine.Settled.{IsSettled, identity, Ran, completed-Decided, is_pending_now}
use usbmidi.Usb.Machine.Start.{initiate-Ran, machine_fuel}
use usbmidi.Usb.Machine.Rest.{completion-Ran}

-- at rest, outside of all calls, with at most seventeen calls more, and still the same instance
abbrev pub IsOver : ℕ → World → World → Type 0
IsOver index w w' =
    IsSettled index w'
    × (w'.inst.trans_depth ≡ 0)
    × (w'.inst.call_token ≤ w.inst.call_token + machine_fuel)
    × (identity w'.inst ≡ identity w.inst)

-- A completion that comes outside of all calls, and before 2^32 calls were made, returns with
-- the recursion bounded by seventeen levels, whatever the services answer and whether they
-- complete at once or later. Behind it the machine never waits in vain: `kCompletionPending` is
-- set, `callInFlight` is too, and a service has accepted a call that it has neither refused nor
-- completed; or it is clear and the machine has stopped or the instance is being removed. At most
-- seventeen calls were made, and what the instance is has not changed.
pub completion_settles :
    (callback : Callback) (index : ℕ) (w : World)
    → w.inst.trans_depth ≡ 0
    → w.inst.call_token + machine_fuel < word
    → Returns
        (IsOver index w)
        (completion callback index (λ u. initiate callback index machine_fuel u) w)
completion_settles callback index w d t =
    let machine : World → Option World = λ u. initiate callback index machine_fuel u in
    Returns-map (Ran index machine_fuel w) (IsOver index w) (completion callback index machine w)
      (completion-Ran callback index machine_fuel machine (initiate-Ran callback index machine_fuel)
        w (record { depth_in = omega (arith, d); enough = omega (arith, d); no_wrap = t }))
      (λ u r. (r.rest, r.depth ∙ d, r.few, r.same))

-- The same for the start of the machine in a new instance.
pub initiate_settles :
    (callback : Callback) (index : ℕ) (w : World)
    → w.inst.trans_depth ≡ 0
    → w.inst.call_in_flight ≡ 0
    → w.inst.pb.usb_refcon.return_from_driver ≡ false
    → w.inst.call_token + machine_fuel < word
    → Returns (IsOver index w) (initiate callback index machine_fuel w)
initiate_settles callback index w d f r t =
    Returns-map (Ran index machine_fuel w) (IsOver index w) (initiate callback index machine_fuel w)
      (initiate-Ran callback index machine_fuel w (record {
        running = r;
        fresh = f;
        depth_in = omega (arith, d);
        enough = omega (arith, d);
        no_wrap = t;
      }))
      (λ u s. (s.rest, s.depth ∙ d, s.few, s.same))

-- Once an instance is being removed, a completion clears `kCompletionPending`, starts no further
-- transaction, and leaves no call in flight.
pub completion_stops_removing :
    (callback : Callback) (index : ℕ) (machine : World → Option World) (w : World)
    → w.inst.removing ≡ true
    → (w' : World) × (completion callback index machine w ≡ some w')
      × (is_pending_now w' ≡ false)
      × (w'.inst.call_in_flight ≡ 0)
      × (w'.inst.call_token ≡ w.inst.call_token)
      × (w'.inst.removing ≡ true)
unfolding completion
completion_stops_removing callback index machine w gone =
    let d = completed-Decided callback index w in
    let w' = (completed callback index w).1 in
    let halt : (completed callback index w).0 ≡ false =
      ground (arith, d.choice, ap (λ i. i.leaving) d.same, gone) in
    (
      w',
      ap (λ b. elim b [ true ↦ machine w' | false ↦ some w' ]) halt,
      d.idle,
      d.flight,
      d.token,
      ap (λ i. i.leaving) d.same ∙ gone,
    )

-- In a block of `max_packet + 63` bytes that does not reach the end of the address space, the read
-- buffer starts at a multiple of 64, and its `max_packet` bytes lie inside of the block.
pub aligned_inside :
    (base max_packet : ℕ)
    → base + (max_packet + 63) < word
    → (aligned base % 64 ≡ 0)
      × (base ≤ aligned base)
      × (aligned base + max_packet ≤ base + (max_packet + 63))
aligned_inside base max_packet lt = ground arith
