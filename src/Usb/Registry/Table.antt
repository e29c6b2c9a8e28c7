-- ===== src/Usb/Registry/Table.antt =====
-- classic/usb_driver.c: what the procs of the dispatch table tell their client.
use mathlib.Core.Path.{subst}
use usbmidi.Prelude.{
  ltb, leb, if◌then◌else◌, Bool-cases, length, get_elem?, take, drop, ℕ, zero, suc, ◌+◌, ◌<◌, min,
  ◌≡◌, refl, sym, ap, ◌∙◌, ◌≢◌, inl, inr, true, false, none, some, List, arith,
}
use usbmidi.Usb.{ring_size}
use usbmidi.Usb.Registry.{
  Driver, instance_at, fill_interface_info, fill_all, enumerate_interfaces, get_interface_info,
  usb_no_err, world_of, dequeue_bytes, not_found,
}
use usbmidi.Usb.Registry.Slots.{IsRegistry, instance_at-put_world, instance_at-put_world_ne}
use usbmidi.Ring.{ring_dequeue}
use usbmidi.Ring.Window.{IsValid, contents, used}
use usbmidi.Ring.Dequeue.{ring_dequeue_takes}

fill_all-get_elem? :
    (d : Driver) (i n j : ℕ)
    → j < n
    → get_elem? (fill_all d i n) j ≡ some (fill_interface_info (i + j) (instance_at d (i + j)))
unfolding fill_all
fill_all-get_elem? d i zero j lt = absurd (omega (arith, lt))
fill_all-get_elem? d i (suc n) zero lt =
    ap (λ k. some (fill_interface_info k (instance_at d k))) (omega arith)
fill_all-get_elem? d i (suc n) (suc j) lt =
    fill_all-get_elem? d (i + 1) n j (omega (arith, lt))
    ∙ ap (λ k. some (fill_interface_info k (instance_at d k))) (omega arith)

fill_all-length : (d : Driver) (i n : ℕ) → length (fill_all d i n) ≡ n
unfolding fill_all
fill_all-length d i zero = refl
fill_all-length d i (suc n) = omega (arith, fill_all-length d (i + 1) n)

enumerated :
    (d : Driver) (max_count : ℕ)
    → enumerate_interfaces d true max_count true
      ≡ (usb_no_err, fill_all d 0 (min d.count max_count), some d.count)
unfolding enumerate_interfaces
enumerated d max_count = elim (Bool-cases (ltb 0 max_count)) [
  | inl e ↦ rw e refl
  | inr e ↦ rw e refl
]

-- An enumeration into an array of `max_count` records reports the number of live instances, fills in
-- one record for each as far as the array has room, and record `j` is what a query of index `j` gives.
pub enumerate_agrees :
    (d : Driver) (max_count j : ℕ)
    → j < min d.count max_count
    → let (status, infos, count) = enumerate_interfaces d true max_count true in
      (status ≡ usb_no_err)
      × (count ≡ some d.count)
      × (length infos ≡ min d.count max_count)
      × ((usb_no_err, get_elem? infos j) ≡ get_interface_info d j true)
unfolding get_interface_info
enumerate_agrees d max_count j lt =
    let queried = some (fill_interface_info j (instance_at d j)) in
    let same : 0 + j ≡ j = omega arith in
    let live : leb d.count j ≡ false = ground (arith, lt) in
    rw (enumerated d max_count) (
      refl,
      refl,
      fill_all-length d 0 (min d.count max_count),
      ap (λ o. (usb_no_err, o)) (fill_all-get_elem? d 0 (min d.count max_count) j lt)
          ∙ ap (λ k. (usb_no_err, some (fill_interface_info k (instance_at d k)))) same
          ∙ ap (λ b. if b then (not_found, none) else (usb_no_err, queried)) (sym live),
    )

-- From a live instance with a well-formed ring a client gets the oldest bytes in order, as many as
-- asked for or as there are. Exactly the others stay in the ring, and no other slot changes.
pub dequeue_bytes_takes :
    (d : Driver) (index max_bytes j : ℕ) {mem : List ℕ}
    → IsRegistry d
    → index < d.count
    → j ≢ index
    → IsValid (instance_at d index).ring ring_size mem
    → let ring = (instance_at d index).ring in
      let (n, out, d') = dequeue_bytes d index true max_bytes in
      let ring' = (instance_at d' index).ring in
      (n ≡ min max_bytes (used ring))
      × (out ≡ take n (contents ring ring_size mem))
      × IsValid ring' ring_size mem
      × (contents ring' ring_size mem ≡ drop n (contents ring ring_size mem))
      × (instance_at d' j ≡ instance_at d j)
unfolding dequeue_bytes
dequeue_bytes_takes d index max_bytes j {mem} r lt ne v =
    let live : leb d.count index ≡ false = ground (arith, lt) in
    let inst = instance_at d index in
    let (n, out, ring') = ring_dequeue inst.ring ring_size true max_bytes in
    let w = record (world_of d index) { inst = record inst { ring = ring' } } in
    let self = instance_at-put_world d index w r (omega (arith, lt, r.live)) in
    let (count, taken, valid, rest) = ring_dequeue_takes v max_bytes in
    rw live (
      count,
      taken,
      subst (λ i. IsValid i.ring ring_size mem) (sym self) valid,
      ap (λ i. contents i.ring ring_size mem) self ∙ rest,
      instance_at-put_world_ne d index j w ne,
    )
