-- ===== src/Ring/Fifo.antt =====
-- The ring of classic/ring.c as a bounded first-in first-out queue of bytes.
use native.Mathlib.Nat.{mod-add-mod}
use Prim.Native.Nat.{bit_and}
use native.Mathlib.Decide.{ℕ_discrete}
use usbmidi.Prelude.{
  word, length, set, take, length-take, ℕ, ◌+◌, ◌-◌, ◌%◌, ◌≤◌, min, ◌≡◌, refl, sym, ap, ◌∙◌, ◌≢◌,
  some, List, [], ◌∷◌, ◌++◌, append-nil, arith,
}
use usbmidi.Ring.{Ring, stored, enqueue_count, enqueue_at, ring_enqueue}
use usbmidi.Ring.Window.{window, IsValid, used, contents, slot_of_wrapped, slot_of_mask, size_pos}
use usbmidi.Ring.Enqueue.{
  slice-take, write_all, stored-write_all, window-write_all, length-write_all,
}

write_all_of_slot :
    (mem : List ℕ) (size t t' : ℕ) (bs : List ℕ)
    → t % size ≡ t' % size
    → write_all mem size t bs ≡ write_all mem size t' bs
write_all_of_slot mem size t t' [] e = refl
write_all_of_slot mem size t t' (b ∷ bs) e = rw e (
    write_all_of_slot (set mem (t' % size) b) size (t + 1) (t' + 1) bs
      (sym (mod-add-mod t size 1) ∙ ap (λ s. (s + 1) % size) e ∙ mod-add-mod t' size 1))

-- the ring behind a store of `n` bytes
abbrev enqueued : Ring → ℕ → List ℕ → List ℕ → ℕ → Ring
enqueued r size mem src n = record r {
  buf = some (stored mem size (bit_and r.tail (size - 1)) src n);
  tail = (r.tail + n) % word;
}

module _ {r : Ring} {size : ℕ} {mem : List ℕ} (v : IsValid r size mem) where
  -- the slot of the tail, from the head
  tail_slot : (r.head + used r) % size ≡ r.tail % size
  tail_slot =
      let e : r.tail ≡ (r.head + used r) % word = omega (arith, v.head_in, v.tail_in) in
      sym (ap (λ t. t % size) e ∙ slot_of_wrapped size (r.head + used r) v.power v.small)

  stored-contents :
      (src : List ℕ) (n : ℕ)
      → n ≤ length src
      → n ≤ size - used r
      → let mem' = stored mem size (bit_and r.tail (size - 1)) src n in
        (mem' ≡ write_all mem size (r.head + used r) (take n src))
        × (window mem' size r.head (used r + n) ≡ contents r size mem ++ take n src)
  stored-contents src n le fits =
      let written : stored mem size (bit_and r.tail (size - 1)) src n
          ≡ write_all mem size (r.head + used r) (take n src) =
        ap (λ o. stored mem size o src n) (slot_of_mask size r.tail v.power)
        ∙ stored-write_all mem src size r.tail n (size_pos size v.power) (omega arith)
        ∙ ap (write_all mem size r.tail) (slice-take n src le)
        ∙ write_all_of_slot mem size r.tail (r.head + used r) (take n src) (sym tail_slot) in
      let count : length (take n src) ≡ n = omega (arith, length-take n src) in
      (
        written,
        ap (λ m. window m size r.head (used r + n)) written
            ∙ ap
                (λ k.
                  window (write_all mem size (r.head + used r) (take n src)) size r.head
                    (used r + k))
                (sym count)
            ∙ window-write_all (take n src) mem size r.head (used r) v.slots
                (omega (arith, count, v.fits)),
      )

  enqueue_count-min : (count : ℕ) → enqueue_count r size count ≡ min count (size - used r)
  enqueue_count-min count = ground (arith, v.fits, v.small)

  enqueue_nothing :
      (src : List ℕ) (count : ℕ)
      → min count (size - used r) ≡ 0
      → ring_enqueue r size (some src) count ≡ (0, r)
  unfolding ring_enqueue
  enqueue_nothing src count e =
      ap (λ b. enqueue_at r size b (some src) count) v.at
      ∙ ground (arith, enqueue_count-min count, v.power)

  enqueue_some :
      (src : List ℕ) (count : ℕ)
      → min count (size - used r) ≢ 0
      → ring_enqueue r size (some src) count
        ≡ (min count (size - used r), enqueued r size mem src (min count (size - used r)))
  unfolding ring_enqueue
  enqueue_some src count ne =
      ap (λ b. enqueue_at r size b (some src) count) v.at
      ∙ ground (arith, enqueue_count-min count, v.power)

  enqueued-IsValid :
      (src : List ℕ) (n : ℕ)
      → n ≤ length src
      → n ≤ size - used r
      → IsValid (enqueued r size mem src n) size (stored mem size (bit_and r.tail (size - 1)) src n)
  enqueued-IsValid src n le fits = record {
    at = refl;
    power = v.power;
    small = v.small;
    slots =
        ap length (stored-contents src n le fits).0
        ∙ length-write_all mem size (r.head + used r) (take n src)
        ∙ v.slots;
    head_in = v.head_in;
    tail_in = omega arith;
    fits = omega (arith, v.fits, v.small, v.head_in, v.tail_in);
  }

  used-enqueued :
      (src : List ℕ) (n : ℕ) → n ≤ size - used r → used (enqueued r size mem src n) ≡ used r + n
  used-enqueued src n fits = omega (arith, v.fits, v.small, v.head_in, v.tail_in)

  -- On a well-formed ring (a size that is a power of two below 2^32, memory of that size, at
  -- most that many bytes held), `um9_ring_enqueue` of at most as many bytes as the source has
  -- stores as many as fit, in order, behind those that the ring holds, and returns their number;
  -- nothing that was held is lost, and the ring stays well formed.
  pub ring_enqueue_appends :
      (src : List ℕ) (count : ℕ)
      → count ≤ length src
      → let (n, r') = ring_enqueue r size (some src) count in
        (n ≡ min count (size - used r))
        × (mem' : List ℕ) × IsValid r' size mem'
        × (contents r' size mem' ≡ contents r size mem ++ take n src)
  ring_enqueue_appends src count le = elim (ℕ_discrete (min count (size - used r)) 0) [
    | yes e ↦ rw (enqueue_nothing src count e) (sym e, mem, v, sym (append-nil _))
    | no ne ↦
        let n : ℕ = min count (size - used r) in
        let fits : n ≤ size - used r = omega arith in
        let mem' = stored mem size (bit_and r.tail (size - 1)) src n in
        rw (enqueue_some src count ne) (
          refl,
          mem',
          enqueued-IsValid src n (omega arith) fits,
          ap (window mem' size r.head) (used-enqueued src n fits)
              ∙ (stored-contents src n (omega arith) fits).1,
        )
  ]
