-- ===== src/Ring/Bounds.antt =====
-- The counters of the ring of classic/ring.c stay within its size, whatever is in its memory.
use usbmidi.Prelude.{
  pick, ◌==◌, if◌then◌else◌, word, ℕ, ◌+◌, ◌-◌, ◌%◌, ◌≤◌, ◌<◌, Bool, not, ◌||◌, Option, none, some,
  List, [], arith,
}
use Prim.Native.Nat.{bit_and}
use usbmidi.Prelude.Bits.{is_power_of_two}
use usbmidi.Ring.{
  stored, dequeue_bytes, Ring, ring_enqueue, ring_dequeue, enqueue_count, enqueue_at, dequeue_at,
  loaded, dequeue_count, enqueue_bytes,
}
use usbmidi.Ring.Window.{used}

-- Both counters have 32 bits, and the ring holds no more than its size.
pub record IsInBounds (size : ℕ) (r : Ring) : Type 0 where
  pub head_in : r.head < word
  pub tail_in : r.tail < word
  pub fits : used r ≤ size

enqueue_count-le :
    (size count : ℕ) (r : Ring)
    → size < word
    → IsInBounds size r
    → used r + enqueue_count r size count ≤ size
enqueue_count-le size count r small h = ground (arith, small, h.fits, h.head_in, h.tail_in)

enqueued-IsInBounds :
    (size n : ℕ) (r : Ring) (buf : Option (List ℕ))
    → size < word
    → IsInBounds size r
    → used r + n ≤ size
    → IsInBounds size (record r { buf = buf; tail = (r.tail + n) % word })
enqueued-IsInBounds size n r buf small h le = record {
  head_in = h.head_in;
  tail_in = omega arith;
  fits = omega (arith, h.head_in, h.tail_in, le, small);
}

dequeued-IsInBounds :
    (size n : ℕ) (r : Ring)
    → size < word
    → IsInBounds size r
    → n ≤ used r
    → IsInBounds size (record r { head = (r.head + n) % word })
dequeued-IsInBounds size n r small h le = record {
  head_in = omega arith;
  tail_in = h.tail_in;
  fits = omega (arith, h.head_in, h.tail_in, h.fits, le, small);
}

dequeue_count-le : (r : Ring) (max_bytes : ℕ) → dequeue_count r max_bytes ≤ used r
dequeue_count-le r max_bytes = ground arith

module _ (size : ℕ) (small : size < word) where
  pub ring_enqueue-IsInBounds :
      (r : Ring) (src : Option (List ℕ)) (count : ℕ)
      → IsInBounds size r
      → IsInBounds size (ring_enqueue r size src count).1
  unfolding ring_enqueue enqueue_bytes
  ring_enqueue-IsInBounds r src count h = at_buf r.buf src
    where
      at_buf : (buf src : Option (List ℕ)) → IsInBounds size (enqueue_at r size buf src count).1
      at_buf none src = h
      at_buf (some mem) none = h
      at_buf (some mem) (some bytes) =
          let n = enqueue_count r size count in
          let mem' = stored mem size (bit_and r.tail (size - 1)) bytes n in
          let r' = record r { buf = some mem'; tail = (r.tail + n) % word } in
          let some_in : IsInBounds size r' =
            enqueued-IsInBounds size n r (some mem') small h
              (enqueue_count-le size count r small h) in
          pick (λ (p : ℕ × Ring). IsInBounds size p.1) (not (is_power_of_two size) || count == 0)
            (0, r) (if n == 0 then (0, r) else (n, r')) h
            (pick (λ (p : ℕ × Ring). IsInBounds size p.1) (n == 0) (0, r) (n, r') h some_in)

  pub ring_dequeue-IsInBounds :
      (r : Ring) (present : Bool) (max_bytes : ℕ)
      → IsInBounds size r
      → IsInBounds size (ring_dequeue r size present max_bytes).2
  unfolding ring_dequeue dequeue_bytes
  ring_dequeue-IsInBounds r present max_bytes h = at_buf r.buf
    where
      at_buf : (buf : Option (List ℕ)) → IsInBounds size (dequeue_at r size buf present max_bytes).2
      at_buf none = h
      at_buf (some mem) =
          let n = dequeue_count r max_bytes in
          let out = loaded mem size (bit_and r.head (size - 1)) n in
          let r' = record r { head = (r.head + n) % word } in
          let some_out : IsInBounds size r' =
            dequeued-IsInBounds size n r small h (dequeue_count-le r max_bytes) in
          pick (λ (p : ℕ × List ℕ × Ring). IsInBounds size p.2)
            (not (is_power_of_two size) || not present || max_bytes == 0) (0, [], r)
            (if n == 0 then (0, [], r) else (n, out, r')) h
            (pick (λ (p : ℕ × List ℕ × Ring). IsInBounds size p.2) (n == 0) (0, [], r) (n, out, r')
              h some_out)
