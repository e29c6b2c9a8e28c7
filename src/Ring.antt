-- ===== src/Ring.antt =====
-- classic/ring.h and classic/ring.c: the byte ring between the read completion and its clients.
-- Indices are 32-bit counters that wrap; a slot is `counter & (size - 1)`.
pub mod Window
pub mod Enqueue
pub mod Fifo
pub mod Dequeue
pub mod Bounds
use Prim.Native.Nat.{bit_and}
use usbmidi.Prelude.{
  ltb, leb, ◌==◌, if◌then◌else◌, word, get_or, set, ℕ, zero, suc, ◌+◌, ◌-◌, ◌%◌, Bool, not, ◌||◌,
  Option, none, some, List, [], ◌∷◌, ◌++◌,
}
use usbmidi.Prelude.Bits.{is_power_of_two}

-- `buf`, `*head` and `*tail`; the size is passed beside them.
pub record Ring : Type 0 where
  pub buf : Option (List ℕ)
  pub head : ℕ
  pub tail : ℕ

-- `unsigned` subtraction
abbrev pub sub_word : ℕ → ℕ → ℕ
sub_word a b = (a + word - b) % word

unfoldable pub ring_reset : Ring → Ring
ring_reset r = record r { head = 0; tail = 0 }

unfoldable pub ring_used : Ring → ℕ → ℕ
ring_used r size = if not (is_power_of_two size) then 0 else sub_word r.tail r.head

-- `for (; i < n; i++) ring[off + i] = src[from + i]`, with the rounds that are left
unfoldable pub copy_in : ℕ → ℕ → ℕ → List ℕ → ℕ → List ℕ → List ℕ
copy_in zero i off mem from src = mem
copy_in (suc rounds) i off mem from src =
    copy_in rounds (i + 1) off (set mem (off + i) (get_or src (from + i) 0)) from src

-- `for (; i < n; i++) dst[i] = ring[off + i]`: what it appends to `dst`
unfoldable pub copy_out : ℕ → ℕ → ℕ → List ℕ → List ℕ
copy_out zero i off mem = []
copy_out (suc rounds) i off mem = get_or mem (off + i) 0 ∷ copy_out rounds (i + 1) off mem

-- the memory behind the stores of `n` bytes at `tail_off`
unfoldable pub stored : List ℕ → ℕ → ℕ → List ℕ → ℕ → List ℕ
unfolding copy_in
stored mem size tail_off src n =
    let free1 = size - tail_off in
    if leb n free1
    then copy_in n 0 tail_off mem 0 src
    else copy_in (n - free1) 0 0 (copy_in free1 0 tail_off mem 0 src) free1 src

-- the bytes read by the loads of `n` bytes at `head_off`
unfoldable pub loaded : List ℕ → ℕ → ℕ → ℕ → List ℕ
unfolding copy_out
loaded mem size head_off n =
    let avail1 = size - head_off in
    if leb n avail1
    then copy_out n 0 head_off mem
    else copy_out avail1 0 head_off mem ++ copy_out (n - avail1) 0 0 mem

-- the number of bytes that `um9_ring_enqueue` takes
abbrev pub enqueue_count : Ring → ℕ → ℕ → ℕ
enqueue_count r size count =
    let room = sub_word size (sub_word r.tail r.head) in if ltb count room then count else room

-- the number of bytes that `um9_ring_dequeue` gives
abbrev pub dequeue_count : Ring → ℕ → ℕ
dequeue_count r max_bytes =
    let used = sub_word r.tail r.head in if ltb max_bytes used then max_bytes else used

-- `um9_ring_enqueue` at memory `mem`, with `src` not NULL
unfoldable pub enqueue_bytes : Ring → ℕ → List ℕ → List ℕ → ℕ → ℕ × Ring
enqueue_bytes r size mem src count =
    if not (is_power_of_two size) || count == 0
    then (0, r)
    else let n = enqueue_count r size count in
      if n == 0 then (0, r) else (
        n,
        record r {
          buf = some (stored mem size (bit_and r.tail (size - 1)) src n);
          tail = (r.tail + n) % word;
        },
      )

abbrev pub enqueue_at : Ring → ℕ → Option (List ℕ) → Option (List ℕ) → ℕ → ℕ × Ring
enqueue_at r size none src count = (0, r)
enqueue_at r size (some mem) none count = (0, r)
enqueue_at r size (some mem) (some src) count = enqueue_bytes r size mem src count

-- Returns the C result and the ring.
unfoldable pub ring_enqueue : Ring → ℕ → Option (List ℕ) → ℕ → ℕ × Ring
unfolding enqueue_bytes
ring_enqueue r size src count = enqueue_at r size r.buf src count

-- `um9_ring_dequeue` at memory `mem`
unfoldable pub dequeue_bytes : Ring → ℕ → List ℕ → Bool → ℕ → ℕ × List ℕ × Ring
dequeue_bytes r size mem present max_bytes =
    if not (is_power_of_two size) || not present || max_bytes == 0
    then (0, [], r)
    else let n = dequeue_count r max_bytes in
      if n == 0 then (0, [], r) else (
        n,
        loaded mem size (bit_and r.head (size - 1)) n,
        record r { head = (r.head + n) % word },
      )

abbrev pub dequeue_at : Ring → ℕ → Option (List ℕ) → Bool → ℕ → ℕ × List ℕ × Ring
dequeue_at r size none present max_bytes = (0, [], r)
dequeue_at r size (some mem) present max_bytes = dequeue_bytes r size mem present max_bytes

-- Returns the C result, the bytes written to `out`, and the ring; `present` is `out != 0`.
unfoldable pub ring_dequeue : Ring → ℕ → Bool → ℕ → ℕ × List ℕ × Ring
unfolding dequeue_bytes
ring_dequeue r size present max_bytes = dequeue_at r size r.buf present max_bytes
