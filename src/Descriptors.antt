-- ===== src/Descriptors.antt =====
-- core/descriptors.h and core/descriptors.c: the walker over a USB descriptor buffer. Memory is a
-- list of bytes; a read outside of it is `none`.
pub mod Walk
use usbmidi.Prelude.{
  ltb, leb, ◌>>=◌, if◌then◌else◌, word, get_elem?, ℕ, ◌+◌, ◌-◌, ◌*◌, ◌%◌, Bool, true, false, ◌||◌,
  Option, none, some, List,
}

-- `UM9_DESC_ERR_*`
pub data DescErr : Type 0 where
  no_error truncated zero_len : DescErr

-- `um9_desc_iter`
pub record DescIter : Type 0 where
  pub buf : Option (List ℕ)
  pub len : ℕ
  pub pos : ℕ
  pub off : ℕ
  pub blen : ℕ
  pub btype : ℕ
  pub err : DescErr

unfoldable pub desc_iter_init : Option (List ℕ) → ℕ → DescIter
desc_iter_init buf len = record {
  buf = buf;
  len = len;
  pos = 0;
  off = 0;
  blen = 0;
  btype = 0;
  err = no_error;
}

abbrev stopped : DescIter → DescErr → Option (Bool × DescIter)
stopped it e = some (false, record it { err = e })

-- `um9_desc_iter_next` from the check of `blen`
abbrev next_long : DescIter → List ℕ → ℕ → Option (Bool × DescIter)
next_long it bytes blen =
    if ltb blen 2
    then stopped it zero_len
    else if ltb (it.len - it.pos) blen
    then stopped it truncated
    else (get_elem? bytes (it.pos + 1) >>= λ btype. some (
      true,
      record it { off = it.pos; blen = blen; btype = btype; pos = (it.pos + blen) % word },
    ))

-- `um9_desc_iter_next` behind the checks of `err` and `buf`
unfoldable pub next_at : DescIter → List ℕ → Option (Bool × DescIter)
next_at it bytes =
    if leb it.len it.pos
    then some (false, it)
    else if ltb (it.len - it.pos) 2
    then stopped it truncated
    else (get_elem? bytes it.pos >>= λ blen. next_long it bytes blen)

unfoldable pub next_in : Option (List ℕ) → DescIter → Option (Bool × DescIter)
unfolding next_at
next_in none it = if ltb it.pos it.len then stopped it truncated else some (false, it)
next_in (some bytes) it = next_at it bytes

abbrev pub next_if : DescErr → DescIter → Option (Bool × DescIter)
next_if no_error it = next_in it.buf it
next_if _ it = some (false, it)

-- The flag is the C result.
unfoldable pub desc_iter_next : DescIter → Option (Bool × DescIter)
unfolding next_in
desc_iter_next it = next_if it.err it

abbrev pub u8_in : Option (List ℕ) → DescIter → ℕ → Option ℕ
u8_in none it rel_off = some 0
u8_in (some bytes) it rel_off =
    if leb it.blen rel_off then some 0 else get_elem? bytes (it.off + rel_off)

unfoldable pub desc_u8 : DescIter → ℕ → Option ℕ
desc_u8 it rel_off = u8_in it.buf it rel_off

-- The two bytes are disjoint fields of the word, so `|` is `+`.
abbrev pub u16le_in : Option (List ℕ) → DescIter → ℕ → Option ℕ
u16le_in none it rel_off = some 0
u16le_in (some bytes) it rel_off =
    if leb it.blen rel_off || leb it.blen (rel_off + 1)
    then some 0
    else (get_elem? bytes (it.off + rel_off) >>= λ lo.
        get_elem? bytes (it.off + rel_off + 1) >>= λ hi. some (lo + hi * 256))

unfoldable pub desc_u16le : DescIter → ℕ → Option ℕ
desc_u16le it rel_off = u16le_in it.buf it rel_off
