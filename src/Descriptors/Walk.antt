-- ===== src/Descriptors/Walk.antt =====
-- The walker of core/descriptors.c stays inside its buffer and always moves on.
use mathlib.Core.Path.{subst}
use usbmidi.Descriptors.{
  DescIter, DescErr, next_at, no_error, truncated, zero_len, next_if, desc_iter_init,
  desc_iter_next, next_in, desc_u8, desc_u16le, u8_in, u16le_in,
}
use usbmidi.Prelude.{
  ltb, Returns, if◌then◌else◌, word, length, get_or, get_elem?-eq-get_or, ℕ, zero, suc, ◌+◌, ◌-◌,
  ◌*◌, ◌≤◌, ◌<◌, ◌≡◌, refl, sym, ap, ◌∙◌, ◌≢◌, ◌⊎◌, Bool, true, false, Option, none, some, List, [],
  ◌∷◌, arith,
}

-- The walker stands between descriptors of `bytes`, and its current descriptor lies inside.
pub record IsValid (it : DescIter) (bytes : List ℕ) : Type 0 where
  pub at : it.buf ≡ some bytes
  pub held : it.len ≤ length bytes
  pub small : it.len < word
  pub pos_in : it.pos ≤ it.len
  pub current_in : it.off + it.blen ≤ it.len

-- what `um9_desc_iter_next` did
abbrev pub Stepped : DescIter → List ℕ → Bool × DescIter → Type 0
Stepped it bytes (true, it') =
    IsValid it' bytes
    × (it'.off ≡ it.pos)
    × (it'.pos ≡ it.pos + it'.blen)
    × (2 ≤ it'.blen)
    × (it'.len ≡ it.len)
    × (it'.err ≡ it.err)
Stepped it bytes (false, it') =
    IsValid it' bytes
    × (it'.pos ≡ it.pos)
    × (it'.len ≡ it.len)
    × ((it'.err ≢ no_error) ⊎ (it.pos ≡ it.len))

next_at-Stepped :
    {it : DescIter} {bytes : List ℕ}
    → IsValid it bytes
    → Returns (Stepped it bytes) (next_at it bytes)
unfolding next_at
next_at-Stepped {it} {bytes} v =
    ground (arith, get_elem?-eq-get_or bytes it.pos 0, get_elem?-eq-get_or bytes (it.pos + 1) 0)

next_if-Stepped :
    {it : DescIter} {bytes : List ℕ} (e : DescErr)
    → it.err ≡ e
    → IsValid it bytes
    → Returns (Stepped it bytes) (next_if e it)
unfolding next_in
next_if-Stepped {it} {bytes} no_error h v =
    subst (λ b. Returns (Stepped it bytes) (next_in b it)) (sym v.at) (next_at-Stepped v)
next_if-Stepped truncated h v = (v, refl, refl, ground (arith, h))
next_if-Stepped zero_len h v = (v, refl, refl, ground (arith, h))

-- A step of a well-formed walker never reads outside of the buffer and leaves it well formed.
-- Either it moves to a descriptor of at least two bytes that lies inside and ends where the next
-- one starts, or it stays, and then it has an error or is at the end.
pub desc_iter_next-Stepped :
    {it : DescIter} {bytes : List ℕ}
    → IsValid it bytes
    → Returns (Stepped it bytes) (desc_iter_next it)
unfolding desc_iter_next
desc_iter_next-Stepped {it} v = next_if-Stepped it.err refl v

pub desc_iter_init-IsValid :
    (bytes : List ℕ)
    → length bytes < word
    → IsValid (desc_iter_init (some bytes) (length bytes)) bytes
unfolding desc_iter_init
desc_iter_init-IsValid bytes lt = record {
  at = refl;
  held = omega arith;
  small = lt;
  pos_in = omega arith;
  current_in = omega arith;
}

-- With a well-formed walker, a byte of the current descriptor is read from the buffer, and 0
-- stands for an offset behind it: no read leaves the buffer.
pub desc_u8_in_bounds :
    {it : DescIter} {bytes : List ℕ} (rel_off : ℕ)
    → IsValid it bytes
    → desc_u8 it rel_off
      ≡ some (if ltb rel_off it.blen then get_or bytes (it.off + rel_off) 0 else 0)
unfolding desc_u8
desc_u8_in_bounds {it} {bytes} rel_off v =
    let e = get_elem?-eq-get_or bytes (it.off + rel_off) 0 in
    ap (λ b. u8_in b it rel_off) v.at ∙ ground (arith, v.held, v.current_in, e)

-- With a well-formed walker, a 16-bit field is read from its two bytes, low byte first, if both
-- lie in the current descriptor, and as 0 otherwise: no read leaves the buffer.
pub desc_u16le_in_bounds :
    {it : DescIter} {bytes : List ℕ} (rel_off : ℕ)
    → IsValid it bytes
    → desc_u16le it rel_off
      ≡ some (
          if ltb (rel_off + 1) it.blen
          then get_or bytes (it.off + rel_off) 0 + get_or bytes (it.off + rel_off + 1) 0 * 256
          else 0)
unfolding desc_u16le
desc_u16le_in_bounds {it} {bytes} rel_off v =
    let e = get_elem?-eq-get_or bytes (it.off + rel_off) 0 in
    let e' = get_elem?-eq-get_or bytes (it.off + rel_off + 1) 0 in
    ap (λ b. u16le_in b it rel_off) v.at ∙ ground (arith, v.held, v.current_in, e, e')

abbrev keep : DescIter → Option (List DescIter × DescIter) → Option (List DescIter × DescIter)
keep it none = none
keep it (some (its, last)) = some (it ∷ its, last)

abbrev walk_on :
    (DescIter → Option (List DescIter × DescIter))
    → Option (Bool × DescIter)
    → Option (List DescIter × DescIter)
walk_on rest none = none
walk_on rest (some (true, it)) = keep it (rest it)
walk_on rest (some (false, it)) = some ([], it)

-- `while (um9_desc_iter_next(&it))`, on fuel: the descriptors met, and the walker behind them
unfoldable pub walk : ℕ → DescIter → Option (List DescIter × DescIter)
walk zero it = none
walk (suc fuel) it = walk_on (λ it'. walk fuel it') (desc_iter_next it)

-- the bytes of the descriptors
abbrev span : List DescIter → ℕ
span [] = 0
span (it ∷ its) = it.blen + span its

-- from `pos` on, without an error
abbrev pub Covers : ℕ → ℕ → List DescIter × DescIter → Type 0
Covers pos len (its, last) = (last.err ≢ no_error) ⊎ (pos + span its ≡ len)

keep-Covers :
    (it : DescIter) (o : Option (List DescIter × DescIter)) (pos len : ℕ)
    → Returns (Covers (pos + it.blen) len) o
    → Returns (Covers pos len) (keep it o)
keep-Covers it none pos len h = h
keep-Covers it (some (its, last)) pos len h = ground (arith, h)

walk_on-Covers :
    (it : DescIter) (bytes : List ℕ) (rest : DescIter → Option (List DescIter × DescIter))
    (o : Option (Bool × DescIter))
    → Returns (Stepped it bytes) o
    → ((it' : DescIter)
        → IsValid it' bytes
        → it.pos < it'.pos
        → it'.len ≡ it.len
        → Returns (Covers it'.pos it'.len) (rest it'))
    → Returns (Covers it.pos it.len) (walk_on rest o)
walk_on-Covers it bytes rest none h more = h
walk_on-Covers it bytes rest (some (true, it')) (v, _, p, two, l, _) more =
    keep-Covers it' (rest it') it.pos it.len (
      subst (λ k. Returns (Covers k it.len) (rest it')) p
        (subst (λ k. Returns (Covers it'.pos k) (rest it')) l (more it' v (omega arith) l)))
walk_on-Covers it bytes rest (some (false, it')) (_, _, _, h) more = ground (arith, h)

walk-Covers :
    (fuel : ℕ) {it : DescIter} {bytes : List ℕ}
    → IsValid it bytes
    → it.len - it.pos < fuel
    → Returns (Covers it.pos it.len) (walk fuel it)
unfolding walk
walk-Covers zero v lt = absurd (omega arith)
walk-Covers (suc fuel) {it} {bytes} v lt =
    walk_on-Covers it bytes (λ it'. walk fuel it') (desc_iter_next it) (desc_iter_next-Stepped v)
      (λ it' v' more l. walk-Covers fuel v' (omega (arith, v.pos_in, v'.pos_in)))

-- The loop over a buffer of less than 2^32 bytes ends within one round more than it has bytes,
-- without a read outside of it; if it ends without an error, the descriptors met fill the buffer.
pub walk_fills :
    (bytes : List ℕ)
    → length bytes < word
    → Returns
        (Covers 0 (length bytes))
        (walk (suc (length bytes)) (desc_iter_init (some bytes) (length bytes)))
unfolding desc_iter_init
walk_fills bytes lt =
    walk-Covers (suc (length bytes)) (desc_iter_init-IsValid bytes lt) (omega arith)
