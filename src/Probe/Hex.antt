-- ===== src/Probe/Hex.antt =====
-- The lines of hexadecimal that probe/probe.c prints, read back.
use mathlib.Core.Path.{subst}
use native.Mathlib.Decide.{ℕ_discrete}
use usbmidi.Prelude.{
  IsBytes, ltb, ◌==◌, if◌then◌else◌, Bool-cases, length, length-append, ℕ, suc, ◌+◌, ◌-◌, ◌*◌, ◌/◌,
  ◌%◌, ◌≤◌, ◌<◌, ◌≡◌, refl, sym, ap, ◌∙◌, ◌≢◌, ◌⊎◌, inl, inr, Bool, true, false, ◌||◌, List, [],
  ◌∷◌, ◌++◌, arith,
}
use usbmidi.Probe.Text.{hex, digit, newline, space, hex_from, print_hex}

-- the value of an upper-case hexadecimal digit
abbrev value : ℕ → ℕ
value c = if ltb c 65 then c - 48 else c - 55

-- a byte in front of the first row
abbrev put_first : ℕ → List (List ℕ) → List (List ℕ)
put_first b [] = (b ∷ []) ∷ []
put_first b (row ∷ rows) = (b ∷ row) ∷ rows

abbrev put_byte : Bool → ℕ → List (List ℕ) → List (List ℕ)
put_byte true b rows = (b ∷ []) ∷ rows
put_byte false b rows = put_first b rows

-- A reader of rows of bytes, each byte in two digits and a separator; a row ends with a newline.
unfoldable pub read_rows : List ℕ → List (List ℕ)
read_rows (high ∷ low ∷ separator ∷ rest) =
    put_byte (separator == newline) (value high * 16 + value low) (read_rows rest)
read_rows _ = []

abbrev pub concat : List (List ℕ) → List ℕ
concat [] = []
concat (row ∷ rows) = row ++ concat rows

-- Each row holds sixteen bytes but the first, which holds `room`, and the last, which holds one at
-- least and not more than that.
abbrev pub IsFilled : ℕ → List (List ℕ) → Type 0
IsFilled room [] = Unit
IsFilled room (row ∷ []) = (0 < length row) × (length row ≤ room)
IsFilled room (row ∷ next ∷ rows) = (length row ≡ room) × IsFilled 16 (next ∷ rows)

hex_byte : (b : ℕ) → b < 256 → hex 2 b ≡ digit (b / 16) ∷ digit (b % 16) ∷ []
unfolding hex
hex_byte b lt = elim (Bool-cases (ltb b 16)) [
  | inl short ↦
      let high : b / 16 ≡ 0 = ground (arith, short) in
      let low : b % 16 ≡ b = ground (arith, short) in rw (short, high, low) refl
  | inr long ↦ let high : ltb (b / 16) 16 ≡ true = ground (arith, lt) in rw (long, high) refl
]

value-digit : (d : ℕ) → d < 16 → value (digit d) ≡ d
value-digit d lt = ground arith

value_byte : (b : ℕ) → b < 256 → value (digit (b / 16)) * 16 + value (digit (b % 16)) ≡ b
value_byte b lt =
    omega (arith, value-digit (b / 16) (omega (arith, lt)), value-digit (b % 16) (omega arith))

read_rows-hex :
    (b separator : ℕ) (rest : List ℕ)
    → b < 256
    → read_rows (hex 2 b ++ separator ∷ rest) ≡ put_byte (separator == newline) b (read_rows rest)
unfolding read_rows
read_rows-hex b separator rest lt =
    ap (λ h. read_rows (h ++ separator ∷ rest)) (hex_byte b lt)
    ∙ ap (λ v. put_byte (separator == newline) v (read_rows rest)) (value_byte b lt)

concat-put_byte :
    (ends : Bool) (b : ℕ) (rows : List (List ℕ)) → concat (put_byte ends b rows) ≡ b ∷ concat rows
concat-put_byte true b rows = refl
concat-put_byte false b [] = refl
concat-put_byte false b (row ∷ rows) = refl

-- the room in the row of index `i`
abbrev room_at : ℕ → ℕ
room_at i = 16 - i % 16

room_full : (i : ℕ) → i % 16 ≡ 15 → room_at (i + 1) ≡ 16
room_full i e = omega (arith, e)

cons_ne_nil {ℓ} : {A : Type ℓ} {x : A} {xs : List A} → x ∷ xs ≢ []
cons_ne_nil e = absurd (omega (arith, ap length e))

false_ne_true : false ≢ true
false_ne_true e = cc

-- the row ends where it is full, or behind the last byte
put_byte-IsFilled :
    (ends : Bool) (i b : ℕ) (rows : List (List ℕ))
    → IsFilled (room_at (i + 1)) rows
    → (i % 16 ≡ 15 → ends ≡ true)
    → (ends ≡ true → (i % 16 ≡ 15) ⊎ (rows ≡ []))
    → IsFilled (room_at i) (put_byte ends b rows)
put_byte-IsFilled true i b [] filled full last = (omega arith, omega arith)
put_byte-IsFilled true i b (row ∷ rows) filled full last = elim (last refl) [
  | inl e ↦ (omega (arith, e), subst (λ r. IsFilled r (row ∷ rows)) (room_full i e) filled)
  | inr none_left ↦ absurd (cons_ne_nil none_left)
]
put_byte-IsFilled false i b [] filled full last = (omega arith, omega arith)
put_byte-IsFilled false i b (row ∷ []) filled full last =
    let not_full : i % 16 ≢ 15 = λ e. false_ne_true (full e) in
    (omega arith, omega (arith, filled.1))
put_byte-IsFilled false i b (row ∷ next ∷ rows) filled full last =
    let not_full : i % 16 ≢ 15 = λ e. false_ne_true (full e) in (omega (arith, filled.0), filled.1)

abbrev row_ends : ℕ → ℕ → Bool
row_ends count i = i % 16 == 15 || i + 1 == count

ends_newline : (ends : Bool) → ((if ends then newline else space) == newline) ≡ ends
ends_newline true = refl
ends_newline false = refl

-- what is read from the bytes from index `i` on
record Read (i : ℕ) (bytes : List ℕ) (rows : List (List ℕ)) : Type 0 where
  same : concat rows ≡ bytes
  filled : IsFilled (room_at i) rows

nil_of_concat :
    (room : ℕ) (rows : List (List ℕ))
    → 0 < room
    → IsFilled room rows
    → length (concat rows) ≡ 0
    → rows ≡ []
nil_of_concat room [] pos filled e = refl
nil_of_concat room (row ∷ []) pos filled e =
    absurd (omega (arith, filled.0, e, length-append row []))
nil_of_concat room (row ∷ next ∷ rows) pos filled e =
    absurd (omega (arith, filled.0, pos, e, length-append row (next ++ concat rows)))

full_ends : (count i : ℕ) → i % 16 ≡ 15 → row_ends count i ≡ true
full_ends count i full = ground (arith, full)

-- A row that ends does so at its last place or behind the last byte.
ends_why :
    (count i rest : ℕ) → count ≡ i + suc rest → row_ends count i ≡ true → (i % 16 ≡ 15) ⊎ (rest ≡ 0)
ends_why count i rest e ends = elim (ℕ_discrete (i % 16) 15) [
  | yes full ↦ inl full
  | no ne ↦ inr (ground (arith, e, ends, ne))
]

hex_from-Read :
    (bytes : List ℕ) (i count : ℕ)
    → IsBytes bytes
    → count ≡ i + length bytes
    → Read i bytes (read_rows (hex_from count i bytes))
unfolding hex_from read_rows
hex_from-Read [] i count small e = record { same = refl; filled = tt }
hex_from-Read (b ∷ bytes) i count small e =
    let rest = hex_from-Read bytes (i + 1) count small.1 (omega (arith, e)) in
    let rows = read_rows (hex_from count (i + 1) bytes) in
    let ends = row_ends count i in
    let read : read_rows (hex_from count i (b ∷ bytes)) ≡ put_byte ends b rows =
      read_rows-hex b (if ends then newline else space) (hex_from count (i + 1) bytes) small.0
      ∙ ap (λ t. put_byte t b rows) (ends_newline ends) in
    subst (Read i (b ∷ bytes)) (sym read) (record {
      same = concat-put_byte ends b rows ∙ ap (◌∷◌ b) rest.same;
      filled =
          put_byte-IsFilled ends i b rows rest.filled (λ full. full_ends count i full)
            (λ t. elim (ends_why count i (length bytes) e t) [
              | inl full ↦ inl full
              | inr none_left ↦ inr (
                  nil_of_concat (room_at (i + 1)) rows (omega arith) rest.filled
                    (ap length rest.same ∙ none_left))
            ]);
    })

-- The bytes that the probe prints in hexadecimal can be read back from the text: read in rows of two
-- digits and a separator for each byte, the rows hold the bytes in their order, sixteen in each row but
-- the last, which is not empty.
pub print_hex-read :
    (bytes : List ℕ)
    → IsBytes bytes
    → let rows = read_rows (print_hex bytes) in (concat rows ≡ bytes) × IsFilled 16 rows
unfolding print_hex
print_hex-read bytes small =
    let r = hex_from-Read bytes 0 (length bytes) small (omega arith) in (r.same, r.filled)
