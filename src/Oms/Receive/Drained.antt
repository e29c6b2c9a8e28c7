-- ===== src/Oms/Receive/Drained.antt =====
-- The outer loop of `oms_rx_drain` of oms/oms_rx.c.
use native.Mathlib.Decide.{ℕ_discrete}
use usbmidi.Prelude.{
  elim_Returns, take_short, drop_short, leb, Returns, ◌==◌, Bool-cases, word, length, take, drop,
  length-take, length-drop, take-append-drop, ℕ, zero, suc, ◌-◌, ◌≤◌, ◌<◌, min, ◌≡◌, refl, sym, ap,
  ◌∙◌, ◌≢◌, inl, inr, Bool, true, false, some, List, [], ◌∷◌, arith,
}
use usbmidi.Oms.{Table, dequeue_chunk}
use usbmidi.Usb.{ring_size}
use usbmidi.Oms.Receive.{Flow, drain_chunk, drain_rounds}
use usbmidi.Oms.Receive.Whole.{drain_chunk-append, drain_chunk-nil, drain_chunk-counted}

-- What the drain relies on in the class driver: `dequeueBytes` gives the oldest of the bytes that
-- are held for an interface, as many as asked for or as there are, and keeps the others; and no more
-- are held than a ring has room for.
pub record IsSource {D : Type 0} (table : Table D) (held : D → ℕ → List ℕ) : Type 0 where
  pub taken : (d : D) (i n : ℕ) → (table.dequeue_bytes d i n).0 ≡ take n (held d i)
  pub left : (d : D) (i n : ℕ) → held (table.dequeue_bytes d i n).1 i ≡ drop n (held d i)
  pub bounded : (d : D) (i : ℕ) → length (held d i) ≤ ring_size

length_zero {ℓ} : {A : Type ℓ} (xs : List A) → length xs ≡ 0 → xs ≡ []
length_zero [] e = refl
length_zero (x ∷ xs) e = absurd (omega (arith, e))

some_left : (n : ℕ) → n ≢ 0 → (min dequeue_chunk n == 0) ≡ false
some_left n ne = ground (arith, ne)

fewer :
    (n all rest fuel : ℕ)
    → n ≡ min dequeue_chunk all
    → rest ≡ all - dequeue_chunk
    → (n == 0) ≡ false
    → all < suc fuel
    → rest < fuel
fewer n all rest fuel e r more lt = ground arith

-- a chunk of 64 bytes, and the rest
cut :
    (deliver : Bool) (routine : ℕ) (f : Flow) (packets : ℕ) (bytes : List ℕ)
    → drain_chunk deliver routine
        (drain_chunk deliver routine (f, packets) (take dequeue_chunk bytes))
        (drop dequeue_chunk bytes)
      ≡ drain_chunk deliver routine (f, packets) bytes
cut deliver routine f packets bytes = elim (Bool-cases (leb (length bytes) dequeue_chunk)) [
  | inl yes_short ↦
      let short : length bytes ≤ dequeue_chunk = ground (arith, yes_short) in
      let all : take dequeue_chunk bytes ≡ bytes = take_short dequeue_chunk bytes short in
      let c = drain_chunk deliver routine (f, packets) bytes in
      ap
        (λ b.
          drain_chunk deliver routine (drain_chunk deliver routine (f, packets) b)
            (drop dequeue_chunk bytes))
        all
      ∙ ap (λ b. drain_chunk deliver routine c b) (drop_short dequeue_chunk bytes short)
      ∙ drain_chunk-nil deliver routine c.0 c.1
          (drain_chunk-counted deliver routine f packets bytes)
  | inr no_short ↦
      let long : dequeue_chunk < length bytes = ground (arith, no_short) in
      sym (
        drain_chunk-append deliver routine f packets (take dequeue_chunk bytes)
          (drop dequeue_chunk bytes) (omega (arith, length-take dequeue_chunk bytes, long)))
      ∙ ap (λ b. drain_chunk deliver routine (f, packets) b) (take-append-drop dequeue_chunk bytes)
]

-- From a source, a drain with more rounds than there are bytes leaves nothing behind, and does
-- what one chunk of all of the bytes would do: no Event Packet is cut by the chunks of 64 bytes,
-- and only what is left over behind the last whole packet is dropped and counted.
pub drain_takes_all :
    {D : Type 0} {table : Table D} {held : D → ℕ → List ℕ} (deliver : Bool) (routine fuel index : ℕ)
    (f : Flow) (packets : ℕ) (d : D)
    → IsSource table held
    → packets < word
    → length (held d index) < fuel
    → (d' : D) × (held d' index ≡ [])
      × (drain_rounds deliver routine fuel table index (f, packets) d
          ≡ some (drain_chunk deliver routine (f, packets) (held d index), d'))
unfolding drain_rounds
drain_takes_all deliver routine zero index f packets d s p lt = absurd (omega (arith, lt))
drain_takes_all {table = table} {held = held} deliver routine (suc fuel) index f packets d s p lt =
    let bytes = held d index in
    let d1 = (table.dequeue_bytes d index dequeue_chunk).1 in
    let got = s.taken d index dequeue_chunk in
    elim (ℕ_discrete (length bytes) 0) [
      | yes e ↦
          let none_held : bytes ≡ [] = length_zero bytes e in
          let got_none : (table.dequeue_bytes d index dequeue_chunk).0 ≡ [] =
            got ∙ ap (take dequeue_chunk) none_held in
          let stop : (length (table.dequeue_bytes d index dequeue_chunk).0 == 0) ≡ true =
            ap (λ b. length b == 0) got_none in
          (
            d1,
            s.left d index dequeue_chunk ∙ ap (drop dequeue_chunk) none_held,
            ap
                  (λ b. elim b [
                    | true ↦ some ((f, packets), d1)
                    | false ↦
                        drain_rounds deliver routine fuel table index
                          (drain_chunk deliver routine (f, packets)
                            (table.dequeue_bytes d index dequeue_chunk).0)
                          d1
                  ])
                  stop
                ∙ ap (λ c. some (c, d1))
                    (sym (
                      ap (λ b. drain_chunk deliver routine (f, packets) b) none_held
                      ∙ drain_chunk-nil deliver routine f packets p)),
          )
      | no ne ↦
          let more : (length (table.dequeue_bytes d index dequeue_chunk).0 == 0) ≡ false =
            ap (λ b. length b == 0) got
            ∙ ap (λ k. k == 0) (length-take dequeue_chunk bytes)
            ∙ some_left (length bytes) ne in
          let c = drain_chunk deliver routine (f, packets) (take dequeue_chunk bytes) in
          let (d', empty, rest) =
            drain_takes_all deliver routine fuel index c.0 c.1 d1 s
              (drain_chunk-counted deliver routine f packets (take dequeue_chunk bytes))
              (omega (
                arith,
                ap length (s.left d index dequeue_chunk),
                length-drop dequeue_chunk bytes,
                lt,
                ne,
              )) in
          (
            d',
            empty,
            ap
                  (λ b. elim b [
                    | true ↦ some ((f, packets), d1)
                    | false ↦
                        drain_rounds deliver routine fuel table index
                          (drain_chunk deliver routine (f, packets)
                            (table.dequeue_bytes d index dequeue_chunk).0)
                          d1
                  ])
                  more
                ∙ ap
                    (λ b.
                      drain_rounds deliver routine fuel table index
                        (drain_chunk deliver routine (f, packets) b) d1)
                    got
                ∙ rest
                ∙ ap (λ b. some (drain_chunk deliver routine c b, d'))
                    (s.left d index dequeue_chunk)
                ∙ ap (λ x. some (x, d')) (cut deliver routine f packets bytes),
          )
    ]

-- The loop ends, and keeps what each chunk keeps.
pub drain_rounds_keeps :
    {D : Type 0} {table : Table D} {held : D → ℕ → List ℕ} (P : Flow × ℕ → Type 0) (deliver : Bool)
    (routine fuel index : ℕ) (f : Flow × ℕ) (d : D)
    → IsSource table held
    → length (held d index) < fuel
    → ((g : Flow × ℕ) (bytes : List ℕ) → P g → P (drain_chunk deliver routine g bytes))
    → P f
    → Returns (λ (r : (Flow × ℕ) × D). P r.0) (drain_rounds deliver routine fuel table index f d)
unfolding drain_rounds
drain_rounds_keeps P deliver routine zero index f d s lt step h = absurd (omega (arith, lt))
drain_rounds_keeps {table = table} {held = held} P deliver routine (suc fuel) index f d s lt step
      h =
    let (bytes, d1) = table.dequeue_bytes d index dequeue_chunk in
    let got =
      ap length (s.taken d index dequeue_chunk) ∙ length-take dequeue_chunk (held d index) in
    elim_Returns (λ r. P r.0) (length bytes == 0) _ _ (λ _. h)
      (λ more.
        drain_rounds_keeps P deliver routine fuel index (drain_chunk deliver routine f bytes) d1 s
          (fewer (length bytes) (length (held d index)) (length (held d1 index)) fuel got
            (ap length (s.left d index dequeue_chunk) ∙ length-drop dequeue_chunk (held d index))
            more lt)
          step (step f bytes h))
