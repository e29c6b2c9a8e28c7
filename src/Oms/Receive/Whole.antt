-- ===== src/Oms/Receive/Whole.antt =====
-- The chunks of a drain of oms/oms_rx.c: where they are cut makes no difference.
use usbmidi.Prelude.{
  ◌==◌, if◌then◌else◌, word, length, length-append, ℕ, ◌+◌, ◌/◌, ◌%◌, ◌<◌, ◌≡◌, refl, sym, ap, ◌∙◌,
  Bool, not, List, [], ◌∷◌, ◌++◌, arith,
}
use usbmidi.Oms.Receive.{Flow, drain_packet, drain_packets, drain_chunk}

module _ (deliver : Bool) (routine : ℕ) where
  drain_packets-append :
      (f : Flow) (xs ys : List ℕ)
      → length xs % 4 ≡ 0
      → drain_packets deliver routine f (xs ++ ys)
        ≡ drain_packets deliver routine (drain_packets deliver routine f xs) ys
  unfolding drain_packets
  drain_packets-append f [] ys e = refl
  drain_packets-append f (a ∷ []) ys e = absurd (omega (arith, e))
  drain_packets-append f (a ∷ b ∷ []) ys e = absurd (omega (arith, e))
  drain_packets-append f (a ∷ b ∷ c ∷ []) ys e = absurd (omega (arith, e))
  drain_packets-append f (a ∷ b ∷ c ∷ d ∷ xs) ys e =
      drain_packets-append (drain_packet deliver routine f (a ∷ b ∷ c ∷ d ∷ [])) xs ys
        (omega (arith, e))

  drain_chunk-whole :
      (f : Flow) (packets : ℕ) (xs : List ℕ)
      → length xs % 4 ≡ 0
      → drain_chunk deliver routine (f, packets) xs
        ≡ (drain_packets deliver routine f xs, (packets + length xs / 4) % word)
  unfolding drain_chunk
  drain_chunk-whole f packets xs e = ground (arith, e)

  pub drain_chunk-append :
      (f : Flow) (packets : ℕ) (xs ys : List ℕ)
      → length xs % 4 ≡ 0
      → drain_chunk deliver routine (f, packets) (xs ++ ys)
        ≡ drain_chunk deliver routine (drain_chunk deliver routine (f, packets) xs) ys
  unfolding drain_chunk
  drain_chunk-append f packets xs ys e =
      let more : length (xs ++ ys) ≡ length xs + length ys = length-append xs ys in
      let rest : length (xs ++ ys) % 4 ≡ length ys % 4 = omega (arith, more, e) in
      let sum : (packets + length (xs ++ ys) / 4) % word
          ≡ ((packets + length xs / 4) % word + length ys / 4) % word =
        omega (arith, more, e) in
      let odd : Flow → ℕ → Flow =
        λ g k. if not (k == 0) then record g { dropped = (g.dropped + k) % word } else g in
      let first = drain_packets deliver routine f xs in
      let both = drain_packets deliver routine first ys in
      ap (λ g. (odd g (length (xs ++ ys) % 4), (packets + length (xs ++ ys) / 4) % word))
        (drain_packets-append f xs ys e)
      ∙ ap (λ k. (odd both k, (packets + length (xs ++ ys) / 4) % word)) rest
      ∙ ap (λ p. (odd both (length ys % 4), p)) sum
      ∙ sym (ap (λ c. drain_chunk deliver routine c ys) (drain_chunk-whole f packets xs e))

  pub drain_chunk-nil :
      (f : Flow) (packets : ℕ)
      → packets < word
      → drain_chunk deliver routine (f, packets) [] ≡ (f, packets)
  unfolding drain_chunk drain_packets
  drain_chunk-nil f packets lt = ap (λ p. (f, p)) (omega (arith, lt))

  pub drain_chunk-counted :
      (f : Flow) (packets : ℕ) (xs : List ℕ)
      → (drain_chunk deliver routine (f, packets) xs).1 < word
  unfolding drain_chunk
  drain_chunk-counted f packets xs = omega arith
