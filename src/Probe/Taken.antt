-- ===== src/Probe/Taken.antt =====
-- What a poll of probe/probe.c takes from the class driver, and prints.
use native.Mathlib.Decide.{ℕ_discrete}
use mathlib.Core.Path.{subst}
use usbmidi.Prelude.{
  pick, ltb, if◌then◌else◌, lt→ltb, length, take, drop, ℕ, zero, suc, ◌+◌, ◌≤◌, ◌<◌, ◌≡◌, refl, sym,
  ap, ap₂, ◌∙◌, ◌≢◌, ◌⊎◌, inl, inr, Bool, List, [], ◌∷◌, ◌++◌, append-nil, append_assoc, arith,
}
use usbmidi.Oms.{Table}
use usbmidi.Oms.Receive.Drained.{IsSource}
use usbmidi.Probe.{
  Line, take_received, take_all_received, say, probe_dequeue_chunk, Console, bytes_received,
}

-- the line for the bytes taken from interface `i`; none if there were none
abbrev pub line_for : ℕ → List ℕ → List Line
line_for i [] = []
line_for i (b ∷ bytes) = bytes_received i (b ∷ bytes) ∷ []

-- The lines for `n` interfaces from `i` on: the oldest 64 bytes of each, or as many as there are.
abbrev pub received_lines : (ℕ → List ℕ) → ℕ → ℕ → List Line
received_lines held i zero = []
received_lines held i (suc n) =
    line_for i (take probe_dequeue_chunk (held i)) ++ received_lines held (i + 1) n

received_lines-same :
    (h h' : ℕ → List ℕ) (i n : ℕ)
    → ((j : ℕ) → i ≤ j → h j ≡ h' j)
    → received_lines h i n ≡ received_lines h' i n
received_lines-same h h' i zero same = refl
received_lines-same h h' i (suc n) same =
    ap₂ (λ bytes lines. line_for i (take probe_dequeue_chunk bytes) ++ lines) (same i (omega arith))
      (received_lines-same h h' (i + 1) n (λ j le. same j (omega (arith, le))))

-- A dequeue for one interface leaves the others alone.
abbrev pub IsApart : {D : Type 0} → Table D → (D → ℕ → List ℕ) → Type 0
IsApart {D} table held =
    (d : D) (i j n : ℕ) → j ≢ i → held (table.dequeue_bytes d i n).1 j ≡ held d j

module _ {D : Type 0} where
  printed_for :
      (c : Console D) (i : ℕ) (bytes : List ℕ)
      → (if ltb 0 (length bytes) then say c (bytes_received i bytes) else c).printed
        ≡ c.printed ++ line_for i bytes
  printed_for c i [] = sym (append-nil c.printed)
  printed_for c i (b ∷ bytes) =
      ap (λ (t : Bool). (if t then say c (bytes_received i (b ∷ bytes)) else c).printed)
        (lt→ltb 0 (suc (length bytes)) (omega arith))

  pub take_all_received-zone :
      (table : Table D) (i n : ℕ) (c : Console D) → (take_all_received table i n c).zone ≡ c.zone
  unfolding take_all_received
  take_all_received-zone table i zero c = refl
  take_all_received-zone table i (suc n) c =
      let (bytes, driver') = table.dequeue_bytes c.driver i probe_dequeue_chunk in
      let c' = record c { driver = driver' } in
      take_all_received-zone table (i + 1) n (take_received table i c)
      ∙ pick (λ x. x.zone ≡ c.zone) (ltb 0 (length bytes)) (say c' (bytes_received i bytes)) c' refl
          refl

  module _ {table : Table D} {held : D → ℕ → List ℕ} (source : IsSource table held)
      (apart : IsApart table held) where
    take_received-printed :
        (i : ℕ) (c : Console D)
        → (take_received table i c).printed
          ≡ c.printed ++ line_for i (take probe_dequeue_chunk (held c.driver i))
    unfolding take_received
    take_received-printed i c =
        let (bytes, driver') = table.dequeue_bytes c.driver i probe_dequeue_chunk in
        printed_for (record c { driver = driver' }) i bytes
        ∙ ap (λ b. c.printed ++ line_for i b) (source.taken c.driver i probe_dequeue_chunk)

    pub take_received-driver :
        (i : ℕ) (c : Console D)
        → (take_received table i c).driver ≡ (table.dequeue_bytes c.driver i probe_dequeue_chunk).1
    unfolding take_received
    take_received-driver i c =
        let (bytes, driver') = table.dequeue_bytes c.driver i probe_dequeue_chunk in
        let c' = record c { driver = driver' } in
        pick (λ x. x.driver ≡ driver') (ltb 0 (length bytes)) (say c' (bytes_received i bytes)) c'
          refl refl

    -- the interfaces in front of `i`, and behind the last that is polled, are left alone
    pub take_all_received-outside :
        (i n j : ℕ) (c : Console D)
        → (j < i) ⊎ (i + n ≤ j)
        → held (take_all_received table i n c).driver j ≡ held c.driver j
    unfolding take_all_received
    take_all_received-outside i zero j c out = refl
    take_all_received-outside i (suc n) j c out =
        take_all_received-outside (i + 1) n j (take_received table i c) (elim out [
          | inl before ↦ inl (omega (arith, before))
          | inr behind ↦ inr (omega (arith, behind))
        ])
        ∙ ap (λ d. held d j) (take_received-driver i c)
        ∙ apart c.driver i j probe_dequeue_chunk (λ e. elim out [
          | inl before ↦ omega (arith, before, e)
          | inr behind ↦ omega (arith, behind, e)
        ])

    pub take_all_received-left :
        (i n j : ℕ) (c : Console D)
        → i ≤ j
        → j < i + n
        → held (take_all_received table i n c).driver j ≡ drop probe_dequeue_chunk (held c.driver j)
    unfolding take_all_received
    take_all_received-left i zero j c le lt = absurd (omega (arith, le, lt))
    take_all_received-left i (suc n) j c le lt = elim (ℕ_discrete j i) [
      | yes e ↦
          take_all_received-outside (i + 1) n j (take_received table i c) (inl (omega (arith, e)))
          ∙ ap (λ d. held d j) (take_received-driver i c)
          ∙ subst
              (λ k.
                held (table.dequeue_bytes c.driver i probe_dequeue_chunk).1 k
                ≡ drop probe_dequeue_chunk (held c.driver k))
              (sym e) (source.left c.driver i probe_dequeue_chunk)
      | no ne ↦
          take_all_received-left (i + 1) n j (take_received table i c) (omega (arith, le, ne))
            (omega (arith, lt))
          ∙ ap (λ d. drop probe_dequeue_chunk (held d j)) (take_received-driver i c)
          ∙ ap (drop probe_dequeue_chunk) (apart c.driver i j probe_dequeue_chunk ne)
    ]

    pub take_all_received-printed :
        (i n : ℕ) (c : Console D)
        → (take_all_received table i n c).printed ≡ c.printed ++ received_lines (held c.driver) i n
    unfolding take_all_received
    take_all_received-printed i zero c = sym (append-nil c.printed)
    take_all_received-printed i (suc n) c =
        let c' = take_received table i c in
        take_all_received-printed (i + 1) n c'
        ∙ ap₂ ◌++◌ (take_received-printed i c) (
            received_lines-same (held c'.driver) (held c.driver) (i + 1) n (λ j le.
              ap (λ d. held d j) (take_received-driver i c)
              ∙ apart c.driver i j probe_dequeue_chunk (λ e. absurd (omega (arith, le, e)))))
        ∙ append_assoc c.printed _ _
