-- ===== src/Oms/Send/Run.antt =====
-- A run of SysEx chunks through the carry of oms/oms_tx.c.
use usbmidi.Prelude.{
  length, take, length-append, take-length, ℕ, ◌+◌, ◌≤◌, ◌<◌, ◌≡◌, refl, sym, ap, ap₂, ◌∙◌, false,
  List, [], ◌∷◌, ◌++◌, append-nil, append_assoc, arith,
}
use usbmidi.Tx.{tx_packet_build, tx_end_cin}
use usbmidi.Tx.Sysex.{packets_of}
use usbmidi.Packets.Cin
use usbmidi.Oms.Send.{Port, Sends, keep_rest, flush, is_end, chunk_body, tx_end, joined}

-- the bytes in the carry
abbrev pub held : Port → List ℕ
held port = take port.tx_carry_len port.tx_carry

abbrev pub tag : ℕ → List (List ℕ) → List (ℕ × List ℕ)
tag port_code [] = []
tag port_code (p ∷ ps) = (port_code, p) ∷ tag port_code ps

pub tag-append :
    (port_code : ℕ) (xs ys : List (List ℕ))
    → tag port_code (xs ++ ys) ≡ tag port_code xs ++ tag port_code ys
tag-append port_code [] ys = refl
tag-append port_code (x ∷ xs) ys = ap (◌∷◌ (port_code, x)) (tag-append port_code xs ys)

abbrev triple : ℕ → ℕ → ℕ → ℕ → List ℕ
triple cable a b c = tx_packet_build cable Cin.sysex_start (a ∷ b ∷ c ∷ []) 3

-- The packets of a run that begins with `bytes` are those sent now, and those of what is left.
pub record Kept (port_code cable : ℕ) (bytes : List ℕ) (g : Sends) (s : Port × Sends) : Type 0 where
  pub now : List (List ℕ)
  pub left : List ℕ
  pub short : length left ≤ 2
  pub len : s.0.tx_carry_len ≡ length left
  pub holds : held s.0 ≡ left
  pub sent : s.1.sent ≡ g.sent ++ tag port_code now
  pub same : s.1.tx_malformed ≡ g.tx_malformed
  pub later :
      (x : ℕ) (rest : List ℕ)
      → packets_of cable (bytes ++ x ∷ rest) ≡ now ++ packets_of cable (left ++ x ∷ rest)

kept :
    {port_code cable : ℕ} {bytes : List ℕ} {g : Sends} {s : Port × Sends} (now : List (List ℕ))
    (left : List ℕ)
    → length left ≤ 2
    → s.0.tx_carry_len ≡ length left
    → held s.0 ≡ left
    → s.1.sent ≡ g.sent ++ tag port_code now
    → s.1.tx_malformed ≡ g.tx_malformed
    → ((x : ℕ) (rest : List ℕ)
        → packets_of cable (bytes ++ x ∷ rest) ≡ now ++ packets_of cable (left ++ x ∷ rest))
    → Kept port_code cable bytes g s
kept now left short len holds sent same later = record {
  now = now;
  left = left;
  short = short;
  len = len;
  holds = holds;
  sent = sent;
  same = same;
  later = later;
}

pub keep_rest-Kept :
    (port_code cable : ℕ) (bytes : List ℕ) (port : Port) (g : Sends)
    → length bytes ≤ 6
    → Kept port_code cable bytes g (keep_rest port_code cable bytes (length bytes) port g)
unfolding keep_rest tx_packet_build
keep_rest-Kept port_code cable [] port g h =
    kept [] [] (omega arith) refl refl (sym (append-nil g.sent)) refl (λ x rest. refl)
keep_rest-Kept port_code cable (a ∷ []) port g h =
    kept [] (a ∷ []) (omega arith) refl refl (sym (append-nil g.sent)) refl (λ x rest. refl)
keep_rest-Kept port_code cable (a ∷ b ∷ []) port g h =
    kept [] (a ∷ b ∷ []) (omega arith) refl refl (sym (append-nil g.sent)) refl (λ x rest. refl)
keep_rest-Kept port_code cable (a ∷ b ∷ c ∷ []) port g h =
    kept (triple cable a b c ∷ []) [] (omega arith) refl refl refl refl (λ x rest. refl)
keep_rest-Kept port_code cable (a ∷ b ∷ c ∷ d ∷ []) port g h =
    kept (triple cable a b c ∷ []) (d ∷ []) (omega arith) refl refl refl refl (λ x rest. refl)
keep_rest-Kept port_code cable (a ∷ b ∷ c ∷ d ∷ e ∷ []) port g h =
    kept (triple cable a b c ∷ []) (d ∷ e ∷ []) (omega arith) refl refl refl refl (λ x rest. refl)
keep_rest-Kept port_code cable (a ∷ b ∷ c ∷ d ∷ e ∷ f ∷ []) port g h =
    kept (triple cable a b c ∷ triple cable d e f ∷ []) [] (omega arith) refl refl
      (append_assoc g.sent (tag port_code (triple cable a b c ∷ []))
        (tag port_code (triple cable d e f ∷ [])))
      refl (λ x rest. refl)
keep_rest-Kept port_code cable (a ∷ b ∷ c ∷ d ∷ e ∷ f ∷ x ∷ bytes) port g h = absurd (omega arith)

-- the packets of the end of a run, and an empty carry
pub record Flushed (port_code cable : ℕ) (bytes : List ℕ) (g : Sends) (s : Port × Sends)
    : Type 0 where
  pub empty : s.0.tx_carry_len ≡ 0
  pub sent : s.1.sent ≡ g.sent ++ tag port_code (packets_of cable bytes)
  pub same : s.1.tx_malformed ≡ g.tx_malformed

pub flush-Flushed :
    (port_code cable : ℕ) (bytes : List ℕ) (port : Port) (g : Sends)
    → 0 < length bytes
    → length bytes ≤ 6
    → Flushed port_code cable bytes g (flush port_code cable bytes (length bytes) port g)
unfolding flush tx_packet_build tx_end_cin
flush-Flushed port_code cable [] port g pos h = absurd (omega arith)
flush-Flushed port_code cable (a ∷ []) port g pos h = record {
  empty = refl;
  sent = refl;
  same = refl;
}
flush-Flushed port_code cable (a ∷ b ∷ []) port g pos h = record {
  empty = refl;
  sent = refl;
  same = refl;
}
flush-Flushed port_code cable (a ∷ b ∷ c ∷ []) port g pos h = record {
  empty = refl;
  sent = refl;
  same = refl;
}
flush-Flushed port_code cable (a ∷ b ∷ c ∷ d ∷ []) port g pos h = record {
  empty = refl;
  sent =
      append_assoc g.sent (tag port_code (triple cable a b c ∷ []))
        (tag port_code (packets_of cable (d ∷ [])));
  same = refl;
}
flush-Flushed port_code cable (a ∷ b ∷ c ∷ d ∷ e ∷ []) port g pos h = record {
  empty = refl;
  sent =
      append_assoc g.sent (tag port_code (triple cable a b c ∷ []))
        (tag port_code (packets_of cable (d ∷ e ∷ [])));
  same = refl;
}
flush-Flushed port_code cable (a ∷ b ∷ c ∷ d ∷ e ∷ f ∷ []) port g pos h = record {
  empty = refl;
  sent =
      append_assoc g.sent (tag port_code (triple cable a b c ∷ []))
        (tag port_code (packets_of cable (d ∷ e ∷ f ∷ [])));
  same = refl;
}
flush-Flushed port_code cable (a ∷ b ∷ c ∷ d ∷ e ∷ f ∷ x ∷ rest) port g pos h = absurd (omega arith)

-- The carry of a port between two chunks.
pub record IsHeld (port : Port) (left : List ℕ) : Type 0 where
  pub short : length left ≤ 2
  pub len : port.tx_carry_len ≡ length left
  pub holds : held port ≡ left

pub chunk_body_keeps :
    (port : Port) (g : Sends) (port_code cable mode : ℕ) (left bytes : List ℕ)
    → is_end mode ≡ false
    → IsHeld port left
    → 0 < length bytes
    → length bytes ≤ 4
    → chunk_body (port, g) port_code cable mode bytes (length bytes)
      ≡ keep_rest port_code cable (left ++ bytes) (length (left ++ bytes)) port g
unfolding chunk_body
chunk_body_keeps port g port_code cable mode left bytes m h pos le =
    let n : port.tx_carry_len + length bytes ≡ length (left ++ bytes) =
      omega (arith, h.len, length-append left bytes) in
    let e : joined port bytes (length bytes) ≡ left ++ bytes =
      ap₂ ◌++◌ h.holds (take-length bytes) in
    let body : chunk_body (port, g) port_code cable mode bytes (length bytes)
        ≡ keep_rest port_code cable (joined port bytes (length bytes))
            (port.tx_carry_len + length bytes) port g =
      ground (arith, h.short, h.len) in
    body ∙ ap₂ (λ xs k. keep_rest port_code cable xs k port g) e n

pub chunk_body_flushes :
    (port : Port) (g : Sends) (port_code cable : ℕ) (left bytes : List ℕ)
    → IsHeld port left
    → 0 < length bytes
    → length bytes ≤ 4
    → chunk_body (port, g) port_code cable tx_end bytes (length bytes)
      ≡ flush port_code cable (left ++ bytes) (length (left ++ bytes)) port g
unfolding chunk_body
chunk_body_flushes port g port_code cable left bytes h pos le =
    let n : port.tx_carry_len + length bytes ≡ length (left ++ bytes) =
      omega (arith, h.len, length-append left bytes) in
    let e : joined port bytes (length bytes) ≡ left ++ bytes =
      ap₂ ◌++◌ h.holds (take-length bytes) in
    let body : chunk_body (port, g) port_code cable tx_end bytes (length bytes)
        ≡ flush port_code cable (joined port bytes (length bytes))
            (port.tx_carry_len + length bytes) port g =
      ground (arith, h.short, h.len) in
    body ∙ ap₂ (λ xs k. flush port_code cable xs k port g) e n
