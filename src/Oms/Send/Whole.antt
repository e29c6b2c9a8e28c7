-- ===== src/Oms/Send/Whole.antt =====
-- SysEx runs through the send hook of oms/oms_tx.c.
use mathlib.Core.Path.{subst}
use usbmidi.Prelude.{
  ltb, leb, length, get_or, take, length-append, ℕ, ◌≤◌, ◌<◌, ◌≡◌, refl, sym, ap, ◌∙◌, Bool, true,
  ◌&&◌, List, [], ◌∷◌, ◌++◌, append_assoc, arith,
}
use usbmidi.Tx.Sysex.{packets_of}
use usbmidi.Oms.Send.{
  Port, Sends, tx_start, tx_end, tx_mid, flush, keep_rest, chunk_body, oms_tx_sysex_chunk, send_on,
  OmsMidiPacket, started,
}
use usbmidi.Oms.Send.Run.{
  tag, tag-append, Kept, Flushed, IsHeld, chunk_body_keeps, chunk_body_flushes, keep_rest-Kept,
  flush-Flushed,
}

-- the packet in which OMS hands over a chunk, by its continuation state
abbrev pub chunk : ℕ → List ℕ → OmsMidiPacket
chunk cont bytes = record { flags = cont; len = length bytes; data_bytes = bytes }

abbrev pub fits : List ℕ → Bool
fits bytes = ltb 0 (length bytes) && leb (length bytes) 4

unfoldable pub all_fit : List (List ℕ) → Bool
all_fit [] = true
all_fit (bytes ∷ rest) = fits bytes && all_fit rest

abbrev pub whole_of : List (List ℕ) → List ℕ → List ℕ
whole_of [] last = last
whole_of (bytes ∷ rest) last = bytes ++ whole_of rest last

abbrev Out : Type 0
Out = List (List ℕ)

-- the calls for the middle chunks, and for the last one
unfoldable pub send_rest : Port × Sends → ℕ → ℕ → List (List ℕ) → List ℕ → Out → Port × Sends
send_rest s port_code cable [] last out = send_on s port_code cable (chunk tx_end last) out
send_rest s port_code cable (bytes ∷ rest) last out =
    send_rest (send_on s port_code cable (chunk tx_mid bytes) out) port_code cable rest last out

unfoldable pub send_run :
    Port × Sends → ℕ → ℕ → List ℕ → List (List ℕ) → List ℕ → Out → Port × Sends
unfolding send_rest
send_run s port_code cable first rest last out =
    send_rest (send_on s port_code cable (chunk tx_start first) out) port_code cable rest last out

send_on-mid :
    (port : Port) (g : Sends) (port_code cable : ℕ) (left bytes : List ℕ) (out : Out)
    → IsHeld port left
    → fits bytes ≡ true
    → send_on (port, g) port_code cable (chunk tx_mid bytes) out
      ≡ keep_rest port_code cable (left ++ bytes) (length (left ++ bytes)) port g
unfolding send_on oms_tx_sysex_chunk
send_on-mid port g port_code cable left bytes out h f =
    chunk_body_keeps port g port_code cable tx_mid left bytes refl h (ground arith) (ground arith)

send_on-end :
    (port : Port) (g : Sends) (port_code cable : ℕ) (left bytes : List ℕ) (out : Out)
    → IsHeld port left
    → fits bytes ≡ true
    → send_on (port, g) port_code cable (chunk tx_end bytes) out
      ≡ flush port_code cable (left ++ bytes) (length (left ++ bytes)) port g
unfolding send_on oms_tx_sysex_chunk
send_on-end port g port_code cable left bytes out h f =
    chunk_body_flushes port g port_code cable left bytes h (ground arith) (ground arith)

send_on-start :
    (port : Port) (g : Sends) (port_code cable : ℕ) (bytes : List ℕ) (out : Out)
    → port.tx_carry_len ≡ 0
    → get_or bytes 0 0 ≡ 0xf0
    → fits bytes ≡ true
    → send_on (port, g) port_code cable (chunk tx_start bytes) out
      ≡ keep_rest port_code cable bytes (length bytes) port g
unfolding send_on oms_tx_sysex_chunk
send_on-start port g port_code cable bytes out z s f =
    let h : IsHeld port [] = record {
      short = omega arith;
      len = z;
      holds = ap (λ n. take n port.tx_carry) z;
    } in
    let good : started (port, g) tx_start bytes (length bytes) ≡ (port, g) = ground arith in
    ap (λ t. chunk_body t port_code cable tx_start bytes (length bytes)) good
    ∙ chunk_body_keeps port g port_code cable tx_start [] bytes refl h (ground arith) (ground arith)

later_of :
    {port_code cable : ℕ} {bytes : List ℕ} {g : Sends} {s : Port × Sends}
    (k : Kept port_code cable bytes g s) (more : List ℕ)
    → 0 < length more
    → packets_of cable (bytes ++ more) ≡ k.now ++ packets_of cable (k.left ++ more)
later_of k [] pos = absurd (omega arith)
later_of k (x ∷ rest) pos = k.later x rest

whole_of-pos :
    (rest : List (List ℕ)) (last : List ℕ) → fits last ≡ true → 0 < length (whole_of rest last)
whole_of-pos [] last f = ground arith
whole_of-pos (bytes ∷ rest) last f =
    omega (arith, length-append bytes (whole_of rest last), whole_of-pos rest last f)

-- A step that keeps, and the rest of the run.
Kept-Flushed :
    {port_code cable : ℕ} {bytes : List ℕ} {g : Sends} {s s' : Port × Sends}
    (k : Kept port_code cable bytes g s) (more : List ℕ)
    → 0 < length more
    → Flushed port_code cable (k.left ++ more) s.1 s'
    → Flushed port_code cable (bytes ++ more) g s'
Kept-Flushed {port_code} {cable} {bytes} {g} k more pos f = record {
  empty = f.empty;
  sent =
      f.sent
      ∙ ap (λ l. l ++ tag port_code (packets_of cable (k.left ++ more))) k.sent
      ∙ append_assoc g.sent (tag port_code k.now)
          (tag port_code (packets_of cable (k.left ++ more)))
      ∙ ap (λ l. g.sent ++ l)
          (sym (tag-append port_code k.now (packets_of cable (k.left ++ more)))
            ∙ ap (λ l. tag port_code l) (sym (later_of k more pos)));
  same = f.same ∙ k.same;
}

fits_bounds : (bytes : List ℕ) → fits bytes ≡ true → (0 < length bytes) × (length bytes ≤ 4)
fits_bounds bytes f = (ground arith, ground arith)

send_rest-Flushed :
    (rest : List (List ℕ)) (last : List ℕ) (port : Port) (g : Sends) (port_code cable : ℕ)
    (left : List ℕ) (out : Out)
    → IsHeld port left
    → all_fit rest ≡ true
    → fits last ≡ true
    → Flushed port_code cable
        (left ++ whole_of rest last)
        g
        (send_rest (port, g) port_code cable rest last out)
unfolding send_rest all_fit
send_rest-Flushed [] last port g port_code cable left out h a f =
    subst (λ s. Flushed port_code cable (left ++ last) g s)
      (sym (send_on-end port g port_code cable left last out h f))
      (flush-Flushed port_code cable (left ++ last) port g
        (omega (arith, length-append left last, fits_bounds last f))
        (omega (arith, length-append left last, fits_bounds last f, h.short)))
send_rest-Flushed (bytes ∷ rest) last port g port_code cable left out h a f =
    let fit : fits bytes ≡ true = ground arith in
    let fits_rest : all_fit rest ≡ true = ground arith in
    let xs = left ++ bytes in
    let short : length xs ≤ 6 =
      omega (arith, length-append left bytes, fits_bounds bytes fit, h.short) in
    let k = keep_rest-Kept port_code cable xs port g short in
    let t = keep_rest port_code cable xs (length xs) port g in
    let held_now : IsHeld t.0 k.left = record { short = k.short; len = k.len; holds = k.holds } in
    let more =
      send_rest-Flushed rest last t.0 t.1 port_code cable k.left out held_now fits_rest f in
    let all = Kept-Flushed k (whole_of rest last) (whole_of-pos rest last f) more in
    subst
      (λ s.
        Flushed port_code cable (left ++ (bytes ++ whole_of rest last)) g
          (send_rest s port_code cable rest last out))
      (sym (send_on-mid port g port_code cable left bytes out h fit))
      (subst (λ l. Flushed port_code cable l g (send_rest t port_code cable rest last out))
        (append_assoc left bytes (whole_of rest last)) all)

-- A SysEx message that comes in a start chunk, any middle chunks and an end chunk, of one to four
-- bytes each, on a port without a carry, goes to the transport as exactly the packets of the whole
-- message, however it was cut; the carry is empty behind it and nothing counts as malformed.
pub send_run_sends :
    (port : Port) (g : Sends) (port_code cable : ℕ) (first : List ℕ) (rest : List (List ℕ))
    (last : List ℕ) (out : Out)
    → port.tx_carry_len ≡ 0
    → get_or first 0 0 ≡ 0xf0
    → all_fit (first ∷ last ∷ rest) ≡ true
    → let (port', g') = send_run (port, g) port_code cable first rest last out in
      (port'.tx_carry_len ≡ 0)
      × (g'.sent ≡ g.sent ++ tag port_code (packets_of cable (first ++ whole_of rest last)))
      × (g'.tx_malformed ≡ g.tx_malformed)
unfolding send_run all_fit
send_run_sends port g port_code cable first rest last out z f0 a =
    let fit : fits first ≡ true = ground arith in
    let fit_last : fits last ≡ true = ground arith in
    let fits_rest : all_fit rest ≡ true = ground arith in
    let k = keep_rest-Kept port_code cable first port g (omega (arith, fits_bounds first fit)) in
    let t = keep_rest port_code cable first (length first) port g in
    let held_now : IsHeld t.0 k.left = record { short = k.short; len = k.len; holds = k.holds } in
    let more =
      send_rest-Flushed rest last t.0 t.1 port_code cable k.left out held_now fits_rest fit_last in
    let all = Kept-Flushed k (whole_of rest last) (whole_of-pos rest last fit_last) more in
    let done =
      subst
        (λ s.
          Flushed port_code cable (first ++ whole_of rest last) g
            (send_rest s port_code cable rest last out))
        (sym (send_on-start port g port_code cable first out z f0 fit)) all in
    (done.empty, done.sent, done.same)
