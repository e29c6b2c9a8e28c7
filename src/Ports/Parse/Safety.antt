-- ===== src/Ports/Parse/Safety.antt =====
-- `um9_ms_parse` of core/ports.c returns, whatever the buffer holds.
use mathlib.Core.Path.{subst}
use usbmidi.Prelude.{
  if_Returns, then_Returns, leb, Returns, ◌==◌, word, length, ℕ, zero, suc, ◌+◌, ◌-◌, ◌≤◌, ◌<◌, ◌≡◌,
  refl, sym, ap, ◌∙◌, Bool, true, false, not, ◌&&◌, ◌||◌, some, List, arith,
}
use usbmidi.Descriptors.{DescIter, desc_iter_init, desc_iter_next}
use usbmidi.Descriptors.Walk.{IsValid, Stepped, desc_iter_next-Stepped, desc_iter_init-IsValid}
use usbmidi.Ports.{
  MsInfo, max_jacks, max_endpoints, max_jack_sources, max_embedded_jacks, zero_info,
}
use usbmidi.Ports.Parse.{
  Parser, clamp, in_jack, out_jack, cs_interface, cs_endpoint, outside, inside, body, ms_loop,
  new_parser, ms_parse,
}
use usbmidi.Ports.Parse.Limits.{
  IsWithin, u8_then, u16_then, add_jack-IsWithin, add_endpoint-IsWithin, sources_fit, embedded_fit,
  ids_then,
}

clamped : (n most room : ℕ) → clamp (clamp n most) room ≤ most
clamped n most room = ground arith

with_same :
    {info info' : MsInfo}
    → IsWithin info
    → info'.jacks ≡ info.jacks
    → info'.num_in_jacks ≡ info.num_in_jacks
    → info'.num_out_jacks ≡ info.num_out_jacks
    → info'.endpoints ≡ info.endpoints
    → IsWithin info'
with_same w j i o e = record {
  jacks_in = ground (arith, w.jacks_in, j);
  counted_in = ground (arith, w.counted_in, i, o, j);
  sources_in = ap (λ l. sources_fit l) j ∙ w.sources_in;
  endpoints_in = ground (arith, w.endpoints_in, e);
  embedded_in = ap (λ l. embedded_fit l) e ∙ w.embedded_in;
}

zero_info-IsWithin : IsWithin zero_info
zero_info-IsWithin = record {
  jacks_in = omega arith;
  counted_in = refl;
  sources_in = refl;
  endpoints_in = omega arith;
  embedded_in = refl;
}

abbrev Within : Parser → Type 0
Within p = IsWithin p.info

module _ {it : DescIter} {bytes : List ℕ} (v : IsValid it bytes) where
  in_jack-IsWithin : (info : MsInfo) → IsWithin info → Returns IsWithin (in_jack it info)
  in_jack-IsWithin info w =
      if_Returns IsWithin (leb max_jacks (length info.jacks)) _ _ (λ full. w)
        (λ room. u8_then v IsWithin 3 _ (λ jack_type.
          u8_then v IsWithin 4 _ (λ id. add_jack-IsWithin info _ w room (omega arith))))

  out_jack-IsWithin : (info : MsInfo) → IsWithin info → Returns IsWithin (out_jack it info)
  out_jack-IsWithin info w = u8_then v IsWithin 5 _ (λ npins.
      if_Returns IsWithin (leb max_jacks (length info.jacks)) _ _ (λ full. w)
        (λ room. u8_then v IsWithin 3 _ (λ jack_type. u8_then v IsWithin 4 _ (λ id.
          ids_then v IsWithin 6 (clamp (clamp npins max_jack_sources) (it.blen - 7)) _ (λ ids n.
            add_jack-IsWithin info _ w room (
              subst (λ k. k ≤ max_jack_sources) (sym n)
                (clamped npins max_jack_sources (it.blen - 7))))))))

  cs_interface-IsWithin :
      (info : MsInfo) (subtype : ℕ)
      → IsWithin info
      → Returns IsWithin (cs_interface it info subtype)
  unfolding cs_interface
  cs_interface-IsWithin info subtype w =
      if_Returns IsWithin (subtype == 1 && leb 7 it.blen) _ _
        (λ t.
          u16_then v IsWithin 3 _
            (λ bcd. u16_then v IsWithin 5 _ (λ total. with_same w refl refl refl refl)))
        (λ f.
          if_Returns IsWithin (subtype == 2 && leb 6 it.blen) _ _ (λ t. in_jack-IsWithin info w)
            (λ f.
              if_Returns IsWithin (subtype == 3 && leb 9 it.blen) _ _
                (λ t. out_jack-IsWithin info w) (λ f. w)))

  cs_endpoint-IsWithin :
      (p : Parser) (subtype : ℕ) → Within p → Returns IsWithin (cs_endpoint it p subtype)
  unfolding cs_endpoint
  cs_endpoint-IsWithin p subtype w =
      if_Returns IsWithin (subtype == 1 && leb 5 it.blen && not (p.cur_ep_address == 0)) _ _
        (λ t. u8_then v IsWithin 3 _ (λ n.
          if_Returns IsWithin (leb max_endpoints (length p.info.endpoints)) _ _ (λ full. w)
            (λ room.
              ids_then v IsWithin 4 (clamp (clamp n max_embedded_jacks) (it.blen - 4)) _ (λ ids e.
                add_endpoint-IsWithin p ids w room (
                  subst (λ k. k ≤ max_embedded_jacks) (sym e)
                    (clamped n max_embedded_jacks (it.blen - 4)))))))
        (λ f. w)

  outside-Within : (p : Parser) → Within p → Returns Within (outside it p)
  unfolding outside
  outside-Within p w =
      if_Returns Within (it.btype == 1 && leb 18 it.blen) _ _
        (λ t.
          u16_then v Within 8 _
            (λ vid. u16_then v Within 10 _ (λ pid. with_same w refl refl refl refl)))
        (λ f.
          if_Returns Within (it.btype == 4 && leb 9 it.blen) _ _
            (λ t. u8_then v Within 5 _ (λ class.
              if_Returns Within (not (class == 1)) _ _ (λ t. w)
                (λ f. u8_then v Within 6 _ (λ subclass.
                  if_Returns Within (subclass == 3) _ _
                    (λ t. u8_then v Within 2 _ (λ a.
                      u8_then v Within 3 _
                        (λ b. u8_then v Within 4 _ (λ c. with_same w refl refl refl refl))))
                    (λ f. w)))))
            (λ f. w))

  inside-Within : (p : Parser) → Within p → Returns Within (inside it p)
  unfolding inside
  inside-Within p w =
      if_Returns Within (it.btype == 5 && leb 7 it.blen) _ _
        (λ t.
          u8_then v Within 2 _ (λ a. u8_then v Within 3 _ (λ b. u16_then v Within 4 _ (λ c. w))))
        (λ f.
          if_Returns Within (it.btype == 0x24) _ _
            (λ t. u8_then v Within 2 _ (λ subtype.
              then_Returns IsWithin Within (cs_interface it p.info subtype) _
                (cs_interface-IsWithin p.info subtype w) (λ info h. h)))
            (λ f.
              if_Returns Within (it.btype == 0x25) _ _
                (λ t. u8_then v Within 2 _ (λ subtype.
                  then_Returns IsWithin Within (cs_endpoint it p subtype) _
                    (cs_endpoint-IsWithin p subtype w) (λ info h. h)))
                (λ f. w)))

  body-Within : (p : Parser) → Within p → Returns (λ r. Within r.1) (body it p)
  unfolding body
  body-Within p w =
      if_Returns (λ r. Within r.1) (not p.in_ms) _ _
        (λ t.
          then_Returns Within (λ r. Within r.1) (outside it p) _ (outside-Within p w) (λ p' h. h))
        (λ f.
          if_Returns (λ r. Within r.1) (it.btype == 4 || it.btype == 2 || it.btype == 1) _ _
            (λ t. w)
            (λ f.
              then_Returns Within (λ r. Within r.1) (inside it p) _ (inside-Within p w)
                (λ p' h. h)))

-- the walker and the parser behind the loop
abbrev LoopWithin : DescIter × Parser → Type 0
LoopWithin (it, p) = Within p

Stepped-IsValid :
    (it : DescIter) (bytes : List ℕ) (step : Bool × DescIter)
    → Stepped it bytes step
    → IsValid step.1 bytes
Stepped-IsValid it bytes (true, it') h = h.0
Stepped-IsValid it bytes (false, it') h = h.0

Stepped-moves :
    (it : DescIter) (bytes : List ℕ) (step : Bool × DescIter)
    → Stepped it bytes step
    → not step.0 ≡ false
    → (it.pos < step.1.pos) × (step.1.len ≡ it.len)
Stepped-moves it bytes (true, it') (_, _, e, two, l, _) f = (omega arith, l)
Stepped-moves it bytes (false, it') h f = absurd (ground arith)

ms_loop-LoopWithin :
    (fuel : ℕ) (it : DescIter) (bytes : List ℕ) (p : Parser)
    → IsValid it bytes
    → it.len - it.pos < fuel
    → Within p
    → Returns LoopWithin (ms_loop fuel it p)
unfolding ms_loop
ms_loop-LoopWithin zero it bytes p v lt w = absurd (omega arith)
ms_loop-LoopWithin (suc fuel) it bytes p v lt w =
    then_Returns (Stepped it bytes) LoopWithin (desc_iter_next it) _ (desc_iter_next-Stepped v)
      (λ step h.
        if_Returns LoopWithin (not step.0) _ _ (λ t. w)
          (λ f.
            then_Returns (λ r. Within r.1) LoopWithin (body step.1 p) _
              (body-Within (Stepped-IsValid it bytes step h) p w)
              (λ r w'.
                if_Returns LoopWithin (not r.0) _ _ (λ t. w')
                  (λ f'.
                    ms_loop-LoopWithin fuel step.1 bytes r.1 (Stepped-IsValid it bytes step h)
                      (omega (
                        arith,
                        v.pos_in,
                        (Stepped-IsValid it bytes step h).pos_in,
                        Stepped-moves it bytes step h f,
                      ))
                      w'))))

-- `um9_ms_parse` returns for every buffer of less than 2^32 bytes, and never reads outside of it;
-- what it records keeps the limits on jacks, their sources, endpoints and their embedded jacks, and
-- its counters of the two kinds of jacks add up to their number.
pub ms_parse-IsWithin :
    (bytes : List ℕ)
    → length bytes < word
    → Returns (λ (ret, info). IsWithin info) (ms_parse (some bytes) (length bytes))
unfolding ms_parse desc_iter_init
ms_parse-IsWithin bytes lt =
    then_Returns LoopWithin (λ (ret, info). IsWithin info) _ _
      (ms_loop-LoopWithin (length bytes + 1) (desc_iter_init (some bytes) (length bytes)) bytes
        new_parser (desc_iter_init-IsValid bytes lt) (omega arith) zero_info-IsWithin)
      (λ r w. w)
