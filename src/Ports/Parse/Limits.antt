-- ===== src/Ports/Parse/Limits.antt =====
-- The parser of core/ports.c stays inside its buffer and within its limits.
use mathlib.Core.Path.{subst}
use usbmidi.Prelude.{
  then_Returns, leb, ◌>>=◌, Returns, length, length-append, ℕ, zero, suc, ◌+◌, ◌≤◌, ◌≡◌, refl, sym,
  ap, Bool, true, false, ◌&&◌, Option, List, [], ◌∷◌, ◌++◌, arith,
}
use usbmidi.Descriptors.{DescIter, desc_u8, desc_u16le}
use usbmidi.Descriptors.Walk.{IsValid, desc_u8_in_bounds, desc_u16le_in_bounds}
use usbmidi.Ports.{
  Jack, Endpoint, MsInfo, max_jacks, max_endpoints, max_jack_sources, max_embedded_jacks,
}
use usbmidi.Ports.Parse.{Parser, read_ids, add_jack, add_endpoint, new_endpoint}

module _ {it : DescIter} {bytes : List ℕ} (v : IsValid it bytes) where
  pub u8_then {ℓ} :
      {B : Type ℓ} (P : B → Type 0) (k : ℕ) (f : ℕ → Option B)
      → ((x : ℕ) → Returns P (f x))
      → Returns P (desc_u8 it k >>= f)
  u8_then P k f h = subst (λ o. Returns P (o >>= f)) (sym (desc_u8_in_bounds k v)) (h _)

  pub u16_then {ℓ} :
      {B : Type ℓ} (P : B → Type 0) (k : ℕ) (f : ℕ → Option B)
      → ((x : ℕ) → Returns P (f x))
      → Returns P (desc_u16le it k >>= f)
  u16_then P k f h = subst (λ o. Returns P (o >>= f)) (sym (desc_u16le_in_bounds k v)) (h _)

  pub read_ids-length : (off n : ℕ) → Returns (λ ids. length ids ≡ n) (read_ids it off n)
  unfolding read_ids
  read_ids-length off zero = refl
  read_ids-length off (suc n) =
      u8_then (λ ids. length ids ≡ suc n) off _
        (λ id.
          then_Returns (λ ids. length ids ≡ n) (λ ids. length ids ≡ suc n) (read_ids it (off + 1) n)
            _ (read_ids-length (off + 1) n) (λ ids e. ap suc e))

  pub ids_then {ℓ} :
      {B : Type ℓ} (P : B → Type 0) (off n : ℕ) (f : List ℕ → Option B)
      → ((ids : List ℕ) → length ids ≡ n → Returns P (f ids))
      → Returns P (read_ids it off n >>= f)
  ids_then P off n f h =
      then_Returns (λ ids. length ids ≡ n) P (read_ids it off n) f (read_ids-length off n) h

abbrev pub sources_fit : List Jack → Bool
sources_fit [] = true
sources_fit (jack ∷ jacks) = leb (length jack.source_ids) max_jack_sources && sources_fit jacks

abbrev pub embedded_fit : List Endpoint → Bool
embedded_fit [] = true
embedded_fit (ep ∷ eps) = leb (length ep.embedded_ids) max_embedded_jacks && embedded_fit eps

sources_fit-append :
    (jacks : List Jack) (jack : Jack)
    → sources_fit jacks ≡ true
    → length jack.source_ids ≤ max_jack_sources
    → sources_fit (jacks ++ jack ∷ []) ≡ true
sources_fit-append [] jack h n = ground arith
sources_fit-append (j ∷ jacks) jack h n = ground (arith, sources_fit-append jacks jack)

embedded_fit-append :
    (eps : List Endpoint) (ep : Endpoint)
    → embedded_fit eps ≡ true
    → length ep.embedded_ids ≤ max_embedded_jacks
    → embedded_fit (eps ++ ep ∷ []) ≡ true
embedded_fit-append [] ep h n = ground arith
embedded_fit-append (e ∷ eps) ep h n = ground (arith, embedded_fit-append eps ep)

-- The arrays of `um9_ms_info` hold what was recorded, and the counters agree.
pub record IsWithin (info : MsInfo) : Type 0 where
  pub jacks_in : length info.jacks ≤ max_jacks
  pub counted_in : info.num_in_jacks + info.num_out_jacks ≡ length info.jacks
  pub sources_in : sources_fit info.jacks ≡ true
  pub endpoints_in : length info.endpoints ≤ max_endpoints
  pub embedded_in : embedded_fit info.endpoints ≡ true

pub add_jack-IsWithin :
    (info : MsInfo) (jack : Jack)
    → IsWithin info
    → leb max_jacks (length info.jacks) ≡ false
    → length jack.source_ids ≤ max_jack_sources
    → IsWithin (add_jack info jack)
add_jack-IsWithin info jack w room n = record {
  jacks_in = ground (arith, length-append info.jacks (jack ∷ []), room);
  counted_in = ground (arith, length-append info.jacks (jack ∷ []), w.counted_in);
  sources_in = sources_fit-append info.jacks jack w.sources_in n;
  endpoints_in = w.endpoints_in;
  embedded_in = w.embedded_in;
}

pub add_endpoint-IsWithin :
    (p : Parser) (ids : List ℕ)
    → IsWithin p.info
    → leb max_endpoints (length p.info.endpoints) ≡ false
    → length ids ≤ max_embedded_jacks
    → IsWithin (add_endpoint p ids)
add_endpoint-IsWithin p ids w room n = record {
  jacks_in = w.jacks_in;
  counted_in = w.counted_in;
  sources_in = w.sources_in;
  endpoints_in = ground (arith, length-append p.info.endpoints (new_endpoint p ids ∷ []), room);
  embedded_in = embedded_fit-append p.info.endpoints (new_endpoint p ids) w.embedded_in n;
}
