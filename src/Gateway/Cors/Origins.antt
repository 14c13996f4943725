-- ===== src/Gateway/Cors/Origins.antt =====
-- Which origins a list allows, and which lists are refused: gateway/src/cors.rs.
use mathlib.Core.Path.{ap₂}
use mathlib.Core.List.{reverse, reverse-cons, reverse-reverse}
use rust_web_fullstack.Prelude.{
  ◌⊎◌, subst, sym, trim_end, All-append, ◌&&◌, ℕ, Bool, true, false, not, ◌==◌, Text, codes,
  text_eq, text_eq_iff, trim, trim_start, is_whitespace, is_empty, Option, none, some, List, [],
  ◌∷◌, ◌++◌, map, keep, any, All, ◌≡◌, ◌≢◌, ◌↔◌, refl, ap, ◌∙◌, arith, inl, inr, Bool-cases,
  if◌then◌else◌,
}
use rust_web_fullstack.Gateway.Cors.{
  CorsLibrary, CorsLayer, mirrored, listed, comma, split, filter_map, credentialed, origins,
  cors_layer,
}

-- tower-http documents that `AllowOrigin::list` panics at a list that holds the wildcard.
abbrev pub IsDocumented : CorsLibrary → Type 0
IsDocumented lib = (os : List Text) → lib.list_panics os ≡ any (text_eq (codes "*")) os

-- A gateway that starts never allows credentials from any origin: credentials are allowed for the
-- listed origins only, and the wildcard is none of these.
pub cors_layer-credentials :
    (lib : CorsLibrary) (s : Text) (layer : CorsLayer)
    → IsDocumented lib
    → cors_layer lib s ≡ some layer
    → layer.allow_credentials ≡ true
    → (layer.allow_origin ≡ listed (origins lib (trim s)))
      × (any (text_eq (codes "*")) (origins lib (trim s)) ≡ false)
unfolding cors_layer credentialed
cors_layer-credentials lib s layer d e c = ground (arith, d (origins lib (trim s)))

-- The layer cannot be built exactly when the list is not the wildcard alone and has it among its
-- origins.
pub cors_layer-none_iff :
    (lib : CorsLibrary) (s : Text)
    → IsDocumented lib
    → (cors_layer lib s ≡ none) ↔ (
        (text_eq (trim s) (codes "*") ≡ false)
        × (any (text_eq (codes "*")) (origins lib (trim s)) ≡ true))
unfolding cors_layer credentialed
cors_layer-none_iff lib s d = ground (arith, d (origins lib (trim s)))

-- The origins of a list, between commas.
abbrev pub join : List Text → Text
join [] = []
join (o ∷ []) = o
join (o ∷ w ∷ ws) = o ++ comma ∷ join (w ∷ ws)

unfoldable pub is_plain : ℕ → Bool
is_plain c = not (is_whitespace c) && not (c == comma)

neither : (a b : Bool) → (not a && not b) ≡ true → (a ≡ false) × (b ≡ false)
neither a b e = ground arith

plain_lem : (c : ℕ) → is_plain c ≡ true → (is_whitespace c ≡ false) × ((c == comma) ≡ false)
unfolding is_plain
plain_lem c e = neither (is_whitespace c) (c == comma) e

-- Not empty, and without white space and commas.
abbrev pub IsOrigin : Text → Type 0
IsOrigin o = All (λ c. is_plain c ≡ true) o × (is_empty o ≡ false)

split_plain :
    (o s : Text) → All (λ c. is_plain c ≡ true) o → split comma (o ++ comma ∷ s) ≡ o ∷ split comma s
split_plain [] s h = refl
split_plain (c ∷ o) s (p, h) = rw ((plain_lem c p).1, split_plain o s h) refl

split_last : (o : Text) → All (λ c. is_plain c ≡ true) o → split comma o ≡ o ∷ []
split_last [] h = refl
split_last (c ∷ o) (p, h) = rw ((plain_lem c p).1, split_last o h) refl

split-join :
    (o : Text) (os : List Text) → All IsOrigin (o ∷ os) → split comma (join (o ∷ os)) ≡ o ∷ os
split-join o [] ((h, _), _) = split_last o h
split-join o (w ∷ ws) ((h, _), hs) =
    split_plain o (join (w ∷ ws)) h ∙ ap (◌∷◌ o) (split-join w ws hs)

module _ (p : ℕ → Bool) where
  -- No character to trim.
  abbrev IsKept : Text → Type 0
  IsKept s = All (λ c. p c ≡ false) s

  trim_start-IsKept : (s : Text) → IsKept s → trim_start p s ≡ s
  trim_start-IsKept [] h = refl
  trim_start-IsKept (c ∷ s) (e, h) = rw e refl

  reverse-IsKept : (s : Text) → IsKept s → IsKept (reverse s)
  reverse-IsKept [] h = tt
  reverse-IsKept (c ∷ s) (e, h) =
      subst IsKept (sym (reverse-cons c s))
        (All-append (λ x. p x ≡ false) (reverse s) (c ∷ []) (reverse-IsKept s h) (e, tt))

  trim_end-IsKept : (s : Text) → IsKept s → trim_end p s ≡ s
  trim_end-IsKept s h =
      ap reverse (trim_start-IsKept (reverse s) (reverse-IsKept s h)) ∙ reverse-reverse s

-- A text without white space is trimmed already.
trim_lem : (s : Text) → All (λ c. is_whitespace c ≡ false) s → trim s ≡ s
trim_lem s h =
    ap (trim_end is_whitespace) (trim_start-IsKept is_whitespace s h)
    ∙ trim_end-IsKept is_whitespace s h

plain_dark : (o : Text) → All (λ c. is_plain c ≡ true) o → All (λ c. is_whitespace c ≡ false) o
plain_dark [] h = tt
plain_dark (c ∷ o) (p, h) = ((plain_lem c p).0, plain_dark o h)

join_dark : (os : List Text) → All IsOrigin os → All (λ c. is_whitespace c ≡ false) (join os)
join_dark [] h = tt
join_dark (o ∷ []) ((h, _), _) = plain_dark o h
join_dark (o ∷ w ∷ ws) ((h, _), hs) =
    All-append (λ c. is_whitespace c ≡ false) o (comma ∷ join (w ∷ ws)) (plain_dark o h)
      (refl, join_dark (w ∷ ws) hs)

map-trim : (os : List Text) → All IsOrigin os → map trim os ≡ os
map-trim [] h = refl
map-trim (o ∷ os) ((h, _), hs) = ap₂ (◌∷◌) (trim_lem o (plain_dark o h)) (map-trim os hs)

keep_given : (os : List Text) → All IsOrigin os → keep (λ o. not (is_empty o)) os ≡ os
keep_given [] h = refl
keep_given (o ∷ os) ((_, e), hs) = rw (e, keep_given os hs) refl

filter_map_parsed :
    (parse : Text → Option Text) (os : List Text)
    → All (λ o. parse o ≡ some o) os
    → filter_map parse os ≡ os
filter_map_parsed parse [] h = refl
filter_map_parsed parse (o ∷ os) (e, hs) = ground (arith, filter_map_parsed parse os hs)

origins-join :
    (lib : CorsLibrary) (o : Text) (os : List Text)
    → All IsOrigin (o ∷ os)
    → All (λ w. lib.parse w ≡ some w) (o ∷ os)
    → origins lib (join (o ∷ os)) ≡ o ∷ os
unfolding origins
origins-join lib o os h parsed =
    ap (λ ws. filter_map lib.parse (keep (λ w. not (is_empty w)) (map trim ws))) (split-join o os h)
    ∙ ap (λ ws. filter_map lib.parse (keep (λ w. not (is_empty w)) ws)) (map-trim (o ∷ os) h)
    ∙ ap (filter_map lib.parse) (keep_given (o ∷ os) h)
    ∙ filter_map_parsed lib.parse (o ∷ os) parsed

-- A list of origins joined with commas, each of them a header value without white space and commas,
-- allows credentials for exactly these, in their order, if the wildcard is not among them; if it is
-- and is not the only one, the layer cannot be built.
pub cors_layer-join :
    (lib : CorsLibrary) (o : Text) (os : List Text)
    → IsDocumented lib
    → All IsOrigin (o ∷ os)
    → All (λ w. lib.parse w ≡ some w) (o ∷ os)
    → o ∷ os ≢ codes "*" ∷ []
    → cors_layer lib (join (o ∷ os)) ≡ (
        if any (text_eq (codes "*")) (o ∷ os)
        then none
        else some (record {
          allow_credentials = true;
          allow_methods = mirrored;
          allow_headers = mirrored;
          allow_origin = listed (o ∷ os);
        }))
unfolding cors_layer credentialed
cors_layer-join lib o os d h parsed several =
    let same : trim (join (o ∷ os)) ≡ join (o ∷ os) = trim_lem _ (join_dark (o ∷ os) h) in
    let lone : text_eq (join (o ∷ os)) (codes "*") ≡ false =
      not_wildcard (Bool-cases (text_eq (join (o ∷ os)) (codes "*"))) in
    rw (same, lone, origins-join lib o os h parsed, d (o ∷ os)) refl
  where
    not_wildcard :
        ((text_eq (join (o ∷ os)) (codes "*") ≡ true)
          ⊎ (text_eq (join (o ∷ os)) (codes "*") ≡ false))
        → text_eq (join (o ∷ os)) (codes "*") ≡ false
    not_wildcard (inr e) = e
    not_wildcard (inl e) =
        absurd (
          several
            (sym (split-join o os h) ∙ ap (split comma) ((text_eq_iff (join (o ∷ os)) _).0 e)))
