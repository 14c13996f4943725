-- ===== src/Gateway/Pem/RoundTrip.antt =====
-- Reading back what gateway/src/pem.rs writes.
use rust_web_fullstack.Prelude.{
  String, codes, text_eq, text_eq_iff, none, bind_option, ℕ, zero, suc, ◌+◌, ◌-◌, ◌≤◌, ◌<◌, false,
  ltb, ◌==◌, ◌||◌, min, length, take, drop, Text, strip_prefix, Option, some, List, [], ◌∷◌, ◌++◌,
  ◌≡◌, refl, sym, ap, ◌∙◌, arith, inl, inr, Bool-cases, ltb→lt, ltb→ge, All, take-append-drop,
  take-nil, append-nil, append_assoc, if◌then◌else◌, ==_refl,
}
use rust_web_fullstack.Gateway.Pem.{newline, begin_line, end_line, push_lines, pem_encode}

abbrev pub dash : ℕ
dash = 0x2d

-- The text up to the next dash without its line breaks, and the text from there on.
pub body : Text → Text × Text
body [] = ([], [])
body (c ∷ s) =
    let (before, after) = body s in
    if c == dash then ([], c ∷ s) else if c == newline then (before, after) else (c ∷ before, after)

-- The line that opens or closes a text of this label.
abbrev pub boundary : String → Text → Text
boundary word label = codes "-----" ++ codes word ++ codes " " ++ label ++ codes "-----\n"

-- A reader of PEM text, as RFC 7468 describes it: the line that opens it, base64 in lines, and the
-- line that closes it, both with the label.
pub pem_decode : (Text → Option (List ℕ)) → Text → Text → Option (List ℕ)
unfolding body
pem_decode base64_decode label pem = bind_option (strip_prefix (boundary "BEGIN" label) pem) λ rest.
    if text_eq (body rest).1 (boundary "END" label) then base64_decode (body rest).0 else none

abbrev pub IsPlain : ℕ → Type 0
IsPlain c = (c == dash || c == newline) ≡ false

plain_step : (c : ℕ) (s : Text) → IsPlain c → body (c ∷ s) ≡ (c ∷ (body s).0, (body s).1)
unfolding body
plain_step c s h = ground (arith, h)

body-append : (xs ys : Text) → All IsPlain xs → body (xs ++ ys) ≡ (xs ++ (body ys).0, (body ys).1)
body-append [] ys h = refl
body-append (c ∷ xs) ys (a, h) =
    plain_step c (xs ++ ys) a ∙ ap (λ p. (c ∷ p.0, p.1)) (body-append xs ys h)

All-take : (n : ℕ) (xs : Text) → All IsPlain xs → All IsPlain (take n xs)
All-take zero xs h = tt
All-take (suc n) [] h = tt
All-take (suc n) (x ∷ xs) (a, h) = (a, All-take n xs h)

All-drop : (n : ℕ) (xs : Text) → All IsPlain xs → All IsPlain (drop n xs)
All-drop zero xs h = h
All-drop (suc n) [] h = tt
All-drop (suc n) (x ∷ xs) (a, h) = All-drop n xs h

drop_all : (n : ℕ) (xs : Text) → length xs ≤ n → drop n xs ≡ []
drop_all zero [] h = refl
drop_all zero (x ∷ xs) h = absurd (omega arith)
drop_all (suc n) [] h = refl
drop_all (suc n) (x ∷ xs) h = drop_all n xs (omega arith)

drop_slice : (a b : ℕ) (xs : Text) → a ≤ b → take (b - a) (drop a xs) ++ drop b xs ≡ drop a xs
drop_slice zero b xs h = ap (λ n. take n xs ++ drop b xs) (omega arith) ∙ take-append-drop b xs
drop_slice (suc a) zero xs h = absurd (omega arith)
drop_slice (suc a) (suc b) [] h = append-nil _ ∙ take-nil (suc b - suc a)
drop_slice (suc a) (suc b) (x ∷ xs) h =
    let same : suc b - suc a ≡ b - a = omega arith in
    ap (λ n. take n (drop a xs) ++ drop b xs) same ∙ drop_slice a b xs (omega arith)

body-push_lines :
    (fuel : ℕ) (b64 : Text) (pos : ℕ) (t : Text)
    → All IsPlain b64
    → length b64 ≤ pos + fuel
    → body (push_lines fuel b64 pos ++ dash ∷ t) ≡ (drop pos b64, dash ∷ t)
unfolding push_lines body
body-push_lines zero b64 pos t h enough =
    ap (λ r. (r, dash ∷ t)) (sym (drop_all pos b64 (omega arith)))
body-push_lines (suc fuel) b64 pos t h enough = elim (Bool-cases (ltb pos (length b64))) [
  | inl inside ↦
      let more : pos < length b64 = ltb→lt _ _ inside in
      let end = min (pos + 64) (length b64) in
      let line = take (end - pos) (drop pos b64) in
      let rest = push_lines fuel b64 end in
      rw inside (
        ap body (append_assoc line (newline ∷ rest) (dash ∷ t))
        ∙ body-append line (newline ∷ rest ++ dash ∷ t) (All-take _ _ (All-drop pos b64 h))
        ∙ ap (λ p. (line ++ p.0, p.1)) (body-push_lines fuel b64 end t h (omega arith))
        ∙ ap (λ r. (r, dash ∷ t)) (drop_slice pos end b64 (omega arith)))
  | inr past ↦ rw past (ap (λ r. (r, dash ∷ t)) (sym (drop_all pos b64 (ltb→ge _ _ past))))
]

strip_own_prefix : (p s : Text) → strip_prefix p (p ++ s) ≡ some s
strip_own_prefix [] s = refl
strip_own_prefix (c ∷ p) s = rw (==_refl c, strip_own_prefix p s) refl

-- A reader of PEM text that wants the line of the label before it and the one after it gets back
-- the bytes that were encoded under that label, for any label and any bytes, of a base64 that reads
-- back what it writes, without dashes and line breaks.
pub pem_decode-pem_encode :
    (base64_encode : List ℕ → Text) (base64_decode : Text → Option (List ℕ)) (label : Text)
    (der : List ℕ)
    → All IsPlain (base64_encode der)
    → base64_decode (base64_encode der) ≡ some der
    → pem_decode base64_decode label (pem_encode base64_encode label der) ≡ some der
unfolding pem_decode pem_encode end_line begin_line
pem_decode-pem_encode encode decode label der h back =
    let b64 = encode der in
    let opening = boundary "BEGIN" label in
    let closing = boundary "END" label in
    let lines = push_lines (length b64) b64 0 in
    let checked = λ (p : Text × Text). if text_eq p.1 closing then decode p.0 else none in
    ap (λ pem. bind_option (strip_prefix opening pem) (λ r. checked (body r)))
      (append_assoc opening lines closing)
    ∙ ap (λ o. bind_option o (λ r. checked (body r))) (strip_own_prefix opening (lines ++ closing))
    ∙ ap checked (body-push_lines (length b64) b64 0 _ h (omega arith))
    ∙ rw ((text_eq_iff closing closing).1 refl) back
