-- ===== src/Chat/Origin.antt =====
-- The same-origin check: i18n-demo/src/ws_chat.rs, `origin_matches_host` and `chat_handler`.
use rust_web_fullstack.Prelude.{
  Bool, true, false, ◌==◌, Text, none, some, [], ◌∷◌, ◌++◌, is_empty, ◌≡◌, ◌↔◌, ◌⊎◌, inl, inr, refl,
  sym, ◌∙◌, arith, Bool-cases, if◌then◌else◌, ap, All,
}
use rust_web_fullstack.Chat.{
  slash, http, https, before_slash, eq_ignore_ascii_case, or_else, authority_matches,
  origin_matches_host, Header, check_host, chat_handler, upgraded,
}

before_slash_lem :
    (authority rest : Text)
    → All (λ c. c == slash ≡ false) authority
    → (rest ≡ []) ⊎ ((path : Text) × (rest ≡ slash ∷ path))
    → before_slash (authority ++ rest) ≡ authority
unfolding before_slash
before_slash_lem [] rest h (inl e) = rw e refl
before_slash_lem [] rest h (inr (path, e)) = rw e refl
before_slash_lem (c ∷ s) rest (a, h) e = rw (a, before_slash_lem s rest h e) refl

-- An origin made of either scheme, a non-empty authority and a path, if any, matches a host exactly
-- when the authority is the host but for the case of ASCII letters.
pub origin_matches_host_lem :
    (secure : Bool) (authority rest host : Text)
    → is_empty authority ≡ false
    → All (λ c. c == slash ≡ false) authority
    → (rest ≡ []) ⊎ ((path : Text) × (rest ≡ slash ∷ path))
    → origin_matches_host ((if secure then https else http) ++ authority ++ rest) host
      ≡ eq_ignore_ascii_case authority host
unfolding origin_matches_host authority_matches or_else
origin_matches_host_lem true authority rest host ne h e =
    rw (before_slash_lem authority rest h e, ne) refl
origin_matches_host_lem false authority rest host ne h e =
    rw (before_slash_lem authority rest h e, ne) refl

check_host_iff :
    (o h : Text)
    → (check_host (some o) (some (some h)) ≡ upgraded) ↔ (origin_matches_host o h ≡ true)
unfolding check_host
check_host_iff o h = elim (Bool-cases (origin_matches_host o h)) [
  | inl same ↦ rw same ((λ _. refl), (λ _. refl))
  | inr other ↦ rw other ((λ e. ground (arith, e)), (λ e. ground (arith, e)))
]

-- With an Origin header made of either scheme, a non-empty authority and a path, if any, the
-- upgrade is granted exactly when the request has a Host header that is text and that is the
-- authority, but for the case of ASCII letters.
pub chat_handler_iff :
    (secure : Bool) (authority rest : Text) (host : Header)
    → is_empty authority ≡ false
    → All (λ c. c == slash ≡ false) authority
    → (rest ≡ []) ⊎ ((path : Text) × (rest ≡ slash ∷ path))
    → (chat_handler (some (some ((if secure then https else http) ++ authority ++ rest))) host
        ≡ upgraded)
      ↔ ((h : Text) × (host ≡ some (some h)) × (eq_ignore_ascii_case authority h ≡ true))
unfolding chat_handler
chat_handler_iff secure authority rest none ne a e =
    ((λ g. ground (arith, g)), (λ (h', found, m). ground (arith, found)))
chat_handler_iff secure authority rest (some none) ne a e =
    ((λ g. ground (arith, g)), (λ (h', found, m). ground (arith, found)))
chat_handler_iff secure authority rest (some (some h)) ne a e =
    let same = origin_matches_host_lem secure authority rest h ne a e in
    let answer = check_host_iff ((if secure then https else http) ++ authority ++ rest) h in
    (
      (λ granted. (h, refl, sym same ∙ answer.0 granted)),
      (λ (h', found, matches).
          let here : h ≡ h' = ground (arith, found) in
          answer.1 (same ∙ ap (eq_ignore_ascii_case authority) here ∙ matches)),
    )
