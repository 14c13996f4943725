-- ===== src/LiveSearch/SearchPage/Requests.antt =====
-- Which requests the search page sends: live-search/src/app.rs.
use rust_web_fullstack.Prelude.{
  ◌⊎◌, ◌++◌, sym, subst, ap, ◌∙◌, false, is_empty, ◌||◌, Text, trim, text_eq, text_eq_iff, List, [],
  ◌∷◌, ◌≡◌, ◌≢◌, refl, inl, inr, arith, Bool-cases,
}
use rust_web_fullstack.LiveSearch.SearchPage.{
  Page, Event, typed, debounced, submitted, action_changed, new, dispatch_search, step, run,
}

module _ {E : Type 0} where
  -- What was typed and what the watch called back with.
  abbrev pub texts : List (Event E) → List Text
  texts [] = []
  texts (typed text ∷ es) = text ∷ texts es
  texts (debounced text ∷ es) = text ∷ texts es
  texts (submitted ∷ es) = texts es
  texts (action_changed pending value ∷ es) = texts es

abbrev pub IsAmong : Text → List Text → Type 0
IsAmong q [] = ⊥
IsAmong q (t ∷ ts) = (q ≡ t) ⊎ IsAmong q ts

-- One of these texts, trimmed, and not empty.
pub record IsRequest (known : List Text) (q : Text) : Type 0 where
  pub typed_text : Text
  pub among : IsAmong typed_text known
  pub trimmed : q ≡ trim typed_text
  pub full : is_empty q ≡ false

-- Each is a request, and no two in a row are the same; the last one sent is `last`.
abbrev pub IsSent : List Text → Text → List Text → Type 0
IsSent known last [] = last ≡ []
IsSent known last (q ∷ rest) =
    (last ≡ q) × IsRequest known q × ((before : Text) × IsSent known before rest × (q ≢ before))

-- A query that was typed, or none yet.
abbrev IsQuery : List Text → Text → Type 0
IsQuery known q = (q ≡ []) ⊎ IsAmong q known

module _ {E : Type 0} (known : List Text) where
  dispatch_search-IsSent :
      (value : Text) (p : Page E)
      → IsQuery known value
      → IsSent known p.last_dispatched p.sent
      → IsSent known (dispatch_search value p).last_dispatched (dispatch_search value p).sent
  unfolding dispatch_search
  dispatch_search-IsSent value p (inl blank) h = rw blank h
  dispatch_search-IsSent value p (inr among) h =
      elim (Bool-cases (is_empty (trim value) || text_eq (trim value) p.last_dispatched)) [
        | inl idle ↦ rw idle h
        | inr sends ↦ rw sends (
          refl,
          record { typed_text = value; among = among; trimmed = refl; full = ground arith },
          (
            p.last_dispatched,
            h,
            λ same. ground (arith, text_eq_iff (trim value) p.last_dispatched),
          ),
        )
      ]

  dispatch_search-query : (value : Text) (p : Page E) → (dispatch_search value p).query ≡ p.query
  unfolding dispatch_search
  dispatch_search-query value p = ground arith

  -- The texts of the events that are left are among the known ones.
  run_from-IsSent :
      (es : List (Event E)) (p : Page E)
      → ((t : Text) → IsAmong t (texts es) → IsAmong t known)
      → IsQuery known p.query
      → IsSent known p.last_dispatched p.sent
      → IsSent known (run es p).last_dispatched (run es p).sent
  unfolding run step
  run_from-IsSent [] p sub q h = h
  run_from-IsSent (typed text ∷ es) p sub q h =
      run_from-IsSent es (step (typed text) p) (λ t m. sub t (inr m)) (inr (sub text (inl refl))) h
  run_from-IsSent (debounced text ∷ es) p sub q h =
      run_from-IsSent es (dispatch_search text p) (λ t m. sub t (inr m))
        (subst (IsQuery known) (sym (dispatch_search-query text p)) q)
        (dispatch_search-IsSent text p (inr (sub text (inl refl))) h)
  run_from-IsSent (submitted ∷ es) p sub q h =
      run_from-IsSent es (dispatch_search p.query p) sub
        (subst (IsQuery known) (sym (dispatch_search-query p.query p)) q)
        (dispatch_search-IsSent p.query p q h)
  run_from-IsSent (action_changed pending value ∷ es) p sub q h =
      run_from-IsSent es (step (action_changed pending value) p) sub q h

module _ {E : Type 0} where
  -- A query that was sent last is not sent again, also when its search has failed: the page stays
  -- as it is.
  submitted_again : (p : Page E) → trim p.query ≡ p.last_dispatched → step submitted p ≡ p
  unfolding step dispatch_search
  submitted_again p same = elim (Bool-cases (is_empty (trim p.query))) [
    | inl empty ↦ rw empty
    | inr full ↦ rw (full, (text_eq_iff (trim p.query) p.last_dispatched).1 same)
  ]

  -- What was typed last and is submitted now is the last request, unless it is blank.
  submitted_query :
      (text : Text) (p : Page E)
      → is_empty (trim text) ≡ false
      → (run (typed text ∷ submitted ∷ []) p).last_dispatched ≡ trim text
  unfolding run step dispatch_search
  submitted_query text p full = elim (Bool-cases (text_eq (trim text) p.last_dispatched)) [
    | inl same ↦ rw (full, same) (sym ((text_eq_iff (trim text) p.last_dispatched).0 same))
    | inr other ↦ rw (full, other) refl
  ]

  run-append : (es fs : List (Event E)) (p : Page E) → run (es ++ fs) p ≡ run fs (run es p)
  unfolding run
  run-append [] fs p = refl
  run-append (e ∷ es) fs p = run-append es fs (step e p)

-- Whatever is typed, submitted and called back, and whatever the action does: each request that the
-- page sends is a text that was typed or called back with, trimmed and not empty, no two in a row
-- are the same, and the page remembers the last one. If then a text is typed that is not blank and
-- is submitted, the last request is this text, trimmed.
pub run-IsSent :
    {E : Type 0} (es : List (Event E))
    → IsSent (texts es) (run es new).last_dispatched (run es new).sent
      × ((text : Text)
          → is_empty (trim text) ≡ false
          → (run (es ++ typed text ∷ submitted ∷ []) new).last_dispatched ≡ trim text)
unfolding new
run-IsSent es = (
  run_from-IsSent (texts es) es new (λ t m. m) (inl refl) refl,
  λ text full.
      ap (λ p. p.last_dispatched) (run-append es (typed text ∷ submitted ∷ []) new)
      ∙ submitted_query text (run es new) full,
)
