-- ===== src/LiveSearch/Feed/Window.antt =====
-- live-search/src/app.rs, `apply_sse_event`: the page as a window on the results it was sent.
use rust_web_fullstack.Prelude.{
  ℕ, zero, suc, ◌-◌, ◌≤◌, ◌<◌, true, false, leb, List, [], ◌∷◌, ◌++◌, map, drop, length, ok, err,
  ◌≡◌, refl, sym, ap, ◌∙◌, arith, inl, inr, Bool-cases, length-append, leb→le, leb→gt, append-nil,
  length-drop, append_assoc,
}
use rust_web_fullstack.Domain.{DateTime}
use rust_web_fullstack.LiveSearch.Events.{SseEvent, connected, search_result, stream_lagged}
use rust_web_fullstack.LiveSearch.Feed.{
  LiveResult, Received, forwarded, sse_handler, Page, push_result, apply_sse_event, apply_all,
}

-- The results among events, in order.
abbrev pub results_of : List SseEvent → List LiveResult
results_of [] = []
results_of (search_result title url snippet ∷ es) =
    record { title = title; url = url; snippet = snippet } ∷ results_of es
results_of (connected t ∷ es) = results_of es
results_of (stream_lagged n ∷ es) = results_of es

abbrev pub last_200 : List LiveResult → List LiveResult
last_200 items = drop (length items - 200) items

drop_within :
    (n : ℕ) (xs ys : List LiveResult) → n ≤ length xs → drop n (xs ++ ys) ≡ drop n xs ++ ys
drop_within zero xs ys h = refl
drop_within (suc n) [] ys h = absurd (omega arith)
drop_within (suc n) (x ∷ xs) ys h = drop_within n xs ys (omega arith)

drop_one : (n : ℕ) (xs : List LiveResult) → drop 1 (drop n xs) ≡ drop (suc n) xs
drop_one zero xs = refl
drop_one (suc n) [] = refl
drop_one (suc n) (x ∷ xs) = drop_one n xs

push_last :
    (item : LiveResult) (items : List LiveResult)
    → push_result item (last_200 items) ≡ last_200 (items ++ item ∷ [])
unfolding push_result
push_last item items =
    let n = length items - 200 in
    let size = length-drop n items in
    let grown : length (items ++ item ∷ []) ≡ suc (length items) =
      omega (arith, length-append items (item ∷ [])) in
    elim (Bool-cases (leb 200 (length (last_200 items)))) [
      | inl full ↦
          let long : 200 ≤ length (last_200 items) = leb→le _ _ full in
          let next : suc n ≡ length (items ++ item ∷ []) - 200 = omega arith in
          rw full (
            ap (λ xs. xs ++ item ∷ []) (drop_one n items)
            ∙ sym (drop_within (suc n) items (item ∷ []) (omega arith))
            ∙ ap (λ m. drop m (items ++ item ∷ [])) next)
      | inr room ↦
          let short : length (last_200 items) < 200 = leb→gt _ _ room in
          let next : n ≡ length (items ++ item ∷ []) - 200 = omega arith in
          rw room (
            sym (drop_within n items (item ∷ []) (omega arith))
            ∙ ap (λ m. drop m (items ++ item ∷ [])) next)
    ]

pub apply_all-shows :
    (es : List SseEvent) (sent : List LiveResult) (page : Page)
    → page.results ≡ last_200 sent
    → (apply_all es page).results ≡ last_200 (sent ++ results_of es)
unfolding apply_all apply_sse_event
apply_all-shows [] sent page h = h ∙ ap last_200 (sym (append-nil sent))
apply_all-shows (search_result title url snippet ∷ es) sent page h =
    let item : LiveResult = record { title = title; url = url; snippet = snippet } in
    apply_all-shows es (sent ++ item ∷ []) (apply_sse_event (search_result title url snippet) page)
      (ap (push_result item) h ∙ push_last item sent)
    ∙ ap last_200 (append_assoc sent (item ∷ []) (results_of es))
apply_all-shows (connected t ∷ es) sent page h =
    apply_all-shows es sent (record page { is_connected = true }) h
apply_all-shows (stream_lagged n ∷ es) sent page h = apply_all-shows es sent page h

-- The results among received items, in order.
abbrev pub delivered : List Received → List LiveResult
delivered [] = []
delivered (ok event ∷ items) = results_of (event ∷ []) ++ delivered items
delivered (err skipped ∷ items) = delivered items

results_of-forwarded : (items : List Received) → results_of (map forwarded items) ≡ delivered items
unfolding forwarded
results_of-forwarded [] = refl
results_of-forwarded (ok (connected t) ∷ items) = results_of-forwarded items
results_of-forwarded (ok (search_result title url snippet) ∷ items) =
    ap (◌∷◌ (record { title = title; url = url; snippet = snippet })) (results_of-forwarded items)
results_of-forwarded (ok (stream_lagged n) ∷ items) = results_of-forwarded items
results_of-forwarded (err skipped ∷ items) = results_of-forwarded items

apply_all-is_connected :
    (es : List SseEvent) (page : Page)
    → page.is_connected ≡ true
    → (apply_all es page).is_connected ≡ true
unfolding apply_all apply_sse_event
apply_all-is_connected [] page h = h
apply_all-is_connected (connected t ∷ es) page h = apply_all-is_connected es _ refl
apply_all-is_connected (search_result t u s ∷ es) page h = apply_all-is_connected es _ h
apply_all-is_connected (stream_lagged n ∷ es) page h = apply_all-is_connected es _ h

-- A page that shows nothing and is sent the stream of one subscription says that it is connected
-- and shows the last 200 of the results that the subscription received, in their order, whatever
-- else the stream holds.
pub apply_all-sse_handler :
    (now : DateTime) (items : List Received)
    → apply_all (sse_handler now items) (record { results = []; is_connected = false })
      ≡ record { results = last_200 (delivered items); is_connected = true }
unfolding sse_handler apply_all apply_sse_event
apply_all-sse_handler now items =
    let page : Page = record { results = []; is_connected = true } in
    let shows =
      apply_all-shows (map forwarded items) [] page refl
      ∙ ap last_200 (results_of-forwarded items) in
    let up = apply_all-is_connected (map forwarded items) page refl in cc
