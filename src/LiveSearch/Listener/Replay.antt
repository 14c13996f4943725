-- ===== src/LiveSearch/Listener/Replay.antt =====
-- The reconnect replay over a table that does not change: live-search/src/db.rs,
-- `resync_after_reconnect`.
use rust_web_fullstack.Prelude.{
  ℕ, suc, zero, ◌*◌, ◌≤◌, ◌<◌, Bool, true, false, ltb, length, take, drop, Text, Option, List, [],
  ◌∷◌, ◌++◌, ok, ◌≡◌, refl, sym, ap, ◌∙◌, subst, arith, inl, inr, Bool-cases, ltb→lt, append_assoc,
  length-take, take-append-drop, length-drop, if◌then◌else◌,
}
use rust_web_fullstack.Domain.{Uuid}
use rust_web_fullstack.LiveSearch.Listener.{
  Rows, newer_than, select_page, last_seq, listening, stopped, replaying, Listener, Input, page,
  enter, finish_replay, replay_page, at_phase, step, run,
}

-- Rows in strictly ascending order of event_seq, all above a cursor.
abbrev pub Climbs : ℕ → Rows → Type 0
Climbs c [] = Unit {0}
Climbs c (r ∷ rows) = (c < r.event_seq) × Climbs r.event_seq rows

pub Climbs-mono : {c d : ℕ} (rows : Rows) → c ≤ d → Climbs d rows → Climbs c rows
Climbs-mono [] h v = tt
Climbs-mono (r ∷ rows) h (a, v) = (omega arith, v)

pub last_seq-le : (c : ℕ) (rows : Rows) → Climbs c rows → c ≤ last_seq c rows
unfolding last_seq
last_seq-le c [] v = omega arith
last_seq-le c (r ∷ rows) (a, v) = omega (arith, last_seq-le r.event_seq rows v)

pub last_seq-append : (c : ℕ) (xs ys : Rows) → last_seq c (xs ++ ys) ≡ last_seq (last_seq c xs) ys
unfolding last_seq
last_seq-append c [] ys = refl
last_seq-append c (r ∷ xs) ys = last_seq-append r.event_seq xs ys

pub Climbs-append :
    (c : ℕ) (xs ys : Rows) → Climbs c xs → Climbs (last_seq c xs) ys → Climbs c (xs ++ ys)
unfolding last_seq
Climbs-append c [] ys v w = w
Climbs-append c (r ∷ xs) ys (a, v) w = (a, Climbs-append r.event_seq xs ys v w)

pub Climbs-take : (n c : ℕ) (rows : Rows) → Climbs c rows → Climbs c (take n rows)
Climbs-take zero c rows v = tt
Climbs-take (suc n) c [] v = tt
Climbs-take (suc n) c (r ∷ rows) (a, v) = (a, Climbs-take n r.event_seq rows v)

keep_climbing : (c d : ℕ) (t : Rows) → Climbs d t → c ≤ d → newer_than c t ≡ t
unfolding newer_than
keep_climbing c d [] v h = refl
keep_climbing c d (r ∷ t) (a, v) h = ground (arith, keep_climbing c r.event_seq t v)

-- What a page's query selects from an ascending table climbs from the cursor.
pub newer_than-Climbs : (c d : ℕ) (t : Rows) → Climbs d t → Climbs c (newer_than c t)
unfolding newer_than
newer_than-Climbs c d [] v = tt
newer_than-Climbs c d (r ∷ t) (a, v) = elim (Bool-cases (ltb c r.event_seq)) [
  | inl above ↦
      let low : c < r.event_seq = ltb→lt c r.event_seq above in
      rw (above, keep_climbing c r.event_seq t v (omega arith)) (low, v)
  | inr below ↦ rw below (newer_than-Climbs c r.event_seq t v)
]

newer_than_twice : (c d : ℕ) (t : Rows) → c ≤ d → newer_than d (newer_than c t) ≡ newer_than d t
unfolding newer_than
newer_than_twice c d [] h = refl
newer_than_twice c d (r ∷ t) h = ground (arith, newer_than_twice c d t h)

newer_than_rest :
    (n c : ℕ) (rows : Rows)
    → Climbs c rows
    → newer_than (last_seq c (take n rows)) rows ≡ drop n rows
unfolding newer_than last_seq
newer_than_rest zero c rows v = keep_climbing c c rows v (omega arith)
newer_than_rest (suc n) c [] v = refl
newer_than_rest (suc n) c (r ∷ rows) (a, v) = ground (
  arith,
  newer_than_rest n r.event_seq rows v,
  last_seq-le r.event_seq (take n rows) (Climbs-take n r.event_seq rows v),
)

-- After a full page, the next page's query sees exactly the rows that are left.
newer_than_page :
    (n c d : ℕ) (t : Rows)
    → Climbs d t
    → newer_than (last_seq c (take n (newer_than c t))) t ≡ drop n (newer_than c t)
newer_than_page n c d t v =
    let climbs = newer_than-Climbs c d t v in
    sym (
      newer_than_twice c (last_seq c (take n (newer_than c t))) t
        (last_seq-le c _ (Climbs-take n c _ climbs)))
    ∙ newer_than_rest n c (newer_than c t) climbs

length-take_le : (n : ℕ) (rows : Rows) → length (take n rows) ≤ n
length-take_le n rows = omega (arith, length-take n rows)

take_short : (n : ℕ) (rows : Rows) → length (take n rows) < n → take n rows ≡ rows
take_short zero rows h = elim h [ ]
take_short (suc n) [] h = refl
take_short (suc n) (r ∷ rows) h = ap (◌∷◌ r) (take_short n rows (omega arith))

abbrev pub pages : ℕ → Rows → List Input
pages zero t = []
pages (suc k) t = page (ok t) ∷ pages k t

page_then_rest :
    (c d : ℕ) (t : Rows)
    → Climbs d t
    → select_page c t ++ newer_than (last_seq c (select_page c t)) t ≡ newer_than c t
unfolding select_page
page_then_rest c d t climbs =
    ap (λ x. select_page c t ++ x) (newer_than_page 100 c d t climbs)
    ∙ take-append-drop 100 (newer_than c t)

fewer_left :
    (k c d : ℕ) (t : Rows)
    → Climbs d t
    → ltb (length (select_page c t)) 100 ≡ false
    → length (newer_than c t) < suc k * 100
    → length (newer_than (last_seq c (select_page c t)) t) < k * 100
unfolding select_page
fewer_left k c d t climbs full h =
    let some_left : 100 ≤ length (take 100 (newer_than c t)) = ground arith in
    omega (
      arith,
      ap length (newer_than_page 100 c d t climbs),
      length-drop 100 (newer_than c t),
      length-take 100 (newer_than c t),
    )

-- The outcome of a replay.
pub record IsReplayed {C : Type 0} (c : ℕ) (t : Rows) (s u : Listener C) : Type 0 where
  pub phase : u.phase ≡ (if s.cancelled then stopped else listening)
  pub sent : u.sent ≡ s.sent ++ newer_than c t
  pub cursor : u.last_seen_seq ≡ last_seq c (newer_than c t)

module _ {C : Type 0} (parse_payload : Text → Option Uuid) where
  pages_over :
      (k : ℕ) (t : Rows) (s : Listener C) (b : Bool)
      → s.phase ≡ (if b then stopped else listening)
      → run parse_payload (pages k t) s ≡ s
  unfolding run step at_phase
  pages_over zero t s b p = refl
  pages_over (suc k) t s true p =
      ap (λ p'. run parse_payload (pages k t) (at_phase parse_payload p' (page (ok t)) s)) p
      ∙ pages_over k t s true p
  pages_over (suc k) t s false p =
      ap (λ p'. run parse_payload (pages k t) (at_phase parse_payload p' (page (ok t)) s)) p
      ∙ pages_over k t s false p

  last_page :
      (c : ℕ) (any : Bool) (t : Rows) (s : Listener C)
      → length (select_page c t) < 100
      → IsReplayed c t s (replay_page c any (select_page c t) s)
  unfolding replay_page select_page finish_replay enter
  last_page c any t s short =
      let whole = take_short 100 (newer_than c t) short in ground (arith, whole)

  full_page :
      (c : ℕ) (any : Bool) (t : Rows) (s : Listener C)
      → ltb (length (select_page c t)) 100 ≡ false
      → replay_page c any (select_page c t) s ≡ record s {
        sent = s.sent ++ select_page c t;
        phase = replaying (last_seq c (select_page c t)) true;
      }
  unfolding replay_page
  full_page c any t s full = ground arith

  next_page :
      (c d : ℕ) (t : Rows) (s u v : Listener C)
      → Climbs d t
      → u.cancelled ≡ s.cancelled
      → u.sent ≡ s.sent ++ select_page c t
      → IsReplayed (last_seq c (select_page c t)) t u v
      → IsReplayed c t s v
  next_page c d t s u v climbs same sent r =
      let c' = last_seq c (select_page c t) in
      let parts = page_then_rest c d t climbs in
      record {
        phase = r.phase ∙ ap (λ b. if b then stopped else listening) same;
        sent =
            r.sent
            ∙ ap (λ x. x ++ newer_than c' t) sent
            ∙ append_assoc s.sent (select_page c t) (newer_than c' t)
            ∙ ap (λ x. s.sent ++ x) parts;
        cursor =
            r.cursor
            ∙ sym (last_seq-append c (select_page c t) (newer_than c' t))
            ∙ ap (last_seq c) parts;
      }

  first_page :
      {c : ℕ} {any : Bool} (t : Rows) (s : Listener C)
      → s.phase ≡ replaying c any
      → step parse_payload (page (ok t)) s ≡ replay_page c any (select_page c t) s
  unfolding step at_phase
  first_page t s p = ap (λ p'. at_phase parse_payload p' (page (ok t)) s) p

  -- A replay over an ascending table that does not change meanwhile ends: after one page more than
  -- the newer rows fill, the task has broadcast every row newer than its cursor, once and in order
  -- of event_seq, has moved its cursor to the last of them, and listens, or has returned if it was
  -- cancelled.
  pub replay-IsReplayed :
      (k c d : ℕ) (any : Bool) (t : Rows) (s : Listener C)
      → Climbs d t
      → length (newer_than c t) < k * 100
      → s.phase ≡ replaying c any
      → IsReplayed c t s (run parse_payload (pages k t) s)
  unfolding run
  replay-IsReplayed zero c d any t s v h p = absurd (omega arith)
  replay-IsReplayed (suc k) c d any t s v h p =
      elim (Bool-cases (ltb (length (select_page c t)) 100)) [
        | inl short ↦
            let last = last_page c any t s (ltb→lt _ _ short) in
            let u = replay_page c any (select_page c t) s in
            subst (λ w. IsReplayed c t s (run parse_payload (pages k t) w)) (sym (first_page t s p))
              (rw (pages_over k t u s.cancelled last.phase) last)
        | inr full ↦
            subst (λ w. IsReplayed c t s (run parse_payload (pages k t) w))
              (sym (first_page t s p ∙ full_page c any t s full))
              (next_page c d t s _ _ v refl refl (
                replay-IsReplayed k (last_seq c (select_page c t)) d true t _ v
                  (fewer_left k c d t v full h) refl))
      ]
