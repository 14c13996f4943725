-- ===== src/LiveSearch/Listener/Missed.antt =====
-- What never reaches the subscribers: live-search/src/db.rs, `run_pg_listener`, whose cursor
-- only goes forward.
use rust_web_fullstack.Prelude.{
  ℕ, zero, suc, ◌≤◌, ◌<◌, Bool, leb, take, Text, Option, none, some, List, [], ◌∷◌, ◌++◌, Result,
  ok, err, ◌≡◌, refl, sym, ap, ◌∙◌, arith, inl, inr, Bool-cases, append_assoc, append-nil,
}
use rust_web_fullstack.Domain.{Uuid}
use rust_web_fullstack.LiveSearch.Listener.{
  Rows, newer_than, select_page, find_by_id, last_seq, NotificationRow, Phase, listening, replaying,
  Listener, Input, page, notifies, enter, finish_replay, replay_page, forward_row,
  forward_notification, at_phase, step, run,
}
use rust_web_fullstack.LiveSearch.Listener.Delivery.{reach}

abbrev pub AreAbove : ℕ → Rows → Type 0
AreAbove m [] = Unit {0}
AreAbove m (r ∷ rows) = (m < r.event_seq) × AreAbove m rows

-- The rows that were broadcast between two states, all of them above a sequence number.
pub record AddsAbove {C : Type 0} (m : ℕ) (s u : Listener C) : Type 0 where
  pub rows : Rows
  pub sent : u.sent ≡ s.sent ++ rows
  pub above : AreAbove m rows

append-AreAbove : (m : ℕ) (xs ys : Rows) → AreAbove m xs → AreAbove m ys → AreAbove m (xs ++ ys)
append-AreAbove m [] ys v w = w
append-AreAbove m (r ∷ xs) ys (a, v) w = (a, append-AreAbove m xs ys v w)

take-AreAbove : (m n : ℕ) (rows : Rows) → AreAbove m rows → AreAbove m (take n rows)
take-AreAbove m zero rows v = tt
take-AreAbove m (suc n) [] v = tt
take-AreAbove m (suc n) (r ∷ rows) (a, v) = (a, take-AreAbove m n rows v)

newer_than-AreAbove : (m c : ℕ) (t : Rows) → m ≤ c → AreAbove m (newer_than c t)
unfolding newer_than
newer_than-AreAbove m c [] h = tt
newer_than-AreAbove m c (r ∷ t) h = ground (arith, newer_than-AreAbove m c t h)

last_seq-AreAbove : (m c : ℕ) (rows : Rows) → m ≤ c → AreAbove m rows → m ≤ last_seq c rows
unfolding last_seq
last_seq-AreAbove m c [] h v = h
last_seq-AreAbove m c (r ∷ rows) h (a, v) = last_seq-AreAbove m r.event_seq rows (omega arith) v

module _ {C : Type 0} where
  HasRead : ℕ → Phase → Listener C → Type 0
  HasRead m p s = (m ≤ reach p s.last_seen_seq) × (m ≤ s.last_seen_seq)

  abbrev Keeps : ℕ → Listener C → Listener C → Type 0
  Keeps m s u = AddsAbove m s u × HasRead m u.phase u

  unmoved :
      {m : ℕ} {s : Listener C} (u : Listener C)
      → u.sent ≡ s.sent
      → HasRead m u.phase u
      → Keeps m s u
  unmoved {s = s} u e h = (record { rows = []; sent = e ∙ sym (append-nil s.sent); above = tt }, h)

  adds_trans : {m : ℕ} {s u w : Listener C} → AddsAbove m s u → AddsAbove m u w → AddsAbove m s w
  adds_trans {m} {s} a b = record {
    rows = a.rows ++ b.rows;
    sent = b.sent ∙ ap (λ x. x ++ b.rows) a.sent ∙ append_assoc s.sent a.rows b.rows;
    above = append-AreAbove m a.rows b.rows a.above b.above;
  }

  replay_page-Keeps :
      (m c : ℕ) (any : Bool) (rows : Rows) (s : Listener C)
      → AreAbove m rows
      → HasRead m (replaying c any) s
      → Keeps m s (replay_page c any rows s)
  unfolding replay_page finish_replay enter HasRead
  replay_page-Keeps m c any rows s v (a, b) =
      let far = last_seq-AreAbove m c rows a v in
      (record { rows = rows; sent = ground arith; above = v }, ground arith)

  forward_row-Keeps :
      (m : ℕ) (found : Option NotificationRow) (s : Listener C)
      → s.phase ≡ listening
      → HasRead m listening s
      → Keeps m s (forward_row found s)
  unfolding forward_row HasRead
  forward_row-Keeps m none s p v = unmoved s refl (ground arith)
  forward_row-Keeps m (some r) s p v = elim (Bool-cases (leb r.event_seq s.last_seen_seq)) [
    | inl old ↦ rw old (unmoved s refl (ground arith))
    | inr fresh ↦
        rw fresh (record { rows = r ∷ []; sent = refl; above = (ground arith, tt) }, ground arith)
  ]

  forward_notification-Keeps :
      (m : ℕ) (id : Option Uuid) (found : Result Rows (Unit {0})) (s : Listener C)
      → s.phase ≡ listening
      → HasRead m listening s
      → Keeps m s (forward_notification id found s)
  unfolding forward_notification HasRead
  forward_notification-Keeps m none found s p v = unmoved s refl (ground arith)
  forward_notification-Keeps m (some id) (err e) s p v = unmoved s refl (ground arith)
  forward_notification-Keeps m (some id) (ok t) s p v = forward_row-Keeps m (find_by_id id t) s p v

  module _ (parse_payload : Text → Option Uuid) where
    at_phase-Keeps :
        (m : ℕ) (p : Phase) (i : Input) (s : Listener C)
        → s.phase ≡ p
        → HasRead m p s
        → Keeps m s (at_phase parse_payload p i s)
    unfolding at_phase enter select_page HasRead
    at_phase-Keeps m (replaying c any) (page (ok t)) s p v =
        replay_page-Keeps m c any (select_page c t) s
          (take-AreAbove m 100 _ (newer_than-AreAbove m c t v.0)) v
    at_phase-Keeps m listening (notifies payload found) s p v =
        let u = record s { backoff_ms = 250 } in
        let (adds, read) = forward_notification-Keeps m (parse_payload payload) found u p v in
        (record { rows = adds.rows; sent = adds.sent; above = adds.above }, read)
    at_phase-Keeps m p i s q v =
        unmoved (at_phase parse_payload p i s) (ground arith) (ground arith)

    run-AddsAbove :
        (m : ℕ) (is : List Input) (s : Listener C)
        → HasRead m s.phase s
        → AddsAbove m s (run parse_payload is s)
    unfolding run step
    run-AddsAbove m [] s v = record { rows = []; sent = sym (append-nil s.sent); above = tt }
    run-AddsAbove m (i ∷ is) s v =
        let (adds, read) = at_phase-Keeps m s.phase i s refl v in
        adds_trans adds (run-AddsAbove m is (step parse_payload i s) read)

    -- Once the task listens with its cursor at a sequence number or past it, then whatever comes
    -- later, the replays of later reconnects included, it only broadcasts rows above that number.
    -- So a row at or below it that was not broadcast by then (its look-up failed, or the replay
    -- that would have read it failed) never is.
    pub never_reached :
        (m : ℕ) (is : List Input) (s : Listener C)
        → s.phase ≡ listening
        → m ≤ s.last_seen_seq
        → AddsAbove m s (run parse_payload is s)
    unfolding HasRead
    never_reached m is s p h = run-AddsAbove m is s (rw p (h, h))
