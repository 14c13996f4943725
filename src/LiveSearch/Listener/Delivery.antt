-- ===== src/LiveSearch/Listener/Delivery.antt =====
-- What reaches the subscribers, and in which order: live-search/src/db.rs, `run_pg_listener`.
use rust_web_fullstack.Prelude.{
  ℕ, ◌≤◌, Bool, leb, Text, Option, none, some, List, [], ◌∷◌, ◌++◌, Result, ok, err, ◌≡◌, refl,
  arith, inl, inr, Bool-cases,
}
use rust_web_fullstack.Domain.{Uuid}
use rust_web_fullstack.LiveSearch.Cache.{CacheHandle}
use rust_web_fullstack.LiveSearch.Listener.{
  Rows, select_page, find_by_id, last_seq, NotificationRow, Phase, listening, replaying, Listener,
  Input, page, notifies, enter, start, finish_replay, replay_page, forward_row,
  forward_notification, at_phase, step, run,
}
use rust_web_fullstack.LiveSearch.Listener.Replay.{
  Climbs, Climbs-mono, Climbs-append, Climbs-take, last_seq-append, newer_than-Climbs,
}

-- The sequence number up to which the task has read.
abbrev pub reach : Phase → ℕ → ℕ
reach (replaying cursor any) last_seen = cursor
reach p last_seen = last_seen

-- The inputs of a run in which no page of a replay fails, and the table is read in the order of
-- its index.
abbrev pub AreRead : List Input → Type 0
AreRead [] = Unit {0}
AreRead (page (ok t) ∷ is) = Climbs 0 t × AreRead is
AreRead (page (err e) ∷ is) = ⊥
AreRead (i ∷ is) = AreRead is

abbrev IsReadInput : Input → Type 0
IsReadInput (page (ok t)) = Climbs 0 t
IsReadInput (page (err e)) = ⊥
IsReadInput i = Unit {0}

read_input : (i : Input) (is : List Input) → AreRead (i ∷ is) → IsReadInput i × AreRead is
read_input (page (ok t)) is h = h
read_input (page (err e)) is h = absurd h
read_input i is h = (tt, h)

last_seq_mono : (c d : ℕ) (rows : Rows) → c ≤ d → last_seq c rows ≤ last_seq d rows
unfolding last_seq
last_seq_mono c d [] h = h
last_seq_mono c d (r ∷ rows) h = omega arith

module _ {C : Type 0} where
  abbrev InOrder : Phase → Listener C → Type 0
  InOrder p s = Climbs 0 s.sent × (last_seq 0 s.sent ≤ reach p s.last_seen_seq)

  replay_page-sent :
      (c : ℕ) (any : Bool) (rows : Rows) (s : Listener C)
      → (replay_page c any rows s).sent ≡ s.sent ++ rows
  unfolding replay_page finish_replay enter
  replay_page-sent c any rows s = ground arith

  replay_page-reach :
      (c : ℕ) (any : Bool) (rows : Rows) (s : Listener C)
      → let u = replay_page c any rows s in reach u.phase u.last_seen_seq ≡ last_seq c rows
  unfolding replay_page finish_replay enter
  replay_page-reach c any rows s = ground arith

  replay_page-InOrder :
      (c : ℕ) (any : Bool) (t : Rows) (s : Listener C)
      → Climbs 0 t
      → InOrder (replaying c any) s
      → let u = replay_page c any (select_page c t) s in InOrder u.phase u
  unfolding select_page
  replay_page-InOrder c any t s climbs (a, b) =
      let rows = select_page c t in
      let above : Climbs c rows = Climbs-take 100 c _ (newer_than-Climbs c 0 t climbs) in
      rw
        (
          replay_page-reach c any rows s,
          replay_page-sent c any rows s,
          last_seq-append 0 s.sent rows,
        )
        (Climbs-append 0 s.sent rows a (Climbs-mono rows b above), last_seq_mono _ c rows b)

  forward_row-InOrder :
      (found : Option NotificationRow) (s : Listener C)
      → s.phase ≡ listening
      → InOrder listening s
      → let u = forward_row found s in InOrder u.phase u
  unfolding forward_row last_seq
  forward_row-InOrder none s p v = rw p v
  forward_row-InOrder (some r) s p (a, b) = elim (Bool-cases (leb r.event_seq s.last_seen_seq)) [
    | inl old ↦ rw (old, p) (a, b)
    | inr fresh ↦
        rw (fresh, p, last_seq-append 0 s.sent (r ∷ []))
          (Climbs-append 0 s.sent (r ∷ []) a (ground arith, tt), omega arith)
  ]

  forward_notification-InOrder :
      (id : Option Uuid) (found : Result Rows (Unit {0})) (s : Listener C)
      → s.phase ≡ listening
      → InOrder listening s
      → let u = forward_notification id found s in InOrder u.phase u
  unfolding forward_notification
  forward_notification-InOrder none found s p v = rw p v
  forward_notification-InOrder (some id) (err e) s p v = rw p v
  forward_notification-InOrder (some id) (ok t) s p v = forward_row-InOrder (find_by_id id t) s p v

  module _ (parse_payload : Text → Option Uuid) where
    at_phase-InOrder :
        (p : Phase) (i : Input) (s : Listener C)
        → s.phase ≡ p
        → IsReadInput i
        → InOrder p s
        → let u = at_phase parse_payload p i s in InOrder u.phase u
    unfolding at_phase enter
    at_phase-InOrder (replaying c any) (page (ok t)) s p h v = replay_page-InOrder c any t s h v
    at_phase-InOrder listening (notifies payload found) s p h v =
        forward_notification-InOrder (parse_payload payload) found (record s { backoff_ms = 250 }) p
          v
    at_phase-InOrder p i s q h v = ground arith

    run-InOrder :
        (is : List Input) (s : Listener C)
        → AreRead is
        → InOrder s.phase s
        → let u = run parse_payload is s in InOrder u.phase u
    unfolding run step
    run-InOrder [] s h v = v
    run-InOrder (i ∷ is) s h v =
        let (now, later) = read_input i is h in
        run-InOrder is (step parse_payload i s) later (at_phase-InOrder s.phase i s refl now v)

    -- As long as no page of a replay fails, the rows that are broadcast over the whole run, through
    -- every reconnect, replay and notification, are in strictly ascending order of event_seq: no
    -- row is broadcast twice.
    pub run-Climbs :
        (is : List Input) (cache : CacheHandle C)
        → AreRead is
        → Climbs 0 (run parse_payload is (start cache)).sent
    unfolding start last_seq
    run-Climbs is cache h = (run-InOrder is (start cache) h (tt, omega arith)).0
