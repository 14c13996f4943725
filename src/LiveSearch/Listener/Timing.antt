-- ===== src/LiveSearch/Listener/Timing.antt =====
-- The backoff and the shutdown of the listener: live-search/src/db.rs, `run_pg_listener`.
use rust_web_fullstack.Prelude.{
  ℕ, ◌≤◌, Bool, true, Text, Option, none, some, List, [], ◌∷◌, Result, ok, err, ◌≡◌, refl, arith,
  ap, ◌∙◌, ◌⊎◌, inl, inr,
}
use rust_web_fullstack.Domain.{Uuid}
use rust_web_fullstack.LiveSearch.Listener.{
  Rows, Phase, sleeping, listening, stopped, replaying, Listener, Input, cancels, page, notifies,
  enter, replay_page, forward_notification, at_phase, step, run, select_page,
}

abbrev pub InRange : {C : Type 0} → Listener C → Type 0
InRange s = (250 ≤ s.backoff_ms) × (s.backoff_ms ≤ 30_000)

module _ {C : Type 0} (parse_payload : Text → Option Uuid) where
  replay_page-backoff :
      (c : ℕ) (any : Bool) (rows : Rows) (s : Listener C)
      → (replay_page c any rows s).backoff_ms ≡ s.backoff_ms
  unfolding replay_page
  replay_page-backoff c any rows s = ground arith

  forward_notification-backoff :
      (id : Option Uuid) (found : Result Rows (Unit {0})) (s : Listener C)
      → (forward_notification id found s).backoff_ms ≡ s.backoff_ms
  unfolding forward_notification
  forward_notification-backoff none found s = refl
  forward_notification-backoff (some id) (err e) s = refl
  forward_notification-backoff (some id) (ok t) s = ground arith

  at_phase-InRange :
      (p : Phase) (i : Input) (s : Listener C) → InRange s → InRange (at_phase parse_payload p i s)
  unfolding at_phase enter
  at_phase-InRange (replaying c any) (page (ok t)) s r =
      rw (replay_page-backoff c any (select_page c t) s) r
  at_phase-InRange listening (notifies payload found) s r =
      rw
        (forward_notification-backoff (parse_payload payload) found (record s { backoff_ms = 250 }))
        (omega arith)
  at_phase-InRange p i s r = ground arith

  -- However the connections, queries and notifications turn out, the backoff stays between a
  -- quarter of a second and thirty seconds.
  pub run-InRange :
      (is : List Input) (s : Listener C) → InRange s → InRange (run parse_payload is s)
  unfolding run step
  run-InRange [] s r = r
  run-InRange (i ∷ is) s r =
      run-InRange is (step parse_payload i s) (at_phase-InRange s.phase i s r)

  at_stopped :
      (i : Input) (s : Listener C) → s.cancelled ≡ true → at_phase parse_payload stopped i s ≡ s
  unfolding at_phase
  at_stopped cancels s q = ground arith
  at_stopped i s q = refl

  run_stopped :
      (later : List Input) (s : Listener C)
      → s.phase ≡ stopped
      → s.cancelled ≡ true
      → run parse_payload later s ≡ s
  unfolding run step
  run_stopped [] s p q = refl
  run_stopped (i ∷ is) s p q =
      let idle : step parse_payload i s ≡ s =
        ap (λ p'. at_phase parse_payload p' i s) p ∙ at_stopped i s q in
      ap (run parse_payload is) idle ∙ run_stopped is s p q

  stops :
      (s : Listener C)
      → (s.phase ≡ sleeping) ⊎ (s.phase ≡ listening)
      → step parse_payload cancels s ≡ record s { cancelled = true; phase = stopped }
  unfolding step at_phase
  stops s (inl p) = ap (λ p'. at_phase parse_payload p' cancels s) p
  stops s (inr p) = ap (λ p'. at_phase parse_payload p' cancels s) p

  -- A cancel that comes while the task sleeps or listens stops it at once, and nothing that happens
  -- later changes its state.
  pub cancels-stops :
      (s : Listener C) (later : List Input)
      → (s.phase ≡ sleeping) ⊎ (s.phase ≡ listening)
      → run parse_payload (cancels ∷ later) s ≡ record s { cancelled = true; phase = stopped }
  unfolding run step at_phase
  cancels-stops s later p =
      ap (run parse_payload later) (stops s p)
      ∙ run_stopped later (record s { cancelled = true; phase = stopped }) refl refl
