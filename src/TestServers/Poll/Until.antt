-- ===== src/TestServers/Poll/Until.antt =====
-- The loops that probe before they look at the clock: e2e-tests/src/common/live_search_env.rs,
-- gateway_env.rs.
use rust_web_fullstack.Prelude.{
  ℕ, zero, suc, ◌+◌, ◌*◌, ◌<◌, ◌≤◌, leb, Option, none, some, ◌≡◌, inl, inr, dec_lt, arith,
  Bool-cases, Option-cases, leb→le, leb→gt,
}
use rust_web_fullstack.TestServers.Poll.{
  Polled, found, timed_out, unfinished, on_probe, poll_until, Ticks,
}

module _ {A : Type 0} (interval deadline : ℕ) (clock : ℕ → ℕ) (probe : ℕ → Option A)
    (ticks : Ticks interval clock) where
  -- In the loops that probe first, the deadline is tested after a miss.
  pub record Found (n : ℕ) (a : A) : Type 0 where
    pub at : ℕ
    pub from : n ≤ at
    pub hit : probe at ≡ some a
    pub misses : (m : ℕ) → n ≤ m → m < at → (probe m ≡ none) × (clock m < deadline)

  pub record Missed (n : ℕ) : Type 0 where
    pub at : ℕ
    pub from : n ≤ at
    pub late : deadline ≤ clock at
    pub misses : (m : ℕ) → n ≤ m → m ≤ at → probe m ≡ none

  abbrev pub Polls : ℕ → Polled A → Type 0
  Polls n (found a) = Found n a
  Polls n timed_out = Missed n
  Polls n unfinished = ⊥

  Polls-suc :
      (n : ℕ) (r : Polled A) → probe n ≡ none → clock n < deadline → Polls (suc n) r → Polls n r
  Polls-suc n (found a) here early w = record {
    at = w.at;
    from = omega (arith, w.from);
    hit = w.hit;
    misses = λ m from below. elim (dec_lt n m) [
      | yes beyond ↦ w.misses m (omega arith) below
      | no same ↦ let e : m ≡ n = omega arith in rw e (here, early)
    ];
  }
  Polls-suc n timed_out here early w = record {
    at = w.at;
    from = omega (arith, w.from);
    late = w.late;
    misses = λ m from below. elim (dec_lt n m) [
      | yes beyond ↦ w.misses m (omega arith) below
      | no same ↦ let e : m ≡ n = omega arith in rw e here
    ];
  }
  Polls-suc n unfinished here early w = elim w [ ]

  Found-here : (n : ℕ) (a : A) → probe n ≡ some a → Found n a
  Found-here n a hit = record {
    at = n;
    from = omega arith;
    hit = hit;
    misses = λ m from below. absurd (omega arith);
  }

  Missed-here : (n : ℕ) → probe n ≡ none → deadline ≤ clock n → Missed n
  Missed-here n miss late = record {
    at = n;
    from = omega arith;
    late = late;
    misses = λ m from below. let e : m ≡ n = omega arith in rw e miss;
  }

  turn_until :
      (fuel n : ℕ)
      → (clock n < deadline → Polls (suc n) (poll_until fuel deadline clock probe (suc n)))
      → Polls n (poll_until (suc fuel) deadline clock probe n)
  unfolding poll_until on_probe
  turn_until fuel n rest = elim (Option-cases (probe n)) [
    | inr (a, hit) ↦ rw hit (Found-here n a hit)
    | inl miss ↦ elim (Bool-cases (leb deadline (clock n))) [
      | inl late ↦ rw (miss, late) (Missed-here n miss (leb→le _ _ late))
      | inr early ↦
          rw (miss, early)
            (Polls-suc n (poll_until fuel deadline clock probe (suc n)) miss (leb→gt _ _ early)
              (rest (leb→gt _ _ early)))
    ]
  ]

  pub poll_until-Polls :
      (fuel n : ℕ)
      → deadline ≤ clock n + interval * fuel
      → Polls n (poll_until (suc fuel) deadline clock probe n)
  poll_until-Polls zero n enough = turn_until zero n (λ early. absurd (omega arith))
  poll_until-Polls (suc fuel) n enough =
      turn_until (suc fuel) n (λ early. poll_until-Polls fuel (suc n) (grind (arith, ticks n)))
