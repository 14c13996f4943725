-- ===== src/TestServers/Poll/Waits.antt =====
-- When a wait ends and with what: e2e-tests/src/common/chromium.rs, live_search_env.rs,
-- gateway_env.rs.
use rust_web_fullstack.Prelude.{
  ℕ, zero, suc, ◌+◌, ◌*◌, ◌/◌, ◌<◌, ◌≤◌, true, ltb, Option, none, some, ◌≡◌, ◌↔◌, inl, inr, refl,
  dec_lt, arith, Bool-cases, Option-cases, ltb→ge, ltb→lt,
}
use rust_web_fullstack.TestServers.Poll.{
  Polled, found, timed_out, unfinished, on_probe, poll_while, is_found, is_up, wait_for_server,
  Ticks,
}

module _ {A : Type 0} (interval deadline : ℕ) (clock : ℕ → ℕ) (probe : ℕ → Option A)
    (ticks : Ticks interval clock) where
  -- The first round from n on that finds something, before the deadline.
  record First (n : ℕ) (a : A) : Type 0 where
    at : ℕ
    from : n ≤ at
    early : clock at < deadline
    hit : probe at ≡ some a
    misses : (m : ℕ) → n ≤ m → m < at → probe m ≡ none

  -- The deadline has come, and nothing was found from round n on.
  record Late (n : ℕ) : Type 0 where
    at : ℕ
    from : n ≤ at
    late : deadline ≤ clock at
    misses : (m : ℕ) → n ≤ m → m < at → probe m ≡ none

  abbrev Waited : ℕ → Polled A → Type 0
  Waited n (found a) = First n a
  Waited n timed_out = Late n
  Waited n unfinished = ⊥

  later-misses :
      (n k : ℕ)
      → probe n ≡ none
      → ((m : ℕ) → suc n ≤ m → m < k → probe m ≡ none)
      → (m : ℕ) → n ≤ m
      → m < k
      → probe m ≡ none
  later-misses n k here after m from below = elim (dec_lt n m) [
    | yes beyond ↦ after m (omega arith) below
    | no same ↦ let e : m ≡ n = omega arith in rw e here
  ]

  Waited-suc : (n : ℕ) (r : Polled A) → probe n ≡ none → Waited (suc n) r → Waited n r
  Waited-suc n (found a) here w = record {
    at = w.at;
    from = omega (arith, w.from);
    early = w.early;
    hit = w.hit;
    misses = later-misses n w.at here w.misses;
  }
  Waited-suc n timed_out here w = record {
    at = w.at;
    from = omega (arith, w.from);
    late = w.late;
    misses = later-misses n w.at here w.misses;
  }
  Waited-suc n unfinished here w = elim w [ ]

  First-here : (n : ℕ) (a : A) → clock n < deadline → probe n ≡ some a → First n a
  First-here n a early hit = record {
    at = n;
    from = omega arith;
    early = early;
    hit = hit;
    misses = λ m from below. absurd (omega arith);
  }

  Late-here : (n : ℕ) → deadline ≤ clock n → Late n
  Late-here n late = record {
    at = n;
    from = omega arith;
    late = late;
    misses = λ m from below. absurd (omega arith);
  }

  -- One round, over what the rounds after it give.
  turn :
      (fuel n : ℕ)
      → (clock n < deadline
          → probe n ≡ none
          → Waited (suc n) (poll_while fuel deadline clock probe (suc n)))
      → Waited n (poll_while (suc fuel) deadline clock probe n)
  unfolding poll_while on_probe
  turn fuel n rest = elim (Bool-cases (ltb (clock n) deadline)) [
    | inr over ↦ rw over (Late-here n (ltb→ge _ _ over))
    | inl early ↦ elim (Option-cases (probe n)) [
      | inr (a, hit) ↦ rw (early, hit) (First-here n a (ltb→lt _ _ early) hit)
      | inl miss ↦
          rw (early, miss)
            (Waited-suc n (poll_while fuel deadline clock probe (suc n)) miss
              (rest (ltb→lt _ _ early) miss))
    ]
  ]

  poll_while-Waited :
      (fuel n : ℕ)
      → deadline ≤ clock n + interval * fuel
      → Waited n (poll_while (suc fuel) deadline clock probe n)
  poll_while-Waited zero n enough = turn zero n (λ early miss. absurd (omega arith))
  poll_while-Waited (suc fuel) n enough =
      turn (suc fuel) n (λ early miss. poll_while-Waited fuel (suc n) (grind (arith, ticks n)))

  clock_mono : (m n : ℕ) → m ≤ n → clock m ≤ clock n
  clock_mono m zero h = let e : m ≡ 0 = omega arith in rw e (omega arith)
  clock_mono m (suc n) h = elim (dec_lt n m) [
    | yes same ↦ let e : m ≡ suc n = omega arith in rw e (omega arith)
    | no below ↦ omega (arith, clock_mono m n (omega arith), ticks n)
  ]

  -- Some round before the deadline finds something.
  abbrev pub InTime : Type 0
  InTime = (n : ℕ) × (clock n < deadline) × ((a : A) × (probe n ≡ some a))

  no_hit_in_time : (n : ℕ) → Late 0 → clock n < deadline → probe n ≡ none
  no_hit_in_time n l early = elim (dec_lt n l.at) [
    | yes before ↦ l.misses n (omega arith) before
    | no after ↦ absurd (omega (arith, clock_mono l.at n (omega arith), l.late))
  ]

  Waited_iff : (r : Polled A) → Waited 0 r → (is_found r ≡ true) ↔ InTime
  Waited_iff (found a) w = (λ e. (w.at, w.early, (a, w.hit)), λ t. refl)
  Waited_iff timed_out w =
      (λ e. absurd (cc), λ (n, early, (a, hit)). absurd (cc (no_hit_in_time n w early)))
  Waited_iff unfinished w = elim w [ ]

  pub poll_while-found_iff :
      (fuel : ℕ)
      → deadline ≤ clock 0 + interval * fuel
      → (is_found (poll_while (suc fuel) deadline clock probe 0) ≡ true) ↔ InTime
  poll_while-found_iff fuel enough =
      Waited_iff (poll_while (suc fuel) deadline clock probe 0) (poll_while-Waited fuel 0 enough)

is_up-some :
    (reply : Option ℕ) (u : Unit {0})
    → is_up reply ≡ some u
    → (status : ℕ) × (reply ≡ some status) × (200 ≤ status) × (status < 400)
unfolding is_up
is_up-some none u e = absurd (cc)
is_up-some (some status) u e = (status, refl, ground arith, ground arith)

is_up_of :
    (reply : Option ℕ) (status : ℕ)
    → reply ≡ some status
    → 200 ≤ status
    → status < 400
    → is_up reply ≡ some tt
unfolding is_up
is_up_of reply status e low high = rw e (ground arith)

-- `wait_for_server` returns, and it returns true exactly when in some round that began before the
-- deadline the server replied with a status from 200 to 399: whatever the server replies, however
-- late, on a clock that does not run backwards and on which a round sleeps for its 200
-- milliseconds. No more rounds are made than the timeout has intervals, and two.
pub wait_for_server-eq-true_iff :
    (started timeout : ℕ) (clock : ℕ → ℕ) (reply : ℕ → Option ℕ)
    → Ticks 200 clock
    → started ≤ clock 0
    → (wait_for_server started timeout clock reply ≡ true) ↔ (
        (n : ℕ) × (clock n < started + timeout)
        × ((status : ℕ) × (reply n ≡ some status) × (200 ≤ status) × (status < 400)))
unfolding wait_for_server
wait_for_server-eq-true_iff started timeout clock reply ticks begun =
    let search =
      poll_while-found_iff 200 (started + timeout) clock (λ n. is_up (reply n)) ticks
        (timeout / 200 + 1) (omega arith) in
    (
      λ e. let (n, early, (u, hit)) = search.0 e in (n, early, is_up-some (reply n) u hit),
      λ (n, early, (status, here, low, high)).
          search.1 (n, early, (tt, is_up_of (reply n) status here low high)),
    )
