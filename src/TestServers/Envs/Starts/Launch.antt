-- ===== src/TestServers/Envs/Starts/Launch.antt =====
-- The thread of a test server and the waits for it: e2e-tests/src/common/gateway_env.rs,
-- live_search_env.rs.
use rust_web_fullstack.Prelude.{
  ℕ, ◌+◌, ◌*◌, ◌/◌, ◌≤◌, Bool, true, false, not, Text, some, Result, ok, err, ◌>>=◌, ◌>>◌,
  refuse_if, ◌≡◌, refl, arith,
}
use rust_web_fullstack.TestServers.Poll.{
  Polled, found, timed_out, unfinished, poll_until, rounds, Ticks,
}
use rust_web_fullstack.TestServers.Poll.Until.{Polls, poll_until-Polls}
use rust_web_fullstack.TestServers.Envs.{
  EnvError, poisoned, not_bound, client, not_ready, Machine, LaunchOutcomes, look, is_ready,
  on_bind, on_health, await_ready, bound_count, conclude, launch,
}

-- The clocks of both waits do not run backwards, and their rounds sleep.
pub record IsOnTime (pause : ℕ) (o : LaunchOutcomes) : Type 0 where
  pub bind_ticks : Ticks 50 o.bind_clock
  pub bind_begun : o.bind_started ≤ o.bind_clock 0
  pub health_ticks : Ticks pause o.health_clock
  pub health_begun : o.health_started ≤ o.health_clock 0

-- The thread serves at the address, and has answered a health request with success.
pub record IsReady (o : LaunchOutcomes) (addr : Text) : Type 0 where
  pub bound : o.bound ≡ some addr
  pub answered : (n : ℕ) × (is_ready (o.reply n) ≡ some tt)

abbrev pub LaunchFault : EnvError → Type 0
LaunchFault poisoned = Unit {0}
LaunchFault not_bound = Unit {0}
LaunchFault client = Unit {0}
LaunchFault not_ready = Unit {0}
LaunchFault e = ⊥

pub data Launched (o : LaunchOutcomes) (m : Machine) (m' : Machine) (r : Result Text EnvError)
    : Type 0 where
  ready :
      (addr : Text)
      → r ≡ ok addr
      → IsReady o addr
      → m' ≡ record m { containers = m.containers + 1; serving = m.serving + 1 }
      → Launched o m m' r
  late :
      (e : EnvError)
      → r ≡ err e
      → LaunchFault e
      → m' ≡ record m { serving = m.serving + bound_count o }
      → Launched o m m' r

module _ (o : LaunchOutcomes) where
  abbrev Awaited : Result Text EnvError → Type 0
  Awaited (ok addr) = IsReady o addr
  Awaited (err e) = LaunchFault e

  -- What the wait for the address gives.
  abbrev Bound : Result Text EnvError → Type 0
  Bound (ok addr) = o.bound ≡ some addr
  Bound (err e) = LaunchFault e

  look-Bound : (n : ℕ) (r : Result Text EnvError) → look o n ≡ some r → Bound r
  unfolding look
  look-Bound n (ok addr) h = ground arith
  look-Bound n (err e) h = let same : e ≡ poisoned = ground arith in rw same tt

  module _ (timeout interval deadline : ℕ) (clock : ℕ → ℕ) where
    on_bind-Bound :
        (ticks : Ticks interval clock) (p : Polled (Result Text EnvError))
        → Polls interval deadline clock (look o) ticks 0 p
        → Bound (on_bind p)
    unfolding on_bind
    on_bind-Bound ticks (found r) w = look-Bound w.at r w.hit
    on_bind-Bound ticks timed_out w = tt
    on_bind-Bound ticks unfinished w = elim w [ ]

  -- What the wait for the service gives.
  abbrev Answered : Polled (Unit {0}) → Type 0
  Answered (found u) = (n : ℕ) × (is_ready (o.reply n) ≡ some tt)
  Answered timed_out = Unit {0}
  Answered unfinished = ⊥

  on_health-Answered :
      (pause deadline : ℕ) (clock : ℕ → ℕ) (ticks : Ticks pause clock) (p : Polled (Unit {0}))
      → Polls pause deadline clock (λ n. is_ready (o.reply n)) ticks 0 p
      → Answered p
  on_health-Answered pause deadline clock ticks (found tt) w = (w.at, w.hit)
  on_health-Answered pause deadline clock ticks timed_out w = tt
  on_health-Answered pause deadline clock ticks unfinished w = elim w [ ]

  chain-Awaited :
      (b : Result Text EnvError) (builds : Bool) (h : Polled (Unit {0}))
      → Bound b
      → Answered h
      → Awaited (do addr ← b; refuse_if (not builds) client; on_health h; ok addr)
  unfolding on_health
  chain-Awaited (err e) builds h bound answered = bound
  chain-Awaited (ok addr) false h bound answered = tt
  chain-Awaited (ok addr) true (found u) bound answered = record {
    bound = bound;
    answered = answered;
  }
  chain-Awaited (ok addr) true timed_out bound answered = tt
  chain-Awaited (ok addr) true unfinished bound answered = elim answered [ ]

  await_ready-Awaited :
      (timeout pause : ℕ)
      → IsOnTime pause o
      → timeout ≤ pause * (timeout / pause + 1)
      → Awaited (await_ready timeout pause o)
  unfolding await_ready
  await_ready-Awaited timeout pause times enough =
      let binding =
        poll_until (rounds timeout 50) (o.bind_started + timeout) o.bind_clock (look o) 0 in
      let health =
        poll_until (rounds timeout pause) (o.health_started + timeout) o.health_clock
          (λ n. is_ready (o.reply n)) 0 in
      chain-Awaited (on_bind binding) o.client_builds health
        (on_bind-Bound timeout 50 (o.bind_started + timeout) o.bind_clock times.bind_ticks binding (
          poll_until-Polls 50 (o.bind_started + timeout) o.bind_clock (look o) times.bind_ticks
            (timeout / 50 + 1) 0 (omega (arith, times.bind_begun))))
        (on_health-Answered pause (o.health_started + timeout) o.health_clock times.health_ticks
          health
          (poll_until-Polls pause (o.health_started + timeout) o.health_clock
            (λ n. is_ready (o.reply n)) times.health_ticks (timeout / pause + 1) 0
            (omega (arith, times.health_begun))))

conclude-Launched :
    (o : LaunchOutcomes) (m : Machine) (r : Result Text EnvError)
    → Awaited o r
    → Launched o m (conclude o m r).0 (conclude o m r).1
unfolding conclude
conclude-Launched o m (ok addr) w = ready addr refl w (rw w.bound)
conclude-Launched o m (err e) w = late e refl w refl

pub launch-Launched :
    (timeout pause : ℕ) (o : LaunchOutcomes) (m : Machine)
    → IsOnTime pause o
    → timeout ≤ pause * (timeout / pause + 1)
    → Launched o m (launch timeout pause o m).0 (launch timeout pause o m).1
unfolding launch
launch-Launched timeout pause o m times enough =
    conclude-Launched o m (await_ready timeout pause o)
      (await_ready-Awaited o timeout pause times enough)
