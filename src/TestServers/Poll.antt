-- ===== src/TestServers/Poll.antt =====
-- The loops that wait: `wait_for_server`, `wait_for_js_true` and `wait_for_element` of
-- e2e-tests/src/common/chromium.rs test the clock first; those of
-- e2e-tests/src/common/live_search_env.rs and gateway_env.rs probe first. What the n-th round reads
-- from the clock, in milliseconds, and what its probe gives are functions of n.
pub mod Waits
pub mod Until
use rust_web_fullstack.Prelude.{
  ℕ, zero, suc, ◌+◌, ◌≤◌, ◌/◌, Bool, true, false, ltb, leb, ◌&&◌, ◌||◌, Option, none, some,
  if◌then◌else◌,
}

pub data Polled (A : Type 0) : Type 0 where
  found : A → Polled A
  timed_out : Polled A
  -- More rounds than the fuel allows.
  unfinished : Polled A

module _ {A : Type 0} where
  on_probe : Option A → Polled A → Polled A
  on_probe (some a) rest = found a
  on_probe none rest = rest

  -- `while now < deadline { probe; sleep }`.
  unfoldable pub poll_while : ℕ → ℕ → (ℕ → ℕ) → (ℕ → Option A) → ℕ → Polled A
  unfolding on_probe
  poll_while zero deadline clock probe n = unfinished
  poll_while (suc fuel) deadline clock probe n =
      let rest = poll_while fuel deadline clock probe (suc n) in
      if ltb (clock n) deadline then on_probe (probe n) rest else timed_out

  -- `loop { probe; if now >= deadline { return Err }; sleep }`.
  unfoldable pub poll_until : ℕ → ℕ → (ℕ → ℕ) → (ℕ → Option A) → ℕ → Polled A
  unfolding on_probe
  poll_until zero deadline clock probe n = unfinished
  poll_until (suc fuel) deadline clock probe n =
      let rest = poll_until fuel deadline clock probe (suc n) in
      on_probe (probe n) (if leb deadline (clock n) then timed_out else rest)

  abbrev pub to_option : Polled A → Option A
  to_option (found a) = some a
  to_option timed_out = none
  to_option unfinished = none

abbrev pub is_found : {A : Type 0} → Polled A → Bool
is_found (found a) = true
is_found timed_out = false
is_found unfinished = false

-- Enough rounds of at least `interval` milliseconds each.
abbrev pub rounds : ℕ → ℕ → ℕ
rounds timeout interval = suc (timeout / interval + 1)

-- A reply's status, where there is one.
unfoldable pub is_up : Option ℕ → Option (Unit {0})
is_up none = none
is_up (some status) = if leb 200 status && ltb status 400 then some tt else none

pub wait_for_server : ℕ → ℕ → (ℕ → ℕ) → (ℕ → Option ℕ) → Bool
wait_for_server started timeout clock reply =
    is_found (poll_while (rounds timeout 200) (started + timeout) clock (λ n. is_up (reply n)) 0)

-- The value of an expression, where it could be evaluated and is a Boolean.
unfoldable pub is_true : Option Bool → Option (Unit {0})
is_true (some true) = some tt
is_true (some false) = none
is_true none = none

pub wait_for_js_true : ℕ → ℕ → (ℕ → ℕ) → (ℕ → Option Bool) → Bool
wait_for_js_true started timeout clock value =
    is_found (poll_while (rounds timeout 100) (started + timeout) clock (λ n. is_true (value n)) 0)

pub wait_for_element : {E : Type 0} → ℕ → ℕ → (ℕ → ℕ) → (ℕ → Option E) → Option E
wait_for_element started timeout clock find =
    to_option (poll_while (rounds timeout 100) (started + timeout) clock find 0)

-- The clock does not run backwards, and each round sleeps for the interval.
abbrev pub Ticks : ℕ → (ℕ → ℕ) → Type 0
Ticks interval clock = (n : ℕ) → clock n + interval ≤ clock (suc n)
