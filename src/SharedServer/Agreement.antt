-- ===== src/SharedServer/Agreement.antt =====
-- What the callers of `SharedServer::get` are given, in any interleaving:
-- e2e-tests/src/common/once.rs.
use rust_web_fullstack.Prelude.{
  ◌≤◌, Bool, true, false, Option, none, some, List, [], ◌∷◌, All, Result, ok, err, ◌≡◌, ◌≢◌, ap,
  subst, sym, ◌⊎◌, inl, inr, refl, arith, Option-cases, Bool-cases,
}
use rust_web_fullstack.SharedServer.{
  unspawned, running, Answer, timed_out, Server, Event, call_once, no_runtime, run_start, signal,
  poll, new, init, fill, read_cell, step, run,
}

module _ {T E : Type 0} where
  -- A timeout, or what the cell holds.
  abbrev pub Agrees : Option (Result T E) → Answer T E → Type 0
  Agrees cell a = (a ≡ timed_out) ⊎ ((r : Result T E) × (cell ≡ some r) × (a ≡ read_cell (some r)))

  -- How far the start has come: nothing was done, the thread runs, or the cell is filled.
  abbrev Phase : Server T E → Type 0
  Phase s =
      ((s.background ≡ unspawned)
        × (s.cell ≡ none)
        × (s.bg_init_done ≡ false)
        × (s.bg_init_once ≡ false)
        × (s.starts ≡ 0))
      ⊎ ((s.background ≡ running)
          × (s.cell ≡ none)
          × (s.bg_init_done ≡ false)
          × (s.bg_init_once ≡ true)
          × (s.starts ≡ 0))
      ⊎ ((s.cell ≢ none) × (s.bg_init_once ≡ true) × (s.background ≢ running) × (s.starts ≤ 1))

  step-Phase : (e : Event T E) (s : Server T E) → Phase s → Phase (step e s)
  unfolding step init fill
  step-Phase (call_once (ok u)) s p = ground (arith, p)
  step-Phase (call_once (err x)) s p = ground (arith, p)
  step-Phase (no_runtime x) s p = ground (arith, p)
  step-Phase (run_start r) s p = ground (arith, p)
  step-Phase signal s p = ground (arith, p)
  step-Phase (poll late) s p = ground (arith, p)

  -- What the cell holds stays there.
  step-cell :
      (e : Event T E) (s : Server T E) (r : Result T E)
      → Phase s
      → s.cell ≡ some r
      → (step e s).cell ≡ some r
  unfolding step init fill
  step-cell (call_once (ok u)) s r p h = ground (arith, p)
  step-cell (call_once (err x)) s r p h = ground (arith, p)
  step-cell (no_runtime x) s r p h = ground (arith, p)
  step-cell (run_start q) s r p h = ground (arith, p)
  step-cell signal s r p h = ground (arith, p)
  step-cell (poll late) s r p h = ground (arith, p)

  All-Agrees :
      (c c' : Option (Result T E)) (answers : List (Answer T E))
      → ((r : Result T E) → c ≡ some r → c' ≡ some r)
      → All (Agrees c) answers
      → All (Agrees c') answers
  All-Agrees c c' [] keeps h = tt
  All-Agrees c c' (a ∷ rest) keeps (inl late, h) = (inl late, All-Agrees c c' rest keeps h)
  All-Agrees c c' (a ∷ rest) keeps (inr (r, here, same), h) =
      (inr (r, keeps r here, same), All-Agrees c c' rest keeps h)

  kept :
      (e : Event T E) (s : Server T E)
      → Phase s
      → All (Agrees s.cell) s.answers
      → All (Agrees (step e s).cell) s.answers
  kept e s p h = All-Agrees s.cell (step e s).cell s.answers (λ r here. step-cell e s r p here) h

  polled :
      (s : Server T E) (late : Bool)
      → Phase s
      → All (Agrees s.cell) s.answers
      → All (Agrees (step (poll late) s).cell) (step (poll late) s).answers
  unfolding step
  polled s late p h = elim (Bool-cases s.bg_init_once) [
    | inr early ↦ rw early h
    | inl once ↦ elim (Bool-cases s.bg_init_done) [
      | inl done ↦ elim (Option-cases s.cell) [
        | inl empty ↦ absurd (ground (arith, p))
        | inr (r, here) ↦ rw (once, done) (inr (r, here, ap read_cell here), h)
      ]
      | inr pending ↦ elim (Bool-cases late) [
        | inl over ↦ rw (once, pending, over) (inl refl, h)
        | inr waits ↦ rw (once, pending, waits) h
      ]
    ]
  ]

  -- An event that answers no caller.
  unanswered :
      (e : Event T E) (s : Server T E)
      → Phase s
      → All (Agrees s.cell) s.answers
      → (step e s).answers ≡ s.answers
      → All (Agrees (step e s).cell) (step e s).answers
  unanswered e s p h same = subst (λ a. All (Agrees (step e s).cell) a) (sym same) (kept e s p h)

  step-answers :
      (e : Event T E) (s : Server T E)
      → Phase s
      → All (Agrees s.cell) s.answers
      → All (Agrees (step e s).cell) (step e s).answers
  unfolding step init fill
  step-answers (poll late) s p h = polled s late p h
  step-answers (call_once (ok u)) s p h = unanswered (call_once (ok u)) s p h (ground arith)
  step-answers (call_once (err x)) s p h = unanswered (call_once (err x)) s p h (ground arith)
  step-answers (no_runtime x) s p h = unanswered (no_runtime x) s p h (ground arith)
  step-answers (run_start r) s p h = unanswered (run_start r) s p h (ground arith)
  step-answers signal s p h = unanswered signal s p h (ground arith)

  Phase-starts : (s : Server T E) → Phase s → s.starts ≤ 1
  Phase-starts s p = ground (arith, p)

  Phase-Agrees :
      (es : List (Event T E)) (s : Server T E)
      → Phase s
      → All (Agrees s.cell) s.answers
      → ((run es s).starts ≤ 1) × All (Agrees (run es s).cell) (run es s).answers
  unfolding run
  Phase-Agrees [] s p h = (Phase-starts s p, h)
  Phase-Agrees (e ∷ es) s p h = Phase-Agrees es (step e s) (step-Phase e s p) (step-answers e s p h)

-- In any interleaving of callers and the background thread, `start` is run once at most, and every
-- answer is a timeout or what the cell holds in the end: no caller is told that the server is not
-- initialized, and no two callers are given different servers or different errors.
pub run-Agrees :
    {T E : Type 0} (es : List (Event T E))
    → ((run es new).starts ≤ 1) × All (Agrees (run es new).cell) (run es new).answers
unfolding new
run-Agrees es = Phase-Agrees es new (inl (refl, refl, refl, refl, refl)) tt
