-- ===== src/Auth/Refresh/View/Refines.antt =====
-- `rotate` does to the table what `present` does to its meaning: gateway/src/auth/refresh.rs.
use rust_web_fullstack.Prelude.{
  ℕ, true, false, ◌==◌, ==_iff, if◌then◌else◌, List, Text, Option, none, some, ◌∷◌, ok, ◌≡◌, refl,
  sym, ap, ◌≢◌, ◌∙◌, inl, inr, ◌⊎◌, arith, Option-cases, Bool-cases,
}
use mathlib.Core.Path.{fun_ext}
use rust_web_fullstack.Prelude.Int.{ℤ, pos, ltb_ℤ}
use rust_web_fullstack.Domain.{Uuid, DateTime, as_uuid}
use rust_web_fullstack.Auth.Store.{
  Row, Table, is_live, select_active, select_any, mark_replaced, revoke_family,
}
use rust_web_fullstack.Auth.Store.Counts.{first_holds}
use rust_web_fullstack.Auth.Refresh.{
  Libraries, RotationResult, Outcomes, rotate, hash_refresh_token, in_transaction, replayed,
  replaced,
}
use rust_web_fullstack.Auth.Refresh.Rotation.{successor, finish_ok, rotate-IsRotated}
use rust_web_fullstack.Auth.Refresh.Integrity.{IsSound}
use rust_web_fullstack.Auth.Refresh.View.{unknown, live, spent, View, view, spend, present}
use rust_web_fullstack.Auth.Refresh.View.Marked.{
  view-revoke_family, view-cons, view-marked, inactive, active_known,
}

replayed-none :
    (lib : Libraries) (io : Outcomes) (h : ℕ) (now : DateTime) (t u : Table)
    → replayed lib io h now t ≡ ok (u, none)
    → ((select_any h t ≡ none) × (u ≡ t))
      ⊎ ((r : Row) × (select_any h t ≡ some r) × (u ≡ revoke_family now r.family_id t))
unfolding replayed
replayed-none lib io h now t u e = elim (Option-cases (select_any h t)) [
  | inl missing ↦ inl (missing, ground arith)
  | inr (r, found) ↦ inr (r, found, ground arith)
]

replaced-ne-none :
    (lib : Libraries) (io : Outcomes) (old : Row) (now : DateTime) (ttl : ℤ) (t u : Table)
    → replaced lib io old now ttl t ≢ ok (u, none)
unfolding replaced
replaced-ne-none lib io old now ttl t u e = ground arith

module _ (lib : Libraries) (io : Outcomes) (raw : Text) (now : DateTime) (ttl : ℤ) (t : Table) where
  -- A call that answers with no token and no error found no active row.
  rotate-none :
      (u : Table)
      → rotate lib io raw now ttl t ≡ (u, ok none)
      → (select_active (hash_refresh_token lib raw) now t ≡ none)
        × (((select_any (hash_refresh_token lib raw) t ≡ none) × (u ≡ t))
            ⊎ ((r : Row) × (select_any (hash_refresh_token lib raw) t ≡ some r)
                × (u ≡ revoke_family now r.family_id t)))
  unfolding rotate in_transaction
  rotate-none u e = elim (Bool-cases (ltb_ℤ (pos 0) ttl)) [
    | inr bad ↦ ground arith
    | inl good ↦
        let inside =
          finish_ok lib io.commits t (in_transaction lib io raw now ttl t) {u = u} {r = none}
            (ground arith) in
        elim (Option-cases (select_active (hash_refresh_token lib raw) now t)) [
          | inl missing ↦
              (missing, replayed-none lib io (hash_refresh_token lib raw) now t u (ground arith))
          | inr (old, active) ↦ absurd (replaced-ne-none lib io old now ttl t u (ground arith))
        ]
  ]

module _ (h : ℕ) (now : DateTime) (h' : ℕ) (until : DateTime) (v : View) where
  present-unknown : v h ≡ unknown → present h now h' until v ≡ (v, none)
  unfolding present
  present-unknown e = rw (e, present) refl

  present-spent :
      (f : Uuid) → v h ≡ spent f → present h now h' until v ≡ ((λ d. spend f (v d)), none)
  unfolding present
  present-spent f e = rw (e, present) refl

  present-expired :
      (f s : Uuid) (e : DateTime)
      → v h ≡ live f s e
      → ltb_ℤ now e ≡ false
      → present h now h' until v ≡ ((λ d. spend f (v d)), none)
  unfolding present
  present-expired f s e p late = rw (p, present, late) refl

  present-live :
      (f s : Uuid) (e : DateTime)
      → v h ≡ live f s e
      → ltb_ℤ now e ≡ true
      → present h now h' until v
        ≡ ((λ d. if d == h' then live f s until else if d == h then spent f else v d), some s)
  unfolding present
  present-live f s e p early = rw (p, present, early) refl

-- The row that a look-up finds, as a token.
view_row_cases :
    (h : ℕ) (t : Table) (r : Row)
    → select_any h t ≡ some r
    → ((is_live r ≡ true) × (view t h ≡ live r.family_id r.subject r.expires_at))
      ⊎ ((is_live r ≡ false) × (view t h ≡ spent r.family_id))
unfolding view
view_row_cases h t r e = elim (Option-cases r.revoked_at) [
  | inl unrevoked ↦ inl (ground arith, ground arith)
  | inr (at, revoked) ↦ inr (ground arith, ground arith)
]

present-declined :
    (h : ℕ) (now : DateTime) (h' : ℕ) (until : DateTime) (t u : Table)
    → select_active h now t ≡ none
    → ((select_any h t ≡ none) × (u ≡ t))
      ⊎ ((r : Row) × (select_any h t ≡ some r) × (u ≡ revoke_family now r.family_id t))
    → (view u, none) ≡ present h now h' until (view t)
unfolding view
present-declined h now h' until t u gone (inl (missing, e)) =
    rw e (sym (present-unknown h now h' until (view t) (rw (missing, view) refl)))
present-declined h now h' until t u gone (inr (r, found, e)) =
    let shut = inactive h now t r gone found in
    ap (λ w. (w, none)) (ap view e ∙ view-revoke_family now r.family_id t)
    ∙ sym (elim (view_row_cases h t r found) [
      | inl (alive, token) ↦
          present-expired h now h' until (view t) r.family_id r.subject r.expires_at token
            (ground arith)
      | inr (dead, token) ↦ present-spent h now h' until (view t) r.family_id token
    ])

present-exchanged :
    (h : ℕ) (now : DateTime) (t : Table) (new old : Row)
    → IsSound t
    → select_active h now t ≡ some old
    → new.family_id ≡ old.family_id
    → new.subject ≡ old.subject
    → new.revoked_at ≡ none
    → (view (new ∷ mark_replaced now new.jti old.jti t), some old.subject)
      ≡ present h now new.hashed_token new.expires_at (view t)
unfolding select_active
present-exchanged h now t new old v active family subject alive =
    let found = active_known h now t old active v in
    let fresh = first_holds _ t active in
    let token : view t h ≡ live old.family_id old.subject old.expires_at =
      ground (arith, view_row_cases h t old found) in
    let left : view (new ∷ mark_replaced now new.jti old.jti t) ≡ (λ d.
      if d == new.hashed_token
      then live old.family_id old.subject new.expires_at
      else if d == h
      then spent old.family_id
      else view t d) =
      fun_ext λ d. ground (
        arith,
        view-cons new (mark_replaced now new.jti old.jti t) d,
        view-marked h now new old t v found d,
        ==_iff d new.hashed_token,
        ==_iff new.hashed_token d,
      ) in
    ap (λ w. (w, some old.subject)) left
    ∙ sym (
        present-live h now new.hashed_token new.expires_at (view t) old.family_id old.subject
          old.expires_at token (ground arith))

abbrev pub subject_of : Option RotationResult → Option Uuid
subject_of none = none
subject_of (some r) = some (as_uuid r.subject)

-- `rotate` implements `present`: on a table that keeps its rules, a call that answers with no error
-- leaves a table that means what `present` makes of the meaning of the old one, and answers with a
-- token exactly when `present` exchanges, for the same subject. The random bytes and the time that
-- a new token expires at are given.
pub rotate-Refines :
    (lib : Libraries) (io : Outcomes) (raw : Text) (now until : DateTime) (ttl : ℤ) (t u : Table)
    (bytes : List ℕ) (res : Option RotationResult)
    → IsSound t
    → lib.add_seconds now ttl ≡ some until
    → io.random_bytes ≡ some bytes
    → rotate lib io raw now ttl t ≡ (u, ok res)
    → (view u, subject_of res)
      ≡ present
          (hash_refresh_token lib raw)
          now
          (hash_refresh_token lib (lib.base64 bytes))
          until
          (view t)
rotate-Refines lib io raw now until ttl t u bytes none v later random e =
    let (gone, effect) = rotate-none lib io raw now ttl t u e in
    present-declined (hash_refresh_token lib raw) now (hash_refresh_token lib (lib.base64 bytes))
      until t u gone effect
rotate-Refines lib io raw now until ttl t u bytes (some r) v later random e =
    let done = rotate-IsRotated lib io raw now ttl t u r e in
    let left = successor lib io done.old r.new_raw_token now done.until in
    let same : until ≡ done.until = ground (arith, done.expires) in
    let token : lib.base64 bytes ≡ r.new_raw_token = ground (arith, done.drawn) in
    let answer : (view u, some (as_uuid r.subject))
        ≡ (view (left ∷ mark_replaced now io.new_v4 done.old.jti t), some done.old.subject) =
      ground (arith, done.table, done.owner) in
    answer
    ∙ present-exchanged (hash_refresh_token lib raw) now t left done.old v done.active refl refl
        refl
    ∙ rw (same, token) refl
