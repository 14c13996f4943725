-- ===== src/Auth/Tests.antt =====
-- Concrete runs of the code of gateway/src/auth, and the theorems about it at those runs.
use rust_web_fullstack.Prelude.{
  ℕ, ◌+◌, ◌*◌, true, false, Text, codes, Option, none, some, [], ◌∷◌, ok, ◌≡◌, refl, arith,
}
use rust_web_fullstack.Prelude.Int.{ℤ, pos}
use rust_web_fullstack.Domain.{DateTime, UserId, as_uuid, try_from}
use rust_web_fullstack.Auth.Store.{Row, Table, select_any, select_active, mark_replaced, insert}
use rust_web_fullstack.Auth.Store.Counts.{count, is_replaced}
use rust_web_fullstack.Auth.Refresh.{
  Libraries, RotationResult, Outcomes, committed, rotate, hash_refresh_token,
}
use rust_web_fullstack.Auth.Refresh.Renewal.{Goes, rotate_again}
use rust_web_fullstack.Auth.Refresh.Integrity.{IsSound}
use rust_web_fullstack.Auth.Refresh.View.{view, present}
use rust_web_fullstack.Auth.Refresh.View.Refines.{rotate-Refines}
use rust_web_fullstack.Auth.Refresh.Isolation.{others, rotate_confined}

abbrev pub digest : Text → ℕ
digest [] = 7
digest (c ∷ s) = c + 256 * digest s

abbrev pub add_seconds : DateTime → ℤ → Option DateTime
add_seconds (pos t) (pos n) = some (pos (t + n * 1_000_000))
add_seconds t n = none

abbrev pub lib : Libraries
lib = record { sha256 = digest; base64 = λ bytes. bytes; add_seconds = add_seconds }

abbrev pub raw : Text
raw = codes "token"

abbrev pub row : Row
row = record {
  jti = 1;
  family_id = 1;
  subject = 9;
  hashed_token = digest raw;
  expires_at = pos 1_000;
  revoked_at = none;
  replaced_by = none;
  created_at = pos 0;
}

abbrev pub table : Table
table = row ∷ []

pub single-IsSound : (r : Row) → r.family_id ≡ r.jti → is_replaced r ≡ false → IsSound (r ∷ [])
unfolding count
single-IsSound r e dead = record {
  jtis = λ j. ground arith;
  digests = λ h. ground arith;
  one_live = λ f. ground arith;
  rooted = λ f none_there. ground (arith, none_there, e);
  replaced_dead = ground (arith, dead);
}

pub table-IsSound : IsSound table
table-IsSound = single-IsSound row refl refl

abbrev pub outcomes : Outcomes
outcomes = record {
  begins = true;
  reads = true;
  reads_any = true;
  revokes = true;
  random_bytes = some (1 ∷ 2 ∷ []);
  new_v4 = 2;
  marks = true;
  inserts = true;
  commits = committed;
}

abbrev pub user : UserId
user = record { uuid = 9 }

abbrev result : RotationResult
result = record { new_raw_token = 1 ∷ 2 ∷ []; subject = user }

abbrev rotated_table : Table
rotated_table =
    record {
      jti = 2;
      family_id = 1;
      subject = 9;
      hashed_token = digest (1 ∷ 2 ∷ []);
      expires_at = pos 60_000_010;
      revoked_at = none;
      replaced_by = none;
      created_at = pos 10;
    }
    ∷ record row { revoked_at = some (pos 10); replaced_by = some 2 }
    ∷ []

rotates : rotate lib outcomes raw (pos 10) (pos 60) table ≡ (rotated_table, ok (some result))
unfolding rotate select_active try_from insert mark_replaced as_uuid
rotates = refl

abbrev spent : Row
spent = record row { revoked_at = some (pos 10); replaced_by = some 2 }

rotate_confined_example :
    others 1 (rotate lib outcomes raw (pos 10) (pos 60) table).0 ≡ others 1 table
unfolding select_any hash_refresh_token
rotate_confined_example =
    rotate_confined lib outcomes raw (pos 10) (pos 60) table row table-IsSound refl

abbrev later_outcomes : Outcomes
later_outcomes = record outcomes { random_bytes = some (5 ∷ []); new_v4 = 3 }

goes_again : Goes lib later_outcomes (pos 20) (pos 60) rotated_table
unfolding hash_refresh_token
goes_again = record {
  positive = refl;
  until = pos 60_000_020;
  later = refl;
  carried_out = (refl, refl, refl, refl, refl);
  bytes = 5 ∷ [];
  random = refl;
  unused = refl;
}

rotate_again_example :
    (res : RotationResult) × ((rotate lib later_outcomes
        (1 ∷ 2 ∷ [])
        (pos 20)
        (pos 60)
        rotated_table).1
      ≡ ok (some res))
    × (as_uuid res.subject ≡ as_uuid user)
rotate_again_example =
    rotate_again lib outcomes later_outcomes raw (pos 10) (pos 20) (pos 60_000_010) (pos 60)
      (pos 60) table rotated_table result rotates refl refl goes_again

rotate-Refines_example :
    (view rotated_table, some 9)
    ≡ present
        (hash_refresh_token lib raw)
        (pos 10)
        (hash_refresh_token lib (1 ∷ 2 ∷ []))
        (pos 60_000_010)
        (view table)
unfolding as_uuid
rotate-Refines_example =
    rotate-Refines lib outcomes raw (pos 10) (pos 60_000_010) (pos 60) table rotated_table
      (1 ∷ 2 ∷ []) (some result) table-IsSound refl refl rotates
