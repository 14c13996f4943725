-- ===== src/Auth/Session.antt =====
-- The session that a handler is given. tower-sessions is not the program's: its operations are the
-- fields of `SessionApi`, over any type of session state, store included. Those that can fail say
-- whether they succeeded, beside the state that they leave.
use rust_web_fullstack.Prelude.{Bool, Text, Option, Result}

pub record SessionApi (S : Type 0) : Type 0 where
  -- `session.id().is_some()`
  pub has_id : S → Bool
  pub cycle_id : S → S × Bool
  -- `insert(SESSION_USER_KEY, SessionUser { user_id })`
  pub insert_user : Text → S → S × Bool
  -- `get::<SessionUser>(SESSION_USER_KEY)`; an error of the store is `err`.
  pub get_user : S → S × Result (Option Text) (Unit {0})
  pub save : S → S × Bool
  pub clear : S → S
  pub flush : S → S × Bool
