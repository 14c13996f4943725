-- ===== src/Settings/Load/Accepts.antt =====
-- Which environments give settings: gateway/src/settings.rs, `Settings::load`.
use rust_web_fullstack.Prelude.{
  subst, ok-injective, ok_or-ok, map_err-ok, refuse_if-ok, not, bind-ok, ok_or, refuse_if, map_err,
  true, false, Text, codes, is_empty, Option, some, ok, ◌≡◌, ◌↔◌, refl, arith,
}
use rust_web_fullstack.Prelude.Int.{pos}
use rust_web_fullstack.Domain.{Uuid, UserId, from_str}
use rust_web_fullstack.Settings.{Settings, default_session_settings}
use rust_web_fullstack.Settings.Load.{
  KeyLibrary, Vars, unwrap_or, starts_with, lacks_pem, default_admin_user_id, default_origins, load,
}

module _ (keys : KeyLibrary) (parse_uuid : Text → Option Uuid) where
  -- What the variables must hold, and what the settings take of them.
  pub record IsLoaded (var : Vars) (s : Settings) : Type 0 where
    pub private : var "JWT_PRIVATE_KEY_PEM" ≡ some s.jwt_private_key_pem
    pub public : var "JWT_PUBLIC_KEY_PEM" ≡ some s.jwt_public_key_pem
    pub password : var "ADMIN_PASSWORD" ≡ some s.default_admin_password
    pub private_pem : starts_with (codes "-----BEGIN ") s.jwt_private_key_pem ≡ true
    pub public_pem : starts_with (codes "-----BEGIN ") s.jwt_public_key_pem ≡ true
    pub password_given : is_empty s.default_admin_password ≡ false
    pub private_key : keys.from_ed_private s.jwt_private_key_pem ≡ true
    pub public_key : keys.from_ed_public s.jwt_public_key_pem ≡ true
    pub admin :
        from_str parse_uuid (unwrap_or (var "ADMIN_USER_ID") default_admin_user_id)
        ≡ ok s.admin_user_id
    pub ttl : s.access_token_ttl_secs ≡ pos 900
    pub origins : s.allowed_origins ≡ codes default_origins
    pub buffer : s.sse_broadcast_buffer ≡ 256
    pub secure : s.session.cookie_secure ≡ true
    pub cookie : s.session.cookie_name ≡ unwrap_or (var "SESSION_COOKIE_NAME") "rwf_session"
    pub csrf : s.session.csrf_cookie_name ≡ unwrap_or (var "CSRF_COOKIE_NAME") "rwf_csrf"

  -- The settings that `load` makes of what it read.
  abbrev loaded : Vars → Text → Text → Text → UserId → Settings
  loaded var private public password admin = record {
    jwt_private_key_pem = private;
    jwt_public_key_pem = public;
    access_token_ttl_secs = pos 900;
    admin_user_id = admin;
    default_admin_password = password;
    allowed_origins = codes default_origins;
    sse_broadcast_buffer = 256;
    session = record {
      cookie_secure = true;
      cookie_name = unwrap_or (var "SESSION_COOKIE_NAME") "rwf_session";
      csrf_cookie_name = unwrap_or (var "CSRF_COOKIE_NAME") "rwf_csrf";
    };
  }

  collect :
      (var : Vars) (private public password : Text) (admin : UserId)
      → var "JWT_PRIVATE_KEY_PEM" ≡ some private
      → var "JWT_PUBLIC_KEY_PEM" ≡ some public
      → var "ADMIN_PASSWORD" ≡ some password
      → lacks_pem private ≡ false
      → lacks_pem public ≡ false
      → is_empty password ≡ false
      → not (keys.from_ed_private private) ≡ false
      → not (keys.from_ed_public public) ≡ false
      → from_str parse_uuid (unwrap_or (var "ADMIN_USER_ID") default_admin_user_id) ≡ ok admin
      → IsLoaded var (loaded var private public password admin)
  collect var private public password admin set1 set2 set3 pem1 pem2 given key1 key2 id = record {
    private = set1;
    public = set2;
    password = set3;
    private_pem = ground arith;
    public_pem = ground arith;
    password_given = given;
    private_key = ground arith;
    public_key = ground arith;
    admin = id;
    ttl = refl;
    origins = refl;
    buffer = refl;
    secure = refl;
    cookie = refl;
    csrf = refl;
  }

  load_sound : (var : Vars) (s : Settings) → load keys parse_uuid var ≡ ok s → IsLoaded var s
  unfolding load default_session_settings
  load_sound var s e =
      let (private, e1, set1) = bind-ok _ (ok_or _ (var "JWT_PRIVATE_KEY_PEM")) e in
      let (public, e2, set2) = bind-ok _ (ok_or _ (var "JWT_PUBLIC_KEY_PEM")) e1 in
      let (password, e3, set3) = bind-ok _ (ok_or _ (var "ADMIN_PASSWORD")) e2 in
      let (_, e4, pem1) = bind-ok _ (refuse_if (lacks_pem private) _) e3 in
      let (_, e5, pem2) = bind-ok _ (refuse_if (lacks_pem public) _) e4 in
      let (_, e6, given) = bind-ok _ (refuse_if (is_empty password) _) e5 in
      let (_, e7, key1) = bind-ok _ (refuse_if (not (keys.from_ed_private private)) _) e6 in
      let (_, e8, key2) = bind-ok _ (refuse_if (not (keys.from_ed_public public)) _) e7 in
      let (admin, e9, id) =
        bind-ok _
          (map_err _ (from_str parse_uuid (unwrap_or (var "ADMIN_USER_ID") default_admin_user_id)))
          e8 in
      subst (IsLoaded var) (ok-injective refl e9) (
        collect var private public password admin (ok_or-ok _ _ set1) (ok_or-ok _ _ set2)
          (ok_or-ok _ _ set3) (refuse_if-ok _ _ pem1) (refuse_if-ok _ _ pem2)
          (refuse_if-ok _ _ given) (refuse_if-ok _ _ key1) (refuse_if-ok _ _ key2)
          (map_err-ok _ _ id))

  -- `load` answers with settings exactly when both keys are PEM texts that parse, the password is
  -- set and not empty, the administrator's identifier, or the built-in one where the variable is
  -- not set, is a user id, and the settings are those of the variables and the defaults; their
  -- session cookie is always secure.
  pub load_iff : (var : Vars) (s : Settings) → (load keys parse_uuid var ≡ ok s) ↔ IsLoaded var s
  unfolding load default_session_settings
  load_iff var s = ((load_sound var s), λ v. ground arith)
