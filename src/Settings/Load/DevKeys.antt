-- ===== src/Settings/Load/DevKeys.antt =====
-- How the keys for development relate to those of a deployment: gateway/src/settings.rs.
use rust_web_fullstack.Prelude.{
  not, bind-ok, ok-injective, ok_or-ok, map_err-ok, refuse_if-ok, ok_or, refuse_if, map_err, ℕ,
  Bool, true, false, Text, codes, is_empty, Option, none, some, List, ok, ◌≡◌, refl, arith, subst,
}
use rust_web_fullstack.Prelude.Int.{pos}
use rust_web_fullstack.Domain.{Uuid, UserId, from_str}
use rust_web_fullstack.Settings.{Settings, default_session_settings}
use rust_web_fullstack.Gateway.Pem.{ed25519_spki_der, pem_encode, begin_line}
use rust_web_fullstack.Settings.Load.{
  KeyLibrary, KeyPair, Vars, starts_with, default_admin_user_id, default_origins, load,
  load_dev_keys, with_dev_keys,
}
use rust_web_fullstack.Settings.Load.Accepts.{IsLoaded, load_iff}

module _ (keys : KeyLibrary) (parse_uuid : Text → Option Uuid) where
  -- The two PEM texts of a key pair.
  abbrev pub private_pem : List ℕ → Text
  private_pem doc = pem_encode keys.base64_encode (codes "PRIVATE KEY") doc

  abbrev pub public_pem : List ℕ → Text
  public_pem key = pem_encode keys.base64_encode (codes "PUBLIC KEY") (ed25519_spki_der key)

  -- The settings that the texts of two keys give.
  abbrev dev_settings : Text → Text → Text → UserId → Settings
  dev_settings private public password admin = record {
    jwt_private_key_pem = private;
    jwt_public_key_pem = public;
    access_token_ttl_secs = pos 900;
    admin_user_id = admin;
    default_admin_password = password;
    allowed_origins = codes default_origins;
    sse_broadcast_buffer = 256;
    session = record default_session_settings { cookie_secure = false };
  }

  record IsParsed (private public password : Text) (s : Settings) : Type 0 where
    admin : UserId
    private_key : keys.from_ed_private private ≡ true
    public_key : keys.from_ed_public public ≡ true
    built_in : from_str parse_uuid (codes default_admin_user_id) ≡ ok admin
    made : dev_settings private public password admin ≡ s

  not-false : (b : Bool) → not b ≡ false → b ≡ true
  not-false b e = ground arith

  with_dev_keys-IsParsed :
      (private public password : Text) (s : Settings)
      → with_dev_keys keys parse_uuid private public password ≡ ok s
      → IsParsed private public password s
  unfolding with_dev_keys
  with_dev_keys-IsParsed private public password s e =
      let (_, e1, key1) = bind-ok _ (refuse_if (not (keys.from_ed_private private)) _) e in
      let (_, e2, key2) = bind-ok _ (refuse_if (not (keys.from_ed_public public)) _) e1 in
      let (admin, e3, id) =
        bind-ok _ (map_err _ (from_str parse_uuid (codes default_admin_user_id))) e2 in
      record {
        admin = admin;
        private_key = not-false _ (refuse_if-ok _ _ key1);
        public_key = not-false _ (refuse_if-ok _ _ key2);
        built_in = map_err-ok _ _ id;
        made = ok-injective refl e3;
      }

  record IsDev (generated : Option KeyPair) (password : Text) (s : Settings) : Type 0 where
    pair : KeyPair
    doc : List ℕ
    drawn : generated ≡ some pair
    encoded : pair.to_pkcs8v1 ≡ some doc
    given : is_empty password ≡ false
    parsed : IsParsed (private_pem doc) (public_pem pair.public_key) password s

  load_dev_keys-IsDev :
      (generated : Option KeyPair) (password : Text) (s : Settings)
      → load_dev_keys keys parse_uuid generated password ≡ ok s
      → IsDev generated password s
  unfolding load_dev_keys
  load_dev_keys-IsDev generated password s e =
      let (_, e1, given) = bind-ok _ (refuse_if (is_empty password) _) e in
      let (pair, e2, drawn) = bind-ok _ (ok_or _ generated) e1 in
      let (doc, e3, encoded) = bind-ok _ (ok_or _ pair.to_pkcs8v1) e2 in
      record {
        pair = pair;
        doc = doc;
        drawn = ok_or-ok _ _ drawn;
        encoded = ok_or-ok _ _ encoded;
        given = refuse_if-ok _ _ given;
        parsed =
            with_dev_keys-IsParsed (private_pem doc) (public_pem pair.public_key) password s e3;
      }

  -- The variables of a deployment that name the keys and the password of some settings, and leave
  -- the rest at the defaults.
  pub record IsDeployed (var : Vars) (s : Settings) : Type 0 where
    pub private : var "JWT_PRIVATE_KEY_PEM" ≡ some s.jwt_private_key_pem
    pub public : var "JWT_PUBLIC_KEY_PEM" ≡ some s.jwt_public_key_pem
    pub password : var "ADMIN_PASSWORD" ≡ some s.default_admin_password
    pub admin : var "ADMIN_USER_ID" ≡ none
    pub cookie : var "SESSION_COOKIE_NAME" ≡ none
    pub csrf : var "CSRF_COOKIE_NAME" ≡ none

  private_pem-begins : (doc : List ℕ) → starts_with (codes "-----BEGIN ") (private_pem doc) ≡ true
  unfolding pem_encode begin_line
  private_pem-begins doc = refl

  public_pem-begins : (key : List ℕ) → starts_with (codes "-----BEGIN ") (public_pem key) ≡ true
  unfolding pem_encode begin_line
  public_pem-begins key = refl

  deployed-IsLoaded :
      (var : Vars) (doc key : List ℕ) (password : Text) (admin : UserId)
      → is_empty password ≡ false
      → keys.from_ed_private (private_pem doc) ≡ true
      → keys.from_ed_public (public_pem key) ≡ true
      → from_str parse_uuid (codes default_admin_user_id) ≡ ok admin
      → IsDeployed var (dev_settings (private_pem doc) (public_pem key) password admin)
      → IsLoaded keys parse_uuid var
          (record (dev_settings (private_pem doc) (public_pem key) password admin) {
            session = default_session_settings;
          })
  unfolding default_session_settings
  deployed-IsLoaded var doc key password admin given key1 key2 id v = record {
    private = v.private;
    public = v.public;
    password = v.password;
    private_pem = private_pem-begins doc;
    public_pem = public_pem-begins key;
    password_given = given;
    private_key = key1;
    public_key = key2;
    admin = rw v.admin id;
    ttl = refl;
    origins = refl;
    buffer = refl;
    secure = refl;
    cookie = rw v.cookie refl;
    csrf = rw v.csrf refl;
  }

  -- The settings that `load_dev_keys` gives can be deployed: where the variables hold their keys
  -- and password and the other ones are not set, `load` answers with the same settings but for the
  -- session cookie, which is secure.
  pub load-load_dev_keys :
      (generated : Option KeyPair) (password : Text) (s : Settings) (var : Vars)
      → load_dev_keys keys parse_uuid generated password ≡ ok s
      → IsDeployed var s
      → load keys parse_uuid var ≡ ok (record s { session = default_session_settings })
  load-load_dev_keys generated password s var e v =
      let dev = load_dev_keys-IsDev generated password s e in
      let parsed = dev.parsed in
      (load_iff keys parse_uuid var (record s { session = default_session_settings })).1 (
        subst
          (λ x.
            IsDeployed var x
            → IsLoaded keys parse_uuid var (record x { session = default_session_settings }))
          parsed.made
          (deployed-IsLoaded var dev.doc dev.pair.public_key password parsed.admin dev.given
            parsed.private_key parsed.public_key parsed.built_in)
          v)
