-- ===== src/Prelude/Results.antt =====
-- `Result<T, E>`, with `?` as a bind, and the same bind for `Option`.
use mathlib.Core.Path.{◌≡◌, refl}
use mathlib.Core.Bool.{Bool, true, false}
use mathlib.Core.Option.{Option, none, some}
use mathlib.Core.Logic.{◌⊎◌, inl, inr}

pub data Result {ℓ κ} (A : Type ℓ) (E : Type κ) : Type (ℓ ⊔ κ) where
  ok : A → Result A E
  err : E → Result A E

infixl 5 ◌>>=◌ ◌>>◌
abbrev pub ◌>>=◌ {ℓ κ μ} :
    {A : Type ℓ} {B : Type κ} {E : Type μ} → Result A E → (A → Result B E) → Result B E
ok a >>= f = f a
err e >>= f = err e

abbrev pub ◌>>◌ {κ μ} : {B : Type κ} {E : Type μ} → Result (Unit {0}) E → Result B E → Result B E
m >> k = m >>= λ _. k

-- `Result::map_err` and `Option::ok_or`.
abbrev pub map_err {ℓ κ μ} :
    {A : Type ℓ} {E : Type κ} {F : Type μ} → (E → F) → Result A E → Result A F
map_err f (ok a) = ok a
map_err f (err e) = err (f e)

abbrev pub ok_or {ℓ κ} : {A : Type ℓ} {E : Type κ} → E → Option A → Result A E
ok_or e none = err e
ok_or e (some a) = ok a

-- `if test { return Err(e) }`.
abbrev pub refuse_if {κ} : {E : Type κ} → Bool → E → Result (Unit {0}) E
refuse_if true e = err e
refuse_if false e = ok tt

abbrev pub bind_option {ℓ κ} : {A : Type ℓ} {B : Type κ} → Option A → (A → Option B) → Option B
bind_option none f = none
bind_option (some a) f = f a

pub Result-cases {ℓ κ} :
    {A : Type ℓ} {E : Type κ} (r : Result A E) → ((a : A) × (r ≡ ok a)) ⊎ ((e : E) × (r ≡ err e))
Result-cases (ok a) = inl (a, refl)
Result-cases (err e) = inr (e, refl)

-- Why a function gave no value: it returned an error, or code that it calls panicked.
pub data Stop {ℓ} (E : Type ℓ) : Type ℓ where
  failed : E → Stop E
  panicked : Stop E

-- The caller's `map_err`: a panic passes through.
abbrev pub stop_as {ℓ κ} : {E : Type ℓ} {F : Type κ} → (E → F) → Stop E → Stop F
stop_as f (failed e) = failed (f e)
stop_as f panicked = panicked

module _ {ℓ κ μ} {A : Type ℓ} {B : Type κ} {E : Type μ} (k : A → Result B E) where
  -- Where a chain gave a value, so did its first link.
  pub bind-ok :
      (r : Result A E) {value : B} → r >>= k ≡ ok value → (x : A) × (k x ≡ ok value) × (r ≡ ok x)
  bind-ok (err e) given = cc
  bind-ok (ok x) given = (x, given, refl)

-- What the links of a chain say of their arguments, where they gave a value.
pub ok-injective {ℓ κ} :
    {A : Type ℓ} {E : Type κ} {r : Result A E} {a b : A} → r ≡ ok a → r ≡ ok b → a ≡ b
ok-injective e f = cc

pub ok_or-ok {ℓ κ} :
    {A : Type ℓ} {E : Type κ} (e : E) (o : Option A) {a : A} → ok_or e o ≡ ok a → o ≡ some a
ok_or-ok e none h = cc
ok_or-ok e (some a) h = cc

pub map_err-ok {ℓ κ μ} :
    {A : Type ℓ} {E : Type κ} {F : Type μ} (f : E → F) (r : Result A E) {a : A}
    → map_err f r ≡ ok a
    → r ≡ ok a
map_err-ok f (ok a) h = cc
map_err-ok f (err e) h = cc

pub refuse_if-ok {κ} :
    {E : Type κ} (b : Bool) (e : E) {u : Unit {0}} → refuse_if b e ≡ ok u → b ≡ false
refuse_if-ok true e h = cc
refuse_if-ok false e h = refl
