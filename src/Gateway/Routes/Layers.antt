-- ===== src/Gateway/Routes/Layers.antt =====
-- What axum documents of its router, and how a condition on the routes passes through its
-- operations.
use rust_web_fullstack.Prelude.{
  Bool, true, false, ◌&&◌, Text, text_eq, text_eq_iff, Option, none, some, List, ◌∷◌, if◌then◌else◌,
  ◌≡◌, refl, arith, subst, sym, ◌∙◌, inl, inr, Bool-cases, Option-cases,
}
use rust_web_fullstack.Gateway.Routes.{Method, get, post, Handler, Layer, RouterApi}

abbrev pub Found : Type 0
Found = Option (Handler × List Layer)

abbrev pub same_method : Method → Method → Bool
same_method get get = true
same_method post post = true
same_method m n = false

abbrev pub behind : Layer → Found → Found
behind l none = none
behind l (some (h, ls)) = some (h, l ∷ ls)

abbrev pub or_found : Found → Found → Found
or_found none f = f
or_found (some x) f = some x

module _ {R : Type 0} (api : RouterApi R) where
  -- What axum documents: a route answers its own method and path, a merged router answers what the
  -- first does not, and a layer stands before every route that was added before it.
  pub record IsRouter : Type 0 where
    pub finds_new : (m : Method) (p : Text) → api.finds api.new m p ≡ none
    pub finds_route :
        (q : Text) (n : Method) (h : Handler) (ls : List Layer) (r : R) (m : Method) (p : Text)
        → api.finds (api.route q n h ls r) m p
          ≡ (if same_method n m && text_eq q p then some (h, ls) else api.finds r m p)
    pub finds_merge :
        (a b : R) (m : Method) (p : Text)
        → api.finds (api.merge a b) m p ≡ or_found (api.finds a m p) (api.finds b m p)
    pub finds_layer :
        (l : Layer) (r : R) (m : Method) (p : Text)
        → api.finds (api.layer l r) m p ≡ behind l (api.finds r m p)
    pub finds_route_layer :
        (l : Layer) (r : R) (m : Method) (p : Text)
        → api.finds (api.route_layer l r) m p ≡ behind l (api.finds r m p)

-- A condition on what a router finds.
abbrev pub Condition : Type 1
Condition = Method → Text → Handler → List Layer → Type 0

same_method_eq : (n m : Method) → same_method n m ≡ true → n ≡ m
same_method_eq get get e = refl
same_method_eq get post e = ground arith
same_method_eq post get e = ground arith
same_method_eq post post e = refl

module _ {R : Type 0} (api : RouterApi R) (v : IsRouter api) where
  unfoldable pub Holds : Condition → R → Type 0
  Holds P r =
      (m : Method) (p : Text) (h : Handler) (ls : List Layer)
      → api.finds r m p ≡ some (h, ls)
      → P m p h ls

  pub new-Holds : (P : Condition) → Holds P api.new
  unfolding Holds
  new-Holds P m p h ls e = ground (arith, v.finds_new m p)

  same_key :
      (n m : Method) (q p : Text) → (same_method n m && text_eq q p) ≡ true → (n ≡ m) × (q ≡ p)
  same_key n m q p e = (same_method_eq n m (ground arith), (text_eq_iff q p).0 (ground arith))

  pair_eq : {x y : Handler × List Layer} {f : Found} → f ≡ some x → f ≡ some y → x ≡ y
  pair_eq e g = ground arith

  pub route-Holds :
      (P : Condition) (q : Text) (n : Method) (h : Handler) (ls : List Layer) (r : R)
      → P n q h ls
      → Holds P r
      → Holds P (api.route q n h ls r)
  unfolding Holds
  route-Holds P q n h ls r here there m p h' ls' e =
      elim (Bool-cases (same_method n m && text_eq q p)) [
        | inl same ↦
            let (n', q') = same_key n m q p same in
            subst (λ k. P k p h' ls') n'
              (subst (λ k. P n k h' ls') q'
                (subst (λ x. P n q x.0 x.1)
                  (pair_eq {x = (h, ls)} {y = (h', ls')}
                    (ground (arith, v.finds_route q n h ls r m p)) e)
                  here))
        | inr other ↦ there m p h' ls' (ground (arith, v.finds_route q n h ls r m p))
      ]

  pub merge-Holds : (P : Condition) (a b : R) → Holds P a → Holds P b → Holds P (api.merge a b)
  unfolding Holds
  merge-Holds P a b left right m p h ls e = elim (Option-cases (api.finds a m p)) [
    | inl missing ↦ right m p h ls (ground (arith, v.finds_merge a b m p))
    | inr (x, found) ↦ left m p h ls (ground (arith, v.finds_merge a b m p))
  ]

  behind-some :
      (l : Layer) (f : Found) {h : Handler} {ls : List Layer}
      → behind l f ≡ some (h, ls)
      → (inner : List Layer) × (f ≡ some (h, inner)) × (ls ≡ l ∷ inner)
  behind-some l none e = ground arith
  behind-some l (some (h, inner)) e = (inner, ground arith, ground arith)

  pub layer-Holds :
      (P : Condition) (l : Layer) (r : R)
      → Holds (λ m p h ls. P m p h (l ∷ ls)) r
      → Holds P (api.layer l r)
  unfolding Holds
  layer-Holds P l r inside m p h ls e =
      let (inner, found, whole) =
        behind-some l (api.finds r m p) (sym (v.finds_layer l r m p) ∙ e) in
      subst (P m p h) (sym whole) (inside m p h inner found)

  pub route_layer-Holds :
      (P : Condition) (l : Layer) (r : R)
      → Holds (λ m p h ls. P m p h (l ∷ ls)) r
      → Holds P (api.route_layer l r)
  unfolding Holds
  route_layer-Holds P l r inside m p h ls e =
      let (inner, found, whole) =
        behind-some l (api.finds r m p) (sym (v.finds_route_layer l r m p) ∙ e) in
      subst (P m p h) (sym whole) (inside m p h inner found)
