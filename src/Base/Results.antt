-- ===== src/Base/Results.antt =====
-- Rust's `Result<A, E>` and its `?`, as a monad.
use mathlib.Core.Path.{◌≡◌, refl}
use mathlib.Core.Logic.{◌⊎◌, inl, inr}
use mathlib.Core.Option.{Option, none, some}
use mathlib.Core.List.{List, [], ◌∷◌}

pub data Result {ℓ κ} (E : Type ℓ) (A : Type κ) : Type (ℓ ⊔ κ) where
  ok : A → Result E A
  err : E → Result E A

infixl 5 ◌>>=◌ ◌>>◌
unfoldable pub ◌>>=◌ {ℓ κ μ} :
    {E : Type ℓ} {A : Type κ} {B : Type μ} → Result E A → (A → Result E B) → Result E B
ok a >>= f = f a
err e >>= f = err e

abbrev pub ◌>>◌ {ℓ κ μ} :
    {E : Type ℓ} {A : Type κ} {B : Type μ} → Result E A → Result E B → Result E B
m >> k = m >>= λ _. k

-- `Result::map_err`.
abbrev pub map_err {ℓ κ μ} :
    {E : Type ℓ} {F : Type κ} {A : Type μ} → (E → F) → Result E A → Result F A
map_err f (ok a) = ok a
map_err f (err e) = err (f e)

-- `Option::ok_or_else`.
abbrev pub ok_or {ℓ κ} : {E : Type ℓ} {A : Type κ} → Option A → E → Result E A
ok_or none e = err e
ok_or (some a) e = ok a

-- `Option<Result>::transpose` after `map`.
abbrev pub traverse_option {ℓ κ μ} :
    {E : Type ℓ} {A : Type κ} {B : Type μ} → (A → Result E B) → Option A → Result E (Option B)
traverse_option f none = ok none
traverse_option f (some a) = f a >>= λ b. ok (some b)

-- `iter().map(f).collect::<Result<Vec<_>, _>>()`.
abbrev pub traverse_list {ℓ κ μ} :
    {E : Type ℓ} {A : Type κ} {B : Type μ} → (A → Result E B) → List A → Result E (List B)
traverse_list f [] = ok []
traverse_list f (a ∷ as') = f a >>= λ b. (traverse_list f as' >>= λ bs. ok (b ∷ bs))

pub Result-cases {ℓ κ} :
    {E : Type ℓ} {A : Type κ} (r : Result E A) → ((a : A) × (r ≡ ok a)) ⊎ ((e : E) × (r ≡ err e))
Result-cases (ok a) = inl (a, refl)
Result-cases (err e) = inr (e, refl)

pub map_err-eq-ok {ℓ κ μ} :
    {E : Type ℓ} {F : Type κ} {A : Type μ} (f : E → F) (r : Result E A) {a : A}
    → map_err f r ≡ ok a
    → r ≡ ok a
map_err-eq-ok f (ok b) h = cc
map_err-eq-ok f (err e) h = cc

-- A chain that succeeds has every part succeed.
pub bind-eq-ok {ℓ κ μ} :
    {E : Type ℓ} {A : Type κ} {B : Type μ} (m : Result E A) (f : A → Result E B) {b : B}
    → m >>= f ≡ ok b
    → (a : A) × (m ≡ ok a) × (f a ≡ ok b)
unfolding ◌>>=◌
bind-eq-ok (ok a) f h = (a, refl, h)
bind-eq-ok (err e) f h = cc

-- The same, for a goal that follows from the parts.
pub bind-ok-elim {ℓ κ μ ν} :
    {E : Type ℓ} {A : Type κ} {B : Type μ} {Q : Type ν} (m : Result E A) (f : A → Result E B)
    {b : B}
    → ((a : A) → m ≡ ok a → f a ≡ ok b → Q)
    → m >>= f ≡ ok b
    → Q
unfolding ◌>>=◌
bind-ok-elim (ok a) f h e = h a refl e
bind-ok-elim (err error) f h e = cc

pub ok_or-eq-ok {ℓ κ} :
    {E : Type ℓ} {A : Type κ} (o : Option A) (e : E) {a : A} → ok_or o e ≡ ok a → o ≡ some a
ok_or-eq-ok none e h = cc
ok_or-eq-ok (some b) e h = cc
