-- ===== src/Base/Results.antt =====
-- Go's (value, error) pair, with an error type of each component's own.
use mathlib.Core.Path.{◌≡◌, refl}
use mathlib.Core.Bool.{Bool, true, false}

pub data Result {ℓ} (E : Type 0) (A : Type ℓ) : Type ℓ where
  ok : A → Result E A
  err : E → Result E A

infixl 5 ◌>>=◌ ◌>>◌
abbrev pub ◌>>=◌ {ℓ κ} :
    {E : Type 0} {A : Type ℓ} {B : Type κ} → Result E A → (A → Result E B) → Result E B
ok a >>= f = f a
err e >>= f = err e

abbrev pub ◌>>◌ {ℓ} : {E : Type 0} {B : Type ℓ} → Result E (Unit {0}) → Result E B → Result E B
m >> k = m >>= λ _. k

-- `if !test { return err }`.
abbrev pub guard : {E : Type 0} → Bool → E → Result E (Unit {0})
guard true e = ok tt
guard false e = err e

-- Inversion of a successful bind.
pub >>=-eq-ok {ℓ κ} :
    {E : Type 0} {A : Type ℓ} {B : Type κ} (first : Result E A) (next : A → Result E B) {y : B}
    → (first >>= next) ≡ ok y
    → (x : A) × (first ≡ ok x) × (next x ≡ ok y)
>>=-eq-ok (ok x) next h = (x, refl, h)
>>=-eq-ok (err e) next h = absurd cc

pub guard-eq-ok : {E : Type 0} (b : Bool) (e : E) {x : Unit {0}} → guard b e ≡ ok x → b ≡ true
guard-eq-ok true e h = refl
guard-eq-ok false e h = cc

-- A guard that did not stop the computation after it.
pub guard_then {ℓ} :
    {E : Type 0} {B : Type ℓ} (b : Bool) (e : E) (rest : Result E B) {y : B}
    → (guard b e >> rest) ≡ ok y
    → (b ≡ true) × (rest ≡ ok y)
guard_then true e rest h = (refl, h)
guard_then false e rest h = absurd cc

-- A predicate holds in either case of a result, each under its equation or not.
pub result-keeps_when {ℓ κ μ} :
    {E : Type 0} {A : Type ℓ} {X : Type κ} (P : X → Type μ) (r : Result E A) (f : A → X) (g : E → X)
    → ((a : A) → r ≡ ok a → P (f a))
    → ((e : E) → r ≡ err e → P (g e))
    → P (elim r as (λ _. X) [ ok a ↦ f a | err e ↦ g e ])
result-keeps_when P (ok a) f g p q = p a refl
result-keeps_when P (err e) f g p q = q e refl

pub result-keeps {ℓ κ μ} :
    {E : Type 0} {A : Type ℓ} {X : Type κ} (P : X → Type μ) (r : Result E A) (f : A → X) (g : E → X)
    → ((a : A) → P (f a))
    → ((e : E) → P (g e))
    → P (elim r as (λ _. X) [ ok a ↦ f a | err e ↦ g e ])
result-keeps P r f g p q = result-keeps_when P r f g (λ a _. p a) (λ e _. q e)

pub guard-keeps {ℓ κ} :
    {E : Type 0} {B : Type ℓ} (P : Result E B → Type κ) (b : Bool) (e : E) (rest : Result E B)
    → P (err e)
    → (b ≡ true → P rest)
    → P (guard b e >> rest)
guard-keeps P true e rest p q = q refl
guard-keeps P false e rest p q = p

pub ok_inj {ℓ} : {E : Type 0} {A : Type ℓ} {a b : A} → ◌≡◌ {A = Result E A} (ok a) (ok b) → a ≡ b
ok_inj h = cc
