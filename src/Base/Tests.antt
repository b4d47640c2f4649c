-- ===== src/Base/Tests.antt =====
-- Boolean tests on the native numbers, the conditional, and splits that keep the equation.
use Prim.Native.Nat.{ℕ, compare, Ordering}
use mathlib.Core.Path.{◌≡◌, refl}
use mathlib.Core.Logic.{◌↔◌, ◌⊎◌, inl, inr}
use mathlib.Core.Bool.{Bool, true, false, not}
use mathlib.Core.Option.{Option, none, some}
use native.Mathlib.Omega.{arith}

abbrev pub ltb : ℕ → ℕ → Bool
ltb a b = elim (compare a b) [ Ordering.lt ↦ true | _ ↦ false ]

abbrev pub leb : ℕ → ℕ → Bool
leb a b = elim (compare a b) [ Ordering.gt ↦ false | _ ↦ true ]

infix 50 ◌==◌
abbrev pub ◌==◌ : ℕ → ℕ → Bool
a == b = elim (compare a b) [ Ordering.eq ↦ true | _ ↦ false ]

infix 1 if◌then◌else◌
abbrev pub if◌then◌else◌ {ℓ} : {A : Type ℓ} → Bool → A → A → A
if true then x else y = x
if false then x else y = y

pub ==_iff : (a b : ℕ) → ((a == b) ≡ true) ↔ (a ≡ b)
==_iff a b = ground arith

pub not_eq : (a b : ℕ) → (a ≡ b → ⊥) → (a == b) ≡ false
not_eq a b h = ground arith

pub Bool-cases : (b : Bool) → (b ≡ true) ⊎ (b ≡ false)
Bool-cases true = inl refl
Bool-cases false = inr refl

pub Option-cases {ℓ} : {A : Type ℓ} (o : Option A) → (o ≡ none) ⊎ ((a : A) × (o ≡ some a))
Option-cases none = inl refl
Option-cases (some a) = inr (a, refl)

-- A predicate of the first component holds on either branch of a test, each under its outcome or not.
pub if-keeps_when {ℓ κ} :
    {A B : Type ℓ} (P : A → Type κ) (b : Bool) (x y : A × B)
    → (b ≡ true → P x.0)
    → (b ≡ false → P y.0)
    → P (if b then x else y).0
if-keeps_when P true x y p q = p refl
if-keeps_when P false x y p q = q refl

pub if-keeps {ℓ κ} :
    {A B : Type ℓ} (P : A → Type κ) (b : Bool) (x y : A × B)
    → P x.0
    → P y.0
    → P (if b then x else y).0
if-keeps P b x y p q = if-keeps_when P b x y (λ _. p) (λ _. q)

pub option-keeps_when {ℓ κ μ} :
    {A : Type ℓ} {X : Type κ} (P : X → Type μ) (o : Option A) (x : X) (f : A → X)
    → (o ≡ none → P x)
    → ((a : A) → o ≡ some a → P (f a))
    → P (elim o as (λ _. X) [ none ↦ x | some a ↦ f a ])
option-keeps_when P none x f p q = p refl
option-keeps_when P (some a) x f p q = q a refl

pub option-keeps {ℓ κ μ} :
    {A : Type ℓ} {X : Type κ} (P : X → Type μ) (o : Option A) (x : X) (f : A → X)
    → P x
    → ((a : A) → P (f a))
    → P (elim o as (λ _. X) [ none ↦ x | some a ↦ f a ])
option-keeps P o x f p q = option-keeps_when P o x f (λ _. p) (λ a _. q a)

pub branch-keeps_when {ℓ κ} :
    {A : Type ℓ} (P : A → Type κ) (b : Bool) (x y : A)
    → (b ≡ true → P x)
    → (b ≡ false → P y)
    → P (if b then x else y)
branch-keeps_when P true x y p q = p refl
branch-keeps_when P false x y p q = q refl

pub branch-keeps {ℓ κ} :
    {A : Type ℓ} (P : A → Type κ) (b : Bool) (x y : A) → P x → P y → P (if b then x else y)
branch-keeps P b x y p q = branch-keeps_when P b x y (λ _. p) (λ _. q)

pub some_inj {ℓ} : {A : Type ℓ} {a b : A} → ◌≡◌ {A = Option A} (some a) (some b) → a ≡ b
some_inj h = cc

pub if_false {ℓ} : {A : Type ℓ} (b : Bool) (x y : A) → b ≡ true → (if not b then x else y) ≡ y
if_false true x y h = refl
if_false false x y h = absurd cc

pub if_true {ℓ} : {A : Type ℓ} (b : Bool) (x y : A) → b ≡ true → (if b then x else y) ≡ x
if_true true x y h = refl
if_true false x y h = absurd cc

pub if_not {ℓ} : {A : Type ℓ} (b : Bool) (x y : A) → b ≡ false → (if b then x else y) ≡ y
if_not true x y h = absurd cc
if_not false x y h = refl
