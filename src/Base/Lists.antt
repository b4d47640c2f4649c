-- ===== src/Base/Lists.antt =====
-- Lists measured by native numbers, under the library's names, and predicates by recursion.
use Prim.Native.Nat.{ℕ, zero, suc, ◌+◌, ◌-◌, ◌≤◌, ◌<◌, min}
use mathlib.Core.Path.{◌≡◌, refl, ap, ◌∙◌}
use mathlib.Core.Logic.{◌⊎◌, inl, inr}
use mathlib.Core.List.{List, [], ◌∷◌, ◌++◌}
use mathlib.Core.Option.{Option, none, some}
use native.Mathlib.Omega.{arith}

module _ {ℓ} {A : Type ℓ} where
  abbrev pub length : List A → ℕ
  length [] = 0
  length (x ∷ xs) = suc (length xs)

  abbrev pub get_elem? : List A → ℕ → Option A
  get_elem? [] i = none
  get_elem? (x ∷ xs) zero = some x
  get_elem? (x ∷ xs) (suc i) = get_elem? xs i

  -- A write out of bounds changes nothing.
  abbrev pub set : List A → ℕ → A → List A
  set [] i v = []
  set (x ∷ xs) zero v = v ∷ xs
  set (x ∷ xs) (suc i) v = x ∷ set xs i v

  abbrev pub take : ℕ → List A → List A
  take zero xs = []
  take (suc n) [] = []
  take (suc n) (x ∷ xs) = x ∷ take n xs

  abbrev pub drop : ℕ → List A → List A
  drop zero xs = xs
  drop (suc n) [] = []
  drop (suc n) (x ∷ xs) = drop n xs

  abbrev pub replicate : ℕ → A → List A
  replicate zero a = []
  replicate (suc n) a = a ∷ replicate n a

  abbrev pub All {κ} : (A → Type κ) → List A → Type κ
  All P [] = Unit {κ}
  All P (x ∷ xs) = P x × All P xs

-- An element at an index that the code has checked; out of range, where Go panics, it is zero.
abbrev pub elem_at : List ℕ → ℕ → ℕ
elem_at [] i = 0
elem_at (x ∷ xs) zero = x
elem_at (x ∷ xs) (suc i) = elem_at xs i

-- `a` stands in the list.
abbrev pub In : {A : Type 0} → A → List A → Type 0
In a [] = ⊥
In a (x ∷ xs) = (a ≡ x) ⊎ In a xs

module _ {ℓ} {A : Type ℓ} where
  pub length-append : (xs ys : List A) → length (xs ++ ys) ≡ length xs + length ys
  length-append [] ys = omega arith
  length-append (x ∷ xs) ys = omega (arith, length-append xs ys)

  pub take-append-drop : (n : ℕ) (xs : List A) → take n xs ++ drop n xs ≡ xs
  take-append-drop zero xs = refl
  take-append-drop (suc n) [] = refl
  take-append-drop (suc n) (x ∷ xs) = rw (take-append-drop n xs)

  pub length-take : (n : ℕ) (xs : List A) → length (take n xs) ≡ min n (length xs)
  length-take zero xs = omega arith
  length-take (suc n) [] = omega arith
  length-take (suc n) (x ∷ xs) = omega (arith, length-take n xs)

  pub length-drop : (n : ℕ) (xs : List A) → length (drop n xs) ≡ length xs - n
  length-drop zero xs = omega arith
  length-drop (suc n) [] = omega arith
  length-drop (suc n) (x ∷ xs) = omega (arith, length-drop n xs)

  pub take-append_length : (n : ℕ) (xs ys : List A) → length xs ≡ n → take n (xs ++ ys) ≡ xs
  take-append_length zero [] ys h = refl
  take-append_length (suc n) [] ys h = absurd (omega arith)
  take-append_length zero (x ∷ xs) ys h = absurd (omega arith)
  take-append_length (suc n) (x ∷ xs) ys h = ap (◌∷◌ x) (take-append_length n xs ys (omega arith))

  pub drop-append_length : (n : ℕ) (xs ys : List A) → length xs ≡ n → drop n (xs ++ ys) ≡ ys
  drop-append_length zero [] ys h = refl
  drop-append_length (suc n) [] ys h = absurd (omega arith)
  drop-append_length zero (x ∷ xs) ys h = absurd (omega arith)
  drop-append_length (suc n) (x ∷ xs) ys h = drop-append_length n xs ys (omega arith)

  pub All-append {κ} : (P : A → Type κ) (xs ys : List A) → All P xs → All P ys → All P (xs ++ ys)
  All-append P [] ys hx hy = hy
  All-append P (x ∷ xs) ys hx hy = (hx.0, All-append P xs ys hx.1 hy)

  pub All-take {κ} : (P : A → Type κ) (n : ℕ) (xs : List A) → All P xs → All P (take n xs)
  All-take P zero xs h = tt
  All-take P (suc n) [] h = tt
  All-take P (suc n) (x ∷ xs) h = (h.0, All-take P n xs h.1)

  pub All-drop {κ} : (P : A → Type κ) (n : ℕ) (xs : List A) → All P xs → All P (drop n xs)
  All-drop P zero xs h = h
  All-drop P (suc n) [] h = tt
  All-drop P (suc n) (x ∷ xs) h = All-drop P n xs h.1

module _ {ℓ} {A : Type ℓ} where
  -- One element of a list, and the others.
  pub All-middle {κ} :
      (P : A → Type κ) (x : A) (xs ys : List A) → All P (xs ++ (x ∷ ys)) → P x × All P (xs ++ ys)
  All-middle P x [] ys h = h
  All-middle P x (y ∷ xs) ys h = let (hx, rest) = All-middle P x xs ys h.1 in (hx, (h.0, rest))

pub take_all {ℓ} : {A : Type ℓ} (n : ℕ) (xs : List A) → length xs ≤ n → take n xs ≡ xs
take_all zero [] h = refl
take_all zero (x ∷ xs) h = absurd (omega arith)
take_all (suc n) [] h = refl
take_all (suc n) (x ∷ xs) h = ap (λ ys. x ∷ ys) (take_all n xs (omega arith))

pub take-append_more {ℓ} :
    {A : Type ℓ} (n : ℕ) (xs ys : List A) → n ≤ length xs → take n (xs ++ ys) ≡ take n xs
take-append_more zero xs ys h = refl
take-append_more (suc n) [] ys h = absurd (omega arith)
take-append_more (suc n) (x ∷ xs) ys h = ap (λ zs. x ∷ zs) (take-append_more n xs ys (omega arith))

pub drop-append_more {ℓ} :
    {A : Type ℓ} (n : ℕ) (xs ys : List A) → n ≤ length xs → drop n (xs ++ ys) ≡ drop n xs ++ ys
drop-append_more zero xs ys h = refl
drop-append_more (suc n) [] ys h = absurd (omega arith)
drop-append_more (suc n) (x ∷ xs) ys h = drop-append_more n xs ys (omega arith)

pub drop-suc {ℓ} : {A : Type ℓ} (n : ℕ) (xs : List A) → drop 1 (drop n xs) ≡ drop (suc n) xs
drop-suc zero xs = refl
drop-suc (suc n) [] = refl
drop-suc (suc n) (x ∷ xs) = drop-suc n xs

pub elem_at-set : (xs : List ℕ) (i v j : ℕ) → i < j → elem_at (set xs i v) j ≡ elem_at xs j
elem_at-set [] i v j h = refl
elem_at-set (x ∷ xs) i v zero h = absurd (omega arith)
elem_at-set (x ∷ xs) zero v (suc j) h = refl
elem_at-set (x ∷ xs) (suc i) v (suc j) h = elem_at-set xs i v j (omega arith)

pub elem_at-append : (xs ys : List ℕ) (j : ℕ) → j < length xs → elem_at (xs ++ ys) j ≡ elem_at xs j
elem_at-append [] ys j h = absurd (omega arith)
elem_at-append (x ∷ xs) ys zero h = refl
elem_at-append (x ∷ xs) ys (suc j) h = elem_at-append xs ys j (omega arith)

pub elem_at-take : (n : ℕ) (xs : List ℕ) (j : ℕ) → j < n → elem_at (take n xs) j ≡ elem_at xs j
elem_at-take zero xs j h = absurd (omega arith)
elem_at-take (suc n) [] j h = refl
elem_at-take (suc n) (x ∷ xs) zero h = refl
elem_at-take (suc n) (x ∷ xs) (suc j) h = elem_at-take n xs j (omega arith)

pub elem_at-append_right :
    (xs ys : List ℕ) (j : ℕ) → elem_at (xs ++ ys) (length xs + j) ≡ elem_at ys j
elem_at-append_right [] ys j = let e : 0 + j ≡ j = omega arith in ap (elem_at ys) e
elem_at-append_right (x ∷ xs) ys j =
    let e : suc (length xs) + j ≡ suc (length xs + j) = omega arith in
    ap (elem_at (x ∷ (xs ++ ys))) e ∙ elem_at-append_right xs ys j

pub elem_at-drop : (n : ℕ) (xs : List ℕ) (j : ℕ) → elem_at (drop n xs) j ≡ elem_at xs (n + j)
elem_at-drop zero xs j = let e : j ≡ 0 + j = omega arith in ap (elem_at xs) e
elem_at-drop (suc n) [] j = refl
elem_at-drop (suc n) (x ∷ xs) j =
    let e : suc (n + j) ≡ suc n + j = omega arith in elem_at-drop n xs j ∙ ap (elem_at (x ∷ xs)) e

-- A list whose first elements are those of another has it as its front.
pub take-elem_at :
    (xs ys : List ℕ)
    → length ys ≤ length xs
    → ((j : ℕ) → j < length ys → elem_at xs j ≡ elem_at ys j)
    → take (length ys) xs ≡ ys
take-elem_at xs [] h same = refl
take-elem_at [] (y ∷ ys) h same = absurd (omega arith)
take-elem_at (x ∷ xs) (y ∷ ys) h same =
    let rest = take-elem_at xs ys (omega arith) (λ j l. same (suc j) (omega arith)) in
    λ i. same 0 (omega arith) i ∷ rest i

pub List-cases {ℓ} :
    {A : Type ℓ} (xs : List A) → (xs ≡ []) ⊎ ((x : A) × (rest : List A) × (xs ≡ x ∷ rest))
List-cases [] = inl refl
List-cases (x ∷ xs) = inr (x, xs, refl)
