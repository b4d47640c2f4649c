-- ===== src/Base/Members.antt =====
-- Membership in a list of numbers as a Boolean, and lists without repetition.
use govpn.Base.Tests.{◌==◌, if◌then◌else◌}
use Prim.Native.Nat.{ℕ}
use mathlib.Core.Path.{◌≡◌, refl}
use mathlib.Core.Bool.{Bool, true, false}
use mathlib.Core.List.{List, [], ◌∷◌, ◌++◌}
use native.Mathlib.Omega.{arith}

unfoldable pub member : ℕ → List ℕ → Bool
member a [] = false
member a (x ∷ xs) = if a == x then true else member a xs

-- No number stands twice in the list.
abbrev pub NoRepeats : List ℕ → Type 0
NoRepeats [] = Unit {0}
NoRepeats (x ∷ xs) = (member x xs ≡ false) × NoRepeats xs

pub member-middle :
    (a x : ℕ) (xs ys : List ℕ)
    → member a (xs ++ (x ∷ ys)) ≡ (if a == x then true else member a (xs ++ ys))
unfolding member
member-middle a x [] ys = refl
member-middle a x (y ∷ xs) ys = ground (arith, member-middle a x xs ys)

-- Taking one element out of a list without repetition leaves none equal to it.
pub NoRepeats-middle :
    (x : ℕ) (xs ys : List ℕ)
    → NoRepeats (xs ++ (x ∷ ys))
    → (member x (xs ++ ys) ≡ false) × NoRepeats (xs ++ ys)
unfolding member
NoRepeats-middle x [] ys h = h
NoRepeats-middle x (y ∷ xs) ys h =
    ground (arith, NoRepeats-middle x xs ys h.1, member-middle y x xs ys)
