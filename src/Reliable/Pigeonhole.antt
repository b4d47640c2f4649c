-- ===== src/Reliable/Pigeonhole.antt =====
-- Distinct numbers below `n` are at most `n`.
use govpn.Base.{
  ℕ, zero, suc, ◌+◌, ◌≤◌, ◌<◌, ◌≡◌, refl, false, ◌==◌, if◌then◌else◌, Bool-cases, inl, inr, ==_iff,
  List, [], ◌∷◌, length, All, member, NoRepeats, arith,
}

remove : ℕ → List ℕ → List ℕ
remove a [] = []
remove a (x ∷ xs) = if a == x then xs else x ∷ remove a xs

length-remove : (a : ℕ) (xs : List ℕ) → length xs ≤ length (remove a xs) + 1
unfolding remove
length-remove a [] = omega arith
length-remove a (x ∷ xs) = ground (arith, length-remove a xs)

member-remove : (a b : ℕ) (xs : List ℕ) → member b xs ≡ false → member b (remove a xs) ≡ false
unfolding remove member
member-remove a b [] h = refl
member-remove a b (x ∷ xs) h = ground (arith, member-remove a b xs)

remove-NoRepeats : (a : ℕ) (xs : List ℕ) → NoRepeats xs → NoRepeats (remove a xs)
unfolding remove
remove-NoRepeats a [] h = tt
remove-NoRepeats a (x ∷ xs) h = elim (Bool-cases (a == x)) [
  | inl e ↦ rw e h.1
  | inr e ↦ rw e (member-remove a x xs h.0, remove-NoRepeats a xs h.1)
]

absent_below :
    (n : ℕ) (xs : List ℕ) → All (λ x. x < suc n) xs → member n xs ≡ false → All (λ x. x < n) xs
unfolding member
absent_below n [] h a = tt
absent_below n (x ∷ xs) h a = (ground arith, absent_below n xs h.1 (ground arith))

-- Without `n`, what is at most `n` is below it.
remove-below :
    (n : ℕ) (xs : List ℕ) → All (λ x. x < suc n) xs → NoRepeats xs → All (λ x. x < n) (remove n xs)
unfolding remove
remove-below n [] h d = tt
remove-below n (x ∷ xs) h d = elim (Bool-cases (n == x)) [
  | inl e ↦ rw e (absent_below n xs h.1 (rw ((==_iff n x).0 e) d.0))
  | inr e ↦ rw e (ground arith, remove-below n xs h.1 d.1)
]

pub pigeonhole : (n : ℕ) (xs : List ℕ) → All (λ x. x < n) xs → NoRepeats xs → length xs ≤ n
pigeonhole zero [] h d = omega arith
pigeonhole zero (x ∷ xs) h d = absurd (omega arith)
pigeonhole (suc n) xs h d = omega (
  arith,
  length-remove n xs,
  pigeonhole n (remove n xs) (remove-below n xs h d) (remove-NoRepeats n xs d),
)
