-- ===== src/Reassembly/Holes.antt =====
-- The holes are the bytes that have not arrived.
use govpn.Base.{
  ℕ, ◌≤◌, ◌<◌, Bool, true, false, not, ◌&&◌, ◌||◌, ltb, leb, ◌≡◌, refl, ap, ◌∙◌, List, [], ◌∷◌,
  ◌++◌, arith,
}
use govpn.Reassembly.{Hole, punch_hole, punch}

unfoldable pub in_hole : ℕ → Hole → Bool
in_hole i h = leb h.first i && ltb i h.end

-- Whether byte `i` is missing.
unfoldable pub missing : ℕ → List Hole → Bool
unfolding in_hole
missing i [] = false
missing i (h ∷ holes) = in_hole i h || missing i holes

-- A byte that stays missing: it did not arrive, and does not lie behind a last fragment.
unfoldable pub stays : Bool → ℕ → ℕ → ℕ → Bool
stays more first end i = not (leb first i && ltb i end) && (more || ltb i end)

missing-append : (i : ℕ) (xs ys : List Hole) → missing i (xs ++ ys) ≡ (missing i xs || missing i ys)
unfolding missing
missing-append i [] ys = refl
missing-append i (x ∷ xs) ys = ground (arith, missing-append i xs ys)

missing-punch_hole :
    (more : Bool) (first end i : ℕ) (h : Hole)
    → first < end
    → missing i (punch_hole more first end h).0 ≡ (in_hole i h && stays more first end i)
unfolding missing punch_hole in_hole stays
missing-punch_hole more first end i h l = ground arith

missing-punch_from :
    (more : Bool) (first end i : ℕ) (holes : List Hole)
    → first < end
    → missing i (punch more first end holes).0 ≡ (missing i holes && stays more first end i)
unfolding punch missing
missing-punch_from more first end i [] l = refl
missing-punch_from more first end i (h ∷ holes) l =
    missing-append i (punch_hole more first end h).0 (punch more first end holes).0
    ∙ ap (λ (b : Bool). b || missing i (punch more first end holes).0)
        (missing-punch_hole more first end i h l)
    ∙ ap (λ (b : Bool). (in_hole i h && stays more first end i) || b)
        (missing-punch_from more first end i holes l)
    ∙ distribute (in_hole i h) (missing i holes) (stays more first end i)
  where
    distribute : (a b c : Bool) → ((a && c) || (b && c)) ≡ ((a || b) && c)
    distribute true true true = refl
    distribute true true false = refl
    distribute true false true = refl
    distribute true false false = refl
    distribute false true true = refl
    distribute false true false = refl
    distribute false false true = refl
    distribute false false false = refl

unmet_hole :
    (more : Bool) (first end i : ℕ) (h : Hole)
    → (punch_hole more first end h).1 ≡ false
    → first ≤ i
    → i < end
    → in_hole i h ≡ false
unfolding punch_hole in_hole
unmet_hole more first end i h e l m = ground arith

unmet :
    (more : Bool) (first end i : ℕ) (holes : List Hole)
    → (punch more first end holes).1 ≡ false
    → first ≤ i
    → i < end
    → missing i holes ≡ false
unfolding punch missing
unmet more first end i [] e l m = refl
unmet more first end i (h ∷ holes) e l m =
    ground (arith, unmet_hole more first end i h, unmet more first end i holes)

-- After a fragment that is not empty, a byte is missing exactly if it was, did not arrive, and does not
-- lie behind a last fragment; and the fragment counts as a duplicate only if all its bytes had arrived.
pub missing-punch :
    (more : Bool) (first end i : ℕ) (holes : List Hole)
    → first < end
    → (missing i (punch more first end holes).0 ≡ (missing i holes && stays more first end i))
      × ((punch more first end holes).1 ≡ false → first ≤ i → i < end → missing i holes ≡ false)
missing-punch more first end i holes l =
    (missing-punch_from more first end i holes l, unmet more first end i holes)
