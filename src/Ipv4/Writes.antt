-- ===== src/Ipv4/Writes.antt =====
-- `PutUint16` into a buffer, and what is read back.
use govpn.Base.{
  ℕ, zero, suc, ◌+◌, ◌/◌, ◌%◌, ◌^◌, ◌≤◌, ◌<◌, ◌≡◌, ◌≢◌, ◌⊎◌, refl, ap, ◌∙◌, sym, List, [], ◌∷◌,
  ◌++◌, length, take, drop, set, elem_at, arith,
}
use govpn.Base.Words.{uint16_of, from_be16, from_be16-be16, IsU16}
use govpn.Ipv4.{put_uint16}

length-set : (b : List ℕ) (i v : ℕ) → length (set b i v) ≡ length b
length-set [] i v = refl
length-set (x ∷ b) zero v = refl
length-set (x ∷ b) (suc i) v = ap suc (length-set b i v)

elem_at-set_same : (b : List ℕ) (i v : ℕ) → i < length b → elem_at (set b i v) i ≡ v
elem_at-set_same [] i v h = absurd (omega arith)
elem_at-set_same (x ∷ b) zero v h = refl
elem_at-set_same (x ∷ b) (suc i) v h = elem_at-set_same b i v (omega arith)

elem_at-set_ne : (b : List ℕ) (i v j : ℕ) → i ≢ j → elem_at (set b i v) j ≡ elem_at b j
elem_at-set_ne [] i v j h = refl
elem_at-set_ne (x ∷ b) zero v zero h = absurd (h refl)
elem_at-set_ne (x ∷ b) zero v (suc j) h = refl
elem_at-set_ne (x ∷ b) (suc i) v zero h = refl
elem_at-set_ne (x ∷ b) (suc i) v (suc j) h = elem_at-set_ne b i v j (λ e. h (ap suc e))

drop-set : (b : List ℕ) (i v n : ℕ) → i < n → drop n (set b i v) ≡ drop n b
drop-set b i v zero h = absurd (omega arith)
drop-set [] i v (suc n) h = refl
drop-set (x ∷ b) zero v (suc n) h = refl
drop-set (x ∷ b) (suc i) v (suc n) h = drop-set b i v n (omega arith)

pub uint16_of-drop :
    (b : List ℕ) (i : ℕ)
    → i + 1 < length b
    → uint16_of (drop i b) ≡ from_be16 (elem_at b i) (elem_at b (suc i))
uint16_of-drop [] i h = absurd (omega arith)
uint16_of-drop (x ∷ []) zero h = absurd (omega arith)
uint16_of-drop (x ∷ y ∷ b) zero h = refl
uint16_of-drop (x ∷ b) (suc i) h = uint16_of-drop b i (omega arith)

pub length-put_uint16 : (b : List ℕ) (i v : ℕ) → length (put_uint16 b i v) ≡ length b
length-put_uint16 b i v =
    length-set (set b i (v / 2 ^ 8 % 256)) (suc i) (v % 256) ∙ length-set b i (v / 2 ^ 8 % 256)

pub drop-put_uint16 : (b : List ℕ) (i v n : ℕ) → i + 1 < n → drop n (put_uint16 b i v) ≡ drop n b
drop-put_uint16 b i v n h =
    drop-set (set b i (v / 2 ^ 8 % 256)) (suc i) (v % 256) n (omega arith)
    ∙ drop-set b i (v / 2 ^ 8 % 256) n (omega arith)

pub elem_at-put_uint16 :
    (b : List ℕ) (i v j : ℕ) → (j < i) ⊎ (i + 1 < j) → elem_at (put_uint16 b i v) j ≡ elem_at b j
elem_at-put_uint16 b i v j h =
    elem_at-set_ne (set b i (v / 2 ^ 8 % 256)) (suc i) (v % 256) j (λ e. ground arith)
    ∙ elem_at-set_ne b i (v / 2 ^ 8 % 256) j (λ e. ground arith)

pub uint16_of-put_uint16 :
    (b : List ℕ) (i v : ℕ) → i + 1 < length b → IsU16 v → uint16_of (drop i (put_uint16 b i v)) ≡ v
uint16_of-put_uint16 b i v h k =
    let hi : ℕ = v / 2 ^ 8 % 256 in
    uint16_of-drop (put_uint16 b i v) i (omega (arith, length-put_uint16 b i v))
    ∙ ap (λ (t : ℕ). from_be16 t (elem_at (put_uint16 b i v) (suc i)))
        (elem_at-set_ne (set b i hi) (suc i) (v % 256) i (λ e. omega arith)
          ∙ elem_at-set_same b i hi (omega arith))
    ∙ ap (λ (t : ℕ). from_be16 hi t)
        (elem_at-set_same (set b i hi) (suc i) (v % 256) (omega (arith, length-set b i hi)))
    ∙ from_be16-be16 v k

-- A later write elsewhere leaves a uint16 as it was.
pub uint16_of-put_elsewhere :
    (b : List ℕ) (i v j : ℕ)
    → j + 1 < length b
    → (j + 1 < i) ⊎ (i + 1 < j)
    → uint16_of (drop j (put_uint16 b i v)) ≡ uint16_of (drop j b)
uint16_of-put_elsewhere b i v j h k =
    uint16_of-drop (put_uint16 b i v) j (omega (arith, length-put_uint16 b i v))
    ∙ ap (λ (t : ℕ). from_be16 t (elem_at (put_uint16 b i v) (suc j)))
        (elem_at-put_uint16 b i v j (ground arith))
    ∙ ap (λ (t : ℕ). from_be16 (elem_at b j) t) (elem_at-put_uint16 b i v (suc j) (ground arith))
    ∙ sym (uint16_of-drop b j h)

pub elem_at-take_append :
    (b c : List ℕ) (n j : ℕ) → j < n → n ≤ length b → elem_at (take n b ++ c) j ≡ elem_at b j
elem_at-take_append b c zero j h k = absurd (omega arith)
elem_at-take_append [] c (suc n) j h k = absurd (omega arith)
elem_at-take_append (x ∷ b) c (suc n) zero h k = refl
elem_at-take_append (x ∷ b) c (suc n) (suc j) h k =
    elem_at-take_append b c n j (omega arith) (omega arith)
