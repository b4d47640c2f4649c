-- ===== src/TcpSegment/Options.antt =====
-- The option walk on a list of options that is written out.
use govpn.Base.{
  ℕ, zero, suc, ◌+◌, ◌/◌, ◌%◌, ◌^◌, ◌≤◌, ◌<◌, Bool, true, false, ltb, ◌==◌, ◌≡◌, refl, ap, ◌∙◌,
  List, [], ◌∷◌, ◌++◌, length, drop, All, ok, append_assoc, length-append, drop-append_length,
  arith,
}
use govpn.Base.Words.{be16, uint16_of, IsU16, from_be16-be16}
use govpn.TcpSegment.{walk_options}

-- RFC 9293's options: padding, the maximum segment size, and any other by its kind and data.
pub data TcpOption : Type 0 where
  nop : TcpOption
  max_segment_size : ℕ → TcpOption
  other : ℕ → List ℕ → TcpOption

unfoldable pub encode : TcpOption → List ℕ
encode nop = 1 ∷ []
encode (max_segment_size v) = 2 ∷ 4 ∷ be16 v
encode (other kind bytes) = kind ∷ suc (suc (length bytes)) ∷ bytes

unfoldable pub encode_all : List TcpOption → List ℕ
unfolding encode
encode_all [] = []
encode_all (o ∷ os) = encode o ++ encode_all os

abbrev pub IsOption : TcpOption → Type 0
IsOption nop = Unit {0}
IsOption (max_segment_size v) = IsU16 v
IsOption (other kind bytes) = 2 < kind

-- The last MSS option counts.
unfoldable pub last_mss : List TcpOption → Bool × ℕ → Bool × ℕ
last_mss [] m = m
last_mss (nop ∷ os) m = last_mss os m
last_mss (max_segment_size v ∷ os) m = last_mss os (true, v)
last_mss (other kind bytes ∷ os) m = last_mss os m

-- What may follow the options: nothing, or the end mark and any padding.
pub data Padding : List ℕ → Type 0 where
  nothing : Padding []
  end_of_options : (pad : List ℕ) → Padding (0 ∷ pad)

walk-Padding :
    (rounds : ℕ) (tail : List ℕ) (m : Bool × ℕ) → Padding tail → walk_options rounds tail m ≡ ok m
unfolding walk_options
walk-Padding zero tail m p = refl
walk-Padding (suc rounds) _ m nothing = refl
walk-Padding (suc rounds) _ m (end_of_options []) = refl
walk-Padding (suc rounds) _ m (end_of_options (x ∷ pad)) = refl

walk_nop :
    (rounds : ℕ) (opts : List ℕ) (m : Bool × ℕ)
    → walk_options (suc rounds) (1 ∷ opts) m ≡ walk_options rounds opts m
unfolding walk_options
walk_nop zero [] m = refl
walk_nop (suc rounds) [] m = refl
walk_nop rounds (x ∷ opts) m = refl

walk_mss :
    (rounds a b : ℕ) (opts : List ℕ) (m : Bool × ℕ)
    → walk_options (suc rounds) (2 ∷ 4 ∷ a ∷ b ∷ opts) m
      ≡ walk_options rounds opts (true, uint16_of (a ∷ b ∷ []))
unfolding walk_options
walk_mss rounds a b opts m =
    let fits : ltb (2 + length (a ∷ b ∷ opts)) 4 ≡ false = ground arith in rw fits

walk_other :
    (rounds kind : ℕ) (bytes opts : List ℕ) (m : Bool × ℕ)
    → 2 < kind
    → walk_options (suc rounds) (kind ∷ suc (suc (length bytes)) ∷ (bytes ++ opts)) m
      ≡ walk_options rounds opts m
unfolding walk_options
walk_other rounds kind bytes opts m h =
    let k₀ : (kind == 0) ≡ false = ground arith in
    let k₁ : (kind == 1) ≡ false = ground arith in
    let k₂ : (kind == 2) ≡ false = ground arith in
    let long : ltb (suc (suc (length bytes))) 2 ≡ false = ground arith in
    let fits : ltb (2 + length (bytes ++ opts)) (suc (suc (length bytes))) ≡ false =
      ground (arith, length-append bytes opts) in
    let skip : drop (length bytes) (bytes ++ opts) ≡ opts =
      drop-append_length (length bytes) bytes opts refl in
    rw (k₀, k₁, k₂, long, fits, skip)

-- Options that are written out, with or without an end mark, are all read, and the last MSS counts.
pub walk_options-encode_all :
    (os : List TcpOption) (tail : List ℕ) (m : Bool × ℕ) (rounds : ℕ)
    → All IsOption os
    → Padding tail
    → length (encode_all os ++ tail) ≤ rounds
    → walk_options rounds (encode_all os ++ tail) m ≡ ok (last_mss os m)
unfolding encode_all encode last_mss
walk_options-encode_all [] tail m rounds v p h = walk-Padding rounds tail m p
walk_options-encode_all (nop ∷ os) tail m zero v p h = absurd (omega arith)
walk_options-encode_all (nop ∷ os) tail m (suc rounds) v p h =
    walk_nop rounds (encode_all os ++ tail) m
    ∙ walk_options-encode_all os tail m rounds v.1 p (omega arith)
walk_options-encode_all (max_segment_size x ∷ os) tail m zero v p h = absurd (omega arith)
walk_options-encode_all (max_segment_size x ∷ os) tail m (suc rounds) v p h =
    walk_mss rounds (x / 2 ^ 8 % 256) (x % 256) (encode_all os ++ tail) m
    ∙ ap (λ (t : ℕ). walk_options rounds (encode_all os ++ tail) (true, t)) (from_be16-be16 x v.0)
    ∙ walk_options-encode_all os tail (true, x) rounds v.1 p (omega arith)
walk_options-encode_all (other kind bytes ∷ os) tail m zero v p h = absurd (omega arith)
walk_options-encode_all (other kind bytes ∷ os) tail m (suc rounds) v p h =
    ap (λ (t : List ℕ). walk_options (suc rounds) (kind ∷ suc (suc (length bytes)) ∷ t) m)
      (append_assoc bytes (encode_all os) tail)
    ∙ walk_other rounds kind bytes (encode_all os ++ tail) m v.0
    ∙ walk_options-encode_all os tail m rounds v.1 p (
        omega (
          arith,
          length-append bytes (encode_all os),
          length-append (bytes ++ encode_all os) tail,
          length-append (encode_all os) tail,
        ))
