-- ===== src/Frame/Checksum.antt =====
-- The carry loop against arithmetic modulo 2^16 - 1, and the sum of the words.
use govpn.Base.{
  ℕ, zero, suc, ◌+◌, ◌-◌, ◌*◌, ◌/◌, ◌%◌, ◌^◌, ◌≤◌, ◌<◌, ◌==◌, if◌then◌else◌, ◌≡◌, refl, ap, ◌∙◌,
  List, [], ◌∷◌, length, All, arith,
}
use govpn.Base.Words.{add32, IsByte}
use govpn.Base.Bits.{bit_or_disjoint}
use govpn.Frame.{
  Addr, internet_checksum, pseudo_header_sum, transport_checksum, word, sum_words, fold_carries,
  complement16, carry_rounds, udp_checksum,
}

-- RFC 1071's sum: the representative of `sum` modulo 2^16 - 1 that is zero only for zero.
abbrev pub ones_sum : ℕ → ℕ
ones_sum sum = if sum == 0 then 0 else (sum - 1) % 65535 + 1

fold_carries_fixed : (n sum : ℕ) → sum < 2 ^ 16 → fold_carries n sum ≡ sum
unfolding fold_carries
fold_carries_fixed zero sum h = refl
fold_carries_fixed (suc n) sum h = ground arith

-- The loop is done after two rounds, and then holds the ones' complement sum.
pub fold_carries-ones_sum :
    (sum extra : ℕ) → sum < 2 ^ 32 → fold_carries (suc (suc extra)) sum ≡ ones_sum sum
unfolding fold_carries
fold_carries-ones_sum sum extra h =
    let once : ℕ = sum % 2 ^ 16 + sum / 2 ^ 16 in
    let f : fold_carries extra (once % 2 ^ 16 + once / 2 ^ 16) ≡ once % 2 ^ 16 + once / 2 ^ 16 =
      fold_carries_fixed extra (once % 2 ^ 16 + once / 2 ^ 16) (omega arith) in
    ground (arith, f)

-- The same sum without the wrap of uint32.
unfoldable pub total : List ℕ → ℕ
total [] = 0
total (hi ∷ []) = hi * 256
total (hi ∷ lo ∷ b) = hi * 256 + lo + total b

pub total_bound : (b : List ℕ) → All IsByte b → 2 * total b ≤ (length b + 1) * 65535
unfolding total
total_bound [] h = omega arith
total_bound (hi ∷ []) h = ground arith
total_bound (hi ∷ lo ∷ b) h = ground (arith, total_bound b h.1.1)

pub sum_words-total :
    (b : List ℕ) (sum : ℕ) → All IsByte b → sum + total b < 2 ^ 32 → sum_words b sum ≡ sum + total b
unfolding sum_words total
sum_words-total [] sum h k = omega arith
sum_words-total (hi ∷ []) sum h k = omega arith
sum_words-total (hi ∷ lo ∷ b) sum h k =
    let w : word hi lo ≡ hi * 256 + lo = bit_or_disjoint 8 hi lo h.1.0 in
    let s : add32 sum (word hi lo) ≡ sum + (hi * 256 + lo) =
      ap (λ (v : ℕ). add32 sum v) w ∙ omega arith in
    sum_words-total b (add32 sum (word hi lo)) h.1.1 (omega (arith, s)) ∙ omega (arith, s)

-- A sum to which its own complemented ones' complement sum is added gives all ones.
pub checksum_cancels :
    (sum sum' checksum : ℕ)
    → checksum ≡ complement16 (fold_carries carry_rounds sum)
    → sum' ≡ sum + checksum
    → sum' < 2 ^ 32
    → complement16 (fold_carries carry_rounds sum') ≡ 0
checksum_cancels sum sum' checksum e e' h =
    let f : fold_carries carry_rounds sum ≡ ones_sum sum =
      fold_carries-ones_sum sum 0 (omega arith) in
    let f' : fold_carries carry_rounds sum' ≡ ones_sum sum' = fold_carries-ones_sum sum' 0 h in
    ground (arith, f, f')

-- The same where a checksum of zero is sent as all ones.
pub udp_checksum_cancels :
    (sum sum' checksum : ℕ)
    → checksum ≡ udp_checksum (complement16 (fold_carries carry_rounds sum))
    → sum' ≡ sum + checksum
    → sum' < 2 ^ 32
    → complement16 (fold_carries carry_rounds sum') ≡ 0
udp_checksum_cancels sum sum' checksum e e' h =
    let f : fold_carries carry_rounds sum ≡ ones_sum sum =
      fold_carries-ones_sum sum 0 (omega arith) in
    let f' : fold_carries carry_rounds sum' ≡ ones_sum sum' = fold_carries-ones_sum sum' 0 h in
    ground (arith, f, f')

-- The checksum of bytes whose sum stays in a uint32.
pub internet_checksum-total :
    (b : List ℕ)
    → All IsByte b
    → total b < 2 ^ 32
    → internet_checksum b ≡ complement16 (fold_carries carry_rounds (total b))
unfolding internet_checksum
internet_checksum-total b h k =
    let e : sum_words b 0 ≡ total b = sum_words-total b 0 h (omega arith) ∙ omega arith in
    ap (λ (v : ℕ). complement16 (fold_carries carry_rounds v)) e

pub transport_checksum-total :
    (src dst : Addr) (protocol : ℕ) (b : List ℕ)
    → All IsByte b
    → pseudo_header_sum src dst protocol (length b % 2 ^ 16) + total b < 2 ^ 32
    → transport_checksum src dst protocol b
      ≡ complement16 (
          fold_carries carry_rounds
            (pseudo_header_sum src dst protocol (length b % 2 ^ 16) + total b))
unfolding transport_checksum
transport_checksum-total src dst protocol b h k =
    ap (λ (v : ℕ). complement16 (fold_carries carry_rounds v))
      (sum_words-total b (pseudo_header_sum src dst protocol (length b % 2 ^ 16)) h k)

-- What is sent is a uint16 that is not zero.
pub udp_checksum_range :
    (src dst : Addr) (protocol : ℕ) (b : List ℕ)
    → let c = udp_checksum (transport_checksum src dst protocol b) in (0 < c) × (c < 2 ^ 16)
unfolding transport_checksum
udp_checksum_range src dst protocol b = ground arith
