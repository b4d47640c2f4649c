-- ===== src/Frame.antt =====
-- netstack/internal/frame/frame.go: IPv4 and UDP frames, and the Internet checksum.
-- An IPv4 address is its four bytes; `As4` panics on any other address.
pub mod Checksum
pub mod Verifies
pub mod Runs
use govpn.Base.{
  ℕ, zero, suc, ◌+◌, ◌-◌, ◌*◌, ◌/◌, ◌%◌, ◌^◌, bit_or, ◌==◌, if◌then◌else◌, List, [], ◌∷◌, ◌++◌,
  length,
}
use govpn.Base.Words.{add32, be16}

abbrev pub min_ipv4_header_len : ℕ
min_ipv4_header_len = 20

abbrev pub default_ttl : ℕ
default_ttl = 64

abbrev pub protocol_tcp : ℕ
protocol_tcp = 6

abbrev pub protocol_udp : ℕ
protocol_udp = 17

abbrev pub udp_header_len : ℕ
udp_header_len = 8

-- A netip.Addr that is an IPv4 address.
pub record Addr : Type 0 where
  pub b₀ : ℕ
  pub b₁ : ℕ
  pub b₂ : ℕ
  pub b₃ : ℕ

abbrev pub as4 : Addr → List ℕ
as4 a = a.b₀ ∷ a.b₁ ∷ a.b₂ ∷ a.b₃ ∷ []

-- `uint32(hi)<<8 | uint32(lo)` of two bytes.
abbrev pub word : ℕ → ℕ → ℕ
word hi lo = bit_or (hi * 2 ^ 8) lo

-- The 16-bit words of `b` added to a uint32; a last odd byte is a high byte.
unfoldable pub sum_words : List ℕ → ℕ → ℕ
sum_words [] sum = sum
sum_words (hi ∷ []) sum = add32 sum (hi * 2 ^ 8)
sum_words (hi ∷ lo ∷ b) sum = sum_words b (add32 sum (word hi lo))

-- `for sum>>16 != 0 { sum = (sum & 0xFFFF) + (sum >> 16) }`, where `& 0xFFFF` is `% 2 ^ 16`; the first
-- argument bounds the rounds.
unfoldable pub fold_carries : ℕ → ℕ → ℕ
fold_carries zero sum = sum
fold_carries (suc rounds) sum =
    let rest : ℕ = fold_carries rounds (sum % 2 ^ 16 + sum / 2 ^ 16) in
    if sum / 2 ^ 16 == 0 then sum else rest

-- `^uint16(sum)`.
abbrev pub complement16 : ℕ → ℕ
complement16 sum = 2 ^ 16 - 1 - sum % 2 ^ 16

-- Two rounds bring any uint32 below 2^16.
abbrev pub carry_rounds : ℕ
carry_rounds = 2

unfoldable pub internet_checksum : List ℕ → ℕ
unfolding sum_words fold_carries
internet_checksum b = complement16 (fold_carries carry_rounds (sum_words b 0))

unfoldable pub pseudo_header_sum : Addr → Addr → ℕ → ℕ → ℕ
pseudo_header_sum src dst protocol len =
    let s₁ : ℕ = add32 0 (word src.b₀ src.b₁) in
    let s₂ : ℕ = add32 s₁ (word src.b₂ src.b₃) in
    let s₃ : ℕ = add32 s₂ (word dst.b₀ dst.b₁) in
    let s₄ : ℕ = add32 s₃ (word dst.b₂ dst.b₃) in let s₅ : ℕ = add32 s₄ protocol in add32 s₅ len

-- The length is cut to a uint16.
unfoldable pub transport_checksum : Addr → Addr → ℕ → List ℕ → ℕ
unfolding sum_words fold_carries pseudo_header_sum
transport_checksum src dst protocol payload = complement16 (
    fold_carries carry_rounds
      (sum_words payload (pseudo_header_sum src dst protocol (length payload % 2 ^ 16))))

-- The header with a given checksum field.
abbrev pub ipv4_header : Addr → Addr → ℕ → ℕ → ℕ → List ℕ
ipv4_header src dst protocol total_len checksum =
    0x45 ∷ 0 ∷ (be16 (total_len % 2 ^ 16) ++ (0 ∷ 0 ∷ 0 ∷ 0 ∷ default_ttl ∷ protocol ∷ []))
    ++ be16 checksum
    ++ as4 src
    ++ as4 dst

unfoldable pub build_ipv4 : List ℕ → Addr → Addr → ℕ → List ℕ → List ℕ
unfolding internet_checksum
build_ipv4 dst src dst_addr protocol payload =
    let total_len : ℕ = min_ipv4_header_len + length payload in
    let checksum : ℕ = internet_checksum (ipv4_header src dst_addr protocol total_len 0) in
    (dst ++ ipv4_header src dst_addr protocol total_len checksum) ++ payload

-- The UDP header with a given checksum field.
abbrev pub udp_header : ℕ → ℕ → ℕ → ℕ → List ℕ
udp_header src_port dst_port total_len checksum =
    be16 src_port ++ be16 dst_port ++ be16 (total_len % 2 ^ 16) ++ be16 checksum

-- A computed checksum of zero is sent as all ones.
abbrev pub udp_checksum : ℕ → ℕ
udp_checksum checksum = if checksum == 0 then 0xFFFF else checksum

unfoldable pub build_udp : List ℕ → Addr → Addr → ℕ → ℕ → List ℕ → List ℕ
unfolding transport_checksum
build_udp dst src dst_addr src_port dst_port payload =
    let total_len : ℕ = udp_header_len + length payload in
    let segment : List ℕ = udp_header src_port dst_port total_len 0 ++ payload in
    let checksum : ℕ = udp_checksum (transport_checksum src dst_addr protocol_udp segment) in
    dst ++ (udp_header src_port dst_port total_len checksum ++ payload)
