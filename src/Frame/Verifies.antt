-- ===== src/Frame/Verifies.antt =====
-- The frames that are built carry checksums that verify.
use govpn.Base.{
  ℕ, ◌+◌, ◌*◌, ◌%◌, ◌^◌, ◌≤◌, ◌<◌, ◌≡◌, refl, ap, subst, ◌∙◌, sym, List, [], ◌++◌, length, take,
  drop, All, arith,
}
use govpn.Base.Words.{uint16_of, from_be16-be16, IsByte, IsU16}
use govpn.Base.Bits.{bit_or_disjoint}
use govpn.Frame.{
  Addr, as4, fold_carries, complement16, carry_rounds, internet_checksum, pseudo_header_sum,
  transport_checksum, ipv4_header, build_ipv4, udp_header, udp_checksum, build_udp, protocol_udp,
  min_ipv4_header_len, udp_header_len,
}
use govpn.Frame.Checksum.{
  internet_checksum-total, transport_checksum-total, total, total_bound, checksum_cancels,
  udp_checksum_cancels, udp_checksum_range,
}

abbrev pub IsAddr : Addr → Type 0
IsAddr a = All IsByte (as4 a)

-- The words of an address.
abbrev pub addr_total : Addr → ℕ
addr_total a = a.b₀ * 256 + a.b₁ + (a.b₂ * 256 + a.b₃)

pub pseudo_header_sum_lem :
    (src dst : Addr) (protocol len : ℕ)
    → IsAddr src
    → IsAddr dst
    → IsByte protocol
    → IsU16 len
    → pseudo_header_sum src dst protocol len ≡ addr_total src + addr_total dst + protocol + len
unfolding pseudo_header_sum
pseudo_header_sum_lem src dst protocol len s d p l = omega (
  arith,
  bit_or_disjoint 8 src.b₀ src.b₁ s.1.0,
  bit_or_disjoint 8 src.b₂ src.b₃ s.1.1.1.0,
  bit_or_disjoint 8 dst.b₀ dst.b₁ d.1.0,
  bit_or_disjoint 8 dst.b₂ dst.b₃ d.1.1.1.0,
)

pub ipv4_header-bytes :
    (src dst : Addr) (protocol len checksum : ℕ)
    → IsAddr src
    → IsAddr dst
    → IsByte protocol
    → All IsByte (ipv4_header src dst protocol len checksum)
ipv4_header-bytes src dst protocol len checksum s d p = ground arith

ipv4_header-total :
    (src dst : Addr) (protocol len checksum : ℕ)
    → total (ipv4_header src dst protocol len checksum)
      ≡ total (ipv4_header src dst protocol len 0) + checksum % 2 ^ 16
unfolding total
ipv4_header-total src dst protocol len checksum = omega arith

ipv4_header-checksum :
    (src dst : Addr) (protocol len checksum : ℕ)
    → IsAddr src
    → IsAddr dst
    → IsByte protocol
    → checksum ≡ internet_checksum (ipv4_header src dst protocol len 0)
    → internet_checksum (ipv4_header src dst protocol len checksum) ≡ 0
ipv4_header-checksum src dst protocol len checksum s d p e =
    let zeroed : List ℕ = ipv4_header src dst protocol len 0 in
    let filled : List ℕ = ipv4_header src dst protocol len checksum in
    let hz : All IsByte zeroed = ipv4_header-bytes src dst protocol len 0 s d p in
    let hf : All IsByte filled = ipv4_header-bytes src dst protocol len checksum s d p in
    let bz : 2 * total zeroed ≤ 21 * 65535 = total_bound zeroed hz in
    let bf : 2 * total filled ≤ 21 * 65535 = total_bound filled hf in
    let e' : checksum ≡ complement16 (fold_carries carry_rounds (total zeroed)) =
      e ∙ internet_checksum-total zeroed hz (omega arith) in
    internet_checksum-total filled hf (omega arith)
    ∙ checksum_cancels (total zeroed) (total filled) checksum e'
        (ipv4_header-total src dst protocol len checksum ∙ omega (arith, e')) (omega arith)

-- The header checksum of a built IPv4 packet verifies.
build_ipv4-checksum :
    (src dst : Addr) (protocol : ℕ) (payload : List ℕ)
    → IsAddr src
    → IsAddr dst
    → IsByte protocol
    → internet_checksum (take min_ipv4_header_len (build_ipv4 [] src dst protocol payload)) ≡ 0
unfolding build_ipv4
build_ipv4-checksum src dst protocol payload s d p =
    ipv4_header-checksum src dst protocol (min_ipv4_header_len + length payload)
      (internet_checksum (ipv4_header src dst protocol (min_ipv4_header_len + length payload) 0)) s
      d p refl

udp_segment-total :
    (src_port dst_port len checksum : ℕ) (payload : List ℕ)
    → total (udp_header src_port dst_port len checksum ++ payload)
      ≡ total (udp_header src_port dst_port len 0 ++ payload) + checksum % 2 ^ 16
unfolding total
udp_segment-total src_port dst_port len checksum payload = omega arith

udp_segment-bytes :
    (src_port dst_port len checksum : ℕ) (payload : List ℕ)
    → All IsByte payload
    → All IsByte (udp_header src_port dst_port len checksum ++ payload)
udp_segment-bytes src_port dst_port len checksum payload h = ground arith

udp_segment-checksum :
    (src dst : Addr) (src_port dst_port len checksum : ℕ) (payload : List ℕ)
    → IsAddr src
    → IsAddr dst
    → All IsByte payload
    → length payload + udp_header_len < 2 ^ 16
    → checksum
      ≡ udp_checksum
          (transport_checksum src dst protocol_udp (udp_header src_port dst_port len 0 ++ payload))
    → transport_checksum src dst protocol_udp (udp_header src_port dst_port len checksum ++ payload)
      ≡ 0
udp_segment-checksum src dst src_port dst_port len checksum payload s d h l e =
    let zeroed : List ℕ = udp_header src_port dst_port len 0 ++ payload in
    let filled : List ℕ = udp_header src_port dst_port len checksum ++ payload in
    let hz : All IsByte zeroed = udp_segment-bytes src_port dst_port len 0 payload h in
    let hf : All IsByte filled = udp_segment-bytes src_port dst_port len checksum payload h in
    let n : ℕ = (length payload + udp_header_len) % 2 ^ 16 in
    let fits : checksum < 2 ^ 16 =
      subst (λ (v : ℕ). v < 2 ^ 16) (sym e) (udp_checksum_range src dst protocol_udp zeroed).1 in
    let q : length zeroed % 2 ^ 16 ≡ n = omega arith in
    let base : ℕ = pseudo_header_sum src dst protocol_udp (length zeroed % 2 ^ 16) in
    let bz : 2 * total zeroed ≤ (length payload + 9) * 65535 =
      omega (arith, total_bound zeroed hz) in
    let bf : 2 * total filled ≤ (length payload + 9) * 65535 =
      omega (arith, total_bound filled hf) in
    let small : base ≤ 2 ^ 19 = omega (
      arith,
      pseudo_header_sum_lem src dst protocol_udp (length zeroed % 2 ^ 16) s d (omega arith)
          (omega arith),
    ) in
    let e' : checksum
        ≡ udp_checksum (complement16 (fold_carries carry_rounds (base + total zeroed))) =
      e
      ∙ ap (λ (v : ℕ). udp_checksum v)
          (transport_checksum-total src dst protocol_udp zeroed hz (omega arith)) in
    transport_checksum-total src dst protocol_udp filled hf (omega arith)
    ∙ udp_checksum_cancels (base + total zeroed) (base + total filled) checksum e'
        (ap (λ (v : ℕ). base + v) (udp_segment-total src_port dst_port len checksum payload)
          ∙ omega (arith, fits))
        (omega arith)

-- Whatever is sent in the checksum field of a built UDP datagram verifies and is not zero, which
-- would say that there is no checksum.
pub build_udp-checksum :
    (src dst : Addr) (src_port dst_port : ℕ) (payload : List ℕ)
    → IsAddr src
    → IsAddr dst
    → All IsByte payload
    → length payload + udp_header_len < 2 ^ 16
    → (transport_checksum src dst protocol_udp (build_udp [] src dst src_port dst_port payload) ≡ 0)
      × (0 < uint16_of (drop 6 (build_udp [] src dst src_port dst_port payload)))
unfolding build_udp
build_udp-checksum src dst src_port dst_port payload s d h l =
    let len : ℕ = udp_header_len + length payload in
    let (positive, fits) =
      udp_checksum_range src dst protocol_udp (udp_header src_port dst_port len 0 ++ payload) in
    (
      udp_segment-checksum src dst src_port dst_port len
          (udp_checksum (
            transport_checksum src dst protocol_udp
              (udp_header src_port dst_port len 0 ++ payload)))
          payload s d h l refl,
      subst (λ (v : ℕ). 0 < v) (sym (from_be16-be16 _ fits)) positive,
    )
