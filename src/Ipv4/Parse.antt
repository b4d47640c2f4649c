-- ===== src/Ipv4/Parse.antt =====
-- The parser on built packets and on fragments.
use govpn.Base.{
  ℕ, ◌+◌, ◌-◌, ◌*◌, ◌/◌, ◌%◌, ◌^◌, ◌≤◌, ◌<◌, bit_and, bit_or, Bool, true, false, not, ◌||◌, ltb,
  ◌==◌, if◌then◌else◌, ◌≡◌, refl, ap, ◌∙◌, List, [], length, drop, elem_at, ok, arith,
}
use govpn.Base.Words.{uint16_of}
use govpn.Base.Bits.{bit_and_low, bit_and-pow, test_bit, bit_or_disjoint_right}
use native.Mathlib.Nat.{mod-eq_of_lt}
use govpn.Frame.{Addr, min_ipv4_header_len, build_ipv4}
use govpn.Ipv4.{
  Ipv4Header, addr_at, parse_ipv4, parse_fields, check_fragment, flag_more_fragments,
  frag_offset_mask,
}

-- What `parse_ipv4` reads of a packet whose three fields are told.
abbrev pub header_of : List ℕ → ℕ → ℕ → Bool → ℕ → Ipv4Header
header_of pkt ihl total_len more_fragments frag_offset = record {
  ihl = ihl;
  total_len = total_len;
  protocol = elem_at pkt 9;
  src = addr_at pkt 12;
  dst = addr_at pkt 16;
  payload_off = ihl;
  id = uint16_of (drop 4 pkt);
  more_fragments = more_fragments;
  frag_offset = frag_offset;
}

-- A flags word with the offset in units of eight bytes, and the bit for more fragments.
abbrev pub flags_word : Bool → ℕ → ℕ
flags_word more units = if more then bit_or (units % 2 ^ 16) flag_more_fragments else units % 2 ^ 16

pub flags_word_lem :
    (more : Bool) (units : ℕ)
    → units < 2 ^ 13
    → flags_word more units ≡ (if more then 2 ^ 13 + units else units)
flags_word_lem true units h =
    ap (λ (t : ℕ). bit_or t (2 ^ 13)) (mod-eq_of_lt (omega arith))
    ∙ bit_or_disjoint_right 13 1 units h
flags_word_lem false units h = omega arith

flag_bit :
    (more : Bool) (units : ℕ)
    → units < 2 ^ 13
    → test_bit (if more then 2 ^ 13 + units else units) 13 ≡ (if more then 1 else 0)
unfolding test_bit
flag_bit true units h = omega arith
flag_bit false units h = omega arith

flags_word-more :
    (more : Bool) (units : ℕ)
    → units < 2 ^ 13
    → not (bit_and (flags_word more units) flag_more_fragments == 0) ≡ more
flags_word-more more units h =
    let e : bit_and (flags_word more units) (2 ^ 13) ≡ (if more then 1 else 0) * 2 ^ 13 =
      bit_and-pow (flags_word more units) 13
      ∙ ap (λ (t : ℕ). t * 2 ^ 13)
          (ap (λ (t : ℕ). test_bit t 13) (flags_word_lem more units h) ∙ flag_bit more units h) in
    ap (λ (t : ℕ). not (t == 0)) e ∙ decide more
  where
    decide : (more : Bool) → not ((if more then 1 else 0) * 2 ^ 13 == 0) ≡ more
    decide true = refl
    decide false = refl

flags_word-offset :
    (more : Bool) (units : ℕ)
    → units < 2 ^ 13
    → bit_and (flags_word more units) frag_offset_mask ≡ units
flags_word-offset more units h =
    ap (λ (t : ℕ). bit_and t frag_offset_mask) (flags_word_lem more units h)
    ∙ bit_and_low 13 (if more then 2 ^ 13 + units else units)
    ∙ low more units h
  where
    low :
        (more : Bool) (units : ℕ)
        → units < 2 ^ 13
        → (if more then 2 ^ 13 + units else units) % 2 ^ 13 ≡ units
    low true units h = omega arith
    low false units h = omega arith

parse_fields_ok :
    (pkt : List ℕ) (ihl total_len flags : ℕ)
    → min_ipv4_header_len ≤ ihl
    → ihl ≤ total_len
    → total_len ≤ length pkt
    → elem_at pkt 0 / 2 ^ 4 ≡ 4
    → check_fragment
        (not (bit_and flags flag_more_fragments == 0))
        (bit_and flags frag_offset_mask * 8)
        (total_len - ihl)
      ≡ ok tt
    → parse_fields pkt ihl total_len flags
      ≡ ok (
          header_of pkt ihl total_len
            (not (bit_and flags flag_more_fragments == 0))
            (bit_and flags frag_offset_mask * 8))
unfolding parse_fields
parse_fields_ok pkt ihl total_len flags h₁ h₂ h₃ h₄ h₅ =
    let g₁ : ltb (length pkt) min_ipv4_header_len ≡ false = ground arith in
    let g₂ : (elem_at pkt 0 / 2 ^ 4 == 4) ≡ true = ground arith in
    let g₃ : (ltb ihl min_ipv4_header_len || ltb (length pkt) ihl) ≡ false = ground arith in
    let g₄ : (ltb total_len ihl || ltb (length pkt) total_len) ≡ false = ground arith in
    rw (g₁, g₂, g₃, g₄, h₅)

-- A well-formed packet whose fields are told parses to them.
pub parse_ipv4_ok :
    (pkt : List ℕ) (ihl total_len units : ℕ) (more : Bool)
    → bit_and (elem_at pkt 0) 0x0F * 4 ≡ ihl
    → uint16_of (drop 2 pkt) ≡ total_len
    → uint16_of (drop 6 pkt) ≡ flags_word more units
    → units < 2 ^ 13
    → min_ipv4_header_len ≤ ihl
    → ihl ≤ total_len
    → total_len ≤ length pkt
    → elem_at pkt 0 / 2 ^ 4 ≡ 4
    → check_fragment more (units * 8) (total_len - ihl) ≡ ok tt
    → parse_ipv4 pkt ≡ ok (header_of pkt ihl total_len more (units * 8))
unfolding parse_ipv4
parse_ipv4_ok pkt ihl total_len units more e₁ e₂ e₃ hu h₁ h₂ h₃ h₄ h₅ =
    let m = flags_word-more more units hu in
    let o = flags_word-offset more units hu in
    let fields : parse_fields pkt ihl total_len (flags_word more units)
        ≡ ok (header_of pkt ihl total_len more (units * 8)) =
      parse_fields_ok pkt ihl total_len (flags_word more units) h₁ h₂ h₃ h₄ (
        ap
          (λ (b : Bool).
            check_fragment b (bit_and (flags_word more units) frag_offset_mask * 8)
              (total_len - ihl))
          m
        ∙ ap (λ (t : ℕ). check_fragment more (t * 8) (total_len - ihl)) o
        ∙ h₅)
      ∙ ap
          (λ (b : Bool).
            ok (
              header_of pkt ihl total_len b (bit_and (flags_word more units) frag_offset_mask * 8)))
          m
      ∙ ap (λ (t : ℕ). ok (header_of pkt ihl total_len more (t * 8))) o in
    ap (λ (t : ℕ). parse_fields pkt t (uint16_of (drop 2 pkt)) (uint16_of (drop 6 pkt))) e₁
    ∙ ap (λ (t : ℕ). parse_fields pkt ihl t (uint16_of (drop 6 pkt))) e₂
    ∙ ap (λ (t : ℕ). parse_fields pkt ihl total_len t) e₃
    ∙ fields

-- A built packet parses to what it was built from, as a complete datagram.
pub parse_ipv4-build_ipv4 :
    (src dst : Addr) (protocol : ℕ) (payload : List ℕ)
    → length payload + min_ipv4_header_len < 2 ^ 16
    → parse_ipv4 (build_ipv4 [] src dst protocol payload)
      ≡ ok (record {
        ihl = 20;
        total_len = 20 + length payload;
        protocol = protocol;
        src = src;
        dst = dst;
        payload_off = 20;
        id = 0;
        more_fragments = false;
        frag_offset = 0;
      })
unfolding build_ipv4 check_fragment
parse_ipv4-build_ipv4 src dst protocol payload h =
    parse_ipv4_ok (build_ipv4 [] src dst protocol payload) 20 (20 + length payload) 0 false refl
      (omega arith) refl (omega arith) (omega arith) (omega arith) (omega arith) refl refl
