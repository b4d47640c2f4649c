-- ===== src/Ipv4/Inversion.antt =====
-- What a packet that parses is known to be.
use govpn.Base.{
  ok_inj, ℕ, ◌-◌, ◌*◌, ◌/◌, ◌^◌, ◌≤◌, bit_and, not, ◌||◌, ltb, ◌==◌, ◌≡◌, refl, ap, subst, List, [],
  ◌∷◌, length, drop, elem_at, All, All-drop, ok, >>=-eq-ok, guard_then, arith,
}
use govpn.Base.Words.{uint16_of, IsByte}
use govpn.Base.Bits.{bit_and_low}
use govpn.Frame.{min_ipv4_header_len}
use govpn.Ipv4.{
  Ipv4Header, Error, parse_ipv4, parse_fields, check_fragment, flag_more_fragments,
  frag_offset_mask, max_ipv4_datagram,
}
use govpn.Ipv4.Parse.{header_of}
use govpn.Ipv4.Fragments.{IsDatagram}

uint16_of_bound : (b : List ℕ) → All IsByte b → uint16_of b ≤ max_ipv4_datagram
uint16_of_bound [] h = omega arith
uint16_of_bound (x ∷ []) h = omega arith
uint16_of_bound (x ∷ y ∷ b) h = ground arith

pub parse_fields_inv :
    (pkt : List ℕ) (ihl total_len flags : ℕ) (hdr : Ipv4Header)
    → parse_fields pkt ihl total_len flags ≡ ok hdr
    → (elem_at pkt 0 / 2 ^ 4 ≡ 4)
      × (min_ipv4_header_len ≤ ihl)
      × (ihl ≤ total_len)
      × (total_len ≤ length pkt)
      × (header_of pkt ihl total_len
            (not (bit_and flags flag_more_fragments == 0))
            (bit_and flags frag_offset_mask * 8)
          ≡ hdr)
unfolding parse_fields
parse_fields_inv pkt ihl total_len flags hdr h =
    let (g₁, h₁) = guard_then (not (ltb (length pkt) min_ipv4_header_len)) Error.too_short _ h in
    let (g₂, h₂) = guard_then (elem_at pkt 0 / 2 ^ 4 == 4) Error.not_ipv4 _ h₁ in
    let (g₃, h₃) =
      guard_then (not (ltb ihl min_ipv4_header_len || ltb (length pkt) ihl)) Error.bad_ihl _ h₂ in
    let (g₄, h₄) =
      guard_then (not (ltb total_len ihl || ltb (length pkt) total_len)) Error.bad_total_length _
        h₃ in
    let (u, c, h₅) =
      >>=-eq-ok
        (check_fragment (not (bit_and flags flag_more_fragments == 0))
          (bit_and flags frag_offset_mask * 8) (total_len - ihl))
        _ h₄ in
    (ground (arith, g₂), ground (arith, g₃), ground (arith, g₄), ground (arith, g₄), ok_inj h₅)

-- A packet that parses holds a datagram under the header read.
pub parsed-IsDatagram :
    (pkt : List ℕ) (hdr : Ipv4Header)
    → hdr.total_len ≤ max_ipv4_datagram
    → parse_ipv4 pkt ≡ ok hdr
    → IsDatagram pkt hdr × (uint16_of (drop 4 pkt) ≡ hdr.id)
unfolding parse_ipv4
parsed-IsDatagram pkt hdr bound h =
    let ihl : ℕ = bit_and (elem_at pkt 0) 0x0F * 4 in
    let total_len : ℕ = uint16_of (drop 2 pkt) in
    let (v, i, t, w, e) = parse_fields_inv pkt ihl total_len (uint16_of (drop 6 pkt)) hdr h in
    let total : total_len ≡ hdr.total_len = ap (λ (x : Ipv4Header). x.total_len) e in
    (
      subst (IsDatagram pkt) e (record {
        ihl_read = refl;
        version = v;
        header_fits = i;
        short_header = omega (arith, bit_and_low 4 (elem_at pkt 0));
        fits = t;
        within = w;
        total_u16 = omega (arith, total, bound);
        off = refl;
        protocol_read = refl;
        src_read = refl;
        dst_read = refl;
      }),
      ap (λ (x : Ipv4Header). x.id) e,
    )

total_len_bound :
    (pkt : List ℕ) (hdr : Ipv4Header)
    → All IsByte pkt
    → parse_ipv4 pkt ≡ ok hdr
    → hdr.total_len ≤ max_ipv4_datagram
unfolding parse_ipv4
total_len_bound pkt hdr bytes h =
    let total_len : ℕ = uint16_of (drop 2 pkt) in
    let (_, _, _, _, e) =
      parse_fields_inv pkt (bit_and (elem_at pkt 0) 0x0F * 4) total_len (uint16_of (drop 6 pkt)) hdr
        h in
    let total : total_len ≡ hdr.total_len = ap (λ (x : Ipv4Header). x.total_len) e in
    omega (arith, total, uint16_of_bound (drop 2 pkt) (All-drop IsByte 2 pkt bytes))

pub parse_ipv4-IsDatagram :
    (pkt : List ℕ) (hdr : Ipv4Header)
    → All IsByte pkt
    → parse_ipv4 pkt ≡ ok hdr
    → IsDatagram pkt hdr
parse_ipv4-IsDatagram pkt hdr bytes h =
    (parsed-IsDatagram pkt hdr (total_len_bound pkt hdr bytes h) h).0
