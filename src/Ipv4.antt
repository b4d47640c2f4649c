-- ===== src/Ipv4.antt =====
-- netstack/ipv4.go: the IPv4 header parser and the fragmentation of a datagram. `buildIPv4` and the
-- checksum functions there only call those of the frame package.
pub mod Writes
pub mod FragmentHeader
pub mod Parse
pub mod Fragments
pub mod Inversion
pub mod Tiling
pub mod Runs
use govpn.Base.{
  ◌>>=◌, ◌>>◌, ℕ, zero, suc, ◌+◌, ◌-◌, ◌*◌, ◌/◌, ◌%◌, ◌^◌, bit_and, bit_or, Bool, not, ◌&&◌, ◌||◌,
  ltb, ◌==◌, if◌then◌else◌, List, [], ◌∷◌, ◌++◌, length, take, drop, set, elem_at, Result, ok,
  guard,
}
use govpn.Base.Words.{uint16_of}
use govpn.Frame.{Addr, min_ipv4_header_len, internet_checksum}

abbrev pub flag_more_fragments : ℕ
flag_more_fragments = 0x2000

abbrev pub frag_offset_mask : ℕ
frag_offset_mask = 0x1FFF

abbrev pub max_ipv4_datagram : ℕ
max_ipv4_datagram = 65535

pub data Error : Type 0 where
  too_short not_ipv4 bad_ihl bad_total_length bad_fragment : Error

pub record Ipv4Header : Type 0 where
  pub ihl : ℕ
  pub total_len : ℕ
  pub protocol : ℕ
  pub src : Addr
  pub dst : Addr
  pub payload_off : ℕ
  pub id : ℕ
  pub more_fragments : Bool
  pub frag_offset : ℕ

unfoldable pub is_fragment : Ipv4Header → Bool
is_fragment h = h.more_fragments || not (h.frag_offset == 0)

-- `netip.AddrFrom4` of the four bytes at an index.
abbrev pub addr_at : List ℕ → ℕ → Addr
addr_at pkt i = record {
  b₀ = elem_at pkt i;
  b₁ = elem_at pkt (i + 1);
  b₂ = elem_at pkt (i + 2);
  b₃ = elem_at pkt (i + 3);
}

-- The geometry of a fragment; a complete datagram passes.
unfoldable pub check_fragment : Bool → ℕ → ℕ → Result Error (Unit {0})
check_fragment more_fragments frag_offset payload_len =
    if more_fragments || not (frag_offset == 0)
    then (do
      guard (not (payload_len == 0)) bad_fragment
      guard (not (more_fragments && not (payload_len % 8 == 0))) bad_fragment
      guard (not (ltb max_ipv4_datagram (frag_offset + payload_len))) bad_fragment)
    else ok tt

-- The checks in their order, given the fields that they are about.
unfoldable pub parse_fields : List ℕ → ℕ → ℕ → ℕ → Result Error Ipv4Header
unfolding check_fragment
parse_fields pkt ihl total_len flags_frag_offset =
    let more_fragments : Bool = not (bit_and flags_frag_offset flag_more_fragments == 0) in
    let frag_offset : ℕ = bit_and flags_frag_offset frag_offset_mask * 8 in
    do
      guard (not (ltb (length pkt) min_ipv4_header_len)) too_short
      guard (elem_at pkt 0 / 2 ^ 4 == 4) not_ipv4
      guard (not (ltb ihl min_ipv4_header_len || ltb (length pkt) ihl)) bad_ihl
      guard (not (ltb total_len ihl || ltb (length pkt) total_len)) bad_total_length
      check_fragment more_fragments frag_offset (total_len - ihl)
      ok (record {
        ihl = ihl;
        total_len = total_len;
        protocol = elem_at pkt 9;
        src = addr_at pkt 12;
        dst = addr_at pkt 16;
        payload_off = ihl;
        id = uint16_of (drop 4 pkt);
        more_fragments = more_fragments;
        frag_offset = frag_offset;
      })

unfoldable pub parse_ipv4 : List ℕ → Result Error Ipv4Header
unfolding parse_fields
parse_ipv4 pkt =
    parse_fields pkt (bit_and (elem_at pkt 0) 0x0F * 4) (uint16_of (drop 2 pkt))
      (uint16_of (drop 6 pkt))

-- `binary.BigEndian.PutUint16(b[i:i+2], v)`.
abbrev pub put_uint16 : List ℕ → ℕ → ℕ → List ℕ
put_uint16 b i v = set (set b i (v / 2 ^ 8 % 256)) (suc i) (v % 256)

-- `payload`.
abbrev pub datagram : Ipv4Header → List ℕ → List ℕ
datagram hdr pkt = take (hdr.total_len - hdr.payload_off) (drop hdr.payload_off pkt)

-- The fragment whose data is `chunk`, at offset `off`; `last` is `end == len(payload)`.
unfoldable pub fragment : Ipv4Header → List ℕ → ℕ → List ℕ → ℕ → Bool → List ℕ
fragment hdr pkt id chunk off last =
    let frag₁ : List ℕ =
      put_uint16 (take hdr.ihl pkt ++ chunk) 2 ((hdr.ihl + length chunk) % 2 ^ 16) in
    let frag₂ : List ℕ = put_uint16 frag₁ 4 id in
    let flags : ℕ = off / 8 % 2 ^ 16 in
    let flags_frag_offset : ℕ = (if last then flags else bit_or flags flag_more_fragments) in
    let frag₃ : List ℕ = put_uint16 frag₂ 6 flags_frag_offset in
    let frag₄ : List ℕ = put_uint16 frag₃ 10 0 in
    put_uint16 frag₄ 10 (internet_checksum (take hdr.ihl frag₄))

-- `(mtu - hdr.ihl) &^ 7`, which is not positive where this is zero.
abbrev pub max_data : Ipv4Header → ℕ → ℕ
max_data hdr mtu = (mtu - hdr.ihl) / 8 * 8

-- The loop from an offset on; `rest` is what the payload has from there, and the first argument bounds
-- the rounds.
unfoldable pub fragments_from : ℕ → Ipv4Header → List ℕ → ℕ → ℕ → List ℕ → ℕ → List (List ℕ)
unfolding fragment
fragments_from zero hdr pkt size id rest off = []
fragments_from (suc rounds) hdr pkt size id [] off = []
fragments_from (suc rounds) hdr pkt size id (b ∷ bs) off =
    fragment hdr pkt id (take size (b ∷ bs)) off (not (ltb size (length (b ∷ bs))))
    ∷ fragments_from rounds hdr pkt size id (drop size (b ∷ bs)) (off + size)

-- A round takes at least one byte, so the payload's length bounds the rounds.
unfoldable pub fragment_ipv4 : Ipv4Header → List ℕ → ℕ → ℕ → List (List ℕ)
unfolding fragments_from
fragment_ipv4 hdr pkt mtu id =
    if max_data hdr mtu == 0
    then []
    else fragments_from (length (datagram hdr pkt)) hdr pkt (max_data hdr mtu) id (datagram hdr pkt)
        0
