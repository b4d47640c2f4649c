-- ===== src/TcpSegment.antt =====
-- netstack/tcp_segment.go: TCP headers, the option walk and the MSS option.
pub mod Options
pub mod Build
pub mod Sent
pub mod Runs
use govpn.Base.{
  ◌>>=◌, ◌>>◌, ℕ, zero, suc, ◌+◌, ◌-◌, ◌*◌, ◌/◌, ◌%◌, ◌^◌, bit_and, Bool, true, false, not, ◌||◌,
  ltb, ◌==◌, if◌then◌else◌, List, [], ◌∷◌, ◌++◌, length, take, drop, elem_at, Result, ok, err,
  guard,
}
use govpn.Base.Words.{add32, be16, be32, uint16_of, uint32_of}
use govpn.Frame.{Addr, protocol_tcp, transport_checksum}

abbrev pub flag_fin : ℕ
flag_fin = 0x01

abbrev pub flag_syn : ℕ
flag_syn = 0x02

abbrev pub tcp_header_min_len : ℕ
tcp_header_min_len = 20

abbrev pub mss_option_kind : ℕ
mss_option_kind = 2

abbrev pub mss_option_len : ℕ
mss_option_len = 4

pub data Error : Type 0 where
  tcp_too_short tcp_bad_data_offset tcp_bad_option : Error

pub record TcpSegment : Type 0 where
  pub src_port : ℕ
  pub dst_port : ℕ
  pub seq : ℕ
  pub ack : ℕ
  pub flags : ℕ
  pub window : ℕ
  pub has_mss : Bool
  pub mss : ℕ
  pub payload : List ℕ

unfoldable pub seg_len : TcpSegment → ℕ
seg_len s =
    let n₁ : ℕ = length s.payload % 2 ^ 32 in
    let n₂ : ℕ = (if bit_and s.flags flag_syn == 0 then n₁ else add32 n₁ 1) in
    if bit_and s.flags flag_fin == 0 then n₂ else add32 n₂ 1

-- The option walk; the state is (hasMSS, mss), and the first argument bounds the rounds.
unfoldable pub walk_options : ℕ → List ℕ → Bool × ℕ → Result Error (Bool × ℕ)
walk_options zero opts m = ok m
walk_options (suc rounds) [] m = ok m
walk_options (suc rounds) (kind ∷ []) m =
    if kind == 0 then ok m else if kind == 1 then ok m else err tcp_bad_option
walk_options (suc rounds) (kind ∷ opt_len ∷ opts) m =
    let after_nop : Result Error (Bool × ℕ) = walk_options rounds (opt_len ∷ opts) m in
    let m₁ : Bool × ℕ = (if kind == mss_option_kind then (true, uint16_of opts) else m) in
    let after : Result Error (Bool × ℕ) =
      walk_options rounds (drop opt_len (kind ∷ opt_len ∷ opts)) m₁ in
    if kind == 0
    then ok m
    else if kind == 1
    then after_nop
    else if ltb opt_len 2 || ltb (2 + length opts) opt_len
    then err tcp_bad_option
    else if kind == mss_option_kind
    then (if opt_len == mss_option_len then after else err tcp_bad_option)
    else after

-- A round takes at least one byte, so the length bounds the rounds.
unfoldable pub parse_tcp : List ℕ → Result Error TcpSegment
unfolding walk_options
parse_tcp payload =
    let data_offset : ℕ = elem_at payload 12 / 2 ^ 4 * 4 in
    let opts : List ℕ = take (data_offset - tcp_header_min_len) (drop tcp_header_min_len payload) in
    do
      guard (not (ltb (length payload) tcp_header_min_len)) tcp_too_short
      guard (not (ltb data_offset tcp_header_min_len || ltb (length payload) data_offset))
          tcp_bad_data_offset
      (has_mss, mss) ← walk_options (length opts) opts (false, 0)
      ok (record {
        src_port = uint16_of payload;
        dst_port = uint16_of (drop 2 payload);
        seq = uint32_of (drop 4 payload);
        ack = uint32_of (drop 8 payload);
        flags = elem_at payload 13;
        window = uint16_of (drop 14 payload);
        has_mss = has_mss;
        mss = mss;
        payload = drop data_offset payload;
      })

unfoldable pub header_len : TcpSegment → ℕ
header_len seg = if seg.has_mss then tcp_header_min_len + mss_option_len else tcp_header_min_len

-- The option that follows the fixed header, if any.
unfoldable pub mss_option : TcpSegment → List ℕ
mss_option seg = if seg.has_mss then mss_option_kind ∷ mss_option_len ∷ be16 seg.mss else []

-- The whole segment with a given checksum field; the urgent pointer is zero.
unfoldable pub tcp_bytes : TcpSegment → ℕ → List ℕ
unfolding header_len mss_option
tcp_bytes seg checksum =
    be16 seg.src_port
    ++ be16 seg.dst_port
    ++ be32 seg.seq
    ++ be32 seg.ack
    ++ (header_len seg / 4 * 2 ^ 4 % 256 ∷ seg.flags ∷ be16 seg.window)
    ++ be16 checksum
    ++ (0 ∷ 0 ∷ (mss_option seg ++ seg.payload))

unfoldable pub build_tcp : List ℕ → TcpSegment → Addr → Addr → List ℕ
unfolding tcp_bytes
build_tcp dst seg src dst_addr =
    dst ++ tcp_bytes seg (transport_checksum src dst_addr protocol_tcp (tcp_bytes seg 0))
