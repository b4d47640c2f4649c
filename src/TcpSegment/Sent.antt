-- ===== src/TcpSegment/Sent.antt =====
-- The segments that `buildTCP` makes: they parse back, and their checksum verifies.
use govpn.Base.{
  ℕ, ◌+◌, ◌*◌, ◌/◌, ◌%◌, ◌^◌, ◌≤◌, ◌<◌, Bool, false, ◌≡◌, refl, ap, ◌∙◌, sym, List, [], ◌∷◌, ◌++◌,
  length, All, ok, length-append, All-append, Bool-cases, inl, inr, arith,
}
use govpn.Base.Words.{be16, be32, IsByte, IsU16}
use govpn.Frame.{
  Addr, protocol_tcp, transport_checksum, pseudo_header_sum, complement16, fold_carries,
  carry_rounds,
}
use govpn.Frame.Checksum.{total, total_bound, transport_checksum-total, checksum_cancels}
use govpn.Frame.Verifies.{IsAddr, pseudo_header_sum_lem}
use govpn.TcpSegment.{TcpSegment, parse_tcp, header_len, mss_option, tcp_bytes, build_tcp}
use govpn.TcpSegment.Options.{max_segment_size, encode, encode_all, last_mss, nothing}
use govpn.TcpSegment.Build.{IsSegment, on_wire, parse_tcp-on_wire}

-- The checksum's bytes and the zero urgent pointer.
abbrev trailer : ℕ → List ℕ
trailer c = be16 c ++ (0 ∷ 0 ∷ [])

tcp_bytes_parts :
    (seg : TcpSegment) (c words : ℕ) (opts : List ℕ)
    → header_len seg / 4 * 2 ^ 4 % 256 ≡ (5 + words) * 16 + 0
    → mss_option seg ≡ opts
    → tcp_bytes seg c ≡ on_wire seg words 0 (trailer c) opts
unfolding tcp_bytes
tcp_bytes_parts seg c words opts e₁ e₂ =
    ap
      (λ (x : ℕ).
        be16 seg.src_port
        ++ be16 seg.dst_port
        ++ be32 seg.seq
        ++ be32 seg.ack
        ++ (x ∷ seg.flags ∷ be16 seg.window)
        ++ be16 c
        ++ (0 ∷ 0 ∷ (mss_option seg ++ seg.payload)))
      e₁
    ∙ ap (λ (o : List ℕ). on_wire seg words 0 (trailer c) o) e₂

parse_tcp-tcp_bytes :
    (seg : TcpSegment) (c : ℕ)
    → IsSegment seg
    → IsU16 seg.mss
    → (seg.has_mss ≡ false → seg.mss ≡ 0)
    → parse_tcp (tcp_bytes seg c) ≡ ok seg
unfolding encode_all encode last_mss header_len mss_option
parse_tcp-tcp_bytes seg c v hm absent = elim (Bool-cases seg.has_mss) [
  | inl yes' ↦
      ap parse_tcp
        (tcp_bytes_parts seg c 1 (2 ∷ 4 ∷ be16 seg.mss) (simp yes' refl) (simp yes' refl))
      ∙ parse_tcp-on_wire seg 1 0 (trailer c) (max_segment_size seg.mss ∷ []) [] v (omega arith)
          (hm, tt) nothing (omega arith) (ap (λ (b : Bool). (b, seg.mss)) (sym yes'))
  | inr no' ↦
      ap parse_tcp (tcp_bytes_parts seg c 0 [] (simp no' refl) (simp no' refl))
      ∙ parse_tcp-on_wire seg 0 0 (trailer c) [] [] v (omega arith) tt nothing (omega arith) (
          ap (λ (b : Bool). (b, 0)) (sym no') ∙ ap (λ (m : ℕ). (seg.has_mss, m)) (sym (absent no')))
]

-- A built segment parses back to what it was built from.
pub parse_tcp-build_tcp :
    (seg : TcpSegment) (src dst : Addr)
    → IsSegment seg
    → IsU16 seg.mss
    → (seg.has_mss ≡ false → seg.mss ≡ 0)
    → parse_tcp (build_tcp [] seg src dst) ≡ ok seg
unfolding build_tcp
parse_tcp-build_tcp seg src dst =
    parse_tcp-tcp_bytes seg (transport_checksum src dst protocol_tcp (tcp_bytes seg 0))

mss_option-bytes : (seg : TcpSegment) → All IsByte (mss_option seg) × (length (mss_option seg) ≤ 4)
unfolding mss_option
mss_option-bytes seg = ground arith

tcp_bytes-bytes :
    (seg : TcpSegment) (c : ℕ)
    → IsByte seg.flags
    → All IsByte seg.payload
    → All IsByte (tcp_bytes seg c)
unfolding tcp_bytes
tcp_bytes-bytes seg c hf hp =
    let tail : All IsByte (mss_option seg ++ seg.payload) =
      All-append IsByte (mss_option seg) seg.payload (mss_option-bytes seg).0 hp in
    ground (arith, tail)

tcp_bytes-total :
    (seg : TcpSegment) (c : ℕ) → total (tcp_bytes seg c) ≡ total (tcp_bytes seg 0) + c % 2 ^ 16
unfolding tcp_bytes total
tcp_bytes-total seg c = omega arith

length-tcp_bytes :
    (seg : TcpSegment) (c : ℕ)
    → length (tcp_bytes seg c) ≡ 20 + length (mss_option seg ++ seg.payload)
unfolding tcp_bytes
length-tcp_bytes seg c = omega arith

-- The checksum of a built segment, between IPv4 addresses and for a payload that fits, verifies.
pub build_tcp-checksum :
    (seg : TcpSegment) (src dst : Addr)
    → IsAddr src
    → IsAddr dst
    → IsByte seg.flags
    → All IsByte seg.payload
    → length seg.payload + 24 < 2 ^ 16
    → transport_checksum src dst protocol_tcp (build_tcp [] seg src dst) ≡ 0
unfolding build_tcp
build_tcp-checksum seg src dst s d hf hp l =
    let zeroed : List ℕ = tcp_bytes seg 0 in
    let c : ℕ = transport_checksum src dst protocol_tcp zeroed in
    let filled : List ℕ = tcp_bytes seg c in
    let hz : All IsByte zeroed = tcp_bytes-bytes seg 0 hf hp in
    let hc : All IsByte filled = tcp_bytes-bytes seg c hf hp in
    let n : ℕ = length (mss_option seg ++ seg.payload) in
    let small : n ≤ 4 + length seg.payload =
      omega (arith, length-append (mss_option seg) seg.payload, (mss_option-bytes seg).1) in
    let lz : length zeroed ≡ 20 + n = length-tcp_bytes seg 0 in
    let lf : length filled ≡ 20 + n = length-tcp_bytes seg c in
    let base : ℕ = pseudo_header_sum src dst protocol_tcp ((20 + n) % 2 ^ 16) in
    let bb : base ≤ 2 ^ 19 = omega (
      arith,
      pseudo_header_sum_lem src dst protocol_tcp ((20 + n) % 2 ^ 16) s d (omega arith)
          (omega arith),
    ) in
    let bz : 2 * total zeroed ≤ (21 + n) * 65535 = omega (arith, total_bound zeroed hz, lz) in
    let bf : 2 * total filled ≤ (21 + n) * 65535 = omega (arith, total_bound filled hc, lf) in
    let ez : pseudo_header_sum src dst protocol_tcp (length zeroed % 2 ^ 16) ≡ base =
      ap (λ (t : ℕ). pseudo_header_sum src dst protocol_tcp (t % 2 ^ 16)) lz in
    let ef : pseudo_header_sum src dst protocol_tcp (length filled % 2 ^ 16) ≡ base =
      ap (λ (t : ℕ). pseudo_header_sum src dst protocol_tcp (t % 2 ^ 16)) lf in
    let e : c ≡ complement16 (fold_carries carry_rounds (base + total zeroed)) =
      transport_checksum-total src dst protocol_tcp zeroed hz (omega (arith, ez))
      ∙ ap (λ (t : ℕ). complement16 (fold_carries carry_rounds (t + total zeroed))) ez in
    transport_checksum-total src dst protocol_tcp filled hc (omega (arith, ef))
    ∙ ap (λ (t : ℕ). complement16 (fold_carries carry_rounds (t + total filled))) ef
    ∙ checksum_cancels (base + total zeroed) (base + total filled) c e
        (omega (arith, tcp_bytes-total seg c, e)) (omega arith)
