-- ===== src/TcpSegment/Build.antt =====
-- Parsing what was written: segments with any options, and the ones that `buildTCP` makes.
use govpn.Base.{
  ℕ, zero, suc, ◌+◌, ◌-◌, ◌*◌, ◌/◌, ◌^◌, ◌<◌, Bool, false, not, ◌||◌, ltb, ◌≡◌, refl, ap, ◌∙◌, List,
  [], ◌∷◌, ◌++◌, length, take, drop, elem_at, All, Result, ok, guard, ◌>>=◌, ◌>>◌, length-append,
  take-append_length, drop-append_length, arith,
}
use govpn.Base.Words.{
  be16, be32, uint16_of, uint32_of, IsU16, IsU32, from_be16-be16, from_be32-be32,
}
use govpn.TcpSegment.{TcpSegment, Error, walk_options, parse_tcp, tcp_header_min_len}
use govpn.TcpSegment.Options.{
  TcpOption, encode_all, IsOption, last_mss, Padding, walk_options-encode_all,
}

-- The fields fit their widths.
pub record IsSegment (seg : TcpSegment) : Type 0 where
  pub src_port_u16 : IsU16 seg.src_port
  pub dst_port_u16 : IsU16 seg.dst_port
  pub seq_u32 : IsU32 seg.seq
  pub ack_u32 : IsU32 seg.ack
  pub window_u16 : IsU16 seg.window

-- A segment on the wire: `words` counts the four-byte words of the options, `reserved` is the low half
-- of the offset byte, and the checksum and the urgent pointer are any bytes.
abbrev pub on_wire : TcpSegment → ℕ → ℕ → List ℕ → List ℕ → List ℕ
on_wire seg words reserved unread opts =
    be16 seg.src_port
    ++ be16 seg.dst_port
    ++ be32 seg.seq
    ++ be32 seg.ack
    ++ (((5 + words) * 16 + reserved) ∷ seg.flags ∷ be16 seg.window)
    ++ (elem_at unread 0
        ∷ elem_at unread 1
        ∷ elem_at unread 2
        ∷ elem_at unread 3
        ∷ (opts ++ seg.payload))

-- The parser with the data offset told.
parsed : List ℕ → ℕ → Result Error TcpSegment
parsed payload data_offset =
    let opts : List ℕ = take (data_offset - tcp_header_min_len) (drop tcp_header_min_len payload) in
    do
      guard (not (ltb (length payload) tcp_header_min_len)) Error.tcp_too_short
      guard (not (ltb data_offset tcp_header_min_len || ltb (length payload) data_offset))
          Error.tcp_bad_data_offset
      (has_mss, mss) ← walk_options (length opts) opts (false, 0)
      ok (record {
        src_port = uint16_of payload;
        dst_port = uint16_of (drop 2 payload);
        seq = uint32_of (drop 4 payload);
        ack = uint32_of (drop 8 payload);
        flags = elem_at payload 13;
        window = uint16_of (drop 14 payload);
        has_mss = has_mss;
        mss = mss;
        payload = drop data_offset payload;
      })

parse_tcp-parsed : (p : List ℕ) → parse_tcp p ≡ parsed p (elem_at p 12 / 2 ^ 4 * 4)
unfolding parse_tcp parsed
parse_tcp-parsed p = refl

drop_add : (xs : List ℕ) (a n d : ℕ) → d ≡ a + n → drop d xs ≡ drop n (drop a xs)
drop_add xs zero n d e = ap (λ (t : ℕ). drop t xs) (e ∙ omega arith)
drop_add xs (suc a) n zero e = absurd (omega arith)
drop_add [] (suc a) zero (suc d) e = refl
drop_add [] (suc a) (suc n) (suc d) e = refl
drop_add (x ∷ xs) (suc a) n (suc d) e = drop_add xs a n d (omega arith)

parsed_ok :
    (p opts rest : List ℕ) (d : ℕ) (m : Bool × ℕ)
    → drop 20 p ≡ opts ++ rest
    → d ≡ 20 + length opts
    → length p ≡ 20 + length (opts ++ rest)
    → walk_options (length opts) opts (false, 0) ≡ ok m
    → parsed p d
      ≡ ok (record {
        src_port = uint16_of p;
        dst_port = uint16_of (drop 2 p);
        seq = uint32_of (drop 4 p);
        ack = uint32_of (drop 8 p);
        flags = elem_at p 13;
        window = uint16_of (drop 14 p);
        has_mss = m.0;
        mss = m.1;
        payload = rest;
      })
unfolding parsed
parsed_ok p opts rest d m e hd hp w =
    let g₁ : ltb (length p) 20 ≡ false = ground arith in
    let g₂ : (ltb d 20 || ltb (length p) d) ≡ false = ground (arith, length-append opts rest) in
    let o : take (d - 20) (drop 20 p) ≡ opts =
      ap (λ (t : List ℕ). take (d - 20) t) e
      ∙ take-append_length (d - 20) opts rest (omega arith) in
    let r : drop d p ≡ rest =
      drop_add p 20 (length opts) d hd
      ∙ ap (λ (t : List ℕ). drop (length opts) t) e
      ∙ drop-append_length (length opts) opts rest refl in
    rw (g₁, g₂, o, w, r)

-- The fields read, put together.
told : TcpSegment → ℕ → ℕ → ℕ → ℕ → ℕ → Result Error TcpSegment
told seg src_port dst_port seq ack window =
    ok (record seg {
      src_port = src_port;
      dst_port = dst_port;
      seq = seq;
      ack = ack;
      window = window;
    })

told_ap :
    (seg : TcpSegment) {s s' d d' q q' a a' w w' : ℕ}
    → s ≡ s'
    → d ≡ d'
    → q ≡ q'
    → a ≡ a'
    → w ≡ w'
    → told seg s d q a w ≡ told seg s' d' q' a' w'
told_ap seg {s} {s'} {d} {d'} {q} {q'} {a} {a'} {w} {w'} e₁ e₂ e₃ e₄ e₅ =
    ap (λ (x : ℕ). told seg x d q a w) e₁
    ∙ ap (λ (x : ℕ). told seg s' x q a w) e₂
    ∙ ap (λ (x : ℕ). told seg s' d' x a w) e₃
    ∙ ap (λ (x : ℕ). told seg s' d' q' x w) e₄
    ∙ ap (λ (x : ℕ). told seg s' d' q' a' x) e₅

-- A segment with any options, its header padded to whole words, parses to its fields, its payload and
-- its last MSS option.
pub parse_tcp-on_wire :
    (seg : TcpSegment) (words reserved : ℕ) (unread : List ℕ) (os : List TcpOption) (tail : List ℕ)
    → IsSegment seg
    → reserved < 16
    → All IsOption os
    → Padding tail
    → length (encode_all os ++ tail) ≡ 4 * words
    → last_mss os (false, 0) ≡ (seg.has_mss, seg.mss)
    → parse_tcp (on_wire seg words reserved unread (encode_all os ++ tail)) ≡ ok seg
unfolding told
parse_tcp-on_wire seg words reserved unread os tail v hr ho hp hw hm =
    let opts : List ℕ = encode_all os ++ tail in
    let p : List ℕ = on_wire seg words reserved unread opts in
    parse_tcp-parsed p
    ∙ parsed_ok p opts seg.payload (((5 + words) * 16 + reserved) / 2 ^ 4 * 4)
        (seg.has_mss, seg.mss) refl (omega arith) (omega arith)
        (walk_options-encode_all os tail (false, 0) (length opts) ho hp (omega arith)
          ∙ ap (λ (m : Bool × ℕ). ok m) hm)
    ∙ told_ap seg (from_be16-be16 seg.src_port v.src_port_u16)
        (from_be16-be16 seg.dst_port v.dst_port_u16) (from_be32-be32 seg.seq v.seq_u32)
        (from_be32-be32 seg.ack v.ack_u32) (from_be16-be16 seg.window v.window_u16)
