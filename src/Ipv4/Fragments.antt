-- ===== src/Ipv4/Fragments.antt =====
-- The fragments of a datagram: what each parses to, and that they hold the payload in order.
use govpn.Base.{
  ℕ, ◌+◌, ◌-◌, ◌*◌, ◌/◌, ◌%◌, ◌^◌, ◌≤◌, ◌<◌, bit_and, bit_or, Bool, true, false, not, if◌then◌else◌,
  ◌≡◌, ◌⊎◌, refl, ap, ◌∙◌, sym, subst, List, ◌++◌, length, take, drop, elem_at, ok, length-append,
  length-take, drop-append_length, inl, inr, arith,
}
use govpn.Base.Words.{uint16_of, IsU16}
use govpn.Frame.{Addr, min_ipv4_header_len}
use govpn.Ipv4.{
  Ipv4Header, addr_at, parse_ipv4, check_fragment, fragment, flag_more_fragments, max_ipv4_datagram,
}
use govpn.Ipv4.Parse.{flags_word, flags_word_lem, parse_ipv4_ok}
use govpn.Ipv4.Writes.{elem_at-take_append}
use govpn.Ipv4.FragmentHeader.{
  length-writes, drop-writes, elem_at-writes, flags-writes, id-writes, length_field-writes,
}

-- A packet that holds a complete datagram under its header.
pub record IsDatagram (pkt : List ℕ) (hdr : Ipv4Header) : Type 0 where
  pub ihl_read : bit_and (elem_at pkt 0) 0x0F * 4 ≡ hdr.ihl
  pub version : elem_at pkt 0 / 2 ^ 4 ≡ 4
  pub header_fits : min_ipv4_header_len ≤ hdr.ihl
  pub short_header : hdr.ihl ≤ 60
  pub fits : hdr.ihl ≤ hdr.total_len
  pub within : hdr.total_len ≤ length pkt
  pub total_u16 : hdr.total_len ≤ max_ipv4_datagram
  pub off : hdr.payload_off ≡ hdr.ihl
  pub protocol_read : elem_at pkt 9 ≡ hdr.protocol
  pub src_read : addr_at pkt 12 ≡ hdr.src
  pub dst_read : addr_at pkt 16 ≡ hdr.dst

-- The header of a fragment.
abbrev pub fragment_header : Ipv4Header → ℕ → ℕ → Bool → ℕ → Ipv4Header
fragment_header hdr id size more off = record {
  ihl = hdr.ihl;
  total_len = hdr.ihl + size;
  protocol = hdr.protocol;
  src = hdr.src;
  dst = hdr.dst;
  payload_off = hdr.ihl;
  id = id;
  more_fragments = more;
  frag_offset = off;
}

abbrev four : ℕ → ℕ → ℕ → ℕ → Addr
four a b c e = record { b₀ = a; b₁ = b; b₂ = c; b₃ = e }

ap4 {ℓ} :
    {B : Type ℓ} {A₁ A₂ A₃ A₄ : Type 0} (f : A₁ → A₂ → A₃ → A₄ → B) {a a' : A₁} {b b' : A₂}
    {c c' : A₃} {e e' : A₄}
    → a ≡ a'
    → b ≡ b'
    → c ≡ c'
    → e ≡ e'
    → f a b c e ≡ f a' b' c' e'
ap4 f {a} {a'} {b} {b'} {c} {c'} {e} {e'} p q r s =
    ap (λ x. f x b c e) p
    ∙ ap (λ x. f a' x c e) q
    ∙ ap (λ x. f a' b' x e) r
    ∙ ap (λ x. f a' b' c' x) s

flags_word_bound : (more : Bool) (units : ℕ) → units < 2 ^ 13 → flags_word more units < 2 ^ 16
flags_word_bound true units h = omega (arith, flags_word_lem true units h)
flags_word_bound false units h = omega arith

check_fragment_ok :
    (more : Bool) (off size total ihl : ℕ)
    → total ≡ ihl + size
    → 0 < size
    → (more ≡ true → size % 8 ≡ 0)
    → off + size ≤ max_ipv4_datagram
    → check_fragment more off (total - ihl) ≡ ok tt
unfolding check_fragment
check_fragment_ok more off size total ihl e h m b = ground arith

module _ (pkt : List ℕ) (hdr : Ipv4Header) (d : IsDatagram pkt hdr) (chunk : List ℕ) where
  base-long : length (take hdr.ihl pkt ++ chunk) ≡ hdr.ihl + length chunk
  base-long =
      omega
        (arith, length-append (take hdr.ihl pkt) chunk, length-take hdr.ihl pkt, d.fits, d.within)

  base-elem : (j : ℕ) → j < 20 → elem_at (take hdr.ihl pkt ++ chunk) j ≡ elem_at pkt j
  base-elem j h =
      elem_at-take_append pkt chunk hdr.ihl j (omega (arith, d.header_fits))
        (omega (arith, d.fits, d.within))

  pub length-fragment :
      (id off : ℕ) (last : Bool)
      → length (fragment hdr pkt id chunk off last) ≡ hdr.ihl + length chunk
  unfolding fragment
  length-fragment id off last = length-writes (take hdr.ihl pkt ++ chunk) _ id _ _ ∙ base-long

  pub drop-fragment :
      (id off : ℕ) (last : Bool) → drop hdr.ihl (fragment hdr pkt id chunk off last) ≡ chunk
  unfolding fragment
  drop-fragment id off last =
      drop-writes (take hdr.ihl pkt ++ chunk) _ id _ _ hdr.ihl (omega (arith, d.header_fits))
      ∙ drop-append_length hdr.ihl (take hdr.ihl pkt) chunk
          (omega (arith, length-take hdr.ihl pkt, d.fits, d.within))

  fragment-elem :
      (id off j : ℕ) (last : Bool)
      → j < 20
      → (j < 2) ⊎ (((7 < j) × (j < 10)) ⊎ (11 < j))
      → elem_at (fragment hdr pkt id chunk off last) j ≡ elem_at pkt j
  unfolding fragment
  fragment-elem id off j last h k =
      elem_at-writes (take hdr.ihl pkt ++ chunk) _ id _ _ j k ∙ base-elem j h

  fragment-addr :
      (id off i : ℕ) (last : Bool)
      → 11 < i
      → i + 3 < 20
      → addr_at (fragment hdr pkt id chunk off last) i ≡ addr_at pkt i
  fragment-addr id off i last h k =
      ap4 four (fragment-elem id off i last (omega arith) (inr (inr (omega arith))))
        (fragment-elem id off (i + 1) last (omega arith) (inr (inr (omega arith))))
        (fragment-elem id off (i + 2) last (omega arith) (inr (inr (omega arith))))
        (fragment-elem id off (i + 3) last (omega arith) (inr (inr (omega arith))))

  flags-last :
      (units : ℕ) (last : Bool)
      → (if last
          then units * 8 / 8 % 2 ^ 16
          else bit_or (units * 8 / 8 % 2 ^ 16) flag_more_fragments)
        ≡ flags_word (not last) units
  flags-last units true = omega arith
  flags-last units false = ap (λ (t : ℕ). bit_or t flag_more_fragments) (same units)
    where
      same : (units : ℕ) → units * 8 / 8 % 2 ^ 16 ≡ units % 2 ^ 16
      same units = omega arith

  fragment-flags :
      (id units : ℕ) (last : Bool)
      → units < 2 ^ 13
      → uint16_of (drop 6 (fragment hdr pkt id chunk (units * 8) last))
        ≡ flags_word (not last) units
  unfolding fragment
  fragment-flags id units last h =
      flags-writes (take hdr.ihl pkt ++ chunk) _ id _ _ (omega (arith, base-long, d.header_fits)) (
        subst (λ (t : ℕ). t < 2 ^ 16) (sym (flags-last units last))
          (flags_word_bound (not last) units h))
      ∙ flags-last units last

  fragment-id :
      (id off : ℕ) (last : Bool)
      → IsU16 id
      → uint16_of (drop 4 (fragment hdr pkt id chunk off last)) ≡ id
  unfolding fragment
  fragment-id id off last h =
      id-writes (take hdr.ihl pkt ++ chunk) _ id _ _ (omega (arith, base-long, d.header_fits)) h

  fragment-length_field :
      (id off : ℕ) (last : Bool)
      → hdr.ihl + length chunk < 2 ^ 16
      → uint16_of (drop 2 (fragment hdr pkt id chunk off last)) ≡ hdr.ihl + length chunk
  unfolding fragment
  fragment-length_field id off last h =
      length_field-writes (take hdr.ihl pkt ++ chunk) ((hdr.ihl + length chunk) % 2 ^ 16) id _ _
        (omega (arith, base-long, d.header_fits)) (omega arith)
      ∙ omega arith

  pub parse-fragment :
      (id units : ℕ) (last : Bool)
      → IsU16 id
      → 0 < length chunk
      → (last ≡ false → length chunk % 8 ≡ 0)
      → hdr.ihl + (units * 8 + length chunk) ≤ max_ipv4_datagram
      → parse_ipv4 (fragment hdr pkt id chunk (units * 8) last)
        ≡ ok (fragment_header hdr id (length chunk) (not last) (units * 8))
  parse-fragment id units last hid hsize whole room =
      let f : List ℕ = fragment hdr pkt id chunk (units * 8) last in
      parse_ipv4_ok f hdr.ihl (hdr.ihl + length chunk) units (not last)
        (ap (λ (t : ℕ). bit_and t 0x0F * 4)
            (fragment-elem id (units * 8) 0 last (omega arith) (inl (omega arith)))
          ∙ d.ihl_read)
        (fragment-length_field id (units * 8) last (omega arith))
        (fragment-flags id units last (omega arith)) (omega arith) d.header_fits (omega arith)
        (omega (arith, length-fragment id (units * 8) last))
        (ap (λ (t : ℕ). t / 2 ^ 4)
            (fragment-elem id (units * 8) 0 last (omega arith) (inl (omega arith)))
          ∙ d.version)
        (check_fragment_ok (not last) (units * 8) (length chunk) (hdr.ihl + length chunk) hdr.ihl
          refl hsize (λ e. whole (not_true last e)) (omega arith))
      ∙ ap4
          (λ p s t i. ok (record {
            ihl = hdr.ihl;
            total_len = hdr.ihl + length chunk;
            protocol = p;
            src = s;
            dst = t;
            payload_off = hdr.ihl;
            id = i;
            more_fragments = not last;
            frag_offset = units * 8;
          }))
          (fragment-elem id (units * 8) 9 last (omega arith) (inr (inl (omega arith, omega arith)))
            ∙ d.protocol_read)
          (fragment-addr id (units * 8) 12 last (omega arith) (omega arith) ∙ d.src_read)
          (fragment-addr id (units * 8) 16 last (omega arith) (omega arith) ∙ d.dst_read)
          (fragment-id id (units * 8) last hid)
    where
      not_true : (last : Bool) → not last ≡ true → last ≡ false
      not_true true e = cc
      not_true false e = refl
