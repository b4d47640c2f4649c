-- ===== src/Reassembly/Rebuilt.antt =====
-- The datagram that the reassembly writes anew parses, under the header of its first fragment.
use govpn.Base.{
  true, Option, some, some_inj, subst, if◌then◌else◌, ℕ, ◌+◌, ◌*◌, ◌/◌, ◌%◌, ◌^◌, ◌≤◌, ◌<◌, bit_and,
  false, ◌≡◌, ◌⊎◌, refl, ap, ◌∙◌, inl, inr, List, ◌++◌, ◌-◌, sym, Bool, length, take, drop, elem_at,
  ok, length-append, length-take, drop-append_length, elem_at-append, elem_at-take, arith,
}
use govpn.Base.Words.{uint16_of, from_be16}
use govpn.Frame.{internet_checksum}
use govpn.Ipv4.{Ipv4Header, addr_at, parse_ipv4, check_fragment, put_uint16, max_ipv4_datagram}
use govpn.Ipv4.Fragments.{IsDatagram, fragment_header}
use govpn.Ipv4.Parse.{parse_ipv4_ok}
use govpn.Ipv4.Writes.{
  uint16_of-drop, length-put_uint16, drop-put_uint16, elem_at-put_uint16, uint16_of-put_uint16,
  uint16_of-put_elsewhere,
}
use govpn.Reassembly.Addrs.{addr_at-SameFrom}
use govpn.Reassembly.Add.{rebuild}

-- The bytes of a header with the fields of `top` and the id, whatever it says of length and flags.
pub record IsHeaderOf (top : Ipv4Header) (id : ℕ) (header : List ℕ) : Type 0 where
  pub size : length header ≡ top.ihl
  pub long : 20 ≤ top.ihl
  pub ihl_read : bit_and (elem_at header 0) 0x0F * 4 ≡ top.ihl
  pub version : elem_at header 0 / 2 ^ 4 ≡ 4
  pub id_read : uint16_of (drop 4 header) ≡ id
  pub protocol_read : elem_at header 9 ≡ top.protocol
  pub src_read : addr_at header 12 ≡ top.src
  pub dst_read : addr_at header 16 ≡ top.dst

-- The header in front of a fragment.
pub take-IsHeaderOf :
    (top : Ipv4Header) (id size off : ℕ) (more : Bool) (f : List ℕ)
    → IsDatagram f (fragment_header top id size more off)
    → uint16_of (drop 4 f) ≡ id
    → IsHeaderOf top id (take top.ihl f)
take-IsHeaderOf top id size off more f d named =
    let n : length (take top.ihl f) ≡ top.ihl =
      omega (arith, length-take top.ihl f, d.fits, d.within) in
    let same : (j : ℕ) → j < 20 → elem_at (take top.ihl f) j ≡ elem_at f j =
      λ j h. elem_at-take top.ihl f j (omega (arith, h, d.header_fits)) in
    record {
      size = n;
      long = d.header_fits;
      ihl_read = ap (λ (t : ℕ). bit_and t 0x0F * 4) (same 0 (omega arith)) ∙ d.ihl_read;
      version = ap (λ (t : ℕ). t / 2 ^ 4) (same 0 (omega arith)) ∙ d.version;
      id_read =
          uint16_of-drop (take top.ihl f) 4 (omega (arith, n, d.header_fits))
          ∙ (λ i. from_be16 (same 4 (omega arith) i) (same 5 (omega arith) i))
          ∙ sym (uint16_of-drop f 4 (omega (arith, d.header_fits, d.fits, d.within)))
          ∙ named;
      protocol_read = same 9 (omega arith) ∙ d.protocol_read;
      src_read =
          addr_at-SameFrom (take top.ihl f) f 12 (λ j l u. same j (omega (arith, u))) ∙ d.src_read;
      dst_read =
          addr_at-SameFrom (take top.ihl f) f 16 (λ j l u. same j (omega (arith, u))) ∙ d.dst_read;
    }

-- The header that a buffer has after a fragment: the one of the fragment, or its own.
pub new_header-IsHeaderOf :
    (top : Ipv4Header) (id : ℕ) (here : Bool) (header : List ℕ) (o : Option (List ℕ))
    → IsHeaderOf top id header
    → ((x : List ℕ) → o ≡ some x → IsHeaderOf top id x)
    → (x : List ℕ) → (if here then some header else o) ≡ some x
    → IsHeaderOf top id x
new_header-IsHeaderOf top id true header o h before x e = subst (IsHeaderOf top id) (some_inj e) h
new_header-IsHeaderOf top id false header o h before x e = before x e

-- A complete datagram under the fields of `top` and the id, with `whole` behind its header.
abbrev pub IsRestored : Ipv4Header → ℕ → List ℕ → List ℕ → Type 0
IsRestored top id whole pkt =
    (parse_ipv4 pkt ≡ ok (fragment_header top id (length whole) false 0))
    × (drop top.ihl pkt ≡ whole)

module _ (top : Ipv4Header) (id : ℕ) (header whole : List ℕ) (h : IsHeaderOf top id header)
    (room : top.ihl + length whole ≤ max_ipv4_datagram) where
  abbrev out₀ : List ℕ
  out₀ = header ++ whole

  abbrev out₁ : List ℕ
  out₁ = put_uint16 out₀ 2 (length out₀ % 2 ^ 16)

  abbrev out₂ : List ℕ
  out₂ = put_uint16 out₁ 6 0

  abbrev out₃ : List ℕ
  out₃ = put_uint16 out₂ 10 0

  abbrev checksum : ℕ
  checksum = internet_checksum (take (length header) out₃)

  length-out : length out₀ ≡ top.ihl + length whole
  length-out = omega (arith, length-append header whole, h.size)

  length-rebuild : length (rebuild header whole) ≡ top.ihl + length whole
  unfolding rebuild
  length-rebuild =
      length-put_uint16 out₃ 10 checksum
      ∙ length-put_uint16 out₂ 10 0
      ∙ length-put_uint16 out₁ 6 0
      ∙ length-put_uint16 out₀ 2 _
      ∙ length-out

  elem_at-rebuild :
      (j : ℕ)
      → j < 20
      → (j < 2) ⊎ (((3 < j) × (j < 6)) ⊎ (((7 < j) × (j < 10)) ⊎ (11 < j)))
      → elem_at (rebuild header whole) j ≡ elem_at header j
  unfolding rebuild
  elem_at-rebuild j u k =
      elem_at-put_uint16 out₃ 10 checksum j (ground arith)
      ∙ elem_at-put_uint16 out₂ 10 0 j (ground arith)
      ∙ elem_at-put_uint16 out₁ 6 0 j (ground arith)
      ∙ elem_at-put_uint16 out₀ 2 _ j (ground arith)
      ∙ elem_at-append header whole j (omega (arith, h.size, h.long))

  checksum_elsewhere :
      (j : ℕ) → j < 8 → uint16_of (drop j (rebuild header whole)) ≡ uint16_of (drop j out₂)
  unfolding rebuild
  checksum_elsewhere j u =
      let l₂ : length out₂ ≡ top.ihl + length whole =
        length-put_uint16 out₁ 6 0 ∙ length-put_uint16 out₀ 2 _ ∙ length-out in
      let l₃ = length-put_uint16 out₂ 10 0 in
      uint16_of-put_elsewhere out₃ 10 checksum j (omega (arith, l₂, l₃, h.long)) (inl (omega arith))
      ∙ uint16_of-put_elsewhere out₂ 10 0 j (omega (arith, l₂, h.long)) (inl (omega arith))

  rebuild-length_field : uint16_of (drop 2 (rebuild header whole)) ≡ top.ihl + length whole
  rebuild-length_field =
      let l₁ = length-put_uint16 out₀ 2 (length out₀ % 2 ^ 16) in
      checksum_elsewhere 2 (omega arith)
      ∙ uint16_of-put_elsewhere out₁ 6 0 2 (omega (arith, l₁, length-out, h.long))
          (inl (omega arith))
      ∙ uint16_of-put_uint16 out₀ 2 (length out₀ % 2 ^ 16) (omega (arith, length-out, h.long))
          (omega arith)
      ∙ omega (arith, length-out, room)

  rebuild-flags : uint16_of (drop 6 (rebuild header whole)) ≡ 0
  rebuild-flags =
      let l₁ = length-put_uint16 out₀ 2 (length out₀ % 2 ^ 16) in
      checksum_elsewhere 6 (omega arith)
      ∙ uint16_of-put_uint16 out₁ 6 0 (omega (arith, l₁, length-out, h.long)) (omega arith)

  rebuild-id : uint16_of (drop 4 (rebuild header whole)) ≡ id
  rebuild-id =
      uint16_of-drop (rebuild header whole) 4 (omega (arith, length-rebuild, h.long))
      ∙ (λ i.
          from_be16 (elem_at-rebuild 4 (omega arith) (inr (inl (omega arith, omega arith))) i)
            (elem_at-rebuild 5 (omega arith) (inr (inl (omega arith, omega arith))) i))
      ∙ sym (uint16_of-drop header 4 (omega (arith, h.size, h.long)))
      ∙ h.id_read

  rebuild-addr_at :
      (k : ℕ) → 11 < k → k + 3 < 20 → addr_at (rebuild header whole) k ≡ addr_at header k
  rebuild-addr_at k l u =
      addr_at-SameFrom (rebuild header whole) header k
        (λ j from to. elem_at-rebuild j (omega arith) (inr (inr (inr (omega arith)))))

  check_complete : check_fragment false 0 (top.ihl + length whole - top.ihl) ≡ ok tt
  unfolding check_fragment
  check_complete = refl

  -- It parses as a complete datagram.
  parse_ipv4-rebuild :
      parse_ipv4 (rebuild header whole) ≡ ok (fragment_header top id (length whole) false 0)
  parse_ipv4-rebuild =
      let out : List ℕ = rebuild header whole in
      let first = elem_at-rebuild 0 (omega arith) (inl (omega arith)) in
      parse_ipv4_ok out top.ihl (top.ihl + length whole) 0 false
        (ap (λ (t : ℕ). bit_and t 0x0F * 4) first ∙ h.ihl_read) rebuild-length_field rebuild-flags
        (omega arith) h.long (omega arith) (omega (arith, length-rebuild))
        (ap (λ (t : ℕ). t / 2 ^ 4) first ∙ h.version) check_complete
      ∙ (λ i. ok (record {
        ihl = top.ihl;
        total_len = top.ihl + length whole;
        protocol =
            (elem_at-rebuild 9 (omega arith) (inr (inr (inl (omega arith, omega arith))))
                ∙ h.protocol_read)
              i;
        src = (rebuild-addr_at 12 (omega arith) (omega arith) ∙ h.src_read) i;
        dst = (rebuild-addr_at 16 (omega arith) (omega arith) ∙ h.dst_read) i;
        payload_off = top.ihl;
        id = rebuild-id i;
        more_fragments = false;
        frag_offset = 0;
      }))

  drop-rebuild : drop top.ihl (rebuild header whole) ≡ whole
  unfolding rebuild
  drop-rebuild =
      drop-put_uint16 out₃ 10 checksum top.ihl (omega (arith, h.long))
      ∙ drop-put_uint16 out₂ 10 0 top.ihl (omega (arith, h.long))
      ∙ drop-put_uint16 out₁ 6 0 top.ihl (omega (arith, h.long))
      ∙ drop-put_uint16 out₀ 2 _ top.ihl (omega (arith, h.long))
      ∙ drop-append_length top.ihl header whole h.size

  pub rebuild-IsRestored : IsRestored top id whole (rebuild header whole)
  rebuild-IsRestored = (parse_ipv4-rebuild, drop-rebuild)
