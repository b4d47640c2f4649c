-- ===== src/Reassembly/Content.antt =====
-- A buffer whose fragments are parts of one datagram holds the bytes of that datagram that arrived.
use govpn.Base.{
  ℕ, ◌+◌, ◌-◌, ◌≤◌, ◌<◌, ◌≡◌, refl, sym, ap, subst, ◌∙◌, Bool, true, false, not, ◌&&◌, ◌||◌, ltb,
  leb, Bool-cases, Option, none, some, some_inj, inl, inr, List, [], ◌++◌, length, take, elem_at,
  ◌⊎◌, length-append, elem_at-append, elem_at-append_right, take-elem_at, arith,
}
use govpn.Ipv4.{Ipv4Header, datagram, max_ipv4_datagram}
use govpn.Reassembly.{ReassemblyBuffer, punch, write_at}
use govpn.Reassembly.Add.{new_buffer, check_total}
use govpn.Reassembly.Holes.{missing, in_hole, stays, missing-punch}
use govpn.Reassembly.Store.{length-write_at}
use govpn.Reassembly.Written.{elem_at-write_at, elem_at-write_at_elsewhere}

-- The fragment carries the bytes of `whole` at its offset, and says that it is the last one only if no
-- byte is behind it.
pub record IsPart (whole : List ℕ) (hdr : Ipv4Header) (pkt : List ℕ) : Type 0 where
  pub before : List ℕ
  pub after : List ℕ
  pub place : before ++ (datagram hdr pkt ++ after) ≡ whole
  pub offset : hdr.frag_offset ≡ length before
  pub some_bytes : 0 < length (datagram hdr pkt)
  pub last : hdr.more_fragments ≡ false → after ≡ []

-- A part of `whole` that says rightly whether more of it follows.
abbrev pub IsFragmentOf : List ℕ → Ipv4Header → List ℕ → Type 0
IsFragmentOf whole h f = (p : IsPart whole h f) × (h.more_fragments ≡ true → 0 < length p.after)

-- What is known of the total length.
abbrev pub TotalIs : ℕ → Option ℕ → Type 0
TotalIs n none = Unit {0}
TotalIs n (some total) = total ≡ n

-- Each byte of `whole` that is not missing is in the buffer.
pub record Filled (whole : List ℕ) (b : ReassemblyBuffer) : Type 0 where
  pub reached : (i : ℕ) → i < length whole → missing i b.holes ≡ false → i < length b.data_bytes
  pub byte :
      (i : ℕ)
      → i < length whole
      → missing i b.holes ≡ false
      → elem_at b.data_bytes i ≡ elem_at whole i
  pub total : TotalIs (length whole) b.total_len

missing_before :
    (a here there : Bool)
    → (a && (not here && there)) ≡ false
    → here ≡ false
    → there ≡ true
    → a ≡ false
missing_before false here there e h t = refl
missing_before true here there e h t = absurd (ground (arith, e, h, t))

module _ (whole : List ℕ) (hdr : Ipv4Header) (pkt : List ℕ) (p : IsPart whole hdr pkt) where
  -- The end of the fragment.
  pub end_of : hdr.frag_offset + length (datagram hdr pkt) + length p.after ≡ length whole
  end_of = omega (
    arith,
    p.offset,
    ap length p.place,
    length-append p.before (datagram hdr pkt ++ p.after),
    length-append (datagram hdr pkt) p.after,
  )

  pub byte_of :
      (j : ℕ)
      → j < length (datagram hdr pkt)
      → elem_at whole (hdr.frag_offset + j) ≡ elem_at (datagram hdr pkt) j
  byte_of j h =
      let there : hdr.frag_offset + j ≡ length p.before + j = omega (arith, p.offset) in
      ap (elem_at whole) there
      ∙ ap (λ xs. elem_at xs (length p.before + j)) (sym p.place)
      ∙ elem_at-append_right p.before (datagram hdr pkt ++ p.after) j
      ∙ elem_at-append (datagram hdr pkt) p.after j h

  -- A last fragment ends where the datagram ends.
  pub last_end :
      hdr.more_fragments ≡ false → hdr.frag_offset + length (datagram hdr pkt) ≡ length whole
  last_end e = omega (arith, end_of, ap length (p.last e))

  same_total :
      (known : ℕ) (total : Option ℕ)
      → check_total hdr.more_fragments (hdr.frag_offset + length (datagram hdr pkt)) (some known)
        ≡ some total
      → some known ≡ total
  unfolding check_total
  same_total known total e = ground arith

  pub check_total-TotalIs :
      (known : Option ℕ) (total : Option ℕ)
      → TotalIs (length whole) known
      → check_total hdr.more_fragments (hdr.frag_offset + length (datagram hdr pkt)) known
        ≡ some total
      → TotalIs (length whole) total
  unfolding check_total
  check_total-TotalIs none total h e = elim (Bool-cases hdr.more_fragments) [
    | inl more ↦
        let same : none ≡ total = some_inj (rw more at e) in subst (TotalIs (length whole)) same tt
    | inr ends ↦
        let end : ℕ = hdr.frag_offset + length (datagram hdr pkt) in
        let same : some end ≡ total = some_inj (rw ends at e) in
        subst (TotalIs (length whole)) same (last_end ends)
  ]
  check_total-TotalIs (some known) total h e =
      subst (TotalIs (length whole)) (same_total known total e) h

  within :
      (i : ℕ)
      → i < length whole
      → (hdr.more_fragments || ltb i (hdr.frag_offset + length (datagram hdr pkt))) ≡ true
  within i inside = elim (Bool-cases hdr.more_fragments) [
    | inl more ↦ ground (arith, more)
    | inr ends ↦ ground (arith, last_end ends, inside)
  ]

  -- A byte that is not missing after the fragment came with it, or was there before.
  pub arrived :
      (b : ReassemblyBuffer) (i : ℕ)
      → i < length whole
      → missing i
          (punch hdr.more_fragments hdr.frag_offset
            (hdr.frag_offset + length (datagram hdr pkt))
            b.holes).0
        ≡ false
      → ((hdr.frag_offset ≤ i) × (i < hdr.frag_offset + length (datagram hdr pkt)))
        ⊎ ((missing i b.holes ≡ false)
            × ((i < hdr.frag_offset) ⊎ (hdr.frag_offset + length (datagram hdr pkt) ≤ i)))
  unfolding stays
  arrived b i inside e =
      let first : ℕ = hdr.frag_offset in
      let end : ℕ = hdr.frag_offset + length (datagram hdr pkt) in
      let now =
        missing-punch hdr.more_fragments first end i b.holes (omega (arith, p.some_bytes)) in
      let both : (missing i b.holes && stays hdr.more_fragments first end i) ≡ false =
        sym now.0 ∙ e in
      elim (Bool-cases (leb first i && ltb i end)) [
        | inl here ↦ inl (ground arith, ground arith)
        | inr elsewhere ↦
            inr (
              missing_before (missing i b.holes) _ _ both elsewhere (within i inside),
              ground arith,
            )
      ]

  pub fill-Filled :
      (b : ReassemblyBuffer) (header : Option (List ℕ))
      → Filled whole b
      → Filled whole (record b {
        holes =
            (punch hdr.more_fragments hdr.frag_offset
              (hdr.frag_offset + length (datagram hdr pkt))
              b.holes).0;
        data_bytes = write_at hdr.frag_offset (datagram hdr pkt) b.data_bytes;
        header = header;
      })
  fill-Filled b header v =
      let first : ℕ = hdr.frag_offset in
      let payload : List ℕ = datagram hdr pkt in
      let size = length-write_at first payload b.data_bytes in
      record {
        reached = λ i l e. elim (arrived b i l e) [
          | inl (from, to) ↦ omega (arith, size, to)
          | inr (there, elsewhere) ↦ omega (arith, size, v.reached i l there)
        ];
        byte = λ i l e. elim (arrived b i l e) [
          | inl (from, to) ↦
              let j : ℕ = i - first in
              let at : i ≡ first + j = omega (arith, from) in
              ap (elem_at (write_at first payload b.data_bytes)) at
              ∙ elem_at-write_at first payload b.data_bytes j (omega (arith, from, to))
              ∙ sym (byte_of j (omega (arith, from, to)))
              ∙ ap (elem_at whole) (sym at)
          | inr (there, elsewhere) ↦
              elem_at-write_at_elsewhere first payload b.data_bytes i (v.reached i l there)
                elsewhere
              ∙ v.byte i l there
        ];
        total = v.total;
      }

pub new_buffer-Filled :
    (whole : List ℕ) (expires : ℕ)
    → length whole ≤ max_ipv4_datagram
    → Filled whole (new_buffer expires)
unfolding missing in_hole
new_buffer-Filled whole expires fits = record {
  reached = λ i l e. absurd (ground arith);
  byte = λ i l e. absurd (ground arith);
  total = tt;
}

-- A buffer without a hole holds all of the datagram.
pub take-Filled :
    (whole : List ℕ) (b : ReassemblyBuffer) (total : ℕ)
    → Filled whole b
    → b.holes ≡ []
    → b.total_len ≡ some total
    → take total b.data_bytes ≡ whole
unfolding missing
take-Filled whole b total v none_left ends =
    let there : (i : ℕ) → missing i b.holes ≡ false = λ i. ap (missing i) none_left in
    let n : total ≡ length whole = subst (TotalIs (length whole)) ends v.total in
    let enough : length whole ≤ length b.data_bytes = elim (Bool-cases (ltb 0 (length whole))) [
      | inl some_left ↦
          let last : length whole - 1 < length b.data_bytes =
            v.reached (length whole - 1) (ground arith) (there _) in
          omega (arith, last)
      | inr nothing ↦ ground arith
    ] in
    ap (λ k. take k b.data_bytes) n
    ∙ take-elem_at b.data_bytes whole enough (λ i l. v.byte i l (there i))
