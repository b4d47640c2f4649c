-- ===== src/Reassembly/Waiting.antt =====
-- A fragment comes to a buffer of its datagram while a byte of it is missing.
use govpn.Base.{
  ℕ, ◌+◌, ◌-◌, ◌≤◌, ◌<◌, ◌≡◌, refl, sym, ap, ◌∙◌, Bool, true, false, ◌&&◌, ltb, leb, ◌==◌,
  if◌then◌else◌, Bool-cases, Option, none, some, inl, inr, ◌⊎◌, List, [], length, take, arith,
}
use govpn.Ipv4.{Ipv4Header, datagram}
use govpn.Reassembly.{Hole, ReassemblyBuffer, punch, write_at}
use govpn.Reassembly.Add.{check_total}
use govpn.Reassembly.Holes.{missing, stays, missing-punch}
use govpn.Reassembly.Store.{length-write_at}
use govpn.Reassembly.Rebuilt.{IsHeaderOf, new_header-IsHeaderOf}
use govpn.Reassembly.Content.{
  IsPart, TotalIs, Filled, end_of, last_end, check_total-TotalIs, fill-Filled,
}
use govpn.Reassembly.Tracked.{punch-IsProper, Tracked, Lacks}

-- Only a fragment that contradicts the total length is a conflict.
total_exists :
    (more : Bool) (end n : ℕ) (known : Option ℕ)
    → TotalIs n known
    → end ≤ n
    → (more ≡ false → end ≡ n)
    → (total : Option ℕ) × (check_total more end known ≡ some total)
unfolding check_total
total_exists true end n none h l ends = (none, refl)
total_exists false end n none h l ends = (some end, refl)
total_exists more end n (some known) h l ends = (some known, ground (arith, h, l, ends))

total_open :
    (more : Bool) (end : ℕ) (known total : Option ℕ)
    → check_total more end known ≡ some total
    → total ≡ none
    → (known ≡ none) × (more ≡ true)
unfolding check_total
total_open more end none total e open_end = (refl, ground (arith, e, open_end))
total_open more end (some known) total e open_end = absurd (ground (arith, e, open_end))

no_header :
    (b : Bool) (header : List ℕ) (o : Option (List ℕ))
    → (if b then some header else o) ≡ none
    → (b ≡ false) × (o ≡ none)
no_header true header o e = absurd cc
no_header false header o e = (refl, e)

stays-outside :
    (more : Bool) (first end i : ℕ)
    → (i < first) ⊎ (end ≤ i)
    → (more ≡ true) ⊎ (i < end)
    → stays more first end i ≡ true
unfolding stays
stays-outside more first end i outside behind = ground arith

stays-inverted :
    (more : Bool) (first end i : ℕ)
    → stays more first end i ≡ true
    → ((i < first) ⊎ (end ≤ i)) × ((more ≡ true) ⊎ (i < end))
unfolding stays
stays-inverted more first end i e = (ground arith, ground arith)

both_true : (a b : Bool) → a ≡ true → b ≡ true → (a && b) ≡ true
both_true a b ha hb = ground arith

true_both : (a b : Bool) → (a && b) ≡ true → (a ≡ true) × (b ≡ true)
true_both true b h = (refl, h)
true_both false b h = absurd cc

-- A fragment of the datagram, behind a header of it.
module _ (whole : List ℕ) (hdr : Ipv4Header) (pkt : List ℕ) (p : IsPart whole hdr pkt)
    (more : hdr.more_fragments ≡ true → 0 < length p.after) (top : Ipv4Header) (id : ℕ)
    (starts : IsHeaderOf top id (take hdr.ihl pkt)) where
  abbrev end : ℕ
  end = hdr.frag_offset + length (datagram hdr pkt)

  abbrev left : ReassemblyBuffer → List Hole
  left b = (punch hdr.more_fragments hdr.frag_offset end b.holes).0

  -- A byte outside the fragment, in the datagram or with more of it to follow, stays missing.
  stays_missing :
      (b : ReassemblyBuffer) (i : ℕ)
      → (i < hdr.frag_offset) ⊎ (end ≤ i)
      → (hdr.more_fragments ≡ true) ⊎ (i < end)
      → missing i b.holes ≡ true
      → missing i (left b) ≡ true
  stays_missing b i outside behind e =
      (missing-punch hdr.more_fragments hdr.frag_offset end i b.holes
        (omega (arith, p.some_bytes))).0
      ∙ both_true _ _ e (stays-outside hdr.more_fragments hdr.frag_offset end i outside behind)

  -- What is missing was missing, and the fragment did not bring it.
  pub was_missing :
      (b : ReassemblyBuffer) (i : ℕ)
      → missing i (left b) ≡ true
      → (missing i b.holes ≡ true)
        × ((i < hdr.frag_offset) ⊎ (end ≤ i))
        × ((hdr.more_fragments ≡ true) ⊎ (i < end))
  was_missing b i e =
      let now = missing-punch hdr.more_fragments hdr.frag_offset end i b.holes in
      let both = true_both _ _ (sym (now (omega (arith, p.some_bytes))).0 ∙ e) in
      let (outside, behind) = stays-inverted hdr.more_fragments hdr.frag_offset end i both.1 in
      (both.0, outside, behind)

  -- The buffer after the fragment: its total length is checked, then it is filled.
  abbrev pub with_total : Option ℕ → ReassemblyBuffer → ReassemblyBuffer
  with_total total b = record b { total_len = total }

  abbrev pub filled : ReassemblyBuffer → ReassemblyBuffer
  filled b = record b {
    holes = left b;
    data_bytes = write_at hdr.frag_offset (datagram hdr pkt) b.data_bytes;
    header = if hdr.frag_offset == 0 then some (take hdr.ihl pkt) else b.header;
  }

  pub with_total-exists :
      (b : ReassemblyBuffer)
      → Tracked whole top id b
      → (total : Option ℕ) × (check_total hdr.more_fragments end b.total_len ≡ some total)
  with_total-exists b v =
      total_exists hdr.more_fragments end (length whole) b.total_len v.filled.total
        (omega (arith, end_of whole hdr pkt p)) (last_end whole hdr pkt p)

  pub filled-Tracked :
      (b : ReassemblyBuffer) (total : Option ℕ)
      → Tracked whole top id b
      → check_total hdr.more_fragments end b.total_len ≡ some total
      → Tracked whole top id (filled (with_total total b))
  filled-Tracked b total v e =
      let with_end = end_of whole hdr pkt p in
      let t : TotalIs (length whole) total =
        check_total-TotalIs whole hdr pkt p b.total_len total v.filled.total e in
      let f : Filled whole (with_total total b) = record {
        reached = v.filled.reached;
        byte = v.filled.byte;
        total = t;
      } in
      record {
        filled = fill-Filled whole hdr pkt p (with_total total b) _ f;
        proper = punch-IsProper hdr.more_fragments hdr.frag_offset end b.holes v.proper;
        endless = λ open_end.
            let (known, follows) = total_open hdr.more_fragments end b.total_len total e open_end in
            stays_missing b (length whole - 1) (inr (omega (arith, with_end, more follows)))
              (inl follows) (v.endless known);
        headless = λ none_yet.
            let (later, none_before) =
              no_header (hdr.frag_offset == 0) (take hdr.ihl pkt) b.header none_yet in
            stays_missing b 0 (inl (ground (arith, later))) (inr (omega (arith, p.some_bytes)))
              (v.headless none_before);
        beyond = λ i l e.
            let (was, outside, behind) = was_missing b i e in
            elim behind [
              | inl follows ↦
                  stays_missing b (length whole - 1) (inr (omega (arith, with_end, more follows)))
                    (inl follows) (v.beyond i l was)
              | inr inside ↦ absurd (omega (arith, with_end, l, inside))
            ];
        reach = omega (
          arith,
          with_end,
          v.reach,
          length-write_at hdr.frag_offset (datagram hdr pkt) b.data_bytes,
        );
        head =
            new_header-IsHeaderOf top id (hdr.frag_offset == 0) (take hdr.ihl pkt) b.header starts
              v.head;
      }

  -- A fragment that leaves no hole brought a byte that was missing.
  pub meets_hole :
      (b : ReassemblyBuffer)
      → Lacks whole b
      → left b ≡ []
      → (punch hdr.more_fragments hdr.frag_offset end b.holes).1 ≡ true
  unfolding missing
  meets_hole b (i, inside, e) none_left =
      let arrived : missing i (left b) ≡ false = ap (missing i) none_left in
      let now =
        missing-punch hdr.more_fragments hdr.frag_offset end i b.holes
          (omega (arith, p.some_bytes)) in
      let behind : (hdr.more_fragments ≡ true) ⊎ (i < end) = elim (Bool-cases hdr.more_fragments) [
        | inl follows ↦ inl follows
        | inr ends ↦ inr (omega (arith, inside, last_end whole hdr pkt p ends))
      ] in
      elim (Bool-cases (punch hdr.more_fragments hdr.frag_offset end b.holes).1) [
        | inl met ↦ met
        | inr unmet ↦ elim (Bool-cases (leb hdr.frag_offset i && ltb i end)) [
          | inl here ↦
              let had : missing i b.holes ≡ false = now.1 unmet (ground arith) (ground arith) in
              absurd cc
          | inr elsewhere ↦
              let still : missing i (left b) ≡ true = stays_missing b i (ground arith) behind e in
              absurd cc
        ]
      ]
