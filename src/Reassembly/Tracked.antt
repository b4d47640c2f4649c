-- ===== src/Reassembly/Tracked.antt =====
-- What is known of a buffer that fragments of one datagram have come to.
use govpn.Base.{
  ℕ, ◌-◌, ◌≤◌, ◌<◌, ◌≡◌, ap, subst, ◌∙◌, Bool, true, ltb, Bool-cases, none, some, inl, inr, List,
  [], ◌∷◌, length, All, All-append, arith,
}
use govpn.Ipv4.{Ipv4Header, max_ipv4_datagram}
use govpn.Reassembly.{Hole, ReassemblyBuffer, punch_hole, punch}
use govpn.Reassembly.Add.{new_buffer}
use govpn.Reassembly.Holes.{missing, in_hole}
use govpn.Reassembly.Rebuilt.{IsHeaderOf}
use govpn.Reassembly.Content.{Filled, new_buffer-Filled}

-- A hole of at least one byte.
abbrev pub IsProper : Hole → Type 0
IsProper h = h.first < h.end

punch_hole-IsProper :
    (more : Bool) (first end : ℕ) (h : Hole)
    → IsProper h
    → All IsProper (punch_hole more first end h).0
unfolding punch_hole
punch_hole-IsProper more first end h p = ground arith

pub punch-IsProper :
    (more : Bool) (first end : ℕ) (holes : List Hole)
    → All IsProper holes
    → All IsProper (punch more first end holes).0
unfolding punch
punch-IsProper more first end [] p = tt
punch-IsProper more first end (h ∷ holes) p =
    All-append IsProper (punch_hole more first end h).0 (punch more first end holes).0
      (punch_hole-IsProper more first end h p.0) (punch-IsProper more first end holes p.1)

-- What is known of the buffer, but for what is missing in the datagram.
pub record Tracked (whole : List ℕ) (top : Ipv4Header) (id : ℕ) (b : ReassemblyBuffer)
    : Type 0 where
  pub filled : Filled whole b
  pub proper : All IsProper b.holes
  pub endless : b.total_len ≡ none → missing (length whole - 1) b.holes ≡ true
  pub headless : b.header ≡ none → missing 0 b.holes ≡ true
  pub beyond :
      (i : ℕ)
      → length whole ≤ i
      → missing i b.holes ≡ true
      → missing (length whole - 1) b.holes ≡ true
  pub reach : length b.data_bytes ≤ length whole
  pub head : (header : List ℕ) → b.header ≡ some header → IsHeaderOf top id header

-- A byte of the datagram is missing.
abbrev pub Lacks : List ℕ → ReassemblyBuffer → Type 0
Lacks whole b = (i : ℕ) × (i < length whole) × (missing i b.holes ≡ true)

module _ (whole : List ℕ) (some_bytes : 0 < length whole) (top : Ipv4Header) (id : ℕ) where
  pub new_buffer-Tracked :
      (expires : ℕ) → length whole ≤ max_ipv4_datagram → Tracked whole top id (new_buffer expires)
  unfolding missing in_hole
  new_buffer-Tracked expires fits = record {
    filled = new_buffer-Filled whole expires fits;
    proper = (omega arith, tt);
    endless = λ e. ground arith;
    headless = λ e. ground arith;
    beyond = λ i l e. ground arith;
    reach = omega arith;
    head = λ header e. absurd cc;
  }

  pub new_buffer-Lacks : (expires : ℕ) → Lacks whole (new_buffer expires)
  unfolding missing in_hole
  new_buffer-Lacks expires = (0, some_bytes, ground arith)

  -- Where a hole is left, a byte of the datagram is missing.
  pub hole-Lacks :
      (b : ReassemblyBuffer) (h : Hole) (holes : List Hole)
      → Tracked whole top id b
      → b.holes ≡ h ∷ holes
      → Lacks whole b
  unfolding missing in_hole
  hole-Lacks b h holes v e =
      let p : All IsProper (h ∷ holes) = subst (All IsProper) e v.proper in
      let in_it : missing h.first (h ∷ holes) ≡ true = ground (arith, p.0) in
      let at : missing h.first b.holes ≡ true = ap (missing h.first) e ∙ in_it in
      elim (Bool-cases (ltb h.first (length whole))) [
        | inl inside ↦ (h.first, ground arith, at)
        | inr beyond ↦ (length whole - 1, omega arith, v.beyond h.first (ground arith) at)
      ]
