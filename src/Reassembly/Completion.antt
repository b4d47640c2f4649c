-- ===== src/Reassembly/Completion.antt =====
-- When every byte of a datagram has come, in any order, one of its fragments has completed it.
use govpn.Base.{
  ℕ, ◌+◌, ◌≤◌, ◌<◌, ◌≡◌, sym, subst, true, false, ◌⊎◌, inl, inr, List, [], ◌∷◌, length, take, In,
  All, arith,
}
use govpn.Ipv4.{Ipv4Header, datagram, max_ipv4_datagram}
use govpn.Reassembly.{
  ReassemblyKey, ReassemblyBuffer, Reassembler, ReasmOutcome, complete, resolve_max_bufs,
  resolve_max_bytes, resolve_timeout,
}
use govpn.Reassembly.Add.{key_of, new_buffer, rebuild, add}
use govpn.Reassembly.Holes.{missing}
use govpn.Reassembly.Rebuilt.{IsHeaderOf, IsRestored, rebuild-IsRestored}
use govpn.Reassembly.Content.{IsFragmentOf}
use govpn.Reassembly.Tracked.{Tracked, Lacks}
use govpn.Reassembly.Progress.{holding, Steps, add-holding, add-first}

-- What the reassembler answers to fragments that arrive one after the other, each with its time.
unfoldable pub outcomes : Reassembler → List (ℕ × Ipv4Header × List ℕ) → List ReasmOutcome
outcomes r [] = []
outcomes r ((now, h, f) ∷ arrivals) =
    let (r₁, outcome, expired) = add r now h f in outcome ∷ outcomes r₁ arrivals

-- The fragment brings byte `i`.
abbrev pub Covers : ℕ → ℕ × Ipv4Header × List ℕ → Type 0
Covers i (now, h, f) = (h.frag_offset ≤ i) × (i < h.frag_offset + length (datagram h f))

abbrev pub SomeCovers : ℕ → List (ℕ × Ipv4Header × List ℕ) → Type 0
SomeCovers i [] = ⊥
SomeCovers i (a ∷ arrivals) = Covers i a ⊎ SomeCovers i arrivals

-- One of the answers is the datagram.
abbrev pub Completes : Ipv4Header → ℕ → List ℕ → List ReasmOutcome → Type 0
Completes top id whole outs = (pkt : List ℕ) × In (complete pkt) outs × IsRestored top id whole pkt

module _ (top : Ipv4Header) (id : ℕ) (whole : List ℕ)
    (room : top.ihl + length whole ≤ max_ipv4_datagram) (some_bytes : 0 < length whole)
    (key : ReassemblyKey) (r : Reassembler) (live : r.closed ≡ false)
    (fits : length whole ≤ resolve_max_bytes r) (start : ℕ) where
  -- A fragment of the datagram that comes before the time of its first one is up.
  abbrev pub Arrives : ℕ × Ipv4Header × List ℕ → Type 0
  Arrives (now, h, f) =
      (key_of h ≡ key)
      × (start ≤ now)
      × (now < start + resolve_timeout r)
      × IsHeaderOf top id (take h.ihl f)
      × IsFragmentOf whole h f

  -- From a buffer on, the fragments that bring what it lacks complete it.
  abbrev Finishes : List (ℕ × Ipv4Header × List ℕ) → ReassemblyBuffer → Type 0
  Finishes arrivals b =
      Tracked whole top id b
      → Lacks whole b
      → start + resolve_timeout r ≤ b.expires
      → ((i : ℕ) → i < length whole → missing i b.holes ≡ true → SomeCovers i arrivals)
      → Completes top id whole (outcomes (holding key b r) arrivals)

  step-Completes :
      (now : ℕ) (h : Ipv4Header) (f : List ℕ) (arrivals : List (ℕ × Ipv4Header × List ℕ))
      (b : ReassemblyBuffer) (x : Reassembler)
      → ((c : ReassemblyBuffer) → Finishes arrivals c)
      → start + resolve_timeout r ≤ b.expires
      → ((i : ℕ)
          → i < length whole
          → missing i b.holes ≡ true
          → SomeCovers i ((now, h, f) ∷ arrivals))
      → Steps whole top id key b h r f ((add x now h f).0, (add x now h f).1)
      → Completes top id whole (outcomes x ((now, h, f) ∷ arrivals))
  unfolding outcomes
  step-Completes now h f arrivals b x later in_time covered (inl (header, named, done)) =
      (rebuild header whole, inl (sym done), rebuild-IsRestored top id header whole named room)
  step-Completes now h f arrivals b x later in_time covered
        (inr (b₁, same, v, lacks, kept_time, tracks)) =
      let rest : Completes top id whole (outcomes (holding key b₁ r) arrivals) =
        later b₁ v lacks (omega (arith, in_time, kept_time)) (λ i inside m.
          let (was, outside) = tracks i m in
          elim (covered i inside was) [
            | inl here ↦ absurd (omega (arith, here.0, here.1, outside))
            | inr there ↦ there
          ]) in
      let moved : Completes top id whole (outcomes (add x now h f).0 arrivals) =
        subst (λ y. Completes top id whole (outcomes y arrivals)) (sym same) rest in
      let (pkt, there, restored) = moved in (pkt, inr there, restored)

  holding-Completes :
      (arrivals : List (ℕ × Ipv4Header × List ℕ)) (b : ReassemblyBuffer)
      → All Arrives arrivals
      → Finishes arrivals b
  holding-Completes [] b sent v (i, inside, m) in_time covered = absurd (covered i inside m)
  holding-Completes ((now, h, f) ∷ arrivals) b sent v lacks in_time covered =
      let (mine, from, before, starts, (p, more)) = sent.0 in
      step-Completes now h f arrivals b (holding key b r) (λ c. holding-Completes arrivals c sent.1)
        in_time covered
        (add-holding whole some_bytes key h f p more top id starts room r fits now b mine live
          (omega (arith, before, in_time)) v lacks)

  pub outcomes-Completes :
      (arrivals : List (ℕ × Ipv4Header × List ℕ))
      → r.bufs ≡ []
      → r.bytes ≡ 0
      → 0 < resolve_max_bufs r
      → All Arrives arrivals
      → ((i : ℕ) → i < length whole → SomeCovers i arrivals)
      → Completes top id whole (outcomes r arrivals)
  outcomes-Completes [] empty no_bytes places sent covered = absurd (covered 0 some_bytes)
  outcomes-Completes ((now, h, f) ∷ arrivals) empty no_bytes places sent covered =
      let (mine, from, before, starts, (p, more)) = sent.0 in
      step-Completes now h f arrivals (new_buffer (now + resolve_timeout r)) r
        (λ c. holding-Completes arrivals c sent.1) (omega (arith, from))
        (λ i inside m. covered i inside)
        (add-first whole some_bytes key h f p more top id starts room r fits now mine live empty
          no_bytes places)
