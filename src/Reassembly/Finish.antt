-- ===== src/Reassembly/Finish.antt =====
-- What `finish` makes of a buffer that fragments of one datagram have come to.
use govpn.Base.{
  ℕ, ◌+◌, ◌-◌, ◌≤◌, ◌<◌, ◌≡◌, ap, subst, ◌∙◌, false, ltb, if_not, some, Option-cases, inl, inr,
  List, [], ◌∷◌, length, take, arith,
}
use govpn.Ipv4.{Ipv4Header, max_ipv4_datagram}
use govpn.Reassembly.{
  Hole, ReassemblyKey, ReassemblyBuffer, Reassembler, ReasmOutcome, buffered, complete,
}
use govpn.Reassembly.Add.{rebuild, deliver, finish}
use govpn.Reassembly.Holes.{missing}
use govpn.Reassembly.Rebuilt.{IsHeaderOf}
use govpn.Reassembly.Content.{TotalIs, take-Filled}
use govpn.Reassembly.Tracked.{Tracked}
use govpn.Reassembly.Waiting.{}

pub finish_waits :
    (key : ReassemblyKey) (b : ReassemblyBuffer) (r : Reassembler) (h : Hole) (holes : List Hole)
    → b.holes ≡ h ∷ holes
    → finish key b r ≡ (r, buffered)
unfolding finish
finish_waits key b r h holes e = rw e

finish_done :
    (key : ReassemblyKey) (b : ReassemblyBuffer) (r : Reassembler) (header : List ℕ) (total : ℕ)
    → b.holes ≡ []
    → b.total_len ≡ some total
    → b.header ≡ some header
    → total ≤ length b.data_bytes
    → length header + total ≤ max_ipv4_datagram
    → (finish key b r).1 ≡ complete (rebuild header (take total b.data_bytes))
unfolding finish deliver
finish_done key b r header total none_left ends starts enough fits =
    rw (none_left, ends, starts)
      (ap (λ (x : Reassembler × ReasmOutcome). x.1)
          (if_not (ltb (length b.data_bytes) total) _ _ (ground (arith, enough)))
        ∙ ap (λ (x : Reassembler × ReasmOutcome). x.1)
            (if_not (ltb max_ipv4_datagram (length header + total)) _ _ (ground (arith, fits))))

-- A buffer without a hole gives the datagram.
pub finish-complete :
    (whole : List ℕ) (top : Ipv4Header) (id : ℕ) (key : ReassemblyKey) (b : ReassemblyBuffer)
    (r : Reassembler)
    → 0 < length whole
    → Tracked whole top id b
    → top.ihl + length whole ≤ max_ipv4_datagram
    → b.holes ≡ []
    → (header : List ℕ) × IsHeaderOf top id header
      × ((finish key b r).1 ≡ complete (rebuild header whole))
unfolding missing
finish-complete whole top id key b r some_bytes v room none_left =
    let gone : (i : ℕ) → missing i b.holes ≡ false = λ i. ap (missing i) none_left in
    elim (Option-cases b.total_len) [
      | inl open_end ↦ let m = v.endless open_end in let g = gone (length whole - 1) in absurd cc
      | inr (total, ends) ↦ elim (Option-cases b.header) [
        | inl headless ↦ let m = v.headless headless in let g = gone 0 in absurd cc
        | inr (header, starts) ↦
            let bytes : take total b.data_bytes ≡ whole =
              take-Filled whole b total v.filled none_left ends in
            let n : total ≡ length whole = subst (TotalIs (length whole)) ends v.filled.total in
            let enough : total ≤ length b.data_bytes = omega (
              arith,
              n,
              some_bytes,
              v.filled.reached (length whole - 1) (omega (arith, some_bytes)) (gone _),
            ) in
            (
              header,
              v.head header starts,
              finish_done key b r header total none_left ends starts enough
                    (omega (arith, n, room, (v.head header starts).size))
                  ∙ ap (λ xs. complete (rebuild header xs)) bytes,
            )
      ]
    ]
