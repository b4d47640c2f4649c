-- ===== src/Ipv4/Tiling.antt =====
-- The fragments of a datagram together: in order, without a gap, each within the MTU.
use govpn.Base.{
  ℕ, zero, suc, ◌+◌, ◌-◌, ◌*◌, ◌/◌, ◌≤◌, ◌<◌, min, Bool, false, not, ltb, ◌==◌, ◌≡◌, refl, ap, ◌∙◌,
  sym, subst, List, All, [], ◌∷◌, ◌++◌, length, take, drop, ok, length-take, length-drop,
  take-append-drop, Bool-cases, inl, inr, arith,
}
use govpn.Base.Words.{IsU16, IsByte}
use govpn.Ipv4.Inversion.{parse_ipv4-IsDatagram}
use govpn.Ipv4.{
  Ipv4Header, parse_ipv4, datagram, fragment, fragments_from, fragment_ipv4, max_data,
  max_ipv4_datagram,
}
use govpn.Ipv4.Fragments.{
  IsDatagram, fragment_header, length-fragment, drop-fragment, parse-fragment,
}

-- The fragments hold `rest` from the offset `off` on: each parses, as a fragment of the datagram with
-- this id at the offset where it stands, to the header of its part of the payload, and says that more
-- fragments follow exactly if more of the payload does.
abbrev pub Tiles : Ipv4Header → ℕ → ℕ → ℕ → List ℕ → List (List ℕ) → Type 0
Tiles hdr mtu id off rest [] = rest ≡ []
Tiles hdr mtu id off rest (f ∷ fs) =
    (chunk : List ℕ) × (later : List ℕ) × (rest ≡ chunk ++ later)
    × (0 < length chunk)
    × (length f ≤ mtu)
    × (drop hdr.ihl f ≡ chunk)
    × (parse_ipv4 f ≡ ok (fragment_header hdr id (length chunk) (ltb 0 (length later)) off))
    × Tiles hdr mtu id (off + length chunk) later fs

fragments_from_nil :
    (rounds : ℕ) (hdr : Ipv4Header) (pkt : List ℕ) (size id off : ℕ)
    → fragments_from rounds hdr pkt size id [] off ≡ []
unfolding fragments_from
fragments_from_nil zero hdr pkt size id off = refl
fragments_from_nil (suc rounds) hdr pkt size id off = refl

no_bytes : (b : List ℕ) → length b ≡ 0 → b ≡ []
no_bytes [] h = refl
no_bytes (x ∷ b) h = absurd (omega arith)

module _ (pkt : List ℕ) (hdr : Ipv4Header) (d : IsDatagram pkt hdr) (mtu id k : ℕ) (hid : IsU16 id)
    (hk : 0 < k) (hm : hdr.ihl + k * 8 ≤ mtu) where
  -- One fragment, and the ones after it.
  Tiles-cons :
      (rest : List ℕ) (units : ℕ) (fs : List (List ℕ))
      → 0 < length rest
      → hdr.ihl + (units * 8 + length rest) ≤ max_ipv4_datagram
      → Tiles hdr mtu id (units * 8 + length (take (k * 8) rest)) (drop (k * 8) rest) fs
      → Tiles hdr mtu id (units * 8) rest (
          fragment hdr pkt id (take (k * 8) rest) (units * 8) (not (ltb (k * 8) (length rest)))
          ∷ fs)
  Tiles-cons rest units fs pos room t =
      let chunk : List ℕ = take (k * 8) rest in
      let last : Bool = not (ltb (k * 8) (length rest)) in
      let size : length chunk ≡ min (k * 8) (length rest) = length-take (k * 8) rest in
      let more : not last ≡ ltb 0 (length (drop (k * 8) rest)) =
        ground (arith, length-drop (k * 8) rest) in
      (
        chunk,
        drop (k * 8) rest,
        sym (take-append-drop (k * 8) rest),
        omega (arith, size),
        omega (arith, size, length-fragment pkt hdr d chunk id (units * 8) last),
        drop-fragment pkt hdr d chunk id (units * 8) last,
        parse-fragment pkt hdr d chunk id units last hid (omega (arith, size))
              (λ e. ground (arith, size)) (omega (arith, size))
            ∙ ap (λ (b : Bool). ok (fragment_header hdr id (length chunk) b (units * 8))) more,
        t,
      )

  Tiles-none :
      (rounds : ℕ) (rest : List ℕ) (o off : ℕ)
      → rest ≡ []
      → Tiles hdr mtu id off rest (fragments_from rounds hdr pkt (k * 8) id rest o)
  Tiles-none rounds rest o off e =
      subst (λ (r : List ℕ). Tiles hdr mtu id off r (fragments_from rounds hdr pkt (k * 8) id r o))
        (sym e)
        (subst (Tiles hdr mtu id off []) (sym (fragments_from_nil rounds hdr pkt (k * 8) id o))
          refl)

  fragments_from-Tiles :
      (rounds : ℕ) (rest : List ℕ) (units off : ℕ)
      → off ≡ units * 8
      → length rest ≤ rounds
      → hdr.ihl + (off + length rest) ≤ max_ipv4_datagram
      → Tiles hdr mtu id off rest (fragments_from rounds hdr pkt (k * 8) id rest off)
  unfolding fragments_from
  fragments_from-Tiles zero [] units off e h room = refl
  fragments_from-Tiles zero (b ∷ bs) units off e h room = absurd (omega arith)
  fragments_from-Tiles (suc rounds) [] units off e h room = refl
  fragments_from-Tiles (suc rounds) (b ∷ bs) units off e h room =
      let rest : List ℕ = b ∷ bs in
      let later : List ℕ = drop (k * 8) rest in
      let size : length (take (k * 8) rest) ≡ min (k * 8) (length rest) =
        length-take (k * 8) rest in
      let left : length later ≡ length rest - k * 8 = length-drop (k * 8) rest in
      let fs : List (List ℕ) = fragments_from rounds hdr pkt (k * 8) id later (units * 8 + k * 8) in
      let tail : Tiles hdr mtu id (units * 8 + length (take (k * 8) rest)) later fs =
        elim (Bool-cases (ltb (k * 8) (length rest))) [
          | inr done ↦
              Tiles-none rounds later (units * 8 + k * 8) (units * 8 + length (take (k * 8) rest))
                (no_bytes later (ground (arith, left)))
          | inl more ↦
              subst (λ (o : ℕ). Tiles hdr mtu id o later fs) (ground (arith, size))
                (fragments_from-Tiles rounds (drop (k * 8) (b ∷ bs)) (units + k) (units * 8 + k * 8)
                  (omega arith) (ground (arith, left)) (ground (arith, left)))
        ] in
      subst
        (λ (o : ℕ). Tiles hdr mtu id o rest (fragments_from (suc rounds) hdr pkt (k * 8) id rest o))
        (sym e) (Tiles-cons rest units fs (omega arith) (omega (arith, e)) tail)

fragment_ipv4-Tiles_of :
    (pkt : List ℕ) (hdr : Ipv4Header) (mtu id : ℕ)
    → IsDatagram pkt hdr
    → IsU16 id
    → hdr.ihl + 8 ≤ mtu
    → Tiles hdr mtu id 0 (datagram hdr pkt) (fragment_ipv4 hdr pkt mtu id)
unfolding fragment_ipv4
fragment_ipv4-Tiles_of pkt hdr mtu id d hid h =
    let k : ℕ = (mtu - hdr.ihl) / 8 in
    let some_room : (max_data hdr mtu == 0) ≡ false = ground arith in
    let n : length (datagram hdr pkt) ≡ hdr.total_len - hdr.ihl = omega (
      arith,
      length-take (hdr.total_len - hdr.payload_off) (drop hdr.payload_off pkt),
      length-drop hdr.payload_off pkt,
      d.off,
      d.fits,
      d.within,
    ) in
    simp some_room (
      fragments_from-Tiles pkt hdr d mtu id k hid (omega arith) (omega arith)
        (length (datagram hdr pkt)) (datagram hdr pkt) 0 0 refl (omega arith)
        (omega (arith, n, d.total_u16, d.fits)))

-- A datagram that parses is fragmented without loss: for an MTU that leaves room for eight bytes of
-- data the fragments hold its payload in order, each is within the MTU and parses to its part of the
-- datagram, and the last one alone says that no more follow.
pub fragment_ipv4-Tiles :
    (pkt : List ℕ) (hdr : Ipv4Header) (mtu id : ℕ)
    → All IsByte pkt
    → parse_ipv4 pkt ≡ ok hdr
    → IsU16 id
    → hdr.ihl + 8 ≤ mtu
    → Tiles hdr mtu id 0 (datagram hdr pkt) (fragment_ipv4 hdr pkt mtu id)
fragment_ipv4-Tiles pkt hdr mtu id bytes p =
    fragment_ipv4-Tiles_of pkt hdr mtu id (parse_ipv4-IsDatagram pkt hdr bytes p)
