-- ===== src/Reassembly/RoundTrip.antt =====
-- A datagram that fragment_ipv4 cuts up is put together again, whatever the order of its fragments.
use govpn.Base.{
  false, ℕ, ◌+◌, ◌≤◌, ◌<◌, ◌≡◌, refl, sym, subst, ◌∙◌, inl, inr, List, [], ◌∷◌, length, In, All, ok,
  ok_inj, arith,
}
use govpn.Base.Words.{IsByte, IsU16}
use govpn.Ipv4.{Ipv4Header, parse_ipv4, datagram, fragment_ipv4}
use govpn.Ipv4.Tiling.{fragment_ipv4-Tiles}
use govpn.Reassembly.{Reassembler, resolve_max_bufs, resolve_max_bytes, resolve_timeout}
use govpn.Reassembly.Bounds.{empty_reassembler}
use govpn.Reassembly.Sender.{sent_key, all_of_whole, sent_whole, Tiles-covers}
use govpn.Reassembly.Completion.{
  outcomes, Covers, SomeCovers, Completes, Arrives, outcomes-Completes,
}

All-In : {A : Type 0} (P : A → Type 0) (xs : List A) (x : A) → All P xs → In x xs → P x
All-In P [] x h there = absurd there
All-In P (y ∷ xs) x h (inl here) = subst P (sym here) h.0
All-In P (y ∷ xs) x h (inr there) = All-In P xs x h.1 there

All-map :
    {A : Type 0} {P Q : A → Type 0} → ((x : A) → P x → Q x) → (xs : List A) → All P xs → All Q xs
All-map f [] h = tt
All-map f (x ∷ xs) h = (f x h.0, All-map f xs h.1)

In-SomeCovers :
    (i : ℕ) (arrivals : List (ℕ × Ipv4Header × List ℕ)) (a : ℕ × Ipv4Header × List ℕ)
    → In a arrivals
    → Covers i a
    → SomeCovers i arrivals
In-SomeCovers i [] a there c = absurd there
In-SomeCovers i (x ∷ arrivals) a (inl here) c = inl (subst (Covers i) here c)
In-SomeCovers i (x ∷ arrivals) a (inr there) c = inr (In-SomeCovers i arrivals a there c)

-- One of these fragments, as it was parsed, from `start` on and before the time is up.
abbrev pub IsTimely : List (List ℕ) → ℕ → ℕ → ℕ × Ipv4Header × List ℕ → Type 0
IsTimely fs start timeout (now, h, f) =
    In f fs × (parse_ipv4 f ≡ ok h) × (start ≤ now) × (now < start + timeout)

module _ (pkt : List ℕ) (hdr : Ipv4Header) (mtu id : ℕ) (bytes : All IsByte pkt)
    (parsed : parse_ipv4 pkt ≡ ok hdr) (hid : IsU16 id) (room : hdr.ihl + 8 ≤ mtu) (start : ℕ)
    (r : Reassembler) (live : r.closed ≡ false)
    (fits : length (datagram hdr pkt) ≤ resolve_max_bytes r)
    (some_bytes : 0 < length (datagram hdr pkt)) where
  IsTimely-Arrives :
      (a : ℕ × Ipv4Header × List ℕ)
      → IsTimely (fragment_ipv4 hdr pkt mtu id) start (resolve_timeout r) a
      → Arrives hdr id
          (datagram hdr pkt)
          (sent_whole pkt hdr mtu id bytes parsed hid room)
          some_bytes
          (sent_key hdr id)
          r
          live
          fits
          start
          a
  IsTimely-Arrives (now, h, f) (there, read, from, before) =
      let (h₁, read₁, mine, starts, fragment) =
        all_of_whole pkt hdr mtu id bytes parsed hid room f there in
      let same : h₁ ≡ h = ok_inj (sym read₁ ∙ read) in
      subst
        (λ x.
          Arrives hdr id (datagram hdr pkt) (sent_whole pkt hdr mtu id bytes parsed hid room)
            some_bytes (sent_key hdr id) r live fits start (now, x, f))
        same (mine, from, before, starts, fragment)

  outcomes_complete :
      (arrivals : List (ℕ × Ipv4Header × List ℕ))
      → r.bufs ≡ []
      → r.bytes ≡ 0
      → 0 < resolve_max_bufs r
      → All (IsTimely (fragment_ipv4 hdr pkt mtu id) start (resolve_timeout r)) arrivals
      → ((f : List ℕ)
          → In f (fragment_ipv4 hdr pkt mtu id)
          → (now : ℕ) × (h : Ipv4Header) × In (now, h, f) arrivals)
      → Completes hdr id (datagram hdr pkt) (outcomes r arrivals)
  outcomes_complete arrivals empty no_bytes places timely all_come =
      outcomes-Completes hdr id (datagram hdr pkt) (sent_whole pkt hdr mtu id bytes parsed hid room)
        some_bytes (sent_key hdr id) r live fits start arrivals empty no_bytes places
        (All-map IsTimely-Arrives arrivals timely)
        (λ i inside.
          let (f, h, there, read, from, to) =
            Tiles-covers hdr mtu id (datagram hdr pkt)
              (sent_whole pkt hdr mtu id bytes parsed hid room) (datagram hdr pkt) 0
              (fragment_ipv4 hdr pkt mtu id) i
              (fragment_ipv4-Tiles pkt hdr mtu id bytes parsed hid room) (omega arith)
              (omega (arith, inside)) in
          let (now, h₁, arrived) = all_come f there in
          let (_, read₁, _, _) = All-In _ arrivals (now, h₁, f) timely arrived in
          let same : h ≡ h₁ = ok_inj (sym read ∙ read₁) in
          In-SomeCovers i arrivals (now, h₁, f) arrived
            (subst (λ x. Covers i (now, x, f)) same (from, to)))

-- A datagram that is not empty is cut up for an MTU that leaves room for eight bytes of data. All its
-- fragments come to a new reassembler, in any order and repeated or not, before the time of the first one
-- is up, and the payload is within the limit of bytes. Then one of them completes the datagram: the
-- answer parses as a complete datagram with the header length, the protocol and the addresses of the one
-- cut up and the id given to the fragments, and its payload is behind the header.
pub outcomes-fragment_ipv4 :
    (pkt : List ℕ) (hdr : Ipv4Header) (mtu id max_bufs max_bytes timeout start : ℕ)
    (arrivals : List (ℕ × Ipv4Header × List ℕ))
    → All IsByte pkt
    → parse_ipv4 pkt ≡ ok hdr
    → IsU16 id
    → hdr.ihl + 8 ≤ mtu
    → 0 < length (datagram hdr pkt)
    → let r : Reassembler = empty_reassembler max_bufs max_bytes timeout in
      let fs : List (List ℕ) = fragment_ipv4 hdr pkt mtu id in
      length (datagram hdr pkt) ≤ resolve_max_bytes r
      → All (IsTimely fs start (resolve_timeout r)) arrivals
      → ((f : List ℕ) → In f fs → (now : ℕ) × (h : Ipv4Header) × In (now, h, f) arrivals)
      → Completes hdr id (datagram hdr pkt) (outcomes r arrivals)
outcomes-fragment_ipv4 pkt hdr mtu id max_bufs max_bytes timeout start arrivals bytes parsed hid
      room some_bytes fits timely all_come =
    outcomes_complete pkt hdr mtu id bytes parsed hid room start
      (empty_reassembler max_bufs max_bytes timeout) refl fits some_bytes arrivals refl refl
      (ground arith) timely all_come
