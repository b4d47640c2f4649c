-- ===== src/Stack/Mtu.antt =====
-- What the stack builds is given to the session, whole or in fragments within the MTU.
use govpn.Base.{
  ◌⊎◌, inl, inr, true, false, none, some, map, ◌++◌, ap, if◌then◌else◌, ℕ, ◌+◌, ◌%◌, ◌^◌, ◌≤◌, ◌<◌,
  ◌≡◌, refl, sym, subst, not, leb, ◌==◌, Option, List, [], ◌∷◌, length, All, All-append, arith, ok,
  branch-keeps_when,
}
use govpn.Base.Words.{IsByte}
use govpn.Frame.{Addr, build_ipv4, internet_checksum, ipv4_header, min_ipv4_header_len}
use govpn.Frame.Verifies.{IsAddr, ipv4_header-bytes}
use govpn.Ipv4.{Ipv4Header, parse_ipv4, fragment_ipv4}
use govpn.Ipv4.Parse.{parse_ipv4-build_ipv4}
use govpn.Ipv4.Tiling.{Tiles, fragment_ipv4-Tiles}
use govpn.Reassembly.{same_addr}
use govpn.Stack.{Stack, Attachment, Error, write_failed}
use govpn.Stack.Output.{
  Effect, session_write, Accepts, write_all, write_fragments, write_parsed, write_packet,
  next_ip_id,
}
use govpn.Stack.Sent.{built, same_addr_refl, datagram-build_ipv4}

Tiles-within :
    (hdr : Ipv4Header) (mtu id off : ℕ) (rest : List ℕ) (frags : List (List ℕ))
    → Tiles hdr mtu id off rest frags
    → All (λ f. length f ≤ mtu) frags
Tiles-within hdr mtu id off rest [] t = tt
Tiles-within hdr mtu id off rest (f ∷ frags)
      (chunk, later, e, some_bytes, within, part, parsed, t) =
    (within, Tiles-within hdr mtu id (off + length chunk) later frags t)

-- The session is given these packets in their order: all of them, or those up to the first that it does
-- not take, whose failure is the answer.
abbrev pub Given : Accepts → ℕ → List (List ℕ) → List Effect → Option Error → Type 0
Given accepts sess pkts effects e =
    (All (λ p. accepts sess p ≡ true) pkts × (effects ≡ map (session_write sess) pkts) × (e ≡ none))
    ⊎ ((front : List (List ℕ)) × (p : List ℕ) × (rest : List (List ℕ)) × (pkts
          ≡ front ++ (p ∷ rest))
        × All (λ q. accepts sess q ≡ true) front
        × (accepts sess p ≡ false)
        × (effects ≡ map (session_write sess) (front ++ (p ∷ [])))
        × (e ≡ some write_failed))

Given-cons :
    (accepts : Accepts) (sess : ℕ) (p : List ℕ) (pkts : List (List ℕ)) (effects : List Effect)
    (e : Option Error)
    → accepts sess p ≡ true
    → Given accepts sess pkts effects e
    → Given accepts sess (p ∷ pkts) (session_write sess p ∷ effects) e
Given-cons accepts sess p pkts effects e taken (inl (all, wrote, fine)) =
    inl ((taken, all), ap (λ xs. session_write sess p ∷ xs) wrote, fine)
Given-cons accepts sess p pkts effects e taken
      (inr (front, q, rest, split, all, refused, wrote, failed)) =
    inr (
      p ∷ front,
      q,
      rest,
      ap (λ xs. p ∷ xs) split,
      (taken, all),
      refused,
      ap (λ xs. session_write sess p ∷ xs) wrote,
      failed,
    )

Given-one :
    (accepts : Accepts) (sess : ℕ) (p : List ℕ)
    → Given accepts sess
        (p ∷ [])
        (session_write sess p ∷ [])
        (if accepts sess p then none else some write_failed)
Given-one accepts sess p =
    branch-keeps_when (Given accepts sess (p ∷ []) (session_write sess p ∷ [])) (accepts sess p)
      none (some write_failed) (λ taken. inl ((taken, tt), refl, refl))
      (λ refused. inr ([], p, [], refl, tt, refused, refl, refl))

write_all-Given :
    (accepts : Accepts) (sess : ℕ) (frags : List (List ℕ))
    → Given accepts sess frags (write_all accepts sess frags).0 (write_all accepts sess frags).1
unfolding write_all
write_all-Given accepts sess [] = inl (tt, refl, refl)
write_all-Given accepts sess (f ∷ frags) =
    branch-keeps_when (λ (x : List Effect × Option Error). Given accepts sess (f ∷ frags) x.0 x.1)
      (accepts sess f) _ _
      (λ taken. Given-cons accepts sess f frags _ _ taken (write_all-Given accepts sess frags))
      (λ refused. inr ([], f, frags, refl, tt, refused, refl, refl))

-- The packet is given to the session whole, or as fragments that hold its payload in order.
abbrev pub Gives :
    Accepts
    → Attachment
    → Ipv4Header
    → ℕ
    → List ℕ
    → List ℕ
    → Stack × List Effect × Option Error
    → Type 0
Gives accepts a hdr mtu pkt payload (s, effects, e) =
    (pkts : List (List ℕ)) × (((length pkt ≤ mtu) × (pkts ≡ pkt ∷ []))
      ⊎ ((mtu < length pkt) × (id : ℕ) × Tiles hdr mtu id 0 payload pkts))
    × All (λ p. length p ≤ mtu) pkts
    × Given accepts a.sess pkts effects e

no_fragments :
    (hdr : Ipv4Header) (mtu id : ℕ) (payload : List ℕ) (frags : List (List ℕ))
    → 0 < length payload
    → Tiles hdr mtu id 0 payload frags
    → (length frags == 0) ≡ false
no_fragments hdr mtu id payload [] some_bytes t = absurd (omega (arith, some_bytes, ap length t))
no_fragments hdr mtu id payload (f ∷ frags) some_bytes t = ground arith

build_ipv4-bytes :
    (src dst : Addr) (protocol : ℕ) (payload : List ℕ)
    → IsAddr src
    → IsAddr dst
    → IsByte protocol
    → All IsByte payload
    → All IsByte (build_ipv4 [] src dst protocol payload)
unfolding build_ipv4
build_ipv4-bytes src dst protocol payload hs hd hp bytes =
    let len : ℕ = min_ipv4_header_len + length payload in
    let checksum : ℕ = internet_checksum (ipv4_header src dst protocol len 0) in
    All-append IsByte (ipv4_header src dst protocol len checksum) payload
      (ipv4_header-bytes src dst protocol len checksum hs hd hp) bytes

-- A packet that the stack builds from bytes, for a protocol and between IPv4 addresses, whose length
-- fits in 16 bits, is given to the session whole if it is within the MTU. If it is not, and the MTU
-- leaves room for eight bytes of data, it is given in fragments, of which none is longer than the MTU
-- and which hold its payload in order. Of these packets all are written, or those up to the first that
-- the session does not take, whose failure is the answer; and nothing else is written.
pub write_packet-Gives :
    (accepts : Accepts) (a : Attachment) (dst : Addr) (protocol : ℕ) (payload : List ℕ) (s : Stack)
    → IsAddr s.server_ip
    → IsAddr dst
    → IsByte protocol
    → All IsByte payload
    → length payload + min_ipv4_header_len < 2 ^ 16
    → 28 ≤ s.mtu
    → let pkt : List ℕ = build_ipv4 [] s.server_ip dst protocol payload in
      Gives accepts a
        (built s.server_ip dst protocol (length payload))
        s.mtu
        pkt
        payload
        (write_packet accepts a pkt s)
unfolding write_packet write_parsed write_fragments
write_packet-Gives accepts a dst protocol payload s hs hd hp bytes fits room =
    let pkt : List ℕ = build_ipv4 [] s.server_ip dst protocol payload in
    let hdr : Ipv4Header = built s.server_ip dst protocol (length payload) in
    let parsed : parse_ipv4 pkt ≡ ok hdr =
      parse_ipv4-build_ipv4 s.server_ip dst protocol payload fits in
    let n : length pkt ≡ 20 + length payload = unfold build_ipv4 in omega arith in
    let pkt_bytes : All IsByte pkt =
      build_ipv4-bytes s.server_ip dst protocol payload hs hd hp bytes in
    let id : ℕ = next_ip_id s % 2 ^ 16 in
    let frags : List (List ℕ) = fragment_ipv4 hdr pkt s.mtu id in
    let tiles : Tiles hdr s.mtu id 0 payload frags =
      subst (λ p. Tiles hdr s.mtu id 0 p frags)
        (datagram-build_ipv4 s.server_ip dst protocol payload)
        (fragment_ipv4-Tiles pkt hdr s.mtu id pkt_bytes parsed (omega arith) room) in
    let P : Stack × List Effect × Option Error → Type 0 = Gives accepts a hdr s.mtu pkt payload in
    subst (λ r. P (write_parsed accepts a r pkt s)) (sym parsed)
      (branch-keeps_when P (not (same_addr s.server_ip s.server_ip)) _ _
        (λ other. let same = same_addr_refl s.server_ip in absurd (ground (arith, other, same)))
        (λ _.
          branch-keeps_when P (leb (20 + length payload) s.mtu) _ _
            (λ small. (
              pkt ∷ [],
              inl (ground (arith, n), refl),
              (ground (arith, n), tt),
              Given-one accepts a.sess pkt,
            ))
            (λ large.
              branch-keeps_when P (length frags == 0) _ _
                (λ none_made.
                  let some_bytes : 0 < length payload = ground arith in
                  let made = no_fragments hdr s.mtu id payload frags some_bytes tiles in absurd cc)
                (λ _. (
                  frags,
                  inr (ground (arith, n), id, tiles),
                  Tiles-within hdr s.mtu id 0 payload frags tiles,
                  write_all-Given accepts a.sess frags,
                )))))
