-- ===== src/Reassembly/Origin.antt =====
-- The source and the destination of a reassembled datagram are those of its fragments.
use govpn.Base.{
  some_inj, ℕ, ◌+◌, ◌-◌, ◌≤◌, ◌≡◌, subst, Bool, not, ltb, leb, ◌==◌, if◌then◌else◌, Option, none,
  some, List, [], ◌∷◌, length, take, All, option-keeps, branch-keeps, option-keeps_when, inl, inr,
  Bool-cases,
}
use govpn.Frame.{Addr}
use govpn.Ipv4.{Ipv4Header, datagram, max_ipv4_datagram}
use govpn.Reassembly.{
  ReassemblyKey, ReassemblyBuffer, Reassembler, ReasmOutcome, buffered, duplicate, conflict,
  bound_exceeded, complete, find, replace, remove, drop_locked, expire, punch, write_at, same_key,
  resolve_max_bufs, resolve_max_bytes, resolve_timeout,
}
use govpn.Reassembly.Add.{
  key_of, new_buffer, check_total, deliver, finish, fill, add_to, add_live, add,
}
use govpn.Reassembly.Addrs.{HasAddrs, rebuild-HasAddrs}

-- What a buffer holds of a header.
abbrev HeaderFrom : Addr → Addr → Option (List ℕ) → Type 0
HeaderFrom src dst none = Unit {0}
HeaderFrom src dst (some header) = (20 ≤ length header) × HasAddrs src dst header

abbrev BufferFrom : Addr → Addr → ReassemblyKey × ReassemblyBuffer → Type 0
BufferFrom src dst (k, b) = HeaderFrom src dst b.header

abbrev BufsFrom : Addr → Addr → List (ReassemblyKey × ReassemblyBuffer) → Type 0
BufsFrom src dst bufs = All (BufferFrom src dst) bufs

-- Every header that waits has these addresses.
abbrev pub HoldsFrom : Addr → Addr → Reassembler → Type 0
HoldsFrom src dst r = BufsFrom src dst r.bufs

abbrev pub OutcomeFrom : Addr → Addr → ReasmOutcome → Type 0
OutcomeFrom src dst (complete pkt) = HasAddrs src dst pkt
OutcomeFrom src dst _ = Unit {0}

abbrev AddedFrom : Addr → Addr → Reassembler × ReasmOutcome → Type 0
AddedFrom src dst (r, outcome) = HoldsFrom src dst r × OutcomeFrom src dst outcome

module _ (src dst : Addr) where
  replace-BufsFrom :
      (key : ReassemblyKey) (b : ReassemblyBuffer) (bufs : List (ReassemblyKey × ReassemblyBuffer))
      → HeaderFrom src dst b.header
      → BufsFrom src dst bufs
      → BufsFrom src dst (replace key b bufs)
  unfolding replace
  replace-BufsFrom key b [] hb h = tt
  replace-BufsFrom key b ((k, c) ∷ bufs) hb h =
      branch-keeps (BufsFrom src dst) (same_key key k) _ _ (hb, h.1)
        (h.0, replace-BufsFrom key b bufs hb h.1)

  remove-BufsFrom :
      (key : ReassemblyKey) (bufs : List (ReassemblyKey × ReassemblyBuffer))
      → BufsFrom src dst bufs
      → BufsFrom src dst (remove key bufs)
  unfolding remove
  remove-BufsFrom key [] h = tt
  remove-BufsFrom key ((k, c) ∷ bufs) h =
      branch-keeps (BufsFrom src dst) (same_key key k) _ _ h.1 (h.0, remove-BufsFrom key bufs h.1)

  expire-BufsFrom :
      (now : ℕ) (bufs : List (ReassemblyKey × ReassemblyBuffer)) (bytes : ℕ)
      → BufsFrom src dst bufs
      → BufsFrom src dst (expire now bufs bytes).0
  unfolding expire
  expire-BufsFrom now [] bytes h = tt
  expire-BufsFrom now ((k, b) ∷ bufs) bytes h =
      let rest = expire-BufsFrom now bufs bytes h.1 in
      branch-keeps (λ (x : List (ReassemblyKey × ReassemblyBuffer) × ℕ × ℕ). BufsFrom src dst x.0)
        (ltb now b.expires) _ _ (h.0, rest) rest

  find-HeaderFrom :
      (key : ReassemblyKey) (bufs : List (ReassemblyKey × ReassemblyBuffer)) (b : ReassemblyBuffer)
      → BufsFrom src dst bufs
      → find key bufs ≡ some b
      → HeaderFrom src dst b.header
  unfolding find
  find-HeaderFrom key [] b h e = absurd cc
  find-HeaderFrom key ((k, c) ∷ bufs) b h e = elim (Bool-cases (same_key key k)) [
    | inl same ↦
        let is_b : c ≡ b = some_inj (rw same at e) in
        subst (λ (x : ReassemblyBuffer). HeaderFrom src dst x.header) is_b h.0
    | inr other ↦ find-HeaderFrom key bufs b h.1 (rw other at e)
  ]

  deliver-AddedFrom :
      (key : ReassemblyKey) (b : ReassemblyBuffer) (header : List ℕ) (total : ℕ) (r : Reassembler)
      → HoldsFrom src dst r
      → HeaderFrom src dst (some header)
      → AddedFrom src dst (deliver key b header total r)
  unfolding deliver drop_locked
  deliver-AddedFrom key b header total r v h =
      let left = remove-BufsFrom key r.bufs v in
      branch-keeps (AddedFrom src dst) (ltb max_ipv4_datagram (length header + total)) _ _
        (left, tt) (left, rebuild-HasAddrs src dst header (take total b.data_bytes) h.0 h.1)

  finish-AddedFrom :
      (key : ReassemblyKey) (b : ReassemblyBuffer) (r : Reassembler)
      → HoldsFrom src dst r
      → HeaderFrom src dst b.header
      → AddedFrom src dst (finish key b r)
  unfolding finish
  finish-AddedFrom key b r v h =
      elim b.holes
        as (λ hs. AddedFrom src dst (elim hs [
          | h ∷ hs ↦ (r, buffered)
          | [] ↦ elim b.total_len [
            | none ↦ (r, buffered)
            | some total ↦ elim b.header [
              | none ↦ (r, buffered)
              | some header ↦
                  if ltb (length b.data_bytes) total
                  then (r, buffered)
                  else deliver key b header total r
            ]
          ]
        ])) [
          | h ∷ hs ↦ (v, tt)
          | [] ↦
              option-keeps (AddedFrom src dst) b.total_len _ _ (v, tt)
                (λ total.
                  option-keeps_when (AddedFrom src dst) b.header _ _ (λ _. (v, tt))
                    (λ header e.
                      branch-keeps (AddedFrom src dst) (ltb (length b.data_bytes) total) _ _ (v, tt)
                        (deliver-AddedFrom key b header total r v
                          (subst (HeaderFrom src dst) e h))))
        ]

  -- A fragment between these addresses.
  module _ (hdr : Ipv4Header) (pkt : List ℕ) (long : 20 ≤ length (take hdr.ihl pkt))
      (h : HasAddrs src dst (take hdr.ihl pkt)) where
    fill-AddedFrom :
        (key : ReassemblyKey) (b : ReassemblyBuffer) (r : Reassembler)
        → HoldsFrom src dst r
        → HeaderFrom src dst b.header
        → AddedFrom src dst (fill key b hdr pkt r)
    unfolding fill
    fill-AddedFrom key b r v hb =
        let payload : List ℕ = datagram hdr pkt in
        let end : ℕ = hdr.frag_offset + length payload in
        let header : Option (List ℕ) =
          if hdr.frag_offset == 0 then some (take hdr.ihl pkt) else b.header in
        let b₁ : ReassemblyBuffer = record b {
          holes = (punch hdr.more_fragments hdr.frag_offset end b.holes).0;
          data_bytes = write_at hdr.frag_offset payload b.data_bytes;
          header = header;
        } in
        let hb₁ : HeaderFrom src dst header =
          branch-keeps (HeaderFrom src dst) (hdr.frag_offset == 0) _ _ (long, h) hb in
        let v₁ = replace-BufsFrom key b₁ r.bufs hb₁ v in
        let grow : ℕ = end - length b.data_bytes in
        let r₁ : Reassembler = record r { bytes = r.bytes + grow; bufs = replace key b₁ r.bufs } in
        let met : Bool = (punch hdr.more_fragments hdr.frag_offset end b.holes).1 in
        branch-keeps (AddedFrom src dst) (ltb (resolve_max_bytes r) (r.bytes + grow))
          (r, bound_exceeded) (if not met then (r₁, duplicate) else finish key b₁ r₁) (v, tt)
          (branch-keeps (AddedFrom src dst) (not met) (r₁, duplicate) (finish key b₁ r₁) (v₁, tt)
            (finish-AddedFrom key b₁ r₁ v₁ hb₁))

    add_to-AddedFrom :
        (key : ReassemblyKey) (b : ReassemblyBuffer) (r : Reassembler)
        → HoldsFrom src dst r
        → HeaderFrom src dst b.header
        → AddedFrom src dst (add_to key b hdr pkt r)
    unfolding add_to drop_locked
    add_to-AddedFrom key b r v hb =
        let with_total : Option ℕ → ReassemblyBuffer = λ total. record b { total_len = total } in
        option-keeps (AddedFrom src dst)
          (check_total hdr.more_fragments (hdr.frag_offset + length (datagram hdr pkt)) b.total_len)
          (drop_locked key b r, conflict)
          (λ total.
            fill key (with_total total) hdr pkt
              (record r { bufs = replace key (with_total total) r.bufs }))
          (remove-BufsFrom key r.bufs v, tt)
          (λ total.
            fill-AddedFrom key (with_total total)
              (record r { bufs = replace key (with_total total) r.bufs })
              (replace-BufsFrom key (with_total total) r.bufs hb v) hb)

    add_live-AddedFrom :
        (now : ℕ) (r : Reassembler)
        → HoldsFrom src dst r
        → AddedFrom src dst (add_live now hdr pkt r)
    unfolding add_live
    add_live-AddedFrom now r v =
        let key : ReassemblyKey = key_of hdr in
        let b : ReassemblyBuffer = new_buffer (now + resolve_timeout r) in
        let r₁ : Reassembler = record r { bufs = (key, b) ∷ r.bufs } in
        option-keeps_when (AddedFrom src dst) (find key r.bufs)
          (if leb (resolve_max_bufs r) (length r.bufs)
            then (r, bound_exceeded)
            else add_to key b hdr pkt r₁)
          (λ c. add_to key c hdr pkt r)
          (λ _.
            branch-keeps (AddedFrom src dst) (leb (resolve_max_bufs r) (length r.bufs))
              (r, bound_exceeded) (add_to key b hdr pkt r₁) (v, tt)
              (add_to-AddedFrom key b r₁ (tt, v) tt))
          (λ c e. add_to-AddedFrom key c r v (find-HeaderFrom key r.bufs c v e))

    pub add-OutcomeFrom :
        (now : ℕ) (r : Reassembler)
        → HoldsFrom src dst r
        → HoldsFrom src dst (add r now hdr pkt).0 × OutcomeFrom src dst (add r now hdr pkt).1
    unfolding add
    add-OutcomeFrom now r v =
        let live : Reassembler = record r {
          bufs = (expire now r.bufs r.bytes).0;
          bytes = (expire now r.bufs r.bytes).1;
        } in
        let done = add_live-AddedFrom now live (expire-BufsFrom now r.bufs r.bytes v) in
        branch-keeps
          (λ (x : Reassembler × ReasmOutcome × ℕ). HoldsFrom src dst x.0 × OutcomeFrom src dst x.1)
          r.closed _ _ (v, tt) done
