-- ===== src/Reassembly/Whole.antt =====
-- Whatever else arrives, fragments that are parts of one datagram are put together to that datagram.
use govpn.Base.{
  sym, ℕ, ◌+◌, ◌-◌, ◌≤◌, ◌≡◌, refl, subst, Bool, true, not, ltb, leb, ◌==◌, if◌then◌else◌, Option,
  none, some, some_inj, inl, inr, Bool-cases, List, [], ◌∷◌, length, take, All, arith,
  option-keeps_when, branch-keeps, branch-keeps_when,
}
use govpn.Ipv4.{Ipv4Header, datagram, max_ipv4_datagram}
use govpn.Reassembly.{
  ReassemblyKey, ReassemblyBuffer, Reassembler, ReasmOutcome, buffered, duplicate, conflict,
  bound_exceeded, complete, find, replace, remove, drop_locked, expire, punch, write_at, same_key,
  resolve_max_bufs, resolve_max_bytes, resolve_timeout,
}
use govpn.Reassembly.Add.{
  key_of, new_buffer, check_total, rebuild, deliver, finish, fill, add_to, add_live, add,
}
use govpn.Reassembly.Rebuilt.{IsHeaderOf, IsRestored, new_header-IsHeaderOf, rebuild-IsRestored}
use govpn.Reassembly.Content.{
  IsPart, Filled, check_total-TotalIs, fill-Filled, new_buffer-Filled, take-Filled,
}

same_key_join :
    (key k l : ReassemblyKey) → same_key key l ≡ true → same_key k l ≡ true → same_key key k ≡ true
unfolding same_key
same_key_join key k l h e = ground arith

same_key_trans :
    (key k l : ReassemblyKey) → same_key key k ≡ true → same_key k l ≡ true → same_key key l ≡ true
unfolding same_key
same_key_trans key k l h e = ground arith

-- A buffer of the datagram: its bytes that arrived, and its header.
pub record IsBuffer (top : Ipv4Header) (id : ℕ) (whole : List ℕ) (b : ReassemblyBuffer)
    : Type 0 where
  pub filled : Filled whole b
  pub head : (header : List ℕ) → b.header ≡ some header → IsHeaderOf top id header

-- What is completed is the datagram.
abbrev pub IsWhole : Ipv4Header → ℕ → List ℕ → ReasmOutcome → Type 0
IsWhole top id whole (complete pkt) = IsRestored top id whole pkt
IsWhole top id whole _ = Unit {0}

module _ (key : ReassemblyKey) (top : Ipv4Header) (id : ℕ) (whole : List ℕ) where
  -- What the map holds under the key of the datagram.
  abbrev Held : ReassemblyKey × ReassemblyBuffer → Type 0
  Held (k, b) = same_key key k ≡ true → IsBuffer top id whole b

  abbrev Bufs : List (ReassemblyKey × ReassemblyBuffer) → Type 0
  Bufs bufs = All Held bufs

  abbrev pub Holds : Reassembler → Type 0
  Holds r = Bufs r.bufs

  -- What follows from a fragment under the key `k`.
  abbrev Added : ReassemblyKey → Reassembler × ReasmOutcome → Type 0
  Added k (r, outcome) = Holds r × (same_key key k ≡ true → IsWhole top id whole outcome)

  replace-Bufs :
      (k : ReassemblyKey) (b : ReassemblyBuffer) (bufs : List (ReassemblyKey × ReassemblyBuffer))
      → Held (k, b)
      → Bufs bufs
      → Bufs (replace k b bufs)
  unfolding replace
  replace-Bufs k b [] hb h = tt
  replace-Bufs k b ((l, c) ∷ bufs) hb h =
      branch-keeps_when Bufs (same_key k l) _ _
        (λ same. ((λ mine. hb (same_key_join key k l mine same)), h.1))
        (λ other. (h.0, replace-Bufs k b bufs hb h.1))

  remove-Bufs :
      (k : ReassemblyKey) (bufs : List (ReassemblyKey × ReassemblyBuffer))
      → Bufs bufs
      → Bufs (remove k bufs)
  unfolding remove
  remove-Bufs k [] h = tt
  remove-Bufs k ((l, c) ∷ bufs) h =
      branch-keeps Bufs (same_key k l) _ _ h.1 (h.0, remove-Bufs k bufs h.1)

  expire-Bufs :
      (now : ℕ) (bufs : List (ReassemblyKey × ReassemblyBuffer)) (bytes : ℕ)
      → Bufs bufs
      → Bufs (expire now bufs bytes).0
  unfolding expire
  expire-Bufs now [] bytes h = tt
  expire-Bufs now ((k, b) ∷ bufs) bytes h =
      let rest = expire-Bufs now bufs bytes h.1 in
      branch-keeps (λ (x : List (ReassemblyKey × ReassemblyBuffer) × ℕ × ℕ). Bufs x.0)
        (ltb now b.expires) _ _ (h.0, rest) rest

  find-Held :
      (k : ReassemblyKey) (bufs : List (ReassemblyKey × ReassemblyBuffer)) (b : ReassemblyBuffer)
      → Bufs bufs
      → find k bufs ≡ some b
      → Held (k, b)
  unfolding find
  find-Held k [] b h e = absurd cc
  find-Held k ((l, c) ∷ bufs) b h e = elim (Bool-cases (same_key k l)) [
    | inl same ↦
        let is_b : c ≡ b = some_inj (rw same at e) in
        λ mine. subst (IsBuffer top id whole) is_b (h.0 (same_key_trans key k l mine same))
    | inr other ↦ find-Held k bufs b h.1 (rw other at e)
  ]

  deliver-Added :
      (k : ReassemblyKey) (b : ReassemblyBuffer) (header : List ℕ) (total : ℕ) (r : Reassembler)
      → Holds r
      → Held (k, b)
      → b.holes ≡ []
      → b.total_len ≡ some total
      → b.header ≡ some header
      → top.ihl + length whole ≤ max_ipv4_datagram
      → Added k (deliver k b header total r)
  unfolding deliver drop_locked
  deliver-Added k b header total r v h none_left ends starts room =
      let left = remove-Bufs k r.bufs v in
      branch-keeps (Added k) (ltb max_ipv4_datagram (length header + total)) _ _
        (left, (λ mine. tt))
        (
          left,
          (λ mine.
              subst (λ xs. IsRestored top id whole (rebuild header xs))
                (sym (take-Filled whole b total (h mine).filled none_left ends))
                (rebuild-IsRestored top id header whole ((h mine).head header starts) room)),
        )

  finish-Added :
      (k : ReassemblyKey) (b : ReassemblyBuffer) (r : Reassembler)
      → Holds r
      → Held (k, b)
      → top.ihl + length whole ≤ max_ipv4_datagram
      → Added k (finish k b r)
  unfolding finish
  finish-Added k b r v h room =
      let waits : Added k (r, buffered) = (v, (λ mine. tt)) in
      (elim b.holes
          as (λ hs.
            b.holes ≡ hs
            → Added k (elim hs [
              | h ∷ hs ↦ (r, buffered)
              | [] ↦ elim b.total_len [
                | none ↦ (r, buffered)
                | some total ↦ elim b.header [
                  | none ↦ (r, buffered)
                  | some header ↦
                      if ltb (length b.data_bytes) total
                      then (r, buffered)
                      else deliver k b header total r
                ]
              ]
            ])) [
              | h ∷ hs ↦ λ e. waits
              | [] ↦ λ e.
                  option-keeps_when (Added k) b.total_len _ _ (λ _. waits)
                    (λ total ends.
                      option-keeps_when (Added k) b.header _ _ (λ _. waits)
                        (λ header starts.
                          branch-keeps (Added k) (ltb (length b.data_bytes) total) _ _ waits
                            (deliver-Added k b header total r v h e ends starts room)))
            ])
        refl

  -- A fragment that is a part of the datagram if it is under its key.
  module _ (hdr : Ipv4Header) (pkt : List ℕ)
      (part : same_key key (key_of hdr) ≡ true
        → IsPart whole hdr pkt × IsHeaderOf top id (take hdr.ihl pkt))
      (room : top.ihl + length whole ≤ max_ipv4_datagram) where
    abbrev k : ReassemblyKey
    k = key_of hdr

    fill-Added :
        (b : ReassemblyBuffer) (r : Reassembler)
        → Holds r
        → Held (k, b)
        → Added k (fill k b hdr pkt r)
    unfolding fill
    fill-Added b r v hb =
        let payload : List ℕ = datagram hdr pkt in
        let end : ℕ = hdr.frag_offset + length payload in
        let header : Option (List ℕ) =
          if hdr.frag_offset == 0 then some (take hdr.ihl pkt) else b.header in
        let b₁ : ReassemblyBuffer = record b {
          holes = (punch hdr.more_fragments hdr.frag_offset end b.holes).0;
          data_bytes = write_at hdr.frag_offset payload b.data_bytes;
          header = header;
        } in
        let hb₁ : Held (k, b₁) = λ mine. record {
          filled = fill-Filled whole hdr pkt (part mine).0 b header (hb mine).filled;
          head =
              new_header-IsHeaderOf top id (hdr.frag_offset == 0) (take hdr.ihl pkt) b.header
                (part mine).1 (hb mine).head;
        } in
        let v₁ = replace-Bufs k b₁ r.bufs hb₁ v in
        let grow : ℕ = end - length b.data_bytes in
        let r₁ : Reassembler = record r { bytes = r.bytes + grow; bufs = replace k b₁ r.bufs } in
        let met : Bool = (punch hdr.more_fragments hdr.frag_offset end b.holes).1 in
        branch-keeps (Added k) (ltb (resolve_max_bytes r) (r.bytes + grow)) (r, bound_exceeded)
          (if not met then (r₁, duplicate) else finish k b₁ r₁) (v, (λ mine. tt))
          (branch-keeps (Added k) (not met) (r₁, duplicate) (finish k b₁ r₁) (v₁, (λ mine. tt))
            (finish-Added k b₁ r₁ v₁ hb₁ room))

    add_to-Added :
        (b : ReassemblyBuffer) (r : Reassembler)
        → Holds r
        → Held (k, b)
        → Added k (add_to k b hdr pkt r)
    unfolding add_to drop_locked
    add_to-Added b r v hb =
        let with_total : Option ℕ → ReassemblyBuffer = λ total. record b { total_len = total } in
        option-keeps_when (Added k)
          (check_total hdr.more_fragments (hdr.frag_offset + length (datagram hdr pkt)) b.total_len)
          (drop_locked k b r, conflict)
          (λ total.
            fill k (with_total total) hdr pkt
              (record r { bufs = replace k (with_total total) r.bufs }))
          (λ _. (remove-Bufs k r.bufs v, (λ mine. tt)))
          (λ total e.
            let hb₁ : Held (k, with_total total) = λ mine. record {
              filled = record {
                reached = (hb mine).filled.reached;
                byte = (hb mine).filled.byte;
                total =
                    check_total-TotalIs whole hdr pkt (part mine).0 b.total_len total
                      (hb mine).filled.total e;
              };
              head = (hb mine).head;
            } in
            fill-Added (with_total total) (record r { bufs = replace k (with_total total) r.bufs })
              (replace-Bufs k (with_total total) r.bufs hb₁ v) hb₁)

    add_live-Added : (now : ℕ) (r : Reassembler) → Holds r → Added k (add_live now hdr pkt r)
    unfolding add_live
    add_live-Added now r v =
        let b : ReassemblyBuffer = new_buffer (now + resolve_timeout r) in
        let hb : Held (k, b) = λ mine. record {
          filled = new_buffer-Filled whole (now + resolve_timeout r) (omega (arith, room));
          head = λ header e. absurd cc;
        } in
        let r₁ : Reassembler = record r { bufs = (k, b) ∷ r.bufs } in
        option-keeps_when (Added k) (find k r.bufs)
          (if leb (resolve_max_bufs r) (length r.bufs)
            then (r, bound_exceeded)
            else add_to k b hdr pkt r₁)
          (λ c. add_to k c hdr pkt r)
          (λ _.
            branch-keeps (Added k) (leb (resolve_max_bufs r) (length r.bufs)) (r, bound_exceeded)
              (add_to k b hdr pkt r₁) (v, (λ mine. tt)) (add_to-Added b r₁ (hb, v) hb))
          (λ c e. add_to-Added c r v (find-Held k r.bufs c v e))

    pub add-IsWhole :
        (now : ℕ) (r : Reassembler)
        → Holds r
        → Holds (add r now hdr pkt).0
          × (same_key key k ≡ true → IsWhole top id whole (add r now hdr pkt).1)
    unfolding add
    add-IsWhole now r v =
        let live : Reassembler = record r {
          bufs = (expire now r.bufs r.bytes).0;
          bytes = (expire now r.bufs r.bytes).1;
        } in
        let done = add_live-Added now live (expire-Bufs now r.bufs r.bytes v) in
        branch-keeps
          (λ (x : Reassembler × ReasmOutcome × ℕ).
            Holds x.0 × (same_key key k ≡ true → IsWhole top id whole x.1))
          r.closed _ _ (v, (λ mine. tt)) done
