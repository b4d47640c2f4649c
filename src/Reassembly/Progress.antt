-- ===== src/Reassembly/Progress.antt =====
-- Each fragment of a datagram brings its buffer on, and the one that fills it completes the datagram.
use govpn.Base.{
  ℕ, ◌+◌, ◌-◌, ◌≤◌, ◌<◌, ◌≡◌, refl, sym, ap, subst, ◌∙◌, true, false, not, ltb, leb, ◌⊎◌,
  if◌then◌else◌, if_true, if_false, if_not, some, List-cases, branch-keeps, inl, inr, List, [], ◌∷◌,
  length, take, arith,
}
use govpn.Ipv4.{Ipv4Header, datagram, max_ipv4_datagram}
use govpn.Reassembly.{
  ReassemblyKey, ReassemblyBuffer, Reassembler, ReasmOutcome, duplicate, complete, find, replace,
  expire, punch, same_key, resolve_max_bufs, resolve_max_bytes, resolve_timeout,
}
use govpn.Reassembly.Add.{key_of, new_buffer, rebuild, finish, fill, add_to, add_live, add}
use govpn.Reassembly.Holes.{missing}
use govpn.Reassembly.Store.{same_key_refl, length-write_at}
use govpn.Reassembly.Rebuilt.{IsHeaderOf}
use govpn.Reassembly.Content.{IsPart}
use govpn.Reassembly.Tracked.{Tracked, Lacks, hole-Lacks, new_buffer-Tracked, new_buffer-Lacks}
use govpn.Reassembly.Waiting.{
  with_total, filled, with_total-exists, filled-Tracked, was_missing, meets_hole,
}
use govpn.Reassembly.Finish.{finish_waits, finish-complete}

-- The reassembler with one buffer only.
abbrev pub holding : ReassemblyKey → ReassemblyBuffer → Reassembler → Reassembler
holding key b r = record r { bufs = (key, b) ∷ []; bytes = length b.data_bytes }

-- What a fragment `h` with the packet `f` makes of a buffer: the datagram, or the buffer with it.
abbrev pub Steps :
    List ℕ
    → Ipv4Header
    → ℕ
    → ReassemblyKey
    → ReassemblyBuffer
    → Ipv4Header
    → Reassembler
    → List ℕ
    → Reassembler × ReasmOutcome
    → Type 0
Steps whole top id key b h r f x =
    ((header : List ℕ) × IsHeaderOf top id header × (x.1 ≡ complete (rebuild header whole)))
    ⊎ ((b₁ : ReassemblyBuffer) × (x.0 ≡ holding key b₁ r)
        × Tracked whole top id b₁
        × Lacks whole b₁
        × (b₁.expires ≡ b.expires)
        × ((i : ℕ)
            → missing i b₁.holes ≡ true
            → (missing i b.holes ≡ true)
              × ((i < h.frag_offset) ⊎ (h.frag_offset + length (datagram h f) ≤ i))))

module _ (whole : List ℕ) (some_bytes : 0 < length whole) (key : ReassemblyKey) (h : Ipv4Header)
    (f : List ℕ) (p : IsPart whole h f) (more : h.more_fragments ≡ true → 0 < length p.after)
    (top : Ipv4Header) (id : ℕ) (starts : IsHeaderOf top id (take h.ihl f))
    (room : top.ihl + length whole ≤ max_ipv4_datagram) (r : Reassembler)
    (fits : length whole ≤ resolve_max_bytes r) where
  abbrev then_filled : ReassemblyBuffer → ReassemblyBuffer
  then_filled b = filled whole h f p more top id starts b

  made_holding :
      (b : ReassemblyBuffer) (grow : ℕ)
      → length b.data_bytes + grow ≡ length (then_filled b).data_bytes
      → ◌≡◌ {A = Reassembler}
          (record r {
            bufs = replace key (then_filled b) ((key, b) ∷ []);
            bytes = length b.data_bytes + grow;
          })
          (holding key (then_filled b) r)
  unfolding replace
  made_holding b grow size =
      let one : replace key (then_filled b) ((key, b) ∷ []) ≡ (key, then_filled b) ∷ [] =
        if_true (same_key key key) _ _ (same_key_refl key) in
      λ i. record r { bufs = one i; bytes = size i }

  -- The limit of bytes is not reached.
  fill-within :
      (b : ReassemblyBuffer)
      → Tracked whole top id (then_filled b)
      → fill key b h f (holding key b r) ≡ (
          if not
            (punch h.more_fragments h.frag_offset (h.frag_offset + length (datagram h f)) b.holes).1
          then (holding key (then_filled b) r, duplicate)
          else finish key (then_filled b) (holding key (then_filled b) r))
  unfolding fill replace
  fill-within b v =
      let end : ℕ = h.frag_offset + length (datagram h f) in
      let grow : ℕ = end - length b.data_bytes in
      let size : length (then_filled b).data_bytes ≡ length b.data_bytes + grow =
        length-write_at h.frag_offset (datagram h f) b.data_bytes in
      if_not (ltb (resolve_max_bytes r) (length b.data_bytes + grow)) _ _
        (ground (arith, size, v.reach, fits))
      ∙ ap
          (λ x.
            if not (punch h.more_fragments h.frag_offset end b.holes).1
            then (x, duplicate)
            else finish key (then_filled b) x)
          (made_holding b grow (sym size))

  fill-Steps :
      (b : ReassemblyBuffer)
      → Lacks whole b
      → Tracked whole top id (then_filled b)
      → Steps whole top id key b h r f (fill key b h f (holding key b r))
  fill-Steps b lacks v =
      let b₁ : ReassemblyBuffer = then_filled b in
      subst (Steps whole top id key b h r f) (sym (fill-within b v)) (elim (List-cases b₁.holes) [
        | inl none_left ↦
            let (header, named, done) =
              finish-complete whole top id key b₁ (holding key b₁ r) some_bytes v room none_left in
            let met = meets_hole whole h f p more top id starts b lacks none_left in
            inl (
              header,
              named,
              ap (λ (x : Reassembler × ReasmOutcome). x.1) (if_false _ _ _ met) ∙ done,
            )
        | inr (hole, holes, e) ↦ inr (
          b₁,
          branch-keeps (λ (x : Reassembler × ReasmOutcome). x.0 ≡ holding key b₁ r) _ _ _ refl
              (ap (λ (x : Reassembler × ReasmOutcome). x.0)
                (finish_waits key b₁ (holding key b₁ r) hole holes e)),
          v,
          hole-Lacks whole some_bytes top id b₁ hole holes v e,
          refl,
          λ i m.
              let (was, outside, _) = was_missing whole h f p more top id starts b i m in
              (was, outside),
        )
      ])

  add_to-Steps :
      (b : ReassemblyBuffer)
      → Tracked whole top id b
      → Lacks whole b
      → Steps whole top id key b h r f (add_to key b h f (holding key b r))
  unfolding add_to replace
  add_to-Steps b v lacks =
      let (total, e) = with_total-exists whole h f p more top id starts b v in
      let bt : ReassemblyBuffer = with_total whole h f p more top id starts total b in
      let one : replace key bt ((key, b) ∷ []) ≡ (key, bt) ∷ [] =
        if_true (same_key key key) _ _ (same_key_refl key) in
      let filled_in : Steps whole top id key b h r f (fill key bt h f (holding key bt r)) =
        fill-Steps bt lacks (filled-Tracked whole h f p more top id starts b total v e) in
      let checked : add_to key b h f (holding key b r)
          ≡ fill key bt h f (record (holding key b r) { bufs = replace key bt ((key, b) ∷ []) }) =
        rw (add_to, e) refl in
      subst (Steps whole top id key b h r f)
        (sym (checked ∙ ap (λ bs. fill key bt h f (record (holding key b r) { bufs = bs })) one))
        filled_in

  add-live :
      (now : ℕ) (x : Reassembler)
      → x.closed ≡ false
      → ◌≡◌ {A = Reassembler × ReasmOutcome}
          ((add x now h f).0, (add x now h f).1)
          (add_live now h f (record x {
            bufs = (expire now x.bufs x.bytes).0;
            bytes = (expire now x.bufs x.bytes).1;
          }))
  unfolding add
  add-live now x live =
      ap (λ (y : Reassembler × ReasmOutcome × ℕ). (y.0, y.1)) (if_not x.closed _ _ live)

  expire-in_time :
      (now bytes : ℕ) (b : ReassemblyBuffer)
      → now < b.expires
      → expire now ((key, b) ∷ []) bytes ≡ ((key, b) ∷ [], bytes, 0)
  unfolding expire
  expire-in_time now bytes b in_time = if_true (ltb now b.expires) _ _ (ground (arith, in_time))

  add_live-holding :
      (now : ℕ) (b : ReassemblyBuffer)
      → key_of h ≡ key
      → add_live now h f (holding key b r) ≡ add_to key b h f (holding key b r)
  unfolding add_live find
  add_live-holding now b mine =
      let found : find (key_of h) ((key, b) ∷ []) ≡ some b =
        ap (λ k. find k ((key, b) ∷ [])) mine
        ∙ if_true (same_key key key) _ _ (same_key_refl key) in
      let same : add_live now h f (holding key b r) ≡ add_to (key_of h) b h f (holding key b r) =
        rw (add_live, found) refl in
      same ∙ ap (λ k. add_to k b h f (holding key b r)) mine

  -- A fragment before the buffer's time is up.
  pub add-holding :
      (now : ℕ) (b : ReassemblyBuffer)
      → key_of h ≡ key
      → r.closed ≡ false
      → now < b.expires
      → Tracked whole top id b
      → Lacks whole b
      → Steps whole top id key b h r f
          ((add (holding key b r) now h f).0, (add (holding key b r) now h f).1)
  add-holding now b mine live in_time v lacks =
      subst (Steps whole top id key b h r f)
        (sym (
          add-live now (holding key b r) live
          ∙ ap
              (λ (y : List (ReassemblyKey × ReassemblyBuffer) × ℕ × ℕ).
                add_live now h f (record (holding key b r) { bufs = y.0; bytes = y.1 }))
              (expire-in_time now (length b.data_bytes) b in_time)
          ∙ add_live-holding now b mine))
        (add_to-Steps b v lacks)

  -- The first fragment.
  pub add-first :
      (now : ℕ)
      → key_of h ≡ key
      → r.closed ≡ false
      → r.bufs ≡ []
      → r.bytes ≡ 0
      → 0 < resolve_max_bufs r
      → Steps whole top id key
          (new_buffer (now + resolve_timeout r))
          h
          r
          f
          ((add r now h f).0, (add r now h f).1)
  unfolding add_live expire find
  add-first now mine live empty no_bytes places =
      let b : ReassemblyBuffer = new_buffer (now + resolve_timeout r) in
      let swept : expire now r.bufs r.bytes ≡ ([], 0, 0) =
        ap (λ bufs. expire now bufs r.bytes) empty ∙ ap (λ n. ([], n, 0)) no_bytes in
      let fresh : add_live now h f (record r { bufs = []; bytes = 0 })
          ≡ add_to (key_of h) b h f (holding (key_of h) b r) =
        if_not (leb (resolve_max_bufs r) 0) _ _ (ground (arith, places)) in
      subst (Steps whole top id key b h r f)
        (sym (
          add-live now r live
          ∙ ap
              (λ (y : List (ReassemblyKey × ReassemblyBuffer) × ℕ × ℕ).
                add_live now h f (record r { bufs = y.0; bytes = y.1 }))
              swept
          ∙ fresh
          ∙ ap (λ k. add_to k b h f (holding k b r)) mine))
        (add_to-Steps b
          (new_buffer-Tracked whole some_bytes top id (now + resolve_timeout r)
            (omega (arith, room)))
          (new_buffer-Lacks whole some_bytes top id (now + resolve_timeout r)))
