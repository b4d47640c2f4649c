-- ===== src/Reassembly/Bounds.antt =====
-- The memory that a reassembler holds stays within its bounds, whatever fragments arrive.
use govpn.Base.{
  branch-keeps_when, option-keeps_when, ℕ, suc, ◌+◌, ◌-◌, ◌≤◌, false, not, ltb, leb, ◌==◌,
  if◌then◌else◌, ◌≡◌, refl, ◌∙◌, none, some, List, [], ◌∷◌, length, take, arith,
}
use govpn.Ipv4.{Ipv4Header, datagram, max_ipv4_datagram}
use govpn.Reassembly.{
  ReassemblyKey, ReassemblyBuffer, Reassembler, ReasmOutcome, buffered, conflict, bound_exceeded,
  closed_down, find, replace, drop_locked, expire, punch, write_at, resolve_max_bufs,
  resolve_max_bytes, resolve_timeout,
}
use govpn.Reassembly.Add.{
  key_of, new_buffer, check_total, deliver, finish, fill, add_to, add_live, add,
}
use govpn.Reassembly.Store.{
  sum_data, remove-sum_data, replace-sum_data, expire-sum_data, same_key_refl, length-write_at,
}

-- The byte count is that of the buffers, and both bounds hold.
pub record Bounded (r : Reassembler) : Type 0 where
  pub sum : r.bytes ≡ sum_data r.bufs
  pub few : length r.bufs ≤ resolve_max_bufs r
  pub small : r.bytes ≤ resolve_max_bytes r

-- A result whose reassembler is within the bounds.
abbrev FirstBounded : {B : Type 0} → Reassembler × B → Type 0
FirstBounded x = Bounded x.0

list_Bounded :
    {A B : Type 0} (o : List A) (x y : Reassembler × B)
    → Bounded x.0
    → Bounded y.0
    → Bounded (elim o as (λ _. Reassembler × B) [ h ∷ hs ↦ x | [] ↦ y ]).0
list_Bounded [] x y g h = h
list_Bounded (a ∷ rest) x y g h = g

drop_locked-Bounded :
    (key : ReassemblyKey) (b : ReassemblyBuffer) (r : Reassembler)
    → Bounded r
    → find key r.bufs ≡ some b
    → Bounded (drop_locked key b r)
unfolding drop_locked
drop_locked-Bounded key b r v f =
    let (s, l) = remove-sum_data key b r.bufs f in
    record {
      sum = omega (arith, s, v.sum);
      few = omega (arith, l, v.few);
      small = omega (arith, v.small);
    }

deliver-Bounded :
    (key : ReassemblyKey) (b : ReassemblyBuffer) (header : List ℕ) (total : ℕ) (r : Reassembler)
    → Bounded r
    → find key r.bufs ≡ some b
    → Bounded (deliver key b header total r).0
unfolding deliver
deliver-Bounded key b header total r v f =
    branch-keeps_when FirstBounded (ltb max_ipv4_datagram (length header + total)) _ _
      (λ _. drop_locked-Bounded key b r v f) (λ _. drop_locked-Bounded key b r v f)

finish-Bounded :
    (key : ReassemblyKey) (b : ReassemblyBuffer) (r : Reassembler)
    → Bounded r
    → find key r.bufs ≡ some b
    → Bounded (finish key b r).0
unfolding finish
finish-Bounded key b r v f =
    let whole : (header : List ℕ) (total : ℕ) → Reassembler × ReasmOutcome = λ header total.
      if ltb (length b.data_bytes) total then (r, buffered) else deliver key b header total r in
    let by_header : (total : ℕ) → Reassembler × ReasmOutcome =
      λ total. elim b.header [ none ↦ (r, buffered) | some header ↦ whole header total ] in
    list_Bounded b.holes (r, buffered)
      (elim b.total_len [ none ↦ (r, buffered) | some total ↦ by_header total ]) v
      (option-keeps_when FirstBounded b.total_len (r, buffered) by_header (λ _. v)
        (λ total _.
          option-keeps_when FirstBounded b.header (r, buffered) (λ header. whole header total)
            (λ _. v)
            (λ header _.
              branch-keeps_when FirstBounded (ltb (length b.data_bytes) total) (r, buffered)
                (deliver key b header total r) (λ _. v)
                (λ _. deliver-Bounded key b header total r v f))))

room : (m n : ℕ) → ltb m n ≡ false → n ≤ m
room m n h = ground arith

fill-Bounded :
    (key : ReassemblyKey) (b : ReassemblyBuffer) (hdr : Ipv4Header) (pkt : List ℕ) (r : Reassembler)
    → Bounded r
    → find key r.bufs ≡ some b
    → Bounded (fill key b hdr pkt r).0
unfolding fill
fill-Bounded key b hdr pkt r v f =
    let payload : List ℕ = datagram hdr pkt in
    let end : ℕ = hdr.frag_offset + length payload in
    let grow : ℕ = end - length b.data_bytes in
    let b₁ : ReassemblyBuffer = record b {
      holes = (punch hdr.more_fragments hdr.frag_offset end b.holes).0;
      data_bytes = write_at hdr.frag_offset payload b.data_bytes;
      header = if hdr.frag_offset == 0 then some (take hdr.ihl pkt) else b.header;
    } in
    let r₁ : Reassembler = record r { bytes = r.bytes + grow; bufs = replace key b₁ r.bufs } in
    let (s, l, f₁) = replace-sum_data key b b₁ r.bufs f in
    let v₁ : ltb (resolve_max_bytes r) (r.bytes + grow) ≡ false → Bounded r₁ = λ fits. record {
      sum = omega (arith, s, v.sum, length-write_at hdr.frag_offset payload b.data_bytes);
      few = omega (arith, l, v.few);
      small = room (resolve_max_bytes r) (r.bytes + grow) fits;
    } in
    branch-keeps_when FirstBounded (ltb (resolve_max_bytes r) (r.bytes + grow)) _ _ (λ _. v)
      (λ fits.
        branch-keeps_when FirstBounded
          (not (punch hdr.more_fragments hdr.frag_offset end b.holes).1) _ _ (λ _. v₁ fits)
          (λ _. finish-Bounded key b₁ r₁ (v₁ fits) f₁))

add_to-Bounded :
    (key : ReassemblyKey) (b : ReassemblyBuffer) (hdr : Ipv4Header) (pkt : List ℕ) (r : Reassembler)
    → Bounded r
    → find key r.bufs ≡ some b
    → Bounded (add_to key b hdr pkt r).0
unfolding add_to
add_to-Bounded key b hdr pkt r v f =
    option-keeps_when FirstBounded
      (check_total hdr.more_fragments (hdr.frag_offset + length (datagram hdr pkt)) b.total_len)
      (drop_locked key b r, conflict)
      (λ total.
        fill key (record b { total_len = total }) hdr pkt
          (record r { bufs = replace key (record b { total_len = total }) r.bufs }))
      (λ _. drop_locked-Bounded key b r v f)
      (λ total _.
        let b₁ : ReassemblyBuffer = record b { total_len = total } in
        let (s, l, f₁) = replace-sum_data key b b₁ r.bufs f in
        fill-Bounded key b₁ hdr pkt (record r { bufs = replace key b₁ r.bufs })
          (record { sum = omega (arith, s, v.sum); few = omega (arith, l, v.few); small = v.small })
          f₁)

below : (m n : ℕ) → leb m n ≡ false → suc n ≤ m
below m n h = ground arith

find_head :
    (key : ReassemblyKey) (b : ReassemblyBuffer) (bufs : List (ReassemblyKey × ReassemblyBuffer))
    → find key ((key, b) ∷ bufs) ≡ some b
unfolding find
find_head key b bufs = rw same_key_refl

add_live-Bounded :
    (now : ℕ) (hdr : Ipv4Header) (pkt : List ℕ) (r : Reassembler)
    → Bounded r
    → Bounded (add_live now hdr pkt r).0
unfolding add_live
add_live-Bounded now hdr pkt r v =
    let b : ReassemblyBuffer = new_buffer (now + resolve_timeout r) in
    let r₁ : Reassembler = record r { bufs = (key_of hdr, b) ∷ r.bufs } in
    option-keeps_when FirstBounded (find (key_of hdr) r.bufs)
      (if leb (resolve_max_bufs r) (length r.bufs)
        then (r, bound_exceeded)
        else add_to (key_of hdr) b hdr pkt r₁)
      (λ c. add_to (key_of hdr) c hdr pkt r)
      (λ _.
        branch-keeps_when FirstBounded (leb (resolve_max_bufs r) (length r.bufs))
          (r, bound_exceeded) (add_to (key_of hdr) b hdr pkt r₁) (λ _. v)
          (λ free.
            add_to-Bounded (key_of hdr) b hdr pkt r₁
              (record {
                sum = unfold sum_data in omega (arith, v.sum);
                few = below (resolve_max_bufs r) (length r.bufs) free;
                small = v.small;
              })
              (find_head (key_of hdr) b r.bufs)))
      (λ c f. add_to-Bounded (key_of hdr) c hdr pkt r v f)

-- Whatever fragment arrives and when, a reassembler within its bounds stays within them: it counts the
-- bytes that its buffers hold, and these and the number of buffers do not pass the limits.
pub add-Bounded :
    (r : Reassembler) (now : ℕ) (hdr : Ipv4Header) (pkt : List ℕ)
    → Bounded r
    → Bounded (add r now hdr pkt).0
unfolding add
add-Bounded r now hdr pkt v =
    let (s, l, m) = expire-sum_data now 0 r.bufs r.bytes (v.sum ∙ omega arith) in
    let live : Reassembler = record r {
      bufs = (expire now r.bufs r.bytes).0;
      bytes = (expire now r.bufs r.bytes).1;
    } in
    let done : Reassembler × ReasmOutcome = add_live now hdr pkt live in
    branch-keeps_when (λ (x : Reassembler × ReasmOutcome × ℕ). Bounded x.0) r.closed
      (r, closed_down, 0) (done.0, done.1, (expire now r.bufs r.bytes).2) (λ _. v)
      (λ _. add_live-Bounded now hdr pkt live (record {
        sum = s ∙ omega arith;
        few = omega (arith, l, v.few);
        small = omega (arith, m, v.small);
      }))

-- A new reassembler with limits of one's own, where zero stands for the default.
abbrev pub empty_reassembler : ℕ → ℕ → ℕ → Reassembler
empty_reassembler max_bufs max_bytes timeout = record {
  bufs = [];
  bytes = 0;
  closed = false;
  max_bufs = max_bufs;
  max_bytes = max_bytes;
  timeout = timeout;
}

-- The state after fragments that arrive one after the other, each with its time.
unfoldable pub add_all : Reassembler → List (ℕ × Ipv4Header × List ℕ) → Reassembler
add_all r [] = r
add_all r ((now, hdr, pkt) ∷ arrivals) = add_all (add r now hdr pkt).0 arrivals

add_all-Bounded_from :
    (r : Reassembler) (arrivals : List (ℕ × Ipv4Header × List ℕ))
    → Bounded r
    → Bounded (add_all r arrivals)
unfolding add_all
add_all-Bounded_from r [] v = v
add_all-Bounded_from r ((now, hdr, pkt) ∷ arrivals) v =
    add_all-Bounded_from (add r now hdr pkt).0 arrivals (add-Bounded r now hdr pkt v)

-- Whatever fragments arrive at a new reassembler and when, its byte count is that of the data that its
-- buffers hold, and neither this nor the number of buffers passes its limit.
pub add_all-Bounded :
    (max_bufs max_bytes timeout : ℕ) (arrivals : List (ℕ × Ipv4Header × List ℕ))
    → Bounded (add_all (empty_reassembler max_bufs max_bytes timeout) arrivals)
add_all-Bounded max_bufs max_bytes timeout arrivals =
    add_all-Bounded_from (empty_reassembler max_bufs max_bytes timeout) arrivals
      (record { sum = unfold sum_data in refl; few = omega arith; small = omega arith })
