-- ===== src/Reassembly/Add.antt =====
-- netstack/reassembly.go: `add`, in the order of its checks, and `discardAll`.
use govpn.Base.{
  ℕ, ◌+◌, ◌-◌, ◌%◌, ◌^◌, Bool, true, not, ltb, leb, ◌==◌, if◌then◌else◌, Option, none, some, List,
  [], ◌∷◌, ◌++◌, length, take,
}
use govpn.Frame.{internet_checksum}
use govpn.Ipv4.{Ipv4Header, max_ipv4_datagram, put_uint16, datagram}
use govpn.Reassembly.{
  ReassemblyKey, ReassemblyBuffer, Reassembler, ReasmOutcome, buffered, duplicate, conflict,
  bound_exceeded, closed_down, complete, find, replace, drop_locked, expire, punch, write_at,
  resolve_max_bufs, resolve_max_bytes, resolve_timeout,
}

abbrev pub key_of : Ipv4Header → ReassemblyKey
key_of hdr = record { src = hdr.src; dst = hdr.dst; protocol = hdr.protocol; id = hdr.id }

abbrev pub new_buffer : ℕ → ReassemblyBuffer
new_buffer expires = record {
  header = none;
  data_bytes = [];
  holes = record { first = 0; end = max_ipv4_datagram } ∷ [];
  total_len = none;
  expires = expires;
}

-- The total length after a fragment that ends at `end`; `none` is a conflict.
unfoldable pub check_total : Bool → ℕ → Option ℕ → Option (Option ℕ)
check_total more end none = if more then some none else some (some end)
check_total more end (some total) =
    if ltb total end
    then none
    else if more
    then some (some total)
    else if total == end
    then some (some total)
    else none

-- `out2`: the header and the data, with the length, the flags and the checksum written.
unfoldable pub rebuild : List ℕ → List ℕ → List ℕ
rebuild header data_bytes =
    let out₀ : List ℕ = header ++ data_bytes in
    let out₁ : List ℕ = put_uint16 out₀ 2 (length out₀ % 2 ^ 16) in
    let out₂ : List ℕ = put_uint16 out₁ 6 0 in
    let out₃ : List ℕ = put_uint16 out₂ 10 0 in
    put_uint16 out₃ 10 (internet_checksum (take (length header) out₃))

-- The buffer is complete under this header and this total length, or too long.
unfoldable pub deliver :
    ReassemblyKey → ReassemblyBuffer → List ℕ → ℕ → Reassembler → Reassembler × ReasmOutcome
unfolding rebuild
deliver key b header total r =
    if ltb max_ipv4_datagram (length header + total)
    then (drop_locked key b r, conflict)
    else (drop_locked key b r, complete (rebuild header (take total b.data_bytes)))

-- Whether the buffer, with the fragment in it, is whole.
unfoldable pub finish : ReassemblyKey → ReassemblyBuffer → Reassembler → Reassembler × ReasmOutcome
unfolding deliver
finish key b r = elim b.holes [
  | h ∷ hs ↦ (r, buffered)
  | [] ↦ elim b.total_len [
    | none ↦ (r, buffered)
    | some total ↦ elim b.header [
      | none ↦ (r, buffered)
      | some header ↦
          if ltb (length b.data_bytes) total then (r, buffered) else deliver key b header total r
    ]
  ]
]

-- The fragment goes into a buffer of the map, whose total length has been checked.
unfoldable pub fill :
    ReassemblyKey
    → ReassemblyBuffer
    → Ipv4Header
    → List ℕ
    → Reassembler
    → Reassembler × ReasmOutcome
unfolding finish
fill key b hdr pkt r =
    let payload : List ℕ = datagram hdr pkt in
    let end : ℕ = hdr.frag_offset + length payload in
    let grow : ℕ = end - length b.data_bytes in
    let (holes₁, intersects) = punch hdr.more_fragments hdr.frag_offset end b.holes in
    let b₁ : ReassemblyBuffer = record b {
      holes = holes₁;
      data_bytes = write_at hdr.frag_offset payload b.data_bytes;
      header = if hdr.frag_offset == 0 then some (take hdr.ihl pkt) else b.header;
    } in
    let r₁ : Reassembler = record r { bytes = r.bytes + grow; bufs = replace key b₁ r.bufs } in
    if ltb (resolve_max_bytes r) (r.bytes + grow)
    then (r, bound_exceeded)
    else if not intersects
    then (r₁, duplicate)
    else finish key b₁ r₁

-- The fragment meets the buffer that the map holds under its key.
unfoldable pub add_to :
    ReassemblyKey
    → ReassemblyBuffer
    → Ipv4Header
    → List ℕ
    → Reassembler
    → Reassembler × ReasmOutcome
unfolding fill check_total
add_to key b hdr pkt r =
    elim (check_total hdr.more_fragments (hdr.frag_offset + length (datagram hdr pkt))
      b.total_len) [
        | none ↦ (drop_locked key b r, conflict)
        | some total ↦
            let b₁ : ReassemblyBuffer = record b { total_len = total } in
            fill key b₁ hdr pkt (record r { bufs = replace key b₁ r.bufs })
      ]

-- The buffer of a fragment's key, made if there is room for it.
unfoldable pub add_live : ℕ → Ipv4Header → List ℕ → Reassembler → Reassembler × ReasmOutcome
unfolding add_to
add_live now hdr pkt r = elim (find (key_of hdr) r.bufs) [
  | some b ↦ add_to (key_of hdr) b hdr pkt r
  | none ↦
      let b : ReassemblyBuffer = new_buffer (now + resolve_timeout r) in
      if leb (resolve_max_bufs r) (length r.bufs)
      then (r, bound_exceeded)
      else add_to (key_of hdr) b hdr pkt (record r { bufs = (key_of hdr, b) ∷ r.bufs })
]

-- The state after, the outcome with the datagram in it, and the number of buffers that expired.
unfoldable pub add : Reassembler → ℕ → Ipv4Header → List ℕ → Reassembler × ReasmOutcome × ℕ
unfolding add_live
add r now hdr pkt =
    let (kept, left, expired) = expire now r.bufs r.bytes in
    let (r₁, outcome) = add_live now hdr pkt (record r { bufs = kept; bytes = left }) in
    if r.closed then (r, closed_down, 0) else (r₁, outcome, expired)

unfoldable pub discard_all : Reassembler → Reassembler
discard_all r = record r { closed = true; bufs = []; bytes = 0 }
