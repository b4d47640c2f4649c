-- ===== src/Reassembly.antt =====
-- netstack/reassembly.go: the reassembly of IPv4 fragments with RFC 815's list of holes.
-- A range is told by its first byte and its end, one past Go's `last`. The map of buffers is an
-- association list, `totalLen` is `none` where Go holds -1, and `header` is `none` where it is nil.
-- The lock leaves no interleaving inside an operation.
pub mod Finish
pub mod Addrs
pub mod Holes
pub mod Add
pub mod Rebuilt
pub mod Written
pub mod Content
pub mod Tracked
pub mod Waiting
pub mod Progress
pub mod Completion
pub mod RoundTrip
pub mod Whole
pub mod Sender
pub mod Store
pub mod Bounds
pub mod Origin
pub mod Runs
use govpn.Base.{
  ℕ, ◌+◌, ◌-◌, Bool, true, false, not, ◌&&◌, ◌||◌, ltb, leb, ◌==◌, if◌then◌else◌, Option, none,
  some, List, [], ◌∷◌, ◌++◌, length, take, drop, replicate,
}
use govpn.Frame.{Addr}

abbrev pub max_reassembly_buffers_per_session : ℕ
max_reassembly_buffers_per_session = 16

abbrev pub max_reassembly_bytes_per_session : ℕ
max_reassembly_bytes_per_session = 262144

-- In nanoseconds.
abbrev pub reassembly_timeout : ℕ
reassembly_timeout = 30000000000

pub record ReassemblyKey : Type 0 where
  pub src : Addr
  pub dst : Addr
  pub protocol : ℕ
  pub id : ℕ

abbrev pub same_addr : Addr → Addr → Bool
same_addr a b = a.b₀ == b.b₀ && (a.b₁ == b.b₁ && (a.b₂ == b.b₂ && a.b₃ == b.b₃))

unfoldable pub same_key : ReassemblyKey → ReassemblyKey → Bool
same_key k l =
    same_addr k.src l.src && (same_addr k.dst l.dst && (k.protocol == l.protocol && k.id == l.id))

-- `first` and one past `last`.
pub record Hole : Type 0 where
  pub first : ℕ
  pub end : ℕ

pub record ReassemblyBuffer : Type 0 where
  pub header : Option (List ℕ)
  pub data_bytes : List ℕ
  pub holes : List Hole
  pub total_len : Option ℕ
  pub expires : ℕ

pub record Reassembler : Type 0 where
  pub bufs : List (ReassemblyKey × ReassemblyBuffer)
  pub bytes : ℕ
  pub closed : Bool
  pub max_bufs : ℕ
  pub max_bytes : ℕ
  pub timeout : ℕ

abbrev pub resolve : ℕ → ℕ → ℕ
resolve n default = if n == 0 then default else n

abbrev pub resolve_max_bufs : Reassembler → ℕ
resolve_max_bufs r = resolve r.max_bufs max_reassembly_buffers_per_session

abbrev pub resolve_max_bytes : Reassembler → ℕ
resolve_max_bytes r = resolve r.max_bytes max_reassembly_bytes_per_session

abbrev pub resolve_timeout : Reassembler → ℕ
resolve_timeout r = resolve r.timeout reassembly_timeout

pub data ReasmOutcome : Type 0 where
  buffered duplicate conflict bound_exceeded closed_down : ReasmOutcome
  complete : List ℕ → ReasmOutcome

-- The buffer under a key, a buffer put in its place, and the entry taken out.
unfoldable pub find :
    ReassemblyKey → List (ReassemblyKey × ReassemblyBuffer) → Option ReassemblyBuffer
find key [] = none
find key ((k, b) ∷ bufs) = if same_key key k then some b else find key bufs

unfoldable pub replace :
    ReassemblyKey
    → ReassemblyBuffer
    → List (ReassemblyKey × ReassemblyBuffer)
    → List (ReassemblyKey × ReassemblyBuffer)
replace key b [] = []
replace key b ((k, c) ∷ bufs) =
    if same_key key k then (k, b) ∷ bufs else (k, c) ∷ replace key b bufs

unfoldable pub remove :
    ReassemblyKey
    → List (ReassemblyKey × ReassemblyBuffer)
    → List (ReassemblyKey × ReassemblyBuffer)
remove key [] = []
remove key ((k, c) ∷ bufs) = if same_key key k then bufs else (k, c) ∷ remove key bufs

unfoldable pub drop_locked : ReassemblyKey → ReassemblyBuffer → Reassembler → Reassembler
unfolding remove
drop_locked key b r = record r { bytes = r.bytes - length b.data_bytes; bufs = remove key r.bufs }

-- The buffers whose time is up are dropped; what is left of them and of the byte count, and how many
-- were dropped.
unfoldable pub expire :
    ℕ
    → List (ReassemblyKey × ReassemblyBuffer)
    → ℕ
    → List (ReassemblyKey × ReassemblyBuffer) × ℕ × ℕ
expire now [] bytes = ([], bytes, 0)
expire now ((k, b) ∷ bufs) bytes =
    let (kept, left, n) = expire now bufs bytes in
    if ltb now b.expires
    then ((k, b) ∷ kept, left, n)
    else (kept, left - length b.data_bytes, n + 1)

-- What one hole leaves when the bytes from `first` up to `end` arrive, and whether they meet it.
unfoldable pub punch_hole : Bool → ℕ → ℕ → Hole → List Hole × Bool
punch_hole more first end h =
    if not more && leb end h.first
    then ([], false)
    else if leb end h.first || leb h.end first
    then (h ∷ [], false)
    else (
      (if ltb h.first first then record { first = h.first; end = first } ∷ [] else [])
          ++ (if ltb end h.end && more then record { first = end; end = h.end } ∷ [] else []),
      true,
    )

unfoldable pub punch : Bool → ℕ → ℕ → List Hole → List Hole × Bool
unfolding punch_hole
punch more first end [] = ([], false)
punch more first end (h ∷ holes) =
    let (new, met) = punch_hole more first end h in
    let (rest, met_later) = punch more first end holes in (new ++ rest, met || met_later)

-- `grown`, and the payload copied into it.
abbrev pub write_at : ℕ → List ℕ → List ℕ → List ℕ
write_at first payload data_bytes =
    let grown : List ℕ = data_bytes ++ replicate (first + length payload - length data_bytes) 0 in
    take first grown ++ (payload ++ drop (first + length payload) grown)
