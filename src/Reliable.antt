-- ===== src/Reliable.antt =====
-- internal/reliable/reliable.go: the reliability layer of the control channel.
-- `entries` holds the `size` slots that the loops visit; the array's slots behind them are never
-- touched. A time is a count of nanoseconds from Go's zero time, a duration one of nanoseconds, and
-- the clock's answer is an argument. Packet ids are uint32. `none` is a panic where noted.
pub mod Window
pub mod Pigeonhole
pub mod Receive
pub mod Delivery
pub mod Refinement
pub mod Answers
pub mod Send
pub mod AckSet
pub mod Acks
pub mod Backoff
pub mod Runs
use govpn.Base.{
  ℕ, zero, suc, ◌+◌, ◌*◌, Bool, true, false, not, ◌&&◌, ◌||◌, ltb, leb, ◌==◌, if◌then◌else◌, Option,
  none, some, List, [], ◌∷◌, length, replicate,
}
use govpn.Base.Words.{add32, sub32}
use mathlib.Core.Option

abbrev pub capacity : ℕ
capacity = 12

abbrev pub n_ack_retransmit : ℕ
n_ack_retransmit = 3

abbrev pub tls_timeout : ℕ
tls_timeout = 2 * 1_000_000_000

unfoldable pub subtract_pid : ℕ → ℕ → ℕ
subtract_pid test base = sub32 test base

unfoldable pub pid_in_range1 : ℕ → ℕ → ℕ → Bool
unfolding subtract_pid
pid_in_range1 test base extent = ltb (subtract_pid test base) extent

unfoldable pub pid_in_range2 : ℕ → ℕ → ℕ → Bool
pid_in_range2 test base extent =
    if leb base (add32 base extent)
    then ltb test (add32 base extent)
    else ltb (add32 test 0x8000_0000) (add32 (add32 base 0x8000_0000) extent)

unfoldable pub pid_min : ℕ → ℕ → Bool
unfolding pid_in_range1
pid_min p1 p2 = not (pid_in_range1 p1 p2 0x8000_0000)

pub record Entry : Type 0 where
  pub active : Bool
  pub timeout : ℕ
  pub next_try : ℕ
  pub packet_id : ℕ
  pub n_acks : ℕ
  pub payload : List ℕ

abbrev pub zero_entry : Entry
zero_entry = record {
  active = false;
  timeout = 0;
  next_try = 0;
  packet_id = 0;
  n_acks = 0;
  payload = [];
}

pub record Reliable : Type 0 where
  pub initial_timeout : ℕ
  pub packet_id : ℕ
  pub entries : List Entry

abbrev pub size : Reliable → ℕ
size r = length r.entries

-- `none` is the panic on a size out of range.
unfoldable pub new : ℕ → Option Reliable
new n =
    if n == 0 || ltb capacity n
    then none
    else some
        (record { initial_timeout = tls_timeout; packet_id = 0; entries = replicate n zero_entry })

-- The lowest packet id of an active entry, by the wraparound-safe order; `none` is `!minDefined`.
unfoldable pub min_active : List Entry → Option ℕ → Option ℕ
min_active [] least = least
min_active (e ∷ es) least = min_active es (
    if e.active
    then some (elim least [
      | none ↦ e.packet_id
      | some id ↦ if pid_min e.packet_id id then e.packet_id else id
    ])
    else least)

unfoldable pub first_inactive : List Entry → ℕ → Option ℕ
first_inactive [] i = none
first_inactive (e ∷ es) i = if e.active then first_inactive es (i + 1) else some i

-- The index of a free entry.
unfoldable pub next : Reliable → Option ℕ
unfolding min_active first_inactive
next r = elim (min_active r.entries none) [
  | none ↦ first_inactive r.entries 0
  | some min_id ↦
      if pid_in_range1 r.packet_id min_id (size r) then first_inactive r.entries 0 else none
]

-- `r.entries[idx]` changed in place; `none` is an index out of range.
unfoldable pub modify : ℕ → (Entry → Entry) → List Entry → Option (List Entry)
modify idx f [] = none
modify zero f (e ∷ es) = some (f e ∷ es)
modify (suc idx) f (e ∷ es) = Option.map (λ rest. e ∷ rest) (modify idx f es)

abbrev pub activate : Reliable → Entry → Entry
activate r e = record e {
  packet_id = r.packet_id;
  active = true;
  n_acks = 0;
  timeout = r.initial_timeout;
  next_try = 0;
}

-- The id assigned, and the state after.
unfoldable pub mark_active : ℕ → Reliable → Option (ℕ × Reliable)
unfolding modify
mark_active idx r =
    Option.map (λ es. (r.packet_id, record r { packet_id = add32 r.packet_id 1; entries = es }))
      (modify idx (activate r) r.entries)

unfoldable pub set_payload : ℕ → List ℕ → Reliable → Option Reliable
unfolding modify
set_payload idx payload r =
    Option.map (λ es. record r { entries = es })
      (modify idx (λ e. record e { payload = payload }) r.entries)

-- One entry under one acknowledged id. The comparison is the plain `<`.
unfoldable pub ack_entry : ℕ → Entry → Entry
ack_entry pid e =
    if e.active
    then (if e.packet_id == pid
        then record e { active = false }
        else if ltb e.packet_id pid
        then record e { n_acks = e.n_acks + 1 }
        else e)
    else e

unfoldable pub ack_entries : ℕ → List Entry → List Entry
unfolding ack_entry
ack_entries pid [] = []
ack_entries pid (e ∷ es) = ack_entry pid e ∷ ack_entries pid es

unfoldable pub ack : List ℕ → Reliable → Reliable
unfolding ack_entries
ack [] r = r
ack (pid ∷ ids) r = ack ids (record r { entries = ack_entries pid r.entries })

-- An active entry that is to be sent now.
unfoldable pub is_due : ℕ → Entry → Bool
is_due now e = e.active && (leb n_ack_retransmit e.n_acks || leb e.next_try now)

-- `best`, as its index and its packet id, over the entries from index `i` on.
unfoldable pub best_due : ℕ → List Entry → ℕ → Option (ℕ × ℕ) → Option (ℕ × ℕ)
unfolding is_due
best_due now [] i best = best
best_due now (e ∷ es) i best = best_due now es (i + 1) (
    if is_due now e
    then elim best [
      | none ↦ some (i, e.packet_id)
      | some (j, id) ↦ if pid_min e.packet_id id then some (i, e.packet_id) else some (j, id)
    ]
    else best)

abbrev pub back_off : ℕ → Entry → Entry
back_off now e = record e { next_try = now + e.timeout; timeout = e.timeout * 2; n_acks = 0 }

abbrev pub get_entry : List Entry → ℕ → Entry
get_entry [] i = zero_entry
get_entry (e ∷ es) zero = e
get_entry (e ∷ es) (suc i) = get_entry es i

-- The payload and id of the entry to send, and the state after; `none` is `ok == false`.
unfoldable pub due : ℕ → Reliable → Option (List ℕ × ℕ × Reliable)
unfolding best_due modify
due now r = elim (best_due now r.entries 0 none) [
  | none ↦ none
  | some (i, id) ↦
      Option.map (λ es. ((get_entry r.entries i).payload, id, record r { entries = es }))
        (modify i (back_off now) r.entries)
]

unfoldable pub all_inactive : List Entry → Bool
all_inactive [] = true
all_inactive (e ∷ es) = if e.active then false else all_inactive es

unfoldable pub empty : Reliable → Bool
unfolding all_inactive
empty r = all_inactive r.entries

pub data PutResult : Type 0 where
  put_rejected put_accepted put_duplicate : PutResult

unfoldable pub holds : ℕ → List Entry → Bool
holds id [] = false
holds id (e ∷ es) = if e.active && e.packet_id == id then true else holds id es

-- The first free entry takes the packet; `none` if there is no free one.
unfoldable pub store : ℕ → List ℕ → List Entry → Option (List Entry)
store id payload [] = none
store id payload (e ∷ es) =
    if e.active
    then Option.map (λ rest. e ∷ rest) (store id payload es)
    else some (record e { active = true; packet_id = id; n_acks = 0; payload = payload } ∷ es)

unfoldable pub put : ℕ → List ℕ → Reliable → Reliable × PutResult
put id payload r =
    if pid_min id r.packet_id
    then (r, put_rejected)
    else if holds id r.entries
    then (r, put_duplicate)
    else if not (pid_in_range2 id r.packet_id (size r))
    then (r, put_rejected)
    else elim (store id payload r.entries) [
      | none ↦ (r, put_rejected)
      | some es ↦ (record r { entries = es }, put_accepted)
    ]

-- The active entry with this id is freed; its payload and the entries after.
unfoldable pub take_out : ℕ → List Entry → Option (List ℕ × List Entry)
take_out id [] = none
take_out id (e ∷ es) =
    if e.active && e.packet_id == id
    then some (e.payload, record e { active = false } ∷ es)
    else Option.map (λ (payload, rest). (payload, e ∷ rest)) (take_out id es)

unfoldable pub get : Reliable → Option (List ℕ × Reliable)
unfolding take_out
get r =
    Option.map
      (λ (payload, es). (payload, record r { packet_id = add32 r.packet_id 1; entries = es }))
      (take_out r.packet_id r.entries)
