-- ===== src/Reliable/Acks.antt =====
-- `Ack` entry by entry, and the set of ids that wait to be acknowledged.
use govpn.Base.{
  ℕ, zero, suc, ◌+◌, min, ◌≡◌, refl, sym, ap, ◌∙◌, true, false, ltb, ◌==◌, if◌then◌else◌,
  Bool-cases, inl, inr, ==_iff, List, [], ◌∷◌, ◌++◌, map, length, take, drop, length-take,
  take-append-drop, member, NoRepeats, member-middle, append-nil, arith,
}
use govpn.Reliable.{Reliable, Entry, ack, ack_entry, ack_entries}
use govpn.Reliable.AckSet.{AckSet, ack_size, add, drain, pending_ack}

-- All acknowledged ids on one entry, in order.
unfoldable pub ack_all : List ℕ → Entry → Entry
ack_all [] e = e
ack_all (pid ∷ ids) e = ack_all ids (ack_entry pid e)

-- How many of the ids are above `id`.
unfoldable pub later_acks : ℕ → List ℕ → ℕ
later_acks id [] = 0
later_acks id (pid ∷ ids) = later_acks id ids + (if ltb id pid then 1 else 0)

-- What acknowledging `ids` makes of an entry: an entry that is not active stays as it is; an active
-- one is freed if its id is among them, and else counts the higher ones.
abbrev pub Acked : List ℕ → Entry → Entry → Type 0
Acked ids e e' =
    (e.active ≡ false → e' ≡ e)
    × (e.active ≡ true
        → member e.packet_id ids ≡ true
        → (e'.active ≡ false) × (e'.payload ≡ e.payload) × (e'.packet_id ≡ e.packet_id))
    × (e.active ≡ true
        → member e.packet_id ids ≡ false
        → e' ≡ record e { n_acks = e.n_acks + later_acks e.packet_id ids })

ack_all_inactive : (ids : List ℕ) (e : Entry) → e.active ≡ false → ack_all ids e ≡ e
unfolding ack_all ack_entry
ack_all_inactive [] e h = refl
ack_all_inactive (pid ∷ ids) e h =
    let same : ack_entry pid e ≡ e = ground arith in rw same (ack_all_inactive ids e h)

ack_all-member :
    (ids : List ℕ) (e : Entry)
    → e.active ≡ true
    → member e.packet_id ids ≡ true
    → ((ack_all ids e).active ≡ false)
      × ((ack_all ids e).payload ≡ e.payload)
      × ((ack_all ids e).packet_id ≡ e.packet_id)
unfolding ack_all ack_entry member
ack_all-member [] e h m = cc
ack_all-member (pid ∷ ids) e h m = elim (Bool-cases (e.packet_id == pid)) [
  | inl hit ↦
      let freed : ack_entry pid e ≡ record e { active = false } = ground arith in
      let done : ack_all ids (ack_entry pid e) ≡ record e { active = false } =
        ap (ack_all ids) freed ∙ ack_all_inactive ids (record e { active = false }) refl in
      ground (arith, done)
  | inr miss ↦ ground (arith, ack_all-member ids (ack_entry pid e))
]

ack_all_other :
    (ids : List ℕ) (e : Entry)
    → e.active ≡ true
    → member e.packet_id ids ≡ false
    → ack_all ids e ≡ record e { n_acks = e.n_acks + later_acks e.packet_id ids }
unfolding ack_all ack_entry member later_acks
ack_all_other [] e h m = ground arith
ack_all_other (pid ∷ ids) e h m = ground (arith, ack_all_other ids (ack_entry pid e))

ack_entries-map : (pid : ℕ) (es : List Entry) → ack_entries pid es ≡ map (ack_entry pid) es
unfolding ack_entries
ack_entries-map pid [] = refl
ack_entries-map pid (e ∷ es) = ap (λ rest. ack_entry pid e ∷ rest) (ack_entries-map pid es)

map-ack_all :
    (pid : ℕ) (ids : List ℕ) (es : List Entry)
    → map (ack_all ids) (map (ack_entry pid) es) ≡ map (ack_all (pid ∷ ids)) es
unfolding ack_all
map-ack_all pid ids [] = refl
map-ack_all pid ids (e ∷ es) =
    ap (λ rest. ack_all ids (ack_entry pid e) ∷ rest) (map-ack_all pid ids es)

map-ack_none : (es : List Entry) → map (ack_all []) es ≡ es
unfolding ack_all
map-ack_none [] = refl
map-ack_none (e ∷ es) = ap (λ rest. e ∷ rest) (map-ack_none es)

ack-entries : (ids : List ℕ) (r : Reliable) → (ack ids r).entries ≡ map (ack_all ids) r.entries
unfolding ack
ack-entries [] r = sym (map-ack_none r.entries)
ack-entries (pid ∷ ids) r =
    ack-entries ids (record r { entries = ack_entries pid r.entries })
    ∙ ap (map (ack_all ids)) (ack_entries-map pid r.entries)
    ∙ map-ack_all pid ids r.entries

-- `Ack` changes no entry's place, and does to each what `Acked` says: an active entry is freed
-- exactly if its id was acknowledged, and else its counter grows by the number of higher ids.
ack-Acked :
    (ids : List ℕ) (r : Reliable)
    → ((ack ids r).entries ≡ map (ack_all ids) r.entries)
      × ((e : Entry) → Acked ids e (ack_all ids e))
ack-Acked ids r =
    (ack-entries ids r, λ e. (ack_all_inactive ids e, ack_all-member ids e, ack_all_other ids e))

pending_ack-member : (id : ℕ) (ids : AckSet) → pending_ack id ids ≡ member id ids
unfolding pending_ack member
pending_ack-member id [] = refl
pending_ack-member id (x ∷ ids) = ground (arith, pending_ack-member id ids)

append-NoRepeats :
    (ids : List ℕ) (id : ℕ) → NoRepeats ids → member id ids ≡ false → NoRepeats (ids ++ (id ∷ []))
unfolding member
append-NoRepeats [] id d a = (refl, tt)
append-NoRepeats (x ∷ ids) id d a = (
  member-middle x id ids [] ∙ rw append-nil (ground arith),
  append-NoRepeats ids id d.1 (ground arith),
)

take-member : (n x : ℕ) (ids : List ℕ) → member x ids ≡ false → member x (take n ids) ≡ false
unfolding member
take-member zero x ids a = refl
take-member (suc n) x [] a = refl
take-member (suc n) x (y ∷ ids) a = ground (arith, take-member n x ids)

take-NoRepeats : (n : ℕ) (ids : List ℕ) → NoRepeats ids → NoRepeats (take n ids)
take-NoRepeats zero ids d = tt
take-NoRepeats (suc n) [] d = tt
take-NoRepeats (suc n) (x ∷ ids) d = (take-member n x ids d.0, take-NoRepeats n ids d.1)

drop-NoRepeats : (n : ℕ) (ids : List ℕ) → NoRepeats ids → NoRepeats (drop n ids)
drop-NoRepeats zero ids d = d
drop-NoRepeats (suc n) [] d = d
drop-NoRepeats (suc n) (x ∷ ids) d = drop-NoRepeats n ids d.1

add-laws :
    (id : ℕ) (ids : AckSet)
    → NoRepeats ids
    → (member id (add id ids) ≡ true) × NoRepeats (add id ids)
unfolding add
add-laws id ids d = elim (Bool-cases (member id ids)) [
  | inl old ↦ rw (pending_ack-member id ids, old) (old, d)
  | inr new ↦
      rw (pending_ack-member id ids, new)
        (member-middle id id ids [] ∙ rw ((==_iff id id).1 refl), append-NoRepeats ids id d new)
]

-- On a set without repetition: after `Add` the id is pending, the set has no repetition, and it is
-- unchanged if the id was pending. `Drain` splits the set in two parts without repetition, hands
-- out the oldest first, at most eight and not fewer while more are left.
ack_set_laws :
    (id : ℕ) (ids : AckSet)
    → NoRepeats ids
    → (member id (add id ids) ≡ true)
      × NoRepeats (add id ids)
      × (member id ids ≡ true → add id ids ≡ ids)
      × ((drain ids).0 ++ (drain ids).1 ≡ ids)
      × (length (drain ids).0 ≡ min (length ids) ack_size)
      × NoRepeats (drain ids).0
      × NoRepeats (drain ids).1
unfolding add drain
ack_set_laws id ids d = (
  (add-laws id ids d).0,
  (add-laws id ids d).1,
  (λ m. rw (pending_ack-member id ids, m)),
  take-append-drop (min (length ids) 8) ids,
  omega (arith, length-take (min (length ids) 8) ids),
  take-NoRepeats (min (length ids) 8) ids d,
  drop-NoRepeats (min (length ids) 8) ids d,
)
