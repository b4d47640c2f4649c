-- ===== src/Reliable/Backoff.antt =====
-- `Due`: which entry is sent next, and when it will be sent again.
use govpn.Base.{
  ◌⊎◌, ℕ, zero, suc, ◌+◌, ◌*◌, ◌^◌, ◌≤◌, ◌<◌, ◌≡◌, refl, sym, subst, true, false, leb, Bool-cases,
  inl, inr, Option, none, some, Option-cases, List, [], ◌∷◌, length, All, arith, set,
}
use govpn.Reliable.{Reliable, Entry, pid_min, is_due, best_due, back_off, get_entry, modify, due}
use govpn.Reliable.Send.{pid_min-ltb}

abbrev pub SmallIds : List Entry → Type 0
SmallIds = All (λ e. e.packet_id < 2 ^ 31)

-- No due entry has a lower id.
abbrev pub NoneBelow : ℕ → ℕ → List Entry → Type 0
NoneBelow now id = All (λ e. is_due now e ≡ true → id ≤ e.packet_id)

abbrev pub NoneDue : ℕ → List Entry → Type 0
NoneDue now = All (λ e. is_due now e ≡ false)

-- The entry at `p`, counted from `i` on, with this id, is due.
record At (now : ℕ) (es : List Entry) (i p id : ℕ) : Type 0 where
  k : ℕ
  place : p ≡ i + k
  inside : k < length es
  ready : is_due now (get_entry es k) ≡ true
  has_id : (get_entry es k).packet_id ≡ id

-- The result of the scan: `best` itself or a due entry of the list, and no due one is lower.
abbrev BestOf : ℕ → List Entry → ℕ → Option (ℕ × ℕ) → Option (ℕ × ℕ) → Type 0
BestOf now es i best none = (best ≡ none) × NoneDue now es
BestOf now es i best (some (p, id)) =
    (id < 2 ^ 31)
    × NoneBelow now id es
    × ((j id' : ℕ) → best ≡ some (j, id') → id ≤ id')
    × ((best ≡ some (p, id)) ⊎ At now es i p id)

abbrev SmallBest : Option (ℕ × ℕ) → Type 0
SmallBest none = Unit {0}
SmallBest (some (j, id)) = id < 2 ^ 31

At-later :
    (now : ℕ) (e : Entry) (es : List Entry) (i p id : ℕ)
    → At now es (i + 1) p id
    → At now (e ∷ es) i p id
At-later now e es i p id a = record {
  k = suc a.k;
  place = omega (arith, a.place);
  inside = omega (arith, a.inside);
  ready = a.ready;
  has_id = a.has_id;
}

-- An entry that is not due, in front.
past_idle :
    (now : ℕ) (e : Entry) (es : List Entry) (i : ℕ) (best o : Option (ℕ × ℕ))
    → is_due now e ≡ false
    → BestOf now es (i + 1) best o
    → BestOf now (e ∷ es) i best o
past_idle now e es i best none idle (q, d) = (q, (idle, d))
past_idle now e es i best (some (p, id)) idle (small, low, below, place) =
    (small, ((λ t. cc), low), below, place_later place)
  where
    place_later :
        (best ≡ some (p, id)) ⊎ At now es (i + 1) p id
        → (best ≡ some (p, id)) ⊎ At now (e ∷ es) i p id
    place_later (inl q) = inl q
    place_later (inr a) = inr (At-later now e es i p id a)

-- A due entry in front that becomes the best.
past_better :
    (now : ℕ) (e : Entry) (es : List Entry) (i : ℕ) (best o : Option (ℕ × ℕ))
    → is_due now e ≡ true
    → ((j id : ℕ) → best ≡ some (j, id) → e.packet_id ≤ id)
    → BestOf now es (i + 1) (some (i, e.packet_id)) o
    → BestOf now (e ∷ es) i best o
past_better now e es i best none ready better (q, d) = absurd (cc)
past_better now e es i best (some (p, id)) ready better (small, low, below, place) =
    let id_le = below i e.packet_id refl in
    (small, ((λ t. id_le), low), (λ j id' q. omega (arith, better j id' q)), inr (place_here place))
  where
    place_here :
        (◌≡◌ {A = Option (ℕ × ℕ)} (some (i, e.packet_id)) (some (p, id))) ⊎ At now es (i + 1) p id
        → At now (e ∷ es) i p id
    place_here (inl q) = record {
      k = 0;
      place = ground arith;
      inside = omega arith;
      ready = ready;
      has_id = ground arith;
    }
    place_here (inr a) = At-later now e es i p id a

-- A due entry in front that does not.
past_worse :
    (now : ℕ) (e : Entry) (es : List Entry) (i j id : ℕ) (o : Option (ℕ × ℕ))
    → id ≤ e.packet_id
    → BestOf now es (i + 1) (some (j, id)) o
    → BestOf now (e ∷ es) i (some (j, id)) o
past_worse now e es i j id none le (q, d) = absurd (cc)
past_worse now e es i j id (some (p, id')) le (small, low, below, place) =
    let id_le = below j id refl in (small, ((λ t. omega arith), low), below, place_later place)
  where
    place_later :
        (◌≡◌ {A = Option (ℕ × ℕ)} (some (j, id)) (some (p, id'))) ⊎ At now es (i + 1) p id'
        → (◌≡◌ {A = Option (ℕ × ℕ)} (some (j, id)) (some (p, id'))) ⊎ At now (e ∷ es) i p id'
    place_later (inl q) = inl q
    place_later (inr a) = inr (At-later now e es i p id' a)

best_due-BestOf :
    (now : ℕ) (es : List Entry) (i : ℕ) (best : Option (ℕ × ℕ))
    → SmallIds es
    → SmallBest best
    → BestOf now es i best (best_due now es i best)
unfolding best_due
best_due-BestOf now [] i none h s = (refl, tt)
best_due-BestOf now [] i (some (j, id)) h s = (s, tt, (λ j' id' q. ground arith), inl refl)
best_due-BestOf now (e ∷ es) i none h s = elim (Bool-cases (is_due now e)) [
  | inr idle ↦
      rw idle (past_idle now e es i none _ idle (best_due-BestOf now es (i + 1) none h.1 tt))
  | inl ready ↦ rw ready (
      past_better now e es i none _ ready (λ j id q. cc)
        (best_due-BestOf now es (i + 1) (some (i, e.packet_id)) h.1 h.0))
]
best_due-BestOf now (e ∷ es) i (some (j, id)) h s = elim (Bool-cases (is_due now e)) [
  | inr idle ↦ rw idle (
      past_idle now e es i (some (j, id)) _ idle
        (best_due-BestOf now es (i + 1) (some (j, id)) h.1 s))
  | inl ready ↦ rw ready (elim (Bool-cases (pid_min e.packet_id id)) [
    | inl lower ↦ rw lower (
        past_better now e es i (some (j, id)) _ ready
          (λ j' id' q. ground (arith, pid_min-ltb e.packet_id id h.0 s))
          (best_due-BestOf now es (i + 1) (some (i, e.packet_id)) h.1 h.0))
    | inr higher ↦ rw higher (
        past_worse now e es i j id _ (ground (arith, pid_min-ltb e.packet_id id h.0 s))
          (best_due-BestOf now es (i + 1) (some (j, id)) h.1 s))
  ])
]

-- The entry `e` was sent at `now`, which leaves `sent` in its place: it is due again at the end of the
-- timeout that it had, and has twice that timeout then.
pub record BacksOff (now : ℕ) (e sent : Entry) : Type 0 where
  pub next_try : sent.next_try ≡ now + e.timeout
  pub doubled : sent.timeout ≡ 2 * e.timeout
  pub reset : sent.n_acks ≡ 0
  pub same_id : sent.packet_id ≡ e.packet_id
  pub same_payload : sent.payload ≡ e.payload
  pub stays_active : sent.active ≡ true
  pub waits : (later : ℕ) → is_due later sent ≡ leb (now + e.timeout) later

pub record Sends (now : ℕ) (r : Reliable) (payload : List ℕ) (id : ℕ) (r' : Reliable) : Type 0 where
  pub index : ℕ
  pub in_range : index < length r.entries
  pub is_ready : is_due now (get_entry r.entries index) ≡ true
  pub same_id : id ≡ (get_entry r.entries index).packet_id
  pub same_payload : payload ≡ (get_entry r.entries index).payload
  pub lowest : NoneBelow now id r.entries
  pub sent : Entry
  pub after : r' ≡ record r { entries = set r.entries index sent }
  pub backs_off : BacksOff now (get_entry r.entries index) sent

back_off-BacksOff : (now : ℕ) (e : Entry) → is_due now e ≡ true → BacksOff now e (back_off now e)
unfolding is_due
back_off-BacksOff now e ready = record {
  next_try = refl;
  doubled = omega arith;
  reset = refl;
  same_id = refl;
  same_payload = refl;
  stays_active = ground (arith, ready);
  waits = λ later. ground (arith, ready);
}

modify-set :
    (i : ℕ) (f : Entry → Entry) (es : List Entry)
    → i < length es
    → modify i f es ≡ some (set es i (f (get_entry es i)))
unfolding modify
modify-set i f [] h = absurd (omega arith)
modify-set zero f (e ∷ es) h = refl
modify-set (suc i) f (e ∷ es) h = rw (modify-set i f es (omega arith))

abbrev pub Dues : ℕ → Reliable → Option (List ℕ × ℕ × Reliable) → Type 0
Dues now r none = NoneDue now r.entries
Dues now r (some (payload, id, r')) = Sends now r payload id r'

sent-Dues :
    (now : ℕ) (r : Reliable) (i id : ℕ)
    → best_due now r.entries 0 none ≡ some (i, id)
    → BestOf now r.entries 0 none (some (i, id))
    → Dues now r (due now r)
unfolding due
sent-Dues now r i id e (small, low, below, inl q) = absurd (cc (q))
sent-Dues now r i id e (small, low, below, inr a) =
    let is_k : i ≡ a.k = omega (arith, a.place) in
    rw (e, due, is_k, modify-set a.k (back_off now) r.entries a.inside)
      (record {
        index = a.k;
        in_range = a.inside;
        is_ready = a.ready;
        same_id = sym a.has_id;
        same_payload = refl;
        lowest = low;
        sent = back_off now (get_entry r.entries a.k);
        after = refl;
        backs_off = back_off-BacksOff now (get_entry r.entries a.k) a.ready;
      })

-- While the ids are in the first half of the id space: `Due` answers nothing exactly if no active
-- entry is ready, and otherwise sends the payload of a ready entry with the lowest id among the
-- ready ones; that entry is not ready again before the timeout that it had has passed from now, and is
-- ready then, its timeout doubles, its counter is reset, and nothing else changes.
pub due-Dues : (now : ℕ) (r : Reliable) → SmallIds r.entries → Dues now r (due now r)
unfolding due
due-Dues now r h =
    let best = best_due-BestOf now r.entries 0 none h tt in
    elim (Option-cases (best_due now r.entries 0 none)) [
      | inl e ↦ rw (e, due) (subst (BestOf now r.entries 0 none) e best).1
      | inr ((i, id), e) ↦ sent-Dues now r i id e (subst (BestOf now r.entries 0 none) e best)
    ]
