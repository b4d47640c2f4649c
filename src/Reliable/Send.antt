-- ===== src/Reliable/Send.antt =====
-- The send window: what `Next` admits keeps the ids in flight within the peer's receive window.
use govpn.Base.{
  ℕ, suc, ◌+◌, ◌-◌, ◌%◌, ◌^◌, ◌≤◌, ◌<◌, ◌≡◌, refl, ap, Bool, true, false, ltb, if◌then◌else◌,
  Bool-cases, inl, inr, Option, none, some, Option-cases, List, [], ◌∷◌, length, All, arith,
}
use govpn.Reliable.{
  Reliable, Entry, size, pid_min, pid_in_range1, min_active, first_inactive, next, modify, activate,
  mark_active, capacity,
}
use govpn.Reliable.Receive.{active_ids}
use govpn.Base.Words.{add32}

abbrev LowerBound : ℕ → List ℕ → Type 0
LowerBound m = All (λ x. m ≤ x)

-- The scan keeps the lower id, while no id reaches the second half of the id space.
abbrev Lowest : Option ℕ → List ℕ → Option ℕ → Type 0
Lowest least ids none = (least ≡ none) × (ids ≡ [])
Lowest least ids (some m) = (m < 2 ^ 31) × LowerBound m ids × ((l : ℕ) → least ≡ some l → m ≤ l)

abbrev Small : Option ℕ → Type 0
Small none = Unit {0}
Small (some l) = l < 2 ^ 31

weaken : (a b : ℕ) (ids : List ℕ) → a ≤ b → LowerBound b ids → LowerBound a ids
weaken a b [] h l = tt
weaken a b (x ∷ ids) h l = (omega arith, weaken a b ids h l.1)

pub pid_min-ltb : (a b : ℕ) → a < 2 ^ 31 → b < 2 ^ 31 → pid_min a b ≡ ltb a b
unfolding pid_min
pid_min-ltb a b ha hb = ground arith

-- The id that the scan keeps at an active entry.
lower : Entry → Option ℕ → ℕ
lower e none = e.packet_id
lower e (some id) = if pid_min e.packet_id id then e.packet_id else id

lower_lem :
    (e : Entry) (least : Option ℕ)
    → e.packet_id < 2 ^ 31
    → Small least
    → (lower e least < 2 ^ 31)
      × (lower e least ≤ e.packet_id)
      × ((l : ℕ) → least ≡ some l → lower e least ≤ l)
unfolding lower
lower_lem e none h s = (h, omega arith, λ l q. cc)
lower_lem e (some id) h s =
    rw (pid_min-ltb e.packet_id id h s) (ground arith, ground arith, λ l q. ground arith)

-- One entry more in front of the scanned ones.
scanned :
    (id : ℕ) (ids : List ℕ) (least : Option ℕ) (l : ℕ) (found : Option ℕ)
    → l ≤ id
    → ((k : ℕ) → least ≡ some k → l ≤ k)
    → Lowest (some l) ids found
    → Lowest least (id ∷ ids) found
scanned id ids least l none low low' f = absurd (cc (f.0))
scanned id ids least l (some m) low low' (small, bound, below) =
    let m_le_l = below l refl in (small, (omega arith, bound), λ k e. omega (arith, low' k e))

step :
    (e : Entry) (es : List Entry) (least : Option ℕ)
    → e.active ≡ true
    → min_active (e ∷ es) least ≡ min_active es (some (lower e least))
unfolding min_active lower
step e es none used = ap (λ (b : Bool). min_active es (if b then some e.packet_id else none)) used
step e es (some id) used =
    ap
      (λ (b : Bool).
        min_active es
          (if b then some (if pid_min e.packet_id id then e.packet_id else id) else some id))
      used

skip :
    (e : Entry) (es : List Entry) (least : Option ℕ)
    → e.active ≡ false
    → min_active (e ∷ es) least ≡ min_active es least
unfolding min_active
skip e es none free = ap (λ (b : Bool). min_active es (if b then some e.packet_id else none)) free
skip e es (some id) free =
    ap
      (λ (b : Bool).
        min_active es
          (if b then some (if pid_min e.packet_id id then e.packet_id else id) else some id))
      free

min_active-Lowest :
    (es : List Entry) (least : Option ℕ)
    → All (λ x. x < 2 ^ 31) (active_ids es)
    → Small least
    → Lowest least (active_ids es) (min_active es least)
unfolding active_ids
min_active-Lowest [] none h s = unfold min_active in (refl, refl)
min_active-Lowest [] (some l) h s = unfold min_active in (s, tt, λ l' e. ground arith)
min_active-Lowest (e ∷ es) least h s = elim (Bool-cases e.active) [
  | inr free ↦ simp (free, skip e es least free) (min_active-Lowest es least (simp free at h) s)
  | inl used ↦
      let h' : (e.packet_id < 2 ^ 31) × All (λ x. x < 2 ^ 31) (active_ids es) = simp used at h in
      let (small, low, low') = lower_lem e least h'.0 s in
      simp (used, step e es least used)
        (scanned e.packet_id (active_ids es) least (lower e least) _ low low'
          (min_active-Lowest es (some (lower e least)) h'.1 small))
]

-- The entry that `first_inactive` finds, activated.
activated :
    (r : Reliable) (es : List Entry) (i k : ℕ) (P : ℕ → Type 0)
    → first_inactive es i ≡ some k
    → P r.packet_id
    → All P (active_ids es)
    → (es' : List Entry) × (i ≤ k)
      × (modify (k - i) (activate r) es ≡ some es')
      × (length es' ≡ length es)
      × All P (active_ids es')
unfolding first_inactive active_ids modify
activated r [] i k P e p h = cc
activated r (x ∷ es) i k P e p h = elim (Bool-cases x.active) [
  | inr free ↦
      let at_i : i ≡ k = ground arith in
      let z : k - i ≡ 0 = omega arith in
      (activate r x ∷ es, omega arith, rw z, refl, (p, simp free at h))
  | inl used ↦
      let e' : first_inactive es (i + 1) ≡ some k = unfold first_inactive in simp used at e in
      let h' : P x.packet_id × All P (active_ids es) = simp used at h in
      let (es', le, m, l, a) = activated r es (i + 1) k P e' p h'.1 in
      let z : k - i ≡ suc (k - (i + 1)) = omega arith in
      (x ∷ es', omega arith, rw (z, modify, m), ap suc l, simp used (h'.0, a))
]

-- Every id in flight is below the next one, and the window of `size` ids that ends there holds all.
abbrev pub InFlight : ℕ → Reliable → Type 0
InFlight n r = All (λ x. (x < r.packet_id) × (r.packet_id ≤ x + n)) (active_ids r.entries)

tighten :
    (n p m : ℕ) (ids : List ℕ)
    → p < m + n
    → LowerBound m ids
    → All (λ x. x < p) ids
    → All (λ x. (x < p + 1) × (p + 1 ≤ x + n)) ids
tighten n p m [] h l b = tt
tighten n p m (x ∷ ids) h l b = ((omega arith, omega arith), tighten n p m ids h l.1 b.1)

under : (p q : ℕ) (ids : List ℕ) → p < q → All (λ x. x < p) ids → All (λ x. x < q) ids
under p q [] h b = tt
under p q (x ∷ ids) h b = (omega arith, under p q ids h b.1)

-- What `Next` returning an index means for the ids in flight.
admitted :
    (r : Reliable) (idx : ℕ)
    → size r ≤ capacity
    → r.packet_id < 2 ^ 31
    → All (λ x. x < r.packet_id) (active_ids r.entries)
    → next r ≡ some idx
    → (first_inactive r.entries 0 ≡ some idx)
      × All (λ x. (x < r.packet_id + 1) × (r.packet_id + 1 ≤ x + size r)) (active_ids r.entries)
unfolding next
admitted r idx small early below e =
    let low = min_active-Lowest r.entries none (under r.packet_id (2 ^ 31) _ early below) tt in
    elim (Option-cases (min_active r.entries none)) [
      | inl q ↦
          let l : Lowest none (active_ids r.entries) none = rw q at low in
          (rw (q, next) at e, rw l.1 tt)
      | inr (m, q) ↦
          let l : Lowest none (active_ids r.entries) (some m) = rw q at low in
          let e' : (if pid_in_range1 r.packet_id m (size r)
                then first_inactive r.entries 0
                else none)
              ≡ some idx =
            rw (q, next) at e in
          elim (Bool-cases (pid_in_range1 r.packet_id m (size r))) [
            | inr full ↦ absurd (cc (rw full at e'))
            | inl room ↦ (
              rw room at e',
              tighten (size r) r.packet_id m _ (unfold pid_in_range1 in ground (arith, l.0)) l.1
                  below,
            )
          ]
    ]

some_slot : (es : List Entry) (i k : ℕ) → first_inactive es i ≡ some k → 1 ≤ length es
unfolding first_inactive
some_slot [] i k e = cc
some_slot (x ∷ es) i k e = omega arith

-- In the first half of the id space: whenever `Next` hands out an index, `MarkActive` there succeeds
-- and assigns the next id, and then all ids in flight lie in one window of `size` ids that ends at
-- the id just assigned, which the peer's receive window can hold.
pub next-mark_active :
    (r : Reliable) (idx : ℕ)
    → size r ≤ capacity
    → r.packet_id < 2 ^ 31
    → All (λ x. x < r.packet_id) (active_ids r.entries)
    → next r ≡ some idx
    → (r' : Reliable) × (mark_active idx r ≡ some (r.packet_id, r'))
      × (r'.packet_id ≡ r.packet_id + 1)
      × (size r' ≡ size r)
      × InFlight (size r) r'
unfolding mark_active
next-mark_active r idx small early below e =
    let (found, flight) = admitted r idx small early below e in
    let (es, _, m, l, a) =
      activated r r.entries 0 idx (λ x. (x < r.packet_id + 1) × (r.packet_id + 1 ≤ x + size r))
        found (omega arith, omega (arith, some_slot r.entries 0 idx found)) flight in
    let z : idx - 0 ≡ idx = omega arith in
    let up : (r.packet_id + 1) % 2 ^ 32 ≡ r.packet_id + 1 = omega arith in
    (record r { packet_id = add32 r.packet_id 1; entries = es }, rw (rw z at m), up, l, rw up a)
