-- ===== src/Reliable/Receive.antt =====
-- The receive buffer as a map from packet ids to payloads: what storing and taking out do to it.
use govpn.Base.{
  ℕ, suc, ◌≤◌, ◌<◌, ◌≡◌, refl, sym, ap, ◌∙◌, subst, inl, inr, Bool, true, false, ◌&&◌, ◌==◌,
  if◌then◌else◌, Bool-cases, ==_iff, Option, none, some, Option-cases, List, [], ◌∷◌, length, All,
  member, NoRepeats, arith,
}
use govpn.Reliable.{Entry, holds, store, take_out}

-- The payload that waits under an id.
unfoldable pub find_pending : ℕ → List Entry → Option (List ℕ)
find_pending id [] = none
find_pending id (e ∷ es) =
    if e.active && e.packet_id == id then some e.payload else find_pending id es

unfoldable pub active_ids : List Entry → List ℕ
active_ids [] = []
active_ids (e ∷ es) = if e.active then e.packet_id ∷ active_ids es else active_ids es

abbrev pub is_some {ℓ} : {A : Type ℓ} → Option A → Bool
is_some none = false
is_some (some a) = true

pub holds-find_pending : (id : ℕ) (es : List Entry) → holds id es ≡ is_some (find_pending id es)
unfolding holds find_pending
holds-find_pending id [] = refl
holds-find_pending id (e ∷ es) = ground (arith, holds-find_pending id es)

pub holds-member : (id : ℕ) (es : List Entry) → holds id es ≡ member id (active_ids es)
unfolding holds active_ids member
holds-member id [] = refl
holds-member id (e ∷ es) = ground (arith, holds-member id es)

abbrev pub Between : ℕ → ℕ → ℕ → Type 0
Between lo hi x = (lo ≤ x) × (x < hi)

pub record Stored (id : ℕ) (payload : List ℕ) (es es' : List Entry) : Type 0 where
  pub same_size : length es' ≡ length es
  pub pending : (j : ℕ) → find_pending j es' ≡ (if j == id then some payload else find_pending j es)
  pub ids :
      (j : ℕ) → member j (active_ids es') ≡ (if j == id then true else member j (active_ids es))
  pub distinct : NoRepeats (active_ids es) → NoRepeats (active_ids es')
  pub keeps :
      (lo hi : ℕ)
      → Between lo hi id
      → All (Between lo hi) (active_ids es)
      → All (Between lo hi) (active_ids es')

abbrev pub Stores : ℕ → List ℕ → List Entry → Option (List Entry) → Type 0
Stores id payload es none = length (active_ids es) ≡ length es
Stores id payload es (some es') = Stored id payload es es'

Stored-here :
    (id : ℕ) (payload : List ℕ) (e : Entry) (es : List Entry)
    → e.active ≡ false
    → holds id es ≡ false
    → Stored id payload
        (e ∷ es)
        (record e { active = true; packet_id = id; n_acks = 0; payload = payload } ∷ es)
unfolding find_pending active_ids member
Stored-here id payload e es free new = record {
  same_size = refl;
  pending = λ j. ground arith;
  ids = λ j. ground arith;
  distinct = λ d. (sym (holds-member id es) ∙ new, rw free at d);
  keeps = λ lo hi p h. (p, rw free at h);
}

Stored-later :
    (id : ℕ) (payload : List ℕ) (e : Entry) (es es' : List Entry)
    → holds id (e ∷ es) ≡ false
    → Stored id payload es es'
    → Stored id payload (e ∷ es) (e ∷ es')
unfolding find_pending active_ids member holds
Stored-later id payload e es es' new s = record {
  same_size = ap suc s.same_size;
  pending = λ j. ground (arith, s.pending j);
  ids = λ j. ground (arith, s.ids j);
  distinct = elim (Bool-cases e.active) [
    | inl used ↦
        let other : (e.packet_id == id) ≡ false = ground arith in
        simp used (λ d. (s.ids e.packet_id ∙ simp other d.0, s.distinct d.1))
    | inr free ↦ simp free s.distinct
  ];
  keeps = λ lo hi p. elim (Bool-cases e.active) [
    | inl used ↦ rw used (λ h. (h.0, s.keeps lo hi p h.1))
    | inr free ↦ rw free (s.keeps lo hi p)
  ];
}

active_cons :
    (e : Entry) (es : List Entry)
    → e.active ≡ true
    → length (active_ids (e ∷ es)) ≡ suc (length (active_ids es))
unfolding active_ids
active_cons e es used =
    ap (λ (b : Bool). length (if b then e.packet_id ∷ active_ids es else active_ids es)) used

pub store-Stores :
    (id : ℕ) (payload : List ℕ) (es : List Entry)
    → holds id es ≡ false
    → Stores id payload es (store id payload es)
unfolding store
store-Stores id payload [] new = unfold active_ids in refl
store-Stores id payload (e ∷ es) new =
    let rest_new : holds id es ≡ false = unfold holds in ground arith in
    elim (Bool-cases e.active) [
      | inr free ↦ simp free (Stored-here id payload e es free rest_new)
      | inl used ↦ simp used (elim (Option-cases (store id payload es)) [
        | inl full ↦
            let all = subst (Stores id payload es) full (store-Stores id payload es rest_new) in
            rw full (active_cons e es used ∙ ap suc all)
        | inr (es', done) ↦ rw done (
            Stored-later id payload e es es' new
              (subst (Stores id payload es) done (store-Stores id payload es rest_new)))
      ])
    ]

pub record TakenOut (id : ℕ) (payload : List ℕ) (es es' : List Entry) : Type 0 where
  pub same_size : length es' ≡ length es
  pub was_pending : find_pending id es ≡ some payload
  pub pending : (j : ℕ) → find_pending j es' ≡ (if j == id then none else find_pending j es)
  pub ids :
      (j : ℕ) → member j (active_ids es') ≡ (if j == id then false else member j (active_ids es))
  pub distinct : NoRepeats (active_ids es')
  pub keeps :
      (lo hi : ℕ) → All (Between lo hi) (active_ids es) → All (Between lo hi) (active_ids es')

abbrev pub TakesOut : ℕ → List Entry → Option (List ℕ × List Entry) → Type 0
TakesOut id es none = find_pending id es ≡ none
TakesOut id es (some (payload, es')) = TakenOut id payload es es'

absent-find_pending :
    (id : ℕ) (es : List Entry) → member id (active_ids es) ≡ false → find_pending id es ≡ none
unfolding find_pending active_ids member
absent-find_pending id [] h = refl
absent-find_pending id (e ∷ es) h = ground (arith, absent-find_pending id es)

taken_here :
    (id : ℕ) (e : Entry) (es : List Entry)
    → e.active ≡ true
    → e.packet_id ≡ id
    → NoRepeats (active_ids (e ∷ es))
    → TakenOut id e.payload (e ∷ es) (record e { active = false } ∷ es)
unfolding find_pending active_ids member
taken_here id e es used is_id d =
    let d' : (member e.packet_id (active_ids es) ≡ false) × NoRepeats (active_ids es) =
      rw used at d in
    let absent : member id (active_ids es) ≡ false = rw (← is_id) d'.0 in
    record {
      same_size = refl;
      was_pending = ground arith;
      pending = λ j. elim (Bool-cases (j == id)) [
        | inl e ↦ simp e (absent-find_pending j es (rw ((==_iff j id).0 e) absent))
        | inr other ↦ ground arith
      ];
      ids = λ j. elim (Bool-cases (j == id)) [
        | inl e ↦ simp e (rw ((==_iff j id).0 e) absent)
        | inr other ↦ ground arith
      ];
      distinct = d'.1;
      keeps = λ lo hi h. (rw used at h).1;
    }

taken_later :
    (id : ℕ) (payload : List ℕ) (e : Entry) (es es' : List Entry)
    → (e.active && e.packet_id == id) ≡ false
    → NoRepeats (active_ids (e ∷ es))
    → TakenOut id payload es es'
    → TakenOut id payload (e ∷ es) (e ∷ es')
unfolding find_pending active_ids member
taken_later id payload e es es' other d t = record {
  same_size = ap suc t.same_size;
  was_pending = rw other t.was_pending;
  pending = λ j. ground (arith, t.pending j);
  ids = λ j. ground (arith, t.ids j);
  distinct = elim (Bool-cases e.active) [
    | inl used ↦
        let other' : (e.packet_id == id) ≡ false = ground arith in
        let d' : (member e.packet_id (active_ids es) ≡ false) × NoRepeats (active_ids es) =
          simp used at d in
        simp used (t.ids e.packet_id ∙ simp other' d'.0, t.distinct)
    | inr free ↦ simp free t.distinct
  ];
  keeps = λ lo hi. elim (Bool-cases e.active) [
    | inl used ↦ rw used (λ h. (h.0, t.keeps lo hi h.1))
    | inr free ↦ rw free (t.keeps lo hi)
  ];
}

distinct_rest :
    (e : Entry) (es : List Entry) → NoRepeats (active_ids (e ∷ es)) → NoRepeats (active_ids es)
unfolding active_ids
distinct_rest e es d = elim (Bool-cases e.active) [
  | inl used ↦
      let d' : (member e.packet_id (active_ids es) ≡ false) × NoRepeats (active_ids es) =
        simp used at d in
      d'.1
  | inr free ↦ simp free at d
]

skip_entry :
    (id : ℕ) (e : Entry) (es : List Entry)
    → (e.active && e.packet_id == id) ≡ false
    → find_pending id (e ∷ es) ≡ find_pending id es
unfolding find_pending
skip_entry id e es miss = ap (λ (b : Bool). if b then some e.payload else find_pending id es) miss

pub take_out-TakesOut :
    (id : ℕ) (es : List Entry) → NoRepeats (active_ids es) → TakesOut id es (take_out id es)
unfolding take_out
take_out-TakesOut id [] d = unfold find_pending in refl
take_out-TakesOut id (e ∷ es) d = elim (Bool-cases (e.active && e.packet_id == id)) [
  | inl hit ↦ simp hit (taken_here id e es (ground arith) (ground arith) d)
  | inr miss ↦
      let d' : NoRepeats (active_ids es) = distinct_rest e es d in
      simp miss (elim (Option-cases (take_out id es)) [
        | inl absent ↦
            let a = subst (TakesOut id es) absent (take_out-TakesOut id es d') in
            rw absent (skip_entry id e es miss ∙ a)
        | inr ((payload, es'), found) ↦ rw found (
            taken_later id payload e es es' miss d
              (subst (TakesOut id es) found (take_out-TakesOut id es d')))
      ])
]
