-- ===== src/Reliable/Refinement.antt =====
-- `Put` and `Get` answer as the reorder buffer does, call by call.
use govpn.Base.{
  ℕ, ◌+◌, ◌^◌, ◌≤◌, ◌<◌, ◌≡◌, refl, sym, ap, ◌∙◌, subst, inl, inr, true, false, ◌&&◌, leb, ltb,
  ◌==◌, if◌then◌else◌, Bool-cases, ==_iff, Option, none, some, Option-cases, List, [], ◌∷◌, All,
  member, arith,
}
use govpn.Base.Words.{IsU32}
use govpn.Reliable.{
  Reliable, Entry, size, PutResult, put_rejected, new, put, get, holds, store, take_out, pid_min,
  pid_in_range2,
}
use govpn.Reliable.Window.{in_window, in_window_iff}
use govpn.Reliable.Receive.{
  find_pending, active_ids, is_some, holds-find_pending, holds-member, Between, Stored, Stores,
  store-Stores, TakesOut, take_out-TakesOut,
}
use govpn.Reliable.Delivery.{Buffer, buffer_put, buffer_get, Receives, room_for_one}

-- A held id lies in the window.
held_within :
    (lo hi id : ℕ) (ids : List ℕ)
    → All (Between lo hi) ids
    → member id ids ≡ true
    → Between lo hi id
unfolding member
held_within lo hi id [] h m = cc
held_within lo hi id (x ∷ ids) h m = elim (Bool-cases (id == x)) [
  | inl e ↦ rw ((==_iff id x).0 e) h.0
  | inr e ↦ held_within lo hi id ids h.1 (rw e at m)
]

abbrev SameAnswer : ℕ → Reliable × PutResult → Buffer × PutResult → Type 0
SameAnswer n (r, a) (b, a') = (a ≡ a') × Receives n r b

not_some {ℓ} : {A : Type ℓ} (o : Option A) → is_some o ≡ false → o ≡ none
not_some none h = refl
not_some (some a) h = cc

some_of {ℓ} : {A : Type ℓ} (o : Option A) → is_some o ≡ true → (a : A) × (o ≡ some a)
some_of none h = cc
some_of (some a) h = (a, refl)

module _ (n id : ℕ) (payload : List ℕ) (r : Reliable) (b : Buffer) (v : Receives n r b) where
  rejected : SameAnswer n (r, put_rejected) (b, put_rejected)
  rejected = (refl, v)

  Stored-Receives :
      (es : List Entry)
      → Between b.next (b.next + n) id
      → holds id r.entries ≡ false
      → Stored id payload r.entries es
      → Receives n
          (record r { entries = es })
          (record b { pending = λ j. if j == id then some payload else b.pending j })
  Stored-Receives es inside new s = record {
    slots = s.same_size ∙ v.slots;
    small = v.small;
    same_next = v.same_next;
    same_pending =
        λ j. s.pending j ∙ ap (λ o. if j == id then some payload else o) (v.same_pending j);
    distinct = s.distinct v.distinct;
    within = s.keeps b.next (b.next + n) inside v.within;
  }

  -- The last branch of `Put`, where no entry is free, is not reached.
  stores :
      Between b.next (b.next + n) id
      → holds id r.entries ≡ false
      → (es : List Entry) × (store id payload r.entries ≡ some es) × Stored id payload r.entries es
  stores inside new = elim (Option-cases (store id payload r.entries)) [
    | inr (es, e) ↦
        (es, e, subst (Stores id payload r.entries) e (store-Stores id payload r.entries new))
    | inl full ↦ absurd (
        omega (
          arith,
          subst (Stores id payload r.entries) full (store-Stores id payload r.entries new),
          v.slots,
          room_for_one b.next n id (active_ids r.entries) v.within v.distinct inside
              (sym (holds-member id r.entries) ∙ new),
        ))
  ]

  tests_inside :
      in_window id r.packet_id (size r) ≡ true
      → (pid_min id r.packet_id ≡ false) × (pid_in_range2 id r.packet_id (size r) ≡ true)
  tests_inside w = ground arith

  put_inside :
      IsU32 id
      → r.packet_id ≤ 2 ^ 31
      → Between b.next (b.next + n) id
      → SameAnswer n (put id payload r) (buffer_put n id payload b)
  unfolding put buffer_put
  put_inside hi early inside =
      let w : in_window id r.packet_id (size r) ≡ true =
        rw (v.slots, v.same_next)
          ((in_window_iff id b.next n hi (rw v.same_next at early) v.small).1 inside) in
      let (not_below, in_range) = tests_inside w in
      let test : (leb b.next id && ltb id (b.next + n)) ≡ true =
        ground (arith, inside.0, inside.1) in
      rw (not_below, in_range, test)
        (elim (Bool-cases (holds id r.entries)) [
          | inl held ↦
              let waits : is_some (b.pending id) ≡ true =
                rw (← v.same_pending id) (sym (holds-find_pending id r.entries) ∙ held) in
              let (old, e) = some_of (b.pending id) waits in rw (held, e) (refl, v)
          | inr new ↦
              let absent : b.pending id ≡ none =
                sym (v.same_pending id)
                ∙ not_some (find_pending id r.entries)
                    (sym (holds-find_pending id r.entries) ∙ new) in
              let (es, done, s) = stores inside new in
              rw (new, absent, done) (refl, Stored-Receives es inside new s)
        ])

  put_outside :
      IsU32 id
      → r.packet_id ≤ 2 ^ 31
      → (leb b.next id && ltb id (b.next + n)) ≡ false
      → SameAnswer n (put id payload r) (buffer_put n id payload b)
  unfolding put buffer_put
  put_outside hi early test = rw test (elim (Bool-cases (pid_min id r.packet_id)) [
    | inl below ↦ rw below rejected
    | inr not_below ↦ rw not_below (elim (Bool-cases (holds id r.entries)) [
      | inl held ↦
          let inside =
            held_within b.next (b.next + n) id (active_ids r.entries) v.within
              (sym (holds-member id r.entries) ∙ held) in
          absurd (ground (arith, inside))
      | inr new ↦ rw new (elim (Bool-cases (pid_in_range2 id r.packet_id (size r))) [
        | inr out ↦ rw out rejected
        | inl in_range ↦
            let w : in_window id b.next n ≡ true =
              rw (← v.slots, ← v.same_next) (rw (not_below, in_range)) in
            let inside = (in_window_iff id b.next n hi (rw v.same_next at early) v.small).0 w in
            absurd (ground (arith, inside))
      ])
    ])
  ])

-- While the next id is in the first half of the id space, `Put` answers as the reorder buffer and
-- stays in step with it.
pub put-buffer_put :
    (n id : ℕ) (payload : List ℕ) (r : Reliable) (b : Buffer)
    → Receives n r b
    → IsU32 id
    → r.packet_id ≤ 2 ^ 31
    → SameAnswer n (put id payload r) (buffer_put n id payload b)
put-buffer_put n id payload r b v hi early =
    elim (Bool-cases (leb b.next id && ltb id (b.next + n))) [
      | inl test ↦ put_inside n id payload r b v hi early (ground arith)
      | inr test ↦ put_outside n id payload r b v hi early test
    ]

abbrev pub SameDelivery : ℕ → Option (List ℕ × Reliable) → Option (List ℕ × Buffer) → Type 0
SameDelivery n none none = Unit {0}
SameDelivery n none (some _) = ⊥
SameDelivery n (some _) none = ⊥
SameDelivery n (some (p, r)) (some (p', b)) = (p ≡ p') × Receives n r b

-- Without the id at its lower end, the window moves up by one.
moved_up :
    (lo hi : ℕ) (ids : List ℕ)
    → All (Between lo hi) ids
    → member lo ids ≡ false
    → All (Between (lo + 1) (hi + 1)) ids
unfolding member
moved_up lo hi [] h a = tt
moved_up lo hi (x ∷ ids) h a =
    ((ground (arith, h.0.0), omega (arith, h.0.1)), moved_up lo hi ids h.1 (ground arith))

pub get-buffer_get :
    (n : ℕ) (r : Reliable) (b : Buffer)
    → Receives n r b
    → r.packet_id < 2 ^ 31
    → SameDelivery n (get r) (buffer_get b)
unfolding get buffer_get
get-buffer_get n r b v early = elim (Option-cases (take_out r.packet_id r.entries)) [
  | inl absent ↦
      let gap =
        subst (TakesOut r.packet_id r.entries) absent
          (take_out-TakesOut r.packet_id r.entries v.distinct) in
      let e : b.pending b.next ≡ none =
        sym (v.same_pending b.next) ∙ ap (λ j. find_pending j r.entries) (sym v.same_next) ∙ gap in
      rw (absent, e, buffer_get) tt
  | inr ((payload, es), found) ↦
      let t =
        subst (TakesOut r.packet_id r.entries) found
          (take_out-TakesOut r.packet_id r.entries v.distinct) in
      let e : b.pending b.next ≡ some payload =
        sym (v.same_pending b.next)
        ∙ ap (λ j. find_pending j r.entries) (sym v.same_next)
        ∙ t.was_pending in
      rw (found, e, buffer_get)
        (
          refl,
          record {
            slots = t.same_size ∙ v.slots;
            small = v.small;
            same_next = omega (arith, v.same_next);
            same_pending = λ j. t.pending j ∙ rw (v.same_next, v.same_pending j);
            distinct = t.distinct;
            within =
                let up : b.next + 1 + n ≡ b.next + n + 1 = omega arith in
                let hit : (b.next == r.packet_id) ≡ true = (==_iff _ _).1 (sym v.same_next) in
                rw up (
                  moved_up b.next (b.next + n) (active_ids es)
                    (t.keeps b.next (b.next + n) v.within) (t.ids b.next ∙ rw hit));
          },
        )
]
