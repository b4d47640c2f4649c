-- ===== src/Reliable/Delivery.antt =====
-- The receive side refines a reorder buffer: a map of waiting payloads and the next id to deliver.
use govpn.Base.{
  ℕ, suc, ◌+◌, ◌-◌, ◌≤◌, ◌<◌, ◌≡◌, refl, ap, false, ◌&&◌, leb, ltb, ◌==◌, if◌then◌else◌, Option,
  none, some, List, [], ◌∷◌, length, map, All, member, NoRepeats, arith,
}
use govpn.Reliable.{Reliable, size, capacity, PutResult, put_rejected, put_accepted, put_duplicate}
use govpn.Reliable.Pigeonhole.{pigeonhole}
use govpn.Reliable.Receive.{find_pending, active_ids, Between}

pub record Buffer : Type 0 where
  pub next : ℕ
  pub pending : ℕ → Option (List ℕ)

abbrev pub empty_buffer : Buffer
empty_buffer = record { next = 0; pending = λ _. none }

-- A packet of the window of `n` ids from `next` on is stored once; any other is refused.
unfoldable pub buffer_put : ℕ → ℕ → List ℕ → Buffer → Buffer × PutResult
buffer_put n id payload b =
    if leb b.next id && ltb id (b.next + n)
    then elim (b.pending id) [
      | some _ ↦ (b, put_duplicate)
      | none ↦
          (record b { pending = λ j. if j == id then some payload else b.pending j }, put_accepted)
    ]
    else (b, put_rejected)

-- The payload of `next` is delivered if it waits, and `next` goes up by one.
unfoldable pub buffer_get : Buffer → Option (List ℕ × Buffer)
buffer_get b = elim (b.pending b.next) [
  | none ↦ none
  | some payload ↦ some (
    payload,
    record { next = b.next + 1; pending = λ j. if j == b.next then none else b.pending j },
  )
]

pub record Receives (n : ℕ) (r : Reliable) (b : Buffer) : Type 0 where
  pub slots : size r ≡ n
  pub small : n ≤ capacity
  pub same_next : r.packet_id ≡ b.next
  pub same_pending : (j : ℕ) → find_pending j r.entries ≡ b.pending j
  pub distinct : NoRepeats (active_ids r.entries)
  pub within : All (Between b.next (b.next + n)) (active_ids r.entries)

-- Ids moved down to start at 0.
shifted :
    (lo n : ℕ) (ids : List ℕ)
    → All (Between lo (lo + n)) ids
    → All (λ x. x < n) (map (λ x. x - lo) ids)
shifted lo n [] h = tt
shifted lo n (x ∷ ids) h = (omega (arith, h.0.0, h.0.1), shifted lo n ids h.1)

absent-shifted :
    (lo hi x : ℕ) (ids : List ℕ)
    → lo ≤ x
    → All (Between lo hi) ids
    → member x ids ≡ false
    → member (x - lo) (map (λ x. x - lo) ids) ≡ false
unfolding member
absent-shifted lo hi x [] hx h a = refl
absent-shifted lo hi x (y ∷ ids) hx h a = ground (arith, h.0.0, absent-shifted lo hi x ids hx h.1)

shifted-NoRepeats :
    (lo hi : ℕ) (ids : List ℕ)
    → All (Between lo hi) ids
    → NoRepeats ids
    → NoRepeats (map (λ x. x - lo) ids)
shifted-NoRepeats lo hi [] h d = tt
shifted-NoRepeats lo hi (x ∷ ids) h d =
    (absent-shifted lo hi x ids h.0.0 h.1 d.0, shifted-NoRepeats lo hi ids h.1 d.1)

length-shifted : (lo : ℕ) (ids : List ℕ) → length (map (λ x. x - lo) ids) ≡ length ids
length-shifted lo [] = refl
length-shifted lo (x ∷ ids) = ap suc (length-shifted lo ids)

-- A window of `n` ids that misses one of its ids holds fewer than `n`.
pub room_for_one :
    (lo n id : ℕ) (ids : List ℕ)
    → All (Between lo (lo + n)) ids
    → NoRepeats ids
    → Between lo (lo + n) id
    → member id ids ≡ false
    → length ids < n
room_for_one lo n id ids h d b a = omega (
  arith,
  length-shifted lo ids,
  pigeonhole n (map (λ x. x - lo) (id ∷ ids)) (shifted lo n (id ∷ ids) (b, h))
      (shifted-NoRepeats lo (lo + n) (id ∷ ids) (b, h) (a, d)),
)
