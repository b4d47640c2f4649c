-- ===== src/IpPool/Search.antt =====
-- The search loops return the lowest free number of their range, or find the range full.
use govpn.Base.{
  ℕ, zero, suc, ◌+◌, ◌-◌, ◌≤◌, ◌<◌, ◌≡◌, inl, inr, Bool, true, false, Bool-cases, ==_iff, ◌==◌,
  subst, Option, none, some, arith,
}
use govpn.IpPool.{IpPool, first_free, next_free_offset, next_free_peer_id, max_peer_id}

-- Every number of `[from, to)` is taken.
abbrev pub IsFull : (ℕ → Bool) → ℕ → ℕ → Type 0
IsFull used from to = (j : ℕ) → from ≤ j → j < to → used j ≡ true

-- `n` is the lowest free number of `[from, to)`.
pub record IsLowest (used : ℕ → Bool) (from to n : ℕ) : Type 0 where
  pub above : from ≤ n
  pub below : n < to
  pub free : used n ≡ false
  pub lower : IsFull used from n

abbrev pub Found : (ℕ → Bool) → ℕ → ℕ → Option ℕ → Type 0
Found used from to none = IsFull used from to
Found used from to (some n) = IsLowest used from to n

from_or_later :
    (used : ℕ → Bool) (from to : ℕ)
    → used from ≡ true
    → IsFull used (suc from) to
    → IsFull used from to
from_or_later used from to taken later j lo hi = elim (Bool-cases (from == j)) [
  | inl e ↦ subst (λ k. used k ≡ true) ((==_iff from j).0 e) taken
  | inr e ↦ later j (ground arith) hi
]

Found-later :
    (used : ℕ → Bool) (from to : ℕ) (o : Option ℕ)
    → used from ≡ true
    → Found used (suc from) to o
    → Found used from to o
Found-later used from to none taken f = from_or_later used from to taken f
Found-later used from to (some n) taken f = record {
  above = omega (arith, f.above);
  below = f.below;
  free = f.free;
  lower = from_or_later used from n taken f.lower;
}

first_free-Found :
    (rounds from : ℕ) (used : ℕ → Bool)
    → Found used from (from + rounds) (first_free rounds from used)
unfolding first_free
first_free-Found zero from used = λ j lo hi. absurd (omega arith)
first_free-Found (suc rounds) from used = elim (Bool-cases (used from)) [
  | inr free ↦
      rw (free, first_free)
        (record {
          above = omega arith;
          below = omega arith;
          free = free;
          lower = λ j lo hi. absurd (omega arith);
        })
  | inl taken ↦
      let e : from + suc rounds ≡ suc from + rounds = omega arith in
      rw (taken, first_free, e)
        (Found-later used from (suc from + rounds) (first_free rounds (suc from) used) taken
          (first_free-Found rounds (suc from) used))
]

pub next_free_offset-Found :
    (p : IpPool) → 3 ≤ p.size → Found p.used_ips 2 (p.size - 1) (next_free_offset p)
unfolding next_free_offset
next_free_offset-Found p h =
    let e : 2 + (p.size - 1 - 2) ≡ p.size - 1 = omega arith in
    rw e at (first_free-Found (p.size - 1 - 2) 2 p.used_ips)

pub next_free_peer_id-Found :
    (p : IpPool) → Found p.used_peer_ids 0 (max_peer_id + 1) (next_free_peer_id p)
unfolding next_free_peer_id
next_free_peer_id-Found p = first_free-Found (max_peer_id + 1) 0 p.used_peer_ids
