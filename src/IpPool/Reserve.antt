-- ===== src/IpPool/Reserve.antt =====
-- `reserve`: every answer and what it says of the address that was asked for.
use govpn.Base.{
  ℕ, ◌+◌, ◌-◌, ◌≤◌, ◌<◌, ◌≡◌, refl, ◌⊎◌, inl, inr, Bool, true, false, not, ◌||◌, ltb, leb, ◌==◌,
  Bool-cases, some, Option-cases, Result, ok, err, guard, ◌>>=◌, ◌>>◌, arith, subst,
}
use govpn.Base.Words.{sub32, IsU32}
use govpn.IpPool.{
  IpPool, Error, pool_exhausted, assign_ip_outside_network, assign_ip_reserved, assign_ip_in_use,
  max_peer_id, next_free_peer_id, take, reserve, or_exhausted,
}
use govpn.IpPool.Search.{IsFull, IsLowest, Found, next_free_peer_id-Found}

-- An address that a client can have.
pub record IsClient (base size v : ℕ) : Type 0 where
  pub above : base + 2 ≤ v
  pub below : v + 1 < base + size

pub record Reserved (p : IpPool) (v peer_id : ℕ) (q : IpPool) : Type 0 where
  pub client : IsClient p.base p.size v
  pub was_free : p.used_ips (v - p.base) ≡ false
  pub lowest_id : IsLowest p.used_peer_ids 0 (max_peer_id + 1) peer_id
  pub marked : q ≡ take p (v - p.base) peer_id

-- The network address, the server's, or the broadcast address.
abbrev pub IsSpecial : IpPool → ℕ → Type 0
IsSpecial p v = (v ≡ p.base) ⊎ ((v ≡ p.base + 1) ⊎ (v + 1 ≡ p.base + p.size))

abbrev pub Refusal : IpPool → ℕ → Error → Type 0
Refusal p v assign_ip_outside_network = (v < p.base) ⊎ (p.base + p.size ≤ v)
Refusal p v assign_ip_reserved = IsSpecial p v
Refusal p v assign_ip_in_use = IsClient p.base p.size v × (p.used_ips (v - p.base) ≡ true)
Refusal p v pool_exhausted =
    IsClient p.base p.size v
    × (p.used_ips (v - p.base) ≡ false)
    × IsFull p.used_peer_ids 0 (max_peer_id + 1)
Refusal p v _ = ⊥

abbrev pub Reserves : IpPool → ℕ → Result Error (ℕ × IpPool) → Type 0
Reserves p v (ok (peer_id, q)) = Reserved p v peer_id q
Reserves p v (err e) = Refusal p v e

module _ (p : IpPool) (v : ℕ) (client : IsClient p.base p.size v) where
  last_checks : Reserves p v (do
    guard (not (p.used_ips (v - p.base))) assign_ip_in_use
    peer_id ← or_exhausted (next_free_peer_id p)
    ok (peer_id, take p (v - p.base) peer_id))
  unfolding or_exhausted
  last_checks = elim (Bool-cases (p.used_ips (v - p.base))) [
    | inl used ↦ rw used (client, used)
    | inr free ↦ rw free (elim (Option-cases (next_free_peer_id p)) [
      | inl none_left ↦
          rw none_left (client, free, subst (Found _ _ _) none_left (next_free_peer_id-Found p))
      | inr (id, found) ↦ rw found (record {
        client = client;
        was_free = free;
        lowest_id = subst (Found _ _ _) found (next_free_peer_id-Found p);
        marked = refl;
      })
    ])
  ]

-- For a pool within the uint32 range, `reserve` of an IPv4 address succeeds only on a free client
-- address, marks it with the lowest free peer id and nothing else, and each error says what is
-- wrong with the address: outside the network, special, in use, or no peer id left.
pub reserve-Reserves :
    (p : IpPool) (v : ℕ) → 1 ≤ p.size → IsU32 p.size → Reserves p v (reserve p (some v))
unfolding reserve
reserve-Reserves p v h w = elim (Bool-cases (ltb v p.base)) [
  | inl low ↦ rw low (inl (ground arith))
  | inr at_least ↦ rw at_least (elim (Bool-cases (leb p.size (v - p.base))) [
    | inl high ↦ rw high (inr (ground arith))
    | inr inside ↦ rw inside (elim (Bool-cases (special (v - p.base))) [
      | inl bad ↦ rw bad (ground arith)
      | inr fine ↦ rw fine (last_checks p v (ground arith))
    ])
  ])
]
  where
    special : ℕ → Bool
    special offset = offset == 0 || offset == 1 || offset == sub32 p.size 1
