-- ===== src/IpPool/Allocate.antt =====
-- `allocate`: the lowest free address and the lowest free peer id, or exhaustion.
use govpn.Base.{ℕ, ◌+◌, ◌-◌, ◌≤◌, ◌≡◌, refl, ◌⊎◌, inl, inr, Option-cases, Result, ok, err, subst}
use govpn.Base.Words.{add32}
use govpn.IpPool.{
  IpPool, Error, pool_exhausted, max_peer_id, next_free_offset, next_free_peer_id, take, allocate,
}
use govpn.IpPool.Search.{IsFull, IsLowest, Found, next_free_offset-Found, next_free_peer_id-Found}

-- What a call hands out: an offset and a peer id, each the lowest free one, now marked.
pub record Grants (p : IpPool) (ip peer_id : ℕ) (q : IpPool) : Type 0 where
  pub offset : ℕ
  pub lowest : IsLowest p.used_ips 2 (p.size - 1) offset
  pub address : ip ≡ add32 p.base offset
  pub lowest_id : IsLowest p.used_peer_ids 0 (max_peer_id + 1) peer_id
  pub marked : q ≡ take p offset peer_id

-- Nothing is left: every client address or every peer id is in use.
abbrev pub IsExhausted : IpPool → Type 0
IsExhausted p = IsFull p.used_ips 2 (p.size - 1) ⊎ IsFull p.used_peer_ids 0 (max_peer_id + 1)

abbrev pub Allocates : IpPool → Result Error (ℕ × ℕ × IpPool) → Type 0
Allocates p (ok (ip, peer_id, q)) = Grants p ip peer_id q
Allocates p (err e) = (e ≡ pool_exhausted) × IsExhausted p

-- On a pool of at least three addresses `allocate` hands out the lowest free offset between the
-- server's address and the broadcast address together with the lowest free peer id, and marks just
-- these two; it fails only with `pool_exhausted`, and only if all offsets or all peer ids are used.
pub allocate-Allocates : (p : IpPool) → 3 ≤ p.size → Allocates p (allocate p)
unfolding allocate
allocate-Allocates p h = elim (Option-cases (next_free_offset p)) [
  | inl none_left ↦
      rw none_left (refl, inl (subst (Found _ _ _) none_left (next_free_offset-Found p h)))
  | inr (o, found) ↦ elim (Option-cases (next_free_peer_id p)) [
    | inl none_left ↦
        rw (found, none_left)
          (refl, inr (subst (Found _ _ _) none_left (next_free_peer_id-Found p)))
    | inr (id, found_id) ↦
        rw (found, found_id)
          (record {
            offset = o;
            lowest = subst (Found _ _ _) found (next_free_offset-Found p h);
            address = refl;
            lowest_id = subst (Found _ _ _) found_id (next_free_peer_id-Found p);
            marked = refl;
          })
  ]
]
