-- ===== src/IpPool/Leases.antt =====
-- The pool with the sessions that hold its addresses: every grant and every release is a step.
use mathlib.Core.List.{map-append}
use govpn.Base.{
  ◌↔◌, not_eq, ℕ, ◌+◌, ◌-◌, ◌^◌, ◌≤◌, ◌≡◌, sym, ◌∙◌, Bool, false, ◌==◌, List, [], ◌∷◌, ◌++◌, map,
  member, NoRepeats, member-middle, NoRepeats-middle, All, All-middle, Option, some, ok, arith,
  subst, ==_iff, Bool-cases, inl, inr,
}
use govpn.Base.Words.{sub32, IsU32}
use govpn.IpPool.{IpPool, IpNet, new_ip_pool, allocate, reserve, release, take, put}
use govpn.IpPool.Allocate.{allocate-Allocates, Allocates}
use govpn.IpPool.Reserve.{IsClient, Reserves, reserve-Reserves}

pub record Lease : Type 0 where
  pub ip : ℕ
  pub peer_id : ℕ

pub record Server : Type 0 where
  pub pool : IpPool
  pub leases : List Lease

pub data Step (s : Server) : Server → Type 0 where
  allocates :
      (ip peer_id : ℕ) (q : IpPool)
      → allocate s.pool ≡ ok (ip, peer_id, q)
      → Step s (record { pool = q; leases = record { ip = ip; peer_id = peer_id } ∷ s.leases })
  reserves :
      (ip peer_id : ℕ) (q : IpPool)
      → reserve s.pool (some ip) ≡ ok (peer_id, q)
      → Step s (record { pool = q; leases = record { ip = ip; peer_id = peer_id } ∷ s.leases })
  releases :
      (before after : List Lease) (l : Lease)
      → s.leases ≡ before ++ (l ∷ after)
      → Step s (record { pool = release s.pool (some l.ip) l.peer_id; leases = before ++ after })

pub data Reach (s : Server) : Server → Type 0 where
  here : Reach s s
  next : {t u : Server} → Reach s t → Step t u → Reach s u

abbrev pub ips : List Lease → List ℕ
ips = map λ l. l.ip

abbrev pub peer_ids : List Lease → List ℕ
peer_ids = map λ l. l.peer_id

-- The pool lies within the uint32 range and has a client address.
pub record FitsU32 (base size : ℕ) : Type 0 where
  pub large : 4 ≤ size
  pub fits : base + size ≤ 2 ^ 32
  pub word : IsU32 size

-- Exactly the leased addresses and peer ids are marked, and none is leased twice.
pub record Books (s : Server) : Type 0 where
  pub range : FitsU32 s.pool.base s.pool.size
  pub clients : All (IsClient s.pool.base s.pool.size) (ips s.leases)
  pub marked_ips : (j : ℕ) → s.pool.used_ips j ≡ member (s.pool.base + j) (ips s.leases)
  pub marked_ids : (j : ℕ) → s.pool.used_peer_ids j ≡ member j (peer_ids s.leases)
  pub distinct_ips : NoRepeats (ips s.leases)
  pub distinct_ids : NoRepeats (peer_ids s.leases)

-- One more lease, on a client address and a peer id that were free.
grant-Books :
    (s : Server) (offset ip id : ℕ)
    → Books s
    → ip ≡ s.pool.base + offset
    → IsClient s.pool.base s.pool.size ip
    → s.pool.used_ips offset ≡ false
    → s.pool.used_peer_ids id ≡ false
    → Books (record {
      pool = take s.pool offset id;
      leases = record { ip = ip; peer_id = id } ∷ s.leases;
    })
unfolding take member
grant-Books s offset ip id b e client free free_id = record {
  range = b.range;
  clients = (client, b.clients);
  marked_ips = λ j. ground (arith, b.marked_ips j);
  marked_ids = λ j. ground (arith, b.marked_ids j);
  distinct_ips = (rw e (sym (b.marked_ips offset) ∙ free), b.distinct_ips);
  distinct_ids = (sym (b.marked_ids id) ∙ free_id, b.distinct_ids);
}

-- Clearing the mark of one number that a list without repetition held.
cleared :
    (used : ℕ → Bool) (at x j k : ℕ) (xs ys : List ℕ)
    → NoRepeats (xs ++ (x ∷ ys))
    → (j ≡ at) ↔ (k ≡ x)
    → used j ≡ member k (xs ++ (x ∷ ys))
    → put used at false j ≡ member k (xs ++ ys)
cleared used at x j k xs ys distinct same e = elim (Bool-cases (k == x)) [
  | inl hit ↦
      let k_is_x = (==_iff k x).0 hit in
      rw ((==_iff j at).1 (same.1 k_is_x), k_is_x) (sym (NoRepeats-middle x xs ys distinct).0)
  | inr miss ↦
      rw (not_eq j at (λ h. absurd (ground (arith, same.0 h))))
        (e ∙ member-middle k x xs ys ∙ rw miss)
]

-- One lease less.
release-Books :
    (p : IpPool) (before after : List Lease) (l : Lease)
    → Books (record { pool = p; leases = before ++ (l ∷ after) })
    → Books (record { pool = release p (some l.ip) l.peer_id; leases = before ++ after })
unfolding release
release-Books p before after l b = record {
  range = b.range;
  clients = rw map-append split.1;
  marked_ips = λ j. rw map-append (
      cleared p.used_ips (sub32 l.ip p.base) l.ip j (p.base + j) (ips before) (ips after)
        (rw map-append at b.distinct_ips)
        (omega (arith, split.0.above, split.0.below, b.range.fits))
        (rw map-append at (b.marked_ips j)));
  marked_ids = λ j. rw map-append (
      cleared p.used_peer_ids l.peer_id l.peer_id j j (peer_ids before) (peer_ids after)
        (rw map-append at b.distinct_ids) (omega arith) (rw map-append at (b.marked_ids j)));
  distinct_ips =
      rw map-append
        (NoRepeats-middle l.ip (ips before) (ips after) (rw map-append at b.distinct_ips)).1;
  distinct_ids =
      rw map-append
        (NoRepeats-middle l.peer_id (peer_ids before) (peer_ids after)
          (rw map-append at b.distinct_ids)).1;
}
  where
    split : IsClient p.base p.size l.ip × All (IsClient p.base p.size) (ips before ++ ips after)
    split =
        All-middle (IsClient p.base p.size) l.ip (ips before) (ips after)
          (rw map-append at b.clients)

-- Every step keeps the books.
pub Step-Books : {s t : Server} → Step s t → Books s → Books t
Step-Books {s} (allocates ip peer_id q e) b =
    let g = subst (Allocates s.pool) e (allocate-Allocates s.pool (omega (arith, b.range.large))) in
    rw g.marked (
      grant-Books s g.offset ip peer_id b
        (g.address ∙ omega (arith, g.lowest.below, b.range.fits, b.range.large))
        (record {
          above = omega (arith, g.address, g.lowest.above, g.lowest.below, b.range.fits);
          below = omega (arith, g.address, g.lowest.above, g.lowest.below, b.range.fits);
        })
        g.lowest.free g.lowest_id.free)
Step-Books {s} (reserves ip peer_id q e) b =
    let g =
      subst (Reserves s.pool ip) e
        (reserve-Reserves s.pool ip (omega (arith, b.range.large)) b.range.word) in
    rw g.marked (
      grant-Books s (ip - s.pool.base) ip peer_id b (omega (arith, g.client.above)) g.client
        g.was_free g.lowest_id.free)
Step-Books {s} (releases before after l e) b =
    release-Books s.pool before after l
      (subst (λ ls. Books (record { pool = s.pool; leases = ls })) e b)

start-Books :
    (network : Option IpNet) (p : IpPool)
    → new_ip_pool network ≡ ok p
    → p.base + p.size ≤ 2 ^ 32
    → Books (record { pool = p; leases = [] })
unfolding new_ip_pool member
start-Books network p e fits = record {
  range = record { large = ground arith; fits = fits; word = ground arith };
  clients = tt;
  marked_ips = λ j. ground arith;
  marked_ids = λ j. ground arith;
  distinct_ips = tt;
  distinct_ids = tt;
}

-- However many sessions come and go, in any order, from a new pool that lies within the uint32
-- range: the leased addresses are distinct client addresses of the network, the leased peer ids are
-- distinct, and an address or a peer id is marked in use exactly when a session holds it.
pub Reach-Books :
    (network : Option IpNet) (p : IpPool)
    → new_ip_pool network ≡ ok p
    → p.base + p.size ≤ 2 ^ 32
    → {t : Server} → Reach (record { pool = p; leases = [] }) t
    → Books t
Reach-Books network p e fits here = start-Books network p e fits
Reach-Books network p e fits (next r st) = Step-Books st (Reach-Books network p e fits r)
