-- ===== src/IpPool.antt =====
-- ippool.go: the allocator of tunnel addresses and peer ids.
-- A map[uint32]bool is a function, since an absent key reads as false. An address is its uint32, or
-- `none` where `To4` answers nil. The pool's lock leaves no interleaving inside an operation.
pub mod Search
pub mod Allocate
pub mod Reserve
pub mod Leases
pub mod Runs
use govpn.Base.{
  ◌>>=◌, ◌>>◌, ℕ, zero, suc, ◌+◌, ◌-◌, ◌%◌, ◌^◌, Bool, true, false, not, ◌||◌, ltb, leb, ◌==◌,
  if◌then◌else◌, Option, none, some, Result, ok, err, guard,
}
use govpn.Base.Words.{add32, sub32}

abbrev pub max_peer_id : ℕ
max_peer_id = 0xFF_FFFF

pub data Error : Type 0 where
  pool_exhausted : Error
  assign_ip_not_ipv4 assign_ip_outside_network assign_ip_reserved assign_ip_in_use : Error
  network_unset network_not_ipv4 network_too_small : Error

pub record IpPool : Type 0 where
  pub base : ℕ
  pub size : ℕ
  pub used_ips : ℕ → Bool
  pub used_peer_ids : ℕ → Bool

-- `m[k] = v`; `delete(m, k)` is `put m k false`.
abbrev pub put : (ℕ → Bool) → ℕ → Bool → ℕ → Bool
put m k v j = if j == k then v else m j

-- What `newIPPool` reads of a `*net.IPNet`: `To4` of its address, the length of its mask, and the
-- prefix length and bit count that `Mask.Size` gives of the normalized mask.
pub record IpNet : Type 0 where
  pub ip4 : Option ℕ
  pub mask_len : ℕ
  pub ones : ℕ
  pub bits : ℕ

-- The length of `normalizeIPv4Mask`: a 16-byte mask is cut to its last four bytes.
normalized_len : ℕ → ℕ
normalized_len len = if len == 16 then 4 else len

-- `uint32(1) << uint(32-ones)`.
pool_size : ℕ → ℕ
pool_size ones = 2 ^ (32 - ones) % 2 ^ 32

checked_pool : ℕ → IpNet → Result Error IpPool
unfolding normalized_len pool_size
checked_pool ip4 network = do
  guard (normalized_len network.mask_len == 4) network_not_ipv4
  guard (network.bits == 32) network_not_ipv4
  guard (not (ltb (pool_size network.ones) 4)) network_too_small
  ok (record {
    base = ip4;
    size = pool_size network.ones;
    used_ips = λ _. false;
    used_peer_ids = λ _. false;
  })

unfoldable pub new_ip_pool : Option IpNet → Result Error IpPool
unfolding checked_pool
new_ip_pool none = err network_unset
new_ip_pool (some network) = elim network.ip4 [
  | none ↦ err network_not_ipv4
  | some ip4 ↦ checked_pool ip4 network
]

-- `offsetToIP` is the identity on the uint32.
unfoldable pub server_ip : IpPool → ℕ
server_ip p = add32 p.base 1

-- `for o := from; rounds > 0; o++ { if !used[o] { return o, true } }`
pub first_free : ℕ → ℕ → (ℕ → Bool) → Option ℕ
first_free zero from used = none
first_free (suc rounds) from used = elim (used from) [
  | false ↦ some from
  | true ↦ first_free rounds (suc from) used
]

-- `o` runs from 2 up to `size-2`.
pub next_free_offset : IpPool → Option ℕ
next_free_offset p = first_free (p.size - 1 - 2) 2 p.used_ips

-- `id` runs from 0 up to `maxPeerID`.
pub next_free_peer_id : IpPool → Option ℕ
next_free_peer_id p = first_free (max_peer_id + 1) 0 p.used_peer_ids

-- Marks both in use.
pub take : IpPool → ℕ → ℕ → IpPool
take p offset peer_id = record p {
  used_ips = put p.used_ips offset true;
  used_peer_ids = put p.used_peer_ids peer_id true;
}

or_exhausted : Option ℕ → Result Error ℕ
or_exhausted none = err pool_exhausted
or_exhausted (some n) = ok n

-- The address and the peer id, with the pool after the call. An error leaves the pool as it was.
pub allocate : IpPool → Result Error (ℕ × ℕ × IpPool)
unfolding or_exhausted
allocate p = do
  offset ← or_exhausted (next_free_offset p)
  peer_id ← or_exhausted (next_free_peer_id p)
  ok (add32 p.base offset, peer_id, take p offset peer_id)

reserve_offset : IpPool → ℕ → Result Error (ℕ × IpPool)
unfolding or_exhausted
reserve_offset p offset = do
  guard (not (leb p.size offset)) assign_ip_outside_network
  guard (not (offset == 0 || offset == 1 || offset == sub32 p.size 1)) assign_ip_reserved
  guard (not (p.used_ips offset)) assign_ip_in_use
  peer_id ← or_exhausted (next_free_peer_id p)
  ok (peer_id, take p offset peer_id)

pub reserve : IpPool → Option ℕ → Result Error (ℕ × IpPool)
unfolding reserve_offset
reserve p none = err assign_ip_not_ipv4
reserve p (some v) = do
  guard (not (ltb v p.base)) assign_ip_outside_network
  reserve_offset p (v - p.base)

pub release : IpPool → Option ℕ → ℕ → IpPool
release p none peer_id = record p { used_peer_ids = put p.used_peer_ids peer_id false }
release p (some v) peer_id = record p {
  used_ips = put p.used_ips (sub32 v p.base) false;
  used_peer_ids = put p.used_peer_ids peer_id false;
}
