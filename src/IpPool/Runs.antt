-- ===== src/IpPool/Runs.antt =====
-- The pool of ippool.go on a /29 network, 10.8.0.0.
use govpn.Base.{◌≡◌, refl, false, [], ◌∷◌, some, ok, err, arith}
use govpn.IpPool.{
  IpPool, IpNet, assign_ip_reserved, new_ip_pool, allocate, reserve, release, take, first_free,
  next_free_offset, next_free_peer_id,
}
use govpn.IpPool.Allocate.{Allocates, allocate-Allocates}
use govpn.IpPool.Reserve.{Reserves, reserve-Reserves}
use govpn.IpPool.Leases.{Server, Books, allocates, here, next, Reach-Books}

abbrev network : IpNet
network = record { ip4 = some 0x0a08_0000; mask_len = 16; ones = 29; bits = 32 }

abbrev pool : IpPool
pool = record { base = 0x0a08_0000; size = 8; used_ips = λ _. false; used_peer_ids = λ _. false }

new_pool : new_ip_pool (some network) ≡ ok pool
unfolding new_ip_pool
new_pool = refl

first_grant : allocate pool ≡ ok (0x0a08_0002, 0, take pool 2 0)
unfolding allocate next_free_offset next_free_peer_id first_free
first_grant = refl

-- After the first client leaves, the second gets its address.
reuse :
    allocate (release (take pool 2 0) (some 0x0a08_0002) 0)
    ≡ ok (0x0a08_0002, 0, take (release (take pool 2 0) (some 0x0a08_0002) 0) 2 0)
unfolding allocate next_free_offset next_free_peer_id first_free release take
reuse = refl

reserved_server : reserve pool (some 0x0a08_0001) ≡ err assign_ip_reserved
unfolding reserve
reserved_server = refl

allocate-Allocates_example : Allocates pool (ok (0x0a08_0002, 0, take pool 2 0))
unfolding allocate next_free_offset next_free_peer_id first_free
allocate-Allocates_example = allocate-Allocates pool (omega arith)

reserve-Reserves_example : Reserves pool 0x0a08_0001 (err assign_ip_reserved)
unfolding reserve
reserve-Reserves_example = reserve-Reserves pool 0x0a08_0001 (omega arith) (omega arith)

abbrev one_client : Server
one_client = record { pool = take pool 2 0; leases = record { ip = 0x0a08_0002; peer_id = 0 } ∷ [] }

Reach-Books_example : Books one_client
Reach-Books_example =
    Reach-Books (some network) pool new_pool (omega arith)
      (next here (allocates 0x0a08_0002 0 (take pool 2 0) first_grant))
