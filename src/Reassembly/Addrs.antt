-- ===== src/Reassembly/Addrs.antt =====
-- The source and the destination that a datagram has in its header, and in the header rebuilt.
use govpn.Base.{
  elem_at-set, elem_at-append, ℕ, suc, ◌+◌, ◌≤◌, ◌<◌, ◌≡◌, ◌∙◌, List, length, set, elem_at, arith,
}
use govpn.Frame.{Addr}
use govpn.Ipv4.{addr_at, put_uint16}
use govpn.Reassembly.{}
use govpn.Reassembly.Add.{rebuild}

-- Two lists with the same bytes from an index on have the same address there.
abbrev pub SameFrom : ℕ → ℕ → List ℕ → List ℕ → Type 0
SameFrom from to xs ys = (j : ℕ) → from ≤ j → j < to → elem_at xs j ≡ elem_at ys j

pub addr_at-SameFrom :
    (xs ys : List ℕ) (k : ℕ) → SameFrom k (k + 4) xs ys → addr_at xs k ≡ addr_at ys k
addr_at-SameFrom xs ys k same = λ i. record {
  b₀ = same k (omega arith) (omega arith) i;
  b₁ = same (k + 1) (omega arith) (omega arith) i;
  b₂ = same (k + 2) (omega arith) (omega arith) i;
  b₃ = same (k + 3) (omega arith) (omega arith) i;
}

put_uint16-SameFrom : (xs : List ℕ) (k v : ℕ) → k ≤ 10 → SameFrom 12 20 (put_uint16 xs k v) xs
put_uint16-SameFrom xs k v h j from to =
    elem_at-set (set xs k _) (suc k) _ j (omega arith) ∙ elem_at-set xs k _ j (omega arith)

-- The addresses of a header.
pub record HasAddrs (src dst : Addr) (header : List ℕ) : Type 0 where
  pub from : addr_at header 12 ≡ src
  pub to : addr_at header 16 ≡ dst

SameFrom-HasAddrs :
    (src dst : Addr) (xs ys : List ℕ)
    → SameFrom 12 20 xs ys
    → HasAddrs src dst ys
    → HasAddrs src dst xs
SameFrom-HasAddrs src dst xs ys same h = record {
  from = addr_at-SameFrom xs ys 12 (λ j l u. same j l (omega arith)) ∙ h.from;
  to = addr_at-SameFrom xs ys 16 (λ j l u. same j (omega arith) (omega arith)) ∙ h.to;
}

pub rebuild-HasAddrs :
    (src dst : Addr) (header bytes : List ℕ)
    → 20 ≤ length header
    → HasAddrs src dst header
    → HasAddrs src dst (rebuild header bytes)
unfolding rebuild
rebuild-HasAddrs src dst header bytes long h =
    SameFrom-HasAddrs src dst _ header
      (λ j l u.
        put_uint16-SameFrom _ 10 _ (omega arith) j l u
        ∙ put_uint16-SameFrom _ 10 0 (omega arith) j l u
        ∙ put_uint16-SameFrom _ 6 0 (omega arith) j l u
        ∙ put_uint16-SameFrom _ 2 _ (omega arith) j l u
        ∙ elem_at-append header bytes j (omega arith))
      h
