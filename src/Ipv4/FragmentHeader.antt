-- ===== src/Ipv4/FragmentHeader.antt =====
-- The fields of a fragment's header after all the writes.
use govpn.Base.{ℕ, ◌≤◌, ◌<◌, ◌≡◌, ◌⊎◌, inl, ◌∙◌, List, length, drop, elem_at, arith}
use govpn.Base.Words.{uint16_of, IsU16}
use govpn.Ipv4.{put_uint16}
use govpn.Ipv4.Writes.{
  length-put_uint16, drop-put_uint16, elem_at-put_uint16, uint16_of-put_uint16,
  uint16_of-put_elsewhere,
}

module _ (b : List ℕ) (n id flags checksum : ℕ) where
  -- The five writes of a fragment's header.
  abbrev pub writes : List ℕ
  writes =
      put_uint16 (put_uint16 (put_uint16 (put_uint16 (put_uint16 b 2 n) 4 id) 6 flags) 10 0) 10
        checksum

  pub length-writes : length writes ≡ length b
  length-writes = omega (
    arith,
    length-put_uint16 (put_uint16 (put_uint16 (put_uint16 (put_uint16 b 2 n) 4 id) 6 flags) 10 0) 10
        checksum,
    length-put_uint16 (put_uint16 (put_uint16 (put_uint16 b 2 n) 4 id) 6 flags) 10 0,
    length-put_uint16 (put_uint16 (put_uint16 b 2 n) 4 id) 6 flags,
    length-put_uint16 (put_uint16 b 2 n) 4 id,
    length-put_uint16 b 2 n,
  )

  pub drop-writes : (k : ℕ) → 11 < k → drop k writes ≡ drop k b
  drop-writes k h =
      drop-put_uint16 (put_uint16 (put_uint16 (put_uint16 (put_uint16 b 2 n) 4 id) 6 flags) 10 0) 10
        checksum k (omega arith)
      ∙ drop-put_uint16 (put_uint16 (put_uint16 (put_uint16 b 2 n) 4 id) 6 flags) 10 0 k
          (omega arith)
      ∙ drop-put_uint16 (put_uint16 (put_uint16 b 2 n) 4 id) 6 flags k (omega arith)
      ∙ drop-put_uint16 (put_uint16 b 2 n) 4 id k (omega arith)
      ∙ drop-put_uint16 b 2 n k (omega arith)

  pub elem_at-writes :
      (j : ℕ) → (j < 2) ⊎ (((7 < j) × (j < 10)) ⊎ (11 < j)) → elem_at writes j ≡ elem_at b j
  elem_at-writes j h =
      elem_at-put_uint16 (put_uint16 (put_uint16 (put_uint16 (put_uint16 b 2 n) 4 id) 6 flags) 10 0)
        10 checksum j (ground arith)
      ∙ elem_at-put_uint16 (put_uint16 (put_uint16 (put_uint16 b 2 n) 4 id) 6 flags) 10 0 j
          (ground arith)
      ∙ elem_at-put_uint16 (put_uint16 (put_uint16 b 2 n) 4 id) 6 flags j (ground arith)
      ∙ elem_at-put_uint16 (put_uint16 b 2 n) 4 id j (ground arith)
      ∙ elem_at-put_uint16 b 2 n j (ground arith)

  module _ (long : 20 ≤ length b) where
    checksum_elsewhere :
        (j : ℕ)
        → j < 8
        → uint16_of (drop j writes)
          ≡ uint16_of (drop j (put_uint16 (put_uint16 (put_uint16 b 2 n) 4 id) 6 flags))
    checksum_elsewhere j h =
        let l₁ = length-put_uint16 b 2 n in
        let l₂ = length-put_uint16 (put_uint16 b 2 n) 4 id in
        let l₃ = length-put_uint16 (put_uint16 (put_uint16 b 2 n) 4 id) 6 flags in
        let l₄ = length-put_uint16 (put_uint16 (put_uint16 (put_uint16 b 2 n) 4 id) 6 flags) 10 0 in
        uint16_of-put_elsewhere
          (put_uint16 (put_uint16 (put_uint16 (put_uint16 b 2 n) 4 id) 6 flags) 10 0) 10 checksum j
          (omega (arith, l₁, l₂, l₃, l₄)) (inl (omega arith))
        ∙ uint16_of-put_elsewhere (put_uint16 (put_uint16 (put_uint16 b 2 n) 4 id) 6 flags) 10 0 j
            (omega (arith, l₁, l₂, l₃)) (inl (omega arith))

    pub flags-writes : IsU16 flags → uint16_of (drop 6 writes) ≡ flags
    flags-writes h =
        checksum_elsewhere 6 (omega arith)
        ∙ uint16_of-put_uint16 (put_uint16 (put_uint16 b 2 n) 4 id) 6 flags
            (omega (arith, length-put_uint16 b 2 n, length-put_uint16 (put_uint16 b 2 n) 4 id)) h

    pub id-writes : IsU16 id → uint16_of (drop 4 writes) ≡ id
    id-writes h =
        checksum_elsewhere 4 (omega arith)
        ∙ uint16_of-put_elsewhere (put_uint16 (put_uint16 b 2 n) 4 id) 6 flags 4
            (omega (arith, length-put_uint16 b 2 n, length-put_uint16 (put_uint16 b 2 n) 4 id))
            (inl (omega arith))
        ∙ uint16_of-put_uint16 (put_uint16 b 2 n) 4 id (omega (arith, length-put_uint16 b 2 n)) h

    pub length_field-writes : IsU16 n → uint16_of (drop 2 writes) ≡ n
    length_field-writes h =
        checksum_elsewhere 2 (omega arith)
        ∙ uint16_of-put_elsewhere (put_uint16 (put_uint16 b 2 n) 4 id) 6 flags 2
            (omega (arith, length-put_uint16 b 2 n, length-put_uint16 (put_uint16 b 2 n) 4 id))
            (inl (omega arith))
        ∙ uint16_of-put_elsewhere (put_uint16 b 2 n) 4 id 2 (omega (arith, length-put_uint16 b 2 n))
            (inl (omega arith))
        ∙ uint16_of-put_uint16 b 2 n (omega arith) h
