-- ===== src/Reassembly/Store.antt =====
-- The bytes that the buffers of the map hold, under the changes of the map.
use govpn.Base.{
  ℕ, zero, suc, replicate, ◌+◌, ◌-◌, ◌≤◌, true, ltb, ◌≡◌, refl, ap, Option, some, List, [], ◌∷◌,
  ◌++◌, length, take, drop, Bool-cases, inl, inr, length-append, length-take, length-drop, arith,
}
use govpn.Reassembly.{
  ReassemblyKey, ReassemblyBuffer, same_key, find, replace, remove, expire, write_at,
}

abbrev pub zeros : ℕ → List ℕ
zeros n = replicate n 0

pub length-zeros : (n : ℕ) → length (zeros n) ≡ n
length-zeros zero = refl
length-zeros (suc n) = ap suc (length-zeros n)

unfoldable pub sum_data : List (ReassemblyKey × ReassemblyBuffer) → ℕ
sum_data [] = 0
sum_data ((k, b) ∷ bufs) = length b.data_bytes + sum_data bufs

same_data :
    (b c : ReassemblyBuffer)
    → ◌≡◌ {A = Option ReassemblyBuffer} (some b) (some c)
    → length b.data_bytes ≡ length c.data_bytes
same_data b c h = let e : b ≡ c = cc in ap (λ (x : ReassemblyBuffer). length x.data_bytes) e

pub remove-sum_data :
    (key : ReassemblyKey) (b : ReassemblyBuffer) (bufs : List (ReassemblyKey × ReassemblyBuffer))
    → find key bufs ≡ some b
    → (sum_data (remove key bufs) + length b.data_bytes ≡ sum_data bufs)
      × (length (remove key bufs) ≤ length bufs)
unfolding find remove sum_data
remove-sum_data key b [] h = absurd cc
remove-sum_data key b ((k, c) ∷ bufs) h = elim (Bool-cases (same_key key k)) [
  | inl same ↦
      let e : length c.data_bytes ≡ length b.data_bytes = same_data c b (rw same at h) in
      rw same (omega (arith, e), omega arith)
  | inr not_same ↦
      let (s, l) = remove-sum_data key b bufs (rw not_same at h) in
      rw not_same (omega (arith, s), omega (arith, l))
]

pub replace-sum_data :
    (key : ReassemblyKey) (b c : ReassemblyBuffer) (bufs : List (ReassemblyKey × ReassemblyBuffer))
    → find key bufs ≡ some b
    → (sum_data (replace key c bufs) + length b.data_bytes ≡ sum_data bufs + length c.data_bytes)
      × (length (replace key c bufs) ≡ length bufs)
      × (find key (replace key c bufs) ≡ some c)
unfolding find replace sum_data
replace-sum_data key b c [] h = absurd cc
replace-sum_data key b c ((k, x) ∷ bufs) h = elim (Bool-cases (same_key key k)) [
  | inl same ↦
      let e : length x.data_bytes ≡ length b.data_bytes = same_data x b (rw same at h) in
      rw (same, same) (omega (arith, e), refl, refl)
  | inr not_same ↦
      let (s, l, f) = replace-sum_data key b c bufs (rw not_same at h) in
      rw (not_same, not_same) (omega (arith, s), omega (arith, l), f)
]

pub expire-sum_data :
    (now extra : ℕ) (bufs : List (ReassemblyKey × ReassemblyBuffer)) (bytes : ℕ)
    → bytes ≡ extra + sum_data bufs
    → ((expire now bufs bytes).1 ≡ extra + sum_data (expire now bufs bytes).0)
      × (length (expire now bufs bytes).0 ≤ length bufs)
      × ((expire now bufs bytes).1 ≤ bytes)
unfolding expire sum_data
expire-sum_data now extra [] bytes h = (h, omega arith, omega arith)
expire-sum_data now extra ((k, b) ∷ bufs) bytes h =
    let (s, l, m) = expire-sum_data now (extra + length b.data_bytes) bufs bytes (omega arith) in
    elim (Bool-cases (ltb now b.expires)) [
      | inl live ↦ rw live (omega (arith, s), omega (arith, l), m)
      | inr dead ↦ rw dead (omega (arith, s), omega (arith, l), omega (arith, m))
    ]

pub same_key_refl : (k : ReassemblyKey) → same_key k k ≡ true
unfolding same_key
same_key_refl k = ground arith

-- A write grows the data to the end of the payload, and no further.
pub length-write_at :
    (first : ℕ) (payload data_bytes : List ℕ)
    → length (write_at first payload data_bytes)
      ≡ length data_bytes + (first + length payload - length data_bytes)
length-write_at first payload data_bytes =
    let n : ℕ = first + length payload - length data_bytes in
    let grown : List ℕ = data_bytes ++ zeros n in
    omega (
      arith,
      length-append (take first grown) (payload ++ drop (first + length payload) grown),
      length-append payload (drop (first + length payload) grown),
      length-take first grown,
      length-drop (first + length payload) grown,
      length-append data_bytes (zeros n),
      length-zeros n,
    )
