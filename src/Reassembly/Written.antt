-- ===== src/Reassembly/Written.antt =====
-- The bytes that the copy of a fragment leaves in a buffer.
use govpn.Base.{
  ℕ, ◌+◌, ◌-◌, ◌≤◌, ◌<◌, ◌≡◌, sym, ap, ◌∙◌, ◌⊎◌, inl, inr, List, ◌++◌, length, take, drop, elem_at,
  length-append, length-take, elem_at-append, elem_at-append_right, elem_at-take, elem_at-drop,
  arith,
}
use govpn.Reassembly.{write_at}
use govpn.Reassembly.Store.{zeros, length-zeros}

module _ (first : ℕ) (payload data_bytes : List ℕ) where
  abbrev grown : List ℕ
  grown = data_bytes ++ zeros (first + length payload - length data_bytes)

  abbrev front : List ℕ
  front = take first grown

  abbrev behind : List ℕ
  behind = drop (first + length payload) grown

  length-front : length front ≡ first
  length-front = omega (
    arith,
    length-take first grown,
    length-append data_bytes (zeros (first + length payload - length data_bytes)),
    length-zeros (first + length payload - length data_bytes),
  )

  pub elem_at-write_at :
      (j : ℕ)
      → j < length payload
      → elem_at (write_at first payload data_bytes) (first + j) ≡ elem_at payload j
  elem_at-write_at j h =
      ap (λ n. elem_at (write_at first payload data_bytes) (n + j)) (sym length-front)
      ∙ elem_at-append_right front (payload ++ behind) j
      ∙ elem_at-append payload behind j h

  pub elem_at-write_at_elsewhere :
      (j : ℕ)
      → j < length data_bytes
      → (j < first) ⊎ (first + length payload ≤ j)
      → elem_at (write_at first payload data_bytes) j ≡ elem_at data_bytes j
  elem_at-write_at_elsewhere j h (inl before) =
      elem_at-append front (payload ++ behind) j (omega (arith, length-front))
      ∙ elem_at-take first grown j before
      ∙ elem_at-append data_bytes _ j h
  elem_at-write_at_elsewhere j h (inr after) =
      let k : ℕ = j - (first + length payload) in
      let there : j ≡ length front + (length payload + k) = omega (arith, length-front, after) in
      let here : first + length payload + k ≡ j = omega (arith, after) in
      ap (elem_at (write_at first payload data_bytes)) there
      ∙ elem_at-append_right front (payload ++ behind) (length payload + k)
      ∙ elem_at-append_right payload behind k
      ∙ elem_at-drop (first + length payload) grown k
      ∙ ap (elem_at grown) here
      ∙ elem_at-append data_bytes _ j h
