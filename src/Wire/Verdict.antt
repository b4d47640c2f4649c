-- ===== src/Wire/Verdict.antt =====
-- Which error a body is refused with, told from its first byte and its length alone.
use govpn.Base.{
  ℕ, zero, suc, ◌+◌, ◌*◌, ◌<◌, ◌≡◌, refl, List, [], ◌∷◌, ◌++◌, length, length-drop, Option, none,
  some, ltb, leb, ◌==◌, if◌then◌else◌, ok, err, Result, ◌>>=◌, arith, Bool-cases, inl, inr, drop,
  take, ◌⊎◌,
}
use govpn.Wire.{
  Header, ControlPacket, Error, too_short, too_many_acks, bad_opcode, max_acks, op_ack_v1,
  valid_opcode, read_packet_id, read_acks, read_remote_session_id, read_own_packet_id,
  parse_control_packet,
}

-- The bytes behind the ack count that the layout needs.
unfoldable pub needed : ℕ → ℕ → ℕ
needed opcode count =
    4 * count + (if ltb 0 count then 8 else 0) + (if opcode == op_ack_v1 then 0 else 4)

unfoldable pub verdict : List ℕ → ℕ → Option Error
unfolding needed
verdict [] opcode = if valid_opcode opcode then some too_short else some bad_opcode
verdict (n ∷ buf) opcode =
    if valid_opcode opcode
    then (if leb n max_acks
        then (if ltb (length buf) (needed opcode n) then some too_short else none)
        else some too_many_acks)
    else some bad_opcode

abbrev pub failure {ℓ} : {A : Type ℓ} → Result Error A → Option Error
failure (ok a) = none
failure (err e) = some e

read_packet_id_cases :
    (buf : List ℕ)
    → ((length buf < 4) × (read_packet_id buf ≡ err too_short))
      ⊎ ((id : ℕ) × (rest : List ℕ) × (read_packet_id buf ≡ ok (id, rest))
          × (length buf ≡ length rest + 4))
unfolding read_packet_id
read_packet_id_cases [] = inl (omega arith, refl)
read_packet_id_cases (a ∷ []) = inl (omega arith, refl)
read_packet_id_cases (a ∷ b ∷ []) = inl (omega arith, refl)
read_packet_id_cases (a ∷ b ∷ c ∷ []) = inl (omega arith, refl)
read_packet_id_cases (a ∷ b ∷ c ∷ d ∷ buf) = inr (_, buf, refl, omega arith)

read_acks_cases :
    (n : ℕ) (buf acks : List ℕ)
    → ((length buf < 4 * n) × (read_acks n buf acks ≡ err too_short))
      ⊎ ((ids : List ℕ) × (rest : List ℕ) × (read_acks n buf acks ≡ ok (ids, rest))
          × (length buf ≡ length rest + 4 * n))
unfolding read_acks
read_acks_cases zero buf acks = inr (acks, buf, refl, omega arith)
read_acks_cases (suc n) buf acks = elim (read_packet_id_cases buf) [
  | inl (short, e) ↦ inl (omega arith, rw e)
  | inr (id, rest, e, l) ↦ elim (read_acks_cases n rest (acks ++ (id ∷ []))) [
    | inl (short, e') ↦ inl (omega arith, rw (e, e'))
    | inr (ids, rest', e', l') ↦ inr (ids, rest', rw (e, e'), omega arith)
  ]
]

read_remote_cases :
    (n : ℕ) (buf : List ℕ)
    → let size : ℕ = (if ltb 0 n then 8 else 0) in
      ((length buf < size) × (read_remote_session_id n buf ≡ err too_short))
      ⊎ ((sid : List ℕ) × (rest : List ℕ) × (read_remote_session_id n buf ≡ ok (sid, rest))
          × (length buf ≡ length rest + size))
unfolding read_remote_session_id
read_remote_cases zero buf = inr (_, buf, refl, omega arith)
read_remote_cases (suc n) buf = elim (Bool-cases (ltb (length buf) 8)) [
  | inl short ↦ inl (ground arith, ground arith)
  | inr enough ↦ inr (take 8 buf, drop 8 buf, ground arith, ground (arith, length-drop 8 buf))
]

read_own_cases :
    (opcode : ℕ) (buf : List ℕ)
    → let size : ℕ = (if opcode == op_ack_v1 then 0 else 4) in
      ((length buf < size) × (read_own_packet_id opcode buf ≡ err too_short))
      ⊎ ((id : ℕ) × (rest : List ℕ) × (read_own_packet_id opcode buf ≡ ok (id, rest))
          × (length buf ≡ length rest + size))
unfolding read_own_packet_id
read_own_cases opcode buf = elim (Bool-cases (opcode == op_ack_v1)) [
  | inl ack ↦ rw ack (inr (0, buf, refl, omega arith))
  | inr other ↦ rw other (read_packet_id_cases buf)
]

module _ (n : ℕ) (buf : List ℕ) (hdr : Header) where
  -- The reads behind the two tests.
  fields : Result Error ControlPacket
  fields = do
    (acks, b₂) ← read_acks n buf []
    (remote, b₃) ← read_remote_session_id n b₂
    (id, b₄) ← read_own_packet_id hdr.opcode b₃
    ok (record {
      opcode = hdr.opcode;
      key_id = hdr.key_id;
      session_id = hdr.session_id;
      acks = acks;
      remote_session_id = remote;
      packet_id = id;
      payload = b₄;
    })

  fields-failure :
      failure fields ≡ (if ltb (length buf) (needed hdr.opcode n) then some too_short else none)
  unfolding fields needed
  fields-failure = elim (read_acks_cases n buf []) [
    | inl (short, e) ↦ rw e (ground arith)
    | inr (acks, b₂, e, l) ↦ rw e (elim (read_remote_cases n b₂) [
      | inl (short, e') ↦ rw e' (ground arith)
      | inr (sid, b₃, e', l') ↦ rw e' (elim (read_own_cases hdr.opcode b₃) [
        | inl (short, e'') ↦ rw e'' (ground arith)
        | inr (id, b₄, e'', l'') ↦ rw e'' (ground arith)
      ])
    ])
  ]

-- Parsing fails exactly as the verdict says, and with its error: an opcode out of range first, then
-- an empty body, then more than eight acks, then a body shorter than its layout needs; in all
-- other cases it succeeds.
pub parse_control_packet-verdict :
    (plaintext : List ℕ) (hdr : Header)
    → failure (parse_control_packet plaintext hdr) ≡ verdict plaintext hdr.opcode
unfolding parse_control_packet verdict
parse_control_packet-verdict [] hdr = elim (Bool-cases (valid_opcode hdr.opcode)) [
  | inl legal ↦ rw legal
  | inr bad ↦ rw bad
]
parse_control_packet-verdict (n ∷ buf) hdr = elim (Bool-cases (valid_opcode hdr.opcode)) [
  | inr bad ↦ rw bad
  | inl legal ↦ rw legal (elim (Bool-cases (leb n max_acks)) [
    | inr many ↦ rw many
    | inl few ↦ rw few (unfold fields in fields-failure n buf hdr)
  ])
]
