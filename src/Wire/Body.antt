-- ===== src/Wire/Body.antt =====
-- The body as a plain concatenation, and what each read does with a prefix that was written.
use govpn.Base.{
  ℕ, ◌%◌, ◌≡◌, sym, ap, ◌∙◌, List, [], ◌∷◌, ◌++◌, append-nil, append_assoc, length, length-append,
  take-append_length, drop-append_length, replicate, All, ltb, ◌==◌, if◌then◌else◌, ok, arith,
  Bool-cases, ==_iff, inl, inr,
}
use govpn.Base.Words.{IsU32, be32, from_be32-be32}
use govpn.Wire.{
  ControlPacket, session_id_size, op_ack_v1, read_packet_id, read_acks, read_remote_session_id,
  read_own_packet_id, append_acks, append_plaintext,
}

-- The wire form of an ack array.
abbrev pub acks_bytes : List ℕ → List ℕ
acks_bytes [] = []
acks_bytes (id ∷ ids) = be32 id ++ acks_bytes ids

abbrev pub remote_bytes : List ℕ → List ℕ → List ℕ
remote_bytes [] sid = []
remote_bytes (id ∷ ids) sid = sid

abbrev pub own_id_bytes : ℕ → ℕ → List ℕ
own_id_bytes opcode id = if opcode == op_ack_v1 then [] else be32 id

-- ack count, ack array, remote session id, own packet id, payload.
abbrev pub body : ControlPacket → List ℕ
body p =
    (length p.acks % 256)
    ∷ (acks_bytes p.acks
        ++ (remote_bytes p.acks p.remote_session_id
            ++ (own_id_bytes p.opcode p.packet_id ++ p.payload)))

append_acks_lem : (dst ids : List ℕ) → append_acks dst ids ≡ dst ++ acks_bytes ids
unfolding append_acks
append_acks_lem dst [] = sym (append-nil dst)
append_acks_lem dst (id ∷ ids) =
    append_acks_lem (dst ++ be32 id) ids ∙ append_assoc dst (be32 id) (acks_bytes ids)

if_acks :
    (d ids sid : List ℕ) → (if ltb 0 (length ids) then d ++ sid else d) ≡ d ++ remote_bytes ids sid
if_acks d [] sid = sym (append-nil d)
if_acks d (id ∷ ids) sid = ground arith

if_ack_opcode :
    (d : List ℕ) (opcode id : ℕ)
    → (if opcode == op_ack_v1 then d else d ++ be32 id) ≡ d ++ own_id_bytes opcode id
if_ack_opcode d opcode id = elim (Bool-cases (opcode == op_ack_v1)) [
  | inl e ↦ rw e (sym (append-nil d))
  | inr e ↦ rw e
]

-- `append_plaintext` appends the body to `dst`.
pub append_plaintext-body :
    (p : ControlPacket) (dst : List ℕ) → append_plaintext p dst ≡ dst ++ body p
unfolding append_plaintext
append_plaintext-body p dst = simp (if_ack_opcode, if_acks) (simp (append_acks_lem, append_assoc))

-- Each read takes off what was written, and leaves the rest.
pub read_packet_id-be32 :
    (id : ℕ) (rest : List ℕ) → IsU32 id → read_packet_id (be32 id ++ rest) ≡ ok (id, rest)
unfolding read_packet_id
read_packet_id-be32 id rest h = ap (λ (v : ℕ). ok (v, rest)) (from_be32-be32 id h)

pub read_acks-acks_bytes :
    (ids rest acks : List ℕ)
    → All IsU32 ids
    → read_acks (length ids) (acks_bytes ids ++ rest) acks ≡ ok (acks ++ ids, rest)
unfolding read_acks
read_acks-acks_bytes [] rest acks h = rw append-nil
read_acks-acks_bytes (id ∷ ids) rest acks h =
    rw (read_packet_id-be32 id (acks_bytes ids ++ rest) h.0) (
      read_acks-acks_bytes ids rest (acks ++ (id ∷ [])) h.1
      ∙ ap (λ (l : List ℕ). ok (l, rest)) (append_assoc acks (id ∷ []) ids))

-- Without acks no session id is on the wire, and eight zero bytes are read.
abbrev pub FitsAcks : List ℕ → List ℕ → Type 0
FitsAcks [] sid = sid ≡ replicate session_id_size 0
FitsAcks (id ∷ ids) sid = length sid ≡ session_id_size

pub read_remote_session_id-remote_bytes :
    (ids sid rest : List ℕ)
    → FitsAcks ids sid
    → read_remote_session_id (length ids) (remote_bytes ids sid ++ rest) ≡ ok (sid, rest)
unfolding read_remote_session_id
read_remote_session_id-remote_bytes [] sid rest h = ap (λ (l : List ℕ). ok (l, rest)) (sym h)
read_remote_session_id-remote_bytes (id ∷ ids) sid rest h = ground (
  arith,
  length-append sid rest,
  take-append_length 8 sid rest h,
  drop-append_length 8 sid rest h,
)

-- An ack-only packet has no id of its own, and 0 is read.
abbrev pub FitsOpcode : ℕ → ℕ → Type 0
FitsOpcode opcode id = IsU32 id × (opcode ≡ op_ack_v1 → id ≡ 0)

pub read_own_packet_id-own_id_bytes :
    (opcode id : ℕ) (rest : List ℕ)
    → FitsOpcode opcode id
    → read_own_packet_id opcode (own_id_bytes opcode id ++ rest) ≡ ok (id, rest)
unfolding read_own_packet_id
read_own_packet_id-own_id_bytes opcode id rest h = elim (Bool-cases (opcode == op_ack_v1)) [
  | inl e ↦ rw e (ap (λ (v : ℕ). ok (v, rest)) (sym (h.1 ((==_iff _ _).0 e))))
  | inr e ↦ rw e (read_packet_id-be32 id rest h.0)
]
