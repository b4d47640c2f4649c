-- ===== src/Wire.antt =====
-- internal/wire/wire.go: the header byte, and the plaintext body of a control packet.
-- A byte slice is a list of numbers, an opcode is its byte, and a session id is the list of its
-- bytes.
pub mod Inversion
pub mod HeaderByte
pub mod Body
pub mod RoundTrip
pub mod Verdict
pub mod Runs
use govpn.Base.{
  ◌>>=◌, ◌>>◌, ℕ, zero, suc, ◌+◌, ◌*◌, ◌/◌, ◌%◌, ◌^◌, bit_and, bit_or, List, [], ◌∷◌, ◌++◌, length,
  take, drop, replicate, Bool, ◌&&◌, ltb, leb, ◌==◌, if◌then◌else◌, Result, ok, err, guard,
}
use govpn.Base.Words.{from_be32, be32}

abbrev pub first_opcode : ℕ
first_opcode = 3

abbrev pub last_opcode : ℕ
last_opcode = 11

abbrev pub op_ack_v1 : ℕ
op_ack_v1 = 5

abbrev pub op_data_v2 : ℕ
op_data_v2 = 9

abbrev pub opcode_shift : ℕ
opcode_shift = 3

abbrev pub key_id_mask : ℕ
key_id_mask = 0x07

abbrev pub session_id_size : ℕ
session_id_size = 8

abbrev pub max_acks : ℕ
max_acks = 8

pub data Error : Type 0 where
  too_short too_many_acks bad_opcode : Error

pub record Header : Type 0 where
  pub opcode : ℕ
  pub key_id : ℕ
  pub session_id : List ℕ

pub record ControlPacket : Type 0 where
  pub opcode : ℕ
  pub key_id : ℕ
  pub session_id : List ℕ
  pub acks : List ℕ
  pub remote_session_id : List ℕ
  pub packet_id : ℕ
  pub payload : List ℕ

pub parse_header_byte : ℕ → ℕ × ℕ
parse_header_byte b = (b / 2 ^ opcode_shift, bit_and b key_id_mask)

-- `byte(opcode)<<opcodeShift | keyID&keyIDMask`: the shift is on a byte.
unfoldable pub append_header_byte : List ℕ → ℕ → ℕ → List ℕ
append_header_byte dst opcode key_id =
    dst ++ (bit_or (opcode * 2 ^ opcode_shift % 256) (bit_and key_id key_id_mask) ∷ [])

unfoldable pub valid_opcode : ℕ → Bool
valid_opcode op = leb first_opcode op && leb op last_opcode

-- `buf[0]`, after the check of the length.
pub read_byte : List ℕ → Result Error (ℕ × List ℕ)
read_byte [] = err too_short
read_byte (b ∷ buf) = ok (b, buf)

-- `binary.BigEndian.Uint32(buf[:packetIDSize])`, after the check of the length.
pub read_packet_id : List ℕ → Result Error (ℕ × List ℕ)
read_packet_id (a ∷ b ∷ c ∷ d ∷ buf) = ok (from_be32 a b c d, buf)
read_packet_id _ = err too_short

-- The loop over the ack array: the first argument counts the rounds left.
pub read_acks : ℕ → List ℕ → List ℕ → Result Error (List ℕ × List ℕ)
read_acks zero buf acks = ok (acks, buf)
read_acks (suc n) buf acks = do
  (id, rest) ← read_packet_id buf
  read_acks n rest (acks ++ (id ∷ []))

-- `var remoteSID SessionID` is eight zero bytes until it is read.
pub read_remote_session_id : ℕ → List ℕ → Result Error (List ℕ × List ℕ)
read_remote_session_id ack_count buf =
    if ltb 0 ack_count
    then (if ltb (length buf) session_id_size
        then err too_short
        else ok (take session_id_size buf, drop session_id_size buf))
    else ok (replicate session_id_size 0, buf)

pub read_own_packet_id : ℕ → List ℕ → Result Error (ℕ × List ℕ)
read_own_packet_id opcode buf = if opcode == op_ack_v1 then ok (0, buf) else read_packet_id buf

pub parse_control_packet : List ℕ → Header → Result Error ControlPacket
unfolding valid_opcode read_byte
parse_control_packet plaintext hdr = do
  guard (valid_opcode hdr.opcode) bad_opcode
  (ack_count, b₁) ← read_byte plaintext
  guard (leb ack_count max_acks) too_many_acks
  (acks, b₂) ← read_acks ack_count b₁ []
  (remote, b₃) ← read_remote_session_id ack_count b₂
  (id, b₄) ← read_own_packet_id hdr.opcode b₃
  ok (record {
    opcode = hdr.opcode;
    key_id = hdr.key_id;
    session_id = hdr.session_id;
    acks = acks;
    remote_session_id = remote;
    packet_id = id;
    payload = b₄;
  })

append_acks : List ℕ → List ℕ → List ℕ
append_acks dst [] = dst
append_acks dst (id ∷ ids) = append_acks (dst ++ be32 id) ids

pub append_plaintext : ControlPacket → List ℕ → List ℕ
append_plaintext p dst =
    let d₁ : List ℕ = append_acks (dst ++ (length p.acks % 256 ∷ [])) p.acks in
    let d₂ : List ℕ = (if ltb 0 (length p.acks) then d₁ ++ p.remote_session_id else d₁) in
    let d₃ : List ℕ = (if p.opcode == op_ack_v1 then d₂ else d₂ ++ be32 p.packet_id) in
    d₃ ++ p.payload
