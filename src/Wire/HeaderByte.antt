-- ===== src/Wire/HeaderByte.antt =====
-- The header byte packs a five-bit opcode and a three-bit key id.
use govpn.Base.{ℕ, ◌+◌, ◌*◌, ◌%◌, ◌^◌, ◌<◌, ◌≡◌, ap, ◌∙◌, List, [], ◌∷◌, ◌++◌, arith}
use govpn.Base.Bits.{bit_and_seven, bit_or_seven}
use govpn.Base.Words.{IsByte}
use govpn.Wire.{parse_header_byte, append_header_byte}

-- The byte is the opcode times eight plus the key id.
pub append_header_byte_lem :
    (dst : List ℕ) (opcode key_id : ℕ)
    → opcode < 32
    → append_header_byte dst opcode key_id ≡ dst ++ ((opcode * 8 + key_id % 8) ∷ [])
unfolding append_header_byte
append_header_byte_lem dst opcode key_id h =
    ap (λ (b : ℕ). dst ++ (b ∷ []))
      (let e : opcode * 2 ^ 3 % 256 ≡ opcode * 8 = omega arith in
        rw (e, bit_and_seven) (bit_or_seven opcode (key_id % 8) (omega arith)))

-- For a five-bit opcode and a three-bit key id the header byte is read back as it was written,
-- and every byte is written back as it was read, behind what `dst` held.
header_byte_inverse :
    (dst : List ℕ) (opcode key_id b : ℕ)
    → opcode < 32
    → key_id < 8
    → IsByte b
    → (append_header_byte dst opcode key_id ≡ dst ++ ((opcode * 8 + key_id) ∷ []))
      × (parse_header_byte (opcode * 8 + key_id) ≡ (opcode, key_id))
      × (append_header_byte dst (parse_header_byte b).0 (parse_header_byte b).1 ≡ dst ++ (b ∷ []))
unfolding parse_header_byte
header_byte_inverse dst opcode key_id b ho hk hb = (
  append_header_byte_lem dst opcode key_id ho ∙ ap (λ (k : ℕ). dst ++ (k ∷ [])) (omega arith),
  ground (arith, bit_and_seven (opcode * 8 + key_id)),
  append_header_byte_lem dst _ _ (omega arith)
      ∙ ap (λ (k : ℕ). dst ++ (k ∷ [])) (omega (arith, bit_and_seven b)),
)
