-- ===== src/TlsCrypt/KeyFile.antt =====
-- internal/tlscrypt/keyfile.go: the static key file. A character is its byte; the bytes of one that is
-- not ASCII are refused one by one, as the source refuses the whole.
use govpn.Base.{
  ℕ, suc, ◌+◌, ◌-◌, ◌*◌, Bool, true, false, ◌&&◌, ◌||◌, leb, ◌==◌, if◌then◌else◌, Option, none,
  some, List, [], ◌∷◌, length, take, drop, Result, ok, err, guard, ◌>>=◌, ◌>>◌,
}

pub data KeyFileError : Type 0 where
  bad_envelope bad_body_len : KeyFileError

abbrev pub static_key_body_len : ℕ
static_key_body_len = 256

-- "OpenVPN Static key V1-----"
abbrev pub static_key_name : List ℕ
static_key_name =
    79 ∷ 112 ∷ 101 ∷ 110 ∷ 86 ∷ 80 ∷ 78 ∷ 32 ∷ 83 ∷ 116 ∷ 97 ∷ 116 ∷ 105 ∷ 99 ∷ 32 ∷ 107 ∷ 101 ∷ 121
    ∷ 32 ∷ 86 ∷ 49 ∷ 45 ∷ 45 ∷ 45 ∷ 45 ∷ 45 ∷ []

-- "-----BEGIN OpenVPN Static key V1-----"
abbrev pub static_key_head : List ℕ
static_key_head = 45 ∷ 45 ∷ 45 ∷ 45 ∷ 45 ∷ 66 ∷ 69 ∷ 71 ∷ 73 ∷ 78 ∷ 32 ∷ static_key_name

-- "-----END OpenVPN Static key V1-----"
abbrev pub static_key_foot : List ℕ
static_key_foot = 45 ∷ 45 ∷ 45 ∷ 45 ∷ 45 ∷ 69 ∷ 78 ∷ 68 ∷ 32 ∷ static_key_name

-- `strings.Index`, with `none` for -1.
unfoldable pub has_prefix : List ℕ → List ℕ → Bool
has_prefix [] text = true
has_prefix (p ∷ ps) [] = false
has_prefix (p ∷ ps) (c ∷ cs) = p == c && has_prefix ps cs

unfoldable pub index_of : List ℕ → List ℕ → Option ℕ
unfolding has_prefix
index_of sub [] = if has_prefix sub [] then some 0 else none
index_of sub (c ∷ cs) =
    if has_prefix sub (c ∷ cs)
    then some 0
    else elim (index_of sub cs) [ none ↦ none | some i ↦ some (suc i) ]

abbrev pub is_between : ℕ → ℕ → ℕ → Bool
is_between low high c = leb low c && leb c high

-- The value of a hexadecimal digit.
unfoldable pub hex_digit : ℕ → Option ℕ
hex_digit c =
    if is_between 48 57 c
    then some (c - 48)
    else if is_between 97 102 c
    then some (c - 87)
    else if is_between 65 70 c
    then some (c - 55)
    else none

abbrev pub is_space : ℕ → Bool
is_space c = c == 10 || (c == 13 || (c == 32 || c == 9))

-- The digits of the body, between which there may be space.
unfoldable pub hex_digits : List ℕ → Result KeyFileError (List ℕ)
unfolding hex_digit
hex_digits [] = ok []
hex_digits (c ∷ cs) = elim (hex_digit c) [
  | some d ↦ do ds ← hex_digits cs; ok (d ∷ ds)
  | none ↦ if is_space c then hex_digits cs else err bad_envelope
]

-- `hex.DecodeString`, on the values of the digits.
unfoldable pub decode_hex : List ℕ → Result KeyFileError (List ℕ)
decode_hex [] = ok []
decode_hex (d ∷ []) = err bad_envelope
decode_hex (d ∷ e ∷ ds) = do bytes ← decode_hex ds; ok ((d * 16 + e) ∷ bytes)

-- What follows the first occurrence, and what goes before it.
unfoldable pub after_first : List ℕ → List ℕ → Result KeyFileError (List ℕ)
unfolding index_of
after_first sub text = elim (index_of sub text) [
  | none ↦ err bad_envelope
  | some i ↦ ok (drop (i + length sub) text)
]

unfoldable pub before_first : List ℕ → List ℕ → Result KeyFileError (List ℕ)
unfolding index_of
before_first sub text = elim (index_of sub text) [
  | none ↦ err bad_envelope
  | some i ↦ ok (take i text)
]

unfoldable pub parse_static_key : List ℕ → Result KeyFileError (List ℕ)
unfolding after_first before_first hex_digits decode_hex
parse_static_key text = do
  rest ← after_first static_key_head text
  body ← before_first static_key_foot rest
  digits ← hex_digits body
  raw ← decode_hex digits
  guard (length raw == static_key_body_len) bad_body_len
  ok raw
