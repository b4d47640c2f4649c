-- ===== src/DataChannel.antt =====
-- internal/datachan/datachan.go and ping.go: sealing and opening data packets, and keepalive pings.
-- crypto/aes and crypto/cipher are parameters: an `Aead` holds the two functions of a cipher.AEAD, and
-- `new_aead` stands for aes.NewCipher followed by cipher.NewGCM. The lock leaves no interleaving
-- inside an operation.
pub mod Packet
pub mod RoundTrip
pub mod Nonces
pub mod Receiver
pub mod Runs
use govpn.Base.{
  ◌>>=◌, ◌>>◌, ℕ, ◌+◌, ◌-◌, ◌*◌, ◌/◌, ◌%◌, ◌^◌, bit_and, bit_or, Bool, true, false, ◌&&◌, ◌||◌, ltb,
  ◌==◌, if◌then◌else◌, List, [], ◌∷◌, ◌++◌, length, take, drop, Option, none, some, Result, ok, err,
  guard,
}
use govpn.Base.Words.{be32, uint32_of}
use govpn.Replay.{ReplayWindow, zero_window, accept}
use govpn.Wire.{op_data_v2}

abbrev pub off_packet_id : ℕ
off_packet_id = 4

abbrev pub off_tag : ℕ
off_tag = 8

abbrev pub tag_size : ℕ
tag_size = 16

abbrev pub off_ciphertext : ℕ
off_ciphertext = off_tag + tag_size

abbrev pub header_size : ℕ
header_size = off_tag

abbrev pub max_uint32 : ℕ
max_uint32 = 0xFFFF_FFFF

pub data Error : Type 0 where
  too_short auth replayed packet_id_exhausted ping_absorbed cipher_key_len cipher_failed : Error

-- A cipher.AEAD: `seal nonce plaintext additional_data` and `open_sealed nonce sealed additional_data`.
pub record Aead : Type 0 where
  pub seal : List ℕ → List ℕ → List ℕ → List ℕ
  pub open_sealed : List ℕ → List ℕ → List ℕ → Option (List ℕ)

pub record DataKeys : Type 0 where
  pub encrypt_cipher : List ℕ
  pub encrypt_implicit_iv : List ℕ
  pub decrypt_cipher : List ℕ
  pub decrypt_implicit_iv : List ℕ
  pub cipher_key_len : ℕ

pub record Wrapper : Type 0 where
  pub peer_id : ℕ
  pub key_id : ℕ
  pub encrypt_aead : Aead
  pub encrypt_iv : List ℕ
  pub decrypt_aead : Aead
  pub decrypt_iv : List ℕ
  pub send_seq : ℕ
  pub replay : ReplayWindow

unfoldable pub new_wrapper : (List ℕ → Result Error Aead) → DataKeys → ℕ → ℕ → Result Error Wrapper
new_wrapper new_aead keys peer_id key_id = do
  guard (keys.cipher_key_len == 16 || keys.cipher_key_len == 32) cipher_key_len
  enc_aead ← new_aead (take keys.cipher_key_len keys.encrypt_cipher)
  dec_aead ← new_aead (take keys.cipher_key_len keys.decrypt_cipher)
  ok (record {
    peer_id = peer_id;
    key_id = key_id;
    encrypt_aead = enc_aead;
    encrypt_iv = keys.encrypt_implicit_iv;
    decrypt_aead = dec_aead;
    decrypt_iv = keys.decrypt_implicit_iv;
    send_seq = 0;
    replay = zero_window;
  })

-- The id and the state after; an error leaves the state as it was.
unfoldable pub next_packet_id : Wrapper → Result Error (ℕ × Wrapper)
next_packet_id w =
    if w.send_seq == max_uint32
    then err packet_id_exhausted
    else ok (w.send_seq + 1, record w { send_seq = w.send_seq + 1 })

-- `header`, which is also the additional data of the AEAD.
abbrev pub header : Wrapper → ℕ → List ℕ
header w seq =
    bit_or (op_data_v2 * 2 ^ 3 % 256) (bit_and w.key_id 0x07)
    ∷ w.peer_id / 2 ^ 16 % 256
    ∷ w.peer_id / 2 ^ 8 % 256
    ∷ w.peer_id % 256
    ∷ be32 seq

-- `nonce[0:4]` is the packet id, `nonce[4:12]` the implicit IV.
abbrev pub nonce : ℕ → List ℕ → List ℕ
nonce seq iv = be32 seq ++ iv

-- The tag, which the AEAD puts last, goes before the ciphertext.
unfoldable pub seal_with_seq : Wrapper → List ℕ → ℕ → List ℕ → List ℕ
seal_with_seq w dst seq plaintext =
    let sealed : List ℕ = w.encrypt_aead.seal (nonce seq w.encrypt_iv) plaintext (header w seq) in
    let n : ℕ = length sealed - tag_size in
    ((dst ++ header w seq) ++ drop n sealed) ++ take n sealed

-- The packet appended to `dst`, and the state after.
unfoldable pub seal : Wrapper → List ℕ → List ℕ → Result Error (List ℕ × Wrapper)
seal w dst plaintext = do (seq, w₁) ← next_packet_id w; ok (seal_with_seq w₁ dst seq plaintext, w₁)

unfoldable pub seal_with_packet_id : Wrapper → List ℕ → ℕ → List ℕ → List ℕ
seal_with_packet_id w dst packet_id plaintext = seal_with_seq w dst packet_id plaintext

abbrev pub ping_magic : List ℕ
ping_magic =
    0x2a ∷ 0x18 ∷ 0x7b ∷ 0xf3 ∷ 0x64 ∷ 0x1e ∷ 0xb4 ∷ 0xcb ∷ 0x07 ∷ 0xed ∷ 0x2d ∷ 0x0a ∷ 0x98 ∷ 0x1f
    ∷ 0xc7 ∷ 0x48 ∷ []

unfoldable pub seal_ping : Wrapper → List ℕ → Result Error (List ℕ × Wrapper)
seal_ping w dst = seal w dst ping_magic

-- `bytes.Equal`.
unfoldable pub equal_bytes : List ℕ → List ℕ → Bool
equal_bytes [] [] = true
equal_bytes [] (y ∷ ys) = false
equal_bytes (x ∷ xs) [] = false
equal_bytes (x ∷ xs) (y ∷ ys) = x == y && equal_bytes xs ys

unfoldable pub is_ping : List ℕ → Bool
is_ping plaintext = length plaintext == 16 && equal_bytes plaintext ping_magic

-- `packet[offPacketID:offTag]`.
abbrev pub packet_seq : List ℕ → ℕ
packet_seq packet = uint32_of (take (off_tag - off_packet_id) (drop off_packet_id packet))

-- The tag is put back behind the ciphertext for the AEAD.
unfoldable pub decrypt : Wrapper → List ℕ → Option (List ℕ)
decrypt w packet =
    let tag : List ℕ = take tag_size (drop off_tag packet) in
    w.decrypt_aead.open_sealed (nonce (packet_seq packet) w.decrypt_iv)
      (drop off_ciphertext packet ++ tag) (take header_size packet)

-- After the authentication: the replay window, then the ping.
unfoldable pub admit : Wrapper → List ℕ → ℕ → List ℕ → Wrapper × Result Error (List ℕ)
admit w dst seq plaintext =
    let (replay₁, fresh) = accept w.replay seq in
    let w₁ : Wrapper = record w { replay = replay₁ } in
    if fresh
    then (if is_ping plaintext then (w₁, err ping_absorbed) else (w₁, ok (dst ++ plaintext)))
    else (w₁, err replayed)

unfoldable pub open_packet : Wrapper → List ℕ → List ℕ → Wrapper × Result Error (List ℕ)
unfolding decrypt admit
open_packet w dst packet =
    if ltb (length packet) off_ciphertext then (w, err too_short) else elim (decrypt w packet) [
      | none ↦ (w, err auth)
      | some plaintext ↦ admit w dst (packet_seq packet) plaintext
    ]
