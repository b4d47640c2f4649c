-- ===== src/DataChannel/Packet.antt =====
-- The parts of a sealed packet as `open_packet` reads them.
use govpn.Base.{
  ℕ, ◌+◌, ◌-◌, ◌<◌, ◌^◌, ◌≡◌, refl, sym, ap, ◌∙◌, List, [], ◌++◌, length, take, drop, some,
  take-append-drop, length-drop, length-append, take-append_length, drop-append_length, arith,
}
use govpn.Base.Words.{from_be32-be32}
use govpn.DataChannel.{
  Wrapper, Aead, header, nonce, header_size, off_tag, off_ciphertext, tag_size, packet_seq,
  seal_with_seq, decrypt,
}

-- What crypto/cipher documents of an AEAD with a 16-byte tag and of its use with one key: the output of
-- Seal is the plaintext's length and the tag, and Open takes back what Seal made under the same nonce
-- and additional data.
pub record Matches (sender receiver : Aead) : Type 0 where
  pub length_seal : (n p a : List ℕ) → length (sender.seal n p a) ≡ length p + tag_size
  pub open_seal : (n p a : List ℕ) → receiver.open_sealed n (sender.seal n p a) a ≡ some p

-- The sealed text of one packet.
abbrev pub sealed_text : Wrapper → ℕ → List ℕ → List ℕ
sealed_text w seq plaintext = w.encrypt_aead.seal (nonce seq w.encrypt_iv) plaintext (header w seq)

-- The tag moved to the front, and back.
length-rotate : (s : List ℕ) (n : ℕ) → length (drop n s ++ take n s) ≡ length s
length-rotate s n = omega (
  arith,
  length-append (drop n s) (take n s),
  length-append (take n s) (drop n s),
  ap length (take-append-drop n s),
)

unrotate :
    (s : List ℕ) (n : ℕ)
    → length (drop n s) ≡ tag_size
    → drop tag_size (drop n s ++ take n s) ++ take tag_size (drop n s ++ take n s) ≡ s
unrotate s n h =
    rw
      (
        drop-append_length tag_size (drop n s) (take n s) h,
        take-append_length tag_size (drop n s) (take n s) h,
      )
      (take-append-drop n s)

pub header-seal_with_seq :
    (w : Wrapper) (seq : ℕ) (plaintext : List ℕ)
    → take header_size (seal_with_seq w [] seq plaintext) ≡ header w seq
unfolding seal_with_seq
header-seal_with_seq w seq plaintext = refl

pub packet_seq-seal_with_seq :
    (w : Wrapper) (seq : ℕ) (plaintext : List ℕ)
    → seq < 2 ^ 32
    → packet_seq (seal_with_seq w [] seq plaintext) ≡ seq
unfolding seal_with_seq
packet_seq-seal_with_seq w seq plaintext h = from_be32-be32 seq h

module _ (w : Wrapper) (seq : ℕ) (plaintext : List ℕ)
    (len : length (sealed_text w seq plaintext) ≡ length plaintext + tag_size) where
  pub length-tag :
      length (drop (length (sealed_text w seq plaintext) - tag_size) (sealed_text w seq plaintext))
      ≡ tag_size
  length-tag = omega (
    arith,
    length-drop (length (sealed_text w seq plaintext) - tag_size) (sealed_text w seq plaintext),
    len,
  )

  pub length-seal_with_seq :
      length (seal_with_seq w [] seq plaintext) ≡ length plaintext + off_ciphertext
  unfolding seal_with_seq
  length-seal_with_seq = omega (
    arith,
    length-rotate (sealed_text w seq plaintext) (length (sealed_text w seq plaintext) - tag_size),
    len,
  )

  pub sealed-seal_with_seq :
      drop off_ciphertext (seal_with_seq w [] seq plaintext)
        ++ take tag_size (drop off_tag (seal_with_seq w [] seq plaintext))
      ≡ sealed_text w seq plaintext
  unfolding seal_with_seq
  sealed-seal_with_seq =
      unrotate (sealed_text w seq plaintext) (length (sealed_text w seq plaintext) - tag_size)
        length-tag

decrypt_parts :
    (r : Wrapper) (packet s h : List ℕ) (seq : ℕ)
    → packet_seq packet ≡ seq
    → drop off_ciphertext packet ++ take tag_size (drop off_tag packet) ≡ s
    → take header_size packet ≡ h
    → decrypt r packet ≡ r.decrypt_aead.open_sealed (nonce seq r.decrypt_iv) s h
unfolding decrypt
decrypt_parts r packet s h seq e₁ e₂ e₃ =
    ap
      (λ (q : ℕ).
        r.decrypt_aead.open_sealed (nonce q r.decrypt_iv)
          (drop off_ciphertext packet ++ take tag_size (drop off_tag packet))
          (take header_size packet))
      e₁
    ∙ ap
        (λ (t : List ℕ).
          r.decrypt_aead.open_sealed (nonce seq r.decrypt_iv) t (take header_size packet))
        e₂
    ∙ ap (λ (t : List ℕ). r.decrypt_aead.open_sealed (nonce seq r.decrypt_iv) s t) e₃

-- A receiver with the sender's key and implicit IV gets the plaintext back.
pub decrypt-seal_with_seq :
    (w r : Wrapper) (seq : ℕ) (plaintext : List ℕ)
    → Matches w.encrypt_aead r.decrypt_aead
    → w.encrypt_iv ≡ r.decrypt_iv
    → seq < 2 ^ 32
    → decrypt r (seal_with_seq w [] seq plaintext) ≡ some plaintext
decrypt-seal_with_seq w r seq plaintext keys iv h =
    let len = keys.length_seal (nonce seq w.encrypt_iv) plaintext (header w seq) in
    decrypt_parts r (seal_with_seq w [] seq plaintext) (sealed_text w seq plaintext) (header w seq)
      seq (packet_seq-seal_with_seq w seq plaintext h) (sealed-seal_with_seq w seq plaintext len)
      (header-seal_with_seq w seq plaintext)
    ∙ ap
        (λ (v : List ℕ).
          r.decrypt_aead.open_sealed (nonce seq v) (sealed_text w seq plaintext) (header w seq))
        (sym iv)
    ∙ keys.open_seal (nonce seq w.encrypt_iv) plaintext (header w seq)
