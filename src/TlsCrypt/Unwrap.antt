-- ===== src/TlsCrypt/Unwrap.antt =====
-- A wrapped packet as `unwrap` reads it.
use govpn.Base.{
  ℕ, ◌^◌, ◌<◌, true, false, ltb, if◌then◌else◌, ◌≡◌, refl, ap, ◌∙◌, List, [], ◌∷◌, ◌++◌, length,
  take, drop, Result, ok, err, take-append_length, drop-append_length, length-append, append_assoc,
  arith, Bool-cases, inl, inr,
}
use govpn.Base.Words.{uint32_of, from_be32-be32}
use govpn.Replay.{accept}
use govpn.DataChannel.{equal_bytes}
use govpn.TlsCrypt.{
  KeyPair, Crypto, Wrapper, Error, replayed, off_pid, off_tag, off_ct, tag_size, block_size,
  packet_id, packet_seq, wrap_with_pid, decrypted, unwrap,
}

-- What crypto/hmac and crypto/cipher document: a SHA-256 tag has 32 bytes, and the key stream of CTR is
-- added to the bytes, so that it keeps their number and twice adding it gives them back.
pub record IsSound (crypto : Crypto) : Type 0 where
  pub length_hmac : (key m : List ℕ) → length (crypto.hmac key m) ≡ tag_size
  pub length_ctr : (key iv p : List ℕ) → length (crypto.ctr key iv p) ≡ length p
  pub ctr_ctr : (key iv p : List ℕ) → crypto.ctr key iv (crypto.ctr key iv p) ≡ p

pub equal_bytes_same : (xs : List ℕ) → equal_bytes xs xs ≡ true
unfolding equal_bytes
equal_bytes_same [] = refl
equal_bytes_same (x ∷ xs) = ground (arith, equal_bytes_same xs)

-- The four parts of a packet.
module _ (header pid tag ct : List ℕ) (lh : length header ≡ off_pid) (lp : length pid ≡ 8)
    (lt : length tag ≡ tag_size) where
  abbrev packet : List ℕ
  packet = ((header ++ pid) ++ tag) ++ ct

  take_aad : take off_tag packet ≡ header ++ pid
  take_aad =
      ap (λ (l : List ℕ). take off_tag l) (append_assoc (header ++ pid) tag ct)
      ∙ take-append_length off_tag (header ++ pid) (tag ++ ct)
          (omega (arith, length-append header pid, lh, lp))

  take_tag : take tag_size (drop off_tag packet) ≡ tag
  take_tag =
      ap (λ (l : List ℕ). take tag_size (drop off_tag l)) (append_assoc (header ++ pid) tag ct)
      ∙ ap (λ (l : List ℕ). take tag_size l)
          (drop-append_length off_tag (header ++ pid) (tag ++ ct)
            (omega (arith, length-append header pid, lh, lp)))
      ∙ take-append_length tag_size tag ct lt

  drop_ct : drop off_ct packet ≡ ct
  drop_ct =
      drop-append_length off_ct ((header ++ pid) ++ tag) ct
        (omega (arith, length-append (header ++ pid) tag, length-append header pid, lh, lp, lt))

  regroup : packet ≡ header ++ (pid ++ (tag ++ ct))
  regroup = simp (append_assoc)

  take_header : take off_pid packet ≡ header
  take_header =
      ap (λ (l : List ℕ). take off_pid l) regroup
      ∙ take-append_length off_pid header (pid ++ (tag ++ ct)) lh

  drop_header : drop off_pid packet ≡ pid ++ (tag ++ ct)
  drop_header =
      ap (λ (l : List ℕ). drop off_pid l) regroup
      ∙ drop-append_length off_pid header (pid ++ (tag ++ ct)) lh

  long_enough : ltb (length packet) off_ct ≡ false
  long_enough = ground (
    arith,
    length-append ((header ++ pid) ++ tag) ct,
    length-append (header ++ pid) tag,
    length-append header pid,
    lh,
    lp,
    lt,
  )

-- The answer to a number, with what the packet holds.
abbrev pub answer : Wrapper → ℕ → List ℕ → List ℕ → Wrapper × Result Error (List ℕ × List ℕ)
answer r seq header plaintext = (
  record r { replay = (accept r.replay seq).0 },
  (if (accept r.replay seq).1 then ok (header, plaintext) else err replayed),
)

-- The answer to a packet that is long enough and authentic.
unwrap_authentic :
    (crypto : Crypto) (r : Wrapper) (packet : List ℕ)
    → ltb (length packet) off_ct ≡ false
    → equal_bytes
        (take tag_size (drop off_tag packet))
        (crypto.hmac r.decrypt.hmac (take off_tag packet ++ decrypted crypto r packet))
      ≡ true
    → unwrap crypto r [] packet ≡ (
      record r { replay = (accept r.replay (packet_seq packet)).0 },
      (if (accept r.replay (packet_seq packet)).1
          then ok (take off_pid packet, decrypted crypto r packet)
          else err replayed),
    )
unfolding unwrap
unwrap_authentic crypto r packet long authentic =
    elim (Bool-cases (accept r.replay (packet_seq packet)).1) [
      | inl fresh ↦ rw (unwrap, long, authentic, fresh) refl
      | inr stale ↦ rw (unwrap, long, authentic, stale) refl
    ]

decrypted_lem :
    (crypto : Crypto) (w r : Wrapper) (header pid tag plaintext : List ℕ)
    (lh : length header ≡ off_pid) (lp : length pid ≡ 8) (lt : length tag ≡ tag_size)
    → IsSound crypto
    → r.decrypt ≡ w.encrypt
    → decrypted crypto r (
        packet header pid tag
          (crypto.ctr w.encrypt.cipher (take block_size tag) plaintext)
          lh
          lp
          lt)
      ≡ plaintext
unfolding decrypted
decrypted_lem crypto w r header pid tag plaintext lh lp lt s keys =
    let ct : List ℕ = crypto.ctr w.encrypt.cipher (take block_size tag) plaintext in
    ap
      (λ (k : KeyPair).
        crypto.ctr k.cipher
          (take block_size (take tag_size (drop off_tag (packet header pid tag ct lh lp lt))))
          (drop off_ct (packet header pid tag ct lh lp lt)))
      keys
    ∙ ap
        (λ (t : List ℕ).
          crypto.ctr w.encrypt.cipher (take block_size t)
            (drop off_ct (packet header pid tag ct lh lp lt)))
        (take_tag header pid tag ct lh lp lt)
    ∙ ap (λ (c : List ℕ). crypto.ctr w.encrypt.cipher (take block_size tag) c)
        (drop_ct header pid tag ct lh lp lt)
    ∙ s.ctr_ctr w.encrypt.cipher (take block_size tag) plaintext

-- A receiver with the sender's keys gets back what was wrapped, if its number is fresh.
pub unwrap-wrap_with_pid :
    (crypto : Crypto) (w r : Wrapper) (header plaintext : List ℕ) (seq time : ℕ)
    → IsSound crypto
    → r.decrypt ≡ w.encrypt
    → length header ≡ off_pid
    → seq < 2 ^ 32
    → unwrap crypto r [] (wrap_with_pid crypto w [] header (packet_id seq time) plaintext) ≡ (
      record r { replay = (accept r.replay seq).0 },
      (if (accept r.replay seq).1 then ok (header, plaintext) else err replayed),
    )
unfolding wrap_with_pid
unwrap-wrap_with_pid crypto w r header plaintext seq time s keys lh h =
    let pid : List ℕ = packet_id seq time in
    let tag : List ℕ = crypto.hmac w.encrypt.hmac ((header ++ pid) ++ plaintext) in
    let ct : List ℕ = crypto.ctr w.encrypt.cipher (take block_size tag) plaintext in
    let lt : length tag ≡ tag_size = s.length_hmac w.encrypt.hmac ((header ++ pid) ++ plaintext) in
    let m : List ℕ = packet header pid tag ct lh refl lt in
    let plain : decrypted crypto r m ≡ plaintext =
      decrypted_lem crypto w r header pid tag plaintext lh refl lt s keys in
    let n : packet_seq m ≡ seq =
      ap (λ (l : List ℕ). uint32_of (take 4 l)) (drop_header header pid tag ct lh refl lt)
      ∙ from_be32-be32 seq h in
    let authentic : equal_bytes (take tag_size (drop off_tag m))
          (crypto.hmac r.decrypt.hmac (take off_tag m ++ decrypted crypto r m))
        ≡ true =
      ap
        (λ (t : List ℕ).
          equal_bytes t (crypto.hmac r.decrypt.hmac (take off_tag m ++ decrypted crypto r m)))
        (take_tag header pid tag ct lh refl lt)
      ∙ ap
          (λ (t : List ℕ). equal_bytes tag (crypto.hmac r.decrypt.hmac (t ++ decrypted crypto r m)))
          (take_aad header pid tag ct lh refl lt)
      ∙ ap (λ (t : List ℕ). equal_bytes tag (crypto.hmac r.decrypt.hmac ((header ++ pid) ++ t)))
          plain
      ∙ ap (λ (k : KeyPair). equal_bytes tag (crypto.hmac k.hmac ((header ++ pid) ++ plaintext)))
          keys
      ∙ equal_bytes_same tag in
    unwrap_authentic crypto r m (long_enough header pid tag ct lh refl lt) authentic
    ∙ ap (λ (k : ℕ). answer r k (take off_pid m) (decrypted crypto r m)) n
    ∙ ap (λ (x : List ℕ). answer r seq x (decrypted crypto r m))
        (take_header header pid tag ct lh refl lt)
    ∙ ap (λ (x : List ℕ). answer r seq header x) plain
