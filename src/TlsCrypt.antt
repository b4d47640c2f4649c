-- ===== src/TlsCrypt.antt =====
-- internal/tlscrypt/tlscrypt.go: the wrapping of control packets.
-- The replay window is the one of Replay, of which the file has a copy. crypto/hmac with crypto/sha256,
-- and crypto/aes with crypto/cipher's CTR, are parameters: two functions of a key. The lock leaves no
-- interleaving inside an operation, and the clock is an argument, in seconds of Unix time.
pub mod KeyFile
pub mod Unwrap
pub mod Exchange
pub mod Runs
use govpn.Base.{
  ◌>>=◌, ◌>>◌, ℕ, ◌+◌, ◌%◌, ◌^◌, Bool, not, ◌&&◌, ltb, leb, ◌==◌, if◌then◌else◌, List, ◌++◌, length,
  take, drop, Result, ok, err, guard,
}
use govpn.Base.Words.{add32, be32, uint32_of}
use govpn.Replay.{ReplayWindow, zero_window, accept}
use govpn.DataChannel.{equal_bytes}

abbrev pub tag_size : ℕ
tag_size = 32

abbrev pub block_size : ℕ
block_size = 16

abbrev pub pid_size : ℕ
pid_size = 8

abbrev pub off_pid : ℕ
off_pid = 1 + 8

abbrev pub off_tag : ℕ
off_tag = off_pid + pid_size

abbrev pub off_ct : ℕ
off_ct = off_tag + tag_size

pub data Error : Type 0 where
  too_short auth replayed bad_key bad_header packet_id_rollover : Error

-- `hmac key message`, and the key stream of `ctr key iv` over some bytes.
pub record Crypto : Type 0 where
  pub hmac : List ℕ → List ℕ → List ℕ
  pub ctr : List ℕ → List ℕ → List ℕ → List ℕ

-- `keySlot`.
pub record KeyPair : Type 0 where
  pub cipher : List ℕ
  pub hmac : List ℕ

pub record Wrapper : Type 0 where
  pub encrypt : KeyPair
  pub decrypt : KeyPair
  pub send_seq : ℕ
  pub send_time : ℕ
  pub send_rollover_at : ℕ
  pub replay : ReplayWindow

-- `key256[from:to]`.
abbrev pub key_slice : ℕ → ℕ → List ℕ → List ℕ
key_slice from size key = take size (drop from key)

abbrev pub key_pair : ℕ → List ℕ → KeyPair
key_pair from key = record { cipher = key_slice from 32 key; hmac = key_slice (from + 64) 32 key }

-- The server encrypts with the first pair, and the client with the second.
abbrev pub keyed : List ℕ → Bool → Wrapper
keyed key256 server = record {
  encrypt = if server then key_pair 0 key256 else key_pair 128 key256;
  decrypt = if server then key_pair 128 key256 else key_pair 0 key256;
  send_seq = 0;
  send_time = 0;
  send_rollover_at = 0;
  replay = zero_window;
}

unfoldable pub new_wrapper : List ℕ → Bool → Result Error Wrapper
new_wrapper key256 server = do guard (length key256 == 256) bad_key; ok (keyed key256 server)

-- The tag is over the plaintext, and its front is the cipher's IV.
unfoldable pub wrap_with_pid : Crypto → Wrapper → List ℕ → List ℕ → List ℕ → List ℕ → List ℕ
wrap_with_pid crypto w dst header pid plaintext =
    let aad : List ℕ = header ++ pid in
    let tag : List ℕ = crypto.hmac w.encrypt.hmac (aad ++ plaintext) in
    ((dst ++ aad) ++ tag) ++ crypto.ctr w.encrypt.cipher (take block_size tag) plaintext

unfoldable pub wrap_with_packet_id :
    Crypto → Wrapper → List ℕ → List ℕ → List ℕ → List ℕ → Result Error (List ℕ)
unfolding wrap_with_pid
wrap_with_packet_id crypto w dst header pid plaintext = do
  guard (length header == off_pid) bad_header
  ok (wrap_with_pid crypto w dst header pid plaintext)

-- The long form of a packet id.
abbrev pub packet_id : ℕ → ℕ → List ℕ
packet_id seq time = be32 seq ++ be32 (time % 2 ^ 32)

-- The next sequence number is taken.
unfoldable pub wrap_next :
    Crypto → List ℕ → List ℕ → List ℕ → Wrapper → Wrapper × Result Error (List ℕ)
unfolding wrap_with_pid
wrap_next crypto dst header plaintext w =
    let w₁ : Wrapper = record w { send_seq = add32 w.send_seq 1 } in
    (w₁, ok (wrap_with_pid crypto w₁ dst header (packet_id w₁.send_seq w₁.send_time) plaintext))

-- The time of the first use is kept.
abbrev pub start_time : ℕ → Wrapper → Wrapper
start_time now w = if w.send_time == 0 then record w { send_time = now } else w

abbrev pub roll_over : ℕ → Wrapper → Wrapper
roll_over now w = record w { send_rollover_at = now; send_time = now; send_seq = 0 }

-- `Wrap`: the sequence starts over only when time has gone on since it last did.
unfoldable pub wrap :
    Crypto → ℕ → List ℕ → List ℕ → List ℕ → Wrapper → Wrapper × Result Error (List ℕ)
unfolding wrap_next
wrap crypto now dst header plaintext w =
    let w₁ : Wrapper = start_time now w in
    if not (length header == off_pid)
    then (w, err bad_header)
    else if w₁.send_seq == 0xFFFF_FFFF
    then (if not (w₁.send_rollover_at == 0) && leb now w₁.send_rollover_at
        then (w₁, err packet_id_rollover)
        else wrap_next crypto dst header plaintext (roll_over now w₁))
    else wrap_next crypto dst header plaintext w₁

-- `packet[OffPID : OffPID+4]`.
abbrev pub packet_seq : List ℕ → ℕ
packet_seq packet = uint32_of (take 4 (drop off_pid packet))

-- What the packet decrypts to, under the tag that it carries.
unfoldable pub decrypted : Crypto → Wrapper → List ℕ → List ℕ
decrypted crypto w packet =
    crypto.ctr w.decrypt.cipher (take block_size (take tag_size (drop off_tag packet)))
      (drop off_ct packet)

-- `Unwrap`: the header and the plaintext.
unfoldable pub unwrap :
    Crypto → Wrapper → List ℕ → List ℕ → Wrapper × Result Error (List ℕ × List ℕ)
unfolding decrypted equal_bytes
unwrap crypto w dst packet =
    let plaintext : List ℕ = decrypted crypto w packet in
    let (replay₁, fresh) = accept w.replay (packet_seq packet) in
    let w₁ : Wrapper = record w { replay = replay₁ } in
    if ltb (length packet) off_ct
    then (w, err too_short)
    else if not (
        equal_bytes (take tag_size (drop off_tag packet))
          (crypto.hmac w.decrypt.hmac (take off_tag packet ++ plaintext)))
    then (w, err auth)
    else if not fresh
    then (w₁, err replayed)
    else (w₁, ok (take off_pid packet, dst ++ plaintext))
