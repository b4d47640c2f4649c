-- ===== src/DataChannel/Runs.antt =====
-- The data channel on concrete packets, with a small authenticating cipher.
use govpn.Base.{
  ℕ, ◌-◌, ◌≡◌, refl, sym, true, if◌then◌else◌, List, [], ◌∷◌, ◌++◌, map, length, take, drop,
  replicate, NoRepeats, Option, some, none, ok, err, length-append, length-take, take-append_length,
  drop-append_length, arith,
}
use govpn.Replay.{zero_window, accept}
use govpn.Replay.Spec.{is_fresh}
use govpn.DataChannel.{
  Aead, Wrapper, DataKeys, Error, tag_size, packet_seq, equal_bytes, ping_magic, is_ping, seal,
  next_packet_id, seal_with_seq, open_packet, decrypt, admit, new_wrapper,
}
use govpn.DataChannel.Packet.{Matches}
use govpn.DataChannel.RoundTrip.{Opened, open_packet-Opened}
use govpn.DataChannel.Nonces.{seal_all, consecutive, seal_all-NoRepeats}
use govpn.DataChannel.Receiver.{
  open_all, expected, answer, through, open_all-expected, through-NoRepeats,
}

-- A tag that depends on the nonce and on the header.
abbrev tag_of : List ℕ → List ℕ → List ℕ
tag_of n a = take 16 (replicate 8 7 ++ (take 4 n ++ (take 4 a ++ replicate 8 0)))

abbrev toy_open : ℕ → List ℕ → List ℕ → List ℕ → Option (List ℕ)
unfolding equal_bytes
toy_open len n s a = if equal_bytes (drop len s) (tag_of n a) then some (take len s) else none

abbrev toy : Aead
toy = record {
  seal = λ n p a. p ++ tag_of n a;
  open_sealed = λ n s a. toy_open (length s - tag_size) n s a;
}

equal_bytes_refl : (xs : List ℕ) → equal_bytes xs xs ≡ true
unfolding equal_bytes
equal_bytes_refl [] = refl
equal_bytes_refl (x ∷ xs) = ground (arith, equal_bytes_refl xs)

length-tag_of : (n a : List ℕ) → length (tag_of n a) ≡ 16
length-tag_of n a = omega (
  arith,
  length-take 8 (take 4 n ++ (take 4 a ++ replicate 8 0)),
  length-append (take 4 n) (take 4 a ++ replicate 8 0),
  length-append (take 4 a) (replicate 8 0),
)

toy-open : (n p a : List ℕ) (len : ℕ) → len ≡ length p → toy_open len n (p ++ tag_of n a) a ≡ some p
unfolding toy_open
toy-open n p a len h = rw (
  drop-append_length len p (tag_of n a) (sym h),
  take-append_length len p (tag_of n a) (sym h),
  equal_bytes_refl,
)

toy-Matches : Matches toy toy
toy-Matches = record {
  length_seal = λ n p a. omega (arith, length-append p (tag_of n a), length-tag_of n a);
  open_seal = λ n p a.
      toy-open n p a (length (p ++ tag_of n a) - tag_size)
        (omega (arith, length-append p (tag_of n a), length-tag_of n a));
}

abbrev keys : DataKeys
keys = record {
  encrypt_cipher = replicate 32 1;
  encrypt_implicit_iv = replicate 8 9;
  decrypt_cipher = replicate 32 1;
  decrypt_implicit_iv = replicate 8 9;
  cipher_key_len = 16;
}

abbrev end : Wrapper
end = record {
  peer_id = 5;
  key_id = 0;
  encrypt_aead = toy;
  encrypt_iv = replicate 8 9;
  decrypt_aead = toy;
  decrypt_iv = replicate 8 9;
  send_seq = 0;
  replay = zero_window;
}

new_wrapper_run : new_wrapper (λ k. ok toy) keys 5 0 ≡ ok end
unfolding new_wrapper
new_wrapper_run = refl

bad_key_length :
    new_wrapper (λ k. ok toy) (record keys { cipher_key_len = 24 }) 5 0 ≡ err Error.cipher_key_len
unfolding new_wrapper
bad_key_length = refl

ping_absorbed_run : open_all end (seal_all end (ping_magic ∷ [])).0 ≡ err Error.ping_absorbed ∷ []
unfolding open_all seal_all seal next_packet_id seal_with_seq open_packet admit decrypt accept
    is_ping equal_bytes
ping_absorbed_run = refl

abbrev arrivals : List (ℕ × List ℕ)
arrivals = (2, 20 ∷ []) ∷ (1, 10 ∷ []) ∷ (2, 20 ∷ []) ∷ (3, ping_magic) ∷ []

open_all-expected_example :
    open_all end (map (λ a. seal_with_seq end [] a.0 a.1) arrivals) ≡ expected [] arrivals
open_all-expected_example =
    open_all-expected end end arrivals toy-Matches refl refl
      (omega arith, (omega arith, (omega arith, (omega arith, tt))))

expected_run :
    expected [] arrivals
    ≡ ok (20 ∷ []) ∷ ok (10 ∷ []) ∷ err Error.replayed ∷ err Error.ping_absorbed ∷ []
unfolding expected answer is_fresh is_ping equal_bytes
expected_run = refl

abbrev packets : List (List ℕ)
packets = map (λ a. seal_with_seq end [] a.0 a.1) arrivals ++ (replicate 30 0 ∷ [])

through-NoRepeats_example : NoRepeats (through end [] packets)
through-NoRepeats_example = through-NoRepeats end packets refl

seal_all-NoRepeats_example :
    (map packet_seq (seal_all end ((1 ∷ []) ∷ (2 ∷ []) ∷ [])).0 ≡ consecutive 1 2)
    × NoRepeats (map packet_seq (seal_all end ((1 ∷ []) ∷ (2 ∷ []) ∷ [])).0)
seal_all-NoRepeats_example = seal_all-NoRepeats end ((1 ∷ []) ∷ (2 ∷ []) ∷ []) (omega arith)

open_packet-Opened_example : Opened end [] (replicate 30 0) (open_packet end [] (replicate 30 0))
open_packet-Opened_example = open_packet-Opened end [] (replicate 30 0)
