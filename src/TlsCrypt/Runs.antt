-- ===== src/TlsCrypt/Runs.antt =====
-- Control packets wrapped and unwrapped, with small functions in place of the crypto packages.
use govpn.Base.{
  ℕ, ◌-◌, ◌≡◌, refl, true, false, not, ltb, if◌then◌else◌, List, [], ◌∷◌, ◌++◌, map, length, take,
  replicate, ok, err, length-append, length-take, arith,
}
use govpn.Replay.{accept}
use govpn.TlsCrypt.{Crypto, auth, packet_id_rollover, keyed, new_wrapper, wrap}
use govpn.TlsCrypt.KeyFile.{
  parse_static_key, static_key_head, static_key_foot, bad_body_len, bad_envelope,
}
use govpn.TlsCrypt.Unwrap.{IsSound}
use govpn.TlsCrypt.Exchange.{Message, exchange, exchange-new_wrapper}

abbrev flip_byte : ℕ → ℕ
flip_byte b = if ltb b 256 then 255 - b else b

abbrev flip : List ℕ → List ℕ
flip [] = []
flip (b ∷ bs) = flip_byte b ∷ flip bs

-- A tag of the key's front and the message's, and a key stream of ones.
abbrev toy : Crypto
toy = record {
  hmac = λ key m. take 32 (take 4 key ++ (m ++ replicate 32 0));
  ctr = λ key iv p. flip p;
}

length-flip : (p : List ℕ) → length (flip p) ≡ length p
length-flip [] = refl
length-flip (b ∷ bs) = omega (arith, length-flip bs)

flip_byte_twice : (b : ℕ) → flip_byte (flip_byte b) ≡ b
flip_byte_twice b = ground (arith)

flip_twice : (p : List ℕ) → flip (flip p) ≡ p
flip_twice [] = refl
flip_twice (b ∷ bs) = rw (flip_byte_twice b, flip_twice bs) refl

toy-IsSound : IsSound toy
toy-IsSound = record {
  length_hmac = λ key m. omega (
    arith,
    length-take 32 (take 4 key ++ (m ++ replicate 32 0)),
    length-append (take 4 key) (m ++ replicate 32 0),
    length-append m (replicate 32 0),
  );
  length_ctr = λ key iv p. length-flip p;
  ctr_ctr = λ key iv p. flip_twice p;
}

-- A static key whose halves differ.
abbrev key : List ℕ
key = replicate 128 5 ++ replicate 128 9

abbrev header : List ℕ
header = 56 ∷ 1 ∷ 2 ∷ 3 ∷ 4 ∷ 5 ∷ 6 ∷ 7 ∷ 8 ∷ []

abbrev messages : List Message
messages = (1000, (header, 10 ∷ 20 ∷ [])) ∷ (1001, (header, [])) ∷ []

exchanged :
    exchange toy (keyed key true) (keyed key false) messages
    ≡ ok (header, 10 ∷ 20 ∷ []) ∷ ok (header, []) ∷ []
unfolding exchange accept
exchanged = refl

-- Both ends with the server's direction: nothing authenticates.
same_direction : exchange toy (keyed key true) (keyed key true) messages ≡ err auth ∷ err auth ∷ []
unfolding exchange
same_direction = refl

-- A second that has not passed since the last time keeps the sequence from starting over.
rolls_over :
    (wrap toy 1000 [] header [] (record (keyed key true) {
      send_seq = 0xFFFF_FFFF;
      send_time = 900;
      send_rollover_at = 1000;
    })).1
    ≡ err packet_id_rollover
unfolding wrap
rolls_over = refl

made_server : new_wrapper key true ≡ ok (keyed key true)
unfolding new_wrapper
made_server = refl

made_client : new_wrapper key (not true) ≡ ok (keyed key false)
unfolding new_wrapper
made_client = refl

exchange-new_wrapper_example :
    exchange toy (keyed key true) (keyed key false) messages
    ≡ map (λ (m : Message). ok m.1) messages
exchange-new_wrapper_example =
    exchange-new_wrapper toy key true (keyed key true) (keyed key false) messages toy-IsSound
      made_server made_client (omega (arith)) (refl, (refl, tt))

-- Key files: a text before the envelope, digits of both cases with space between them, and what is wrong.
abbrev key_file : List ℕ → List ℕ
key_file body = 35 ∷ 10 ∷ (static_key_head ++ (body ++ static_key_foot))

key_file_parsed :
    parse_static_key (key_file (10 ∷ (replicate 256 97 ++ (10 ∷ replicate 256 66))))
    ≡ ok (replicate 128 170 ++ replicate 128 187)
unfolding parse_static_key
key_file_parsed = refl

key_file_short : parse_static_key (key_file (48 ∷ 49 ∷ [])) ≡ err bad_body_len
unfolding parse_static_key
key_file_short = refl

key_file_odd : parse_static_key (key_file (48 ∷ [])) ≡ err bad_envelope
unfolding parse_static_key
key_file_odd = refl

key_file_foreign : parse_static_key (key_file (48 ∷ 103 ∷ [])) ≡ err bad_envelope
unfolding parse_static_key
key_file_foreign = refl
