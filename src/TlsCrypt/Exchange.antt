-- ===== src/TlsCrypt/Exchange.antt =====
-- Two ends that have one static key: what one wraps, the other unwraps.
use govpn.Base.{
  ℕ, ◌+◌, ◌≤◌, ◌<◌, Bool, true, false, not, ◌==◌, ◌≡◌, refl, sym, ap, ◌∙◌, subst, List, [], ◌∷◌,
  map, length, All, Result, ok, err, branch-keeps_when, guard_then, arith,
}
use govpn.Base.Words.{add32}
use govpn.Replay.{accept}
use govpn.Replay.Step.{accept_newer}
use govpn.TlsCrypt.{
  Crypto, Wrapper, Error, off_pid, packet_id, keyed, bad_key, new_wrapper, wrap_with_pid, wrap_next,
  start_time, wrap, unwrap,
}
use govpn.TlsCrypt.Unwrap.{IsSound, answer, unwrap-wrap_with_pid}

-- The time of a message, its header and its plaintext.
abbrev pub Message : Type 0
Message = ℕ × (List ℕ × List ℕ)

-- What the receiver answers to each message of the sender.
unfoldable pub exchange :
    Crypto → Wrapper → Wrapper → List Message → List (Result Error (List ℕ × List ℕ))
unfolding wrap unwrap
exchange crypto w r [] = []
exchange crypto w r ((now, (header, plaintext)) ∷ ms) =
    elim (wrap crypto now [] header plaintext w).1 [
      | err e ↦ err e ∷ exchange crypto (wrap crypto now [] header plaintext w).0 r ms
      | ok packet ↦
          (unwrap crypto r [] packet).1
          ∷ exchange crypto (wrap crypto now [] header plaintext w).0 (unwrap crypto r [] packet).0
              ms
    ]

-- The sender as it is when it takes the next number.
abbrev taken : ℕ → Wrapper → Wrapper
taken now w = record (start_time now w) { send_seq = add32 (start_time now w).send_seq 1 }

start_time_seq : (now : ℕ) (w : Wrapper) → (start_time now w).send_seq ≡ w.send_seq
start_time_seq now w = ground (arith)

start_time_keys : (now : ℕ) (w : Wrapper) → (start_time now w).encrypt ≡ w.encrypt
start_time_keys now w = ground (arith)

at_end : (a b : ℕ) → a ≡ b → b < 0xFFFF_FFFF → (a == 0xFFFF_FFFF) ≡ true → ⊥
at_end a b e h full = ground (arith)

wrap_below :
    (crypto : Crypto) (now : ℕ) (header plaintext : List ℕ) (w : Wrapper)
    → length header ≡ off_pid
    → w.send_seq < 0xFFFF_FFFF
    → wrap crypto now [] header plaintext w ≡ (
      taken now w,
      ok (
          wrap_with_pid crypto
            (taken now w)
            []
            header
            (packet_id (taken now w).send_seq (taken now w).send_time)
            plaintext),
    )
unfolding wrap wrap_next
wrap_below crypto now header plaintext w lh h =
    let P : Wrapper × Result Error (List ℕ) → Type 0 = λ x. x ≡ (
      taken now w,
      ok (
          wrap_with_pid crypto (taken now w) [] header
            (packet_id (taken now w).send_seq (taken now w).send_time) plaintext),
    ) in
    branch-keeps_when P (not (length header == off_pid)) _ _
      (λ bad. absurd (ground (arith, bad, lh)))
      (λ _.
        branch-keeps_when P ((start_time now w).send_seq == 0xFFFF_FFFF) _ _
          (λ full.
            absurd (at_end (start_time now w).send_seq w.send_seq (start_time_seq now w) h full))
          (λ _. refl))

-- Both ends while their numbers last: the receiver has the sender's keys, and nothing newer.
record Agree (w r : Wrapper) (left : ℕ) : Type 0 where
  keys : r.decrypt ≡ w.encrypt
  lasts : w.send_seq + left < 0xFFFF_FFFF
  newest : r.replay.init ≡ true → r.replay.highest ≤ w.send_seq

answer_fresh :
    (r : Wrapper) (seq : ℕ) (header plaintext : List ℕ)
    → (accept r.replay seq).1 ≡ true
    → (answer r seq header plaintext).1 ≡ ok (header, plaintext)
answer_fresh r seq header plaintext e = rw e refl

value_or : Wrapper → Result Error Wrapper → Wrapper
value_or w (ok v) = v
value_or w (err e) = w

new_wrapper-keyed :
    (key : List ℕ) (server : Bool) (w : Wrapper)
    → new_wrapper key server ≡ ok w
    → keyed key server ≡ w
unfolding new_wrapper value_or
new_wrapper-keyed key server w made =
    ap (value_or w) (guard_then (length key == 256) bad_key (ok (keyed key server)) made).1

keyed-Agree :
    (key : List ℕ) (server : Bool) (n : ℕ)
    → n < 0xFFFF_FFFF
    → Agree (keyed key server) (keyed key (not server)) n
keyed-Agree key true n few = record {
  keys = refl;
  lasts = omega (arith);
  newest = λ i. omega (arith);
}
keyed-Agree key false n few = record {
  keys = refl;
  lasts = omega (arith);
  newest = λ i. omega (arith);
}

new_wrapper-Agree :
    (key : List ℕ) (server : Bool) (w r : Wrapper) (n : ℕ)
    → new_wrapper key server ≡ ok w
    → new_wrapper key (not server) ≡ ok r
    → n < 0xFFFF_FFFF
    → Agree w r n
new_wrapper-Agree key server w r n made made' few =
    subst (λ (x : Wrapper). Agree w x n) (new_wrapper-keyed key (not server) r made')
      (subst (λ (x : Wrapper). Agree x (keyed key (not server)) n)
        (new_wrapper-keyed key server w made) (keyed-Agree key server n few))

-- The rest of an exchange after one wrapping.
abbrev next :
    Crypto
    → Wrapper
    → List Message
    → Wrapper × Result Error (List ℕ)
    → List (Result Error (List ℕ × List ℕ))
next crypto r ms (w, err e) = err e ∷ exchange crypto w r ms
next crypto r ms (w, ok packet) =
    (unwrap crypto r [] packet).1 ∷ exchange crypto w (unwrap crypto r [] packet).0 ms

exchange-Agree :
    (crypto : Crypto) (w r : Wrapper) (ms : List Message)
    → IsSound crypto
    → Agree w r (length ms)
    → All (λ (m : Message). length m.1.0 ≡ off_pid) ms
    → exchange crypto w r ms ≡ map (λ (m : Message). ok m.1) ms
unfolding exchange
exchange-Agree crypto w r [] s v hs = refl
exchange-Agree crypto w r ((now, (header, plaintext)) ∷ ms) s v hs =
    let w₁ : Wrapper = taken now w in
    let seq : ℕ = w₁.send_seq in
    let n : seq ≡ w.send_seq + 1 = omega (arith, start_time_seq now w, v.lasts) in
    let sent = wrap_below crypto now header plaintext w hs.0 (omega (arith, v.lasts)) in
    let newer = accept_newer r.replay seq (λ i. omega (arith, v.newest i, n)) in
    let got =
      unwrap-wrap_with_pid crypto w₁ r header plaintext seq w₁.send_time s
        (v.keys ∙ sym (start_time_keys now w)) hs.0 (omega (arith, n, v.lasts)) in
    let packet : List ℕ =
      wrap_with_pid crypto w₁ [] header (packet_id seq w₁.send_time) plaintext in
    let r₁ : Wrapper = (answer r seq header plaintext).0 in
    let v₁ : Agree w₁ r₁ (length ms) = record {
      keys = v.keys ∙ sym (start_time_keys now w);
      lasts = omega (arith, v.lasts, n);
      newest = λ _. omega (arith, newer.1);
    } in
    ap (λ (x : Wrapper × Result Error (List ℕ)). next crypto r ms x) sent
    ∙ ap (λ (y : Wrapper × Result Error (List ℕ × List ℕ)). y.1 ∷ exchange crypto w₁ y.0 ms) got
    ∙ ap (λ (a : Result Error (List ℕ × List ℕ)). a ∷ exchange crypto w₁ r₁ ms)
        (answer_fresh r seq header plaintext newer.0)
    ∙ ap (λ (l : List (Result Error (List ℕ × List ℕ))). ok (header, plaintext) ∷ l)
        (exchange-Agree crypto w₁ r₁ ms s v₁ hs.1)

-- The server and the client of one 256-byte static key, either of them sending: with sound functions of
-- the crypto packages, headers of nine bytes and fewer than 2^32 - 1 messages, the receiver unwraps each
-- message to the header and the plaintext that were wrapped.
pub exchange-new_wrapper :
    (crypto : Crypto) (key : List ℕ) (server : Bool) (w r : Wrapper) (ms : List Message)
    → IsSound crypto
    → new_wrapper key server ≡ ok w
    → new_wrapper key (not server) ≡ ok r
    → length ms < 0xFFFF_FFFF
    → All (λ (m : Message). length m.1.0 ≡ off_pid) ms
    → exchange crypto w r ms ≡ map (λ (m : Message). ok m.1) ms
exchange-new_wrapper crypto key server w r ms s made made' few hs =
    exchange-Agree crypto w r ms s (new_wrapper-Agree key server w r (length ms) made made' few) hs
