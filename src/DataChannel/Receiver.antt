-- ===== src/DataChannel/Receiver.antt =====
-- The receiving side over any sequence of packets.
use govpn.Base.{
  ℕ, ◌+◌, ◌≡◌, refl, sym, ap, ◌∙◌, subst, Bool, true, false, Bool-cases, inl, inr, ltb,
  if◌then◌else◌, List, [], ◌∷◌, map, length, All, NoRepeats, Result, ok, err, arith,
}
use govpn.Base.Words.{IsU32}
use govpn.Replay.{ReplayWindow, zero_window, accept}
use govpn.Replay.Spec.{is_fresh, grow, Represents}
use govpn.Replay.Step.{accept-Represents}
use govpn.Replay.History.{zero-Represents}
use govpn.DataChannel.{
  Wrapper, Error, header, nonce, off_ciphertext, packet_seq, seal_with_seq, admit, open_packet,
  is_ping,
}
use govpn.DataChannel.Packet.{
  Matches, decrypt-seal_with_seq, length-seal_with_seq, packet_seq-seal_with_seq,
}
use govpn.DataChannel.RoundTrip.{Opened, open_packet-Opened, open_authentic}

unfoldable pub open_all : Wrapper → List (List ℕ) → List (Result Error (List ℕ))
open_all r [] = []
open_all r (packet ∷ packets) =
    (open_packet r [] packet).1 ∷ open_all (open_packet r [] packet).0 packets

-- What a fresh or stale plaintext is answered with.
unfoldable pub answer : Bool → List ℕ → Result Error (List ℕ)
answer true p = if is_ping p then err Error.ping_absorbed else ok p
answer false p = err Error.replayed

-- The answers to packets told by their ids and plaintexts, from the ids accepted before.
unfoldable pub expected : List ℕ → List (ℕ × List ℕ) → List (Result Error (List ℕ))
unfolding answer is_fresh
expected accepted [] = []
expected accepted ((seq, p) ∷ arrivals) =
    answer (is_fresh seq accepted) p ∷ expected (grow (is_fresh seq accepted) seq accepted) arrivals

admit-answer :
    (r : Wrapper) (p : List ℕ) (seq : ℕ)
    → admit r [] seq p
      ≡ (record r { replay = (accept r.replay seq).0 }, answer (accept r.replay seq).1 p)
unfolding admit answer
admit-answer r p seq = elim (Bool-cases (accept r.replay seq).1) [
  | inr stale ↦ rw stale
  | inl fresh ↦ elim (Bool-cases (is_ping p)) [
    | inl ping ↦ rw (fresh, ping)
    | inr payload ↦ rw (fresh, payload)
  ]
]

open_packet_sealed :
    (w r : Wrapper) (seq : ℕ) (p : List ℕ)
    → Matches w.encrypt_aead r.decrypt_aead
    → w.encrypt_iv ≡ r.decrypt_iv
    → IsU32 seq
    → open_packet r [] (seal_with_seq w [] seq p)
      ≡ (record r { replay = (accept r.replay seq).0 }, answer (accept r.replay seq).1 p)
open_packet_sealed w r seq p keys iv h =
    open_authentic r [] (seal_with_seq w [] seq p) p
      (long_enough (length (seal_with_seq w [] seq p)) (length p)
        (length-seal_with_seq w seq p (keys.length_seal (nonce seq w.encrypt_iv) p (header w seq))))
      (decrypt-seal_with_seq w r seq p keys iv h)
    ∙ ap (λ (q : ℕ). admit r [] q p) (packet_seq-seal_with_seq w seq p h)
    ∙ admit-answer r p seq
  where
    long_enough : (a b : ℕ) → a ≡ b + off_ciphertext → ltb a off_ciphertext ≡ false
    long_enough a b h = ground arith

open_all_sealed :
    (w r : Wrapper) (accepted : List ℕ) (arrivals : List (ℕ × List ℕ))
    → Matches w.encrypt_aead r.decrypt_aead
    → w.encrypt_iv ≡ r.decrypt_iv
    → Represents r.replay accepted
    → All (λ a. IsU32 a.0) arrivals
    → open_all r (map (λ a. seal_with_seq w [] a.0 a.1) arrivals) ≡ expected accepted arrivals
unfolding open_all expected
open_all_sealed w r accepted [] keys iv v h = refl
open_all_sealed w r accepted ((seq, p) ∷ arrivals) keys iv v h =
    let packets : List (List ℕ) = map (λ a. seal_with_seq w [] a.0 a.1) arrivals in
    let after : ReplayWindow = (accept r.replay seq).0 in
    let (fresh, v') = accept-Represents r.replay accepted seq v in
    ap (λ (t : Wrapper × Result Error (List ℕ)). t.1 ∷ open_all t.0 packets)
      (open_packet_sealed w r seq p keys iv h.0)
    ∙ ap (λ (b : Bool). answer b p ∷ open_all (record r { replay = after }) packets) fresh
    ∙ ap (◌∷◌ (answer (is_fresh seq accepted) p)) (
        open_all_sealed w (record r { replay = (accept r.replay seq).0 })
          (grow (is_fresh seq accepted) seq accepted) arrivals keys iv
          (subst (λ (b : Bool). Represents after (grow b seq accepted)) fresh v') h.1)

-- A new receiver that has the sender's key and implicit IV, fed sealed packets in any order, with losses
-- and repetitions, answers each as it should: the plaintext that was sealed, or that it was a ping, if
-- the id was never accepted before and is less than 64 below the highest one accepted, and a replay if
-- not.
pub open_all-expected :
    (w r : Wrapper) (arrivals : List (ℕ × List ℕ))
    → Matches w.encrypt_aead r.decrypt_aead
    → w.encrypt_iv ≡ r.decrypt_iv
    → r.replay ≡ zero_window
    → All (λ a. IsU32 a.0) arrivals
    → open_all r (map (λ a. seal_with_seq w [] a.0 a.1) arrivals) ≡ expected [] arrivals
open_all-expected w r arrivals keys iv z h =
    open_all_sealed w r [] arrivals keys iv
      (subst (λ (v : ReplayWindow). Represents v []) (sym z) zero-Represents) h

-- Whether an answer means that the packet got through the authentication and the replay window.
unfoldable pub is_through : Result Error (List ℕ) → Bool
is_through (ok out) = true
is_through (err Error.ping_absorbed) = true
is_through (err e) = false

-- The ids of the packets that got through, latest first, after those of `before`.
unfoldable pub through : Wrapper → List ℕ → List (List ℕ) → List ℕ
unfolding is_through
through r before [] = before
through r before (packet ∷ packets) =
    let (r₁, res) = open_packet r [] packet in
    through r₁ (grow (is_through res) (packet_seq packet) before) packets

-- What one call of `Open` does to the list of ids that got through.
abbrev pub Keeps : Wrapper → List ℕ → ℕ → Wrapper × Result Error (List ℕ) → Type 0
Keeps r before seq (r₁, res) =
    Represents r₁.replay (grow (is_through res) seq before)
    × (is_through res ≡ true → is_fresh seq before ≡ true)

fresh-Keeps :
    (r r₁ : Wrapper) (before : List ℕ) (seq : ℕ)
    → Represents r.replay before
    → r₁ ≡ record r { replay = (accept r.replay seq).0 }
    → (accept r.replay seq).1 ≡ true
    → Represents r₁.replay (seq ∷ before) × (true ≡ true → is_fresh seq before ≡ true)
fresh-Keeps r r₁ before seq v e taken =
    let (fresh, v') = accept-Represents r.replay before seq v in
    (
      subst (λ (t : Wrapper). Represents t.replay (seq ∷ before)) (sym e)
          (subst (λ (b : Bool). Represents (accept r.replay seq).0 (grow b seq before)) taken v'),
      λ _. sym fresh ∙ taken,
    )

stale-Keeps :
    (r r₁ : Wrapper) (before : List ℕ) (seq : ℕ)
    → Represents r.replay before
    → r₁ ≡ r
    → Represents r₁.replay before × (false ≡ true → is_fresh seq before ≡ true)
stale-Keeps r r₁ before seq v e =
    (subst (λ (t : Wrapper). Represents t.replay before) (sym e) v, λ q. cc)

Opened-Keeps :
    (r : Wrapper) (before packet : List ℕ) (o : Wrapper × Result Error (List ℕ))
    → Represents r.replay before
    → Opened r [] packet o
    → Keeps r before (packet_seq packet) o
unfolding is_through
Opened-Keeps r before packet (r₁, err Error.too_short) v h =
    stale-Keeps r r₁ before (packet_seq packet) v h.1
Opened-Keeps r before packet (r₁, err Error.auth) v h =
    stale-Keeps r r₁ before (packet_seq packet) v h.2
Opened-Keeps r before packet (r₁, err Error.replayed) v h =
    stale-Keeps r r₁ before (packet_seq packet) v h.1
Opened-Keeps r before packet (r₁, err Error.ping_absorbed) v h =
    fresh-Keeps r r₁ before (packet_seq packet) v h.0 h.1
Opened-Keeps r before packet (r₁, ok out) v h =
    fresh-Keeps r r₁ before (packet_seq packet) v h.0 h.1
Opened-Keeps r before packet (r₁, err Error.packet_id_exhausted) v h = absurd h
Opened-Keeps r before packet (r₁, err Error.cipher_key_len) v h = absurd h
Opened-Keeps r before packet (r₁, err Error.cipher_failed) v h = absurd h

grow-NoRepeats :
    (b : Bool) (seq : ℕ) (before : List ℕ)
    → (b ≡ true → is_fresh seq before ≡ true)
    → NoRepeats before
    → NoRepeats (grow b seq before)
unfolding is_fresh
grow-NoRepeats true seq before f h = (ground (arith, f refl), h)
grow-NoRepeats false seq before f h = h

through-NoRepeats_from :
    (r : Wrapper) (before : List ℕ) (packets : List (List ℕ))
    → Represents r.replay before
    → NoRepeats before
    → NoRepeats (through r before packets)
unfolding through
through-NoRepeats_from r before [] v h = h
through-NoRepeats_from r before (packet ∷ packets) v h =
    let k =
      Opened-Keeps r before packet (open_packet r [] packet) v (open_packet-Opened r [] packet) in
    through-NoRepeats_from (open_packet r [] packet).0
      (grow (is_through (open_packet r [] packet).1) (packet_seq packet) before) packets k.0
      (grow-NoRepeats (is_through (open_packet r [] packet).1) (packet_seq packet) before k.1 h)

-- Whatever packets reach a new receiver, forged or not and in whatever order, those that get through,
-- as a payload or as a ping, never carry one packet id twice.
pub through-NoRepeats :
    (r : Wrapper) (packets : List (List ℕ))
    → r.replay ≡ zero_window
    → NoRepeats (through r [] packets)
through-NoRepeats r packets z =
    through-NoRepeats_from r [] packets
      (subst (λ (v : ReplayWindow). Represents v []) (sym z) zero-Represents) tt
