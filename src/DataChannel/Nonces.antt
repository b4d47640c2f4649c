-- ===== src/DataChannel/Nonces.antt =====
-- The packet ids that `Seal` gives out, which make up the nonces.
use govpn.Base.{
  ℕ, zero, suc, ◌+◌, ◌-◌, ◌≤◌, ◌<◌, ◌^◌, min, ◌≡◌, refl, sym, ap, ◌∙◌, subst, true, false, ◌==◌,
  not_eq, ◌>>=◌, List, [], ◌∷◌, map, length, member, NoRepeats, Result, ok, err, arith,
}
use govpn.DataChannel.{Wrapper, Error, packet_seq, max_uint32, next_packet_id, seal, seal_with_seq}
use govpn.DataChannel.Packet.{packet_seq-seal_with_seq}

-- The packets that come of sealing the plaintexts one after the other; a plaintext that `Seal` refuses
-- gives none.
unfoldable pub seal_all : Wrapper → List (List ℕ) → List (List ℕ) × Wrapper
seal_all w [] = ([], w)
seal_all w (p ∷ ps) = elim (seal w [] p) [
  | ok (packet, w₁) ↦ (packet ∷ (seal_all w₁ ps).0, (seal_all w₁ ps).1)
  | err e ↦ seal_all w ps
]

-- `n` numbers from `a` on.
abbrev pub consecutive : ℕ → ℕ → List ℕ
consecutive a zero = []
consecutive a (suc n) = a ∷ consecutive (a + 1) n

next_exhausted :
    (w : Wrapper)
    → (w.send_seq == max_uint32) ≡ true
    → next_packet_id w ≡ err Error.packet_id_exhausted
unfolding next_packet_id
next_exhausted w h = rw h

next_next :
    (w : Wrapper)
    → (w.send_seq == max_uint32) ≡ false
    → next_packet_id w ≡ ok (w.send_seq + 1, record w { send_seq = w.send_seq + 1 })
unfolding next_packet_id
next_next w h = rw h

seal_exhausted :
    (w : Wrapper) (p : List ℕ)
    → (w.send_seq == max_uint32) ≡ true
    → seal w [] p ≡ err Error.packet_id_exhausted
unfolding seal
seal_exhausted w p h =
    ap (λ (m : Result Error (ℕ × Wrapper)). m >>= λ (seq, w₁). ok (seal_with_seq w₁ [] seq p, w₁))
      (next_exhausted w h)

pub seal_next :
    (w : Wrapper) (p : List ℕ)
    → (w.send_seq == max_uint32) ≡ false
    → seal w [] p
      ≡ ok (seal_with_seq w [] (w.send_seq + 1) p, record w { send_seq = w.send_seq + 1 })
unfolding seal seal_with_seq
seal_next w p h =
    ap (λ (m : Result Error (ℕ × Wrapper)). m >>= λ (seq, w₁). ok (seal_with_seq w₁ [] seq p, w₁))
      (next_next w h)

seal_all_err :
    (w : Wrapper) (p : List ℕ) (ps : List (List ℕ)) (e : Error)
    → seal w [] p ≡ err e
    → seal_all w (p ∷ ps) ≡ seal_all w ps
unfolding seal_all
seal_all_err w p ps e h = rw (h, seal_all)

seal_all_ok :
    (w w₁ : Wrapper) (p packet : List ℕ) (ps : List (List ℕ))
    → seal w [] p ≡ ok (packet, w₁)
    → (seal_all w (p ∷ ps)).0 ≡ packet ∷ (seal_all w₁ ps).0
unfolding seal_all
seal_all_ok w w₁ p packet ps h = rw (h, seal_all)

seal_all_exhausted :
    (w : Wrapper) (ps : List (List ℕ)) → (w.send_seq == max_uint32) ≡ true → (seal_all w ps).0 ≡ []
unfolding seal_all
seal_all_exhausted w [] h = refl
seal_all_exhausted w (p ∷ ps) h =
    ap (λ (t : List (List ℕ) × Wrapper). t.0) (seal_all_err w p ps _ (seal_exhausted w p h))
    ∙ seal_all_exhausted w ps h

seal_all-consecutive :
    (w : Wrapper) (ps : List (List ℕ)) (n : ℕ)
    → w.send_seq ≤ max_uint32
    → n ≡ min (length ps) (max_uint32 - w.send_seq)
    → map packet_seq (seal_all w ps).0 ≡ consecutive (w.send_seq + 1) n
seal_all-consecutive w [] zero b e = unfold seal_all in refl
seal_all-consecutive w [] (suc n) b e = absurd (omega arith)
seal_all-consecutive w (p ∷ ps) zero b e =
    ap (λ (t : List (List ℕ)). map packet_seq t) (seal_all_exhausted w (p ∷ ps) (ground arith))
seal_all-consecutive w (p ∷ ps) (suc n) b e =
    ap (λ (t : List (List ℕ)). map packet_seq t)
      (seal_all_ok w (record w { send_seq = w.send_seq + 1 }) p
        (seal_with_seq w [] (w.send_seq + 1) p) ps (seal_next w p (ground arith)))
    ∙ ap (λ (a : ℕ). a ∷ map packet_seq (seal_all (record w { send_seq = w.send_seq + 1 }) ps).0)
        (packet_seq-seal_with_seq w (w.send_seq + 1) p (ground arith))
    ∙ ap (◌∷◌ (w.send_seq + 1)) (
        seal_all-consecutive (record w { send_seq = w.send_seq + 1 }) ps n (ground arith)
          (ground arith))

consecutive_above : (a b n : ℕ) → a < b → member a (consecutive b n) ≡ false
unfolding member
consecutive_above a b zero h = refl
consecutive_above a b (suc n) h =
    rw (not_eq a b (λ q. omega arith)) (consecutive_above a (b + 1) n (omega arith))

consecutive-NoRepeats : (a n : ℕ) → NoRepeats (consecutive a n)
consecutive-NoRepeats a zero = tt
consecutive-NoRepeats a (suc n) =
    (consecutive_above a (a + 1) n (omega arith), consecutive-NoRepeats (a + 1) n)

-- Sealing any plaintexts one after the other gives out the ids after the last one used, without a gap,
-- one for each plaintext until 2^32 - 1 is reached, and no id twice; so no nonce is used twice.
pub seal_all-NoRepeats :
    (w : Wrapper) (ps : List (List ℕ))
    → w.send_seq < 2 ^ 32
    → (map packet_seq (seal_all w ps).0
        ≡ consecutive (w.send_seq + 1) (min (length ps) (max_uint32 - w.send_seq)))
      × NoRepeats (map packet_seq (seal_all w ps).0)
seal_all-NoRepeats w ps h =
    let n : ℕ = min (length ps) (max_uint32 - w.send_seq) in
    let e = seal_all-consecutive w ps n (ground arith) refl in
    (e, subst NoRepeats (sym e) (consecutive-NoRepeats (w.send_seq + 1) n))
