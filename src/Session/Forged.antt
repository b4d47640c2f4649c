-- ===== src/Session/Forged.antt =====
-- session.go: a data packet that no live key accepts, forged or replayed, changes nothing.
use govpn.Base.{
  ℕ, Bool, true, false, not, ◌&&◌, ◌||◌, ltb, if◌then◌else◌, Option, none, some, ◌≡◌, refl, sym, ap,
  ◌∙◌, subst, List, [], length, Result, ok, err, option-keeps_when, branch-keeps_when,
  result-keeps_when, Option-cases, Bool-cases, inl, inr, arith,
}
use govpn.Replay.{ReplayWindow, accept}
use govpn.Replay.Step.{accept_rejected}
use govpn.DataChannel.{
  Wrapper, Error, open_packet, admit, decrypt, is_ping, packet_seq, ping_absorbed, replayed,
  off_ciphertext,
}
use govpn.DataChannel.RoundTrip.{open_authentic}
use govpn.Session.{Config, Session, Effect}
use govpn.Session.Data.{
  is_ping_absorbed, try_lame_duck, handle_data_packet, set_primary, set_lame_duck,
}

-- A payload or a ping.
abbrev pub is_accepted : Result Error (List ℕ) → Bool
is_accepted (ok p) = true
is_accepted (err e) = is_ping_absorbed e

abbrev pub accepted_by : Option Wrapper → List ℕ → Bool
accepted_by none packet = false
accepted_by (some w) packet = is_accepted (open_packet w [] packet).1

-- The key in use, or the old one while it may still be used, accepts the packet.
abbrev pub accepted_by_session : ℕ → List ℕ → Session → Bool
accepted_by_session now packet s =
    accepted_by s.primary.wrapper packet
    || (ltb now s.lame_duck.must_die && accepted_by s.lame_duck.wrapper packet)

abbrev verdict : Wrapper → Bool → Bool → List ℕ → Wrapper × Result Error (List ℕ)
verdict w fresh ping p =
    if fresh then (if ping then (w, err ping_absorbed) else (w, ok p)) else (w, err replayed)

admitted :
    (w w₁ : Wrapper) (fresh ping : Bool) (p : List ℕ)
    → (fresh ≡ false → w₁ ≡ w)
    → is_accepted (verdict w₁ fresh ping p).1 ≡ false
    → (verdict w₁ fresh ping p).0 ≡ w
admitted w w₁ true true p h e = absurd (ground (arith, e))
admitted w w₁ true false p h e = absurd (ground (arith, e))
admitted w w₁ false ping p h e = h refl

admit_rejected :
    (w : Wrapper) (seq : ℕ) (p : List ℕ)
    → is_accepted (admit w [] seq p).1 ≡ false
    → (admit w [] seq p).0 ≡ w
unfolding admit
admit_rejected w seq p e =
    admitted w (record w { replay = (accept w.replay seq).0 }) (accept w.replay seq).1 (is_ping p) p
      (λ stale.
        ap (λ (r : ReplayWindow). record w { replay = r }) (accept_rejected w.replay seq stale))
      e

open_packet_rejected :
    (w : Wrapper) (packet : List ℕ)
    → is_accepted (open_packet w [] packet).1 ≡ false
    → (open_packet w [] packet).0 ≡ w
unfolding open_packet
open_packet_rejected w packet e = elim (Bool-cases (ltb (length packet) off_ciphertext)) [
  | inl short ↦ rw (open_packet, short) refl
  | inr long ↦ elim (Option-cases (decrypt w packet)) [
    | inl forged ↦ rw (open_packet, long, forged) refl
    | inr (p, authentic) ↦
        rw (open_packet, long, authentic)
          (admit_rejected w (packet_seq packet) p (
            subst (λ (x : Wrapper × Result Error (List ℕ)). is_accepted x.1 ≡ false)
              (open_authentic w [] packet p long authentic) e))
  ]
]

contradicted : (b : Bool) → b ≡ true → b ≡ false → ⊥
contradicted b t f = ground (arith, sym t ∙ f)

ok_accepted : (p : List ℕ) (r : Result Error (List ℕ)) → r ≡ ok p → is_accepted r ≡ false → ⊥
ok_accepted p r e rejected = contradicted (is_accepted r) (ap is_accepted e) rejected

ping_accepted :
    (x : Error) (r : Result Error (List ℕ))
    → r ≡ err x
    → is_ping_absorbed x ≡ true
    → is_accepted r ≡ false
    → ⊥
ping_accepted x r e ping rejected = contradicted (is_accepted r) (ap is_accepted e ∙ ping) rejected

second : (a b : Bool) → not a ≡ false → (a && b) ≡ false → b ≡ false
second true b na h = h
second false b na h = ground (arith, na)

first : (a b : Bool) → (a || b) ≡ false → (a ≡ false) × (b ≡ false)
first true b h = ground (arith, h)
first false b h = (refl, h)

rejected_by :
    (now must_die : ℕ) (o : Option Wrapper) (w : Wrapper) (packet : List ℕ)
    → o ≡ some w
    → not (ltb now must_die) ≡ false
    → (ltb now must_die && accepted_by o packet) ≡ false
    → is_accepted (open_packet w [] packet).1 ≡ false
rejected_by now must_die o w packet held early h =
    ap (λ (x : Option Wrapper). accepted_by x packet) (sym held)
    ∙ second (ltb now must_die) (accepted_by o packet) early h

-- What a rejected packet leaves of the session that holds the key.
set_primary_same : (s : Session) (w : Wrapper) → s.primary.wrapper ≡ some w → set_primary w s ≡ s
set_primary_same s w e =
    ap (λ (o : Option Wrapper). record s { primary = record s.primary { wrapper = o } }) (sym e)

set_lame_duck_same :
    (s : Session) (w : Wrapper) → s.lame_duck.wrapper ≡ some w → set_lame_duck w s ≡ s
set_lame_duck_same s w e =
    ap (λ (o : Option Wrapper). record s { lame_duck = record s.lame_duck { wrapper = o } }) (sym e)

try_lame_duck_rejected :
    (cfg : Config) (now : ℕ) (stop_first : Bool) (packet : List ℕ) (s : Session)
    → (ltb now s.lame_duck.must_die && accepted_by s.lame_duck.wrapper packet) ≡ false
    → try_lame_duck cfg now stop_first packet s ≡ (s, [])
unfolding try_lame_duck
try_lame_duck_rejected cfg now stop_first packet s h =
    let P : Session × List Effect → Type 0 = λ x. x ≡ (s, []) in
    option-keeps_when P s.lame_duck.wrapper _ _ (λ _. refl)
      (λ w held.
        branch-keeps_when P (not (ltb now s.lame_duck.must_die)) _ _ (λ _. refl)
          (λ early.
            let rejected : is_accepted (open_packet w [] packet).1 ≡ false =
              rejected_by now s.lame_duck.must_die s.lame_duck.wrapper w packet held early h in
            result-keeps_when P (open_packet w [] packet).1 _ _
              (λ p opened. absurd (ok_accepted p (open_packet w [] packet).1 opened rejected))
              (λ x failed.
                branch-keeps_when P (is_ping_absorbed x) _ _
                  (λ ping.
                    absurd (ping_accepted x (open_packet w [] packet).1 failed ping rejected))
                  (λ _.
                    ap (λ (t : Session). (t, []))
                      (ap (λ (v : Wrapper). set_lame_duck v s)
                          (open_packet_rejected w packet rejected)
                        ∙ set_lame_duck_same s w held)))))

-- A data packet that neither the key in use accepts, nor the old key while it may still be used, leaves
-- the whole session as it was, with its replay windows, its idle timer and its counters, and has rejected
-- effect.
pub handle_data_packet_rejected :
    (cfg : Config) (now : ℕ) (stop_first : Bool) (packet : List ℕ) (s : Session)
    → accepted_by_session now packet s ≡ false
    → handle_data_packet cfg now stop_first packet s ≡ (s, [])
unfolding handle_data_packet
handle_data_packet_rejected cfg now stop_first packet s h =
    let P : Session × List Effect → Type 0 = λ x. x ≡ (s, []) in
    option-keeps_when P s.primary.wrapper _ _ (λ _. refl)
      (λ w held.
        let rejected : is_accepted (open_packet w [] packet).1 ≡ false =
          ap (λ (x : Option Wrapper). accepted_by x packet) (sym held)
          ∙ (first (accepted_by s.primary.wrapper packet)
              (ltb now s.lame_duck.must_die && accepted_by s.lame_duck.wrapper packet) h).0 in
        result-keeps_when P (open_packet w [] packet).1 _ _
          (λ p opened. absurd (ok_accepted p (open_packet w [] packet).1 opened rejected))
          (λ x failed.
            branch-keeps_when P (is_ping_absorbed x) _ _
              (λ ping. absurd (ping_accepted x (open_packet w [] packet).1 failed ping rejected))
              (λ _.
                ap (λ (t : Session). try_lame_duck cfg now stop_first packet t)
                  (ap (λ (v : Wrapper). set_primary v s) (open_packet_rejected w packet rejected)
                    ∙ set_primary_same s w held)
                ∙ try_lame_duck_rejected cfg now stop_first packet s
                    (first (accepted_by s.primary.wrapper packet)
                      (ltb now s.lame_duck.must_die && accepted_by s.lame_duck.wrapper packet)
                      h).1)))
