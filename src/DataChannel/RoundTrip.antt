-- ===== src/DataChannel/RoundTrip.antt =====
-- `Open` on any packet, and on one that `Seal` made.
use govpn.Base.{
  ℕ, ◌≤◌, ◌<◌, ◌≡◌, refl, sym, subst, true, false, Bool-cases, inl, inr, ltb, List, ◌++◌, length,
  Option-cases, none, some, Result, ok, err, arith,
}
use govpn.Replay.{accept}
use govpn.Replay.Step.{accept-refused}
use govpn.DataChannel.{
  Wrapper, Error, off_ciphertext, packet_seq, decrypt, admit, open_packet, is_ping,
}

-- What each answer of `Open` says of the packet and of the state after.
abbrev pub Opened : Wrapper → List ℕ → List ℕ → Wrapper × Result Error (List ℕ) → Type 0
Opened w dst packet (w₁, err Error.too_short) = (length packet < off_ciphertext) × (w₁ ≡ w)
Opened w dst packet (w₁, err Error.auth) =
    (off_ciphertext ≤ length packet) × (decrypt w packet ≡ none) × (w₁ ≡ w)
Opened w dst packet (w₁, err Error.replayed) =
    ((accept w.replay (packet_seq packet)).1 ≡ false)
    × (w₁ ≡ w)
    × ((p : List ℕ) × (decrypt w packet ≡ some p))
Opened w dst packet (w₁, err Error.ping_absorbed) =
    (w₁ ≡ record w { replay = (accept w.replay (packet_seq packet)).0 })
    × ((accept w.replay (packet_seq packet)).1 ≡ true)
    × ((p : List ℕ) × (decrypt w packet ≡ some p) × (is_ping p ≡ true))
Opened w dst packet (w₁, err e) = ⊥
Opened w dst packet (w₁, ok out) =
    (w₁ ≡ record w { replay = (accept w.replay (packet_seq packet)).0 })
    × ((accept w.replay (packet_seq packet)).1 ≡ true)
    × ((p : List ℕ) × (decrypt w packet ≡ some p) × (is_ping p ≡ false) × (out ≡ dst ++ p))

admit_refused :
    (w : Wrapper) (dst p : List ℕ) (seq : ℕ)
    → (accept w.replay seq).1 ≡ false
    → admit w dst seq p ≡ (w, err Error.replayed)
unfolding admit
admit_refused w dst p seq h = rw (h, accept-refused w.replay seq h)

admit_ping :
    (w : Wrapper) (dst p : List ℕ) (seq : ℕ)
    → (accept w.replay seq).1 ≡ true
    → is_ping p ≡ true
    → admit w dst seq p ≡ (record w { replay = (accept w.replay seq).0 }, err Error.ping_absorbed)
unfolding admit
admit_ping w dst p seq h ping = rw (h, ping)

admit_payload :
    (w : Wrapper) (dst p : List ℕ) (seq : ℕ)
    → (accept w.replay seq).1 ≡ true
    → is_ping p ≡ false
    → admit w dst seq p ≡ (record w { replay = (accept w.replay seq).0 }, ok (dst ++ p))
unfolding admit
admit_payload w dst p seq h ping = rw (h, ping)

admit-Opened :
    (w : Wrapper) (dst packet p : List ℕ)
    → decrypt w packet ≡ some p
    → Opened w dst packet (admit w dst (packet_seq packet) p)
admit-Opened w dst packet p e = elim (Bool-cases (accept w.replay (packet_seq packet)).1) [
  | inr stale ↦
      subst (Opened w dst packet) (sym (admit_refused w dst p (packet_seq packet) stale))
        (stale, refl, (p, e))
  | inl fresh ↦ elim (Bool-cases (is_ping p)) [
    | inl ping ↦
        subst (Opened w dst packet) (sym (admit_ping w dst p (packet_seq packet) fresh ping))
          (refl, fresh, (p, e, ping))
    | inr payload ↦
        subst (Opened w dst packet) (sym (admit_payload w dst p (packet_seq packet) fresh payload))
          (refl, fresh, (p, e, payload, refl))
  ]
]

open_short :
    (w : Wrapper) (dst packet : List ℕ)
    → ltb (length packet) off_ciphertext ≡ true
    → open_packet w dst packet ≡ (w, err Error.too_short)
unfolding open_packet
open_short w dst packet h = rw h

open_unauthentic :
    (w : Wrapper) (dst packet : List ℕ)
    → ltb (length packet) off_ciphertext ≡ false
    → decrypt w packet ≡ none
    → open_packet w dst packet ≡ (w, err Error.auth)
unfolding open_packet
open_unauthentic w dst packet h e = simp (h, e)

pub open_authentic :
    (w : Wrapper) (dst packet p : List ℕ)
    → ltb (length packet) off_ciphertext ≡ false
    → decrypt w packet ≡ some p
    → open_packet w dst packet ≡ admit w dst (packet_seq packet) p
unfolding open_packet
open_authentic w dst packet p h e = simp (h, e)

-- Each answer of `Open` tells why it was given; only a packet that authenticates and is fresh changes
-- the state, and then only the replay window.
pub open_packet-Opened :
    (w : Wrapper) (dst packet : List ℕ) → Opened w dst packet (open_packet w dst packet)
open_packet-Opened w dst packet = elim (Bool-cases (ltb (length packet) off_ciphertext)) [
  | inl short ↦
      subst (Opened w dst packet) (sym (open_short w dst packet short)) (ground arith, refl)
  | inr long ↦ elim (Option-cases (decrypt w packet)) [
    | inl none' ↦
        subst (Opened w dst packet) (sym (open_unauthentic w dst packet long none'))
          (ground arith, none', refl)
    | inr (p, e) ↦
        subst (Opened w dst packet) (sym (open_authentic w dst packet p long e))
          (admit-Opened w dst packet p e)
  ]
]
