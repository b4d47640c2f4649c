-- ===== src/Replay/History.antt =====
-- The window over any history of calls, from a new one.
use govpn.Base.{NoRepeats, ℕ, ◌≡◌, refl, List, [], ◌∷◌, arith, Bool-cases, inl, inr}
use govpn.Replay.{ReplayWindow, zero_window, accept}
use govpn.Replay.Spec.{is_fresh, grow, Represents}
use govpn.Replay.Step.{accept-Represents}

-- A window after a sequence of calls, with the numbers that it accepted, latest first.
unfoldable pub run : ReplayWindow → List ℕ → List ℕ → ReplayWindow × List ℕ
run r accepted [] = (r, accepted)
run r accepted (seq ∷ seqs) = run (accept r seq).0 (grow (accept r seq).1 seq accepted) seqs

run-Represents :
    (r : ReplayWindow) (accepted seqs : List ℕ)
    → Represents r accepted
    → Represents (run r accepted seqs).0 (run r accepted seqs).1
unfolding run
run-Represents r accepted [] v = v
run-Represents r accepted (seq ∷ seqs) v =
    run-Represents (accept r seq).0 (grow (accept r seq).1 seq accepted) seqs
      (accept-Represents r accepted seq v).1

pub zero-Represents : Represents zero_window []
zero-Represents = record { unset = λ e. refl; top = λ e. cc; top_seen = λ e. cc; bits = λ e. cc }

-- After any sequence of packets, `accept` says yes to a packet exactly when its number was never
-- accepted before and is less than 64 below the highest number accepted so far.
pub accept-is_fresh :
    (seqs : List ℕ) (seq : ℕ)
    → let after = run zero_window [] seqs in (accept after.0 seq).1 ≡ is_fresh seq after.1
accept-is_fresh seqs seq =
    (accept-Represents _ _ seq (run-Represents zero_window [] seqs zero-Represents)).0

run-NoRepeats :
    (r : ReplayWindow) (accepted seqs : List ℕ)
    → Represents r accepted
    → NoRepeats accepted
    → NoRepeats (run r accepted seqs).1
unfolding run
run-NoRepeats r accepted [] v h = h
run-NoRepeats r accepted (seq ∷ seqs) v h =
    let (answer, v') = accept-Represents r accepted seq v in
    run-NoRepeats (accept r seq).0 (grow (accept r seq).1 seq accepted) seqs v'
      (elim (Bool-cases (accept r seq).1) [
        | inr refused ↦ rw refused h
        | inl taken ↦ rw taken (unfold is_fresh in ground arith, h)
      ])

-- Whatever packets arrive and in whatever order, no number is accepted twice.
run-zero_window-NoRepeats : (seqs : List ℕ) → NoRepeats (run zero_window [] seqs).1
run-zero_window-NoRepeats seqs = run-NoRepeats zero_window [] seqs zero-Represents tt
