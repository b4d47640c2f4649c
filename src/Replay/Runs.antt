-- ===== src/Replay/Runs.antt =====
-- The replay window on concrete packets.
use govpn.Base.{ℕ, ◌≡◌, refl, List, [], ◌∷◌}
use govpn.Replay.{zero_window, advance, mark, accept}
use govpn.Replay.Spec.{is_fresh}
use govpn.Replay.History.{run, accept-is_fresh}

abbrev arrivals : List ℕ
arrivals = 10 ∷ 12 ∷ 10 ∷ 11 ∷ 200 ∷ 136 ∷ 137 ∷ 137 ∷ []

arrivals_accepted : (run zero_window [] arrivals).1 ≡ 137 ∷ 200 ∷ 11 ∷ 12 ∷ 10 ∷ []
unfolding run accept advance mark
arrivals_accepted = refl

accept-is_fresh_example :
    (accept (run zero_window [] arrivals).0 138).1 ≡ is_fresh 138 (run zero_window [] arrivals).1
accept-is_fresh_example = accept-is_fresh arrivals 138
