-- ===== src/Replay/Spec.antt =====
-- What the window promises, over the list of all sequence numbers that it ever accepted.
use govpn.Base.{
  member, ℕ, ◌+◌, ◌-◌, ◌≤◌, ◌<◌, max, ◌≡◌, Bool, true, false, not, ◌&&◌, ltb, if◌then◌else◌, List,
  [], ◌∷◌, arith,
}
use govpn.Base.Bits.{test_bit}
use govpn.Replay.{ReplayWindow, replay_window_size}

unfoldable pub newest : List ℕ → ℕ
newest [] = 0
newest (x ∷ xs) = max x (newest xs)

-- A number is good if it was never accepted and is less than 64 below the newest accepted one.
unfoldable pub is_fresh : ℕ → List ℕ → Bool
unfolding member newest
is_fresh seq accepted =
    not (member seq accepted) && ltb (newest accepted) (seq + replay_window_size)

-- The list after an answer.
abbrev pub grow : Bool → ℕ → List ℕ → List ℕ
grow answer seq accepted = if answer then seq ∷ accepted else accepted

abbrev pub to_bit : Bool → ℕ
to_bit true = 1
to_bit false = 0

pub member-le-newest : (a : ℕ) (xs : List ℕ) → member a xs ≡ true → a ≤ newest xs
unfolding member newest
member-le-newest a [] h = ground arith
member-le-newest a (x ∷ xs) h = ground (arith, member-le-newest a xs)

-- The window stands for the list of accepted numbers.
pub record Represents (r : ReplayWindow) (accepted : List ℕ) : Type 0 where
  pub unset : r.init ≡ false → accepted ≡ []
  pub top : r.init ≡ true → newest accepted ≡ r.highest
  pub top_seen : r.init ≡ true → member r.highest accepted ≡ true
  pub bits :
      r.init ≡ true
      → (d : ℕ) → d < replay_window_size
      → d ≤ r.highest
      → test_bit r.seen d ≡ to_bit (member (r.highest - d) accepted)
