-- ===== src/Replay.antt =====
-- internal/datachan/replay.go: the 64-wide sliding anti-replay window. internal/tlscrypt/tlscrypt.go
-- holds a copy of it, statement for statement, for its own packet ids.
-- Sequence numbers are uint32 and `seen` is a uint64; the lock leaves no interleaving to model.
pub mod Spec
pub mod Step
pub mod History
pub mod Runs
use govpn.Base.{
  ℕ, ◌-◌, ◌*◌, ◌%◌, ◌^◌, bit_and, bit_or, Bool, true, false, ltb, leb, ◌==◌, if◌then◌else◌,
}

abbrev pub replay_window_size : ℕ
replay_window_size = 64

-- Bit `i` of `seen` means that `highest - i` has been seen.
pub record ReplayWindow : Type 0 where
  pub init : Bool
  pub highest : ℕ
  pub seen : ℕ

abbrev pub zero_window : ReplayWindow
zero_window = record { init = false; highest = 0; seen = 0 }

-- `seq > r.highest`: the window moves up.
pub advance : ReplayWindow → ℕ → ReplayWindow
advance r seq =
    let shift : ℕ = seq - r.highest in
    record r {
      seen = if leb replay_window_size shift then 1 else bit_or (r.seen * 2 ^ shift % 2 ^ 64) 1;
      highest = seq;
    }

-- `seq <= r.highest`: a bit of the window is tested and set.
pub mark : ReplayWindow → ℕ → ReplayWindow × Bool
mark r seq =
    let diff : ℕ = r.highest - seq in
    let bit : ℕ = 2 ^ diff in
    if leb replay_window_size diff
    then (r, false)
    else if bit_and r.seen bit == 0
    then (record r { seen = bit_or r.seen bit }, true)
    else (r, false)

unfoldable pub accept : ReplayWindow → ℕ → ReplayWindow × Bool
accept r seq =
    if r.init
    then (if ltb r.highest seq then (advance r seq, true) else mark r seq)
    else (record { init = true; highest = seq; seen = 1 }, true)
