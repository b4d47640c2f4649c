-- ===== src/Reliable/Window.antt =====
-- The wraparound-safe comparisons of packet ids, as plain arithmetic.
use govpn.Base.{ℕ, ◌+◌, ◌^◌, ◌≤◌, ◌<◌, ◌≡◌, ◌↔◌, Bool, true, not, ◌&&◌, arith}
use govpn.Base.Words.{IsU32}
use govpn.Reliable.{subtract_pid, pid_in_range2, pid_min, capacity}

-- The two tests of `Put`: not below the window, and not above it.
abbrev pub in_window : ℕ → ℕ → ℕ → Bool
in_window id base n = not (pid_min id base) && pid_in_range2 id base n

-- In the first half of the id space the tests select exactly the window.
pub in_window_iff :
    (id base n : ℕ)
    → IsU32 id
    → base ≤ 2 ^ 31
    → n ≤ capacity
    → (in_window id base n ≡ true) ↔ ((base ≤ id) × (id < base + n))
unfolding pid_min pid_in_range2
in_window_iff id base n hi hb hn = ground arith

-- `pid_min` there is the plain order, up to half the space.
pub pid_min_below : (id base : ℕ) → IsU32 id → base ≤ 2 ^ 31 → id < base → pid_min id base ≡ true
unfolding pid_min
pid_min_below id base hi hb h = ground arith

-- In the second half they also let in ids from far ahead of the window.
in_window_far :
    (id base n : ℕ)
    → n ≤ capacity
    → base + n < 2 ^ 32
    → id + 2 ^ 31 < base
    → (in_window id base n ≡ true) × (n ≤ subtract_pid id base)
unfolding pid_min pid_in_range2 subtract_pid
in_window_far id base n hn hb hi = ground arith
