-- ===== src/TcpState/ResetWindow.antt =====
-- Which resets are let in.
use govpn.Base.{
  ℕ, ◌+◌, ◌-◌, ◌%◌, ◌^◌, ◌<◌, Bool, ◌&&◌, ltb, ◌==◌, if◌then◌else◌, ◌≡◌, ap, ◌∙◌, arith,
}
use govpn.Base.Words.{add32, IsU32}
use govpn.TcpSegment.{TcpSegment}
use govpn.TcpState.{seq_gt, seq_ge, recv_window_remaining, rst_in_window, default_receive_window}

-- The numbers from `rcv_nxt` on, modulo 2^32, that the window holds, and the next one if it is shut.
unfoldable pub in_window : ℕ → ℕ → ℕ → Bool
in_window rcv_nxt wnd seq =
    if wnd == 0 then seq == rcv_nxt else ltb ((seq + 2 ^ 32 - rcv_nxt) % 2 ^ 32) wnd

window_test :
    (rcv_nxt wnd seq : ℕ)
    → IsU32 rcv_nxt
    → IsU32 seq
    → wnd < 2 ^ 16
    → (if wnd == 0 then seq == rcv_nxt else seq_ge seq rcv_nxt && seq_gt (add32 rcv_nxt wnd) seq)
      ≡ in_window rcv_nxt wnd seq
unfolding seq_ge seq_gt in_window
window_test rcv_nxt wnd seq hr hs hw = ground arith

-- A reset is let in exactly if its sequence number lies in the receive window: less than the window's
-- size after the next number expected, modulo 2^32, or equal to this if nothing more fits.
pub rst_in_window-in_window :
    (rcv_nxt used : ℕ) (seg : TcpSegment)
    → IsU32 rcv_nxt
    → IsU32 seg.seq
    → rst_in_window rcv_nxt used seg ≡ in_window rcv_nxt (default_receive_window - used) seg.seq
unfolding rst_in_window recv_window_remaining
rst_in_window-in_window rcv_nxt used seg hr hs =
    let w : recv_window_remaining used % 2 ^ 16 ≡ default_receive_window - used = ground arith in
    window_test rcv_nxt (recv_window_remaining used % 2 ^ 16) seg.seq hr hs (omega (arith, w))
    ∙ ap (λ (t : ℕ). in_window rcv_nxt t seg.seq) w
