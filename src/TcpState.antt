-- ===== src/TcpState.antt =====
-- netstack/tcp_state.go: sequence numbers modulo 2^32, the segment that answers one out of place, and
-- the test of an incoming reset.
pub mod ResetWindow
pub mod Runs
use govpn.Base.{
  ℕ, ◌-◌, ◌%◌, ◌^◌, bit_and, bit_or, Bool, false, not, ◌&&◌, ltb, leb, ◌==◌, if◌then◌else◌, [],
}
use govpn.Base.Words.{add32, sub32}
use govpn.TcpSegment.{TcpSegment, seg_len}

abbrev pub flag_rst : ℕ
flag_rst = 0x04

abbrev pub flag_ack : ℕ
flag_ack = 0x10

abbrev pub default_receive_window : ℕ
default_receive_window = 65535

-- `int32(a-b) > 0` and `int32(a-b) >= 0`.
unfoldable pub seq_gt : ℕ → ℕ → Bool
seq_gt a b = ltb 0 (sub32 a b) && ltb (sub32 a b) (2 ^ 31)

unfoldable pub seq_ge : ℕ → ℕ → Bool
seq_ge a b = ltb (sub32 a b) (2 ^ 31)

unfoldable pub build_rst_segment : TcpSegment → TcpSegment
build_rst_segment offending =
    let has_ack : Bool = not (bit_and offending.flags flag_ack == 0) in
    record {
      src_port = offending.dst_port;
      dst_port = offending.src_port;
      seq = if has_ack then offending.ack else 0;
      ack = if has_ack then 0 else add32 offending.seq (seg_len offending);
      flags = if has_ack then flag_rst else bit_or flag_rst flag_ack;
      window = 0;
      has_mss = false;
      mss = 0;
      payload = [];
    }

-- The window left when `used` bytes are held unread or out of order.
unfoldable pub recv_window_remaining : ℕ → ℕ
recv_window_remaining used =
    if leb default_receive_window used then 0 else default_receive_window - used

-- `rstInWindowLocked` for a connection that expects `rcv_nxt` and holds `used` bytes.
unfoldable pub rst_in_window : ℕ → ℕ → TcpSegment → Bool
unfolding seq_ge seq_gt recv_window_remaining
rst_in_window rcv_nxt used seg =
    let wnd : ℕ = recv_window_remaining used % 2 ^ 16 in
    if wnd == 0
    then seg.seq == rcv_nxt
    else seq_ge seg.seq rcv_nxt && seq_gt (add32 rcv_nxt wnd) seg.seq
