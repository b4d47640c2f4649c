-- ===== src/TcpState/Runs.antt =====
-- Resets on concrete numbers.
use govpn.Base.{true, false, ◌≡◌, ◌-◌, refl, [], arith}
use govpn.TcpSegment.{TcpSegment, seg_len}
use govpn.TcpState.{
  seq_gt, seq_ge, build_rst_segment, recv_window_remaining, rst_in_window, default_receive_window,
}
use govpn.TcpState.ResetWindow.{in_window, rst_in_window-in_window}

-- A reset just past the point where the numbers wrap.
abbrev reset : TcpSegment
reset = record {
  src_port = 1;
  dst_port = 2;
  seq = 3;
  ack = 0;
  flags = 0x04;
  window = 0;
  has_mss = false;
  mss = 0;
  payload = [];
}

let_in : rst_in_window 4294967290 100 reset ≡ true
unfolding rst_in_window seq_ge seq_gt recv_window_remaining
let_in = refl

answer_to_syn : (build_rst_segment (record reset { flags = 0x02; seq = 4294967295 })).ack ≡ 0
unfolding build_rst_segment seg_len
answer_to_syn = refl

rst_in_window-in_window_example :
    rst_in_window 4294967290 100 reset ≡ in_window 4294967290 (default_receive_window - 100) 3
rst_in_window-in_window_example =
    rst_in_window-in_window 4294967290 100 reset (omega arith) (omega arith)
