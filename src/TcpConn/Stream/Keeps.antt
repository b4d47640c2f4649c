-- ===== src/TcpConn/Stream/Keeps.antt =====
-- What leaves the received stream as it is: acknowledgements, the timer, and the calls other than `Read`.
use govpn.Base.{
  ℕ, zero, suc, ◌+◌, ◌-◌, min, Bool, true, false, if◌then◌else◌, ◌≡◌, refl, List, ◌++◌, length,
  take, arith,
}
use govpn.TcpSegment.{TcpSegment}
use govpn.TcpConn.{
  TcpConn, ConnState, send_chunks, send_up_to, send_pending, next_chunk, allowed_in_flight,
  start_time_wait, max_in_flight_bytes,
}
use govpn.TcpConn.Input.{
  ack_data, ack_fin, set_window, handle_ack, after_established, after_fin_wait1, after_fin_wait2,
}
use govpn.TcpConn.Kept.{on_rto_fired-keeps}
use govpn.TcpConn.Timer.{reset_conn, retransmit, persist, on_rto_fired}
use govpn.TcpConn.Api.{write_round, close_in_state, send_fin, close_write, close}
use govpn.TcpConn.Stream.{receiver}

receiver-send_chunks :
    (rounds limit : ℕ) (probe : Bool) (c : TcpConn)
    → receiver (send_chunks rounds limit probe c).0 ≡ receiver c
unfolding send_chunks
receiver-send_chunks zero limit probe c = refl
receiver-send_chunks (suc rounds) limit probe c = ground (
  arith,
  receiver-send_chunks rounds limit probe
      (record c { sent_bytes = c.sent_bytes + next_chunk limit c }),
)

receiver-send_pending :
    (probe : Bool) (c : TcpConn) → receiver (send_pending probe c).0 ≡ receiver c
unfolding send_pending send_up_to
receiver-send_pending probe c = ground (
  arith,
  receiver-send_chunks (length c.out_buf) (c.sent_bytes + 1) probe c,
  receiver-send_chunks (length c.out_buf) (allowed_in_flight c) probe c,
)

receiver-acknowledged :
    (seg : TcpSegment) (c : TcpConn)
    → receiver (set_window seg.window (ack_fin seg.ack (ack_data seg.ack c))) ≡ receiver c
unfolding set_window ack_fin ack_data
receiver-acknowledged seg c = ground (arith)

pub receiver-handle_ack :
    (seg : TcpSegment) (c : TcpConn) → receiver (handle_ack seg c).0 ≡ receiver c
unfolding handle_ack
receiver-handle_ack seg c = ground (
  arith,
  receiver-send_pending false (set_window seg.window (ack_fin seg.ack (ack_data seg.ack c))),
  receiver-acknowledged seg c,
)

pub receiver-after_established :
    (c : TcpConn) (fin : Bool) → receiver (after_established c fin) ≡ receiver c
unfolding after_established
receiver-after_established c fin = ground (arith)

pub receiver-after_fin_wait1 :
    (c : TcpConn) (fin : Bool) → receiver (after_fin_wait1 c fin) ≡ receiver c
unfolding after_fin_wait1 start_time_wait
receiver-after_fin_wait1 c fin = ground (arith)

pub receiver-after_fin_wait2 :
    (c : TcpConn) (fin : Bool) → receiver (after_fin_wait2 c fin) ≡ receiver c
unfolding after_fin_wait2 start_time_wait
receiver-after_fin_wait2 c fin = ground (arith)

pub receiver-start_time_wait :
    (acked : Bool) (c : TcpConn) → receiver (if acked then start_time_wait c else c) ≡ receiver c
unfolding start_time_wait
receiver-start_time_wait acked c = ground (arith)

receiver-retransmit : (seg : TcpSegment) (c : TcpConn) → receiver (retransmit seg c).0 ≡ receiver c
unfolding retransmit reset_conn
receiver-retransmit seg c = ground (arith)

receiver-persist : (c : TcpConn) → receiver (persist c).0 ≡ receiver c
unfolding persist reset_conn
receiver-persist c = ground (
  arith,
  receiver-send_pending true (record c { persist_probe_count = c.persist_probe_count + 1 }),
)

pub receiver-on_rto_fired : (mss : ℕ) (c : TcpConn) → receiver (on_rto_fired mss c).0 ≡ receiver c
receiver-on_rto_fired mss c =
    on_rto_fired-keeps (λ (c₁ : TcpConn). receiver c₁ ≡ receiver c) mss c refl refl refl
      (receiver-persist c) (λ seg. receiver-retransmit seg c)

pub receiver-write_round :
    (expired : Bool) (p : List ℕ) (c : TcpConn) → receiver (write_round expired p c).0 ≡ receiver c
unfolding write_round
receiver-write_round expired p c = ground (
  arith,
  receiver-send_pending false (record c {
    out_buf = c.out_buf ++ take (min (max_in_flight_bytes - length c.out_buf) (length p)) p;
  }),
)

receiver-close_in_state :
    (s : ConnState) (c : TcpConn) → receiver (close_in_state s c).0 ≡ receiver c
unfolding close_in_state send_fin
receiver-close_in_state s c = ground (arith)

pub receiver-close_write : (c : TcpConn) → receiver (close_write c).0 ≡ receiver c
unfolding close_write
receiver-close_write c = ground (arith, receiver-close_in_state c.state c)

pub receiver-close : (c : TcpConn) → receiver (close c).0 ≡ receiver c
unfolding close
receiver-close c = ground (arith, receiver-close_write c)
