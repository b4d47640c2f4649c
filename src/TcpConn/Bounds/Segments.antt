-- ===== src/TcpConn/Bounds/Segments.antt =====
-- netstack/tcp_state.go: a segment that arrives keeps the connection's bounds.
use govpn.Base.{if-keeps, ℕ, Bool, false, if◌then◌else◌, length-drop, arith}
use govpn.Base.Words.{add32, sub32}
use govpn.TcpSegment.{TcpSegment}
use govpn.TcpState.{seq_gt}
use govpn.TcpConn.{
  TcpConn, ConnState, listen, syn_rcvd, established, fin_wait1, fin_wait2, closing, time_wait,
  close_wait, last_ack, closed, start_time_wait, stop_timer,
}
use govpn.TcpConn.Input.{
  ack_data, ack_fin, set_window, handle_ack, ack_and_data, after_established, after_fin_wait1,
  after_fin_wait2, handle_syn_rcvd, handle_in_state, handle_segment,
}
use govpn.TcpConn.Timer.{}
use govpn.TcpConn.Api.{}
use govpn.TcpConn.Bounds.{IsBounded, send_pending-IsBounded, handle_data-IsBounded}

ack_data-IsBounded : (ack : ℕ) (c : TcpConn) → IsBounded c → IsBounded (ack_data ack c)
unfolding ack_data
ack_data-IsBounded ack c v = ground (
  arith,
  length-drop
      (sub32
        (if seq_gt ack (add32 c.snd_una c.sent_bytes) then (add32 c.snd_una c.sent_bytes) else ack)
        c.snd_una)
      c.out_buf,
)

ack_fin-IsBounded : (ack : ℕ) (c : TcpConn) → IsBounded c → IsBounded (ack_fin ack c)
unfolding ack_fin
ack_fin-IsBounded ack c v = ground (arith)

set_window-IsBounded : (window : ℕ) (c : TcpConn) → IsBounded c → IsBounded (set_window window c)
unfolding set_window
set_window-IsBounded window c v = ground (arith)

handle_ack-IsBounded :
    (seg : TcpSegment) (c : TcpConn) → IsBounded c → IsBounded (handle_ack seg c).0
unfolding handle_ack
handle_ack-IsBounded seg c v =
    let v₁ : IsBounded (set_window seg.window (ack_fin seg.ack (ack_data seg.ack c))) =
      set_window-IsBounded seg.window (ack_fin seg.ack (ack_data seg.ack c))
        (ack_fin-IsBounded seg.ack (ack_data seg.ack c) (ack_data-IsBounded seg.ack c v)) in
    ground (
      arith,
      send_pending-IsBounded false (set_window seg.window (ack_fin seg.ack (ack_data seg.ack c)))
          v₁,
    )

ack_and_data-IsBounded :
    (seg : TcpSegment) (after : TcpConn → Bool → TcpConn) (c : TcpConn)
    → ((c : TcpConn) (fin : Bool) → IsBounded c → IsBounded (after c fin))
    → IsBounded c
    → IsBounded (ack_and_data seg after c).0
unfolding ack_and_data
ack_and_data-IsBounded seg after c kept v =
    kept _ _ (handle_data-IsBounded seg (handle_ack seg c).0 (handle_ack-IsBounded seg c v))

after_established-IsBounded :
    (c : TcpConn) (fin : Bool) → IsBounded c → IsBounded (after_established c fin)
unfolding after_established
after_established-IsBounded c fin v = ground (arith)

after_fin_wait1-IsBounded :
    (c : TcpConn) (fin : Bool) → IsBounded c → IsBounded (after_fin_wait1 c fin)
unfolding after_fin_wait1 start_time_wait
after_fin_wait1-IsBounded c fin v = ground (arith)

after_fin_wait2-IsBounded :
    (c : TcpConn) (fin : Bool) → IsBounded c → IsBounded (after_fin_wait2 c fin)
unfolding after_fin_wait2 start_time_wait
after_fin_wait2-IsBounded c fin v = ground (arith)

start_time_wait-IsBounded :
    (acked : Bool) (c : TcpConn) → IsBounded c → IsBounded (if acked then start_time_wait c else c)
unfolding start_time_wait
start_time_wait-IsBounded acked c v = ground (arith)

handle_in_state-IsBounded :
    (s : ConnState) (seg : TcpSegment) (c : TcpConn)
    → IsBounded c
    → IsBounded (handle_in_state s seg c).0
unfolding handle_in_state handle_syn_rcvd start_time_wait
handle_in_state-IsBounded listen seg c v = v
handle_in_state-IsBounded syn_rcvd seg c v = ground (
  arith,
  handle_data-IsBounded seg (stop_timer (record c { snd_una = seg.ack; state = established }))
      (record {
        in_flight = v.in_flight;
        queued = v.queued;
        held = v.held;
        waiting = v.waiting;
        slow = v.slow;
      }),
)
handle_in_state-IsBounded established seg c v =
    ack_and_data-IsBounded seg after_established c after_established-IsBounded v
handle_in_state-IsBounded fin_wait1 seg c v =
    ack_and_data-IsBounded seg after_fin_wait1 c after_fin_wait1-IsBounded v
handle_in_state-IsBounded fin_wait2 seg c v =
    ack_and_data-IsBounded seg after_fin_wait2 c after_fin_wait2-IsBounded v
handle_in_state-IsBounded closing seg c v =
    start_time_wait-IsBounded (handle_ack seg c).0.fin_acked (handle_ack seg c).0
      (handle_ack-IsBounded seg c v)
handle_in_state-IsBounded close_wait seg c v = handle_ack-IsBounded seg c v
handle_in_state-IsBounded last_ack seg c v =
    let v₁ : IsBounded (handle_ack seg c).0 = handle_ack-IsBounded seg c v in
    if-keeps IsBounded (handle_ack seg c).0.fin_acked _ _
      (record {
        in_flight = v₁.in_flight;
        queued = v₁.queued;
        held = v₁.held;
        waiting = v₁.waiting;
        slow = v₁.slow;
      })
      v₁
handle_in_state-IsBounded time_wait seg c v = ground (arith)
handle_in_state-IsBounded closed seg c v = v

pub handle_segment-IsBounded :
    (seg : TcpSegment) (c : TcpConn) → IsBounded c → IsBounded (handle_segment seg c).0
unfolding handle_segment
handle_segment-IsBounded seg c v = ground (arith, handle_in_state-IsBounded c.state seg c v)
