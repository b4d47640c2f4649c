-- ===== src/TcpConn/Bounds/Run.antt =====
-- The bounds of a connection over all its events: the timer and the calls of the application.
use govpn.Base.{
  if-keeps, ℕ, ◌+◌, ◌-◌, min, Bool, true, false, ltb, if◌then◌else◌, Option, none, some, List, [],
  ◌∷◌, ◌++◌, length, take, length-append, length-take, length-drop, arith,
}
use govpn.TcpSegment.{TcpSegment}
use govpn.TcpConn.{
  new_tcp_conn, TcpConn, ConnState, ConnError, listen, syn_rcvd, established, fin_wait1, fin_wait2,
  closing, time_wait, close_wait, last_ack, closed, Effect, reorder_bytes, max_in_flight_bytes,
}
use govpn.TcpConn.Input.{}
use govpn.TcpConn.Kept.{on_rto_fired-keeps}
use govpn.TcpConn.Timer.{
  double_rto, reset_conn, retransmit, persist, on_rto_fired, on_attachment_detached, abort,
}
use govpn.TcpConn.Api.{
  WriteResult, write_blocks, write_timeout, read, write_round, send_fin, close_in_state,
  close_write, close,
}
use govpn.TcpConn.Bounds.{IsBounded, send_pending-IsBounded}
use govpn.TcpConn.Bounds.Segments.{handle_segment-IsBounded}
use govpn.TcpConn.Events.{
  Event, arrives, reads, writes, fires, detaches, aborts, closes_write, closes, step, run,
}

-- The timer and the listener.
reset_conn-IsBounded : (c : TcpConn) → IsBounded c → IsBounded (reset_conn c).0
unfolding reset_conn
reset_conn-IsBounded c v = ground (arith)

retransmit-IsBounded :
    (seg : TcpSegment) (c : TcpConn) → IsBounded c → IsBounded (retransmit seg c).0
unfolding retransmit double_rto reset_conn
retransmit-IsBounded seg c v = ground (arith)

persist-IsBounded : (c : TcpConn) → IsBounded c → IsBounded (persist c).0
unfolding persist reset_conn
persist-IsBounded c v = ground (
  arith,
  send_pending-IsBounded true (record c { persist_probe_count = c.persist_probe_count + 1 })
      (record {
        in_flight = v.in_flight;
        queued = v.queued;
        held = v.held;
        waiting = v.waiting;
        slow = v.slow;
      }),
)

on_rto_fired-IsBounded : (mss : ℕ) (c : TcpConn) → IsBounded c → IsBounded (on_rto_fired mss c).0
on_rto_fired-IsBounded mss c v =
    on_rto_fired-keeps IsBounded mss c v (ground (arith)) (ground (arith)) (persist-IsBounded c v)
      (λ seg. retransmit-IsBounded seg c v)

-- The application.
read-IsBounded :
    (expired : Bool) (n : ℕ) (c : TcpConn) → IsBounded c → IsBounded (read expired n c).0
unfolding read
read-IsBounded expired n c v = ground (arith, length-drop n c.recv_buf)

write_branches-IsBounded :
    (expired : Bool) (error : Option ConnError) (room : Bool) (c : TcpConn)
    (done : TcpConn × WriteResult × List Effect) (failed : ConnError → WriteResult)
    → IsBounded c
    → IsBounded done.0
    → IsBounded
        (if◌then◌else◌ {A = TcpConn × WriteResult × List Effect} expired
          (c, write_timeout, [])
          (elim error [
            | some e ↦ (c, failed e, [])
            | none ↦ if room then done else (c, write_blocks, [])
          ])).0
write_branches-IsBounded true error room c done failed v w = v
write_branches-IsBounded false (some e) room c done failed v w = v
write_branches-IsBounded false none true c done failed v w = w
write_branches-IsBounded false none false c done failed v w = v

write_round-IsBounded :
    (expired : Bool) (p : List ℕ) (c : TcpConn)
    → IsBounded c
    → IsBounded (write_round expired p c).0
unfolding write_round
write_round-IsBounded expired p c v =
    let capacity : ℕ = min (max_in_flight_bytes - length c.out_buf) (length p) in
    let c₁ : TcpConn = record c { out_buf = c.out_buf ++ take capacity p } in
    let v₁ : IsBounded c₁ = record {
      in_flight = omega (arith, v.in_flight, length-append c.out_buf (take capacity p));
      queued =
          omega
            (arith, v.queued, length-append c.out_buf (take capacity p), length-take capacity p);
      held = v.held;
      waiting = v.waiting;
      slow = v.slow;
    } in
    write_branches-IsBounded expired c.error (ltb (length c.out_buf) max_in_flight_bytes) _ _ _ v
      (send_pending-IsBounded false c₁ v₁)

close_in_state-IsBounded :
    (s : ConnState) (c : TcpConn) → IsBounded c → IsBounded (close_in_state s c).0
unfolding close_in_state send_fin
close_in_state-IsBounded established c v = ground (arith)
close_in_state-IsBounded close_wait c v = ground (arith)
close_in_state-IsBounded listen c v = v
close_in_state-IsBounded syn_rcvd c v = v
close_in_state-IsBounded fin_wait1 c v = v
close_in_state-IsBounded fin_wait2 c v = v
close_in_state-IsBounded closing c v = v
close_in_state-IsBounded time_wait c v = v
close_in_state-IsBounded last_ack c v = v
close_in_state-IsBounded closed c v = v

close_write-IsBounded : (c : TcpConn) → IsBounded c → IsBounded (close_write c).0
unfolding close_write
close_write-IsBounded c v =
    let v₁ : IsBounded (close_in_state c.state c).0 = close_in_state-IsBounded c.state c v in
    if-keeps IsBounded c.write_closed _ _ v (record {
      in_flight = v₁.in_flight;
      queued = v₁.queued;
      held = v₁.held;
      waiting = v₁.waiting;
      slow = v₁.slow;
    })

close-IsBounded : (c : TcpConn) → IsBounded c → IsBounded (close c).0
unfolding close
close-IsBounded c v = ground (arith, close_write-IsBounded c v)

-- All events.
step-IsBounded : (e : Event) (c : TcpConn) → IsBounded c → IsBounded (step e c)
unfolding step on_attachment_detached abort reset_conn
step-IsBounded (arrives seg) c v = handle_segment-IsBounded seg c v
step-IsBounded (reads expired n) c v = read-IsBounded expired n c v
step-IsBounded (writes expired p) c v = write_round-IsBounded expired p c v
step-IsBounded (fires mss) c v = on_rto_fired-IsBounded mss c v
step-IsBounded detaches c v = ground (arith)
step-IsBounded aborts c v = ground (arith)
step-IsBounded closes_write c v = close_write-IsBounded c v
step-IsBounded closes c v = close-IsBounded c v

events-IsBounded : (es : List Event) (c : TcpConn) → IsBounded c → IsBounded (run es c)
unfolding run
events-IsBounded [] c v = v
events-IsBounded (e ∷ es) c v = events-IsBounded es (step e c) (step-IsBounded e c v)

-- After any sequence of events a new connection holds at most 65535 bytes that the peer has not
-- acknowledged, of which those in flight are the first, and at most 65535 bytes that the application has
-- not read, those of at most 16 segments out of order included; its retransmission timeout is at most 8
-- seconds.
pub run-IsBounded :
    (local_port remote_port isn client_isn client_window snd_mss : ℕ) (es : List Event)
    → IsBounded (run es (new_tcp_conn local_port remote_port isn client_isn client_window snd_mss))
unfolding new_tcp_conn reorder_bytes
run-IsBounded local_port remote_port isn client_isn client_window snd_mss es =
    events-IsBounded es _ (record {
      in_flight = omega (arith);
      queued = omega (arith);
      held = omega (arith);
      waiting = omega (arith);
      slow = omega (arith);
    })
