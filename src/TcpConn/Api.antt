-- ===== src/TcpConn/Api.antt =====
-- netstack/tcp_conn.go: Read, Write, Close, CloseWrite and the deadline setters.
-- A deadline is the answer to whether it has passed. A call that would wait for a change answers
-- `blocks`, and is made again after it.
use govpn.Base.{
  ℕ, ◌-◌, min, bit_or, Bool, true, false, not, ltb, if◌then◌else◌, Option, none, some, List, [],
  ◌∷◌, ◌++◌, length, take, drop,
}
use govpn.Base.Words.{add32}
use govpn.TcpSegment.{flag_fin}
use govpn.TcpState.{flag_ack}
use govpn.TcpConn.{
  TcpConn, ConnState, listen, syn_rcvd, established, fin_wait1, fin_wait2, closing, time_wait,
  close_wait, last_ack, closed, ConnError, write_after_close, Effect, send, remove_conn, segment,
  advertised_window, send_pending, shut_down, rearm, initial_rto, max_in_flight_bytes,
}
use govpn.TcpConn.Timer.{is_closed}

pub data ReadResult : Type 0 where
  read_timeout eof read_blocks : ReadResult
  read_failed : ConnError → ReadResult
  read_bytes : List ℕ → ReadResult

-- One round of `Read` into a buffer of `n` bytes.
unfoldable pub read : Bool → ℕ → TcpConn → TcpConn × ReadResult
read expired n c =
    if expired
    then (c, read_timeout)
    else if ltb 0 (length c.recv_buf)
    then (record c { recv_buf = drop n c.recv_buf }, read_bytes (take n c.recv_buf))
    else elim c.error [
      | some e ↦ (c, read_failed e)
      | none ↦ (c, (if c.peer_closed then eof else read_blocks))
    ]

pub data WriteResult : Type 0 where
  write_timeout write_blocks : WriteResult
  write_failed : ConnError → WriteResult
  queued : ℕ → WriteResult

-- The checks before the loop of `Write`; `none` lets it begin.
unfoldable pub write_check : Bool → TcpConn → Option WriteResult
write_check expired c = if expired then some write_timeout else elim c.error [
  | some e ↦ some (write_failed e)
  | none ↦ if c.fin_sent then some (write_failed write_after_close) else none
]

-- One round of its loop, with the bytes still to be queued.
unfoldable pub write_round : Bool → List ℕ → TcpConn → TcpConn × WriteResult × List Effect
unfolding send_pending
write_round expired p c =
    let capacity : ℕ = min (max_in_flight_bytes - length c.out_buf) (length p) in
    let (c₁, sent) = send_pending false (record c { out_buf = c.out_buf ++ take capacity p }) in
    if expired then (c, write_timeout, []) else elim c.error [
      | some e ↦ (c, write_failed e, [])
      | none ↦
          if ltb (length c.out_buf) max_in_flight_bytes
          then (c₁, queued capacity, sent)
          else (c, write_blocks, [])
    ]

unfoldable pub send_fin : TcpConn → TcpConn × List Effect
unfolding advertised_window
send_fin c =
    let seq : ℕ = add32 c.snd_una (length c.out_buf) in
    (
      rearm initial_rto
          (record c { fin_seq = seq; fin_sent = true; rto = initial_rto; retransmit_count = 0 }),
      send (segment c seq (bit_or flag_fin flag_ack) (advertised_window c) []) ∷ [],
    )

-- The FIN, if the state has one to send, and the state that it leads to.
unfoldable pub close_in_state : ConnState → TcpConn → TcpConn × List Effect
unfolding send_fin
close_in_state established c =
    let (c₁, sent) = send_fin c in (record c₁ { state = fin_wait1 }, sent)
close_in_state close_wait c = let (c₁, sent) = send_fin c in (record c₁ { state = last_ack }, sent)
close_in_state listen c = (c, [])
close_in_state syn_rcvd c = (c, [])
close_in_state fin_wait1 c = (c, [])
close_in_state fin_wait2 c = (c, [])
close_in_state closing c = (c, [])
close_in_state time_wait c = (c, [])
close_in_state last_ack c = (c, [])
close_in_state closed c = (c, [])

unfoldable pub close_write : TcpConn → TcpConn × List Effect
unfolding close_in_state
close_write c =
    let (c₁, sent) = close_in_state c.state c in
    if c.write_closed then (c, []) else (record c₁ { write_closed = true }, sent)

unfoldable pub close : TcpConn → TcpConn × List Effect
unfolding close_write
close c = elim c.state [
  | syn_rcvd ↦ (shut_down (record c { error = some write_after_close }), remove_conn ∷ [])
  | _ ↦ close_write c
]

-- `SetDeadline` and its kin refuse a connection that is closed.
unfoldable pub set_deadline_allowed : TcpConn → Bool
set_deadline_allowed c = not (is_closed c.state)
