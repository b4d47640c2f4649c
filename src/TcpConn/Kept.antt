-- ===== src/TcpConn/Kept.antt =====
-- What is kept by a branch, by the loop of netstack/tcp_state.go that drains the segments out of order,
-- and by the timer's expiry in netstack/tcp_timer.go.
use govpn.Base.{
  if-keeps, ℕ, zero, suc, ltb, not, ◌&&◌, ◌==◌, some, Option-cases, length, Bool-cases, false, inl,
  inr, ◌≡◌, List,
}
use govpn.TcpSegment.{TcpSegment}
use govpn.TcpConn.{TcpConn, window_left, shut_down}
use govpn.TcpConn.Input.{find_segment, remove_segment, accept_bytes, drain_reorder}
use govpn.TcpConn.Timer.{is_closed, is_syn_rcvd, syn_ack, retransmit, persist, on_rto_fired}

-- A segment out of order whose turn has come goes to the receive buffer.
abbrev pub take_segment : List ℕ → TcpConn → TcpConn
take_segment d c = accept_bytes d (record c { reorder = remove_segment c.rcv_nxt c.reorder })

-- A property which each round keeps is kept by the loop.
pub drain_reorder-keeps :
    (P : TcpConn → Type 0)
    → ((c : TcpConn) (d : List ℕ)
        → find_segment c.rcv_nxt c.reorder ≡ some d
        → P c
        → P (take_segment d c))
    → (rounds : ℕ) (c : TcpConn) → P c
    → P (drain_reorder rounds c)
unfolding drain_reorder
drain_reorder-keeps P kept zero c v = v
drain_reorder-keeps P kept (suc rounds) c v =
    let step : (d : List ℕ)
        → find_segment c.rcv_nxt c.reorder ≡ some d
        → P (drain_reorder rounds (take_segment d c)) =
      λ d e. drain_reorder-keeps P kept rounds (take_segment d c) (kept c d e v) in
    elim (Option-cases (find_segment c.rcv_nxt c.reorder)) [
      | inl e ↦ rw (drain_reorder, e) v
      | inr (d, e) ↦ elim (Bool-cases (ltb (window_left c) (length d))) [
        | inl small ↦ rw (drain_reorder, e, small) v
        | inr room ↦ rw (drain_reorder, e, room) (step d e)
      ]
    ]

-- The timer's expiry is one of five things.
pub on_rto_fired-keeps :
    (P : TcpConn → Type 0) (mss : ℕ) (c : TcpConn)
    → P c
    → P (shut_down c)
    → P (record c { timer_armed = false })
    → P (persist c).0
    → ((seg : TcpSegment) → P (retransmit seg c).0)
    → P (on_rto_fired mss c).0
unfolding on_rto_fired
on_rto_fired-keeps P mss c same shut idle probed sent = if-keeps P (is_closed c.state) _ _ same (
    if-keeps P c.in_time_wait _ _ shut (
      if-keeps P (is_syn_rcvd c.state) _ _ (sent (syn_ack mss c)) (
        if-keeps P (ltb 0 c.sent_bytes) _ _ (sent _) (
          if-keeps P (c.fin_sent && not c.fin_acked) _ _ (sent _)
            (if-keeps P (c.snd_wnd == 0 && ltb c.sent_bytes (length c.out_buf)) _ _ probed idle)))))
