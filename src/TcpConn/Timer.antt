-- ===== src/TcpConn/Timer.antt =====
-- netstack/tcp_timer.go: what the timer, the detachment of the session and the listener's abort do.
use govpn.Base.{
  ℕ, ◌+◌, ◌*◌, min, bit_or, Bool, true, false, not, ◌&&◌, ltb, ◌==◌, if◌then◌else◌, some, List, [],
  ◌∷◌, length, take,
}
use govpn.Base.Words.{add32}
use govpn.TcpSegment.{TcpSegment, flag_fin, flag_syn}
use govpn.TcpState.{flag_rst, flag_ack}
use govpn.TcpConn.{
  TcpConn, ConnState, syn_rcvd, closed, conn_reset, Effect, send, remove_conn, rst_sent, segment,
  advertised_window, send_pending, shut_down, max_rto, max_retransmits, max_persist_probes,
}

unfoldable pub double_rto : ℕ → ℕ
double_rto d = if ltb max_rto (d * 2) then max_rto else d * 2

-- The connection is given up: its reset, with the error set.
unfoldable pub reset_conn : TcpConn → TcpConn × List Effect
reset_conn c = (
  shut_down (record c { error = some conn_reset }),
  remove_conn
      ∷ send (segment c (add32 c.snd_una c.sent_bytes) (bit_or flag_rst flag_ack) 0 [])
      ∷ rst_sent
      ∷ [],
)

-- A retransmission of one segment: counted, and given up after the last.
unfoldable pub retransmit : TcpSegment → TcpConn → TcpConn × List Effect
unfolding double_rto reset_conn
retransmit seg c =
    let c₁ : TcpConn = record c { retransmit_count = c.retransmit_count + 1 } in
    let rto : ℕ = double_rto c.rto in
    if ltb max_retransmits c₁.retransmit_count
    then reset_conn c₁
    else (record c₁ { rto = rto; timer = some rto }, send seg ∷ [])

-- A probe of the peer's shut window.
unfoldable pub persist : TcpConn → TcpConn × List Effect
unfolding send_pending reset_conn
persist c =
    let c₁ : TcpConn = record c { persist_probe_count = c.persist_probe_count + 1 } in
    let (c₂, sent) = send_pending true c₁ in
    if ltb max_persist_probes c₁.persist_probe_count
    then reset_conn c₁
    else (record c₂ { timer = some c₂.rto }, sent)

abbrev pub is_syn_rcvd : ConnState → Bool
is_syn_rcvd syn_rcvd = true
is_syn_rcvd _ = false

abbrev pub is_closed : ConnState → Bool
is_closed closed = true
is_closed _ = false

-- The SYN-ACK again, with the stack's own maximum segment size.
abbrev pub syn_ack : ℕ → TcpConn → TcpSegment
syn_ack mss c = record (segment c c.snd_una (bit_or flag_syn flag_ack) (advertised_window c) []) {
  has_mss = true;
  mss = mss;
}

-- The timer's expiry; the first argument is the stack's maximum segment size.
unfoldable pub on_rto_fired : ℕ → TcpConn → TcpConn × List Effect
unfolding retransmit persist advertised_window
on_rto_fired mss c =
    if is_closed c.state
    then (c, [])
    else if c.in_time_wait
    then (shut_down c, remove_conn ∷ [])
    else if is_syn_rcvd c.state
    then retransmit (syn_ack mss c) c
    else if ltb 0 c.sent_bytes
    then retransmit
        (segment c c.snd_una flag_ack (advertised_window c)
          (take (min c.sent_bytes c.snd_mss) c.out_buf))
        c
    else if c.fin_sent && not c.fin_acked
    then retransmit (segment c c.fin_seq (bit_or flag_fin flag_ack) (advertised_window c) []) c
    else if c.snd_wnd == 0 && ltb c.sent_bytes (length c.out_buf)
    then persist c
    else (record c { timer_armed = false }, [])

unfoldable pub on_attachment_detached : TcpConn → TcpConn × List Effect
on_attachment_detached c =
    if is_closed c.state
    then (c, [])
    else (shut_down (record c { error = some conn_reset }), remove_conn ∷ [])

unfoldable pub abort : TcpConn → TcpConn × List Effect
unfolding reset_conn
abort c = if is_closed c.state then (c, []) else reset_conn c
