-- ===== src/TcpConn/Input.antt =====
-- netstack/tcp_state.go: what a segment that arrives does to its connection.
use govpn.Base.{
  ℕ, zero, suc, ◌+◌, ◌-◌, min, Bool, true, false, not, ◌&&◌, ◌||◌, ltb, leb, ◌==◌, if◌then◌else◌,
  Option, none, some, List, [], ◌∷◌, ◌++◌, length, take, drop,
}
use govpn.Base.Words.{add32, sub32}
use govpn.TcpSegment.{TcpSegment, flag_fin}
use govpn.TcpState.{flag_rst, flag_ack, seq_gt, seq_ge, build_rst_segment, rst_in_window}
use govpn.TcpConn.{
  TcpConn, ConnState, syn_rcvd, established, fin_wait1, fin_wait2, closing, time_wait, close_wait,
  last_ack, closed, listen, conn_reset, Effect, send, remove_conn, release_half_open, enqueue,
  rst_received, rst_sent, reorder_dropped, has_flag, window_left, build_ack, send_pending,
  stop_timer, shut_down, start_time_wait, rearm, initial_rto, max_reorder_segments, reorder_bytes,
}

-- The map of segments out of order.
unfoldable pub find_segment : ℕ → List (ℕ × List ℕ) → Option (List ℕ)
find_segment seq [] = none
find_segment seq ((s, d) ∷ segs) = if seq == s then some d else find_segment seq segs

unfoldable pub remove_segment : ℕ → List (ℕ × List ℕ) → List (ℕ × List ℕ)
remove_segment seq [] = []
remove_segment seq ((s, d) ∷ segs) = if seq == s then segs else (s, d) ∷ remove_segment seq segs

-- Bytes that are next in order go to the receive buffer.
abbrev pub accept_bytes : List ℕ → TcpConn → TcpConn
accept_bytes bytes c = record c {
  recv_buf = c.recv_buf ++ bytes;
  rcv_nxt = add32 c.rcv_nxt (length bytes);
}

-- The loop that takes in segments which are no longer out of order, while the window has room. Each
-- round removes one, so their number bounds the rounds.
unfoldable pub drain_reorder : ℕ → TcpConn → TcpConn
unfolding find_segment remove_segment
drain_reorder zero c = c
drain_reorder (suc rounds) c = elim (find_segment c.rcv_nxt c.reorder) [
  | none ↦ c
  | some d ↦ elim (ltb (window_left c) (length d)) [
    | true ↦ c
    | false ↦
        drain_reorder rounds
          (accept_bytes d (record c { reorder = remove_segment c.rcv_nxt c.reorder }))
  ]
]

-- The peer's FIN is consumed.
abbrev pub consume_fin : TcpConn → TcpConn
consume_fin c = record c { rcv_nxt = add32 c.rcv_nxt 1; peer_closed = true }

-- A FIN that is next in order: this segment's, or one that came before its turn.
unfoldable pub take_fin : TcpSegment → TcpConn → TcpConn × Bool
take_fin seg c =
    if has_flag flag_fin seg && add32 seg.seq (length seg.payload) == c.rcv_nxt
    then (consume_fin c, true)
    else if c.has_pending_fin && c.rcv_nxt == c.pending_fin_seq
    then (record (consume_fin c) { has_pending_fin = false }, true)
    else (c, false)

-- `seg.seq == c.rcvNxt`: what the window has no room for is dropped.
unfoldable pub take_in_order : TcpSegment → TcpConn → TcpConn × Bool
unfolding drain_reorder take_fin
take_in_order seg c =
    let accept : ℕ = min (length seg.payload) (window_left c) in
    let c₁ : TcpConn = accept_bytes (take accept seg.payload) c in
    if accept == length seg.payload
    then take_fin seg (drain_reorder (length c₁.reorder) c₁)
    else (c₁, false)

-- A segment is kept for its turn, and its FIN with it.
unfoldable pub keep_segment : TcpSegment → TcpConn → TcpConn
keep_segment seg c =
    let c₁ : TcpConn = record c { reorder = (seg.seq, seg.payload) ∷ c.reorder } in
    if has_flag flag_fin seg
    then record c₁ { has_pending_fin = true; pending_fin_seq = add32 seg.seq (length seg.payload) }
    else c₁

-- `seqGT(seg.seq, c.rcvNxt)`: the segment is kept for later, if there is room. The Boolean says that it
-- was dropped.
unfoldable pub take_out_of_order : TcpSegment → TcpConn → TcpConn × Bool
unfolding find_segment keep_segment
take_out_of_order seg c = elim (find_segment seg.seq c.reorder) [
  | some d ↦ (c, false)
  | none ↦
      if leb max_reorder_segments (length c.reorder) || ltb (window_left c) (length seg.payload)
      then (c, true)
      else (keep_segment seg c, false)
]

-- What a segment next in order, or later, does: the state, whether the peer's FIN was consumed, and the
-- effects.
unfoldable pub answer_in_order : TcpSegment → TcpConn → TcpConn × Bool × List Effect
unfolding take_in_order build_ack
answer_in_order seg c = let (c₁, fin) = take_in_order seg c in (c₁, fin, send (build_ack c₁) ∷ [])

unfoldable pub answer_out_of_order : TcpSegment → TcpConn → TcpConn × Bool × List Effect
unfolding take_out_of_order build_ack
answer_out_of_order seg c =
    let (c₁, dropped) = take_out_of_order seg c in
    (c₁, false, (if dropped then reorder_dropped ∷ [] else []) ++ (send (build_ack c₁) ∷ []))

-- `handleEstablishedDataLocked`.
unfoldable pub handle_data : TcpSegment → TcpConn → TcpConn × Bool × List Effect
unfolding answer_in_order answer_out_of_order build_ack
handle_data seg c =
    if not (ltb 0 (length seg.payload) || has_flag flag_fin seg)
    then (c, false, [])
    else if seg.seq == c.rcv_nxt
    then answer_in_order seg c
    else if seq_gt seg.seq c.rcv_nxt
    then answer_out_of_order seg c
    else (c, false, send (build_ack c) ∷ [])

-- The bytes that an acknowledgement covers are taken off the send buffer.
unfoldable pub ack_data : ℕ → TcpConn → TcpConn
ack_data ack c =
    let most : ℕ = add32 c.snd_una c.sent_bytes in
    let covered : ℕ = (if seq_gt ack most then most else ack) in
    let amount : ℕ = sub32 covered c.snd_una in
    let left : ℕ = c.sent_bytes - amount in
    let c₁ : TcpConn = record c {
      out_buf = drop amount c.out_buf;
      sent_bytes = left;
      snd_una = covered;
      retransmit_count = 0;
      rto = initial_rto;
    } in
    if ltb 0 c.sent_bytes && (seq_gt ack c.snd_una && ltb 0 amount)
    then (if left == 0 then stop_timer c₁ else rearm initial_rto c₁)
    else c

unfoldable pub ack_fin : ℕ → TcpConn → TcpConn
ack_fin ack c =
    if c.fin_sent && (not c.fin_acked && seq_ge ack (add32 c.fin_seq 1))
    then (if c.sent_bytes == 0
        then record (stop_timer c) { fin_acked = true }
        else record c { fin_acked = true })
    else c

unfoldable pub set_window : ℕ → TcpConn → TcpConn
set_window window c = record c {
  persist_probe_count = if c.snd_wnd == 0 && ltb 0 window then 0 else c.persist_probe_count;
  snd_wnd = window;
}

-- `handleAckLocked`.
unfoldable pub handle_ack : TcpSegment → TcpConn → TcpConn × List Effect
unfolding ack_data ack_fin set_window send_pending
handle_ack seg c =
    if has_flag flag_ack seg
    then send_pending false (set_window seg.window (ack_fin seg.ack (ack_data seg.ack c)))
    else (c, [])

-- An acknowledgement and then the data; the FIN consumed moves the state as `after` says.
unfoldable pub ack_and_data :
    TcpSegment → (TcpConn → Bool → TcpConn) → TcpConn → TcpConn × List Effect
unfolding handle_ack handle_data
ack_and_data seg after c =
    let (c₁, sent) = handle_ack seg c in
    let (c₂, fin, answers) = handle_data seg c₁ in (after c₂ fin, sent ++ answers)

unfoldable pub after_established : TcpConn → Bool → TcpConn
after_established c fin = if fin then record c { state = close_wait } else c

unfoldable pub after_fin_wait1 : TcpConn → Bool → TcpConn
unfolding start_time_wait
after_fin_wait1 c fin =
    if fin
    then (if c.fin_acked then start_time_wait c else record c { state = closing })
    else if c.fin_acked
    then record c { state = fin_wait2 }
    else c

unfoldable pub after_fin_wait2 : TcpConn → Bool → TcpConn
unfolding start_time_wait
after_fin_wait2 c fin = if fin then start_time_wait c else c

-- The handshake's last segment, or a reset for anything else.
unfoldable pub handle_syn_rcvd : TcpSegment → TcpConn → TcpConn × List Effect
unfolding handle_data build_rst_segment
handle_syn_rcvd seg c =
    if not (has_flag flag_ack seg) || not (seg.ack == add32 c.snd_una 1)
    then (shut_down c, remove_conn ∷ send (build_rst_segment seg) ∷ rst_sent ∷ [])
    else (let (c₁, fin, answers) =
          handle_data seg (stop_timer (record c { snd_una = seg.ack; state = established })) in
        (c₁, release_half_open ∷ enqueue ∷ answers))

-- The switch of `handleSegment`, after the handling of a reset.
unfoldable pub handle_in_state : ConnState → TcpSegment → TcpConn → TcpConn × List Effect
unfolding handle_syn_rcvd ack_and_data after_established after_fin_wait1 after_fin_wait2 handle_ack
    start_time_wait
handle_in_state listen seg c = (c, [])
handle_in_state syn_rcvd seg c = handle_syn_rcvd seg c
handle_in_state established seg c = ack_and_data seg after_established c
handle_in_state fin_wait1 seg c = ack_and_data seg after_fin_wait1 c
handle_in_state fin_wait2 seg c = ack_and_data seg after_fin_wait2 c
handle_in_state closing seg c =
    let (c₁, sent) = handle_ack seg c in ((if c₁.fin_acked then start_time_wait c₁ else c₁), sent)
handle_in_state close_wait seg c = handle_ack seg c
handle_in_state last_ack seg c =
    let (c₁, sent) = handle_ack seg c in
    if c₁.fin_acked then (shut_down c₁, remove_conn ∷ sent) else (c₁, sent)
handle_in_state time_wait seg c =
    if has_flag flag_fin seg then (c, send (build_ack c) ∷ []) else (c, [])
handle_in_state closed seg c = (c, [])

unfoldable pub handle_segment : TcpSegment → TcpConn → TcpConn × List Effect
unfolding handle_in_state rst_in_window
handle_segment seg c =
    if has_flag flag_rst seg
    then (if rst_in_window c.rcv_nxt (length c.recv_buf + reorder_bytes c.reorder) seg
        then (shut_down (record c { error = some conn_reset }), rst_received ∷ remove_conn ∷ [])
        else (c, []))
    else handle_in_state c.state seg c
