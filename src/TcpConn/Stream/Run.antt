-- ===== src/TcpConn/Stream/Run.antt =====
-- The received stream over all events of a connection.
use govpn.Base.{
  if-keeps, ℕ, ◌+◌, ◌^◌, ◌<◌, Bool, true, false, not, ◌||◌, ltb, ◌==◌, if◌then◌else◌, ◌≡◌, refl,
  sym, ap, ◌∙◌, subst, List, [], ◌∷◌, ◌++◌, length, drop, take, take-append-drop, All, arith,
  append_assoc, append-nil, Option-cases, Bool-cases, inl, inr,
}
use govpn.Base.Words.{add32}
use govpn.TcpSegment.{TcpSegment, flag_fin}
use govpn.TcpState.{flag_rst, flag_ack, rst_in_window}
use govpn.TcpConn.{
  TcpConn, ConnState, listen, syn_rcvd, established, fin_wait1, fin_wait2, closing, time_wait,
  close_wait, last_ack, closed, has_flag, stop_timer, start_time_wait, reorder_bytes,
}
use govpn.TcpConn.Input.{
  handle_ack, handle_data, ack_and_data, after_established, after_fin_wait1, after_fin_wait2,
  handle_syn_rcvd, handle_in_state, handle_segment,
}
use govpn.TcpConn.Timer.{is_closed, reset_conn, on_attachment_detached, abort}
use govpn.TcpConn.Api.{read, eof, read_blocks}
use govpn.TcpConn.Events.{
  Event, arrives, reads, writes, fires, detaches, aborts, closes_write, closes, step, handed, run,
  all_handed, bytes_of,
}
use govpn.TcpConn.Stream.{receiver, IsFromPeer, Receives, IsOfPeer}
use govpn.TcpConn.Stream.Receive.{handle_data-Receives}
use govpn.TcpConn.Stream.Keeps.{
  receiver-handle_ack, receiver-after_established, receiver-after_fin_wait1,
  receiver-after_fin_wait2, receiver-start_time_wait, receiver-on_rto_fired, receiver-write_round,
  receiver-close_write, receiver-close,
}

bytes_of_end : (b : Bool) → bytes_of (if b then eof else read_blocks) ≡ []
bytes_of_end true = refl
bytes_of_end false = refl

module _ (stream : List ℕ) (start : ℕ) (small : length stream + 1 < 2 ^ 32) where
  abbrev Holds : List ℕ → TcpConn → Type 0
  Holds got c = Receives stream start got (receiver c)

  unchanged :
      (got : List ℕ) (c c₁ : TcpConn) → receiver c₁ ≡ receiver c → Holds got c → Holds got c₁
  unchanged got c c₁ e v = subst (Receives stream start got) (sym e) v

  ack_and_data-Receives :
      (got : List ℕ) (seg : TcpSegment) (after : TcpConn → Bool → TcpConn) (c : TcpConn)
      → IsFromPeer stream start seg
      → ((c : TcpConn) (fin : Bool) → receiver (after c fin) ≡ receiver c)
      → Holds got c
      → Holds got (ack_and_data seg after c).0
  unfolding ack_and_data
  ack_and_data-Receives got seg after c h same v =
      let c₁ : TcpConn = (handle_data seg (handle_ack seg c).0).0 in
      let fin : Bool = (handle_data seg (handle_ack seg c).0).1 in
      unchanged got c₁ (after c₁ fin) (same c₁ fin) (
        handle_data-Receives stream start small got seg (handle_ack seg c).0 h
          (unchanged got c (handle_ack seg c).0 (receiver-handle_ack seg c) v))

  handle_in_state-Receives :
      (got : List ℕ) (s : ConnState) (seg : TcpSegment) (c : TcpConn)
      → IsFromPeer stream start seg
      → Holds got c
      → Holds got (handle_in_state s seg c).0
  unfolding handle_in_state handle_syn_rcvd
  handle_in_state-Receives got listen seg c h v = v
  handle_in_state-Receives got syn_rcvd seg c h v =
      if-keeps (Holds got) (not (has_flag flag_ack seg) || not (seg.ack == add32 c.snd_una 1)) _ _ v
        (handle_data-Receives stream start small got seg
          (stop_timer (record c { snd_una = seg.ack; state = established })) h v)
  handle_in_state-Receives got established seg c h v =
      ack_and_data-Receives got seg after_established c h receiver-after_established v
  handle_in_state-Receives got fin_wait1 seg c h v =
      ack_and_data-Receives got seg after_fin_wait1 c h receiver-after_fin_wait1 v
  handle_in_state-Receives got fin_wait2 seg c h v =
      ack_and_data-Receives got seg after_fin_wait2 c h receiver-after_fin_wait2 v
  handle_in_state-Receives got closing seg c h v =
      unchanged got c
        (if (handle_ack seg c).0.fin_acked
          then start_time_wait (handle_ack seg c).0
          else (handle_ack seg c).0)
        (receiver-start_time_wait (handle_ack seg c).0.fin_acked (handle_ack seg c).0
          ∙ receiver-handle_ack seg c)
        v
  handle_in_state-Receives got close_wait seg c h v =
      unchanged got c (handle_ack seg c).0 (receiver-handle_ack seg c) v
  handle_in_state-Receives got last_ack seg c h v =
      let w : Holds got (handle_ack seg c).0 =
        unchanged got c (handle_ack seg c).0 (receiver-handle_ack seg c) v in
      if-keeps (Holds got) (handle_ack seg c).0.fin_acked _ _ w w
  handle_in_state-Receives got time_wait seg c h v =
      if-keeps (Holds got) (has_flag flag_fin seg) _ _ v v
  handle_in_state-Receives got closed seg c h v = v

  handle_segment-Receives :
      (got : List ℕ) (seg : TcpSegment) (c : TcpConn)
      → IsFromPeer stream start seg
      → Holds got c
      → Holds got (handle_segment seg c).0
  unfolding handle_segment
  handle_segment-Receives got seg c h v =
      if-keeps (Holds got) (has_flag flag_rst seg) _ _
        (if-keeps (Holds got)
          (rst_in_window c.rcv_nxt (length c.recv_buf + reorder_bytes c.reorder) seg) _ _ v v)
        (handle_in_state-Receives got c.state seg c h v)

  still : (got : List ℕ) (c : TcpConn) → Holds got c → Holds (got ++ []) c
  still got c v = subst (λ (l : List ℕ). Holds l c) (sym (append-nil got)) v

  read-Receives :
      (got : List ℕ) (expired : Bool) (n : ℕ) (c : TcpConn)
      → Holds got c
      → Holds (got ++ bytes_of (read expired n c).1) (read expired n c).0
  unfolding read
  read-Receives got expired n c v =
      let same_bytes : Holds (got ++ []) c = still got c v in
      elim (Bool-cases expired) [
        | inl late ↦ rw (read, late) same_bytes
        | inr early ↦ elim (Bool-cases (ltb 0 (length c.recv_buf))) [
          | inl some_bytes ↦
              rw (read, early, some_bytes)
                (let same : (got ++ take n c.recv_buf) ++ drop n c.recv_buf ≡ got ++ c.recv_buf =
                    append_assoc got (take n c.recv_buf) (drop n c.recv_buf)
                    ∙ ap (λ (l : List ℕ). got ++ l) (take-append-drop n c.recv_buf) in
                  record {
                    rest = v.rest;
                    front = ap (λ (l : List ℕ). l ++ v.rest) same ∙ v.front;
                    next = omega (arith, v.next, ap length same);
                    finished = v.finished;
                    kept = v.kept;
                    fin_end = v.fin_end;
                  })
          | inr nothing ↦ elim (Option-cases c.error) [
            | inr (e, failed) ↦ rw (read, early, nothing, failed) same_bytes
            | inl fine ↦
                rw (read, early, nothing, fine)
                  (subst (λ (l : List ℕ). Holds (got ++ l) c) (sym (bytes_of_end c.peer_closed))
                    same_bytes)
          ]
        ]
      ]

  step-Receives :
      (got : List ℕ) (e : Event) (c : TcpConn)
      → IsOfPeer stream start e
      → Holds got c
      → Holds (got ++ handed e c) (step e c)
  unfolding step handed on_attachment_detached abort reset_conn
  step-Receives got (arrives seg) c h v =
      still got (step (arrives seg) c) (handle_segment-Receives got seg c h v)
  step-Receives got (reads expired n) c h v = read-Receives got expired n c v
  step-Receives got (writes expired p) c h v =
      still got (step (writes expired p) c)
        (unchanged got c (step (writes expired p) c) (receiver-write_round expired p c) v)
  step-Receives got (fires mss) c h v =
      still got (step (fires mss) c)
        (unchanged got c (step (fires mss) c) (receiver-on_rto_fired mss c) v)
  step-Receives got detaches c h v =
      still got (step detaches c) (if-keeps (Holds got) (is_closed c.state) _ _ v v)
  step-Receives got aborts c h v =
      still got (step aborts c) (if-keeps (Holds got) (is_closed c.state) _ _ v v)
  step-Receives got closes_write c h v =
      still got (step closes_write c)
        (unchanged got c (step closes_write c) (receiver-close_write c) v)
  step-Receives got closes c h v =
      still got (step closes c) (unchanged got c (step closes c) (receiver-close c) v)

  pub run-Receives :
      (got : List ℕ) (es : List Event) (c : TcpConn)
      → All (IsOfPeer stream start) es
      → Holds got c
      → Holds (got ++ all_handed es c) (run es c)
  unfolding run all_handed
  run-Receives got [] c hs v = still got c v
  run-Receives got (e ∷ es) c hs v =
      subst (λ (l : List ℕ). Holds l (run es (step e c)))
        (append_assoc got (handed e c) (all_handed es (step e c)))
        (run-Receives (got ++ handed e c) es (step e c) hs.1 (step-Receives got e c hs.0 v))
