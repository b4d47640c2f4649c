-- ===== src/TcpConn/Stream/Receive.antt =====
-- netstack/tcp_state.go: the data of a segment, in order or not, keeps what is received of the stream.
use govpn.Base.{
  if-keeps, if-keeps_when, ℕ, ◌+◌, ◌^◌, ◌<◌, true, false, ◌&&◌, Option-cases, ◌||◌, leb, ltb, sym,
  List, length, min, ◌==◌, drop, take, take-append-drop, arith, Bool-cases, inl, inr, subst,
}
use govpn.Base.Words.{add32}
use govpn.TcpSegment.{TcpSegment, flag_fin}
use govpn.TcpState.{seq_gt}
use govpn.TcpConn.{TcpConn, has_flag, max_reorder_segments, window_left}
use govpn.TcpConn.Input.{
  find_segment, accept_bytes, consume_fin, take_fin, take_in_order, keep_segment, take_out_of_order,
  answer_in_order, answer_out_of_order, handle_data,
}
use govpn.TcpConn.Kept.{drain_reorder-keeps}
use govpn.TcpConn.Stream.{receiver, IsPiece, IsFromPeer, Receives}
use govpn.TcpConn.Stream.Pieces.{accept_bytes-Receives, consume_fin-Receives, take_segment-Receives}

module _ (stream : List ℕ) (start : ℕ) (small : length stream + 1 < 2 ^ 32) where
  abbrev Holds : List ℕ → TcpConn → Type 0
  Holds got c = Receives stream start got (receiver c)

  take_fin-Receives :
      (got : List ℕ) (seg : TcpSegment) (c : TcpConn)
      → IsFromPeer stream start seg
      → Receives stream start got (receiver c)
      → Receives stream start got (receiver (take_fin seg c).0)
  unfolding take_fin
  take_fin-Receives got seg c h v =
      if-keeps_when (Holds got)
        (has_flag flag_fin seg && add32 seg.seq (length seg.payload) == c.rcv_nxt) _ _
        (λ hit. consume_fin-Receives stream start small got c (ground (arith, hit, h.fin)) v)
        (λ miss.
          if-keeps_when (Holds got) (c.has_pending_fin && c.rcv_nxt == c.pending_fin_seq) _ _
            (λ hit.
              let w : Holds got (consume_fin c) =
                consume_fin-Receives stream start small got c (ground (arith, hit, v.fin_end)) v in
              record {
                rest = w.rest;
                front = w.front;
                next = w.next;
                finished = w.finished;
                kept = w.kept;
                fin_end = λ pending. absurd (ground (arith, pending));
              })
            (λ miss. v))

  take_in_order-Receives :
      (got : List ℕ) (seg : TcpSegment) (c : TcpConn)
      → IsFromPeer stream start seg
      → IsPiece stream start c.rcv_nxt seg.payload
      → Receives stream start got (receiver c)
      → Receives stream start got (receiver (take_in_order seg c).0)
  unfolding take_in_order
  take_in_order-Receives got seg c h p v =
      let accept : ℕ = min (length seg.payload) (window_left c) in
      let c₁ : TcpConn = accept_bytes (take accept seg.payload) c in
      let v₁ : Receives stream start got (receiver c₁) =
        accept_bytes-Receives stream start small got c (take accept seg.payload)
          (drop accept seg.payload)
          (subst (IsPiece stream start c.rcv_nxt) (sym (take-append-drop accept seg.payload)) p)
          v in
      if-keeps (Holds got) (accept == length seg.payload) _ _
        (take_fin-Receives got seg _ h (
          drain_reorder-keeps (Holds got) (take_segment-Receives stream start small got)
            (length c₁.reorder) c₁ v₁))
        v₁

  keep_segment-Receives :
      (got : List ℕ) (seg : TcpSegment) (c : TcpConn)
      → IsFromPeer stream start seg
      → IsPiece stream start seg.seq seg.payload
      → Holds got c
      → Holds got (keep_segment seg c)
  unfolding keep_segment
  keep_segment-Receives got seg c h p v = elim (Bool-cases (has_flag flag_fin seg)) [
    | inl fin ↦
        rw (keep_segment, fin)
          (record {
            rest = v.rest;
            front = v.front;
            next = v.next;
            finished = v.finished;
            kept = (p, v.kept);
            fin_end = λ pending. h.fin fin;
          })
    | inr data_only ↦
        rw (keep_segment, data_only)
          (record {
            rest = v.rest;
            front = v.front;
            next = v.next;
            finished = v.finished;
            kept = (p, v.kept);
            fin_end = v.fin_end;
          })
  ]

  take_out_of_order-Receives :
      (got : List ℕ) (seg : TcpSegment) (c : TcpConn)
      → IsFromPeer stream start seg
      → IsPiece stream start seg.seq seg.payload
      → Receives stream start got (receiver c)
      → Receives stream start got (receiver (take_out_of_order seg c).0)
  unfolding take_out_of_order
  take_out_of_order-Receives got seg c h p v =
      elim (Option-cases (find_segment seg.seq c.reorder)) [
        | inr (d, e) ↦ rw (take_out_of_order, e) v
        | inl e ↦
            rw (take_out_of_order, e)
              (if-keeps (Holds got)
                (leb max_reorder_segments (length c.reorder)
                  || ltb (window_left c) (length seg.payload))
                (c, true) (keep_segment seg c, false) v (keep_segment-Receives got seg c h p v))
      ]

  pub handle_data-Receives :
      (got : List ℕ) (seg : TcpSegment) (c : TcpConn)
      → IsFromPeer stream start seg
      → Receives stream start got (receiver c)
      → Receives stream start got (receiver (handle_data seg c).0)
  unfolding handle_data answer_in_order answer_out_of_order
  handle_data-Receives got seg c h v =
      elim (Bool-cases (ltb 0 (length seg.payload) || has_flag flag_fin seg)) [
        | inr empty ↦ rw (handle_data, empty) v
        | inl carries ↦
            let p : IsPiece stream start seg.seq seg.payload = h.piece carries in
            elim (Bool-cases (seg.seq == c.rcv_nxt)) [
              | inl next ↦
                  rw (handle_data, carries, next)
                    (take_in_order-Receives got seg c h
                      (subst (λ (x : ℕ). IsPiece stream start x seg.payload) (ground (arith, next))
                        p)
                      v)
              | inr other ↦ elim (Bool-cases (seq_gt seg.seq c.rcv_nxt)) [
                | inl later ↦
                    rw (handle_data, carries, other, later)
                      (take_out_of_order-Receives got seg c h p v)
                | inr stale ↦ rw (handle_data, carries, other, stale) v
              ]
            ]
      ]
