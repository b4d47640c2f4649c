-- ===== src/TcpConn/Bounds.antt =====
-- What a connection holds for its two sides stays within the limits.
pub mod Segments
pub mod Run
use govpn.Base.{
  ℕ, zero, suc, ◌+◌, ◌-◌, ◌≤◌, min, Bool, some, ◌≡◌, List, [], ◌∷◌, length, take, length-append,
  length-take, arith,
}
use govpn.TcpSegment.{TcpSegment}
use govpn.TcpState.{recv_window_remaining}
use govpn.TcpConn.{
  TcpConn, window_left, send_chunks, send_up_to, send_pending, next_chunk, reorder_bytes,
  max_in_flight_bytes, max_reorder_segments, max_rto, allowed_in_flight,
}
use govpn.TcpConn.Input.{
  find_segment, remove_segment, accept_bytes, drain_reorder, take_fin, take_in_order, keep_segment,
  take_out_of_order, answer_in_order, answer_out_of_order, handle_data, accept_bytes,
}
use govpn.TcpConn.Kept.{take_segment, drain_reorder-keeps}

pub record IsBounded (c : TcpConn) : Type 0 where
  pub in_flight : c.sent_bytes ≤ length c.out_buf
  pub queued : length c.out_buf ≤ max_in_flight_bytes
  pub held : length c.recv_buf + reorder_bytes c.reorder ≤ 65535
  pub waiting : length c.reorder ≤ max_reorder_segments
  pub slow : c.rto ≤ max_rto

-- Sending.
send_chunks-IsBounded :
    (rounds limit : ℕ) (probe : Bool) (c : TcpConn)
    → IsBounded c
    → IsBounded (send_chunks rounds limit probe c).0
unfolding send_chunks
send_chunks-IsBounded zero limit probe c v = v
send_chunks-IsBounded (suc rounds) limit probe c v =
    let c₁ : TcpConn = record c { sent_bytes = c.sent_bytes + next_chunk limit c } in
    let v₁ : IsBounded c₁ = record {
      in_flight = omega (arith, v.in_flight);
      queued = v.queued;
      held = v.held;
      waiting = v.waiting;
      slow = v.slow;
    } in
    ground (
      arith,
      send_chunks-IsBounded rounds limit probe
          (record c { sent_bytes = c.sent_bytes + next_chunk limit c }) v₁,
    )

pub send_pending-IsBounded :
    (probe : Bool) (c : TcpConn) → IsBounded c → IsBounded (send_pending probe c).0
unfolding send_pending send_up_to
send_pending-IsBounded probe c v = ground (
  arith,
  send_chunks-IsBounded (length c.out_buf) (c.sent_bytes + 1) probe c v,
  send_chunks-IsBounded (length c.out_buf) (allowed_in_flight c) probe c v,
)

-- Receiving.
FoundSegment : ℕ → List (ℕ × List ℕ) → List ℕ → Type 0
unfolding remove_segment reorder_bytes
FoundSegment seq segs d =
    ((reorder_bytes (remove_segment seq segs) + length d ≡ reorder_bytes segs)
      × (length (remove_segment seq segs) + 1 ≡ length segs))

find_segment-FoundSegment :
    (seq : ℕ) (segs : List (ℕ × List ℕ)) (d : List ℕ)
    → find_segment seq segs ≡ some d
    → FoundSegment seq segs d
unfolding find_segment remove_segment reorder_bytes FoundSegment
find_segment-FoundSegment seq [] d e = ground (arith)
find_segment-FoundSegment seq ((s, d₁) ∷ segs) d e =
    ground (arith, find_segment-FoundSegment seq segs d)

take_segment-IsBounded :
    (c : TcpConn) (d : List ℕ)
    → find_segment c.rcv_nxt c.reorder ≡ some d
    → IsBounded c
    → IsBounded (take_segment d c)
unfolding FoundSegment
take_segment-IsBounded c d e v =
    let found : FoundSegment c.rcv_nxt c.reorder d =
      find_segment-FoundSegment c.rcv_nxt c.reorder d e in
    record {
      in_flight = v.in_flight;
      queued = v.queued;
      held = omega (arith, v.held, found.0, length-append c.recv_buf d);
      waiting = omega (arith, v.waiting, found.1);
      slow = v.slow;
    }

drain_reorder-IsBounded :
    (rounds : ℕ) (c : TcpConn) → IsBounded c → IsBounded (drain_reorder rounds c)
drain_reorder-IsBounded = drain_reorder-keeps IsBounded take_segment-IsBounded

take_fin-IsBounded : (seg : TcpSegment) (c : TcpConn) → IsBounded c → IsBounded (take_fin seg c).0
unfolding take_fin
take_fin-IsBounded seg c v = ground (arith)

take_in_order-IsBounded :
    (seg : TcpSegment) (c : TcpConn) → IsBounded c → IsBounded (take_in_order seg c).0
unfolding take_in_order window_left recv_window_remaining
take_in_order-IsBounded seg c v =
    let accept : ℕ = min (length seg.payload) (window_left c) in
    let c₁ : TcpConn = accept_bytes (take accept seg.payload) c in
    let v₁ : IsBounded c₁ = record {
      in_flight = v.in_flight;
      queued = v.queued;
      held = ground (
        arith,
        v.held,
        length-append c.recv_buf (take (min (length seg.payload) (window_left c)) seg.payload),
        length-take (min (length seg.payload) (window_left c)) seg.payload,
      );
      waiting = v.waiting;
      slow = v.slow;
    } in
    ground (
      arith,
      take_fin-IsBounded seg (drain_reorder (length c₁.reorder) c₁)
          (drain_reorder-IsBounded (length c₁.reorder) c₁ v₁),
      v₁,
    )

take_out_of_order-IsBounded :
    (seg : TcpSegment) (c : TcpConn) → IsBounded c → IsBounded (take_out_of_order seg c).0
unfolding take_out_of_order keep_segment window_left recv_window_remaining reorder_bytes
take_out_of_order-IsBounded seg c v = ground (arith)

pub handle_data-IsBounded :
    (seg : TcpSegment) (c : TcpConn) → IsBounded c → IsBounded (handle_data seg c).0
unfolding handle_data answer_in_order answer_out_of_order
handle_data-IsBounded seg c v =
    ground (arith, take_in_order-IsBounded seg c v, take_out_of_order-IsBounded seg c v)
