-- ===== src/TcpConn/Stream/Delivery.antt =====
-- What the application reads of the peer's stream.
use govpn.Base.{
  ℕ, ◌+◌, ◌^◌, ◌<◌, Bool, true, ◌≡◌, refl, sym, ap, ◌∙◌, List, [], ◌++◌, length, All, arith,
  append_assoc, append-nil,
}
use govpn.Base.Words.{add32}
use govpn.TcpConn.{TcpConn, new_tcp_conn}
use govpn.TcpConn.Api.{read, eof}
use govpn.TcpConn.Events.{Event, run, all_handed}
use govpn.TcpConn.Stream.{Receives, IsOfPeer, receiver}
use govpn.TcpConn.Stream.Run.{run-Receives}

-- A new connection has the empty front of the stream.
start-Receives :
    (stream : List ℕ) (local_port remote_port isn client_isn client_window snd_mss : ℕ)
    → Receives stream
        (add32 client_isn 1)
        []
        (receiver (new_tcp_conn local_port remote_port isn client_isn client_window snd_mss))
unfolding new_tcp_conn
start-Receives stream local_port remote_port isn client_isn client_window snd_mss = record {
  rest = stream;
  front = refl;
  next = omega (arith);
  finished = λ done. absurd (ground (arith, done));
  kept = tt;
  fin_end = λ pending. absurd (ground (arith, pending));
}

-- The number of the peer's SYN is `client_isn`, and the stream is shorter than the number space: if every
-- segment that arrives carries a piece of the stream, in whatever order and however often, with a FIN
-- only at its end, then what `Read` has handed over after any sequence of events is a front of the stream.
pub read_stream :
    (stream : List ℕ) (local_port remote_port isn client_isn client_window snd_mss : ℕ)
    (es : List Event)
    → length stream + 1 < 2 ^ 32
    → All (IsOfPeer stream (add32 client_isn 1)) es
    → (rest : List ℕ) × (all_handed es
            (new_tcp_conn local_port remote_port isn client_isn client_window snd_mss)
          ++ rest
        ≡ stream)
read_stream stream local_port remote_port isn client_isn client_window snd_mss es small hs =
    let c : TcpConn = new_tcp_conn local_port remote_port isn client_isn client_window snd_mss in
    let v : Receives stream (add32 client_isn 1) (all_handed es c) (receiver (run es c)) =
      run-Receives stream (add32 client_isn 1) small [] es c hs
        (start-Receives stream local_port remote_port isn client_isn client_window snd_mss) in
    (
      (run es c).recv_buf ++ v.rest,
      sym (append_assoc (all_handed es c) (run es c).recv_buf v.rest) ∙ v.front,
    )

read-eof :
    (expired : Bool) (n : ℕ) (c : TcpConn)
    → (read expired n c).1 ≡ eof
    → (c.peer_closed ≡ true) × (c.recv_buf ≡ [])
unfolding read
read-eof expired n c e = ground (arith, e)

-- The number of the peer's SYN is `client_isn`, the stream is shorter than the number space, and every
-- segment that arrives carries a piece of it, or a FIN at its end: when `Read` then answers the end of
-- the stream, after any sequence of events, all of the stream has been handed over.
pub read_end_of_stream :
    (stream : List ℕ) (local_port remote_port isn client_isn client_window snd_mss : ℕ)
    (es : List Event) (expired : Bool) (n : ℕ)
    → length stream + 1 < 2 ^ 32
    → All (IsOfPeer stream (add32 client_isn 1)) es
    → (read expired n
        (run es (new_tcp_conn local_port remote_port isn client_isn client_window snd_mss))).1
      ≡ eof
    → all_handed es (new_tcp_conn local_port remote_port isn client_isn client_window snd_mss)
      ≡ stream
read_end_of_stream stream local_port remote_port isn client_isn client_window snd_mss es expired n
      small hs e =
    let c : TcpConn = new_tcp_conn local_port remote_port isn client_isn client_window snd_mss in
    let v : Receives stream (add32 client_isn 1) (all_handed es c) (receiver (run es c)) =
      run-Receives stream (add32 client_isn 1) small [] es c hs
        (start-Receives stream local_port remote_port isn client_isn client_window snd_mss) in
    let (done, empty) = read-eof expired n (run es c) e in
    let got : List ℕ = all_handed es c in
    sym (append-nil got)
    ∙ ap (λ (l : List ℕ). got ++ l) (sym empty)
    ∙ sym (append-nil (got ++ (run es c).recv_buf))
    ∙ ap (λ (l : List ℕ). (got ++ (run es c).recv_buf) ++ l) (sym (v.finished done))
    ∙ v.front
