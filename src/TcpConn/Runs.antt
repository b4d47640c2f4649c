-- ===== src/TcpConn/Runs.antt =====
-- Connections run on concrete segments.
use govpn.Base.{ℕ, true, false, some, List, [], ◌∷◌, ◌++◌, All, replicate, ◌≡◌, refl, arith}
use govpn.TcpSegment.{TcpSegment}
use govpn.TcpConn.{TcpConn, close_wait, closed, new_tcp_conn, has_flag, conn_reset}
use govpn.TcpConn.Input.{handle_segment}
use govpn.TcpConn.Api.{read, eof, write_round}
use govpn.TcpConn.Events.{Event, arrives, reads, writes, fires, run, all_handed}
use govpn.TcpConn.Bounds.{IsBounded}
use govpn.TcpConn.Bounds.Run.{run-IsBounded}
use govpn.TcpConn.Stream.{IsFromPeer, IsOfPeer}
use govpn.TcpConn.Stream.Delivery.{read_stream, read_end_of_stream}
use govpn.TcpConn.GiveUp.{awaits_answer, gives_up}

-- The peer's SYN has the number 4294967290, so that its stream runs over the end of the number space.
abbrev half_open : TcpConn
half_open = new_tcp_conn 443 50_000 1000 4_294_967_290 64_000 1360

abbrev from_peer : ℕ → ℕ → List ℕ → TcpSegment
from_peer seq flags payload = record {
  src_port = 50_000;
  dst_port = 443;
  seq = seq;
  ack = 1001;
  flags = flags;
  window = 64_000;
  has_mss = false;
  mss = 0;
  payload = payload;
}

abbrev peer_stream : List ℕ
peer_stream = 10 ∷ 20 ∷ 30 ∷ 40 ∷ 50 ∷ 60 ∷ 70 ∷ []

-- The end of the stream comes before its beginning, and the beginning twice.
abbrev whole_stream : List Event
whole_stream =
    arrives (from_peer 4_294_967_291 16 [])
    ∷ arrives (from_peer 0 17 (60 ∷ 70 ∷ []))
    ∷ arrives (from_peer 4_294_967_291 24 (10 ∷ 20 ∷ []))
    ∷ reads false 1
    ∷ arrives (from_peer 4_294_967_291 24 (10 ∷ 20 ∷ []))
    ∷ arrives (from_peer 4_294_967_293 24 (30 ∷ 40 ∷ 50 ∷ []))
    ∷ reads false 100
    ∷ []

whole_stream_read : all_handed whole_stream half_open ≡ peer_stream
unfolding all_handed read handle_segment has_flag new_tcp_conn
whole_stream_read = refl

whole_stream_state : (run whole_stream half_open).state ≡ close_wait
unfolding run read handle_segment has_flag new_tcp_conn
whole_stream_state = refl

opening_IsFromPeer : IsFromPeer peer_stream 4_294_967_291 (from_peer 4_294_967_291 16 [])
unfolding has_flag
opening_IsFromPeer = record {
  piece = λ carries. absurd (ground (arith, carries));
  fin = λ ends. absurd (ground (arith, ends));
}

last_IsFromPeer : IsFromPeer peer_stream 4_294_967_291 (from_peer 0 17 (60 ∷ 70 ∷ []))
unfolding has_flag
last_IsFromPeer = record {
  piece = λ carries. record {
    before = 10 ∷ 20 ∷ 30 ∷ 40 ∷ 50 ∷ [];
    after = [];
    place = refl;
    number = refl;
  };
  fin = λ ends. refl;
}

first_IsFromPeer : IsFromPeer peer_stream 4_294_967_291 (from_peer 4_294_967_291 24 (10 ∷ 20 ∷ []))
unfolding has_flag
first_IsFromPeer = record {
  piece = λ carries. record {
    before = [];
    after = 30 ∷ 40 ∷ 50 ∷ 60 ∷ 70 ∷ [];
    place = refl;
    number = refl;
  };
  fin = λ ends. absurd (ground (arith, ends));
}

middle_IsFromPeer :
    IsFromPeer peer_stream 4_294_967_291 (from_peer 4_294_967_293 24 (30 ∷ 40 ∷ 50 ∷ []))
unfolding has_flag
middle_IsFromPeer = record {
  piece = λ carries. record {
    before = 10 ∷ 20 ∷ [];
    after = 60 ∷ 70 ∷ [];
    place = refl;
    number = refl;
  };
  fin = λ ends. absurd (ground (arith, ends));
}

peer_events : All (IsOfPeer peer_stream 4_294_967_291) whole_stream
peer_events = (
  opening_IsFromPeer,
  (last_IsFromPeer, (first_IsFromPeer, (tt, (first_IsFromPeer, (middle_IsFromPeer, (tt, tt)))))),
)

run-IsBounded_example : IsBounded (run whole_stream half_open)
run-IsBounded_example = run-IsBounded 443 50_000 1000 4_294_967_290 64_000 1360 whole_stream

read_stream_example : (rest : List ℕ) × (all_handed whole_stream half_open ++ rest ≡ peer_stream)
read_stream_example =
    read_stream peer_stream 443 50_000 1000 4_294_967_290 64_000 1360 whole_stream (omega (arith))
      peer_events

at_end : (read false 10 (run whole_stream half_open)).1 ≡ eof
unfolding run read handle_segment has_flag new_tcp_conn
at_end = refl

read_end_of_stream_example : all_handed whole_stream half_open ≡ peer_stream
read_end_of_stream_example =
    read_end_of_stream peer_stream 443 50_000 1000 4_294_967_290 64_000 1360 whole_stream false 10
      (omega (arith)) peer_events at_end

-- Bytes in flight, and no answer.
abbrev unanswered_events : List Event
unanswered_events = arrives (from_peer 4_294_967_291 16 []) ∷ writes false (1 ∷ 2 ∷ []) ∷ []

unanswered_waits : awaits_answer (run unanswered_events half_open) ≡ true
unfolding run read handle_segment has_flag new_tcp_conn awaits_answer write_round
unanswered_waits = refl

gives_up_example :
    ((run (replicate 7 (fires 1360)) (run unanswered_events half_open)).state ≡ closed)
    × ((run (replicate 7 (fires 1360)) (run unanswered_events half_open)).error ≡ some conn_reset)
gives_up_example =
    gives_up 1360 6 (run unanswered_events half_open) unanswered_waits (omega (arith))
