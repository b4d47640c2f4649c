-- ===== src/TcpConn/Events.antt =====
-- A connection over any sequence of what can happen to it, in the order in which the lock lets it
-- happen, with the bytes that the application has read.
use govpn.Base.{ℕ, Bool, List, [], ◌∷◌, ◌++◌}
use govpn.TcpSegment.{TcpSegment}
use govpn.TcpConn.{TcpConn}
use govpn.TcpConn.Input.{handle_segment}
use govpn.TcpConn.Timer.{on_rto_fired, on_attachment_detached, abort}
use govpn.TcpConn.Api.{
  ReadResult, read_timeout, eof, read_blocks, read_failed, read_bytes, read, write_round,
  close_write, close,
}

pub data Event : Type 0 where
  arrives : TcpSegment → Event
  reads : Bool → ℕ → Event
  writes : Bool → List ℕ → Event
  fires : ℕ → Event
  detaches aborts closes_write closes : Event

abbrev pub bytes_of : ReadResult → List ℕ
bytes_of (read_bytes bytes) = bytes
bytes_of read_timeout = []
bytes_of eof = []
bytes_of read_blocks = []
bytes_of (read_failed e) = []

unfoldable pub step : Event → TcpConn → TcpConn
step (arrives seg) c = (handle_segment seg c).0
step (reads expired n) c = (read expired n c).0
step (writes expired p) c = (write_round expired p c).0
step (fires mss) c = (on_rto_fired mss c).0
step detaches c = (on_attachment_detached c).0
step aborts c = (abort c).0
step closes_write c = (close_write c).0
step closes c = (close c).0

-- The bytes that an event hands to the application.
unfoldable pub handed : Event → TcpConn → List ℕ
handed (reads expired n) c = bytes_of (read expired n c).1
handed (arrives seg) c = []
handed (writes expired p) c = []
handed (fires mss) c = []
handed detaches c = []
handed aborts c = []
handed closes_write c = []
handed closes c = []

unfoldable pub run : List Event → TcpConn → TcpConn
unfolding step
run [] c = c
run (e ∷ es) c = run es (step e c)

unfoldable pub all_handed : List Event → TcpConn → List ℕ
unfolding step handed
all_handed [] c = []
all_handed (e ∷ es) c = handed e c ++ all_handed es (step e c)
