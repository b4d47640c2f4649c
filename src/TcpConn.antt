-- ===== src/TcpConn.antt =====
-- netstack/tcp_conn.go and tcp_timer.go: the state of a TCP connection and its sending side.
-- The lock makes each handler one step; what a handler does once it has let go of the lock is listed as
-- effects, in order. Lengths are counts that the limits keep far below 2^32. Waking those who wait
-- changes no state. A duration is in nanoseconds.
pub mod Input
pub mod Timer
pub mod Api
pub mod Events
pub mod Kept
pub mod Bounds
pub mod Stream
pub mod GiveUp
pub mod Runs
use govpn.Base.{
  ℕ, zero, suc, ◌+◌, ◌-◌, ◌%◌, ◌^◌, min, bit_and, Bool, true, false, not, ◌&&◌, ◌||◌, ltb, ◌==◌,
  if◌then◌else◌, Option, none, some, List, [], ◌∷◌, length, take, drop,
}
use govpn.Base.Words.{add32}
use govpn.TcpSegment.{TcpSegment}
use govpn.TcpState.{flag_ack, recv_window_remaining}

abbrev pub max_in_flight_bytes : ℕ
max_in_flight_bytes = 65535

abbrev pub max_reorder_segments : ℕ
max_reorder_segments = 16

abbrev pub initial_rto : ℕ
initial_rto = 300_000_000

abbrev pub max_rto : ℕ
max_rto = 8_000_000_000

abbrev pub max_retransmits : ℕ
max_retransmits = 6

abbrev pub max_persist_probes : ℕ
max_persist_probes = 20

abbrev pub time_wait_duration : ℕ
time_wait_duration = 5_000_000_000

pub data ConnState : Type 0 where
  listen syn_rcvd established fin_wait1 fin_wait2 : ConnState
  closing time_wait close_wait last_ack closed : ConnState

-- `c.err`: ErrTCPConnReset and errTCPWriteAfterClose.
pub data ConnError : Type 0 where
  conn_reset write_after_close : ConnError

-- `timer` is what the timer was last reset to, or `none` once it is stopped; `reorder` is the map of
-- segments out of order; `write_closed` is `closeWriteOnce`.
pub record TcpConn : Type 0 where
  pub local_port : ℕ
  pub remote_port : ℕ
  pub state : ConnState
  pub snd_una : ℕ
  pub snd_wnd : ℕ
  pub snd_mss : ℕ
  pub out_buf : List ℕ
  pub sent_bytes : ℕ
  pub rcv_nxt : ℕ
  pub recv_buf : List ℕ
  pub reorder : List (ℕ × List ℕ)
  pub has_pending_fin : Bool
  pub pending_fin_seq : ℕ
  pub peer_closed : Bool
  pub fin_sent : Bool
  pub fin_acked : Bool
  pub fin_seq : ℕ
  pub timer : Option ℕ
  pub timer_armed : Bool
  pub retransmit_count : ℕ
  pub persist_probe_count : ℕ
  pub rto : ℕ
  pub in_time_wait : Bool
  pub error : Option ConnError
  pub write_closed : Bool

-- What happens outside the lock, and the counters raised.
pub data Effect : Type 0 where
  send : TcpSegment → Effect
  remove_conn release_half_open enqueue : Effect
  rst_received rst_sent reorder_dropped : Effect

unfoldable pub has_flag : ℕ → TcpSegment → Bool
has_flag flag seg = not (bit_and seg.flags flag == 0)

-- A half-open connection for an incoming SYN.
unfoldable pub new_tcp_conn : ℕ → ℕ → ℕ → ℕ → ℕ → ℕ → TcpConn
new_tcp_conn local_port remote_port isn client_isn client_window snd_mss = record {
  local_port = local_port;
  remote_port = remote_port;
  state = syn_rcvd;
  snd_una = isn;
  snd_wnd = client_window;
  snd_mss = snd_mss;
  out_buf = [];
  sent_bytes = 0;
  rcv_nxt = add32 client_isn 1;
  recv_buf = [];
  reorder = [];
  has_pending_fin = false;
  pending_fin_seq = 0;
  peer_closed = false;
  fin_sent = false;
  fin_acked = false;
  fin_seq = 0;
  timer = some initial_rto;
  timer_armed = true;
  retransmit_count = 0;
  persist_probe_count = 0;
  rto = initial_rto;
  in_time_wait = false;
  error = none;
  write_closed = false;
}

unfoldable pub reorder_bytes : List (ℕ × List ℕ) → ℕ
reorder_bytes [] = 0
reorder_bytes ((seq, d) ∷ segs) = length d + reorder_bytes segs

-- `recvWindowRemainingLocked`.
unfoldable pub window_left : TcpConn → ℕ
unfolding reorder_bytes recv_window_remaining
window_left c = recv_window_remaining (length c.recv_buf + reorder_bytes c.reorder)

unfoldable pub advertised_window : TcpConn → ℕ
unfolding window_left
advertised_window c = window_left c % 2 ^ 16

-- The fields that all segments of a connection share.
abbrev pub segment : TcpConn → ℕ → ℕ → ℕ → List ℕ → TcpSegment
segment c seq flags window payload = record {
  src_port = c.local_port;
  dst_port = c.remote_port;
  seq = seq;
  ack = c.rcv_nxt;
  flags = flags;
  window = window;
  has_mss = false;
  mss = 0;
  payload = payload;
}

unfoldable pub build_ack : TcpConn → TcpSegment
unfolding advertised_window
build_ack c = segment c (add32 c.snd_una c.sent_bytes) flag_ack (advertised_window c) []

unfoldable pub allowed_in_flight : TcpConn → ℕ
allowed_in_flight c = if ltb max_in_flight_bytes c.snd_wnd then max_in_flight_bytes else c.snd_wnd

-- The size of the next segment under a limit on the bytes in flight.
abbrev pub next_chunk : ℕ → TcpConn → ℕ
next_chunk limit c = min c.snd_mss (min (limit - c.sent_bytes) (length c.out_buf - c.sent_bytes))

-- The loop of `sendPendingLocked`: the connection and the segments, of which the first argument bounds
-- the number. A probe sends one segment only.
unfoldable pub send_chunks : ℕ → ℕ → Bool → TcpConn → TcpConn × List Effect
unfolding advertised_window
send_chunks zero limit force_probe c = (c, [])
send_chunks (suc rounds) limit force_probe c =
    let chunk : ℕ = next_chunk limit c in
    let seg : TcpSegment =
      segment c (add32 c.snd_una c.sent_bytes) flag_ack (advertised_window c)
        (take chunk (drop c.sent_bytes c.out_buf)) in
    let c₁ : TcpConn = record c { sent_bytes = c.sent_bytes + chunk } in
    let more : TcpConn × List Effect = send_chunks rounds limit force_probe c₁ in
    if not (ltb c.sent_bytes limit && ltb c.sent_bytes (length c.out_buf)) || chunk == 0
    then (c, [])
    else if force_probe
    then (c₁, send seg ∷ [])
    else (more.0, send seg ∷ more.1)

abbrev pub rearm : ℕ → TcpConn → TcpConn
rearm d c = record c { timer = some d; timer_armed = true }

abbrev pub is_empty : List Effect → Bool
is_empty [] = true
is_empty (e ∷ es) = false

-- Segments are sent under a limit, and the timer starts afresh unless this was a probe.
unfoldable pub send_up_to : ℕ → Bool → TcpConn → TcpConn × List Effect
unfolding send_chunks
send_up_to limit force_probe c =
    let (c₁, sent) = send_chunks (length c.out_buf) limit force_probe c in
    if is_empty sent || force_probe
    then (c₁, sent)
    else (rearm initial_rto (record c₁ { rto = initial_rto; retransmit_count = 0 }), sent)

-- `sendPendingLocked`: with the window shut only a probe goes out, and else the timer is armed for one.
unfoldable pub send_pending : Bool → TcpConn → TcpConn × List Effect
unfolding send_up_to allowed_in_flight
send_pending force_probe c =
    let unsent : Bool = ltb c.sent_bytes (length c.out_buf) in
    if allowed_in_flight c == 0
    then (if force_probe && unsent
        then send_up_to (c.sent_bytes + 1) force_probe c
        else if unsent && not c.timer_armed
        then (rearm initial_rto (record c { rto = initial_rto }), [])
        else (c, []))
    else send_up_to (allowed_in_flight c) force_probe c

abbrev pub stop_timer : TcpConn → TcpConn
stop_timer c = record c { timer = none; timer_armed = false }

-- `stopTimersLocked` with the state that comes with it.
abbrev pub shut_down : TcpConn → TcpConn
shut_down c = record c { state = closed; timer = none }

unfoldable pub start_time_wait : TcpConn → TcpConn
start_time_wait c = rearm time_wait_duration (record c { state = time_wait; in_time_wait = true })
