-- ===== src/Udp/Listeners.antt =====
-- netstack/udp.go: a listener, with ListenUDPOptions, ReadFrom, Close and the deadlines.
use govpn.Base.{
  ℕ, ◌+◌, Bool, not, ◌&&◌, leb, ◌==◌, if◌then◌else◌, Option, none, some, List, [], ◌∷◌, take,
  Result, ok, err,
}
use govpn.Base.Ints.{pos, is_negative, to_nat}
use govpn.Frame.{Addr}
use govpn.Udp.{
  udp_queue_depth, Error, port_zero, port_in_use, invalid_queue_depth, invalid_drop_policy, closed,
  deadline_exceeded, UdpDropPolicy, drop_newest, UdpOptions, UdpDatagram, UdpConn, UdpDemux,
  find_port, find_conn, update_conn, remove_conn,
}

abbrev pub new_conn : ℕ → ℕ → ℕ → UdpDropPolicy → UdpConn
new_conn id port depth policy = record {
  id = id;
  port = port;
  policy = policy;
  depth = depth;
  inbound = [];
  read_deadline = 0;
  write_deadline = 0;
}

-- The depth and the policy of a listener that may be made, or why it may not.
unfoldable pub check_options : ℕ → UdpOptions → Result Error (ℕ × UdpDropPolicy)
check_options port opts =
    let depth : ℕ = to_nat opts.queue_depth in
    if port == 0
    then err port_zero
    else if is_negative opts.queue_depth
    then err invalid_queue_depth
    else elim opts.drop_policy [
      | none ↦ err invalid_drop_policy
      | some policy ↦ ok (if depth == 0 then udp_queue_depth else depth, policy)
    ]

-- The new listener's id, or that the port has one already.
unfoldable pub add_conn : ℕ → ℕ → UdpDropPolicy → UdpDemux → UdpDemux × Result Error ℕ
unfolding find_port
add_conn port depth policy d = elim (find_port port d.ports) [
  | some c ↦ (d, err port_in_use)
  | none ↦ (
    record d { ports = new_conn d.next_id port depth policy ∷ d.ports; next_id = d.next_id + 1 },
    ok d.next_id,
  )
]

-- `ListenUDPOptions` on a stack that has this demultiplexer.
unfoldable pub listen_udp_options : ℕ → UdpOptions → UdpDemux → UdpDemux × Result Error ℕ
unfolding check_options add_conn
listen_udp_options port opts d = elim (check_options port opts) [
  | err e ↦ (d, err e)
  | ok (depth, policy) ↦ add_conn port depth policy d
]

abbrev pub default_options : UdpOptions
default_options = record { queue_depth = pos 0; drop_policy = some drop_newest }

abbrev pub listen_udp : ℕ → UdpDemux → UdpDemux × Result Error ℕ
listen_udp port = listen_udp_options port default_options

unfoldable pub passed : ℕ → ℕ → Bool
passed deadline now = not (deadline == 0) && leb deadline now

-- What a read gives: the bytes, cut to the caller's buffer, and the sender. `none` is a read that
-- waits.
abbrev pub ReadResult : Type 0
ReadResult = Option (Result Error (List ℕ × Addr × ℕ))

unfoldable pub read_queue : ℕ → ℕ → UdpDemux → List UdpDatagram → UdpDemux × ReadResult
unfolding update_conn
read_queue id size d [] = (d, none)
read_queue id size d (dgram ∷ rest) = (
  record d { ports = update_conn id (λ x. record x { inbound = rest }) d.ports },
  some (ok (take size dgram.payload, dgram.ip, dgram.port)),
)

unfoldable pub read_from : ℕ → ℕ → ℕ → UdpDemux → UdpDemux × ReadResult
unfolding find_conn read_queue passed
read_from now id size d = elim (find_conn id d.ports) [
  | none ↦ (d, some (err closed))
  | some c ↦
      if passed c.read_deadline now
      then (d, some (err deadline_exceeded))
      else read_queue id size d c.inbound
]

unfoldable pub close_conn : ℕ → UdpDemux → UdpDemux
unfolding remove_conn
close_conn id d = record d { ports = remove_conn id d.ports }

abbrev pub set_read_deadline : ℕ → ℕ → UdpDemux → UdpDemux
set_read_deadline id t d = record d {
  ports = update_conn id (λ x. record x { read_deadline = t }) d.ports;
}

abbrev pub set_write_deadline : ℕ → ℕ → UdpDemux → UdpDemux
set_write_deadline id t d = record d {
  ports = update_conn id (λ x. record x { write_deadline = t }) d.ports;
}

abbrev pub set_deadline : ℕ → ℕ → UdpDemux → UdpDemux
set_deadline id t d = record d {
  ports = update_conn id (λ x. record x { read_deadline = t; write_deadline = t }) d.ports;
}
