-- ===== src/Stack/Sockets.antt =====
-- netstack/udp.go: the operations of a UDP listener that go through the stack.
use govpn.Base.{
  ℕ, ◌%◌, ◌^◌, true, ltb, if◌then◌else◌, Option, none, some, List, [], length, Result, ok, err,
}
use govpn.Frame.{Addr, build_udp, build_ipv4, protocol_udp}
use govpn.Udp
use govpn.Udp.{UdpDemux, UdpConn, UdpOptions, new_demux, find_conn, max_udp_payload}
use govpn.Udp.Listeners.{passed, check_options, add_conn}
use govpn.Stack.{Stack, Attachment, Error, handler_already_registered, to4}
use govpn.Stack.Attachments.{find_route}
use govpn.Stack.Output.{Effect, Accepts, write_packet}

unfoldable pub register_udp_handler : UdpDemux → Stack → Stack × Option Error
register_udp_handler d s = elim s.udp_handler [
  | some _ ↦ (s, some handler_already_registered)
  | none ↦ (record s { udp_handler = some d }, none)
]

unfoldable pub register_tcp_handler : Stack → Stack × Option Error
register_tcp_handler s =
    if s.tcp_handler
    then (s, some handler_already_registered)
    else (record s { tcp_handler = true }, none)

abbrev pub udp_demux_for : Stack → UdpDemux
udp_demux_for s = elim s.udp_handler [ some d ↦ d | none ↦ new_demux ]

-- `ListenUDPOptions`: the demultiplexer is made only if the port and the options are good.
unfoldable pub listen : ℕ → UdpOptions → Stack → Stack × Result Udp.Error ℕ
unfolding check_options add_conn
listen port opts s = elim (check_options port opts) [
  | err e ↦ (s, err e)
  | ok (depth, policy) ↦
      let (d, answer) = add_conn port depth policy (udp_demux_for s) in
      (record s { udp_handler = some d }, answer)
]

pub data WriteError : Type 0 where
  udp : Udp.Error → WriteError
  stack : Error → WriteError

-- What a `*net.UDPAddr` holds; `none` is another kind of address or a nil IP.
abbrev pub UdpTarget : Type 0
UdpTarget = Option (List ℕ × ℕ)

abbrev pub with_port : ℕ → Option Addr → Option (Addr × ℕ)
with_port port none = none
with_port port (some addr) = some (addr, port)

abbrev pub target_addr : UdpTarget → Option (Addr × ℕ)
target_addr none = none
target_addr (some (ip, port)) = with_port port (to4 ip)

abbrev pub written : ℕ → Option Error → Result WriteError ℕ
written n none = ok n
written n (some e) = err (stack e)

-- To what the routes have for `dst`.
unfoldable pub send_datagram :
    Accepts
    → UdpConn
    → List ℕ
    → Addr
    → ℕ
    → Option Attachment
    → Stack
    → Stack × List Effect × Result WriteError ℕ
send_datagram accepts c p dst port none s = (s, [], err (udp Udp.Error.no_route))
send_datagram accepts c p dst port (some a) s =
    let bytes : List ℕ = build_udp [] s.server_ip dst c.port (port % 2 ^ 16) p in
    let pkt : List ℕ = build_ipv4 [] s.server_ip dst protocol_udp bytes in
    let (s₁, effects, e) = write_packet accepts a pkt s in (s₁, effects, written (length p) e)

-- To the address that the caller gave, if it is one.
unfoldable pub write_target :
    Accepts
    → UdpConn
    → List ℕ
    → Option (Addr × ℕ)
    → Stack
    → Stack × List Effect × Result WriteError ℕ
unfolding send_datagram find_route
write_target accepts c p none s = (s, [], err (udp Udp.Error.invalid_addr))
write_target accepts c p (some (dst, port)) s =
    if ltb max_udp_payload (length p)
    then (s, [], err (udp Udp.Error.payload_too_large))
    else send_datagram accepts c p dst port (find_route dst s.routes) s

-- For the listener that is open under an id.
unfoldable pub write_from :
    Accepts
    → ℕ
    → Option UdpConn
    → List ℕ
    → UdpTarget
    → Stack
    → Stack × List Effect × Result WriteError ℕ
unfolding write_target
write_from accepts now none p target s = (s, [], err (udp Udp.Error.closed))
write_from accepts now (some c) p target s =
    if passed c.write_deadline now
    then (s, [], err (udp Udp.Error.deadline_exceeded))
    else write_target accepts c p (target_addr target) s

abbrev pub open_conn : ℕ → Stack → Option UdpConn
open_conn id s = elim s.udp_handler [ none ↦ none | some d ↦ find_conn id d.ports ]

-- `WriteTo`.
unfoldable pub write_to :
    Accepts → ℕ → ℕ → List ℕ → UdpTarget → Stack → Stack × List Effect × Result WriteError ℕ
unfolding write_from
write_to accepts now id p target s = write_from accepts now (open_conn id s) p target s

-- The counters of `UDPStats`: zeros while there is no demultiplexer.
abbrev pub udp_stats : Stack → ℕ × ℕ × ℕ
udp_stats s = elim s.udp_handler [
  | none ↦ (0, 0, 0)
  | some d ↦ (d.queue_full_dropped, d.no_listener_dropped, d.bad_checksum_dropped)
]
