-- ===== src/Udp.antt =====
-- netstack/udp.go: the UDP header, the demultiplexer by port, and a listener's queue.
-- `ports` is the map of live listeners. A listener is in it from its making until its Close, so that
-- one that is not found by its `id`, which stands for the pointer, is closed. A channel is the list of
-- what it holds. A deadline is a time in nanoseconds, zero for none. The lock makes each operation one
-- step but for the enqueue, whose calls share it: enqueue_step is one channel operation, Concurrent has
-- the interleavings of several calls and reads, and enqueue and handle_packet are a call that runs to
-- its end before the next. What a listener writes goes through the stack: see Stack.Sockets.
pub mod Listeners
pub mod Header
pub mod Queue
pub mod Found
pub mod Concurrent
pub mod Balanced
pub mod Accounts
pub mod Senders
pub mod Runs
use govpn.Base.{
  zero, suc, ℕ, ◌+◌, ◌-◌, Bool, not, ◌||◌, ltb, ◌==◌, if◌then◌else◌, Option, none, some, List, [],
  ◌∷◌, ◌++◌, length, take, drop, Result, ok, err,
}
use govpn.Base.Ints.{ℤ}
use govpn.Base.Words.{uint16_of}
use govpn.Frame.{Addr, protocol_udp, udp_header_len, udp_checksum, transport_checksum}
use govpn.Ipv4.{put_uint16}

abbrev pub udp_queue_depth : ℕ
udp_queue_depth = 64

abbrev pub max_udp_payload : ℕ
max_udp_payload = 65507

pub data Error : Type 0 where
  port_zero port_in_use no_route payload_too_large invalid_addr : Error
  invalid_queue_depth invalid_drop_policy : Error
  header_too_short bad_length closed deadline_exceeded : Error

-- The ports and the data.
unfoldable pub parse_udp : List ℕ → Result Error (ℕ × ℕ × List ℕ)
parse_udp payload =
    let len : ℕ = uint16_of (drop 4 payload) in
    if ltb (length payload) udp_header_len
    then err header_too_short
    else if ltb len udp_header_len || ltb (length payload) len
    then err bad_length
    else ok (
      uint16_of payload,
      uint16_of (drop 2 payload),
      take (len - udp_header_len) (drop udp_header_len payload),
    )

pub data UdpDropPolicy : Type 0 where
  drop_newest drop_oldest : UdpDropPolicy

-- `drop_policy` is `none` for a number that is none of the declared policies.
pub record UdpOptions : Type 0 where
  pub queue_depth : ℤ
  pub drop_policy : Option UdpDropPolicy

pub record UdpDatagram : Type 0 where
  pub ip : Addr
  pub port : ℕ
  pub payload : List ℕ

pub record UdpConn : Type 0 where
  pub id : ℕ
  pub port : ℕ
  pub policy : UdpDropPolicy
  pub depth : ℕ
  pub inbound : List UdpDatagram
  pub read_deadline : ℕ
  pub write_deadline : ℕ

pub record UdpDemux : Type 0 where
  pub ports : List UdpConn
  pub next_id : ℕ
  pub no_listener_dropped : ℕ
  pub bad_checksum_dropped : ℕ
  pub queue_full_dropped : ℕ

abbrev pub new_demux : UdpDemux
new_demux = record {
  ports = [];
  next_id = 0;
  no_listener_dropped = 0;
  bad_checksum_dropped = 0;
  queue_full_dropped = 0;
}

-- A send on the channel that does not wait; `none` is its default case.
unfoldable pub send : ℕ → UdpDatagram → List UdpDatagram → Option (List UdpDatagram)
send depth dgram inbound =
    if ltb (length inbound) depth then some (inbound ++ (dgram ∷ [])) else none

-- Where a call of `handlePacket` that has found its listener stands: before the first send, the
-- eviction, the second send, or the counter, or behind them.
pub data Phase : Type 0 where
  sending evicting resending counting finished : Phase

-- What one channel operation of the call, or its count, did.
pub data Action : Type 0 where
  puts evicts gives_up counts nothing : Action

-- The default case of the first send.
abbrev pub when_full : UdpDropPolicy → List UdpDatagram → Phase × List UdpDatagram × Action
when_full drop_newest inbound = (counting, inbound, gives_up)
when_full drop_oldest inbound = (evicting, inbound, nothing)

-- One operation of the call: the phase and the channel after it. The calls hold `d.mu` only for
-- reading, so that other calls and reads of the channel come between two operations of one.
unfoldable pub enqueue_step :
    UdpDropPolicy → ℕ → UdpDatagram → Phase → List UdpDatagram → Phase × List UdpDatagram × Action
unfolding send
enqueue_step policy depth dgram sending inbound = elim (send depth dgram inbound) [
  | some queue ↦ (finished, queue, puts)
  | none ↦ when_full policy inbound
]
enqueue_step policy depth dgram evicting [] = (resending, [], nothing)
enqueue_step policy depth dgram evicting (oldest ∷ rest) = (resending, rest, evicts)
enqueue_step policy depth dgram resending inbound = elim (send depth dgram inbound) [
  | some queue ↦ (counting, queue, puts)
  | none ↦ (counting, inbound, gives_up)
]
enqueue_step policy depth dgram counting inbound = (finished, inbound, counts)
enqueue_step policy depth dgram finished inbound = (finished, inbound, nothing)

-- What an operation adds to `queueFullDropped`.
abbrev pub counted : Action → ℕ
counted counts = 1
counted _ = 0

-- So many operations of a call, with nothing between them: the channel, and what was counted.
unfoldable pub enqueue_steps :
    ℕ → UdpDropPolicy → ℕ → UdpDatagram → Phase → List UdpDatagram → List UdpDatagram × ℕ
unfolding enqueue_step
enqueue_steps zero policy depth dgram phase inbound = (inbound, 0)
enqueue_steps (suc n) policy depth dgram phase inbound =
    let (next, queue, action) = enqueue_step policy depth dgram phase inbound in
    let (last, more) = enqueue_steps n policy depth dgram next queue in
    (last, counted action + more)

-- A call that nothing interleaves with: after four operations it has finished.
unfoldable pub enqueue : UdpDropPolicy → ℕ → UdpDatagram → List UdpDatagram → List UdpDatagram × ℕ
unfolding enqueue_steps
enqueue policy depth dgram inbound = enqueue_steps 4 policy depth dgram sending inbound

-- `ports[port]`.
unfoldable pub find_port : ℕ → List UdpConn → Option UdpConn
find_port port [] = none
find_port port (c ∷ cs) = if c.port == port then some c else find_port port cs

unfoldable pub find_conn : ℕ → List UdpConn → Option UdpConn
find_conn id [] = none
find_conn id (c ∷ cs) = if c.id == id then some c else find_conn id cs

-- The listener with this id, changed in place.
unfoldable pub update_conn : ℕ → (UdpConn → UdpConn) → List UdpConn → List UdpConn
update_conn id f [] = []
update_conn id f (c ∷ cs) = (if c.id == id then f c else c) ∷ update_conn id f cs

unfoldable pub remove_conn : ℕ → List UdpConn → List UdpConn
remove_conn id [] = []
remove_conn id (c ∷ cs) = if c.id == id then cs else c ∷ remove_conn id cs

-- Whether the checksum field is zero or that of the datagram.
unfoldable pub checksum_ok : Addr → Addr → List ℕ → List ℕ → Bool
checksum_ok src dst payload bytes =
    let wire_checksum : ℕ = uint16_of (drop 6 payload) in
    let segment : List ℕ = put_uint16 (take (udp_header_len + length bytes) payload) 6 0 in
    wire_checksum == 0
    || udp_checksum (transport_checksum src dst protocol_udp segment) == wire_checksum

-- The datagram put on the queue of the listener of its port, with no other call at the same time.
unfoldable pub queue_datagram : UdpDatagram → ℕ → UdpDemux → UdpDemux
unfolding find_port enqueue update_conn
queue_datagram dgram dst_port d = elim (find_port dst_port d.ports) [
  | none ↦ record d { no_listener_dropped = d.no_listener_dropped + 1 }
  | some c ↦
      let (queue, lost) = enqueue c.policy c.depth dgram c.inbound in
      record d {
        ports = update_conn c.id (λ x. record x { inbound = queue }) d.ports;
        queue_full_dropped = d.queue_full_dropped + lost;
      }
]

-- What the parser made of `payload`; `none` is a datagram that the stack counts as malformed.
unfoldable pub handle_parsed :
    Addr → Addr → List ℕ → Result Error (ℕ × ℕ × List ℕ) → UdpDemux → Option UdpDemux
handle_parsed src dst payload (err e) d = none
handle_parsed src dst payload (ok (src_port, dst_port, bytes)) d = some (
    if not (checksum_ok src dst payload bytes)
    then record d { bad_checksum_dropped = d.bad_checksum_dropped + 1 }
    else queue_datagram (record { ip = src; port = src_port; payload = bytes }) dst_port d)

unfoldable pub handle_packet : Addr → Addr → List ℕ → UdpDemux → Option UdpDemux
unfolding handle_parsed
handle_packet src dst payload d = handle_parsed src dst payload (parse_udp payload) d
