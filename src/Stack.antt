-- ===== src/Stack.antt =====
-- netstack/stack.go: the userspace IPv4 stack, from the packets that its sessions read to the
-- protocol handlers, and from these to the sessions' writes.
-- `routes` is the map of attachments. One is in it from Attach until it is stopped, so that a read loop
-- whose attachment is not found by its `pointer` has been stopped. A session is a number, and its
-- Write is an effect; `accepts` says whether it returned without an error. The TCP handler is one for
-- which a segment is an effect too. A net.IP is the list of its bytes; the locks make each operation
-- one step, but for the enqueue of a UDP datagram: here each packet is taken to its end before the next,
-- and Udp.Concurrent has the calls that interleave at a listener's queue. The clock is an argument, in
-- nanoseconds.
pub mod Sent
pub mod Output
pub mod Attachments
pub mod Packets
pub mod Sockets
pub mod Effects
pub mod Origin
pub mod Access
pub mod Loopback
pub mod Events
pub mod Life
pub mod Safety
pub mod Sources
pub mod Mtu
pub mod Routes
pub mod Runs
use govpn.Base.{
  ℕ, ◌+◌, ◌-◌, Bool, true, false, ◌&&◌, ◌||◌, ltb, ◌==◌, if◌then◌else◌, Option, none, some, List,
  [], ◌∷◌, ◌++◌, length, take, replicate, Result, ok, err,
}
use govpn.Base.Ints.{ℤ, is_negative, to_nat}
use govpn.Frame.{Addr, min_ipv4_header_len}
use govpn.Ipv4
use govpn.Ipv4.{addr_at, max_ipv4_datagram}
use govpn.Reassembly.{Reassembler}
use govpn.DataChannel.{equal_bytes}
use govpn.Udp.{UdpDemux}

abbrev pub read_buffer_size : ℕ
read_buffer_size = 2048

abbrev pub default_mtu : ℕ
default_mtu = 1500

abbrev pub min_mtu : ℕ
min_mtu = 576

abbrev pub max_mtu : ℕ
max_mtu = max_ipv4_datagram

abbrev pub tcp_header_min_len : ℕ
tcp_header_min_len = 20

pub data Error : Type 0 where
  nil_server_ip not_ipv4_address invalid_attach_ip attach_server_ip duplicate_attach : Error
  nil_session invalid_mtu invalid_reassembly_limits outbound_source_mismatch
        handler_already_registered write_failed :
      Error
  malformed : Ipv4.Error → Error

pub record Stats : Type 0 where
  pub icmp_echo_requests : ℕ
  pub icmp_echo_replies : ℕ
  pub packets_received : ℕ
  pub malformed_dropped : ℕ
  pub fragments_dropped : ℕ
  pub spoofed_source_dropped : ℕ
  pub wrong_destination_dropped : ℕ
  pub unhandled_protocol_dropped : ℕ
  pub outbound_source_dropped : ℕ
  pub short_read_buffer_grown : ℕ
  pub fragments_reassembled : ℕ
  pub reassembly_timeouts : ℕ
  pub reassembly_bound_exceeded : ℕ
  pub outbound_fragmented : ℕ

abbrev pub zero_stats : Stats
zero_stats = record {
  icmp_echo_requests = 0;
  icmp_echo_replies = 0;
  packets_received = 0;
  malformed_dropped = 0;
  fragments_dropped = 0;
  spoofed_source_dropped = 0;
  wrong_destination_dropped = 0;
  unhandled_protocol_dropped = 0;
  outbound_source_dropped = 0;
  short_read_buffer_grown = 0;
  fragments_reassembled = 0;
  reassembly_timeouts = 0;
  reassembly_bound_exceeded = 0;
  outbound_fragmented = 0;
}

-- `grown` says whether the read loop's buffer has been made larger.
pub record Attachment : Type 0 where
  pub pointer : ℕ
  pub sess : ℕ
  pub ip : Addr
  pub reasm : Reassembler
  pub grown : Bool

pub record ReassemblyLimits : Type 0 where
  pub max_datagrams : ℕ
  pub max_bytes : ℕ
  pub timeout : ℕ

-- The limits as they are given, before `New` refuses negative ones.
pub record GivenLimits : Type 0 where
  pub max_datagrams : ℤ
  pub max_bytes : ℤ
  pub timeout : ℤ

pub record Stack : Type 0 where
  pub server_ip : Addr
  pub mtu : ℕ
  pub reasm_limits : ReassemblyLimits
  pub ip_id : ℕ
  pub routes : List Attachment
  pub next_pointer : ℕ
  pub udp_handler : Option UdpDemux
  pub tcp_handler : Bool
  pub stats : Stats
  pub closed : Bool

-- The prefix of an IPv4 address in IPv6 form.
abbrev pub v4_in_v6_prefix : List ℕ
v4_in_v6_prefix = replicate 10 0 ++ (0xFF ∷ 0xFF ∷ [])

-- `net.IP.To4`; the nil address has no bytes.
unfoldable pub to4 : List ℕ → Option Addr
unfolding equal_bytes
to4 ip =
    if length ip == 4
    then some (addr_at ip 0)
    else if length ip == 16 && equal_bytes (take 12 ip) v4_in_v6_prefix
    then some (addr_at ip 12)
    else none

abbrev pub new_stack : Addr → ℕ → ReassemblyLimits → Stack
new_stack server_ip mtu limits = record {
  server_ip = server_ip;
  mtu = mtu;
  reasm_limits = limits;
  ip_id = 0;
  routes = [];
  next_pointer = 0;
  udp_handler = none;
  tcp_handler = false;
  stats = zero_stats;
  closed = false;
}

-- `New` for the MTU and the limits that the options leave; a nil address is `none`.
unfoldable pub new : Option (List ℕ) → ℤ → GivenLimits → Result Error Stack
unfolding to4
new none mtu limits = err nil_server_ip
new (some ip) mtu limits = elim (to4 ip) [
  | none ↦ err not_ipv4_address
  | some server_ip ↦
      if is_negative mtu || ltb (to_nat mtu) min_mtu || ltb max_mtu (to_nat mtu)
      then err invalid_mtu
      else if is_negative limits.max_datagrams
          || is_negative limits.max_bytes
          || is_negative limits.timeout
      then err invalid_reassembly_limits
      else ok (
          new_stack server_ip (to_nat mtu) (record {
            max_datagrams = to_nat limits.max_datagrams;
            max_bytes = to_nat limits.max_bytes;
            timeout = to_nat limits.timeout;
          }))
]

abbrev pub max_segment_size : Stack → ℕ
max_segment_size s = s.mtu - min_ipv4_header_len - tcp_header_min_len

unfoldable pub close : Stack → Stack
close s = if s.closed then s else record s { closed = true; routes = [] }
