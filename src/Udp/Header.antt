-- ===== src/Udp/Header.antt =====
-- A datagram that was built is read back: its ports, its data and its checksum.
use govpn.Base.{
  take_all, ℕ, ◌+◌, ◌-◌, ◌/◌, ◌%◌, ◌^◌, ◌<◌, ◌≡◌, refl, sym, ap, ◌∙◌, Bool, true, false, not, ◌||◌,
  ==_iff, if◌then◌else◌, some, List, [], ◌++◌, length, take, arith, ok,
}
use govpn.Base.Words.{IsU16, from_be16, from_be16-be16}
use govpn.Frame.{
  Addr, protocol_udp, udp_header_len, udp_header, udp_checksum, transport_checksum, complement16,
  build_udp,
}
use govpn.Ipv4.{put_uint16}
use govpn.Udp.{UdpDemux, parse_udp, checksum_ok, handle_packet, handle_parsed, queue_datagram}

pub parse_udp-build_udp :
    (src dst : Addr) (src_port dst_port : ℕ) (payload : List ℕ)
    → IsU16 src_port
    → IsU16 dst_port
    → length payload + udp_header_len < 2 ^ 16
    → parse_udp (build_udp [] src dst src_port dst_port payload) ≡ ok (src_port, dst_port, payload)
unfolding parse_udp build_udp
parse_udp-build_udp src dst src_port dst_port payload hs hd fits =
    let len : ℕ = udp_header_len + length payload in
    let len_read : from_be16 (len % 2 ^ 16 / 2 ^ 8 % 256) (len % 2 ^ 16 % 256) ≡ len =
      omega arith in
    let all : take (len - udp_header_len) payload ≡ payload =
      take_all (len - udp_header_len) payload (omega arith) in
    let src_read = from_be16-be16 src_port hs in
    let dst_read = from_be16-be16 dst_port hd in
    rw (len_read, all, src_read, dst_read) (ground arith)

complement16-IsU16 : (n : ℕ) → IsU16 (complement16 n)
complement16-IsU16 n = omega arith

udp_checksum-IsU16 : (n : ℕ) → IsU16 n → IsU16 (udp_checksum n)
udp_checksum-IsU16 n h = ground arith

transport_checksum-IsU16 :
    (src dst : Addr) (protocol : ℕ) (b : List ℕ) → IsU16 (transport_checksum src dst protocol b)
unfolding transport_checksum
transport_checksum-IsU16 src dst protocol b = complement16-IsU16 _

or_right : (b c : Bool) → c ≡ true → (b || c) ≡ true
or_right true c h = refl
or_right false c h = h

-- The field is zeroed for the check, as it was when the checksum was computed.
pub checksum_ok-build_udp :
    (src dst : Addr) (src_port dst_port : ℕ) (payload : List ℕ)
    → checksum_ok src dst (build_udp [] src dst src_port dst_port payload) payload ≡ true
unfolding checksum_ok build_udp
checksum_ok-build_udp src dst src_port dst_port payload =
    let len : ℕ = udp_header_len + length payload in
    let segment : List ℕ = udp_header src_port dst_port len 0 ++ payload in
    let sum : ℕ = transport_checksum src dst protocol_udp segment in
    let packet : List ℕ = udp_header src_port dst_port len (udp_checksum sum) ++ payload in
    let field =
      from_be16-be16 (udp_checksum sum)
        (udp_checksum-IsU16 sum (transport_checksum-IsU16 src dst protocol_udp segment)) in
    let all : take len packet ≡ packet = take_all len packet (omega arith) in
    or_right _ _ (
      (==_iff _ _).1 (
        ap (λ xs. udp_checksum (transport_checksum src dst protocol_udp (put_uint16 xs 6 0))) all
        ∙ sym field))

-- What is built is put on the queue of the listener of its port.
pub handle_packet-build_udp :
    (src dst : Addr) (src_port dst_port : ℕ) (payload : List ℕ) (d : UdpDemux)
    → IsU16 src_port
    → IsU16 dst_port
    → length payload + udp_header_len < 2 ^ 16
    → handle_packet src dst (build_udp [] src dst src_port dst_port payload) d
      ≡ some (queue_datagram (record { ip = src; port = src_port; payload = payload }) dst_port d)
unfolding handle_packet
handle_packet-build_udp src dst src_port dst_port payload d hs hd fits =
    let packet : List ℕ = build_udp [] src dst src_port dst_port payload in
    ap (λ r. handle_parsed src dst packet r d)
      (parse_udp-build_udp src dst src_port dst_port payload hs hd fits)
    ∙ ap
        (λ (b : Bool). some (
          if not b
          then record d { bad_checksum_dropped = d.bad_checksum_dropped + 1 }
          else queue_datagram (record { ip = src; port = src_port; payload = payload }) dst_port d))
        (checksum_ok-build_udp src dst src_port dst_port payload)
