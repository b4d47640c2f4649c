-- ===== src/Icmp.antt =====
-- netstack/icmp.go: the answer to an ICMP message. The counters that the code raises follow from the
-- answer; Stack/Packets.antt raises them and sends the reply with `write_packet`.
pub mod Echo
pub mod Runs
use govpn.Base.{ℕ, ◌==◌, ltb, if◌then◌else◌, List, [], length, set, elem_at}
use govpn.Frame.{Addr, internet_checksum, build_ipv4}
use govpn.Ipv4.{Ipv4Header, put_uint16}

abbrev pub icmp_type_echo_request : ℕ
icmp_type_echo_request = 8

abbrev pub icmp_type_echo_reply : ℕ
icmp_type_echo_reply = 0

abbrev pub min_icmp_header_len : ℕ
min_icmp_header_len = 8

abbrev pub protocol_icmp : ℕ
protocol_icmp = 1

-- `malformed` raises malformedDropped, `ignored` nothing, and `reply` icmpEchoRequests.
pub data IcmpAnswer : Type 0 where
  malformed ignored : IcmpAnswer
  reply : List ℕ → IcmpAnswer

-- `out`: the message as a reply, with its checksum.
unfoldable pub echo_reply : List ℕ → List ℕ
echo_reply icmp_msg =
    let out : List ℕ = put_uint16 (set icmp_msg 0 icmp_type_echo_reply) 2 0 in
    put_uint16 out 2 (internet_checksum out)

unfoldable pub handle_icmp : Addr → Ipv4Header → List ℕ → IcmpAnswer
unfolding echo_reply
handle_icmp server_ip hdr icmp_msg =
    if ltb (length icmp_msg) min_icmp_header_len
    then malformed
    else if elem_at icmp_msg 0 == icmp_type_echo_request
    then reply (build_ipv4 [] server_ip hdr.src protocol_icmp (echo_reply icmp_msg))
    else ignored
