-- ===== src/Stack/Sent.antt =====
-- netstack/udp.go: the packet that a listener's WriteTo makes, within the MTU.
use govpn.Base.{
  if_false, if_true, if_not, take_all, ◌-◌, ℕ, ◌+◌, ◌%◌, ◌^◌, ◌<◌, ◌≤◌, ◌≡◌, ap, ◌∙◌, true, false,
  ltb, leb, if◌then◌else◌, Option, none, some, List, [], ◌∷◌, length, arith,
}
use govpn.Frame.{Addr, build_udp, build_ipv4, protocol_udp, udp_header_len, min_ipv4_header_len}
use govpn.Ipv4.{Ipv4Header, datagram}
use govpn.Ipv4.Parse.{parse_ipv4-build_ipv4}
use govpn.Reassembly.{same_addr}
use govpn.Udp.{UdpConn, max_udp_payload}
use govpn.Udp.Listeners.{passed}
use govpn.Stack.{Stack, Attachment, Error, write_failed, to4}
use govpn.Stack.Attachments.{find_route}
use govpn.Stack.Packets.{}
use govpn.Stack.Output.{Effect, session_write, write_parsed, Accepts, write_packet}
use govpn.Stack.Sockets.{
  written, with_port, write_target, send_datagram, write_from, write_to, open_conn,
}

pub same_addr_refl : (a : Addr) → same_addr a a ≡ true
same_addr_refl a = ground arith

-- The header of a packet that this stack builds.
abbrev pub built : Addr → Addr → ℕ → ℕ → Ipv4Header
built src dst protocol n = record {
  ihl = 20;
  total_len = 20 + n;
  protocol = protocol;
  src = src;
  dst = dst;
  payload_off = 20;
  id = 0;
  more_fragments = false;
  frag_offset = 0;
}

-- A packet of the stack's own, within its MTU, is written as it is.
write_packet-within :
    (accepts : Accepts) (a : Attachment) (dst : Addr) (protocol : ℕ) (payload : List ℕ) (s : Stack)
    → length payload + min_ipv4_header_len < 2 ^ 16
    → min_ipv4_header_len + length payload ≤ s.mtu
    → let pkt : List ℕ = build_ipv4 [] s.server_ip dst protocol payload in
      write_packet accepts a pkt s
      ≡ (s, session_write a.sess pkt ∷ [], if accepts a.sess pkt then none else some write_failed)
unfolding write_packet write_parsed
write_packet-within accepts a dst protocol payload s fits small =
    let pkt : List ℕ = build_ipv4 [] s.server_ip dst protocol payload in
    let hdr : Ipv4Header = built s.server_ip dst protocol (length payload) in
    ap (λ r. write_parsed accepts a r pkt s)
      (parse_ipv4-build_ipv4 s.server_ip dst protocol payload fits)
    ∙ if_false (same_addr s.server_ip s.server_ip) _ _ (same_addr_refl s.server_ip)
    ∙ if_true (leb (20 + length payload) s.mtu) _ _ (ground arith)

pub write_to-sends :
    (accepts : Accepts) (now id : ℕ) (c : UdpConn) (p ip : List ℕ) (dst : Addr) (port : ℕ)
    (a : Attachment) (s : Stack)
    → open_conn id s ≡ some c
    → passed c.write_deadline now ≡ false
    → to4 ip ≡ some dst
    → find_route dst s.routes ≡ some a
    → length p ≤ max_udp_payload
    → min_ipv4_header_len + (udp_header_len + length p) ≤ s.mtu
    → let bytes : List ℕ = build_udp [] s.server_ip dst c.port (port % 2 ^ 16) p in
      let pkt : List ℕ = build_ipv4 [] s.server_ip dst protocol_udp bytes in
      write_to accepts now id p (some (ip, port)) s ≡ (
        s,
        session_write a.sess pkt ∷ [],
        written (length p) (if accepts a.sess pkt then none else some write_failed),
      )
unfolding write_to
write_to-sends accepts now id c p ip dst port a s is_open early target route small fits =
    let bytes : List ℕ = build_udp [] s.server_ip dst c.port (port % 2 ^ 16) p in
    let n : length bytes ≡ udp_header_len + length p = unfold build_udp in omega arith in
    let sent =
      write_packet-within accepts a dst protocol_udp bytes s (omega (arith, n, small))
        (omega (arith, n, fits)) in
    ap (λ o. write_from accepts now o p (some (ip, port)) s) is_open
    ∙ if_not (passed c.write_deadline now) _ _ early
    ∙ ap (λ o. write_target accepts c p (with_port port o) s) target
    ∙ if_not (ltb max_udp_payload (length p)) _ _ (ground (arith, small))
    ∙ ap (λ o. send_datagram accepts c p dst port o s) route
    ∙ ap (λ (x : Stack × List Effect × Option Error). (x.0, x.1, written (length p) x.2)) sent

pub datagram-build_ipv4 :
    (src dst : Addr) (protocol : ℕ) (payload : List ℕ)
    → datagram (built src dst protocol (length payload)) (build_ipv4 [] src dst protocol payload)
      ≡ payload
unfolding build_ipv4
datagram-build_ipv4 src dst protocol payload =
    take_all (20 + length payload - 20) payload (omega arith)
