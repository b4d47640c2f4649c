-- ===== src/Stack/Loopback.antt =====
-- What a listener writes arrives at the listener of the port that it was written to.
use govpn.Base.{
  if_false, ℕ, ◌+◌, ◌%◌, ◌^◌, ◌<◌, ◌≤◌, ◌≡◌, refl, ap, ◌∙◌, subst, Bool, true, false, if◌then◌else◌,
  none, some, List, [], ◌∷◌, ◌++◌, length, arith,
}
use govpn.Base.Words.{IsU16}
use govpn.Frame.{Addr, build_udp, build_ipv4, protocol_udp, udp_header_len, min_ipv4_header_len}
use govpn.Ipv4.{Ipv4Header, is_fragment}
use govpn.Ipv4.Parse.{parse_ipv4-build_ipv4}
use govpn.Reassembly.{same_addr}
use govpn.Udp.{UdpConn, UdpDemux, UdpDatagram, find_port, queue_datagram, max_udp_payload}
use govpn.Udp.Found.{queue_datagram-found}
use govpn.Udp.Listeners.{passed}
use govpn.Udp.Header.{handle_packet-build_udp}
use govpn.Stack.{Stack, Attachment, write_failed, to4}
use govpn.Stack.Attachments.{find_route}
use govpn.Stack.Packets.{
  after_udp, deliver, deliver_parsed, count_received, dispatch, dispatch_udp, deliver_result,
  deliver_fragment,
}
use govpn.Stack.Output.{session_write, Accepts}
use govpn.Stack.Sockets.{written, write_to, open_conn}
use govpn.Stack.Sent.{same_addr_refl, built, datagram-build_ipv4, write_to-sends}

deliver_parsed-dispatch :
    (accepts : Accepts) (now : ℕ) (a : Attachment) (hdr : Ipv4Header) (pkt : List ℕ) (t : Stack)
    → same_addr hdr.src a.ip ≡ true
    → same_addr hdr.dst t.server_ip ≡ true
    → is_fragment hdr ≡ false
    → deliver_parsed accepts now a hdr pkt t
      ≡ (a, (dispatch accepts a hdr pkt t).0, (dispatch accepts a hdr pkt t).1)
unfolding deliver_parsed
deliver_parsed-dispatch accepts now a hdr pkt t from to whole =
    if_false (same_addr hdr.src a.ip) _ _ from
    ∙ if_false (same_addr hdr.dst t.server_ip) _ _ to
    ∙ ap
        (λ (b : Bool).
          if b
          then deliver_fragment accepts now a hdr pkt t
          else (a, (dispatch accepts a hdr pkt t).0, (dispatch accepts a hdr pkt t).1))
        whole

-- A complete UDP datagram from the attached address to the server.
deliver_udp :
    (accepts : Accepts) (now : ℕ) (a : Attachment) (t : Stack) (bytes : List ℕ)
    → length bytes + min_ipv4_header_len < 2 ^ 16
    → deliver accepts now a (build_ipv4 [] a.ip t.server_ip protocol_udp bytes) t ≡ (
      a,
      dispatch_udp t.udp_handler
          (built a.ip t.server_ip protocol_udp (length bytes))
          bytes
          (count_received t),
      [],
    )
unfolding deliver dispatch is_fragment
deliver_udp accepts now a t bytes fits =
    let pkt : List ℕ = build_ipv4 [] a.ip t.server_ip protocol_udp bytes in
    let hdr : Ipv4Header = built a.ip t.server_ip protocol_udp (length bytes) in
    let t₁ : Stack = count_received t in
    ap (λ r. deliver_result accepts now a r pkt t₁)
      (parse_ipv4-build_ipv4 a.ip t.server_ip protocol_udp bytes fits)
    ∙ deliver_parsed-dispatch accepts now a hdr pkt t₁ (same_addr_refl a.ip)
        (same_addr_refl t.server_ip) refl
    ∙ ap (λ (b : List ℕ). (a, dispatch_udp t.udp_handler hdr b t₁, []))
        (datagram-build_ipv4 a.ip t.server_ip protocol_udp bytes)

-- The datagram that the receiver finds in its queue.
abbrev pub sent_datagram : Stack → UdpConn → List ℕ → UdpDatagram
sent_datagram s c p = record { ip = s.server_ip; port = c.port; payload = p }

-- The packet that the listener's write makes, at a stack that has its destination.
deliver-datagram :
    (accepts : Accepts) (now : ℕ) (b : Attachment) (c : UdpConn) (p : List ℕ) (port : ℕ)
    (s t : Stack) (d : UdpDemux)
    → length p ≤ max_udp_payload
    → IsU16 c.port
    → IsU16 port
    → b.ip ≡ s.server_ip
    → t.udp_handler ≡ some d
    → let bytes : List ℕ = build_udp [] s.server_ip t.server_ip c.port (port % 2 ^ 16) p in
      deliver accepts now b (build_ipv4 [] s.server_ip t.server_ip protocol_udp bytes) t ≡ (
        b,
        record (count_received t) {
          udp_handler = some (queue_datagram (sent_datagram s c p) port d);
        },
        [],
      )
unfolding dispatch_udp
deliver-datagram accepts now b c p port s t d small hc hp from udp =
    let dst : Addr = t.server_ip in
    let bytes : List ℕ = build_udp [] s.server_ip dst c.port (port % 2 ^ 16) p in
    let n : length bytes ≡ udp_header_len + length p = unfold build_udp in omega arith in
    let same_port : port % 2 ^ 16 ≡ port = omega arith in
    let hdr : Ipv4Header = built s.server_ip dst protocol_udp (length bytes) in
    subst
      (λ x. deliver accepts now b (build_ipv4 [] x dst protocol_udp bytes) t ≡ (
        b,
        dispatch_udp t.udp_handler (built x dst protocol_udp (length bytes)) bytes
            (count_received t),
        [],
      ))
      from (deliver_udp accepts now b t bytes (omega (arith, n, small)))
    ∙ ap (λ o. (b, dispatch_udp o hdr bytes (count_received t), [])) udp
    ∙ ap (λ o. (b, after_udp o (count_received t), []))
        (handle_packet-build_udp s.server_ip dst c.port (port % 2 ^ 16) p d hc (omega arith)
          (omega (arith, small)))
    ∙ ap
        (λ q. (
          b,
          record (count_received t) {
            udp_handler = some (queue_datagram (sent_datagram s c p) q d);
          },
          [],
        ))
        same_port

-- An open listener `c` of the stack `s` writes the bytes `p` to a port of an address where a session
-- is attached, its deadline has not passed, and the datagram is within the limit of UDP and the MTU.
-- Then the session writes one packet, and the call answers the number of bytes, or the session's
-- failure. A stack `t` has this address, UDP listeners, of which one on that port has room in its queue,
-- and a session attached at the address of `s`. When this session reads the packet, with nothing else at
-- the same time, then the listener on that port has the bytes at the end of its queue, with the address
-- of `s` and the port of `c` as the sender, no datagram is counted as lost, and nothing is written.
pub deliver-write_to :
    (accepts accepts' : Accepts) (now now' id : ℕ) (c l : UdpConn) (p ip : List ℕ) (port : ℕ)
    (a b : Attachment) (s t : Stack) (d : UdpDemux)
    → open_conn id s ≡ some c
    → passed c.write_deadline now ≡ false
    → to4 ip ≡ some t.server_ip
    → find_route t.server_ip s.routes ≡ some a
    → length p ≤ max_udp_payload
    → min_ipv4_header_len + (udp_header_len + length p) ≤ s.mtu
    → IsU16 c.port
    → IsU16 port
    → b.ip ≡ s.server_ip
    → t.udp_handler ≡ some d
    → find_port port d.ports ≡ some l
    → length l.inbound < l.depth
    → (pkt : List ℕ) × (write_to accepts now id p (some (ip, port)) s ≡ (
      s,
      session_write a.sess pkt ∷ [],
      written (length p) (if accepts a.sess pkt then none else some write_failed),
    ))
      × (d₁ : UdpDemux) × (deliver accepts' now' b pkt t
          ≡ (b, record (count_received t) { udp_handler = some d₁ }, []))
      × (find_port port d₁.ports
          ≡ some (record l { inbound = l.inbound ++ (sent_datagram s c p ∷ []) }))
      × (d₁.queue_full_dropped ≡ d.queue_full_dropped)
deliver-write_to accepts accepts' now now' id c l p ip port a b s t d is_open early target route
      small fits hc hp from udp found room =
    let (queued, none_lost) = queue_datagram-found (sent_datagram s c p) port d l found room in
    (
      _,
      write_to-sends accepts now id c p ip t.server_ip port a s is_open early target route small
          fits,
      queue_datagram (sent_datagram s c p) port d,
      deliver-datagram accepts' now' b c p port s t d small hc hp from udp,
      queued,
      none_lost,
    )
