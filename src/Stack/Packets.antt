-- ===== src/Stack/Packets.antt =====
-- netstack/stack.go: deliver and dispatch, with handleICMP of netstack/icmp.go, and one round of an
-- attachment's read loop.
use govpn.Base.{
  ℕ, ◌+◌, true, not, ◌==◌, if◌then◌else◌, Option, none, some, List, [], ◌∷◌, Result, ok, err,
}
use govpn.Frame.{protocol_udp, protocol_tcp}
use govpn.Ipv4
use govpn.Ipv4.{Ipv4Header, parse_ipv4, is_fragment, datagram, fragment_ipv4}
use govpn.Icmp
use govpn.Icmp.{IcmpAnswer, protocol_icmp}
use govpn.Reassembly.{
  ReasmOutcome, buffered, duplicate, conflict, bound_exceeded, closed_down, complete, same_addr,
}
use govpn.Reassembly.Add.{add}
use govpn.Udp.{UdpDemux, handle_packet}
use govpn.Stack.{Stack, Attachment, Error}
use govpn.Stack.Attachments.{find_pointer, put_attachment, detach_attachment}
use govpn.Stack.Output.{Effect, tcp_segment, Accepts, write_packet}

abbrev pub count_malformed : Stack → Stack
count_malformed s = record s {
  stats = record (s.stats) { malformed_dropped = s.stats.malformed_dropped + 1 };
}

abbrev pub count_unhandled : Stack → Stack
count_unhandled s = record s {
  stats = record (s.stats) { unhandled_protocol_dropped = s.stats.unhandled_protocol_dropped + 1 };
}

abbrev pub count_request : Stack → Stack
count_request s = record s {
  stats = record (s.stats) { icmp_echo_requests = s.stats.icmp_echo_requests + 1 };
}

abbrev pub count_reply : Option Error → Stack → Stack
count_reply none s = record s {
  stats = record (s.stats) { icmp_echo_replies = s.stats.icmp_echo_replies + 1 };
}
count_reply (some e) s = s

unfoldable pub handle_icmp :
    Accepts → Attachment → Ipv4Header → List ℕ → Stack → Stack × List Effect
unfolding write_packet
handle_icmp accepts a hdr icmp_msg s = elim (Icmp.handle_icmp s.server_ip hdr icmp_msg) [
  | Icmp.malformed ↦ (count_malformed s, [])
  | Icmp.ignored ↦ (s, [])
  | Icmp.reply pkt ↦
      let (s₁, effects, e) = write_packet accepts a pkt (count_request s) in
      (count_reply e s₁, effects)
]

abbrev pub after_udp : Option UdpDemux → Stack → Stack
after_udp none s = count_malformed s
after_udp (some d) s = record s { udp_handler = some d }

unfoldable pub dispatch_udp : Option UdpDemux → Ipv4Header → List ℕ → Stack → Stack
dispatch_udp none hdr payload s = count_unhandled s
dispatch_udp (some d) hdr payload s = after_udp (handle_packet hdr.src hdr.dst payload d) s

-- `hdr` is what `pkt` parses to.
unfoldable pub dispatch : Accepts → Attachment → Ipv4Header → List ℕ → Stack → Stack × List Effect
unfolding handle_icmp dispatch_udp
dispatch accepts a hdr pkt s =
    let payload : List ℕ = datagram hdr pkt in
    if hdr.protocol == protocol_icmp
    then handle_icmp accepts a hdr payload s
    else if hdr.protocol == protocol_udp
    then (dispatch_udp s.udp_handler hdr payload s, [])
    else if hdr.protocol == protocol_tcp
    then (if s.tcp_handler
        then (s, tcp_segment a.pointer hdr.src hdr.dst payload ∷ [])
        else (count_unhandled s, []))
    else (count_unhandled s, [])

abbrev pub count_timeouts : ℕ → Stack → Stack
count_timeouts n s = record s {
  stats = record (s.stats) { reassembly_timeouts = s.stats.reassembly_timeouts + n };
}

abbrev pub count_reassembled : Stack → Stack
count_reassembled s = record s {
  stats = record (s.stats) { fragments_reassembled = s.stats.fragments_reassembled + 1 };
}

abbrev pub count_bound : Stack → Stack
count_bound s = record s {
  stats = record (s.stats) { reassembly_bound_exceeded = s.stats.reassembly_bound_exceeded + 1 };
}

abbrev pub count_dropped : Stack → Stack
count_dropped s = record s {
  stats = record (s.stats) { fragments_dropped = s.stats.fragments_dropped + 1 };
}

-- What the reassembler built is parsed again.
unfoldable pub dispatch_whole :
    Accepts → Attachment → Result Ipv4.Error Ipv4Header → List ℕ → Stack → Stack × List Effect
unfolding dispatch
dispatch_whole accepts a (err e) whole_pkt s = (count_malformed s, [])
dispatch_whole accepts a (ok whole) whole_pkt s =
    dispatch accepts a whole whole_pkt (count_reassembled s)

unfoldable pub after_add : Accepts → Attachment → ReasmOutcome → Stack → Stack × List Effect
unfolding dispatch_whole
after_add accepts a (complete whole_pkt) s =
    dispatch_whole accepts a (parse_ipv4 whole_pkt) whole_pkt s
after_add accepts a bound_exceeded s = (count_bound s, [])
after_add accepts a duplicate s = (count_dropped s, [])
after_add accepts a conflict s = (count_dropped s, [])
after_add accepts a closed_down s = (count_dropped s, [])
after_add accepts a buffered s = (s, [])

unfoldable pub deliver_fragment :
    Accepts → ℕ → Attachment → Ipv4Header → List ℕ → Stack → Attachment × Stack × List Effect
unfolding after_add
deliver_fragment accepts now a hdr pkt s =
    let (r, outcome, expired) = add a.reasm now hdr pkt in
    let a₁ : Attachment = record a { reasm = r } in
    let (s₁, effects) = after_add accepts a₁ outcome (count_timeouts expired s) in (a₁, s₁, effects)

abbrev pub count_received : Stack → Stack
count_received s = record s {
  stats = record (s.stats) { packets_received = s.stats.packets_received + 1 };
}

abbrev pub count_spoofed : Stack → Stack
count_spoofed s = record s {
  stats = record (s.stats) { spoofed_source_dropped = s.stats.spoofed_source_dropped + 1 };
}

abbrev pub count_wrong_destination : Stack → Stack
count_wrong_destination s = record s {
  stats = record (s.stats) { wrong_destination_dropped = s.stats.wrong_destination_dropped + 1 };
}

-- The two checks of access, and what follows them.
unfoldable pub deliver_parsed :
    Accepts → ℕ → Attachment → Ipv4Header → List ℕ → Stack → Attachment × Stack × List Effect
unfolding deliver_fragment dispatch
deliver_parsed accepts now a hdr pkt s =
    let (s₁, effects) = dispatch accepts a hdr pkt s in
    if not (same_addr hdr.src a.ip)
    then (a, count_spoofed s, [])
    else if not (same_addr hdr.dst s.server_ip)
    then (a, count_wrong_destination s, [])
    else if is_fragment hdr
    then deliver_fragment accepts now a hdr pkt s
    else (a, s₁, effects)

-- What the parser made of `pkt`.
unfoldable pub deliver_result :
    Accepts
    → ℕ
    → Attachment
    → Result Ipv4.Error Ipv4Header
    → List ℕ
    → Stack
    → Attachment × Stack × List Effect
unfolding deliver_parsed
deliver_result accepts now a (err e) pkt s = (a, count_malformed s, [])
deliver_result accepts now a (ok hdr) pkt s = deliver_parsed accepts now a hdr pkt s

unfoldable pub deliver :
    Accepts → ℕ → Attachment → List ℕ → Stack → Attachment × Stack × List Effect
unfolding deliver_result
deliver accepts now a pkt s = deliver_result accepts now a (parse_ipv4 pkt) pkt (count_received s)

-- What Session.Read answers to the read loop.
pub data Read : Type 0 where
  packet : List ℕ → Read
  failed : Read

-- A first error makes the buffer larger, the next one detaches.
unfoldable pub read_failed : Attachment → Stack → Stack
read_failed a s = if a.grown then detach_attachment a.pointer s else record s {
  routes = put_attachment (record a { grown = true }) s.routes;
  stats = record (s.stats) { short_read_buffer_grown = s.stats.short_read_buffer_grown + 1 };
}

-- One round of the loop of the attachment at a pointer.
unfoldable pub read_loop : Accepts → ℕ → ℕ → Read → Stack → Stack × List Effect
unfolding deliver read_failed
read_loop accepts now p answer s = elim (find_pointer p s.routes) [
  | none ↦ (s, [])
  | some a ↦ elim answer [
    | failed ↦ (read_failed a s, [])
    | packet pkt ↦
        let (a₁, s₁, effects) = deliver accepts now a pkt s in
        (record s₁ { routes = put_attachment a₁ s₁.routes }, effects)
  ]
]
