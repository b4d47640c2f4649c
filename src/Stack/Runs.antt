-- ===== src/Stack/Runs.antt =====
-- The stack on concrete packets.
use govpn.Base.{
  ℕ, ◌≡◌, refl, true, false, none, some, List, [], ◌∷◌, length, replicate, All, arith, ok, err,
  if◌then◌else◌, map,
}
use govpn.Base.Ints.{pos, negsuc}
use govpn.Frame.{Addr, as4, build_ipv4, build_udp, protocol_udp}
use govpn.Ipv4.{parse_ipv4, fragment_ipv4}
use govpn.Udp.{UdpDemux, UdpConn, new_demux, drop_newest, find_conn, find_port}
use govpn.Udp.Listeners.{new_conn, default_options, passed}
use govpn.Stack.{
  Stack, Attachment, ReassemblyLimits, GivenLimits, new, Error, new_stack, write_failed, to4,
}
use govpn.Stack.Attachments.{new_attachment, attach, find_route, sorted_routes, detach, is_attached}
use govpn.Stack.Packets.{packet, deliver, count_received}
use govpn.Stack.Output.{session_write, Accepts, write_packet}
use govpn.Stack.Sockets.{written, write_to}
use govpn.Stack.Effects.{HandlerFrom}
use govpn.Stack.Routes.{Apart}
use govpn.Stack.Life.{EffectOk}
use govpn.Stack.Loopback.{sent_datagram, deliver-write_to}
use govpn.Stack.Mtu.{Gives, write_packet-Gives}
use govpn.Stack.Sent.{built}
use govpn.Stack.Events.{Event, run}
use govpn.Stack.Sources.{NotServer, run-sources, run-Apart}

abbrev addr : ℕ → Addr
addr n = record { b₀ = 10; b₁ = 8; b₂ = 0; b₃ = n }

abbrev limits : ReassemblyLimits
limits = record { max_datagrams = 0; max_bytes = 0; timeout = 0 }

abbrev no_limits : GivenLimits
no_limits = record { max_datagrams = pos 0; max_bytes = pos 0; timeout = pos 0 }

abbrev accepts : Accepts
accepts sess pkt = true

made : new (some (as4 (addr 1))) (pos 1500) no_limits ≡ ok (new_stack (addr 1) 1500 limits)
unfolding new to4
made = refl

mtu_too_small : new (some (as4 (addr 1))) (pos 575) no_limits ≡ err Error.invalid_mtu
unfolding new to4
mtu_too_small = refl

negative_limit :
    new (some (as4 (addr 1))) (pos 1500) (record no_limits { timeout = negsuc 4 })
    ≡ err Error.invalid_reassembly_limits
unfolding new to4
negative_limit = refl

-- A stack at 10.8.0.n with a listener on a port, and a session attached at 10.8.0.m.
abbrev with_peer : ℕ → ℕ → ℕ → Stack
with_peer n m port =
    let s : Stack = new_stack (addr n) 1500 limits in
    record s {
      routes = new_attachment s 7 (addr m) ∷ [];
      next_pointer = 1;
      udp_handler =
          some (record new_demux { ports = new_conn 0 port 64 drop_newest ∷ []; next_id = 1 });
    }

abbrev attachment : ℕ → ℕ → Attachment
attachment n m = new_attachment (new_stack (addr n) 1500 limits) 7 (addr m)

abbrev listener : ℕ → UdpConn
listener port = new_conn 0 port 64 drop_newest

abbrev demux : ℕ → UdpDemux
demux port = record new_demux { ports = listener port ∷ []; next_id = 1 }

deliver-write_to_example :
    (pkt : List ℕ) × (write_to accepts 5 0
        (1 ∷ 2 ∷ 3 ∷ [])
        (some (as4 (addr 2), 53))
        (with_peer 1 2 1000)
      ≡ (
        with_peer 1 2 1000,
        session_write 7 pkt ∷ [],
        written 3 (if accepts 7 pkt then none else some write_failed),
      ))
    × (d₁ : UdpDemux) × (deliver accepts 6 (attachment 2 1) pkt (with_peer 2 1 53) ≡ (
      attachment 2 1,
      record (count_received (with_peer 2 1 53)) { udp_handler = some d₁ },
      [],
    ))
    × (find_port 53 d₁.ports
        ≡ some (record (listener 53) {
          inbound = sent_datagram (with_peer 1 2 1000) (listener 1000) (1 ∷ 2 ∷ 3 ∷ []) ∷ [];
        }))
    × (d₁.queue_full_dropped ≡ 0)
unfolding find_conn find_port passed to4 find_route
deliver-write_to_example =
    deliver-write_to accepts accepts 5 6 0 (listener 1000) (listener 53) (1 ∷ 2 ∷ 3 ∷ [])
      (as4 (addr 2)) 53 (attachment 1 2) (attachment 2 1) (with_peer 1 2 1000) (with_peer 2 1 53)
      (demux 53) refl refl refl refl (omega arith) (omega arith) (omega arith) (omega arith) refl
      refl refl (omega arith)

-- A session attached, a packet with its own address, one with another's, and a second attachment.
abbrev events : List (Accepts × ℕ × Event)
events =
    map (λ (e : Event). (accepts, 5, e))
      (Event.attaches (some 7) (as4 (addr 2))
        ∷ Event.listens 53 default_options
        ∷ Event.reads 0 (
            packet (
              build_ipv4 [] (addr 2) (addr 1) protocol_udp
                (build_udp [] (addr 2) (addr 1) 1000 53 (9 ∷ []))))
        ∷ Event.reads 0 (
            packet (
              build_ipv4 [] (addr 3) (addr 1) protocol_udp
                (build_udp [] (addr 3) (addr 1) 1000 53 (9 ∷ []))))
        ∷ Event.attaches (some 8) (as4 (addr 2))
        ∷ Event.detaches (as4 (addr 2))
        ∷ [])

only_two : (ip : Addr) → to4 (as4 (addr 2)) ≡ some ip → ip ≡ addr 2
unfolding to4
only_two ip h = cc

run-sources_example :
    let (s, effects) = run events (new_stack (addr 1) 1500 limits) in
    HandlerFrom (λ ip. ip ≡ addr 2) s.udp_handler
    × All (EffectOk (λ ip. ip ≡ addr 2) (addr 1)) effects
run-sources_example =
    run-sources (λ ip. ip ≡ addr 2) (addr 1) 1500 limits events
      (only_two, (tt, (tt, (tt, (only_two, (tt, tt))))))

run-Apart_example :
    Apart (run events (new_stack (addr 1) 1500 limits)).0.routes
    × NotServer (addr 1) (run events (new_stack (addr 1) 1500 limits)).0.routes
run-Apart_example = run-Apart (addr 1) 1500 limits events

-- 60 bytes leave in four fragments.
write_packet-Gives_example :
    Gives accepts
      (attachment 1 2)
      (built (addr 1) (addr 2) 17 60)
      40
      (build_ipv4 [] (addr 1) (addr 2) 17 (replicate 60 0))
      (replicate 60 0)
      (write_packet accepts
        (attachment 1 2)
        (build_ipv4 [] (addr 1) (addr 2) 17 (replicate 60 0))
        (new_stack (addr 1) 40 limits))
write_packet-Gives_example =
    write_packet-Gives accepts (attachment 1 2) (addr 2) 17 (replicate 60 0)
      (new_stack (addr 1) 40 limits) (omega arith) (omega arith) (omega arith) (omega arith)
      (omega arith) (omega arith)

four_fragments :
    length
      (write_packet accepts
        (attachment 1 2)
        (build_ipv4 [] (addr 1) (addr 2) 17 (replicate 60 0))
        (new_stack (addr 1) 40 limits)).1
    ≡ 4
unfolding write_packet parse_ipv4 build_ipv4 fragment_ipv4
four_fragments = refl

spoofed :
    (deliver accepts 5
      (attachment 1 2)
      (build_ipv4 [] (addr 3) (addr 1) protocol_udp [])
      (with_peer 1 2 53)).1.stats.spoofed_source_dropped
    ≡ 1
unfolding deliver parse_ipv4 build_ipv4
spoofed = refl

sorted :
    sorted_routes (attach (some 7) (as4 (addr 3)) (with_peer 1 2 53)).0
    ≡ as4 (addr 2) ∷ as4 (addr 3) ∷ []
unfolding sorted_routes attach
sorted = refl

detached : is_attached (as4 (addr 2)) (detach (as4 (addr 2)) (with_peer 1 2 53)).0 ≡ false
unfolding is_attached detach
detached = refl

server_refused : (attach (some 7) (as4 (addr 1)) (with_peer 1 2 53)).1 ≡ some Error.attach_server_ip
unfolding attach
server_refused = refl
