-- ===== src/Stack/Effects.antt =====
-- What the writes and the handlers of the stack leave alone, and who writes.
use govpn.Base.{
  ℕ, ◌%◌, ◌^◌, ◌≡◌, refl, sym, subst, not, leb, ◌==◌, Option, none, some, List, [], ◌∷◌, length,
  All, Result, ok, err, branch-keeps,
}
use govpn.Frame.{Addr}
use govpn.Ipv4
use govpn.Ipv4.{Ipv4Header, parse_ipv4, addr_at, is_fragment, datagram, fragment_ipv4}
use govpn.Reassembly.{same_addr}
use govpn.Udp.{
  UdpDemux, UdpConn, UdpDatagram, UdpDropPolicy, drop_newest, drop_oldest, send, enqueue, find_port,
  update_conn, queue_datagram, handle_packet, handle_parsed, parse_udp, checksum_ok,
}
use govpn.Udp.Senders.{QueuedFrom, queue_datagram-QueuedFrom}
use govpn.Udp
use govpn.Stack.{Stack, Attachment, Error}
use govpn.Stack.Packets.{dispatch_udp, after_udp}
use govpn.Stack.Output.{
  Effect, session_write, tcp_segment, Accepts, write_all, write_fragments, write_parsed,
  write_packet, next_ip_id,
}

-- A property of the senders of all that the listeners hold.
module _ (Q : Addr → Type 0) where
  abbrev pub HandlerFrom : Option UdpDemux → Type 0
  HandlerFrom none = Unit {0}
  HandlerFrom (some d) = QueuedFrom Q d

  after_udp-HandlerFrom :
      (src dst : Addr) (payload : List ℕ) (parsed : Result Udp.Error (ℕ × ℕ × List ℕ))
      (d : UdpDemux) (s : Stack)
      → Q src
      → QueuedFrom Q d
      → s.udp_handler ≡ some d
      → HandlerFrom (after_udp (handle_parsed src dst payload parsed d) s).udp_handler
  unfolding handle_parsed
  after_udp-HandlerFrom src dst payload (err e) d s q h same = subst HandlerFrom (sym same) h
  after_udp-HandlerFrom src dst payload (ok (src_port, dst_port, bytes)) d s q h same =
      branch-keeps (QueuedFrom Q) (not (checksum_ok src dst payload bytes)) _ _ h (
        queue_datagram-QueuedFrom Q (record { ip = src; port = src_port; payload = bytes }) dst_port
          d q h)

  pub dispatch_udp-HandlerFrom :
      (hdr : Ipv4Header) (payload : List ℕ) (o : Option UdpDemux) (s : Stack)
      → Q hdr.src
      → s.udp_handler ≡ o
      → HandlerFrom o
      → HandlerFrom (dispatch_udp o hdr payload s).udp_handler
  unfolding dispatch_udp handle_packet
  dispatch_udp-HandlerFrom hdr payload none s q same h = subst HandlerFrom (sym same) h
  dispatch_udp-HandlerFrom hdr payload (some d) s q same h =
      after_udp-HandlerFrom hdr.src hdr.dst payload (parse_udp payload) d s q h same

-- What a packet of an attachment may cause: a write of its session, or a segment for the TCP handler
-- that is from its address to the server's.
abbrev pub EffectFrom : Attachment → Addr → Effect → Type 0
EffectFrom a server (session_write sess pkt) = sess ≡ a.sess
EffectFrom a server (tcp_segment p src dst payload) =
    (p ≡ a.pointer) × (src ≡ a.ip) × (dst ≡ server)

-- The write of a packet leaves all but counters alone, and only the one session writes.
pub record Writes (a : Attachment) (s : Stack) (x : Stack × List Effect × Option Error)
    : Type 0 where
  pub same_server : x.0.server_ip ≡ s.server_ip
  pub same_handler : x.0.udp_handler ≡ s.udp_handler
  pub same_routes : x.0.routes ≡ s.routes
  pub same_pointer : x.0.next_pointer ≡ s.next_pointer
  pub own : All (EffectFrom a s.server_ip) x.1

module _ (accepts : Accepts) (a : Attachment) where
  write_all-own :
      (server : Addr) (frags : List (List ℕ))
      → All (EffectFrom a server) (write_all accepts a.sess frags).0
  unfolding write_all
  write_all-own server [] = tt
  write_all-own server (frag ∷ frags) =
      branch-keeps (λ (x : List Effect × Option Error). All (EffectFrom a server) x.0)
        (accepts a.sess frag) _ _ (refl, write_all-own server frags) (refl, tt)

  written_alone :
      (s : Stack) (effects : List Effect) (e : Option Error)
      → All (EffectFrom a s.server_ip) effects
      → Writes a s (s, effects, e)
  written_alone s effects e own = record {
    same_server = refl;
    same_handler = refl;
    same_routes = refl;
    same_pointer = refl;
    own = own;
  }

  write_fragments-Writes :
      (hdr : Ipv4Header) (pkt : List ℕ) (s : Stack)
      → Writes a s (write_fragments accepts a hdr pkt s)
  unfolding write_fragments
  write_fragments-Writes hdr pkt s =
      branch-keeps (Writes a s) (length (fragment_ipv4 hdr pkt s.mtu (next_ip_id s % 2 ^ 16)) == 0)
        _ _
        (record {
          same_server = refl;
          same_handler = refl;
          same_routes = refl;
          same_pointer = refl;
          own = tt;
        })
        (record {
          same_server = refl;
          same_handler = refl;
          same_routes = refl;
          same_pointer = refl;
          own = write_all-own s.server_ip (fragment_ipv4 hdr pkt s.mtu (next_ip_id s % 2 ^ 16));
        })

  write_parsed-Writes :
      (parsed : Result Ipv4.Error Ipv4Header) (pkt : List ℕ) (s : Stack)
      → Writes a s (write_parsed accepts a parsed pkt s)
  unfolding write_parsed
  write_parsed-Writes (err e) pkt s = written_alone s [] _ tt
  write_parsed-Writes (ok hdr) pkt s =
      branch-keeps (Writes a s) (not (same_addr hdr.src s.server_ip)) _ _
        (record {
          same_server = refl;
          same_handler = refl;
          same_routes = refl;
          same_pointer = refl;
          own = tt;
        })
        (branch-keeps (Writes a s) (leb hdr.total_len s.mtu) _ _
          (written_alone s (session_write a.sess pkt ∷ []) _ (refl, tt))
          (write_fragments-Writes hdr pkt s))

  pub write_packet-Writes : (pkt : List ℕ) (s : Stack) → Writes a s (write_packet accepts a pkt s)
  unfolding write_packet
  write_packet-Writes pkt s = write_parsed-Writes (parse_ipv4 pkt) pkt s
