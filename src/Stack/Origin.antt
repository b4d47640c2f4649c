-- ===== src/Stack/Origin.antt =====
-- Whose packets reach the handlers: only those that carry the address of the session that they came
-- from, fragments included.
use govpn.Base.{
  elem_at-take, ℕ, ◌*◌, bit_and, elem_at, ◌≤◌, ◌≡◌, refl, sym, ap, ◌∙◌, subst, true, ◌==◌, Option,
  none, some, List, [], length, take, drop, All, length-take, arith, Result, ok, err, branch-keeps,
}
use govpn.Frame.{Addr}
use govpn.Base.Words.{uint16_of}
use govpn.Ipv4
use govpn.Ipv4.{Ipv4Header, parse_ipv4, addr_at, is_fragment, datagram, fragment_ipv4}
use govpn.Ipv4.Inversion.{parse_fields_inv}
use govpn.Icmp
use govpn.Icmp.{IcmpAnswer, protocol_icmp}
use govpn.Frame.{protocol_udp, protocol_tcp}
use govpn.Reassembly.{
  ReasmOutcome, buffered, duplicate, conflict, bound_exceeded, closed_down, complete, same_addr,
}
use govpn.Reassembly.Origin.{OutcomeFrom}
use govpn.Reassembly.Addrs.{HasAddrs, SameFrom, addr_at-SameFrom}
use govpn.Udp.{UdpDemux, handle_packet}
use govpn.Stack.Effects.{
  HandlerFrom, EffectFrom, Writes, write_packet-Writes, dispatch_udp-HandlerFrom,
}
use govpn.Stack.{Stack, Stats, Attachment, Error}
use govpn.Stack.Packets.{
  count_request, count_reply, count_malformed, count_reassembled, handle_icmp, dispatch_udp,
  after_udp, dispatch, dispatch_whole, after_add,
}
use govpn.Stack.Output.{Effect, Accepts, write_packet}

pub same_addr-eq : (a b : Addr) → same_addr a b ≡ true → a ≡ b
same_addr-eq a b h = ground arith

-- The addresses and the length of a header that was read.
pub parse_ipv4-HasAddrs :
    (pkt : List ℕ) (hdr : Ipv4Header)
    → parse_ipv4 pkt ≡ ok hdr
    → (hdr.src ≡ addr_at pkt 12)
      × (hdr.dst ≡ addr_at pkt 16)
      × (20 ≤ length (take hdr.ihl pkt))
      × HasAddrs hdr.src hdr.dst (take hdr.ihl pkt)
unfolding parse_ipv4
parse_ipv4-HasAddrs pkt hdr h =
    let (v, i, t, w, e) =
      parse_fields_inv pkt (bit_and (elem_at pkt 0) 0x0F * 4) (uint16_of (drop 2 pkt))
        (uint16_of (drop 6 pkt)) hdr h in
    let ihl_read = ap (λ (x : Ipv4Header). x.ihl) e in
    let src_read = ap (λ (x : Ipv4Header). x.src) e in
    let dst_read = ap (λ (x : Ipv4Header). x.dst) e in
    let same : SameFrom 12 20 (take hdr.ihl pkt) pkt =
      λ j from to. elem_at-take hdr.ihl pkt j (omega (arith, ihl_read, i, to)) in
    (
      sym src_read,
      sym dst_read,
      omega (arith, length-take hdr.ihl pkt, ihl_read, i, t, w),
      record {
        from = addr_at-SameFrom _ pkt 12 (λ j l u. same j l (omega arith)) ∙ src_read;
        to = addr_at-SameFrom _ pkt 16 (λ j l u. same j (omega arith) (omega arith)) ∙ dst_read;
      },
    )

dispatch_udp-same :
    (hdr : Ipv4Header) (payload : List ℕ) (o : Option UdpDemux) (s : Stack)
    → ((dispatch_udp o hdr payload s).server_ip ≡ s.server_ip)
      × ((dispatch_udp o hdr payload s).routes ≡ s.routes)
      × ((dispatch_udp o hdr payload s).next_pointer ≡ s.next_pointer)
unfolding dispatch_udp
dispatch_udp-same hdr payload none s = (refl, refl, refl)
dispatch_udp-same hdr payload (some d) s =
    elim (handle_packet hdr.src hdr.dst payload d)
      as (λ o.
        ((after_udp o s).server_ip ≡ s.server_ip)
        × ((after_udp o s).routes ≡ s.routes)
        × ((after_udp o s).next_pointer ≡ s.next_pointer)) [
          | none ↦ (refl, refl, refl)
          | some d₁ ↦ (refl, refl, refl)
        ]

-- What may come of a packet of an attachment.
module _ (Q : Addr → Type 0) (accepts : Accepts) (a : Attachment) (server : Addr) (q : Q a.ip) where
  pub record Handled (s : Stack) (x : Stack × List Effect) : Type 0 where
    pub same_server : x.0.server_ip ≡ s.server_ip
    pub same_routes : x.0.routes ≡ s.routes
    pub same_pointer : x.0.next_pointer ≡ s.next_pointer
    pub senders : HandlerFrom Q x.0.udp_handler
    pub own : All (EffectFrom a server) x.1

  module _ (s : Stack) (at_server : s.server_ip ≡ server) (h : HandlerFrom Q s.udp_handler) where
    pub nothing_done : (stats : Stats) → Handled s (record s { stats = stats }, [])
    nothing_done stats = record {
      same_server = refl;
      same_routes = refl;
      same_pointer = refl;
      senders = h;
      own = tt;
    }

    reply-Handled :
        (pkt : List ℕ)
        → let (s₁, effects, e) = write_packet accepts a pkt (count_request s) in
          Handled s (count_reply e s₁, effects)
    reply-Handled pkt =
        counted (write_packet accepts a pkt (count_request s))
          (write_packet-Writes accepts a pkt (count_request s))
      where
        counted :
            (x : Stack × List Effect × Option Error)
            → Writes a (count_request s) x
            → Handled s (count_reply x.2 x.0, x.1)
        counted (s₁, effects, none) w = record {
          same_server = w.same_server;
          same_routes = w.same_routes;
          same_pointer = w.same_pointer;
          senders = subst (HandlerFrom Q) (sym w.same_handler) h;
          own = subst (λ z. All (EffectFrom a z) effects) at_server w.own;
        }
        counted (s₁, effects, some e) w = record {
          same_server = w.same_server;
          same_routes = w.same_routes;
          same_pointer = w.same_pointer;
          senders = subst (HandlerFrom Q) (sym w.same_handler) h;
          own = subst (λ z. All (EffectFrom a z) effects) at_server w.own;
        }

    handle_icmp-Handled :
        (hdr : Ipv4Header) (msg : List ℕ) → Handled s (handle_icmp accepts a hdr msg s)
    unfolding handle_icmp
    handle_icmp-Handled hdr msg =
        elim (Icmp.handle_icmp s.server_ip hdr msg)
          as (λ answer. Handled s (elim answer [
            | Icmp.malformed ↦ (count_malformed s, [])
            | Icmp.ignored ↦ (s, [])
            | Icmp.reply pkt ↦
                let (s₁, effects, e) = write_packet accepts a pkt (count_request s) in
                (count_reply e s₁, effects)
          ])) [
            | Icmp.malformed ↦ nothing_done _
            | Icmp.ignored ↦ nothing_done s.stats
            | Icmp.reply pkt ↦ reply-Handled pkt
          ]

    udp_applied :
        (hdr : Ipv4Header) (payload : List ℕ)
        → hdr.src ≡ a.ip
        → Handled s (dispatch_udp s.udp_handler hdr payload s, [])
    udp_applied hdr payload from =
        let (same_server, same_routes, same_pointer) =
          dispatch_udp-same hdr payload s.udp_handler s in
        record {
          same_server = same_server;
          same_routes = same_routes;
          same_pointer = same_pointer;
          senders =
              dispatch_udp-HandlerFrom Q hdr payload s.udp_handler s (subst Q (sym from) q) refl h;
          own = tt;
        }

    -- A packet between these addresses.
    pub dispatch-Handled :
        (hdr : Ipv4Header) (pkt : List ℕ)
        → hdr.src ≡ a.ip
        → hdr.dst ≡ server
        → Handled s (dispatch accepts a hdr pkt s)
    unfolding dispatch
    dispatch-Handled hdr pkt from to =
        let payload : List ℕ = datagram hdr pkt in
        let to_udp : Handled s (dispatch_udp s.udp_handler hdr payload s, []) =
          udp_applied hdr payload from in
        branch-keeps (Handled s) (hdr.protocol == protocol_icmp) _ _
          (handle_icmp-Handled hdr payload)
          (branch-keeps (Handled s) (hdr.protocol == protocol_udp) _ _ to_udp (
            branch-keeps (Handled s) (hdr.protocol == protocol_tcp) _ _
              (branch-keeps (Handled s) s.tcp_handler _ _
                (record {
                  same_server = refl;
                  same_routes = refl;
                  same_pointer = refl;
                  senders = h;
                  own = ((refl, from, to), tt);
                })
                (nothing_done _))
              (nothing_done _)))

-- A reassembled datagram between these addresses.
module _ (Q : Addr → Type 0) (accepts : Accepts) (a : Attachment) (server : Addr) (q : Q a.ip) where
  dispatch_whole-Handled :
      (s : Stack) (parsed : Result Ipv4.Error Ipv4Header) (pkt : List ℕ)
      → s.server_ip ≡ server
      → HandlerFrom Q s.udp_handler
      → parse_ipv4 pkt ≡ parsed
      → HasAddrs a.ip server pkt
      → Handled Q accepts a server q s (dispatch_whole accepts a parsed pkt s)
  unfolding dispatch_whole
  dispatch_whole-Handled s (err e) pkt at h p addrs = nothing_done Q accepts a server q s at h _
  dispatch_whole-Handled s (ok whole) pkt at h p addrs =
      let (from, to, long, inner) = parse_ipv4-HasAddrs pkt whole p in
      let d =
        dispatch-Handled Q accepts a server q (count_reassembled s) at h whole pkt
          (from ∙ addrs.from) (to ∙ addrs.to) in
      record {
        same_server = d.same_server;
        same_routes = d.same_routes;
        same_pointer = d.same_pointer;
        senders = d.senders;
        own = d.own;
      }

  pub after_add-Handled :
      (s : Stack) (outcome : ReasmOutcome)
      → s.server_ip ≡ server
      → HandlerFrom Q s.udp_handler
      → OutcomeFrom a.ip server outcome
      → Handled Q accepts a server q s (after_add accepts a outcome s)
  unfolding after_add
  after_add-Handled s (complete pkt) at h o =
      dispatch_whole-Handled s (parse_ipv4 pkt) pkt at h refl o
  after_add-Handled s bound_exceeded at h o = nothing_done Q accepts a server q s at h _
  after_add-Handled s duplicate at h o = nothing_done Q accepts a server q s at h _
  after_add-Handled s conflict at h o = nothing_done Q accepts a server q s at h _
  after_add-Handled s closed_down at h o = nothing_done Q accepts a server q s at h _
  after_add-Handled s buffered at h o = nothing_done Q accepts a server q s at h s.stats
