-- ===== src/Stack/Safety.antt =====
-- The whole life of a stack: what holds after any sequence of calls and of packets.
use govpn.Base.{
  result-keeps, ℕ, ◌%◌, ◌^◌, ◌<◌, ◌≡◌, refl, sym, ap, ◌∙◌, subst, true, false, ltb, Option, none,
  some, List, [], length, All, Result, branch-keeps, option-keeps_when,
}
use govpn.Frame.{Addr, build_udp, build_ipv4, protocol_udp}
use govpn.Reassembly.{same_addr}
use govpn.Reassembly.Origin.{HoldsFrom}
use govpn.Udp
use govpn.Udp.{
  UdpDemux, UdpConn, UdpOptions, UdpDatagram, find_port, find_conn, update_conn, remove_conn,
  max_udp_payload, udp_queue_depth, new_demux,
}
use govpn.Udp.Listeners.{check_options, passed}
use govpn.Udp.Senders.{
  QueuedFrom, update_conn-QueuedFrom, read_from-QueuedFrom, close_conn-QueuedFrom,
  add_conn-QueuedFrom,
}
use govpn.Stack.{Stack, Attachment, Error, to4}
use govpn.Stack.Attachments.{find_route, find_pointer, put_attachment}
use govpn.Stack.Packets.{Read, packet, failed, read_failed, read_loop, deliver}
use govpn.Stack.Output.{Effect, Accepts, write_packet}
use govpn.Stack.Sockets.{
  UdpTarget, WriteError, listen, udp_demux_for, write_to, write_from, write_target, send_datagram,
  open_conn, target_addr, register_tcp_handler,
}
use govpn.Stack.Effects.{HandlerFrom, EffectFrom, Writes, write_packet-Writes}
use govpn.Stack.Access.{Delivered, deliver-Delivered}
use govpn.Stack.Routes.{
  Apart, IsRoute, find_pointer-All, find_route-All, find_pointer-pointer, put_attachment-All,
  put_attachment-Apart,
}
use govpn.Stack.Life.{
  Sound, SoundStep, own_effects, with_listeners, on_listeners-Sound, attach-Sound,
  detach_attachment-Sound, detach-Sound, close-Sound,
}
use govpn.Stack.Events.{Event, step}

abbrev SoundWrite : (Addr → Type 0) → Addr → Stack × List Effect × Result WriteError ℕ → Type 0
SoundWrite Q server (s, effects, answer) = SoundStep Q server (s, effects)

module _ (Q : Addr → Type 0) (server : Addr) (s : Stack) (v : Sound Q server s) where
  -- An attachment that was found, put back after a packet of its own.
  put_back :
      (p : ℕ) (a : Attachment)
      → find_pointer p s.routes ≡ some a
      → (x : Attachment × Stack × List Effect) → Delivered Q a s x
      → SoundStep Q server (record (x.1) { routes = put_attachment x.0 x.1.routes }, x.2)
  put_back p a found x d =
      let r = find_pointer-All (IsRoute Q server s.next_pointer) p s.routes a v.each found in
      let at_a : find_pointer x.0.pointer s.routes ≡ some a =
        ap (λ n. find_pointer n s.routes) (d.same_id ∙ find_pointer-pointer p s.routes a found)
        ∙ found in
      let kept : IsRoute Q server s.next_pointer x.0 = record {
        allowed = subst Q (sym d.same_ip) r.allowed;
        holds =
            subst (λ ip. HoldsFrom ip server x.0.reasm) (sym d.same_ip)
              (subst (λ z. HoldsFrom a.ip z x.0.reasm) v.at_server d.holds);
        not_server = subst (λ ip. same_addr ip server ≡ false) (sym d.same_ip) r.not_server;
        given = subst (λ n. n < s.next_pointer) (sym d.same_id) r.given;
      } in
      (
        record {
          at_server = d.same_server ∙ v.at_server;
          apart =
              subst (λ z. Apart (put_attachment x.0 z)) (sym d.same_routes)
                (put_attachment-Apart x.0 a s.routes at_a d.same_ip v.apart);
          each =
              subst (λ z. All (IsRoute Q server x.1.next_pointer) (put_attachment x.0 z))
                (sym d.same_routes)
                (subst (λ n. All (IsRoute Q server n) (put_attachment x.0 s.routes))
                  (sym d.same_pointer)
                  (put_attachment-All (IsRoute Q server s.next_pointer) x.0 s.routes kept v.each));
          senders = d.senders;
        },
        own_effects Q server a x.2 r.allowed
            (subst (λ z. All (EffectFrom a z) x.2) v.at_server d.own),
      )

  read_failed-Sound :
      (p : ℕ) (a : Attachment) → find_pointer p s.routes ≡ some a → Sound Q server (read_failed a s)
  unfolding read_failed
  read_failed-Sound p a found =
      let r = find_pointer-All (IsRoute Q server s.next_pointer) p s.routes a v.each found in
      let same = find_pointer-pointer p s.routes a found in
      let grown : Attachment = record a { grown = true } in
      branch-keeps (Sound Q server) a.grown _ _ (detach_attachment-Sound Q server s v a.pointer)
        (record {
          at_server = v.at_server;
          apart =
              put_attachment-Apart grown a s.routes (ap (λ n. find_pointer n s.routes) same ∙ found)
                refl v.apart;
          each =
              put_attachment-All (IsRoute Q server s.next_pointer) grown s.routes
                (record {
                  allowed = r.allowed;
                  holds = r.holds;
                  not_server = r.not_server;
                  given = r.given;
                })
                v.each;
          senders = v.senders;
        })

  read_loop-Sound :
      (accepts : Accepts) (now p : ℕ) (answer : Read)
      → SoundStep Q server (read_loop accepts now p answer s)
  unfolding read_loop
  read_loop-Sound accepts now p failed =
      option-keeps_when (SoundStep Q server) (find_pointer p s.routes) _ _ (λ _. (v, tt))
        (λ a found. (read_failed-Sound p a found, tt))
  read_loop-Sound accepts now p (packet pkt) =
      option-keeps_when (SoundStep Q server) (find_pointer p s.routes) _ _ (λ _. (v, tt))
        (λ a found.
          let r = find_pointer-All (IsRoute Q server s.next_pointer) p s.routes a v.each found in
          put_back p a found (deliver accepts now a pkt s) (
            deliver-Delivered Q accepts now a pkt s r.allowed
              (subst (λ z. HoldsFrom a.ip z a.reasm) (sym v.at_server) r.holds) v.senders))

  -- A call of a listener that writes one packet.
  written-Sound :
      (a : Attachment) (x : Stack × List Effect × Option Error)
      → Q a.ip
      → Writes a s x
      → SoundStep Q server (x.0, x.1)
  written-Sound a x q w = (
    record {
      at_server = w.same_server ∙ v.at_server;
      apart = subst Apart (sym w.same_routes) v.apart;
      each =
          subst (λ z. All (IsRoute Q server x.0.next_pointer) z) (sym w.same_routes)
            (subst (λ n. All (IsRoute Q server n) s.routes) (sym w.same_pointer) v.each);
      senders = subst (HandlerFrom Q) (sym w.same_handler) v.senders;
    },
    own_effects Q server a x.1 q (subst (λ z. All (EffectFrom a z) x.1) v.at_server w.own),
  )

  send_datagram-Sound :
      (accepts : Accepts) (c : UdpConn) (p : List ℕ) (dst : Addr) (port : ℕ) (o : Option Attachment)
      → ((a : Attachment) → o ≡ some a → Q a.ip)
      → SoundWrite Q server (send_datagram accepts c p dst port o s)
  unfolding send_datagram
  send_datagram-Sound accepts c p dst port none q = (v, tt)
  send_datagram-Sound accepts c p dst port (some a) q =
      let bytes : List ℕ = build_udp [] s.server_ip dst c.port (port % 2 ^ 16) p in
      let pkt : List ℕ = build_ipv4 [] s.server_ip dst protocol_udp bytes in
      written-Sound a (write_packet accepts a pkt s) (q a refl)
        (write_packet-Writes accepts a pkt s)

  write_target-Sound :
      (accepts : Accepts) (c : UdpConn) (p : List ℕ) (target : Option (Addr × ℕ))
      → SoundWrite Q server (write_target accepts c p target s)
  unfolding write_target
  write_target-Sound accepts c p none = (v, tt)
  write_target-Sound accepts c p (some (dst, port)) =
      branch-keeps (SoundWrite Q server) (ltb max_udp_payload (length p)) _ _ (v, tt)
        (send_datagram-Sound accepts c p dst port (find_route dst s.routes) (λ a found.
          (find_route-All (IsRoute Q server s.next_pointer) dst s.routes a v.each found).allowed))

  write_from-Sound :
      (accepts : Accepts) (now : ℕ) (o : Option UdpConn) (p : List ℕ) (target : UdpTarget)
      → SoundWrite Q server (write_from accepts now o p target s)
  unfolding write_from
  write_from-Sound accepts now none p target = (v, tt)
  write_from-Sound accepts now (some c) p target =
      branch-keeps (SoundWrite Q server) (passed c.write_deadline now) _ _ (v, tt)
        (write_target-Sound accepts c p (target_addr target))

  listen-Sound : (port : ℕ) (opts : UdpOptions) → Sound Q server (listen port opts s).0
  unfolding listen
  listen-Sound port opts =
      result-keeps (λ (x : Stack × Result Udp.Error ℕ). Sound Q server x.0)
        (check_options port opts) _ _
        (λ checked. with_listeners Q server s v _ (
          add_conn-QueuedFrom Q port checked.0 checked.1 (udp_demux_for s)
            (demux_senders s.udp_handler v.senders)))
        (λ e. v)
    where
      demux_senders :
          (o : Option UdpDemux)
          → HandlerFrom Q o
          → QueuedFrom Q (elim o [ some d ↦ d | none ↦ new_demux ])
      demux_senders none h = tt
      demux_senders (some d) h = h

  register_tcp_handler-Sound : Sound Q server (register_tcp_handler s).0
  unfolding register_tcp_handler
  register_tcp_handler-Sound =
      branch-keeps (λ (x : Stack × Option Error). Sound Q server x.0) s.tcp_handler _ _ v
        (record { at_server = v.at_server; apart = v.apart; each = v.each; senders = v.senders })

-- The address of an attach call, if it is one.
abbrev pub Allowed : (Addr → Type 0) → Event → Type 0
Allowed Q (Event.attaches sess ip) = (addr : Addr) → to4 ip ≡ some addr → Q addr
Allowed Q _ = Unit {0}

pub step-Sound :
    (Q : Addr → Type 0) (server : Addr) (accepts : Accepts) (now : ℕ) (e : Event) (s : Stack)
    → Allowed Q e
    → Sound Q server s
    → SoundStep Q server (step accepts now e s)
unfolding step
step-Sound Q server accepts now (Event.attaches sess ip) s q v =
    (attach-Sound Q server s v sess ip q, tt)
step-Sound Q server accepts now (Event.detaches ip) s q v = (detach-Sound Q server s v ip, tt)
step-Sound Q server accepts now (Event.reads p answer) s q v =
    read_loop-Sound Q server s v accepts now p answer
step-Sound Q server accepts now (Event.listens port opts) s q v =
    (listen-Sound Q server s v port opts, tt)
step-Sound Q server accepts now (Event.receives id size) s q v =
    (on_listeners-Sound Q server s v _ (λ d h. read_from-QueuedFrom Q now id size d h), tt)
step-Sound Q server accepts now (Event.writes id p target) s q v =
    unfold write_to in write_from-Sound Q server s v accepts now (open_conn id s) p target
step-Sound Q server accepts now (Event.closes_conn id) s q v =
    (on_listeners-Sound Q server s v _ (λ d h. close_conn-QueuedFrom Q id d h), tt)
step-Sound Q server accepts now (Event.sets_read_deadline id t) s q v = (
  on_listeners-Sound Q server s v _ (λ d h. update_conn-QueuedFrom Q id _ d.ports (λ c k. k) h),
  tt,
)
step-Sound Q server accepts now (Event.sets_write_deadline id t) s q v = (
  on_listeners-Sound Q server s v _ (λ d h. update_conn-QueuedFrom Q id _ d.ports (λ c k. k) h),
  tt,
)
step-Sound Q server accepts now (Event.sets_deadline id t) s q v = (
  on_listeners-Sound Q server s v _ (λ d h. update_conn-QueuedFrom Q id _ d.ports (λ c k. k) h),
  tt,
)
step-Sound Q server accepts now Event.registers_tcp s q v =
    (register_tcp_handler-Sound Q server s v, tt)
step-Sound Q server accepts now Event.closes s q v = (close-Sound Q server s v, tt)
