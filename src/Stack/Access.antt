-- ===== src/Stack/Access.antt =====
-- A session's packets under the two checks of access: what one delivery may do.
use govpn.Base.{
  ℕ, ◌≡◌, refl, ◌∙◌, Bool, true, false, not, List, [], ◌∷◌, take, All, ok, err, Result,
  branch-keeps, branch-keeps_when,
}
use govpn.Frame.{Addr}
use govpn.Ipv4
use govpn.Ipv4.{Ipv4Header, parse_ipv4, is_fragment}
use govpn.Reassembly.{same_addr}
use govpn.Reassembly.Add.{add}
use govpn.Reassembly.Origin.{HoldsFrom, add-OutcomeFrom}
use govpn.Reassembly.Addrs.{HasAddrs}
use govpn.Stack.{Stack, Stats, Attachment}
use govpn.Stack.Packets.{
  after_add, count_timeouts, count_received, dispatch, deliver_fragment, deliver_parsed,
  deliver_result, deliver,
}
use govpn.Stack.Output.{Effect, Accepts}
use govpn.Stack.Effects.{HandlerFrom, EffectFrom}
use govpn.Stack.Origin.{
  same_addr-eq, parse_ipv4-HasAddrs, Handled, dispatch-Handled, after_add-Handled,
}

unnegated : (b : Bool) → not b ≡ false → b ≡ true
unnegated true h = refl
unnegated false h = cc

-- After a delivery the attachment is the same one, its fragments still carry its address, and what the
-- listeners got has a sender of which `Q` holds.
pub record Delivered (Q : Addr → Type 0) (a : Attachment) (s : Stack)
    (x : Attachment × Stack × List Effect) : Type 0 where
  pub same_id : x.0.pointer ≡ a.pointer
  pub same_ip : x.0.ip ≡ a.ip
  pub same_server : x.1.server_ip ≡ s.server_ip
  pub same_routes : x.1.routes ≡ s.routes
  pub same_pointer : x.1.next_pointer ≡ s.next_pointer
  pub holds : HoldsFrom a.ip s.server_ip x.0.reasm
  pub senders : HandlerFrom Q x.1.udp_handler
  pub own : All (EffectFrom a s.server_ip) x.2

module _ (Q : Addr → Type 0) (accepts : Accepts) (now : ℕ) (a : Attachment) (q : Q a.ip) (s : Stack)
    (v : HoldsFrom a.ip s.server_ip a.reasm) (h : HandlerFrom Q s.udp_handler) where
  counted-Delivered : (stats : Stats) → Delivered Q a s (a, record s { stats = stats }, [])
  counted-Delivered stats = record {
    same_id = refl;
    same_ip = refl;
    same_server = refl;
    same_routes = refl;
    same_pointer = refl;
    holds = v;
    senders = h;
    own = tt;
  }

  dispatched-Delivered :
      (x : Stack × List Effect)
      → Handled Q accepts a s.server_ip q s x
      → Delivered Q a s (a, x.0, x.1)
  dispatched-Delivered x d = record {
    same_id = refl;
    same_ip = refl;
    same_server = d.same_server;
    same_routes = d.same_routes;
    same_pointer = d.same_pointer;
    holds = v;
    senders = d.senders;
    own = d.own;
  }

  deliver_fragment-Delivered :
      (hdr : Ipv4Header) (pkt : List ℕ)
      → parse_ipv4 pkt ≡ ok hdr
      → hdr.src ≡ a.ip
      → hdr.dst ≡ s.server_ip
      → Delivered Q a s (deliver_fragment accepts now a hdr pkt s)
  unfolding deliver_fragment
  deliver_fragment-Delivered hdr pkt p from to =
      let (src_read, dst_read, long, inner) = parse_ipv4-HasAddrs pkt hdr p in
      let addrs : HasAddrs a.ip s.server_ip (take hdr.ihl pkt) = record {
        from = inner.from ∙ from;
        to = inner.to ∙ to;
      } in
      let added = add-OutcomeFrom a.ip s.server_ip hdr pkt long addrs now a.reasm v in
      let a₁ : Attachment = record a { reasm = (add a.reasm now hdr pkt).0 } in
      let d =
        after_add-Handled Q accepts a₁ s.server_ip q (count_timeouts (add a.reasm now hdr pkt).2 s)
          (add a.reasm now hdr pkt).1 refl h added.1 in
      record {
        same_id = refl;
        same_ip = refl;
        same_server = d.same_server;
        same_routes = d.same_routes;
        same_pointer = d.same_pointer;
        holds = added.0;
        senders = d.senders;
        own =
            own_of
              (after_add accepts a₁ (add a.reasm now hdr pkt).1
                (count_timeouts (add a.reasm now hdr pkt).2 s)).1
              d.own;
      }
    where
      own_of :
          (effects : List Effect)
          → All (EffectFrom (record a { reasm = (add a.reasm now hdr pkt).0 }) s.server_ip) effects
          → All (EffectFrom a s.server_ip) effects
      own_of [] h = tt
      own_of (Effect.session_write sess bytes ∷ effects) h = (h.0, own_of effects h.1)
      own_of (Effect.tcp_segment p src dst bytes ∷ effects) h = (h.0, own_of effects h.1)

  deliver_parsed-Delivered :
      (hdr : Ipv4Header) (pkt : List ℕ)
      → parse_ipv4 pkt ≡ ok hdr
      → Delivered Q a s (deliver_parsed accepts now a hdr pkt s)
  unfolding deliver_parsed
  deliver_parsed-Delivered hdr pkt p =
      branch-keeps_when (Delivered Q a s) (not (same_addr hdr.src a.ip)) _ _
        (λ _. counted-Delivered _)
        (λ not_spoofed.
          let from : hdr.src ≡ a.ip = same_addr-eq hdr.src a.ip (unnegated _ not_spoofed) in
          branch-keeps_when (Delivered Q a s) (not (same_addr hdr.dst s.server_ip)) _ _
            (λ _. counted-Delivered _)
            (λ at_server.
              let to : hdr.dst ≡ s.server_ip =
                same_addr-eq hdr.dst s.server_ip (unnegated _ at_server) in
              branch-keeps (Delivered Q a s) (is_fragment hdr) _ _
                (deliver_fragment-Delivered hdr pkt p from to)
                (dispatched-Delivered (dispatch accepts a hdr pkt s)
                  (dispatch-Handled Q accepts a s.server_ip q s refl h hdr pkt from to))))

  deliver_result-Delivered :
      (parsed : Result Ipv4.Error Ipv4Header) (pkt : List ℕ)
      → parse_ipv4 pkt ≡ parsed
      → Delivered Q a s (deliver_result accepts now a parsed pkt s)
  unfolding deliver_result
  deliver_result-Delivered (err e) pkt p = counted-Delivered _
  deliver_result-Delivered (ok hdr) pkt p = deliver_parsed-Delivered hdr pkt p

-- Whatever packet arrives from an attachment whose fragments carry its address.
pub deliver-Delivered :
    (Q : Addr → Type 0) (accepts : Accepts) (now : ℕ) (a : Attachment) (pkt : List ℕ) (s : Stack)
    → Q a.ip
    → HoldsFrom a.ip s.server_ip a.reasm
    → HandlerFrom Q s.udp_handler
    → Delivered Q a s (deliver accepts now a pkt s)
unfolding deliver
deliver-Delivered Q accepts now a pkt s q v h =
    let d =
      deliver_result-Delivered Q accepts now a q (count_received s) v h (parse_ipv4 pkt) pkt refl in
    record {
      same_id = d.same_id;
      same_ip = d.same_ip;
      same_server = d.same_server;
      same_routes = d.same_routes;
      same_pointer = d.same_pointer;
      holds = d.holds;
      senders = d.senders;
      own = d.own;
    }
