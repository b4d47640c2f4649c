-- ===== src/Stack/Life.antt =====
-- The invariant of a stack, and the calls of its embedder.
use govpn.Base.{
  ℕ, ◌+◌, ◌<◌, ◌≡◌, sym, subst, Bool, false, Option, none, some, List, [], ◌∷◌, All, arith,
  branch-keeps, branch-keeps_when, option-keeps, option-keeps_when,
}
use govpn.Frame.{Addr}
use govpn.Reassembly.{same_addr}
use govpn.Udp.{UdpDemux}
use govpn.Udp.Senders.{QueuedFrom}
use govpn.Stack.{Stack, Attachment, Error, to4, close}
use govpn.Stack.Attachments.{
  find_route, attach, detach, detach_attachment, attached, new_attachment,
}
use govpn.Stack.Output.{Effect}
use govpn.Stack.Sockets.{}
use govpn.Stack.Effects.{HandlerFrom, EffectFrom}
use govpn.Stack.Routes.{Apart, IsRoute, remove_pointer-All, remove_pointer-Apart, find_route-Apart}
use govpn.Stack.Events.{on_demux, on_listeners}

-- The invariant of a stack: the table of routes is in order, and what the listeners hold was sent from
-- addresses of which `Q` holds.
pub record Sound (Q : Addr → Type 0) (server : Addr) (s : Stack) : Type 0 where
  pub at_server : s.server_ip ≡ server
  pub apart : Apart s.routes
  pub each : All (IsRoute Q server s.next_pointer) s.routes
  pub senders : HandlerFrom Q s.udp_handler

-- A segment for the TCP handler comes from such an address and is for the server's.
abbrev pub EffectOk : (Addr → Type 0) → Addr → Effect → Type 0
EffectOk Q server (Effect.session_write sess pkt) = Unit {0}
EffectOk Q server (Effect.tcp_segment p src dst payload) = Q src × (dst ≡ server)

abbrev pub SoundStep : (Addr → Type 0) → Addr → Stack × List Effect → Type 0
SoundStep Q server (s, effects) = Sound Q server s × All (EffectOk Q server) effects

All-map :
    (P R : Attachment → Type 0) (as' : List Attachment)
    → ((a : Attachment) → P a → R a)
    → All P as'
    → All R as'
All-map P R [] f h = tt
All-map P R (a ∷ as') f h = (f a h.0, All-map P R as' f h.1)

module _ (Q : Addr → Type 0) (server : Addr) where
  pub own_effects :
      (a : Attachment) (effects : List Effect)
      → Q a.ip
      → All (EffectFrom a server) effects
      → All (EffectOk Q server) effects
  own_effects a [] q h = tt
  own_effects a (Effect.session_write sess pkt ∷ effects) q h = (tt, own_effects a effects q h.1)
  own_effects a (Effect.tcp_segment p src dst payload ∷ effects) q h =
      ((subst Q (sym h.0.1) q, h.0.2), own_effects a effects q h.1)

  module _ (s : Stack) (v : Sound Q server s) where
    pub with_listeners :
        (o : Option UdpDemux) → HandlerFrom Q o → Sound Q server (record s { udp_handler = o })
    with_listeners o h = record {
      at_server = v.at_server;
      apart = v.apart;
      each = v.each;
      senders = h;
    }

    pub on_listeners-Sound :
        (f : UdpDemux → UdpDemux)
        → ((d : UdpDemux) → QueuedFrom Q d → QueuedFrom Q (f d))
        → Sound Q server (on_listeners f s)
    on_listeners-Sound f keep = with_listeners _ (kept s.udp_handler v.senders)
      where
        kept : (o : Option UdpDemux) → HandlerFrom Q o → HandlerFrom Q (on_demux f o)
        kept none h = tt
        kept (some d) h = keep d h

    -- A route more, at an address that has none.
    attached-Sound :
        (sess : ℕ) (addr : Addr)
        → Q addr
        → same_addr addr s.server_ip ≡ false
        → find_route addr s.routes ≡ none
        → Sound Q server (record s {
          routes = new_attachment s sess addr ∷ s.routes;
          next_pointer = s.next_pointer + 1;
        })
    attached-Sound sess addr q away free = record {
      at_server = v.at_server;
      apart = (
        find_route-Apart (new_attachment s sess addr) s.routes free (
            All-map (IsRoute Q server s.next_pointer) (λ b. b.pointer < s.next_pointer) s.routes
              (λ b r. r.given) v.each),
        v.apart,
      );
      each = (
        record {
          allowed = q;
          holds = tt;
          not_server = subst (λ x. same_addr addr x ≡ false) v.at_server away;
          given = omega arith;
        },
        All-map (IsRoute Q server s.next_pointer) (IsRoute Q server (s.next_pointer + 1)) s.routes
            (λ b r. record {
              allowed = r.allowed;
              holds = r.holds;
              not_server = r.not_server;
              given = omega (arith, r.given);
            })
            v.each,
      );
      senders = v.senders;
    }

    pub attach-Sound :
        (sess : Option ℕ) (ip : List ℕ)
        → ((addr : Addr) → to4 ip ≡ some addr → Q addr)
        → Sound Q server (attach sess ip s).0
    unfolding attach
    attach-Sound none ip q = v
    attach-Sound (some sess) ip q =
        option-keeps_when (λ (x : Stack × Option Error). Sound Q server x.0) (to4 ip) _ _ (λ _. v)
          (λ addr e.
            branch-keeps_when (λ (x : Stack × Option Error). Sound Q server x.0)
              (same_addr addr s.server_ip) _ _ (λ _. v)
              (λ away.
                option-keeps_when (λ (x : Stack × Option Error). Sound Q server x.0)
                  (find_route addr s.routes) _ _
                  (λ free. attached-Sound sess addr (q addr e) away free) (λ a _. v)))

    pub detach_attachment-Sound : (p : ℕ) → Sound Q server (detach_attachment p s)
    unfolding detach_attachment
    detach_attachment-Sound p = record {
      at_server = v.at_server;
      apart = remove_pointer-Apart p s.routes v.apart;
      each = remove_pointer-All (IsRoute Q server s.next_pointer) p s.routes v.each;
      senders = v.senders;
    }

    pub detach-Sound : (ip : List ℕ) → Sound Q server (detach ip s).0
    unfolding detach
    detach-Sound ip =
        option-keeps (λ (x : Stack × Bool). Sound Q server x.0) (attached ip s) _ _ v
          (λ a. detach_attachment-Sound a.pointer)

    pub close-Sound : Sound Q server (close s)
    unfolding close
    close-Sound =
        branch-keeps (Sound Q server) s.closed _ _ v
          (record { at_server = v.at_server; apart = tt; each = tt; senders = v.senders })
