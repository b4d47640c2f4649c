-- ===== src/Stack/Sources.antt =====
-- What the stack hands up, and its table of routes, after any sequence of calls and packets.
use govpn.Base.{ℕ, ◌≡◌, refl, false, List, [], ◌∷◌, All, All-append}
use govpn.Frame.{Addr}
use govpn.Reassembly.{same_addr}
use govpn.Stack.{Stack, Attachment, ReassemblyLimits, new_stack}
use govpn.Stack.Output.{Accepts}
use govpn.Stack.Effects.{HandlerFrom}
use govpn.Stack.Routes.{Apart, IsRoute}
use govpn.Stack.Life.{Sound, EffectOk, SoundStep}
use govpn.Stack.Events.{Event, step, run}
use govpn.Stack.Safety.{Allowed, step-Sound}

abbrev pub AllAllowed : (Addr → Type 0) → List (Accepts × ℕ × Event) → Type 0
AllAllowed Q [] = Unit {0}
AllAllowed Q ((accepts, now, e) ∷ events) = Allowed Q e × AllAllowed Q events

run-Sound :
    (Q : Addr → Type 0) (server : Addr) (events : List (Accepts × ℕ × Event)) (s : Stack)
    → AllAllowed Q events
    → Sound Q server s
    → SoundStep Q server (run events s)
unfolding run
run-Sound Q server [] s q v = (v, tt)
run-Sound Q server ((accepts, now, e) ∷ events) s q v =
    let first = step-Sound Q server accepts now e s q.0 v in
    let later = run-Sound Q server events (step accepts now e s).0 q.1 first.0 in
    (later.0, All-append (EffectOk Q server) (step accepts now e s).1 _ first.1 later.1)

new_stack-Sound :
    (Q : Addr → Type 0) (server : Addr) (mtu : ℕ) (limits : ReassemblyLimits)
    → Sound Q server (new_stack server mtu limits)
new_stack-Sound Q server mtu limits = record {
  at_server = refl;
  apart = tt;
  each = tt;
  senders = tt;
}

-- From a new stack, over any sequence of calls and of packets from its sessions, well formed or not,
-- fragments included: if `Q` holds of each address that a session is attached at, it holds of the
-- sender of each datagram that a UDP listener holds and of the source of each segment that the TCP
-- handler is given, and these segments are for the server's address.
pub run-sources :
    (Q : Addr → Type 0) (server : Addr) (mtu : ℕ) (limits : ReassemblyLimits)
    (events : List (Accepts × ℕ × Event))
    → AllAllowed Q events
    → let (s, effects) = run events (new_stack server mtu limits) in
      HandlerFrom Q s.udp_handler × All (EffectOk Q server) effects
run-sources Q server mtu limits events q =
    let (v, effects) =
      run-Sound Q server events (new_stack server mtu limits) q
        (new_stack-Sound Q server mtu limits) in
    (v.senders, effects)

unrestricted : (e : Event) → Allowed (λ _. Unit {0}) e
unrestricted (Event.attaches sess ip) = λ addr e. tt
unrestricted _ = tt

anything_allowed : (events : List (Accepts × ℕ × Event)) → AllAllowed (λ _. Unit {0}) events
anything_allowed [] = tt
anything_allowed ((accepts, now, e) ∷ events) = (unrestricted e, anything_allowed events)

-- No attachment is at the server's address.
abbrev pub NotServer : Addr → List Attachment → Type 0
NotServer server as' = All (λ a. same_addr a.ip server ≡ false) as'

routes-NotServer :
    (Q : Addr → Type 0) (server : Addr) (next : ℕ) (as' : List Attachment)
    → All (IsRoute Q server next) as'
    → NotServer server as'
routes-NotServer Q server next [] h = tt
routes-NotServer Q server next (a ∷ as') h =
    (h.0.not_server, routes-NotServer Q server next as' h.1)

-- From a new stack, over any sequence of calls and packets: the attachments in the table of routes have
-- addresses that differ from each other and from the server's, so that each packet has one session to
-- go to, and pointers that differ, a later one above the earlier.
pub run-Apart :
    (server : Addr) (mtu : ℕ) (limits : ReassemblyLimits) (events : List (Accepts × ℕ × Event))
    → Apart (run events (new_stack server mtu limits)).0.routes
      × NotServer server (run events (new_stack server mtu limits)).0.routes
run-Apart server mtu limits events =
    let (v, effects) =
      run-Sound (λ _. Unit {0}) server events (new_stack server mtu limits)
        (anything_allowed events) (new_stack-Sound (λ _. Unit {0}) server mtu limits) in
    (v.apart, routes-NotServer (λ _. Unit {0}) server _ _ v.each)
