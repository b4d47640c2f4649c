-- ===== src/Stack/Events.antt =====
-- netstack/stack.go and netstack/udp.go: any sequence of calls of a stack and of rounds of its read
-- loops.
use govpn.Base.{ℕ, Option, none, some, List, [], ◌∷◌, ◌++◌}
use govpn.Udp.{UdpDemux, UdpOptions}
use govpn.Udp.Listeners.{read_from, close_conn, set_read_deadline, set_write_deadline, set_deadline}
use govpn.Stack.{Stack, close}
use govpn.Stack.Attachments.{attach, detach}
use govpn.Stack.Packets.{Read, read_loop}
use govpn.Stack.Output.{Effect, Accepts}
use govpn.Stack.Sockets.{UdpTarget, listen, write_to, register_tcp_handler}

-- The calls name a listener by its id, and a read loop its attachment by the pointer.
pub data Event : Type 0 where
  attaches : Option ℕ → List ℕ → Event
  detaches : List ℕ → Event
  reads : ℕ → Read → Event
  listens : ℕ → UdpOptions → Event
  receives : ℕ → ℕ → Event
  writes : ℕ → List ℕ → UdpTarget → Event
  closes_conn : ℕ → Event
  sets_read_deadline : ℕ → ℕ → Event
  sets_write_deadline : ℕ → ℕ → Event
  sets_deadline : ℕ → ℕ → Event
  registers_tcp : Event
  closes : Event

-- On a stack without listeners every listener's call finds its listener closed.
abbrev pub on_demux : (UdpDemux → UdpDemux) → Option UdpDemux → Option UdpDemux
on_demux f none = none
on_demux f (some d) = some (f d)

abbrev pub on_listeners : (UdpDemux → UdpDemux) → Stack → Stack
on_listeners f s = record s { udp_handler = on_demux f s.udp_handler }

unfoldable pub step : Accepts → ℕ → Event → Stack → Stack × List Effect
unfolding attach detach read_loop listen read_from write_to close_conn register_tcp_handler close
step accepts now (attaches sess ip) s = ((attach sess ip s).0, [])
step accepts now (detaches ip) s = ((detach ip s).0, [])
step accepts now (reads p answer) s = read_loop accepts now p answer s
step accepts now (listens port opts) s = ((listen port opts s).0, [])
step accepts now (receives id size) s = (on_listeners (λ d. (read_from now id size d).0) s, [])
step accepts now (writes id p target) s =
    let (s₁, effects, answer) = write_to accepts now id p target s in (s₁, effects)
step accepts now (closes_conn id) s = (on_listeners (close_conn id) s, [])
step accepts now (sets_read_deadline id t) s = (on_listeners (set_read_deadline id t) s, [])
step accepts now (sets_write_deadline id t) s = (on_listeners (set_write_deadline id t) s, [])
step accepts now (sets_deadline id t) s = (on_listeners (set_deadline id t) s, [])
step accepts now registers_tcp s = ((register_tcp_handler s).0, [])
step accepts now closes s = (close s, [])

-- Each event comes with the answers of the sessions and the clock of its time.
unfoldable pub run : List (Accepts × ℕ × Event) → Stack → Stack × List Effect
unfolding step
run [] s = (s, [])
run ((accepts, now, e) ∷ events) s =
    let (s₁, effects) = step accepts now e s in
    let (s₂, later) = run events s₁ in (s₂, effects ++ later)
