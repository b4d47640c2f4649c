-- ===== src/Udp/Runs.antt =====
-- The UDP demultiplexer on concrete datagrams.
use govpn.Base.{◌≤◌, ℕ, ◌≡◌, refl, none, some, List, [], ◌∷◌, ok, err}
use govpn.Base.Ints.{pos, negsuc}
use govpn.Frame.{Addr}
use govpn.Udp.{
  sending, evicting, resending, UdpDemux, UdpDatagram, drop_newest, drop_oldest, new_demux,
  parse_udp, Error, enqueue, enqueue_step, enqueue_steps, queue_datagram, send, find_port,
  find_conn,
}
use govpn.Udp.Listeners.{
  listen_udp, listen_udp_options, check_options, add_conn, read_from, close_conn,
}
use govpn.Udp.Queue.{enqueue_all}
use govpn.Udp.Concurrent.{
  Event, arrives, continues, run, step, arrivals, empty_channel, continue_at, continue_call,
}
use govpn.Udp.Balanced.{Accounts}
use govpn.Udp.Accounts.{Puts, left, run-Accounts}

abbrev peer : Addr
peer = record { b₀ = 10; b₁ = 8; b₂ = 0; b₃ = 2 }

abbrev server : Addr
server = record { b₀ = 10; b₁ = 8; b₂ = 0; b₃ = 1 }

abbrev dgram : ℕ → UdpDatagram
dgram n = record { ip = peer; port = 1000; payload = n ∷ [] }

abbrev burst : List UdpDatagram
burst = dgram 1 ∷ dgram 2 ∷ dgram 3 ∷ []

freshest : enqueue_all drop_oldest 2 burst (dgram 0 ∷ []) ≡ (dgram 2 ∷ dgram 3 ∷ [], 2)
unfolding enqueue_all enqueue enqueue_steps enqueue_step send
freshest = refl

oldest : enqueue_all drop_newest 2 burst (dgram 0 ∷ []) ≡ (dgram 0 ∷ dgram 1 ∷ [], 2)
unfolding enqueue_all enqueue enqueue_steps enqueue_step send
oldest = refl

-- A queue of one datagram, under the policy of dropping the oldest. The call of the second one evicts the
-- first; the third one is put on the channel before the second is sent again.
abbrev race : List Event
race =
    arrives (dgram 1)
    ∷ continues 0
    ∷ arrives (dgram 2)
    ∷ arrives (dgram 3)
    ∷ continues 1
    ∷ continues 1
    ∷ continues 0
    ∷ continues 1
    ∷ continues 1
    ∷ []

-- Two datagrams are lost, and one is counted.
race_lost :
    let ch = (run drop_oldest 1 race ([], empty_channel)).1 in
    (ch.inbound ≡ dgram 3 ∷ []) × (ch.evicted ≡ 1) × (ch.refused ≡ 1) × (ch.dropped ≡ 1)
unfolding run step continue_at continue_call enqueue_step send
race_lost = (refl, refl, refl, refl)

run-Accounts_example :
    let s = run drop_oldest 1 race ([], empty_channel) in
    Accounts drop_oldest 1 (arrivals race 0) s
    × Puts drop_oldest 1 (dgram 4) s.1 sending
    × Puts drop_oldest 1 (dgram 4) s.1 resending
    × (left (continue_call drop_oldest 1 (record { dgram = dgram 4; phase = evicting }) s.1).0.phase
        ≤ 2)
run-Accounts_example =
    run-Accounts drop_oldest 1 race (dgram 4) (record { dgram = dgram 4; phase = evicting })

-- A listener on port 53, and a second one.
abbrev listening : UdpDemux
listening = (listen_udp 53 new_demux).0

port_taken : (listen_udp 53 listening).1 ≡ err Error.port_in_use
unfolding listen_udp_options check_options add_conn find_port
port_taken = refl

negative_depth :
    (listen_udp_options 54
      (record { queue_depth = negsuc 0; drop_policy = some drop_oldest })
      listening).1
    ≡ err Error.invalid_queue_depth
unfolding listen_udp_options check_options
negative_depth = refl

undeclared_policy :
    (listen_udp_options 54 (record { queue_depth = pos 8; drop_policy = none }) listening).1
    ≡ err Error.invalid_drop_policy
unfolding listen_udp_options check_options
undeclared_policy = refl

-- A length field that says more than there is.
bad_length : parse_udp (0 ∷ 7 ∷ 0 ∷ 53 ∷ 0 ∷ 10 ∷ 0 ∷ 0 ∷ 1 ∷ []) ≡ err Error.bad_length
unfolding parse_udp
bad_length = refl

arrived :
    (read_from 5 0 9 (queue_datagram (dgram 4) 53 listening)).1 ≡ some (ok (4 ∷ [], peer, 1000))
unfolding read_from queue_datagram listen_udp_options check_options add_conn send find_port
    find_conn enqueue_step
arrived = refl

closed_for_good : (read_from 5 0 9 (close_conn 0 listening)).1 ≡ some (err Error.closed)
unfolding read_from close_conn listen_udp_options check_options add_conn find_port find_conn
closed_for_good = refl
