-- ===== src/Udp/Concurrent.antt =====
-- netstack/udp.go: one listener's channel under calls of handlePacket and ReadFrom that interleave.
-- The read loops of several sessions hold `d.mu` for reading while they enqueue, and ReadFrom does not
-- take it, so that each channel operation is a step of its own, in any order of the calls. Close and
-- ListenUDP take the lock for writing, so that no call is between two steps when they run.
use govpn.Base.{zero, suc, ℕ, ◌+◌, List, [], ◌∷◌, ◌++◌, take}
use govpn.Udp.{
  UdpDropPolicy, UdpDatagram, Phase, sending, Action, puts, evicts, gives_up, counts, nothing,
  enqueue_step,
}

-- A call that has found the listener.
pub record Call : Type 0 where
  pub dgram : UdpDatagram
  pub phase : Phase

-- The channel and what was added to `queueFullDropped`. The other fields are the history: the
-- datagrams put on the channel and those that left it, in order, how many of the latter were evicted,
-- and how many datagrams no send took.
pub record Channel : Type 0 where
  pub inbound : List UdpDatagram
  pub dropped : ℕ
  pub accepted : List UdpDatagram
  pub gone : List UdpDatagram
  pub evicted : ℕ
  pub refused : ℕ

abbrev pub empty_channel : Channel
empty_channel = record {
  inbound = [];
  dropped = 0;
  accepted = [];
  gone = [];
  evicted = 0;
  refused = 0;
}

abbrev pub after_action : UdpDatagram → List UdpDatagram → Action → Channel → Channel
after_action dgram queue puts ch = record ch {
  inbound = queue;
  accepted = ch.accepted ++ (dgram ∷ []);
}
after_action dgram queue evicts ch = record ch {
  inbound = queue;
  gone = ch.gone ++ take 1 ch.inbound;
  evicted = ch.evicted + 1;
}
after_action dgram queue gives_up ch = record ch { inbound = queue; refused = ch.refused + 1 }
after_action dgram queue counts ch = record ch { inbound = queue; dropped = ch.dropped + 1 }
after_action dgram queue nothing ch = record ch { inbound = queue }

-- One operation of a call.
unfoldable pub continue_call : UdpDropPolicy → ℕ → Call → Channel → Call × Channel
unfolding enqueue_step
continue_call policy depth c ch =
    let (next, queue, action) = enqueue_step policy depth c.dgram c.phase ch.inbound in
    (record c { phase = next }, after_action c.dgram queue action ch)

-- One operation of the call at this index; there is none behind the last.
unfoldable pub continue_at : UdpDropPolicy → ℕ → ℕ → List Call → Channel → List Call × Channel
unfolding continue_call
continue_at policy depth i [] ch = ([], ch)
continue_at policy depth zero (c ∷ cs) ch =
    let (c₁, ch₁) = continue_call policy depth c ch in (c₁ ∷ cs, ch₁)
continue_at policy depth (suc i) (c ∷ cs) ch =
    let (cs₁, ch₁) = continue_at policy depth i cs ch in (c ∷ cs₁, ch₁)

-- A receive by ReadFrom; on an empty channel it waits.
abbrev pub receive : List UdpDatagram → Channel → Channel
receive [] ch = ch
receive (front ∷ rest) ch = record ch { inbound = rest; gone = ch.gone ++ (front ∷ []) }

pub data Event : Type 0 where
  arrives : UdpDatagram → Event
  continues : ℕ → Event
  reads : Event

unfoldable pub step : UdpDropPolicy → ℕ → Event → List Call × Channel → List Call × Channel
unfolding continue_at
step policy depth (arrives dgram) (cs, ch) = (record { dgram = dgram; phase = sending } ∷ cs, ch)
step policy depth (continues i) (cs, ch) = continue_at policy depth i cs ch
step policy depth reads (cs, ch) = (cs, receive ch.inbound ch)

unfoldable pub run : UdpDropPolicy → ℕ → List Event → List Call × Channel → List Call × Channel
unfolding step
run policy depth [] s = s
run policy depth (e ∷ es) s = run policy depth es (step policy depth e s)

-- How many calls there are, those that came before `n`.
unfoldable pub arrivals : List Event → ℕ → ℕ
arrivals [] n = n
arrivals (arrives dgram ∷ es) n = arrivals es (n + 1)
arrivals (continues i ∷ es) n = arrivals es n
arrivals (reads ∷ es) n = arrivals es n
