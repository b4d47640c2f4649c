-- ===== src/Udp/Found.antt =====
-- A datagram for a port on which a listener has room in its queue.
use govpn.Base.{
  ℕ, ◌+◌, ◌<◌, ◌≡◌, refl, ◌∙◌, ap, ◌==◌, if◌then◌else◌, if_true, if_not, Bool, true, false,
  Bool-cases, inl, inr, some, some_inj, List, [], ◌∷◌, ◌++◌, length, arith,
}
use govpn.Udp.{UdpConn, UdpDatagram, UdpDemux, find_port, update_conn, queue_datagram}
use govpn.Udp.Queue.{enqueue_sent}

-- The listener with the datagram behind what it holds.
abbrev pub with_datagram : UdpDatagram → UdpConn → UdpConn
with_datagram dgram c = record c { inbound = c.inbound ++ (dgram ∷ []) }

same_port :
    (here : Bool) (queue : List UdpDatagram) (x : UdpConn)
    → (if here then record x { inbound = queue } else x).port ≡ x.port
same_port true queue x = refl
same_port false queue x = refl

find_port-update_conn :
    (port : ℕ) (c : UdpConn) (queue : List UdpDatagram) (cs : List UdpConn)
    → find_port port cs ≡ some c
    → find_port port (update_conn c.id (λ x. record x { inbound = queue }) cs)
      ≡ some (record c { inbound = queue })
unfolding find_port update_conn
find_port-update_conn port c queue [] e = absurd cc
find_port-update_conn port c queue (x ∷ cs) e =
    let y : UdpConn = if x.id == c.id then record x { inbound = queue } else x in
    let port_of : (y.port == port) ≡ (x.port == port) =
      ap (λ (q : ℕ). q == port) (same_port (x.id == c.id) queue x) in
    elim (Bool-cases (x.port == port)) [
      | inl here ↦
          let is_c : x ≡ c = some_inj (rw here at e) in
          let same_id : (x.id == c.id) ≡ true = ground (arith, ap (λ (z : UdpConn). z.id) is_c) in
          if_true (y.port == port) _ _ (port_of ∙ here)
          ∙ ap some (
              if_true (x.id == c.id) _ _ same_id
              ∙ ap (λ (z : UdpConn). record z { inbound = queue }) is_c)
      | inr there ↦
          if_not (y.port == port) _ _ (port_of ∙ there)
          ∙ find_port-update_conn port c queue cs (rw there at e)
    ]

-- It is put behind what the listener holds, and none is counted as lost.
pub queue_datagram-found :
    (dgram : UdpDatagram) (port : ℕ) (d : UdpDemux) (c : UdpConn)
    → find_port port d.ports ≡ some c
    → length c.inbound < c.depth
    → (find_port port (queue_datagram dgram port d).ports ≡ some (with_datagram dgram c))
      × ((queue_datagram dgram port d).queue_full_dropped ≡ d.queue_full_dropped)
unfolding queue_datagram
queue_datagram-found dgram port d c e room =
    let sent = enqueue_sent c.policy c.depth dgram c.inbound room in
    let after : queue_datagram dgram port d ≡ record d {
      ports = update_conn c.id (λ x. record x { inbound = c.inbound ++ (dgram ∷ []) }) d.ports;
      queue_full_dropped = d.queue_full_dropped + 0;
    } =
      rw (queue_datagram, e) refl
      ∙ ap
          (λ (x : List UdpDatagram × ℕ). record d {
            ports = update_conn c.id (λ y. record y { inbound = x.0 }) d.ports;
            queue_full_dropped = d.queue_full_dropped + x.1;
          })
          sent in
    (
      ap (λ (x : UdpDemux). find_port port x.ports) after
          ∙ find_port-update_conn port c (c.inbound ++ (dgram ∷ [])) d.ports e,
      ap (λ (x : UdpDemux). x.queue_full_dropped) after ∙ omega arith,
    )
