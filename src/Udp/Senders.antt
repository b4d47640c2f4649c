-- ===== src/Udp/Senders.antt =====
-- Who sent what the listeners hold.
use govpn.Base.{
  zero, suc, arith, some_inj, ℕ, ◌≡◌, subst, ltb, ◌==◌, some, List, [], ◌∷◌, ◌++◌, length, All,
  All-append, branch-keeps, option-keeps, option-keeps_when, Result, Bool-cases, inl, inr,
}
use govpn.Frame.{Addr}
use govpn.Udp.{
  UdpDemux, UdpConn, UdpDatagram, UdpDropPolicy, drop_newest, drop_oldest, send, enqueue, Phase,
  sending, evicting, resending, counting, finished, Action, when_full, enqueue_step, enqueue_steps,
  find_port, find_conn, update_conn, remove_conn, queue_datagram, UdpDropPolicy, Error,
}
use govpn.Udp.Listeners.{close_conn, read_queue, read_from, ReadResult, passed, add_conn}

-- A property of the senders of all that the listeners hold.
module _ (Q : Addr → Type 0) where
  abbrev pub FromAll : List UdpDatagram → Type 0
  FromAll dgrams = All (λ dgram. Q dgram.ip) dgrams

  abbrev pub QueuedFrom : UdpDemux → Type 0
  QueuedFrom d = All (λ c. FromAll c.inbound) d.ports

  send-FromAll :
      (depth : ℕ) (dgram : UdpDatagram) (inbound queue : List UdpDatagram)
      → Q dgram.ip
      → FromAll inbound
      → send depth dgram inbound ≡ some queue
      → FromAll queue
  unfolding send
  send-FromAll depth dgram inbound queue q h e = elim (Bool-cases (ltb (length inbound) depth)) [
    | inl room ↦
        let same : inbound ++ (dgram ∷ []) ≡ queue = some_inj (rw room at e) in
        subst FromAll same (All-append (λ (x : UdpDatagram). Q x.ip) inbound (dgram ∷ []) h (q, tt))
    | inr full ↦ absurd (ground (arith, full, e))
  ]

  when_full-FromAll :
      (policy : UdpDropPolicy) (inbound : List UdpDatagram)
      → FromAll inbound
      → FromAll (when_full policy inbound).1
  when_full-FromAll drop_newest inbound h = h
  when_full-FromAll drop_oldest inbound h = h

  enqueue_step-FromAll :
      (policy : UdpDropPolicy) (depth : ℕ) (dgram : UdpDatagram) (phase : Phase)
      (inbound : List UdpDatagram)
      → Q dgram.ip
      → FromAll inbound
      → FromAll (enqueue_step policy depth dgram phase inbound).1
  unfolding enqueue_step
  enqueue_step-FromAll policy depth dgram sending inbound q h =
      option-keeps_when (λ (x : Phase × List UdpDatagram × Action). FromAll x.1)
        (send depth dgram inbound) _ _ (λ _. when_full-FromAll policy inbound h)
        (λ queue e. send-FromAll depth dgram inbound queue q h e)
  enqueue_step-FromAll policy depth dgram evicting [] q h = h
  enqueue_step-FromAll policy depth dgram evicting (oldest ∷ rest) q h = h.1
  enqueue_step-FromAll policy depth dgram resending inbound q h =
      option-keeps_when (λ (x : Phase × List UdpDatagram × Action). FromAll x.1)
        (send depth dgram inbound) _ _ (λ _. h)
        (λ queue e. send-FromAll depth dgram inbound queue q h e)
  enqueue_step-FromAll policy depth dgram counting inbound q h = h
  enqueue_step-FromAll policy depth dgram finished inbound q h = h

  enqueue_steps-FromAll :
      (n : ℕ) (policy : UdpDropPolicy) (depth : ℕ) (dgram : UdpDatagram) (phase : Phase)
      (inbound : List UdpDatagram)
      → Q dgram.ip
      → FromAll inbound
      → FromAll (enqueue_steps n policy depth dgram phase inbound).0
  unfolding enqueue_steps
  enqueue_steps-FromAll zero policy depth dgram phase inbound q h = h
  enqueue_steps-FromAll (suc n) policy depth dgram phase inbound q h =
      enqueue_steps-FromAll n policy depth dgram _ _ q
        (enqueue_step-FromAll policy depth dgram phase inbound q h)

  enqueue-FromAll :
      (policy : UdpDropPolicy) (depth : ℕ) (dgram : UdpDatagram) (inbound : List UdpDatagram)
      → Q dgram.ip
      → FromAll inbound
      → FromAll (enqueue policy depth dgram inbound).0
  unfolding enqueue
  enqueue-FromAll policy depth dgram inbound =
      enqueue_steps-FromAll 4 policy depth dgram sending inbound

  pub update_conn-QueuedFrom :
      (id : ℕ) (f : UdpConn → UdpConn) (cs : List UdpConn)
      → ((c : UdpConn) → FromAll c.inbound → FromAll (f c).inbound)
      → All (λ (c : UdpConn). FromAll c.inbound) cs
      → All (λ (c : UdpConn). FromAll c.inbound) (update_conn id f cs)
  unfolding update_conn
  update_conn-QueuedFrom id f [] keep h = tt
  update_conn-QueuedFrom id f (c ∷ cs) keep h = (
    branch-keeps (λ (x : UdpConn). FromAll x.inbound) (c.id == id) (f c) c (keep c h.0) h.0,
    update_conn-QueuedFrom id f cs keep h.1,
  )

  find_port-FromAll :
      (port : ℕ) (cs : List UdpConn) (c : UdpConn)
      → All (λ (c : UdpConn). FromAll c.inbound) cs
      → find_port port cs ≡ some c
      → FromAll c.inbound
  unfolding find_port
  find_port-FromAll port [] c h e = absurd cc
  find_port-FromAll port (x ∷ cs) c h e = elim (Bool-cases (x.port == port)) [
    | inl same ↦
        let is_c : x ≡ c = some_inj (rw same at e) in
        subst (λ (y : UdpConn). FromAll y.inbound) is_c h.0
    | inr other ↦ find_port-FromAll port cs c h.1 (rw other at e)
  ]

  pub queue_datagram-QueuedFrom :
      (dgram : UdpDatagram) (port : ℕ) (d : UdpDemux)
      → Q dgram.ip
      → QueuedFrom d
      → QueuedFrom (queue_datagram dgram port d)
  unfolding queue_datagram
  queue_datagram-QueuedFrom dgram port d q h =
      option-keeps_when QueuedFrom (find_port port d.ports) _ _ (λ _. h)
        (λ c e.
          update_conn-QueuedFrom c.id
            (λ x. record x { inbound = (enqueue c.policy c.depth dgram c.inbound).0 }) d.ports
            (λ x _.
              enqueue-FromAll c.policy c.depth dgram c.inbound q
                (find_port-FromAll port d.ports c h e))
            h)

  find_conn-FromAll :
      (id : ℕ) (cs : List UdpConn) (c : UdpConn)
      → All (λ (c : UdpConn). FromAll c.inbound) cs
      → find_conn id cs ≡ some c
      → FromAll c.inbound
  unfolding find_conn
  find_conn-FromAll id [] c h e = absurd cc
  find_conn-FromAll id (x ∷ cs) c h e = elim (Bool-cases (x.id == id)) [
    | inl same ↦
        let is_c : x ≡ c = some_inj (rw same at e) in
        subst (λ (y : UdpConn). FromAll y.inbound) is_c h.0
    | inr other ↦ find_conn-FromAll id cs c h.1 (rw other at e)
  ]

  remove_conn-All :
      (id : ℕ) (cs : List UdpConn)
      → All (λ (c : UdpConn). FromAll c.inbound) cs
      → All (λ (c : UdpConn). FromAll c.inbound) (remove_conn id cs)
  unfolding remove_conn
  remove_conn-All id [] h = tt
  remove_conn-All id (c ∷ cs) h =
      branch-keeps (All (λ (c : UdpConn). FromAll c.inbound)) (c.id == id) _ _ h.1
        (h.0, remove_conn-All id cs h.1)

  pub close_conn-QueuedFrom : (id : ℕ) (d : UdpDemux) → QueuedFrom d → QueuedFrom (close_conn id d)
  unfolding close_conn
  close_conn-QueuedFrom id d h = remove_conn-All id d.ports h

  read_queue-QueuedFrom :
      (id size : ℕ) (d : UdpDemux) (inbound : List UdpDatagram)
      → QueuedFrom d
      → FromAll inbound
      → QueuedFrom (read_queue id size d inbound).0
  unfolding read_queue
  read_queue-QueuedFrom id size d [] h q = h
  read_queue-QueuedFrom id size d (dgram ∷ rest) h q =
      update_conn-QueuedFrom id (λ x. record x { inbound = rest }) d.ports (λ c _. q.1) h

  pub read_from-QueuedFrom :
      (now id size : ℕ) (d : UdpDemux) → QueuedFrom d → QueuedFrom (read_from now id size d).0
  unfolding read_from
  read_from-QueuedFrom now id size d h =
      option-keeps_when (λ (x : UdpDemux × ReadResult). QueuedFrom x.0) (find_conn id d.ports) _ _
        (λ _. h)
        (λ c e.
          branch-keeps (λ (x : UdpDemux × ReadResult). QueuedFrom x.0) (passed c.read_deadline now)
            _ _ h
            (read_queue-QueuedFrom id size d c.inbound h (find_conn-FromAll id d.ports c h e)))

  pub add_conn-QueuedFrom :
      (port depth : ℕ) (policy : UdpDropPolicy) (d : UdpDemux)
      → QueuedFrom d
      → QueuedFrom (add_conn port depth policy d).0
  unfolding add_conn
  add_conn-QueuedFrom port depth policy d h =
      option-keeps (λ (x : UdpDemux × Result Error ℕ). QueuedFrom x.0) (find_port port d.ports) _ _
        (tt, h) (λ c. h)
