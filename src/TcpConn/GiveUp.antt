-- ===== src/TcpConn/GiveUp.antt =====
-- netstack/tcp_timer.go: a connection whose peer no longer answers is given up.
use govpn.Base.{
  if-keeps_when, ℕ, zero, suc, ◌+◌, ◌≤◌, Bool, true, not, ◌&&◌, ◌||◌, ltb, ◌≡◌, refl, sym, ap,
  subst, ◌⊎◌, inl, inr, some, Bool-cases, replicate, arith,
}
use govpn.TcpSegment.{TcpSegment}
use govpn.TcpConn.{TcpConn, closed, conn_reset, max_retransmits}
use govpn.TcpConn.Timer.{is_closed, is_syn_rcvd, syn_ack, reset_conn, retransmit, on_rto_fired}
use govpn.TcpConn.Events.{fires, step, run}

-- The peer owes an answer: to the SYN-ACK, to bytes in flight, or to the FIN.
unfoldable pub awaits_answer : TcpConn → Bool
awaits_answer c =
    not (is_closed c.state)
    && (not c.in_time_wait
        && (is_syn_rcvd c.state || (ltb 0 c.sent_bytes || (c.fin_sent && not c.fin_acked))))

GivenUp : TcpConn → Type 0
GivenUp c = (c.state ≡ closed) × (c.error ≡ some conn_reset)

-- One more retransmission, or none.
Retried : TcpConn → TcpConn → Type 0
unfolding GivenUp
Retried c c₁ =
    GivenUp c₁
    ⊎ ((awaits_answer c₁ ≡ true)
        × (c₁.retransmit_count ≡ suc c.retransmit_count)
        × (c₁.retransmit_count ≤ max_retransmits))

retransmit-Retried :
    (seg : TcpSegment) (c : TcpConn) → awaits_answer c ≡ true → Retried c (retransmit seg c).0
unfolding retransmit reset_conn Retried GivenUp awaits_answer
retransmit-Retried seg c h = elim (Bool-cases (ltb max_retransmits (c.retransmit_count + 1))) [
  | inl last ↦ rw (retransmit, last) (inl (refl, refl))
  | inr more ↦ rw (retransmit, more) (inr (h, omega (arith), ground (arith, more)))
]

on_rto_fired-Retried :
    (mss : ℕ) (c : TcpConn) → awaits_answer c ≡ true → Retried c (on_rto_fired mss c).0
unfolding on_rto_fired awaits_answer
on_rto_fired-Retried mss c h =
    if-keeps_when (Retried c) (is_closed c.state) _ _ (λ no. absurd (ground (arith, h, no)))
      (λ open_.
        if-keeps_when (Retried c) c.in_time_wait _ _ (λ no. absurd (ground (arith, h, no)))
          (λ live.
            if-keeps_when (Retried c) (is_syn_rcvd c.state) _ _
              (λ syn. retransmit-Retried (syn_ack mss c) c h)
              (λ no_syn.
                if-keeps_when (Retried c) (ltb 0 c.sent_bytes) _ _
                  (λ flight. retransmit-Retried _ c h)
                  (λ none_sent.
                    if-keeps_when (Retried c) (c.fin_sent && not c.fin_acked) _ _
                      (λ fin. retransmit-Retried _ c h)
                      (λ no_fin.
                        absurd (ground (arith, h, open_, live, no_syn, none_sent, no_fin)))))))

on_rto_fired_closed : (mss : ℕ) (c : TcpConn) → c.state ≡ closed → (on_rto_fired mss c).0 ≡ c
unfolding on_rto_fired
on_rto_fired_closed mss c e = rw (on_rto_fired, ap is_closed e) refl

fires-GivenUp : (mss k : ℕ) (c : TcpConn) → GivenUp c → GivenUp (run (replicate k (fires mss)) c)
unfolding run step on_rto_fired GivenUp
fires-GivenUp mss zero c g = g
fires-GivenUp mss (suc k) c g =
    fires-GivenUp mss k (step (fires mss) c) (subst GivenUp (sym (on_rto_fired_closed mss c g.0)) g)

-- When the peer owes an answer and the timer expires once more than there are retransmissions left, with
-- no other event in between, the connection is closed, and its error is the reset.
pub gives_up :
    (mss k : ℕ) (c : TcpConn)
    → awaits_answer c ≡ true
    → max_retransmits ≤ c.retransmit_count + k
    → ((run (replicate (suc k) (fires mss)) c).state ≡ closed)
      × ((run (replicate (suc k) (fires mss)) c).error ≡ some conn_reset)
unfolding run step Retried GivenUp
gives_up mss zero c h last = elim (on_rto_fired-Retried mss c h) [
  | inl up ↦ up
  | inr (_, more, few) ↦ absurd (omega (arith))
]
gives_up mss (suc k) c h last = elim (on_rto_fired-Retried mss c h) [
  | inl up ↦ fires-GivenUp mss (suc k) (on_rto_fired mss c).0 up
  | inr (h₁, more, few) ↦ gives_up mss k (on_rto_fired mss c).0 h₁ (omega (arith))
]
