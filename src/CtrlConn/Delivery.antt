-- ===== src/CtrlConn/Delivery.antt =====
-- What is read from a control connection is the peer's stream, in the order of their ids, and no
-- payload that is next waits in the window.
use govpn.Base.{
  ℕ, zero, suc, ◌+◌, ◌<◌, ◌≡◌, refl, sym, subst, false, not, ◌==◌, none, some, List, [], ◌∷◌, ◌++◌,
  length, take, drop, append_assoc, arith, branch-keeps, branch-keeps_when, option-keeps,
  option-keeps_when, result-keeps,
}
use govpn.Wire.{ControlPacket, op_ack_v1}
use govpn.TlsCrypt.{Wrapper}
use govpn.Reliable.{
  Reliable, size, PutResult, put_rejected, put_accepted, put_duplicate, get, mark_active,
  set_payload, next, due,
}
use govpn.Reliable.AckSet.{add, peek}
use govpn.CtrlConn.{
  Conn, Env, Outcome, done, waiting, failed, Sends, get_all, get_ready, take_acks, absorb,
  absorb_payload, build_control_packet, flush_ack_only, send_in_slot, write_chunk, max_payload,
  op_control_v1,
}
use govpn.CtrlConn.Api
use govpn.CtrlConn.Api.{read, write_chunks, write, resend_due, retransmit, Event, step, run}
use govpn.CtrlConn.InOrder.{
  Receiving, count_active, count_active-length, Gets, get-Gets, Puts, put-Puts,
}

-- Everything given out and everything buffered, `out ++ buf`, is the peer's stream.
pub record Delivered (f : ℕ → List ℕ) (r : Reliable) (buf out : List ℕ) : Type 0 where
  pub receiving : Receiving f r (out ++ buf)
  pub nothing_ready : get r ≡ none

abbrev pub InOrder : (ℕ → List ℕ) → Conn × List ℕ → Type 0
InOrder f (c, out) = Delivered f c.recv_rel c.read_buf out

pub get_all-InOrder :
    (f : ℕ → List ℕ) (out : List ℕ) (fuel : ℕ) (c : Conn)
    → Receiving f c.recv_rel (out ++ c.read_buf)
    → count_active c.recv_rel.entries < fuel
    → InOrder f (get_all fuel c, out)
unfolding get_all
get_all-InOrder f out zero c v enough = absurd (omega (arith, enough))
get_all-InOrder f out (suc fuel) c v enough =
    option-keeps_when (λ c₁. InOrder f (c₁, out)) (get c.recv_rel) c
      (λ (payload, r). get_all fuel (record c { recv_rel = r; read_buf = c.read_buf ++ payload }))
      (λ e. record { receiving = v; nothing_ready = e })
      (λ (payload, r) e.
        let g : Gets f c.recv_rel (out ++ c.read_buf) (some (payload, r)) =
          subst (Gets f c.recv_rel (out ++ c.read_buf)) e (get-Gets f c.recv_rel _ v) in
        get_all-InOrder f out fuel (record c { recv_rel = r; read_buf = c.read_buf ++ payload })
          (subst (Receiving f r) (append_assoc out c.read_buf payload) g.0)
          (omega (arith, g.1, enough)))

get_ready-InOrder :
    (f : ℕ → List ℕ) (out : List ℕ) (c : Conn)
    → Receiving f c.recv_rel (out ++ c.read_buf)
    → InOrder f (get_ready c, out)
get_ready-InOrder f out c v =
    get_all-InOrder f out (suc (size c.recv_rel)) c v
      (omega (arith, count_active-length c.recv_rel.entries))

-- A packet with a payload has the one that the peer sent under its id.
abbrev pub Honest : (ℕ → List ℕ) → ControlPacket → Type 0
Honest f cp = (cp.opcode == op_ack_v1) ≡ false → cp.payload ≡ f cp.packet_id

absorb_answered :
    (f : ℕ → List ℕ) (out : List ℕ) (id : ℕ) (c : Conn)
    → InOrder f (c, out)
    → (r : Reliable) (answer : PutResult) → Puts f c.recv_rel (out ++ c.read_buf) (r, answer)
    → InOrder f (
      (elim answer as (λ _. Conn) [
        | put_rejected ↦ record c { recv_rel = r }
        | _ ↦ get_ready (record c { recv_rel = r; acks = add id c.acks })
      ]),
      out,
    )
absorb_answered f out id c v r put_rejected p =
    subst (λ r₁. Delivered f r₁ c.read_buf out) (sym (p.1 refl)) v
absorb_answered f out id c v r put_accepted p = get_ready-InOrder f out _ p.0
absorb_answered f out id c v r put_duplicate p = get_ready-InOrder f out _ p.0

pub absorb-InOrder :
    (f : ℕ → List ℕ) (out : List ℕ) (cp : ControlPacket) (c : Conn)
    → Honest f cp
    → InOrder f (c, out)
    → InOrder f (absorb cp c, out)
unfolding absorb absorb_payload
absorb-InOrder f out cp c honest v =
    branch-keeps_when (λ c₁. InOrder f (c₁, out)) (not (cp.opcode == op_ack_v1)) _ _
      (λ e. absorb_answered f out cp.packet_id (take_acks cp c) v _ _ (
        put-Puts f c.recv_rel (out ++ c.read_buf) cp.packet_id cp.payload (honest (ground arith))
          v.receiving))
      (λ _. get_ready-InOrder f out (take_acks cp c) v.receiving)

-- A property of what was received, which sending leaves alone.
module _ (P : Conn → Type 0)
    (kept : (c : Conn) (s : Reliable) (acks : List ℕ) (w : Wrapper)
      → P c
      → P (record c { send_rel = s; acks = acks; wrapper = w })) where
  pub flush_ack_only-keeps : (env : Env) (c : Conn) → P c → P (flush_ack_only env c).conn
  unfolding flush_ack_only build_control_packet
  flush_ack_only-keeps env c p =
      branch-keeps (λ (s : Sends). P s.conn) (peek c.acks) _ _
        (result-keeps (λ (s : Sends). P s.conn) _ _ _ (λ _. kept c c.send_rel _ _ p)
          (λ _. kept c c.send_rel _ _ p))
        p

  pub send_in_slot-keeps :
      (env : Env) (opcode : ℕ) (payload : List ℕ) (idx : ℕ) (c : Conn)
      → P c
      → P (send_in_slot env opcode payload idx c).conn
  unfolding send_in_slot build_control_packet
  send_in_slot-keeps env opcode payload idx c p =
      option-keeps (λ (s : Sends). P s.conn) (mark_active idx c.send_rel) _ _ p
        (λ (id, r).
          result-keeps (λ (s : Sends). P s.conn) _ _ _
            (λ b.
              option-keeps (λ (s : Sends). P s.conn) (set_payload idx b r) _ _ (kept c r _ _ p)
                (λ r₁. kept c r₁ _ _ p))
            (λ _. kept c r _ _ p))

  pub write_chunk-keeps :
      (env : Env) (opcode : ℕ) (payload : List ℕ) (c : Conn)
      → P c
      → P (write_chunk env opcode payload c).conn
  unfolding write_chunk
  write_chunk-keeps env opcode payload c p =
      option-keeps (λ (s : Sends). P s.conn) (next c.send_rel) _ _ p
        (λ idx. send_in_slot-keeps env opcode payload idx c p)

  outcome-keeps :
      (written : ℕ) (first : Sends) (rest : ℕ × Sends) (outcome : Outcome)
      → P first.conn
      → P rest.1.conn
      → P
          (elim outcome as (λ _. ℕ × Sends) [
            | done ↦ Api.sent_before first rest
            | _ ↦ (written, first)
          ]).1.conn
  outcome-keeps written first rest done p q = q
  outcome-keeps written first rest waiting p q = p
  outcome-keeps written first rest (failed e) p q = p

  pub write_chunks-keeps :
      (fuel : ℕ) (env : Env) (p : List ℕ) (written : ℕ) (c : Conn)
      → P c
      → P (write_chunks fuel env p written c).1.conn
  unfolding write_chunks
  write_chunks-keeps zero env p written c h = h
  write_chunks-keeps (suc fuel) env [] written c h = h
  write_chunks-keeps (suc fuel) env (b ∷ p) written c h =
      let chunk : List ℕ = take max_payload (b ∷ p) in
      let first : Sends = write_chunk env op_control_v1 chunk c in
      let first_keeps : P first.conn = write_chunk-keeps env op_control_v1 chunk c h in
      outcome-keeps written first _ first.outcome first_keeps (
        write_chunks-keeps fuel env (drop (length chunk) (b ∷ p)) (written + length chunk)
          first.conn first_keeps)

  pub resend_due-keeps : (fuel : ℕ) (env : Env) (c : Conn) → P c → P (resend_due fuel env c).conn
  unfolding resend_due
  resend_due-keeps zero env c h = h
  resend_due-keeps (suc fuel) env c h =
      option-keeps (λ (s : Sends). P s.conn) (due env.now c.send_rel) _ _ h
        (λ (payload, id, r).
          resend_due-keeps fuel env (record c { send_rel = r }) (kept c r c.acks c.wrapper h))
