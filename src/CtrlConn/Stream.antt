-- ===== src/CtrlConn/Stream.antt =====
-- The whole life of a control connection: what its reads give, whatever else happens to it.
use govpn.Base.{
  ℕ, zero, suc, replicate, ◌%◌, ◌^◌, ◌≡◌, refl, sym, ap, ◌∙◌, subst, ltb, none, Option, Result,
  List, [], ◌∷◌, ◌++◌, length, take, drop, take-append-drop, append_assoc, append-nil, All,
  branch-keeps,
}
use govpn.TlsCrypt.{Wrapper}
use govpn.CtrlConn.{
  Error, Conn, Env, Sends, new_with_key_id, n_rec_buffers, deliver, deliver_and_respond, absorb,
  expired,
}
use govpn.CtrlConn.Api.{Event, read, bytes_read, write, retransmit, step, run}
use govpn.CtrlConn.InOrder.{payloads, Receiving, Carries}
use govpn.CtrlConn.Delivery.{
  InOrder, Honest, absorb-InOrder, flush_ack_only-keeps, write_chunk-keeps, write_chunks-keeps,
  resend_due-keeps,
}
use govpn.Reliable.{size, get, take_out, zero_entry}

abbrev pub HonestEvent : (ℕ → List ℕ) → Env × Event → Type 0
HonestEvent f (env, Event.delivered cp) = Honest f cp
HonestEvent f (env, Event.answered cp opcode payload) = Honest f cp
HonestEvent f (env, _) = Unit {0}

read-InOrder :
    (f : ℕ → List ℕ) (env : Env) (n : ℕ) (c : Conn) (out : List ℕ)
    → InOrder f (c, out)
    → InOrder f ((read env n c).0, out ++ bytes_read (read env n c).1)
unfolding read
read-InOrder f env n c out v =
    let same : InOrder f (c, out ++ []) = subst (λ o. InOrder f (c, o)) (sym (append-nil out)) v in
    let Reads : Conn × Option (Result Error (List ℕ)) → Type 0 =
      λ s. InOrder f (s.0, out ++ bytes_read s.1) in
    branch-keeps Reads (ltb 0 (length c.read_buf)) _ _
      (record {
        receiving =
            subst (Receiving f c.recv_rel)
              (ap (λ buf. out ++ buf) (sym (take-append-drop n c.read_buf))
                ∙ sym (append_assoc out (take n c.read_buf) (drop n c.read_buf)))
              v.receiving;
        nothing_ready = v.nothing_ready;
      })
      (branch-keeps Reads c.closed _ _ same
        (branch-keeps Reads (expired c.read_deadline env.now) _ _ same same))

step-InOrder :
    (f : ℕ → List ℕ) (env : Env) (e : Event) (c : Conn) (out : List ℕ)
    → HonestEvent f (env, e)
    → InOrder f (c, out)
    → InOrder f (step env e (c, out))
unfolding step deliver deliver_and_respond write retransmit
step-InOrder f env (Event.delivered cp) c out h v =
    flush_ack_only-keeps (λ c₁. InOrder f (c₁, out)) (λ _ _ _ _ p. p) env (absorb cp c)
      (absorb-InOrder f out cp c h v)
step-InOrder f env (Event.answered cp opcode payload) c out h v =
    write_chunk-keeps (λ c₁. InOrder f (c₁, out)) (λ _ _ _ _ p. p) env opcode payload (absorb cp c)
      (absorb-InOrder f out cp c h v)
step-InOrder f env (Event.reset opcode) c out h v =
    write_chunk-keeps (λ c₁. InOrder f (c₁, out)) (λ _ _ _ _ p. p) env opcode [] c v
step-InOrder f env (Event.wrote p) c out h v =
    write_chunks-keeps (λ c₁. InOrder f (c₁, out)) (λ _ _ _ _ q. q) (length p) env p 0 c v
step-InOrder f env (Event.reads n) c out h v = read-InOrder f env n c out v
step-InOrder f env Event.ticked c out h v =
    branch-keeps (λ (s : Sends). InOrder f (s.conn, out)) c.closed _ _ v
      (resend_due-keeps (λ c₁. InOrder f (c₁, out)) (λ _ _ _ _ p. p) (size c.send_rel) env c v)
step-InOrder f env Event.closed c out h v = v
step-InOrder f env (Event.read_deadline t) c out h v = v
step-InOrder f env (Event.write_deadline t) c out h v = v
step-InOrder f env (Event.deadline t) c out h v = v

run_from :
    (f : ℕ → List ℕ) (es : List (Env × Event)) (s : Conn × List ℕ)
    → All (HonestEvent f) es
    → InOrder f s
    → InOrder f (run es s)
unfolding run
run_from f [] s h v = v
run_from f ((env, e) ∷ es) s h v =
    run_from f es (step env e s) h.1 (step-InOrder f env e s.0 s.1 h.0 v)

free-Carries : (f : ℕ → List ℕ) (n : ℕ) → Carries f (replicate n zero_entry)
free-Carries f zero = tt
free-Carries f (suc n) = ((λ wrong. absurd cc), free-Carries f n)

new-InOrder :
    (f : ℕ → List ℕ) (local_sid remote_sid : List ℕ) (w : Wrapper) (key_id : ℕ)
    → InOrder f (new_with_key_id local_sid remote_sid w key_id, [])
new-InOrder f local_sid remote_sid w key_id = record {
  receiving = record {
    count = 0;
    at_next = refl;
    carries = free-Carries f n_rec_buffers;
    in_order = unfold payloads in refl;
  };
  nothing_ready = unfold get take_out in refl;
}

-- A connection is new, and any sequence of calls and ticks happens to it. Each control packet that
-- is delivered and is not an acknowledgment has the payload `f id` for its packet id `id`; packets
-- may be lost, repeated and reordered. Then for some count `n` the bytes that the reads gave,
-- followed by the bytes that wait to be read, are the payloads of the first `n` packets in their
-- order, the receive window is at packet `n` modulo 2 ^ 32, and it does not hold that packet.
pub run-InOrder :
    (f : ℕ → List ℕ) (local_sid remote_sid : List ℕ) (w : Wrapper) (key_id : ℕ)
    (es : List (Env × Event))
    → All (HonestEvent f) es
    → let (c, out) = run es (new_with_key_id local_sid remote_sid w key_id, []) in
      (n : ℕ) × (out ++ c.read_buf ≡ payloads f n)
      × (c.recv_rel.packet_id ≡ n % 2 ^ 32)
      × (get c.recv_rel ≡ none)
run-InOrder f local_sid remote_sid w key_id es h =
    let v = run_from f es _ h (new-InOrder f local_sid remote_sid w key_id) in
    (v.receiving.count, v.receiving.in_order, v.receiving.at_next, v.nothing_ready)
