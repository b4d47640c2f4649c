-- ===== src/CtrlConn/Resend.antt =====
-- One tick of the retransmit loop: it ends, since an entry that was sent is not due again at once.
use govpn.Base.{
  ◌+◌, ◌∙◌, leb, ℕ, zero, suc, ◌^◌, ◌≤◌, ◌<◌, ◌≡◌, refl, sym, ap, subst, true, false, if◌then◌else◌,
  List, [], ◌∷◌, length, All, arith, set, option-keeps_when, branch-keeps_when,
}
use govpn.Reliable.{Reliable, Entry, size, is_due, due, get_entry}
use govpn.Reliable.Backoff.{SmallIds, NoneDue, BacksOff, Dues, due-Dues}
use govpn.CtrlConn.{Conn, Env, Sends}
use govpn.CtrlConn.Api.{resend_due, retransmit}

count_due : ℕ → List Entry → ℕ
count_due now [] = 0
count_due now (e ∷ es) = if is_due now e then suc (count_due now es) else count_due now es

count_due-length : (now : ℕ) (es : List Entry) → count_due now es ≤ length es
unfolding count_due
count_due-length now [] = omega arith
count_due-length now (e ∷ es) = ground (arith, count_due-length now es)

none_due : (now : ℕ) (es : List Entry) → count_due now es ≡ 0 → NoneDue now es
unfolding count_due
none_due now [] h = tt
none_due now (e ∷ es) h = (ground arith, none_due now es (ground arith))

count_due-set :
    (now i : ℕ) (e' : Entry) (es : List Entry)
    → i < length es
    → is_due now (get_entry es i) ≡ true
    → is_due now e' ≡ false
    → count_due now es ≡ suc (count_due now (set es i e'))
unfolding count_due
count_due-set now i e' [] inside ready later = absurd (omega (arith, inside))
count_due-set now zero e' (e ∷ es) inside ready later = simp (ready, later) refl
count_due-set now (suc i) e' (e ∷ es) inside ready later =
    let rest = count_due-set now i e' es (omega (arith, inside)) ready later in ground (arith, rest)

-- An active entry that can be sent again later: its timeout is not zero.
abbrev Timed : Entry → Type 0
Timed e = (e.packet_id < 2 ^ 31) × (e.active ≡ true → 1 ≤ e.timeout)

All-get_entry :
    (P : Entry → Type 0) (i : ℕ) (es : List Entry) → i < length es → All P es → P (get_entry es i)
All-get_entry P i [] inside h = absurd (omega (arith, inside))
All-get_entry P zero (e ∷ es) inside h = h.0
All-get_entry P (suc i) (e ∷ es) inside h = All-get_entry P i es (omega (arith, inside)) h.1

All-set_at :
    (P : Entry → Type 0) (i : ℕ) (e' : Entry) (es : List Entry)
    → P e'
    → All P es
    → All P (set es i e')
All-set_at P i e' [] p h = tt
All-set_at P zero e' (e ∷ es) p h = (p, h.1)
All-set_at P (suc i) e' (e ∷ es) p h = (h.0, All-set_at P i e' es p h.1)

Timed-SmallIds : (es : List Entry) → All Timed es → SmallIds es
Timed-SmallIds [] h = tt
Timed-SmallIds (e ∷ es) h = (h.0.0, Timed-SmallIds es h.1)

resent_later :
    (now : ℕ) (e sent : Entry)
    → Timed e
    → is_due now e ≡ true
    → BacksOff now e sent
    → (is_due now sent ≡ false) × Timed sent
unfolding is_due
resent_later now e sent t ready b =
    let used : e.active ≡ true = ground arith in
    let positive = t.1 used in
    let idle : leb (now + e.timeout) now ≡ false = ground arith in
    (b.waits now ∙ idle, (omega (arith, b.same_id, t.0), (λ _. omega (arith, positive, b.doubled))))

abbrev Quiet : ℕ → Sends → Type 0
Quiet now s = NoneDue now s.conn.send_rel.entries

resend_due-Quiet :
    (fuel : ℕ) (env : Env) (c : Conn)
    → All Timed c.send_rel.entries
    → count_due env.now c.send_rel.entries ≤ fuel
    → Quiet env.now (resend_due fuel env c)
unfolding resend_due
resend_due-Quiet zero env c h enough = none_due env.now c.send_rel.entries (omega (arith, enough))
resend_due-Quiet (suc fuel) env c h enough =
    let es : List Entry = c.send_rel.entries in
    let dues = due-Dues env.now c.send_rel (Timed-SmallIds es h) in
    option-keeps_when (Quiet env.now) (due env.now c.send_rel) _ _
      (λ e. subst (Dues env.now c.send_rel) e dues)
      (λ (payload, id, r) e.
        let s = subst (Dues env.now c.send_rel) e dues in
        let sent : Entry = s.sent in
        let later =
          resent_later env.now (get_entry es s.index) sent
            (All-get_entry Timed s.index es s.in_range h) s.is_ready s.backs_off in
        let entries_after : r.entries ≡ set es s.index sent =
          ap (λ (x : Reliable). x.entries) s.after in
        resend_due-Quiet fuel env (record c { send_rel = r })
          (subst (All Timed) (sym entries_after) (All-set_at Timed s.index sent es later.1 h))
          (subst (λ x. count_due env.now x ≤ fuel) (sym entries_after)
            (omega (
              arith,
              enough,
              count_due-set env.now s.index sent es s.in_range s.is_ready later.0,
            ))))

-- While the packet ids are in the first half of the id space and no active entry has a timeout of
-- zero, a tick of a connection that is not closed leaves no entry due.
retransmit-Quiet :
    (env : Env) (c : Conn)
    → c.closed ≡ false
    → All Timed c.send_rel.entries
    → Quiet env.now (retransmit env c)
unfolding retransmit
retransmit-Quiet env c running h =
    branch-keeps_when (Quiet env.now) c.closed _ _ (λ closed. absurd cc)
      (λ _.
        resend_due-Quiet (size c.send_rel) env c h (count_due-length env.now c.send_rel.entries))
