-- ===== src/Session/KeyIds.antt =====
-- Over a session's life the key ids of its live control connections differ.
use govpn.Base.{
  ◌++◌, ℕ, zero, suc, if-keeps, branch-keeps, result-keeps, guard-keeps, if-keeps_when, ◌+◌, ◌-◌,
  ◌<◌, true, not, ◌&&◌, ◌||◌, ltb, ◌==◌, if◌then◌else◌, Option, none, some, ◌≡◌, refl, sym, subst,
  List, [], ◌∷◌, Result, arith,
}
use govpn.DataChannel.{Wrapper, Aead, DataKeys, Error, new_wrapper}
use govpn.Session.{
  Config, Session, CloseReason, close_with_reason, answer_soft_reset, auth_failed, idle_reap,
  client_exit_notify, Effect, ended, teardown, close_all, send_soft_reset,
}
use govpn.Session.Keys.{
  Refusal, closing, primary_not_established, already_in_flight, rate_limited, key_id_mismatch,
  is_some, is_conn, is_wanted, next_key_id, pump, sweep_lame_duck, await, asked,
  start_renegotiation, begin_renegotiation, check_reneg, reneg_tick, abandon, swap,
  finish_renegotiation, refuse_renegotiation, expire_renegotiation, reap_tick,
}
use govpn.Session.Quiet.{
  Core, core, handle_data_packet-keeps, core-pump, core-read, core-write, core-emit_ping,
}
use govpn.Session.Data.{read, write, emit_ping}
use govpn.Session.Events.{
  Event, data_arrives, control_arrives, reads, writes, pings, reneg_ticks, peer_asks, completes,
  fails, refuses, expires, reap_ticks, closes, step, run,
}

-- Each key id is the successor of the one before: the old key's, the one in use, the one awaited.
pub record AreConsecutive (c : Core) : Type 0 where
  pub live : is_some c.primary_conn ≡ true
  pub primary_range : c.primary_id < 8
  pub lame_duck_range : c.lame_duck_id < 8
  pub succeeds : is_some c.lame_duck_conn ≡ true → c.primary_id ≡ next_key_id c.lame_duck_id
  pub follows : is_some c.pending_reneg ≡ true → c.pending_reneg_key_id ≡ next_key_id c.primary_id

abbrev pub IsKeyed : Session → Type 0
IsKeyed s = AreConsecutive (core s)

-- The successors of 0 to 7.
pub next_key_id_lem : (k : ℕ) → k < 8 → next_key_id k ≡ (if k == 7 then 1 else k + 1)
unfolding next_key_id
next_key_id_lem zero h = refl
next_key_id_lem (suc zero) h = refl
next_key_id_lem (suc (suc zero)) h = refl
next_key_id_lem (suc (suc (suc zero))) h = refl
next_key_id_lem (suc (suc (suc (suc zero)))) h = refl
next_key_id_lem (suc (suc (suc (suc (suc zero))))) h = refl
next_key_id_lem (suc (suc (suc (suc (suc (suc zero)))))) h = refl
next_key_id_lem (suc (suc (suc (suc (suc (suc (suc zero))))))) h = refl
next_key_id_lem (suc (suc (suc (suc (suc (suc (suc (suc k)))))))) h = absurd (omega (arith))

ended-IsKeyed : (r : CloseReason) (s : Session) → IsKeyed s → IsKeyed (ended r s)
ended-IsKeyed r s v = record {
  live = v.live;
  primary_range = v.primary_range;
  lame_duck_range = v.lame_duck_range;
  succeeds = v.succeeds;
  follows = v.follows;
}

no_pending-IsKeyed : (s : Session) → IsKeyed s → IsKeyed (record s { pending_reneg = none })
no_pending-IsKeyed s v = record {
  live = v.live;
  primary_range = v.primary_range;
  lame_duck_range = v.lame_duck_range;
  succeeds = v.succeeds;
  follows = λ e. absurd (ground (arith, e));
}

close_with_reason-IsKeyed :
    (cfg : Config) (r : CloseReason) (s : Session)
    → IsKeyed s
    → IsKeyed (close_with_reason cfg r s).0
unfolding close_with_reason
close_with_reason-IsKeyed cfg r s v =
    if-keeps IsKeyed s.stopped (s, close_all (s.conn ∷ []))
      (ended r s, teardown cfg r s ++ close_all (s.conn ∷ [])) v (ended-IsKeyed r s v)

quiet-IsKeyed : (s s₁ : Session) → core s₁ ≡ core s → IsKeyed s → IsKeyed s₁
quiet-IsKeyed s s₁ e v = subst AreConsecutive (sym e) v

sweep_lame_duck-IsKeyed : (now : ℕ) (s : Session) → IsKeyed s → IsKeyed (sweep_lame_duck now s).0
unfolding sweep_lame_duck
sweep_lame_duck-IsKeyed now s v =
    if-keeps IsKeyed (is_some s.lame_duck.wrapper && not (ltb now s.lame_duck.must_die)) _ _
      (record {
        live = v.live;
        primary_range = v.primary_range;
        lame_duck_range = omega (arith);
        succeeds = λ e. absurd (ground (arith, e));
        follows = v.follows;
      })
      v

start_renegotiation-IsKeyed :
    (cfg : Config) (now c : ℕ) (wanted : Option ℕ) (out : Effect) (s : Session)
    → IsKeyed s
    → IsKeyed (asked s out (start_renegotiation cfg now c wanted s)).0
unfolding start_renegotiation await
start_renegotiation-IsKeyed cfg now c wanted out s v =
    let P : Result Refusal (ℕ × Session) → Type 0 = λ r. IsKeyed (asked s out r).0 in
    guard-keeps P (not s.stopped) closing _ v (λ _.
      guard-keeps P (is_some s.primary.conn && not (s.primary.established == 0))
        primary_not_established _ v
        (λ _. guard-keeps P (not (is_some s.pending_reneg)) already_in_flight _ v (λ _.
          guard-keeps P
            (s.last_reneg_accepted == 0
              || not (ltb (now - s.last_reneg_accepted) cfg.reneg_min_interval))
            rate_limited _ v
            (λ _.
              guard-keeps P (is_wanted wanted (next_key_id s.primary.key_id)) key_id_mismatch _ v
                (λ _. record {
                  live = v.live;
                  primary_range = v.primary_range;
                  lame_duck_range = v.lame_duck_range;
                  succeeds = v.succeeds;
                  follows = λ _. refl;
                })))))

check_reneg-IsKeyed :
    (cfg : Config) (now c : ℕ) (s : Session) → IsKeyed s → IsKeyed (check_reneg cfg now c s).0
unfolding check_reneg
check_reneg-IsKeyed cfg now c s v =
    if-keeps IsKeyed
      (s.primary.established == 0
        || (ltb (now - s.primary.established) cfg.reneg_sec || not cfg.has_transport))
      _ _ v (start_renegotiation-IsKeyed cfg now c none (send_soft_reset c) s v)

pending : (c : ℕ) (o : Option ℕ) → is_conn c o ≡ true → is_some o ≡ true
pending c none e = e
pending c (some d) e = refl

next_key_id_range : (k : ℕ) → k < 8 → next_key_id k < 8
next_key_id_range k h = ground (arith, next_key_id_lem k h)

swap-IsKeyed :
    (now c : ℕ) (w : Wrapper) (s : Session)
    → is_conn c s.pending_reneg ≡ true
    → IsKeyed s
    → IsKeyed (swap now c s.pending_reneg_key_id w s).0
unfolding swap
swap-IsKeyed now c w s e v = record {
  live = refl;
  primary_range = omega (
    arith,
    v.follows (pending c s.pending_reneg e),
    next_key_id_range s.primary.key_id v.primary_range,
  );
  lame_duck_range = v.primary_range;
  succeeds = λ _. v.follows (pending c s.pending_reneg e);
  follows = λ e. absurd (ground (arith, e));
}

finish_renegotiation-IsKeyed :
    (new_aead : List ℕ → Result Error Aead) (now c : ℕ) (keys : DataKeys) (s : Session)
    → IsKeyed s
    → IsKeyed (finish_renegotiation new_aead now c s.pending_reneg_key_id keys s).0
unfolding finish_renegotiation
finish_renegotiation-IsKeyed new_aead now c keys s v =
    if-keeps_when IsKeyed (s.stopped || not (is_conn c s.pending_reneg)) _ _ (λ _. v)
      (λ mine.
        result-keeps (λ (x : Session × List Effect). IsKeyed x.0)
          (new_wrapper new_aead keys s.peer_id s.pending_reneg_key_id) _ _
          (λ w. swap-IsKeyed now c w s (ground (arith, mine)) v) (λ e. no_pending-IsKeyed s v))

abandon-IsKeyed : (c : ℕ) (s : Session) → IsKeyed s → IsKeyed (abandon c s).0
unfolding abandon
abandon-IsKeyed c s v =
    branch-keeps IsKeyed (is_conn c s.pending_reneg) _ _ (no_pending-IsKeyed s v) v

expire_renegotiation-IsKeyed :
    (c : ℕ) (s : Session) → IsKeyed s → IsKeyed (expire_renegotiation c s).0
unfolding expire_renegotiation
expire_renegotiation-IsKeyed c s v =
    if-keeps IsKeyed (is_conn c s.pending_reneg) _ _ (no_pending-IsKeyed s v) v

step-IsKeyed :
    (new_aead : List ℕ → Result Error Aead) (cfg : Config) (e : Event) (s : Session)
    → IsKeyed s
    → IsKeyed (step new_aead cfg e s).0
unfolding step begin_renegotiation reneg_tick refuse_renegotiation reap_tick
step-IsKeyed new_aead cfg (data_arrives now stop_first packet) s v =
    handle_data_packet-keeps cfg (λ (x : Session × List Effect). IsKeyed x.0) now stop_first packet
      s (λ s₁ e. quiet-IsKeyed s s₁ e v)
      (λ s₁ e. close_with_reason-IsKeyed cfg client_exit_notify s₁ (quiet-IsKeyed s s₁ e v))
step-IsKeyed new_aead cfg (control_arrives now key_id) s v =
    quiet-IsKeyed s (pump now key_id s).0 (core-pump now key_id s) v
step-IsKeyed new_aead cfg (reads stop_first n) s v =
    quiet-IsKeyed s (read stop_first n s).0 (core-read stop_first n s) v
step-IsKeyed new_aead cfg (writes sent p) s v =
    quiet-IsKeyed s (write cfg sent p s).0 (core-write cfg sent p s) v
step-IsKeyed new_aead cfg pings s v = quiet-IsKeyed s (emit_ping cfg s).0 (core-emit_ping cfg s) v
step-IsKeyed new_aead cfg (reneg_ticks now c) s v =
    check_reneg-IsKeyed cfg now c (sweep_lame_duck now s).0 (sweep_lame_duck-IsKeyed now s v)
step-IsKeyed new_aead cfg (peer_asks now c key_id) s v =
    start_renegotiation-IsKeyed cfg now c (some key_id) (answer_soft_reset c) s v
step-IsKeyed new_aead cfg (completes now c keys) s v =
    finish_renegotiation-IsKeyed new_aead now c keys s v
step-IsKeyed new_aead cfg (fails c) s v = abandon-IsKeyed c s v
step-IsKeyed new_aead cfg (refuses c) s v =
    close_with_reason-IsKeyed cfg auth_failed (abandon c s).0 (abandon-IsKeyed c s v)
step-IsKeyed new_aead cfg (expires c) s v = expire_renegotiation-IsKeyed c s v
step-IsKeyed new_aead cfg (reap_ticks now) s v =
    if-keeps IsKeyed (ltb (now - s.last_auth_traffic) cfg.reap_window) _ _ v
      (close_with_reason-IsKeyed cfg idle_reap s v)
step-IsKeyed new_aead cfg (closes r) s v = close_with_reason-IsKeyed cfg r s v

pub run-IsKeyed :
    (new_aead : List ℕ → Result Error Aead) (cfg : Config) (es : List Event) (s : Session)
    → IsKeyed s
    → IsKeyed (run new_aead cfg es s)
unfolding run
run-IsKeyed new_aead cfg [] s v = v
run-IsKeyed new_aead cfg (e ∷ es) s v =
    run-IsKeyed new_aead cfg es (step new_aead cfg e s).0 (step-IsKeyed new_aead cfg e s v)
