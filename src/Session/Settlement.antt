-- ===== src/Session/Settlement.antt =====
-- The address of a session over all its events.
use govpn.Base.{
  branch-keeps, ℕ, ◌-◌, Bool, false, ◌&&◌, ltb, if◌then◌else◌, some, ◌≡◌, refl, sym, ap, ◌∙◌, List,
  [], ◌∷◌, Result,
}
use govpn.DataChannel.{Wrapper, Aead, Error}
use govpn.Session.{
  Config, Session, Effect, answer_soft_reset, client_exit_notify, idle_reap, auth_failed,
  close_with_reason, publish, new_session,
}
use govpn.Session.Keys.{
  sweep_lame_duck, begin_renegotiation, check_reneg, reneg_tick, abandon, refuse_renegotiation,
  reap_tick,
}
use govpn.Session.Quiet.{handle_data_packet-keeps, core-read}
use govpn.Session.Data.{read}
use govpn.Session.Events.{
  Event, data_arrives, control_arrives, reads, writes, pings, reneg_ticks, peer_asks, completes,
  fails, refuses, expires, reap_ticks, closes, step, run, effects,
}
use govpn.Session.Release.{released, Account, account, holds, Settles, close_with_reason-Settles}
use govpn.Session.Settled.{
  same_account, keeps, pump-Settled, start_renegotiation-Settled, check_reneg-Settled, after,
  sweep_lame_duck-Settled, finish_renegotiation-Settled, abandon-Settled,
  expire_renegotiation-Settled, write-Settled, emit_ping-Settled,
}

module _ (cfg : Config) (ip peer_id : ℕ) where
  abbrev Settled : Bool → Session × List Effect → Type 0
  Settled before x = Settles cfg ip peer_id before x

  step-Settled :
      (new_aead : List ℕ → Result Error Aead) (before : Bool) (e : Event) (s : Session)
      → account s ≡ holds cfg ip peer_id before
      → Settled before (step new_aead cfg e s)
  unfolding step begin_renegotiation reneg_tick refuse_renegotiation reap_tick released
  step-Settled new_aead before (data_arrives now stop_first packet) s e =
      handle_data_packet-keeps cfg (Settled before) now stop_first packet s
        (λ s₁ same. keeps cfg ip peer_id before s₁ [] (same_account s s₁ same ∙ e) refl)
        (λ s₁ same.
          close_with_reason-Settles cfg ip peer_id before client_exit_notify s₁
            (same_account s s₁ same ∙ e))
  step-Settled new_aead before (control_arrives now key_id) s e =
      pump-Settled cfg ip peer_id before now key_id s e
  step-Settled new_aead before (reads stop_first n) s e =
      keeps cfg ip peer_id before (read stop_first n s).0 []
        (same_account s (read stop_first n s).0 (core-read stop_first n s) ∙ e) refl
  step-Settled new_aead before (writes sent p) s e = write-Settled cfg ip peer_id before sent p s e
  step-Settled new_aead before pings s e = emit_ping-Settled cfg ip peer_id before s e
  step-Settled new_aead before (reneg_ticks now c) s e =
      after cfg ip peer_id before (sweep_lame_duck now s)
        (check_reneg cfg now c (sweep_lame_duck now s).0)
        (sweep_lame_duck-Settled cfg ip peer_id before now s e)
        (λ b e₁. check_reneg-Settled cfg ip peer_id b now c (sweep_lame_duck now s).0 e₁)
  step-Settled new_aead before (peer_asks now c key_id) s e =
      start_renegotiation-Settled cfg ip peer_id before now c (some key_id) (answer_soft_reset c) s
        e refl
  step-Settled new_aead before (completes now c keys) s e =
      finish_renegotiation-Settled cfg ip peer_id new_aead before now c s.pending_reneg_key_id keys
        s e
  step-Settled new_aead before (fails c) s e = abandon-Settled cfg ip peer_id before c s e
  step-Settled new_aead before (refuses c) s e =
      after cfg ip peer_id before (abandon c s) (close_with_reason cfg auth_failed (abandon c s).0)
        (abandon-Settled cfg ip peer_id before c s e)
        (λ b e₁. close_with_reason-Settles cfg ip peer_id b auth_failed (abandon c s).0 e₁)
  step-Settled new_aead before (expires c) s e =
      expire_renegotiation-Settled cfg ip peer_id before c s e
  step-Settled new_aead before (reap_ticks now) s e =
      branch-keeps (Settled before) (ltb (now - s.last_auth_traffic) cfg.reap_window) _ _
        (keeps cfg ip peer_id before s [] e refl)
        (close_with_reason-Settles cfg ip peer_id before idle_reap s e)
  step-Settled new_aead before (closes r) s e =
      close_with_reason-Settles cfg ip peer_id before r s e

  run-Settled :
      (new_aead : List ℕ → Result Error Aead) (before : Bool) (es : List Event) (s : Session)
      → account s ≡ holds cfg ip peer_id before
      → Settled before (run new_aead cfg es s, effects new_aead cfg es s)
  unfolding run effects released
  run-Settled new_aead before [] s e = keeps cfg ip peer_id before s [] e refl
  run-Settled new_aead before (x ∷ es) s e =
      after cfg ip peer_id before (step new_aead cfg x s)
        (
          run new_aead cfg es (step new_aead cfg x s).0,
          effects new_aead cfg es (step new_aead cfg x s).0,
        )
        (step-Settled new_aead before x s e)
        (λ b e₁. run-Settled new_aead b es (step new_aead cfg x s).0 e₁)

-- Over any sequence of events of a published session its address and peer id are given back to the
-- server's pool, if it has one, exactly once if the session has ended, and not at all if it has not.
pub released_when_ended :
    (new_aead : List ℕ → Result Error Aead) (cfg : Config) (conn now ip peer_id : ℕ) (w : Wrapper)
    (es : List Event)
    → let s : Session = (publish now ip peer_id w (new_session conn)).0 in
      released (effects new_aead cfg es s)
      ≡ (if (run new_aead cfg es s).stopped && cfg.has_pool then (ip, peer_id) ∷ [] else [])
unfolding publish
released_when_ended new_aead cfg conn now ip peer_id w es =
    let s : Session = (publish now ip peer_id w (new_session conn)).0 in
    let v : Settles cfg ip peer_id false (run new_aead cfg es s, effects new_aead cfg es s) =
      run-Settled cfg ip peer_id new_aead false es s refl in
    v.paid
    ∙ ap
        (λ (b : Bool). if◌then◌else◌ {A = List (ℕ × ℕ)} (b && cfg.has_pool) ((ip, peer_id) ∷ []) [])
        (sym (ap (λ (a : Account). a.stopped) v.same))
