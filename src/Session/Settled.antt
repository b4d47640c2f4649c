-- ===== src/Session/Settled.antt =====
-- What each operation of a session gives back of its address.
use govpn.Base.{
  branch-keeps, result-keeps, option-keeps, guard-keeps, ℕ, ◌-◌, Bool, not, ◌&&◌, ◌||◌, ltb, ◌==◌,
  Option, none, ◌≡◌, refl, sym, ap, ◌∙◌, List, [], ◌∷◌, ◌++◌, append_assoc, Result,
}
use govpn.DataChannel.{Aead, DataKeys, Error, seal, seal_ping, new_wrapper}
use govpn.Session.{
  Config, Session, Effect, send_datagram, send_soft_reset, close_conn, deliver_control, close_all,
}
use govpn.Session.Keys.{
  Refusal, closing, primary_not_established, already_in_flight, rate_limited, key_id_mismatch,
  is_some, is_conn, is_wanted, next_key_id, route_control_packet, pump, sweep_lame_duck, await,
  asked, start_renegotiation, check_reneg, abandon, swap, finish_renegotiation,
  expire_renegotiation,
}
use govpn.Session.Quiet.{Core, core}
use govpn.Session.Data.{WriteResult, write, emit_ping, set_primary}
use govpn.Session.Events.{}
use govpn.Session.Release.{
  released, released-append, released-close_all, account, due, holds, Settles, settled,
}

-- The account is a part of the core.
pub same_account : (s s₁ : Session) → core s₁ ≡ core s → account s₁ ≡ account s
same_account s s₁ e =
    ap
      (λ (c : Core). record {
        stopped = c.stopped;
        assigned_ip = c.assigned_ip;
        peer_id = c.peer_id;
      })
      e

module _ (cfg : Config) (ip peer_id : ℕ) where
  abbrev Settled : Bool → Session × List Effect → Type 0
  Settled before x = Settles cfg ip peer_id before x

  -- Effects that give nothing back, from a session with the same account.
  pub keeps :
      (before : Bool) (s : Session) (out : List Effect)
      → account s ≡ holds cfg ip peer_id before
      → released out ≡ []
      → Settled before (s, out)
  keeps before s out e nothing = settled cfg ip peer_id before s out e nothing

  pub pump-Settled :
      (before : Bool) (now key_id : ℕ) (s : Session)
      → account s ≡ holds cfg ip peer_id before
      → Settled before (pump now key_id s)
  unfolding pump released
  pump-Settled before now key_id s e =
      branch-keeps (Settled before) s.stopped _ _ (keeps before s [] e refl) (
        option-keeps (Settled before) (route_control_packet key_id s) _ _ (keeps before s [] e refl)
          (λ c. keeps before _ (deliver_control c ∷ []) e refl))

  pub start_renegotiation-Settled :
      (before : Bool) (now c : ℕ) (wanted : Option ℕ) (out : Effect) (s : Session)
      → account s ≡ holds cfg ip peer_id before
      → released (out ∷ []) ≡ []
      → Settled before (asked s out (start_renegotiation cfg now c wanted s))
  unfolding start_renegotiation await released
  start_renegotiation-Settled before now c wanted out s e nothing =
      let P : Result Refusal (ℕ × Session) → Type 0 = λ r. Settled before (asked s out r) in
      let same : Settled before (s, []) = keeps before s [] e refl in
      guard-keeps P (not s.stopped) closing _ same (λ _.
        guard-keeps P (is_some s.primary.conn && not (s.primary.established == 0))
          primary_not_established _ same
          (λ _. guard-keeps P (not (is_some s.pending_reneg)) already_in_flight _ same (λ _.
            guard-keeps P
              (s.last_reneg_accepted == 0
                || not (ltb (now - s.last_reneg_accepted) cfg.reneg_min_interval))
              rate_limited _ same
              (λ _.
                guard-keeps P (is_wanted wanted (next_key_id s.primary.key_id)) key_id_mismatch _
                  same (λ _. keeps before (await now c s) (out ∷ []) e nothing)))))

  pub check_reneg-Settled :
      (before : Bool) (now c : ℕ) (s : Session)
      → account s ≡ holds cfg ip peer_id before
      → Settled before (check_reneg cfg now c s)
  unfolding check_reneg released
  check_reneg-Settled before now c s e =
      branch-keeps (Settled before)
        (s.primary.established == 0
          || (ltb (now - s.primary.established) cfg.reneg_sec || not cfg.has_transport))
        _ _ (keeps before s [] e refl)
        (start_renegotiation-Settled before now c none (send_soft_reset c) s e refl)

  -- One step after another.
  pub after :
      (before : Bool) (x : Session × List Effect) (y : Session × List Effect)
      → Settled before x
      → ((b : Bool) → account x.0 ≡ holds cfg ip peer_id b → Settled b y)
      → Settled before (y.0, x.1 ++ y.1)
  after before x y v next =
      let w : Settled v.after y = next v.after v.same in
      record {
        after = w.after;
        same = w.same;
        paid =
            ap (λ (l : List (ℕ × ℕ)). due cfg ip peer_id before ++ l) (released-append x.1 y.1)
            ∙ sym (append_assoc (due cfg ip peer_id before) (released x.1) (released y.1))
            ∙ ap (λ (l : List (ℕ × ℕ)). l ++ released y.1) v.paid
            ∙ w.paid;
      }

  pub sweep_lame_duck-Settled :
      (before : Bool) (now : ℕ) (s : Session)
      → account s ≡ holds cfg ip peer_id before
      → Settled before (sweep_lame_duck now s)
  unfolding sweep_lame_duck released
  sweep_lame_duck-Settled before now s e =
      branch-keeps (Settled before)
        (is_some s.lame_duck.wrapper && not (ltb now s.lame_duck.must_die)) _ _
        (keeps before _ (close_all (s.lame_duck.conn ∷ [])) e
          (released-close_all (s.lame_duck.conn ∷ [])))
        (keeps before s [] e refl)

  pub finish_renegotiation-Settled :
      (new_aead : List ℕ → Result Error Aead) (before : Bool) (now c key_id : ℕ) (keys : DataKeys)
      (s : Session)
      → account s ≡ holds cfg ip peer_id before
      → Settled before (finish_renegotiation new_aead now c key_id keys s)
  unfolding finish_renegotiation swap released
  finish_renegotiation-Settled new_aead before now c key_id keys s e =
      branch-keeps (Settled before) (s.stopped || not (is_conn c s.pending_reneg)) _ _
        (keeps before s (close_conn c ∷ []) e refl)
        (result-keeps (Settled before) (new_wrapper new_aead keys s.peer_id key_id) _ _
          (λ w.
            keeps before _ (close_all (s.lame_duck.conn ∷ [])) e
              (released-close_all (s.lame_duck.conn ∷ [])))
          (λ x. keeps before _ (close_conn c ∷ []) e refl))

  pub abandon-Settled :
      (before : Bool) (c : ℕ) (s : Session)
      → account s ≡ holds cfg ip peer_id before
      → Settled before (abandon c s)
  unfolding abandon released
  abandon-Settled before c s e =
      keeps before _ (close_conn c ∷ [])
        (branch-keeps (λ (t : Session). account t ≡ holds cfg ip peer_id before)
          (is_conn c s.pending_reneg) _ _ e e)
        refl

  pub expire_renegotiation-Settled :
      (before : Bool) (c : ℕ) (s : Session)
      → account s ≡ holds cfg ip peer_id before
      → Settled before (expire_renegotiation c s)
  unfolding expire_renegotiation released
  expire_renegotiation-Settled before c s e =
      branch-keeps (Settled before) (is_conn c s.pending_reneg) _ _
        (keeps before _ (close_conn c ∷ []) e refl) (keeps before s [] e refl)

  pub write-Settled :
      (before sent : Bool) (p : List ℕ) (s : Session)
      → account s ≡ holds cfg ip peer_id before
      → Settled before ((write cfg sent p s).0, (write cfg sent p s).2)
  unfolding write released
  write-Settled before sent p s e =
      let P : Session × WriteResult × List Effect → Type 0 = λ x. Settled before (x.0, x.2) in
      branch-keeps P s.stopped _ _ (keeps before s [] e refl) (
        option-keeps P s.primary.wrapper _ _ (keeps before s [] e refl) (λ w.
          result-keeps P (seal w [] p) _ _
            (λ x.
              branch-keeps P (not cfg.has_transport) _ _
                (keeps before (set_primary x.1 s) [] e refl)
                (branch-keeps P (not sent) _ _
                  (keeps before (set_primary x.1 s) (send_datagram x.0 ∷ []) e refl)
                  (keeps before _ (send_datagram x.0 ∷ []) e refl)))
            (λ x. keeps before s [] e refl)))

  pub emit_ping-Settled :
      (before : Bool) (s : Session)
      → account s ≡ holds cfg ip peer_id before
      → Settled before (emit_ping cfg s)
  unfolding emit_ping released
  emit_ping-Settled before s e =
      option-keeps (Settled before) s.primary.wrapper _ _ (keeps before s [] e refl) (λ w.
        result-keeps (Settled before) (seal_ping w []) _ _
          (λ x. keeps before (set_primary x.1 s) _ e (
            branch-keeps (λ (l : List Effect). released l ≡ []) cfg.has_transport
              (send_datagram x.0 ∷ []) [] refl refl))
          (λ x. keeps before s [] e refl))
