-- ===== src/Session/Release.antt =====
-- session.go: the address and peer id of a session go back to the pool when it ends, and only then.
use govpn.Base.{
  branch-keeps_when, option-keeps, option-keeps_when, ℕ, Bool, true, false, ◌&&◌, if◌then◌else◌,
  Option, none, some, ◌≡◌, refl, sym, ap, ◌∙◌, List, [], ◌∷◌, ◌++◌, append-nil, arith,
}
use govpn.Session.{
  Config, Session, Effect, route_data, unroute_data, release_address, remove_session, close_conn,
  session_closed, send_datagram, deliver_control, send_soft_reset, answer_soft_reset, CloseReason,
  close_all, unroute, release, ended, teardown, close_with_reason,
}

-- The addresses and peer ids given back.
unfoldable pub released : List Effect → List (ℕ × ℕ)
released [] = []
released (release_address ip peer_id ∷ es) = (ip, peer_id) ∷ released es
released (route_data p ∷ es) = released es
released (unroute_data p ∷ es) = released es
released (remove_session ∷ es) = released es
released (close_conn c ∷ es) = released es
released (session_closed r ∷ es) = released es
released (send_datagram d ∷ es) = released es
released (deliver_control c ∷ es) = released es
released (send_soft_reset c ∷ es) = released es
released (answer_soft_reset c ∷ es) = released es

pub released-append : (xs ys : List Effect) → released (xs ++ ys) ≡ released xs ++ released ys
unfolding released
released-append [] ys = refl
released-append (release_address ip p ∷ xs) ys = rw (released-append xs ys)
released-append (route_data p ∷ xs) ys = released-append xs ys
released-append (unroute_data p ∷ xs) ys = released-append xs ys
released-append (remove_session ∷ xs) ys = released-append xs ys
released-append (close_conn c ∷ xs) ys = released-append xs ys
released-append (session_closed r ∷ xs) ys = released-append xs ys
released-append (send_datagram d ∷ xs) ys = released-append xs ys
released-append (deliver_control c ∷ xs) ys = released-append xs ys
released-append (send_soft_reset c ∷ xs) ys = released-append xs ys
released-append (answer_soft_reset c ∷ xs) ys = released-append xs ys

pub released-close_all : (conns : List (Option ℕ)) → released (close_all conns) ≡ []
unfolding released
released-close_all [] = refl
released-close_all (none ∷ conns) = released-close_all conns
released-close_all (some c ∷ conns) = released-close_all conns

-- Whether the session has ended, and what it has of the pool.
pub record Account : Type 0 where
  pub stopped : Bool
  pub assigned_ip : Option ℕ
  pub peer_id : ℕ

abbrev pub account : Session → Account
account s = record { stopped = s.stopped; assigned_ip = s.assigned_ip; peer_id = s.peer_id }

module _ (cfg : Config) (ip peer_id : ℕ) where
  abbrev pub due : Bool → List (ℕ × ℕ)
  due ended = if ended && cfg.has_pool then (ip, peer_id) ∷ [] else []

  abbrev pub holds : Bool → Account
  holds ended = record { stopped = ended; assigned_ip = some ip; peer_id = peer_id }

  pays :
      (pool : Bool) (a p : ℕ)
      → a ≡ ip
      → p ≡ peer_id
      → released (if pool then release_address a p ∷ [] else [])
        ≡ (if pool then (ip, peer_id) ∷ [] else [])
  unfolding released
  pays true a p e e' = rw (e, e') refl
  pays false a p e e' = refl

  -- From a session that has ended or not, a step goes on to one that has the same address, and gives it
  -- back if it ends the session.
  pub record Settles (before : Bool) (x : Session × List Effect) : Type 0 where
    pub after : Bool
    pub same : account x.0 ≡ holds after
    pub paid : due before ++ released x.1 ≡ due after

  pub settled :
      (before : Bool) (s : Session) (out : List Effect)
      → account s ≡ holds before
      → released out ≡ []
      → Settles before (s, out)
  settled before s out e nothing = record {
    after = before;
    same = e;
    paid = ap (λ (l : List (ℕ × ℕ)). due before ++ l) nothing ∙ append-nil (due before);
  }

  released-release : (s : Session) → account s ≡ holds false → released (release cfg s) ≡ due true
  unfolding released
  released-release s e =
      option-keeps_when (λ (l : List Effect). released l ≡ due true) s.assigned_ip _ _
        (λ nothing. absurd (ground (arith, sym nothing ∙ ap (λ (a : Account). a.assigned_ip) e)))
        (λ a held.
          pays cfg.has_pool a s.peer_id
            (ground (arith, sym held ∙ ap (λ (a : Account). a.assigned_ip) e))
            (ap (λ (a : Account). a.peer_id) e))

  released-unroute : (s : Session) → released (unroute s) ≡ []
  unfolding released
  released-unroute s =
      option-keeps (λ (l : List Effect). released l ≡ []) s.primary.wrapper _ _ refl (λ w. refl)

  released-notified :
      (a b : Bool) (r : CloseReason)
      → released (if a then (if b then session_closed r ∷ [] else []) else []) ≡ []
  unfolding released
  released-notified true true r = refl
  released-notified true false r = refl
  released-notified false b r = refl

  released-teardown :
      (r : CloseReason) (s : Session)
      → account s ≡ holds false
      → released (teardown cfg r s ++ close_all (s.conn ∷ [])) ≡ due true
  unfolding teardown released
  released-teardown r s e =
      let conns : List Effect =
        close_all (s.primary.conn ∷ s.lame_duck.conn ∷ s.pending_reneg ∷ []) in
      let told : List Effect =
        if cfg.notifies_close then (if s.published then session_closed r ∷ [] else []) else [] in
      rw
        (
          released-append ((unroute s ++ release cfg s) ++ ((remove_session ∷ conns) ++ told))
              (close_all (s.conn ∷ [])),
          released-append (unroute s ++ release cfg s) ((remove_session ∷ conns) ++ told),
          released-append (unroute s) (release cfg s),
          released-append conns told,
          released-unroute s,
          released-release s e,
          released-close_all (s.primary.conn ∷ s.lame_duck.conn ∷ s.pending_reneg ∷ []),
          released-notified cfg.notifies_close s.published r,
          released-close_all (s.conn ∷ []),
        )
        (append-nil (due true ++ []) ∙ append-nil (due true))

  pub close_with_reason-Settles :
      (before : Bool) (r : CloseReason) (s : Session)
      → account s ≡ holds before
      → Settles before (close_with_reason cfg r s)
  unfolding close_with_reason
  close_with_reason-Settles true r s e =
      branch-keeps_when (Settles true) s.stopped _ _
        (λ _. settled true s (close_all (s.conn ∷ [])) e (released-close_all (s.conn ∷ [])))
        (λ live. absurd (ground (arith, sym live ∙ ap (λ (a : Account). a.stopped) e)))
  close_with_reason-Settles false r s e =
      branch-keeps_when (Settles false) s.stopped (s, close_all (s.conn ∷ []))
        (ended r s, teardown cfg r s ++ close_all (s.conn ∷ []))
        (λ gone. absurd (ground (arith, sym gone ∙ ap (λ (a : Account). a.stopped) e)))
        (λ _. record {
          after = true;
          same = ap (λ (a : Account). record a { stopped = true }) e;
          paid = released-teardown r s e;
        })
