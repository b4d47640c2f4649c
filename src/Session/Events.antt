-- ===== src/Session/Events.antt =====
-- An established session over any sequence of what can happen to it, in the order in which the lock
-- lets it happen.
use govpn.Base.{ℕ, Bool, List, [], ◌∷◌, ◌++◌, Result}
use govpn.DataChannel.{Aead, DataKeys, Error}
use govpn.Session.{Config, Session, Effect, CloseReason, close_with_reason}
use govpn.Session.Keys.{
  pump, begin_renegotiation, reneg_tick, abandon, finish_renegotiation, refuse_renegotiation,
  expire_renegotiation, reap_tick,
}
use govpn.Session.Data.{handle_data_packet, read, write, emit_ping}

-- A renegotiation is told by its connection; `completes` has the keys that it yields.
pub data Event : Type 0 where
  data_arrives : ℕ → Bool → List ℕ → Event
  control_arrives : ℕ → ℕ → Event
  reads : Bool → ℕ → Event
  writes : Bool → List ℕ → Event
  pings : Event
  reneg_ticks : ℕ → ℕ → Event
  peer_asks : ℕ → ℕ → ℕ → Event
  completes : ℕ → ℕ → DataKeys → Event
  fails refuses expires : ℕ → Event
  reap_ticks : ℕ → Event
  closes : CloseReason → Event

module _ (new_aead : List ℕ → Result Error Aead) (cfg : Config) where
  -- The key id of a renegotiation is the one that came with its connection, which the session keeps as
  -- long as it waits for it.
  unfoldable pub step : Event → Session → Session × List Effect
  step (data_arrives now stop_first packet) s = handle_data_packet cfg now stop_first packet s
  step (control_arrives now key_id) s = pump now key_id s
  step (reads stop_first n) s = ((read stop_first n s).0, [])
  step (writes sent p) s = ((write cfg sent p s).0, (write cfg sent p s).2)
  step pings s = emit_ping cfg s
  step (reneg_ticks now new_conn) s = reneg_tick cfg now new_conn s
  step (peer_asks now new_conn key_id) s = begin_renegotiation cfg now new_conn key_id s
  step (completes now new_conn keys) s =
      finish_renegotiation new_aead now new_conn s.pending_reneg_key_id keys s
  step (fails new_conn) s = abandon new_conn s
  step (refuses new_conn) s = refuse_renegotiation cfg new_conn s
  step (expires new_conn) s = expire_renegotiation new_conn s
  step (reap_ticks now) s = reap_tick cfg now s
  step (closes reason) s = close_with_reason cfg reason s

  unfoldable pub run : List Event → Session → Session
  unfolding step
  run [] s = s
  run (e ∷ es) s = run es (step e s).0

  unfoldable pub effects : List Event → Session → List Effect
  unfolding step
  effects [] s = []
  effects (e ∷ es) s = (step e s).1 ++ effects es (step e s).0
