-- ===== src/Session/Quiet.antt =====
-- What the packets, pings, reads and writes of a session leave alone.
use govpn.Base.{
  ℕ, ◌+◌, Bool, not, ◌&&◌, ltb, branch-keeps, option-keeps, result-keeps, Option, ◌≡◌, refl, List,
  [], length, arith,
}
use govpn.DataChannel.{open_packet}
use govpn.Session.{Config, Session, Effect, CloseReason, client_exit_notify, close_with_reason}
use govpn.Session.Keys.{touch_auth_traffic, route_control_packet, pump}
use govpn.Session.Data.{
  is_ping_absorbed, is_exit_notify, handle_plaintext, handle_ping, enqueue, try_lame_duck,
  handle_data_packet, read, write, emit_ping, set_primary, set_lame_duck,
}

-- The address, the control connections with their key ids, and whether the session has ended.
pub record Core : Type 0 where
  pub conn : Option ℕ
  pub stopped : Bool
  pub close_reason : CloseReason
  pub assigned_ip : Option ℕ
  pub peer_id : ℕ
  pub primary_id : ℕ
  pub primary_conn : Option ℕ
  pub lame_duck_id : ℕ
  pub lame_duck_conn : Option ℕ
  pub must_die : ℕ
  pub pending_reneg : Option ℕ
  pub pending_reneg_key_id : ℕ
  pub renegotiations : ℕ

abbrev pub core : Session → Core
core s = record {
  conn = s.conn;
  stopped = s.stopped;
  close_reason = s.close_reason;
  assigned_ip = s.assigned_ip;
  peer_id = s.peer_id;
  primary_id = s.primary.key_id;
  primary_conn = s.primary.conn;
  lame_duck_id = s.lame_duck.key_id;
  lame_duck_conn = s.lame_duck.conn;
  must_die = s.lame_duck.must_die;
  pending_reneg = s.pending_reneg;
  pending_reneg_key_id = s.pending_reneg_key_id;
  renegotiations = s.renegotiations;
}

core-enqueue :
    (cfg : Config) (stop_first : Bool) (p : List ℕ) (s : Session)
    → core (enqueue cfg stop_first p s) ≡ core s
unfolding enqueue
core-enqueue cfg stop_first p s =
    branch-keeps (λ (s₁ : Session). core s₁ ≡ core s)
      (ltb (length s.ip_inbound) cfg.inbound_queue && not (s.stopped && stop_first)) _ _ refl
      (branch-keeps (λ (s₁ : Session). core s₁ ≡ core s) s.stopped _ _ refl refl)

-- A data packet leaves the core as it is, without effects, or ends the session.
module _ (cfg : Config) (P : Session × List Effect → Type 0) where
  handle_plaintext-keeps :
      (now : ℕ) (stop_first : Bool) (p : List ℕ) (s : Session)
      → ((s₁ : Session) → core s₁ ≡ core s → P (s₁, []))
      → ((s₁ : Session) → core s₁ ≡ core s → P (close_with_reason cfg client_exit_notify s₁))
      → P (handle_plaintext cfg now stop_first p s)
  unfolding handle_plaintext
  handle_plaintext-keeps now stop_first p s quiet ended =
      branch-keeps P (is_exit_notify p) _ _ (ended (touch_auth_traffic now s) refl) (
        quiet _ (
          core-enqueue cfg stop_first p (record s {
            last_auth_traffic = now;
            packets_in = s.packets_in + 1;
            bytes_in = s.bytes_in + length p;
          })))

  try_lame_duck-keeps :
      (now : ℕ) (stop_first : Bool) (packet : List ℕ) (s : Session)
      → ((s₁ : Session) → core s₁ ≡ core s → P (s₁, []))
      → ((s₁ : Session) → core s₁ ≡ core s → P (close_with_reason cfg client_exit_notify s₁))
      → P (try_lame_duck cfg now stop_first packet s)
  unfolding try_lame_duck
  try_lame_duck-keeps now stop_first packet s quiet ended =
      option-keeps P s.lame_duck.wrapper _ _ (quiet s refl) (λ w.
        branch-keeps P (not (ltb now s.lame_duck.must_die)) _ _ (quiet s refl) (
          result-keeps P (open_packet w [] packet).1 _ _
            (λ p.
              handle_plaintext-keeps now stop_first p (set_lame_duck (open_packet w [] packet).0 s)
                quiet ended)
            (λ e.
              branch-keeps P (is_ping_absorbed e) _ _
                (quiet (handle_ping now (set_lame_duck (open_packet w [] packet).0 s)) refl)
                (quiet (set_lame_duck (open_packet w [] packet).0 s) refl))))

  pub handle_data_packet-keeps :
      (now : ℕ) (stop_first : Bool) (packet : List ℕ) (s : Session)
      → ((s₁ : Session) → core s₁ ≡ core s → P (s₁, []))
      → ((s₁ : Session) → core s₁ ≡ core s → P (close_with_reason cfg client_exit_notify s₁))
      → P (handle_data_packet cfg now stop_first packet s)
  unfolding handle_data_packet
  handle_data_packet-keeps now stop_first packet s quiet ended =
      option-keeps P s.primary.wrapper _ _ (quiet s refl) (λ w.
        result-keeps P (open_packet w [] packet).1 _ _
          (λ p.
            handle_plaintext-keeps now stop_first p (set_primary (open_packet w [] packet).0 s)
              quiet ended)
          (λ e.
            branch-keeps P (is_ping_absorbed e) _ _
              (quiet (handle_ping now (set_primary (open_packet w [] packet).0 s)) refl)
              (try_lame_duck-keeps now stop_first packet (set_primary (open_packet w [] packet).0 s)
                quiet ended)))

-- A control packet, Read, Write and a ping leave the core as it is.
pub core-pump : (now key_id : ℕ) (s : Session) → core (pump now key_id s).0 ≡ core s
unfolding pump
core-pump now key_id s =
    branch-keeps (λ (x : Session × List Effect). core x.0 ≡ core s) s.stopped _ _ refl
      (option-keeps (λ (x : Session × List Effect). core x.0 ≡ core s)
        (route_control_packet key_id s) _ _ refl (λ c. refl))

pub core-read : (stop_first : Bool) (n : ℕ) (s : Session) → core (read stop_first n s).0 ≡ core s
unfolding read
core-read stop_first n s = ground (arith)

pub core-write :
    (cfg : Config) (sent : Bool) (p : List ℕ) (s : Session) → core (write cfg sent p s).0 ≡ core s
unfolding write
core-write cfg sent p s = ground (arith)

pub core-emit_ping : (cfg : Config) (s : Session) → core (emit_ping cfg s).0 ≡ core s
unfolding emit_ping
core-emit_ping cfg s = ground (arith)
