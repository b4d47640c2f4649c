-- ===== src/Session.antt =====
-- session.go and the renegotiation of ovpn.go: the state of an established session, and its end.
-- The lock makes each handler one step; what it does to the server, to the control connections and to
-- the network is listed as effects, in order. A control connection is told by a number, its identity.
-- Times are nanoseconds since Go's zero time, which is 0. The owning server is set, as it is for every
-- session but those that tests build by hand. Logging is left out.
pub mod Keys
pub mod Data
pub mod Events
pub mod Quiet
pub mod KeyIds
pub mod Routing
pub mod Forged
pub mod Release
pub mod Settled
pub mod Settlement
pub mod Runs
use govpn.Base.{ℕ, Bool, true, false, Option, none, some, List, [], ◌∷◌, ◌++◌, if◌then◌else◌}
use govpn.DataChannel.{Wrapper}

abbrev pub transition_window : ℕ
transition_window = 3_600_000_000_000

pub data CloseReason : Type 0 where
  unknown embedder client_exit_notify idle_reap server_close replaced auth_failed : CloseReason

-- `keySlot`.
pub record KeySlot : Type 0 where
  pub key_id : ℕ
  pub conn : Option ℕ
  pub wrapper : Option Wrapper
  pub established : ℕ
  pub must_die : ℕ

abbrev pub empty_slot : KeySlot
empty_slot = record { key_id = 0; conn = none; wrapper = none; established = 0; must_die = 0 }

-- What a server's configuration has been resolved to; `has_transport` is `srv.pc != nil`.
pub record Config : Type 0 where
  pub reneg_sec : ℕ
  pub reneg_min_interval : ℕ
  pub reap_window : ℕ
  pub inbound_queue : ℕ
  pub has_pool : Bool
  pub has_transport : Bool
  pub notifies_close : Bool

-- `stopped` says that `stopCh` is closed; `ip_inbound` is the queue of that channel.
pub record Session : Type 0 where
  pub conn : Option ℕ
  pub stopped : Bool
  pub close_reason : CloseReason
  pub published : Bool
  pub assigned_ip : Option ℕ
  pub peer_id : ℕ
  pub primary : KeySlot
  pub lame_duck : KeySlot
  pub pending_reneg : Option ℕ
  pub pending_reneg_key_id : ℕ
  pub last_reneg_accepted : ℕ
  pub renegotiations : ℕ
  pub last_auth_traffic : ℕ
  pub established_at : ℕ
  pub ip_inbound : List (List ℕ)
  pub pending_read : Option (List ℕ)
  pub bytes_in : ℕ
  pub bytes_out : ℕ
  pub packets_in : ℕ
  pub packets_out : ℕ
  pub inbound_queue_dropped : ℕ
  pub keepalives_in : ℕ

pub data Effect : Type 0 where
  route_data unroute_data : ℕ → Effect
  release_address : ℕ → ℕ → Effect
  remove_session : Effect
  close_conn : ℕ → Effect
  session_closed : CloseReason → Effect
  send_datagram : List ℕ → Effect
  deliver_control send_soft_reset answer_soft_reset : ℕ → Effect

abbrev pub close_all : List (Option ℕ) → List Effect
close_all [] = []
close_all (none ∷ conns) = close_all conns
close_all (some c ∷ conns) = close_conn c ∷ close_all conns

-- The entry of the data routing table goes before the peer id may be given to another session.
abbrev pub unroute : Session → List Effect
unroute s = elim s.primary.wrapper [ none ↦ [] | some w ↦ unroute_data s.peer_id ∷ [] ]

abbrev pub release : Config → Session → List Effect
release cfg s = elim s.assigned_ip [
  | none ↦ []
  | some ip ↦ if cfg.has_pool then release_address ip s.peer_id ∷ [] else []
]

abbrev pub ended : CloseReason → Session → Session
ended reason s = record s { stopped = true; close_reason = reason }

-- What the end of a session does: the routes and the address go, then the control connections, and a
-- session that the embedder knows of is reported.
unfoldable pub teardown : Config → CloseReason → Session → List Effect
teardown cfg reason s =
    (unroute s ++ release cfg s)
    ++ ((remove_session ∷ close_all (s.primary.conn ∷ s.lame_duck.conn ∷ s.pending_reneg ∷ []))
        ++ (if cfg.notifies_close
            then (if s.published then session_closed reason ∷ [] else [])
            else []))

-- `closeWithReason`: only the first call ends the session and is recorded; each closes the first
-- control connection.
unfoldable pub close_with_reason : Config → CloseReason → Session → Session × List Effect
unfolding teardown
close_with_reason cfg reason s =
    if s.stopped
    then (s, close_all (s.conn ∷ []))
    else (ended reason s, teardown cfg reason s ++ close_all (s.conn ∷ []))

-- A session whose handshake is under way, over its first control connection.
abbrev pub new_session : ℕ → Session
new_session conn = record {
  conn = some conn;
  stopped = false;
  close_reason = unknown;
  published = false;
  assigned_ip = none;
  peer_id = 0;
  primary = empty_slot;
  lame_duck = empty_slot;
  pending_reneg = none;
  pending_reneg_key_id = 0;
  last_reneg_accepted = 0;
  renegotiations = 0;
  last_auth_traffic = 0;
  established_at = 0;
  ip_inbound = [];
  pending_read = none;
  bytes_in = 0;
  bytes_out = 0;
  packets_in = 0;
  packets_out = 0;
  inbound_queue_dropped = 0;
  keepalives_in = 0;
}

-- `performPushExchange`, from the lock on: the address, the peer id and the first key go live together,
-- unless the session has ended, when the address goes back.
unfoldable pub publish : ℕ → ℕ → ℕ → Wrapper → Session → Session × List Effect
publish now ip peer_id wrapper s = if s.stopped then (s, release_address ip peer_id ∷ []) else (
  record s {
    assigned_ip = some ip;
    peer_id = peer_id;
    primary = record {
      key_id = 0;
      conn = s.conn;
      wrapper = some wrapper;
      established = now;
      must_die = 0;
    };
    ip_inbound = [];
    last_auth_traffic = now;
    established_at = now;
  },
  route_data peer_id ∷ [],
)
