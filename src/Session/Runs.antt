-- ===== src/Session/Runs.antt =====
-- Sessions run on concrete events, with a small cipher.
use govpn.Base.{
  ℕ, ◌-◌, ◌&&◌, ◌==◌, if◌then◌else◌, true, false, ◌≡◌, refl, List, [], ◌∷◌, ◌++◌, map, length, take,
  elem_at, replicate, some, none, Result, ok,
}
use govpn.Replay.{accept, zero_window}
use govpn.DataChannel.{is_ping, open_packet, Aead, Wrapper, DataKeys, Error}
use govpn.Session.{Config, Session, publish, new_session, embedder}
use govpn.Session.Keys.{
  reneg_tick, finish_renegotiation, begin_renegotiation, reap_tick, route_control_packet,
}
use govpn.Session.Data.{handle_data_packet}
use govpn.Session.Events.{
  Event, data_arrives, peer_asks, completes, reneg_ticks, closes, reap_ticks, run, effects,
}
use govpn.Session.Routing.{live_conns, route_control_packet-live_conns}
use govpn.Session.Forged.{accepted_by_session, handle_data_packet_rejected}
use govpn.Session.Release.{released}
use govpn.Session.Settlement.{released_when_ended}

-- The tag is a run of sevens.
abbrev toy : Aead
toy = record {
  seal = λ n p a. p ++ replicate 16 7;
  open_sealed =
      λ n s a. if elem_at s (length s - 1) == 7 then some (take (length s - 16) s) else none;
}

abbrev toy_aead : List ℕ → Result Error Aead
toy_aead key = ok toy

abbrev wrapper : Wrapper
wrapper = record {
  peer_id = 3;
  key_id = 0;
  encrypt_aead = toy;
  encrypt_iv = replicate 8 9;
  decrypt_aead = toy;
  decrypt_iv = replicate 8 9;
  send_seq = 0;
  replay = zero_window;
}

abbrev keys : DataKeys
keys = record {
  encrypt_cipher = replicate 32 1;
  encrypt_implicit_iv = replicate 8 9;
  decrypt_cipher = replicate 32 1;
  decrypt_implicit_iv = replicate 8 9;
  cipher_key_len = 16;
}

abbrev config : Config
config = record {
  reneg_sec = 100;
  reneg_min_interval = 10;
  reap_window = 60;
  inbound_queue = 2;
  has_pool = true;
  has_transport = true;
  notifies_close = true;
}

-- The header, the tag and the ciphertext of a data packet.
abbrev packet : ℕ → List ℕ → List ℕ
packet seq bytes = 72 ∷ 0 ∷ 0 ∷ 3 ∷ 0 ∷ 0 ∷ 0 ∷ seq ∷ (replicate 16 7 ++ bytes)

abbrev forged : List ℕ
forged = 72 ∷ 0 ∷ 0 ∷ 3 ∷ 0 ∷ 0 ∷ 0 ∷ 9 ∷ (replicate 16 8 ++ (1 ∷ []))

abbrev started : Session
started = (publish 1000 11 3 wrapper (new_session 50)).0

-- A renegotiation that the peer asks for, one that the server starts, and data under both keys.
abbrev rollover : List Event
rollover =
    data_arrives 1001 false (packet 1 (1 ∷ 2 ∷ []))
    ∷ peer_asks 1010 51 1
    ∷ completes 1020 51 keys
    ∷ reneg_ticks 1200 52
    ∷ data_arrives 1201 false (packet 1 (3 ∷ []))
    ∷ data_arrives 1202 false (packet 2 (4 ∷ []))
    ∷ []

rollover_conns :
    live_conns (run toy_aead config rollover started) ≡ (1, 51) ∷ (0, 50) ∷ (2, 52) ∷ []
unfolding live_conns run handle_data_packet reneg_tick finish_renegotiation begin_renegotiation
    publish accept is_ping
rollover_conns = refl

rollover_bytes : (run toy_aead config rollover started).packets_in ≡ 3
unfolding run handle_data_packet reneg_tick finish_renegotiation begin_renegotiation publish accept
    is_ping
rollover_bytes = refl

route_control_packet-live_conns_example :
    map
      (λ (x : ℕ × ℕ). route_control_packet x.0 (run toy_aead config rollover started))
      (live_conns (run toy_aead config rollover started))
    ≡ map (λ (x : ℕ × ℕ). some x.1) (live_conns (run toy_aead config rollover started))
route_control_packet-live_conns_example =
    route_control_packet-live_conns toy_aead config 50 1000 11 3 wrapper rollover

forged_not_accepted : accepted_by_session 1002 forged started ≡ false
unfolding publish open_packet
forged_not_accepted = refl

handle_data_packet_rejected_example :
    handle_data_packet config 1002 false forged started ≡ (started, [])
handle_data_packet_rejected_example =
    handle_data_packet_rejected config 1002 false forged started forged_not_accepted

abbrev ending : List Event
ending = peer_asks 1010 51 1 ∷ reap_ticks 1020 ∷ reap_ticks 1100 ∷ closes embedder ∷ []

ending_releases : released (effects toy_aead config ending started) ≡ (11, 3) ∷ []
unfolding released effects begin_renegotiation publish reap_tick
ending_releases = refl

released_when_ended_example :
    released (effects toy_aead config ending started)
    ≡ (if (run toy_aead config ending started).stopped && config.has_pool then (11, 3) ∷ [] else [])
released_when_ended_example = released_when_ended toy_aead config 50 1000 11 3 wrapper ending
