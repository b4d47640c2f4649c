-- ===== src/Session/Routing.antt =====
-- session.go: every live control connection of a session gets the packets of its key id.
use govpn.Base.{
  ℕ, ◌<◌, true, not, ◌&&◌, ◌==◌, if◌then◌else◌, Option, none, some, ◌≡◌, refl, List, [], ◌∷◌, ◌++◌,
  map, Result, arith,
}
use govpn.DataChannel.{Wrapper, Aead, Error}
use govpn.Session.{Config, Session, publish, new_session}
use govpn.Session.Keys.{is_some, next_key_id, route_control_packet}
use govpn.Session.KeyIds.{IsKeyed, next_key_id_lem, run-IsKeyed}
use govpn.Session.Events.{Event, run}

abbrev live_slot : ℕ → Option ℕ → List (ℕ × ℕ)
live_slot key_id none = []
live_slot key_id (some c) = (key_id, c) ∷ []

-- The key ids and connections of the slots and of the renegotiation under way.
unfoldable pub live_conns : Session → List (ℕ × ℕ)
live_conns s =
    live_slot s.primary.key_id s.primary.conn
    ++ (live_slot s.lame_duck.key_id s.lame_duck.conn
        ++ live_slot s.pending_reneg_key_id s.pending_reneg)

publish-IsKeyed :
    (conn now ip peer_id : ℕ) (w : Wrapper)
    → IsKeyed (publish now ip peer_id w (new_session conn)).0
unfolding publish
publish-IsKeyed conn now ip peer_id w = record {
  live = refl;
  primary_range = omega (arith);
  lame_duck_range = omega (arith);
  succeeds = λ e. absurd (ground (arith, e));
  follows = λ e. absurd (ground (arith, e));
}

-- The routing by the fields that it reads.
abbrev route : Option ℕ → ℕ → Option ℕ → ℕ → Option ℕ → ℕ → Option ℕ → ℕ → Option ℕ
route conn pk pc lk lc nk nc k =
    if not (is_some pc)
    then (if k == 0 then conn else none)
    else if k == pk
    then pc
    else if is_some lc && k == lk
    then lc
    else if is_some nc && k == nk
    then nc
    else none

routes :
    (conn : Option ℕ) (pk : ℕ) (pc : Option ℕ) (lk : ℕ) (lc : Option ℕ) (nk : ℕ) (nc : Option ℕ)
    → is_some pc ≡ true
    → lk < 8
    → pk < 8
    → (is_some lc ≡ true → pk ≡ next_key_id lk)
    → (is_some nc ≡ true → nk ≡ next_key_id pk)
    → map
        (λ (x : ℕ × ℕ). route conn pk pc lk lc nk nc x.0)
        (live_slot pk pc ++ (live_slot lk lc ++ live_slot nk nc))
      ≡ map (λ (x : ℕ × ℕ). some x.1) (live_slot pk pc ++ (live_slot lk lc ++ live_slot nk nc))
routes conn pk none lk lc nk nc live hl hp old new = absurd (ground (arith, live))
routes conn pk (some c) lk none nk none live hl hp old new = ground (arith)
routes conn pk (some c) lk (some d) nk none live hl hp old new =
    ground (arith, old refl, next_key_id_lem lk hl)
routes conn pk (some c) lk none nk (some e) live hl hp old new =
    ground (arith, new refl, next_key_id_lem pk hp)
routes conn pk (some c) lk (some d) nk (some e) live hl hp old new =
    ground (arith, old refl, new refl, next_key_id_lem pk hp, next_key_id_lem lk hl)

-- After any sequence of events of a published session, the routing by key id gives each live control
-- connection, the one in use, the old one and the one of a renegotiation under way, its own packets.
pub route_control_packet-live_conns :
    (new_aead : List ℕ → Result Error Aead) (cfg : Config) (conn now ip peer_id : ℕ) (w : Wrapper)
    (es : List Event)
    → let s : Session = run new_aead cfg es (publish now ip peer_id w (new_session conn)).0 in
      map (λ (x : ℕ × ℕ). route_control_packet x.0 s) (live_conns s)
      ≡ map (λ (x : ℕ × ℕ). some x.1) (live_conns s)
unfolding route_control_packet live_conns
route_control_packet-live_conns new_aead cfg conn now ip peer_id w es =
    let s : Session = run new_aead cfg es (publish now ip peer_id w (new_session conn)).0 in
    let v : IsKeyed s =
      run-IsKeyed new_aead cfg es (publish now ip peer_id w (new_session conn)).0
        (publish-IsKeyed conn now ip peer_id w) in
    routes s.conn s.primary.key_id s.primary.conn s.lame_duck.key_id s.lame_duck.conn
      s.pending_reneg_key_id s.pending_reneg v.live v.lame_duck_range v.primary_range v.succeeds
      v.follows
