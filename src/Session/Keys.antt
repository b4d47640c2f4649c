-- ===== src/Session/Keys.antt =====
-- session.go and ovpn.go: the two key slots, the routing of control packets by key id, and the
-- renegotiation that moves the slots. What the new TLS handshake and Key Method 2 yield is given.
use govpn.Base.{
  ℕ, ◌+◌, ◌-◌, ◌%◌, ◌^◌, bit_and, Bool, true, false, not, ◌&&◌, ◌||◌, ltb, ◌==◌, if◌then◌else◌,
  Option, none, some, List, [], ◌∷◌, ◌++◌, Result, ok, err, guard, ◌>>◌,
}
use govpn.DataChannel.{Wrapper, Aead, DataKeys, Error, new_wrapper}
use govpn.Session.{
  empty_slot, Config, Session, Effect, deliver_control, send_soft_reset, answer_soft_reset,
  close_conn, close_all, close_with_reason, idle_reap, auth_failed, transition_window,
}

abbrev pub key_id_mask : ℕ
key_id_mask = 0x07

unfoldable pub next_key_id : ℕ → ℕ
next_key_id current =
    let next : ℕ = bit_and ((current + 1) % 2 ^ 8) key_id_mask in if next == 0 then 1 else next

-- Which pointer a connection has, if it has one.
abbrev pub is_conn : ℕ → Option ℕ → Bool
is_conn c none = false
is_conn c (some d) = c == d

abbrev pub is_some {ℓ} : {A : Type ℓ} → Option A → Bool
is_some none = false
is_some (some a) = true

unfoldable pub route_control_packet : ℕ → Session → Option ℕ
route_control_packet key_id s =
    if not (is_some s.primary.conn)
    then (if key_id == 0 then s.conn else none)
    else if key_id == s.primary.key_id
    then s.primary.conn
    else if is_some s.lame_duck.conn && key_id == s.lame_duck.key_id
    then s.lame_duck.conn
    else if is_some s.pending_reneg && key_id == s.pending_reneg_key_id
    then s.pending_reneg
    else none

abbrev pub touch_auth_traffic : ℕ → Session → Session
touch_auth_traffic now s = record s { last_auth_traffic = now }

-- One round of `pump`: a control packet that has a route counts as authenticated traffic.
unfoldable pub pump : ℕ → ℕ → Session → Session × List Effect
unfolding route_control_packet
pump now key_id s = if s.stopped then (s, []) else elim (route_control_packet key_id s) [
  | none ↦ (s, [])
  | some c ↦ (touch_auth_traffic now s, deliver_control c ∷ [])
]

unfoldable pub sweep_lame_duck : ℕ → Session → Session × List Effect
sweep_lame_duck now s =
    if is_some s.lame_duck.wrapper && not (ltb now s.lame_duck.must_die)
    then (record s { lame_duck = empty_slot }, close_all (s.lame_duck.conn ∷ []))
    else (s, [])

pub data Refusal : Type 0 where
  closing primary_not_established already_in_flight rate_limited key_id_mismatch : Refusal

-- The key id that the peer asks for is the one that the server expects.
abbrev pub is_wanted : Option ℕ → ℕ → Bool
is_wanted none next = true
is_wanted (some wanted) next = wanted == next

unfoldable pub await : ℕ → ℕ → Session → Session
unfolding next_key_id
await now new_conn s = record s {
  pending_reneg = some new_conn;
  pending_reneg_key_id = next_key_id s.primary.key_id;
  last_reneg_accepted = now;
}

-- `startRenegotiation` over a new connection: the key id, and the session that waits for it.
unfoldable pub start_renegotiation :
    Config → ℕ → ℕ → Option ℕ → Session → Result Refusal (ℕ × Session)
unfolding next_key_id await
start_renegotiation cfg now new_conn wanted s = do
  guard (not s.stopped) closing
  guard (is_some s.primary.conn && not (s.primary.established == 0)) primary_not_established
  guard (not (is_some s.pending_reneg)) already_in_flight
  guard
      (s.last_reneg_accepted == 0 || not (ltb (now - s.last_reneg_accepted) cfg.reneg_min_interval))
      rate_limited
  guard (is_wanted wanted (next_key_id s.primary.key_id)) key_id_mismatch
  ok (next_key_id s.primary.key_id, await now new_conn s)

-- The session that goes on waiting, with what is sent over the new connection.
abbrev pub asked : Session → Effect → Result Refusal (ℕ × Session) → Session × List Effect
asked s out (err e) = (s, [])
asked s out (ok (next, s₁)) = (s₁, out ∷ [])

-- `beginRenegotiation`: the peer asks, and the answer to its request is the acknowledgement.
unfoldable pub begin_renegotiation : Config → ℕ → ℕ → ℕ → Session → Session × List Effect
unfolding start_renegotiation
begin_renegotiation cfg now new_conn key_id s =
    elim (start_renegotiation cfg now new_conn (some key_id) s) [
      | err e ↦ (s, [])
      | ok (next, s₁) ↦ (s₁, answer_soft_reset new_conn ∷ [])
    ]

-- `checkReneg`: the server asks, when the primary key has been in use for long enough.
unfoldable pub check_reneg : Config → ℕ → ℕ → Session → Session × List Effect
unfolding start_renegotiation
check_reneg cfg now new_conn s =
    if s.primary.established == 0
      || (ltb (now - s.primary.established) cfg.reneg_sec || not cfg.has_transport)
    then (s, [])
    else asked s (send_soft_reset new_conn) (start_renegotiation cfg now new_conn none s)

-- A tick of `runReneg`.
unfoldable pub reneg_tick : Config → ℕ → ℕ → Session → Session × List Effect
unfolding sweep_lame_duck check_reneg
reneg_tick cfg now new_conn s =
    let (s₁, swept) = sweep_lame_duck now s in
    let (s₂, asked) = check_reneg cfg now new_conn s₁ in (s₂, swept ++ asked)

-- `abandon` of `runRenegotiation`.
unfoldable pub abandon : ℕ → Session → Session × List Effect
abandon new_conn s = (
  (if is_conn new_conn s.pending_reneg then record s { pending_reneg = none } else s),
  close_conn new_conn ∷ [],
)

-- The new key takes the primary slot, and the old one the slot of the lame duck.
unfoldable pub swap : ℕ → ℕ → ℕ → Wrapper → Session → Session × List Effect
swap now new_conn key_id wrapper s = (
  record s {
    lame_duck = record s.primary { must_die = now + transition_window };
    primary = record {
      key_id = key_id;
      conn = some new_conn;
      wrapper = some wrapper;
      established = now;
      must_die = 0;
    };
    renegotiations = s.renegotiations + 1;
    pending_reneg = none;
  },
  close_all (s.lame_duck.conn ∷ []),
)

-- `runRenegotiation` once its handshake is done and the credentials are verified, from the lock on.
unfoldable pub finish_renegotiation :
    (List ℕ → Result Error Aead) → ℕ → ℕ → ℕ → DataKeys → Session → Session × List Effect
unfolding new_wrapper swap
finish_renegotiation new_aead now new_conn key_id keys s =
    if s.stopped || not (is_conn new_conn s.pending_reneg)
    then (s, close_conn new_conn ∷ [])
    else elim (new_wrapper new_aead keys s.peer_id key_id) [
      | err e ↦ (record s { pending_reneg = none }, close_conn new_conn ∷ [])
      | ok wrapper ↦ swap now new_conn key_id wrapper s
    ]

-- Its end when the credentials are refused.
unfoldable pub refuse_renegotiation : Config → ℕ → Session → Session × List Effect
unfolding abandon close_with_reason
refuse_renegotiation cfg new_conn s =
    let (s₁, abandoned) = abandon new_conn s in
    let (s₂, closed) = close_with_reason cfg auth_failed s₁ in (s₂, abandoned ++ closed)

-- `enforceRenegotiationWindow`, when the window has passed.
unfoldable pub expire_renegotiation : ℕ → Session → Session × List Effect
expire_renegotiation new_conn s =
    if is_conn new_conn s.pending_reneg
    then (record s { pending_reneg = none }, close_conn new_conn ∷ [])
    else (s, [])

-- A tick of `runReap`.
unfoldable pub reap_tick : Config → ℕ → Session → Session × List Effect
unfolding close_with_reason
reap_tick cfg now s =
    if ltb (now - s.last_auth_traffic) cfg.reap_window
    then (s, [])
    else close_with_reason cfg idle_reap s
