-- ===== src/Session/Data.antt =====
-- session.go: the data packets of a session, Read and Write.
-- Where Go's select finds two channels ready, the choice is an argument.
use govpn.Base.{
  ℕ, ◌+◌, Bool, true, false, not, ◌&&◌, ltb, leb, ◌==◌, if◌then◌else◌, none, some, List, [], ◌∷◌,
  ◌++◌, length, take, elem_at, ok, err,
}
use govpn.DataChannel.{
  Wrapper, Error, too_short, auth, replayed, packet_id_exhausted, ping_absorbed, cipher_key_len,
  cipher_failed, open_packet, seal, seal_ping, equal_bytes,
}
use govpn.Session.{Config, Session, Effect, send_datagram, close_with_reason, client_exit_notify}
use govpn.Session.Keys.{touch_auth_traffic}

abbrev pub occ_magic : List ℕ
occ_magic =
    0x28 ∷ 0x7f ∷ 0x34 ∷ 0x6b ∷ 0xd4 ∷ 0xef ∷ 0x7a ∷ 0x81 ∷ 0x2d ∷ 0x56 ∷ 0xb8 ∷ 0xd3 ∷ 0xaf ∷ 0xc5
    ∷ 0x45 ∷ 0x9c ∷ []

abbrev pub occ_exit : ℕ
occ_exit = 0x06

unfoldable pub is_exit_notify : List ℕ → Bool
unfolding equal_bytes
is_exit_notify plaintext =
    leb 17 (length plaintext)
    && (equal_bytes (take 16 plaintext) occ_magic && elem_at plaintext 16 == occ_exit)

-- `errors.Is(err, datachan.ErrPingAbsorbed)`.
abbrev pub is_ping_absorbed : Error → Bool
is_ping_absorbed ping_absorbed = true
is_ping_absorbed too_short = false
is_ping_absorbed auth = false
is_ping_absorbed replayed = false
is_ping_absorbed packet_id_exhausted = false
is_ping_absorbed cipher_key_len = false
is_ping_absorbed cipher_failed = false

-- The last select of `handleDataPacket`. `stop_first` is its choice when the queue has room and the
-- session has ended.
unfoldable pub enqueue : Config → Bool → List ℕ → Session → Session
enqueue cfg stop_first plaintext s =
    if ltb (length s.ip_inbound) cfg.inbound_queue && not (s.stopped && stop_first)
    then record s { ip_inbound = s.ip_inbound ++ (plaintext ∷ []) }
    else if s.stopped
    then s
    else record s { inbound_queue_dropped = s.inbound_queue_dropped + 1 }

-- What an authenticated packet that is no ping does.
unfoldable pub handle_plaintext : Config → ℕ → Bool → List ℕ → Session → Session × List Effect
unfolding enqueue close_with_reason is_exit_notify
handle_plaintext cfg now stop_first plaintext s =
    let s₁ : Session = touch_auth_traffic now s in
    if is_exit_notify plaintext then close_with_reason cfg client_exit_notify s₁ else (
      enqueue cfg stop_first plaintext
          (record s₁ { packets_in = s₁.packets_in + 1; bytes_in = s₁.bytes_in + length plaintext }),
      [],
    )

-- An authenticated ping.
abbrev pub handle_ping : ℕ → Session → Session
handle_ping now s = record (touch_auth_traffic now s) { keepalives_in = s.keepalives_in + 1 }

abbrev pub set_primary : Wrapper → Session → Session
set_primary w s = record s { primary = record s.primary { wrapper = some w } }

abbrev pub set_lame_duck : Wrapper → Session → Session
set_lame_duck w s = record s { lame_duck = record s.lame_duck { wrapper = some w } }

-- The old key, while it is still allowed.
unfoldable pub try_lame_duck : Config → ℕ → Bool → List ℕ → Session → Session × List Effect
unfolding open_packet handle_plaintext
try_lame_duck cfg now stop_first packet s = elim s.lame_duck.wrapper [
  | none ↦ (s, [])
  | some w ↦
      if not (ltb now s.lame_duck.must_die) then (s, []) else elim (open_packet w [] packet).1 [
        | ok plaintext ↦
            handle_plaintext cfg now stop_first plaintext
              (set_lame_duck (open_packet w [] packet).0 s)
        | err e ↦
            if is_ping_absorbed e
            then (handle_ping now (set_lame_duck (open_packet w [] packet).0 s), [])
            else (set_lame_duck (open_packet w [] packet).0 s, [])
      ]
]

unfoldable pub handle_data_packet : Config → ℕ → Bool → List ℕ → Session → Session × List Effect
unfolding open_packet handle_plaintext try_lame_duck
handle_data_packet cfg now stop_first packet s = elim s.primary.wrapper [
  | none ↦ (s, [])
  | some w ↦ elim (open_packet w [] packet).1 [
    | ok plaintext ↦
        handle_plaintext cfg now stop_first plaintext (set_primary (open_packet w [] packet).0 s)
    | err e ↦
        if is_ping_absorbed e
        then (handle_ping now (set_primary (open_packet w [] packet).0 s), [])
        else try_lame_duck cfg now stop_first packet (set_primary (open_packet w [] packet).0 s)
  ]
]

pub data ReadResult : Type 0 where
  read_packet : List ℕ → ReadResult
  buffer_too_small : ℕ → ReadResult
  eof read_blocks : ReadResult

-- `Read` into a buffer of `n` bytes: a packet that does not fit is kept.
unfoldable pub read : Bool → ℕ → Session → Session × ReadResult
read stop_first n s = elim s.pending_read [
  | some packet ↦
      if ltb n (length packet)
      then (s, buffer_too_small (length packet))
      else (record s { pending_read = none }, read_packet packet)
  | none ↦ elim s.ip_inbound [
    | [] ↦ (s, (if s.stopped then eof else read_blocks))
    | packet ∷ packets ↦
        if s.stopped && stop_first
        then (s, eof)
        else if ltb n (length packet)
        then (
          record s { ip_inbound = packets; pending_read = some packet },
          buffer_too_small (length packet),
        )
        else (record s { ip_inbound = packets }, read_packet packet)
  ]
]

pub data WriteResult : Type 0 where
  closed not_established no_transport write_failed : WriteResult
  seal_failed : Error → WriteResult
  written : ℕ → WriteResult

-- `Write`; `sent` is whether the socket took the datagram.
unfoldable pub write : Config → Bool → List ℕ → Session → Session × WriteResult × List Effect
unfolding seal
write cfg sent p s = if s.stopped then (s, closed, []) else elim s.primary.wrapper [
  | none ↦ (s, not_established, [])
  | some w ↦ elim (seal w [] p) [
    | err e ↦ (s, seal_failed e, [])
    | ok (sealed, w₁) ↦
        let s₁ : Session = set_primary w₁ s in
        if not cfg.has_transport
        then (s₁, no_transport, [])
        else if not sent
        then (s₁, write_failed, send_datagram sealed ∷ [])
        else (
          record s₁ { packets_out = s₁.packets_out + 1; bytes_out = s₁.bytes_out + length p },
          written (length p),
          send_datagram sealed ∷ [],
        )
  ]
]

-- A ping goes past `Write` and its counters.
unfoldable pub emit_ping : Config → Session → Session × List Effect
unfolding seal_ping
emit_ping cfg s = elim s.primary.wrapper [
  | none ↦ (s, [])
  | some w ↦ elim (seal_ping w []) [
    | err e ↦ (s, [])
    | ok (sealed, w₁) ↦
        (set_primary w₁ s, (if cfg.has_transport then send_datagram sealed ∷ [] else []))
  ]
]
