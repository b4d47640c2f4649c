-- ===== src/CtrlConn.antt =====
-- internal/ctrlconn/conn.go: one client's control channel as a stream connection.
-- A wait is not modelled: a call that would block ends as `waiting`, and the call after it goes on
-- from there. The transport, the peer's address and the clocks are `Env`; a time is a count of
-- nanoseconds from Go's zero time, and the wrapper's clock counts seconds. The wrapper is the
-- session's, and the operations here are the ones between two uses of it by another Conn.
pub mod Api
pub mod InOrder
pub mod Delivery
pub mod Stream
mod Resend
pub mod Runs
use govpn.Base.{
  ℕ, zero, suc, ◌+◌, Bool, false, not, ◌&&◌, leb, ◌==◌, if◌then◌else◌, none, some, List, [], ◌∷◌,
  ◌++◌, replicate, Result, ok, err,
}
use govpn.Wire.{ControlPacket, op_ack_v1, append_plaintext, append_header_byte}
use govpn.TlsCrypt
use govpn.TlsCrypt.{Crypto, Wrapper, wrap}
use govpn.Reliable.{
  Reliable, put_rejected, size, tls_timeout, zero_entry, next, mark_active, set_payload, ack, put,
  get,
}
use govpn.Reliable.AckSet.{AckSet, add, drain, peek}

abbrev pub max_payload : ℕ
max_payload = 1150

-- `P_CONTROL_V1`.
abbrev pub op_control_v1 : ℕ
op_control_v1 = 4

-- `NSendBuffers` and `NRecBuffers`.
abbrev pub n_send_buffers : ℕ
n_send_buffers = 6

abbrev pub n_rec_buffers : ℕ
n_rec_buffers = 12

-- `accepts` says whether the transport's `WriteTo` returned without an error.
pub record Env : Type 0 where
  pub crypto : Crypto
  pub accepts : List ℕ → Bool
  pub now : ℕ
  pub unix_now : ℕ

-- `end_of_file` and `closed_pipe` are `io.EOF` and `io.ErrClosedPipe`.
pub data Error : Type 0 where
  end_of_file closed_pipe timeout transport : Error
  wrapping : TlsCrypt.Error → Error

pub record Conn : Type 0 where
  pub local_sid : List ℕ
  pub remote_sid : List ℕ
  pub key_id : ℕ
  pub wrapper : Wrapper
  pub send_rel : Reliable
  pub recv_rel : Reliable
  pub acks : AckSet
  pub read_buf : List ℕ
  pub closed : Bool
  pub read_deadline : ℕ
  pub write_deadline : ℕ

abbrev pub window : ℕ → Reliable
window n = record { initial_timeout = tls_timeout; packet_id = 0; entries = replicate n zero_entry }

abbrev pub new_with_key_id : List ℕ → List ℕ → Wrapper → ℕ → Conn
new_with_key_id local_sid remote_sid wrapper key_id = record {
  local_sid = local_sid;
  remote_sid = remote_sid;
  key_id = key_id;
  wrapper = wrapper;
  send_rel = window n_send_buffers;
  recv_rel = window n_rec_buffers;
  acks = [];
  read_buf = [];
  closed = false;
  read_deadline = 0;
  write_deadline = 0;
}

-- A call's end: the connection, the datagrams given to the transport, and what the call returned.
pub data Outcome : Type 0 where
  done waiting : Outcome
  failed : Error → Outcome

pub record Sends : Type 0 where
  pub conn : Conn
  pub sent : List (List ℕ)
  pub outcome : Outcome

-- The loop over `recvRel.Get`: the first argument bounds its rounds.
unfoldable pub get_all : ℕ → Conn → Conn
get_all zero c = c
get_all (suc fuel) c = elim (get c.recv_rel) [
  | none ↦ c
  | some (payload, r) ↦ get_all fuel (record c { recv_rel = r; read_buf = c.read_buf ++ payload })
]

-- Every round but the last frees one entry.
abbrev pub get_ready : Conn → Conn
get_ready c = get_all (suc (size c.recv_rel)) c

-- The packet's acknowledgments leave the send window.
abbrev pub take_acks : ControlPacket → Conn → Conn
take_acks cp c = record c { send_rel = ack cp.acks c.send_rel }

-- The packet's payload goes to the receive window.
unfoldable pub absorb_payload : ControlPacket → Conn → Conn
absorb_payload cp c =
    let (r, answer) = put cp.packet_id cp.payload c.recv_rel in
    elim answer [
      | put_rejected ↦ record c { recv_rel = r }
      | _ ↦ get_ready (record c { recv_rel = r; acks = add cp.packet_id c.acks })
    ]

unfoldable pub absorb : ControlPacket → Conn → Conn
unfolding absorb_payload
absorb cp c =
    if not (cp.opcode == op_ack_v1)
    then absorb_payload cp (take_acks cp c)
    else get_ready (take_acks cp c)

abbrev pub control_packet : ℕ → ℕ → List ℕ → List ℕ → Conn → ControlPacket
control_packet opcode id acks payload c = record {
  opcode = opcode;
  key_id = c.key_id;
  session_id = c.local_sid;
  acks = acks;
  remote_session_id = c.remote_sid;
  packet_id = id;
  payload = payload;
}

-- The acknowledgments taken are gone whatever the wrapper answers.
unfoldable pub build_control_packet :
    Env → ℕ → ℕ → List ℕ → Conn → Conn × Result TlsCrypt.Error (List ℕ)
build_control_packet env opcode id payload c =
    let (acks, rest) = drain c.acks in
    let plaintext : List ℕ = append_plaintext (control_packet opcode id acks payload c) [] in
    let header : List ℕ = append_header_byte [] opcode c.key_id ++ c.local_sid in
    let (w, bytes) = wrap env.crypto env.unix_now [] header plaintext c.wrapper in
    (record c { acks = rest; wrapper = w }, bytes)

abbrev pub transmit : Env → List ℕ → Conn → Sends
transmit env bytes c = record {
  conn = c;
  sent = bytes ∷ [];
  outcome = if env.accepts bytes then done else failed transport;
}

abbrev pub stop : Outcome → Conn → Sends
stop outcome c = record { conn = c; sent = []; outcome = outcome }

-- Its errors are dropped.
unfoldable pub flush_ack_only : Env → Conn → Sends
unfolding build_control_packet
flush_ack_only env c =
    let (c₁, bytes) = build_control_packet env op_ack_v1 0 [] c in
    if peek c.acks
    then elim bytes [ err e ↦ stop done c₁ | ok b ↦ record (transmit env b c₁) { outcome = done } ]
    else stop done c

unfoldable pub deliver : Env → ControlPacket → Conn → Sends
unfolding absorb flush_ack_only
deliver env cp c = flush_ack_only env (absorb cp c)

unfoldable pub expired : ℕ → ℕ → Bool
expired deadline now = not (deadline == 0) && leb deadline now

-- Why a call with no free slot ends.
abbrev pub no_slot : Env → Conn → Outcome
no_slot env c =
    if c.closed
    then failed closed_pipe
    else if expired c.write_deadline env.now
    then failed timeout
    else waiting

-- The slot is marked before the packet is built, and filled after. An index out of range would
-- panic; `next` gives none.
unfoldable pub send_in_slot : Env → ℕ → List ℕ → ℕ → Conn → Sends
unfolding build_control_packet
send_in_slot env opcode payload idx c = elim (mark_active idx c.send_rel) [
  | none ↦ stop waiting c
  | some (id, r) ↦
      let (c₁, bytes) = build_control_packet env opcode id payload (record c { send_rel = r }) in
      elim bytes [
        | err e ↦ stop (failed (wrapping e)) c₁
        | ok b ↦ elim (set_payload idx b c₁.send_rel) [
          | none ↦ stop waiting c₁
          | some r₁ ↦ transmit env b (record c₁ { send_rel = r₁ })
        ]
      ]
]

unfoldable pub write_chunk : Env → ℕ → List ℕ → Conn → Sends
unfolding send_in_slot expired
write_chunk env opcode payload c = elim (next c.send_rel) [
  | none ↦ stop (no_slot env c) c
  | some idx ↦ send_in_slot env opcode payload idx c
]

unfoldable pub deliver_and_respond : Env → ControlPacket → ℕ → List ℕ → Conn → Sends
unfolding absorb write_chunk
deliver_and_respond env cp opcode payload c = write_chunk env opcode payload (absorb cp c)

abbrev pub send_reset : Env → ℕ → Conn → Sends
send_reset env opcode c = write_chunk env opcode [] c
