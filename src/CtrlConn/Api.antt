-- ===== src/CtrlConn/Api.antt =====
-- internal/ctrlconn/conn.go: reading and writing, the retransmit loop, and the end of a connection.
use govpn.Base.{
  ℕ, zero, suc, ◌+◌, Bool, true, false, ltb, if◌then◌else◌, Option, none, some, List, [], ◌∷◌, ◌++◌,
  length, take, drop, Result, ok, err,
}
use govpn.Wire.{ControlPacket}
use govpn.Reliable.{size, due, empty}
use govpn.CtrlConn.{
  Env, Error, end_of_file, timeout, Conn, done, Sends, stop, max_payload, op_control_v1, expired,
  deliver, deliver_and_respond, write_chunk, send_reset,
}

-- The bytes read, or why there are none; `none` is a call that waits.
unfoldable pub read : Env → ℕ → Conn → Conn × Option (Result Error (List ℕ))
unfolding expired
read env size c =
    if ltb 0 (length c.read_buf)
    then (record c { read_buf = drop size c.read_buf }, some (ok (take size c.read_buf)))
    else if c.closed
    then (c, some (err end_of_file))
    else if expired c.read_deadline env.now
    then (c, some (err timeout))
    else (c, none)

-- The datagrams of `first` come before those of the call after it.
abbrev pub sent_before : Sends → ℕ × Sends → ℕ × Sends
sent_before first (written, rest) = (written, record rest { sent = first.sent ++ rest.sent })

-- The loop over the chunks of `p`: the first argument bounds its rounds, and `written` bytes are done.
unfoldable pub write_chunks : ℕ → Env → List ℕ → ℕ → Conn → ℕ × Sends
unfolding write_chunk
write_chunks zero env p written c = (written, stop done c)
write_chunks (suc fuel) env [] written c = (written, stop done c)
write_chunks (suc fuel) env (b ∷ p) written c =
    let chunk : List ℕ = take max_payload (b ∷ p) in
    let first : Sends = write_chunk env op_control_v1 chunk c in
    elim first.outcome [
      | done ↦
          sent_before first (
            write_chunks fuel env (drop (length chunk) (b ∷ p)) (written + length chunk) first.conn)
      | _ ↦ (written, first)
    ]

-- Every round takes at least one byte.
unfoldable pub write : Env → List ℕ → Conn → ℕ × Sends
unfolding write_chunks
write env p c = write_chunks (length p) env p 0 c

-- One tick: every entry that is due is sent again. The first argument bounds the rounds: an entry
-- that was sent is due again only later.
unfoldable pub resend_due : ℕ → Env → Conn → Sends
resend_due zero env c = stop done c
resend_due (suc fuel) env c = elim (due env.now c.send_rel) [
  | none ↦ stop done c
  | some (payload, id, r) ↦
      let rest : Sends = resend_due fuel env (record c { send_rel = r }) in
      record rest { sent = payload ∷ rest.sent }
]

unfoldable pub retransmit : Env → Conn → Sends
unfolding resend_due
retransmit env c = if c.closed then stop done c else resend_due (size c.send_rel) env c

-- One poll of `WaitDrained`: `none` goes on waiting.
unfoldable pub drained : Env → ℕ → Conn → Option Bool
drained env deadline c =
    if empty c.send_rel
    then some true
    else if c.closed
    then some false
    else if ltb env.now deadline
    then none
    else some false

abbrev pub close : Conn → Conn
close c = record c { closed = true }

abbrev pub set_read_deadline : ℕ → Conn → Conn
set_read_deadline t c = record c { read_deadline = t }

abbrev pub set_write_deadline : ℕ → Conn → Conn
set_write_deadline t c = record c { write_deadline = t }

abbrev pub set_deadline : ℕ → Conn → Conn
set_deadline t c = record c { read_deadline = t; write_deadline = t }

pub data Event : Type 0 where
  delivered : ControlPacket → Event
  answered : ControlPacket → ℕ → List ℕ → Event
  reset : ℕ → Event
  wrote : List ℕ → Event
  reads : ℕ → Event
  ticked : Event
  closed : Event
  read_deadline : ℕ → Event
  write_deadline : ℕ → Event
  deadline : ℕ → Event

-- The bytes that a read gave its caller.
abbrev pub bytes_read : Option (Result Error (List ℕ)) → List ℕ
bytes_read (some (ok bytes)) = bytes
bytes_read _ = []

-- The connection, and all that its reads have given.
unfoldable pub step : Env → Event → Conn × List ℕ → Conn × List ℕ
unfolding deliver deliver_and_respond write read retransmit
step env (delivered cp) (c, out) = ((deliver env cp c).conn, out)
step env (answered cp opcode payload) (c, out) =
    ((deliver_and_respond env cp opcode payload c).conn, out)
step env (reset opcode) (c, out) = ((send_reset env opcode c).conn, out)
step env (wrote p) (c, out) = ((write env p c).1.conn, out)
step env (reads n) (c, out) = let (c₁, answer) = read env n c in (c₁, out ++ bytes_read answer)
step env ticked (c, out) = ((retransmit env c).conn, out)
step env closed (c, out) = (close c, out)
step env (read_deadline t) (c, out) = (set_read_deadline t c, out)
step env (write_deadline t) (c, out) = (set_write_deadline t c, out)
step env (deadline t) (c, out) = (set_deadline t c, out)

-- Each event comes with the clocks and the transport of its time.
unfoldable pub run : List (Env × Event) → Conn × List ℕ → Conn × List ℕ
unfolding step
run [] s = s
run ((env, e) ∷ es) s = run es (step env e s)
