-- ===== src/CtrlConn/Runs.antt =====
-- A control connection on concrete packets.
use govpn.Base.{
  ℕ, ◌+◌, ◌≡◌, refl, true, List, [], ◌∷◌, ◌++◌, length, replicate, ◌%◌, ◌^◌, some, none, ok, err,
  map,
}
use govpn.Wire.{append_header_byte, ControlPacket}
use govpn.TlsCrypt.{Crypto, Wrapper, keyed, wrap}
use govpn.Reliable.{
  zero_entry, put, get, take_out, next, mark_active, set_payload, ack, holds, store, pid_in_range1,
  pid_min, pid_in_range2,
}
use govpn.Reliable.AckSet.{drain, peek, add}
use govpn.CtrlConn.{
  Conn, Env, done, waiting, failed, timeout, closed_pipe, end_of_file, new_with_key_id,
  op_control_v1, absorb, get_all, build_control_packet, send_in_slot, write_chunk,
}
use govpn.CtrlConn.Api.{Event, run, read, write, write_chunks, close, set_read_deadline}
use govpn.CtrlConn.InOrder.{payloads}
use govpn.CtrlConn.Stream.{run-InOrder}

abbrev plain : Crypto
plain = record { hmac = λ key message. replicate 32 0; ctr = λ key iv bytes. bytes }

abbrev env_at : ℕ → Env
env_at now = record { crypto = plain; accepts = λ bytes. true; now = now; unix_now = 1 }

abbrev sid : List ℕ
sid = replicate 8 1

abbrev peer_sid : List ℕ
peer_sid = replicate 8 2

abbrev wrapper : Wrapper
wrapper = keyed (replicate 256 0) true

-- The peer's payloads.
abbrev peer : ℕ → List ℕ
peer id = (id + 10) ∷ []

abbrev packet : ℕ → ControlPacket
packet id = record {
  opcode = op_control_v1;
  key_id = 0;
  session_id = peer_sid;
  acks = [];
  remote_session_id = sid;
  packet_id = id;
  payload = peer id;
}

-- Out of order and repeated, with a read on the way, a write, and an end.
abbrev events : List (Env × Event)
events =
    map (λ e. (env_at 5, e))
      (Event.delivered (packet 1)
        ∷ Event.answered (packet 0) 8 []
        ∷ Event.reads 1
        ∷ Event.delivered (packet 0)
        ∷ Event.wrote (7 ∷ 8 ∷ [])
        ∷ Event.ticked
        ∷ Event.delivered (packet 2)
        ∷ Event.closed
        ∷ [])

run-InOrder_example :
    let (c, out) = run events (new_with_key_id sid peer_sid wrapper 0, []) in
    (n : ℕ) × (out ++ c.read_buf ≡ payloads peer n)
    × (c.recv_rel.packet_id ≡ n % 2 ^ 32)
    × (get c.recv_rel ≡ none)
run-InOrder_example =
    run-InOrder peer sid peer_sid wrapper 0 events
      ((λ _. refl), ((λ _. refl), (tt, ((λ _. refl), (tt, (tt, ((λ _. refl), (tt, tt))))))))

abbrev start : Conn
start = new_with_key_id sid peer_sid wrapper 0

-- Two packets out of order, absorbed.
abbrev two_packets : Conn
two_packets = absorb (packet 0) (absorb (packet 1) start)

first_read :
    read (env_at 5) 1 two_packets ≡ (record two_packets { read_buf = 11 ∷ [] }, some (ok (10 ∷ [])))
unfolding read absorb get_all put get take_out next mark_active set_payload wrap drain peek add ack
    holds store pid_min pid_in_range2
first_read = refl

both_acked : (two_packets.acks ≡ 1 ∷ 0 ∷ []) × (two_packets.recv_rel.packet_id ≡ 2)
unfolding absorb get_all put get take_out next mark_active set_payload wrap drain peek add ack holds
    store pid_min pid_in_range2
both_acked = (refl, refl)

end_of_stream : read (env_at 5) 4 (close start) ≡ (close start, some (err end_of_file))
unfolding read
end_of_stream = refl

late_read :
    read (env_at 5) 4 (set_read_deadline 5 start) ≡ (set_read_deadline 5 start, some (err timeout))
unfolding read
late_read = refl

one_datagram :
    let (written, s) = write (env_at 5) (7 ∷ 8 ∷ []) start in
    (written ≡ 2) × (length s.sent ≡ 1) × (s.outcome ≡ done)
unfolding append_header_byte write write_chunks write_chunk send_in_slot build_control_packet put
    get take_out next mark_active set_payload wrap drain peek add ack holds store pid_min
    pid_in_range2
one_datagram = (refl, refl, refl)

-- A connection whose six slots are all taken.
abbrev full : Conn
full = record start {
  send_rel = record start.send_rel {
    packet_id = 6;
    entries =
        map (λ id. record zero_entry { active = true; packet_id = id })
          (0 ∷ 1 ∷ 2 ∷ 3 ∷ 4 ∷ 5 ∷ []);
  };
}

no_free_slot :
    ((write_chunk (env_at 5) op_control_v1 [] full).outcome ≡ waiting)
    × ((write_chunk (env_at 5) op_control_v1 [] (close full)).outcome ≡ failed closed_pipe)
unfolding write_chunk next pid_in_range1 pid_min
no_free_slot = (refl, refl)
