-- ===== src/Reliable/Runs.antt =====
-- The reliability layer of internal/reliable/reliable.go on concrete packets.
use govpn.Base.{ℕ, ◌≡◌, refl, true, List, [], ◌∷◌, some, arith, replicate}
use govpn.Reliable.{
  Reliable, Entry, zero_entry, put_rejected, put_accepted, put_duplicate, new, next, mark_active,
  due, put, get, size, pid_min, holds, store, take_out, pid_in_range2,
}
use govpn.Reliable.Receive.{active_ids}
use govpn.Reliable.Delivery.{empty_buffer}
use govpn.Reliable.Answers.{
  Op, Output, put_op, get_op, put_output, delivered, nothing_ready, answers, buffer_answers,
  answers-buffer_answers,
}
use govpn.Reliable.Send.{InFlight, next-mark_active}
use govpn.Reliable.Backoff.{Dues, due-Dues}

abbrev receiver : Reliable
receiver = record {
  initial_timeout = 2_000_000_000;
  packet_id = 0;
  entries = replicate 3 zero_entry;
}

new_receiver : new 3 ≡ some receiver
unfolding new
new_receiver = refl

-- Two packets out of order, one too far ahead, one again.
abbrev arrivals : List Op
arrivals =
    put_op 1 (11 ∷ [])
    ∷ get_op
    ∷ put_op 3 (33 ∷ [])
    ∷ put_op 1 (11 ∷ [])
    ∷ put_op 0 (10 ∷ [])
    ∷ get_op
    ∷ get_op
    ∷ get_op
    ∷ put_op 0 (10 ∷ [])
    ∷ []

abbrev arrival_answers : List Output
arrival_answers =
    put_output put_accepted
    ∷ nothing_ready
    ∷ put_output put_rejected
    ∷ put_output put_duplicate
    ∷ put_output put_accepted
    ∷ delivered (10 ∷ [])
    ∷ delivered (11 ∷ [])
    ∷ nothing_ready
    ∷ put_output put_rejected
    ∷ []

arrivals_run : answers arrivals receiver ≡ arrival_answers
unfolding answers put get pid_min holds store pid_in_range2 take_out
arrivals_run = refl

answers-buffer_answers_example : answers arrivals receiver ≡ buffer_answers 3 arrivals empty_buffer
answers-buffer_answers_example =
    answers-buffer_answers 3 receiver arrivals new_receiver (omega arith) (omega arith)

-- Two packets in flight, ids 0 and 1.
abbrev flying : ℕ → Entry
flying id = record {
  active = true;
  timeout = 2;
  next_try = 100;
  packet_id = id;
  n_acks = 0;
  payload = id ∷ [];
}

abbrev sender : Reliable
sender = record {
  initial_timeout = 2;
  packet_id = 2;
  entries = flying 0 ∷ flying 1 ∷ zero_entry ∷ [];
}

sender_next : next sender ≡ some 2
unfolding next pid_min
sender_next = refl

next-mark_active_example :
    (r : Reliable) × (mark_active 2 sender ≡ some (2, r))
    × (r.packet_id ≡ 3)
    × (size r ≡ 3)
    × InFlight 3 r
unfolding active_ids
next-mark_active_example =
    next-mark_active sender 2 (omega arith) (omega arith) (omega arith) sender_next

due-Dues_example : Dues 100 sender (due 100 sender)
due-Dues_example = due-Dues 100 sender (omega arith)
