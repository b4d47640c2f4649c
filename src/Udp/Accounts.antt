-- ===== src/Udp/Accounts.antt =====
-- What becomes of the datagrams of calls that interleave at one listener's channel.
use govpn.Base.{
  ◌-◌, ◌≤◌, option-keeps, if◌then◌else◌, ltb, Bool-cases, inl, inr, Bool, true, false, zero, suc, ℕ,
  ◌+◌, ◌≡◌, refl, ap, sym, ◌∙◌, List, [], ◌∷◌, ◌++◌, length, append_assoc, arith,
}
use govpn.Udp.{
  UdpDropPolicy, drop_newest, drop_oldest, UdpDatagram, Phase, sending, evicting, resending,
  counting, finished, Action, when_full, send, enqueue_step,
}
use govpn.Udp.Concurrent.{
  Call, Channel, empty_channel, continue_call, continue_at, receive, Event, arrives, continues,
  reads, step, run, arrivals,
}
use govpn.Udp.Balanced.{
  Balanced, Accounts, Drops, number, one_more, is_undecided, is_counting, is_evicting, is_resending,
  Balanced-same, step-Leaves,
}

one_more_add : (b : Bool) (m n : ℕ) → one_more b m + n ≡ one_more b (m + n)
one_more_add true m n = omega arith
one_more_add false m n = refl

one_more_right : (b : Bool) (m n : ℕ) → one_more b m + n ≡ m + one_more b n
one_more_right true m n = omega arith
one_more_right false m n = refl

module _ (policy : UdpDropPolicy) (depth n : ℕ) where
  -- The account with these calls and so many others.
  abbrev Among : ℕ → ℕ → ℕ → ℕ → List Call × Channel → Type 0
  Among u k v r (cs, ch) =
      Balanced policy depth n (number is_undecided cs + u) (number is_counting cs + k)
        (number is_evicting cs + v) (number is_resending cs + r) ch

  continue_at-Among :
      (i : ℕ) (cs : List Call) (ch : Channel) (u k v r : ℕ)
      → Among u k v r (cs, ch)
      → Among u k v r (continue_at policy depth i cs ch)
  unfolding continue_at continue_call
  continue_at-Among i [] ch u k v r h = h
  continue_at-Among zero (c ∷ cs) ch u k v r h =
      let U : ℕ = number is_undecided cs in
      let K : ℕ = number is_counting cs in
      let V : ℕ = number is_evicting cs in
      let R : ℕ = number is_resending cs in
      let p : Phase = (enqueue_step policy depth c.dgram c.phase ch.inbound).0 in
      Balanced-same policy depth n _ _ _ _ _ _ _ _ _ (sym (one_more_add (is_undecided p) U u))
        (sym (one_more_add (is_counting p) K k)) (sym (one_more_add (is_evicting p) V v))
        (sym (one_more_add (is_resending p) R r))
        (step-Leaves policy depth n c.dgram (U + u) (K + k) (V + v) (R + r) ch c.phase (
          Balanced-same policy depth n _ _ _ _ _ _ _ _ ch (one_more_add (is_undecided c.phase) U u)
            (one_more_add (is_counting c.phase) K k) (one_more_add (is_evicting c.phase) V v)
            (one_more_add (is_resending c.phase) R r) h))
  continue_at-Among (suc i) (c ∷ cs) ch u k v r h =
      let after : List Call = (continue_at policy depth i cs ch).0 in
      let rest =
        continue_at-Among i cs ch (one_more (is_undecided c.phase) u)
          (one_more (is_counting c.phase) k) (one_more (is_evicting c.phase) v)
          (one_more (is_resending c.phase) r)
          (Balanced-same policy depth n _ _ _ _ _ _ _ _ ch
            (one_more_right (is_undecided c.phase) (number is_undecided cs) u)
            (one_more_right (is_counting c.phase) (number is_counting cs) k)
            (one_more_right (is_evicting c.phase) (number is_evicting cs) v)
            (one_more_right (is_resending c.phase) (number is_resending cs) r) h) in
      Balanced-same policy depth n _ _ _ _ _ _ _ _ _
        (sym (one_more_right (is_undecided c.phase) (number is_undecided after) u))
        (sym (one_more_right (is_counting c.phase) (number is_counting after) k))
        (sym (one_more_right (is_evicting c.phase) (number is_evicting after) v))
        (sym (one_more_right (is_resending c.phase) (number is_resending after) r)) rest

  receive-Accounts :
      (cs : List Call) (ch : Channel) (inbound : List UdpDatagram)
      → ch.inbound ≡ inbound
      → Accounts policy depth n (cs, ch)
      → Accounts policy depth n (cs, receive inbound ch)
  receive-Accounts cs ch [] e h = h
  receive-Accounts cs ch (front ∷ rest) e h = record {
    in_order =
        h.in_order ∙ ap (λ xs. ch.gone ++ xs) e ∙ sym (append_assoc ch.gone (front ∷ []) rest);
    within = omega (arith, h.within, ap {B = ℕ} length e);
    all = h.all;
    drops = h.drops;
  }

run-Accounts_from :
    (policy : UdpDropPolicy) (depth : ℕ) (events : List Event) (n : ℕ) (s : List Call × Channel)
    → Accounts policy depth n s
    → Accounts policy depth (arrivals events n) (run policy depth events s)
unfolding run arrivals step
run-Accounts_from policy depth [] n s h = h
run-Accounts_from policy depth (arrives dgram ∷ events) n (cs, ch) h =
    run-Accounts_from policy depth events (n + 1) _ (record {
      in_order = h.in_order;
      within = h.within;
      all = omega (arith, h.all);
      drops = h.drops;
    })
run-Accounts_from policy depth (continues i ∷ events) n (cs, ch) h =
    run-Accounts_from policy depth events n (continue_at policy depth i cs ch) (
      Balanced-same policy depth n _ _ _ _ _ _ _ _ _ (omega arith) (omega arith) (omega arith)
        (omega arith)
        (continue_at-Among policy depth n i cs ch 0 0 0 0 (
          Balanced-same policy depth n _ _ _ _ _ _ _ _ ch (omega arith) (omega arith) (omega arith)
            (omega arith) h)))
run-Accounts_from policy depth (reads ∷ events) n (cs, ch) h =
    run-Accounts_from policy depth events n (cs, receive ch.inbound ch)
      (receive-Accounts policy depth n cs ch ch.inbound refl h)

nothing_yet : (policy : UdpDropPolicy) → Drops policy 0 0 0 0 0 0
nothing_yet drop_newest = (refl, refl, refl)
nothing_yet drop_oldest = (omega arith, omega arith)

-- What a call for `dgram` that comes to a send in this phase puts on the channel: its datagram, exactly
-- if there is room.
abbrev pub Puts : UdpDropPolicy → ℕ → UdpDatagram → Channel → Phase → Type 0
Puts policy depth dgram ch phase =
    (continue_call policy depth (record { dgram = dgram; phase = phase }) ch).1.accepted
    ≡ (if ltb (length ch.inbound) depth then ch.accepted ++ (dgram ∷ []) else ch.accepted)

sending-Puts :
    (policy : UdpDropPolicy) (depth : ℕ) (dgram : UdpDatagram) (ch : Channel)
    → Puts policy depth dgram ch sending
unfolding continue_call enqueue_step send
sending-Puts drop_newest depth dgram ch = elim (Bool-cases (ltb (length ch.inbound) depth)) [
  | inl room ↦ rw (room, continue_call, enqueue_step) refl
  | inr full ↦ rw (full, continue_call, enqueue_step) refl
]
sending-Puts drop_oldest depth dgram ch = elim (Bool-cases (ltb (length ch.inbound) depth)) [
  | inl room ↦ rw (room, continue_call, enqueue_step) refl
  | inr full ↦ rw (full, continue_call, enqueue_step) refl
]

resending-Puts :
    (policy : UdpDropPolicy) (depth : ℕ) (dgram : UdpDatagram) (ch : Channel)
    → Puts policy depth dgram ch resending
unfolding continue_call enqueue_step send
resending-Puts policy depth dgram ch = elim (Bool-cases (ltb (length ch.inbound) depth)) [
  | inl room ↦ rw (room, continue_call, enqueue_step) refl
  | inr full ↦ rw (full, continue_call, enqueue_step) refl
]

-- How many operations a call has left, at most.
abbrev pub left : Phase → ℕ
left sending = 4
left evicting = 3
left resending = 2
left counting = 1
left finished = 0

continue_call-left :
    (policy : UdpDropPolicy) (depth : ℕ) (c : Call) (ch : Channel)
    → left (continue_call policy depth c ch).0.phase ≤ left c.phase - 1
unfolding continue_call enqueue_step
continue_call-left policy depth c ch = phase_left policy c.phase ch.inbound
  where
    full_left :
        (policy : UdpDropPolicy) (inbound : List UdpDatagram)
        → left (when_full policy inbound).0 ≤ 3
    full_left drop_newest inbound = omega arith
    full_left drop_oldest inbound = omega arith

    phase_left :
        (policy : UdpDropPolicy) (p : Phase) (inbound : List UdpDatagram)
        → left (enqueue_step policy depth c.dgram p inbound).0 ≤ left p - 1
    phase_left policy sending inbound =
        option-keeps (λ (x : Phase × List UdpDatagram × Action). left x.0 ≤ 3)
          (send depth c.dgram inbound) _ _ (full_left policy inbound) (λ queue. omega arith)
    phase_left policy evicting [] = omega arith
    phase_left policy evicting (oldest ∷ rest) = omega arith
    phase_left policy resending inbound =
        option-keeps (λ (x : Phase × List UdpDatagram × Action). left x.0 ≤ 1)
          (send depth c.dgram inbound) _ _ (omega arith) (λ queue. omega arith)
    phase_left policy counting inbound = omega arith
    phase_left policy finished inbound = omega arith

-- From an empty channel, in whatever order the channel operations of any calls of handlePacket and of
-- reads come: the channel is within its depth; what was put on it is, in order, what has left it, read
-- or evicted, and then what it holds; each call has put its datagram on it once, or none of its sends
-- took it, or this is open. Under the policy of dropping the newest nothing is evicted, and as many
-- datagrams are counted as are refused, but for the calls that are about to count. Under the other one
-- the refused are no more than are counted or about to be, and so are the evicted but for the calls
-- that are about to send again. A call that comes to either of its sends then puts its datagram on the
-- channel exactly if there is room, and any operation of a call leaves it fewer of its at most four.
pub run-Accounts :
    (policy : UdpDropPolicy) (depth : ℕ) (events : List Event) (dgram : UdpDatagram) (c : Call)
    → let s : List Call × Channel = run policy depth events ([], empty_channel) in
      Accounts policy depth (arrivals events 0) s
      × Puts policy depth dgram s.1 sending
      × Puts policy depth dgram s.1 resending
      × (left (continue_call policy depth c s.1).0.phase ≤ left c.phase - 1)
run-Accounts policy depth events dgram c =
    let s : List Call × Channel = run policy depth events ([], empty_channel) in
    (
      run-Accounts_from policy depth events 0 ([], empty_channel)
          (record {
            in_order = refl;
            within = omega arith;
            all = refl;
            drops = nothing_yet policy;
          }),
      sending-Puts policy depth dgram s.1,
      resending-Puts policy depth dgram s.1,
      continue_call-left policy depth c s.1,
    )
