-- ===== src/Udp/Queue.antt =====
-- What a listener's queue keeps of a burst that nobody reads, of calls one after the other.
use govpn.Base.{
  true, false, refl, take-append_more, drop-append_more, drop-suc, take_all, ℕ, suc, ◌+◌, ◌-◌, ◌≤◌,
  ◌<◌, ◌≡◌, sym, ap, subst, ◌∙◌, ltb, Bool-cases, inl, inr, List, [], ◌∷◌, ◌++◌, length, take, drop,
  min, append-nil, append_assoc, length-append, length-take, length-drop, take-append_length, arith,
}
use govpn.Udp.{
  UdpDropPolicy, drop_newest, drop_oldest, UdpDatagram, enqueue, enqueue_step, enqueue_steps, send,
  Phase, sending, evicting, resending, counting, finished, Action, puts, evicts, gives_up, nothing,
  counted, when_full,
}

-- The queue after a burst, and how many of it were lost.
unfoldable pub enqueue_all :
    UdpDropPolicy → ℕ → List UdpDatagram → List UdpDatagram → List UdpDatagram × ℕ
enqueue_all policy depth [] inbound = (inbound, 0)
enqueue_all policy depth (dgram ∷ dgrams) inbound =
    let (queue, lost) = enqueue policy depth dgram inbound in
    let (last, more) = enqueue_all policy depth dgrams queue in (last, lost + more)

-- The first `depth` datagrams, or the last ones.
abbrev pub kept : UdpDropPolicy → ℕ → List UdpDatagram → List UdpDatagram
kept drop_newest depth dgrams = take depth dgrams
kept drop_oldest depth dgrams = drop (length dgrams - depth) dgrams

-- What `enqueue` makes of a queue within its depth.
abbrev Enqueued : UdpDropPolicy → ℕ → List UdpDatagram → List UdpDatagram × ℕ → Type 0
Enqueued policy depth all (queue, lost) =
    (queue ≡ kept policy depth all) × (lost ≡ length all - depth)

-- The first of some operations.
first_step :
    (n : ℕ) (policy : UdpDropPolicy) (depth : ℕ) (dgram : UdpDatagram) (phase next : Phase)
    (inbound queue : List UdpDatagram) (action : Action)
    → enqueue_step policy depth dgram phase inbound ≡ (next, queue, action)
    → enqueue_steps (suc n) policy depth dgram phase inbound ≡ (
      (enqueue_steps n policy depth dgram next queue).0,
      counted action + (enqueue_steps n policy depth dgram next queue).1,
    )
unfolding enqueue_steps
first_step n policy depth dgram phase next inbound queue action e =
    ap
      (λ (x : Phase × List UdpDatagram × Action). (
        (enqueue_steps n policy depth dgram x.0 x.1).0,
        counted x.2 + (enqueue_steps n policy depth dgram x.0 x.1).1,
      ))
      e

module _ (policy : UdpDropPolicy) (depth : ℕ) (dgram : UdpDatagram)
    (inbound : List UdpDatagram) where
  step_puts :
      length inbound < depth
      → enqueue_step policy depth dgram sending inbound ≡ (finished, inbound ++ (dgram ∷ []), puts)
  unfolding enqueue_step send
  step_puts h =
      let room : ltb (length inbound) depth ≡ true = ground (arith, h) in
      rw (room, enqueue_step) refl

  step_puts_again :
      length inbound < depth
      → enqueue_step policy depth dgram resending inbound
        ≡ (counting, inbound ++ (dgram ∷ []), puts)
  unfolding enqueue_step send
  step_puts_again h =
      let room : ltb (length inbound) depth ≡ true = ground (arith, h) in
      rw (room, enqueue_step) refl

  step_full :
      length inbound ≡ depth
      → enqueue_step policy depth dgram sending inbound ≡ when_full policy inbound
  unfolding enqueue_step send
  step_full h =
      let full : ltb (length inbound) depth ≡ false = ground (arith, h) in
      rw (full, enqueue_step) refl

-- A call with room in the queue, in a full one, and in a full one whose oldest datagram gives way.
pub enqueue_sent :
    (policy : UdpDropPolicy) (depth : ℕ) (dgram : UdpDatagram) (inbound : List UdpDatagram)
    → length inbound < depth
    → enqueue policy depth dgram inbound ≡ (inbound ++ (dgram ∷ []), 0)
unfolding enqueue enqueue_steps
enqueue_sent policy depth dgram inbound h =
    first_step 3 policy depth dgram sending finished inbound (inbound ++ (dgram ∷ [])) puts
      (step_puts policy depth dgram inbound h)

enqueue_newest :
    (depth : ℕ) (dgram : UdpDatagram) (inbound : List UdpDatagram)
    → length inbound ≡ depth
    → enqueue drop_newest depth dgram inbound ≡ (inbound, 1)
unfolding enqueue enqueue_steps
enqueue_newest depth dgram inbound h =
    first_step 3 drop_newest depth dgram sending counting inbound inbound gives_up
      (step_full drop_newest depth dgram inbound h)

enqueue_oldest :
    (depth : ℕ) (dgram : UdpDatagram) (inbound : List UdpDatagram)
    → 1 ≤ depth
    → length inbound ≡ depth
    → enqueue drop_oldest depth dgram inbound ≡ (drop 1 inbound ++ (dgram ∷ []), 1)
unfolding enqueue enqueue_steps enqueue_step
enqueue_oldest depth dgram [] positive h = absurd (omega (arith, h, positive))
enqueue_oldest depth dgram (oldest ∷ rest) positive h =
    first_step 3 drop_oldest depth dgram sending evicting (oldest ∷ rest) (oldest ∷ rest) nothing
      (step_full drop_oldest depth dgram (oldest ∷ rest) h)
    ∙ ap (λ (x : List UdpDatagram × ℕ). (x.0, counted nothing + x.1))
        (first_step 2 drop_oldest depth dgram evicting resending (oldest ∷ rest) rest evicts refl
          ∙ ap (λ (x : List UdpDatagram × ℕ). (x.0, counted evicts + x.1))
              (first_step 1 drop_oldest depth dgram resending counting rest (rest ++ (dgram ∷ []))
                puts (step_puts_again drop_oldest depth dgram rest (omega (arith, h)))))

module _ (depth : ℕ) (dgram : UdpDatagram) (inbound : List UdpDatagram) (positive : 1 ≤ depth) where
  length_all : length (inbound ++ (dgram ∷ [])) ≡ length inbound + 1
  length_all = length-append inbound (dgram ∷ [])

  kept_room :
      (policy : UdpDropPolicy)
      → length inbound < depth
      → inbound ++ (dgram ∷ []) ≡ kept policy depth (inbound ++ (dgram ∷ []))
  kept_room drop_newest h =
      sym (take_all depth (inbound ++ (dgram ∷ [])) (omega (arith, length_all)))
  kept_room drop_oldest h =
      let zero_left : 0 ≡ length (inbound ++ (dgram ∷ [])) - depth = omega (arith, length_all) in
      ap (λ n. drop n (inbound ++ (dgram ∷ []))) zero_left

  enqueue_room :
      (policy : UdpDropPolicy)
      → length inbound < depth
      → Enqueued policy depth (inbound ++ (dgram ∷ [])) (enqueue policy depth dgram inbound)
  enqueue_room policy h =
      subst (Enqueued policy depth (inbound ++ (dgram ∷ [])))
        (sym (enqueue_sent policy depth dgram inbound h))
        (kept_room policy h, omega (arith, length_all))

  enqueue_full :
      (policy : UdpDropPolicy)
      → length inbound ≡ depth
      → Enqueued policy depth (inbound ++ (dgram ∷ [])) (enqueue policy depth dgram inbound)
  enqueue_full drop_newest h =
      subst (Enqueued drop_newest depth (inbound ++ (dgram ∷ [])))
        (sym (enqueue_newest depth dgram inbound h))
        (sym (take-append_length depth inbound (dgram ∷ []) h), omega (arith, length_all))
  enqueue_full drop_oldest h =
      let all : List UdpDatagram = inbound ++ (dgram ∷ []) in
      let one_left : 1 ≡ length all - depth = omega (arith, length_all) in
      subst (Enqueued drop_oldest depth all) (sym (enqueue_oldest depth dgram inbound positive h)) (
        sym (drop-append_more 1 inbound (dgram ∷ []) (omega arith)) ∙ ap (λ n. drop n all) one_left,
        one_left,
      )

  enqueue-Enqueued :
      (policy : UdpDropPolicy)
      → length inbound ≤ depth
      → Enqueued policy depth (inbound ++ (dgram ∷ [])) (enqueue policy depth dgram inbound)
  enqueue-Enqueued policy h = elim (Bool-cases (ltb (length inbound) depth)) [
    | inl less ↦ enqueue_room policy (ground arith)
    | inr not_less ↦ enqueue_full policy (ground arith)
  ]

length-kept :
    (policy : UdpDropPolicy) (depth : ℕ) (all : List UdpDatagram)
    → length (kept policy depth all) ≡ min depth (length all)
length-kept drop_newest depth all = length-take depth all
length-kept drop_oldest depth all = ground (arith, length-drop (length all - depth) all)

few_kept :
    (policy : UdpDropPolicy) (depth : ℕ) (all : List UdpDatagram)
    → length all ≤ depth
    → kept policy depth all ≡ all
few_kept drop_newest depth all h = take_all depth all h
few_kept drop_oldest depth all h =
    let zero_left : length all - depth ≡ 0 = omega arith in ap (λ n. drop n all) zero_left

-- One more datagram behind a burst.
module _ (depth : ℕ) (all : List UdpDatagram) (dgram : UdpDatagram) (positive : 1 ≤ depth) where
  many_kept :
      (policy : UdpDropPolicy)
      → depth ≤ length all
      → kept policy depth (kept policy depth all ++ (dgram ∷ []))
        ≡ kept policy depth (all ++ (dgram ∷ []))
  many_kept drop_newest h =
      take-append_length depth (take depth all) (dgram ∷ []) (ground (arith, length-take depth all))
      ∙ sym (take-append_more depth all (dgram ∷ []) h)
  many_kept drop_oldest h =
      let n : ℕ = length all - depth in
      let one_left : length (drop n all ++ (dgram ∷ [])) - depth ≡ 1 =
        omega (arith, length-append (drop n all) (dgram ∷ []), length-drop n all) in
      let more_left : suc n ≡ length (all ++ (dgram ∷ [])) - depth =
        omega (arith, length-append all (dgram ∷ [])) in
      ap (λ k. drop k (drop n all ++ (dgram ∷ []))) one_left
      ∙ drop-append_more 1 (drop n all) (dgram ∷ []) (omega (arith, length-drop n all))
      ∙ ap (λ xs. xs ++ (dgram ∷ [])) (drop-suc n all)
      ∙ sym (drop-append_more (suc n) all (dgram ∷ []) (omega arith))
      ∙ ap (λ k. drop k (all ++ (dgram ∷ []))) more_left

  kept-kept :
      (policy : UdpDropPolicy)
      → kept policy depth (kept policy depth all ++ (dgram ∷ []))
        ≡ kept policy depth (all ++ (dgram ∷ []))
  kept-kept policy = elim (Bool-cases (ltb (length all) depth)) [
    | inl few ↦
        ap (λ xs. kept policy depth (xs ++ (dgram ∷ []))) (few_kept policy depth all (ground arith))
    | inr many ↦ many_kept policy (ground arith)
  ]

enqueue_all_from :
    (policy : UdpDropPolicy) (depth : ℕ) (burst all inbound : List UdpDatagram)
    → 1 ≤ depth
    → inbound ≡ kept policy depth all
    → ((enqueue_all policy depth burst inbound).0 ≡ kept policy depth (all ++ burst))
      × ((enqueue_all policy depth burst inbound).1 + (length all - depth)
          ≡ length (all ++ burst) - depth)
unfolding enqueue_all
enqueue_all_from policy depth [] all inbound positive e =
    let same : all ≡ all ++ [] = sym (append-nil all) in
    (e ∙ ap (kept policy depth) same, omega (arith, ap {B = ℕ} length same))
enqueue_all_from policy depth (dgram ∷ burst) all inbound positive e =
    let n : length inbound ≡ min depth (length all) =
      ap {B = ℕ} length e ∙ length-kept policy depth all in
    let now = enqueue-Enqueued depth dgram inbound positive policy (ground (arith, n)) in
    let queue_kept : (enqueue policy depth dgram inbound).0
        ≡ kept policy depth (all ++ (dgram ∷ [])) =
      now.0
      ∙ ap (λ xs. kept policy depth (xs ++ (dgram ∷ []))) e
      ∙ kept-kept depth all dgram positive policy in
    let later =
      enqueue_all_from policy depth burst (all ++ (dgram ∷ []))
        (enqueue policy depth dgram inbound).0 positive queue_kept in
    let same : (all ++ (dgram ∷ [])) ++ burst ≡ all ++ (dgram ∷ burst) =
      append_assoc all (dgram ∷ []) burst in
    (
      later.0 ∙ ap (kept policy depth) same,
      ground (
        arith,
        later.1,
        now.1,
        n,
        ap {B = ℕ} length same,
        length-append inbound (dgram ∷ []),
        length-append all (dgram ∷ []),
      ),
    )

-- A listener's queue is within its depth, which is positive, and a burst of datagrams comes before the
-- next read, each enqueued before the next one comes. Then the queue holds the first `depth` of the datagrams that it had and of the burst, in
-- their order, or under the policy of dropping the oldest the last `depth`; and as many are counted as
-- lost as are not kept.
pub enqueue_all-kept :
    (policy : UdpDropPolicy) (depth : ℕ) (burst inbound : List UdpDatagram)
    → 1 ≤ depth
    → length inbound ≤ depth
    → enqueue_all policy depth burst inbound
      ≡ (kept policy depth (inbound ++ burst), length (inbound ++ burst) - depth)
enqueue_all-kept policy depth burst inbound positive fits =
    let r =
      enqueue_all_from policy depth burst inbound inbound positive
        (sym (few_kept policy depth inbound fits)) in
    let lost : (enqueue_all policy depth burst inbound).1 ≡ length (inbound ++ burst) - depth =
      omega (arith, r.1) in
    λ i. (r.0 i, lost i)
