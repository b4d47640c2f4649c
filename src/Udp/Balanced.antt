-- ===== src/Udp/Balanced.antt =====
-- One channel operation of a call keeps the account of a listener's datagrams.
use govpn.Base.{
  Bool, true, false, ℕ, ◌+◌, ◌≤◌, ◌<◌, ◌≡◌, refl, ap, sym, ◌∙◌, inl, inr, ltb, Bool-cases, some,
  List, [], ◌∷◌, ◌++◌, length, append_assoc, length-append, arith, subst, take, some_inj,
  option-keeps_when,
}
use govpn.Udp.{
  UdpDropPolicy, drop_newest, drop_oldest, UdpDatagram, Phase, sending, evicting, resending,
  counting, finished, Action, when_full, send, enqueue_step,
}
use govpn.Udp.Concurrent.{Call, Channel, after_action}

-- A datagram that no send has taken or refused.
abbrev pub is_undecided : Phase → Bool
is_undecided counting = false
is_undecided finished = false
is_undecided _ = true

abbrev pub is_counting : Phase → Bool
is_counting counting = true
is_counting _ = false

abbrev pub is_evicting : Phase → Bool
is_evicting evicting = true
is_evicting _ = false

abbrev pub is_resending : Phase → Bool
is_resending resending = true
is_resending _ = false

abbrev pub one_more : Bool → ℕ → ℕ
one_more true n = 1 + n
one_more false n = n

-- How many calls are in such a phase.
abbrev pub number : (Phase → Bool) → List Call → ℕ
number is [] = 0
number is (c ∷ cs) = one_more (is c.phase) (number is cs)

-- The counter against the datagrams refused and evicted, with `k` calls that still count, `v` before the
-- eviction and `r` before the second send.
abbrev pub Drops : UdpDropPolicy → ℕ → ℕ → ℕ → ℕ → ℕ → ℕ → Type 0
Drops drop_newest dropped refused evicted k v r =
    (refused ≡ dropped + k) × (evicted ≡ 0) × (v + r ≡ 0)
Drops drop_oldest dropped refused evicted k v r =
    (refused ≤ dropped + k) × (evicted ≤ dropped + k + r)

-- `n` calls have come, of which `u` are undecided.
pub record Balanced (policy : UdpDropPolicy) (depth n u k v r : ℕ) (ch : Channel) : Type 0 where
  pub in_order : ch.accepted ≡ ch.gone ++ ch.inbound
  pub within : length ch.inbound ≤ depth
  pub all : n ≡ length ch.accepted + ch.refused + u
  pub drops : Drops policy ch.dropped ch.refused ch.evicted k v r

-- The account of a channel with these calls.
abbrev pub Accounts : UdpDropPolicy → ℕ → ℕ → List Call × Channel → Type 0
Accounts policy depth n (cs, ch) =
    Balanced policy depth n (number is_undecided cs) (number is_counting cs) (number is_evicting cs)
      (number is_resending cs) ch

Drops-same :
    (policy : UdpDropPolicy) (d f e k v r k' v' r' : ℕ)
    → k ≡ k'
    → v ≡ v'
    → r ≡ r'
    → Drops policy d f e k v r
    → Drops policy d f e k' v' r'
Drops-same drop_newest d f e k v r k' v' r' p q s (a, b, c) =
    (omega (arith, a, p), b, omega (arith, c, q, s))
Drops-same drop_oldest d f e k v r k' v' r' p q s (a, b) =
    (omega (arith, a, p), omega (arith, b, p, s))

-- A datagram given up after the eviction, or the eviction itself, is under the policy of dropping the
-- oldest only.
Drops-evicting :
    (policy : UdpDropPolicy) (d f e k v r : ℕ)
    → Drops policy d f e k (1 + v) r
    → Drops policy d f (e + 1) k v (1 + r) × Drops policy d f e k v (1 + r)
Drops-evicting drop_newest d f e k v r (a, b, c) = absurd (omega (arith, c))
Drops-evicting drop_oldest d f e k v r (a, b) = ((a, omega (arith, b)), (a, omega (arith, b)))

Drops-resending :
    (policy : UdpDropPolicy) (d f e k v r : ℕ)
    → Drops policy d f e k v (1 + r)
    → Drops policy d (f + 1) e (1 + k) v r × Drops policy d f e (1 + k) v r
Drops-resending drop_newest d f e k v r (a, b, c) = absurd (omega (arith, c))
Drops-resending drop_oldest d f e k v r (a, b) =
    ((omega (arith, a), omega (arith, b)), (omega (arith, a), omega (arith, b)))

Drops-counting :
    (policy : UdpDropPolicy) (d f e k v r : ℕ)
    → Drops policy d f e (1 + k) v r
    → Drops policy (d + 1) f e k v r
Drops-counting drop_newest d f e k v r (a, b, c) = (omega (arith, a), b, c)
Drops-counting drop_oldest d f e k v r (a, b) = (omega (arith, a), omega (arith, b))

module _ (policy : UdpDropPolicy) (depth n : ℕ) where
  pub Balanced-same :
      (u k v r u' k' v' r' : ℕ) (ch : Channel)
      → u ≡ u'
      → k ≡ k'
      → v ≡ v'
      → r ≡ r'
      → Balanced policy depth n u k v r ch
      → Balanced policy depth n u' k' v' r' ch
  Balanced-same u k v r u' k' v' r' ch o p q s h = record {
    in_order = h.in_order;
    within = h.within;
    all = omega (arith, h.all, o);
    drops = Drops-same policy ch.dropped ch.refused ch.evicted k v r k' v' r' p q s h.drops;
  }

  -- The account in which a call is in the phase, and these are the numbers of the others.
  abbrev pub With : Phase → ℕ → ℕ → ℕ → ℕ → Channel → Type 0
  With p u k v r ch =
      Balanced policy depth n (one_more (is_undecided p) u) (one_more (is_counting p) k)
        (one_more (is_evicting p) v) (one_more (is_resending p) r) ch

  module _ (dgram : UdpDatagram) (u k v r : ℕ) (ch : Channel) where
    abbrev pub Leaves : Phase × List UdpDatagram × Action → Type 0
    Leaves (p, queue, action) = With p u k v r (after_action dgram queue action ch)

    sent_fits :
        (queue : List UdpDatagram)
        → send depth dgram ch.inbound ≡ some queue
        → (ch.inbound ++ (dgram ∷ []) ≡ queue) × (length queue ≤ depth)
    unfolding send
    sent_fits queue e = elim (Bool-cases (ltb (length ch.inbound) depth)) [
      | inl room ↦
          let longer : ch.inbound ++ (dgram ∷ []) ≡ queue = some_inj (rw room at e) in
          let size = length-append ch.inbound (dgram ∷ []) in
          let fits : length ch.inbound < depth = ground arith in
          (longer, omega (arith, fits, size, ap {B = ℕ} length longer))
      | inr full ↦ absurd (ground (arith, full, e))
    ]

    put_in_order :
        (queue : List UdpDatagram)
        → ch.accepted ≡ ch.gone ++ ch.inbound
        → ch.inbound ++ (dgram ∷ []) ≡ queue
        → ch.accepted ++ (dgram ∷ []) ≡ ch.gone ++ queue
    put_in_order queue h e =
        ap (λ xs. xs ++ (dgram ∷ [])) h
        ∙ append_assoc ch.gone ch.inbound (dgram ∷ [])
        ∙ ap (λ xs. ch.gone ++ xs) e

    full-Leaves :
        (p : UdpDropPolicy) → p ≡ policy → With sending u k v r ch → Leaves (when_full p ch.inbound)
    full-Leaves drop_newest e h = record {
      in_order = h.in_order;
      within = h.within;
      all = omega (arith, h.all);
      drops =
          subst (λ p. Drops p ch.dropped (ch.refused + 1) ch.evicted (1 + k) v r) e
            (let (a, b, c) =
                subst (λ p. Drops p ch.dropped ch.refused ch.evicted k v r) (sym e) h.drops in
              (omega (arith, a), b, c));
    }
    full-Leaves drop_oldest e h = record {
      in_order = h.in_order;
      within = h.within;
      all = omega (arith, h.all);
      drops =
          subst (λ p. Drops p ch.dropped ch.refused ch.evicted k (1 + v) r) e
            (subst (λ p. Drops p ch.dropped ch.refused ch.evicted k v r) (sym e) h.drops);
    }

    evicting-Leaves :
        (inbound : List UdpDatagram)
        → ch.inbound ≡ inbound
        → With evicting u k v r ch
        → Leaves (enqueue_step policy depth dgram evicting inbound)
    unfolding enqueue_step
    evicting-Leaves [] e h = record {
      in_order = h.in_order ∙ ap (λ xs. ch.gone ++ xs) e;
      within = omega arith;
      all = h.all;
      drops = (Drops-evicting policy ch.dropped ch.refused ch.evicted k v r h.drops).1;
    }
    evicting-Leaves (oldest ∷ rest) e h = record {
      in_order =
          h.in_order
          ∙ ap (λ xs. ch.gone ++ xs) e
          ∙ sym (append_assoc ch.gone (oldest ∷ []) rest)
          ∙ ap (λ xs. (ch.gone ++ take 1 xs) ++ rest) (sym e);
      within = omega (arith, h.within, ap {B = ℕ} length e);
      all = h.all;
      drops = (Drops-evicting policy ch.dropped ch.refused ch.evicted k v r h.drops).0;
    }

    pub step-Leaves :
        (p : Phase) → With p u k v r ch → Leaves (enqueue_step policy depth dgram p ch.inbound)
    unfolding enqueue_step
    step-Leaves sending h =
        option-keeps_when Leaves (send depth dgram ch.inbound) _ _ (λ _. full-Leaves policy refl h)
          (λ queue e.
            let (longer, fits) = sent_fits queue e in
            record {
              in_order = put_in_order queue h.in_order longer;
              within = fits;
              all = omega (arith, h.all, length-append ch.accepted (dgram ∷ []));
              drops = h.drops;
            })
    step-Leaves evicting h = evicting-Leaves ch.inbound refl h
    step-Leaves resending h =
        let drops = Drops-resending policy ch.dropped ch.refused ch.evicted k v r h.drops in
        option-keeps_when Leaves (send depth dgram ch.inbound) _ _
          (λ _. record {
            in_order = h.in_order;
            within = h.within;
            all = omega (arith, h.all);
            drops = drops.0;
          })
          (λ queue e.
            let (longer, fits) = sent_fits queue e in
            record {
              in_order = put_in_order queue h.in_order longer;
              within = fits;
              all = omega (arith, h.all, length-append ch.accepted (dgram ∷ []));
              drops = drops.1;
            })
    step-Leaves counting h = record {
      in_order = h.in_order;
      within = h.within;
      all = h.all;
      drops = Drops-counting policy ch.dropped ch.refused ch.evicted k v r h.drops;
    }
    step-Leaves finished h = h
