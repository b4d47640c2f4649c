-- ===== src/Replay/Step.antt =====
-- One call of `accept` keeps the window in step with the list of accepted numbers.
use govpn.Base.{
  member, ℕ, zero, suc, ◌-◌, ◌*◌, ◌%◌, ◌^◌, ◌≤◌, ◌<◌, bit_and, bit_or, ◌≡◌, ap, ◌∙◌, Bool, true,
  false, not, ltb, leb, ◌==◌, if◌then◌else◌, List, [], ◌∷◌, arith, Bool-cases, inl, inr, ==_iff,
}
use govpn.Base.Bits.{
  test_bit, bit_and-pow, test_bit-bit_or_self, test_bit-bit_or_ne, test_bit-shl_below,
  test_bit-shl_above, test_bit-mod, test_bit-zero,
}
use native.Mathlib.Nat.{one-le-pow}
use govpn.Replay.{ReplayWindow, replay_window_size, advance, mark, accept}
use govpn.Replay.Spec.{newest, is_fresh, to_bit, grow, member-le-newest, Represents}

-- The bits of a window that holds one number.
one_bits : (seq d : ℕ) → d ≤ seq → test_bit 1 d ≡ to_bit (member (seq - d) (seq ∷ []))
unfolding member test_bit
one_bits seq zero h = ground arith
one_bits seq (suc d) h = ground (arith, test_bit-zero d)

first-Represents :
    (seq : ℕ) → Represents (record { init = true; highest = seq; seen = 1 }) (seq ∷ [])
unfolding newest member
first-Represents seq = record {
  unset = λ e. cc;
  top = λ e. omega arith;
  top_seen = λ e. ground arith;
  bits = λ e d hd hs. unfold member in one_bits seq d hs;
}

-- Bit `suc d` after a move by `shift`: a bit of before, or none.
moved_bit :
    (seen shift d : ℕ)
    → suc d < 64
    → test_bit (bit_or (seen * 2 ^ shift % 2 ^ 64) 1) (suc d)
      ≡ (if ltb (suc d) shift then 0 else test_bit seen (suc d - shift))
moved_bit seen shift d h =
    test_bit-bit_or_ne (seen * 2 ^ shift % 2 ^ 64) 0 (suc d) (λ e. omega arith)
    ∙ test_bit-mod (seen * 2 ^ shift) 64 (suc d) h
    ∙ elim (Bool-cases (ltb (suc d) shift)) [
      | inl low ↦ rw low (test_bit-shl_below seen shift (suc d) (ground arith))
      | inr high ↦ rw high (test_bit-shl_above seen shift (suc d) (ground arith))
    ]

module _ (r : ReplayWindow) (accepted : List ℕ) (seq : ℕ) (v : Represents r accepted)
    (init : r.init ≡ true) where
  above_unseen : (x : ℕ) → r.highest < x → member x accepted ≡ false
  above_unseen x h = elim (Bool-cases (member x accepted)) [
    | inl e ↦ absurd (omega (arith, member-le-newest x accepted e, v.top init))
    | inr e ↦ e
  ]

  advance_bits :
      r.highest < seq
      → (d : ℕ) → d < replay_window_size
      → d ≤ seq
      → test_bit (advance r seq).seen d ≡ to_bit (member (seq - d) (seq ∷ accepted))
  unfolding advance member
  advance_bits h zero hd hs = elim (Bool-cases (leb replay_window_size (seq - r.highest))) [
    | inl far ↦ rw far (unfold test_bit in ground arith)
    | inr near ↦
        rw (near, test_bit-bit_or_self (r.seen * 2 ^ (seq - r.highest) % 2 ^ 64) 0) (ground arith)
  ]
  advance_bits h (suc d) hd hs = elim (Bool-cases (leb replay_window_size (seq - r.highest))) [
    | inl far ↦
        rw far (unfold test_bit in ground (arith, test_bit-zero d, above_unseen (seq - suc d)))
    | inr near ↦
        rw (near, moved_bit r.seen (seq - r.highest) d hd)
          (ground (arith, above_unseen (seq - suc d), v.bits init (suc d - (seq - r.highest))))
  ]

  advance-Represents : r.highest < seq → Represents (advance r seq) (seq ∷ accepted)
  unfolding advance newest member
  advance-Represents h = record {
    unset = λ e. cc;
    top = λ e. omega (arith, v.top init);
    top_seen = λ e. ground arith;
    bits = λ e d hd hs. unfold member advance in advance_bits h d hd hs;
  }

  -- The bit that `mark` tests is the membership of the number.
  mark_tests :
      (seq ≤ r.highest)
      → r.highest - seq < replay_window_size
      → (bit_and r.seen (2 ^ (r.highest - seq)) == 0) ≡ not (member seq accepted)
  mark_tests h near =
      let diff : ℕ = r.highest - seq in
      let at_seq : r.highest - diff ≡ seq = omega arith in
      let bit : test_bit r.seen diff ≡ to_bit (member seq accepted) =
        rw at_seq at (v.bits init diff near (omega arith)) in
      rw (bit_and-pow r.seen diff, bit)
        (elim (Bool-cases (member seq accepted)) [
          | inl old ↦ rw old (ground (arith, one-le-pow diff 2))
          | inr new ↦ rw new (ground arith)
        ])

  mark_bits :
      seq ≤ r.highest
      → member seq accepted ≡ false
      → (d : ℕ) → d < replay_window_size
      → d ≤ r.highest
      → test_bit (bit_or r.seen (2 ^ (r.highest - seq))) d
        ≡ to_bit (member (r.highest - d) (seq ∷ accepted))
  unfolding member
  mark_bits h new d hd hh = elim (Bool-cases (r.highest - seq == d)) [
    | inl hit ↦
        let e : r.highest - seq ≡ d = (==_iff _ _).0 hit in
        rw (e, test_bit-bit_or_self r.seen d) (ground arith)
    | inr miss ↦
        test_bit-bit_or_ne r.seen (r.highest - seq) d (λ e. ground arith)
        ∙ v.bits init d hd hh
        ∙ ground arith
  ]

  mark_lem :
      seq ≤ r.highest
      → ((mark r seq).1 ≡ is_fresh seq accepted)
        × Represents (mark r seq).0 (grow (mark r seq).1 seq accepted)
  unfolding mark
  mark_lem h = elim (Bool-cases (leb replay_window_size (r.highest - seq))) [
    | inl far ↦ rw far (unfold is_fresh in ground (arith, v.top init), v)
    | inr near ↦ elim (Bool-cases (member seq accepted)) [
      | inl old ↦ rw (near, mark_tests h (ground arith), old) (unfold is_fresh in ground arith, v)
      | inr new ↦
          rw (near, mark_tests h (ground arith), new)
            (
              (unfold is_fresh in ground (arith, v.top init)),
              record {
                unset = λ e. cc;
                top = λ e. unfold newest in omega (arith, v.top init);
                top_seen = λ e. unfold member in ground (arith, v.top_seen init);
                bits = λ e d hd hh. mark_bits h new d hd hh;
              },
            )
    ]
  ]

accept_first :
    (r : ReplayWindow) (seq : ℕ)
    → r.init ≡ false
    → accept r seq ≡ (record { init = true; highest = seq; seen = 1 }, true)
unfolding accept
accept_first r seq e =
    ap
      (λ (b : Bool).
        if b
        then (if ltb r.highest seq then (advance r seq, true) else mark r seq)
        else (record { init = true; highest = seq; seen = 1 }, true))
      e

accept_later :
    (r : ReplayWindow) (seq : ℕ)
    → r.init ≡ true
    → accept r seq ≡ (if ltb r.highest seq then (advance r seq, true) else mark r seq)
unfolding accept
accept_later r seq e =
    ap
      (λ (b : Bool).
        if b
        then (if ltb r.highest seq then (advance r seq, true) else mark r seq)
        else (record { init = true; highest = seq; seen = 1 }, true))
      e

-- `accept` says yes exactly to a fresh number, and the window then stands for the longer list.
pub accept-Represents :
    (r : ReplayWindow) (accepted : List ℕ) (seq : ℕ)
    → Represents r accepted
    → ((accept r seq).1 ≡ is_fresh seq accepted)
      × Represents (accept r seq).0 (grow (accept r seq).1 seq accepted)
accept-Represents r accepted seq v = elim (Bool-cases r.init) [
  | inr unset ↦
      rw (accept_first r seq unset, v.unset unset)
        (unfold is_fresh in ground arith, first-Represents seq)
  | inl init ↦ rw (accept_later r seq init) (elim (Bool-cases (ltb r.highest seq)) [
    | inl above ↦ rw above (
      (unfold is_fresh in ground (arith, v.top init, above_unseen r accepted seq v init seq)),
      advance-Represents r accepted seq v init (ground arith),
    )
    | inr below ↦ rw below (mark_lem r accepted seq v init (ground arith))
  ])
]

mark-refused : (r : ReplayWindow) (seq : ℕ) → (mark r seq).1 ≡ false → (mark r seq).0 ≡ r
unfolding mark
mark-refused r seq h = ground arith

-- A refused number leaves the window as it was.
pub accept-refused : (r : ReplayWindow) (seq : ℕ) → (accept r seq).1 ≡ false → (accept r seq).0 ≡ r
unfolding accept
accept-refused r seq h = ground (arith, mark-refused r seq)

-- A packet that is turned away leaves the window as it was.
pub accept_rejected : (r : ReplayWindow) (seq : ℕ) → (accept r seq).1 ≡ false → (accept r seq).0 ≡ r
unfolding accept advance mark
accept_rejected r seq e = ground (arith, e)

-- A number above all the others is accepted, and becomes the highest.
pub accept_newer :
    (r : ReplayWindow) (seq : ℕ)
    → (r.init ≡ true → r.highest < seq)
    → ((accept r seq).1 ≡ true) × ((accept r seq).0.highest ≡ seq)
unfolding accept advance
accept_newer r seq h = elim (Bool-cases r.init) [
  | inl e ↦ ground (arith, e, h e)
  | inr e ↦ ground (arith, e)
]
