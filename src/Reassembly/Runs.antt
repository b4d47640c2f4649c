-- ===== src/Reassembly/Runs.antt =====
-- Fragments put together again, on concrete packets.
use govpn.Base.{
  ℕ, ◌+◌, ◌≤◌, ◌<◌, ◌&&◌, Bool, true, false, ◌≡◌, refl, ap, inl, inr, List, [], ◌∷◌, ◌++◌, In, ok,
  arith,
}
use govpn.Frame.{internet_checksum, sum_words, fold_carries}
use govpn.Ipv4.{
  Ipv4Header, parse_ipv4, parse_fields, check_fragment, fragment, fragments_from, fragment_ipv4,
}
use govpn.Reassembly.{
  Reassembler, duplicate, conflict, complete, same_key, find, replace, remove, drop_locked, expire,
  punch, punch_hole,
}
use govpn.Reassembly.Add.{
  add, add_live, add_to, fill, finish, deliver, rebuild, check_total, discard_all,
}
use govpn.Reassembly.Holes.{missing, stays, missing-punch}
use govpn.Reassembly.Bounds.{Bounded, empty_reassembler, add_all, add_all-Bounded}
use govpn.Reassembly.Whole.{IsWhole}
use govpn.Reassembly.Sender.{add_all-fragment_ipv4}
use govpn.Reassembly.Completion.{outcomes, Completes}
use govpn.Reassembly.RoundTrip.{outcomes-fragment_ipv4}

-- A header that says only what the reassembly reads.
abbrev header : ℕ → Bool → ℕ → Ipv4Header
header size more off = record {
  ihl = 20;
  total_len = 20 + size;
  protocol = 17;
  src = record { b₀ = 10; b₁ = 8; b₂ = 0; b₃ = 2 };
  dst = record { b₀ = 10; b₁ = 8; b₂ = 0; b₃ = 1 };
  payload_off = 20;
  id = 7;
  more_fragments = more;
  frag_offset = off;
}

abbrev fixed : List ℕ
fixed =
    0x45 ∷ 0 ∷ 0 ∷ 28 ∷ 0 ∷ 7 ∷ 0x20 ∷ 0 ∷ 64 ∷ 17 ∷ 0 ∷ 0 ∷ 10 ∷ 8 ∷ 0 ∷ 2 ∷ 10 ∷ 8 ∷ 0 ∷ 1 ∷ []

abbrev front : ℕ × Ipv4Header × List ℕ
front = (5, header 8 true 0, fixed ++ (1 ∷ 2 ∷ 3 ∷ 4 ∷ 5 ∷ 6 ∷ 7 ∷ 8 ∷ []))

abbrev back : ℕ × Ipv4Header × List ℕ
back = (3, header 2 false 8, fixed ++ (9 ∷ 10 ∷ []))

abbrev waiting : Reassembler
waiting = add_all (empty_reassembler 0 0 0) (back ∷ [])

-- The last fragment comes first.
complete_run :
    (add waiting 5 front.1 front.2).1
    ≡ complete (
        0x45 ∷ 0 ∷ 0 ∷ 30 ∷ 0 ∷ 7 ∷ 0 ∷ 0 ∷ 64 ∷ 17 ∷ 102 ∷ 182 ∷ 10 ∷ 8 ∷ 0 ∷ 2 ∷ 10 ∷ 8 ∷ 0 ∷ 1
        ∷ 1 ∷ 2 ∷ 3 ∷ 4 ∷ 5 ∷ 6 ∷ 7 ∷ 8 ∷ 9 ∷ 10 ∷ [])
unfolding add_all add add_live add_to fill finish deliver rebuild check_total find replace remove
    drop_locked expire punch punch_hole same_key internet_checksum sum_words fold_carries
complete_run = refl

duplicate_run : (add waiting 5 back.1 back.2).1 ≡ duplicate
unfolding add_all add add_live add_to fill finish deliver rebuild check_total find replace remove
    drop_locked expire punch punch_hole same_key internet_checksum sum_words fold_carries
duplicate_run = refl

abbrev beyond : ℕ × Ipv4Header × List ℕ
beyond = (4, header 8 true 16, fixed ++ (1 ∷ 1 ∷ 1 ∷ 1 ∷ 1 ∷ 1 ∷ 1 ∷ 1 ∷ []))

-- Data beyond a known end is a conflict.
beyond_run : (add waiting 5 beyond.1 beyond.2).1 ≡ conflict
unfolding add_all add add_live add_to fill finish deliver rebuild check_total find replace remove
    drop_locked expire punch punch_hole same_key internet_checksum sum_words fold_carries
beyond_run = refl

-- If the same data comes before the last fragment, the datagram completes without it.
last_run :
    (add (add_all (empty_reassembler 0 0 0) (front ∷ beyond ∷ [])) 5 back.1 back.2).1
    ≡ (add waiting 5 front.1 front.2).1
unfolding add_all add add_live add_to fill finish deliver rebuild check_total find replace remove
    drop_locked expire punch punch_hole same_key internet_checksum sum_words fold_carries
last_run = refl

discarded : (discard_all waiting).bytes ≡ 0
unfolding discard_all
discarded = refl

missing-punch_example :
    (missing 4 (punch true 8 16 (record { first = 0; end = 65535 } ∷ [])).0
      ≡ (missing 4 (record { first = 0; end = 65535 } ∷ []) && stays true 8 16 4))
    × ((punch true 8 16 (record { first = 0; end = 65535 } ∷ [])).1 ≡ false
        → 8 ≤ 4
        → 4 < 16
        → missing 4 (record { first = 0; end = 65535 } ∷ []) ≡ false)
missing-punch_example =
    missing-punch true 8 16 4 (record { first = 0; end = 65535 } ∷ []) (omega arith)

add_all-Bounded_example : Bounded (add_all (empty_reassembler 0 64 0) (back ∷ front ∷ []))
add_all-Bounded_example = add_all-Bounded 0 64 0 (back ∷ front ∷ [])

-- A datagram of ten bytes, and its fragments for an MTU of 28.
abbrev packet : List ℕ
packet =
    0x45 ∷ 0 ∷ 0 ∷ 30 ∷ 0 ∷ 7 ∷ 0 ∷ 0 ∷ 64 ∷ 17 ∷ 0 ∷ 0 ∷ 10 ∷ 8 ∷ 0 ∷ 2 ∷ 10 ∷ 8 ∷ 0 ∷ 1 ∷ 1 ∷ 2
    ∷ 3 ∷ 4 ∷ 5 ∷ 6 ∷ 7 ∷ 8 ∷ 9 ∷ 10 ∷ []

packet_parsed : parse_ipv4 packet ≡ ok (header 10 false 0)
unfolding parse_ipv4 parse_fields check_fragment
packet_parsed = refl

abbrev sent_front : List ℕ
sent_front =
    0x45 ∷ 0 ∷ 0 ∷ 28 ∷ 0 ∷ 7 ∷ 0x20 ∷ 0 ∷ 64 ∷ 17 ∷ 70 ∷ 184 ∷ 10 ∷ 8 ∷ 0 ∷ 2 ∷ 10 ∷ 8 ∷ 0 ∷ 1 ∷ 1
    ∷ 2 ∷ 3 ∷ 4 ∷ 5 ∷ 6 ∷ 7 ∷ 8 ∷ []

abbrev sent_back : List ℕ
sent_back =
    0x45 ∷ 0 ∷ 0 ∷ 22 ∷ 0 ∷ 7 ∷ 0 ∷ 1 ∷ 64 ∷ 17 ∷ 102 ∷ 189 ∷ 10 ∷ 8 ∷ 0 ∷ 2 ∷ 10 ∷ 8 ∷ 0 ∷ 1 ∷ 9
    ∷ 10 ∷ []

sent_run : fragment_ipv4 (header 10 false 0) packet 28 7 ≡ sent_front ∷ sent_back ∷ []
unfolding fragment_ipv4 fragments_from fragment internet_checksum sum_words fold_carries
sent_run = refl

-- The last one arrives first, and a second time.
abbrev arrivals : List (ℕ × Ipv4Header × List ℕ)
arrivals =
    (3, header 2 false 8, sent_back)
    ∷ (5, header 2 false 8, sent_back)
    ∷ (6, header 8 true 0, sent_front)
    ∷ []

all_arrived :
    (f : List ℕ)
    → In f (sent_front ∷ sent_back ∷ [])
    → (now : ℕ) × (h : Ipv4Header) × In (now, h, f) arrivals
all_arrived f (inl front) =
    (6, header 8 true 0, inr (inr (inl (ap (λ x. (6, header 8 true 0, x)) front))))
all_arrived f (inr (inl back)) =
    (3, header 2 false 8, inl (ap (λ x. (3, header 2 false 8, x)) back))
all_arrived f (inr (inr there)) = absurd there

outcomes-fragment_ipv4_example :
    Completes
      (header 10 false 0)
      7
      (1 ∷ 2 ∷ 3 ∷ 4 ∷ 5 ∷ 6 ∷ 7 ∷ 8 ∷ 9 ∷ 10 ∷ [])
      (outcomes (empty_reassembler 0 0 0) arrivals)
unfolding fragment_ipv4 fragments_from fragment internet_checksum sum_words fold_carries parse_ipv4
    parse_fields check_fragment
outcomes-fragment_ipv4_example =
    outcomes-fragment_ipv4 packet (header 10 false 0) 28 7 0 0 0 3 arrivals (ground arith)
      packet_parsed (omega arith) (omega arith) (omega arith) (omega arith)
      (
        (inr (inl refl), refl, omega arith, omega arith),
        (
          (inr (inl refl), refl, omega arith, omega arith),
          ((inl refl, refl, omega arith, omega arith), tt),
        ),
      )
      all_arrived

add_all-fragment_ipv4_example :
    IsWhole
      (header 10 false 0)
      7
      (1 ∷ 2 ∷ 3 ∷ 4 ∷ 5 ∷ 6 ∷ 7 ∷ 8 ∷ 9 ∷ 10 ∷ [])
      (add
        (add_all (empty_reassembler 0 0 0) ((3, header 2 false 8, sent_back) ∷ []))
        6
        (header 8 true 0)
        sent_front).1
unfolding fragment_ipv4 fragments_from fragment internet_checksum sum_words fold_carries parse_ipv4
    parse_fields check_fragment same_key
add_all-fragment_ipv4_example =
    add_all-fragment_ipv4 packet (header 10 false 0) 28 7 (ground arith) packet_parsed (omega arith)
      (omega arith) 0 0 0 ((3, header 2 false 8, sent_back) ∷ []) 6 (header 8 true 0) sent_front
      ((λ e. (inr (inl refl), refl)), tt) (λ e. (inl refl, refl)) refl
