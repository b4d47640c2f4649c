-- ===== src/Reassembly/Sender.antt =====
-- The fragments that fragment_ipv4 makes are parts of its datagram, so what is put together of them is
-- the datagram.
use govpn.Base.{
  ℕ, ◌+◌, ◌-◌, ◌≤◌, ◌<◌, ◌≡◌, refl, sym, ap, subst, ◌∙◌, true, false, ltb, inl, inr, Bool,
  Bool-cases, List, [], ◌∷◌, ◌++◌, length, take, drop, In, All, ok, take_all, append_assoc,
  length-append, length-take, ok_inj, arith,
}
use govpn.Base.Words.{IsByte, IsU16}
use govpn.Ipv4.{Ipv4Header, parse_ipv4, datagram, fragment_ipv4, max_ipv4_datagram}
use govpn.Ipv4.Fragments.{IsDatagram, fragment_header}
use govpn.Ipv4.Tiling.{Tiles, fragment_ipv4-Tiles}
use govpn.Ipv4.Inversion.{parsed-IsDatagram, parse_ipv4-IsDatagram}
use govpn.Reassembly.{ReassemblyKey, Reassembler, same_key}
use govpn.Reassembly.Add.{key_of, add}
use govpn.Reassembly.Bounds.{empty_reassembler, add_all}
use govpn.Reassembly.Rebuilt.{IsHeaderOf, take-IsHeaderOf}
use govpn.Reassembly.Content.{IsPart, IsFragmentOf}
use govpn.Reassembly.Whole.{Holds, IsWhole, add-IsWhole}

-- The key of the fragments of a datagram that get this id.
abbrev pub sent_key : Ipv4Header → ℕ → ReassemblyKey
sent_key hdr id = record { src = hdr.src; dst = hdr.dst; protocol = hdr.protocol; id = id }

-- What the parser makes of a fragment.
abbrev pub IsSent : Ipv4Header → ℕ → List ℕ → List ℕ → Type 0
IsSent hdr id whole f =
    (h : Ipv4Header) × (parse_ipv4 f ≡ ok h)
    × (key_of h ≡ sent_key hdr id)
    × IsHeaderOf hdr id (take h.ihl f)
    × IsFragmentOf whole h f

none_behind : (xs : List ℕ) → ltb 0 (length xs) ≡ false → xs ≡ []
none_behind [] h = refl
none_behind (x ∷ xs) h = absurd (ground arith)

module _ (hdr : Ipv4Header) (mtu id : ℕ) (whole : List ℕ)
    (fits : hdr.ihl + length whole ≤ max_ipv4_datagram) where
  datagram-fragment :
      (g chunk : List ℕ) (more : Bool) (off : ℕ)
      → drop hdr.ihl g ≡ chunk
      → datagram (fragment_header hdr id (length chunk) more off) g ≡ chunk
  datagram-fragment g chunk more off bytes =
      ap (take (hdr.ihl + length chunk - hdr.ihl)) bytes
      ∙ take_all (hdr.ihl + length chunk - hdr.ihl) chunk (omega arith)

  -- Each byte is in a fragment.
  pub Tiles-covers :
      (rest : List ℕ) (off : ℕ) (fs : List (List ℕ)) (i : ℕ)
      → Tiles hdr mtu id off rest fs
      → off ≤ i
      → i < off + length rest
      → (f : List ℕ) × (h : Ipv4Header) × In f fs
        × (parse_ipv4 f ≡ ok h)
        × (h.frag_offset ≤ i)
        × (i < h.frag_offset + length (datagram h f))
  Tiles-covers rest off [] i t from to = absurd (omega (arith, ap length t, from, to))
  Tiles-covers rest off (g ∷ fs) i (chunk, later, split, nonempty, _, bytes, parsed, ts) from to =
      let n : length rest ≡ length chunk + length later =
        ap length split ∙ length-append chunk later in
      elim (Bool-cases (ltb i (off + length chunk))) [
        | inl here ↦ (
          g,
          fragment_header hdr id (length chunk) (ltb 0 (length later)) off,
          inl refl,
          parsed,
          from,
          ground
              (arith, here, ap length (datagram-fragment g chunk (ltb 0 (length later)) off bytes)),
        )
        | inr behind ↦
            let (f, h, there, read, start, end) =
              Tiles-covers later (off + length chunk) fs i ts (ground (arith, behind))
                (omega (arith, n, to)) in
            (f, h, inr there, read, start, end)
      ]

  Tiles-IsSent :
      (before rest : List ℕ) (off : ℕ) (fs : List (List ℕ)) (f : List ℕ)
      → before ++ rest ≡ whole
      → off ≡ length before
      → Tiles hdr mtu id off rest fs
      → In f fs
      → IsSent hdr id whole f
  Tiles-IsSent before rest off [] f all at t there = absurd there
  Tiles-IsSent before rest off (g ∷ fs) f all at
        (chunk, later, split, nonempty, _, bytes, parsed, ts) (inl here) =
      let h : Ipv4Header = fragment_header hdr id (length chunk) (ltb 0 (length later)) off in
      let size : length chunk ≤ length whole = omega (
        arith,
        ap length split,
        length-append chunk later,
        ap length all,
        length-append before rest,
      ) in
      let carried : datagram h g ≡ chunk =
        datagram-fragment g chunk (ltb 0 (length later)) off bytes in
      let holds = parsed-IsDatagram g h (omega (arith, fits, size)) parsed in
      let p : IsPart whole h g = record {
        before = before;
        after = later;
        place =
            ap (λ xs. before ++ (xs ++ later)) carried ∙ ap (λ xs. before ++ xs) (sym split) ∙ all;
        offset = at;
        some_bytes = omega (arith, nonempty, ap length carried);
        last = none_behind later;
      } in
      subst (IsSent hdr id whole) (sym here) (
        h,
        parsed,
        refl,
        take-IsHeaderOf hdr id (length chunk) off (ltb 0 (length later)) g holds.0 holds.1,
        (p, (λ e. ground (arith, e))),
      )
  Tiles-IsSent before rest off (g ∷ fs) f all at
        (chunk, later, split, nonempty, _, bytes, parsed, ts) (inr there) =
      Tiles-IsSent (before ++ chunk) later (off + length chunk) fs f
        (append_assoc before chunk later ∙ ap (λ xs. before ++ xs) (sym split) ∙ all)
        (omega (arith, at, length-append before chunk)) ts there

-- What arrives of a datagram: an arrival under the key is one of its fragments, as it was parsed.
abbrev pub Sends : ReassemblyKey → List (List ℕ) → ℕ × Ipv4Header × List ℕ → Type 0
Sends key fs (now, h, f) = same_key key (key_of h) ≡ true → In f fs × (parse_ipv4 f ≡ ok h)

module _ (pkt : List ℕ) (hdr : Ipv4Header) (mtu id : ℕ) (bytes : All IsByte pkt)
    (parsed : parse_ipv4 pkt ≡ ok hdr) (hid : IsU16 id) (room : hdr.ihl + 8 ≤ mtu) where
  pub sent_whole : hdr.ihl + length (datagram hdr pkt) ≤ max_ipv4_datagram
  sent_whole =
      let d : IsDatagram pkt hdr = parse_ipv4-IsDatagram pkt hdr bytes parsed in
      omega (
        arith,
        length-take (hdr.total_len - hdr.payload_off) (drop hdr.payload_off pkt),
        d.off,
        d.fits,
        d.total_u16,
      )

  pub all_of_whole :
      (f : List ℕ) → In f (fragment_ipv4 hdr pkt mtu id) → IsSent hdr id (datagram hdr pkt) f
  all_of_whole f there =
      Tiles-IsSent hdr mtu id (datagram hdr pkt) sent_whole [] (datagram hdr pkt) 0
        (fragment_ipv4 hdr pkt mtu id) f refl refl
        (fragment_ipv4-Tiles pkt hdr mtu id bytes parsed hid room) there

  sent-IsPart :
      (now : ℕ) (h : Ipv4Header) (f : List ℕ)
      → Sends (sent_key hdr id) (fragment_ipv4 hdr pkt mtu id) (now, h, f)
      → same_key (sent_key hdr id) (key_of h) ≡ true
      → IsPart (datagram hdr pkt) h f × IsHeaderOf hdr id (take h.ihl f)
  sent-IsPart now h f sent mine =
      let (there, read) = sent mine in
      let (h₁, read₁, _, starts, (p, _)) = all_of_whole f there in
      let same : h₁ ≡ h = ok_inj (sym read₁ ∙ read) in
      subst (λ x. IsPart (datagram hdr pkt) x f × IsHeaderOf hdr id (take x.ihl f)) same (p, starts)

  add_all-Holds :
      (arrivals : List (ℕ × Ipv4Header × List ℕ)) (r : Reassembler)
      → All (Sends (sent_key hdr id) (fragment_ipv4 hdr pkt mtu id)) arrivals
      → Holds (sent_key hdr id) hdr id (datagram hdr pkt) r
      → Holds (sent_key hdr id) hdr id (datagram hdr pkt) (add_all r arrivals)
  unfolding add_all
  add_all-Holds [] r sent v = v
  add_all-Holds ((now, h, f) ∷ arrivals) r sent v =
      add_all-Holds arrivals (add r now h f).0 sent.1
        (add-IsWhole (sent_key hdr id) hdr id (datagram hdr pkt) h f (sent-IsPart now h f sent.0)
          sent_whole now r v).0

  -- Fragments of the datagram, cut up for an MTU that leaves room for eight bytes of data, arrive in any
  -- order, repeated or not, at a new reassembler, with any others under other keys. If the next of them
  -- completes anything, the answer parses as a complete datagram with the header length, the protocol and
  -- the addresses of the one cut up and the id given to the fragments, and its payload is behind the
  -- header.
  pub add_all-fragment_ipv4 :
      (max_bufs max_bytes timeout : ℕ) (arrivals : List (ℕ × Ipv4Header × List ℕ)) (now : ℕ)
      (h : Ipv4Header) (f : List ℕ)
      → All (Sends (sent_key hdr id) (fragment_ipv4 hdr pkt mtu id)) arrivals
      → Sends (sent_key hdr id) (fragment_ipv4 hdr pkt mtu id) (now, h, f)
      → same_key (sent_key hdr id) (key_of h) ≡ true
      → IsWhole hdr id
          (datagram hdr pkt)
          (add (add_all (empty_reassembler max_bufs max_bytes timeout) arrivals) now h f).1
  add_all-fragment_ipv4 max_bufs max_bytes timeout arrivals now h f sent last mine =
      let r : Reassembler = add_all (empty_reassembler max_bufs max_bytes timeout) arrivals in
      (add-IsWhole (sent_key hdr id) hdr id (datagram hdr pkt) h f (sent-IsPart now h f last)
          sent_whole now r
          (add_all-Holds arrivals (empty_reassembler max_bufs max_bytes timeout) sent tt)).1
        mine
