-- ===== src/Wire/RoundTrip.antt =====
-- Serializing a control packet and parsing its body are inverse.
use govpn.Base.{
  ℕ, ◌%◌, ◌≤◌, ◌≡◌, refl, sym, ◌∙◌, List, [], ◌∷◌, ◌++◌, length, subst, >>=-eq-ok, All, true, leb,
  Result, ok, ◌>>=◌, arith, Bool-cases, inl, inr,
}
use govpn.Base.Words.{IsByte, IsU32}
use govpn.Wire.{
  Header, ControlPacket, Error, max_acks, valid_opcode, read_acks, read_remote_session_id,
  read_own_packet_id, parse_control_packet, append_plaintext,
}
use govpn.Wire.Body.{
  acks_bytes, remote_bytes, own_id_bytes, body, append_plaintext-body, read_acks-acks_bytes,
  read_remote_session_id-remote_bytes, read_own_packet_id-own_id_bytes, FitsAcks, FitsOpcode,
}
use govpn.Wire.Inversion.{read_acks-inv, read_remote_session_id-inv, read_own_packet_id-inv}

-- What a control packet must satisfy to have a wire form.
pub record IsWireable (p : ControlPacket) : Type 0 where
  pub legal : valid_opcode p.opcode ≡ true
  pub few_acks : length p.acks ≤ max_acks
  pub acks_fit : All IsU32 p.acks
  pub remote_fits : FitsAcks p.acks p.remote_session_id
  pub id_fits : FitsOpcode p.opcode p.packet_id

abbrev pub header : ControlPacket → Header
header p = record { opcode = p.opcode; key_id = p.key_id; session_id = p.session_id }

-- Every packet with a wire form is parsed back, field by field, from what was serialized.
pub parse-append :
    (p : ControlPacket)
    → IsWireable p
    → parse_control_packet (append_plaintext p []) (header p) ≡ ok p
unfolding parse_control_packet
parse-append p w =
    let count : length p.acks % 256 ≡ length p.acks = omega (arith, w.few_acks) in
    let few : leb (length p.acks) max_acks ≡ true = ground (arith, w.few_acks) in
    let rest = own_id_bytes p.opcode p.packet_id ++ p.payload in
    rw (append_plaintext-body p [], w.legal, count, few)
      (rw
        (read_acks-acks_bytes p.acks (remote_bytes p.acks p.remote_session_id ++ rest) []
          w.acks_fit)
        (rw (
          read_remote_session_id-remote_bytes p.acks p.remote_session_id rest w.remote_fits,
          read_own_packet_id-own_id_bytes p.opcode p.packet_id p.payload w.id_fits,
        )))

record Reads (plaintext : List ℕ) (hdr : Header) (p : ControlPacket) : Type 0 where
  wireable : IsWireable p
  under : header p ≡ hdr
  whole : plaintext ≡ body p

-- The packet that the last line of the parser builds.
abbrev packet : Header → List ℕ → List ℕ → ℕ → List ℕ → ControlPacket
packet hdr acks sid id payload = record {
  opcode = hdr.opcode;
  key_id = hdr.key_id;
  session_id = hdr.session_id;
  acks = acks;
  remote_session_id = sid;
  packet_id = id;
  payload = payload;
}

packet-Reads :
    (n : ℕ) (hdr : Header) (acks sid b₂ b₃ payload : List ℕ) (id : ℕ)
    → valid_opcode hdr.opcode ≡ true
    → n ≤ 8
    → length acks ≡ n
    → All IsU32 acks
    → FitsAcks acks sid
    → b₂ ≡ remote_bytes acks sid ++ b₃
    → FitsOpcode hdr.opcode id
    → b₃ ≡ own_id_bytes hdr.opcode id ++ payload
    → Reads (n ∷ (acks_bytes acks ++ b₂)) hdr (packet hdr acks sid id payload)
packet-Reads n hdr acks sid b₂ b₃ payload id legal few count words fits t₂ own t₃ = record {
  wireable = record {
    legal = legal;
    few_acks = omega arith;
    acks_fit = words;
    remote_fits = fits;
    id_fits = own;
  };
  under = refl;
  whole = let c : n ≡ length acks % 256 = omega arith in rw (← c, t₂, t₃);
}

module _ (n : ℕ) (hdr : Header) (buf : List ℕ) (p : ControlPacket) where
  after_remote :
      (acks sid b₂ b₃ : List ℕ)
      → valid_opcode hdr.opcode ≡ true
      → n ≤ 8
      → length acks ≡ n
      → All IsU32 acks
      → buf ≡ acks_bytes acks ++ b₂
      → FitsAcks acks sid
      → b₂ ≡ remote_bytes acks sid ++ b₃
      → All IsByte b₃
      → ((x : ℕ × List ℕ) × (read_own_packet_id hdr.opcode b₃ ≡ ok x)
          × (◌≡◌ {A = Result Error ControlPacket} (ok (packet hdr acks sid x.0 x.1)) (ok p)))
      → Reads (n ∷ buf) hdr p
  after_remote acks sid b₂ b₃ legal few count words t₁ fits t₂ bytes ((id, payload), e, done) =
      let (own, t₃) = read_own_packet_id-inv hdr.opcode b₃ id payload bytes e in
      let built : packet hdr acks sid id payload ≡ p = cc in
      subst (Reads (n ∷ buf) hdr) built
        (rw t₁ (packet-Reads n hdr acks sid b₂ b₃ payload id legal few count words fits t₂ own t₃))

  after_acks :
      (acks b₂ : List ℕ)
      → valid_opcode hdr.opcode ≡ true
      → n ≤ 8
      → length acks ≡ n
      → All IsU32 acks
      → buf ≡ acks_bytes acks ++ b₂
      → All IsByte b₂
      → ((x : List ℕ × List ℕ) × (read_remote_session_id n b₂ ≡ ok x)
          × ((read_own_packet_id hdr.opcode x.1 >>= λ (y : ℕ × List ℕ).
                ok (packet hdr acks x.0 y.0 y.1))
              ≡ ok p))
      → Reads (n ∷ buf) hdr p
  after_acks acks b₂ legal few count words t₁ bytes ((sid, b₃), e, more) =
      let (fits, t₂, bytes₃) = read_remote_session_id-inv acks b₂ sid b₃ bytes (rw count e) in
      after_remote acks sid b₂ b₃ legal few count words t₁ fits t₂ bytes₃ (>>=-eq-ok _ _ more)

  after_count :
      valid_opcode hdr.opcode ≡ true
      → n ≤ 8
      → All IsByte buf
      → ((x : List ℕ × List ℕ) × (read_acks n buf [] ≡ ok x)
          × ((read_remote_session_id n x.1 >>= λ (y : List ℕ × List ℕ).
                read_own_packet_id hdr.opcode y.1 >>= λ (z : ℕ × List ℕ).
                ok (packet hdr x.0 y.0 z.0 z.1))
              ≡ ok p))
      → Reads (n ∷ buf) hdr p
  after_count legal few bytes ((acks, b₂), e, more) =
      let r = read_acks-inv n buf [] acks b₂ bytes e in
      after_acks acks b₂ legal few (rw r.is_new r.count) (rw r.is_new r.words) (rw r.is_new r.taken)
        r.bytes (>>=-eq-ok _ _ more)

parse-Reads :
    (plaintext : List ℕ) (hdr : Header) (p : ControlPacket)
    → All IsByte plaintext
    → parse_control_packet plaintext hdr ≡ ok p
    → Reads plaintext hdr p
unfolding parse_control_packet
parse-Reads [] hdr p h e = elim (Bool-cases (valid_opcode hdr.opcode)) [
  | inl legal ↦ let e' = rw legal at e in cc
  | inr bad ↦ let e' = rw bad at e in cc
]
parse-Reads (n ∷ buf) hdr p h e = elim (Bool-cases (valid_opcode hdr.opcode)) [
  | inr bad ↦ let e' = rw bad at e in cc
  | inl legal ↦
      let e' = rw legal at e in
      elim (Bool-cases (leb n max_acks)) [
        | inr many ↦ let e'' = rw many at e' in cc
        | inl few ↦ after_count n hdr buf p legal (ground arith) h.1 (>>=-eq-ok _ _ (rw few at e'))
      ]
]

-- Bytes that parse under a header are the serialization of the packet they parse to, which has a
-- wire form and carries that header.
pub append-parse :
    (plaintext : List ℕ) (hdr : Header) (p : ControlPacket)
    → All IsByte plaintext
    → parse_control_packet plaintext hdr ≡ ok p
    → (append_plaintext p [] ≡ plaintext) × (header p ≡ hdr) × IsWireable p
append-parse plaintext hdr p h e =
    let r = parse-Reads plaintext hdr p h e in
    (append_plaintext-body p [] ∙ sym r.whole, r.under, r.wireable)
