-- ===== src/Wire/Inversion.antt =====
-- internal/wire/wire.go: what a successful read of a part of the body took off.
use govpn.Base.{
  ℕ, zero, suc, ◌≡◌, refl, ap, ◌∙◌, List, [], ◌∷◌, ◌++◌, append-nil, append_assoc, length,
  length-take, subst, >>=-eq-ok, take-append-drop, All, All-drop, ◌==◌, ok, arith, Bool-cases, inl,
  inr,
}
use govpn.Base.Words.{IsByte, IsU32, be32, be32-from_be32}
use govpn.Wire.{op_ack_v1, read_packet_id, read_acks, read_remote_session_id, read_own_packet_id}
use govpn.Wire.Body.{acks_bytes, remote_bytes, own_id_bytes, FitsAcks, FitsOpcode}

-- What a successful read took off, by inversion.
read_packet_id-inv :
    (buf : List ℕ) (id : ℕ) (rest : List ℕ)
    → All IsByte buf
    → read_packet_id buf ≡ ok (id, rest)
    → (buf ≡ be32 id ++ rest) × IsU32 id × All IsByte rest
unfolding read_packet_id
read_packet_id-inv [] id rest h e = cc
read_packet_id-inv (a ∷ []) id rest h e = cc
read_packet_id-inv (a ∷ b ∷ []) id rest h e = cc
read_packet_id-inv (a ∷ b ∷ c ∷ []) id rest h e = cc
read_packet_id-inv (a ∷ b ∷ c ∷ d ∷ buf) id rest (ha, (hb, (hc, (hd, h)))) e =
    ground (arith, be32-from_be32 a b c d ha hb hc hd)

pub record AcksRead (n : ℕ) (buf acks ids rest : List ℕ) : Type 0 where
  pub new : List ℕ
  pub is_new : ids ≡ acks ++ new
  pub count : length new ≡ n
  pub taken : buf ≡ acks_bytes new ++ rest
  pub words : All IsU32 new
  pub bytes : All IsByte rest

pub read_acks-inv :
    (n : ℕ) (buf acks ids rest : List ℕ)
    → All IsByte buf
    → read_acks n buf acks ≡ ok (ids, rest)
    → AcksRead n buf acks ids rest
unfolding read_acks
read_acks-inv zero buf acks ids rest h e =
    let same : buf ≡ rest = cc in
    record {
      new = [];
      is_new = rw append-nil (cc);
      count = refl;
      taken = same;
      words = tt;
      bytes = subst (All IsByte) same h;
    }
read_acks-inv (suc n) buf acks ids rest h e =
    let ((id, mid), e₁, e₂) = >>=-eq-ok (read_packet_id buf) _ e in
    let (t, w, hm) = read_packet_id-inv buf id mid h e₁ in
    let r = read_acks-inv n mid (acks ++ (id ∷ [])) ids rest hm e₂ in
    record {
      new = id ∷ r.new;
      is_new = r.is_new ∙ append_assoc acks (id ∷ []) r.new;
      count = ap suc r.count;
      taken = t ∙ ap (λ (l : List ℕ). be32 id ++ l) r.taken;
      words = (w, r.words);
      bytes = r.bytes;
    }

pub read_remote_session_id-inv :
    (ids buf sid rest : List ℕ)
    → All IsByte buf
    → read_remote_session_id (length ids) buf ≡ ok (sid, rest)
    → FitsAcks ids sid × (buf ≡ remote_bytes ids sid ++ rest) × All IsByte rest
unfolding read_remote_session_id
read_remote_session_id-inv [] buf sid rest h e =
    let same : buf ≡ rest = cc in (cc, same, subst (All IsByte) same h)
read_remote_session_id-inv (id ∷ ids) buf sid rest h e =
    ground (arith, length-take 8 buf, take-append-drop 8 buf, All-drop IsByte 8 buf h)

pub read_own_packet_id-inv :
    (opcode : ℕ) (buf : List ℕ) (id : ℕ) (rest : List ℕ)
    → All IsByte buf
    → read_own_packet_id opcode buf ≡ ok (id, rest)
    → FitsOpcode opcode id × (buf ≡ own_id_bytes opcode id ++ rest)
unfolding read_own_packet_id
read_own_packet_id-inv opcode buf id rest h e = elim (Bool-cases (opcode == op_ack_v1)) [
  | inl t ↦ ground arith
  | inr f ↦
      let (taken, word, _) = read_packet_id-inv buf id rest h (rw f at e) in
      rw f ((word, λ o. ground arith), taken)
]
