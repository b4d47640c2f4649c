-- ===== src/TcpConn/Stream/Pieces.antt =====
-- netstack/tcp_state.go: a piece of the stream that is accepted, or its FIN, keeps what is received.
use govpn.Base.{
  ℕ, ◌+◌, ◌^◌, ◌≤◌, ◌<◌, false, ◌≡◌, refl, sym, ap, ◌∙◌, List, [], ◌∷◌, ◌++◌, length, ◌==◌,
  length-append, arith, append_assoc, append-nil, some, Bool-cases, inl, inr, subst,
}
use govpn.Base.Words.{add32}
use govpn.TcpConn.{TcpConn}
use govpn.TcpConn.Input.{find_segment, remove_segment, accept_bytes, consume_fin}
use govpn.TcpConn.Kept.{take_segment}
use govpn.TcpConn.Stream.{
  Receiver, receiver, fin_size, IsPiece, Receives, ArePieces, append_cancel, add32_injective,
}

empty_length : (xs : List ℕ) → length xs ≡ 0 → xs ≡ []
empty_length [] e = refl
empty_length (x ∷ xs) e = absurd (omega (arith))

regroup :
    (got buf t d after : List ℕ)
    → (got ++ (buf ++ t)) ++ (d ++ after) ≡ (got ++ buf) ++ ((t ++ d) ++ after)
regroup got buf t d after = simp (append_assoc)

module _ (stream : List ℕ) (start : ℕ) (small : length stream + 1 < 2 ^ 32) where
  stream_length :
      (got : List ℕ) (r : Receiver) (v : Receives stream start got r)
      → length (got ++ r.recv_buf) + length v.rest ≡ length stream
  stream_length got r v = sym (length-append (got ++ r.recv_buf) v.rest) ∙ ap length v.front

  -- While `rcv_nxt` is the number of a place in the stream, it is the first that is not received.
  next_place :
      (got : List ℕ) (r : Receiver) (k : ℕ)
      → Receives stream start got r
      → k ≤ length stream
      → r.rcv_nxt ≡ add32 start k
      → (r.peer_closed ≡ false) × (k ≡ length (got ++ r.recv_buf))
  next_place got r k v inside e =
      let total : length (got ++ r.recv_buf) + length v.rest ≡ length stream =
        stream_length got r v in
      elim (Bool-cases r.peer_closed) [
        | inl done ↦
            let none_left : length v.rest ≡ 0 = ap length (v.finished done) in
            let one : fin_size r.peer_closed ≡ 1 = ap fin_size done in
            let same : k ≡ length (got ++ r.recv_buf) + fin_size r.peer_closed =
              add32_injective start k (length (got ++ r.recv_buf) + fin_size r.peer_closed)
                (omega (arith, small, inside)) (omega (arith, small, total, one, none_left))
                (sym e ∙ v.next) in
            absurd (omega (arith, same, one, total, none_left, inside))
        | inr going ↦
            let zero : fin_size r.peer_closed ≡ 0 = ap fin_size going in
            let same : k ≡ length (got ++ r.recv_buf) + fin_size r.peer_closed =
              add32_injective start k (length (got ++ r.recv_buf) + fin_size r.peer_closed)
                (omega (arith, small, inside)) (omega (arith, small, total, zero))
                (sym e ∙ v.next) in
            (going, omega (arith, same, zero))
      ]

  -- A piece whose number is `rcv_nxt` is what comes next.
  piece_is_next :
      (got : List ℕ) (c : TcpConn) (bytes : List ℕ) (v : Receives stream start got (receiver c))
      (p : IsPiece stream start c.rcv_nxt bytes)
      → (v.rest ≡ bytes ++ p.after) × (c.peer_closed ≡ false)
  piece_is_next got c bytes v p =
      let (going, same) =
        next_place got (receiver c) (length p.before) v
          (omega (arith, ap length p.place, length-append p.before (bytes ++ p.after))) p.number in
      (
        append_cancel (got ++ c.recv_buf) v.rest p.before (bytes ++ p.after) (v.front ∙ sym p.place)
            (sym same),
        going,
      )

  pub accept_bytes-Receives :
      (got : List ℕ) (c : TcpConn) (bytes left : List ℕ)
      → IsPiece stream start c.rcv_nxt (bytes ++ left)
      → Receives stream start got (receiver c)
      → Receives stream start got (receiver (accept_bytes bytes c))
  accept_bytes-Receives got c bytes left p v =
      let (rest, going) = piece_is_next got c (bytes ++ left) v p in
      record {
        rest = left ++ p.after;
        front =
            regroup got c.recv_buf bytes left p.after
            ∙ ap (λ (l : List ℕ). (got ++ c.recv_buf) ++ l) (sym rest)
            ∙ v.front;
        next = omega (
          arith,
          v.next,
          ap fin_size going,
          length-append got (c.recv_buf ++ bytes),
          length-append c.recv_buf bytes,
          length-append got c.recv_buf,
        );
        finished = λ done. absurd (omega (arith, ap fin_size done, ap fin_size going));
        kept = v.kept;
        fin_end = v.fin_end;
      }

  pub consume_fin-Receives :
      (got : List ℕ) (c : TcpConn)
      → c.rcv_nxt ≡ add32 start (length stream)
      → Receives stream start got (receiver c)
      → Receives stream start got (receiver (consume_fin c))
  consume_fin-Receives got c e v =
      let (going, same) = next_place got (receiver c) (length stream) v (omega (arith)) e in
      record {
        rest = v.rest;
        front = v.front;
        next = omega (arith, e, same);
        finished =
            λ done. empty_length v.rest (omega (arith, same, stream_length got (receiver c) v));
        kept = v.kept;
        fin_end = v.fin_end;
      }

  find_segment-IsPiece :
      (seq : ℕ) (segs : List (ℕ × List ℕ)) (d : List ℕ)
      → find_segment seq segs ≡ some d
      → ArePieces stream start segs
      → IsPiece stream start seq d
  unfolding find_segment
  find_segment-IsPiece seq [] d e ps = ground (arith)
  find_segment-IsPiece seq ((s, d₁) ∷ segs) d e ps = elim (Bool-cases (seq == s)) [
    | inl hit ↦
        let same : d₁ ≡ d = ground (arith, e, hit) in
        let at : s ≡ seq = ground (arith, hit) in
        subst (λ (x : ℕ). IsPiece stream start x d) at (subst (IsPiece stream start s) same ps.0)
    | inr miss ↦ find_segment-IsPiece seq segs d (ground (arith, e, miss)) ps.1
  ]

  remove_segment-ArePieces :
      (seq : ℕ) (segs : List (ℕ × List ℕ))
      → ArePieces stream start segs
      → ArePieces stream start (remove_segment seq segs)
  unfolding remove_segment
  remove_segment-ArePieces seq [] ps = ps
  remove_segment-ArePieces seq ((s, d) ∷ segs) ps =
      ground (arith, remove_segment-ArePieces seq segs ps.1)

  pub take_segment-Receives :
      (got : List ℕ) (c : TcpConn) (d : List ℕ)
      → find_segment c.rcv_nxt c.reorder ≡ some d
      → Receives stream start got (receiver c)
      → Receives stream start got (receiver (take_segment d c))
  take_segment-Receives got c d e v =
      let p : IsPiece stream start c.rcv_nxt d =
        find_segment-IsPiece c.rcv_nxt c.reorder d e v.kept in
      accept_bytes-Receives got (record c { reorder = remove_segment c.rcv_nxt c.reorder }) d []
        (subst (IsPiece stream start c.rcv_nxt) (sym (append-nil d)) p)
        (record {
          rest = v.rest;
          front = v.front;
          next = v.next;
          finished = v.finished;
          kept = remove_segment-ArePieces c.rcv_nxt c.reorder v.kept;
          fin_end = v.fin_end;
        })
