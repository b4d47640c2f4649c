-- ===== src/TcpConn/Stream.antt =====
-- The byte stream that a connection receives: the segments of one peer carry pieces of one sequence of
-- bytes, in any order and with repeats, and the FIN stands at its end.
pub mod Pieces
pub mod Receive
pub mod Keeps
pub mod Run
pub mod Delivery
use govpn.Base.{
  ℕ, ◌+◌, ◌^◌, ◌<◌, Bool, true, false, ◌||◌, ltb, ◌≡◌, refl, sym, ap, ◌∙◌, List, [], ◌++◌, length,
  drop, drop-append_length, All, arith,
}
use govpn.Base.Words.{add32}
use govpn.TcpSegment.{TcpSegment, flag_fin}
use govpn.TcpConn.{TcpConn, has_flag}
use govpn.TcpConn.Events.{
  Event, arrives, reads, writes, fires, detaches, aborts, closes_write, closes,
}

-- What a connection has of the stream.
pub record Receiver : Type 0 where
  pub rcv_nxt : ℕ
  pub recv_buf : List ℕ
  pub reorder : List (ℕ × List ℕ)
  pub has_pending_fin : Bool
  pub pending_fin_seq : ℕ
  pub peer_closed : Bool

abbrev pub receiver : TcpConn → Receiver
receiver c = record {
  rcv_nxt = c.rcv_nxt;
  recv_buf = c.recv_buf;
  reorder = c.reorder;
  has_pending_fin = c.has_pending_fin;
  pending_fin_seq = c.pending_fin_seq;
  peer_closed = c.peer_closed;
}

abbrev pub fin_size : Bool → ℕ
fin_size true = 1
fin_size false = 0

-- The stream, and the sequence number of its first byte.
module _ (stream : List ℕ) (start : ℕ) where
  -- `bytes` is a part of the stream, and `seq` the number of the first.
  pub record IsPiece (seq : ℕ) (bytes : List ℕ) : Type 0 where
    pub before : List ℕ
    pub after : List ℕ
    pub place : before ++ (bytes ++ after) ≡ stream
    pub number : seq ≡ add32 start (length before)

  -- A segment of the peer: data or a FIN stand where they do in the stream.
  pub record IsFromPeer (seg : TcpSegment) : Type 0 where
    pub piece :
        (ltb 0 (length seg.payload) || has_flag flag_fin seg) ≡ true → IsPiece seg.seq seg.payload
    pub fin :
        has_flag flag_fin seg ≡ true
        → add32 seg.seq (length seg.payload) ≡ add32 start (length stream)

  abbrev pub ArePieces : List (ℕ × List ℕ) → Type 0
  ArePieces = All (λ (s : ℕ × List ℕ). IsPiece s.0 s.1)

  -- The bytes handed over, and then those in the receive buffer, are the front of the stream, and
  -- `rcv_nxt` is the number of what comes next; once the FIN is consumed they are all of it.
  pub record Receives (got : List ℕ) (r : Receiver) : Type 0 where
    pub rest : List ℕ
    pub front : (got ++ r.recv_buf) ++ rest ≡ stream
    pub next : r.rcv_nxt ≡ add32 start (length (got ++ r.recv_buf) + fin_size r.peer_closed)
    pub finished : r.peer_closed ≡ true → rest ≡ []
    pub kept : ArePieces r.reorder
    pub fin_end : r.has_pending_fin ≡ true → r.pending_fin_seq ≡ add32 start (length stream)

  -- An event in which a segment arrives brings one of the peer's.
  abbrev pub IsOfPeer : Event → Type 0
  IsOfPeer (arrives seg) = IsFromPeer seg
  IsOfPeer (reads expired n) = Unit
  IsOfPeer (writes expired p) = Unit
  IsOfPeer (fires mss) = Unit
  IsOfPeer detaches = Unit
  IsOfPeer aborts = Unit
  IsOfPeer closes_write = Unit
  IsOfPeer closes = Unit

-- Two ways to cut a list at one place.
pub append_cancel :
    (xs ys xs' ys' : List ℕ) → xs ++ ys ≡ xs' ++ ys' → length xs ≡ length xs' → ys ≡ ys'
append_cancel xs ys xs' ys' e h =
    sym (drop-append_length (length xs) xs ys refl)
    ∙ ap (drop (length xs)) e
    ∙ drop-append_length (length xs) xs' ys' (sym h)

-- Numbers of places in a stream that is shorter than the number space differ.
pub add32_injective :
    (start a b : ℕ) → a < 2 ^ 32 → b < 2 ^ 32 → add32 start a ≡ add32 start b → a ≡ b
add32_injective start a b ha hb e = omega (arith)

pub add32_assoc : (start a b : ℕ) → add32 (add32 start a) b ≡ add32 start (a + b)
add32_assoc start a b = omega (arith)
