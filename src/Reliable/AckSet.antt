-- ===== src/Reliable/AckSet.antt =====
-- internal/reliable/reliable.go: the ids that wait to be acknowledged.
use govpn.Base.{
  ℕ, Bool, true, false, ltb, ◌==◌, if◌then◌else◌, List, [], ◌∷◌, ◌++◌, length, take, drop, min,
}

abbrev pub ack_size : ℕ
ack_size = 8

-- AckSet: the ids that wait to be acknowledged, oldest first.
abbrev pub AckSet : Type 0
AckSet = List ℕ

unfoldable pub pending_ack : ℕ → AckSet → Bool
pending_ack id [] = false
pending_ack id (x ∷ ids) = if x == id then true else pending_ack id ids

unfoldable pub add : ℕ → AckSet → AckSet
unfolding pending_ack
add id ids = if pending_ack id ids then ids else ids ++ (id ∷ [])

-- The ids handed out and those that stay.
unfoldable pub drain : AckSet → List ℕ × AckSet
drain ids = let n : ℕ = min (length ids) ack_size in (take n ids, drop n ids)

unfoldable pub peek : AckSet → Bool
peek ids = ltb 0 (length ids)
