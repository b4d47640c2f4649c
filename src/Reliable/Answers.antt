-- ===== src/Reliable/Answers.antt =====
-- Whole histories of `Put` and `Get` against the reorder buffer.
use govpn.Base.{
  ℕ, zero, suc, ◌+◌, ◌^◌, ◌≤◌, ◌≡◌, refl, ap, subst, inl, inr, Option, none, some, Option-cases,
  List, [], ◌∷◌, length, replicate, All, arith,
}
use govpn.Base.Words.{IsU32}
use govpn.Reliable.{Reliable, zero_entry, capacity, tls_timeout, PutResult, new, put, get}
use govpn.Reliable.Receive.{find_pending, active_ids}
use govpn.Reliable.Delivery.{Buffer, buffer_put, buffer_get, empty_buffer, Receives}
use govpn.Reliable.Refinement.{put-buffer_put, get-buffer_get, SameDelivery}
use mathlib.Core.Path.{ap₂}

pub data Op : Type 0 where
  put_op : ℕ → List ℕ → Op
  get_op : Op

pub data Output : Type 0 where
  put_output : PutResult → Output
  delivered : List ℕ → Output
  nothing_ready : Output

-- The answers to a sequence of calls.
unfoldable pub answers : List Op → Reliable → List Output
answers [] r = []
answers (put_op id payload ∷ ops) r =
    put_output (put id payload r).1 ∷ answers ops (put id payload r).0
answers (get_op ∷ ops) r = elim (get r) [
  | none ↦ nothing_ready ∷ answers ops r
  | some (payload, r') ↦ delivered payload ∷ answers ops r'
]

unfoldable pub buffer_answers : ℕ → List Op → Buffer → List Output
buffer_answers n [] b = []
buffer_answers n (put_op id payload ∷ ops) b =
    put_output (buffer_put n id payload b).1 ∷ buffer_answers n ops (buffer_put n id payload b).0
buffer_answers n (get_op ∷ ops) b = elim (buffer_get b) [
  | none ↦ nothing_ready ∷ buffer_answers n ops b
  | some (payload, b') ↦ delivered payload ∷ buffer_answers n ops b'
]

abbrev pub IsOp : Op → Type 0
IsOp (put_op id payload) = IsU32 id
IsOp get_op = Unit {0}

buffer_put_next :
    (n id : ℕ) (payload : List ℕ) (b : Buffer) → (buffer_put n id payload b).0.next ≡ b.next
unfolding buffer_put
buffer_put_next n id payload b = ground arith

buffer_get_next :
    (b : Buffer) (p : List ℕ) (b' : Buffer) → buffer_get b ≡ some (p, b') → b'.next ≡ b.next + 1
unfolding buffer_get
buffer_get_next b p b' e = ground arith

same_some :
    (n : ℕ) {o : Option (List ℕ × Reliable)} {o' : Option (List ℕ × Buffer)} {p p' : List ℕ}
    {r : Reliable} {b : Buffer}
    → o ≡ some (p, r)
    → o' ≡ some (p', b)
    → SameDelivery n o o'
    → (p ≡ p') × Receives n r b
same_some n {p = p} {p' = p'} {r = r} {b = b} e e' s =
    let s' : SameDelivery n (some (p, r)) (some (p', b)) = rw (e, e') at s in s'

answers-Receives :
    (n : ℕ) (ops : List Op) (r : Reliable) (b : Buffer)
    → Receives n r b
    → All IsOp ops
    → b.next + length ops ≤ 2 ^ 31
    → answers ops r ≡ buffer_answers n ops b
unfolding answers buffer_answers
answers-Receives n [] r b v h early = refl
answers-Receives n (put_op id payload ∷ ops) r b v h early =
    let (same, v') = put-buffer_put n id payload r b v h.0 (omega (arith, v.same_next)) in
    ap₂ (λ a rest. put_output a ∷ rest) same
      (answers-Receives n ops (put id payload r).0 (buffer_put n id payload b).0 v' h.1
        (omega (arith, buffer_put_next n id payload b)))
answers-Receives n (get_op ∷ ops) r b v h early =
    let same = get-buffer_get n r b v (omega (arith, v.same_next)) in
    elim (Option-cases (get r)) [
      | inl e ↦ elim (Option-cases (buffer_get b)) [
        | inl e' ↦
            rw (e, answers, e', buffer_answers)
              (ap (λ rest. nothing_ready ∷ rest) (answers-Receives n ops r b v h.1 (omega arith)))
        | inr (_, e') ↦ absurd (rw (e, e') at same)
      ]
      | inr ((p, r'), e) ↦ elim (Option-cases (buffer_get b)) [
        | inl e' ↦ absurd (rw (e, e') at same)
        | inr ((p', b'), e') ↦
            let (same_payload, v') = same_some n e e' same in
            rw (e, answers, e', buffer_answers)
              (ap₂ (λ a rest. delivered a ∷ rest) same_payload
                (answers-Receives n ops r' b' v' h.1 (omega (arith, buffer_get_next b p' b' e'))))
      ]
    ]

fresh : ℕ → Reliable
fresh n = record { initial_timeout = tls_timeout; packet_id = 0; entries = replicate n zero_entry }

free_entries :
    (n : ℕ)
    → (length (replicate n zero_entry) ≡ n)
      × (active_ids (replicate n zero_entry) ≡ [])
      × ((j : ℕ) → find_pending j (replicate n zero_entry) ≡ none)
unfolding active_ids find_pending
free_entries zero = (refl, refl, λ j. refl)
free_entries (suc n) = let (l, a, f) = free_entries n in (ap suc l, a, f)

fresh-Receives : (n : ℕ) → n ≤ capacity → Receives n (fresh n) empty_buffer
unfolding fresh
fresh-Receives n small =
    let (l, a, f) = free_entries n in
    record {
      slots = l;
      small = small;
      same_next = refl;
      same_pending = f;
      distinct = rw a tt;
      within = rw a tt;
    }

new-Receives : (n : ℕ) (r : Reliable) → new n ≡ some r → Receives n r empty_buffer
unfolding new fresh
new-Receives n r e =
    let small : n ≤ capacity = ground arith in
    let built : fresh n ≡ r = ground arith in
    subst (λ r. Receives n r empty_buffer) built (fresh-Receives n small)

-- From a new receive side of `n` slots, over any calls of `Put` and `Get` in any order, as many as
-- keep the next id in the first half of the id space, every answer and every payload delivered is
-- that of the reorder buffer with a window of `n` ids.
pub answers-buffer_answers :
    (n : ℕ) (r : Reliable) (ops : List Op)
    → new n ≡ some r
    → All IsOp ops
    → length ops ≤ 2 ^ 31
    → answers ops r ≡ buffer_answers n ops empty_buffer
answers-buffer_answers n r ops e h few =
    answers-Receives n ops r empty_buffer (new-Receives n r e) h (omega arith)
