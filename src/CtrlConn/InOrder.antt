-- ===== src/CtrlConn/InOrder.antt =====
-- The receive window of a control connection holds and gives out what the peer sent.
use govpn.Base.{
  ℕ, zero, suc, ◌+◌, ◌%◌, ◌^◌, ◌≤◌, ◌≡◌, refl, ap, ◌∙◌, true, not, ◌&&◌, ◌==◌, if◌then◌else◌,
  Option, none, some, List, [], ◌∷◌, ◌++◌, length, All, arith, branch-keeps, branch-keeps_when,
}
use govpn.Reliable.{
  Reliable, Entry, size, PutResult, put_rejected, put_accepted, holds, store, put, take_out, get,
  pid_min, pid_in_range2,
}
use mathlib.Core.Option

-- Every packet that waits has the payload that the peer sent under its id.
abbrev pub Carries : (ℕ → List ℕ) → List Entry → Type 0
Carries f es = All (λ e. e.active ≡ true → e.payload ≡ f e.packet_id) es

-- The payloads of the first `n` packets; the ids are uint32.
unfoldable pub payloads : (ℕ → List ℕ) → ℕ → List ℕ
payloads f zero = []
payloads f (suc n) = payloads f n ++ f (n % 2 ^ 32)

-- All that came out of a window.
pub record Receiving (f : ℕ → List ℕ) (r : Reliable) (got : List ℕ) : Type 0 where
  pub count : ℕ
  pub at_next : r.packet_id ≡ count % 2 ^ 32
  pub carries : Carries f r.entries
  pub in_order : got ≡ payloads f count

unfoldable pub count_active : List Entry → ℕ
count_active [] = 0
count_active (e ∷ es) = if e.active then suc (count_active es) else count_active es

pub count_active-length : (es : List Entry) → count_active es ≤ length es
unfolding count_active
count_active-length [] = omega arith
count_active-length (e ∷ es) = ground (arith, count_active-length es)

abbrev Taken : (ℕ → List ℕ) → ℕ → List Entry → Option (List ℕ × List Entry) → Type 0
Taken f id es none = Unit {0}
Taken f id es (some (payload, es')) =
    (payload ≡ f id) × Carries f es' × (count_active es ≡ suc (count_active es'))

Taken-later :
    (f : ℕ → List ℕ) (id : ℕ) (e : Entry) (es : List Entry)
    → (e.active ≡ true → e.payload ≡ f e.packet_id)
    → (o : Option (List ℕ × List Entry)) → Taken f id es o
    → Taken f id (e ∷ es) (Option.map (λ (payload, rest). (payload, e ∷ rest)) o)
unfolding count_active
Taken-later f id e es h none t = tt
Taken-later f id e es h (some (payload, rest)) t = (t.0, (h, t.1), ground (arith, t.2))

take_out-Taken :
    (f : ℕ → List ℕ) (id : ℕ) (es : List Entry) → Carries f es → Taken f id es (take_out id es)
unfolding take_out
take_out-Taken f id [] h = tt
take_out-Taken f id (e ∷ es) h =
    branch-keeps_when (Taken f id (e ∷ es)) (e.active && e.packet_id == id) _ _
      (λ hit.
        let used : e.active ≡ true = ground arith in
        let is_id : e.packet_id ≡ id = ground arith in
        (h.0 used ∙ ap f is_id, ((λ wrong. absurd cc), h.1), unfold count_active in ground arith))
      (λ _. Taken-later f id e es h.0 (take_out id es) (take_out-Taken f id es h.1))

abbrev pub Gets : (ℕ → List ℕ) → Reliable → List ℕ → Option (List ℕ × Reliable) → Type 0
Gets f r got none = Unit {0}
Gets f r got (some (payload, r')) =
    Receiving f r' (got ++ payload) × (count_active r.entries ≡ suc (count_active r'.entries))

Gets-Taken :
    (f : ℕ → List ℕ) (r : Reliable) (got : List ℕ)
    → Receiving f r got
    → (o : Option (List ℕ × List Entry)) → Taken f r.packet_id r.entries o
    → Gets f r got (
        Option.map
          (λ (payload, es).
            (payload, record r { packet_id = (r.packet_id + 1) % 2 ^ 32; entries = es }))
          o)
Gets-Taken f r got v none t = tt
Gets-Taken f r got v (some (payload, es)) t = (
  record {
    count = suc v.count;
    at_next = omega (arith, v.at_next);
    carries = t.1;
    in_order = unfold payloads in rw (t.0, v.in_order, v.at_next) refl;
  },
  t.2,
)

pub get-Gets :
    (f : ℕ → List ℕ) (r : Reliable) (got : List ℕ) → Receiving f r got → Gets f r got (get r)
unfolding get
get-Gets f r got v =
    Gets-Taken f r got v (take_out r.packet_id r.entries)
      (take_out-Taken f r.packet_id r.entries v.carries)

abbrev OptionCarries : (ℕ → List ℕ) → Option (List Entry) → Type 0
OptionCarries f none = Unit {0}
OptionCarries f (some es) = Carries f es

stored_later :
    (f : ℕ → List ℕ) (e : Entry)
    → (e.active ≡ true → e.payload ≡ f e.packet_id)
    → (o : Option (List Entry)) → OptionCarries f o
    → OptionCarries f (Option.map (λ rest. e ∷ rest) o)
stored_later f e h none c = tt
stored_later f e h (some es) c = (h, c)

store-Carries :
    (f : ℕ → List ℕ) (id : ℕ) (payload : List ℕ) (es : List Entry)
    → payload ≡ f id
    → Carries f es
    → OptionCarries f (store id payload es)
unfolding store
store-Carries f id payload [] honest h = tt
store-Carries f id payload (e ∷ es) honest h =
    branch-keeps (OptionCarries f) e.active _ _
      (stored_later f e h.0 (store id payload es) (store-Carries f id payload es honest h.1))
      ((λ _. honest), h.1)

-- A refused packet changes nothing.
abbrev pub Puts : (ℕ → List ℕ) → Reliable → List ℕ → Reliable × PutResult → Type 0
Puts f r got (r', answer) = Receiving f r' got × (answer ≡ put_rejected → r' ≡ r)

stored-Puts :
    (f : ℕ → List ℕ) (r : Reliable) (got : List ℕ)
    → Receiving f r got
    → (o : Option (List Entry)) → OptionCarries f o
    → Puts f r got (elim o as (λ _. Reliable × PutResult) [
      | none ↦ (r, put_rejected)
      | some es ↦ (record r { entries = es }, put_accepted)
    ])
stored-Puts f r got v none c = (v, (λ _. refl))
stored-Puts f r got v (some es) c = (
  record { count = v.count; at_next = v.at_next; carries = c; in_order = v.in_order },
  (λ h. absurd cc),
)

pub put-Puts :
    (f : ℕ → List ℕ) (r : Reliable) (got : List ℕ) (id : ℕ) (payload : List ℕ)
    → payload ≡ f id
    → Receiving f r got
    → Puts f r got (put id payload r)
unfolding put
put-Puts f r got id payload honest v =
    branch-keeps (Puts f r got) (pid_min id r.packet_id) _ _ (v, (λ _. refl))
      (branch-keeps (Puts f r got) (holds id r.entries) _ _ (v, (λ _. refl))
        (branch-keeps (Puts f r got) (not (pid_in_range2 id r.packet_id (size r))) _ _
          (v, (λ _. refl))
          (stored-Puts f r got v (store id payload r.entries)
            (store-Carries f id payload r.entries honest v.carries))))
