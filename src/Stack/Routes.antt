-- ===== src/Stack/Routes.antt =====
-- The table of routes under the operations: who is attached, and what is known of each attachment.
use govpn.Base.{
  some_inj, ℕ, ◌<◌, ◌≡◌, sym, ap, ◌∙◌, subst, false, ◌==◌, ==_iff, Option, none, some, List, [],
  ◌∷◌, All, branch-keeps, Bool-cases, inl, inr,
}
use govpn.Frame.{Addr}
use govpn.Reassembly.{same_addr}
use govpn.Reassembly.Origin.{HoldsFrom}
use govpn.Stack.{Attachment}
use govpn.Stack.Attachments.{find_route, find_pointer, remove_pointer, put_attachment}

-- Addresses differ, and a later attachment has a higher pointer.
abbrev pub Apart : List Attachment → Type 0
Apart [] = Unit {0}
Apart (a ∷ as') = All (λ b. (same_addr b.ip a.ip ≡ false) × (b.pointer < a.pointer)) as' × Apart as'

-- An attachment's address is not the server's and has the property `Q`, its pointer was given out, and
-- the fragments that it holds carry its address.
pub record IsRoute (Q : Addr → Type 0) (server : Addr) (next : ℕ) (a : Attachment) : Type 0 where
  pub allowed : Q a.ip
  pub holds : HoldsFrom a.ip server a.reasm
  pub not_server : same_addr a.ip server ≡ false
  pub given : a.pointer < next

nothing_found {ℓ} : {A : Type ℓ} {a : A} → ◌≡◌ {A = Option A} (some a) none → ⊥
nothing_found h = cc

module _ (P : Attachment → Type 0) where
  pub remove_pointer-All :
      (p : ℕ) (as' : List Attachment) → All P as' → All P (remove_pointer p as')
  unfolding remove_pointer
  remove_pointer-All p [] h = tt
  remove_pointer-All p (a ∷ as') h =
      branch-keeps (All P) (a.pointer == p) _ _ h.1 (h.0, remove_pointer-All p as' h.1)

  pub find_pointer-All :
      (p : ℕ) (as' : List Attachment) (a : Attachment)
      → All P as'
      → find_pointer p as' ≡ some a
      → P a
  unfolding find_pointer
  find_pointer-All p [] a h e = absurd cc
  find_pointer-All p (b ∷ as') a h e = elim (Bool-cases (b.pointer == p)) [
    | inl same ↦ subst P (some_inj (rw same at e)) h.0
    | inr other ↦ find_pointer-All p as' a h.1 (rw other at e)
  ]

  pub find_route-All :
      (ip : Addr) (as' : List Attachment) (a : Attachment)
      → All P as'
      → find_route ip as' ≡ some a
      → P a
  unfolding find_route
  find_route-All ip [] a h e = absurd cc
  find_route-All ip (b ∷ as') a h e = elim (Bool-cases (same_addr b.ip ip)) [
    | inl same ↦ subst P (some_inj (rw same at e)) h.0
    | inr other ↦ find_route-All ip as' a h.1 (rw other at e)
  ]

  pub put_attachment-All :
      (b : Attachment) (as' : List Attachment) → P b → All P as' → All P (put_attachment b as')
  unfolding put_attachment
  put_attachment-All b [] hb h = tt
  put_attachment-All b (a ∷ as') hb h =
      branch-keeps (All P) (a.pointer == b.pointer) _ _ (hb, h.1)
        (h.0, put_attachment-All b as' hb h.1)

pub find_pointer-pointer :
    (p : ℕ) (as' : List Attachment) (a : Attachment) → find_pointer p as' ≡ some a → a.pointer ≡ p
unfolding find_pointer
find_pointer-pointer p [] a e = absurd cc
find_pointer-pointer p (b ∷ as') a e = elim (Bool-cases (b.pointer == p)) [
  | inl same ↦
      let is_a : b ≡ a = some_inj (rw same at e) in
      ap (λ (x : Attachment). x.pointer) (sym is_a) ∙ (==_iff b.pointer p).0 same
  | inr other ↦ find_pointer-pointer p as' a (rw other at e)
]

pub remove_pointer-Apart :
    (p : ℕ) (as' : List Attachment) → Apart as' → Apart (remove_pointer p as')
unfolding remove_pointer
remove_pointer-Apart p [] h = tt
remove_pointer-Apart p (a ∷ as') h =
    branch-keeps Apart (a.pointer == p) _ _ h.1
      (remove_pointer-All _ p as' h.0, remove_pointer-Apart p as' h.1)

-- An attachment replaced by one with the same pointer and address.
pub put_attachment-Apart :
    (b a : Attachment) (as' : List Attachment)
    → find_pointer b.pointer as' ≡ some a
    → b.ip ≡ a.ip
    → Apart as'
    → Apart (put_attachment b as')
unfolding put_attachment find_pointer
put_attachment-Apart b a [] e same h = tt
put_attachment-Apart b a (c ∷ as') e same h = elim (Bool-cases (c.pointer == b.pointer)) [
  | inl hit ↦
      let is_a : c ≡ a = some_inj (rw hit at e) in
      let same_ip : c.ip ≡ b.ip = ap (λ (x : Attachment). x.ip) is_a ∙ sym same in
      let same_pointer : c.pointer ≡ b.pointer = (==_iff c.pointer b.pointer).0 hit in
      rw hit (
        subst (λ n. All (λ x. (same_addr x.ip b.ip ≡ false) × (x.pointer < n)) as') same_pointer
            (subst (λ ip. All (λ x. (same_addr x.ip ip ≡ false) × (x.pointer < c.pointer)) as')
              same_ip h.0),
        h.1,
      )
  | inr miss ↦
      let found : find_pointer b.pointer as' ≡ some a = rw miss at e in
      let at_a =
        find_pointer-All (λ x. (same_addr x.ip c.ip ≡ false) × (x.pointer < c.pointer)) b.pointer
          as' a h.0 found in
      let at_b : (same_addr b.ip c.ip ≡ false) × (b.pointer < c.pointer) = (
        subst (λ ip. same_addr ip c.ip ≡ false) (sym same) at_a.0,
        subst (λ n. n < c.pointer) (find_pointer-pointer b.pointer as' a found) at_a.1,
      ) in
      rw miss (
        put_attachment-All (λ x. (same_addr x.ip c.ip ≡ false) × (x.pointer < c.pointer)) b as' at_b
            h.0,
        put_attachment-Apart b a as' found same h.1,
      )
]

-- A new attachment in front, at an address without a route.
pub find_route-Apart :
    (a : Attachment) (as' : List Attachment)
    → find_route a.ip as' ≡ none
    → All (λ b. b.pointer < a.pointer) as'
    → All (λ b. (same_addr b.ip a.ip ≡ false) × (b.pointer < a.pointer)) as'
unfolding find_route
find_route-Apart a [] e h = tt
find_route-Apart a (b ∷ as') e h = elim (Bool-cases (same_addr b.ip a.ip)) [
  | inl hit ↦ absurd (nothing_found (rw hit at e))
  | inr miss ↦ ((miss, h.0), find_route-Apart a as' (rw miss at e) h.1)
]
