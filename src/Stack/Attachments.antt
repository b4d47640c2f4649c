-- ===== src/Stack/Attachments.antt =====
-- netstack/stack.go: the map of attachments, with Attach, Detach, IsAttached and Routes.
use govpn.Base.{
  ℕ, ◌+◌, ◌*◌, ◌^◌, Bool, true, false, leb, ◌==◌, if◌then◌else◌, Option, none, some, List, [], ◌∷◌,
  map,
}
use govpn.Frame.{Addr, as4}
use govpn.Reassembly.{same_addr}
use govpn.Stack.{
  nil_session, Error, invalid_attach_ip, attach_server_ip, duplicate_attach, Attachment, Stack, to4,
}

-- `routes[addr]`.
unfoldable pub find_route : Addr → List Attachment → Option Attachment
find_route ip [] = none
find_route ip (a ∷ as') = if same_addr a.ip ip then some a else find_route ip as'

unfoldable pub find_pointer : ℕ → List Attachment → Option Attachment
find_pointer p [] = none
find_pointer p (a ∷ as') = if a.pointer == p then some a else find_pointer p as'

unfoldable pub remove_pointer : ℕ → List Attachment → List Attachment
remove_pointer p [] = []
remove_pointer p (a ∷ as') = if a.pointer == p then as' else a ∷ remove_pointer p as'

-- The attachment changed in place.
unfoldable pub put_attachment : Attachment → List Attachment → List Attachment
put_attachment b [] = []
put_attachment b (a ∷ as') = if a.pointer == b.pointer then b ∷ as' else a ∷ put_attachment b as'

abbrev pub new_attachment : Stack → ℕ → Addr → Attachment
new_attachment s sess ip = record {
  pointer = s.next_pointer;
  sess = sess;
  ip = ip;
  reasm = record {
    bufs = [];
    bytes = 0;
    closed = false;
    max_bufs = s.reasm_limits.max_datagrams;
    max_bytes = s.reasm_limits.max_bytes;
    timeout = s.reasm_limits.timeout;
  };
  grown = false;
}

-- A nil session is `none`.
unfoldable pub attach : Option ℕ → List ℕ → Stack → Stack × Option Error
unfolding to4 find_route
attach none ip s = (s, some nil_session)
attach (some sess) ip s = elim (to4 ip) [
  | none ↦ (s, some invalid_attach_ip)
  | some addr ↦
      if same_addr addr s.server_ip
      then (s, some attach_server_ip)
      else elim (find_route addr s.routes) [
        | some a ↦ (s, some duplicate_attach)
        | none ↦ (
          record s {
            routes = new_attachment s sess addr ∷ s.routes;
            next_pointer = s.next_pointer + 1;
          },
          none,
        )
      ]
]

-- `detachAttachment`, and what Detach does to the attachment that it found.
unfoldable pub detach_attachment : ℕ → Stack → Stack
unfolding remove_pointer
detach_attachment p s = record s { routes = remove_pointer p s.routes }

-- The attachment that a caller's address names.
unfoldable pub attached : List ℕ → Stack → Option Attachment
unfolding to4 find_route
attached ip s = elim (to4 ip) [ none ↦ none | some addr ↦ find_route addr s.routes ]

unfoldable pub detach : List ℕ → Stack → Stack × Bool
unfolding attached detach_attachment
detach ip s = elim (attached ip s) [
  | none ↦ (s, false)
  | some a ↦ (detach_attachment a.pointer s, true)
]

unfoldable pub is_attached : List ℕ → Stack → Bool
unfolding attached
is_attached ip s = elim (attached ip s) [ none ↦ false | some a ↦ true ]

-- An address as a number: `Addr.Compare` of two IPv4 addresses compares these.
abbrev pub addr_value : Addr → ℕ
addr_value a = a.b₀ * 2 ^ 24 + a.b₁ * 2 ^ 16 + a.b₂ * 2 ^ 8 + a.b₃

unfoldable pub insert_addr : Addr → List Addr → List Addr
insert_addr a [] = a ∷ []
insert_addr a (b ∷ bs) =
    let rest = insert_addr a bs in
    if leb (addr_value a) (addr_value b) then a ∷ (b ∷ bs) else b ∷ rest

unfoldable pub sort_addrs : List Addr → List Addr
unfolding insert_addr
sort_addrs [] = []
sort_addrs (a ∷ addrs) = insert_addr a (sort_addrs addrs)

-- `Routes`.
unfoldable pub sorted_routes : Stack → List (List ℕ)
unfolding sort_addrs
sorted_routes s = map as4 (sort_addrs (map (λ (a : Attachment). a.ip) s.routes))
