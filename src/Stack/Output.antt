-- ===== src/Stack/Output.antt =====
-- netstack/stack.go: writePacket, which sends a packet to a session, in fragments if it has to.
use govpn.Base.{
  ℕ, ◌+◌, ◌%◌, ◌^◌, Bool, not, leb, ◌==◌, if◌then◌else◌, Option, none, some, List, [], ◌∷◌, length,
  Result, ok, err,
}
use govpn.Base.Words.{add32}
use govpn.Frame.{Addr}
use govpn.Ipv4
use govpn.Ipv4.{Ipv4Header, parse_ipv4, is_fragment, datagram, fragment_ipv4}
use govpn.Reassembly.{same_addr}
use govpn.Stack.{Stack, Attachment, Error, outbound_source_mismatch, write_failed}

-- A session's Write of some bytes, and a segment handed to the TCP handler for the attachment that it
-- came from.
pub data Effect : Type 0 where
  session_write : ℕ → List ℕ → Effect
  tcp_segment : ℕ → Addr → Addr → List ℕ → Effect

-- What a session's Write answers.
abbrev pub Accepts : Type 0
Accepts = ℕ → List ℕ → Bool

-- The fragments written in their order, up to the first that fails.
unfoldable pub write_all : Accepts → ℕ → List (List ℕ) → List Effect × Option Error
write_all accepts sess [] = ([], none)
write_all accepts sess (frag ∷ frags) =
    let (rest, e) = write_all accepts sess frags in
    if accepts sess frag
    then (session_write sess frag ∷ rest, e)
    else (session_write sess frag ∷ [], some write_failed)

abbrev pub next_ip_id : Stack → ℕ
next_ip_id s = add32 s.ip_id 1

-- A datagram above the MTU.
unfoldable pub write_fragments :
    Accepts → Attachment → Ipv4Header → List ℕ → Stack → Stack × List Effect × Option Error
unfolding write_all
write_fragments accepts a hdr pkt s =
    let frags : List (List ℕ) = fragment_ipv4 hdr pkt s.mtu (next_ip_id s % 2 ^ 16) in
    let (effects, e) = write_all accepts a.sess frags in
    if length frags == 0
    then (record s { ip_id = next_ip_id s }, [], some (Error.malformed Ipv4.Error.bad_fragment))
    else (
      record s {
        ip_id = next_ip_id s;
        stats = record (s.stats) { outbound_fragmented = s.stats.outbound_fragmented + 1 };
      },
      effects,
      e,
    )

-- What the parser made of `pkt`.
unfoldable pub write_parsed :
    Accepts
    → Attachment
    → Result Ipv4.Error Ipv4Header
    → List ℕ
    → Stack
    → Stack × List Effect × Option Error
unfolding write_fragments
write_parsed accepts a (err e) pkt s = (s, [], some (Error.malformed e))
write_parsed accepts a (ok hdr) pkt s =
    if not (same_addr hdr.src s.server_ip)
    then (
      record s {
        stats = record (s.stats) { outbound_source_dropped = s.stats.outbound_source_dropped + 1 };
      },
      [],
      some outbound_source_mismatch,
    )
    else if leb hdr.total_len s.mtu
    then (s, session_write a.sess pkt ∷ [], if accepts a.sess pkt then none else some write_failed)
    else write_fragments accepts a hdr pkt s

unfoldable pub write_packet :
    Accepts → Attachment → List ℕ → Stack → Stack × List Effect × Option Error
unfolding write_parsed
write_packet accepts a pkt s = write_parsed accepts a (parse_ipv4 pkt) pkt s
