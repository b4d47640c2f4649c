-- ===== src/Icmp/Runs.antt =====
-- ICMP messages on concrete bytes.
use govpn.Base.{ℕ, ◌≡◌, refl, false, [], ◌∷◌, arith}
use govpn.Frame.{Addr, internet_checksum, build_ipv4}
use govpn.Ipv4.{Ipv4Header}
use govpn.Icmp.{malformed, ignored, reply, echo_reply, handle_icmp, protocol_icmp}
use govpn.Icmp.Echo.{answered, handle_icmp-echo}

abbrev server : Addr
server = record { b₀ = 10; b₁ = 8; b₂ = 0; b₃ = 1 }

abbrev header : Ipv4Header
header = record {
  ihl = 20;
  total_len = 30;
  protocol = 1;
  src = record { b₀ = 10; b₁ = 8; b₂ = 0; b₃ = 2 };
  dst = server;
  payload_off = 20;
  id = 0;
  more_fragments = false;
  frag_offset = 0;
}

short_message : handle_icmp server header (8 ∷ 0 ∷ 0 ∷ 0 ∷ 1 ∷ 2 ∷ 3 ∷ []) ≡ malformed
unfolding handle_icmp echo_reply
short_message = refl

unreachable : handle_icmp server header (3 ∷ 1 ∷ 0 ∷ 0 ∷ 0 ∷ 0 ∷ 0 ∷ 0 ∷ []) ≡ ignored
unfolding handle_icmp echo_reply
unreachable = refl

handle_icmp-echo_example :
    (checksum : ℕ) × (handle_icmp server header (8 ∷ 0 ∷ 1 ∷ 2 ∷ 3 ∷ 4 ∷ 5 ∷ 6 ∷ 7 ∷ 8 ∷ [])
      ≡ reply (
          build_ipv4 [] server header.src protocol_icmp
            (answered 0 checksum (3 ∷ 4 ∷ 5 ∷ 6 ∷ 7 ∷ 8 ∷ []))))
    × (internet_checksum (answered 0 checksum (3 ∷ 4 ∷ 5 ∷ 6 ∷ 7 ∷ 8 ∷ [])) ≡ 0)
handle_icmp-echo_example =
    handle_icmp-echo server header 0 1 2 (3 ∷ 4 ∷ 5 ∷ 6 ∷ 7 ∷ 8 ∷ []) (omega arith) (ground arith)
      (omega arith) (omega arith)
