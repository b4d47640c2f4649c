-- ===== src/Ipv4/Runs.antt =====
-- The parser and the fragmentation on concrete packets.
use govpn.Base.{ℕ, false, ◌≡◌, refl, List, [], ◌∷◌, drop, replicate, map, ok, err, arith}
use govpn.Frame.{Addr, internet_checksum, sum_words, fold_carries}
use govpn.Ipv4.{
  Ipv4Header, Error, parse_ipv4, parse_fields, check_fragment, is_fragment, datagram, fragment,
  fragments_from, fragment_ipv4,
}
use govpn.Ipv4.Tiling.{Tiles, fragment_ipv4-Tiles}

abbrev server : Addr
server = record { b₀ = 10; b₁ = 8; b₂ = 0; b₃ = 1 }

abbrev client : Addr
client = record { b₀ = 10; b₁ = 8; b₂ = 0; b₃ = 2 }

abbrev header : Ipv4Header
header = record {
  ihl = 20;
  total_len = 38;
  protocol = 17;
  src = server;
  dst = client;
  payload_off = 20;
  id = 0;
  more_fragments = false;
  frag_offset = 0;
}

-- Eighteen bytes of payload.
abbrev packet : List ℕ
packet =
    0x45 ∷ 0 ∷ 0 ∷ 38 ∷ 0 ∷ 0 ∷ 0 ∷ 0 ∷ 64 ∷ 17 ∷ 0 ∷ 0 ∷ 10 ∷ 8 ∷ 0 ∷ 1 ∷ 10 ∷ 8 ∷ 0 ∷ 2 ∷ 1 ∷ 2
    ∷ 3 ∷ 4 ∷ 5 ∷ 6 ∷ 7 ∷ 8 ∷ 9 ∷ 10 ∷ 11 ∷ 12 ∷ 13 ∷ 14 ∷ 15 ∷ 16 ∷ 17 ∷ 18 ∷ []

parse_run : parse_ipv4 packet ≡ ok header
unfolding parse_ipv4 parse_fields check_fragment
parse_run = refl

not_a_fragment : is_fragment header ≡ false
unfolding is_fragment
not_a_fragment = refl

wrong_version : parse_ipv4 (0x65 ∷ replicate 30 0) ≡ err Error.not_ipv4
unfolding parse_ipv4 parse_fields check_fragment
wrong_version = refl

fragments_run :
    map (λ f. drop 20 f) (fragment_ipv4 header packet 30 7)
    ≡ (1 ∷ 2 ∷ 3 ∷ 4 ∷ 5 ∷ 6 ∷ 7 ∷ 8 ∷ [])
      ∷ (9 ∷ 10 ∷ 11 ∷ 12 ∷ 13 ∷ 14 ∷ 15 ∷ 16 ∷ [])
      ∷ (17 ∷ 18 ∷ [])
      ∷ []
unfolding fragment_ipv4 fragments_from fragment internet_checksum sum_words fold_carries
fragments_run = refl

fragment_ipv4-Tiles_example :
    Tiles header 30 7 0 (datagram header packet) (fragment_ipv4 header packet 30 7)
fragment_ipv4-Tiles_example =
    fragment_ipv4-Tiles packet header 30 7 (ground arith) parse_run (omega arith) (omega arith)
