-- ===== src/Frame/Runs.antt =====
-- Frames built from concrete values.
use govpn.Base.{◌<◌, ◌≡◌, refl, [], ◌∷◌, take, drop, arith}
use govpn.Base.Words.{uint16_of}
use govpn.Frame.{
  Addr, sum_words, fold_carries, internet_checksum, transport_checksum, build_ipv4, build_udp,
  protocol_udp,
}
use govpn.Frame.Checksum.{ones_sum, fold_carries-ones_sum}
use govpn.Frame.Verifies.{build_udp-checksum}

abbrev server : Addr
server = record { b₀ = 10; b₁ = 8; b₂ = 0; b₃ = 1 }

abbrev client : Addr
client = record { b₀ = 10; b₁ = 8; b₂ = 0; b₃ = 2 }

-- The example of RFC 1071.
rfc_1071 : internet_checksum (0x00 ∷ 0x01 ∷ 0xf2 ∷ 0x03 ∷ 0xf4 ∷ 0xf5 ∷ 0xf6 ∷ 0xf7 ∷ []) ≡ 0x220d
unfolding internet_checksum sum_words fold_carries
rfc_1071 = refl

built :
    take 12 (build_ipv4 [] server client 17 (1 ∷ 2 ∷ []))
    ≡ 0x45 ∷ 0 ∷ 0 ∷ 22 ∷ 0 ∷ 0 ∷ 0 ∷ 0 ∷ 64 ∷ 17 ∷ 102 ∷ 197 ∷ []
unfolding build_ipv4 internet_checksum sum_words fold_carries
built = refl

fold_carries-ones_sum_example : fold_carries 2 0x1_FFFF ≡ ones_sum 0x1_FFFF
fold_carries-ones_sum_example = fold_carries-ones_sum 0x1_FFFF 0 (omega arith)

build_udp-checksum_example :
    (transport_checksum server client protocol_udp
        (build_udp [] server client 53 5353 (1 ∷ 2 ∷ 3 ∷ []))
      ≡ 0)
    × (0 < uint16_of (drop 6 (build_udp [] server client 53 5353 (1 ∷ 2 ∷ 3 ∷ []))))
build_udp-checksum_example =
    build_udp-checksum server client 53 5353 (1 ∷ 2 ∷ 3 ∷ []) (ground arith) (ground arith)
      (ground arith) (omega arith)
