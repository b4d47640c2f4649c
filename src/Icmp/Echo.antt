-- ===== src/Icmp/Echo.antt =====
-- What an echo request is answered with.
use govpn.Base.{
  ℕ, ◌+◌, ◌*◌, ◌^◌, ◌≤◌, ◌<◌, ltb, ◌≡◌, refl, ◌∙◌, List, [], ◌∷◌, ◌++◌, length, All, false, arith,
}
use govpn.Base.Words.{be16, IsByte}
use govpn.Frame.{Addr, internet_checksum, complement16, fold_carries, carry_rounds, build_ipv4}
use govpn.Frame.Checksum.{total, total_bound, internet_checksum-total, checksum_cancels}
use govpn.Ipv4.{Ipv4Header}
use govpn.Icmp.{reply, echo_reply, handle_icmp, protocol_icmp}

-- The message with its type and checksum replaced.
abbrev pub answered : ℕ → ℕ → List ℕ → List ℕ
answered code checksum rest = 0 ∷ code ∷ (be16 checksum ++ rest)

echo_checksum :
    (code c : ℕ) (rest : List ℕ)
    → IsByte code
    → All IsByte rest
    → length rest + 4 < 2 ^ 16
    → c ≡ internet_checksum (answered code 0 rest)
    → internet_checksum (answered code c rest) ≡ 0
echo_checksum code c rest hc hr l e =
    let hz : All IsByte (answered code 0 rest) = ground arith in
    let hf : All IsByte (answered code c rest) = ground arith in
    let bz : 2 * total (answered code 0 rest) ≤ (length rest + 5) * 65535 =
      omega (arith, total_bound (answered code 0 rest) hz) in
    let bf : 2 * total (answered code c rest) ≤ (length rest + 5) * 65535 =
      omega (arith, total_bound (answered code c rest) hf) in
    let e' : c ≡ complement16 (fold_carries carry_rounds (total (answered code 0 rest))) =
      e ∙ internet_checksum-total (answered code 0 rest) hz (omega arith) in
    internet_checksum-total (answered code c rest) hf (omega arith)
    ∙ checksum_cancels (total (answered code 0 rest)) (total (answered code c rest)) c e'
        (unfold total in omega (arith, e')) (omega arith)

-- A well-formed echo request is answered by a packet to its sender that holds the same code,
-- identifier, sequence number and data under the reply type, with a checksum that verifies.
pub handle_icmp-echo :
    (server : Addr) (hdr : Ipv4Header) (code c₀ c₁ : ℕ) (rest : List ℕ)
    → IsByte code
    → All IsByte rest
    → 4 ≤ length rest
    → length rest + 4 < 2 ^ 16
    → (checksum : ℕ) × (handle_icmp server hdr (8 ∷ code ∷ c₀ ∷ c₁ ∷ rest)
        ≡ reply (build_ipv4 [] server hdr.src protocol_icmp (answered code checksum rest)))
      × (internet_checksum (answered code checksum rest) ≡ 0)
unfolding handle_icmp echo_reply
handle_icmp-echo server hdr code c₀ c₁ rest hc hr long l =
    let long' : ltb (length (8 ∷ code ∷ c₀ ∷ c₁ ∷ rest)) 8 ≡ false = ground arith in
    (
      internet_checksum (answered code 0 rest),
      rw long' refl,
      echo_checksum code (internet_checksum (answered code 0 rest)) rest hc hr l refl,
    )
