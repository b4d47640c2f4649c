-- ===== src/Wire/Runs.antt =====
-- Control packets of internal/wire/wire.go on concrete bytes.
use govpn.Base.{ℕ, ◌≡◌, refl, List, [], ◌∷◌, some, ok, arith}
use govpn.Wire.{
  ControlPacket, too_short, valid_opcode, read_packet_id, read_acks, read_remote_session_id,
  read_own_packet_id, parse_control_packet, append_plaintext,
}
use govpn.Wire.RoundTrip.{IsWireable, header, parse-append, append-parse}
use govpn.Wire.Verdict.{failure, verdict, parse_control_packet-verdict}

abbrev sid : List ℕ
sid = 1 ∷ 2 ∷ 3 ∷ 4 ∷ 5 ∷ 6 ∷ 7 ∷ 8 ∷ []

abbrev two_acks : ControlPacket
two_acks = record {
  opcode = 4;
  key_id = 0;
  session_id = sid;
  acks = 1 ∷ 0x0102_0304 ∷ [];
  remote_session_id = sid;
  packet_id = 7;
  payload = 22 ∷ 3 ∷ [];
}

abbrev two_acks_bytes : List ℕ
two_acks_bytes =
    2 ∷ 0 ∷ 0 ∷ 0 ∷ 1 ∷ 1 ∷ 2 ∷ 3 ∷ 4 ∷ 1 ∷ 2 ∷ 3 ∷ 4 ∷ 5 ∷ 6 ∷ 7 ∷ 8 ∷ 0 ∷ 0 ∷ 0 ∷ 7 ∷ 22 ∷ 3 ∷ []

two_acks_parse : parse_control_packet two_acks_bytes (header two_acks) ≡ ok two_acks
unfolding parse_control_packet read_acks read_packet_id read_remote_session_id read_own_packet_id
two_acks_parse = refl

two_acks-IsWireable : IsWireable two_acks
unfolding valid_opcode
two_acks-IsWireable = record {
  legal = refl;
  few_acks = omega arith;
  acks_fit = omega arith;
  remote_fits = refl;
  id_fits = (omega arith, λ e. ground arith);
}

parse-append_example :
    parse_control_packet (append_plaintext two_acks []) (header two_acks) ≡ ok two_acks
parse-append_example = parse-append two_acks two_acks-IsWireable

append-parse_example :
    (append_plaintext two_acks [] ≡ two_acks_bytes)
    × (header two_acks ≡ header two_acks)
    × IsWireable two_acks
append-parse_example =
    append-parse two_acks_bytes (header two_acks) two_acks (omega arith) two_acks_parse

parse_control_packet-verdict_example :
    failure (parse_control_packet (1 ∷ 0 ∷ 0 ∷ 0 ∷ 9 ∷ 1 ∷ []) (header two_acks)) ≡ some too_short
unfolding verdict valid_opcode
parse_control_packet-verdict_example =
    parse_control_packet-verdict (1 ∷ 0 ∷ 0 ∷ 0 ∷ 9 ∷ 1 ∷ []) (header two_acks)
