-- ===== src/TcpSegment/Runs.antt =====
-- TCP segments on concrete values.
use govpn.Base.{true, false, ◌≡◌, refl, List, [], ◌∷◌, ◌++◌, replicate, ok, err, arith}
use govpn.Frame.{Addr, transport_checksum, protocol_tcp}
use govpn.TcpSegment.{TcpSegment, Error, seg_len, parse_tcp, walk_options, build_tcp}
use govpn.TcpSegment.Options.{
  TcpOption, nop, max_segment_size, other, encode, encode_all, last_mss, end_of_options,
}
use govpn.TcpSegment.Build.{IsSegment, on_wire, parse_tcp-on_wire}
use govpn.TcpSegment.Sent.{parse_tcp-build_tcp, build_tcp-checksum}

abbrev server : Addr
server = record { b₀ = 10; b₁ = 8; b₂ = 0; b₃ = 1 }

abbrev client : Addr
client = record { b₀ = 10; b₁ = 8; b₂ = 0; b₃ = 2 }

-- A SYN-ACK.
abbrev syn_ack : TcpSegment
syn_ack = record {
  src_port = 80;
  dst_port = 50000;
  seq = 4000000000;
  ack = 17;
  flags = 0x12;
  window = 65535;
  has_mss = true;
  mss = 1340;
  payload = [];
}

syn_ack-IsSegment : IsSegment syn_ack
syn_ack-IsSegment = record {
  src_port_u16 = omega arith;
  dst_port_u16 = omega arith;
  seq_u32 = omega arith;
  ack_u32 = omega arith;
  window_u16 = omega arith;
}

seg_len_run : seg_len syn_ack ≡ 1
unfolding seg_len
seg_len_run = refl

zero_length_option : walk_options 4 (9 ∷ 0 ∷ 0 ∷ 0 ∷ []) (false, 0) ≡ err Error.tcp_bad_option
unfolding walk_options
zero_length_option = refl

too_short_run : parse_tcp (replicate 19 0) ≡ err Error.tcp_too_short
unfolding parse_tcp walk_options
too_short_run = refl

bad_data_offset_run : parse_tcp (replicate 20 0x40) ≡ err Error.tcp_bad_data_offset
unfolding parse_tcp walk_options
bad_data_offset_run = refl

-- A window scale option between paddings, an MSS option, the end mark and a byte after it.
abbrev options : List TcpOption
options = nop ∷ other 3 (7 ∷ []) ∷ max_segment_size 1340 ∷ nop ∷ nop ∷ []

parse_tcp-on_wire_example :
    parse_tcp (on_wire syn_ack 3 0 (1 ∷ 2 ∷ 0 ∷ 0 ∷ []) (encode_all options ++ (0 ∷ 0 ∷ [])))
    ≡ ok syn_ack
parse_tcp-on_wire_example =
    parse_tcp-on_wire syn_ack 3 0 (1 ∷ 2 ∷ 0 ∷ 0 ∷ []) options (0 ∷ 0 ∷ []) syn_ack-IsSegment
      (omega arith) (tt, (omega arith, (omega arith, (tt, (tt, tt))))) (end_of_options (0 ∷ []))
      (unfold encode_all encode in refl) (unfold last_mss in refl)

parse_tcp-build_tcp_example : parse_tcp (build_tcp [] syn_ack server client) ≡ ok syn_ack
parse_tcp-build_tcp_example =
    parse_tcp-build_tcp syn_ack server client syn_ack-IsSegment (omega arith) (λ e. cc)

build_tcp-checksum_example :
    transport_checksum server client protocol_tcp (build_tcp [] syn_ack server client) ≡ 0
build_tcp-checksum_example =
    build_tcp-checksum syn_ack server client (ground arith) (ground arith) (omega arith) tt
      (omega arith)
