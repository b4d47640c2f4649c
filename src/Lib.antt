-- ===== src/Lib.antt =====
-- govpn: an OpenVPN server library. This development models the parts of it that decide what is
-- accepted, delivered and handed out, and proves what each promises.
--
-- How the parts work together. A datagram of the control channel is unwrapped (internal/tlscrypt),
-- its plaintext is parsed (internal/wire) and its payload goes through the reliability layer
-- (internal/reliable) to the TLS connection. When the handshake is done, the server takes a tunnel
-- address and a peer id from its pool (ippool.go) and the session's packets go through the data
-- channel (internal/datachan), whose replay window drops repeated packets. A program that embeds the
-- server may run the IPv4 stack of netstack on the opened packets.
--
-- Files:
--   Base          shared names, lists over native numbers, results, bits, words and signed numbers.
--   Wire          internal/wire/wire.go: parse_header_byte and append_header_byte, the body parser
--                 parse_control_packet (ParseControlPacket) and append_plaintext (AppendPlaintext).
--   Replay        internal/datachan/replay.go: the window and accept. internal/tlscrypt/tlscrypt.go
--                 has a copy of both.
--   Reliable      internal/reliable/reliable.go: Reliable with Next, MarkActive, SetPayload, Ack, Due,
--                 Empty, Put and Get, and AckSet.
--   DataChannel   internal/datachan/datachan.go and ping.go: NewWrapper, Seal, SealWithPacketID, SealPing
--                 and Open, over the AEAD of crypto/cipher as a parameter.
--   Frame         netstack/internal/frame/frame.go: BuildIPv4, BuildUDP, InternetChecksum, PseudoHeaderSum
--                 and TransportChecksum. The carry loop is given two rounds, which bring
--                 any uint32 below 2^16.
--   Ipv4          netstack/ipv4.go: parseIPv4 and fragmentIPv4. The loop of the latter is given as many
--                 rounds as there are payload bytes; each takes at least eight bytes, or all that is left.
--   TcpSegment    netstack/tcp_segment.go: segLen, parseTCP and buildTCP. The option walk is given as many
--                 rounds as there are option bytes; each takes at least one.
--   Icmp          netstack/icmp.go: handleICMP.
--   Reassembly    netstack/reassembly.go: add and discardAll, in Reassembly.Add, over the hole list and the
--                 buffer store of Reassembly. Reassembly.Sender and Reassembly.RoundTrip run it over the
--                 fragments that fragmentIPv4 makes.
--   TcpState      netstack/tcp_state.go: seqGT, seqGE, buildRSTSegment and rstInWindowLocked, with
--                 recvWindowRemainingLocked of netstack/tcp_conn.go.
--   TcpConn       netstack/tcp_conn.go, tcp_timer.go and tcp_state.go: a connection. TcpConn has the state
--                 and sendPendingLocked, TcpConn.Input handleSegment with handleAckLocked and
--                 handleEstablishedDataLocked, TcpConn.Timer onRTOFired, onAttachmentDetached and abort,
--                 TcpConn.Api Read, Write, Close and CloseWrite, and TcpConn.Events any sequence of them.
--                 The sending loop is given as many rounds as there are queued bytes, of which each sends
--                 at least one, and the draining loop as many as there are segments, of which each takes one.
--   Session       session.go, and pump, startRenegotiation, beginRenegotiation, runRenegotiation and
--                 enforceRenegotiationWindow of ovpn.go. Session has the state with closeWithReason and the
--                 publication by performPushExchange, Session.Keys the key slots, their renegotiation, the
--                 routing of control packets and the reaper, Session.Data handleDataPacket over Open of
--                 DataChannel, with Read, Write and emitPing, and Session.Events any sequence of them.
--   TlsCrypt      internal/tlscrypt/tlscrypt.go: NewWrapper, Wrap, WrapWithPacketID and Unwrap, over HMAC and CTR
--                 of the Go library as parameters and the window of Replay. TlsCrypt.KeyFile has
--                 ParseStaticKeyV1 of internal/tlscrypt/keyfile.go.
--   CtrlConn      internal/ctrlconn/conn.go: a control connection over Reliable, Wire and TlsCrypt, with Deliver,
--                 DeliverAndRespond, SendReset and what they share. CtrlConn.Api has Read, Write, the tick of
--                 retransmitLoop, the poll of WaitDrained, Close and the deadlines, and any sequence of them.
--   Udp           netstack/udp.go: the header and the demultiplexer by port (handlePacket). Udp.Listeners has
--                 the listeners with their queues (ListenUDPOptions, ReadFrom, Close) and deadlines, and
--                 Udp.Concurrent the calls of handlePacket and ReadFrom that interleave at one queue.
--   Stack         netstack/stack.go: New and Close. Stack.Attachments has Attach, Detach and Routes, Stack.Output
--                 writePacket, Stack.Packets deliver, dispatch and readLoop, with handleICMP, over Ipv4,
--                 Reassembly, Icmp and Udp; Stack.Sockets has ListenUDPOptions and WriteTo through the stack,
--                 and Stack.Events any sequence of these.
--   IpPool        ippool.go: newIPPool, serverIP, allocate, reserve and release.
--   Each has child modules for what is proved, and a module Runs with tests on concrete inputs.
--
-- Representation. Bytes, uint16, uint32 and uint64 are native numbers with the wrap written out. A
-- byte slice or array is a list of numbers. A Go error is a constructor of an error type; a panic is
-- `none` where a comment says so. A map from numbers to bool is a function. The locks make each
-- operation one step, but for the enqueue of a UDP datagram, whose calls share their lock: each of its
-- channel operations is a step in Udp.Concurrent, while the stack's events take a packet to its end
-- before the next. Times are nanoseconds since Go's zero time and durations are nanoseconds; they
-- are not bounded, since a timeout that doubles from two seconds leaves the range of int64 only
-- after more than thirty retransmissions, hundreds of years later.
--
-- Loops are recursions on lists, or on the exact count of rounds that the bounds of the loop give, so
-- no fuel is guessed; the loops given a bound of their own are named above.
--
-- Bounds. The refinement of the receive side and the laws of the send side hold while packet ids are
-- below 2^31, the reach of the wraparound-safe comparisons.
-- The address pool is taken to lie within the uint32 range, as every masked network does.
--
-- Not modelled: the ciphers, TLS, the kernel's sockets, goroutines and timers, which are other code.
-- The handshakes of the server (the rest of ovpn.go) are calls of crypto/tls and of the embedder's
-- callbacks between waits, the key derivation (internal/keyderiv) is a chain of calls of crypto/hmac
-- between slices, and the cipher negotiation (cipher.go) and push exchange (push.go) edit texts; the TCP
-- listener of netstack is the table in front of the connections modelled. They are left out so that the
-- library, which is checked as a whole, stays of a size that can be reviewed. The tools, tests and the
-- example are not part of the server.
pub mod Base
pub mod CtrlConn
pub mod DataChannel
pub mod Frame
pub mod Icmp
pub mod IpPool
pub mod Ipv4
pub mod Reassembly
pub mod Reliable
pub mod Replay
pub mod Session
pub mod Stack
pub mod TcpConn
pub mod TcpSegment
pub mod TcpState
pub mod TlsCrypt
pub mod Udp
pub mod Wire
