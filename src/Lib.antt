-- ===== src/Lib.antt =====
-- noisy-shuttle: a tunnel that looks like TLS, with sessions that carry several requests one after
-- another.
--
-- The client keeps a pool of tunnel sessions (shuttle/src/client/pool.rs), negotiates capabilities
-- on a new one (shuttle/src/session/negotiate.rs) and sends requests as frames
-- (shuttle/src/session/frame.rs). The server's session loop (shuttle/src/server/session_loop.rs)
-- reads the frames, connects to the target that a request names and relays bytes between the two
-- until both sides have ended. The command line gives the limits of a session
-- (shuttle/src/opt.rs), and shuttle/src/session/lifecycle.rs names its states, its close reasons
-- and its events.
--
-- Which file models what:
-- - Session/Frame: `Frame`, `encode`, `decode`. A panic of `encode` is `none`.
-- - Session/Stream: `read_frame` and `write_frame` over a `Duplex`, that is, tokio's `read_exact` and
--   `write_all`, which are parameters with their documented behaviour as laws (Io). Io/Pipe is a
--   stream in memory that satisfies the laws.
-- - Session/Lifecycle: `SessionState`, `can_transition_to`, `CloseReason`, `SessionEvent::emit`.
-- - Session/Negotiate: `Capabilities`, `negotiate_client`, `negotiate_server`, `FallbackTracker`.
--   Whether an answer comes in time is an argument.
-- - Opt: `ReuseConfig::new`, `CltOpt::reuse_config` and the server's default.
-- - Client/Pool: `SessionPool`, one definition for each critical section of its mutex, with the
--   clock and the shutdown flag as arguments. Steps puts the sections of all tasks in any order,
--   with the steps in which a caller drops its session, as a refused retry does; Drain is the wait of
--   `close_all`, with tokio's `Notify` as a parameter and its 30-second timeout as a choice of the
--   schedule; Retry is `SessionHandle`.
-- - Server/Address: `frame_addr_to_trojan_addr`, with the check of String::from_utf8 written out.
-- - Server/Relay: `relay_framed_tcp`, one turn of its `select!` at a time, under any schedule.
--   Its loop is structural recursion on the schedule.
-- - Server/SessionLoop: `SessionLoop`. A turn of its loop is a record of what it finds; `run` takes a
--   list of turns, and waits where the list ends. Serve is the loop, and the parent file one frame.
-- - Session/Keepalive: `KeepaliveDriver::ping` and the task that repeats it.
-- - Tunnel/Totp: tunnel/src/totp.rs, with Blake2s as a parameter. The search over the window is
--   structural recursion on the number of its iterations.
-- - Trojan: shuttle/src/trojan.rs. The addresses of the crate socks5_protocol are a parameter.
-- - Tunnel/Snowy: tunnel/src/common.rs, the stream that `connect` and `accept` return. The socket,
--   the Noise transport of the crate snow and the record parser of the crate rustls are
--   parameters with laws. Write and Read are its operations; a buffer of `size` bytes to read into
--   is its size and what was put into it. Their loops are on fuel: the inner loop of `poll_write`
--   needs a round for each byte of a record, its outer loop one for each byte to write; 'read_ready
--   needs a round for each byte that `pending_read` has room for, and 'read_more one for each
--   byte of a record. Drain, Commit and Progress are about writing, Inbound, Ready and Deliver about
--   reading, Wire about two ends, Leftover about a record that does not decrypt. Loopback is a
--   socket, transport and parser that satisfy the laws.
-- - Client/Plain: shuttle/src/client/plain.rs. Header is the trojan header of a request; Frames is
--   `relay_tcp_frames`, one turn of its `select!` at a time under any schedule, and Sent what it puts on
--   the session; Reusable is `relay_tcp_reusable` and `relay_tcp_remote`, and Balance the pool's
--   counter after them.
-- - Tunnel/Handshake: `Server::accept` of tunnel/src/server.rs and `read_tls_message` of
--   tunnel/src/utils.rs. The parent file has the records, the copying of a TLS 1.2 handshake and
--   `accept` up to the replay filter, Accept the rest of it. The fuel of a copy is its number of
--   records, and a round for each byte that is to come is enough. Records, Fallback, Replay, Copy
--   and Answers are about these parts.
-- - Tunnel/Connect: `connect` and `tls12_handshake` of tunnel/src/client.rs, over the connection of
--   rustls and the initiator of snow, which are parameters. The fuel of a handshake is its number of
--   rounds, and `rounds` of them are enough: for each byte that is to come one more than the
--   connection ever wants to write at once, and what it wants to write now. Whole, Feeds and
--   Rounds are about the handshake, Agrees about where client and server stop. Hello is `connect`;
--   Meets and Welcome are about a client and a server with the same key, and Peers is a pair of such.
-- - Tunnel/Fingerprint: tunnel/src/fp.rs. The parent file has the first pass, over the order of the
--   extensions, Values the second one, over their values, and Overwrite the whole. What rustls and
--   ja3_rustls give is a parameter, and a draw of a GREASE value changes a source that is passed on.
--   Filed and Order are about the order, Alpn about the panic, Flag, Blank and Padding about the
--   padding, Groups, Shares and Offers about the curves, Identity about the random and the session
--   id. `connect` takes the overwriter from here.
-- - Client/Preflighter: shuttle/src/client/connector.rs, the capacity of the queue and `get`. The loop
--   of `get` is structural recursion on the connections that it takes.
-- - Utils: shuttle/src/utils.rs, the functions on URLs.
--
-- Numbers are natural numbers, and a machine integer that can wrap has its remainder written out
-- (`wrap64`, the big-endian words of Base/Bytes). Durations and instants are nanoseconds.
-- Only the loops of Tunnel/Snowy, Tunnel/Handshake and Tunnel/Connect are on fuel.
--
-- Not modelled: tasks, sockets, timers and logging macros beyond `SessionEvent::emit`; the
-- task that opens connections in advance, its handshake averages, and that a resize of its queue can
-- wait for a pending push (shuttle/src/client/connector.rs); the formatting of durations
-- (shuttle/src/utils.rs); the SOCKS5 and HTTP front ends and the one-shot and UDP relays of the client
-- (shuttle/src/client/plain.rs); and the UDP relay and the server's front end
-- (shuttle/src/server.rs).
pub mod Actions
pub mod Base
pub mod Client
pub mod Io
pub mod Opt
pub mod Results
pub mod Server
pub mod Session
pub mod Trojan
pub mod Tunnel
pub mod Utils
