-- ===== src/Client/Plain/Frames.antt =====
-- shuttle/src/client/plain.rs: `relay_tcp_frames`, one turn of its `select!` at a time. The schedule
-- says which branch is ready and what the client's socket answers; frames are read from the
-- session's stream and written to it. A read of the client's socket that is ready while `read_frame`
-- has taken some bytes drops that call, and with it these bytes: `taken` counts them.
use noisy_shuttle.Base.{
  ℕ, ◌+◌, ◌==◌, ltb, Bool, true, false, List, [], ◌∷◌, ◌++◌, Option, none, some, length, drop,
  if◌then◌else◌,
}
use noisy_shuttle.Results.{Result, ok, err}
use noisy_shuttle.Io.{IoError, Duplex}
use noisy_shuttle.Client.Pool.{wrap64}
use noisy_shuttle.Session.Frame.{
  Frame, FrameError, data_frame, end_request, reset, ping, pong, close,
}
use noisy_shuttle.Session.Lifecycle.Reason.{discriminant, client_close}
use noisy_shuttle.Session.Stream.{read_frame, write_frame}
use noisy_shuttle.Client.Plain.{HeaderError, trojan_header_len}

abbrev pub max_first_packet_size : ℕ
max_first_packet_size = 8192

pub data FramesError : Type 0 where
  bad_header : HeaderError → FramesError
  inbound_read_failed inbound_write_failed : FramesError
  session_failed : FrameError → FramesError
  request_reset session_closed : ℕ → FramesError
  unexpected_frame : Frame → FramesError

-- `from_client` is the data of the first packet and what was read from the client's socket after it,
-- `to_client` what was written to that socket.
pub record ClientRelay (N : Type 0) : Type 0 where
  pub stream : N
  pub tx : ℕ
  pub rx : ℕ
  pub client_closed : Bool
  pub from_client : List ℕ
  pub to_client : List ℕ

pub data ClientEvent : Type 0 where
  inbound_ready : (taken : ℕ) → Result IoError (List ℕ) → ClientEvent
  -- A frame can be read; the client's socket takes what is written to it, or not.
  frame_ready : (accepts : Bool) → ClientEvent

pub data Progress (N : Type 0) : Type 0 where
  running finished : ClientRelay N → Progress N
  failed : FramesError → ClientRelay N → Progress N
  panicked : Progress N

abbrev pub go_on : {N : Type 0} → Progress N → (ClientRelay N → Progress N) → Progress N
go_on (running r) k = k r
go_on (finished r) k = finished r
go_on (failed e r) k = failed e r
go_on panicked k = panicked

-- The answer to the first read of the client's socket within FIRST_PACKET_TIMEOUT, if there is one.
unfoldable pub first_packet : List ℕ → Option (Result IoError (List ℕ)) → List ℕ
first_packet outbuf (some (ok bytes)) =
    if ltb (length outbuf) max_first_packet_size then outbuf ++ bytes else outbuf
first_packet outbuf _ = outbuf

module _ (d : Duplex) where
  open d use {Stream, read_exact}

  -- `write_frame(…).await?` on the session, and what follows it.
  unfoldable pub written :
      ClientRelay Stream → Option (Result FrameError (Unit {0}) × Stream) → Progress Stream
  written r none = panicked
  written r (some (ok u, s)) = running (record r { stream = s })
  written r (some (err e, s)) = failed (session_failed e) (record r { stream = s })

  -- Bytes of the client, which are then sent.
  abbrev pub count_tx : List ℕ → ClientRelay Stream → ClientRelay Stream
  count_tx bytes r = record r {
    tx = wrap64 (r.tx + length bytes);
    from_client = r.from_client ++ bytes;
  }

  -- The bytes that a dropped `read_frame` had taken are gone.
  unfoldable pub abandon : ℕ → ClientRelay Stream → ClientRelay Stream
  abandon taken r = if taken == 0 then r else record r { stream = (read_exact taken r.stream).1 }

  -- The data that is sent before the loop.
  unfoldable pub send_first : List ℕ → ClientRelay Stream → Progress Stream
  send_first [] r = running r
  send_first (b ∷ bytes) r =
      written (count_tx (b ∷ bytes) r) (write_frame d (data_frame (b ∷ bytes)) r.stream)

  unfoldable pub after_header : List ℕ → ClientRelay Stream → Result HeaderError ℕ → Progress Stream
  after_header packet r (err e) = failed (bad_header e) r
  after_header packet r (ok header_len) = send_first (drop header_len packet) r

  unfoldable pub send_request :
      Option (List ℕ) → Option (Result IoError (List ℕ)) → ClientRelay Stream → Progress Stream
  send_request none first r = running r
  send_request (some outbuf) first r =
      after_header (first_packet outbuf first) r (trojan_header_len outbuf)

  unfoldable pub on_inbound : Result IoError (List ℕ) → ClientRelay Stream → Progress Stream
  on_inbound (err e) r = failed inbound_read_failed r
  on_inbound (ok []) r =
      written (record r { client_closed = true })
        (write_frame d (end_request (discriminant client_close)) r.stream)
  on_inbound (ok (b ∷ bytes)) r =
      written (count_tx (b ∷ bytes) r) (write_frame d (data_frame (b ∷ bytes)) r.stream)

  -- The `match` on a frame of the server.
  unfoldable pub on_server_frame :
      Bool → Result FrameError Frame → ClientRelay Stream → Progress Stream
  on_server_frame accepts (err e) r = failed (session_failed e) r
  on_server_frame accepts (ok (data_frame bytes)) r =
      let r' = record r { rx = wrap64 (r.rx + length bytes) } in
      if accepts
      then running (record r' { to_client = r.to_client ++ bytes })
      else failed inbound_write_failed r'
  on_server_frame accepts (ok (end_request reason)) r = finished r
  on_server_frame accepts (ok (reset reason)) r = failed (request_reset reason) r
  on_server_frame accepts (ok (close reason)) r = failed (session_closed reason) r
  on_server_frame accepts (ok (ping token)) r = written r (write_frame d (pong token) r.stream)
  on_server_frame accepts (ok f) r = failed (unexpected_frame f) r

  -- One turn of the `select!`; a branch that is disabled is not taken.
  unfoldable pub frames_step : ClientEvent → ClientRelay Stream → Progress Stream
  frames_step (inbound_ready taken result) r =
      if r.client_closed then running r else on_inbound result (abandon taken r)
  frames_step (frame_ready accepts) r =
      let (result, s) = read_frame d r.stream in
      on_server_frame accepts result (record r { stream = s })

  unfoldable pub frames_loop : List ClientEvent → ClientRelay Stream → Progress Stream
  frames_loop [] r = running r
  frames_loop (e ∷ es) r = go_on (frames_step e r) (frames_loop es)

  unfoldable pub start_frames : Stream → ClientRelay Stream
  start_frames s = record {
    stream = s;
    tx = 0;
    rx = 0;
    client_closed = false;
    from_client = [];
    to_client = [];
  }

  unfoldable pub relay_tcp_frames :
      Option (List ℕ)
      → Option (Result IoError (List ℕ))
      → List ClientEvent
      → Stream
      → Progress Stream
  relay_tcp_frames outbuf first events s =
      go_on (send_request outbuf first (start_frames s)) (frames_loop events)
