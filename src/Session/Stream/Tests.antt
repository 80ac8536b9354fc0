-- ===== src/Session/Stream/Tests.antt =====
-- shuttle/src/session/frame.rs: examples of frames on a stream.
use noisy_shuttle.Base.{ℕ, ◌≡◌, refl, List, [], ◌∷◌, ◌++◌, some, take, arith}
use noisy_shuttle.Results.{err}
use noisy_shuttle.Io.{unexpected_eof}
use noisy_shuttle.Io.Pipe.{Pipe, pipe, pipe_laws, from_peer}
use noisy_shuttle.Session.Frame.{Frame, io, ping, close, encode, payload}
use noisy_shuttle.Session.Stream.{read_frame, write_frame}
use noisy_shuttle.Session.Stream.RoundTrip.{
  read_frame_truncated, Writes, written, write, Reads, Writes-Reads,
}

abbrev ping_bytes : List ℕ
ping_bytes = 0x06 ∷ 0 ∷ 4 ∷ 0 ∷ 0 ∷ 0 ∷ 9 ∷ []

abbrev close_bytes : List ℕ
close_bytes = 0x08 ∷ 0 ∷ 1 ∷ 2 ∷ []

encode_ping : encode (ping 9) [] ≡ some ping_bytes
unfolding encode payload
encode_ping = refl

read_frame_truncated_example :
    (read_frame pipe (from_peer (take 5 ping_bytes))).0 ≡ err (io unexpected_eof)
read_frame_truncated_example =
    read_frame_truncated pipe pipe_laws (from_peer (take 5 ping_bytes)) (ping 9) ping_bytes 5
      encode_ping (omega arith) refl

abbrev two_frames : List Frame
two_frames = ping 9 ∷ close 2 ∷ []

abbrev sent_bytes : List ℕ
sent_bytes = ping_bytes ++ close_bytes

abbrev peer_after : Pipe
peer_after = record { incoming = []; outgoing = sent_bytes }

two-Writes : Writes pipe pipe_laws (from_peer []) two_frames peer_after
unfolding write_frame encode payload
two-Writes = write {t = record { incoming = []; outgoing = ping_bytes }} refl (write refl written)

Writes-Reads_example :
    (r : Pipe) × Reads pipe pipe_laws (from_peer (sent_bytes ++ (1 ∷ []))) two_frames r
    × (r.incoming ≡ 1 ∷ [])
Writes-Reads_example =
    Writes-Reads pipe pipe_laws (from_peer (sent_bytes ++ (1 ∷ []))) two_frames sent_bytes (1 ∷ [])
      (omega arith) two-Writes refl refl
