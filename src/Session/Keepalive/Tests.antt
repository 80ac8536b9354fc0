-- ===== src/Session/Keepalive/Tests.antt =====
-- shuttle/src/session/keepalive.rs: examples of pings.
use noisy_shuttle.Base.{ℕ, ◌≡◌, refl, true, List, [], ◌∷◌, ◌++◌, some}
use noisy_shuttle.Results.{ok}
use noisy_shuttle.Io.Pipe.{Pipe, pipe, from_peer}
use noisy_shuttle.Session.Frame.{encode, decode, payload}
use noisy_shuttle.Session.Lifecycle.Reason.{ping_sent, ping_acked}
use noisy_shuttle.Session.Stream.{read_frame, write_frame}
use noisy_shuttle.Session.Keepalive.{send_ping, await_response, on_response, keepalive_task}

abbrev ping_bytes : List ℕ
ping_bytes = 0x06 ∷ 0 ∷ 4 ∷ 0 ∷ 0 ∷ 0 ∷ 9 ∷ []

abbrev pong_bytes : List ℕ
pong_bytes = 0x07 ∷ 0 ∷ 4 ∷ 0 ∷ 0 ∷ 0 ∷ 9 ∷ []

abbrev after_ping : Pipe
after_ping = record { incoming = []; outgoing = ping_bytes }

ping_once :
    send_ping pipe 9 true (from_peer pong_bytes)
    ≡ some (ok tt, ping_sent ∷ ping_acked ∷ [], after_ping)
unfolding send_ping await_response on_response read_frame write_frame encode payload decode
ping_once = refl

-- The second answer has another token.
ping_task :
    keepalive_task pipe ((9, true) ∷ (8, true) ∷ []) (from_peer (pong_bytes ++ pong_bytes))
    ≡ some (1, true)
unfolding keepalive_task send_ping await_response on_response read_frame write_frame encode payload
    decode
ping_task = refl
