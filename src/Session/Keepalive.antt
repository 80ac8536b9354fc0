-- ===== src/Session/Keepalive.antt =====
-- shuttle/src/session/keepalive.rs: the pings of an idle session. The random token is an argument,
-- and so is whether the answer comes before the timer.
pub mod Exchange
mod Tests
use noisy_shuttle.Base.{
  ℕ, suc, ◌*◌, ◌==◌, ltb, if◌then◌else◌, Bool, true, false, List, [], ◌∷◌, ◌++◌, Option, none, some,
}
use noisy_shuttle.Results.{Result, ok, err}
use noisy_shuttle.Io.{IoError, Duplex}
use noisy_shuttle.Session.Frame.{Frame, FrameError, io, ping, pong}
use noisy_shuttle.Session.Lifecycle.Reason.{SessionEvent, ping_sent, ping_acked, ping_timeout}
use noisy_shuttle.Session.Stream.{read_frame, write_frame}

pub record KeepaliveDriver : Type 0 where
  pub interval : ℕ
  pub timeout : ℕ

pub data KeepaliveError : Type 0 where
  timed_out : KeepaliveError
  token_mismatch : (expected received : ℕ) → KeepaliveError
  unexpected_response : KeepaliveError
  io_failed : IoError → KeepaliveError

-- A `Duration` is below this number of nanoseconds.
abbrev pub duration_limit : ℕ
duration_limit = 18446744073709551616000000000

-- KeepaliveDriver::new
unfoldable pub new_driver : ℕ → KeepaliveDriver
new_driver interval = record {
  interval = interval;
  timeout = if ltb (interval * 2) duration_limit then interval * 2 else interval;
}

unfoldable pub map_frame_error : FrameError → KeepaliveError
map_frame_error (io e) = io_failed e
map_frame_error _ = unexpected_response

-- The `match` on the answer, with the event that it logs.
unfoldable pub on_response :
    ℕ → Result FrameError Frame → Result KeepaliveError (Unit {0}) × List SessionEvent
unfolding map_frame_error
on_response token (ok (pong received)) =
    if received == token
    then (ok tt, ping_acked ∷ [])
    else (err (token_mismatch token received), [])
on_response token (ok f) = (err unexpected_response, [])
on_response token (err e) = (err (map_frame_error e), [])

-- One ping: its result, the events, and the stream after it.
abbrev pub Pinged : Type 0 → Type 0
Pinged N = Result KeepaliveError (Unit {0}) × List SessionEvent × N

module _ (d : Duplex) where
  open d use {Stream}

  unfoldable pub await_response : ℕ → Bool → Stream → Pinged Stream
  unfolding on_response
  await_response token true s =
      let (response, t) = read_frame d s in
      let (result, events) = on_response token response in (result, ping_sent ∷ events, t)
  await_response token false s = (err timed_out, ping_sent ∷ ping_timeout ∷ [], s)

  -- What follows the write of the ping.
  unfoldable pub after_write :
      ℕ → Bool → Option (Result FrameError (Unit {0}) × Stream) → Option (Pinged Stream)
  unfolding map_frame_error
  after_write token in_time none = none
  after_write token in_time (some (err e, t)) = some (err (map_frame_error e), [], t)
  after_write token in_time (some (ok _, t)) = some (await_response token in_time t)

  -- KeepaliveDriver::ping; `none` is a panic.
  unfoldable pub send_ping : ℕ → Bool → Stream → Option (Pinged Stream)
  unfolding after_write
  send_ping token in_time s = after_write token in_time (write_frame d (ping token) s)

  -- The loop of spawn_keepalive_task over the pings that it makes: how many were answered, and
  -- whether it ended by calling `on_timeout`.
  unfoldable pub keepalive_task : List (ℕ × Bool) → Stream → Option (ℕ × Bool)
  keepalive_task [] s = some (0, false)
  keepalive_task ((token, in_time) ∷ pings) s = elim (send_ping token in_time s) [
    | none ↦ none
    | some (err e, events, t) ↦ some (0, true)
    | some (ok _, events, t) ↦ elim (keepalive_task pings t) [
      | none ↦ none
      | some (n, evicted) ↦ some (suc n, evicted)
    ]
  ]
