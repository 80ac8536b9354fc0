-- ===== src/Server/Relay.antt =====
-- shuttle/src/server/session_loop.rs: `relay_framed_tcp`, one turn of its `select!` at a time. The
-- schedule says which branch is ready and what the target and the timer answer; frames are read
-- from the session's stream and written to it. A branch that is ready while `read_frame` has taken
-- some bytes drops that call, and with it these bytes: `taken` counts them.
pub mod Invariant
mod Tests
use noisy_shuttle.Base.{
  ℕ, ◌+◌, ◌==◌, Bool, true, false, not, ◌&&◌, ◌||◌, List, [], ◌∷◌, ◌++◌, Option, none, some, length,
  if◌then◌else◌,
}
use noisy_shuttle.Results.{Result, ok, err}
use noisy_shuttle.Io.{IoError, Duplex}
use noisy_shuttle.Client.Pool.{wrap64}
use noisy_shuttle.Session.Frame.{
  Frame, FrameError, data_frame, end_request, reset, ping, pong, client_hello, open_request, close,
}
use noisy_shuttle.Session.Stream.{read_frame, write_frame}
use noisy_shuttle.Server.Address.{AddressError}

abbrev pub end_request_ok : ℕ
end_request_ok = 0x00

pub data RelayError : Type 0 where
  unsupported_command : ℕ → RelayError
  bad_address : AddressError → RelayError
  connect_failed : RelayError
  session_failed : FrameError → RelayError
  target_write_failed : RelayError
  target_read_failed : IoError → RelayError
  client_reset : ℕ → RelayError
  unexpected_relay_frame : Frame → RelayError
  drain_timed_out : RelayError

-- `to_target` is what was written to the target, `target_shut` whether its write side was shut.
pub record Relay (N : Type 0) : Type 0 where
  pub stream : N
  pub tx : ℕ
  pub rx : ℕ
  pub client_ended : Bool
  pub target_ended : Bool
  pub draining : Bool
  pub to_target : List ℕ
  pub target_shut : Bool

pub data RelayEvent : Type 0 where
  -- A frame can be read; the target takes what is written to it, or not.
  client_ready : (accepts : Bool) → RelayEvent
  target_ready : (taken : ℕ) → Result IoError (List ℕ) → RelayEvent
  shutdown_changed : (taken : ℕ) → (shutdown : Bool) → RelayEvent
  drain_elapsed : RelayEvent

pub data Status (N : Type 0) : Type 0 where
  running finished : Relay N → Status N
  failed : RelayError → Relay N → Status N
  panicked : Status N

-- The test at the end of the loop's body.
abbrev pub check_end : {N : Type 0} → Status N → Status N
check_end (running r) = if r.client_ended && r.target_ended then finished r else running r
check_end (finished r) = finished r
check_end (failed e r) = failed e r
check_end panicked = panicked

-- The next turn of the loop, if there is one.
abbrev pub go_on : {N : Type 0} → Status N → (Relay N → Status N) → Status N
go_on (running r) k = k r
go_on (finished r) k = finished r
go_on (failed e r) k = failed e r
go_on panicked k = panicked

module _ (d : Duplex) where
  open d use {Stream, read_exact}

  -- `write_frame(…).await?` on the session, and what follows it.
  put : Frame → Relay Stream → Status Stream
  put f r = elim (write_frame d f r.stream) [
    | none ↦ panicked
    | some (ok _, s) ↦ running (record r { stream = s })
    | some (err e, s) ↦ failed (session_failed e) (record r { stream = s })
  ]

  -- The bytes that a dropped `read_frame` had taken are gone.
  abandon : ℕ → Relay Stream → Relay Stream
  abandon taken r =
      if r.client_ended || taken == 0
      then r
      else record r { stream = (read_exact taken r.stream).1 }

  unfoldable pub on_client_frame : Bool → Result FrameError Frame → Relay Stream → Status Stream
  unfolding put
  on_client_frame accepts (err e) r = failed (session_failed e) r
  on_client_frame accepts (ok (data_frame bytes)) r =
      let r' = record r { tx = wrap64 (r.tx + length bytes) } in
      if accepts
      then running (record r' { to_target = r.to_target ++ bytes })
      else failed target_write_failed r'
  on_client_frame accepts (ok (end_request reason)) r =
      running (record r { client_ended = true; target_shut = true })
  on_client_frame accepts (ok (reset reason)) r = failed (client_reset reason) r
  on_client_frame accepts (ok (ping token)) r = put (pong token) r
  on_client_frame accepts (ok f) r = failed (unexpected_relay_frame f) r

  unfoldable pub on_target_read : Result IoError (List ℕ) → Relay Stream → Status Stream
  unfolding put
  on_target_read (err e) r = failed (target_read_failed e) r
  on_target_read (ok []) r = put (end_request end_request_ok) (record r { target_ended = true })
  on_target_read (ok (b ∷ bytes)) r =
      put (data_frame (b ∷ bytes)) (record r { rx = wrap64 (r.rx + length (b ∷ bytes)) })

  -- One arm of the `select!`; a branch that is disabled is not taken.
  unfoldable pub relay_arm : RelayEvent → Relay Stream → Status Stream
  unfolding abandon
  relay_arm (client_ready accepts) r =
      if r.client_ended
      then running r
      else let (result, s) = read_frame d r.stream in
        on_client_frame accepts result (record r { stream = s })
  relay_arm (target_ready taken result) r =
      if r.target_ended then running r else on_target_read result (abandon taken r)
  relay_arm (shutdown_changed taken shutdown) r =
      if r.draining then running r else running (record (abandon taken r) { draining = shutdown })
  relay_arm drain_elapsed r = if r.draining then failed drain_timed_out r else running r

  unfoldable pub relay_step : RelayEvent → Relay Stream → Status Stream
  relay_step e r = check_end (relay_arm e r)

  unfoldable pub relay_loop : List RelayEvent → Relay Stream → Status Stream
  relay_loop [] r = running r
  relay_loop (e ∷ es) r = go_on (relay_step e r) (relay_loop es)

  unfoldable pub start_relay : (shutdown : Bool) → Stream → Relay Stream
  start_relay shutdown s = record {
    stream = s;
    tx = 0;
    rx = 0;
    client_ended = false;
    target_ended = false;
    draining = shutdown;
    to_target = [];
    target_shut = false;
  }

  unfoldable pub relay_framed_tcp : (shutdown : Bool) → List RelayEvent → Stream → Status Stream
  unfolding relay_loop start_relay
  relay_framed_tcp shutdown events s = relay_loop events (start_relay shutdown s)
