-- ===== src/Server/Relay/Invariant.antt =====
-- shuttle/src/server/session_loop.rs: what holds of a relay after any schedule.
use noisy_shuttle.Base.{
  ℕ, ◌≤◌, ◌≡◌, refl, Bool, true, false, List, [], ◌∷◌, arith, length, All, length-append,
  if◌then◌else◌,
}
use noisy_shuttle.Results.{Result, ok, err}
use noisy_shuttle.Io.{IoError, Duplex}
use noisy_shuttle.Client.Pool.{wrap64}
use noisy_shuttle.Session.Frame.{
  Frame, FrameError, data_frame, end_request, reset, ping, pong, client_hello, open_request, close,
  payload, max_frame_payload,
}
use noisy_shuttle.Session.Stream.{read_frame}
use noisy_shuttle.Session.Stream.RoundTrip.{write_frame_fits}
use noisy_shuttle.Server.Relay.{
  Relay, RelayEvent, client_ready, target_ready, shutdown_changed, drain_elapsed, Status, running,
  finished, failed, panicked, relay_arm, relay_step, relay_loop, relay_framed_tcp, on_client_frame,
  on_target_read, start_relay, put, abandon, check_end, go_on,
}

-- The buffer that `outbound_r.read` fills has 16 KiB.
abbrev pub buffer_size : ℕ
buffer_size = 16384

abbrev pub Fits : RelayEvent → Type 0
Fits (target_ready taken (ok bytes)) = length bytes ≤ buffer_size
Fits _ = Unit {0}

-- `tx` counts the bytes that the target was sent, and the target's write side is shut exactly when
-- the client has ended.
pub record RelayInv (N : Type 0) (r : Relay N) : Type 0 where
  pub counted : r.tx ≡ wrap64 (length r.to_target)
  pub half_closed : r.target_shut ≡ r.client_ended

-- A relay is finished only when both sides have ended, and no step panics.
abbrev pub IsSound : {N : Type 0} → Status N → Type 0
IsSound {N} (running r) = RelayInv N r
IsSound {N} (finished r) = RelayInv N r × (r.client_ended ≡ true) × (r.target_ended ≡ true)
IsSound (failed e r) = Unit {0}
IsSound panicked = ⊥

module _ (d : Duplex) where
  open d use {Stream}

  put-IsSound :
      (f : Frame) (r : Relay Stream)
      → length (payload f).1 ≤ max_frame_payload
      → RelayInv Stream r
      → IsSound (put d f r)
  unfolding put
  put-IsSound f r fits v = ground (arith, write_frame_fits d f r.stream fits)

  on_client_frame-IsSound :
      (accepts : Bool) (f : Result FrameError Frame) (r : Relay Stream)
      → RelayInv Stream r
      → IsSound (on_client_frame d accepts f r)
  unfolding on_client_frame
  on_client_frame-IsSound accepts (err e) r v = tt
  on_client_frame-IsSound accepts (ok (data_frame bytes)) r v =
      ground (arith, length-append r.to_target bytes)
  on_client_frame-IsSound accepts (ok (end_request reason)) r v = record {
    counted = v.counted;
    half_closed = refl;
  }
  on_client_frame-IsSound accepts (ok (reset reason)) r v = tt
  on_client_frame-IsSound accepts (ok (ping token)) r v =
      put-IsSound (pong token) r (unfold payload in omega arith) v
  on_client_frame-IsSound accepts (ok (client_hello a b)) r v = tt
  on_client_frame-IsSound accepts (ok (open_request a b c e)) r v = tt
  on_client_frame-IsSound accepts (ok (pong a)) r v = tt
  on_client_frame-IsSound accepts (ok (close a)) r v = tt

  on_target_read-IsSound :
      (result : Result IoError (List ℕ)) (taken : ℕ) (r : Relay Stream)
      → Fits (target_ready taken result)
      → RelayInv Stream r
      → IsSound (on_target_read d result r)
  unfolding on_target_read
  on_target_read-IsSound (err e) taken r h v = tt
  on_target_read-IsSound (ok []) taken r h v =
      put-IsSound (end_request 0x00) _ (unfold payload in omega arith)
        (record { counted = v.counted; half_closed = v.half_closed })
  on_target_read-IsSound (ok (b ∷ bytes)) taken r h v =
      put-IsSound (data_frame (b ∷ bytes)) _ (unfold payload in omega arith)
        (record { counted = v.counted; half_closed = v.half_closed })

  abandon-RelayInv :
      (taken : ℕ) (r : Relay Stream) → RelayInv Stream r → RelayInv Stream (abandon d taken r)
  unfolding abandon
  abandon-RelayInv taken r v = ground arith

  if-IsSound :
      (b : Bool) (x y : Status Stream) → IsSound x → IsSound y → IsSound (if b then x else y)
  if-IsSound true x y h k = h
  if-IsSound false x y h k = k

  relay_arm-IsSound :
      (e : RelayEvent) (r : Relay Stream) → Fits e → RelayInv Stream r → IsSound (relay_arm d e r)
  unfolding relay_arm
  relay_arm-IsSound (client_ready accepts) r h v =
      let r' = record r { stream = (read_frame d r.stream).1 } in
      if-IsSound r.client_ended _ _ v (
        on_client_frame-IsSound accepts (read_frame d r.stream).0 r'
          (record { counted = v.counted; half_closed = v.half_closed }))
  relay_arm-IsSound (target_ready taken result) r h v =
      if-IsSound r.target_ended _ _ v
        (on_target_read-IsSound result taken (abandon d taken r) h (abandon-RelayInv taken r v))
  relay_arm-IsSound (shutdown_changed taken shutdown) r h v =
      ground (arith, abandon-RelayInv taken r v)
  relay_arm-IsSound drain_elapsed r h v = ground arith

  check_end-IsSound : (st : Status Stream) → IsSound st → IsSound (check_end st)
  check_end-IsSound (running r) v = ground arith
  check_end-IsSound (finished r) v = v
  check_end-IsSound (failed e r) v = tt
  check_end-IsSound panicked v = v

  go_on-IsSound :
      (st : Status Stream) (k : Relay Stream → Status Stream)
      → IsSound st
      → ((r : Relay Stream) → RelayInv Stream r → IsSound (k r))
      → IsSound (go_on st k)
  go_on-IsSound (running r) k v h = h r v
  go_on-IsSound (finished r) k v h = v
  go_on-IsSound (failed e r) k v h = tt
  go_on-IsSound panicked k v h = v

  relay_loop-IsSound :
      (es : List RelayEvent) (r : Relay Stream)
      → All Fits es
      → RelayInv Stream r
      → IsSound (relay_loop d es r)
  unfolding relay_loop relay_step
  relay_loop-IsSound [] r h v = v
  relay_loop-IsSound (e ∷ es) r h v =
      go_on-IsSound (relay_step d e r) (relay_loop d es)
        (check_end-IsSound _ (relay_arm-IsSound e r h.0 v))
        (λ r' v'. relay_loop-IsSound es r' h.1 v')

  -- Whatever the schedule, with reads that fit the buffer: the relay does not panic, it finishes
  -- only when both sides have ended, and while it runs and when it finishes `tx` is the number of
  -- bytes sent to the target, as a u64, and the target's write side is shut exactly when the
  -- client has ended.
  pub relay_framed_tcp-IsSound :
      (shutdown : Bool) (es : List RelayEvent) (s : Stream)
      → All Fits es
      → IsSound (relay_framed_tcp d shutdown es s)
  unfolding relay_framed_tcp
  relay_framed_tcp-IsSound shutdown es s h =
      relay_loop-IsSound es (start_relay d shutdown s) h
        (record { counted = unfold start_relay in refl; half_closed = unfold start_relay in refl })
