-- ===== src/Session/Keepalive/Exchange.antt =====
-- shuttle/src/session/keepalive.rs: a ping and its answer.
use noisy_shuttle.Base.{
  ℕ, ◌≡◌, refl, ap, ◌∙◌, Bool, true, false, List, [], ◌∷◌, ◌++◌, Option, none, some, arith, IsU32,
  u32_to_be,
}
use noisy_shuttle.Results.{Result, ok, err, pair_of_fst}
use noisy_shuttle.Io.{Duplex, DuplexLaws}
use noisy_shuttle.Session.Frame.{Frame, FrameError, ping, pong, encode, payload}
use noisy_shuttle.Session.Lifecycle.Reason.{SessionEvent, ping_sent, ping_acked}
use noisy_shuttle.Session.Stream.{read_frame, write_frame}
use noisy_shuttle.Session.Stream.RoundTrip.{read_frame-encode, write_frame-ok}
use noisy_shuttle.Session.Keepalive.{
  KeepaliveError, on_response, await_response, after_write, send_ping,
}

-- Only a pong with the token is an acknowledgement.
on_response-ok :
    (token : ℕ) (r : Result FrameError Frame) (events : List SessionEvent)
    → on_response token r ≡ (ok tt, events)
    → (r ≡ ok (pong token)) × (events ≡ ping_acked ∷ [])
unfolding on_response
on_response-ok token r events e = ground arith

module _ (d : Duplex) where
  open d use {Stream}

  await_response-ok :
      (token : ℕ) (in_time : Bool) (s t : Stream) (events : List SessionEvent)
      → await_response d token in_time s ≡ (ok tt, events, t)
      → (read_frame d s ≡ (ok (pong token), t)) × (events ≡ ping_sent ∷ ping_acked ∷ [])
  unfolding await_response
  await_response-ok token true s t events e =
      let (r, s') = read_frame d s in
      let (same, logged) = on_response-ok token r (on_response token r).1 (ground arith) in
      ground (arith, pair_of_fst (read_frame d s) same)
  await_response-ok token false s t events e = absurd (ground arith)

  after_write-ok :
      (token : ℕ) (in_time : Bool) (m : Option (Result FrameError (Unit {0}) × Stream)) (t : Stream)
      (events : List SessionEvent)
      → after_write d token in_time m ≡ some (ok tt, events, t)
      → (sent : Stream) × (m ≡ some (ok tt, sent))
        × (read_frame d sent ≡ (ok (pong token), t))
        × (events ≡ ping_sent ∷ ping_acked ∷ [])
  unfolding after_write
  after_write-ok token in_time none t events e = absurd (ground arith)
  after_write-ok token in_time (some (err x, s)) t events e = absurd (ground arith)
  after_write-ok token in_time (some (ok u, s)) t events e =
      let (answered, logged) = await_response-ok token in_time s t events (ground arith) in
      (s, refl, answered, logged)

  -- A ping that succeeds has sent one ping frame, has read a pong of the same token as the next
  -- frame, and has logged both.
  pub send_ping-ok :
      (token : ℕ) (in_time : Bool) (s t : Stream) (events : List SessionEvent)
      → send_ping d token in_time s ≡ some (ok tt, events, t)
      → (sent : Stream) × (write_frame d (ping token) s ≡ some (ok tt, sent))
        × (read_frame d sent ≡ (ok (pong token), t))
        × (events ≡ ping_sent ∷ ping_acked ∷ [])
  unfolding send_ping
  send_ping-ok token in_time s t events e =
      after_write-ok token in_time (write_frame d (ping token) s) t events e

module _ (d : Duplex) (laws : DuplexLaws d) where
  open d use {Stream, write_all}
  open laws use {incoming, outgoing, write_outgoing, write_incoming}

  -- A ping that is written, and whose answer is in the stream and comes in time, succeeds: the
  -- ping is sent, the pong is taken off, and both are logged.
  pub send_ping_succeeds :
      (token : ℕ) (s : Stream) (rest : List ℕ)
      → IsU32 token
      → incoming s ≡ 0x07 ∷ 0 ∷ 4 ∷ (u32_to_be token ++ rest)
      → (write_all (0x06 ∷ 0 ∷ 4 ∷ u32_to_be token) s).0 ≡ ok tt
      → (t : Stream) × (send_ping d token true s ≡ some (ok tt, ping_sent ∷ ping_acked ∷ [], t))
        × (incoming t ≡ rest)
        × (outgoing t ≡ outgoing s ++ (0x06 ∷ 0 ∷ 4 ∷ u32_to_be token))
  unfolding send_ping await_response on_response
  send_ping_succeeds token s rest h i w =
      let pinged : List ℕ = 0x06 ∷ 0 ∷ 4 ∷ u32_to_be token in
      let ponged : List ℕ = 0x07 ∷ 0 ∷ 4 ∷ u32_to_be token in
      let e : encode (ping token) [] ≡ some pinged = unfold encode payload in refl in
      let e' : encode (pong token) [] ≡ some ponged = unfold encode payload in refl in
      let s1 = (write_all pinged s).1 in
      let sent = write_frame-ok d laws s (ping token) pinged e w in
      let got =
        read_frame-encode d laws s1 (pong token) ponged rest h e' (write_incoming pinged s ∙ i) in
      let acked : on_response token (ok (pong token)) ≡ (ok tt, ping_acked ∷ []) = ground arith in
      (
        (read_frame d s1).1,
        ap (after_write d token true) sent
            ∙ ap
                (λ (p : Result FrameError Frame × Stream).
                  some ((on_response token p.0).0, ping_sent ∷ (on_response token p.0).1, p.1))
                (pair_of_fst (read_frame d s1) got.0)
            ∙ ap
                (λ (p : Result KeepaliveError (Unit {0}) × List SessionEvent).
                  some (p.0, ping_sent ∷ p.1, (read_frame d s1).1))
                acked,
        got.1,
        got.2 ∙ write_outgoing pinged s w,
      )
