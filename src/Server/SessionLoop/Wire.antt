-- ===== src/Server/SessionLoop/Wire.antt =====
-- shuttle/src/server/session_loop.rs: what the client sees of the session loop on the wire.
use noisy_shuttle.Base.{
  ℕ, ◌≤◌, ◌≡◌, refl, ap, ◌∙◌, false, List, [], ◌∷◌, ◌++◌, none, some, arith, IsU16, IsU32,
  u32_to_be, le→leb,
}
use noisy_shuttle.Results.{ok, pair_of_fst}
use noisy_shuttle.Actions.{and_then, done}
use noisy_shuttle.Io.{Duplex, DuplexLaws}
use noisy_shuttle.Opt.{ReuseConfig}
use noisy_shuttle.Session.Lifecycle.{idle, closing, closed}
use noisy_shuttle.Session.Lifecycle.Reason.{CloseReason}
use noisy_shuttle.Session.Frame.{
  Frame, client_hello, ping, pong, close, encode, payload, protocol_version,
}
use noisy_shuttle.Session.Stream.{read_frame}
use noisy_shuttle.Session.Stream.RoundTrip.{read_frame-encode, write_frame-ok}
use noisy_shuttle.Session.Negotiate.{Capabilities}
use noisy_shuttle.Session.Negotiate.Agreement.{hello, encode-hello}
use noisy_shuttle.Server.SessionLoop.{
  Context, continue, stop, RequestEnv, expired_limit, handle_frame, send_frame, close_session,
  close_reason_code, negotiate_frame, and_stop,
}
use noisy_shuttle.Server.SessionLoop.Serve.{
  frame_ready, Turn, read_first, select, on_frame, serve_turn, negotiate, new_context,
}

module _ (d : Duplex) (laws : DuplexLaws d) where
  open d use {Stream, write_all}
  open laws use {incoming, outgoing, write_outgoing, write_incoming}

  -- The session loop accepts a hello of this protocol version, becomes idle, and sends nothing in
  -- answer.
  pub hello_unanswered :
      (s : Stream) (caps : Capabilities) (rest : List ℕ) (started now : ℕ)
      → IsU16 caps.bits
      → incoming s ≡ hello caps ++ rest
      → (c : Context d) × (negotiate d now read_first (new_context d s started) ≡ some (ok tt, c))
        × (c.state ≡ idle)
        × (outgoing c.stream ≡ outgoing s)
        × (incoming c.stream ≡ rest)
  unfolding negotiate negotiate_frame new_context
  hello_unanswered s caps rest started now h i =
      let f = client_hello protocol_version caps.bits in
      let got =
        read_frame-encode d laws s f (hello caps) rest (unfold payload in (omega arith, h))
          (encode-hello caps) i in
      let s1 = (read_frame d s).1 in
      (
        record (new_context d s started) { stream = s1; state = idle; last_activity = now },
        rw (pair_of_fst (read_frame d s) got.0) refl,
        refl,
        got.2,
        got.1,
      )

  send_frame-ok :
      (f : Frame) (bytes : List ℕ) (c : Context d)
      → encode f [] ≡ some bytes
      → (write_all bytes c.stream).0 ≡ ok tt
      → send_frame d f c ≡ some (ok tt, record c { stream = (write_all bytes c.stream).1 })
  unfolding send_frame
  send_frame-ok f bytes c e w = rw (send_frame, write_frame-ok d laws c.stream f bytes e w) refl

  abbrev ping_bytes : ℕ → List ℕ
  ping_bytes token = 0x06 ∷ 0 ∷ 4 ∷ u32_to_be token

  abbrev pong_bytes : ℕ → List ℕ
  pong_bytes token = 0x07 ∷ 0 ∷ 4 ∷ u32_to_be token

  encode-ping : (token : ℕ) → encode (ping token) [] ≡ some (ping_bytes token)
  unfolding encode payload
  encode-ping token = refl

  encode-pong : (token : ℕ) → encode (pong token) [] ≡ some (pong_bytes token)
  unfolding encode payload
  encode-pong token = refl

  -- A session that is not at its limits nor shutting down, and whose write succeeds, answers a
  -- ping with a pong of the same token, sends nothing else, stays in its state, and takes the time
  -- of the ping as its last activity.
  pub ping_answered :
      (config : ReuseConfig) (c : Context d) (env : RequestEnv) (token now now' : ℕ) (rest : List ℕ)
      → IsU32 token
      → expired_limit config c now ≡ none
      → incoming c.stream ≡ ping_bytes token ++ rest
      → (write_all (pong_bytes token) (read_frame d c.stream).1).0 ≡ ok tt
      → (s : Stream) × (serve_turn d config
            (record { shutdown = false; close_cut = none; now = now; event = frame_ready now' env })
            c
          ≡ some (ok continue, record c { stream = s; last_activity = now' }))
        × (incoming s ≡ rest)
        × (outgoing s ≡ outgoing c.stream ++ pong_bytes token)
  unfolding serve_turn select on_frame handle_frame
  ping_answered config c env token now now' rest h live i w =
      let got =
        read_frame-encode d laws c.stream (ping token) (ping_bytes token) rest h (encode-ping token)
          i in
      let s1 = (read_frame d c.stream).1 in
      let woken = record c { stream = s1; last_activity = now' } in
      let sent = send_frame-ok (pong token) (pong_bytes token) woken (encode-pong token) w in
      let answer : on_frame d config now' env (ok (ping token)) (record c { stream = s1 })
          ≡ some (ok continue, record woken { stream = (write_all (pong_bytes token) s1).1 }) =
        ap (λ m. and_then m (λ _. done (ok continue))) sent in
      (
        (write_all (pong_bytes token) s1).1,
        rw (live, pair_of_fst (read_frame d c.stream) got.0) answer,
        write_incoming (pong_bytes token) s1 ∙ got.1,
        write_outgoing (pong_bytes token) s1 w ∙ ap (λ l. l ++ pong_bytes token) got.2,
      )

  -- A session that has served `max_requests` requests and is not shutting down is closed at the
  -- next turn of its loop, where the write succeeds: the client is sent a close frame with the
  -- reason 5 and nothing else.
  pub limit_closes :
      (config : ReuseConfig) (c : Context d) (t : Turn Stream)
      → t.shutdown ≡ false
      → config.max_requests ≤ c.request_count
      → (write_all (0x08 ∷ 0 ∷ 1 ∷ 5 ∷ []) c.stream).0 ≡ ok tt
      → (s : Stream) × (serve_turn d config t c
          ≡ some (ok stop, record c { stream = s; state = closed }))
        × (outgoing s ≡ outgoing c.stream ++ (0x08 ∷ 0 ∷ 1 ∷ 5 ∷ []))
  unfolding serve_turn expired_limit close_session and_stop close_reason_code
  limit_closes config c t up full w =
      let enc : encode (close 5) [] ≡ some (0x08 ∷ 0 ∷ 1 ∷ 5 ∷ []) =
        unfold encode payload in refl in
      let sent = send_frame-ok (close 5) _ (record c { state = closing }) enc w in
      let closes : and_stop d (close_session d CloseReason.max_requests_reached c)
          ≡ some (
            ok stop,
            record c { stream = (write_all (0x08 ∷ 0 ∷ 1 ∷ 5 ∷ []) c.stream).1; state = closed },
          ) =
        ap
          (λ m.
            and_then (and_then m (λ _ c'. some (ok tt, record c' { state = closed })))
              (λ _. done (ok stop)))
          sent in
      (
        (write_all (0x08 ∷ 0 ∷ 1 ∷ 5 ∷ []) c.stream).1,
        rw (up, le→leb config.max_requests c.request_count full) closes,
        write_outgoing _ c.stream w,
      )
