-- ===== src/Tunnel/Handshake/Answers.antt =====
-- tunnel/src/server.rs: what a client has been sent when `accept` ends.
use mathlib.Core.List.{append_assoc, append-nil}
use noisy_shuttle.Base.{
  ℕ, ◌<◌, ◌≡◌, ◌⊎◌, refl, sym, ap, ◌∙◌, Bool, true, false, List, [], ◌++◌, Option, none, some,
  length, length-append, arith, inl, inr,
}
use noisy_shuttle.Results.{Result, ok, err}
use noisy_shuttle.Io.{IoError, Duplex, DuplexLaws}
use noisy_shuttle.Tunnel.Handshake.{
  Tls, Guard, RecordFault, Accepted, tunnel, io_error, server_hello_invalid, Copied, copied,
  unfinished, copy_until_tls12_handshake_finished, read_tls_message,
}
use noisy_shuttle.Tunnel.Handshake.Copy.{Flight, Copies, copy_until_tls12_handshake_finished-Copies}
use noisy_shuttle.Tunnel.Handshake.Records.{
  Takes, read_tls_message-Takes, IsMessage, Holds, read_tls_message-Holds,
}
use noisy_shuttle.Tunnel.Handshake.Accept.{
  pong, send_pong, after_backward, after_forward, after_hello, check_server_hello, on_server_hello,
  after_write, after_connect,
}

module _ (d : Duplex) (tls : Tls) (guard : Guard) (fuel : ℕ) (padding : List ℕ)
    (laws : DuplexLaws d) where
  open d use {Stream, write_all}
  open guard use {Responder}
  open laws use {incoming, outgoing, write_outgoing, write_incoming}

  -- What was passed on behind the ServerHello, and what was taken from the client: with TLS 1.3
  -- nothing, with TLS 1.2 the rest of the handshake in both directions.
  abbrev pub PassedOn : (tls13 : Bool) → (flight : List ℕ) → (inbound s : Stream) → Type 0
  PassedOn true flight inbound s = (flight ≡ []) × (incoming s ≡ incoming inbound)
  PassedOn false flight inbound s =
      Flight false flight
      × (from_client : List ℕ) × Flight false from_client
      × (incoming inbound ≡ from_client ++ incoming s)

  -- What is said of how `accept` ends once the ClientHello `hello` is to be forwarded. Of a tunnel: the
  -- client was sent the ServerHello of the camouflage server, with TLS 1.2 also the rest of its side
  -- of the handshake, and then the pong. Of a ServerHello that is refused: the buffer is what the
  -- camouflage server answered, or, when the header was refused, it is still the ClientHello, and
  -- the five bytes of the header are lost.
  abbrev pub Answers :
      List ℕ → (inbound outbound : Stream) → Option (Accepted Responder Stream) → Type 0
  Answers hello inbound outbound (some (tunnel s responder)) =
      (reply : List ℕ) × (flight : List ℕ) × (rest : List ℕ) × (tls13 : Bool) × IsMessage d laws
        reply
      × (tls.server_hello reply ≡ some tls13)
      × (incoming outbound ≡ reply ++ (flight ++ rest))
      × (outgoing s
          ≡ outgoing inbound ++ (reply ++ (flight ++ pong d tls guard fuel padding responder)))
      × PassedOn tls13 flight inbound s
  Answers hello inbound outbound (some (server_hello_invalid buf i o)) =
      (i ≡ inbound)
      × (outgoing o ≡ outgoing outbound ++ hello)
      × ((incoming outbound ≡ buf ++ incoming o)
          ⊎ ((buf ≡ hello)
              × (header : List ℕ) × (length header ≡ 5)
              × (incoming outbound ≡ header ++ incoming o)))
  Answers hello inbound outbound (some (io_error e)) = Unit {0}
  Answers hello inbound outbound _ = ⊥

  -- The ServerHello was forwarded: `o` is left of the camouflage server's stream, `i` of the
  -- client's.
  record Forwarded (tls13 : Bool) (reply : List ℕ) (inbound outbound i o : Stream) : Type 0 where
    message : IsMessage d laws reply
    version : tls.server_hello reply ≡ some tls13
    from_server : incoming outbound ≡ reply ++ incoming o
    to_client : outgoing i ≡ outgoing inbound ++ reply
    left : incoming i ≡ incoming inbound

  PassedOn-same :
      (tls13 : Bool) (flight : List ℕ) (inbound i s : Stream)
      → incoming i ≡ incoming s
      → PassedOn tls13 flight inbound i
      → PassedOn tls13 flight inbound s
  PassedOn-same true flight inbound i s e (none_passed, left) = (none_passed, sym e ∙ left)
  PassedOn-same false flight inbound i s e (flight_is, from_client, client_is, taken) =
      (flight_is, from_client, client_is, taken ∙ ap (λ l. from_client ++ l) e)

  forwards :
      (reply : List ℕ) (tls13 : Bool) (inbound outbound o i : Stream)
      → IsMessage d laws reply
      → tls.server_hello reply ≡ some tls13
      → incoming outbound ≡ reply ++ incoming o
      → write_all reply inbound ≡ (ok tt, i)
      → Forwarded tls13 reply inbound outbound i o
  forwards reply tls13 inbound outbound o i m v a q = record {
    message = m;
    version = v;
    from_server = a;
    to_client = sym (ap (λ x. outgoing x.1) q) ∙ write_outgoing reply inbound (ap (λ x. x.0) q);
    left = sym (ap (λ x. incoming x.1) q) ∙ write_incoming reply inbound;
  }

  send_pong-Answers :
      (hello reply flight rest : List ℕ) (tls13 : Bool) (responder : Responder)
      (inbound outbound i : Stream) (p : Result IoError (Unit {0}) × Stream)
      → IsMessage d laws reply
      → tls.server_hello reply ≡ some tls13
      → incoming outbound ≡ reply ++ (flight ++ rest)
      → outgoing i ≡ outgoing inbound ++ (reply ++ flight)
      → PassedOn tls13 flight inbound i
      → write_all (pong d tls guard fuel padding responder) i ≡ p
      → Answers hello inbound outbound (some (send_pong d tls guard fuel padding responder p))
  unfolding send_pong
  send_pong-Answers hello reply flight rest tls13 responder inbound outbound i (ok w, s) m v a o
        passed e =
      let left : incoming i ≡ incoming s =
        sym (write_incoming (pong d tls guard fuel padding responder) i)
        ∙ ap (λ x. incoming x.1) e in
      (
        reply,
        flight,
        rest,
        tls13,
        m,
        v,
        a,
        sym (ap (λ x. outgoing x.1) e)
            ∙ write_outgoing (pong d tls guard fuel padding responder) i (ap (λ x. x.0) e)
            ∙ ap (λ l. l ++ pong d tls guard fuel padding responder) o
            ∙ append_assoc (outgoing inbound) (reply ++ flight)
                (pong d tls guard fuel padding responder)
            ∙ ap (λ l. outgoing inbound ++ l)
                (append_assoc reply flight (pong d tls guard fuel padding responder)),
        PassedOn-same tls13 flight inbound i s left passed,
      )
  send_pong-Answers hello reply flight rest tls13 responder inbound outbound i (err x, s) m v a o
        passed e =
      tt

  after_backward-Answers :
      (hello reply from_client : List ℕ) (responder : Responder) (inbound outbound i i₁ o : Stream)
      (a : Result IoError (Unit {0})) (c : Copied Stream)
      → Forwarded false reply inbound outbound i o
      → Flight false from_client
      → incoming i ≡ from_client ++ incoming i₁
      → outgoing i₁ ≡ outgoing i
      → (o₁ : Stream) → incoming o₁ ≡ incoming o
      → Copies d laws false o₁ i₁ c
      → Answers hello inbound outbound (after_backward d tls guard fuel padding responder a c)
  unfolding after_backward
  after_backward-Answers hello reply from_client responder inbound outbound i i₁ o a unfinished w
        client j k o₁ same c =
      absurd c
  after_backward-Answers hello reply from_client responder inbound outbound i i₁ o (err e)
        (copied b o' i') w client j k o₁ same c =
      tt
  after_backward-Answers hello reply from_client responder inbound outbound i i₁ o (ok u)
        (copied (err e) o' i') w client j k o₁ same c =
      tt
  after_backward-Answers hello reply from_client responder inbound outbound i i₁ o (ok u)
        (copied (ok v) o' i') w client j k o₁ same (bytes, flight, x, y, (z, left)) =
      send_pong-Answers hello reply bytes (incoming o') false responder inbound outbound i'
        (write_all (pong d tls guard fuel padding responder) i') w.message w.version
        (w.from_server ∙ ap (λ l. reply ++ l) (sym same ∙ x))
        (y ∙ ap (λ l. l ++ bytes) (k ∙ w.to_client) ∙ append_assoc (outgoing inbound) reply bytes)
        (flight, from_client, client, sym w.left ∙ j ∙ ap (λ l. from_client ++ l) (sym left)) refl

  error-Answers :
      (hello : List ℕ) (responder : Responder) (inbound outbound o i : Stream) (e : IoError)
      (c : Copied Stream)
      → Copies d laws false o i c
      → Answers hello inbound outbound (after_backward d tls guard fuel padding responder (err e) c)
  unfolding after_backward
  error-Answers hello responder inbound outbound o i e (copied b o' i') c = tt
  error-Answers hello responder inbound outbound o i e unfinished c = absurd c

  -- The camouflage server's side has fewer bytes than there is fuel.
  Copies-back :
      (reply : List ℕ) (outbound o o' i' : Stream)
      → incoming outbound ≡ reply ++ incoming o
      → incoming o' ≡ incoming o
      → length (incoming outbound) < fuel
      → Copies d laws false o' i' (copy_until_tls12_handshake_finished d fuel false o' i')
  Copies-back reply outbound o o' i' a same f =
      copy_until_tls12_handshake_finished-Copies d laws fuel false o' i'
        (omega (arith, f, ap length a, ap length same, length-append reply (incoming o)))

  -- A copy in the other direction.
  after_forward-Answers :
      (hello reply : List ℕ) (responder : Responder) (inbound outbound i o : Stream)
      (c : Copied Stream)
      → Forwarded false reply inbound outbound i o
      → length (incoming outbound) < fuel
      → Copies d laws false i o c
      → Answers hello inbound outbound (after_forward d tls guard fuel padding responder c)
  unfolding after_forward
  after_forward-Answers hello reply responder inbound outbound i o unfinished w f c = absurd c
  after_forward-Answers hello reply responder inbound outbound i o (copied (ok u) i' o') w f
        (bytes, flight, x, y, (kept, same)) =
      after_backward-Answers hello reply bytes responder inbound outbound i i' o (ok u)
        (copy_until_tls12_handshake_finished d fuel false o' i') w flight x kept o' same
        (Copies-back reply outbound o o' i' w.from_server same f)
  after_forward-Answers hello reply responder inbound outbound i o (copied (err e) i' o') w f same =
      error-Answers hello responder inbound outbound o' i' e
        (copy_until_tls12_handshake_finished d fuel false o' i')
        (Copies-back reply outbound o o' i' w.from_server same f)

  after_hello-Answers :
      (hello reply : List ℕ) (responder : Responder) (tls13 : Bool) (inbound outbound o : Stream)
      (p : Result IoError (Unit {0}) × Stream)
      → IsMessage d laws reply
      → tls.server_hello reply ≡ some tls13
      → incoming outbound ≡ reply ++ incoming o
      → length (incoming outbound) < fuel
      → length (incoming inbound) < fuel
      → write_all reply inbound ≡ p
      → Answers hello inbound outbound (after_hello d tls guard fuel padding responder tls13 o p)
  unfolding after_hello
  after_hello-Answers hello reply responder tls13 inbound outbound o (err e, i) m v a f g q = tt
  after_hello-Answers hello reply responder true inbound outbound o (ok u, i) m v a f g q =
      let w = forwards reply true inbound outbound o i m v a q in
      send_pong-Answers hello reply [] (incoming o) true responder inbound outbound i
        (write_all (pong d tls guard fuel padding responder) i) m v a
        (w.to_client ∙ ap (λ l. outgoing inbound ++ l) (sym (append-nil reply))) (refl, w.left) refl
  after_hello-Answers hello reply responder false inbound outbound o (ok u, i) m v a f g q =
      let w = forwards reply false inbound outbound o i m v a q in
      after_forward-Answers hello reply responder inbound outbound i o
        (copy_until_tls12_handshake_finished d fuel false i o) w f
        (copy_until_tls12_handshake_finished-Copies d laws fuel false i o
          (omega (arith, g, ap length w.left)))

  check_server_hello-Answers :
      (hello buf : List ℕ) (responder : Responder) (inbound outbound o : Stream) (h : Option Bool)
      → IsMessage d laws buf
      → tls.server_hello buf ≡ h
      → incoming outbound ≡ buf ++ incoming o
      → outgoing o ≡ outgoing outbound ++ hello
      → length (incoming outbound) < fuel
      → length (incoming inbound) < fuel
      → Answers hello inbound outbound
          (check_server_hello d tls guard fuel padding responder buf inbound o h)
  unfolding check_server_hello
  check_server_hello-Answers hello buf responder inbound outbound o none m v a w f g =
      (refl, w, inl a)
  check_server_hello-Answers hello buf responder inbound outbound o (some tls13) m v a w f g =
      after_hello-Answers hello buf responder tls13 inbound outbound o (write_all buf inbound) m v a
        f g refl

  on_server_hello-Answers :
      (hello : List ℕ) (responder : Responder) (inbound outbound t : Stream)
      (r : Result IoError (Result RecordFault (Unit {0})) × List ℕ × Stream)
      → incoming t ≡ incoming outbound
      → outgoing t ≡ outgoing outbound ++ hello
      → Takes d laws t hello r
      → Holds d laws r
      → length (incoming outbound) < fuel
      → length (incoming inbound) < fuel
      → Answers hello inbound outbound
          (on_server_hello d tls guard fuel padding responder inbound r)
  unfolding on_server_hello
  on_server_hello-Answers hello responder inbound outbound t (err e, buf, o) i w r m f g = tt
  on_server_hello-Answers hello responder inbound outbound t (ok (err fault), buf, o) i w
        (b, u, header, h, r) m f g =
      (refl, u ∙ w, inr (b, header, h, sym i ∙ r))
  on_server_hello-Answers hello responder inbound outbound t (ok (ok v), buf, o) i w (r, u) m f g =
      check_server_hello-Answers hello buf responder inbound outbound o (tls.server_hello buf) m
        refl (sym i ∙ r) (u ∙ w) f g

  after_write-Answers :
      (hello : List ℕ) (responder : Responder) (inbound outbound : Stream)
      (p : Result IoError (Unit {0}) × Stream)
      → write_all hello outbound ≡ p
      → length (incoming outbound) < fuel
      → length (incoming inbound) < fuel
      → Answers hello inbound outbound
          (after_write d tls guard fuel padding responder hello inbound p)
  unfolding after_write
  after_write-Answers hello responder inbound outbound (err e, t) q f g = tt
  after_write-Answers hello responder inbound outbound (ok u, t) q f g =
      on_server_hello-Answers hello responder inbound outbound t (read_tls_message d tls hello t)
        (sym (ap (λ x. incoming x.1) q) ∙ write_incoming hello outbound)
        (sym (ap (λ x. outgoing x.1) q) ∙ write_outgoing hello outbound (ap (λ x. x.0) q))
        (read_tls_message-Takes d laws tls t hello) (read_tls_message-Holds d laws tls t hello) f g

  -- Once a client is let through and the camouflage server is connected, `accept` comes to an end, as
  -- a tunnel, as a refused ServerHello or with an error of a stream. If it is a tunnel, the client
  -- was sent the ServerHello of the camouflage server, byte for byte, then, if that chose TLS 1.2, the
  -- rest of the server's side of the handshake, and then the answer of the Noise handshake, and
  -- nothing else; from the client nothing was taken if TLS 1.3 was chosen, and its side of the
  -- handshake if TLS 1.2 was. If it is a refused ServerHello, the client was sent nothing, the
  -- camouflage server was sent the ClientHello, and the buffer is what it answered, except when the
  -- header was refused: then the buffer is still the ClientHello, and the five bytes of the header are
  -- lost.
  pub after_connect-Answers :
      (hello : List ℕ) (responder : Responder) (inbound outbound : Stream)
      → length (incoming outbound) < fuel
      → length (incoming inbound) < fuel
      → Answers hello inbound outbound
          (after_connect d tls guard fuel padding responder hello inbound (ok outbound))
  unfolding after_connect
  after_connect-Answers hello responder inbound outbound f g =
      after_write-Answers hello responder inbound outbound (write_all hello outbound) refl f g
