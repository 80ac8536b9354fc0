-- ===== src/Tunnel/Handshake/Replay.antt =====
-- tunnel/src/server.rs: the replay filter turns a ClientHello away that was let through before.
use noisy_shuttle.Base.{
  ℕ, ◌≡◌, refl, sym, ap, ◌∙◌, true, List, [], ◌++◌, Option, none, some, arith, take, drop,
  Bool-cases, inl, inr,
}
use noisy_shuttle.Results.{ok, err}
use noisy_shuttle.Io.{Duplex}
use noisy_shuttle.Tunnel.Handshake.{
  Tls, Guard, replay_detected, read_tls_message, check_replay, check_ping, authenticate,
  on_client_hello, accept_client,
}

-- The crate lru: a key is found right after it was put.
pub record GuardLaws (g : Guard) : Type 0 where
  pub get_put :
      (key : List ℕ) (value : ℕ) (f : g.Filter) → (g.get key (g.put key value f)).0 ≡ some value

module _ (d : Duplex) (tls : Tls) (guard : Guard) where
  open d use {Stream}
  open guard use {Responder, Filter, get, put, read_ping, verify}

  check_replay-eq-ok :
      (t : Stream) (buf nonce : List ℕ) (peer : ℕ) (responder : Responder) (q : Option ℕ × Filter)
      (x : Responder × List ℕ × Stream) (f' : Filter)
      → check_replay d tls guard buf t nonce peer responder q ≡ (ok x, f')
      → (g : Filter) × (f' ≡ put nonce peer g)
  unfolding check_replay
  check_replay-eq-ok t buf nonce peer responder (some first_from, f) x f' e = absurd cc
  check_replay-eq-ok t buf nonce peer responder (none, f) x f' e = (f, sym (ap (λ r. r.1) e))

  check_ping-eq-ok :
      (t : Stream) (buf nonce : List ℕ) (peer : ℕ) (p : Option Responder) (f f' : Filter)
      (x : Responder × List ℕ × Stream)
      → check_ping d tls guard buf t nonce peer p f ≡ (ok x, f')
      → (responder : Responder) × (p ≡ some responder) × (g : Filter) × (f' ≡ put nonce peer g)
  unfolding check_ping
  check_ping-eq-ok t buf nonce peer none f f' x e = absurd cc
  check_ping-eq-ok t buf nonce peer (some responder) f f' x e =
      let (g, same) = check_replay-eq-ok t buf nonce peer responder (get nonce f) x f' e in
      (responder, refl, g, same)

  authenticate-eq-ok :
      (t : Stream) (buf random session_id : List ℕ) (peer : ℕ) (f f' : Filter)
      (x : Responder × List ℕ × Stream)
      → authenticate d tls guard buf t peer f (some (random, session_id)) ≡ (ok x, f')
      → (verify random (drop 16 session_id) ≡ true)
        × (responder : Responder) × (read_ping (random ++ take 16 session_id) ≡ some responder)
        × (g : Filter) × (f' ≡ put random peer g)
  unfolding authenticate
  authenticate-eq-ok t buf random session_id peer f f' x e =
      let pinged =
        check_ping d tls guard buf t random peer (read_ping (random ++ take 16 session_id)) f in
      elim (Bool-cases (verify random (drop 16 session_id))) [
        | inl v ↦
            let run : pinged ≡ (ok x, f') = ground (arith, e, v) in
            let (responder, p, g, same) =
              check_ping-eq-ok t buf random peer (read_ping (random ++ take 16 session_id)) f f' x
                run in
            (v, responder, p, g, same)
        | inr v ↦ absurd (ground (arith, e, v))
      ]

  check_replay-some :
      (t : Stream) (buf nonce : List ℕ) (peer first_from : ℕ) (responder : Responder) (o : Option ℕ)
      (f : Filter)
      → o ≡ some first_from
      → (check_replay d tls guard buf t nonce peer responder (o, f)).0
        ≡ err (replay_detected buf t nonce first_from)
  unfolding check_replay
  check_replay-some t buf nonce peer first_from responder o f e = rw (e) refl

  authenticate-replay :
      (gl : GuardLaws guard) (peer peer' : ℕ) (g : Filter) (t : Stream)
      (buf random session_id : List ℕ) (responder : Responder)
      → verify random (drop 16 session_id) ≡ true
      → read_ping (random ++ take 16 session_id) ≡ some responder
      → (authenticate d tls guard buf t peer' (put random peer g) (some (random, session_id))).0
        ≡ err (replay_detected buf t random peer)
  unfolding authenticate check_ping
  authenticate-replay gl peer peer' g t buf random session_id responder v p =
      let q = get random (put random peer g) in
      rw (v, p)
        (check_replay-some t buf random peer' peer responder q.0 q.1 (gl.get_put random peer g))

  -- After a client was let through, a connection from which the same ClientHello is read is turned away
  -- as a replay, with the address of the first, where nothing else is accepted between and the time
  -- signature is still good.
  pub accept_client-replay :
      (gl : GuardLaws guard) (peer peer' : ℕ) (f f' : Filter) (s s' t t' : Stream)
      (buf random session_id : List ℕ) (x : Responder × List ℕ × Stream)
      → read_tls_message d tls [] s ≡ (ok (ok tt), buf, t)
      → read_tls_message d tls [] s' ≡ (ok (ok tt), buf, t')
      → tls.client_hello buf ≡ some (random, session_id)
      → accept_client d tls guard peer f s ≡ (ok x, f')
      → (accept_client d tls guard peer' f' s').0 ≡ err (replay_detected buf t' random peer)
  unfolding accept_client on_client_hello
  accept_client-replay gl peer peer' f f' s s' t t' buf random session_id x r r' h e =
      let first : authenticate d tls guard buf t peer f (some (random, session_id)) ≡ (ok x, f') =
        sym (
          ap (λ q. on_client_hello d tls guard peer f q) r
          ∙ ap (authenticate d tls guard buf t peer f) h)
        ∙ e in
      let (v, responder, p, g, same) =
        authenticate-eq-ok t buf random session_id peer f f' x first in
      ap (λ q. (on_client_hello d tls guard peer' f' q).0) r'
      ∙ ap (λ q. (authenticate d tls guard buf t' peer' f' q).0) h
      ∙ ap (λ q. (authenticate d tls guard buf t' peer' q (some (random, session_id))).0) same
      ∙ authenticate-replay gl peer peer' g t' buf random session_id responder v p
