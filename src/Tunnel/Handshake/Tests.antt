-- ===== src/Tunnel/Handshake/Tests.antt =====
-- Runs and examples of tunnel/src/server.rs.
use noisy_shuttle.Base.{
  ℕ, ◌≡◌, ◌==◌, refl, Bool, true, false, ◌&&◌, leb, ltb, if◌then◌else◌, List, [], ◌∷◌, ◌++◌, Option,
  none, some, arith, length, take, drop, get_or,
}
use noisy_shuttle.Results.{ok, err}
use noisy_shuttle.Io.Pipe.{Pipe, pipe, pipe_laws, from_peer}
use noisy_shuttle.Tunnel.Handshake.{
  Tls, Guard, replay_detected, client_hello_invalid, copy_until_tls12_handshake_finished,
  read_tls_message, read_header, read_body, header_fault, accept_client, on_client_hello,
  authenticate, check_ping, check_replay,
}
use noisy_shuttle.Tunnel.Handshake.Fallback.{LeftAs, accept_client-LeftAs}
use noisy_shuttle.Tunnel.Handshake.Replay.{GuardLaws, accept_client-replay}
use noisy_shuttle.Tunnel.Handshake.Copy.{Copies, copy_until_tls12_handshake_finished-Copies}
use noisy_shuttle.Tunnel.Handshake.Accept.{after_connect}
use noisy_shuttle.Tunnel.Handshake.Answers.{Answers, after_connect-Answers}

-- Hellos whose random is two bytes.
abbrev small_tls : Tls
small_tls = record {
  known_type = λ t. leb 0x14 t && leb t 0x18;
  known_version = λ v. leb 0x0300 v && leb v 0x0304;
  client_hello = λ b. if ltb (length b) 10 then none else some (take 2 (drop 5 b), drop 7 b);
  server_hello = λ b. if ltb (length b) 7 then none else some (get_or b 6 0 == 1);
}

same_bytes : List ℕ → List ℕ → Bool
same_bytes [] [] = true
same_bytes (x ∷ xs) (y ∷ ys) = x == y && same_bytes xs ys
same_bytes _ _ = false

same_bytes_refl : (xs : List ℕ) → same_bytes xs xs ≡ true
unfolding same_bytes
same_bytes_refl [] = refl
same_bytes_refl (x ∷ xs) = ground (arith, same_bytes_refl xs)

find : List ℕ → Option (List ℕ × ℕ) → Option ℕ
unfolding same_bytes
find key none = none
find key (some (k, v)) = if same_bytes k key then some v else none

find-put : (key : List ℕ) (v : ℕ) → find key (some (key, v)) ≡ some v
unfolding find
find-put key v = rw (same_bytes_refl key) refl

-- A filter that remembers one nonce.
abbrev small_guard : Guard
small_guard = record {
  verify = λ random timesig. true;
  Responder = ℕ;
  read_ping = λ ping. some (length ping);
  write_pong = λ r. r ∷ 9 ∷ [];
  Filter = Option (List ℕ × ℕ);
  get = λ key f. (find key f, f);
  put = λ key v f. some (key, v);
}

small_guard_laws : GuardLaws small_guard
small_guard_laws = record { get_put = λ key v f. find-put key v }

abbrev hello : List ℕ
hello = 0x16 ∷ 3 ∷ 1 ∷ 0 ∷ 6 ∷ 1 ∷ 7 ∷ 8 ∷ 9 ∷ 10 ∷ 11 ∷ []

accept_client-LeftAs_example :
    LeftAs pipe pipe_laws small_tls small_guard
      (from_peer hello)
      (accept_client pipe small_tls small_guard 77 none (from_peer hello)).0
accept_client-LeftAs_example =
    accept_client-LeftAs pipe pipe_laws small_tls small_guard 77 none (from_peer hello)

-- The first five bytes of "GET / HTTP" are in no buffer.
loses_header :
    (accept_client pipe small_tls small_guard 77 none
      (from_peer (71 ∷ 69 ∷ 84 ∷ 32 ∷ 47 ∷ 32 ∷ 72 ∷ 84 ∷ 84 ∷ 80 ∷ []))).0
    ≡ err (client_hello_invalid [] (from_peer (32 ∷ 72 ∷ 84 ∷ 84 ∷ 80 ∷ [])))
unfolding accept_client on_client_hello read_tls_message read_header header_fault
loses_header = refl

abbrev rest : Pipe
rest = from_peer []

accept_client-replay_example :
    (accept_client pipe small_tls small_guard 78 (some (1 ∷ 7 ∷ [], 77)) (from_peer hello)).0
    ≡ err (replay_detected hello rest (1 ∷ 7 ∷ []) 77)
unfolding accept_client on_client_hello authenticate check_ping check_replay read_tls_message
    read_header read_body header_fault find
accept_client-replay_example =
    accept_client-replay pipe small_tls small_guard small_guard_laws 77 78 none
      (some (1 ∷ 7 ∷ [], 77)) (from_peer hello) (from_peer hello) rest rest hello (1 ∷ 7 ∷ [])
      (8 ∷ 9 ∷ 10 ∷ 11 ∷ []) (6, hello, rest) refl refl refl refl

-- A handshake record, a change of ciphers and a handshake record; what follows stays.
abbrev flight : List ℕ
flight = 0x16 ∷ 3 ∷ 3 ∷ 0 ∷ 1 ∷ 5 ∷ 0x14 ∷ 3 ∷ 3 ∷ 0 ∷ 1 ∷ 1 ∷ 0x16 ∷ 3 ∷ 3 ∷ 0 ∷ 2 ∷ 6 ∷ 7 ∷ []

copy_until_tls12_handshake_finished-Copies_example :
    Copies pipe pipe_laws false (from_peer (flight ++ (1 ∷ []))) (from_peer []) (
      copy_until_tls12_handshake_finished pipe 30 false
        (from_peer (flight ++ (1 ∷ [])))
        (from_peer []))
copy_until_tls12_handshake_finished-Copies_example =
    copy_until_tls12_handshake_finished-Copies pipe pipe_laws 30 false
      (from_peer (flight ++ (1 ∷ []))) (from_peer []) (omega arith)

-- A camouflage server that chooses TLS 1.2.
abbrev camouflage : Pipe
camouflage = from_peer (0x16 ∷ 3 ∷ 3 ∷ 0 ∷ 2 ∷ 2 ∷ 0 ∷ flight)

after_connect-Answers_example :
    Answers pipe small_tls small_guard 60
      (3 ∷ 3 ∷ [])
      pipe_laws
      hello
      (from_peer flight)
      camouflage
      (after_connect pipe small_tls small_guard 60
        (3 ∷ 3 ∷ [])
        6
        hello
        (from_peer flight)
        (ok camouflage))
after_connect-Answers_example =
    after_connect-Answers pipe small_tls small_guard 60 (3 ∷ 3 ∷ []) pipe_laws hello 6
      (from_peer flight) camouflage (omega arith) (omega arith)
