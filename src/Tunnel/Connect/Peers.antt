-- ===== src/Tunnel/Connect/Peers.antt =====
-- A connection, an initiator and a server that satisfy the laws, and run the definitions on
-- concrete input.
use noisy_shuttle.Base.{
  ◌≤◌, ℕ, ◌≡◌, ◌==◌, refl, sym, ap, ◌∙◌, Bool, true, false, ◌&&◌, leb, ltb, if◌then◌else◌, List, [],
  ◌∷◌, ◌++◌, Option, none, some, arith, length, length-append, take, drop, get_or, take-append,
  drop-append, take-length, Bool-cases, Option-cases, inl, inr,
}
use noisy_shuttle.Tunnel.Handshake.{Tls, Guard, header_fault}
use noisy_shuttle.Tunnel.Fingerprint.{
  Grease, Rustls, zeros, ClientHello, client_hello, other_handshake, Payload, handshake,
  other_payload, Message,
}
use noisy_shuttle.Tunnel.Fingerprint.Identity.{Overwrites}
use noisy_shuttle.Tunnel.Connect.{TlsClient}
use noisy_shuttle.Tunnel.Connect.Hello.{Initiator, Overwriter}
use noisy_shuttle.Tunnel.Connect.Feeds.{ClientLaws}
use noisy_shuttle.Tunnel.Connect.Agrees.{TakesRecords}
use noisy_shuttle.Tunnel.Connect.Meets.{IsRecord, SameKey, Written}

-- A connection that logs what it takes and gives, and answers each record with one byte.
pub record Log : Type 0 where
  pub log_taken : List ℕ
  pub log_given : List ℕ
  pub queue : List ℕ

abbrev pub hello_header : List ℕ
hello_header = 0x16 ∷ 3 ∷ 1 ∷ 0 ∷ 64 ∷ []

abbrev pub new_log : (random session_id : List ℕ) → Option Log
new_log random session_id =
    if length random == 32 && length session_id == 32
    then some
        (record { log_taken = []; log_given = []; queue = hello_header ++ (random ++ session_id) })
    else none

abbrev pub is_empty_list : List ℕ → Bool
is_empty_list [] = true
is_empty_list (x ∷ xs) = false

abbrev pub logging :
    {O : Type 0} → (List (List ℕ) → List ℕ → List ℕ → Option O → Option Log) → TlsClient O
logging new_with = record {
  Connection = Log;
  new_with = new_with;
  wants_read = λ c. true;
  wants_write = λ c. ltb 0 (length c.queue);
  write_tls = λ c. some (c.queue, record c { log_given = c.log_given ++ c.queue; queue = [] });
  read_tls = λ bytes c. some (length bytes, record c { log_taken = c.log_taken ++ bytes });
  process_new_packets = λ c. some (record c { queue = 7 ∷ [] });
}

abbrev pub plain : TlsClient ℕ
plain = logging (λ alpn random session_id chwriter. new_log random session_id)

pub processed :
    (c c' : Log)
    → plain.process_new_packets c ≡ some c'
    → (c'.log_taken ≡ c.log_taken) × (c'.log_given ≡ c.log_given) × (length c'.queue ≤ 1)
processed c c' h = ground (arith, h)

pub shown :
    (bytes : List ℕ) (n : ℕ) (c c' : Log)
    → plain.read_tls bytes c ≡ some (n, c')
    → (c'.log_taken ≡ c.log_taken ++ take n bytes) × (c'.log_given ≡ c.log_given)
shown bytes n c c' e =
    let all : n ≡ length bytes = ground (arith, e) in
    let same : c' ≡ record c { log_taken = c.log_taken ++ bytes } = ground (arith, e) in
    (
      ap (λ x. x.log_taken) same
          ∙ ap (λ l. c.log_taken ++ l) (sym (ap (λ k. take k bytes) all ∙ take-length bytes)),
      ap (λ x. x.log_given) same,
    )

pub plain_takes : TakesRecords plain
plain_takes b bytes c h = (length bytes, record c { log_taken = c.log_taken ++ (b ∷ bytes) }, refl)

unfoldable pub plain_laws : ClientLaws plain
plain_laws = record {
  taken = λ c. c.log_taken;
  given = λ c. c.log_given;
  pending = λ c. length c.queue;
  backlog = 1;
  read_tls_takes = shown;
  write_tls_gives = λ c h. (
    c.queue,
    record c { log_given = c.log_given ++ c.queue; queue = [] },
    refl,
    refl,
    refl,
    ground (arith, h),
  );
  process_keeps = processed;
}

-- A client and a server with the same key.
abbrev pub no_grease : Grease
no_grease = record {
  Source = ℕ;
  is_grease_u16_be = λ v. false;
  grease_u16_be = λ n. (0x0a0a, n);
  try_regrease_u16_be = λ v n. (v, n);
  extensions_regreasing = λ types n. (types, n);
}

abbrev pub no_rustls : Rustls
no_rustls = record { get_type = λ e. 0; get_encoding = λ h. []; into_values = λ m. [] }

abbrev pub hello_of_lists : (random session_id : List ℕ) → ClientHello
hello_of_lists random session_id = record {
  random = random;
  session_id = session_id;
  cipher_suites = [];
  compression_methods = [];
  extensions = [];
}

abbrev pub hello_message : (random session_id : List ℕ) → Message
hello_message random session_id = record {
  version = 0x0303;
  payload = handshake (client_hello (hello_of_lists random session_id)) [];
}

abbrev pub hello_of : Payload → ClientHello
hello_of (handshake (client_hello chp) encoded) = chp
hello_of (handshake (other_handshake content) encoded) = hello_of_lists [] []
hello_of (other_payload content) = hello_of_lists [] []

abbrev pub message_of : Option (Message × List ℕ × ℕ) → Option Message
message_of none = none
message_of (some (m, unasked, after)) = some m

abbrev pub overwritten : Option (Overwriter no_grease) → Message → Option Message
overwritten none m = some m
overwritten (some f) m = message_of (f m 0)

abbrev pub log_of_payload : Payload → Option Log
log_of_payload (handshake (client_hello chp) encoded) = new_log chp.random chp.session_id
log_of_payload (handshake (other_handshake content) encoded) = none
log_of_payload (other_payload content) = none

abbrev pub log_of : Option Message → Option Log
log_of none = none
log_of (some m) = log_of_payload m.payload

abbrev pub client : TlsClient (Overwriter no_grease)
client = logging (λ alpn random session_id chwriter.
    log_of (overwritten chwriter (hello_message random session_id)))

abbrev pub server_tls : Tls
server_tls = record {
  known_type = λ typ. leb 0x14 typ && leb typ 0x18;
  known_version = λ v. leb 0x0300 v && leb v 0x0304;
  client_hello = λ b. some (take 32 (drop 5 b), drop 37 b);
  server_hello = λ b. some (get_or b 5 0 == 3);
}

abbrev pub initiator : Initiator
initiator = record {
  Handshaking = ℕ;
  Transport = ℕ;
  write_message = λ n. some (zeros 48, n);
  read_message = λ message n. if length message == 48 then some n else none;
}

abbrev pub guard : Guard
guard = record {
  verify = λ random timesig. true;
  Responder = ℕ;
  read_ping = λ ping. some (length ping);
  write_pong = λ r. zeros 48;
  Filter = ℕ;
  get = λ key f. (none, f);
  put = λ key v f. v;
}

abbrev pub sign : List ℕ → List ℕ
sign random = zeros 16

new_log-some :
    (random session_id : List ℕ) (c : Log)
    → new_log random session_id ≡ some c
    → (c.queue ≡ hello_header ++ (random ++ session_id))
      × (length random ≡ 32)
      × (length session_id ≡ 32)
new_log-some random session_id c e =
    elim (Bool-cases (length random == 32 && length session_id == 32)) [
      | inl fits ↦
          let made : new_log random session_id
              ≡ some (record {
                log_taken = [];
                log_given = [];
                queue = hello_header ++ (random ++ session_id);
              }) =
            rw fits refl in
          (ground (arith, sym made ∙ e), ground (arith, fits), ground (arith, fits))
      | inr wrong ↦
          let gone : new_log random session_id ≡ none = rw wrong refl in
          absurd (let clash = sym gone ∙ e in cc)
    ]

hello-IsRecord :
    (random session_id : List ℕ)
    → length random ≡ 32
    → length session_id ≡ 32
    → IsRecord server_tls hello_header (random ++ session_id)
unfolding header_fault
hello-IsRecord random session_id r l = record {
  header_len = refl;
  body_len = omega (arith, length-append random session_id, r, l);
  accepted = refl;
}

hello_parsed :
    (random session_id : List ℕ)
    → length random ≡ 32
    → server_tls.client_hello (hello_header ++ (random ++ session_id)) ≡ some (random, session_id)
hello_parsed random session_id r =
    ap (λ n. some (take n (random ++ session_id), drop n (random ++ session_id))) (sym r)
    ∙ ap (λ x. some (x, drop (length random) (random ++ session_id)))
        (take-append random session_id)
    ∙ ap (λ x. some (random, x)) (drop-append random session_id)

overwritten-Overwrites :
    (chwriter : Option (Overwriter no_grease)) (m : Message) (c : Log)
    → log_of (overwritten chwriter m) ≡ some c
    → (m' : Message) × Overwrites no_grease chwriter m m' × (log_of_payload m'.payload ≡ some c)
overwritten-Overwrites none m c e = (m, refl, e)
overwritten-Overwrites (some f) m c e = elim (Option-cases (f m 0)) [
  | inl fails ↦ absurd (let gone = ap (λ o. log_of (message_of o)) fails in cc)
  | inr ((m', unasked, after), made) ↦
      (m', (0, unasked, after, made), sym (ap (λ o. log_of (message_of o)) made) ∙ e)
]

payload-Written :
    (p : Payload) (version : ℕ) (c : Log)
    → log_of_payload p ≡ some c
    → Written server_tls no_rustls (record { version = version; payload = p }) c.queue
payload-Written (handshake (other_handshake content) encoded) version c e = absurd cc
payload-Written (other_payload content) version c e = absurd cc
payload-Written (handshake (client_hello chp) encoded) version c e =
    let (queued, r, l) = new_log-some chp.random chp.session_id c e in
    record {
      is_record = λ short. (
        hello_header,
        chp.random ++ chp.session_id,
        queued,
        hello-IsRecord chp.random chp.session_id r l,
      );
      is_read = λ random session_id short i.
          let same : chp ≡ i.chp = ap hello_of i.holds in
          ap server_tls.client_hello queued
          ∙ hello_parsed chp.random chp.session_id r
          ∙ ap (λ h. some (h.random, h.session_id)) same
          ∙ ap (λ x. some (x, i.chp.session_id)) i.same_random
          ∙ ap (λ x. some (random, x)) i.same_session_id;
    }

pub same_key : SameKey server_tls no_grease no_rustls client initiator guard sign
same_key = record {
  hello_is_written = λ alpn random session_id chwriter c e.
      let m = hello_message random session_id in
      let (m', o, made) = overwritten-Overwrites chwriter m c e in
      (
        m,
        m',
        c.queue,
        record c { log_given = c.log_given ++ c.queue; queue = [] },
        record {
          chp = hello_of_lists random session_id;
          same_random = refl;
          same_session_id = refl;
          holds = refl;
        },
        o,
        refl,
        payload-Written m'.payload m'.version c made,
      );
  ping_is_read = λ noise noise' psk_e e. (length psk_e, refl);
  pong_len = λ responder. refl;
  sign_is_good = λ random. refl;
}
