-- ===== src/Tunnel/Fingerprint/Identity.antt =====
-- tunnel/src/fp.rs: what carries the Noise message and the time signature stays in a ClientHello.
use noisy_shuttle.Base.{
  ℕ, ◌≡◌, refl, sym, ap, ◌∙◌, subst, Bool, true, false, List, [], Option, none, some, arith,
  Bool-cases, inl, inr,
}
use noisy_shuttle.Tunnel.Fingerprint.{
  FingerprintSpec, ClientExtension, ClientHello, client_hello, handshake, Message, Grease, Rustls,
  assigned, is_empty,
}
use noisy_shuttle.Tunnel.Fingerprint.Values.{overwrite_extensions}
use noisy_shuttle.Tunnel.Fingerprint.Overwrite.{
  resize_hello, pad_hello, ciphers_of, version_of, overwrite_payload, overwrite_hello, encode_hello,
  overwrite_message, overwrite_client_hello_with_fingerprint_spec, reorder_extensions,
  get_client_hello_overwriter,
}

-- A message that holds a hello with this random and this session id, typed and as its bytes.
pub record Identifies (rustls : Rustls) (random session_id : List ℕ) (m : Message) : Type 0 where
  pub chp : ClientHello
  pub same_random : chp.random ≡ random
  pub same_session_id : chp.session_id ≡ session_id
  pub holds : m.payload ≡ handshake (client_hello chp) (rustls.get_encoding (client_hello chp))

-- What an overwriter, if there is one, makes of a message.
abbrev pub Overwrites :
    (grease : Grease)
    → Option (Message → grease.Source → Option (Message × List ℕ × grease.Source))
    → (m m' : Message) → Type 0
Overwrites grease none m m' = m' ≡ m
Overwrites grease (some f) m m' =
    (source : grease.Source) × (unasked : List ℕ) × (after : grease.Source) × (f m source
      ≡ some (m', unasked, after))

module _ (grease : Grease) (r : Rustls) where
  open grease use {Source}
  open r use {get_encoding}

  pad_hello-same :
      (pad : Bool) (chp : ClientHello)
      → ((pad_hello grease r pad chp).random ≡ chp.random)
        × ((pad_hello grease r pad chp).session_id ≡ chp.session_id)
  unfolding pad_hello resize_hello
  pad_hello-same false chp = (refl, refl)
  pad_hello-same true chp = ground arith

  overwrite_payload-same :
      (fp : FingerprintSpec) (chp chp' : ClientHello)
      (o : Option (List ClientExtension × Bool × Source)) (after : Source)
      → overwrite_payload grease r fp chp o ≡ some (chp', after)
      → (chp'.random ≡ chp.random) × (chp'.session_id ≡ chp.session_id)
  unfolding overwrite_payload
  overwrite_payload-same fp chp chp' none after e = absurd cc
  overwrite_payload-same fp chp chp' (some (es, pad, source)) after e =
      let passed =
        overwrite_extensions grease fp es
          (record { grease_curves = []; source = source; pad = pad }) in
      let drafted : ClientHello = record chp {
        cipher_suites = assigned chp.cipher_suites (ciphers_of fp.ja3);
        extensions = passed.0;
      } in
      let same : pad_hello grease r passed.1.pad drafted ≡ chp' = cc in
      let (random, session_id) = pad_hello-same passed.1.pad drafted in
      (sym (ap (λ c. c.random) same) ∙ random, sym (ap (λ c. c.session_id) same) ∙ session_id)

  abbrev encoded : ℕ → ClientHello → Message
  encoded version chp = record {
    version = version;
    payload = handshake (client_hello chp) (get_encoding (client_hello chp));
  }

  encode_hello-Identifies :
      (fp : FingerprintSpec) (version : ℕ) (chp : ClientHello) (m' : Message) (unasked : List ℕ)
      (after : Source) (h : Option (ClientHello × Source))
      → ((chp' : ClientHello) (source : Source)
          → h ≡ some (chp', source)
          → (chp'.random ≡ chp.random) × (chp'.session_id ≡ chp.session_id))
      → encode_hello grease r version h ≡ some (m', unasked, after)
      → Identifies r chp.random chp.session_id m'
  unfolding encode_hello
  encode_hello-Identifies fp version chp m' unasked after none same e = absurd cc
  encode_hello-Identifies fp version chp m' unasked after (some (chp', source)) same e =
      let made : encoded version chp' ≡ m' = cc in
      let (random, session_id) = same chp' source refl in
      record {
        chp = chp';
        same_random = random;
        same_session_id = session_id;
        holds = sym (ap (λ m. m.payload) made);
      }

  message-Identifies :
      (fp : FingerprintSpec) (random session_id : List ℕ) (m m' : Message)
      → Identifies r random session_id m
      → (source : Source) (unasked : List ℕ) (after : Source)
      → overwrite_client_hello_with_fingerprint_spec grease r m fp true true source
        ≡ some (m', unasked, after)
      → Identifies r random session_id m'
  unfolding overwrite_client_hello_with_fingerprint_spec overwrite_message overwrite_hello
  message-Identifies fp random session_id m m' i source unasked after e =
      let version = assigned m.version (version_of fp.ja3) in
      let reordered = reorder_extensions grease r true true fp.ja3 i.chp.extensions source in
      let run : encode_hello grease r version (overwrite_payload grease r fp i.chp reordered)
          ≡ some (m', unasked, after) =
        ap (λ p. overwrite_message grease r fp true true version p source) (sym i.holds) ∙ e in
      let new =
        encode_hello-Identifies fp version i.chp m' unasked after
          (overwrite_payload grease r fp i.chp reordered)
          (λ chp' source' made. overwrite_payload-same fp i.chp chp' reordered source' made) run in
      record {
        chp = new.chp;
        same_random = new.same_random ∙ i.same_random;
        same_session_id = new.same_session_id ∙ i.same_session_id;
        holds = new.holds;
      }

  -- Whatever the fingerprint, the overwriter leaves the random and the session id, in both forms.
  pub overwriter-Identifies :
      (fp : FingerprintSpec) (random session_id : List ℕ) (m m' : Message)
      → Identifies r random session_id m
      → Overwrites grease (get_client_hello_overwriter grease r fp true true) m m'
      → Identifies r random session_id m'
  unfolding get_client_hello_overwriter
  overwriter-Identifies fp random session_id m m' i o = elim (Bool-cases (is_empty fp)) [
    | inl empty ↦
        let none_is : get_client_hello_overwriter grease r fp true true ≡ none = rw empty refl in
        let same : m' ≡ m = subst (λ q. Overwrites grease q m m') none_is o in
        subst (Identifies r random session_id) (sym same) i
    | inr full ↦
        let overwriter : Message → Source → Option (Message × List ℕ × Source) = λ msg source.
          overwrite_client_hello_with_fingerprint_spec grease r msg fp true true source in
        let some_is : get_client_hello_overwriter grease r fp true true ≡ some overwriter =
          rw full refl in
        let (source, unasked, after, e) = subst (λ q. Overwrites grease q m m') some_is o in
        message-Identifies fp random session_id m m' i source unasked after e
  ]
