-- ===== src/Tunnel/Fingerprint/Overwrite.antt =====
-- tunnel/src/fp.rs: `overwrite_client_hello_with_fingerprint_spec` as a whole, and
-- `get_client_hello_overwriter`. `none` is the panic.
use noisy_shuttle.Base.{
  ℕ, ◌-◌, ◌==◌, if◌then◌else◌, Bool, true, false, List, [], ◌∷◌, ◌++◌, Option, none, some, length,
}
use noisy_shuttle.Tunnel.Fingerprint.{
  Ja3, FingerprintSpec, ClientExtension, ClientHello, client_hello, other_handshake, Payload,
  handshake, other_payload, Message, Grease, Rustls, renegotiation_info, rfc7685_padding_target,
  collect_into, assigned, match_order, resize_padding, is_empty,
}
use noisy_shuttle.Tunnel.Fingerprint.Values.{overwrite_extensions}

abbrev pub version_of : Option Ja3 → Option ℕ
version_of none = none
version_of (some ja3) = some ja3.version

abbrev pub ciphers_of : Option Ja3 → Option (List ℕ)
ciphers_of none = none
ciphers_of (some ja3) = some ja3.ciphers

module _ (grease : Grease) (rustls : Rustls) where
  open grease use {Source, extensions_regreasing}
  open rustls use {get_type, get_encoding, into_values}

  -- The first pass, over the order of the extensions: what is left of the old ones goes to the end,
  -- unless they are to be dropped.
  unfoldable pub append_left :
      (drop : Bool)
      → Option (List ClientExtension × List (ℕ × ClientExtension) × Bool)
      → Source
      → Option (List ClientExtension × Bool × Source)
  append_left drop none source = none
  append_left drop (some (new, left, pad)) source =
      some (if drop then new else new ++ into_values left, pad, source)

  unfoldable pub reorder_extensions :
      (add drop : Bool)
      → Option Ja3
      → List ClientExtension
      → Source
      → Option (List ClientExtension × Bool × Source)
  reorder_extensions add drop none extensions source = some (extensions, false, source)
  reorder_extensions add drop (some ja3) extensions source =
      let (types, after) = extensions_regreasing ja3.extensions source in
      append_left drop (match_order add types (collect_into get_type extensions []) false) after

  -- The last step: padding up to the target, by the length without it.
  unfoldable pub resize_hello : (padlen : ℕ) → ClientHello → ClientHello
  resize_hello padlen chp =
      if padlen == 0 then chp else record chp { extensions = resize_padding padlen chp.extensions }

  unfoldable pub pad_hello : Bool → ClientHello → ClientHello
  pad_hello true chp =
      resize_hello (rfc7685_padding_target - length (get_encoding (client_hello chp))) chp
  pad_hello false chp = chp

  unfoldable pub overwrite_payload :
      FingerprintSpec
      → ClientHello
      → Option (List ClientExtension × Bool × Source)
      → Option (ClientHello × Source)
  overwrite_payload fp chp none = none
  overwrite_payload fp chp (some (extensions, pad, source)) =
      let (new, pass) =
        overwrite_extensions grease fp extensions
          (record { grease_curves = []; source = source; pad = pad }) in
      some (
        pad_hello pass.pad (record chp {
          cipher_suites = assigned chp.cipher_suites (ciphers_of fp.ja3);
          extensions = new;
        }),
        pass.source,
      )

  unfoldable pub overwrite_hello :
      FingerprintSpec → (add drop : Bool) → ClientHello → Source → Option (ClientHello × Source)
  overwrite_hello fp add drop chp source =
      overwrite_payload fp chp (reorder_extensions add drop fp.ja3 chp.extensions source)

  -- The message is stored twice, typed and as bytes.
  unfoldable pub encode_hello :
      (version : ℕ) → Option (ClientHello × Source) → Option (Message × List ℕ × Source)
  encode_hello version none = none
  encode_hello version (some (chp, source)) = some (
    record {
      version = version;
      payload = handshake (client_hello chp) (get_encoding (client_hello chp));
    },
    renegotiation_info ∷ [],
    source,
  )

  unfoldable pub overwrite_message :
      FingerprintSpec
      → (add drop : Bool) → (version : ℕ) → Payload
      → Source
      → Option (Message × List ℕ × Source)
  overwrite_message fp add drop version (handshake (client_hello chp) encoded) source =
      encode_hello version (overwrite_hello fp add drop chp source)
  overwrite_message fp add drop version (handshake (other_handshake content) encoded) source =
      some (
        record {
          version = version;
          payload = handshake (other_handshake content) (get_encoding (other_handshake content));
        },
        renegotiation_info ∷ [],
        source,
      )
  overwrite_message fp add drop version (other_payload content) source = some (
    record { version = version; payload = other_payload content },
    renegotiation_info ∷ [],
    source,
  )

  -- The message, the types of extensions that the server may send unasked, and the source.
  unfoldable pub overwrite_client_hello_with_fingerprint_spec :
      Message → FingerprintSpec → (add drop : Bool) → Source → Option (Message × List ℕ × Source)
  overwrite_client_hello_with_fingerprint_spec msg fp add drop source =
      overwrite_message fp add drop (assigned msg.version (version_of fp.ja3)) msg.payload source

  -- A fingerprint of nothing leaves the hello as it is.
  unfoldable pub get_client_hello_overwriter :
      FingerprintSpec
      → (add drop : Bool) → Option (Message → Source → Option (Message × List ℕ × Source))
  get_client_hello_overwriter fp add drop =
      if is_empty fp
      then none
      else some (λ msg source. overwrite_client_hello_with_fingerprint_spec msg fp add drop source)
