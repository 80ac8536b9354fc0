-- ===== src/Tunnel/Fingerprint/Tests.antt =====
-- Runs and examples of tunnel/src/fp.rs.
use noisy_shuttle.Base.{
  ℕ, suc, ◌+◌, ◌<◌, ◌≡◌, ◌==◌, ◌↔◌, refl, ap, ◌∙◌, true, false, ◌||◌, List, [], ◌∷◌, ◌++◌, map,
  none, some, length, length-append, arith, if◌then◌else◌,
}
use noisy_shuttle.Tunnel.Fingerprint.{
  Ja3, FingerprintSpec, KeyShareEntry, ClientExtension, named_groups, ec_point_formats, protocols,
  supported_versions, signature_algorithms, key_share, unknown, other, ClientHello, Handshake,
  client_hello, other_handshake, handshake, Message, Grease, Rustls, insert, collect_into,
  keep_entry, remove, dummy_payload, dummy_extension, extension_for, join_extensions, match_order,
  resize, resize_padding, zeros, padding, renegotiation_info, al_protocol_negotiation,
}
use noisy_shuttle.Tunnel.Fingerprint.Values.{
  Pass, draw, pop, pop_from, next_grease, curve_for, groups_for, overwrite_groups, entry_for,
  entries_for, overwrite_entries, overwrite_extension, overwrite_extensions, put_front,
}
use noisy_shuttle.Tunnel.Fingerprint.Overwrite.{
  append_left, reorder_extensions, resize_hello, pad_hello, overwrite_payload, overwrite_hello,
  encode_hello, overwrite_message, overwrite_client_hello_with_fingerprint_spec,
}
use noisy_shuttle.Tunnel.Fingerprint.Filed.{Typed}
use noisy_shuttle.Tunnel.Fingerprint.Order.{KeepsIdentity, overwrite_hello-MatchesJa3}
use noisy_shuttle.Tunnel.Fingerprint.Alpn.{times, held, overwrite_hello-panics_iff}
use noisy_shuttle.Tunnel.Fingerprint.Padding.{
  PaddingLaws, IsPadded, overwrite_client_hello-IsPadded,
}
use noisy_shuttle.Tunnel.Fingerprint.Offers.{
  offered, shared, SharesOffered, overwrite_extensions-SharesOffered,
}

-- The source counts its draws; the values alternate.
abbrev counting : Grease
counting = record {
  Source = ℕ;
  is_grease_u16_be = λ v. v == 0x0a0a || v == 0x1a1a;
  grease_u16_be = λ n. (if n == 0 then 0x1a1a else 0x0a0a, suc n);
  try_regrease_u16_be = λ v n. (v, n);
  extensions_regreasing = λ types n. (types, n);
}

abbrev type_of : ClientExtension → ℕ
type_of (named_groups x) = 0x000a
type_of (ec_point_formats x) = 0x000b
type_of (protocols x) = 0x0010
type_of (supported_versions x) = 0x002b
type_of (signature_algorithms x) = 0x000d
type_of (key_share x) = 0x0033
type_of (unknown typ payload) = typ
type_of (other typ content) = typ

abbrev extension_bytes : ClientExtension → List ℕ
extension_bytes (unknown typ payload) = typ ∷ 0 ∷ 0 ∷ 0 ∷ payload
extension_bytes (named_groups x) = 0 ∷ []
extension_bytes _ = 0 ∷ []

abbrev extensions_bytes : List ClientExtension → List ℕ
extensions_bytes [] = []
extensions_bytes (e ∷ es) = extension_bytes e ++ extensions_bytes es

abbrev handshake_bytes : Handshake → List ℕ
handshake_bytes (client_hello chp) =
    chp.random ++ (chp.session_id ++ extensions_bytes chp.extensions)
handshake_bytes (other_handshake content) = content

abbrev small_rustls : Rustls
small_rustls = record {
  get_type = type_of;
  get_encoding = handshake_bytes;
  into_values = λ m. map (λ entry. entry.1) m;
}

small_typed : Typed small_rustls
small_typed = record {
  type_named_groups = λ x. refl;
  type_ec_point_formats = λ x. refl;
  type_protocols = λ x. refl;
  type_supported_versions = λ x. refl;
  type_signature_algorithms = λ x. refl;
  type_key_share = λ x. refl;
  type_unknown = λ typ payload. refl;
}

padding_len :
    (before behind : List ClientExtension) (p : List ℕ)
    → length (extensions_bytes (before ++ (unknown padding p ∷ behind)))
      ≡ length (extensions_bytes (before ++ (unknown padding [] ∷ behind))) + length p
padding_len [] behind p = omega (
  arith,
  length-append (padding ∷ 0 ∷ 0 ∷ 0 ∷ p) (extensions_bytes behind),
  length-append (padding ∷ 0 ∷ 0 ∷ 0 ∷ []) (extensions_bytes behind),
)
padding_len (e ∷ before) behind p =
    let with = λ (q : List ℕ). extensions_bytes (before ++ (unknown padding q ∷ behind)) in
    omega (
      arith,
      padding_len before behind p,
      length-append (extension_bytes e) (with p),
      length-append (extension_bytes e) (with []),
    )

hello_len :
    (chp : ClientHello) (es : List ClientExtension)
    → length (handshake_bytes (client_hello (record chp { extensions = es })))
      ≡ length chp.random + length chp.session_id + length (extensions_bytes es)
hello_len chp es = omega (
  arith,
  length-append chp.random (chp.session_id ++ extensions_bytes es),
  length-append chp.session_id (extensions_bytes es),
)

small_padding : PaddingLaws small_rustls
small_padding = record {
  encoding_of_padding = λ chp before behind p. omega (
    arith,
    hello_len chp (before ++ (unknown padding p ∷ behind)),
    hello_len chp (before ++ (unknown padding [] ∷ behind)),
    padding_len before behind p,
  );
}

abbrev ja3 : Ja3
ja3 = record {
  version = 0x0303;
  ciphers = 0x1301 ∷ 0x1302 ∷ [];
  extensions = 0x000a ∷ 0xff01 ∷ 0x0033 ∷ 0x0015 ∷ [];
  curves = 0x0a0a ∷ 0x001d ∷ [];
  point_formats = 0 ∷ [];
}

abbrev spec : FingerprintSpec
spec = record {
  ja3 = some ja3;
  alpn = none;
  signature_algos = none;
  supported_versions = none;
  keyshare_curves = some (0x0a0a ∷ 0x001d ∷ []);
}

abbrev entry : KeyShareEntry
entry = record { group = 0x001d; payload = 7 ∷ 8 ∷ [] }

abbrev hello : ClientHello
hello = record {
  random = 1 ∷ [];
  session_id = 2 ∷ [];
  cipher_suites = 5 ∷ [];
  compression_methods = 0 ∷ [];
  extensions = other 0 (9 ∷ []) ∷ key_share (entry ∷ []) ∷ named_groups (0x001d ∷ 0x0017 ∷ []) ∷ [];
}

-- The server name is dropped, two extensions are added, and the groups and shares agree.
abbrev new_extensions : List ClientExtension
new_extensions =
    named_groups (0x1a1a ∷ 0x001d ∷ [])
    ∷ unknown 0xff01 (0x00 ∷ [])
    ∷ key_share (record { group = 0x1a1a; payload = 0 ∷ [] } ∷ entry ∷ [])
    ∷ unknown 0x0015 (zeros 499)
    ∷ []

abbrev new_hello : ClientHello
new_hello = record {
  random = 1 ∷ [];
  session_id = 2 ∷ [];
  cipher_suites = 0x1301 ∷ 0x1302 ∷ [];
  compression_methods = 0 ∷ [];
  extensions = new_extensions;
}

overwritten : overwrite_hello counting small_rustls spec true true hello 0 ≡ some (new_hello, 1)
unfolding overwrite_hello overwrite_payload reorder_extensions append_left match_order
    join_extensions extension_for dummy_extension dummy_payload remove keep_entry collect_into
    insert overwrite_extensions overwrite_extension put_front overwrite_groups groups_for curve_for
    next_grease draw pop pop_from overwrite_entries entries_for entry_for pad_hello resize_hello
    resize_padding resize
overwritten = refl

overwrite_hello-MatchesJa3_example :
    (map type_of new_hello.extensions ≡ 0x000a ∷ 0xff01 ∷ 0x0033 ∷ 0x0015 ∷ [])
    × (new_hello.cipher_suites ≡ 0x1301 ∷ 0x1302 ∷ [])
    × KeepsIdentity small_rustls small_typed counting hello new_hello
overwrite_hello-MatchesJa3_example =
    overwrite_hello-MatchesJa3 small_rustls small_typed counting spec ja3 hello new_hello 0 1 refl
      overwritten

-- A JA3 with the ALPN extension, and a hello with none.
abbrev alpn_ja3 : Ja3
alpn_ja3 = record ja3 { extensions = 0x000a ∷ al_protocol_negotiation ∷ [] }

abbrev alpn_spec : FingerprintSpec
alpn_spec = record spec { ja3 = some alpn_ja3 }

overwrite_hello-panics_iff_example :
    (overwrite_hello counting small_rustls alpn_spec true true hello 0 ≡ none) ↔ (
      held counting small_rustls hello
      < times al_protocol_negotiation (0x000a ∷ al_protocol_negotiation ∷ []))
overwrite_hello-panics_iff_example =
    overwrite_hello-panics_iff counting small_rustls alpn_spec alpn_ja3 true hello 0 refl

abbrev message : Message
message = record { version = 0x0301; payload = handshake (client_hello hello) [] }

abbrev new_message : Message
new_message = record {
  version = 0x0303;
  payload = handshake (client_hello new_hello) (handshake_bytes (client_hello new_hello));
}

encoded_hello :
    encode_hello counting small_rustls 0x0303 (some (new_hello, 1))
    ≡ some (new_message, renegotiation_info ∷ [], 1)
unfolding encode_hello
encoded_hello = refl

overwritten_message :
    overwrite_client_hello_with_fingerprint_spec counting small_rustls message spec true true 0
    ≡ some (new_message, renegotiation_info ∷ [], 1)
unfolding overwrite_client_hello_with_fingerprint_spec overwrite_message
overwritten_message = ap (encode_hello counting small_rustls 0x0303) overwritten ∙ encoded_hello

overwrite_client_hello-IsPadded_example :
    (chp : ClientHello) × (new_message.payload
      ≡ handshake (client_hello chp) (handshake_bytes (client_hello chp)))
    × IsPadded counting small_rustls chp
overwrite_client_hello-IsPadded_example =
    overwrite_client_hello-IsPadded counting small_rustls small_padding spec ja3 true message
      new_message hello [] (renegotiation_info ∷ []) 0 1 refl refl (omega arith) (omega arith)
      overwritten_message

abbrev start : Pass counting
start = record { grease_curves = []; source = 0; pad = false }

abbrev own_extensions : List ClientExtension
own_extensions =
    other 0 (9 ∷ [])
    ∷ named_groups (0x001d ∷ [])
    ∷ supported_versions []
    ∷ key_share (entry ∷ [])
    ∷ []

curves_covered :
    (c : ℕ)
    → counting.is_grease_u16_be c ≡ false
    → 0 < times c (0x0a0a ∷ 0x001d ∷ [])
    → 0 < times c (0x0a0a ∷ 0x001d ∷ [])
curves_covered c k h = h

overwrite_extensions-SharesOffered_example :
    SharesOffered counting
      (offered (overwrite_extensions counting spec own_extensions start).0)
      (shared (overwrite_extensions counting spec own_extensions start).0)
overwrite_extensions-SharesOffered_example =
    overwrite_extensions-SharesOffered counting spec ja3 (0x0a0a ∷ 0x001d ∷ []) (0x001d ∷ [])
      (other 0 (9 ∷ []) ∷ []) (supported_versions [] ∷ []) [] (entry ∷ []) start refl refl refl
      (refl, tt) (omega arith, curves_covered) (refl, tt) (refl, tt)
