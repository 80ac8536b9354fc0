-- ===== src/Tunnel/Fingerprint/Order.antt =====
-- tunnel/src/fp.rs: the order of the extensions of an overwritten ClientHello.
use noisy_shuttle.Base.{
  ℕ, ◌≡◌, ◌==◌, refl, sym, ap, ◌∙◌, Bool, true, false, List, [], ◌∷◌, map, Option, none, some,
  arith, ◌-◌, length, Bool-cases, Option-cases, inl, inr,
}
use noisy_shuttle.Tunnel.Fingerprint.{
  Ja3, FingerprintSpec, ClientExtension, named_groups, ec_point_formats, protocols,
  supported_versions, signature_algorithms, key_share, unknown, other, ClientHello, client_hello,
  Grease, Rustls, collect_into, match_order, resize_padding, padding, rfc7685_padding_target,
  assigned,
}
use noisy_shuttle.Tunnel.Fingerprint.Filed.{Typed, collect-Filed, match_order-types}
use noisy_shuttle.Tunnel.Fingerprint.Values.{
  Pass, overwrite_extension, overwrite_extensions, put_front,
}
use noisy_shuttle.Tunnel.Fingerprint.Overwrite.{
  append_left, reorder_extensions, resize_hello, pad_hello, ciphers_of, overwrite_payload,
  overwrite_hello,
}

module _ (r : Rustls) (laws : Typed r) (grease : Grease) where
  open r use {get_type, get_encoding}
  open grease use {Source, extensions_regreasing}

  overwrite_extension-type :
      (fp : FingerprintSpec) (e : ClientExtension) (pass : Pass grease)
      → get_type (overwrite_extension grease fp e pass).0 ≡ get_type e
  unfolding overwrite_extension
  overwrite_extension-type fp (named_groups groups) pass =
      laws.type_named_groups _ ∙ sym (laws.type_named_groups groups)
  overwrite_extension-type fp (ec_point_formats formats) pass =
      laws.type_ec_point_formats _ ∙ sym (laws.type_ec_point_formats formats)
  overwrite_extension-type fp (protocols alpn) pass =
      laws.type_protocols _ ∙ sym (laws.type_protocols alpn)
  overwrite_extension-type fp (supported_versions vers) pass =
      laws.type_supported_versions _ ∙ sym (laws.type_supported_versions vers)
  overwrite_extension-type fp (signature_algorithms algos) pass =
      laws.type_signature_algorithms _ ∙ sym (laws.type_signature_algorithms algos)
  overwrite_extension-type fp (key_share entries) pass =
      laws.type_key_share _ ∙ sym (laws.type_key_share entries)
  overwrite_extension-type fp (unknown typ payload) pass = elim (Bool-cases (typ == padding)) [
    | inl pads ↦ rw pads (laws.type_unknown typ [] ∙ sym (laws.type_unknown typ payload))
    | inr differs ↦ rw differs refl
  ]
  overwrite_extension-type fp (other typ content) pass = refl

  overwrite_extensions-types :
      (fp : FingerprintSpec) (es : List ClientExtension) (pass : Pass grease)
      → map get_type (overwrite_extensions grease fp es pass).0 ≡ map get_type es
  unfolding overwrite_extensions put_front
  overwrite_extensions-types fp [] pass = refl
  overwrite_extensions-types fp (e ∷ es) pass =
      let after = (overwrite_extension grease fp e pass).1 in
      ap (λ t. t ∷ map get_type (overwrite_extensions grease fp es after).0)
        (overwrite_extension-type fp e pass)
      ∙ ap (◌∷◌ (get_type e)) (overwrite_extensions-types fp es after)

  cons-types :
      (e : ClientExtension) (es es' : List ClientExtension)
      → map get_type es ≡ map get_type es'
      → map get_type (e ∷ es) ≡ map get_type (e ∷ es')
  cons-types e es es' h = ap (◌∷◌ (get_type e)) h

  resize_padding-types :
      (n : ℕ) (es : List ClientExtension) → map get_type (resize_padding n es) ≡ map get_type es
  unfolding resize_padding
  resize_padding-types n [] = refl
  resize_padding-types n (unknown typ payload ∷ es) = elim (Bool-cases (typ == padding)) [
    | inl pads ↦ rw pads (
        ap (λ t. t ∷ map get_type es)
          (laws.type_unknown typ _ ∙ sym (laws.type_unknown typ payload)))
    | inr differs ↦
        rw differs (ap (◌∷◌ (get_type (unknown typ payload))) (resize_padding-types n es))
  ]
  resize_padding-types n (named_groups x ∷ es) =
      cons-types (named_groups x) (resize_padding n es) es (resize_padding-types n es)
  resize_padding-types n (ec_point_formats x ∷ es) =
      cons-types (ec_point_formats x) (resize_padding n es) es (resize_padding-types n es)
  resize_padding-types n (protocols x ∷ es) =
      cons-types (protocols x) (resize_padding n es) es (resize_padding-types n es)
  resize_padding-types n (supported_versions x ∷ es) =
      cons-types (supported_versions x) (resize_padding n es) es (resize_padding-types n es)
  resize_padding-types n (signature_algorithms x ∷ es) =
      cons-types (signature_algorithms x) (resize_padding n es) es (resize_padding-types n es)
  resize_padding-types n (key_share x ∷ es) =
      cons-types (key_share x) (resize_padding n es) es (resize_padding-types n es)
  resize_padding-types n (other typ x ∷ es) =
      cons-types (other typ x) (resize_padding n es) es (resize_padding-types n es)

  pad_hello-types :
      (pad : Bool) (chp : ClientHello)
      → map get_type (pad_hello grease r pad chp).extensions ≡ map get_type chp.extensions
  unfolding pad_hello resize_hello
  pad_hello-types false chp = refl
  pad_hello-types true chp =
      let padlen = rfc7685_padding_target - length (get_encoding (client_hello chp)) in
      elim (Bool-cases (padlen == 0)) [
        | inl full ↦ rw full refl
        | inr short ↦ rw short (resize_padding-types padlen chp.extensions)
      ]

  -- All but the cipher suites and the extensions is that of the old hello.
  abbrev pub KeepsIdentity : ClientHello → ClientHello → Type 0
  KeepsIdentity old new =
      (new.random ≡ old.random)
      × (new.session_id ≡ old.session_id)
      × (new.compression_methods ≡ old.compression_methods)

  pad_hello-KeepsIdentity :
      (pad : Bool) (chp : ClientHello)
      → KeepsIdentity chp (pad_hello grease r pad chp)
        × ((pad_hello grease r pad chp).cipher_suites ≡ chp.cipher_suites)
  unfolding pad_hello resize_hello
  pad_hello-KeepsIdentity false chp = ((refl, refl, refl), refl)
  pad_hello-KeepsIdentity true chp = ground arith

  append_left-some :
      (m : Option (List ClientExtension × List (ℕ × ClientExtension) × Bool))
      (source source' : Source) (es : List ClientExtension) (pad : Bool)
      → append_left grease r true m source ≡ some (es, pad, source')
      → (left : List (ℕ × ClientExtension)) × (m ≡ some (es, left, pad))
  unfolding append_left
  append_left-some none source source' es pad e = absurd cc
  append_left-some (some (new, left, pad')) source source' es pad e = (left, cc)

  reorder_extensions-types :
      (ja3 : Ja3) (old es : List ClientExtension) (pad : Bool) (source source' : Source)
      → reorder_extensions grease r true true (some ja3) old source ≡ some (es, pad, source')
      → map get_type es ≡ (extensions_regreasing ja3.extensions source).0
  unfolding reorder_extensions
  reorder_extensions-types ja3 old es pad source source' e =
      let (types, after) = extensions_regreasing ja3.extensions source in
      let filed = collect_into get_type old [] in
      let (left, matched) =
        append_left-some (match_order true types filed false) after source' es pad e in
      match_order-types r laws types filed left false pad es (collect-Filed r old [] tt) matched

  overwrite_payload-MatchesTypes :
      (fp : FingerprintSpec) (chp chp' : ClientHello) (es : List ClientExtension) (pad : Bool)
      (source source' : Source)
      → overwrite_payload grease r fp chp (some (es, pad, source)) ≡ some (chp', source')
      → (map get_type chp'.extensions ≡ map get_type es)
        × (chp'.cipher_suites ≡ assigned chp.cipher_suites (ciphers_of fp.ja3))
        × KeepsIdentity chp chp'
  unfolding overwrite_payload
  overwrite_payload-MatchesTypes fp chp chp' es pad source source' e =
      let start : Pass grease = record { grease_curves = []; source = source; pad = pad } in
      let passed = overwrite_extensions grease fp es start in
      let drafted : ClientHello = record chp {
        cipher_suites = assigned chp.cipher_suites (ciphers_of fp.ja3);
        extensions = passed.0;
      } in
      let same : pad_hello grease r passed.1.pad drafted ≡ chp' = cc in
      let (kept, suites) = pad_hello-KeepsIdentity passed.1.pad drafted in
      (
        sym (ap (λ c. map get_type c.extensions) same)
            ∙ pad_hello-types passed.1.pad drafted
            ∙ overwrite_extensions-types fp es start,
        sym (ap (λ c. c.cipher_suites) same) ∙ suites,
        (
          sym (ap (λ c. c.random) same) ∙ kept.0,
          sym (ap (λ c. c.session_id) same) ∙ kept.1,
          sym (ap (λ c. c.compression_methods) same) ∙ kept.2,
        ),
      )

  -- A hello that was made to look like that of a JA3, with missing extensions added and others
  -- dropped, has the cipher suites of the JA3 and extensions of just its types, in its order, with
  -- the GREASE values drawn anew. Its random and its session id, which carry the Noise message and
  -- the time signature, and its compression methods are those of the old hello.
  pub overwrite_hello-MatchesJa3 :
      (fp : FingerprintSpec) (ja3 : Ja3) (chp chp' : ClientHello) (source source' : Source)
      → fp.ja3 ≡ some ja3
      → overwrite_hello grease r fp true true chp source ≡ some (chp', source')
      → (map get_type chp'.extensions ≡ (extensions_regreasing ja3.extensions source).0)
        × (chp'.cipher_suites ≡ ja3.ciphers)
        × KeepsIdentity chp chp'
  unfolding overwrite_hello overwrite_payload
  overwrite_hello-MatchesJa3 fp ja3 chp chp' source source' j e =
      let reordered = reorder_extensions grease r true true (some ja3) chp.extensions source in
      let run : overwrite_payload grease r fp chp reordered ≡ some (chp', source') =
        ap
          (λ q.
            overwrite_payload grease r fp chp
              (reorder_extensions grease r true true q chp.extensions source))
          (sym j)
        ∙ e in
      elim (Option-cases reordered) [
        | inl fails ↦ absurd (let gone = ap (overwrite_payload grease r fp chp) fails in cc)
        | inr ((es, pad, after), made) ↦
            let (types, suites, kept) =
              overwrite_payload-MatchesTypes fp chp chp' es pad after source'
                (sym (ap (overwrite_payload grease r fp chp) made) ∙ run) in
            (
              types ∙ reorder_extensions-types ja3 chp.extensions es pad source after made,
              suites ∙ ap (λ q. assigned chp.cipher_suites (ciphers_of q)) j,
              kept,
            )
      ]
