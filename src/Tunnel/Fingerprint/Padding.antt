-- ===== src/Tunnel/Fingerprint/Padding.antt =====
-- tunnel/src/fp.rs: the padding of an overwritten ClientHello.
use noisy_shuttle.Base.{
  ℕ, ◌+◌, ◌-◌, ◌<◌, ◌≡◌, ◌==◌, refl, sym, ap, ◌∙◌, Bool, true, false, ◌||◌, List, [], ◌∷◌, ◌++◌,
  map, max, Option, none, some, arith, Bool-cases, Option-cases, inl, inr, length, subst,
}
use noisy_shuttle.Tunnel.Fingerprint.{
  Ja3, FingerprintSpec, ClientExtension, unknown, ClientHello, client_hello, handshake, Message,
  Grease, Rustls, collect_into, match_order, resize, resize_padding, padding,
  rfc7685_padding_target, assigned,
}
use noisy_shuttle.Tunnel.Fingerprint.Values.{Pass, overwrite_extensions}
use noisy_shuttle.Tunnel.Fingerprint.Overwrite.{
  append_left, reorder_extensions, resize_hello, pad_hello, ciphers_of, overwrite_payload,
  overwrite_hello, encode_hello, overwrite_message, overwrite_client_hello_with_fingerprint_spec,
  version_of,
}
use noisy_shuttle.Tunnel.Fingerprint.Alpn.{times, keys, times-collect_into}
use noisy_shuttle.Tunnel.Fingerprint.Flag.{has_padding, overwrite_extensions-pad}
use noisy_shuttle.Tunnel.Fingerprint.Blank.{
  has_padding-append, match_order-has_padding, resize_zero, length-resize_nil, FirstBlank,
  overwrite_extensions-FirstBlank,
}

-- rustls: the payload of an extension that it does not know is written as it is.
pub record PaddingLaws (r : Rustls) : Type 0 where
  pub encoding_of_padding :
      (chp : ClientHello) (before behind : List ClientExtension) (p : List ℕ)
      → length (
          r.get_encoding
            (client_hello (record chp { extensions = before ++ (unknown padding p ∷ behind) })))
        ≡ length (
            r.get_encoding
              (client_hello (record chp { extensions = before ++ (unknown padding [] ∷ behind) })))
          + length p

module _ (grease : Grease) (r : Rustls) where
  open r use {get_encoding}

  abbrev encoded_len : ClientHello → ℕ
  encoded_len chp = length (get_encoding (client_hello chp))

  -- The hello has the length that it has with its padding emptied, or the target if that is more.
  abbrev pub IsPadded : ClientHello → Type 0
  IsPadded chp =
      encoded_len chp
      ≡ max rfc7685_padding_target
          (encoded_len (record chp { extensions = resize_padding 0 chp.extensions }))

  resized-IsPadded :
      (laws : PaddingLaws r) (chp : ClientHello) (n : ℕ)
      → FirstBlank chp.extensions
      → n ≡ rfc7685_padding_target - encoded_len chp
      → IsPadded (record chp { extensions = resize_padding n chp.extensions })
  resized-IsPadded laws chp n (before, behind, same, resized) short =
      let with = λ (es : List ClientExtension). encoded_len (record chp { extensions = es }) in
      let put = λ (p : List ℕ). before ++ (unknown padding p ∷ behind) in
      let grown : resize_padding n chp.extensions ≡ put (resize n []) =
        ap (resize_padding n) same ∙ resized n [] in
      let emptied : resize_padding 0 (resize_padding n chp.extensions) ≡ chp.extensions =
        ap (resize_padding 0) grown
        ∙ resized 0 (resize n [])
        ∙ ap put (resize_zero (resize n []))
        ∙ sym same in
      let longer : with (resize_padding n chp.extensions) ≡ with chp.extensions + n =
        ap with grown
        ∙ laws.encoding_of_padding chp before behind (resize n [])
        ∙ ap (λ l. with (put []) + l) (length-resize_nil n)
        ∙ ap (λ l. with l + n) (sym same) in
      omega (arith, longer, ap with emptied, short)

  pad_hello-IsPadded :
      (laws : PaddingLaws r) (chp : ClientHello)
      → FirstBlank chp.extensions
      → IsPadded (pad_hello grease r true chp)
  unfolding pad_hello resize_hello
  pad_hello-IsPadded laws chp blank =
      let padlen = rfc7685_padding_target - encoded_len chp in
      elim (Bool-cases (padlen == 0)) [
        | inl full ↦
            let (before, behind, same, resized) = blank in
            let unchanged : resize_padding 0 chp.extensions ≡ chp.extensions =
              ap (resize_padding 0) same
              ∙ resized 0 []
              ∙ ap (λ p. before ++ (unknown padding p ∷ behind)) (resize_zero [])
              ∙ sym same in
            let zero_len : padlen ≡ 0 = ground arith in
            rw full (
              omega (
                arith,
                ap (λ (es : List ClientExtension). encoded_len (record chp { extensions = es }))
                    unchanged,
                zero_len,
              ))
        | inr short ↦ rw short (resized-IsPadded laws chp padlen blank refl)
      ]

  overwrite_payload-IsPadded :
      (laws : PaddingLaws r) (fp : FingerprintSpec) (chp chp' : ClientHello)
      (es : List ClientExtension) (pad : Bool) (source source' : grease.Source)
      → has_padding es ≡ true
      → overwrite_payload grease r fp chp (some (es, pad, source)) ≡ some (chp', source')
      → IsPadded chp'
  unfolding overwrite_payload
  overwrite_payload-IsPadded laws fp chp chp' es pad source source' h e =
      let start : Pass grease = record { grease_curves = []; source = source; pad = pad } in
      let passed = overwrite_extensions grease fp es start in
      let drafted : ClientHello = record chp {
        cipher_suites = assigned chp.cipher_suites (ciphers_of fp.ja3);
        extensions = passed.0;
      } in
      let flagged : passed.1.pad ≡ true =
        overwrite_extensions-pad grease fp es start ∙ ap (λ b. b || pad) h in
      let same : pad_hello grease r passed.1.pad drafted ≡ chp' = cc in
      let padded : pad_hello grease r true drafted ≡ chp' =
        ap (λ b. pad_hello grease r b drafted) (sym flagged) ∙ same in
      subst IsPadded padded
        (pad_hello-IsPadded laws drafted (overwrite_extensions-FirstBlank grease fp es start h))

  append_left-has_padding :
      (drop : Bool) (m : Option (List ClientExtension × List (ℕ × ClientExtension) × Bool))
      (source source' : grease.Source) (es : List ClientExtension) (pad : Bool)
      → ((new : List ClientExtension) (left : List (ℕ × ClientExtension)) (p : Bool)
          → m ≡ some (new, left, p)
          → has_padding new ≡ true)
      → append_left grease r drop m source ≡ some (es, pad, source')
      → has_padding es ≡ true
  unfolding append_left
  append_left-has_padding drop none source source' es pad h e = absurd cc
  append_left-has_padding true (some (new, left, p)) source source' es pad h e =
      let same : new ≡ es = cc in sym (ap has_padding same) ∙ h new left p refl
  append_left-has_padding false (some (new, left, p)) source source' es pad h e =
      let same : new ++ r.into_values left ≡ es = cc in
      sym (ap has_padding same)
      ∙ has_padding-append new (r.into_values left)
      ∙ ap (λ b. b || has_padding (r.into_values left)) (h new left p refl)

  reorder_extensions-has_padding :
      (ja3 : Ja3) (drop : Bool) (old es : List ClientExtension) (pad : Bool)
      (source source' : grease.Source)
      → times padding (map r.get_type old) ≡ 0
      → 0 < times padding (grease.extensions_regreasing ja3.extensions source).0
      → reorder_extensions grease r true drop (some ja3) old source ≡ some (es, pad, source')
      → has_padding es ≡ true
  unfolding reorder_extensions
  reorder_extensions-has_padding ja3 drop old es pad source source' none_old listed e =
      let (types, after) = grease.extensions_regreasing ja3.extensions source in
      let filed = collect_into r.get_type old [] in
      let none_filed : times padding (keys filed) ≡ 0 =
        ground (arith, times-collect_into padding r.get_type old [], none_old) in
      append_left-has_padding drop (match_order true types filed false) after source' es pad
        (λ new left p m. match_order-has_padding types filed left false p new none_filed listed m) e

  overwrite_hello-IsPadded :
      (laws : PaddingLaws r) (fp : FingerprintSpec) (ja3 : Ja3) (drop : Bool)
      (chp chp' : ClientHello) (source source' : grease.Source)
      → fp.ja3 ≡ some ja3
      → times padding (map r.get_type chp.extensions) ≡ 0
      → 0 < times padding (grease.extensions_regreasing ja3.extensions source).0
      → overwrite_hello grease r fp true drop chp source ≡ some (chp', source')
      → IsPadded chp'
  unfolding overwrite_hello overwrite_payload
  overwrite_hello-IsPadded laws fp ja3 drop chp chp' source source' j none_old listed e =
      let reordered = reorder_extensions grease r true drop (some ja3) chp.extensions source in
      let run : overwrite_payload grease r fp chp reordered ≡ some (chp', source') =
        ap
          (λ q.
            overwrite_payload grease r fp chp
              (reorder_extensions grease r true drop q chp.extensions source))
          (sym j)
        ∙ e in
      elim (Option-cases reordered) [
        | inl fails ↦ absurd (let gone = ap (overwrite_payload grease r fp chp) fails in cc)
        | inr ((es, pad, after), made) ↦
            overwrite_payload-IsPadded laws fp chp chp' es pad after source'
              (reorder_extensions-has_padding ja3 drop chp.extensions es pad source after none_old
                listed made)
              (sym (ap (overwrite_payload grease r fp chp) made) ∙ run)
      ]

  encode_hello-some :
      (version : ℕ) (o : Option (ClientHello × grease.Source)) (msg : Message) (allowed : List ℕ)
      (source : grease.Source)
      → encode_hello grease r version o ≡ some (msg, allowed, source)
      → (chp : ClientHello) × (o ≡ some (chp, source))
        × (msg.payload ≡ handshake (client_hello chp) (get_encoding (client_hello chp)))
  unfolding encode_hello
  encode_hello-some version none msg allowed source e = absurd cc
  encode_hello-some version (some (chp, source')) msg allowed source e = (chp, cc, cc)

  -- Where the JA3 lists the padding extension, and the hello has none, and missing extensions are
  -- added, the overwritten message holds a hello, in both of its forms, that is as long as it is
  -- with its padding emptied, or 512 bytes, whichever is more.
  pub overwrite_client_hello-IsPadded :
      (laws : PaddingLaws r) (fp : FingerprintSpec) (ja3 : Ja3) (drop : Bool) (msg msg' : Message)
      (chp : ClientHello) (encoded allowed : List ℕ) (source source' : grease.Source)
      → fp.ja3 ≡ some ja3
      → msg.payload ≡ handshake (client_hello chp) encoded
      → times padding (map r.get_type chp.extensions) ≡ 0
      → 0 < times padding (grease.extensions_regreasing ja3.extensions source).0
      → overwrite_client_hello_with_fingerprint_spec grease r msg fp true drop source
        ≡ some (msg', allowed, source')
      → (chp' : ClientHello) × (msg'.payload
          ≡ handshake (client_hello chp') (get_encoding (client_hello chp')))
        × IsPadded chp'
  unfolding overwrite_client_hello_with_fingerprint_spec overwrite_message
  overwrite_client_hello-IsPadded laws fp ja3 drop msg msg' chp encoded allowed source source' j m
        none_old listed e =
      let version = assigned msg.version (version_of fp.ja3) in
      let run : encode_hello grease r version (overwrite_hello grease r fp true drop chp source)
          ≡ some (msg', allowed, source') =
        ap (λ p. overwrite_message grease r fp true drop version p source) (sym m) ∙ e in
      let (chp', made, stored) =
        encode_hello-some version (overwrite_hello grease r fp true drop chp source) msg' allowed
          source' run in
      (
        chp',
        stored,
        overwrite_hello-IsPadded laws fp ja3 drop chp chp' source source' j none_old listed made,
      )
