-- ===== src/Tunnel/Fingerprint/Alpn.antt =====
-- tunnel/src/fp.rs: when overwriting a ClientHello panics for want of the ALPN extension.
use noisy_shuttle.Base.{
  ℕ, ◌+◌, ◌-◌, ◌<◌, ◌≡◌, ◌==◌, ◌↔◌, refl, sym, ap, ◌∙◌, Bool, true, false, ◌&&◌, ◌||◌, List, [],
  ◌∷◌, map, max, Option, none, some, arith, if◌then◌else◌, ltb, ltb→lt, lt→ltb,
}
use noisy_shuttle.Tunnel.Fingerprint.{
  Ja3, FingerprintSpec, ClientExtension, ClientHello, Grease, Rustls, insert, collect_into,
  keep_entry, remove, al_protocol_negotiation, dummy_payload, dummy_extension, extension_for,
  join_extensions, match_order, padding, is_none,
}
use noisy_shuttle.Tunnel.Fingerprint.Overwrite.{
  append_left, reorder_extensions, overwrite_payload, overwrite_hello,
}

ltb_iff : (a b : ℕ) → (ltb a b ≡ true) ↔ (a < b)
ltb_iff a b = (ltb→lt a b, lt→ltb a b)

-- How often a type is in a list.
abbrev pub times : ℕ → List ℕ → ℕ
times k [] = 0
times k (x ∷ xs) = (if x == k then 1 else 0) + times k xs

abbrev pub keys {ℓ} : {V : Type ℓ} → List (ℕ × V) → List ℕ
keys [] = []
keys ((k, v) ∷ m) = k ∷ keys m

is_none_iff {ℓ} : {A : Type ℓ} (o : Option A) → (is_none o ≡ true) ↔ (o ≡ none)
is_none_iff none = (λ h. refl, λ h. refl)
is_none_iff (some a) = (λ h. cc, λ h. cc)

module _ {ℓ} {V : Type ℓ} where
  times-insert :
      (j k : ℕ) (v : V) (m : List (ℕ × V))
      → times j (keys (insert k v m))
        ≡ (if k == j then max 1 (times j (keys m)) else times j (keys m))
  unfolding insert
  times-insert j k v [] = ground arith
  times-insert j k v ((i, w) ∷ m) = ground (arith, times-insert j k v m)

  pub times-collect_into :
      (j : ℕ) (key : V → ℕ) (vs : List V) (m : List (ℕ × V))
      → times j (keys (collect_into key vs m))
        ≡ (if times j (map key vs) == 0 then times j (keys m) else max 1 (times j (keys m)))
  unfolding collect_into
  times-collect_into j key [] m = refl
  times-collect_into j key (v ∷ vs) m =
      ground (arith, times-collect_into j key vs (insert (key v) v m), times-insert j (key v) v m)

  pub remove-is_none : (k : ℕ) (m : List (ℕ × V)) → is_none (remove k m).0 ≡ (times k (keys m) == 0)
  unfolding remove keep_entry
  remove-is_none k [] = refl
  remove-is_none k ((i, w) ∷ m) = ground (arith, remove-is_none k m)

  pub times-remove :
      (j k : ℕ) (m : List (ℕ × V))
      → times j (keys (remove k m).1) ≡ (if j == k then times j (keys m) - 1 else times j (keys m))
  unfolding remove keep_entry
  times-remove j k [] = ground arith
  times-remove j k ((i, w) ∷ m) = ground (arith, times-remove j k m)

join_extensions-is_none :
    (a : Option (List ClientExtension))
    (b : Option (List ClientExtension × List (ℕ × ClientExtension) × Bool))
    → is_none (join_extensions a b) ≡ (is_none a || is_none b)
unfolding join_extensions
join_extensions-is_none none b = refl
join_extensions-is_none (some a) none = refl
join_extensions-is_none (some a) (some (later, left, pad)) = refl

dummy_extension-is_none :
    (typ : ℕ) (p : Option (List ℕ)) → is_none (dummy_extension typ p) ≡ is_none p
unfolding dummy_extension
dummy_extension-is_none typ none = refl
dummy_extension-is_none typ (some p) = refl

dummy_payload-is_none : (typ : ℕ) → is_none (dummy_payload typ) ≡ (typ == al_protocol_negotiation)
unfolding dummy_payload
dummy_payload-is_none typ = ground arith

extension_for-is_none :
    (typ : ℕ) (found : Option ClientExtension)
    → is_none (extension_for true typ found) ≡ (is_none found && typ == al_protocol_negotiation)
unfolding extension_for
extension_for-is_none typ none =
    dummy_extension-is_none typ (dummy_payload typ) ∙ dummy_payload-is_none typ
extension_for-is_none typ (some e) = refl

match_order-is_none :
    (types : List ℕ) (old : List (ℕ × ClientExtension)) (pad : Bool)
    → is_none (match_order true types old pad)
      ≡ ltb (times al_protocol_negotiation (keys old)) (times al_protocol_negotiation types)
unfolding match_order
match_order-is_none [] old pad = ground arith
match_order-is_none (typ ∷ types) old pad =
    let removed = remove typ old in
    let pad' = pad || (is_none removed.0 && (typ == padding)) in
    join_extensions-is_none (extension_for true typ removed.0)
      (match_order true types removed.1 pad')
    ∙ ground (
      arith,
      extension_for-is_none typ removed.0,
      remove-is_none typ old,
      times-remove al_protocol_negotiation typ old,
      match_order-is_none types removed.1 pad',
    )

module _ (grease : Grease) (r : Rustls) where
  open grease use {Source, extensions_regreasing}
  open r use {get_type}

  append_left-is_none :
      (drop : Bool) (m : Option (List ClientExtension × List (ℕ × ClientExtension) × Bool))
      (source : Source)
      → is_none (append_left grease r drop m source) ≡ is_none m
  unfolding append_left
  append_left-is_none drop none source = refl
  append_left-is_none drop (some (new, left, pad)) source = refl

  overwrite_payload-is_none :
      (fp : FingerprintSpec) (chp : ClientHello) (q : Option (List ClientExtension × Bool × Source))
      → is_none (overwrite_payload grease r fp chp q) ≡ is_none q
  unfolding overwrite_payload
  overwrite_payload-is_none fp chp none = refl
  overwrite_payload-is_none fp chp (some (es, pad, source)) = refl

  -- How often the hello can give its ALPN extension.
  abbrev pub held : ClientHello → ℕ
  held chp = if times al_protocol_negotiation (map get_type chp.extensions) == 0 then 0 else 1

  -- With missing extensions added, making a hello look like that of a JA3 panics exactly when the
  -- JA3 lists the ALPN extension though the hello has none, or lists it more than once; no other one
  -- that is missing does that.
  pub overwrite_hello-panics_iff :
      (fp : FingerprintSpec) (ja3 : Ja3) (drop : Bool) (chp : ClientHello) (source : Source)
      → fp.ja3 ≡ some ja3
      → (overwrite_hello grease r fp true drop chp source ≡ none)
        ↔ (held chp < times al_protocol_negotiation (extensions_regreasing ja3.extensions source).0)
  unfolding overwrite_hello reorder_extensions
  overwrite_hello-panics_iff fp ja3 drop chp source j =
      let regreased = extensions_regreasing ja3.extensions source in
      let old = collect_into get_type chp.extensions [] in
      let matched = match_order true regreased.0 old false in
      let run : is_none (overwrite_hello grease r fp true drop chp source)
          ≡ ltb (held chp) (times al_protocol_negotiation regreased.0) =
        overwrite_payload-is_none fp chp
          (reorder_extensions grease r true drop fp.ja3 chp.extensions source)
        ∙ ap (λ q. is_none (reorder_extensions grease r true drop q chp.extensions source)) j
        ∙ append_left-is_none drop matched regreased.1
        ∙ match_order-is_none regreased.0 old false
        ∙ ap (λ n. ltb n (times al_protocol_negotiation regreased.0))
            (times-collect_into al_protocol_negotiation get_type chp.extensions []) in
      let decided = is_none_iff (overwrite_hello grease r fp true drop chp source) in
      let order = ltb_iff (held chp) (times al_protocol_negotiation regreased.0) in
      (λ e. order.0 (sym run ∙ decided.1 e), λ less. decided.0 (run ∙ order.1 less))
