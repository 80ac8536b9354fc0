-- ===== src/Tunnel/Fingerprint/Filed.antt =====
-- tunnel/src/fp.rs: the extensions of a hello under their types, and the first pass over them.
use mathlib.Core.List.{map-append}
use noisy_shuttle.Base.{
  ℕ, ◌≡◌, ◌==◌, refl, sym, ap, ◌∙◌, Bool, true, List, [], ◌∷◌, ◌++◌, map, Option, none, some, All,
  ◌||◌, ◌&&◌, arith, Bool-cases, inl, inr,
}
use noisy_shuttle.Tunnel.Fingerprint.{
  KeyShareEntry, ClientExtension, named_groups, ec_point_formats, protocols, supported_versions,
  signature_algorithms, key_share, unknown, Rustls, insert, collect_into, keep_entry, remove,
  dummy_payload, dummy_extension, extension_for, join_extensions, match_order, padding, is_none,
}

-- rustls: the type of an extension is that of its variant.
pub record Typed (r : Rustls) : Type 0 where
  pub type_named_groups : (groups : List ℕ) → r.get_type (named_groups groups) ≡ 0x000a
  pub type_ec_point_formats : (formats : List ℕ) → r.get_type (ec_point_formats formats) ≡ 0x000b
  pub type_protocols : (alpn : List (List ℕ)) → r.get_type (protocols alpn) ≡ 0x0010
  pub type_supported_versions : (vers : List ℕ) → r.get_type (supported_versions vers) ≡ 0x002b
  pub type_signature_algorithms :
      (algos : List ℕ) → r.get_type (signature_algorithms algos) ≡ 0x000d
  pub type_key_share : (entries : List KeyShareEntry) → r.get_type (key_share entries) ≡ 0x0033
  pub type_unknown : (typ : ℕ) (payload : List ℕ) → r.get_type (unknown typ payload) ≡ typ

module _ (r : Rustls) where
  open r use {get_type}

  -- Each extension stands under its type.
  abbrev pub Filed : List (ℕ × ClientExtension) → Type 0
  Filed = All (λ entry. get_type entry.1 ≡ entry.0)

  insert-Filed :
      (e : ClientExtension) (m : List (ℕ × ClientExtension))
      → Filed m
      → Filed (insert (get_type e) e m)
  unfolding insert
  insert-Filed e [] h = (refl, tt)
  insert-Filed e ((j, w) ∷ m) h = elim (Bool-cases (j == get_type e)) [
    | inl same ↦ rw same (refl, h.1)
    | inr differs ↦ rw differs (h.0, insert-Filed e m h.1)
  ]

  pub collect-Filed :
      (es : List ClientExtension) (m : List (ℕ × ClientExtension))
      → Filed m
      → Filed (collect_into get_type es m)
  unfolding collect_into
  collect-Filed [] m h = h
  collect-Filed (e ∷ es) m h = collect-Filed es (insert (get_type e) e m) (insert-Filed e m h)

  -- What is found under a type has it.
  abbrev FoundAs : ℕ → Option ClientExtension → Type 0
  FoundAs typ none = Unit {0}
  FoundAs typ (some e) = get_type e ≡ typ

  remove-Filed :
      (typ : ℕ) (m : List (ℕ × ClientExtension))
      → Filed m
      → FoundAs typ (remove typ m).0 × Filed (remove typ m).1
  unfolding remove keep_entry
  remove-Filed typ [] h = (tt, tt)
  remove-Filed typ ((j, w) ∷ m) h = elim (Bool-cases (j == typ)) [
    | inl same ↦ let is : j ≡ typ = ground arith in rw same (h.0 ∙ is, h.1)
    | inr differs ↦ let (found, left) = remove-Filed typ m h.1 in rw differs (found, (h.0, left))
  ]

pub join_extensions-some :
    (a : Option (List ClientExtension))
    (b : Option (List ClientExtension × List (ℕ × ClientExtension) × Bool))
    (new : List ClientExtension) (left : List (ℕ × ClientExtension)) (pad : Bool)
    → join_extensions a b ≡ some (new, left, pad)
    → (here : List ClientExtension) × (later : List ClientExtension) × (a ≡ some here)
      × (b ≡ some (later, left, pad))
      × (new ≡ here ++ later)
unfolding join_extensions
join_extensions-some none b new left pad e = absurd cc
join_extensions-some (some here) none new left pad e = absurd cc
join_extensions-some (some here) (some (later, left', pad')) new left pad e =
    (here, later, refl, cc, cc)

module _ (r : Rustls) (laws : Typed r) where
  open r use {get_type}

  dummy_extension-type :
      (typ : ℕ) (payload : Option (List ℕ)) (here : List ClientExtension)
      → dummy_extension typ payload ≡ some here
      → map get_type here ≡ typ ∷ []
  unfolding dummy_extension
  dummy_extension-type typ none here e = absurd cc
  dummy_extension-type typ (some payload) here e =
      let one : unknown typ payload ∷ [] ≡ here = cc in
      ap (map get_type) (sym one) ∙ ap (λ t. t ∷ []) (laws.type_unknown typ payload)

  extension_for-type :
      (typ : ℕ) (found : Option ClientExtension) (here : List ClientExtension)
      → FoundAs r typ found
      → extension_for true typ found ≡ some here
      → map get_type here ≡ typ ∷ []
  unfolding extension_for
  extension_for-type typ none here f e = dummy_extension-type typ (dummy_payload typ) here e
  extension_for-type typ (some extension) here f e =
      let one : extension ∷ [] ≡ here = cc in ap (map get_type) (sym one) ∙ ap (λ t. t ∷ []) f

  pub match_order-types :
      (types : List ℕ) (old left : List (ℕ × ClientExtension)) (pad pad' : Bool)
      (new : List ClientExtension)
      → Filed r old
      → match_order true types old pad ≡ some (new, left, pad')
      → map get_type new ≡ types
  unfolding match_order
  match_order-types [] old left pad pad' new h e =
      let none_left : [] ≡ new = cc in ap (map get_type) (sym none_left)
  match_order-types (typ ∷ types) old left pad pad' new h e =
      let removed = remove typ old in
      let (found, filed) = remove-Filed r typ old h in
      let (here, later, a, b, whole) =
        join_extensions-some (extension_for true typ removed.0)
          (match_order true types removed.1 (pad || (is_none removed.0 && (typ == padding)))) new
          left pad' e in
      ap (map get_type) whole
      ∙ map-append get_type here later
      ∙ ap (λ l. l ++ map get_type later) (extension_for-type typ removed.0 here found a)
      ∙ ap (◌∷◌ typ) (
          match_order-types types removed.1 left (pad || (is_none removed.0 && (typ == padding)))
            pad' later filed b)
