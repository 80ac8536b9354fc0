-- ===== src/Tunnel/Fingerprint/Blank.antt =====
-- tunnel/src/fp.rs: the first padding of the extensions, which the second pass empties.
use noisy_shuttle.Base.{
  ℕ, ◌-◌, ◌<◌, ◌≡◌, ◌==◌, refl, ap, ◌∙◌, Bool, true, ◌&&◌, ◌||◌, List, [], ◌∷◌, ◌++◌, Option, none,
  some, arith, Bool-cases, inl, inr, length, zero, suc, take-nil,
}
use noisy_shuttle.Tunnel.Fingerprint.{
  FingerprintSpec, ClientExtension, named_groups, ec_point_formats, protocols, supported_versions,
  signature_algorithms, key_share, unknown, other, Grease, remove, extension_for, match_order,
  is_none, resize, resize_padding, zeros, padding, dummy_extension, dummy_payload,
}
use noisy_shuttle.Tunnel.Fingerprint.Values.{
  Pass, overwrite_extension, overwrite_extensions, put_front,
}
use noisy_shuttle.Tunnel.Fingerprint.Filed.{join_extensions-some}
use noisy_shuttle.Tunnel.Fingerprint.Alpn.{times, keys, remove-is_none, times-remove}
use noisy_shuttle.Tunnel.Fingerprint.Flag.{has_padding}

pub has_padding-append :
    (es fs : List ClientExtension) → has_padding (es ++ fs) ≡ (has_padding es || has_padding fs)
has_padding-append [] fs = refl
has_padding-append (e ∷ es) fs = ground (arith, has_padding-append es fs)

-- The first padding of a list, which is empty, and what resizing does to it.
abbrev pub FirstBlank : List ClientExtension → Type 0
FirstBlank es =
    (before : List ClientExtension) × (behind : List ClientExtension) × (es
      ≡ before ++ (unknown padding [] ∷ behind))
    × ((n : ℕ) (p : List ℕ)
        → resize_padding n (before ++ (unknown padding p ∷ behind))
          ≡ before ++ (unknown padding (resize n p) ∷ behind))

cons-FirstBlank :
    (e : ClientExtension) (es : List ClientExtension)
    → ((n : ℕ) (fs : List ClientExtension) → resize_padding n (e ∷ fs) ≡ e ∷ resize_padding n fs)
    → FirstBlank es
    → FirstBlank (e ∷ es)
cons-FirstBlank e es passes (before, behind, same, resized) = (
  e ∷ before,
  behind,
  ap (◌∷◌ e) same,
  λ n p. passes n (before ++ (unknown padding p ∷ behind)) ∙ ap (◌∷◌ e) (resized n p),
)

module _ (grease : Grease) where
  pub overwrite_extensions-FirstBlank :
      (fp : FingerprintSpec) (es : List ClientExtension) (pass : Pass grease)
      → has_padding es ≡ true
      → FirstBlank (overwrite_extensions grease fp es pass).0
  unfolding overwrite_extensions overwrite_extension put_front resize_padding
  overwrite_extensions-FirstBlank fp [] pass h = absurd cc
  overwrite_extensions-FirstBlank fp (unknown typ payload ∷ es) pass h =
      elim (Bool-cases (typ == padding)) [
        | inl pads ↦
            let is : typ ≡ padding = ground arith in
            let after : Pass grease = record pass { pad = true } in
            let rest = (overwrite_extensions grease fp es after).0 in
            rw pads ([], rest, ap (λ t. unknown t [] ∷ rest) is, λ n p. refl)
        | inr differs ↦ rw differs (
            cons-FirstBlank (unknown typ payload) _ (λ n fs. rw differs refl)
              (overwrite_extensions-FirstBlank fp es pass (ground arith)))
      ]
  overwrite_extensions-FirstBlank fp (named_groups x ∷ es) pass h =
      cons-FirstBlank _ _ (λ n fs. refl) (overwrite_extensions-FirstBlank fp es _ h)
  overwrite_extensions-FirstBlank fp (ec_point_formats x ∷ es) pass h =
      cons-FirstBlank _ _ (λ n fs. refl) (overwrite_extensions-FirstBlank fp es _ h)
  overwrite_extensions-FirstBlank fp (protocols x ∷ es) pass h =
      cons-FirstBlank _ _ (λ n fs. refl) (overwrite_extensions-FirstBlank fp es _ h)
  overwrite_extensions-FirstBlank fp (supported_versions x ∷ es) pass h =
      cons-FirstBlank _ _ (λ n fs. refl) (overwrite_extensions-FirstBlank fp es _ h)
  overwrite_extensions-FirstBlank fp (signature_algorithms x ∷ es) pass h =
      cons-FirstBlank _ _ (λ n fs. refl) (overwrite_extensions-FirstBlank fp es _ h)
  overwrite_extensions-FirstBlank fp (key_share x ∷ es) pass h =
      cons-FirstBlank _ _ (λ n fs. refl) (overwrite_extensions-FirstBlank fp es _ h)
  overwrite_extensions-FirstBlank fp (other typ x ∷ es) pass h =
      cons-FirstBlank _ _ (λ n fs. refl) (overwrite_extensions-FirstBlank fp es _ h)

extension_for-has_padding :
    (typ : ℕ) (found : Option ClientExtension) (here : List ClientExtension)
    → (typ == padding) ≡ true
    → is_none found ≡ true
    → extension_for true typ found ≡ some here
    → has_padding here ≡ true
unfolding extension_for dummy_payload dummy_extension
extension_for-has_padding typ none here is missing e = ground arith
extension_for-has_padding typ (some x) here is missing e = absurd cc

pub match_order-has_padding :
    (types : List ℕ) (old left : List (ℕ × ClientExtension)) (pad pad' : Bool)
    (new : List ClientExtension)
    → times padding (keys old) ≡ 0
    → 0 < times padding types
    → match_order true types old pad ≡ some (new, left, pad')
    → has_padding new ≡ true
unfolding match_order
match_order-has_padding [] old left pad pad' new none_old listed e = absurd (omega (arith, listed))
match_order-has_padding (typ ∷ types) old left pad pad' new none_old listed e =
    let removed = remove typ old in
    let pads = pad || (is_none removed.0 && (typ == padding)) in
    let (here, later, a, b, whole) =
      join_extensions-some (extension_for true typ removed.0)
        (match_order true types removed.1 pads) new left pad' e in
    let both = ap has_padding whole ∙ has_padding-append here later in
    elim (Bool-cases (typ == padding)) [
      | inl is ↦
          let missing : is_none removed.0 ≡ true =
            ground (arith, remove-is_none typ old, none_old) in
          let first = extension_for-has_padding typ removed.0 here is missing a in
          ground (arith, both, first)
      | inr differs ↦
          let rest =
            match_order-has_padding types removed.1 left pads pad' later
              (ground (arith, times-remove padding typ old)) (ground arith) b in
          ground (arith, both, rest)
    ]

pub resize_zero : (p : List ℕ) → resize 0 p ≡ []
unfolding resize
resize_zero p = ap zeros {x = 0 - length p} {y = 0} (omega arith)

length-zeros : (n : ℕ) → length (zeros n) ≡ n
length-zeros zero = omega arith
length-zeros (suc n) = omega (arith, length-zeros n)

pub length-resize_nil : (n : ℕ) → length (resize n []) ≡ n
unfolding resize
length-resize_nil n =
    ap (λ l. length (l ++ zeros (n - 0))) (take-nil n) ∙ length-zeros (n - 0) ∙ omega arith
