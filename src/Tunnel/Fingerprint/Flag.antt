-- ===== src/Tunnel/Fingerprint/Flag.antt =====
-- tunnel/src/fp.rs: when the second pass sets `pad_per_rfc7685`.
use noisy_shuttle.Base.{
  ℕ, ◌≡◌, ◌==◌, refl, ◌∙◌, Bool, false, ◌||◌, List, [], ◌∷◌, Option, none, some, arith, Bool-cases,
  inl, inr,
}
use noisy_shuttle.Tunnel.Fingerprint.{
  Ja3, FingerprintSpec, KeyShareEntry, ClientExtension, named_groups, ec_point_formats, protocols,
  supported_versions, signature_algorithms, key_share, unknown, other, Grease, remove, padding,
}
use noisy_shuttle.Tunnel.Fingerprint.Values.{
  Pass, draw, pop, pop_from, next_grease, curve_for, groups_for, overwrite_groups, entry_for,
  entries_for, overwrite_entries, regrease_all, overwrite_values, overwrite_extension,
  overwrite_extensions, put_front,
}

-- Whether there is a padding.
abbrev pub is_padding : ClientExtension → Bool
is_padding (unknown typ payload) = typ == padding
is_padding (named_groups x) = false
is_padding _ = false

abbrev pub has_padding : List ClientExtension → Bool
has_padding [] = false
has_padding (e ∷ es) = is_padding e || has_padding es

module _ (grease : Grease) where
  open grease use {Source, is_grease_u16_be}

  -- The flag of the padding is left alone by everything that draws.
  abbrev KeepsPad : {A : Type 0} → Pass grease → A × Pass grease → Type 0
  KeepsPad pass q = q.1.pad ≡ pass.pad

  pop_from-KeepsPad :
      (greases : List ℕ) (pass : Pass grease) → KeepsPad pass (pop_from grease greases pass)
  unfolding pop_from
  pop_from-KeepsPad [] pass = refl
  pop_from-KeepsPad (g ∷ greases) pass = refl

  next_grease-KeepsPad :
      (greases : List ℕ) (pass : Pass grease) → KeepsPad pass (next_grease grease greases pass)
  unfolding next_grease draw pop
  next_grease-KeepsPad [] pass = refl
  next_grease-KeepsPad (g ∷ greases) pass = pop_from-KeepsPad pass.grease_curves pass

  curve_for-KeepsPad :
      (greases : List ℕ) (curve : ℕ) (pass : Pass grease)
      → KeepsPad pass (curve_for grease (next_grease grease greases) curve pass)
  unfolding curve_for
  curve_for-KeepsPad greases curve pass = elim (Bool-cases (is_grease_u16_be curve)) [
    | inl drawn ↦ rw drawn (next_grease-KeepsPad greases pass)
    | inr kept ↦ rw kept refl
  ]

  groups_for-KeepsPad :
      (greases curves : List ℕ) (pass : Pass grease)
      → KeepsPad pass (groups_for grease (next_grease grease greases) curves pass)
  unfolding groups_for put_front
  groups_for-KeepsPad greases [] pass = refl
  groups_for-KeepsPad greases (curve ∷ curves) pass =
      groups_for-KeepsPad greases curves
        (curve_for grease (next_grease grease greases) curve pass).1
      ∙ curve_for-KeepsPad greases curve pass

  entry_for-KeepsPad :
      (greases : List ℕ) (curve : ℕ) (found : Option KeyShareEntry) (pass : Pass grease)
      → KeepsPad pass (entry_for grease (next_grease grease greases) curve found pass)
  unfolding entry_for
  entry_for-KeepsPad greases curve none pass = curve_for-KeepsPad greases curve pass
  entry_for-KeepsPad greases curve (some entry) pass = refl

  entries_for-KeepsPad :
      (greases curves : List ℕ) (old : List (ℕ × KeyShareEntry)) (pass : Pass grease)
      → KeepsPad pass (entries_for grease (next_grease grease greases) curves old pass)
  unfolding entries_for put_front
  entries_for-KeepsPad greases [] old pass = refl
  entries_for-KeepsPad greases (curve ∷ curves) old pass =
      entries_for-KeepsPad greases curves (remove curve old).1
        (entry_for grease (next_grease grease greases) curve (remove curve old).0 pass).1
      ∙ entry_for-KeepsPad greases curve (remove curve old).0 pass

  regrease_all-KeepsPad :
      (vs : List ℕ) (pass : Pass grease) → KeepsPad pass (regrease_all grease vs pass)
  unfolding regrease_all put_front
  regrease_all-KeepsPad [] pass = refl
  regrease_all-KeepsPad (v ∷ vs) pass = regrease_all-KeepsPad vs _

  overwrite_groups-KeepsPad :
      (ja3 : Option Ja3) (groups : List ℕ) (pass : Pass grease)
      → KeepsPad pass (overwrite_groups grease ja3 groups pass)
  unfolding overwrite_groups
  overwrite_groups-KeepsPad none groups pass = refl
  overwrite_groups-KeepsPad (some ja3) groups pass =
      groups_for-KeepsPad pass.grease_curves ja3.curves pass

  overwrite_entries-KeepsPad :
      (curves : Option (List ℕ)) (entries : List KeyShareEntry) (pass : Pass grease)
      → KeepsPad pass (overwrite_entries grease curves entries pass)
  unfolding overwrite_entries
  overwrite_entries-KeepsPad none entries pass = refl
  overwrite_entries-KeepsPad (some curves) entries pass =
      entries_for-KeepsPad pass.grease_curves curves _ pass

  overwrite_values-KeepsPad :
      (new : Option (List ℕ)) (old : List ℕ) (pass : Pass grease)
      → KeepsPad pass (overwrite_values grease new old pass)
  unfolding overwrite_values
  overwrite_values-KeepsPad none old pass = refl
  overwrite_values-KeepsPad (some new) old pass = regrease_all-KeepsPad new pass

  overwrite_extension-pad :
      (fp : FingerprintSpec) (e : ClientExtension) (pass : Pass grease)
      → (overwrite_extension grease fp e pass).1.pad ≡ (is_padding e || pass.pad)
  unfolding overwrite_extension
  overwrite_extension-pad fp (named_groups groups) pass =
      overwrite_groups-KeepsPad fp.ja3 groups pass
  overwrite_extension-pad fp (ec_point_formats formats) pass = refl
  overwrite_extension-pad fp (protocols alpn) pass = refl
  overwrite_extension-pad fp (supported_versions vers) pass =
      overwrite_values-KeepsPad fp.supported_versions vers pass
  overwrite_extension-pad fp (signature_algorithms algos) pass =
      overwrite_values-KeepsPad fp.signature_algos algos pass
  overwrite_extension-pad fp (key_share entries) pass =
      overwrite_entries-KeepsPad fp.keyshare_curves entries pass
  overwrite_extension-pad fp (unknown typ payload) pass = ground arith
  overwrite_extension-pad fp (other typ content) pass = refl

  pub overwrite_extensions-pad :
      (fp : FingerprintSpec) (es : List ClientExtension) (pass : Pass grease)
      → (overwrite_extensions grease fp es pass).1.pad ≡ (has_padding es || pass.pad)
  unfolding overwrite_extensions put_front
  overwrite_extensions-pad fp [] pass = refl
  overwrite_extensions-pad fp (e ∷ es) pass =
      let after = (overwrite_extension grease fp e pass).1 in
      ground (arith, overwrite_extensions-pad fp es after, overwrite_extension-pad fp e pass)
