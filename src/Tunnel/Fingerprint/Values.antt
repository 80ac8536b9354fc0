-- ===== src/Tunnel/Fingerprint/Values.antt =====
-- tunnel/src/fp.rs: the second pass of `overwrite_client_hello_with_fingerprint_spec`, over the
-- values of the extensions. `grease_curves` has its last element first.
use noisy_shuttle.Base.{ℕ, ◌==◌, if◌then◌else◌, Bool, true, List, [], ◌∷◌, Option, none, some}
use noisy_shuttle.Tunnel.Fingerprint.{
  Ja3, FingerprintSpec, KeyShareEntry, ClientExtension, named_groups, ec_point_formats, protocols,
  supported_versions, signature_algorithms, key_share, unknown, other, Grease, padding, assigned,
  collect_into, remove,
}

module _ (grease : Grease) where
  open grease use {Source, is_grease_u16_be, grease_u16_be, try_regrease_u16_be}

  -- What the pass carries along: `grease_curves`, the source, and `pad_per_rfc7685`.
  pub record Pass : Type 0 where
    pub grease_curves : List ℕ
    pub source : Source
    pub pad : Bool

  -- A GREASE value is drawn and pushed.
  unfoldable pub draw : Pass → ℕ × Pass
  draw pass =
      let (g, source) = grease_u16_be pass.source in
      (g, record pass { grease_curves = g ∷ pass.grease_curves; source = source })

  -- One is popped; or drawn, and not pushed, when none is left.
  unfoldable pub pop_from : List ℕ → Pass → ℕ × Pass
  pop_from [] pass =
      let (g, source) = grease_u16_be pass.source in (g, record pass { source = source })
  pop_from (g ∷ greases) pass = (g, record pass { grease_curves = greases })

  unfoldable pub pop : Pass → ℕ × Pass
  pop pass = pop_from pass.grease_curves pass

  -- `grease_curves.is_empty()`, on which each of the two lists of curves branches once.
  unfoldable pub next_grease : List ℕ → Pass → ℕ × Pass
  next_grease [] = draw
  next_grease (g ∷ greases) = pop

  unfoldable pub curve_for : (Pass → ℕ × Pass) → ℕ → Pass → ℕ × Pass
  curve_for next curve pass = if is_grease_u16_be curve then next pass else (curve, pass)

  unfoldable pub put_front {ℓ} : {A : Type ℓ} → A → List A × Pass → List A × Pass
  put_front a (l, pass) = (a ∷ l, pass)

  -- The groups of the JA3.
  unfoldable pub groups_for : (Pass → ℕ × Pass) → List ℕ → Pass → List ℕ × Pass
  groups_for next [] pass = ([], pass)
  groups_for next (curve ∷ curves) pass =
      let (group, after) = curve_for next curve pass in
      put_front group (groups_for next curves after)

  unfoldable pub overwrite_groups : Option Ja3 → List ℕ → Pass → List ℕ × Pass
  overwrite_groups none groups pass = (groups, pass)
  overwrite_groups (some ja3) groups pass =
      groups_for (next_grease pass.grease_curves) ja3.curves pass

  -- The entry of a curve: that of the message, or one with a payload of one zero.
  unfoldable pub entry_for :
      (Pass → ℕ × Pass) → ℕ → Option KeyShareEntry → Pass → KeyShareEntry × Pass
  entry_for next curve (some entry) pass = (entry, pass)
  entry_for next curve none pass =
      let (group, after) = curve_for next curve pass in
      (record { group = group; payload = 0x00 ∷ [] }, after)

  unfoldable pub entries_for :
      (Pass → ℕ × Pass) → List ℕ → List (ℕ × KeyShareEntry) → Pass → List KeyShareEntry × Pass
  entries_for next [] old pass = ([], pass)
  entries_for next (curve ∷ curves) old pass =
      let (found, left) = remove curve old in
      let (entry, after) = entry_for next curve found pass in
      put_front entry (entries_for next curves left after)

  unfoldable pub overwrite_entries :
      Option (List ℕ) → List KeyShareEntry → Pass → List KeyShareEntry × Pass
  overwrite_entries none entries pass = (entries, pass)
  overwrite_entries (some curves) entries pass =
      entries_for (next_grease pass.grease_curves) curves
        (collect_into (λ entry. entry.group) entries []) pass

  -- `try_regrease_u16_be` of each value.
  unfoldable pub regrease_all : List ℕ → Pass → List ℕ × Pass
  regrease_all [] pass = ([], pass)
  regrease_all (v ∷ vs) pass =
      let (w, source) = try_regrease_u16_be v pass.source in
      put_front w (regrease_all vs (record pass { source = source }))

  unfoldable pub overwrite_values : Option (List ℕ) → List ℕ → Pass → List ℕ × Pass
  overwrite_values none old pass = (old, pass)
  overwrite_values (some new) old pass = regrease_all new pass

  abbrev pub with_values : {A : Type 0} → (A → ClientExtension) → A × Pass → ClientExtension × Pass
  with_values make (a, pass) = (make a, pass)

  abbrev point_formats : Option Ja3 → Option (List ℕ)
  point_formats none = none
  point_formats (some ja3) = some ja3.point_formats

  unfoldable pub overwrite_extension :
      FingerprintSpec → ClientExtension → Pass → ClientExtension × Pass
  overwrite_extension fp (named_groups groups) pass =
      with_values named_groups (overwrite_groups fp.ja3 groups pass)
  overwrite_extension fp (ec_point_formats formats) pass =
      (ec_point_formats (assigned formats (point_formats fp.ja3)), pass)
  overwrite_extension fp (protocols alpn) pass = (protocols (assigned alpn fp.alpn), pass)
  overwrite_extension fp (supported_versions vers) pass =
      with_values supported_versions (overwrite_values fp.supported_versions vers pass)
  overwrite_extension fp (signature_algorithms algos) pass =
      with_values signature_algorithms (overwrite_values fp.signature_algos algos pass)
  overwrite_extension fp (key_share entries) pass =
      with_values key_share (overwrite_entries fp.keyshare_curves entries pass)
  overwrite_extension fp (unknown typ payload) pass =
      if typ == padding
      then (unknown typ [], record pass { pad = true })
      else (unknown typ payload, pass)
  overwrite_extension fp (other typ content) pass = (other typ content, pass)

  unfoldable pub overwrite_extensions :
      FingerprintSpec → List ClientExtension → Pass → List ClientExtension × Pass
  overwrite_extensions fp [] pass = ([], pass)
  overwrite_extensions fp (extension ∷ extensions) pass =
      let (new, after) = overwrite_extension fp extension pass in
      put_front new (overwrite_extensions fp extensions after)
