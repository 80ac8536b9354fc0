-- ===== src/Tunnel/Fingerprint/Offers.antt =====
-- tunnel/src/fp.rs: what the second pass makes of the groups and the key shares of a hello.
use noisy_shuttle.Base.{
  ℕ, ◌<◌, ◌≡◌, ◌==◌, refl, sym, ap, ◌∙◌, Bool, true, false, List, [], ◌∷◌, ◌++◌, Option, none, some,
  Bool-cases, inl, inr, All, subst,
}
use noisy_shuttle.Tunnel.Fingerprint.{
  Ja3, FingerprintSpec, KeyShareEntry, ClientExtension, named_groups, ec_point_formats, protocols,
  supported_versions, signature_algorithms, key_share, unknown, other, Grease, padding,
}
use noisy_shuttle.Tunnel.Fingerprint.Values.{
  Pass, draw, next_grease, groups_for, overwrite_groups, overwrite_entries, regrease_all,
  overwrite_values, overwrite_extension, overwrite_extensions, put_front,
}
use noisy_shuttle.Tunnel.Fingerprint.Alpn.{times}
use noisy_shuttle.Tunnel.Fingerprint.Shares.{Covers, overwrite_entries-offered}

-- The groups that a hello offers, and those of its key shares.
abbrev pub offered : List ClientExtension → List ℕ
offered [] = []
offered (named_groups groups ∷ es) = groups
offered (ec_point_formats x ∷ es) = offered es
offered (_ ∷ es) = offered es

abbrev pub shared : List ClientExtension → List KeyShareEntry
shared [] = []
shared (key_share entries ∷ es) = entries
shared (ec_point_formats x ∷ es) = shared es
shared (_ ∷ es) = shared es

-- An extension of another kind.
abbrev pub is_plain : ClientExtension → Bool
is_plain (named_groups x) = false
is_plain (key_share x) = false
is_plain (ec_point_formats x) = true
is_plain _ = true

module _ (grease : Grease) where
  open grease use {is_grease_u16_be}

  regrease_all-greases :
      (vs : List ℕ) (pass : Pass grease)
      → (regrease_all grease vs pass).1.grease_curves ≡ pass.grease_curves
  unfolding regrease_all put_front
  regrease_all-greases [] pass = refl
  regrease_all-greases (v ∷ vs) pass = regrease_all-greases vs _

  overwrite_values-greases :
      (new : Option (List ℕ)) (old : List ℕ) (pass : Pass grease)
      → (overwrite_values grease new old pass).1.grease_curves ≡ pass.grease_curves
  unfolding overwrite_values
  overwrite_values-greases none old pass = refl
  overwrite_values-greases (some new) old pass = regrease_all-greases new pass

  -- Such an extension stays one, and leaves the GREASE values alone.
  abbrev PassesBy : ClientExtension × Pass grease → Pass grease → Type 0
  PassesBy q pass =
      (q.1.grease_curves ≡ pass.grease_curves)
      × ((es : List ClientExtension)
          → (offered (q.0 ∷ es) ≡ offered es) × (shared (q.0 ∷ es) ≡ shared es))

  overwrite_extension-PassesBy :
      (fp : FingerprintSpec) (e : ClientExtension) (pass : Pass grease)
      → is_plain e ≡ true
      → PassesBy (overwrite_extension grease fp e pass) pass
  unfolding overwrite_extension
  overwrite_extension-PassesBy fp (named_groups x) pass h = absurd cc
  overwrite_extension-PassesBy fp (key_share x) pass h = absurd cc
  overwrite_extension-PassesBy fp (ec_point_formats x) pass h = (refl, λ es. (refl, refl))
  overwrite_extension-PassesBy fp (protocols x) pass h = (refl, λ es. (refl, refl))
  overwrite_extension-PassesBy fp (supported_versions x) pass h =
      (overwrite_values-greases fp.supported_versions x pass, λ es. (refl, refl))
  overwrite_extension-PassesBy fp (signature_algorithms x) pass h =
      (overwrite_values-greases fp.signature_algos x pass, λ es. (refl, refl))
  overwrite_extension-PassesBy fp (unknown typ x) pass h = elim (Bool-cases (typ == padding)) [
    | inl pads ↦ rw pads (refl, λ es. (refl, refl))
    | inr differs ↦ rw differs (refl, λ es. (refl, refl))
  ]
  overwrite_extension-PassesBy fp (other typ x) pass h = (refl, λ es. (refl, refl))

  -- Every key share is for a group that is offered.
  abbrev pub SharesOffered : (offer : List ℕ) → List KeyShareEntry → Type 0
  SharesOffered offer entries = All (λ e. 0 < times e.group offer) entries

  abbrev IsPlain : List ClientExtension → Type 0
  IsPlain = All (λ e. is_plain e ≡ true)

  shares_after_groups :
      (fp : FingerprintSpec) (ja3 : Ja3) (curves : List ℕ) (between behind : List ClientExtension)
      (entries : List KeyShareEntry) (pass pass' : Pass grease)
      → fp.keyshare_curves ≡ some curves
      → pass.grease_curves ≡ []
      → pass'.grease_curves ≡ (groups_for grease (draw grease) ja3.curves pass).1.grease_curves
      → All (λ e. is_grease_u16_be e.group ≡ false) entries
      → Covers grease ja3.curves curves
      → IsPlain between
      → SharesOffered (groups_for grease (draw grease) ja3.curves pass).0 (
          shared
            ((overwrite_extensions grease fp (between ++ (key_share entries ∷ behind)) pass').0))
  unfolding overwrite_extensions overwrite_extension put_front
  shares_after_groups fp ja3 curves [] behind entries pass pass' k start same fresh covers plain =
      let offer = (groups_for grease (draw grease) ja3.curves pass).0 in
      subst (λ c. SharesOffered offer (overwrite_entries grease c entries pass').0) (sym k)
        (overwrite_entries-offered grease ja3 curves entries pass pass' start same fresh covers)
  shares_after_groups fp ja3 curves (e ∷ between) behind entries pass pass' k start same fresh
        covers plain =
      let offer = (groups_for grease (draw grease) ja3.curves pass).0 in
      let (left, by) = overwrite_extension-PassesBy fp e pass' plain.0 in
      let after = (overwrite_extension grease fp e pass').1 in
      subst (SharesOffered offer) (sym (by _).1) (
        shares_after_groups fp ja3 curves between behind entries pass after k start (left ∙ same)
          fresh covers plain.1)

  -- Where the groups of a hello come before its key shares, with no others of either before or
  -- between them, and the JA3 has at least as many GREASE values as the curves of the fingerprint,
  -- and all the others of these: every key share that the second pass gives is for a group that it
  -- offers, GREASE values included, if the old key shares have no GREASE value and none was drawn
  -- before.
  pub overwrite_extensions-SharesOffered :
      (fp : FingerprintSpec) (ja3 : Ja3) (curves groups : List ℕ)
      (before between behind : List ClientExtension) (entries : List KeyShareEntry)
      (pass : Pass grease)
      → fp.ja3 ≡ some ja3
      → fp.keyshare_curves ≡ some curves
      → pass.grease_curves ≡ []
      → All (λ e. is_grease_u16_be e.group ≡ false) entries
      → Covers grease ja3.curves curves
      → IsPlain before
      → IsPlain between
      → SharesOffered
          (offered (
            (overwrite_extensions grease fp
              (before ++ (named_groups groups ∷ (between ++ (key_share entries ∷ behind))))
              pass).0))
          (shared (
            (overwrite_extensions grease fp
              (before ++ (named_groups groups ∷ (between ++ (key_share entries ∷ behind))))
              pass).0))
  unfolding overwrite_extensions overwrite_extension put_front overwrite_groups next_grease
  overwrite_extensions-SharesOffered fp ja3 curves groups [] between behind entries pass j k start
        fresh covers plain plain' =
      let drawn = groups_for grease (draw grease) ja3.curves pass in
      let q = overwrite_groups grease fp.ja3 groups pass in
      let made : q ≡ drawn =
        ap (λ o. overwrite_groups grease o groups pass) j
        ∙ ap (λ l. groups_for grease (next_grease grease l) ja3.curves pass) start in
      subst
        (λ o. SharesOffered o (
          shared
            ((overwrite_extensions grease fp (between ++ (key_share entries ∷ behind)) q.1).0)))
        (sym (ap (λ x. x.0) made))
        (shares_after_groups fp ja3 curves between behind entries pass q.1 k start
          (ap (λ x. x.1.grease_curves) made) fresh covers plain')
  overwrite_extensions-SharesOffered fp ja3 curves groups (e ∷ before) between behind entries pass j
        k start fresh covers plain plain' =
      let (left, by) = overwrite_extension-PassesBy fp e pass plain.0 in
      let after = (overwrite_extension grease fp e pass).1 in
      let rest =
        (overwrite_extensions grease fp
          (before ++ (named_groups groups ∷ (between ++ (key_share entries ∷ behind)))) after).0 in
      let (offers, shares) = by rest in
      subst (λ o. SharesOffered o (shared ((overwrite_extension grease fp e pass).0 ∷ rest)))
        (sym offers)
        (subst (SharesOffered (offered rest)) (sym shares) (
          overwrite_extensions-SharesOffered fp ja3 curves groups before between behind entries
            after j k (left ∙ start) fresh covers plain.1 plain'))
