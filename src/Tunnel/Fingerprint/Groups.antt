-- ===== src/Tunnel/Fingerprint/Groups.antt =====
-- tunnel/src/fp.rs: the GREASE values that are drawn for the groups, and the old key shares.
use noisy_shuttle.Base.{
  ℕ, ◌+◌, ◌<◌, ◌≡◌, ◌==◌, refl, sym, ap, ◌∙◌, Bool, false, List, [], ◌∷◌, Option, none, some, arith,
  Bool-cases, inl, inr, length, All, if◌then◌else◌,
}
use noisy_shuttle.Tunnel.Fingerprint.{
  KeyShareEntry, Grease, insert, collect_into, keep_entry, remove,
}
use noisy_shuttle.Tunnel.Fingerprint.Values.{Pass, draw, curve_for, groups_for, put_front}
use noisy_shuttle.Tunnel.Fingerprint.Alpn.{times}

-- Each entry stands under its group, and none is a GREASE value.
module _ (is_grease : ℕ → Bool) where
  abbrev pub IsOwn : ℕ × KeyShareEntry → Type 0
  IsOwn entry = (entry.1.group ≡ entry.0) × (is_grease entry.0 ≡ false)

  insert-IsOwn :
      (e : KeyShareEntry) (m : List (ℕ × KeyShareEntry))
      → is_grease e.group ≡ false
      → All IsOwn m
      → All IsOwn (insert e.group e m)
  unfolding insert
  insert-IsOwn e [] g h = ((refl, g), tt)
  insert-IsOwn e ((j, w) ∷ m) g h = elim (Bool-cases (j == e.group)) [
    | inl same ↦ rw same ((refl, g), h.1)
    | inr differs ↦ rw differs (h.0, insert-IsOwn e m g h.1)
  ]

  pub collect_into-IsOwn :
      (es : List KeyShareEntry) (m : List (ℕ × KeyShareEntry))
      → All (λ e. is_grease e.group ≡ false) es
      → All IsOwn m
      → All IsOwn (collect_into (λ e. e.group) es m)
  unfolding collect_into
  collect_into-IsOwn [] m g h = h
  collect_into-IsOwn (e ∷ es) m g h =
      collect_into-IsOwn es (insert e.group e m) g.1 (insert-IsOwn e m g.0 h)

  -- What is found for a curve.
  abbrev pub FoundFor : ℕ → Option KeyShareEntry → Type 0
  FoundFor curve none = Unit {0}
  FoundFor curve (some e) = (e.group ≡ curve) × (is_grease curve ≡ false)

  pub remove-IsOwn :
      (curve : ℕ) (m : List (ℕ × KeyShareEntry))
      → All IsOwn m
      → FoundFor curve (remove curve m).0 × All IsOwn (remove curve m).1
  unfolding remove keep_entry
  remove-IsOwn curve [] h = (tt, tt)
  remove-IsOwn curve ((j, w) ∷ m) h = elim (Bool-cases (j == curve)) [
    | inl same ↦
        let is : j ≡ curve = ground arith in
        rw same ((h.0.0 ∙ is, ap is_grease (sym is) ∙ h.0.1), h.1)
    | inr differs ↦ let (found, left) = remove-IsOwn curve m h.1 in rw differs (found, (h.0, left))
  ]

module _ (grease : Grease) where
  open grease use {Source, is_grease_u16_be, grease_u16_be}

  -- How many of the curves are GREASE values.
  abbrev pub greases : List ℕ → ℕ
  greases [] = 0
  greases (c ∷ cs) = (if is_grease_u16_be c then 1 else 0) + greases cs

  -- The values that were drawn for the groups are kept, and are groups.
  pub groups_for-draws :
      (P : ℕ → Type 0) (curves : List ℕ) (pass : Pass grease)
      → ((x : ℕ) → 0 < times x (groups_for grease (draw grease) curves pass).0 → P x)
      → All P pass.grease_curves
      → All P (groups_for grease (draw grease) curves pass).1.grease_curves
        × (length (groups_for grease (draw grease) curves pass).1.grease_curves
            ≡ greases curves + length pass.grease_curves)
  unfolding groups_for put_front curve_for draw
  groups_for-draws P [] pass h p = (p, omega arith)
  groups_for-draws P (c ∷ cs) pass h p = elim (Bool-cases (is_grease_u16_be c)) [
    | inl drawn ↦
        let g = (grease_u16_be pass.source).0 in
        let after = (draw grease pass).1 in
        let rest = (groups_for grease (draw grease) cs after).0 in
        let offered : (x : ℕ) → 0 < times x (g ∷ rest) → P x = λ x less. h x (rw drawn less) in
        let (all, len) =
          groups_for-draws P cs after (λ x less. offered x (omega (arith, less)))
            (offered g (ground arith), p) in
        rw drawn (all, omega (arith, len))
    | inr kept ↦
        let rest = (groups_for grease (draw grease) cs pass).0 in
        let offered : (x : ℕ) → 0 < times x (c ∷ rest) → P x = λ x less. h x (rw kept less) in
        let (all, len) = groups_for-draws P cs pass (λ x less. offered x (omega (arith, less))) p in
        rw kept (all, omega (arith, len))
  ]

  -- The curves that are no GREASE values are groups as they are.
  pub groups_for-keeps :
      (curves : List ℕ) (pass : Pass grease) (c : ℕ)
      → is_grease_u16_be c ≡ false
      → 0 < times c curves
      → 0 < times c (groups_for grease (draw grease) curves pass).0
  unfolding groups_for put_front curve_for draw
  groups_for-keeps [] pass c k h = absurd (omega (arith, h))
  groups_for-keeps (d ∷ cs) pass c k h =
      let (group, after) = curve_for grease (draw grease) d pass in
      let rest = (groups_for grease (draw grease) cs after).0 in
      elim (Bool-cases (d == c)) [
        | inl same ↦
            let is : d ≡ c = ground arith in
            let own : is_grease_u16_be d ≡ false = ap is_grease_u16_be is ∙ k in
            rw own (ground arith)
        | inr differs ↦
            let later : 0 < times c cs = ground arith in
            omega (arith, groups_for-keeps cs after c k later)
      ]
