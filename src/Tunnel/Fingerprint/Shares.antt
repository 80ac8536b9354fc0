-- ===== src/Tunnel/Fingerprint/Shares.antt =====
-- tunnel/src/fp.rs: the curves of the key shares are among the groups that the hello offers.
use noisy_shuttle.Base.{
  ℕ, suc, ◌+◌, ◌≤◌, ◌<◌, ◌≡◌, refl, sym, ap, true, false, List, [], ◌∷◌, Option, none, some, arith,
  Bool-cases, inl, inr, length, All, subst,
}
use noisy_shuttle.Tunnel.Fingerprint.{Ja3, KeyShareEntry, Grease, collect_into, remove}
use noisy_shuttle.Tunnel.Fingerprint.Values.{
  Pass, draw, pop, pop_from, next_grease, curve_for, groups_for, entry_for, entries_for,
  overwrite_entries, put_front,
}
use noisy_shuttle.Tunnel.Fingerprint.Alpn.{times}
use noisy_shuttle.Tunnel.Fingerprint.Groups.{
  IsOwn, collect_into-IsOwn, FoundFor, remove-IsOwn, greases, groups_for-draws, groups_for-keeps,
}

module _ (grease : Grease) where
  open grease use {Source, is_grease_u16_be, grease_u16_be}

  -- What `next` gives while there are values left: one of them, and the others.
  abbrev Gives : (ℕ → Type 0) → (Pass grease → ℕ × Pass grease) → Type 0
  Gives P next =
      (pass : Pass grease)
      → All P pass.grease_curves
      → 0 < length pass.grease_curves
      → P (next pass).0
        × All P (next pass).1.grease_curves
        × (length pass.grease_curves ≡ suc (length (next pass).1.grease_curves))

  pop_from-Gives :
      (P : ℕ → Type 0) (left : List ℕ) (pass : Pass grease)
      → All P left
      → 0 < length left
      → P (pop_from grease left pass).0
        × All P (pop_from grease left pass).1.grease_curves
        × (length left ≡ suc (length (pop_from grease left pass).1.grease_curves))
  unfolding pop_from
  pop_from-Gives P [] pass h l = absurd (omega (arith, l))
  pop_from-Gives P (g ∷ left) pass h l = (h.0, h.1, refl)

  pop-Gives : (P : ℕ → Type 0) → Gives P (pop grease)
  unfolding pop
  pop-Gives P pass h l = pop_from-Gives P pass.grease_curves pass h l

  next_grease-Gives :
      (P : ℕ → Type 0) (left : List ℕ) → 0 < length left → Gives P (next_grease grease left)
  unfolding next_grease
  next_grease-Gives P [] l = absurd (omega (arith, l))
  next_grease-Gives P (g ∷ left) l = pop-Gives P

  -- The group of an entry, and what is left for the next ones.
  entry_for-Gives :
      (P : ℕ → Type 0) (next : Pass grease → ℕ × Pass grease) (curve : ℕ)
      (found : Option KeyShareEntry) (pass : Pass grease)
      → FoundFor is_grease_u16_be curve found
      → (is_grease_u16_be curve ≡ false → P curve)
      → (is_grease_u16_be curve ≡ true → Gives P next)
      → All P pass.grease_curves
      → greases grease (curve ∷ []) ≤ length pass.grease_curves
      → P (entry_for grease next curve found pass).0.group
        × All P (entry_for grease next curve found pass).1.grease_curves
        × (length pass.grease_curves
            ≤ length (entry_for grease next curve found pass).1.grease_curves
              + greases grease (curve ∷ []))
  unfolding entry_for curve_for
  entry_for-Gives P next curve (some e) pass f own gives all enough =
      (subst P (sym f.0) (own f.1), all, ground (arith, f.1))
  entry_for-Gives P next curve none pass f own gives all enough =
      elim (Bool-cases (is_grease_u16_be curve)) [
        | inl drawn ↦
            let (p, later, len) = gives drawn pass all (ground arith) in
            rw drawn (p, later, omega (arith, len))
        | inr kept ↦ rw kept (own kept, all, omega arith)
      ]

  entries_for-Gives :
      (P : ℕ → Type 0) (next : Pass grease → ℕ × Pass grease) (curves : List ℕ)
      (old : List (ℕ × KeyShareEntry)) (pass : Pass grease)
      → All (IsOwn is_grease_u16_be) old
      → ((c : ℕ) → is_grease_u16_be c ≡ false → 0 < times c curves → P c)
      → (0 < greases grease curves → Gives P next)
      → All P pass.grease_curves
      → greases grease curves ≤ length pass.grease_curves
      → All (λ e. P e.group) (entries_for grease next curves old pass).0
  unfolding entries_for put_front
  entries_for-Gives P next [] old pass o own gives all enough = tt
  entries_for-Gives P next (curve ∷ curves) old pass o own gives all enough =
      let (found, left) = remove-IsOwn is_grease_u16_be curve old o in
      let (p, later, len) =
        entry_for-Gives P next curve (remove curve old).0 pass found
          (λ k. own curve k (ground arith)) (λ drawn. gives (ground (arith, drawn))) all
          (omega (arith, enough)) in
      (
        p,
        entries_for-Gives P next curves (remove curve old).1
            (entry_for grease next curve (remove curve old).0 pass).1 left
            (λ c k less. own c k (omega (arith, less))) (λ less. gives (omega (arith, less))) later
            (omega (arith, enough, len)),
      )

  -- The JA3 has as many GREASE values as the curves, and the others of the curves.
  abbrev pub Covers : (offered curves : List ℕ) → Type 0
  Covers offered curves =
      (greases grease curves ≤ greases grease offered)
      × ((c : ℕ) → is_grease_u16_be c ≡ false → 0 < times c curves → 0 < times c offered)

  -- With no value left at first, all that are needed are drawn for the groups.
  pub overwrite_entries-offered :
      (ja3 : Ja3) (curves : List ℕ) (entries : List KeyShareEntry) (pass pass' : Pass grease)
      → pass.grease_curves ≡ []
      → pass'.grease_curves ≡ (groups_for grease (draw grease) ja3.curves pass).1.grease_curves
      → All (λ e. is_grease_u16_be e.group ≡ false) entries
      → Covers ja3.curves curves
      → All
          (λ e. 0 < times e.group (groups_for grease (draw grease) ja3.curves pass).0)
          (overwrite_entries grease (some curves) entries pass').0
  unfolding overwrite_entries
  overwrite_entries-offered ja3 curves entries pass pass' start same fresh (few, covered) =
      let P = λ (x : ℕ). 0 < times x (groups_for grease (draw grease) ja3.curves pass).0 in
      let (all, len) =
        groups_for-draws grease P ja3.curves pass (λ x less. less) (subst (All P) (sym start) tt) in
      let old = collect_into (λ (e : KeyShareEntry). e.group) entries [] in
      let enough : greases grease curves ≤ length pass'.grease_curves =
        omega (arith, few, len, ap length same, ap length start) in
      entries_for-Gives P (next_grease grease pass'.grease_curves) curves old pass'
        (collect_into-IsOwn is_grease_u16_be entries [] fresh tt)
        (λ c k less. groups_for-keeps grease ja3.curves pass c k (covered c k less))
        (λ less. next_grease-Gives P pass'.grease_curves (omega (arith, less, enough)))
        (subst (All P) (sym same) all) enough
