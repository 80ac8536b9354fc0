-- ===== src/Tunnel/Totp/Window.antt =====
-- tunnel/src/totp.rs: which signatures are accepted, and when.
use noisy_shuttle.Base.{
  ℕ, zero, suc, ◌+◌, ◌-◌, ◌*◌, ◌/◌, ◌%◌, ◌≤◌, ◌<◌, ◌≡◌, refl, ap, sym, ◌∙◌, ◌↔◌, inl, inr, Bool,
  true, List, [], ◌∷◌, some, take, arith, Bool-cases,
}
use native.Mathlib.Nat.{mul-le-mul_right, mul-div_cancel, le-mul_of_pos_right}
use noisy_shuttle.Client.Pool.{wrap64}
use noisy_shuttle.Client.Pool.Steps.{usize_limit}
use noisy_shuttle.Tunnel.Totp.{
  Totp, same_bytes, sub64, hash, generate, sign, search, step_time, check, verify,
}

same_bytes-eq : (xs ys : List ℕ) → same_bytes xs ys ≡ true → xs ≡ ys
unfolding same_bytes
same_bytes-eq [] [] e = refl
same_bytes-eq (x ∷ xs) [] e = absurd (ground arith)
same_bytes-eq [] (y ∷ ys) e = absurd (ground arith)
same_bytes-eq (x ∷ xs) (y ∷ ys) e =
    let tails : same_bytes xs ys ≡ true = ground arith in ground (arith, same_bytes-eq xs ys tails)

same_bytes_refl : (xs : List ℕ) → same_bytes xs xs ≡ true
unfolding same_bytes
same_bytes_refl [] = refl
same_bytes_refl (x ∷ xs) = ground (arith, same_bytes_refl xs)

search-found :
    (test : ℕ → Bool) (i count : ℕ)
    → search test i count ≡ true
    → (j : ℕ) × (i ≤ j) × (j < i + count) × (test j ≡ true)
unfolding search
search-found test i zero e = absurd (ground arith)
search-found test i (suc count) e = elim (Bool-cases (test i)) [
  | inl hit ↦ (i, omega arith, omega arith, hit)
  | inr miss ↦
      let (j, low, high, hit) = search-found test (suc i) count (ground arith) in
      (j, omega arith, omega arith, hit)
]

search-finds :
    (test : ℕ → Bool) (i count j : ℕ)
    → i ≤ j
    → j < i + count
    → test j ≡ true
    → search test i count ≡ true
unfolding search
search-finds test i zero j low high hit = absurd (omega arith)
search-finds test i (suc count) j low high hit = elim (Bool-cases (test i)) [
  | inl now ↦ ground arith
  | inr miss ↦
      let later : suc i ≤ j = ground arith in
      ground (arith, search-finds test (suc i) count j later (omega arith) hit)
]

-- The clock is past the first slots, and the products of the window are u64s.
pub record InRange (totp : Totp) (time : ℕ) : Type 0 where
  pub step_positive : 0 < totp.step
  pub skew_small : totp.skew ≤ 127
  pub after_start : totp.skew ≤ time / totp.step
  pub no_overflow : (time / totp.step + totp.skew) * totp.step < usize_limit

step_time-slot :
    (totp : Totp) (time i : ℕ)
    → InRange totp time
    → i ≤ totp.skew * 2
    → step_time totp time i ≡ (time / totp.step - totp.skew + i) * totp.step
unfolding step_time
step_time-slot totp time i r h =
    let q = time / totp.step in
    let k = totp.skew in
    let s = totp.step in
    let early : q - k + i ≤ q + k = omega (arith, r.after_start) in
    let product : (q - k + i) * s ≤ (q + k) * s = mul-le-mul_right s early in
    let small : q + k ≤ (q + k) * s = le-mul_of_pos_right (q + k) r.step_positive in
    let slot : wrap64 (sub64 q k + i) ≡ q - k + i =
      omega (arith, r.after_start, r.no_overflow, small) in
    ap (λ x. wrap64 (x * s)) slot ∙ omega (arith, product, r.no_overflow)

-- A slot of the window around the time.
abbrev pub InWindow : Totp → ℕ → ℕ → Type 0
InWindow totp time slot =
    (time / totp.step ≤ slot + totp.skew) × (slot ≤ time / totp.step + totp.skew)

-- The loop finds bytes made at a time of the window, and no others.
search_window :
    (totp : Totp) (time : ℕ) (made : ℕ → List ℕ) (wanted : List ℕ)
    → InRange totp time
    → (search (λ i. same_bytes (made (step_time totp time i)) wanted) 0 (totp.skew * 2 % 256 + 1)
        ≡ true)
      ↔ ((slot : ℕ) × InWindow totp time slot × (made (slot * totp.step) ≡ wanted))
search_window totp time made wanted r =
    let test : ℕ → Bool = λ i. same_bytes (made (step_time totp time i)) wanted in
    let count = totp.skew * 2 % 256 + 1 in
    let q = time / totp.step in
    (
      (λ e.
          let (j, low, high, hit) = search-found test 0 count e in
          let bound : j ≤ totp.skew * 2 = omega (arith, r.skew_small, high) in
          let same : step_time totp time j ≡ (q - totp.skew + j) * totp.step =
            step_time-slot totp time j r bound in
          (
            q - totp.skew + j,
            (omega (arith, r.after_start), omega (arith, r.after_start, bound)),
            ap made (sym same) ∙ same_bytes-eq (made (step_time totp time j)) wanted hit,
          )),
      λ (slot, inside, e).
          let j = slot + totp.skew - q in
          let bound : j ≤ totp.skew * 2 = omega (arith, inside.1) in
          let back : q - totp.skew + j ≡ slot = omega (arith, inside.0, r.after_start) in
          let same : step_time totp time j ≡ slot * totp.step =
            step_time-slot totp time j r bound ∙ ap (λ x. x * totp.step) back in
          let hit : test j ≡ true =
            ap (λ x. same_bytes x wanted) (ap made same ∙ e) ∙ same_bytes_refl wanted in
          search-finds test 0 count j (omega arith) (omega (arith, r.skew_small, bound)) hit,
    )

module _ (blake2s : List ℕ → List ℕ) where
  -- Within the range of the clock, a signature is accepted exactly when it is the one of a time
  -- slot at most `skew` slots before or after the present one.
  pub verify_iff :
      (totp : Totp) (nonce sig : List ℕ) (n time : ℕ)
      → InRange totp time
      → (verify blake2s totp nonce sig n time ≡ some true) ↔ (
          (slot : ℕ) × InWindow totp time slot
          × (sign blake2s totp n (slot * totp.step) nonce ≡ sig))
  unfolding verify
  verify_iff totp nonce sig n time r =
      let window = search_window totp time (λ t. sign blake2s totp n t nonce) sig r in
      let positive = r.step_positive in
      (λ e. window.0 (ground arith), λ h. let found = window.1 h in ground arith)

  -- The same of tokens: one is accepted exactly when it is that of a slot of the window.
  pub check_iff :
      (totp : Totp) (token : List ℕ) (n time : ℕ)
      → InRange totp time
      → (check blake2s totp token n time ≡ some true) ↔ (
          (slot : ℕ) × InWindow totp time slot
          × (generate blake2s totp n (slot * totp.step) ≡ token))
  unfolding check
  check_iff totp token n time r =
      let window = search_window totp time (generate blake2s totp n) token r in
      let positive = r.step_positive in
      (λ e. window.0 (ground arith), λ h. let found = window.1 h in ground arith)

  generate_in_slot :
      (totp : Totp) (n time : ℕ)
      → 0 < totp.step
      → generate blake2s totp n (time / totp.step * totp.step) ≡ generate blake2s totp n time
  unfolding generate
  generate_in_slot totp n time h = rw (mul-div_cancel (time / totp.step) h) refl

  -- A signature made at most `skew` slots before or after the present one is accepted.
  pub verify-sign :
      (totp : Totp) (nonce : List ℕ) (n signed time : ℕ)
      → InRange totp time
      → InWindow totp time (signed / totp.step)
      → verify blake2s totp nonce (sign blake2s totp n signed nonce) n time ≡ some true
  unfolding sign
  verify-sign totp nonce n signed time r inside =
      (verify_iff totp nonce (sign blake2s totp n signed nonce) n time r).1 (
        signed / totp.step,
        inside,
        ap (λ k. take n (hash blake2s k nonce)) (generate_in_slot totp n signed r.step_positive),
      )
