-- ===== src/Tunnel/Totp.antt =====
-- tunnel/src/totp.rs: time-based tokens. The hash is a parameter. `none` is a panic: a division by
-- a step of zero, which `generate` and `sign` are not asked for. Sums, differences and products of `u64` wrap around, as in a release build.
pub mod Window
mod Tests
use noisy_shuttle.Base.{
  ℕ, zero, suc, ◌+◌, ◌-◌, ◌*◌, ◌/◌, ◌%◌, ◌==◌, Bool, true, false, ◌||◌, ◌&&◌, List, [], ◌∷◌, ◌++◌,
  Option, none, some, if◌then◌else◌, take, u32_to_be,
}
use noisy_shuttle.Client.Pool.{wrap64}

-- u64::to_be_bytes
abbrev pub u64_to_be : ℕ → List ℕ
u64_to_be n = u32_to_be (n / 4294967296 % 4294967296) ++ u32_to_be (n % 4294967296)

-- Subtraction of `u64`s.
abbrev pub sub64 : ℕ → ℕ → ℕ
sub64 a b = wrap64 (a + (18446744073709551616 - b))

-- `skew` is a u8.
pub record Totp : Type 0 where
  pub key : List ℕ
  pub step : ℕ
  pub skew : ℕ

unfoldable pub same_bytes : List ℕ → List ℕ → Bool
same_bytes [] [] = true
same_bytes (x ∷ xs) [] = false
same_bytes [] (y ∷ ys) = false
same_bytes (x ∷ xs) (y ∷ ys) = x == y && same_bytes xs ys

-- `for i in i..i + count`: whether an iteration returns true.
unfoldable pub search : (ℕ → Bool) → (i count : ℕ) → Bool
search test i zero = false
search test i (suc count) = let rest = search test (suc i) count in test i || rest

-- The time of an iteration.
unfoldable pub step_time : Totp → (time i : ℕ) → ℕ
step_time totp time i = wrap64 (wrap64 (sub64 (time / totp.step) totp.skew + i) * totp.step)

-- The context string of the key, "TOTP for the secure tunnel under snow", in ASCII.
abbrev pub context : List ℕ
context =
    84 ∷ 79 ∷ 84 ∷ 80 ∷ 32 ∷ 102 ∷ 111 ∷ 114 ∷ 32 ∷ 116 ∷ 104 ∷ 101 ∷ 32 ∷ 115 ∷ 101 ∷ 99 ∷ 117
    ∷ 114 ∷ 101 ∷ 32 ∷ 116 ∷ 117 ∷ 110 ∷ 110 ∷ 101 ∷ 108 ∷ 32 ∷ 117 ∷ 110 ∷ 100 ∷ 101 ∷ 114 ∷ 32
    ∷ 115 ∷ 110 ∷ 111 ∷ 119 ∷ []

-- `blake2s` is Blake2s256; a token has at most its 32 bytes.
module _ (blake2s : List ℕ → List ℕ) where
  -- tunnel/src/utils.rs: possibly_insecure_hash_with_key
  unfoldable pub hash : (key msg : List ℕ) → List ℕ
  hash key msg = blake2s (blake2s key ++ msg)

  unfoldable pub new_totp : (key : List ℕ) → (step_in_secs skew : ℕ) → Totp
  unfolding hash
  new_totp key step_in_secs skew = record {
    key = hash context key;
    step = step_in_secs;
    skew = skew;
  }

  unfoldable pub generate : Totp → (n : ℕ) → (time : ℕ) → List ℕ
  generate totp n time = take n (hash totp.key (u64_to_be (time / totp.step)))

  unfoldable pub sign : Totp → (n : ℕ) → (time : ℕ) → (nonce : List ℕ) → List ℕ
  unfolding generate
  sign totp n time nonce = take n (hash (generate totp n time) nonce)

  unfoldable pub check : Totp → (token : List ℕ) → (n time : ℕ) → Option Bool
  unfolding same_bytes
  check totp token n time =
      if totp.step == 0
      then none
      else some (
          search (λ i. same_bytes (generate totp n (step_time totp time i)) token) 0
            (totp.skew * 2 % 256 + 1))

  unfoldable pub verify : Totp → (nonce sig : List ℕ) → (n time : ℕ) → Option Bool
  unfolding same_bytes
  verify totp nonce sig n time =
      if totp.step == 0
      then none
      else some (
          search (λ i. same_bytes (sign totp n (step_time totp time i) nonce) sig) 0
            (totp.skew * 2 % 256 + 1))
