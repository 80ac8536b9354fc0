-- ===== src/Base/Bits.antt =====
-- The lowest bits of a conjunction, from the digit recursion that `bit_and` stands for.
use Prim.Native.Nat.{ℕ, zero, suc, ◌+◌, ◌*◌, ◌/◌, ◌%◌, ◌≤◌, min, bit_and, digits, bit_and-bitwise}
use mathlib.Core.Path.{◌≡◌, refl}
use native.Mathlib.Omega.{arith}

abbrev conj : ℕ → ℕ → ℕ → ℕ
conj fuel x y = digits (λ _. zero) min fuel x y

-- Any fuel from the first number on gives the same digits.
conj_enough : (x y f g : ℕ) → x ≤ f → x ≤ g → conj f x y ≡ conj g x y
conj_enough zero y zero zero p q = refl
conj_enough zero y zero (suc g) p q = refl
conj_enough zero y (suc f) zero p q = refl
conj_enough zero y (suc f) (suc g) p q = refl
conj_enough (suc x) y zero g p q = absurd (omega arith)
conj_enough (suc x) y (suc f) zero p q = absurd (omega arith)
conj_enough (suc x) y (suc f) (suc g) p q =
    let rest = conj_enough (suc x / 2) (y / 2) f g (omega arith) (omega arith) in
    omega (arith, rest)

zero_conj : (y : ℕ) → bit_and 0 y ≡ 0
zero_conj y = bit_and-bitwise 0 y

-- One digit of the conjunction, and the rest.
pub bit_and-halves : (x y : ℕ) → bit_and x y ≡ min (x % 2) (y % 2) + 2 * bit_and (x / 2) (y / 2)
bit_and-halves zero y = omega (arith, zero_conj y, zero_conj (y / 2))
bit_and-halves (suc x) y =
    let h = suc x / 2 in
    let whole = bit_and-bitwise (suc x) y in
    let half = bit_and-bitwise h (y / 2) in
    let same = conj_enough h (y / 2) x h (omega arith) (omega arith) in
    omega (arith, whole, half, same)

bit_and_none : (k x : ℕ) → x ≤ k → bit_and x 0 ≡ 0
bit_and_none k zero p = refl
bit_and_none zero (suc x) p = absurd (omega arith)
bit_and_none (suc k) (suc x) p =
    let half = bit_and_none k (suc x / 2) (omega arith) in
    omega (arith, bit_and-halves (suc x) 0, half)

-- The two lowest bits, each by its mask.
pub bit_and_bit0 : (x : ℕ) → bit_and x 1 ≡ x % 2
bit_and_bit0 x = omega (arith, bit_and-halves x 1, bit_and_none (x / 2) (x / 2) (omega arith))

pub bit_and_bit1 : (x : ℕ) → bit_and x 2 ≡ 2 * (x / 2 % 2)
bit_and_bit1 x = omega (arith, bit_and-halves x 2, bit_and_bit0 (x / 2))
