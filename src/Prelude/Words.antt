-- ===== src/Prelude/Words.antt =====
-- `|` on numbers, digit by digit.
use Prim.Native.Nat.{
  ℕ, zero, suc, ◌+◌, ◌*◌, ◌/◌, ◌%◌, ◌≤◌, ◌<◌, max, bit_or, digits, bit_or-bitwise,
}
use mathlib.Core.Path.{◌≡◌, refl, subst, sym}
use native.Mathlib.Omega.{arith}

abbrev or_digits : ℕ → ℕ → ℕ → ℕ
or_digits count a b = digits (λ b. b) max count a b

-- More digits to go than `a` has change nothing.
enough_digits : (n m a b : ℕ) → a ≤ n → a ≤ m → or_digits n a b ≡ or_digits m a b
enough_digits zero zero zero b p q = refl
enough_digits zero (suc m) zero b p q = refl
enough_digits (suc n) zero zero b p q = refl
enough_digits (suc n) (suc m) zero b p q = refl
enough_digits (suc n) (suc m) (suc a) b p q =
    omega (arith, enough_digits n m (suc a / 2) (b / 2) (omega arith) (omega arith))
enough_digits zero m (suc a) b p q = absurd (omega arith)
enough_digits (suc n) zero (suc a) b p q = absurd (omega arith)

bit_or_digit : (a b : ℕ) → bit_or a b ≡ bit_or (a / 2) (b / 2) * 2 + max (a % 2) (b % 2)
bit_or_digit zero b = omega (arith, bit_or-bitwise 0 b, bit_or-bitwise 0 (b / 2))
bit_or_digit (suc a) b =
    let tail = enough_digits a (suc a / 2) (suc a / 2) (b / 2) (omega arith) (omega arith) in
    omega (arith, bit_or-bitwise (suc a) b, bit_or-bitwise (suc a / 2) (b / 2), tail)

or_zero : (n a : ℕ) → a ≤ n → bit_or a 0 ≡ a
or_zero n zero h = bit_or-bitwise 0 0
or_zero zero (suc a) h = absurd (omega arith)
or_zero (suc n) (suc a) h =
    omega (arith, bit_or_digit (suc a) 0, or_zero n (suc a / 2) (omega arith))

-- Three low digits put into a number that has none there.
pub bit_or_low : (n p : ℕ) → p < 8 → bit_or (n * 8) p ≡ n * 8 + p
bit_or_low n p h =
    let a = n * 8 in
    let gone : p / 2 / 2 / 2 ≡ 0 = omega arith in
    let rest : bit_or (a / 2 / 2 / 2) (p / 2 / 2 / 2) ≡ a / 2 / 2 / 2 =
      subst (λ b. bit_or (a / 2 / 2 / 2) b ≡ a / 2 / 2 / 2) (sym gone)
        (or_zero (a / 2 / 2 / 2) (a / 2 / 2 / 2) (omega arith)) in
    omega (
      arith,
      bit_or_digit a p,
      bit_or_digit (a / 2) (p / 2),
      bit_or_digit (a / 2 / 2) (p / 2 / 2),
      rest,
    )

-- The lowest digit put into an even number.
pub bit_or_one : (a : ℕ) → a % 2 ≡ 0 → bit_or a 1 ≡ a + 1
bit_or_one a h = omega (arith, bit_or_digit a 1, or_zero (a / 2) (a / 2) (omega arith))

abbrev pub shift : ℕ → ℕ → ℕ
shift zero n = n
shift (suc k) n = shift k n * 2

-- As many low digits as a number was shifted by.
bit_or-shift : (k n p : ℕ) → p < shift k 1 → bit_or (shift k n) p ≡ shift k n + p
bit_or-shift zero n zero h = let e = or_zero n n (omega arith) in omega arith
bit_or-shift zero n (suc p) h = absurd (omega arith)
bit_or-shift (suc k) n p h =
    let half : shift k n * 2 / 2 ≡ shift k n = omega arith in
    let tail = bit_or-shift k n (p / 2) (omega arith) in
    let digit = bit_or_digit (shift k n * 2) p in
    let same : bit_or (shift k n * 2 / 2) (p / 2) ≡ shift k n + p / 2 = rw half tail in
    omega (arith, digit, same)

-- A byte put below another.
pub bit_or_byte : (n p : ℕ) → p < 256 → bit_or (n * 256) p ≡ n * 256 + p
bit_or_byte n p h =
    let e : n * 256 ≡ shift 8 n = omega arith in rw e (bit_or-shift 8 n p (omega arith))

-- The second digit put into a number that has the lowest alone of the two.
pub bit_or_two : (a : ℕ) → a % 4 ≡ 1 → bit_or a 2 ≡ a + 2
bit_or_two a h = omega (arith, bit_or_digit a 2, bit_or_one (a / 2) (omega arith))
