-- ===== src/Cons/Stdio/Digits.antt =====
-- Numbers printed by kern/cons/stdio.c, read back.
use zonix.Prelude.{
  ltb, leb, ◌==◌, if◌then◌else◌, eq-beq, Bool-cases, length, length-append, ℕ, zero, suc, ◌+◌, ◌-◌,
  ◌*◌, ◌/◌, ◌%◌, ◌^◌, ◌≤◌, ◌<◌, ◌≡◌, refl, sym, ap, ◌∙◌, inl, inr, false, [], ◌∷◌, arith,
}
use native.Mathlib.Nat.{
  zero-div, zero-mod, div-add-mod', mul-add-div_right, mul-add-mod_self_right, pow-suc,
  div-mul-le_self, le-div_iff_mul-le, div-eq_of_lt,
}
use zonix.Cons.Stdio.{
  Text, do_div, num_digits_loop, get_num_digits, digit_char, print_digit_no_pad_loop,
  print_digit_no_pad,
}

-- `do_div` is division with remainder.
pub do_div_lem : (n base : ℕ) → 0 < base → do_div n base ≡ (n / base, n % base)
unfolding do_div
do_div_lem n base pos = rw (high_quotient, high_remainder) (ground (arith, quotient, remainder))
  where
    high_quotient : (if n / 2 ^ 32 == 0 then n / 2 ^ 32 else n / 2 ^ 32 / base) ≡ n / 2 ^ 32 / base
    high_quotient = elim (Bool-cases (n / 2 ^ 32 == 0)) [
      | inl z ↦ rw (z, eq-beq (n / 2 ^ 32) 0 z, zero-div base)
      | inr p ↦ rw p
    ]

    high_remainder : (if n / 2 ^ 32 == 0 then n / 2 ^ 32 else n / 2 ^ 32 % base) ≡ n / 2 ^ 32 % base
    high_remainder = elim (Bool-cases (n / 2 ^ 32 == 0)) [
      | inl z ↦ rw (z, eq-beq (n / 2 ^ 32) 0 z, zero-mod base)
      | inr p ↦ rw p
    ]

    parts : n ≡ n / 2 ^ 32 / base * 2 ^ 32 * base + (n / 2 ^ 32 % base * 2 ^ 32 + n % 2 ^ 32)
    parts = omega (arith, div-add-mod' (n / 2 ^ 32) base)

    quotient :
        n / 2 ^ 32 / base * 2 ^ 32 + (n / 2 ^ 32 % base * 2 ^ 32 + n % 2 ^ 32) / base ≡ n / base
    quotient = sym (
        ap (λ x. x / base) parts
        ∙ mul-add-div_right pos (n / 2 ^ 32 / base * 2 ^ 32)
            (n / 2 ^ 32 % base * 2 ^ 32 + n % 2 ^ 32))

    remainder : (n / 2 ^ 32 % base * 2 ^ 32 + n % 2 ^ 32) % base ≡ n % base
    remainder = sym (
        ap (λ x. x % base) parts
        ∙ mul-add-mod_self_right (n / 2 ^ 32 / base * 2 ^ 32) base
            (n / 2 ^ 32 % base * 2 ^ 32 + n % 2 ^ 32))

-- The value of a digit character, and of a sequence of them.
abbrev digit_value : ℕ → ℕ
digit_value c = if ltb c b'A' then c - b'0' else c + 10 - b'A'

read_from : ℕ → ℕ → Text → ℕ
read_from base acc [] = acc
read_from base acc (c ∷ s) = read_from base (acc * base + digit_value c) s

pub read : ℕ → Text → ℕ
unfolding read_from
read base s = read_from base 0 s

-- A digit less halves the bound.
pub div-lt_half : (fuel num base : ℕ) → 1 < base → num < 2 ^ suc fuel → num / base < 2 ^ fuel
div-lt_half fuel num base b h =
    omega (arith, pow-suc 2 fuel, div-mul-le_self num base, twice (num / base))
  where
    twice : (q : ℕ) → q * 2 ≤ q * base
    twice q = grind arith

pub more_fuel : (num base k : ℕ) → 1 < base → base ≤ num → num < 2 ^ suc k → 0 < k
more_fuel num base zero b l h = absurd (omega arith)
more_fuel num base (suc k) b l h = omega arith

quotient_pos : (num base : ℕ) → 0 < base → base ≤ num → 0 < num / base
quotient_pos num base b h = (le-div_iff_mul-le {k = base} {x = 1} {y = num} b).1 (omega arith)

zero_digits : (fuel base : ℕ) → num_digits_loop fuel 0 base ≡ 0
unfolding num_digits_loop
zero_digits zero base = refl
zero_digits (suc fuel) base = refl

num_digits_loop-length :
    (fuel num base : ℕ)
    → 1 < base
    → 0 < num
    → num < 2 ^ fuel
    → num_digits_loop fuel num base ≡ length (print_digit_no_pad_loop fuel num base)
unfolding num_digits_loop print_digit_no_pad_loop
num_digits_loop-length zero num base b p h = absurd (omega arith)
num_digits_loop-length (suc fuel) num base b p h =
    let positive : (num == 0) ≡ false = ground arith in
    elim (Bool-cases (leb base num)) [
      | inl large ↦
          rw (positive, large, do_div_lem num base (omega arith))
            (omega (
              arith,
              num_digits_loop-length fuel (num / base) base b
                  (quotient_pos num base (omega arith) (ground arith))
                  (div-lt_half fuel num base b h),
              length-append (print_digit_no_pad_loop fuel (num / base) base)
                  (digit_char (num % base) ∷ []),
            ))
      | inr small ↦
          let none_left : num / base ≡ 0 = div-eq_of_lt (ground arith) in
          rw (positive, small, do_div_lem num base (omega arith), none_left, zero_digits fuel base)
    ]

zero-length : (fuel base : ℕ) → 1 < base → length (print_digit_no_pad_loop (suc fuel) 0 base) ≡ 1
unfolding print_digit_no_pad_loop
zero-length fuel base b = let small : leb base 0 ≡ false = ground arith in rw small

-- `get_num_digits` is the number of characters that `print_digit_no_pad` prints.
pub get_num_digits-length :
    (num base : ℕ)
    → 1 < base
    → num < 2 ^ 64
    → get_num_digits num base ≡ length (print_digit_no_pad num base)
unfolding get_num_digits print_digit_no_pad
get_num_digits-length num base b h = elim (Bool-cases (num == 0)) [
  | inl z ↦ rw (eq-beq num 0 z, zero-length 63 base b)
  | inr p ↦ rw p (num_digits_loop-length 64 num base b (ground arith) h)
]
