-- ===== src/Cons/Stdio/Padding.antt =====
-- The widths of kern/cons/stdio.c.
use zonix.Prelude.{
  ltb, leb, ◌==◌, if◌then◌else◌, Bool-cases, length, replicate, length-append, length-replicate, ℕ,
  zero, suc, ◌+◌, ◌-◌, ◌/◌, ◌%◌, ◌^◌, ◌<◌, ◌≡◌, refl, sym, ap, ◌∙◌, inl, inr, Bool, true, false,
  ◌&&◌, [], ◌∷◌, ◌++◌, append-nil, append_assoc, arith,
}
use zonix.Cons.Stdio.{
  Text, get_num_digits, digit_char, print_digit_loop, print_digit, print_digit_no_pad_loop,
  print_digit_no_pad, print_num, print_signed_num, signed_value, print_str,
}
use zonix.Cons.Stdio.Digits.{do_div_lem, div-lt_half, more_fuel, get_num_digits-length}

padded :
    (fuel num base width padc : ℕ)
    → 1 < base
    → num < 2 ^ fuel
    → 0 < fuel
    → print_digit_loop fuel num base width padc
      ≡ replicate (width - length (print_digit_no_pad_loop fuel num base)) padc
        ++ print_digit_no_pad_loop fuel num base
unfolding print_digit_loop print_digit_no_pad_loop
padded zero num base width padc b h f = absurd (omega arith)
padded (suc fuel) num base width padc b h f = elim (Bool-cases (leb base num)) [
  | inl large ↦
      let rest = print_digit_no_pad_loop fuel (num / base) base in
      let narrower : width - 1 - length rest
          ≡ width - length (rest ++ digit_char (num % base) ∷ []) =
        omega (arith, length-append rest (digit_char (num % base) ∷ [])) in
      rw
        (
          large,
          do_div_lem num base (omega arith),
          padded fuel (num / base) base (width - 1) padc b (div-lt_half fuel num base b h)
              (more_fuel num base fuel b (ground arith) h),
          narrower,
        )
        (append_assoc (replicate (width - length (rest ++ digit_char (num % base) ∷ [])) padc) rest
          (digit_char (num % base) ∷ []))
  | inr small ↦ rw small
]

-- `print_digit` pads the digits on the left to the width.
pub print_digit-pad :
    (num base width padc : ℕ)
    → 1 < base
    → num < 2 ^ 64
    → print_digit num base width padc
      ≡ replicate (width - get_num_digits num base) padc ++ print_digit_no_pad num base
unfolding print_digit print_digit_no_pad
print_digit-pad num base width padc b h =
    padded 64 num base width padc b h (omega arith)
    ∙ ap (λ n. replicate (width - n) padc ++ print_digit_no_pad_loop 64 num base)
        (sym (get_num_digits-length num base b h))

-- The smallest width that holds `n` characters and is at least `width`.
abbrev pub at_least : ℕ → ℕ → ℕ
at_least width n = n + (width - n)

word-lt : (arg : ℕ) (lflag : Bool) → (if lflag then arg % 2 ^ 64 else arg % 2 ^ 32) < 2 ^ 64
word-lt arg true = omega arith
word-lt arg false = omega arith

signed_value-lt : (arg : ℕ) (lflag : Bool) → (signed_value arg lflag).0 < 2 ^ 64
unfolding signed_value
signed_value-lt arg true = ground arith
signed_value-lt arg false = ground arith

length-sign :
    (neg : Bool)
    → ◌≡◌ {A = ℕ} (length (if◌then◌else◌ {A = Text} neg (b'-' ∷ []) [])) (if neg then 1 else 0)
length-sign true = refl
length-sign false = refl

-- The sign, the digits and the padding, in any order.
three_parts :
    (s t u : Text) (n : ℕ)
    → length s + length t + length u ≡ n
    → (length (s ++ t ++ u) ≡ n) × (length (s ++ u ++ t) ≡ n) × (length (u ++ s ++ t) ≡ n)
three_parts s t u n e = (
  omega (arith, length-append (s ++ t) u, length-append s t),
  omega (arith, length-append (s ++ u) t, length-append s u),
  omega (arith, length-append (u ++ s) t, length-append u s),
)

-- `print_num` prints as many characters as the number has, or `width` if that is more, aligned to
-- either side.
pub length-print_num :
    (arg base : ℕ) (lflag : Bool) (width padc : ℕ) (left_align : Bool)
    → 1 < base
    → length (print_num arg base lflag width padc left_align)
      ≡ at_least width (get_num_digits (if lflag then arg % 2 ^ 64 else arg % 2 ^ 32) base)
unfolding print_num
length-print_num arg base lflag width padc true b =
    let num = if lflag then arg % 2 ^ 64 else arg % 2 ^ 32 in
    omega (
      arith,
      length-append (print_digit_no_pad num base)
          (replicate (width - get_num_digits num base) b' '),
      length-replicate {A = ℕ} (width - get_num_digits num base) b' ',
      get_num_digits-length num base b (word-lt arg lflag),
    )
length-print_num arg base lflag width padc false b =
    let num = if lflag then arg % 2 ^ 64 else arg % 2 ^ 32 in
    omega (
      arith,
      ap length (print_digit-pad num base width padc b (word-lt arg lflag)),
      length-append (replicate (width - get_num_digits num base) padc)
          (print_digit_no_pad num base),
      length-replicate (width - get_num_digits num base) padc,
      get_num_digits-length num base b (word-lt arg lflag),
    )

-- `print_signed_num` likewise, with a place for the sign of a negative number.
pub length-print_signed_num :
    (arg base : ℕ) (lflag : Bool) (width padc : ℕ) (left_align : Bool)
    → 1 < base
    → length (print_signed_num arg base lflag width padc left_align)
      ≡ at_least width (
          get_num_digits (signed_value arg lflag).0 base
          + (if (signed_value arg lflag).1 then 1 else 0))
unfolding print_signed_num
length-print_signed_num arg base lflag width padc left_align b =
    let v = signed_value arg lflag in
    let sign : Text = if v.1 then b'-' ∷ [] else [] in
    let total_width = get_num_digits v.0 base + (if v.1 then 1 else 0) in
    let parts = λ (c : ℕ).
      three_parts sign (print_digit_no_pad v.0 base) (replicate (width - total_width) c)
        (at_least width total_width)
        (omega (
          arith,
          length-sign v.1,
          length-replicate (width - total_width) c,
          get_num_digits-length v.0 base b (signed_value-lt arg lflag),
        )) in
    elim (Bool-cases left_align) [
      | inl l ↦ rw l (parts b' ').0
      | inr r ↦ rw r (elim (Bool-cases ((padc == b'0') && v.1)) [
        | inl z ↦ rw z (parts b'0').1
        | inr n ↦ rw n (parts padc).2
      ])
    ]

-- `print_str` prints the string and pads it to the width on the side that is asked for.
pub print_str-pad :
    (s : Text) (width : ℕ) (left_align : Bool)
    → print_str s width left_align ≡ (
        if left_align
        then s ++ replicate (width - length s) b' '
        else replicate (width - length s) b' ' ++ s)
unfolding print_str
print_str-pad s width left_align = elim (Bool-cases (ltb (length s) width)) [
  | inl wide ↦ elim (Bool-cases left_align) [
    | inl l ↦ rw (l, wide)
    | inr r ↦ rw (r, wide) (append-nil (replicate (width - length s) b' ' ++ s))
  ]
  | inr full ↦
      let none_left : width - length s ≡ 0 = ground arith in
      elim (Bool-cases left_align) [
        | inl l ↦ rw (l, full, none_left)
        | inr r ↦ rw (r, full, none_left) (append-nil s)
      ]
]
