-- ===== src/Cons/Stdio.antt =====
-- kern/cons/stdio.c: formatted output. What a function writes by `cons_putc` is the list of its
-- characters. An `int` width that would fall below 0 stays at 0: both give no padding.
pub mod Digits
pub mod Padding
pub mod Formats
use zonix.Prelude.{
  ltb, leb, ◌==◌, if◌then◌else◌, length, replicate, ℕ, zero, suc, ◌+◌, ◌-◌, ◌*◌, ◌/◌, ◌%◌, ◌^◌,
  Bool, true, false, not, ◌&&◌, ◌||◌, List, [], ◌∷◌, ◌++◌,
}

abbrev pub Text : Type 0
Text = List ℕ

-- `do_div` of kern/include/math.h on a 64-bit `n` and a 32-bit base, by two 32-bit divisions: the
-- quotient, which replaces `n`, and the remainder.
unfoldable pub do_div : ℕ → ℕ → ℕ × ℕ
do_div n base =
    let high = n / 2 ^ 32 in
    let low = n % 2 ^ 32 in
    let upper = if high == 0 then high else high % base in
    let high' = if high == 0 then high else high / base in
    let dividend = upper * 2 ^ 32 + low in (high' * 2 ^ 32 + dividend / base, dividend % base)

-- The loop of `get_num_digits`, on fuel: a `uint64_t` has at most 64 digits.
unfoldable pub num_digits_loop : ℕ → ℕ → ℕ → ℕ
num_digits_loop zero num base = 0
num_digits_loop (suc fuel) num base =
    let rest = num_digits_loop fuel (do_div num base).0 base in if num == 0 then 0 else suc rest

unfoldable pub get_num_digits : ℕ → ℕ → ℕ
get_num_digits num base = if num == 0 then 1 else num_digits_loop 64 num base

abbrev pub digit_char : ℕ → ℕ
digit_char m = if ltb m 10 then b'0' + m else b'A' + m - 10

-- `print_digit`, on fuel for its recursive calls.
unfoldable pub print_digit_loop : ℕ → ℕ → ℕ → ℕ → ℕ → Text
print_digit_loop zero num base width padc = []
print_digit_loop (suc fuel) num base width padc =
    let rest = print_digit_loop fuel (do_div num base).0 base (width - 1) padc in
    if leb base num
    then rest ++ digit_char (do_div num base).1 ∷ []
    else replicate (width - 1) padc ++ digit_char num ∷ []

unfoldable pub print_digit : ℕ → ℕ → ℕ → ℕ → Text
print_digit num base width padc = print_digit_loop 64 num base width padc

unfoldable pub print_digit_no_pad_loop : ℕ → ℕ → ℕ → Text
print_digit_no_pad_loop zero num base = []
print_digit_no_pad_loop (suc fuel) num base =
    let rest = print_digit_no_pad_loop fuel (do_div num base).0 base in
    if leb base num then rest ++ digit_char (do_div num base).1 ∷ [] else digit_char num ∷ []

unfoldable pub print_digit_no_pad : ℕ → ℕ → Text
print_digit_no_pad num base = print_digit_no_pad_loop 64 num base

-- `print_num`, on the bits of its argument; `lflag` reads 64 of them.
unfoldable pub print_num : ℕ → ℕ → Bool → ℕ → ℕ → Bool → Text
print_num arg base lflag width padc left_align =
    let num = if lflag then arg % 2 ^ 64 else arg % 2 ^ 32 in
    if left_align
    then print_digit_no_pad num base ++ replicate (width - get_num_digits num base) b' '
    else print_digit num base width padc

-- The magnitude and the sign of the two's complement value of the argument's bits.
unfoldable pub signed_value : ℕ → Bool → ℕ × Bool
signed_value arg lflag =
    let bits = if lflag then 2 ^ 64 else 2 ^ 32 in
    let low = arg % bits in if ltb low (bits / 2) then (low, false) else (bits - low, true)

unfoldable pub print_signed_num : ℕ → ℕ → Bool → ℕ → ℕ → Bool → Text
print_signed_num arg base lflag width padc left_align =
    let (num, is_negative) = signed_value arg lflag in
    let num_digits = get_num_digits num base in
    let total_width = num_digits + (if is_negative then 1 else 0) in
    let sign : Text = if is_negative then b'-' ∷ [] else [] in
    if left_align
    then sign ++ print_digit_no_pad num base ++ replicate (width - total_width) b' '
    else if (padc == b'0') && is_negative
    then sign ++ replicate (width - total_width) b'0' ++ print_digit_no_pad num base
    else replicate (width - total_width) padc ++ sign ++ print_digit_no_pad num base

unfoldable pub print_str : Text → ℕ → Bool → Text
print_str s width left_align =
    let pad = replicate (width - length s) b' ' in
    (if not left_align && ltb (length s) width then pad else [])
    ++ s
    ++ (if left_align && ltb (length s) width then pad else [])

-- An argument of the variable list.
pub data Arg : Type 0 where
  word : ℕ → Arg
  text : Text → Arg

-- `va_arg` at a number, at a string; a missing argument reads as 0, as the empty string.
abbrev pub va_word : List Arg → ℕ
va_word [] = 0
va_word (word n ∷ args) = n
va_word (text s ∷ args) = 0

abbrev pub va_text : List Arg → Text
va_text [] = []
va_text (word n ∷ args) = []
va_text (text s ∷ args) = s

abbrev pub va_rest : List Arg → List Arg
va_rest [] = []
va_rest (a ∷ args) = args

-- The local variables of `cprintf`. `transfer` is the status FMT_TRANSFER.
pub record Format : Type 0 where
  pub transfer : Bool
  pub lflag : Bool
  pub width : ℕ
  pub left_align : Bool
  pub padc : ℕ

abbrev pub plain : Format
plain = record { transfer = false; lflag = false; width = 0; left_align = false; padc = b' ' }

-- One character of the format in the status FMT_TRANSFER: the new locals, what is printed, and
-- whether an argument was read.
unfoldable pub directive : ℕ → Format → List Arg → Format × Text × Bool
directive c f args =
    if c == b'-'
    then (record f { left_align = true }, [], false)
    else if c == b'0'
    then (record f { padc = b'0' }, [], false)
    else if leb b'1' c && leb c b'9'
    then (record f { width = f.width * 10 + (c - b'0') }, [], false)
    else if c == b'l'
    then (record f { lflag = true }, [], false)
    else if (c == b'x') || (c == b'p')
    then (
      record f { transfer = false },
      print_num (va_word args) 16 f.lflag f.width f.padc f.left_align,
      true,
    )
    else if c == b'd'
    then (
      record f { transfer = false },
      print_signed_num (va_word args) 10 f.lflag f.width f.padc f.left_align,
      true,
    )
    else if c == b'u'
    then (
      record f { transfer = false },
      print_num (va_word args) 10 f.lflag f.width f.padc f.left_align,
      true,
    )
    else if c == b's'
    then (record f { transfer = false }, print_str (va_text args) f.width f.left_align, true)
    else if c == b'c'
    then (record f { transfer = false }, va_word args ∷ [], true)
    else (f, [], false)

-- The loop of `cprintf` over the characters of the format.
unfoldable pub cprintf_loop : Text → Format → List Arg → Text
cprintf_loop [] f args = []
cprintf_loop (c ∷ fmt) f args =
    let (g, out, read) = directive c f args in
    let next = if f.transfer then g else record plain { transfer = c == b'%' } in
    let printed : Text = if f.transfer then out else if c == b'%' then [] else c ∷ [] in
    let left = if f.transfer && read then va_rest args else args in
    printed ++ cprintf_loop fmt next left

unfoldable pub cprintf : Text → List Arg → Text
cprintf fmt args = cprintf_loop fmt plain args
