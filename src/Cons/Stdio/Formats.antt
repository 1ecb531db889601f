-- ===== src/Cons/Stdio/Formats.antt =====
-- The formats of `cprintf` in kern/cons/stdio.c.
use zonix.Prelude.{
  leb, ◌==◌, ℕ, ◌+◌, ◌-◌, ◌*◌, ◌≤◌, ◌≡◌, refl, ap, ◌∙◌, ◌≢◌, Bool, true, false, List, [], ◌∷◌, ◌++◌,
  arith,
}
use zonix.Cons.Stdio.{Text, Arg, text, Format, plain, print_str, directive, cprintf_loop, cprintf}

-- No character of the text starts a directive.
abbrev pub IsPlain : Text → Type 0
IsPlain [] = Unit {0}
IsPlain (c ∷ s) = (c ≢ b'%') × IsPlain s

plain_loop :
    (s fmt : Text) (args : List Arg)
    → IsPlain s
    → cprintf_loop (s ++ fmt) plain args ≡ s ++ cprintf_loop fmt plain args
unfolding cprintf_loop
plain_loop [] fmt args p = refl
plain_loop (c ∷ s) fmt args p =
    let test : (c == b'%') ≡ false = ground arith in rw (test, plain_loop s fmt args p.1)

-- What stands before the first directive is printed as it is.
pub cprintf_plain :
    (s fmt : Text) (args : List Arg) → IsPlain s → cprintf (s ++ fmt) args ≡ s ++ cprintf fmt args
unfolding cprintf
cprintf_plain s fmt args p = plain_loop s fmt args p

-- The locals in the status FMT_TRANSFER, after `%` and the width so far.
abbrev field : ℕ → Bool → ℕ → Format
field width left_align padc = record {
  transfer = true;
  lflag = false;
  width = width;
  left_align = left_align;
  padc = padc;
}

-- In the status FMT_NONE the other locals do not matter.
none_loop :
    (fmt : Text) (f : Format) (args : List Arg)
    → f.transfer ≡ false
    → cprintf_loop fmt f args ≡ cprintf fmt args
unfolding cprintf_loop cprintf
none_loop [] f args e = refl
none_loop (c ∷ fmt) f args e = rw e

module _ (fmt : Text) (width padc : ℕ) (left_align : Bool) (args : List Arg) where
  digit_lem :
      (d : ℕ)
      → 1 ≤ d
      → d ≤ 9
      → directive (b'0' + d) (field width left_align padc) args
        ≡ (field (width * 10 + d) left_align padc, [], false)
  unfolding directive
  digit_lem d l h =
      let dash : (b'0' + d == b'-') ≡ false = ground arith in
      let zero_ : (b'0' + d == b'0') ≡ false = ground arith in
      let from : leb b'1' (b'0' + d) ≡ true = ground arith in
      let to : leb (b'0' + d) b'9' ≡ true = ground arith in
      let value : b'0' + d - b'0' ≡ d = omega arith in rw (dash, zero_, from, to, value)

  digit_step :
      (d : ℕ)
      → 1 ≤ d
      → d ≤ 9
      → cprintf_loop ((b'0' + d) ∷ fmt) (field width left_align padc) args
        ≡ cprintf_loop fmt (field (width * 10 + d) left_align padc) args
  unfolding cprintf_loop
  digit_step d l h = rw (digit_lem d l h)

  zero_step :
      cprintf_loop (b'0' ∷ fmt) (field width left_align padc) args
      ≡ cprintf_loop fmt (field width left_align b'0') args
  unfolding cprintf_loop directive
  zero_step = refl

  dash_step :
      cprintf_loop (b'-' ∷ fmt) (field width left_align padc) args
      ≡ cprintf_loop fmt (field width true padc) args
  unfolding cprintf_loop directive
  dash_step = refl

  string_step :
      (s : Text)
      → cprintf_loop (b's' ∷ fmt) (field width left_align padc) (text s ∷ args)
        ≡ print_str s width left_align ++ cprintf fmt args
  unfolding cprintf_loop directive
  string_step s =
      ap (λ x. print_str s width left_align ++ x)
        (none_loop fmt (record (field width left_align padc) { transfer = false }) args refl)

start :
    (fmt : Text) (args : List Arg)
    → cprintf (b'%' ∷ fmt) args ≡ cprintf_loop fmt (field 0 false b' ') args
unfolding cprintf cprintf_loop
start fmt args = refl

-- A string in a field whose width is written with two digits other than 0 is printed on the right
-- of a field of that width, or on the left if the width follows a dash.
pub cprintf_width :
    (d e : ℕ) (s fmt : Text) (args : List Arg)
    → (1 ≤ d) × (d ≤ 9) × (1 ≤ e) × (e ≤ 9)
    → (cprintf (b'%' ∷ (b'0' + d) ∷ (b'0' + e) ∷ b's' ∷ fmt) (text s ∷ args)
        ≡ print_str s (d * 10 + e) false ++ cprintf fmt args)
      × (cprintf (b'%' ∷ b'-' ∷ (b'0' + d) ∷ (b'0' + e) ∷ b's' ∷ fmt) (text s ∷ args)
          ≡ print_str s (d * 10 + e) true ++ cprintf fmt args)
cprintf_width d e s fmt args (ld, hd, le, he) =
    let second = λ (left_align : Bool).
      digit_step ((b'0' + e) ∷ b's' ∷ fmt) 0 b' ' left_align (text s ∷ args) d ld hd
      ∙ digit_step (b's' ∷ fmt) (0 * 10 + d) b' ' left_align (text s ∷ args) e le he
      ∙ string_step fmt ((0 * 10 + d) * 10 + e) b' ' left_align args s in
    let width : (0 * 10 + d) * 10 + e ≡ d * 10 + e = omega arith in
    (
      start ((b'0' + d) ∷ (b'0' + e) ∷ b's' ∷ fmt) (text s ∷ args) ∙ rw width at (second false),
      start (b'-' ∷ (b'0' + d) ∷ (b'0' + e) ∷ b's' ∷ fmt) (text s ∷ args)
          ∙ dash_step ((b'0' + d) ∷ (b'0' + e) ∷ b's' ∷ fmt) 0 b' ' false (text s ∷ args)
          ∙ rw width at (second true),
    )

-- A 0 inside a width is not a digit of it: `%-d0s` prints in a field of width `d`, and not `10 * d`.
pub cprintf_width_zero :
    (d : ℕ) (s fmt : Text) (args : List Arg)
    → (1 ≤ d) × (d ≤ 9)
    → cprintf (b'%' ∷ b'-' ∷ (b'0' + d) ∷ b'0' ∷ b's' ∷ fmt) (text s ∷ args)
      ≡ print_str s d true ++ cprintf fmt args
cprintf_width_zero d s fmt args (ld, hd) =
    let width : 0 * 10 + d ≡ d = omega arith in
    start (b'-' ∷ (b'0' + d) ∷ b'0' ∷ b's' ∷ fmt) (text s ∷ args)
    ∙ dash_step ((b'0' + d) ∷ b'0' ∷ b's' ∷ fmt) 0 b' ' false (text s ∷ args)
    ∙ digit_step (b'0' ∷ b's' ∷ fmt) 0 b' ' true (text s ∷ args) d ld hd
    ∙ zero_step (b's' ∷ fmt) (0 * 10 + d) b' ' true (text s ∷ args)
    ∙ string_step fmt (0 * 10 + d) b'0' true args s
    ∙ ap (λ w. print_str s w true ++ cprintf fmt args) width
