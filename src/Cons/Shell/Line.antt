-- ===== src/Cons/Shell/Line.antt =====
-- The line editor of kern/cons/shell.c against an editor of a list of characters.
use zonix.Prelude.{
  ltb, leb, ◌==◌, if◌then◌else◌, Bool-cases, length, length-append, ℕ, zero, suc, ◌+◌, ◌-◌, ◌≤◌,
  ◌<◌, ◌≡◌, refl, ap, ◌∙◌, ◌≢◌, inl, inr, true, false, ◌&&◌, ◌||◌, List, [], ◌∷◌, ◌++◌, arith,
}
use zonix.Cons.Stdio.{Text}
use zonix.Cons.Shell.{
  Event, putc, prompt, Shell, write_char, string_at, enter, erase_char, type_char,
  shell_handle_char, shell_init, execute_command, ascii_del,
}
use zonix.Cons.Shell.Match.{NoNul}

abbrev pub drop_last : Text → Text
drop_last [] = []
drop_last (x ∷ []) = []
drop_last (x ∷ y ∷ xs) = x ∷ drop_last (y ∷ xs)

abbrev pub typed : ℕ → Text → Text × List Event
typed c xs =
    if ltb (length xs) 127 && leb 0x20 c && ltb c 0x7F
    then (xs ++ c ∷ [], putc c ∷ [])
    else (xs, [])

-- The editor on the line itself: a key gives the new line and the events.
abbrev pub edit : List Text → ℕ → Text → Text × List Event
edit commands c xs =
    if (c == 0) || leb 128 c
    then (xs, [])
    else if (c == 10) || (c == 13)
    then ([], (putc 10 ∷ []) ++ execute_command commands xs ++ prompt ∷ [])
    else if c == 8
    then (drop_last xs, if ltb 0 (length xs) then putc 8 ∷ [] else [])
    else if c == ascii_del
    then (xs, [])
    else typed c xs

-- The characters `xs` stand in the buffer from place `i`.
abbrev pub At : (ℕ → ℕ) → ℕ → Text → Type 0
At buf i [] = Unit {0}
At buf i (x ∷ xs) = (buf i ≡ x) × At buf (i + 1) xs

-- The shell holds the line `xs`.
abbrev pub Line : Shell → Text → Type 0
Line s xs = (s.cmd_pos ≡ length xs) × (length xs ≤ 127) × NoNul xs × At s.cmd_buffer 0 xs

write_char-other : (buf : ℕ → ℕ) (p c j : ℕ) → j ≢ p → write_char buf p c j ≡ buf j
write_char-other buf p c j h = let t : (j == p) ≡ false = ground arith in rw t

write_char-same : (buf : ℕ → ℕ) (p c j : ℕ) → j ≡ p → write_char buf p c j ≡ c
write_char-same buf p c j h = let t : (j == p) ≡ true = ground arith in rw t

At-write_char :
    (buf : ℕ → ℕ) (p c i : ℕ) (xs : Text)
    → i + length xs ≤ p
    → At buf i xs
    → At (write_char buf p c) i xs
At-write_char buf p c i [] h a = tt
At-write_char buf p c i (x ∷ xs) h a = (
  write_char-other buf p c i (ground arith) ∙ a.0,
  At-write_char buf p c (i + 1) xs (ground arith) a.1,
)

At-snoc :
    (buf : ℕ → ℕ) (i c : ℕ) (xs : Text)
    → At buf i xs
    → buf (i + length xs) ≡ c
    → At buf i (xs ++ c ∷ [])
At-snoc buf i c [] a h = (ap buf (ground arith) ∙ h, tt)
At-snoc buf i c (x ∷ xs) a h = (a.0, At-snoc buf (i + 1) c xs a.1 (ap buf (ground arith) ∙ h))

At-drop_last : (buf : ℕ → ℕ) (i : ℕ) (xs : Text) → At buf i xs → At buf i (drop_last xs)
At-drop_last buf i [] a = tt
At-drop_last buf i (x ∷ []) a = tt
At-drop_last buf i (x ∷ y ∷ xs) a = (a.0, At-drop_last buf (i + 1) (y ∷ xs) a.1)

NoNul-drop_last : (xs : Text) → NoNul xs → NoNul (drop_last xs)
NoNul-drop_last [] a = tt
NoNul-drop_last (x ∷ []) a = tt
NoNul-drop_last (x ∷ y ∷ xs) a = (a.0, NoNul-drop_last (y ∷ xs) a.1)

NoNul-snoc : (c : ℕ) (xs : Text) → NoNul xs → c ≢ 0 → NoNul (xs ++ c ∷ [])
NoNul-snoc c [] a h = (h, tt)
NoNul-snoc c (x ∷ xs) a h = (a.0, NoNul-snoc c xs a.1 h)

length-drop_last : (xs : Text) → length (drop_last xs) ≡ length xs - 1
length-drop_last [] = refl
length-drop_last (x ∷ []) = refl
length-drop_last (x ∷ y ∷ xs) = let e = length-drop_last (y ∷ xs) in ground arith

-- The string in the buffer is the line, if a NUL stands behind it.
string_at-At :
    (n i : ℕ) (buf : ℕ → ℕ) (xs : Text)
    → length xs < n
    → NoNul xs
    → At buf i xs
    → buf (i + length xs) ≡ 0
    → string_at n buf i ≡ xs
unfolding string_at
string_at-At zero i buf xs h nn a z = ground arith
string_at-At (suc n) i buf [] h nn a z =
    let t : (buf i == 0) ≡ true = rw (ap buf {x = i} (ground arith) ∙ z) in rw t
string_at-At (suc n) i buf (x ∷ xs) h nn a z =
    let rest = string_at-At n (i + 1) buf xs (ground arith) nn.1 a.1 (ap buf (ground arith) ∙ z) in
    let t : (buf i == 0) ≡ false = rw a.0 (ground (arith, nn.0)) in
    rw t (rw rest (ap (λ c. c ∷ xs) a.0))

type_char-Line :
    (c : ℕ) (s : Shell) (xs : Text)
    → Line s xs
    → length xs < 127
    → 0x20 ≤ c
    → c < 0x7F
    → (Line (type_char c s).0 (xs ++ c ∷ [])) × ((type_char c s).1 ≡ putc c ∷ [])
unfolding type_char
type_char-Line c s xs (e, b, nn, a) lt lo hi =
    let t : (ltb s.cmd_pos 127 && leb 0x20 c && ltb c 0x7F) ≡ true = ground arith in
    let here : write_char s.cmd_buffer s.cmd_pos c (0 + length xs) ≡ c =
      write_char-same s.cmd_buffer s.cmd_pos c (0 + length xs) (ground arith) in
    rw t (
      (
        ground (arith, length-append xs (c ∷ [])),
        ground (arith, length-append xs (c ∷ [])),
        NoNul-snoc c xs nn (λ z. ground arith),
        At-snoc (write_char s.cmd_buffer s.cmd_pos c) 0 c xs
            (At-write_char s.cmd_buffer s.cmd_pos c 0 xs (ground arith) a) here,
      ),
      refl,
    )

erase_char-Line :
    (s : Shell) (xs : Text)
    → Line s xs
    → (Line (erase_char s).0 (drop_last xs))
      × ((erase_char s).1 ≡ (if ltb 0 (length xs) then putc 8 ∷ [] else []))
unfolding erase_char
erase_char-Line s [] (e, b, nn, a) =
    let t : ltb 0 s.cmd_pos ≡ false = ground arith in rw t ((e, b, nn, a), refl)
erase_char-Line s (x ∷ xs) (e, b, nn, a) =
    let t : ltb 0 s.cmd_pos ≡ true = ground arith in
    let t1 : ltb 0 (suc (length xs)) ≡ true = ground arith in
    let d = length-drop_last (x ∷ xs) in
    rw t (
      (
        ground arith,
        ground arith,
        NoNul-drop_last (x ∷ xs) nn,
        At-drop_last s.cmd_buffer 0 (x ∷ xs) a,
      ),
      rw t1,
    )

enter-Line :
    (commands : List Text) (s : Shell) (xs : Text)
    → Line s xs
    → (Line (enter commands s).0 [])
      × ((enter commands s).1 ≡ (putc 10 ∷ []) ++ execute_command commands xs ++ prompt ∷ [])
unfolding enter
enter-Line commands s xs (e, b, nn, a) =
    let line : string_at 128 (write_char s.cmd_buffer s.cmd_pos 0) 0 ≡ xs =
      string_at-At 128 0 (write_char s.cmd_buffer s.cmd_pos 0) xs (ground arith) nn
        (At-write_char s.cmd_buffer s.cmd_pos 0 0 xs (ground arith) a)
        (write_char-same s.cmd_buffer s.cmd_pos 0 (0 + length xs) (ground arith)) in
    (
      (refl, ground arith, tt, tt),
      ap (λ t. (putc 10 ∷ []) ++ execute_command commands t ++ prompt ∷ []) line,
    )

type_char_full :
    (c : ℕ) (s : Shell) (xs : Text)
    → Line s xs
    → (ltb (length xs) 127 && leb 0x20 c && ltb c 0x7F) ≡ false
    → type_char c s ≡ (s, [])
unfolding type_char
type_char_full c s xs (e, b, nn, a) h =
    let t : (ltb s.cmd_pos 127 && leb 0x20 c && ltb c 0x7F) ≡ false = rw e h in rw t

type_char-edit :
    (c : ℕ) (s : Shell) (xs : Text)
    → Line s xs
    → (Line (type_char c s).0 (typed c xs).0) × ((type_char c s).1 ≡ (typed c xs).1)
type_char-edit c s xs l = elim (Bool-cases (ltb (length xs) 127 && leb 0x20 c && ltb c 0x7F)) [
  | inl e ↦ rw e (type_char-Line c s xs l (ground arith) (ground arith) (ground arith))
  | inr e ↦ rw (e, type_char_full c s xs l e) (l, refl)
]

-- A shell that holds the line `xs` does at every key what the editor does on `xs`: the same events,
-- and it then holds the editor's new line, which is never longer than 127 characters.
pub shell_handle_char-Line :
    (commands : List Text) (c : ℕ) (s : Shell) (xs : Text)
    → Line s xs
    → (Line (shell_handle_char commands c s).0 (edit commands c xs).0)
      × ((shell_handle_char commands c s).1 ≡ (edit commands c xs).1)
unfolding shell_handle_char
shell_handle_char-Line commands c s xs l = elim (Bool-cases ((c == 0) || leb 128 c)) [
  | inl e ↦ rw e (l, refl)
  | inr e ↦ rw e (elim (Bool-cases ((c == 10) || (c == 13))) [
    | inl e ↦ rw e (enter-Line commands s xs l)
    | inr e ↦ rw e (elim (Bool-cases (c == 8)) [
      | inl e ↦ rw e (erase_char-Line s xs l)
      | inr e ↦ rw e (elim (Bool-cases (c == ascii_del)) [
        | inl e ↦ rw e (l, refl)
        | inr e ↦ rw e (type_char-edit c s xs l)
      ])
    ])
  ])
]

-- The shell's first line is empty.
pub shell_init-Line : (s : Shell) → Line (shell_init s) []
unfolding shell_init
shell_init-Line s = (refl, ground arith, tt, tt)
