-- ===== src/Cons/Shell/Match.antt =====
-- The choice of a command in kern/cons/shell.c.
use zonix.Prelude.{
  ◌==◌, if◌then◌else◌, eq-beq, beq_self, Bool-cases, length, ℕ, suc, ◌+◌, ◌≡◌, refl, sym, ap, ◌∙◌,
  ◌≢◌, ◌↔◌, ◌⊎◌, inl, inr, true, false, false≢true, some, List, [], ◌∷◌, ◌++◌, arith,
}
use zonix.Cons.Stdio.{Text}
use zonix.Cons.Shell.{strncmp_loop, strncmp_zero, matches, find_command}

-- No NUL among the characters.
abbrev pub NoNul : Text → Type 0
NoNul [] = Unit {0}
NoNul (c ∷ s) = (c ≢ 0) × NoNul s

-- What is left of `cmd` behind `name`, if `name` is a whole word at its start.
abbrev pub EndsWord : Text → Type 0
EndsWord rest = (rest ≡ []) ⊎ ((t : Text) × (rest ≡ b' ' ∷ t))

matches_cons :
    (c d : ℕ) (s t : Text)
    → c ≢ 0
    → matches (c ∷ s) (d ∷ t) ≡ (if c == d then matches s t else false)
unfolding matches strncmp_zero strncmp_loop
matches_cons c d s t h =
    let inner : (c == 0) ≡ false = ground arith in
    let more : (suc (length t) == 0) ≡ false = ground arith in
    elim (Bool-cases (c == d)) [ inl e ↦ rw (inner, e) | inr e ↦ rw (inner, e, more, e) ]

matches_nil : (d : ℕ) (t : Text) → d ≢ 0 → matches [] (d ∷ t) ≡ false
unfolding matches strncmp_zero strncmp_loop
matches_nil d t h =
    let more : (suc (length t) == 0) ≡ false = ground arith in
    let differ : (0 == d) ≡ false = ground arith in rw (more, differ)

-- A name that `matches` finds stands at the start of the command, whole and followed by the end or a
-- space.
pub matches_sound :
    (cmd name : Text)
    → NoNul cmd
    → NoNul name
    → matches cmd name ≡ true
    → (rest : Text) × (cmd ≡ name ++ rest) × EndsWord rest
matches_sound [] [] nc nn h = ([], refl, inl refl)
matches_sound (c ∷ s) [] nc nn h = (c ∷ s, refl, inr (s, ap (λ x. x ∷ s) (is_space c nc.0 h)))
  where
    is_space : (c : ℕ) → c ≢ 0 → matches (c ∷ s) [] ≡ true → c ≡ b' '
    is_space c n h = unfold matches strncmp_zero strncmp_loop in ground arith
matches_sound [] (d ∷ t) nc nn h = absurd (false≢true (sym (matches_nil d t nn.0) ∙ h))
matches_sound (c ∷ s) (d ∷ t) nc nn h = elim (Bool-cases (c == d)) [
  | inl e ↦
      let tail : matches s t ≡ true = rw e at (sym (matches_cons c d s t nc.0) ∙ h) in
      let (rest, whole, ends) = matches_sound s t nc.1 nn.1 tail in
      (rest, rw (eq-beq c d e) (ap (λ x. d ∷ x) whole), ends)
  | inr e ↦ absurd (false≢true (rw e at (sym (matches_cons c d s t nc.0) ∙ h)))
]

-- And every such name is found.
pub matches_complete :
    (name rest : Text) → NoNul name → EndsWord rest → matches (name ++ rest) name ≡ true
matches_complete [] rest nn (inl e) = unfold matches strncmp_zero strncmp_loop in rw e
matches_complete [] rest nn (inr (t, e)) = unfold matches strncmp_zero strncmp_loop in rw e
matches_complete (d ∷ t) rest nn ends =
    matches_cons d d (t ++ rest) t nn.0 ∙ rw (beq_self d) (matches_complete t rest nn.1 ends)

-- The first name in the table that the command matches is at place `i`.
abbrev pub IsFirst : ℕ → List Text → Text → ℕ → Type 0
IsFirst i [] cmd k = ⊥
IsFirst i (name ∷ names) cmd k =
    ((k ≡ i) × (matches cmd name ≡ true))
    ⊎ ((matches cmd name ≡ false) × IsFirst (i + 1) names cmd k)

-- `find_command` gives the place of the first name that the command matches, and `none` if it
-- matches none.
pub find_command-IsFirst :
    (i : ℕ) (names : List Text) (cmd : Text) (k : ℕ)
    → (find_command i names cmd ≡ some k) ↔ IsFirst i names cmd k
unfolding find_command
find_command-IsFirst i [] cmd k = (λ e. cc, λ b. absurd b)
find_command-IsFirst i (name ∷ names) cmd k =
    let (from, to) = find_command-IsFirst (i + 1) names cmd k in
    elim (Bool-cases (matches cmd name)) [
      | inl hit ↦ rw hit (λ e. inl (ground arith, refl), λ d. ground arith)
      | inr miss ↦ rw miss (λ e. inr (refl, from e), λ d. ground (arith, to))
    ]
