-- ===== src/Prelude/Lists.antt =====
-- Lists measured and indexed by native numbers, and membership as a test.
use Prim.Native.Nat.{ℕ, zero, suc, ◌+◌}
use mathlib.Core.Path.{◌≡◌, refl, ap}
use mathlib.Core.Bool.{Bool, false, ◌||◌}
use mathlib.Core.List.{List, [], ◌∷◌, ◌++◌}
use mathlib.Core.Option.{Option, none, some}
use native.Mathlib.Omega.{arith}
use Prim.Native.String.{String}
use Prim.Native.Char.{code}
use zonix.Prelude.Tests.{◌==◌}

module _ {ℓ} {A : Type ℓ} where
  abbrev pub length : List A → ℕ
  length [] = 0
  length (x ∷ xs) = suc (length xs)

  abbrev pub get_elem? : List A → ℕ → Option A
  get_elem? [] i = none
  get_elem? (x ∷ xs) zero = some x
  get_elem? (x ∷ xs) (suc i) = get_elem? xs i

  abbrev pub get_or : List A → ℕ → A → A
  get_or [] i d = d
  get_or (x ∷ xs) zero d = x
  get_or (x ∷ xs) (suc i) d = get_or xs i d

  -- A write out of bounds changes nothing.
  abbrev pub set : List A → ℕ → A → List A
  set [] i v = []
  set (x ∷ xs) zero v = v ∷ xs
  set (x ∷ xs) (suc i) v = x ∷ set xs i v

  abbrev pub take : ℕ → List A → List A
  take zero xs = []
  take (suc n) [] = []
  take (suc n) (x ∷ xs) = x ∷ take n xs

  abbrev pub replicate : ℕ → A → List A
  replicate zero a = []
  replicate (suc n) a = a ∷ replicate n a

  pub length-append : (xs ys : List A) → length (xs ++ ys) ≡ length xs + length ys
  length-append [] ys = omega arith
  length-append (x ∷ xs) ys = omega (arith, length-append xs ys)

  pub length-replicate : (n : ℕ) (a : A) → length (replicate n a) ≡ n
  length-replicate zero a = refl
  length-replicate (suc n) a = ap suc (length-replicate n a)

abbrev pub has : ℕ → List ℕ → Bool
has a [] = false
has a (x ∷ xs) = (a == x) || has a xs

infix 40 ◌∉◌
abbrev pub ◌∉◌ : ℕ → List ℕ → Type 0
a ∉ xs = has a xs ≡ false

-- No address occurs twice.
abbrev pub Distinct : List ℕ → Type 0
Distinct [] = Unit {0}
Distinct (x ∷ xs) = (x ∉ xs) × Distinct xs

pub has-append : (a : ℕ) (xs ys : List ℕ) → has a (xs ++ ys) ≡ (has a xs || has a ys)
has-append a [] ys = refl
has-append a (x ∷ xs) ys = ground (arith, has-append a xs ys)

-- An entry in the middle of a list.
pub has-insert : (a e : ℕ) (xs ys : List ℕ) → has a (xs ++ e ∷ ys) ≡ ((a == e) || has a (xs ++ ys))
has-insert a e [] ys = refl
has-insert a e (x ∷ xs) ys = ground (arith, has-insert a e xs ys)

pub Distinct-insert :
    (e : ℕ) (xs ys : List ℕ) → Distinct (xs ++ ys) → e ∉ (xs ++ ys) → Distinct (xs ++ e ∷ ys)
Distinct-insert e [] ys d n = (n, d)
Distinct-insert e (x ∷ xs) ys d n =
    (ground (arith, has-insert x e xs ys), Distinct-insert e xs ys d.1 (ground arith))

pub Distinct-remove :
    (e : ℕ) (xs ys : List ℕ) → Distinct (xs ++ e ∷ ys) → Distinct (xs ++ ys) × (e ∉ (xs ++ ys))
Distinct-remove e [] ys d = (d.1, d.0)
Distinct-remove e (x ∷ xs) ys d =
    let (r, n) = Distinct-remove e xs ys d.1 in
    ((ground (arith, has-insert x e xs ys), r), ground (arith, has-insert x e xs ys))

-- The code points of a text: its bytes, if it is ASCII.
abbrev pub codes : String → List ℕ
codes String.[] = []
codes (String.◌∷◌ c s) = code c ∷ codes s
