-- ===== src/Links/Ring.antt =====
-- What a circular list stands for: the entries between two addresses, in order.
use zonix.Prelude.{
  ◌==◌, has, ◌∉◌, Distinct, ◌≡◌, true, false, List, [], ◌∷◌, ◌++◌, append_assoc, arith,
}
use zonix.Links.{Ptr, Links, list_link, list_unlink}

-- The two words that join neighbours agree.
abbrev pub Joined : Links → Ptr → Ptr → Type 0
Joined l p q = (l.next p ≡ q) × (l.prev q ≡ p)

-- From `p` the `next` words lead through `xs` to `q`, and the `prev` words back.
abbrev pub Chain : Links → Ptr → List Ptr → Ptr → Type 0
Chain l p [] q = Joined l p q
Chain l p (x ∷ xs) q = Joined l p x × Chain l x xs q

abbrev pub last_of : Ptr → List Ptr → Ptr
last_of p [] = p
last_of p (x ∷ xs) = last_of x xs

abbrev pub first_of_or : List Ptr → Ptr → Ptr
first_of_or [] q = q
first_of_or (x ∷ xs) q = x

-- A list with header `head` whose entries, from the header on, are `xs`.
pub record Ring (l : Links) (head : Ptr) (xs : List Ptr) : Type 0 where
  pub chain : Chain l head xs head
  pub apart : head ∉ xs
  pub distinct : Distinct xs

-- A chain reads `next` at `p` and the entries, `prev` at the entries and `q`.
pub Chain-frame :
    (l m : Links) (p q : Ptr) (xs : List Ptr)
    → ((a : Ptr) → has a (p ∷ xs) ≡ true → m.next a ≡ l.next a)
    → ((a : Ptr) → has a (q ∷ xs) ≡ true → m.prev a ≡ l.prev a)
    → Chain l p xs q
    → Chain m p xs q
Chain-frame l m p q [] fn fp c = ground (arith, fn p, fp q)
Chain-frame l m p q (x ∷ xs) fn fp c = (
  ground (arith, fn p, fp x),
  Chain-frame l m x q xs (λ a h. ground (arith, fn a)) (λ a h. ground (arith, fp a)) c.1,
)

-- The neighbours at a place inside a chain.
pub Chain-Joined :
    (l : Links) (p q : Ptr) (xs ys : List Ptr)
    → Chain l p (xs ++ ys) q
    → Joined l (last_of p xs) (first_of_or ys q)
Chain-Joined l p q [] [] c = c
Chain-Joined l p q [] (y ∷ ys) c = c.0
Chain-Joined l p q (x ∷ xs) ys c = Chain-Joined l x q xs ys c.1

pub not-last_of : (a x : Ptr) (xs ys : List Ptr) → a ∉ (x ∷ xs ++ ys) → (a == last_of x xs) ≡ false
not-last_of a x [] ys h = ground arith
not-last_of a x (y ∷ xs) ys h = not-last_of a y xs ys (ground arith)

not-first_of_or :
    (a q : Ptr) (xs ys : List Ptr)
    → a ∉ (xs ++ ys)
    → (a == q) ≡ false
    → (a == first_of_or ys q) ≡ false
not-first_of_or a q [] [] h e = e
not-first_of_or a q [] (y ∷ ys) h e = ground arith
not-first_of_or a q (x ∷ xs) ys h e = not-first_of_or a q xs ys (ground arith) e

-- Linking a new entry between two neighbours inserts it there.
pub Chain-list_link :
    (l : Links) (e p q : Ptr) (xs ys : List Ptr)
    → Chain l p (xs ++ ys) q
    → p ∉ (xs ++ ys)
    → q ∉ (xs ++ ys)
    → Distinct (xs ++ ys)
    → e ∉ (p ∷ q ∷ xs ++ ys)
    → Chain (list_link e (last_of p xs) (first_of_or ys q) l) p (xs ++ e ∷ ys) q
unfolding list_link
Chain-list_link l e p q [] [] c np nq d ne = ground arith
Chain-list_link l e p q [] (y ∷ ys) c np nq d ne = (
  ground arith,
  (ground arith, Chain-frame l _ y q ys (λ a h. ground arith) (λ a h. ground arith) c.1),
)
Chain-list_link l e p q (x ∷ xs) ys c np nq d ne = (
  ground (arith, not-last_of p x xs ys, not-first_of_or x q xs ys),
  Chain-list_link l e x q xs ys c.1 (ground arith) (ground arith) (ground arith) (ground arith),
)

-- Unlinking an entry takes it out and leaves the others in order.
pub Chain-list_unlink :
    (l : Links) (e p q : Ptr) (xs ys : List Ptr)
    → Chain l p (xs ++ e ∷ ys) q
    → p ∉ (xs ++ e ∷ ys)
    → q ∉ (xs ++ e ∷ ys)
    → Distinct (xs ++ e ∷ ys)
    → Chain (list_unlink (last_of p xs) (first_of_or ys q) l) p (xs ++ ys) q
unfolding list_unlink
Chain-list_unlink l e p q [] [] c np nq d = ground arith
Chain-list_unlink l e p q [] (y ∷ ys) c np nq d =
    (ground arith, Chain-frame l _ y q ys (λ a h. ground arith) (λ a h. ground arith) c.1.1)
Chain-list_unlink l e p q (x ∷ xs) ys c np nq d = (
  ground (
    arith,
    not-last_of p x xs (e ∷ ys),
    not-first_of_or x q (xs ++ e ∷ []) ys,
    append_assoc xs (e ∷ []) ys,
  ),
  Chain-list_unlink l e x q xs ys c.1 (ground arith) (ground arith) (ground arith),
)

-- The two words of an entry inside a chain.
pub Chain-around :
    (l : Links) (e p q : Ptr) (xs ys : List Ptr)
    → Chain l p (xs ++ e ∷ ys) q
    → (l.prev e ≡ last_of p xs) × (l.next e ≡ first_of_or ys q)
Chain-around l e p q [] [] c = (c.0.1, c.1.0)
Chain-around l e p q [] (y ∷ ys) c = (c.0.1, c.1.0.0)
Chain-around l e p q (x ∷ xs) ys c = Chain-around l e x q xs ys c.1
