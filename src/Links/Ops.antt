-- ===== src/Links/Ops.antt =====
-- The operations of kern/include/list.h, on the sequence that a ring stands for.
use zonix.Prelude.{
  has, ◌∉◌, has-append, has-insert, Distinct-insert, Distinct-remove, ◌≡◌, refl, sym, subst, true,
  List, [], ◌∷◌, ◌++◌, append-nil, append_assoc, arith,
}
use zonix.Links.{Ptr, Links, list_link, list_init, list_add_before, list_add, list_del, list_next}
use zonix.Links.Ring.{
  not-last_of, Chain, Ring, last_of, first_of_or, Chain-frame, Chain-Joined, Chain-around,
  Chain-list_link, Chain-list_unlink,
}

-- `list_init` makes an empty list of its header.
pub Ring-list_init : (l : Links) (h : Ptr) → Ring (list_init h l) h []
unfolding list_init
Ring-list_init l h = record { chain = ground arith; apart = refl; distinct = tt }

-- `list_add` behind the entry at any place (behind the header if `xs` is empty) inserts there.
pub Ring-list_add :
    (l : Links) (h e : Ptr) (xs ys : List Ptr)
    → Ring l h (xs ++ ys)
    → e ∉ (h ∷ xs ++ ys)
    → Ring (list_add (last_of h xs) e l) h (xs ++ e ∷ ys)
unfolding list_add
Ring-list_add l h e xs ys r n = record {
  chain =
      subst (λ b. Chain (list_link e (last_of h xs) b l) h (xs ++ e ∷ ys) h)
        (sym (Chain-Joined l h h xs ys r.chain).0)
        (Chain-list_link l e h h xs ys r.chain r.apart r.apart r.distinct (ground arith));
  apart = ground (arith, has-insert h e xs ys, r.apart);
  distinct = Distinct-insert e xs ys r.distinct (ground arith);
}

-- `list_add_before` the header puts the entry last.
pub Ring-list_add_before :
    (l : Links) (h e : Ptr) (xs : List Ptr)
    → Ring l h xs
    → e ∉ (h ∷ xs)
    → Ring (list_add_before h e l) h (xs ++ e ∷ [])
unfolding list_add_before
Ring-list_add_before l h e xs r n =
    let whole : Ring l h (xs ++ []) = rw append-nil r in
    record {
      chain =
          subst (λ a. Chain (list_link e a h l) h (xs ++ e ∷ []) h)
            (sym (Chain-Joined l h h xs [] whole.chain).1)
            (Chain-list_link l e h h xs [] whole.chain whole.apart whole.apart whole.distinct
              (ground (arith, has-append e xs [])));
      apart = ground (arith, has-append h xs (e ∷ []), r.apart);
      distinct = Distinct-insert e xs [] whole.distinct (ground (arith, has-append e xs []));
    }

-- `list_del` takes out exactly its entry.
pub Ring-list_del :
    (l : Links) (h e : Ptr) (xs ys : List Ptr)
    → Ring l h (xs ++ e ∷ ys)
    → Ring (list_del e l) h (xs ++ ys)
unfolding list_del
Ring-list_del l h e xs ys r =
    let (before, after) = Chain-around l e h h xs ys r.chain in
    let (kept, gone) = Distinct-remove e xs ys r.distinct in
    record {
      chain =
          rw (before, after) (Chain-list_unlink l e h h xs ys r.chain r.apart r.apart r.distinct);
      apart = ground (arith, has-insert h e xs ys, r.apart);
      distinct = kept;
    }

-- The walk of a loop: `next` of the header, or of an entry, is the next entry or the header.
pub next-Ring :
    (l : Links) (h : Ptr) (xs ys : List Ptr)
    → Ring l h (xs ++ ys)
    → list_next (last_of h xs) l ≡ first_of_or ys h
unfolding list_next
next-Ring l h xs ys r = (Chain-Joined l h h xs ys r.chain).0

-- The entry before the header is the last.
pub prev-Ring :
    (l : Links) (h : Ptr) (xs ys : List Ptr)
    → Ring l h (xs ++ ys)
    → l.prev (first_of_or ys h) ≡ last_of h xs
prev-Ring l h xs ys r = (Chain-Joined l h h xs ys r.chain).1

-- A ring is read only at its own addresses.
pub Ring-frame :
    (l m : Links) (h : Ptr) (xs : List Ptr)
    → ((a : Ptr) → has a (h ∷ xs) ≡ true → (m.next a ≡ l.next a) × (m.prev a ≡ l.prev a))
    → Ring l h xs
    → Ring m h xs
Ring-frame l m h xs f r = record {
  chain = Chain-frame l m h h xs (λ a k. (f a k).0) (λ a k. (f a k).1) r.chain;
  apart = r.apart;
  distinct = r.distinct;
}

pub last_of_snoc : (h e : Ptr) (xs : List Ptr) → last_of h (xs ++ e ∷ []) ≡ e
last_of_snoc h e [] = refl
last_of_snoc h e (x ∷ xs) = last_of_snoc x e xs

-- `list_add` behind an entry of the list.
pub Ring-list_add_entry :
    (l : Links) (h e f : Ptr) (xs ys : List Ptr)
    → Ring l h (xs ++ e ∷ ys)
    → f ∉ (h ∷ xs ++ e ∷ ys)
    → Ring (list_add e f l) h (xs ++ e ∷ f ∷ ys)
Ring-list_add_entry l h e f xs ys r n =
    let at = append_assoc xs (e ∷ []) in
    let whole : Ring l h ((xs ++ e ∷ []) ++ ys) = rw (at ys) r in
    let fresh : f ∉ (h ∷ (xs ++ e ∷ []) ++ ys) = rw (at ys) n in
    let added = Ring-list_add l h f (xs ++ e ∷ []) ys whole fresh in
    rw (last_of_snoc h e xs, at (f ∷ ys)) at added

-- The same walk from an entry of the list.
pub next-Ring_entry :
    (l : Links) (h e : Ptr) (xs ys : List Ptr)
    → Ring l h (xs ++ e ∷ ys)
    → list_next e l ≡ first_of_or ys h
unfolding list_next
next-Ring_entry l h e xs ys r = (Chain-around l e h h xs ys r.chain).1

-- An entry that was just taken out still leads on, so that a loop can go on from it.
pub next-list_del :
    (l : Links) (h e : Ptr) (xs ys : List Ptr)
    → Ring l h (xs ++ e ∷ ys)
    → list_next e (list_del e l) ≡ first_of_or ys h
unfolding list_del list_next
next-list_del l h e xs ys r =
    let (before, after) = Chain-around l e h h xs ys r.chain in
    let (kept, gone) = Distinct-remove e xs ys r.distinct in
    let other : e ∉ (h ∷ xs ++ ys) = ground (arith, has-insert h e xs ys, r.apart) in
    rw (before, not-last_of e h xs ys other) after
