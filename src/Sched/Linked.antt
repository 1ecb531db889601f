-- ===== src/Sched/Linked.antt =====
-- The list of all tasks and the hash table of kern/sched/sched.c, which share one store of links.
use zonix.Prelude.{
  ◌==◌, if◌then◌else◌, eq-beq, beq_self, Bool-cases, has, ◌∉◌, ℕ, ◌<◌, ◌≡◌, refl, sym, ap, ◌∙◌, ◌≢◌,
  ◌⊎◌, inl, inr, true, false, false≢true, List, [], ◌∷◌, arith,
}
use zonix.Links.{Ptr, Links, list_link as join, list_next, list_add, list_add_after}
use zonix.Links.Ring.{Ring}
use zonix.Links.Ops.{Ring-frame, next-Ring}
use zonix.Sched.{Task, proc_list, hash_list, hash_link, list_link}
use zonix.Sched.Pick.{list_links}
use zonix.Sched.Hash.{hash_links}

-- The tasks of the list whose hash is `h`.
abbrev pub bucket : (Task → ℕ) → ℕ → List Task → List Task
bucket hash h [] = []
bucket hash h (p ∷ ps) = if hash p == h then p ∷ bucket hash h ps else bucket hash h ps

-- The list of all tasks is `ps`, and each list of the table has those of the hash, in that order.
abbrev pub Linked : Links → (Task → ℕ) → List Task → Type 0
Linked l hash ps =
    Ring l proc_list (list_links ps)
    × ((h : ℕ) → h < 1024 → Ring l (hash_list h) (hash_links (bucket hash h ps)))

pub list_add-other :
    (l : Links) (h e a : Ptr)
    → a ≢ h
    → a ≢ e
    → a ≢ l.next h
    → ((list_add h e l).next a ≡ l.next a) × ((list_add h e l).prev a ≡ l.prev a)
unfolding list_add list_add_after join
list_add-other l h e a n m k = ground arith

-- A list of the table: none of its addresses is one of the list of all tasks.
first-hash :
    (l : Links) (h : ℕ) (ps : List Task)
    → Ring l (hash_list h) (hash_links ps)
    → (l.next (hash_list h) ≡ hash_list h)
      ⊎ ((q : Task) × (has q ps ≡ true) × (l.next (hash_list h) ≡ hash_link q))
unfolding list_next
first-hash l h [] r = inl (next-Ring l (hash_list h) [] [] r)
first-hash l h (q ∷ ps) r =
    inr (q, ground (arith, beq_self q), next-Ring l (hash_list h) [] (hash_links (q ∷ ps)) r)

pub first-list :
    (l : Links) (ps : List Task)
    → Ring l proc_list (list_links ps)
    → (l.next proc_list ≡ proc_list) ⊎ ((q : Task) × (l.next proc_list ≡ list_link q))
unfolding list_next
first-list l [] r = inl (next-Ring l proc_list [] [] r)
first-list l (q ∷ ps) r = inr (q, next-Ring l proc_list [] (list_links (q ∷ ps)) r)

in_list_links :
    (a : Ptr) (ps : List Task) → has a (list_links ps) ≡ true → (q : Task) × (a ≡ list_link q)
in_list_links a [] h = absurd (false≢true h)
in_list_links a (p ∷ ps) h = elim (Bool-cases (a == list_link p)) [
  | inl e ↦ (p, eq-beq a (list_link p) e)
  | inr e ↦ in_list_links a ps (ground arith)
]

in_hash_links :
    (a : Ptr) (ps : List Task)
    → has a (hash_links ps) ≡ true
    → (q : Task) × (has q ps ≡ true) × (a ≡ hash_link q)
in_hash_links a [] h = absurd (false≢true h)
in_hash_links a (p ∷ ps) h = elim (Bool-cases (a == hash_link p)) [
  | inl e ↦ (p, ground (arith, beq_self p), eq-beq a (hash_link p) e)
  | inr e ↦ let (q, m, e') = in_hash_links a ps (ground arith) in (q, ground arith, e')
]

bucket-hash :
    (hash : Task → ℕ) (h q : ℕ) (ps : List Task)
    → has q (bucket hash h ps) ≡ true
    → (hash q ≡ h) × (has q ps ≡ true)
bucket-hash hash h q [] m = absurd (false≢true m)
bucket-hash hash h q (p ∷ ps) m = elim (Bool-cases (hash p == h)) [
  | inr e ↦ let (a, b) = bucket-hash hash h q ps (rw e at m) in (a, ground arith)
  | inl e ↦ elim (Bool-cases (q == p)) [
    | inl same ↦ (rw (eq-beq q p same) (eq-beq (hash p) h e), ground arith)
    | inr other ↦ let (a, b) = bucket-hash hash h q ps (rw (e, other) at m) in (a, ground arith)
  ]
]

-- The addresses of the list of all tasks, and those of the table.
abbrev pub ListSide : Ptr → Type 0
ListSide a = (a ≡ proc_list) ⊎ ((q : Task) × (a ≡ list_link q))

abbrev pub HashSide : Ptr → Type 0
HashSide a = ((h : ℕ) × (h < 1024) × (a ≡ hash_list h)) ⊎ ((q : Task) × (a ≡ hash_link q))

pub sides : (a b : Ptr) → ListSide a → HashSide b → a ≢ b
sides a b (inl x) (inl (h, m, y)) e = ground arith
sides a b (inl x) (inr (q, y)) e = ground arith
sides a b (inr (p, x)) (inl (h, m, y)) e = ground arith
sides a b (inr (p, x)) (inr (q, y)) e = omega arith

pub ListSide-mem :
    (a : Ptr) (ps : List Task) → has a (proc_list ∷ list_links ps) ≡ true → ListSide a
ListSide-mem a ps m = elim (Bool-cases (a == proc_list)) [
  | inl e ↦ inl (eq-beq a proc_list e)
  | inr e ↦ inr (in_list_links a ps (rw e at m))
]

pub HashSide-mem :
    (a : Ptr) (h : ℕ) (ps : List Task)
    → h < 1024
    → has a (hash_list h ∷ hash_links ps) ≡ true
    → HashSide a
HashSide-mem a h ps b m = elim (Bool-cases (a == hash_list h)) [
  | inl e ↦ inl (h, b, eq-beq a (hash_list h) e)
  | inr e ↦ let (q, i, e') = in_hash_links a ps (rw e at m) in inr (q, e')
]

pub HashSide-first :
    (l : Links) (h : ℕ) (ps : List Task)
    → h < 1024
    → Ring l (hash_list h) (hash_links ps)
    → HashSide (l.next (hash_list h))
HashSide-first l h ps b r = elim (first-hash l h ps r) [
  | inl e ↦ inl (h, b, e)
  | inr (q, m, e) ↦ inr (q, e)
]

pub not-mem-hash_links : (p : Task) (ps : List Task) → p ∉ ps → hash_link p ∉ hash_links ps
not-mem-hash_links p [] n = refl
not-mem-hash_links p (q ∷ ps) n = ground (arith, not-mem-hash_links p ps)

pub not-mem-list_links : (p : Task) (ps : List Task) → p ∉ ps → list_link p ∉ list_links ps
not-mem-list_links p [] n = refl
not-mem-list_links p (q ∷ ps) n = ground (arith, not-mem-list_links p ps)

pub not-mem-bucket : (hash : Task → ℕ) (h p : ℕ) (ps : List Task) → p ∉ ps → p ∉ bucket hash h ps
not-mem-bucket hash h p [] n = refl
not-mem-bucket hash h p (q ∷ ps) n = elim (Bool-cases (hash q == h)) [
  | inl e ↦ rw e (ground (arith, not-mem-bucket hash h p ps))
  | inr e ↦ rw e (not-mem-bucket hash h p ps (ground arith))
]

-- A new entry in one list of the table leaves the others.
pub other_bucket :
    (l : Links) (hash : Task → ℕ) (p : Task) (h : ℕ) (ps : List Task)
    → Linked l hash ps
    → p ∉ ps
    → hash p < 1024
    → h < 1024
    → (hash p == h) ≡ false
    → Ring
        (list_add (hash_list (hash p)) (hash_link p) l)
        (hash_list h)
        (hash_links (bucket hash h ps))
other_bucket l hash p h ps linked n b c ne =
    let k = hash p in
    Ring-frame l (list_add (hash_list k) (hash_link p) l) (hash_list h)
      (hash_links (bucket hash h ps))
      (λ a m.
        list_add-other l (hash_list k) (hash_link p) a (not_header a m) (not_new a m)
          (not_first a m))
      (linked.1 h c)
  where
    not_header :
        (a : Ptr)
        → has a (hash_list h ∷ hash_links (bucket hash h ps)) ≡ true
        → a ≢ hash_list (hash p)
    not_header a m e = elim (Bool-cases (a == hash_list h)) [
      | inl x ↦ ground arith
      | inr x ↦ let (q, i, y) = in_hash_links a (bucket hash h ps) (rw x at m) in ground arith
    ]

    not_new :
        (a : Ptr) → has a (hash_list h ∷ hash_links (bucket hash h ps)) ≡ true → a ≢ hash_link p
    not_new a m e = elim (Bool-cases (a == hash_list h)) [
      | inl x ↦ ground arith
      | inr x ↦
          let (q, i, y) = in_hash_links a (bucket hash h ps) (rw x at m) in
          let same : q ≡ p = omega arith in cc (not-mem-bucket hash h p ps n, i)
    ]

    not_first :
        (a : Ptr)
        → has a (hash_list h ∷ hash_links (bucket hash h ps)) ≡ true
        → a ≢ l.next (hash_list (hash p))
    not_first a m e = elim (first-hash l (hash p) (bucket hash (hash p) ps) (linked.1 (hash p) b)) [
      | inl z ↦ not_header a m (e ∙ z)
      | inr (r, j, z) ↦ elim (Bool-cases (a == hash_list h)) [
        | inl x ↦ ground arith
        | inr x ↦
            let (q, i, y) = in_hash_links a (bucket hash h ps) (rw x at m) in
            let same : q ≡ r = omega arith in
            let at_q = (bucket-hash hash h q ps i).0 in
            let at_r = (bucket-hash hash (hash p) r ps j).0 in
            let both : hash p ≡ h = sym at_r ∙ ap hash (sym same) ∙ at_q in ground arith
      ]
    ]
