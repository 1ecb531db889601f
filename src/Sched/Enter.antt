-- ===== src/Sched/Enter.antt =====
-- A new task in the list of all tasks and in the hash table of kern/sched/sched.c.
use zonix.Prelude.{
  ◌==◌, eq-beq, Bool-cases, ◌∉◌, ℕ, ◌<◌, ◌≡◌, refl, sym, inl, inr, List, [], ◌∷◌, arith,
}
use zonix.Links.{Links, list_add}
use zonix.Links.Ring.{Ring}
use zonix.Links.Ops.{Ring-list_add, Ring-frame}
use zonix.Sched.{Task, proc_list, hash_list, hash_link, list_link}
use zonix.Sched.Pick.{list_links}
use zonix.Sched.Hash.{hash_links}
use zonix.Sched.Linked.{
  Linked, bucket, sides, not-mem-list_links, HashSide-first, HashSide-mem, other_bucket,
  ListSide-mem, not-mem-hash_links, list_add-other, first-list, not-mem-bucket,
}

-- An entry put into a list of the table leaves the list of all tasks.
hashed-list :
    (l : Links) (hash : Task → ℕ) (p : Task) (ps : List Task)
    → Linked l hash ps
    → hash p < 1024
    → Ring (list_add (hash_list (hash p)) (hash_link p) l) proc_list (list_links ps)
hashed-list l hash p ps linked b =
    let k = hash p in
    let first = HashSide-first l k (bucket hash k ps) b (linked.1 k b) in
    Ring-frame l (list_add (hash_list k) (hash_link p) l) proc_list (list_links ps)
      (λ a m.
        let side = ListSide-mem a ps m in
        list_add-other l (hash_list k) (hash_link p) a (sides a _ side (inl (k, b, refl)))
          (sides a _ side (inr (p, refl))) (sides a _ side first))
      linked.0

-- Each list of the table behind `list_add` for the new task `p`.
hashed-bucket :
    (l : Links) (hash : Task → ℕ) (p : Task) (h : ℕ) (ps : List Task)
    → Linked l hash ps
    → p ∉ ps
    → hash p < 1024
    → h < 1024
    → Ring
        (list_add (hash_list (hash p)) (hash_link p) l)
        (hash_list h)
        (hash_links (bucket hash h (p ∷ ps)))
hashed-bucket l hash p h ps linked n b c = elim (Bool-cases (hash p == h)) [
  | inr e ↦ rw e (other_bucket l hash p h ps linked n b c e)
  | inl e ↦
      let same : hash p ≡ h = eq-beq (hash p) h e in
      let fresh = not-mem-hash_links p (bucket hash h ps) (not-mem-bucket hash h p ps n) in
      rw (e, same)
        (Ring-list_add l (hash_list h) (hash_link p) [] (hash_links (bucket hash h ps))
          (linked.1 h c) (ground arith))
]

-- An entry put into the list of all tasks leaves the lists of the table.
listed-bucket :
    (l : Links) (p : Task) (h : ℕ) (ps qs : List Task)
    → Ring l proc_list (list_links ps)
    → h < 1024
    → Ring l (hash_list h) (hash_links qs)
    → Ring (list_add proc_list (list_link p) l) (hash_list h) (hash_links qs)
listed-bucket l p h ps qs list c r =
    Ring-frame l (list_add proc_list (list_link p) l) (hash_list h) (hash_links qs)
      (λ a m.
        let side = HashSide-mem a h qs c m in
        list_add-other l proc_list (list_link p) a (λ e. sides proc_list a (inl refl) side (sym e))
          (λ e. sides (list_link p) a (inr (p, refl)) side (sym e))
          (λ e. sides (l.next proc_list) a (first-list l ps list) side (sym e)))
      r

-- `hash_proc` and `set_links` enter a new task first in the list of all tasks and in the list of its
-- hash, and leave every other list as it was.
pub enter-Linked :
    (l : Links) (hash : Task → ℕ) (p : Task) (ps : List Task)
    → Linked l hash ps
    → p ∉ ps
    → hash p < 1024
    → Linked
        (list_add proc_list (list_link p) (list_add (hash_list (hash p)) (hash_link p) l))
        hash
        (p ∷ ps)
enter-Linked l hash p ps linked n b =
    let hashed = hashed-list l hash p ps linked b in
    (
      Ring-list_add _ proc_list (list_link p) [] (list_links ps) hashed
          (ground (arith, not-mem-list_links p ps)),
      λ h c.
          listed-bucket _ p h ps (bucket hash h (p ∷ ps)) hashed c
            (hashed-bucket l hash p h ps linked n b c),
    )
