-- ===== src/Sched/Hash.antt =====
-- The hash table of kern/sched/sched.c.
use zonix.Prelude.{
  leb, ◌==◌, if◌then◌else◌, beq_self, length, ◌∉◌, ℕ, zero, suc, ◌^◌, ◌<◌, ◌≡◌, refl, ◌∙◌, subst,
  Bool, true, false, ◌||◌, Option, some, List, [], ◌∷◌, ◌++◌, append_assoc, arith,
}
use zonix.Links.{Ptr, list_next, list_add}
use zonix.Links.Ring.{Ring, last_of}
use zonix.Links.Ops.{next-Ring, last_of_snoc, Ring-list_add}
use zonix.Sched.{
  Task, null, Sched, hash_list, hash_link, of_hash_link, hash32, pid_hashfn, hash_proc, find_hashed,
  find_proc,
}

abbrev pub hash_links : List Task → List Ptr
hash_links [] = []
hash_links (p ∷ ps) = hash_link p ∷ hash_links ps

-- The first of the tasks that has the pid, and NULL if none has.
abbrev pub first_with_pid : Sched → ℕ → List Task → Task
first_with_pid s pid [] = null
first_with_pid s pid (p ∷ ps) = if (s.tasks p).pid == pid then p else first_with_pid s pid ps

of_hash_link_lem : (p : Task) → of_hash_link (hash_link p) ≡ p
of_hash_link_lem p = omega arith

pick :
    (b : Bool) (p : Task) {o : Option Task} {q : Task}
    → o ≡ some q
    → (if b then some p else o) ≡ some (if b then p else q)
pick true p h = refl
pick false p h = h

find_hashed-Ring :
    (fuel : ℕ) (s : Sched) (pid : ℕ) (list : Ptr) (xs : List Ptr) (ps : List Task)
    → Ring s.links list (xs ++ hash_links ps)
    → list < 2049
    → length ps < fuel
    → find_hashed fuel s pid list (last_of list xs) ≡ some (first_with_pid s pid ps)
unfolding find_hashed
find_hashed-Ring zero s pid list xs ps r b h = ground arith
find_hashed-Ring (suc fuel) s pid list xs [] r b h =
    rw (next-Ring s.links list xs [] r, beq_self list) refl
find_hashed-Ring (suc fuel) s pid list xs (p ∷ ps) r b h =
    let whole : Ring s.links list ((xs ++ hash_link p ∷ []) ++ hash_links ps) =
      rw (append_assoc xs (hash_link p ∷ []) (hash_links ps)) r in
    let rest =
      find_hashed-Ring fuel s pid list (xs ++ hash_link p ∷ []) ps whole b (ground arith) in
    let here : list_next (last_of list xs) s.links ≡ hash_link p =
      next-Ring s.links list xs (hash_links (p ∷ ps)) r in
    let other : (hash_link p == list) ≡ false = ground arith in
    rw (here, other, of_hash_link_lem p)
      (pick ((s.tasks p).pid == pid) p (
        subst (λ a. find_hashed fuel s pid list a ≡ some (first_with_pid s pid ps))
          (last_of_snoc list (hash_link p) xs) rest))

-- A hash is the number of a list of the table.
pub hash32-bound : (val : ℕ) → hash32 val 10 < 1024
unfolding hash32
hash32-bound val = omega arith

-- With the list of the pid's hash a ring of `ps` and fuel for one step more than its length, `find_proc`
-- returns the first task of `ps` that has the positive pid, and NULL if none has.
pub find_proc-Ring :
    (fuel : ℕ) (s : Sched) (pid : ℕ) (ps : List Task)
    → Ring s.links (hash_list (pid_hashfn pid)) (hash_links ps)
    → length ps < fuel
    → 0 < pid
    → pid < 2 ^ 31
    → find_proc fuel s pid ≡ some (first_with_pid s pid ps)
unfolding find_proc
find_proc-Ring fuel s pid ps r h lo hi =
    let t : ((pid == 0) || leb (2 ^ 31) pid) ≡ false = ground arith in
    let b : hash_list (pid_hashfn pid) < 2049 = ground (arith, hash32-bound pid) in
    rw t (find_hashed-Ring fuel s pid (hash_list (pid_hashfn pid)) [] ps r b h)

-- A task that `hash_proc` has put into the table is the one that `find_proc` gives for its pid.
pub find_proc-hash_proc :
    (fuel : ℕ) (s : Sched) (p : Task) (ps : List Task)
    → Ring s.links (hash_list (pid_hashfn (s.tasks p).pid)) (hash_links ps)
    → hash_link p ∉ (hash_list (pid_hashfn (s.tasks p).pid) ∷ hash_links ps)
    → suc (length ps) < fuel
    → 0 < (s.tasks p).pid
    → (s.tasks p).pid < 2 ^ 31
    → find_proc fuel (hash_proc p s) (s.tasks p).pid ≡ some p
unfolding hash_proc
find_proc-hash_proc fuel s p ps r n h lo hi =
    let pid = (s.tasks p).pid in
    let list = hash_list (pid_hashfn pid) in
    let added = Ring-list_add s.links list (hash_link p) [] (hash_links ps) r n in
    find_proc-Ring fuel (record s { links = list_add list (hash_link p) s.links }) pid (p ∷ ps)
      added h lo hi
    ∙ rw (beq_self pid) refl
