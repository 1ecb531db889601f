-- ===== src/Sched/Table.antt =====
-- The tasks that kern/sched/sched.c keeps: the list of all tasks, the hash table, the count and the pids
-- agree, and the search by pid finds what a walk over all tasks would.
use zonix.Prelude.{
  ◌==◌, eq-beq, beq_self, Bool-cases, length, has, ℕ, ◌^◌, ◌≤◌, ◌<◌, ◌≡◌, refl, ap, ◌∙◌, inl, inr,
  true, some, List, [], ◌∷◌, arith,
}
use zonix.Links.{Links}
use zonix.Sched.{Task, Sched, pid_hashfn, find_proc}
use zonix.Sched.Hash.{first_with_pid, hash32-bound, find_proc-Ring}
use zonix.Sched.Linked.{Linked, bucket}

abbrev pub task_hash : Sched → Task → ℕ
task_hash s p = pid_hashfn (s.tasks p).pid

-- `ps` are the tasks of `s`, the newest first.
pub record Table (s : Sched) (ps : List Task) : Type 0 where
  pub linked : Linked s.links (task_hash s) ps
  pub count : s.nr_process ≡ length ps
  pub below : (q : Task) → has q ps ≡ true → (s.tasks q).pid < s.next_pid
  pub own_pid :
      (q r : Task) → has q ps ≡ true → has r ps ≡ true → (s.tasks q).pid ≡ (s.tasks r).pid → q ≡ r

pub bucket-same :
    (f g : Task → ℕ) (h : ℕ) (ps : List Task)
    → ((q : Task) → has q ps ≡ true → f q ≡ g q)
    → bucket f h ps ≡ bucket g h ps
bucket-same f g h [] e = refl
bucket-same f g h (p ∷ ps) e =
    let here : f p ≡ g p = e p (ground (arith, beq_self p)) in
    rw (here, bucket-same f g h ps (λ q m. e q (ground arith))) refl

pub Linked-same :
    (l : Links) (f g : Task → ℕ) (ps : List Task)
    → ((q : Task) → has q ps ≡ true → f q ≡ g q)
    → Linked l g ps
    → Linked l f ps
Linked-same l f g ps e linked = (linked.0, λ h c. rw (bucket-same f g h ps e) (linked.1 h c))

first_with_pid-bucket :
    (s : Sched) (pid : ℕ) (ps : List Task)
    → first_with_pid s pid (bucket (task_hash s) (pid_hashfn pid) ps) ≡ first_with_pid s pid ps
first_with_pid-bucket s pid [] = refl
first_with_pid-bucket s pid (p ∷ ps) = elim (Bool-cases ((s.tasks p).pid == pid)) [
  | inl e ↦
      let h : (task_hash s p == pid_hashfn pid) ≡ true =
        rw (eq-beq (s.tasks p).pid pid e) (beq_self (pid_hashfn pid)) in
      rw (h, e) refl
  | inr e ↦ elim (Bool-cases (task_hash s p == pid_hashfn pid)) [
    | inl h ↦ rw (h, e, first_with_pid-bucket s pid ps) refl
    | inr h ↦ rw (h, e, first_with_pid-bucket s pid ps) refl
  ]
]

length-bucket : (f : Task → ℕ) (h : ℕ) (ps : List Task) → length (bucket f h ps) ≤ length ps
length-bucket f h [] = omega arith
length-bucket f h (p ∷ ps) = elim (Bool-cases (f p == h)) [
  | inl e ↦ rw e (omega (arith, length-bucket f h ps))
  | inr e ↦ rw e (omega (arith, length-bucket f h ps))
]

-- In a table of the tasks `ps`, with fuel for one step more than their number, `find_proc` gives for a
-- positive pid what a walk over all tasks gives: the first of `ps` with that pid, and NULL if none has it.
pub find_proc-Table :
    (fuel : ℕ) (s : Sched) (pid : ℕ) (ps : List Task)
    → Table s ps
    → length ps < fuel
    → 0 < pid
    → pid < 2 ^ 31
    → find_proc fuel s pid ≡ some (first_with_pid s pid ps)
find_proc-Table fuel s pid ps table h lo hi =
    let k = pid_hashfn pid in
    let qs = bucket (task_hash s) k ps in
    let fuel_left : length qs < fuel = omega (arith, length-bucket (task_hash s) k ps) in
    find_proc-Ring fuel s pid qs (table.linked.1 k (hash32-bound pid)) fuel_left lo hi
    ∙ ap some (first_with_pid-bucket s pid ps)
