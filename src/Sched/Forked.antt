-- ===== src/Sched/Forked.antt =====
-- What `do_fork` of kern/sched/sched.c does to the tasks that are kept.
use zonix.Prelude.{
  ◌==◌, if◌then◌else◌, eq-beq, beq_self, beq_ne, Bool-cases, has, ◌∉◌, ℕ, ◌+◌, ◌-◌, ◌%◌, ◌^◌, ◌≡◌,
  refl, sym, ap, ◌∙◌, ◌≢◌, inl, inr, true, false, Option, none, some, List, ◌∷◌, arith,
}
use zonix.Links.{list_add}
use zonix.Sched.{
  TaskStruct, null, Task, Sched, pid_hashfn, proc_list, list_link, hash_link, get_pid, set_links,
  hash_proc, link_child, Tasks, hash_list, update_task, runnable, alloc_proc, wakeup_proc, uninit,
  set_state,
}
use zonix.Sched.Family.{has-ne}
use zonix.Sched.Adopt.{link_child-state}
use zonix.Sched.Hash.{hash32-bound}
use zonix.Sched.Enter.{enter-Linked}
use zonix.Sched.Table.{Table, Linked-same, task_hash}
use zonix.Trap.{TrapFrame}
use zonix.Sched.Thread.{Thread, copy_thread}
use zonix.Sched.Fork.{enter_proc, new_proc, setup_kstack, copy_mm, do_fork}

pub link_child-pid :
    (tasks : Tasks) (p parent x : Task) → (link_child p parent tasks x).pid ≡ (tasks x).pid
unfolding link_child
link_child-pid tasks p parent x = ground arith

pub link_child-mm :
    (tasks : Tasks) (p parent x : Task) → (link_child p parent tasks x).mm ≡ (tasks x).mm
unfolding link_child
link_child-mm tasks p parent x = ground arith

-- Every task but the new one keeps its pid.
pub enter_proc-pid :
    (s : Sched) (p q : Task)
    → ((enter_proc p s).tasks q).pid ≡ (if q == p then s.next_pid else (s.tasks q).pid)
unfolding enter_proc get_pid set_links hash_proc
enter_proc-pid s p q =
    link_child-pid (update_task p (λ d. record d { pid = s.next_pid }) s.tasks) p _ q ∙ ground arith

pub enter_proc-state :
    (s : Sched) (p q : Task) → ((enter_proc p s).tasks q).state ≡ (s.tasks q).state
unfolding enter_proc get_pid set_links hash_proc
enter_proc-state s p q =
    link_child-state (update_task p (λ d. record d { pid = s.next_pid }) s.tasks) p _ q
    ∙ ground arith

linked_at :
    (s : Sched) (p : Task)
    → (enter_proc p s).links
      ≡ list_add proc_list
          (list_link p)
          (list_add (hash_list (pid_hashfn s.next_pid)) (hash_link p) s.links)
unfolding enter_proc get_pid set_links hash_proc
linked_at s p = rw (beq_self p) refl

enter_proc-links :
    (s : Sched) (p : Task)
    → (enter_proc p s).links
      ≡ list_add proc_list
          (list_link p)
          (list_add (hash_list (task_hash (enter_proc p s) p)) (hash_link p) s.links)
enter_proc-links s p = rw (enter_proc-pid s p p, beq_self p) (linked_at s p)

enter_proc-counts :
    (s : Sched) (p : Task)
    → ((enter_proc p s).nr_process ≡ s.nr_process + 1)
      × ((enter_proc p s).next_pid ≡ s.next_pid + 1)
      × ((enter_proc p s).current ≡ s.current)
unfolding enter_proc get_pid set_links hash_proc
enter_proc-counts s p = (refl, refl, refl)

-- A task that is not yet kept enters the table with a pid of its own.
pub enter_proc-Table :
    (s : Sched) (p : Task) (ps : List Task) → Table s ps → p ∉ ps → Table (enter_proc p s) (p ∷ ps)
enter_proc-Table s p ps table n =
    let (nr, next, cur) = enter_proc-counts s p in
    let linked =
      Linked-same s.links (task_hash (enter_proc p s)) (task_hash s) ps
        (λ q m. rw (enter_proc-pid s p q, has-ne q p ps m n) refl) table.linked in
    record {
      linked =
          rw (enter_proc-links s p)
            (enter-Linked s.links (task_hash (enter_proc p s)) p ps linked n (hash32-bound _));
      count = ground (arith, table.count);
      below = λ q m. rw (enter_proc-pid s p q, next) (ground (arith, table.below q));
      own_pid = λ q r m k e. own q r m k (sym (enter_proc-pid s p q) ∙ e ∙ enter_proc-pid s p r);
    }
  where
    own :
        (q r : Task)
        → has q (p ∷ ps) ≡ true
        → has r (p ∷ ps) ≡ true
        → (if q == p then s.next_pid else (s.tasks q).pid)
          ≡ (if r == p then s.next_pid else (s.tasks r).pid)
        → q ≡ r
    own q r m k e = elim (Bool-cases (q == p)) [
      | inl a ↦ elim (Bool-cases (r == p)) [
        | inl b ↦ eq-beq q p a ∙ sym (eq-beq r p b)
        | inr b ↦
            let here : has r ps ≡ true = ground arith in
            let lt = table.below r here in absurd (ground arith)
      ]
      | inr a ↦
          let there : has q ps ≡ true = ground arith in
          elim (Bool-cases (r == p)) [
            | inl b ↦ let lt = table.below q there in absurd (ground arith)
            | inr b ↦ table.own_pid q r there (ground arith) (rw (a, b) at e)
          ]
    ]

-- A table stays one if its tasks keep their pids.
pub Table-frame :
    (s t : Sched) (ps : List Task)
    → (t.links ≡ s.links) × (t.nr_process ≡ s.nr_process) × (t.next_pid ≡ s.next_pid)
    → ((q : Task) → has q ps ≡ true → (t.tasks q).pid ≡ (s.tasks q).pid)
    → Table s ps
    → Table t ps
Table-frame s t ps (l, n, next) e table = record {
  linked = rw l (
      Linked-same s.links (task_hash t) (task_hash s) ps (λ q m. ap pid_hashfn (e q m))
        table.linked);
  count = n ∙ table.count;
  below = λ q m. rw (e q m, next) (table.below q m);
  own_pid = λ q r m k i. table.own_pid q r m k (sym (e q m) ∙ i ∙ e r k);
}

pub new_proc-state :
    (stack : Option ℕ) (s : Sched) (p q : Task)
    → ((new_proc stack p s).tasks q).state ≡ (if q == p then uninit else (s.tasks q).state)
unfolding new_proc setup_kstack copy_mm alloc_proc
new_proc-state none s p q = ground arith
new_proc-state (some kva) s p q = ground arith

new_proc-pid :
    (stack : Option ℕ) (s : Sched) (p q : Task)
    → (q == p) ≡ false
    → ((new_proc stack p s).tasks q).pid ≡ (s.tasks q).pid
unfolding new_proc
new_proc-pid stack s p q h = ground arith

new_proc-rest :
    (stack : Option ℕ) (s : Sched) (p : Task)
    → ((new_proc stack p s).links ≡ s.links)
      × ((new_proc stack p s).nr_process ≡ s.nr_process)
      × ((new_proc stack p s).next_pid ≡ s.next_pid)
unfolding new_proc
new_proc-rest stack s p = (refl, refl, refl)

pub new_proc-current :
    (stack : Option ℕ) (s : Sched) (p : Task) → (new_proc stack p s).current ≡ s.current
unfolding new_proc
new_proc-current stack s p = refl

wakeup_proc-uninit :
    (p : Task) (tasks : Tasks)
    → (tasks p).state ≡ uninit
    → wakeup_proc p tasks ≡ some (set_state p runnable tasks)
unfolding wakeup_proc
wakeup_proc-uninit p tasks e = rw e refl

new_proc-kstack :
    (kva : ℕ) (s : Sched) (p : Task) → ((new_proc (some kva) p s).tasks p).kstack ≡ kva
unfolding new_proc setup_kstack copy_mm
new_proc-kstack kva s p = ground arith

link_child-kstack :
    (tasks : Tasks) (p parent x : Task) → (link_child p parent tasks x).kstack ≡ (tasks x).kstack
unfolding link_child
link_child-kstack tasks p parent x = ground arith

enter_proc-kstack :
    (s : Sched) (p q : Task) → ((enter_proc p s).tasks q).kstack ≡ (s.tasks q).kstack
unfolding enter_proc get_pid set_links hash_proc
enter_proc-kstack s p q =
    link_child-kstack (update_task p (λ d. record d { pid = s.next_pid }) s.tasks) p _ q
    ∙ ground arith

copy_thread-context :
    (forkret : ℕ) (d : TaskStruct) (esp : ℕ) (tf : TrapFrame)
    → (copy_thread forkret d esp tf).context
      ≡ record { eip = forkret; esp = (d.kstack + 4096 + 2 ^ 32 - 60) % 2 ^ 32 }
unfolding copy_thread
copy_thread-context forkret d esp tf = refl

-- In a table of the tasks `ps`, `do_fork` with a structure that is not NULL and none of them, and with the page
-- `kva` for its stack, returns the pid that was next, which the new task has; it starts at `forkret` with its
-- frame as the top of that page. The tasks are then `ps` with the new one in front, again a table, the
-- new task may run, every other task is in the state it was in and the current one is the same.
pub do_fork-Table :
    (forkret kva esp : ℕ) (tf : TrapFrame) (s : Sched) (p : Task) (ps : List Task)
    → Table s ps
    → p ∉ ps
    → p ≢ null
    → (thread : Thread) × (t : Sched) × (do_fork forkret (some kva) esp tf p s
        ≡ some (s.next_pid, thread, t))
      × (thread.context ≡ record { eip = forkret; esp = (kva + 4096 + 2 ^ 32 - 60) % 2 ^ 32 })
      × ((t.tasks p).kstack ≡ kva)
      × Table t (p ∷ ps)
      × ((t.tasks p).pid ≡ s.next_pid)
      × (t.current ≡ s.current)
      × ((q : Task) → (t.tasks q).state ≡ (if q == p then runnable else (s.tasks q).state))
unfolding do_fork
do_fork-Table forkret kva esp tf s p ps table n there =
    let stack = some kva in
    let made = new_proc stack p s in
    let entered = enter_proc p made in
    let states : (q : Task)
        → (entered.tasks q).state ≡ (if q == p then uninit else (s.tasks q).state) =
      λ q. enter_proc-state made p q ∙ new_proc-state stack s p q in
    let fresh : (entered.tasks p).state ≡ uninit = states p ∙ rw (beq_self p) refl in
    let kept =
      Table-frame s made ps (new_proc-rest stack s p)
        (λ q m. new_proc-pid stack s p q (has-ne q p ps m n)) table in
    let pid : (entered.tasks p).pid ≡ s.next_pid =
      enter_proc-pid made p p ∙ rw (beq_self p) (new_proc-rest stack s p).2 in
    let woken : Sched = record entered { tasks = set_state p runnable entered.tasks } in
    let same : (q : Task) → (woken.tasks q).pid ≡ (entered.tasks q).pid = λ q. ground arith in
    let thread = copy_thread forkret (made.tasks p) esp tf in
    let kept_stack : (woken.tasks p).kstack ≡ (entered.tasks p).kstack = ground arith in
    let stack_of : (made.tasks p).kstack ≡ kva = new_proc-kstack kva s p in
    (
      thread,
      woken,
      rw (beq_ne p null there, wakeup_proc-uninit p entered.tasks fresh)
          (ap (λ i. some (i, thread, woken)) (same p ∙ pid)),
      copy_thread-context forkret (made.tasks p) esp tf
          ∙ ap (λ k. record { eip = forkret; esp = (k + 4096 + 2 ^ 32 - 60) % 2 ^ 32 }) stack_of,
      kept_stack ∙ enter_proc-kstack made p p ∙ stack_of,
      Table-frame entered woken (p ∷ ps) (refl, refl, refl) (λ q m. same q)
          (enter_proc-Table made p ps kept n),
      same p ∙ pid,
      (enter_proc-counts made p).2 ∙ new_proc-current stack s p,
      λ q. ground (arith, states q),
    )
