-- ===== src/Sched/Start.antt =====
-- The first two tasks of kern/sched/sched.c.
use zonix.Prelude.{
  ◌==◌, eq-beq, beq_self, beq_ne, Bool-cases, codes, ℕ, zero, suc, ◌+◌, ◌<◌, ◌≡◌, refl, sym, ap,
  ◌∙◌, ◌≢◌, inl, inr, false, some, [], ◌∷◌, arith,
}
use zonix.Links.{Links, list_init, list_add, Ptr}
use zonix.Links.Ring.{Ring}
use zonix.Links.Ops.{Ring-list_init, Ring-frame}
use zonix.Sched.Thread.{init_frame}
use zonix.Sched.{
  null, Task, Sched, pid_hashfn, proc_list, list_link, hash_link, hash_proc, hash_list, runnable,
  update_task, find_proc,
}
use zonix.Sched.Linked.{Linked}
use zonix.Sched.Enter.{enter-Linked}
use zonix.Sched.Hash.{hash32-bound}
use zonix.Sched.Table.{Table, find_proc-Table, task_hash}
use zonix.Sched.Forked.{do_fork-Table, Table-frame}
use zonix.Sched.Fork.{idle_init, init_lists, hash_list_size, sched_init, init_proc_init, name_init}

-- `list_init` of one header leaves the others.
list_init-other :
    (l : Links) (a b : Ptr) → (a == b) ≡ false → Ring l a [] → Ring (list_init b l) a []
unfolding list_init
list_init-other l a b ne r =
    Ring-frame l (list_init b l) a [] (λ x m. let e = eq-beq x a (ground arith) in ground arith) r

init_lists-proc_list :
    (n : ℕ) (l : Links) → Ring l proc_list [] → Ring (init_lists n l) proc_list []
unfolding init_lists
init_lists-proc_list zero l r = r
init_lists-proc_list (suc n) l r =
    list_init-other (init_lists n l) proc_list (hash_list n) (ground arith)
      (init_lists-proc_list n l r)

init_lists-hash_list : (n h : ℕ) (l : Links) → h < n → Ring (init_lists n l) (hash_list h) []
unfolding init_lists
init_lists-hash_list zero h l b = absurd (omega arith)
init_lists-hash_list (suc n) h l b = elim (Bool-cases (h == n)) [
  | inl e ↦ rw (eq-beq h n e) (Ring-list_init (init_lists n l) (hash_list n))
  | inr e ↦
      list_init-other (init_lists n l) (hash_list h) (hash_list n) (ground arith)
        (init_lists-hash_list n h l (ground arith))
]

-- All lists are empty after the loop of `sched_init`.
init_lists-Linked :
    (l : Links) (hash : Task → ℕ)
    → Linked (init_lists hash_list_size (list_init proc_list l)) hash []
unfolding hash_list_size
init_lists-Linked l hash = (
  init_lists-proc_list 1024 _ (Ring-list_init l proc_list),
  λ h c. init_lists-hash_list 1024 h _ c,
)

idle_init-facts :
    (stack : ℕ) (p : Task) (s : Sched)
    → ((idle_init stack p s).links
        ≡ list_add proc_list
            (list_link p)
            (list_add (hash_list (pid_hashfn 0)) (hash_link p) s.links))
      × (((idle_init stack p s).tasks p).pid ≡ 0)
      × (((idle_init stack p s).tasks p).state ≡ runnable)
      × ((idle_init stack p s).nr_process ≡ s.nr_process + 1)
      × ((idle_init stack p s).next_pid ≡ s.next_pid)
      × ((idle_init stack p s).current ≡ p)
      × ((idle_init stack p s).idle_proc ≡ p)
unfolding idle_init hash_proc
idle_init-facts stack p s =
    let at_p = beq_self p in (rw at_p refl, rw at_p refl, rw at_p refl, refl, refl, refl, refl)

-- The idle task is the first of the table.
idle_init-Table :
    (stack : ℕ) (p : Task) (s : Sched)
    → Linked s.links (task_hash (idle_init stack p s)) []
    → s.nr_process ≡ 0
    → 0 < s.next_pid
    → Table (idle_init stack p s) (p ∷ [])
idle_init-Table stack p s linked none_yet next =
    let (links, pid, state, nr, kept, cur, idle) = idle_init-facts stack p s in
    let hash : task_hash (idle_init stack p s) p ≡ pid_hashfn 0 = ap pid_hashfn pid in
    let links' =
      links
      ∙ ap (λ h. list_add proc_list (list_link p) (list_add (hash_list h) (hash_link p) s.links))
          (sym hash) in
    let entered =
      enter-Linked s.links (task_hash (idle_init stack p s)) p [] linked refl (hash32-bound _) in
    record {
      linked = rw links' entered;
      count = nr ∙ ground arith;
      below = λ q m. let e = eq-beq q p (ground arith) in rw (e, pid, kept) next;
      own_pid = λ q r m k e. eq-beq q p (ground arith) ∙ sym (eq-beq r p (ground arith));
    }

-- With nothing yet kept, pid 1 next, two structures of their own that are not NULL and a page for the stack,
-- `sched_init` returns the pid 1; the
-- idle task with pid 0 and the init task are then the table, both may run, the idle task is the current
-- one and the init task is the one with pid 1. Fuel 3 is enough.
pub sched_init-Table :
    (fuel forkret init_main user_stack kva : ℕ) (idle init : Task) (s : Sched)
    → 2 < fuel
    → init ≢ idle
    → idle ≢ null
    → init ≢ null
    → s.nr_process ≡ 0
    → s.next_pid ≡ 1
    → (t : Sched) × (sched_init fuel forkret init_main user_stack (some kva) idle init s
        ≡ some (1, t))
      × Table t (init ∷ idle ∷ [])
      × (t.current ≡ idle)
      × (t.init_proc ≡ init)
      × ((t.tasks idle).state ≡ runnable)
      × ((t.tasks init).state ≡ runnable)
unfolding sched_init init_proc_init name_init
sched_init-Table fuel forkret init_main user_stack kva idle init s f ne idle_there init_there nr
      next =
    let cleared : Sched = record s {
      links = init_lists hash_list_size (list_init proc_list s.links);
    } in
    let first = idle_init user_stack idle cleared in
    let (links, pid, state, count, kept, cur, named) = idle_init-facts user_stack idle cleared in
    let table =
      idle_init-Table user_stack idle cleared (init_lists-Linked s.links (task_hash first)) nr
        (ground arith) in
    let (thread, t, done, context, stack, table2, own, cur2, states) =
      do_fork-Table forkret kva 0 (init_frame init_main) first init (idle ∷ []) table (ground arith)
        init_there in
    let one : first.next_pid ≡ 1 = kept ∙ next in
    let named_t : Sched = record t {
      init_proc = init;
      tasks = update_task init (λ d. record d { name = codes "init" }) t.tasks;
    } in
    let found : find_proc fuel t 1 ≡ some init =
      find_proc-Table fuel t 1 (init ∷ idle ∷ []) table2 (ground arith) (ground arith)
        (ground arith)
      ∙ ap some (rw (own, one) refl) in
    (
      named_t,
      rw (beq_ne idle null idle_there, done, one, found) refl,
      Table-frame t named_t (init ∷ idle ∷ []) (refl, refl, refl) (λ q m. ground arith) table2,
      cur2 ∙ cur,
      refl,
      ground (arith, states idle),
      ground (arith, states init),
    )
