-- ===== src/Sched/Fork.antt =====
-- kern/sched/sched.c: new tasks, and the first two of them. The address that `kmalloc` gives and the
-- page that `alloc_page` gives for the stack are arguments. What `do_fork` prints is not modelled.
use zonix.Prelude.{
  ◌==◌, if◌then◌else◌, codes, ℕ, zero, suc, ◌+◌, Bool, true, false, Option, none, some,
}
use zonix.Trap.{TrapFrame}
use zonix.Sched.Thread.{Thread, copy_thread, init_frame}
use zonix.Links.{Links, list_add, list_init}
use zonix.Sched.{
  null, Task, TaskStruct, Sched, wakeup_proc, hash_list, proc_list, Tasks, get_pid, find_proc,
  alloc_proc, update_task, set_links, runnable, hash_proc, list_link,
}

-- `&init_mm`
abbrev pub init_mm : ℕ
init_mm = 4096

-- The result of `setup_kstack` is 0 or, without a page, -1; `do_fork` ignores it.
unfoldable pub setup_kstack : Option ℕ → TaskStruct → TaskStruct × Bool
setup_kstack none d = (d, false)
setup_kstack (some kva) d = (record d { kstack = kva }, true)

unfoldable pub copy_mm : TaskStruct → TaskStruct → TaskStruct
copy_mm current d =
    if current.mm == init_mm then record d { mm = init_mm } else record d { mm = current.mm }

-- `do_fork` up to `copy_mm`: the structure at `p` and nothing else.
unfoldable pub new_proc : Option ℕ → Task → Sched → Sched
new_proc stack p s =
    let d = record (alloc_proc (s.tasks p)) { parent = s.current } in
    let d = copy_mm (s.tasks s.current) (setup_kstack stack d).0 in
    record s { tasks = update_task p (λ _. d) s.tasks }

-- The part of `do_fork` without interrupts.
unfoldable pub enter_proc : Task → Sched → Sched
enter_proc p s =
    let (pid, s) = get_pid s in
    let s = record s { tasks = update_task p (λ d. record d { pid = pid }) s.tasks } in
    set_links p (hash_proc p s)

abbrev pub forked : Task → Thread → Sched → Option Tasks → Option (ℕ × Thread × Sched)
forked p thread s none = none
forked p thread s (some tasks) = some ((tasks p).pid, thread, record s { tasks = tasks })

-- The pid, the frame and context of the new task, and the new state. `none` is the failed assertion of
-- `wakeup_proc`, the write to a NULL structure or, without a page for the stack, the write of the frame to
-- the address 0xFC4, which nothing is mapped at.
unfoldable pub do_fork : ℕ → Option ℕ → ℕ → TrapFrame → Task → Sched → Option (ℕ × Thread × Sched)
do_fork forkret none esp tf p s = none
do_fork forkret (some kva) esp tf p s =
    let made = new_proc (some kva) p s in
    let thread = copy_thread forkret (made.tasks p) esp tf in
    let entered = enter_proc p made in
    if p == null then none else forked p thread entered (wakeup_proc p entered.tasks)

-- `user_stack` is the stack that the boot code runs on.
unfoldable pub idle_init : ℕ → Task → Sched → Sched
idle_init user_stack p s =
    let d = record (alloc_proc (s.tasks p)) {
      pid = 0;
      state = runnable;
      kstack = user_stack;
      mm = init_mm;
      name = codes "idle";
    } in
    let s = record s {
      idle_proc = p;
      tasks = update_task p (λ _. d) s.tasks;
      nr_process = s.nr_process + 1;
      current = p;
    } in
    let s = hash_proc p s in record s { links = list_add proc_list (list_link p) s.links }

-- `init_proc = find_proc(ret)` and its name.
unfoldable pub name_init : ℕ → Sched → Option Task → Option (ℕ × Sched)
name_init ret s none = none
name_init ret s (some p) = some (
  ret,
  record s { init_proc = p; tasks = update_task p (λ d. record d { name = codes "init" }) s.tasks },
)

abbrev pub find_init : ℕ → Option (ℕ × Thread × Sched) → Option (ℕ × Sched)
find_init fuel none = none
find_init fuel (some (ret, thread, s)) = name_init ret s (find_proc fuel s ret)

-- `forkret` and `init_main` are addresses of code.
unfoldable pub init_proc_init : ℕ → ℕ → ℕ → Option ℕ → Task → Sched → Option (ℕ × Sched)
init_proc_init fuel forkret init_main stack p s =
    find_init fuel (do_fork forkret stack 0 (init_frame init_main) p s)

-- `list_init(hash_list + i)` for each `i` below the bound.
unfoldable pub init_lists : ℕ → Links → Links
init_lists zero l = l
init_lists (suc i) l = list_init (hash_list i) (init_lists i l)

unfoldable pub hash_list_size : ℕ
hash_list_size = 1024

-- `idle` and `init` are the addresses that `kmalloc` gives for the first two tasks; `none` as for `do_fork`.
unfoldable pub sched_init : ℕ → ℕ → ℕ → ℕ → Option ℕ → Task → Task → Sched → Option (ℕ × Sched)
sched_init fuel forkret init_main user_stack stack idle init s =
    let s = record s { links = init_lists hash_list_size (list_init proc_list s.links) } in
    if idle == null
    then none
    else init_proc_init fuel forkret init_main stack init (idle_init user_stack idle s)
