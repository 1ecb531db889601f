-- ===== src/Sched.antt =====
-- kern/sched/sched.c: tasks, their lists and the choice of the next task. A `task_struct *` is a
-- number, NULL is 0; so is the address of an `mm_struct`, whose `pgdir` is the value of `mm_pgdir` there;
-- a name is its characters before the first 0. The two links of a task, the header of the list of all tasks and the headers of the
-- hash table have addresses of their own in one store. The interrupt flag and the
-- switch of contexts are not modelled.
pub mod Switch
pub mod Pick
pub mod Hash
pub mod Family
pub mod Adopt
pub mod Linked
pub mod Enter
pub mod Fork
pub mod Table
pub mod Forked
pub mod Start
pub mod Woken
pub mod Running
pub mod Kept
pub mod Exit
pub mod Listing
pub mod Thread
use zonix.Prelude.{
  leb, ◌==◌, if◌then◌else◌, ℕ, zero, suc, ◌+◌, ◌-◌, ◌*◌, ◌/◌, ◌%◌, ◌^◌, Bool, true, false, not,
  ◌&&◌, ◌||◌, Option, none, some, List, [],
}
use zonix.Links.{Ptr, Links, list_next, list_add, list_del}
use zonix.Mm.Setup.{kernel_base}

abbrev pub Task : Type 0
Task = ℕ

abbrev pub null : Task
null = 0

pub data ProcState : Type 0 where
  uninit : ProcState
  sleeping : ProcState
  runnable : ProcState
  running : ProcState
  zombie : ProcState

pub record TaskStruct : Type 0 where
  pub state : ProcState
  pub pid : ℕ
  pub kstack : ℕ
  pub parent : Task
  pub mm : ℕ
  pub name : List ℕ
  pub exit_code : ℕ
  pub wait_state : ℕ
  pub cptr : Task
  pub yptr : Task
  pub optr : Task

abbrev pub Tasks : Type 0
Tasks = Task → TaskStruct

abbrev pub update_task : Task → (TaskStruct → TaskStruct) → Tasks → Tasks
update_task p f tasks i = if i == p then f (tasks i) else tasks i

pub record Sched : Type 0 where
  pub tasks : Tasks
  pub links : Links
  pub idle_proc : Task
  pub init_proc : Task
  pub current : Task
  pub nr_process : ℕ
  pub next_pid : ℕ
  pub mm_pgdir : ℕ → ℕ
  pub cr3 : ℕ

abbrev pub proc_list : Ptr
proc_list = 0

-- `hash_list + i`
abbrev pub hash_list : ℕ → Ptr
hash_list i = i + 1

-- `&(proc->list_link)` and `&(proc->hash_link)`
abbrev pub list_link : Task → Ptr
list_link p = 2 * p + 2048

abbrev pub hash_link : Task → Ptr
hash_link p = 2 * p + 2049

-- `le2proc(le, list_link)` and `le2proc(le, hash_link)`
abbrev pub of_list_link : Ptr → Task
of_list_link le = (le - 2048) / 2

abbrev pub of_hash_link : Ptr → Task
of_hash_link le = (le - 2049) / 2

unfoldable pub hash32 : ℕ → ℕ → ℕ
hash32 val bits = val * 0x61C88647 % 2 ^ 32 / 2 ^ (32 - bits)

abbrev pub pid_hashfn : ℕ → ℕ
pid_hashfn pid = hash32 pid 10

-- What `alloc_proc` writes into the structure; the pid -1 is 2 ^ 32 - 1.
unfoldable pub alloc_proc : TaskStruct → TaskStruct
alloc_proc d = record d {
  state = uninit;
  pid = 2 ^ 32 - 1;
  kstack = 0;
  parent = null;
  mm = 0;
  name = [];
  wait_state = 0;
  cptr = null;
  yptr = null;
  optr = null;
}

unfoldable pub get_pid : Sched → ℕ × Sched
get_pid s = (s.next_pid, record s { next_pid = s.next_pid + 1 })

unfoldable pub hash_proc : Task → Sched → Sched
hash_proc p s = record s {
  links = list_add (hash_list (pid_hashfn (s.tasks p).pid)) (hash_link p) s.links;
}

unfoldable pub unhash_proc : Task → Sched → Sched
unhash_proc p s = record s { links = list_del (hash_link p) s.links }

-- The loop of `find_proc` behind `le`; `none` is the end of the fuel.
unfoldable pub find_hashed : ℕ → Sched → ℕ → Ptr → Ptr → Option Task
find_hashed zero s pid list le = none
find_hashed (suc fuel) s pid list le =
    let at = list_next le s.links in
    let rest = find_hashed fuel s pid list at in
    if at == list
    then some null
    else if (s.tasks (of_hash_link at)).pid == pid
    then some (of_hash_link at)
    else rest

unfoldable pub find_proc : ℕ → Sched → ℕ → Option Task
find_proc fuel s pid =
    let list = hash_list (pid_hashfn pid) in
    if pid == 0 || leb (2 ^ 31) pid then some null else find_hashed fuel s pid list list

-- `if (proc->optr != NULL) proc->optr->yptr = y`, and the same for the other two pointers.
abbrev pub set_yptr : Task → Task → Tasks → Tasks
set_yptr p y tasks = if p == null then tasks else update_task p (λ d. record d { yptr = y }) tasks

abbrev pub set_optr : Task → Task → Tasks → Tasks
set_optr p o tasks = update_task p (λ d. record d { optr = o }) tasks

abbrev pub set_cptr : Task → Task → Tasks → Tasks
set_cptr p c tasks = update_task p (λ d. record d { cptr = c }) tasks

-- The pointers of a new child `p` of `parent`, put first.
unfoldable pub link_child : Task → Task → Tasks → Tasks
link_child p parent tasks =
    let older = (tasks parent).cptr in
    let tasks = update_task p (λ d. record d { yptr = null; optr = older }) tasks in
    set_cptr parent p (set_yptr older p tasks)

unfoldable pub set_links : Task → Sched → Sched
set_links p s = record s {
  links = list_add proc_list (list_link p) s.links;
  tasks = link_child p (s.tasks p).parent s.tasks;
  nr_process = s.nr_process + 1;
}

unfoldable pub remove_links : Task → Sched → Sched
remove_links p s =
    let tasks = set_yptr (s.tasks p).optr (s.tasks p).yptr s.tasks in
    record s {
      links = list_del (list_link p) s.links;
      tasks =
          if (tasks p).yptr == null
          then set_cptr (tasks p).parent (tasks p).optr tasks
          else set_optr (tasks p).yptr (tasks p).optr tasks;
      nr_process = s.nr_process - 1;
    }

abbrev pub is_runnable : ProcState → Bool
is_runnable runnable = true
is_runnable _ = false

abbrev pub is_running : ProcState → Bool
is_running running = true
is_running _ = false

abbrev pub is_zombie : ProcState → Bool
is_zombie zombie = true
is_zombie _ = false

abbrev pub set_state : Task → ProcState → Tasks → Tasks
set_state p state tasks = update_task p (λ d. record d { state = state }) tasks

-- `none` is the failed assertion.
unfoldable pub wakeup_proc : Task → Tasks → Option Tasks
wakeup_proc p tasks =
    if is_zombie (tasks p).state
    then none
    else some (if is_runnable (tasks p).state then tasks else set_state p runnable tasks)

-- The loop of `schedule` behind `le`; `none` is the end of the fuel.
unfoldable pub find_next : ℕ → Tasks → Links → Task → Ptr → Option Task
find_next zero tasks links idle le = none
find_next (suc fuel) tasks links idle le =
    let at = list_next le links in
    let rest = find_next fuel tasks links idle at in
    if at == proc_list
    then some idle
    else if is_runnable (tasks (of_list_link at)).state
    then some (of_list_link at)
    else rest

-- `pgdir` is the field of the `mm_struct` at an address; `none` is the failed assertion.
unfoldable pub proc_get_cr3 : (ℕ → ℕ) → TaskStruct → Option ℕ
proc_get_cr3 pgdir proc =
    if (proc.mm == 0) || (pgdir proc.mm == 0)
    then none
    else some ((pgdir proc.mm + 2 ^ 32 - kernel_base) % 2 ^ 32)

-- `if (next_cr3 != prev_cr3) lcr3(next_cr3)`; `none` is a failed assertion.
abbrev pub switch_cr3 : Option ℕ → Option ℕ → Sched → Option Sched
switch_cr3 none prev s = none
switch_cr3 (some next) none s = none
switch_cr3 (some next) (some prev) s =
    some (record s { cr3 = if next == prev then s.cr3 else next })

-- `none` is the failed assertion of `proc_get_cr3`.
unfoldable pub proc_run : Task → Sched → Option Sched
proc_run p s =
    if p == s.current
    then some s
    else switch_cr3 (proc_get_cr3 s.mm_pgdir (s.tasks p))
        (proc_get_cr3 s.mm_pgdir (s.tasks s.current))
        (record s { current = p; tasks = set_state p running s.tasks })

abbrev pub run_next : Option Task → Sched → Option Sched
run_next none s = none
run_next (some next) s = if next == s.current then some s else proc_run next s

-- `none` is the end of the fuel or the failed assertion of `proc_get_cr3`.
unfoldable pub schedule : ℕ → Sched → Option Sched
schedule fuel s =
    let tasks =
      if is_running (s.tasks s.current).state
      then set_state s.current runnable s.tasks
      else s.tasks in
    run_next (find_next fuel tasks s.links s.idle_proc proc_list) (record s { tasks = tasks })

abbrev pub and_then : Option Tasks → (Tasks → Option Tasks) → Option Tasks
and_then none f = none
and_then (some tasks) f = f tasks

-- One step of the loop of `do_exit`: the first child `p` of `cur` becomes the first child of `init`.
unfoldable pub adopt_child : Task → Task → Task → Tasks → Tasks
adopt_child p init cur tasks =
    let tasks = set_cptr cur (tasks p).optr tasks in
    link_child p init (update_task p (λ d. record d { parent = init }) tasks)

-- The waking of `init` for a child that is a zombie.
unfoldable pub wake_init : Task → Task → Tasks → Option Tasks
wake_init p init tasks =
    if is_zombie (tasks p).state && not ((tasks init).wait_state == 0)
    then wakeup_proc init tasks
    else some tasks

-- The loop; `none` is the end of the fuel or the failed assertion of `wakeup_proc`.
unfoldable pub adopt_children : ℕ → Task → Task → Tasks → Option Tasks
adopt_children zero init cur tasks = if (tasks cur).cptr == null then some tasks else none
adopt_children (suc fuel) init cur tasks =
    let p = (tasks cur).cptr in
    if p == null
    then some tasks
    else and_then (wake_init p init (adopt_child p init cur tasks)) (adopt_children fuel init cur)

abbrev pub wake_parent : Task → Tasks → Option Tasks
wake_parent parent tasks =
    if parent == null || ((tasks parent).wait_state == 0)
    then some tasks
    else wakeup_proc parent tasks

abbrev pub schedule_on : ℕ → Sched → Option Tasks → Option Sched
schedule_on fuel s none = none
schedule_on fuel s (some tasks) = schedule fuel (record s { tasks = tasks })

-- `do_exit` up to the point where `schedule` has chosen another task.
unfoldable pub do_exit : ℕ → ℕ → Sched → Option Sched
do_exit fuel error_code s =
    let cur = s.current in
    let tasks =
      update_task cur (λ d. record d { state = zombie; exit_code = error_code }) s.tasks in
    schedule_on fuel s (
      and_then (wake_parent (tasks cur).parent tasks) (λ tasks.
        if s.init_proc == null then some tasks else adopt_children fuel s.init_proc cur tasks))
