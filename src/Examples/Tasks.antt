-- ===== src/Examples/Tasks.antt =====
-- Concrete tasks for kern/sched/sched.c.
use zonix.Prelude.{◌==◌, if◌then◌else◌, ◌≡◌, refl, some, [], ◌∷◌, arith}
use zonix.Links.{Links, list_init, list_add}
use zonix.Links.Ring.{Ring}
use zonix.Links.Ops.{Ring-list_init, Ring-list_add}
use zonix.Sched.{
  Task, runnable, running, TaskStruct, Tasks, Sched, proc_list, hash_list, pid_hashfn, schedule,
}
use zonix.Sched.Switch.{HasMm}
use zonix.Sched.Pick.{first_runnable, stopped, list_links, schedule-picks}

abbrev task : TaskStruct
task = record {
  state = runnable;
  pid = 5;
  kstack = 0;
  parent = 1;
  mm = 4096;
  name = [];
  exit_code = 0;
  wait_state = 0;
  cptr = 0;
  yptr = 0;
  optr = 0;
}

abbrev tasks : Tasks
tasks p = if p == 1 then record task { state = running; pid = 1 } else task

abbrev no_links : Links
no_links = record { next = λ a. 0; prev = λ a. 0 }

-- The list of all tasks holds the tasks 1 and 2.
abbrev two_tasks : Links
two_tasks = list_add 0 2050 (list_add 0 2052 (list_init 0 no_links))

two_tasks-Ring : Ring two_tasks proc_list (list_links (1 ∷ 2 ∷ []))
two_tasks-Ring =
    Ring-list_add (list_add 0 2052 (list_init 0 no_links)) 0 2050 [] (2052 ∷ [])
      (Ring-list_add (list_init 0 no_links) 0 2052 [] [] (Ring-list_init no_links 0) refl) refl

abbrev machine : Sched
machine = record {
  tasks = tasks;
  links = two_tasks;
  idle_proc = 3;
  init_proc = 2;
  current = 1;
  nr_process = 2;
  next_pid = 6;
  mm_pgdir = λ m. 0xC0105000;
  cr3 = 0x105000;
}

machine-HasMm : (p : Task) → HasMm machine p
machine-HasMm p = (λ e. ground arith, λ e. ground arith)

schedule-picks_example :
    (t : Sched) × (schedule 4 machine ≡ some t)
    × (t.current ≡ first_runnable (stopped machine) 3 (1 ∷ 2 ∷ []))
schedule-picks_example =
    schedule-picks 4 machine (1 ∷ 2 ∷ []) two_tasks-Ring (ground arith)
      (machine-HasMm 3, machine-HasMm 1, λ p i. machine-HasMm p)

-- The list of the hash of pid 5 is empty.
abbrev hashing : Sched
hashing = record machine { links = list_init (hash_list (pid_hashfn 5)) no_links }
