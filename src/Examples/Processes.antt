-- ===== src/Examples/Processes.antt =====
-- A machine with tasks that fork and exit, for kern/sched/sched.c.
use zonix.Prelude.{◌==◌, if◌then◌else◌, ◌≡◌, refl, ◌≢◌, inl, true, some, [], ◌∷◌, ◌++◌, arith}
use zonix.Links.{Links, list_init, list_add}
use zonix.Links.Ring.{Ring}
use zonix.Sched.{
  TaskStruct, Sched, Task, Tasks, null, running, runnable, sleeping, zombie, uninit, proc_list,
  find_proc, do_exit, schedule, wakeup_proc, set_state, is_zombie,
}
use zonix.Sched.Switch.{HasMm}
use zonix.Sched.Thread.{Thread, init_frame}
use zonix.Sched.Pick.{schedule-picks, list_links}
use zonix.Sched.Family.{Children}
use zonix.Sched.Adopt.{rev_onto}
use zonix.Links.Ops.{Ring-list_init, Ring-list_add}
use zonix.Sched.Hash.{first_with_pid}
use zonix.Sched.Table.{Table, find_proc-Table}
use zonix.Sched.Forked.{do_fork-Table}
use zonix.Sched.Start.{sched_init-Table}
use zonix.Sched.Running.{forks, step, stay, wakes, schedules, OneRunning, Reach-OneRunning}
use zonix.Sched.Exit.{do_exit-leaves}
use zonix.Sched.Fork.{sched_init, do_fork}
use zonix.Sched.Listing.{print_all_procs, proc_header, lines_of, proc_footer, print_all_procs-lines}
use zonix.Sched.Kept.{Reach-Table}

abbrev blank : TaskStruct
blank = record {
  state = uninit;
  pid = 0;
  kstack = 0;
  parent = 0;
  mm = 4096;
  name = [];
  exit_code = 0;
  wait_state = 0;
  cptr = 0;
  yptr = 0;
  optr = 0;
}

-- Before `sched_init`.
abbrev booted : Sched
booted = record {
  tasks = λ p. blank;
  links = record { next = λ a. 0; prev = λ a. 0 };
  idle_proc = 0;
  init_proc = 0;
  current = 0;
  nr_process = 0;
  next_pid = 1;
  mm_pgdir = λ m. 0xC0105000;
  cr3 = 0x105000;
}

sched_init-Table_example :
    (t : Sched) × (sched_init 3 0xC0100200 0xC0100300 4096 (some 8192) 1 2 booted ≡ some (1, t))
    × Table t (2 ∷ 1 ∷ [])
    × (t.current ≡ 1)
    × (t.init_proc ≡ 2)
    × ((t.tasks 1).state ≡ runnable)
    × ((t.tasks 2).state ≡ runnable)
sched_init-Table_example =
    sched_init-Table 3 0xC0100200 0xC0100300 4096 8192 1 2 booted (ground arith) (λ e. ground arith)
      (λ e. ground arith) (λ e. ground arith) refl refl

-- The state that `sched_init` leaves.
started : (t : Sched) × Table t (2 ∷ 1 ∷ [])
started =
    let start =
      sched_init-Table 3 0xC0100200 0xC0100300 4096 8192 1 2 booted (ground arith)
        (λ e. ground arith) (λ e. ground arith) (λ e. ground arith) refl refl in
    (start.0, start.2)

find_proc-Table_example :
    find_proc 3 (started.0) 1 ≡ some (first_with_pid (started.0) 1 (2 ∷ 1 ∷ []))
find_proc-Table_example =
    find_proc-Table 3 (started.0) 1 (2 ∷ 1 ∷ []) (started.1) (ground arith) (ground arith)
      (ground arith)

do_fork-Table_example :
    (thread : Thread) × (t : Sched) × (do_fork 0xC0100200
        (some 0xC0300000)
        0
        (init_frame 0xC0100400)
        3
        (started.0)
      ≡ some ((started.0).next_pid, thread, t))
    × (thread.context ≡ record { eip = 0xC0100200; esp = 0xC0300FC4 })
    × ((t.tasks 3).kstack ≡ 0xC0300000)
    × Table t (3 ∷ 2 ∷ 1 ∷ [])
    × ((t.tasks 3).pid ≡ (started.0).next_pid)
    × (t.current ≡ (started.0).current)
    × ((q : Task) → (t.tasks q).state ≡ (if q == 3 then runnable else ((started.0).tasks q).state))
do_fork-Table_example =
    do_fork-Table 0xC0100200 0xC0300000 0 (init_frame 0xC0100400) (started.0) 3 (2 ∷ 1 ∷ [])
      (started.1) refl (λ e. ground arith)

-- Task 1 runs, 4 is its child and a zombie, 2 is the init task and waits, 3 is the idle task.
abbrev family : Tasks
family p =
    if p == 1
    then record blank { state = running; pid = 5; cptr = 4 }
    else if p == 2
    then record blank { state = sleeping; pid = 1; wait_state = 1 }
    else if p == 4
    then record blank { state = zombie; pid = 6; parent = 1 }
    else blank

abbrev listed : Links
listed = list_add 0 2050 (list_add 0 2052 (list_init 0 (record { next = λ a. 0; prev = λ a. 0 })))

listed-Ring : Ring listed proc_list (list_links (1 ∷ 2 ∷ []))
listed-Ring =
    Ring-list_add (list_add 0 2052 (list_init 0 _)) 0 2050 [] (2052 ∷ [])
      (Ring-list_add (list_init 0 _) 0 2052 [] [] (Ring-list_init _ 0) refl) refl

abbrev working : Sched
working = record {
  tasks = family;
  links = listed;
  idle_proc = 3;
  init_proc = 2;
  current = 1;
  nr_process = 2;
  next_pid = 7;
  mm_pgdir = λ m. 0xC0105000;
  cr3 = 0x105000;
}

working-OneRunning : OneRunning working
working-OneRunning p r = ground arith

working-HasMm : (p : Task) → HasMm working p
working-HasMm p = (λ e. ground arith, λ e. ground arith)

-- The init task is woken and then chosen.
abbrev woken : Sched
woken = record working { tasks = set_state 2 runnable family }

woken-HasMm : (p : Task) → HasMm woken p
woken-HasMm p = (λ e. ground arith, λ e. ground arith)

chosen : (t : Sched) × (schedule 4 woken ≡ some t)
chosen =
    let (t, done, picked) =
      schedule-picks 4 woken (1 ∷ 2 ∷ []) listed-Ring (ground arith)
        (woken-HasMm 3, woken-HasMm 1, λ p i. woken-HasMm p) in
    (t, done)

wakes_init : wakeup_proc 2 family ≡ some (set_state 2 runnable family)
unfolding wakeup_proc
wakes_init = refl

Reach-OneRunning_example : OneRunning (chosen.0)
Reach-OneRunning_example =
    Reach-OneRunning working (chosen.0) (1 ∷ 2 ∷ []) (1 ∷ 2 ∷ [])
      (step {t = woken} {qs = 1 ∷ 2 ∷ []}
        (wakes 2 (set_state 2 runnable family) wakes_init refl refl)
        (step (schedules 4 (chosen.1) refl) stay))
      working-OneRunning

do_exit-leaves_example :
    (t : Sched) × (do_exit 4 9 working ≡ some t)
    × (t.current ≢ 1)
    × (is_zombie (t.tasks 1).state ≡ true)
    × ((t.tasks 1).cptr ≡ null)
    × Children t.tasks 2 (rev_onto (4 ∷ []) [])
do_exit-leaves_example =
    do_exit-leaves 4 9 working (1 ∷ 2 ∷ []) (4 ∷ []) [] listed-Ring (ground arith) (ground arith)
      (refl, (λ e. ground arith), refl, refl, refl) refl ((refl, tt), refl, refl, λ e. ground arith)
      refl (λ e. ground arith) (inl refl) (λ e. ground arith)
      (working-HasMm 3, working-HasMm 1, λ p i. working-HasMm p)

print_all_procs-lines_example :
    print_all_procs 3 working
    ≡ some (proc_header ++ lines_of working (2 ∷ 1 ∷ []) ++ proc_footer working)
print_all_procs-lines_example =
    print_all_procs-lines 3 working (2 ∷ 1 ∷ []) listed-Ring (ground arith)

-- A third task, and the steps to it.
third :
    (thread : Thread) × (t : Sched) × (do_fork 0xC0100200
        (some 0xC0300000)
        0
        (init_frame 0xC0100400)
        3
        (started.0)
      ≡ some ((started.0).next_pid, thread, t))
third =
    let made =
      do_fork-Table 0xC0100200 0xC0300000 0 (init_frame 0xC0100400) (started.0) 3 (2 ∷ 1 ∷ [])
        (started.1) refl (λ e. ground arith) in
    (made.0, made.1, made.2)

Reach-Table_example : Table (third.1) (3 ∷ 2 ∷ 1 ∷ [])
Reach-Table_example =
    Reach-Table (started.0) (third.1) (2 ∷ 1 ∷ []) (3 ∷ 2 ∷ 1 ∷ [])
      (step {qs = 3 ∷ 2 ∷ 1 ∷ []}
        (forks 0xC0100200 (some 0xC0300000) 0 (init_frame 0xC0100400) 3 ((started.0).next_pid)
          (third.0) refl (third.2) refl)
        stay)
      (started.1)
