-- ===== src/Sched/Running.antt =====
-- Which task runs, in kern/sched/sched.c.
use zonix.Prelude.{
  ◌==◌, if◌then◌else◌, eq-beq, beq_self, Bool-cases, ◌∉◌, ℕ, ◌≡◌, refl, sym, ap, ◌∙◌, subst, inl,
  inr, Bool, true, false, false≢true, Option, none, some, some-injective, List, ◌∷◌,
}
use zonix.Trap.{TrapFrame}
use zonix.Sched.Thread.{Thread, copy_thread}
use zonix.Sched.Switch.{run_next-cases}
use zonix.Sched.{
  Task, Sched, do_exit, Tasks, wakeup_proc, is_running, schedule, get_pid, set_links, hash_proc,
  find_next, run_next, proc_list, schedule_on, null, wake_parent, update_task, adopt_children,
  zombie,
}
use zonix.Sched.Forked.{enter_proc-state, new_proc-state, new_proc-current}
use zonix.Sched.Fork.{do_fork, forked, enter_proc, new_proc}
use zonix.Sched.Pick.{stopped}
use zonix.Sched.Woken.{
  wake_parent-Woken, and_then-cases, adopt_children-Woken, Woken-refl, Woken-trans, Woken,
  wakeup_proc-Woken,
}

-- At most the current task is in the state of a running one.
abbrev pub OneRunning : Sched → Type 0
OneRunning s = (p : Task) → is_running (s.tasks p).state ≡ true → p ≡ s.current

-- A step of the kernel with the tasks `ps` to one with `qs`; what `kmalloc` gives at a fork is a new task,
-- and what `alloc_page` gives is any.
pub data Step (s : Sched) (ps : List Task) (t : Sched) (qs : List Task) : Type 0 where
  forks :
      (forkret : ℕ) (stack : Option ℕ) (esp : ℕ) (tf : TrapFrame) (p : Task) (pid : ℕ)
      (thread : Thread)
      → p ∉ ps
      → do_fork forkret stack esp tf p s ≡ some (pid, thread, t)
      → qs ≡ p ∷ ps
      → Step s ps t qs
  wakes :
      (p : Task) (tasks : Tasks)
      → wakeup_proc p s.tasks ≡ some tasks
      → t ≡ record s { tasks = tasks }
      → qs ≡ ps
      → Step s ps t qs
  schedules : (fuel : ℕ) → schedule fuel s ≡ some t → qs ≡ ps → Step s ps t qs
  exits : (fuel error_code : ℕ) → do_exit fuel error_code s ≡ some t → qs ≡ ps → Step s ps t qs

pub data Reach : Sched → List Task → Sched → List Task → Type 0 where
  stay : {s : Sched} {ps : List Task} → Reach s ps s ps
  step : {s t u : Sched} {ps qs rs : List Task} → Step s ps t qs → Reach t qs u rs → Reach s ps u rs

Woken-OneRunning :
    (s : Sched) (tasks : Tasks)
    → Woken s.tasks tasks
    → OneRunning s
    → OneRunning (record s { tasks = tasks })
Woken-OneRunning s tasks w one p r = one p (w.started p r)

enter_proc-current : (p : Task) (s : Sched) → (enter_proc p s).current ≡ s.current
unfolding enter_proc get_pid set_links hash_proc
enter_proc-current p s = refl

forked-cases :
    (p : Task) (thread made : Thread) (s t : Sched) (pid : ℕ) (o : Option Tasks)
    → forked p made s o ≡ some (pid, thread, t)
    → (tasks : Tasks) × (o ≡ some tasks) × (record s { tasks = tasks } ≡ t)
forked-cases p thread made s t pid none h = cc h
forked-cases p thread made s t pid (some tasks) h =
    (tasks, refl, ap (λ x. x.2) (some-injective _ _ h))

guarded :
    {A : Type 0} (b : Bool) (o : Option A) (x : A) → (if b then none else o) ≡ some x → o ≡ some x
guarded true o x h = cc h
guarded false o x h = h

do_fork-OneRunning :
    (forkret : ℕ) (stack : Option ℕ) (esp : ℕ) (tf : TrapFrame) (p : Task) (pid : ℕ)
    (thread : Thread) (s t : Sched)
    → do_fork forkret stack esp tf p s ≡ some (pid, thread, t)
    → OneRunning s
    → OneRunning t
unfolding do_fork
do_fork-OneRunning forkret none esp tf p pid thread s t h one = cc h
do_fork-OneRunning forkret (some kva) esp tf p pid thread s t h one =
    let stack = some kva in
    let made = new_proc stack p s in
    let entered = enter_proc p made in
    let made_thread = copy_thread forkret (made.tasks p) esp tf in
    let (tasks, woken, e) =
      forked-cases p thread made_thread entered t pid (wakeup_proc p entered.tasks)
        (guarded (p == null) _ (pid, thread, t) h) in
    let entered_one : OneRunning entered = λ x r.
      one x (elim (Bool-cases (x == p)) [
        | inl i ↦
            absurd (false≢true (rw (enter_proc-state made p x, new_proc-state stack s p x, i) at r))
        | inr i ↦ rw (enter_proc-state made p x, new_proc-state stack s p x, i) at r
      ])
      ∙ sym (enter_proc-current p made ∙ new_proc-current stack s p) in
    subst OneRunning e
      (Woken-OneRunning entered tasks (wakeup_proc-Woken p entered.tasks tasks woken) entered_one)

-- The state in which `schedule` searches: no task runs.
stopped-none : (s : Sched) (x : Task) → OneRunning s → is_running (stopped s x).state ≡ false
stopped-none s x one = elim (Bool-cases (is_running (stopped s x).state)) [
  | inr e ↦ e
  | inl e ↦ elim (Bool-cases (is_running (s.tasks s.current).state)) [
    | inl r ↦ elim (Bool-cases (x == s.current)) [
      | inl i ↦ absurd (false≢true (rw (r, i) at e))
      | inr i ↦
          let same = one x (rw (r, i) at e) in
          absurd (false≢true (sym i ∙ rw same (beq_self s.current)))
    ]
    | inr r ↦
        let there : is_running (s.tasks x).state ≡ true = rw r at e in
        absurd (false≢true (sym r ∙ rw (sym (one x there)) there))
  ]
]

run_next-OneRunning :
    (next : Option Task) (s t : Sched)
    → run_next next s ≡ some t
    → ((x : Task) → is_running (s.tasks x).state ≡ false)
    → OneRunning t
run_next-OneRunning none s t h none_runs = cc h
run_next-OneRunning (some next) s t h none_runs = elim (Bool-cases (next == s.current)) [
  | inl e ↦
      subst OneRunning (some-injective _ _ (rw e at h))
        (λ x r. absurd (false≢true (sym (none_runs x) ∙ r)))
  | inr e ↦
      let (cr3, same) = run_next-cases next s t e h in
      subst OneRunning same (λ x r. elim (Bool-cases (x == next)) [
        | inl i ↦ eq-beq x next i
        | inr i ↦ absurd (false≢true (sym (none_runs x) ∙ (rw i at r)))
      ])
]

pub schedule-OneRunning :
    (fuel : ℕ) (s t : Sched) → schedule fuel s ≡ some t → OneRunning s → OneRunning t
unfolding schedule
schedule-OneRunning fuel s t h one =
    run_next-OneRunning (find_next fuel (stopped s) s.links s.idle_proc proc_list)
      (record s { tasks = stopped s }) t h (λ x. stopped-none s x one)

pub schedule_on-cases :
    (fuel : ℕ) (s t : Sched) (o : Option Tasks)
    → schedule_on fuel s o ≡ some t
    → (tasks : Tasks) × (o ≡ some tasks) × (schedule fuel (record s { tasks = tasks }) ≡ some t)
schedule_on-cases fuel s t none h = cc h
schedule_on-cases fuel s t (some tasks) h = (tasks, refl, h)

-- The tasks once the current one is a zombie.
abbrev pub died : ℕ → Sched → Tasks
died error_code s =
    update_task s.current (λ d. record d { state = zombie; exit_code = error_code }) s.tasks

pub adopted-Woken :
    (fuel : ℕ) (s : Sched) (tasks t : Tasks)
    → (if s.init_proc == null then some tasks else adopt_children fuel s.init_proc s.current tasks)
      ≡ some t
    → Woken tasks t
adopted-Woken fuel s tasks t h = elim (Bool-cases (s.init_proc == null)) [
  | inl e ↦ subst (Woken tasks) (some-injective _ _ (rw e at h)) (Woken-refl tasks)
  | inr e ↦ adopt_children-Woken fuel s.init_proc s.current tasks t (rw e at h)
]

do_exit-OneRunning :
    (fuel error_code : ℕ) (s t : Sched)
    → do_exit fuel error_code s ≡ some t
    → OneRunning s
    → OneRunning t
unfolding do_exit
do_exit-OneRunning fuel error_code s t h one =
    let dead = died error_code s in
    let (tasks, made, last) = schedule_on-cases fuel s t _ h in
    let (m, woken, adopted) =
      and_then-cases (wake_parent (dead s.current).parent dead) _ tasks made in
    let whole =
      Woken-trans dead m tasks (wake_parent-Woken (dead s.current).parent dead m woken)
        (adopted-Woken fuel s m tasks adopted) in
    let first : OneRunning (record s { tasks = dead }) = λ x r. elim (Bool-cases (x == s.current)) [
      | inl i ↦ eq-beq x s.current i
      | inr i ↦ one x (rw i at r)
    ] in
    schedule-OneRunning fuel (record s { tasks = tasks }) t last
      (Woken-OneRunning (record s { tasks = dead }) tasks whole first)

Step-OneRunning : (s t : Sched) (ps qs : List Task) → Step s ps t qs → OneRunning s → OneRunning t
Step-OneRunning s t ps qs (forks forkret stack esp tf p pid thread n h e) one =
    do_fork-OneRunning forkret stack esp tf p pid thread s t h one
Step-OneRunning s t ps qs (wakes p tasks h e e') one =
    subst OneRunning (sym e) (Woken-OneRunning s tasks (wakeup_proc-Woken p s.tasks tasks h) one)
Step-OneRunning s t ps qs (schedules fuel h e) one = schedule-OneRunning fuel s t h one
Step-OneRunning s t ps qs (exits fuel error_code h e) one =
    do_exit-OneRunning fuel error_code s t h one

-- If at most the current task is running, then this holds after every sequence of forks, wakings, exits and
-- calls of `schedule` that succeed.
pub Reach-OneRunning :
    (s t : Sched) (ps qs : List Task) → Reach s ps t qs → OneRunning s → OneRunning t
Reach-OneRunning s t ps qs stay one = one
Reach-OneRunning s u ps rs (step {t = t} {qs = qs} first rest) one =
    Reach-OneRunning t u qs rs rest (Step-OneRunning s t ps qs first one)
