-- ===== src/Sched/Kept.antt =====
-- The table of tasks of kern/sched/sched.c, after any steps.
use zonix.Prelude.{
  ◌==◌, Bool-cases, ℕ, ◌≡◌, refl, sym, ap, ◌∙◌, subst, ◌≢◌, inl, inr, Option, none, some,
  some-injective, List, ◌∷◌, arith,
}
use zonix.Sched.Switch.{run_next-cases}
use zonix.Trap.{TrapFrame}
use zonix.Sched.Thread.{Thread}
use zonix.Sched.Fork.{do_fork}
use zonix.Sched.{null, Task, Sched, schedule, do_exit, run_next, wake_parent, find_next, proc_list}
use zonix.Sched.Pick.{stopped}
use zonix.Sched.Woken.{Woken-trans, wakeup_proc-Woken, wake_parent-Woken, and_then-cases}
use zonix.Sched.Table.{Table}
use zonix.Sched.Forked.{Table-frame, do_fork-Table}
use zonix.Sched.Running.{
  Step, forks, wakes, schedules, exits, Reach, stay, step, died, schedule_on-cases, adopted-Woken,
}

-- The parts of the state that a table reads.
abbrev Same : Sched → Sched → Type 0
Same s t =
    ((t.links ≡ s.links) × (t.nr_process ≡ s.nr_process) × (t.next_pid ≡ s.next_pid))
    × ((x : Task) → (t.tasks x).pid ≡ (s.tasks x).pid)

Same-trans : (a b c : Sched) → Same a b → Same b c → Same a c
Same-trans a b c ((l, n, p), q) ((l', n', p'), q') = ((l' ∙ l, n' ∙ n, p' ∙ p), λ x. q' x ∙ q x)

Same-Table : (s t : Sched) (ps : List Task) → Same s t → Table s ps → Table t ps
Same-Table s t ps (fields, pids) table = Table-frame s t ps fields (λ x m. pids x) table

run_next-Same : (o : Option Task) (s t : Sched) → run_next o s ≡ some t → Same s t
run_next-Same none s t h = cc h
run_next-Same (some next) s t h = elim (Bool-cases (next == s.current)) [
  | inl e ↦ subst (Same s) (some-injective _ _ (rw e at h)) ((refl, refl, refl), λ x. refl)
  | inr e ↦
      let (cr3, same) = run_next-cases next s t e h in
      subst (Same s) same ((refl, refl, refl), λ x. ground arith)
]

schedule-Same : (fuel : ℕ) (s t : Sched) → schedule fuel s ≡ some t → Same s t
unfolding schedule
schedule-Same fuel s t h =
    let halted : Sched = record s { tasks = stopped s } in
    let first : Same s halted = ((refl, refl, refl), λ x. ground arith) in
    Same-trans s halted t first
      (run_next-Same (find_next fuel (stopped s) s.links s.idle_proc proc_list) halted t h)

do_exit-Same : (fuel error_code : ℕ) (s t : Sched) → do_exit fuel error_code s ≡ some t → Same s t
unfolding do_exit
do_exit-Same fuel error_code s t h =
    let dead = died error_code s in
    let (tasks, made, last) = schedule_on-cases fuel s t _ h in
    let (m, woken, adopted) =
      and_then-cases (wake_parent (dead s.current).parent dead) _ tasks made in
    let whole =
      Woken-trans dead m tasks (wake_parent-Woken (dead s.current).parent dead m woken)
        (adopted-Woken fuel s m tasks adopted) in
    let left : Sched = record s { tasks = tasks } in
    let first : Same s left = ((refl, refl, refl), λ x. whole.pids x ∙ ground arith) in
    Same-trans s left t first (schedule-Same fuel left t last)

-- A fork that succeeds has a structure and a page for the stack.
do_fork-some :
    (forkret : ℕ) (stack : Option ℕ) (esp : ℕ) (tf : TrapFrame) (p : Task) (s : Sched)
    (r : ℕ × Thread × Sched)
    → do_fork forkret stack esp tf p s ≡ some r
    → (kva : ℕ) × (p ≢ null) × (do_fork forkret (some kva) esp tf p s ≡ some r)
unfolding do_fork
do_fork-some forkret none esp tf p s r h = cc h
do_fork-some forkret (some kva) esp tf p s r h = (kva, λ e. cc (rw e at h), h)

Step-Table : (s t : Sched) (ps qs : List Task) → Step s ps t qs → Table s ps → Table t qs
Step-Table s t ps qs (forks forkret stack esp tf p pid thread fresh h e) table =
    let (kva, there, h') = do_fork-some forkret stack esp tf p s (pid, thread, t) h in
    let (made_thread, u, done, context, stack_of, made, own, cur, states) =
      do_fork-Table forkret kva esp tf s p ps table fresh there in
    let same : u ≡ t = ap (λ r. r.2) (some-injective _ _ (sym done ∙ h')) in
    rw e (subst (λ v. Table v (p ∷ ps)) same made)
Step-Table s t ps qs (wakes p tasks h e e') table =
    let woken = wakeup_proc-Woken p s.tasks tasks h in
    rw (e, e') (Same-Table s (record s { tasks = tasks }) ps ((refl, refl, refl), woken.pids) table)
Step-Table s t ps qs (schedules fuel h e) table =
    rw e (Same-Table s t ps (schedule-Same fuel s t h) table)
Step-Table s t ps qs (exits fuel error_code h e) table =
    rw e (Same-Table s t ps (do_exit-Same fuel error_code s t h) table)

-- From a table of the tasks `ps`, every sequence of forks of new tasks, wakings, exits and calls of
-- `schedule` that succeed leads to a table: the list of all tasks, the hash table, the count and the pids
-- agree on the tasks `qs`, which are `ps` with the forked tasks in front, the newest first.
pub Reach-Table : (s t : Sched) (ps qs : List Task) → Reach s ps t qs → Table s ps → Table t qs
Reach-Table s t ps qs stay table = table
Reach-Table s u ps rs (step {t = t} {qs = qs} first rest) table =
    Reach-Table t u qs rs rest (Step-Table s t ps qs first table)
