-- ===== src/Sched/Pick.antt =====
-- The choice of `schedule` in kern/sched/sched.c.
use zonix.Prelude.{
  ◌==◌, if◌then◌else◌, eq-beq, beq_self, Bool-cases, length, has, ℕ, zero, suc, ◌<◌, ◌≡◌, refl, sym,
  ◌∙◌, subst, inl, inr, Bool, true, false, Option, some, List, [], ◌∷◌, ◌++◌, append_assoc, arith,
}
use zonix.Links.{Ptr, Links, list_next}
use zonix.Links.Ring.{Ring, last_of}
use zonix.Links.Ops.{next-Ring, last_of_snoc}
use zonix.Sched.Switch.{HasMm, switched, run_next-HasMm}
use zonix.Sched.{
  Task, runnable, Tasks, Sched, proc_list, list_link, of_list_link, is_runnable, is_running,
  set_state, find_next, run_next, schedule,
}

-- The first of the tasks that may run, and the idle task if none may.
abbrev pub first_runnable : Tasks → Task → List Task → Task
first_runnable tasks idle [] = idle
first_runnable tasks idle (p ∷ ps) =
    if is_runnable (tasks p).state then p else first_runnable tasks idle ps

abbrev pub list_links : List Task → List Ptr
list_links [] = []
list_links (p ∷ ps) = list_link p ∷ list_links ps

of_list_link_lem : (p : Task) → of_list_link (list_link p) ≡ p
of_list_link_lem p = omega arith

not-proc_list : (p : Task) → (list_link p == proc_list) ≡ false
not-proc_list p = ground arith

pick :
    (b : Bool) (p : Task) {o : Option Task} {q : Task}
    → o ≡ some q
    → (if b then some p else o) ≡ some (if b then p else q)
pick true p h = refl
pick false p h = h

pub find_next-Ring :
    (fuel : ℕ) (tasks : Tasks) (links : Links) (idle : Task) (xs : List Ptr) (ps : List Task)
    → Ring links proc_list (xs ++ list_links ps)
    → length ps < fuel
    → find_next fuel tasks links idle (last_of proc_list xs) ≡ some (first_runnable tasks idle ps)
unfolding find_next
find_next-Ring zero tasks links idle xs ps r h = ground arith
find_next-Ring (suc fuel) tasks links idle xs [] r h = rw (next-Ring links proc_list xs [] r) refl
find_next-Ring (suc fuel) tasks links idle xs (p ∷ ps) r h =
    let whole : Ring links proc_list ((xs ++ list_link p ∷ []) ++ list_links ps) =
      rw (append_assoc xs (list_link p ∷ []) (list_links ps)) r in
    let rest =
      find_next-Ring fuel tasks links idle (xs ++ list_link p ∷ []) ps whole (ground arith) in
    let here : list_next (last_of proc_list xs) links ≡ list_link p =
      next-Ring links proc_list xs (list_links (p ∷ ps)) r in
    rw (here, not-proc_list p, of_list_link_lem p)
      (pick (is_runnable (tasks p).state) p (
        subst (λ a. find_next fuel tasks links idle a ≡ some (first_runnable tasks idle ps))
          (last_of_snoc proc_list (list_link p) xs) rest))

-- The states of the tasks after the first lines of `schedule`.
abbrev pub stopped : Sched → Tasks
stopped s =
    if is_running (s.tasks s.current).state then set_state s.current runnable s.tasks else s.tasks

pub run_next_lem :
    (next : Task) (s : Sched)
    → HasMm s next
    → HasMm s s.current
    → (t : Sched) × (run_next (some next) s ≡ some t) × (t.current ≡ next)
run_next_lem next s there here = elim (Bool-cases (next == s.current)) [
  | inl e ↦ (s, rw e refl, sym (eq-beq next s.current e))
  | inr e ↦
      let (cr3, done) = run_next-HasMm next s e there here in (switched next cr3 s, done, refl)
]

-- The idle task, the current one and all of `ps` have a directory.
abbrev pub AllHaveMm : Sched → List Task → Type 0
AllHaveMm s ps =
    HasMm s s.idle_proc × HasMm s s.current × ((p : Task) → has p ps ≡ true → HasMm s p)

pub first_runnable-HasMm :
    (tasks : Tasks) (s : Sched) (ps : List Task)
    → HasMm s s.idle_proc
    → ((p : Task) → has p ps ≡ true → HasMm s p)
    → HasMm s (first_runnable tasks s.idle_proc ps)
first_runnable-HasMm tasks s [] idle all = idle
first_runnable-HasMm tasks s (p ∷ ps) idle all = elim (Bool-cases (is_runnable (tasks p).state)) [
  | inl e ↦ rw e (all p (rw (beq_self p) refl))
  | inr e ↦ rw e (first_runnable-HasMm tasks s ps idle (λ q m. all q (ground arith)))
]

-- Stopping the current task leaves what it has.
stopped-HasMm : (s : Sched) (p : Task) → HasMm s p → HasMm (record s { tasks = stopped s }) p
stopped-HasMm s p h = rw (same p) h
  where
    same : (p : Task) → (stopped s p).mm ≡ (s.tasks p).mm
    same p = ground arith

-- With the list of all tasks a ring of `ps` and fuel for one step more than its length, `schedule`
-- returns, and it makes the first task of `ps` that may run the current one, where the task that was
-- running may run; the idle task, if none may. The idle task, the current one and all
-- of `ps` are required to have an `mm_struct` with a directory.
pub schedule-picks :
    (fuel : ℕ) (s : Sched) (ps : List Task)
    → Ring s.links proc_list (list_links ps)
    → length ps < fuel
    → AllHaveMm s ps
    → (t : Sched) × (schedule fuel s ≡ some t)
      × (t.current ≡ first_runnable (stopped s) s.idle_proc ps)
unfolding schedule
schedule-picks fuel s ps r h (idle, cur, all) =
    let next = first_runnable (stopped s) s.idle_proc ps in
    let there = first_runnable-HasMm (stopped s) s ps idle all in
    let found = find_next-Ring fuel (stopped s) s.links s.idle_proc [] ps r h in
    subst
      (λ o.
        (t : Sched) × (run_next o (record s { tasks = stopped s }) ≡ some t)
        × (t.current ≡ first_runnable (stopped s) s.idle_proc ps))
      (sym found)
      (run_next_lem next (record s { tasks = stopped s }) (stopped-HasMm s next there)
        (stopped-HasMm s s.current cur))

-- A running task that is the first of the list of all tasks stays the current one at every call of
-- `schedule`, whatever other tasks may run.
pub schedule-keeps :
    (fuel : ℕ) (s : Sched) (ps : List Task)
    → Ring s.links proc_list (list_links (s.current ∷ ps))
    → suc (length ps) < fuel
    → is_running (s.tasks s.current).state ≡ true
    → AllHaveMm s (s.current ∷ ps)
    → (t : Sched) × (schedule fuel s ≡ some t) × (t.current ≡ s.current)
schedule-keeps fuel s ps r h e mm =
    let (t, done, picked) = schedule-picks fuel s (s.current ∷ ps) r h mm in
    let first : first_runnable (stopped s) s.idle_proc (s.current ∷ ps) ≡ s.current =
      rw (e, beq_self s.current) refl in
    (t, done, picked ∙ first)
