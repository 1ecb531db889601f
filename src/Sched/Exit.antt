-- ===== src/Sched/Exit.antt =====
-- `do_exit` of kern/sched/sched.c as a whole.
use zonix.Prelude.{
  ◌==◌, eq-beq, beq_self, beq_ne, Bool-cases, length, ℕ, ◌≤◌, ◌<◌, ◌≡◌, refl, sym, ◌∙◌, ◌≢◌, ◌⊎◌,
  inl, inr, true, false, false≢true, ◌||◌, some, List, [], ◌∷◌, arith,
}
use zonix.Links.Ring.{Ring}
use zonix.Sched.{
  uninit, sleeping, zombie, Task, Sched, do_exit, null, wake_parent, proc_list, is_running, running,
  set_state, is_runnable, runnable, is_zombie, Tasks, schedule, wakeup_proc, ProcState,
}
use zonix.Sched.Switch.{switched, run_next-HasMm, HasMm}
use zonix.Sched.Pick.{first_runnable, list_links, find_next-Ring, AllHaveMm, first_runnable-HasMm}
use zonix.Sched.Family.{Children, Siblings-frame}
use zonix.Sched.Adopt.{SameLinks, Apart, rev_onto, adopt_children-Children}
use zonix.Sched.Woken.{adopt_children-Woken, wake_parent-Woken}
use zonix.Sched.Running.{died}

Children-SameLinks :
    (t tasks : Tasks) (p : Task) (ps : List Task)
    → SameLinks t tasks
    → Children tasks p ps
    → Children t p ps
Children-SameLinks t tasks p ps same c =
    rw (same p).1 (Siblings-frame tasks t p null (tasks p).cptr ps (λ x h. (same x).0) c)

first_runnable-ne :
    (tasks : Tasks) (idle x : Task) (ps : List Task)
    → is_runnable (tasks x).state ≡ false
    → idle ≢ x
    → first_runnable tasks idle ps ≢ x
first_runnable-ne tasks idle x [] dead ne = ne
first_runnable-ne tasks idle x (p ∷ ps) dead ne = elim (Bool-cases (is_runnable (tasks p).state)) [
  | inl e ↦ rw e (λ same. false≢true (sym dead ∙ rw (sym same) e))
  | inr e ↦ rw e (first_runnable-ne tasks idle x ps dead ne)
]

-- Waking a parent that is no zombie changes no pointer and makes no zombie.
wake_parent-SameLinks :
    (parent : Task) (tasks : Tasks)
    → (parent ≡ null) ⊎ (is_zombie (tasks parent).state ≡ false)
    → (t : Tasks) × (wake_parent parent tasks ≡ some t)
      × SameLinks t tasks
      × ((x : Task) → is_zombie (t x).state ≡ is_zombie (tasks x).state)
unfolding wakeup_proc
wake_parent-SameLinks parent tasks (inl none_there) =
    (tasks, rw none_there refl, (λ x. ((refl, refl, refl), refl)), λ x. refl)
wake_parent-SameLinks parent tasks (inr live) =
    elim (Bool-cases ((parent == null) || ((tasks parent).wait_state == 0))) [
      | inl e ↦ (tasks, rw e refl, (λ x. ((refl, refl, refl), refl)), λ x. refl)
      | inr e ↦ elim (Bool-cases (is_runnable (tasks parent).state)) [
        | inl r ↦ (tasks, rw (e, live, r) refl, (λ x. ((refl, refl, refl), refl)), λ x. refl)
        | inr r ↦ (
          set_state parent runnable tasks,
          rw (e, live, r) refl,
          (λ x. ((ground arith, ground arith, ground arith), ground arith)),
          λ x. elim (Bool-cases (x == parent)) [
            | inl i ↦ rw (eq-beq x parent i, beq_self parent, live) refl
            | inr i ↦ rw i refl
          ],
        )
      ]
    ]

-- Once the current task is a zombie, `schedule` runs another task, and changes no pointer.
schedule-leaves :
    (fuel : ℕ) (s : Sched) (ps : List Task)
    → Ring s.links proc_list (list_links ps)
    → length ps < fuel
    → is_zombie (s.tasks s.current).state ≡ true
    → s.idle_proc ≢ s.current
    → AllHaveMm s ps
    → (t : Sched) × (schedule fuel s ≡ some t)
      × (t.current ≢ s.current)
      × (is_zombie (t.tasks s.current).state ≡ true)
      × SameLinks t.tasks s.tasks
unfolding schedule
schedule-leaves fuel s ps r f dead idle (idle_mm, cur_mm, all_mm) =
    let next = first_runnable s.tasks s.idle_proc ps in
    let not_running : is_running (s.tasks s.current).state ≡ false =
      zombie_not (s.tasks s.current).state dead in
    let other : next ≢ s.current =
      first_runnable-ne s.tasks s.idle_proc s.current ps
        (zombie_waits (s.tasks s.current).state dead) idle in
    let found = find_next-Ring fuel s.tasks s.links s.idle_proc [] ps r f in
    let moves : (next == s.current) ≡ false = beq_ne next s.current other in
    let (cr3, ran) =
      run_next-HasMm next s moves (first_runnable-HasMm s.tasks s ps idle_mm all_mm) cur_mm in
    let stays : (s.current == next) ≡ false = beq_ne s.current next (λ e. other (sym e)) in
    (
      switched next cr3 s,
      rw (not_running, found) ran,
      other,
      rw stays dead,
      (λ x. ((ground arith, ground arith, ground arith), ground arith)),
    )
  where
    zombie_not : (state : ProcState) → is_zombie state ≡ true → is_running state ≡ false
    zombie_not zombie h = refl
    zombie_not uninit h = refl
    zombie_not sleeping h = refl
    zombie_not runnable h = refl
    zombie_not running h = absurd (false≢true h)

    zombie_waits : (state : ProcState) → is_zombie state ≡ true → is_runnable state ≡ false
    zombie_waits zombie h = refl
    zombie_waits uninit h = refl
    zombie_waits sleeping h = refl
    zombie_waits running h = refl
    zombie_waits runnable h = absurd (false≢true h)

died-SameLinks : (error_code : ℕ) (s : Sched) → SameLinks (died error_code s) s.tasks
died-SameLinks error_code s x = ((ground arith, ground arith, ground arith), ground arith)

-- The current task has the children `ps` and the init task, which is not NULL, another one and no zombie, has
-- `qs`; all of these are different, and none is one of the first two. The parent is NULL or another task that is no zombie. With
-- the list of all tasks a ring of `all`, an idle task other than the current one, fuel for each child and for
-- one step more than the tasks, and an `mm_struct` with a directory for the idle task, the current one and
-- all of `all`, `do_exit` gets to another task: the exited task stays a zombie without children, and its
-- children are in front of those of the init task.
pub do_exit-leaves :
    (fuel error_code : ℕ) (s : Sched) (all ps qs : List Task)
    → Ring s.links proc_list (list_links all)
    → length all < fuel
    → length ps ≤ fuel
    → Children s.tasks s.current ps
    → Children s.tasks s.init_proc qs
    → Apart s.init_proc s.current ps qs
    → is_zombie (s.tasks s.init_proc).state ≡ false
    → s.init_proc ≢ null
    → ((s.tasks s.current).parent ≡ null)
      ⊎ (((s.tasks s.current).parent ≢ s.current)
          × (is_zombie (s.tasks (s.tasks s.current).parent).state ≡ false))
    → s.idle_proc ≢ s.current
    → AllHaveMm s all
    → (t : Sched) × (do_exit fuel error_code s ≡ some t)
      × (t.current ≢ s.current)
      × (is_zombie (t.tasks s.current).state ≡ true)
      × ((t.tasks s.current).cptr ≡ null)
      × Children t.tasks s.init_proc (rev_onto ps qs)
unfolding do_exit
do_exit-leaves fuel error_code s all ps qs ring f g kids others apart live some_init parent idle
      mm =
    let cur = s.current in
    let init = s.init_proc in
    let dead = died error_code s in
    let same = died-SameLinks error_code s in
    let init_cur : (init == cur) ≡ false = beq_ne init cur (apart.3) in
    let parent_kept : (dead cur).parent ≡ (s.tasks cur).parent = (same cur).0.1 in
    let (m, woken, same_m, zombies) = wake_parent-SameLinks (dead cur).parent dead (
      rw parent_kept (elim parent [
        | inl e ↦ inl e
        | inr (ne, alive) ↦ inr (rw (beq_ne (s.tasks cur).parent cur ne) alive)
      ])) in
    let live_m : is_zombie (m init).state ≡ false = zombies init ∙ rw init_cur live in
    let at_m : (p : Task) (xs : List Task) → Children s.tasks p xs → Children m p xs = λ p xs c.
      Children-SameLinks m dead p xs same_m (Children-SameLinks dead s.tasks p xs same c) in
    let (a, adopted, all_kids, no_kids) =
      adopt_children-Children fuel init cur null m ps qs (at_m cur ps kids) (at_m init qs others)
        apart live_m g in
    let dead_a : is_zombie (a cur).state ≡ true =
      (adopt_children-Woken fuel init cur m a adopted).dead cur
        (zombies cur ∙ rw (beq_self cur) refl) in
    let died_mm : (x : Task) → (dead x).mm ≡ (s.tasks x).mm = λ x. ground arith in
    let mms : (x : Task) → (a x).mm ≡ (s.tasks x).mm = λ x.
      (adopt_children-Woken fuel init cur m a adopted).mms x
      ∙ (wake_parent-Woken (dead cur).parent dead m woken).mms x
      ∙ died_mm x in
    let at_a : (x : Task) → HasMm s x → HasMm (record s { tasks = a }) x = λ x h. rw (mms x) h in
    let mm_a : AllHaveMm (record s { tasks = a }) all =
      (at_a s.idle_proc mm.0, at_a cur mm.1, λ x i. at_a x (mm.2 x i)) in
    let (t, done, left, dead_t, same_t) =
      schedule-leaves fuel (record s { tasks = a }) all ring f dead_a idle mm_a in
    (
      t,
      rw (woken, beq_ne init null some_init, adopted) done,
      left,
      dead_t,
      (same_t cur).1 ∙ no_kids,
      Children-SameLinks t.tasks a init (rev_onto ps qs) same_t all_kids,
    )
