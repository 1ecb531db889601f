-- ===== src/Sched/Woken.antt =====
-- The states of tasks that are woken, in kern/sched/sched.c.
use zonix.Prelude.{
  ◌==◌, eq-beq, Bool-cases, ℕ, zero, suc, ◌≡◌, refl, sym, ap, ◌∙◌, subst, inl, inr, true, false,
  false≢true, not, ◌&&◌, ◌||◌, Option, none, some, some-injective, arith,
}
use zonix.Sched.{
  update_task, set_cptr, Task, wake_init, Tasks, adopt_children, wakeup_proc, null, wake_parent,
  is_running, and_then, is_zombie, adopt_child, set_state, is_runnable, runnable,
}
use zonix.Sched.Adopt.{adopt_child-state}
use zonix.Sched.Forked.{link_child-pid, link_child-mm}

-- From `tasks` to `t` no task starts to run, a zombie stays one, and the pids and the address spaces are the same.
pub record Woken (tasks t : Tasks) : Type 0 where
  pub started : (x : Task) → is_running (t x).state ≡ true → is_running (tasks x).state ≡ true
  pub dead : (x : Task) → is_zombie (tasks x).state ≡ true → is_zombie (t x).state ≡ true
  pub pids : (x : Task) → (t x).pid ≡ (tasks x).pid
  pub mms : (x : Task) → (t x).mm ≡ (tasks x).mm

pub Woken-same :
    (tasks t : Tasks)
    → ((x : Task) → (t x).state ≡ (tasks x).state)
    → ((x : Task) → (t x).pid ≡ (tasks x).pid)
    → ((x : Task) → (t x).mm ≡ (tasks x).mm)
    → Woken tasks t
Woken-same tasks t e p m = record {
  started = λ x r. ap is_running (sym (e x)) ∙ r;
  dead = λ x z. ap is_zombie (e x) ∙ z;
  pids = p;
  mms = m;
}

pub Woken-refl : (tasks : Tasks) → Woken tasks tasks
Woken-refl tasks = Woken-same tasks tasks (λ x. refl) (λ x. refl) (λ x. refl)

pub Woken-trans : (a b c : Tasks) → Woken a b → Woken b c → Woken a c
Woken-trans a b c f g = record {
  started = λ x r. f.started x (g.started x r);
  dead = λ x z. g.dead x (f.dead x z);
  pids = λ x. g.pids x ∙ f.pids x;
  mms = λ x. g.mms x ∙ f.mms x;
}

set_runnable-Woken :
    (p : Task) (tasks : Tasks)
    → is_zombie (tasks p).state ≡ false
    → Woken tasks (set_state p runnable tasks)
set_runnable-Woken p tasks live = record {
  started = λ x r. elim (Bool-cases (x == p)) [
    | inl e ↦ absurd (false≢true (rw e at r))
    | inr e ↦ rw e at r
  ];
  dead = λ x z. elim (Bool-cases (x == p)) [
    | inl e ↦ absurd (false≢true (rw (eq-beq x p e, live) at z))
    | inr e ↦ rw e z
  ];
  pids = λ x. ground arith;
  mms = λ x. ground arith;
}

pub wakeup_proc-Woken : (p : Task) (tasks t : Tasks) → wakeup_proc p tasks ≡ some t → Woken tasks t
unfolding wakeup_proc
wakeup_proc-Woken p tasks t h = elim (Bool-cases (is_zombie (tasks p).state)) [
  | inl z ↦ cc (rw z at h)
  | inr z ↦ elim (Bool-cases (is_runnable (tasks p).state)) [
    | inl r ↦ subst (Woken tasks) (some-injective _ _ (rw (z, r) at h)) (Woken-refl tasks)
    | inr r ↦
        subst (Woken tasks) (some-injective _ _ (rw (z, r) at h)) (set_runnable-Woken p tasks z)
  ]
]

pub wake_init-Woken :
    (p init : Task) (tasks t : Tasks) → wake_init p init tasks ≡ some t → Woken tasks t
unfolding wake_init
wake_init-Woken p init tasks t h =
    elim (Bool-cases (is_zombie (tasks p).state && not ((tasks init).wait_state == 0))) [
      | inl e ↦ wakeup_proc-Woken init tasks t (rw e at h)
      | inr e ↦ subst (Woken tasks) (some-injective _ _ (rw e at h)) (Woken-refl tasks)
    ]

pub wake_parent-Woken :
    (parent : Task) (tasks t : Tasks) → wake_parent parent tasks ≡ some t → Woken tasks t
wake_parent-Woken parent tasks t h =
    elim (Bool-cases ((parent == null) || ((tasks parent).wait_state == 0))) [
      | inr e ↦ wakeup_proc-Woken parent tasks t (rw e at h)
      | inl e ↦ subst (Woken tasks) (some-injective _ _ (rw e at h)) (Woken-refl tasks)
    ]

pub and_then-cases :
    (o : Option Tasks) (f : Tasks → Option Tasks) (t : Tasks)
    → and_then o f ≡ some t
    → (m : Tasks) × (o ≡ some m) × (f m ≡ some t)
and_then-cases none f t h = cc h
and_then-cases (some m) f t h = (m, refl, h)

adopt_child-pid :
    (p init cur x : Task) (tasks : Tasks) → (adopt_child p init cur tasks x).pid ≡ (tasks x).pid
unfolding adopt_child
adopt_child-pid p init cur x tasks =
    link_child-pid
      (update_task p (λ d. record d { parent = init }) (set_cptr cur (tasks p).optr tasks)) p init x
    ∙ ground arith

adopt_child-mm :
    (p init cur x : Task) (tasks : Tasks) → (adopt_child p init cur tasks x).mm ≡ (tasks x).mm
unfolding adopt_child
adopt_child-mm p init cur x tasks =
    link_child-mm
      (update_task p (λ d. record d { parent = init }) (set_cptr cur (tasks p).optr tasks)) p init x
    ∙ ground arith

pub adopt_children-Woken :
    (fuel : ℕ) (init cur : Task) (tasks t : Tasks)
    → adopt_children fuel init cur tasks ≡ some t
    → Woken tasks t
unfolding adopt_children
adopt_children-Woken zero init cur tasks t h = elim (Bool-cases ((tasks cur).cptr == null)) [
  | inl e ↦ subst (Woken tasks) (some-injective _ _ (rw e at h)) (Woken-refl tasks)
  | inr e ↦ cc (rw e at h)
]
adopt_children-Woken (suc fuel) init cur tasks t h = elim (Bool-cases ((tasks cur).cptr == null)) [
  | inl e ↦ subst (Woken tasks) (some-injective _ _ (rw e at h)) (Woken-refl tasks)
  | inr e ↦
      let p = (tasks cur).cptr in
      let moved = adopt_child p init cur tasks in
      let (m, woken, rest) =
        and_then-cases (wake_init p init moved) (adopt_children fuel init cur) t (rw e at h) in
      Woken-trans tasks moved t
        (Woken-same tasks moved (λ x. adopt_child-state p init cur x tasks)
          (λ x. adopt_child-pid p init cur x tasks) (λ x. adopt_child-mm p init cur x tasks))
        (Woken-trans moved m t (wake_init-Woken p init moved m woken)
          (adopt_children-Woken fuel init cur m t rest))
]
