-- ===== src/Sched/Switch.antt =====
-- `proc_run` of kern/sched/sched.c and the assertions that it makes.
use zonix.Prelude.{
  ◌==◌, if◌then◌else◌, beq_ne, ℕ, ◌+◌, ◌-◌, ◌%◌, ◌^◌, ◌≡◌, refl, ◌≢◌, false, Option, none, some,
  some-injective,
}
use zonix.Mm.Setup.{kernel_base}
use zonix.Sched.{Task, Sched, running, set_state, proc_get_cr3, switch_cr3, proc_run, run_next}

-- The task has an `mm_struct`, and that has a directory.
abbrev pub HasMm : Sched → Task → Type 0
HasMm s p = ((s.tasks p).mm ≢ 0) × (s.mm_pgdir (s.tasks p).mm ≢ 0)

-- What `proc_run` makes of the state beside the control register.
abbrev pub switched : Task → ℕ → Sched → Sched
switched p cr3 s = record s { current = p; tasks = set_state p running s.tasks; cr3 = cr3 }

switch_cr3-cases :
    (next prev : Option ℕ) (s t : Sched)
    → switch_cr3 next prev s ≡ some t
    → (cr3 : ℕ) × (record s { cr3 = cr3 } ≡ t)
switch_cr3-cases none prev s t h = cc h
switch_cr3-cases (some next) none s t h = cc h
switch_cr3-cases (some next) (some prev) s t h =
    (if next == prev then s.cr3 else next, some-injective _ _ h)

-- Where another task is switched to without a failed assertion.
pub run_next-cases :
    (next : Task) (s t : Sched)
    → (next == s.current) ≡ false
    → run_next (some next) s ≡ some t
    → (cr3 : ℕ) × (switched next cr3 s ≡ t)
unfolding proc_run
run_next-cases next s t e h = switch_cr3-cases _ _ _ t (rw e at h)

proc_get_cr3-HasMm :
    (s : Sched) (p : Task)
    → HasMm s p
    → (cr3 : ℕ) × (proc_get_cr3 s.mm_pgdir (s.tasks p) ≡ some cr3)
unfolding proc_get_cr3
proc_get_cr3-HasMm s p (mm, pgdir) = (
  (s.mm_pgdir (s.tasks p).mm + 2 ^ 32 - kernel_base) % 2 ^ 32,
  rw (beq_ne (s.tasks p).mm 0 mm, beq_ne (s.mm_pgdir (s.tasks p).mm) 0 pgdir) refl,
)

-- No assertion fails for two tasks with a directory.
pub run_next-HasMm :
    (next : Task) (s : Sched)
    → (next == s.current) ≡ false
    → HasMm s next
    → HasMm s s.current
    → (cr3 : ℕ) × (run_next (some next) s ≡ some (switched next cr3 s))
unfolding proc_run
run_next-HasMm next s e there here =
    let (a, from) = proc_get_cr3-HasMm s next there in
    let (b, to) = proc_get_cr3-HasMm s s.current here in
    (if a == b then s.cr3 else a, rw (e, from, to) refl)
