-- ===== src/Sched/Adopt.antt =====
-- The children of a task that exits, in kern/sched/sched.c.
use zonix.Prelude.{
  ◌==◌, eq-beq, beq_self, Bool-cases, length, has, ◌∉◌, Distinct, has-append, has-insert,
  Distinct-insert, ℕ, zero, suc, ◌≤◌, ◌≡◌, refl, ap, ◌∙◌, ◌≢◌, inl, inr, true, false, false≢true,
  not, ◌&&◌, some, List, [], ◌∷◌, ◌++◌, arith,
}
use zonix.Sched.{
  Task, null, Tasks, update_task, set_cptr, link_child, is_zombie, wakeup_proc, adopt_child,
  wake_init, adopt_children, is_runnable, set_state, runnable,
}
use zonix.Sched.Family.{
  Siblings, Children, SameFamily, Siblings-frame, has-ne, link_child-other, same,
  link_child-Children,
}

-- The loop moves the children one by one to the front of the others.
abbrev pub rev_onto : List Task → List Task → List Task
rev_onto [] qs = qs
rev_onto (p ∷ ps) qs = rev_onto ps (p ∷ qs)

-- No task is in both lists, and neither `a` nor `b` is in one.
abbrev pub Apart : Task → Task → List Task → List Task → Type 0
Apart a b ps qs = Distinct (ps ++ qs) × (a ∉ (ps ++ qs)) × (b ∉ (ps ++ qs)) × (a ≢ b)

link_child-cptr :
    (tasks : Tasks) (p parent x : Task)
    → x ≢ parent
    → (link_child p parent tasks x).cptr ≡ (tasks x).cptr
unfolding link_child
link_child-cptr tasks p parent x n = ground arith

pub link_child-state :
    (tasks : Tasks) (p parent x : Task) → (link_child p parent tasks x).state ≡ (tasks x).state
unfolding link_child
link_child-state tasks p parent x = ground arith

-- The tasks once `p` is unlinked from `cur` and names `init`.
abbrev moved : Task → Task → Task → Tasks → Tasks
moved p init cur tasks =
    update_task p (λ d. record d { parent = init }) (set_cptr cur (tasks p).optr tasks)

moved-SameFamily :
    (p init cur x : Task) (tasks : Tasks)
    → (x == p) ≡ false
    → SameFamily (moved p init cur tasks x) (tasks x)
moved-SameFamily p init cur x tasks h = ground arith

head_ne :
    (tasks : Tasks) (parent younger c x : Task) (qs : List Task)
    → Siblings tasks parent younger c qs
    → x ∉ qs
    → x ≢ null
    → (x == c) ≡ false
head_ne tasks parent younger c x [] s n z = ground arith
head_ne tasks parent younger c x (q ∷ qs) s n z = ground (arith, s.0)

Siblings-ne_null :
    (tasks : Tasks) (parent younger c x : Task) (ps : List Task)
    → Siblings tasks parent younger c ps
    → has x ps ≡ true
    → x ≢ null
Siblings-ne_null tasks parent younger c x [] s h = absurd (false≢true h)
Siblings-ne_null tasks parent younger c x (p ∷ ps) (e, n, y, q, rest) h =
    elim (Bool-cases (x == p)) [
      | inl same ↦ rw (eq-beq x p same) n
      | inr other ↦ Siblings-ne_null tasks parent p (tasks p).optr x ps rest (ground arith)
    ]

Distinct-right : (xs ys : List ℕ) → Distinct (xs ++ ys) → Distinct ys
Distinct-right [] ys d = d
Distinct-right (x ∷ xs) ys d = Distinct-right xs ys d.1

Distinct-apart : (a : ℕ) (xs ys : List ℕ) → Distinct (xs ++ ys) → has a xs ≡ true → a ∉ ys
Distinct-apart a [] ys d h = absurd (false≢true h)
Distinct-apart a (x ∷ xs) ys d h = elim (Bool-cases (a == x)) [
  | inl same ↦ rw (eq-beq a x same) (ground (arith, has-append x xs ys, d.0))
  | inr other ↦ Distinct-apart a xs ys d.1 (ground arith)
]

-- A turn of the loop: the first child of `cur` becomes the first of `init`.
adopt_child-Children :
    (p init cur y : Task) (tasks : Tasks) (ps qs : List Task)
    → Siblings tasks cur y (tasks cur).cptr (p ∷ ps)
    → Children tasks init qs
    → Apart init cur (p ∷ ps) qs
    → Siblings (adopt_child p init cur tasks) cur p (adopt_child p init cur tasks cur).cptr ps
      × Children (adopt_child p init cur tasks) init (p ∷ qs)
unfolding adopt_child
adopt_child-Children p init cur y tasks ps qs (first, pn, py, pp, rest) others
      ((fresh, d), ni, nc, ne) =
    let m = moved p init cur tasks in
    let t = link_child p init m in
    let p_qs : p ∉ qs = ground (arith, has-append p ps qs) in
    let p_ps : p ∉ ps = ground (arith, has-append p ps qs) in
    let i_p : (init == p) ≡ false = ground arith in
    let c_p : (cur == p) ≡ false = ground arith in
    let i_c : (init == cur) ≡ false = ground arith in
    let i_qs : init ∉ qs = ground (arith, has-append init ps qs) in
    let i_ps : init ∉ ps = ground (arith, has-append init ps qs) in
    let top : (m init).cptr ≡ (tasks init).cptr = rw (i_p, i_c) refl in
    let kept : Children m init qs = rw top (
      Siblings-frame tasks m init null (tasks init).cptr qs
        (λ x h. moved-SameFamily p init cur x tasks (has-ne x p qs h p_qs)) others) in
    let added =
      link_child-Children m p init qs kept (rw (beq_self p) refl) pn (λ e. ground arith) p_qs i_qs
        (Distinct-right ps qs d) in
    let next : (t cur).cptr ≡ (tasks p).optr =
      link_child-cptr m p init cur (λ e. ground arith) ∙ rw (c_p, beq_self cur) refl in
    (
      rw next (
          Siblings-frame tasks t cur p (tasks p).optr ps
            (λ x h.
              let same_m : t x ≡ m x =
                link_child-other m p init x (has-ne x p ps h p_ps) (has-ne x init ps h i_ps) (
                  head_ne m init null (m init).cptr x qs kept (Distinct-apart x ps qs d h)
                    (Siblings-ne_null tasks cur p (tasks p).optr x ps rest h)) in
              rw same_m (moved-SameFamily p init cur x tasks (has-ne x p ps h p_ps)))
            rest),
      added,
    )

pub adopt_child-state :
    (p init cur x : Task) (tasks : Tasks) → (adopt_child p init cur tasks x).state ≡ (tasks x).state
unfolding adopt_child
adopt_child-state p init cur x tasks =
    link_child-state (moved p init cur tasks) p init x ∙ ground arith

-- The same pointers at every task.
abbrev pub SameLinks : Tasks → Tasks → Type 0
SameLinks t tasks = (x : Task) → SameFamily (t x) (tasks x) × ((t x).cptr ≡ (tasks x).cptr)

-- Waking `init`, which is no zombie, changes no pointer.
wake_init-SameLinks :
    (p init : Task) (tasks : Tasks)
    → is_zombie (tasks init).state ≡ false
    → (t : Tasks) × (wake_init p init tasks ≡ some t)
      × SameLinks t tasks
      × (is_zombie (t init).state ≡ false)
unfolding wake_init wakeup_proc
wake_init-SameLinks p init tasks live =
    elim (Bool-cases (is_zombie (tasks p).state && not ((tasks init).wait_state == 0))) [
      | inr e ↦ (tasks, rw e refl, (λ x. ((refl, refl, refl), refl)), live)
      | inl e ↦ elim (Bool-cases (is_runnable (tasks init).state)) [
        | inl r ↦ (tasks, rw (e, live, r) refl, (λ x. ((refl, refl, refl), refl)), live)
        | inr r ↦ (
          set_state init runnable tasks,
          rw (e, live, r) refl,
          (λ x. ((ground arith, ground arith, ground arith), ground arith)),
          rw (beq_self init) refl,
        )
      ]
    ]

Apart-turn : (a b p : Task) (ps qs : List Task) → Apart a b (p ∷ ps) qs → Apart a b ps (p ∷ qs)
Apart-turn a b p ps qs (d, na, nb, ne) = (
  Distinct-insert p ps qs d.1 d.0,
  ground (arith, has-insert a p ps qs),
  ground (arith, has-insert b p ps qs),
  ne,
)

-- With fuel for each child of `cur` the loop of `do_exit` ends. If `init` is no zombie it then has all
-- the children of `cur` in front of its own, the eldest first, each naming it as the parent, and `cur`
-- has none.
pub adopt_children-Children :
    (fuel : ℕ) (init cur y : Task) (tasks : Tasks) (ps qs : List Task)
    → Siblings tasks cur y (tasks cur).cptr ps
    → Children tasks init qs
    → Apart init cur ps qs
    → is_zombie (tasks init).state ≡ false
    → length ps ≤ fuel
    → (t : Tasks) × (adopt_children fuel init cur tasks ≡ some t)
      × Children t init (rev_onto ps qs)
      × ((t cur).cptr ≡ null)
unfolding adopt_children
adopt_children-Children zero init cur y tasks [] qs s c a live h = (tasks, rw s refl, c, s)
adopt_children-Children zero init cur y tasks (p ∷ ps) qs s c a live h = absurd (omega arith)
adopt_children-Children (suc fuel) init cur y tasks [] qs s c a live h = (tasks, rw s refl, c, s)
adopt_children-Children (suc fuel) init cur y tasks (p ∷ ps) qs s c a live h =
    let (s', c') = adopt_child-Children p init cur y tasks ps qs s c a in
    let moved = adopt_child p init cur tasks in
    let live' : is_zombie (moved init).state ≡ false =
      ap is_zombie (adopt_child-state p init cur init tasks) ∙ live in
    let (woken, done, kept, up) = wake_init-SameLinks p init moved live' in
    let s'' : Siblings woken cur p (woken cur).cptr ps =
      rw (kept cur).1
        (Siblings-frame moved woken cur p (moved cur).cptr ps (λ x k. (kept x).0) s') in
    let c'' : Children woken init (p ∷ qs) =
      rw (kept init).1
        (Siblings-frame moved woken init null (moved init).cptr (p ∷ qs) (λ x k. (kept x).0) c') in
    let (t, rest, all, none_left) =
      adopt_children-Children fuel init cur p woken ps (p ∷ qs) s'' c''
        (Apart-turn init cur p ps qs a) up (ground arith) in
    let child : (p == null) ≡ false = ground arith in
    (t, rw (s.0, child, done) rest, all, none_left)
