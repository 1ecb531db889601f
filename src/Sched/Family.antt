-- ===== src/Sched/Family.antt =====
-- The pointers between a task and its children in kern/sched/sched.c.
use zonix.Prelude.{
  ◌==◌, eq-beq, beq_self, Bool-cases, has, ◌∉◌, Distinct, ℕ, ◌≡◌, refl, ap, ◌∙◌, ◌≢◌, inl, inr,
  true, false, false≢true, List, [], ◌∷◌, arith,
}
use zonix.Sched.{Task, null, TaskStruct, Tasks, link_child}

-- From `c` the `optr` pointers lead through `ps` to NULL; `yptr` leads back, and every task names the
-- parent.
abbrev pub Siblings : Tasks → Task → Task → Task → List Task → Type 0
Siblings tasks parent younger c [] = c ≡ null
Siblings tasks parent younger c (p ∷ ps) =
    (c ≡ p)
    × (p ≢ null)
    × ((tasks p).yptr ≡ younger)
    × ((tasks p).parent ≡ parent)
    × Siblings tasks parent p (tasks p).optr ps

-- The children of `parent` are `ps`, the youngest first.
abbrev pub Children : Tasks → Task → List Task → Type 0
Children tasks parent ps = Siblings tasks parent null (tasks parent).cptr ps

-- The fields that `Siblings` reads.
abbrev pub SameFamily : TaskStruct → TaskStruct → Type 0
SameFamily d e = (d.yptr ≡ e.yptr) × (d.parent ≡ e.parent) × (d.optr ≡ e.optr)

pub Siblings-frame :
    (tasks other : Tasks) (parent younger c : Task) (ps : List Task)
    → ((p : Task) → has p ps ≡ true → SameFamily (other p) (tasks p))
    → Siblings tasks parent younger c ps
    → Siblings other parent younger c ps
Siblings-frame tasks other parent younger c [] f s = s
Siblings-frame tasks other parent younger c (p ∷ ps) f (e, n, y, q, rest) =
    let (fy, fp, fo) = f p (ground arith) in
    (
      e,
      n,
      fy ∙ y,
      fp ∙ q,
      rw fo
          (Siblings-frame tasks other parent p (tasks p).optr ps (λ a h. f a (ground arith)) rest),
    )

pub has-ne : (x p : ℕ) (ps : List ℕ) → has x ps ≡ true → p ∉ ps → (x == p) ≡ false
has-ne x p [] h n = absurd (false≢true h)
has-ne x p (q ∷ ps) h n = elim (Bool-cases (x == q)) [
  | inl e ↦ let e' = eq-beq x q e in ground arith
  | inr e ↦ has-ne x p ps (ground arith) (ground arith)
]

pub link_child-other :
    (tasks : Tasks) (p parent x : Task)
    → (x == p) ≡ false
    → (x == parent) ≡ false
    → (x == (tasks parent).cptr) ≡ false
    → link_child p parent tasks x ≡ tasks x
unfolding link_child
link_child-other tasks p parent x a b c = elim (Bool-cases ((tasks parent).cptr == null)) [
  | inl e ↦ rw (e, b, a) refl
  | inr e ↦ rw (e, b, c, a) refl
]

pub same : (d e : TaskStruct) → d ≡ e → SameFamily d e
same d e h = (ap (λ d. d.yptr) h, ap (λ d. d.parent) h, ap (λ d. d.optr) h)

-- `link_child` puts a task that names the parent in front of its children.
pub link_child-Children :
    (tasks : Tasks) (p parent : Task) (ps : List Task)
    → Children tasks parent ps
    → (tasks p).parent ≡ parent
    → p ≢ null
    → p ≢ parent
    → p ∉ ps
    → parent ∉ ps
    → Distinct ps
    → Children (link_child p parent tasks) parent (p ∷ ps)
unfolding link_child
link_child-Children tasks p parent [] c e n a b d u =
    let pp : (p == parent) ≡ false = ground arith in
    let qq : (parent == p) ≡ false = ground arith in
    rw (c, pp, qq, beq_self p, beq_self parent) (refl, n, refl, e, refl)
link_child-Children tasks p parent (q ∷ ps) (h, qn, y, m, rest) e n a b d u =
    let pp : (p == parent) ≡ false = ground arith in
    let qq : (parent == p) ≡ false = ground arith in
    let pq : (p == q) ≡ false = ground arith in
    let qp : (q == p) ≡ false = ground arith in
    let parq : (parent == q) ≡ false = ground arith in
    let qpar : (q == parent) ≡ false = ground arith in
    let qnull : (q == null) ≡ false = ground arith in
    let others : Siblings (link_child p parent tasks) parent q (tasks q).optr ps =
      Siblings-frame tasks (link_child p parent tasks) parent q (tasks q).optr ps
        (λ x k. same (link_child p parent tasks x) (tasks x) (
          link_child-other tasks p parent x (has-ne x p ps k (ground arith))
            (has-ne x parent ps k (ground arith)) (rw h (has-ne x q ps k u.0))))
        rest in
    rw (h, qnull, pp, qq, pq, qp, parq, qpar, beq_self p, beq_self parent, beq_self q)
      (refl, n, refl, e, (refl, qn, refl, m, others))
