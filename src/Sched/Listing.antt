-- ===== src/Sched/Listing.antt =====
-- The listing of all tasks, `print_all_procs` of kern/sched/sched.c.
use zonix.Prelude.{
  ◌==◌, if◌then◌else◌, length, codes, ℕ, zero, suc, ◌-◌, ◌^◌, ◌<◌, ◌≡◌, refl, sym, ap, ◌∙◌, subst,
  false, Option, none, some, List, [], ◌∷◌, ◌++◌, append_assoc, arith,
}
use Prim.Native.String.{String}
use zonix.Cons.Stdio.{Text, word, text, cprintf}
use zonix.Links.{Ptr, list_prev}
use zonix.Links.Ring.{Ring, first_of_or}
use zonix.Links.Ops.{prev-Ring, last_of_snoc}
use zonix.Sched.{
  Task, Sched, ProcState, uninit, sleeping, runnable, running, zombie, of_list_link, proc_list,
  null, list_link,
}
use zonix.Sched.Pick.{list_links}
use zonix.Sched.Adopt.{rev_onto}

unfoldable pub state_str : ProcState → String
state_str uninit = "U"
state_str sleeping = "S"
state_str runnable = "R"
state_str running = "R+"
state_str zombie = "Z"

-- The line of a task; the `int` -1 is 2 ^ 32 - 1.
unfoldable pub proc_line : Sched → Task → Text
proc_line s p =
    let d = s.tasks p in
    cprintf (codes "%c%-3d %-4s  %-4d  %08x  %08x  %s\n") (
      word (if p == s.current then b'*' else b' ')
      ∷ word d.pid
      ∷ text (codes (state_str d.state))
      ∷ word (if d.parent == null then 2 ^ 32 - 1 else (s.tasks d.parent).pid)
      ∷ word d.kstack
      ∷ word d.mm
      ∷ text d.name
      ∷ [])

abbrev pub and_print : Text → Option Text → Option Text
and_print line none = none
and_print line (some rest) = some (line ++ rest)

-- The loop behind `le`; `none` is the end of the fuel.
unfoldable pub list_procs : ℕ → Sched → Ptr → Option Text
list_procs zero s le = none
list_procs (suc fuel) s le =
    let before = list_prev le s.links in
    let rest = list_procs fuel s before in
    if before == proc_list then some [] else and_print (proc_line s (of_list_link before)) rest

abbrev pub proc_header : Text
proc_header =
    cprintf (codes "PID  STAT  PPID  KSTACK    MM        NAME\n") []
    ++ cprintf (codes "---  ----  ----  --------  --------  ----------------\n") []

unfoldable pub proc_footer : Sched → Text
proc_footer s =
    let d = s.tasks s.current in
    cprintf (codes "\nTotal processes: %d\n") (word s.nr_process ∷ [])
    ++ cprintf (codes "Current process: %s (PID %d)\n") (text d.name ∷ word d.pid ∷ [])

abbrev pub and_footer : Sched → Option Text → Option Text
and_footer s none = none
and_footer s (some lines) = some (proc_header ++ lines ++ proc_footer s)

unfoldable pub print_all_procs : ℕ → Sched → Option Text
print_all_procs fuel s = and_footer s (list_procs fuel s proc_list)

abbrev pub lines_of : Sched → List Task → Text
lines_of s [] = []
lines_of s (p ∷ ps) = proc_line s p ++ lines_of s ps

list_links-append : (ps qs : List Task) → list_links (ps ++ qs) ≡ list_links ps ++ list_links qs
list_links-append [] qs = refl
list_links-append (p ∷ ps) qs = rw (list_links-append ps qs) refl

rev_onto-append : (ps qs : List Task) → rev_onto ps qs ≡ rev_onto ps [] ++ qs
rev_onto-append [] qs = refl
rev_onto-append (p ∷ ps) qs =
    rev_onto-append ps (p ∷ qs)
    ∙ sym (append_assoc (rev_onto ps []) (p ∷ []) qs)
    ∙ ap (λ xs. xs ++ qs) (sym (rev_onto-append ps (p ∷ [])))

-- The task before the entries of `qs`.
prev_task :
    (s : Sched) (p : Task) (ps qs : List Task)
    → Ring s.links proc_list (list_links (rev_onto (p ∷ ps) qs))
    → list_prev (first_of_or (list_links qs) proc_list) s.links ≡ list_link p
unfolding list_prev
prev_task s p ps qs r =
    let before = list_links (rev_onto ps []) in
    let split : list_links (rev_onto (p ∷ ps) qs) ≡ (before ++ list_link p ∷ []) ++ list_links qs =
      ap list_links (rev_onto-append ps (p ∷ qs))
      ∙ list_links-append (rev_onto ps []) (p ∷ qs)
      ∙ sym (append_assoc before (list_link p ∷ []) (list_links qs)) in
    prev-Ring s.links proc_list (before ++ list_link p ∷ []) (list_links qs)
      (subst (Ring s.links proc_list) split r)
    ∙ last_of_snoc proc_list (list_link p) before

prev_end :
    (s : Sched) (qs : List Task)
    → Ring s.links proc_list (list_links qs)
    → list_prev (first_of_or (list_links qs) proc_list) s.links ≡ proc_list
unfolding list_prev
prev_end s qs r = prev-Ring s.links proc_list [] (list_links qs) r

list_procs-lines :
    (fuel : ℕ) (s : Sched) (ps qs : List Task)
    → Ring s.links proc_list (list_links (rev_onto ps qs))
    → length ps < fuel
    → list_procs fuel s (first_of_or (list_links qs) proc_list) ≡ some (lines_of s ps)
unfolding list_procs
list_procs-lines zero s ps qs r h = absurd (omega arith)
list_procs-lines (suc fuel) s [] qs r h = rw (prev_end s qs r) refl
list_procs-lines (suc fuel) s (p ∷ ps) qs r h =
    let rest = list_procs-lines fuel s ps (p ∷ qs) r (ground arith) in
    let other : (list_link p == proc_list) ≡ false = ground arith in
    let task : of_list_link (list_link p) ≡ p = omega arith in
    rw (prev_task s p ps qs r, other, task, rest) refl

-- With the list of all tasks a ring, the tasks `ps` being given from the oldest on, and fuel for one step more
-- than their number, `print_all_procs` ends and prints, between its header and its footer, the line of
-- each task once, the oldest first.
pub print_all_procs-lines :
    (fuel : ℕ) (s : Sched) (ps : List Task)
    → Ring s.links proc_list (list_links (rev_onto ps []))
    → length ps < fuel
    → print_all_procs fuel s ≡ some (proc_header ++ lines_of s ps ++ proc_footer s)
unfolding print_all_procs
print_all_procs-lines fuel s ps r h = ap (and_footer s) (list_procs-lines fuel s ps [] r h)
