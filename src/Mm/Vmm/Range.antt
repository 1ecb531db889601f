-- ===== src/Mm/Vmm/Range.antt =====
-- `pgdir_init` of kern/mm/vmm.c maps a range of pages.
use Prim.Native.Nat.{bit_or}
use zonix.Prelude.{
  length, ℕ, zero, suc, ◌+◌, ◌*◌, ◌/◌, ◌%◌, ◌^◌, ◌≤◌, ◌<◌, ◌≡◌, refl, ap, ◌∙◌, subst, true, Option,
  none, some, arith,
}
use zonix.Mm.FirstFit.Blocks.{Blocks}
use zonix.Mm.PageTable.{Vm, is_present, pte_addr, get_pte, write_word}
use zonix.Mm.Vmm.{map_pages}
use zonix.Mm.Vmm.Step.{table, Present, Space}
use zonix.Mm.Vmm.NewTable.{walk}
use zonix.Mm.Vmm.Entry.{after, after_Space, entry_after, others_after, slot_after}
use zonix.Mm.Vmm.Shown.{
  Shows, Supply, Below, Supply-walk, Supply-left, Supply-next, Below-trans, Shows-Below,
}

pub record Filled (fuel pgdir lo hi v n q perm : ℕ) (s : Vm) : Type 0 where
  pub final : Vm
  pub rest : Blocks
  pub runs : map_pages fuel pgdir (4096 * v) n (4096 * q) perm s ≡ some final
  pub space : Space final pgdir lo hi rest
  pub shows : (k : ℕ) → k < n → Shows final pgdir (v + k) (q + k) perm
  pub before : Below s final pgdir lo hi v

abbrev turn : ℕ → ℕ → ℕ → ℕ → ℕ → ℕ → Option (Option ℕ × Vm) → Option Vm
turn fuel pgdir la n pa perm o = elim o [
  | none ↦ none
  | some (none, t) ↦ none
  | some (some ptep, t) ↦
      map_pages fuel pgdir ((la + 4096) % 2 ^ 32) n ((pa + 4096) % 2 ^ 32) perm
        (record t { mem = write_word ptep (bit_or (bit_or pa 1) perm) t.mem })
]

map_pages-turn :
    (fuel pgdir v n q perm e : ℕ) (s u : Vm)
    → v + 1 < 2 ^ 20
    → q + 1 < 2 ^ 20
    → get_pte fuel pgdir (4096 * v) true s ≡ some (some e, u)
    → map_pages fuel pgdir (4096 * v) (suc n) (4096 * q) perm s
      ≡ map_pages fuel pgdir
          (4096 * (v + 1))
          n
          (4096 * (q + 1))
          perm
          (record u { mem = write_word e (bit_or (bit_or (4096 * q) 1) perm) u.mem })
unfolding map_pages
map_pages-turn fuel pgdir v n q perm e s u a b run =
    let la : (4096 * v + 4096) % 2 ^ 32 ≡ 4096 * (v + 1) = omega arith in
    let pa : (4096 * q + 4096) % 2 ^ 32 ≡ 4096 * (q + 1) = omega arith in
    ap (turn fuel pgdir (4096 * v) n (4096 * q) perm) run ∙ rw (la, pa) refl

-- What one page leaves.
record Stepped (fuel pgdir lo hi v q perm : ℕ) (s : Vm) (bs : Blocks) : Type 0 where
  final : Vm
  rest : Blocks
  runs :
      (n : ℕ)
      → map_pages fuel pgdir (4096 * v) (suc n) (4096 * q) perm s
        ≡ map_pages fuel pgdir (4096 * (v + 1)) n (4096 * (q + 1)) perm final
  space : Space final pgdir lo hi rest
  shows : Shows final pgdir v q perm
  before : Below s final pgdir lo hi v
  supply : Supply final pgdir hi (v + 1) rest
  shorter : length rest ≤ length bs

map_one :
    (fuel pgdir lo hi v q perm : ℕ) (s : Vm) (bs : Blocks)
    → Space s pgdir lo hi bs
    → hi ≤ 1023
    → lo * 1024 ≤ v
    → v < hi * 1024
    → q + 1 < 2 ^ 20
    → Supply s pgdir hi v bs
    → length bs < fuel
    → Stepped fuel pgdir lo hi v q perm s bs
map_one fuel pgdir lo hi v q perm s bs sp top at below mem supply enough =
    let first : lo ≤ v / 1024 = omega arith in
    let inside : v / 1024 < hi = omega arith in
    let small : v % 1024 < 1024 = omega arith in
    let w =
      walk fuel pgdir lo hi v s bs sp first inside top (Supply-walk s pgdir hi v bs inside supply)
        enough in
    let word = bit_or (bit_or (4096 * q) 1) perm in
    let t =
      after pgdir lo hi (v / 1024) (v % 1024) word w.final w.rest w.space first inside top small
        w.present in
    let slot =
      slot_after pgdir lo hi (v / 1024) (v % 1024) word w.final w.rest w.space first inside top
        small w.present in
    let entry =
      entry_after pgdir lo hi (v / 1024) (v % 1024) word w.final w.rest w.space first inside top
        small w.present in
    let others =
      others_after pgdir lo hi (v / 1024) (v % 1024) word w.final w.rest w.space first inside top
        small w.present in
    let here = slot (v / 1024) (omega arith) in
    let present : Present t pgdir (v / 1024) = ap is_present here ∙ w.present in
    let walked : Below s w.final pgdir lo hi v = λ i x a b c l p. w.kept i x a b c p in
    let written : Below w.final t pgdir lo hi v =
      λ i x a b c l p. (slot i (omega arith), others i x a b c p (λ e f. omega arith)) in
    record {
      final = t;
      rest = w.rest;
      runs = λ n.
          map_pages-turn fuel pgdir v n q perm (table w.final pgdir (v / 1024) + 4 * (v % 1024)) s
            w.final (omega arith) mem w.runs;
      space =
          after_Space pgdir lo hi (v / 1024) (v % 1024) word w.final w.rest w.space first inside top
            small w.present;
      shows = (present, ap (λ e. t.mem (pte_addr e + 4 * (v % 1024))) here ∙ entry);
      before = Below-trans s w.final t pgdir lo hi v walked written;
      supply =
          Supply-next t pgdir hi v w.rest present
            (Supply-left s pgdir hi v bs w.rest supply w.cost);
      shorter = w.shorter;
    }

-- With a supply of pages the loop ends, and every page of the range is shown.
pub fill :
    (fuel pgdir lo hi v n q perm : ℕ) (s : Vm) (bs : Blocks)
    → Space s pgdir lo hi bs
    → hi ≤ 1023
    → lo * 1024 ≤ v
    → v + n ≤ hi * 1024
    → q + n < 2 ^ 20
    → Supply s pgdir hi v bs
    → length bs < fuel
    → Filled fuel pgdir lo hi v n q perm s
unfolding map_pages
fill fuel pgdir lo hi v zero q perm s bs sp top at below mem supply enough = record {
  final = s;
  rest = bs;
  runs = refl;
  space = sp;
  shows = λ k b. absurd (omega arith);
  before = λ i x a b c l p. (refl, refl);
}
fill fuel pgdir lo hi v (suc n) q perm s bs sp top at below mem supply enough =
    let one =
      map_one fuel pgdir lo hi v q perm s bs sp top at (omega arith) (omega arith) supply enough in
    let all =
      fill fuel pgdir lo hi (v + 1) n (q + 1) perm one.final one.rest one.space top (omega arith)
        (omega arith) (omega arith) one.supply (omega (arith, one.shorter)) in
    let later : Below one.final all.final pgdir lo hi v =
      λ i x a b c l p. all.before i x a b c (omega arith) p in
    record {
      final = all.final;
      rest = all.rest;
      runs = one.runs n ∙ all.runs;
      space = all.space;
      shows = λ k b.
          shown all.final (all.shows)
            (Shows-Below one.final all.final pgdir lo hi v (v + 1) q perm all.before (omega arith)
              (omega arith) (omega arith) one.shows)
            k b;
      before = Below-trans s one.final all.final pgdir lo hi v one.before later;
    }
  where
    shown :
        (f : Vm)
        → ((k : ℕ) → k < n → Shows f pgdir (v + 1 + k) (q + 1 + k) perm)
        → Shows f pgdir v q perm
        → (k : ℕ) → k < suc n
        → Shows f pgdir (v + k) (q + k) perm
    shown f later first zero b =
        let same : v ≡ v + 0 = omega arith in
        let page : q ≡ q + 0 = omega arith in
        subst (λ a. Shows f pgdir a (q + 0) perm) same
          (subst (λ a. Shows f pgdir v a perm) page first)
    shown f later first (suc k) b =
        let same : v + 1 + k ≡ v + suc k = omega arith in
        let page : q + 1 + k ≡ q + suc k = omega arith in
        subst (λ a. Shows f pgdir a (q + suc k) perm) same
          (subst (λ a. Shows f pgdir (v + 1 + k) a perm) page (later k (omega arith)))
