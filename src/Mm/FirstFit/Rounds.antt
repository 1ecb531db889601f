-- ===== src/Mm/FirstFit/Rounds.antt =====
-- The loop of `free` of kern/mm/pmm_firstfit.c against the abstract merge.
use zonix.Prelude.{
  ◌==◌, Bool-cases, length, ℕ, zero, suc, ◌+◌, ◌<◌, ◌≡◌, refl, ◌∙◌, subst, inl, inr, some, [], ◌∷◌,
  ◌++◌, append-nil, append_assoc, arith,
}
use zonix.Links.{Ptr, list_next}
use zonix.Links.Ring.{last_of, first_of_or}
use zonix.Links.Ops.{next-Ring_entry, next-list_del, last_of_snoc}
use zonix.Mm.Page.{Page, free_list, page_link}
use zonix.Mm.FirstFit.{Pmm, merge_next, merge_prev, free_loop}
use zonix.Mm.FirstFit.Blocks.{Blocks, entries, merge}
use zonix.Mm.FirstFit.Invariant.{entries-append}
use zonix.Mm.FirstFit.Pass.{
  Pass, merge_next-Pass, merge_prev-Pass, keep-Pass, free_loop_next, free_loop_prev, free_loop_keep,
  merge_next-links, merge_prev-links, merge_next-count, merge_prev-count,
}

-- With more fuel than blocks the loop ends, with the block and the others that `merge` gives. The
-- last of those is `prev`.
pub record Merged (fuel : ℕ) (base n : ℕ) (le prev : Ptr) (s : Pmm) (passed rest : Blocks)
    : Type 0 where
  pub end : Pmm
  pub runs :
      free_loop fuel base le prev s
      ≡ some (
        (merge base n rest).0.start,
        last_of free_list (entries (passed ++ (merge base n rest).1)),
        end,
      )
  pub final :
      Pass end
        (merge base n rest).0.start
        (merge base n rest).0.size
        (passed ++ (merge base n rest).1)
        []
  pub same_count : end.nr_free ≡ s.nr_free

pub free_loop-merge :
    (fuel base n : ℕ) (le prev : Ptr) (s : Pmm) (passed rest : Blocks)
    → Pass s base n passed rest
    → list_next le s.links ≡ first_of_or (entries rest) free_list
    → prev ≡ last_of free_list (entries passed)
    → length rest < fuel
    → Merged fuel base n le prev s passed rest
unfolding free_loop merge
free_loop-merge zero base n le prev s passed rest pass e ep f = absurd (omega arith)
free_loop-merge (suc fuel) base n le prev s passed [] pass e ep f = record {
  end = s;
  runs = rw (e, append-nil, ep);
  final = rw append-nil pass;
  same_count = refl;
}
free_loop-merge (suc fuel) base n le prev s passed (b ∷ rest) pass e ep f =
    elim (Bool-cases (base + n == b.start)) [
      | inl joins ↦
          let r =
            free_loop-merge fuel base (n + b.size) (page_link b.start) prev
              (merge_next base b.start (page_link b.start) s) passed rest
              (merge_next-Pass s base n passed b rest pass) (follows_next base) ep (omega arith) in
          record {
            end = r.end;
            runs =
                rw joins (
                  free_loop_next fuel base le prev s b.start e (ground (arith, pass.size))
                  ∙ r.runs);
            final = rw joins r.final;
            same_count = r.same_count ∙ merge_next-count base b.start s;
          }
      | inr apart ↦ elim (Bool-cases (b.start + b.size == base)) [
        | inl joins ↦
            let r =
              free_loop-merge fuel b.start (b.size + n) (page_link b.start) prev
                (merge_prev base b.start (page_link b.start) s) passed rest
                (merge_prev-Pass s base n passed b rest pass) (follows_prev base) ep
                (omega arith) in
            record {
              end = r.end;
              runs =
                  rw (apart, joins)
                    (free_loop_prev fuel base le prev s b.start e (ground (arith, pass.size))
                        (ground (arith, pass.rest_described.0))
                      ∙ r.runs);
              final = rw (apart, joins) r.final;
              same_count = r.same_count ∙ merge_prev-count base b.start s;
            }
        | inr apart' ↦
            let r =
              free_loop-merge fuel base n (page_link b.start) (page_link b.start) s
                (passed ++ b ∷ []) rest (keep-Pass s base n passed b rest pass)
                (next-Ring_entry s.links free_list (page_link b.start) (entries passed)
                  (entries rest) pass.ring)
                last_kept (omega arith) in
            record {
              end = r.end;
              runs =
                  rw (apart, apart')
                    (free_loop_keep fuel base le prev s b.start e (ground (arith, pass.size))
                        (ground (arith, pass.rest_described.0))
                      ∙ subst
                          (λ x.
                            free_loop fuel base (page_link b.start) (page_link b.start) s
                            ≡ some
                                ((merge base n rest).0.start, last_of free_list (entries x), r.end))
                          (append_assoc passed (b ∷ []) (merge base n rest).1) r.runs);
              final =
                  rw (apart, apart')
                    (subst
                      (λ x. Pass r.end (merge base n rest).0.start (merge base n rest).0.size x [])
                      (append_assoc passed (b ∷ []) (merge base n rest).1) r.final);
              same_count = r.same_count;
            }
      ]
    ]
  where
    follows_next :
        (q : Page)
        → list_next (page_link b.start) (merge_next q b.start (page_link b.start) s).links
          ≡ first_of_or (entries rest) free_list
    follows_next q = rw (merge_next-links q b.start s) (
        next-list_del s.links free_list (page_link b.start) (entries passed) (entries rest)
          pass.ring)

    follows_prev :
        (q : Page)
        → list_next (page_link b.start) (merge_prev q b.start (page_link b.start) s).links
          ≡ first_of_or (entries rest) free_list
    follows_prev q = rw (merge_prev-links q b.start s) (
        next-list_del s.links free_list (page_link b.start) (entries passed) (entries rest)
          pass.ring)

    last_kept : page_link b.start ≡ last_of free_list (entries (passed ++ b ∷ []))
    last_kept = rw (
      entries-append passed (b ∷ []),
      last_of_snoc free_list (page_link b.start) (entries passed),
    )
