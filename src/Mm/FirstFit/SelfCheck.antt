-- ===== src/Mm/FirstFit/SelfCheck.antt =====
-- `check` of kern/mm/pmm_firstfit.c on well-formed states.
use zonix.Prelude.{
  ◌==◌, length, ℕ, zero, suc, ◌+◌, ◌-◌, ◌%◌, ◌^◌, ◌<◌, ◌≡◌, refl, ap, ◌∙◌, Bool, true, false,
  Option, none, some, List, [], ◌∷◌, ◌++◌, append_assoc, arith,
}
use zonix.Links.{Ptr, list_next}
use zonix.Links.Ring.{Ring, first_of_or}
use zonix.Links.Ops.{next-Ring, next-Ring_entry}
use zonix.Mm.Page.{Page, free_list, page_link}
use zonix.Mm.FirstFit.{Pmm, count_free, check, check_trial}
use zonix.Mm.FirstFit.Blocks.{Blocks, entries, total, first_fit}
use zonix.Mm.FirstFit.Invariant.{Described, IsFree}
use zonix.Mm.FirstFit.Alloc.{taken, left, Settled, alloc-first_fit}

count_free-total :
    (fuel acc : ℕ) (s : Pmm) (le : Ptr) (xs : List Ptr) (bs : Blocks)
    → Ring s.links free_list (xs ++ entries bs)
    → list_next le s.links ≡ first_of_or (entries bs) free_list
    → Described s.pages bs
    → acc + total bs < 2 ^ 32
    → length bs < fuel
    → count_free fuel le acc s ≡ some (some (acc + total bs))
unfolding count_free
count_free-total zero acc s le xs bs r e d h f = absurd (omega arith)
count_free-total (suc fuel) acc s le xs [] r e d h f = rw e (ap (λ x. some (some x)) (omega arith))
count_free-total (suc fuel) acc s le xs (b ∷ bs) r e d h f =
    let at = append_assoc xs (page_link b.start ∷ []) (entries bs) in
    let rest =
      count_free-total fuel (acc + b.size) s (page_link b.start) (xs ++ page_link b.start ∷ []) bs
        (rw at r) (next-Ring_entry s.links free_list (page_link b.start) xs (entries bs) r) d.2
        (omega arith) (omega arith) in
    let here : page_link b.start - 3 ≡ b.start = omega arith in
    let inner : (page_link b.start == free_list) ≡ false = ground arith in
    let size : (acc + b.size) % 2 ^ 32 ≡ acc + b.size = omega arith in
    let sum : acc + b.size + total bs ≡ acc + (b.size + total bs) = omega arith in
    rw (e, here, d.0, d.1, size, inner) (rest ∙ ap (λ x. some (some x)) sum)

abbrev pub found_any : Option Page → Bool
found_any none = false
found_any (some p) = true

check_trial-Settled :
    (s t : Pmm) (r : Option (Page × Blocks))
    → Settled s t r
    → check_trial (some (taken r, t)) ≡ some (found_any (taken r), t)
unfolding check_trial
check_trial-Settled s t none h = refl
check_trial-Settled s t (some (p, bs)) h = rw h

-- `check` in a well-formed state ends; all its assertions pass exactly when some block has the five
-- pages of its trial allocation, and it keeps those five pages.
pub check-passes :
    (fuel : ℕ) (s : Pmm) (bs : Blocks)
    → IsFree s bs
    → length bs < fuel
    → (t : Pmm) × (check fuel s ≡ some (found_any (taken (first_fit 5 bs)), t))
      × IsFree t (left bs (first_fit 5 bs))
unfolding check
check-passes fuel s bs inv f =
    let sum =
      count_free-total fuel 0 s free_list [] bs inv.ring
        (next-Ring s.links free_list [] (entries bs) inv.ring) inv.described
        (omega (arith, inv.fits)) f in
    let (t, run, after, settled) = alloc-first_fit fuel 5 s bs inv (omega arith) f in
    let same : (0 + total bs == s.nr_free) ≡ true = ground (arith, inv.counted) in
    (t, rw (sum, check, same, run) (check_trial-Settled s t (first_fit 5 bs) settled), after)
