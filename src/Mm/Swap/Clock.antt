-- ===== src/Mm/Swap/Clock.antt =====
-- kern/mm/archived/swap_clock.c.
use zonix.Prelude.{
  ◌==◌, if◌then◌else◌, length, ◌∉◌, Distinct, ℕ, ◌-◌, ◌≡◌, refl, ◌⊎◌, inl, inr, Bool, true, false,
  ◌&&◌, ◌||◌, Option, none, some, List, [], ◌∷◌, ◌++◌, map, arith,
}
use zonix.Links.{Ptr, Links, list_init, list_next, list_add_before, list_del}
use zonix.Links.Ring.{Ring, first_of_or}
use zonix.Links.Ops.{
  Ring-list_init, Ring-list_add_before, Ring-list_del, next-Ring, next-Ring_entry,
}
use zonix.Mm.Page.{
  Page, null, pra_list_head, page_link, le2page, page_links, page_links-append, not-mem-page_links,
}
use zonix.Mm.Swap.{SwapManager, QueueLaws, map_all, victims, victims-map_all}

-- The list entries, `mm->swap_list` and the hand.
pub record ClockSwap : Type 0 where
  pub links : Links
  pub swap_list : Ptr
  pub clock_ptr : Ptr

unfoldable pub swap_clock_init_mm : ClockSwap → ClockSwap
swap_clock_init_mm s = record {
  links = list_init pra_list_head s.links;
  swap_list = pra_list_head;
  clock_ptr = pra_list_head;
}

unfoldable pub swap_clock_map_swappable : ℕ → Page → ClockSwap → ClockSwap
swap_clock_map_swappable addr page s = record s {
  links = list_add_before s.swap_list (page_link page) s.links;
}

-- The body of `while (1)`, which always returns in its first round. The hand is past its check.
unfoldable pub clock_take : ClockSwap → Option Page × Bool × ClockSwap
clock_take s =
    let victim = s.clock_ptr in
    (
      some (le2page victim),
      true,
      record s { clock_ptr = list_next victim s.links; links = list_del victim s.links },
    )

unfoldable pub swap_clock_swap_out_victim : ClockSwap → Option Page × Bool × ClockSwap
swap_clock_swap_out_victim s =
    let head = s.swap_list in
    let hand =
      if (s.clock_ptr == null) || (s.clock_ptr == head)
      then list_next head s.links
      else s.clock_ptr in
    let hand' = if hand == head then list_next hand s.links else hand in
    if (hand == head) && (hand' == head)
    then (none, false, record s { clock_ptr = hand' })
    else clock_take (record s { clock_ptr = hand' })

abbrev pub swap_mgr_clock : SwapManager ClockSwap
swap_mgr_clock = record {
  init_mm = swap_clock_init_mm;
  map_swappable = swap_clock_map_swappable;
  swap_out_victim = swap_clock_swap_out_victim;
}

-- The list holds the pages, and the hand is at the header or at the first of them.
abbrev pub ClockHolds : ClockSwap → List Page → Type 0
ClockHolds s ps =
    (s.swap_list ≡ pra_list_head)
    × Ring s.links pra_list_head (page_links ps)
    × ((s.clock_ptr ≡ pra_list_head) ⊎ (s.clock_ptr ≡ first_of_or (page_links ps) pra_list_head))

clock_init : (s : ClockSwap) → ClockHolds (swap_clock_init_mm s) []
unfolding swap_clock_init_mm
clock_init s = (refl, Ring-list_init s.links pra_list_head, inl refl)

clock_map :
    (addr : ℕ) (p : Page) (s : ClockSwap) (ps : List Page)
    → ClockHolds s ps
    → p ∉ ps
    → ClockHolds (swap_clock_map_swappable addr p s) (ps ++ p ∷ [])
unfolding swap_clock_map_swappable
clock_map addr p s ps (at, ring, hand) n = (
  at,
  rw (at, page_links-append ps (p ∷ []))
      (Ring-list_add_before s.links pra_list_head (page_link p) (page_links ps) ring
        (not-mem-page_links p ps n)),
  first_kept ps hand,
)
  where
    first_kept :
        (ps : List Page)
        → (s.clock_ptr ≡ pra_list_head) ⊎ (s.clock_ptr ≡ first_of_or (page_links ps) pra_list_head)
        → (s.clock_ptr ≡ pra_list_head)
          ⊎ (s.clock_ptr ≡ first_of_or (page_links (ps ++ p ∷ [])) pra_list_head)
    first_kept [] (inl e) = inl e
    first_kept [] (inr e) = inl e
    first_kept (q ∷ ps) h = h

clock_victim :
    (s : ClockSwap) (p : Page) (ps : List Page)
    → ClockHolds s (p ∷ ps)
    → ((swap_clock_swap_out_victim s).0 ≡ some p)
      × ((swap_clock_swap_out_victim s).1 ≡ true)
      × ClockHolds (swap_clock_swap_out_victim s).2 ps
unfolding swap_clock_swap_out_victim clock_take
clock_victim s p ps (at, ring, hand) =
    let first = next-Ring s.links pra_list_head [] (page_links (p ∷ ps)) ring in
    let second = next-Ring_entry s.links pra_list_head (page_link p) [] (page_links ps) ring in
    let cut = Ring-list_del s.links pra_list_head (page_link p) [] (page_links ps) ring in
    let inner : (page_link p == s.swap_list) ≡ false = rw at (ground arith) in
    let here : page_link p - 3 ≡ p = omega arith in
    rw (chosen first, inner, here) (refl, refl, (at, cut, inr second))
  where
    chosen :
        list_next pra_list_head s.links ≡ page_link p
        → (if (s.clock_ptr == null) || (s.clock_ptr == s.swap_list)
            then list_next s.swap_list s.links
            else s.clock_ptr)
          ≡ page_link p
    chosen first = rw at (ground arith)

clock_none :
    (s : ClockSwap)
    → ClockHolds s []
    → ((swap_clock_swap_out_victim s).0 ≡ none)
      × ((swap_clock_swap_out_victim s).1 ≡ false)
      × ClockHolds (swap_clock_swap_out_victim s).2 []
unfolding swap_clock_swap_out_victim
clock_none s (at, ring, hand) =
    let first = next-Ring s.links pra_list_head [] [] ring in
    let home : s.clock_ptr ≡ pra_list_head = ground arith in
    rw (home, at, first, first) (refl, refl, (refl, ring, inl refl))

-- The simplified clock, which reads no accessed bit, is a queue too: the hand is always at the
-- header or at the oldest page.
pub clock_laws : QueueLaws swap_mgr_clock
clock_laws = record {
  Holds = ClockHolds;
  init_empty = clock_init;
  map_last = clock_map;
  victim_first = clock_victim;
  victim_none = clock_none;
}

-- So the clock chooses victims in the order in which pages were made swappable.
pub clock_order :
    (ps : List Page) (s : ClockSwap)
    → Distinct ps
    → victims swap_mgr_clock (length ps) (map_all swap_mgr_clock ps (swap_clock_init_mm s))
      ≡ map some ps
clock_order = victims-map_all swap_mgr_clock clock_laws
