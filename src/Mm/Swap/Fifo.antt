-- ===== src/Mm/Swap/Fifo.antt =====
-- kern/mm/swap_fifo.c.
use zonix.Prelude.{
  ◌==◌, if◌then◌else◌, length, ◌∉◌, Distinct, ℕ, ◌-◌, ◌≡◌, refl, Bool, true, false, Option, none,
  some, List, [], ◌∷◌, ◌++◌, map, arith,
}
use zonix.Links.{Ptr, Links, list_init, list_next, list_add_before, list_del}
use zonix.Links.Ring.{Ring}
use zonix.Links.Ops.{Ring-list_init, Ring-list_add_before, Ring-list_del, next-Ring}
use zonix.Mm.Page.{
  Page, pra_list_head, page_link, le2page, page_links, page_links-append, not-mem-page_links,
}
use zonix.Mm.Swap.{SwapManager, QueueLaws, map_all, victims, victims-map_all}

-- The list entries, and the field `swap_list` of the `mm_struct`.
pub record Swap : Type 0 where
  pub links : Links
  pub swap_list : Ptr

unfoldable pub swap_fifo_init_mm : Swap → Swap
swap_fifo_init_mm s = record { links = list_init pra_list_head s.links; swap_list = pra_list_head }

unfoldable pub swap_fifo_map_swappable : ℕ → Page → Swap → Swap
swap_fifo_map_swappable addr page s = record s {
  links = list_add_before s.swap_list (page_link page) s.links;
}

-- The victim, whether there is one, and the new state.
unfoldable pub swap_fifo_swap_out_victim : Swap → Option Page × Bool × Swap
swap_fifo_swap_out_victim s =
    let victim = list_next s.swap_list s.links in
    if victim == s.swap_list
    then (none, false, s)
    else (some (le2page victim), true, record s { links = list_del victim s.links })

-- The manager as `swap.c` calls it.
abbrev pub swap_mgr_fifo : SwapManager Swap
swap_mgr_fifo = record {
  init_mm = swap_fifo_init_mm;
  map_swappable = swap_fifo_map_swappable;
  swap_out_victim = swap_fifo_swap_out_victim;
}

-- The list headed by `pra_list_head` holds the pages, oldest first.
abbrev pub Holds : Swap → List Page → Type 0
Holds s ps = (s.swap_list ≡ pra_list_head) × Ring s.links pra_list_head (page_links ps)

init_mm-Holds : (s : Swap) → Holds (swap_fifo_init_mm s) []
unfolding swap_fifo_init_mm
init_mm-Holds s = (refl, Ring-list_init s.links pra_list_head)

map_swappable-Holds :
    (addr : ℕ) (p : Page) (s : Swap) (ps : List Page)
    → Holds s ps
    → p ∉ ps
    → Holds (swap_fifo_map_swappable addr p s) (ps ++ p ∷ [])
unfolding swap_fifo_map_swappable
map_swappable-Holds addr p s ps (at, ring) n = (
  at,
  rw (at, page_links-append ps (p ∷ []))
      (Ring-list_add_before s.links pra_list_head (page_link p) (page_links ps) ring
        (not-mem-page_links p ps n)),
)

victim-Holds :
    (s : Swap) (p : Page) (ps : List Page)
    → Holds s (p ∷ ps)
    → ((swap_fifo_swap_out_victim s).0 ≡ some p)
      × ((swap_fifo_swap_out_victim s).1 ≡ true)
      × Holds (swap_fifo_swap_out_victim s).2 ps
unfolding swap_fifo_swap_out_victim
victim-Holds s p ps (at, ring) =
    let first = next-Ring s.links pra_list_head [] (page_links (p ∷ ps)) ring in
    let here : page_link p - 3 ≡ p = omega arith in
    let inner : (page_link p == pra_list_head) ≡ false = ground arith in
    rw (at, first, inner, here)
      (
        refl,
        refl,
        (refl, Ring-list_del s.links pra_list_head (page_link p) [] (page_links ps) ring),
      )

victim_none :
    (s : Swap)
    → Holds s []
    → ((swap_fifo_swap_out_victim s).0 ≡ none)
      × ((swap_fifo_swap_out_victim s).1 ≡ false)
      × Holds (swap_fifo_swap_out_victim s).2 []
unfolding swap_fifo_swap_out_victim
victim_none s (at, ring) =
    let first = next-Ring s.links pra_list_head [] [] ring in
    rw (at, first) (refl, refl, (refl, ring))

-- The manager in swap_fifo.c is a queue: it starts empty, `map_swappable` puts a page last, and
-- `swap_out_victim` takes the first page, or fails and changes nothing if there is none.
pub fifo_laws : QueueLaws swap_mgr_fifo
fifo_laws = record {
  Holds = Holds;
  init_empty = init_mm-Holds;
  map_last = map_swappable-Holds;
  victim_first = victim-Holds;
  victim_none = victim_none;
}

-- From a queue that `swap_fifo_init_mm` has just made empty: of pages that are all different and made swappable one
-- after the other the manager chooses victims in that order.
pub fifo_order :
    (ps : List Page) (s : Swap)
    → Distinct ps
    → victims swap_mgr_fifo (length ps) (map_all swap_mgr_fifo ps (swap_fifo_init_mm s))
      ≡ map some ps
fifo_order = victims-map_all swap_mgr_fifo fifo_laws
