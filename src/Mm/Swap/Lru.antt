-- ===== src/Mm/Swap/Lru.antt =====
-- kern/mm/archived/swap_lru.c.
use zonix.Prelude.{
  ◌==◌, if◌then◌else◌, ◌∉◌, Distinct-remove, ℕ, ◌-◌, ◌≡◌, refl, ◌≢◌, Bool, true, false, not, ◌&&◌,
  Option, none, some, List, [], ◌∷◌, ◌++◌, append_assoc, arith,
}
use zonix.Links.{Ptr, list_init, list_next, list_add_before, list_del}
use zonix.Links.Ring.{Ring, last_of, first_of_or, Chain-around}
use zonix.Links.Ops.{Ring-list_add_before, Ring-list_del, next-Ring}
use zonix.Mm.Page.{
  Page, null, pra_list_head, page_link, le2page, page_links, page_links-append, not-mem-page_links,
}
use zonix.Mm.Swap.{SwapManager}
use zonix.Mm.Swap.Fifo.{Swap, Holds}

unfoldable pub swap_lru_init_mm : Swap → Swap
swap_lru_init_mm s = record { links = list_init pra_list_head s.links; swap_list = pra_list_head }

-- An entry whose two words are not NULL is taken for one that is in the list.
unfoldable pub swap_lru_map_swappable : ℕ → Page → Swap → Swap
swap_lru_map_swappable addr page s =
    let entry = page_link page in
    let linked = not (s.links.prev entry == null) && not (s.links.next entry == null) in
    let links = if linked then list_del entry s.links else s.links in
    record s { links = list_add_before s.swap_list entry links }

unfoldable pub swap_lru_swap_out_victim : Swap → Option Page × Bool × Swap
swap_lru_swap_out_victim s =
    let victim = list_next s.swap_list s.links in
    if victim == s.swap_list
    then (none, false, s)
    else (some (le2page victim), true, record s { links = list_del victim s.links })

abbrev pub swap_mgr_lru : SwapManager Swap
swap_mgr_lru = record {
  init_mm = swap_lru_init_mm;
  map_swappable = swap_lru_map_swappable;
  swap_out_victim = swap_lru_swap_out_victim;
}

-- A page whose entry has never been linked is put last.
pub lru_map_new :
    (addr : ℕ) (p : Page) (s : Swap) (ps : List Page)
    → Holds s ps
    → p ∉ ps
    → s.links.next (page_link p) ≡ null
    → Holds (swap_lru_map_swappable addr p s) (ps ++ p ∷ [])
unfolding swap_lru_map_swappable
lru_map_new addr p s ps (at, ring) n unlinked =
    let test : (not (s.links.prev (page_link p) == null)
          && not (s.links.next (page_link p) == null))
        ≡ false =
      ground arith in
    (
      at,
      rw (test, at, page_links-append ps (p ∷ []))
          (Ring-list_add_before s.links pra_list_head (page_link p) (page_links ps) ring
            (not-mem-page_links p ps n)),
    )

last_of-page_links : (h : Ptr) (ps : List Page) → h ≢ null → last_of h (page_links ps) ≢ null
last_of-page_links h [] n = n
last_of-page_links h (p ∷ ps) n = last_of-page_links (page_link p) ps (omega arith)

first_of_or-page_links : (ps : List Page) → first_of_or (page_links ps) pra_list_head ≢ null
first_of_or-page_links [] = omega arith
first_of_or-page_links (p ∷ ps) = omega arith

-- An entry of the list passes the test of its words for NULL.
linked :
    (p : Page) (s : Swap) (ps qs : List Page)
    → Ring s.links pra_list_head (page_links ps ++ page_link p ∷ page_links qs)
    → (not (s.links.prev (page_link p) == null) && not (s.links.next (page_link p) == null)) ≡ true
linked p s ps qs ring =
    let (before, after) =
      Chain-around s.links (page_link p) pra_list_head pra_list_head (page_links ps) (page_links qs)
        ring.chain in
    let one = last_of-page_links pra_list_head ps (omega arith) in
    let two = first_of_or-page_links qs in rw (before, after) (ground arith)

-- A page that is in the list is moved to its end: it becomes the most recently used.
lru_map_again :
    (addr : ℕ) (p : Page) (s : Swap) (ps qs : List Page)
    → Holds s (ps ++ p ∷ qs)
    → Holds (swap_lru_map_swappable addr p s) (ps ++ qs ++ p ∷ [])
unfolding swap_lru_map_swappable
lru_map_again addr p s ps qs (at, ring) =
    let here : Ring s.links pra_list_head (page_links ps ++ page_link p ∷ page_links qs) =
      rw page_links-append at ring in
    let cut =
      Ring-list_del s.links pra_list_head (page_link p) (page_links ps) (page_links qs) here in
    let gone = (Distinct-remove (page_link p) (page_links ps) (page_links qs) here.distinct).1 in
    let fresh : page_link p ∉ (pra_list_head ∷ page_links ps ++ page_links qs) = ground arith in
    let all : page_links (ps ++ qs ++ p ∷ [])
        ≡ (page_links ps ++ page_links qs) ++ page_link p ∷ [] =
      rw (page_links-append, page_links-append, append_assoc) in
    (
      at,
      rw (linked p s ps qs here, at, all)
          (Ring-list_add_before (list_del (page_link p) s.links) pra_list_head (page_link p)
            (page_links ps ++ page_links qs) cut fresh),
    )

-- The victim is the page at the front, the least recently used.
pub lru_victim :
    (s : Swap) (p : Page) (ps : List Page)
    → Holds s (p ∷ ps)
    → ((swap_lru_swap_out_victim s).0 ≡ some p)
      × ((swap_lru_swap_out_victim s).1 ≡ true)
      × Holds (swap_lru_swap_out_victim s).2 ps
unfolding swap_lru_swap_out_victim
lru_victim s p ps (at, ring) =
    let first = next-Ring s.links pra_list_head [] (page_links (p ∷ ps)) ring in
    let here : page_link p - 3 ≡ p = omega arith in
    let inner : (page_link p == pra_list_head) ≡ false = ground arith in
    rw (at, first, inner, here)
      (
        refl,
        refl,
        (refl, Ring-list_del s.links pra_list_head (page_link p) [] (page_links ps) ring),
      )

-- Entries that were never linked, as in descriptors that are all zero.
abbrev blank : Swap
blank = record { links = record { next = λ a. null; prev = λ a. null }; swap_list = null }

abbrev evicted_twice : Swap
evicted_twice =
    let two = swap_lru_map_swappable 0 1 (swap_lru_map_swappable 0 0 (swap_lru_init_mm blank)) in
    (swap_lru_swap_out_victim (swap_lru_swap_out_victim two).2).2

-- An entry keeps its words when its page is chosen as a victim. Pages 0 and 1 are evicted, page 2 is
-- mapped, and page 0 comes back: the next victim is page 1, which is not mapped at all, and not 2.
stale_entry :
    (swap_lru_swap_out_victim
      (swap_lru_map_swappable 0 0 (swap_lru_map_swappable 0 2 evicted_twice))).0
    ≡ some 1
unfolding swap_lru_swap_out_victim swap_lru_map_swappable swap_lru_init_mm list_init list_next
    list_del list_add_before
stale_entry = refl
