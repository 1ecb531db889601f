-- ===== src/Mm/Swap.antt =====
-- kern/mm/swap.h: the interface of a page replacement manager, and the order that kern/mm/swap.c
-- relies on. The managers are in the children: fifo (in use), lru and clock (archived).
pub mod Fifo
pub mod Lru
pub mod Clock
use zonix.Prelude.{
  length, ◌∉◌, Distinct, has-append, Distinct-remove, ℕ, zero, suc, ◌*◌, ◌≡◌, refl, Bool, true,
  false, Option, none, some, List, [], ◌∷◌, ◌++◌, map, append-nil, append_assoc, arith,
}
use zonix.Mm.Page.{Page}

-- `swap_manager`, over the state that the manager keeps. A status of `false` is the -1 of the source.
pub record SwapManager (S : Type 0) : Type 0 where
  pub init_mm : S → S
  pub map_swappable : ℕ → Page → S → S
  pub swap_out_victim : S → Option Page × Bool × S

-- What a first-in first-out manager promises: it holds a queue of pages.
pub record QueueLaws {S : Type 0} (m : SwapManager S) : Type 1 where
  pub Holds : S → List Page → Type 0
  pub init_empty : (s : S) → Holds (m.init_mm s) []
  pub map_last :
      (addr : ℕ) (p : Page) (s : S) (ps : List Page)
      → Holds s ps
      → p ∉ ps
      → Holds (m.map_swappable addr p s) (ps ++ p ∷ [])
  pub victim_first :
      (s : S) (p : Page) (ps : List Page)
      → Holds s (p ∷ ps)
      → ((m.swap_out_victim s).0 ≡ some p)
        × ((m.swap_out_victim s).1 ≡ true)
        × Holds (m.swap_out_victim s).2 ps
  pub victim_none :
      (s : S)
      → Holds s []
      → ((m.swap_out_victim s).0 ≡ none)
        × ((m.swap_out_victim s).1 ≡ false)
        × Holds (m.swap_out_victim s).2 []

module _ {S : Type 0} (m : SwapManager S) where
  -- `map_swappable` of each page in turn.
  pub map_all : List Page → S → S
  map_all [] s = s
  map_all (p ∷ ps) s = map_all ps (m.map_swappable (p * 0x1000) p s)

  -- The victims of `k` calls of `swap_out_victim`.
  pub victims : ℕ → S → List (Option Page)
  victims zero s = []
  victims (suc k) s = let (p, done, t) = m.swap_out_victim s in p ∷ victims k t

module _ {S : Type 0} (m : SwapManager S) (laws : QueueLaws m) where
  open laws use {Holds, init_empty, map_last, victim_first}

  map_all-Holds :
      (ps qs : List Page) (s : S)
      → Holds s qs
      → Distinct (qs ++ ps)
      → Holds (map_all m ps s) (qs ++ ps)
  unfolding map_all
  map_all-Holds [] qs s h d = rw append-nil h
  map_all-Holds (p ∷ ps) qs s h d = rw append_assoc at (
      map_all-Holds ps (qs ++ p ∷ []) (m.map_swappable (p * 0x1000) p s)
        (map_last (p * 0x1000) p s qs h
          (ground (arith, (Distinct-remove p qs ps d).1, has-append p qs ps)))
        (rw append_assoc d))

  victims-Holds : (ps : List Page) (s : S) → Holds s ps → victims m (length ps) s ≡ map some ps
  unfolding victims
  victims-Holds [] s h = refl
  victims-Holds (p ∷ ps) s h =
      let (first, done, rest) = victim_first s p ps h in
      rw (first, victims-Holds ps (m.swap_out_victim s).2 rest)

  -- Pages that are made swappable one after the other are chosen as victims in that order.
  pub victims-map_all :
      (ps : List Page) (s : S)
      → Distinct ps
      → victims m (length ps) (map_all m ps (m.init_mm s)) ≡ map some ps
  victims-map_all ps s d =
      victims-Holds ps (map_all m ps (m.init_mm s))
        (map_all-Holds ps [] (m.init_mm s) (init_empty s) d)
