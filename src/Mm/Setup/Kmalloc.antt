-- ===== src/Mm/Setup/Kmalloc.antt =====
-- `kmalloc` and `kfree` of kern/mm/pmm.c.
use zonix.Prelude.{◌==◌, length, ℕ, ◌^◌, ◌<◌, ◌≡◌, refl, ◌≢◌, false, some, arith}
use zonix.Mm.Page.{Page}
use zonix.Mm.FirstFit.{Pmm, alloc}
use zonix.Mm.FirstFit.Blocks.{Blocks, count}
use zonix.Mm.FirstFit.Invariant.{IsFree}
use zonix.Mm.FirstFit.Clients.{free-alloc}
use zonix.Mm.PageTable.{Vm}
use zonix.Mm.PageTable.Insert.{alloc_pages-some, pages_free-some}
use zonix.Mm.Setup.{page2kva, kva2page, kmalloc, kfree}

-- The kernel maps the first GiB: there the address of a page leads back to it and is not NULL.
pub kva2page-page2kva : (page : Page) → page < 2 ^ 18 → kva2page (page2kva page) ≡ page
unfolding kva2page page2kva
kva2page-page2kva page h = omega arith

page2kva-ne : (page : Page) → page < 2 ^ 18 → (page2kva page == 0) ≡ false
unfolding page2kva
page2kva-ne page h = ground arith

-- With the blocks `bs` free and fuel for one step more than their number, if the page that `kmalloc` takes
-- lies in the first GiB, then its address is not NULL, and `kfree` of it succeeds and restores the set of
-- free pages and their count.
pub kfree-kmalloc :
    (fuel size : ℕ) (s : Vm) (t : Pmm) (bs : Blocks) (page : Page)
    → IsFree s.pmm bs
    → length bs < fuel
    → alloc fuel 1 s.pmm ≡ some (some page, t)
    → page < 2 ^ 18
    → (ptr : ℕ) × (u : Vm) × (v : Vm) × (cs : Blocks) × (kmalloc fuel size s ≡ some (ptr, u))
      × (ptr ≢ 0)
      × (kfree fuel ptr u ≡ some v)
      × IsFree v.pmm cs
      × ((i : Page) → count i cs ≡ count i bs)
      × (v.pmm.nr_free ≡ s.pmm.nr_free)
unfolding kmalloc kfree
kfree-kmalloc fuel size s t bs page inv f taken low =
    let (u, cs, freed, back, same, counted) =
      free-alloc fuel 1 s.pmm t bs page inv (omega arith) f taken in
    let ne = page2kva-ne page low in
    (
      page2kva page,
      record s { pmm = t },
      record s { pmm = u },
      cs,
      rw (alloc_pages-some fuel 1 s (some page) t taken) refl,
      (λ e. ground arith),
      rw (ne, kva2page-page2kva page low)
          (pages_free-some fuel page 1 (record s { pmm = t }) u freed),
      back,
      same,
      counted,
    )
