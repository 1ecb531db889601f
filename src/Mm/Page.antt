-- ===== src/Mm/Page.antt =====
-- kern/mm/pmm.h: page descriptors. A `PageDesc *` is the page's index in the array `pages`, so that
-- `page + n` is a sum. The `page_link` of each descriptor lives in the store of links, at an address
-- of its own; the two list headers and NULL have the addresses below those.
use zonix.Prelude.{
  ◌==◌, if◌then◌else◌, ◌∉◌, ℕ, ◌+◌, ◌-◌, ◌*◌, ◌/◌, ◌%◌, ◌≡◌, refl, Bool, List, [], ◌∷◌, ◌++◌, arith,
}
use zonix.Links.{Ptr}

abbrev pub Page : Type 0
Page = ℕ

pub record PageDesc : Type 0 where
  pub ref : ℕ
  pub flags : ℕ
  pub property : ℕ

abbrev pub null : Ptr
null = 0

-- `&_free.free_list`
abbrev pub free_list : Ptr
free_list = 1

-- `&pra_list_head`
abbrev pub pra_list_head : Ptr
pra_list_head = 2

-- `&(page->page_link)`
abbrev pub page_link : Page → Ptr
page_link p = p + 3

abbrev pub le2page : Ptr → Page
le2page le = le - 3

-- The bit `PG_RESERVED` is bit 0 of the flags.
abbrev pub set_page_reserved : PageDesc → PageDesc
set_page_reserved d = record d { flags = d.flags / 2 * 2 + 1 }

abbrev pub clear_page_reserved : PageDesc → PageDesc
clear_page_reserved d = record d { flags = d.flags / 2 * 2 }

abbrev pub page_reserved : PageDesc → Bool
page_reserved d = d.flags % 2 == 1

-- The descriptors of all pages; an update changes one.
abbrev pub Pages : Type 0
Pages = Page → PageDesc

abbrev pub update : Page → (PageDesc → PageDesc) → Pages → Pages
update p f pages i = if i == p then f (pages i) else pages i

abbrev pub page_links : List Page → List Ptr
page_links [] = []
page_links (p ∷ ps) = page_link p ∷ page_links ps

pub page_links-append : (ps qs : List Page) → page_links (ps ++ qs) ≡ page_links ps ++ page_links qs
page_links-append [] qs = refl
page_links-append (p ∷ ps) qs = rw (page_links-append ps qs)

-- Different pages have different entries, and none of them is a header.
pub not-mem-page_links :
    (p : Page) (ps : List Page) → p ∉ ps → page_link p ∉ (pra_list_head ∷ page_links ps)
not-mem-page_links p [] n = ground arith
not-mem-page_links p (q ∷ ps) n = ground (arith, not-mem-page_links p ps)

-- The other way round, for pages read off a ring.
pub not-mem_of_page_links : (p : Page) (ps : List Page) → page_link p ∉ page_links ps → p ∉ ps
not-mem_of_page_links p [] n = refl
not-mem_of_page_links p (q ∷ ps) n = ground (arith, not-mem_of_page_links p ps)
