-- ===== src/Links.antt =====
-- kern/include/list.h: circular doubly linked lists threaded through `list_entry` structures.
-- The store gives the two words of the structure at each address.
pub mod Ops
pub mod Ring
use zonix.Prelude.{◌==◌, if◌then◌else◌, ℕ}

abbrev pub Ptr : Type 0
Ptr = ℕ

pub record Links : Type 0 where
  pub next : Ptr → Ptr
  pub prev : Ptr → Ptr

-- `p->next = q` and `p->prev = q`.
abbrev pub set_next : Ptr → Ptr → Links → Links
set_next p q l = record l { next = λ a. if a == p then q else l.next a }

abbrev pub set_prev : Ptr → Ptr → Links → Links
set_prev p q l = record l { prev = λ a. if a == p then q else l.prev a }

-- `__list_add`: the assignments in the order of the source.
unfoldable pub list_link : Ptr → Ptr → Ptr → Links → Links
list_link elm prev next l =
    set_prev elm prev (set_next elm next (set_next prev elm (set_prev next elm l)))

-- `__list_del`.
unfoldable pub list_unlink : Ptr → Ptr → Links → Links
list_unlink prev next l = set_prev next prev (set_next prev next l)

unfoldable pub list_init : Ptr → Links → Links
list_init p l = set_prev p p (set_next p p l)

unfoldable pub list_next : Ptr → Links → Ptr
list_next p l = l.next p

unfoldable pub list_prev : Ptr → Links → Ptr
list_prev p l = l.prev p

unfoldable pub list_add_before : Ptr → Ptr → Links → Links
unfolding list_link
list_add_before p elm l = list_link elm (l.prev p) p l

unfoldable pub list_add_after : Ptr → Ptr → Links → Links
unfolding list_link
list_add_after p elm l = list_link elm p (l.next p) l

unfoldable pub list_del : Ptr → Links → Links
unfolding list_unlink
list_del p l = list_unlink (l.prev p) (l.next p) l

unfoldable pub list_add : Ptr → Ptr → Links → Links
unfolding list_add_after
list_add p elm l = list_add_after p elm l
