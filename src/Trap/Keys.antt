-- ===== src/Trap/Keys.antt =====
-- Keys that arrive by traps of kern/trap/trap.c at the line editor of the shell.
use zonix.Prelude.{ℕ, Bool, Option, none, some, List, [], ◌∷◌, ◌++◌}
use zonix.Cons.Stdio.{Text}
use zonix.Cons.Shell.{Event, command_names}
use zonix.Cons.Shell.Line.{edit, Line}
use zonix.Drivers.Kdb.{kdb_getc}
use zonix.Mm.Swap.{SwapManager}
use zonix.Trap.{Kernel, Inputs, TrapFrame, trap, and_then}

-- What one character, if there is one, does to the line.
abbrev pub edit_key : Option ℕ → Text → Text × List Event
edit_key none xs = (xs, [])
edit_key (some c) xs = edit command_names c xs

-- What the bytes of the keyboard do to the line, one after the other.
abbrev pub edit_keys : List Inputs → Text → Text × List Event
edit_keys [] xs = (xs, [])
edit_keys (i ∷ is) xs =
    let (ys, out) = edit_key (kdb_getc i.kbd_status i.kbd_data) xs in
    let (zs, more) = edit_keys is ys in (zs, out ++ more)

module _ {S : Type 0} (m : SwapManager S) (blk_read : ℕ → Bool) (fuel pgdir : ℕ)
    (func : ℕ → Kernel S → Option (Kernel S)) where
  -- The traps of the keyboard for these bytes, in order.
  abbrev pub key_traps : List Inputs → ℕ → TrapFrame → Kernel S → Option (Kernel S)
  key_traps [] tf frame k = some k
  key_traps (i ∷ is) tf frame k =
      and_then (trap m blk_read fuel pgdir func i tf frame k) (key_traps is tf frame)
