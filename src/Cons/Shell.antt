-- ===== src/Cons/Shell.antt =====
-- kern/cons/shell.c: the line buffer and the choice of a command. What a function does outside the
-- shell is an event. A C string is the list of its characters before the NUL.
pub mod Match
pub mod Line
use zonix.Prelude.{
  ltb, leb, ◌==◌, if◌then◌else◌, length, get_or, codes, ℕ, zero, suc, ◌+◌, ◌-◌, Bool, true, not,
  ◌&&◌, ◌||◌, Option, none, some, List, [], ◌∷◌, ◌++◌, map,
}
use zonix.Cons.Stdio.{Text}

abbrev pub cmd_buf_size : ℕ
cmd_buf_size = 128

abbrev pub ascii_del : ℕ
ascii_del = 0x7F

-- A call of `cons_putc`, of the function of a command (its place in the table), of `cprintf` for an
-- unknown command, and of `shell_prompt`.
pub data Event : Type 0 where
  putc : ℕ → Event
  func : ℕ → Event
  unknown : Text → Event
  prompt : Event

-- `*s`, which is NUL at the end.
abbrev pub deref : Text → ℕ
deref [] = 0
deref (c ∷ s) = c

abbrev pub advance : Text → Text
advance [] = []
advance (c ∷ s) = s

-- The loop of `strncmp`, which stops with the rest of both strings and of `n`.
unfoldable pub strncmp_loop : Text → Text → ℕ → Text × Text × ℕ
strncmp_loop s1 s2 zero = (s1, s2, 0)
strncmp_loop [] s2 (suc n) = ([], s2, suc n)
strncmp_loop (c ∷ s1) s2 (suc n) =
    let rest = strncmp_loop s1 (advance s2) n in
    if not (c == 0) && (c == deref s2) then rest else (c ∷ s1, s2, suc n)

-- Whether `strncmp` returns 0: the end of `n`, or no difference between the characters reached.
unfoldable pub strncmp_zero : Text → Text → ℕ → Bool
strncmp_zero s1 s2 n =
    let (r1, r2, m) = strncmp_loop s1 s2 n in if m == 0 then true else deref r1 == deref r2

-- `cmd[len]`.
abbrev pub char_at : Text → ℕ → ℕ
char_at s n = get_or s n 0

unfoldable pub skip_spaces : Text → Text
skip_spaces [] = []
skip_spaces (c ∷ s) = let rest = skip_spaces s in if c == b' ' then rest else c ∷ s

-- The test of the loop of `execute_command` at one name of the table.
unfoldable pub matches : Text → Text → Bool
matches cmd name =
    let len = length name in
    strncmp_zero cmd name len && ((char_at cmd len == 0) || (char_at cmd len == b' '))

-- The loop over the names of the table from place `i`.
unfoldable pub find_command : ℕ → List Text → Text → Option ℕ
find_command i [] cmd = none
find_command i (name ∷ names) cmd =
    let rest = find_command (i + 1) names cmd in if matches cmd name then some i else rest

abbrev pub call_of : Text → Option ℕ → List Event
call_of cmd none = unknown cmd ∷ []
call_of cmd (some i) = func i ∷ []

unfoldable pub execute_command : List Text → Text → List Event
execute_command commands line =
    let cmd = skip_spaces line in
    if deref cmd == 0 then [] else call_of cmd (find_command 0 commands cmd)

pub record Shell : Type 0 where
  pub cmd_buffer : ℕ → ℕ
  pub cmd_pos : ℕ

abbrev pub write_char : (ℕ → ℕ) → ℕ → ℕ → ℕ → ℕ
write_char buf i c j = if j == i then c else buf j

-- The string in the buffer from place `i`, of which at most `n` characters are looked at.
unfoldable pub string_at : ℕ → (ℕ → ℕ) → ℕ → Text
string_at zero buf i = []
string_at (suc n) buf i =
    let rest = string_at n buf (i + 1) in if buf i == 0 then [] else buf i ∷ rest

unfoldable pub shell_init : Shell → Shell
shell_init s = record { cmd_pos = 0; cmd_buffer = write_char s.cmd_buffer 0 0 }

-- The case of '\n' and '\r'.
unfoldable pub enter : List Text → Shell → Shell × List Event
enter commands s =
    let buffer = write_char s.cmd_buffer s.cmd_pos 0 in
    (
      record { cmd_buffer = buffer; cmd_pos = 0 },
      (putc 10 ∷ []) ++ execute_command commands (string_at cmd_buf_size buffer 0) ++ prompt ∷ [],
    )

unfoldable pub erase_char : Shell → Shell × List Event
erase_char s =
    if ltb 0 s.cmd_pos then (record s { cmd_pos = s.cmd_pos - 1 }, putc 8 ∷ []) else (s, [])

unfoldable pub type_char : ℕ → Shell → Shell × List Event
type_char c s =
    if ltb s.cmd_pos (cmd_buf_size - 1) && leb 0x20 c && ltb c 0x7F
    then (
      record { cmd_buffer = write_char s.cmd_buffer s.cmd_pos c; cmd_pos = s.cmd_pos + 1 },
      putc c ∷ [],
    )
    else (s, [])

-- `c` is the byte of a `char`, which is signed: from 128 on it is negative.
unfoldable pub shell_handle_char : List Text → ℕ → Shell → Shell × List Event
shell_handle_char commands c s =
    if (c == 0) || leb 128 c
    then (s, [])
    else if (c == 10) || (c == 13)
    then enter commands s
    else if c == 8
    then erase_char s
    else if c == ascii_del
    then (s, [])
    else type_char c s

-- The names of the table `commands`.
abbrev pub command_names : List Text
command_names = map codes (
    "help" ∷ "pgdir" ∷ "clear" ∷ "swaptest" ∷ "lsblk" ∷ "hdparm" ∷ "disktest" ∷ "dd" ∷ "uname -a"
    ∷ "uname" ∷ "ps" ∷ [])
