-- ===== src/Cons/Commands.antt =====
-- The commands of kern/cons/shell.c that print alone, and `cons_putc` of kern/cons/cons.c, which the
-- printed characters go to.
pub mod Clear
pub mod Tables
use zonix.Prelude.{codes, ℕ, zero, suc, ◌-◌, ◌%◌, not, List, [], ◌∷◌, ◌++◌}
use Prim.Native.String.{String}
use zonix.Cons.Stdio.{Text, Arg, word, text, cprintf}
use zonix.Drivers.Cga.{Cga, cga_putc}

-- The screen, and the bytes that went to the port 0xe9.
pub record Console : Type 0 where
  pub cga : Cga
  pub logged : Text

unfoldable pub cons_putc : ℕ → Console → Console
cons_putc c s = record { cga = cga_putc c s.cga; logged = s.logged ++ c % 256 ∷ [] }

-- What `cprintf` prints goes to the console character by character.
unfoldable pub put_text : Text → Console → Console
put_text [] s = s
put_text (c ∷ cs) s = put_text cs (cons_putc c s)

abbrev pub screen_rows : ℕ
screen_rows = 25

abbrev pub print_line : String → Text
print_line line = cprintf (codes line) []

-- An entry of the table `commands`.
pub record ShellCmd : Type 0 where
  pub name : String
  pub desc : String

abbrev pub shell_cmd : String → String → ShellCmd
shell_cmd name desc = record { name = name; desc = desc }

abbrev pub commands : List ShellCmd
commands =
    shell_cmd "help" "Show this help message"
    ∷ shell_cmd "pgdir" "Print page directory"
    ∷ shell_cmd "clear" "Clear the screen"
    ∷ shell_cmd "swaptest" "Run swap system tests"
    ∷ shell_cmd "lsblk" "List block devices"
    ∷ shell_cmd "hdparm" "Show disk information"
    ∷ shell_cmd "disktest" "Test disk read/write"
    ∷ shell_cmd "dd" "Disk dump/copy (info only)"
    ∷ shell_cmd "uname -a" "Print all system information"
    ∷ shell_cmd "uname" "Print system information"
    ∷ shell_cmd "ps" "List all processes"
    ∷ []

-- The loop of `cmd_help`.
unfoldable pub help_lines : List ShellCmd → Text
help_lines [] = []
help_lines (c ∷ cs) =
    cprintf (codes "  %-10s - %s\n") (text (codes c.name) ∷ text (codes c.desc) ∷ [])
    ++ help_lines cs

unfoldable pub cmd_help : Text
cmd_help = print_line "Available commands:\n" ++ help_lines commands

unfoldable pub clear_lines : ℕ → Text
clear_lines zero = []
clear_lines (suc n) = print_line "\n" ++ clear_lines n

unfoldable pub cmd_clear : Text
cmd_clear = clear_lines screen_rows

unfoldable pub cmd_dd : Text
cmd_dd =
    print_line "dd - disk read/write utility\n"
    ++ print_line "Usage: Use disktest for basic disk I/O testing\n"
    ++ print_line "Note: Full dd command with parameters not yet implemented\n"

abbrev pub sysinfo_name : String
sysinfo_name = "Zonix"

unfoldable pub cmd_uname : Text
cmd_uname = cprintf (codes "%s\n") (text (codes sysinfo_name) ∷ [])

-- The two texts with the version come from the build.
unfoldable pub cmd_uname_a : Text → Text → Text
cmd_uname_a zonix_version sysinfo_version = cprintf (codes "%s %s %s %s %s\n") (
    text (codes sysinfo_name)
    ∷ text (codes "zohar")
    ∷ text zonix_version
    ∷ text sysinfo_version
    ∷ text (codes "i386")
    ∷ [])

-- The prompt, and what `execute_command` prints of a line that is no command.
unfoldable pub shell_prompt : Text
shell_prompt = print_line "zonix> "

unfoldable pub unknown_lines : Text → Text
unknown_lines cmd =
    cprintf (codes "Unknown command: %s\n") (text cmd ∷ [])
    ++ print_line "Type 'help' for available commands.\n"
