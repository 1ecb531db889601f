-- ===== src/Examples/Console.antt =====
-- Concrete texts and screens for kern/cons and kern/drivers/cga.c.
use zonix.Prelude.{ltb, if◌then◌else◌, codes, ℕ, ◌<◌, ◌≡◌, refl, inr, [], ◌∷◌, ◌++◌, arith}
use zonix.Cons.Stdio.{Text}
use zonix.Drivers.Cga.{Cga, crt_erase_char}
use zonix.Cons.Shell.{Shell, command_names, shell_init, shell_handle_char}
use zonix.Cons.Shell.Match.{EndsWord, matches_sound, matches_complete}
use zonix.Cons.Shell.Line.{Line, edit, shell_init-Line, shell_handle_char-Line}
use zonix.Cons.Commands.{Console, put_text, cmd_clear}
use zonix.Cons.Commands.Clear.{cmd_clear-blank}

abbrev word : Text
word = codes "ab"

abbrev screen : ℕ → Cga
screen pos = record { crt_buf = λ j. j; crt_pos = pos; ports = [] }

abbrev ps_command : Text
ps_command = 112 ∷ 115 ∷ []

matches_sound_example : (rest : Text) × (112 ∷ 115 ∷ 32 ∷ [] ≡ ps_command ++ rest) × EndsWord rest
matches_sound_example =
    matches_sound (112 ∷ 115 ∷ 32 ∷ []) ps_command
      (λ e. ground arith, (λ e. ground arith, (λ e. ground arith, tt)))
      (λ e. ground arith, (λ e. ground arith, tt))
      (matches_complete ps_command (32 ∷ []) (λ e. ground arith, (λ e. ground arith, tt))
        (inr ([], refl)))

abbrev shell : Shell
shell = shell_init (record { cmd_buffer = λ i. 7; cmd_pos = 5 })

shell_handle_char-Line_example :
    (Line (shell_handle_char command_names 112 shell).0 (edit command_names 112 []).0)
    × ((shell_handle_char command_names 112 shell).1 ≡ (edit command_names 112 []).1)
shell_handle_char-Line_example =
    shell_handle_char-Line command_names 112 shell []
      (shell_init-Line (record { cmd_buffer = λ i. 7; cmd_pos = 5 }))

abbrev console : Console
console = record {
  cga = record {
    crt_buf = λ j. if ltb j 160 then 0x0741 else crt_erase_char;
    crt_pos = 90;
    ports = [];
  };
  logged = [];
}

cmd_clear-blank_example :
    ((j : ℕ) → j < 2000 → (put_text cmd_clear console).cga.crt_buf j ≡ crt_erase_char)
    × ((put_text cmd_clear console).cga.crt_pos ≡ 1920)
cmd_clear-blank_example = cmd_clear-blank console (ground arith) (λ j lo hi. ground arith)
