-- ===== src/Drivers/Kdb.antt =====
-- kern/drivers/kdb.c: the keyboard. The status and the byte that the two ports give are arguments.
pub mod Keys
use zonix.Prelude.{ltb, ◌==◌, if◌then◌else◌, get_or, ℕ, ◌/◌, ◌%◌, Option, none, some, List, [], ◌∷◌}
use zonix.Drivers.Pic.{Pic, pic_enable}

-- `NO`
abbrev pub no_key : ℕ
no_key = 0

-- The places of `normal_map` from 0 up to 0x53.
abbrev pub first_keys : List ℕ
first_keys =
    no_key ∷ 0x1B ∷ b'1' ∷ b'2' ∷ b'3' ∷ b'4' ∷ b'5' ∷ b'6' ∷ b'7' ∷ b'8' ∷ b'9' ∷ b'0' ∷ b'-'
    ∷ b'=' ∷ 8 ∷ 9 ∷ b'q' ∷ b'w' ∷ b'e' ∷ b'r' ∷ b't' ∷ b'y' ∷ b'u' ∷ b'i' ∷ b'o' ∷ b'p' ∷ b'['
    ∷ b']' ∷ 10 ∷ no_key ∷ b'a' ∷ b's' ∷ b'd' ∷ b'f' ∷ b'g' ∷ b'h' ∷ b'j' ∷ b'k' ∷ b'l' ∷ b';' ∷ 39
    ∷ b'`' ∷ no_key ∷ 92 ∷ b'z' ∷ b'x' ∷ b'c' ∷ b'v' ∷ b'b' ∷ b'n' ∷ b'm' ∷ b',' ∷ b'.' ∷ b'/'
    ∷ no_key ∷ b'*' ∷ no_key ∷ b' ' ∷ no_key ∷ no_key ∷ no_key ∷ no_key ∷ no_key ∷ no_key ∷ no_key
    ∷ no_key ∷ no_key ∷ no_key ∷ no_key ∷ no_key ∷ no_key ∷ b'7' ∷ b'8' ∷ b'9' ∷ b'-' ∷ b'4' ∷ b'5'
    ∷ b'6' ∷ b'+' ∷ b'1' ∷ b'2' ∷ b'3' ∷ b'0' ∷ b'.' ∷ []

-- The designated places.
abbrev pub special_keys : List (ℕ × ℕ)
special_keys =
    (0xC7, 0xE0)
    ∷ (0x9C, 10)
    ∷ (0xB5, b'/')
    ∷ (0xC8, 0xE2)
    ∷ (0xC9, 0xE6)
    ∷ (0xCB, 0xE4)
    ∷ (0xCD, 0xE5)
    ∷ (0xCF, 0xE1)
    ∷ (0xD0, 0xE3)
    ∷ (0xD1, 0xE7)
    ∷ (0xD2, 0xE8)
    ∷ (0xD3, 0xE9)
    ∷ []

abbrev pub look_up : ℕ → List (ℕ × ℕ) → ℕ
look_up key [] = no_key
look_up key (e ∷ es) = if e.0 == key then e.1 else look_up key es

unfoldable pub normal_map : ℕ → ℕ
normal_map scancode =
    if ltb scancode 0x54 then get_or first_keys scancode no_key else look_up scancode special_keys

-- `none` is the result -1.
unfoldable pub kdb_getc : ℕ → ℕ → Option ℕ
kdb_getc status scancode =
    if status % 2 == 0
    then none
    else if scancode / 128 % 2 == 1
    then none
    else some (normal_map scancode)

-- `kbd_init` lets the keyboard's line through.
unfoldable pub kbd_init : Pic → Pic
kbd_init s = pic_enable 1 s
