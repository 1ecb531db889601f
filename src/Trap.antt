-- ===== src/Trap.antt =====
-- kern/trap/trap.c: the dispatch of traps. The frame is at the address `tf`; the registers of the keyboard
-- controller and the control register 2 at the time of the trap are arguments, and so is `func`: what the commands of
-- the shell, by their place in its table, do to the kernel, none where one does not return.
pub mod Handled
pub mod Ack
pub mod Keys
pub mod Returns
use Prim.Native.String.{String}
use zonix.Prelude.{
  ltb, leb, ◌==◌, if◌then◌else◌, get_or, codes, ℕ, ◌+◌, ◌-◌, ◌/◌, ◌%◌, ◌^◌, Bool, ◌&&◌, Option,
  none, some, List, [], ◌∷◌, ◌++◌,
}
use zonix.Cons.Stdio.{Text, Arg, word, text, cprintf}
use zonix.Cons.Shell.{Shell, Event, putc, unknown, prompt, shell_handle_char, command_names}
use zonix.Cons.Commands.{shell_prompt, unknown_lines}
use zonix.Drivers.Pic.{Pic, pic_send_eoi}
use zonix.Drivers.Kdb.{kdb_getc}
use zonix.Mm.Swap.{SwapManager}
use zonix.Mm.SwapSpace.{SwapSpace, vmm_pg_fault}

abbrev pub t_pgflt : ℕ
t_pgflt = 14

abbrev pub irq_offset : ℕ
irq_offset = 0x20

abbrev pub irq_timer_line : ℕ
irq_timer_line = 0

abbrev pub irq_kbd_line : ℕ
irq_kbd_line = 1

-- `trap_regs` and `trap_frame`, without the padding.
pub record TrapFrame : Type 0 where
  pub reg_edi : ℕ
  pub reg_esi : ℕ
  pub reg_ebp : ℕ
  pub reg_ebx : ℕ
  pub reg_edx : ℕ
  pub reg_ecx : ℕ
  pub reg_eax : ℕ
  pub tf_trapno : ℕ
  pub tf_err : ℕ
  pub tf_eip : ℕ
  pub tf_cs : ℕ
  pub tf_eflags : ℕ
  pub tf_esp : ℕ
  pub tf_ss : ℕ

abbrev pub excnames : List String
excnames =
    "Divide error" ∷ "Debug" ∷ "Non-Maskable Interrupt" ∷ "Breakpoint" ∷ "Overflow"
    ∷ "BOUND Range Exceeded" ∷ "Invalid Opcode" ∷ "Device Not Available" ∷ "Double Fault"
    ∷ "Coprocessor Segment Overrun" ∷ "Invalid TSS" ∷ "Segment Not Present" ∷ "Stack Fault"
    ∷ "General Protection" ∷ "Page Fault" ∷ "(unknown trap)" ∷ "x87 FPU Floating-Point Error"
    ∷ "Alignment Check" ∷ "Machine-Check" ∷ "SIMD Floating-Point Exception" ∷ []

-- A negative number, from 2 ^ 31 on, is compared as an unsigned one with the size of the table.
unfoldable pub trap_name : ℕ → String
trap_name trapno =
    if ltb trapno 20
    then get_or excnames trapno ""
    else if leb irq_offset trapno && ltb trapno (irq_offset + 16)
    then "Hardware Interrupt"
    else "(unknown trap)"

abbrev pub print_reg : String → ℕ → Text
print_reg line reg = cprintf (codes line) (word reg ∷ [])

unfoldable pub print_regs : TrapFrame → Text
print_regs regs =
    print_reg "  edi  0x%08x\n" regs.reg_edi
    ++ print_reg "  esi  0x%08x\n" regs.reg_esi
    ++ print_reg "  ebp  0x%08x\n" regs.reg_ebp
    ++ print_reg "  ebx  0x%08x\n" regs.reg_ebx
    ++ print_reg "  edx  0x%08x\n" regs.reg_edx
    ++ print_reg "  ecx  0x%08x\n" regs.reg_ecx
    ++ print_reg "  eax  0x%08x\n" regs.reg_eax

unfoldable pub print_trapframe : ℕ → TrapFrame → Text
print_trapframe tf frame =
    cprintf (codes "trapframe at %p\n") (word tf ∷ [])
    ++ print_regs frame
    ++ cprintf (codes "  trap 0x%08x %s\n")
        (word frame.tf_trapno ∷ text (codes (trap_name frame.tf_trapno)) ∷ [])
    ++ print_reg "  err  0x%08x\n" frame.tf_err
    ++ print_reg "  eip  0x%08x\n" frame.tf_eip

unfoldable pub print_pgfault : ℕ → TrapFrame → Text
print_pgfault cr2 frame = cprintf (codes "Page Fault at 0x%08x: %c/%c [%s].\n") (
    word cr2
    ∷ word (if frame.tf_err / 4 % 2 == 1 then b'U' else b'K')
    ∷ word (if frame.tf_err / 2 % 2 == 1 then b'W' else b'R')
    ∷ text (codes (if frame.tf_err % 2 == 1 then "Protection Fault" else "No Page Found"))
    ∷ [])

-- What the handlers change. `printed` is all that is printed, `events` what the shell did.
pub record Kernel (S : Type 0) : Type 0 where
  pub ticks : ℕ
  pub shell : Shell
  pub events : List Event
  pub printed : Text
  pub pic : Pic
  pub space : SwapSpace S

-- The state of the machine that a handler reads.
pub record Inputs : Type 0 where
  pub kbd_status : ℕ
  pub kbd_data : ℕ
  pub cr2 : ℕ

-- `ticks` has 64 bits.
unfoldable pub irq_timer : {S : Type 0} → Kernel S → Kernel S
irq_timer k = record k { ticks = (k.ticks + 1) % 2 ^ 64 }

abbrev pub print : {S : Type 0} → Text → Kernel S → Kernel S
print t k = record k { printed = k.printed ++ t }

-- One thing that the shell does.
abbrev pub perform_event :
    {S : Type 0} → (ℕ → Kernel S → Option (Kernel S)) → Event → Kernel S → Option (Kernel S)
perform_event f (putc c) k = some (print (c ∷ []) k)
perform_event f (Event.func i) k = f i k
perform_event f (unknown cmd) k = some (print (unknown_lines cmd) k)
perform_event f prompt k = some (print shell_prompt k)

abbrev pub and_then :
    {S : Type 0} → Option (Kernel S) → (Kernel S → Option (Kernel S)) → Option (Kernel S)
and_then none f = none
and_then (some k) f = f k

unfoldable pub perform :
    {S : Type 0} → (ℕ → Kernel S → Option (Kernel S)) → List Event → Kernel S → Option (Kernel S)
perform func [] k = some k
perform func (e ∷ es) k = and_then (perform_event func e k) (perform func es)

-- `if (c > 0) shell_handle_char(c)`; no character is -1. The result is `none` if a command does not return.
abbrev pub handle_char :
    {S : Type 0} → (ℕ → Kernel S → Option (Kernel S)) → Option ℕ → Kernel S → Option (Kernel S)
handle_char func none k = some k
handle_char func (some c) k =
    let (shell, out) = shell_handle_char command_names c k.shell in
    if ltb 0 c && ltb c 128
    then perform func out (record k { shell = shell; events = k.events ++ out })
    else some k

unfoldable pub irq_kbd :
    {S : Type 0} → (ℕ → Kernel S → Option (Kernel S)) → Inputs → Kernel S → Option (Kernel S)
irq_kbd func i k = handle_char func (kdb_getc i.kbd_status i.kbd_data) k

-- The end of `trap`: the end of interrupt for the lines 0 to 15.
unfoldable pub acknowledge : {S : Type 0} → ℕ → Kernel S → Kernel S
acknowledge trapno k =
    if leb irq_offset trapno && ltb trapno (irq_offset + 16)
    then record k { pic = pic_send_eoi (trapno - irq_offset) k.pic }
    else k

module _ {S : Type 0} (m : SwapManager S) (blk_read : ℕ → Bool) (fuel pgdir : ℕ)
    (func : ℕ → Kernel S → Option (Kernel S)) where
  -- `pg_fault` with the tables of the current task; `none` as for `vmm_pg_fault`.
  abbrev pub after_fault : Kernel S → Option (SwapSpace S) → Option (Kernel S)
  after_fault k none = none
  after_fault k (some space) = some (record k { space = space })

  unfoldable pub pg_fault : Inputs → ℕ → TrapFrame → Kernel S → Option (Kernel S)
  pg_fault i tf frame k =
      let k = record k {
        printed = k.printed ++ print_trapframe tf frame ++ print_pgfault i.cr2 frame;
      } in
      after_fault k (vmm_pg_fault m blk_read fuel pgdir i.cr2 k.space)

  -- The `switch`; the disks, the system call and all other numbers have no handler.
  unfoldable pub dispatch : Inputs → ℕ → TrapFrame → Kernel S → Option (Kernel S)
  dispatch i tf frame k =
      if frame.tf_trapno == t_pgflt
      then pg_fault i tf frame k
      else if frame.tf_trapno == irq_offset + irq_timer_line
      then some (irq_timer k)
      else if frame.tf_trapno == irq_offset + irq_kbd_line
      then irq_kbd func i k
      else some k

  abbrev pub finish : ℕ → Option (Kernel S) → Option (Kernel S)
  finish trapno none = none
  finish trapno (some k) = some (acknowledge trapno k)

  unfoldable pub trap : Inputs → ℕ → TrapFrame → Kernel S → Option (Kernel S)
  trap i tf frame k = finish frame.tf_trapno (dispatch i tf frame k)
