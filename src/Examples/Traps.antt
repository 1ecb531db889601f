-- ===== src/Examples/Traps.antt =====
-- Concrete traps, keys and interrupt lines for kern/trap/trap.c and its drivers.
use zonix.Prelude.{
  ◌==◌, if◌then◌else◌, ℕ, ◌+◌, ◌≡◌, sym, ap, true, Option, some, some-injective, List, [], ◌∷◌,
  arith,
}
use zonix.Links.{Links}
use zonix.Drivers.Pic.Mask.{masked, bit, pic_enable-masked}
use zonix.Cons.Shell.Line.{Line}
use zonix.Mm.FirstFit.{Pmm}
use zonix.Mm.Swap.Fifo.{Swap, swap_mgr_fifo}
use zonix.Mm.SwapSpace.{SwapSpace}
use zonix.Trap.{Kernel, Inputs, TrapFrame, trap, print}
use zonix.Trap.Ack.{SameMask, sent, is_irq, is_slave_irq, trap-sent}
use zonix.Trap.Returns.{trap-returns}
use zonix.Cons.Shell.{Shell, shell_init}
use zonix.Drivers.Pic.{Pic, pic_enable, pic1_cmd, pic2_cmd}

-- All lines are masked.
abbrev pic : Pic
pic = record { irq_mask = 0xFFFF; ports = [] }

pic_enable-masked_example :
    (masked (pic_enable 2 pic).ports 14 ≡ (if 14 == 2 then 0 else bit 0xFFFF 14))
    × (bit (pic_enable 2 pic).irq_mask 14 ≡ (if 14 == 2 then 0 else bit 0xFFFF 14))
pic_enable-masked_example = pic_enable-masked 2 14 pic (ground arith)

abbrev no_links : Links
no_links = record { next = λ a. 0; prev = λ a. 0 }

abbrev no_pages : Pmm
no_pages = record {
  links = no_links;
  pages = λ p. record { ref = 0; flags = 0; property = 0 };
  nr_free = 0;
}

abbrev space : SwapSpace Swap
space = record {
  vm = record { pmm = no_pages; mem = λ a. 0 };
  mgr = record { links = no_links; swap_list = 0 };
  swap_offset = 1;
  max_swap_offset = 100;
  written = [];
}

abbrev start : Shell
start = record { cmd_buffer = λ i. 7; cmd_pos = 5 }

abbrev kernel : Kernel Swap
kernel = record {
  ticks = 41;
  shell = shell_init start;
  events = [];
  printed = [];
  pic = pic;
  space = space;
}

abbrev frame : ℕ → TrapFrame
frame n = record {
  reg_edi = 0;
  reg_esi = 0;
  reg_ebp = 0;
  reg_ebx = 0;
  reg_edx = 0;
  reg_ecx = 0;
  reg_eax = 0;
  tf_trapno = n;
  tf_err = 0;
  tf_eip = 0x100000;
  tf_cs = 8;
  tf_eflags = 0x202;
  tf_esp = 0;
  tf_ss = 0;
}

abbrev pressed : ℕ → Inputs
pressed code = record { kbd_status = 1; kbd_data = code; cr2 = 0 }

-- Each command prints a character.
abbrev run_command : ℕ → Kernel Swap → Option (Kernel Swap)
run_command i k = some (print (42 ∷ []) k)

-- The keys p and s and the Enter key, each with its release.
abbrev keys : List Inputs
keys = pressed 0x19 ∷ pressed 0x99 ∷ pressed 0x1F ∷ pressed 0x9F ∷ pressed 0x1C ∷ pressed 0x9C ∷ []

-- The state behind an interrupt of the second disk.
ide :
    (t : Kernel Swap) × (trap swap_mgr_fifo
        (λ n. true)
        4
        0x1000
        run_command
        (pressed 0)
        0
        (frame 47)
        kernel
      ≡ some t)
ide =
    let back =
      trap-returns swap_mgr_fifo (λ n. true) 4 0x1000 run_command (pressed 0) 0 (frame 47) kernel
        (λ e. ground arith) (λ e. ground arith) in
    (back.0, back.1)

trap-sent_example :
    (sent pic1_cmd 0x20 (ide.0).pic.ports ≡ 0 + (if is_irq 47 then 1 else 0))
    × (sent pic2_cmd 0x20 (ide.0).pic.ports ≡ 0 + (if is_slave_irq 47 then 1 else 0))
    × SameMask kernel.pic (ide.0).pic
trap-sent_example =
    trap-sent swap_mgr_fifo (λ n. true) 4 0x1000 run_command (pressed 0) 0 (frame 47) kernel (ide.0)
      (λ i k t h. ap (λ x. x.pic) (sym (some-injective _ _ h))) (ide.1)
