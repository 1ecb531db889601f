-- ===== src/Sched/Thread/Child.antt =====
-- What a child of `do_fork` in kern/sched/sched.c starts with.
use zonix.Prelude.{ℕ, ◌+◌, ◌/◌, ◌%◌, ◌^◌, ◌≤◌, ◌<◌, ◌≡◌, refl, ap, some, arith}
use zonix.Trap.{TrapFrame}
use zonix.Mm.Page.{Page}
use zonix.Mm.PageTable.{Vm, pages_free}
use zonix.Mm.Setup.{page2kva}
use zonix.Mm.Setup.Kmalloc.{kva2page-page2kva}
use zonix.Sched.{TaskStruct}
use zonix.Sched.Fork.{setup_kstack}
use zonix.Sched.Thread.{
  Thread, copy_thread, set_interrupt_flag, sizeof_trap_frame, kstack_size, free_kstack,
}

-- The flags with the interrupt flag set, all others as they were.
set_interrupt_flag-bits :
    (eflags : ℕ)
    → (set_interrupt_flag eflags / 2 ^ 9 % 2 ≡ 1)
      × (set_interrupt_flag eflags % 2 ^ 9 ≡ eflags % 2 ^ 9)
      × (set_interrupt_flag eflags / 2 ^ 10 ≡ eflags / 2 ^ 10)
unfolding set_interrupt_flag
set_interrupt_flag-bits eflags = ground arith

-- With a page of the first GiB for its stack, the new task has its frame inside that page, at the end; the
-- frame is the parent's but for eax, which is 0, the stack pointer, which is the one given, and the
-- interrupt flag, which is set; the task starts in `forkret` with its stack at the frame; and `free_kstack`
-- gives back that same page.
pub copy_thread-child :
    (forkret esp fuel : ℕ) (page : Page) (proc : TaskStruct) (tf : TrapFrame) (s : Vm)
    → page < 2 ^ 18
    → (th : Thread) × (copy_thread forkret (setup_kstack (some (page2kva page)) proc).0 esp tf ≡ th)
      × (page2kva page ≤ th.tf)
      × (th.tf + sizeof_trap_frame ≡ page2kva page + kstack_size)
      × (th.frame ≡ record tf { reg_eax = 0; tf_esp = esp; tf_eflags = th.frame.tf_eflags })
      × (th.frame.tf_eflags / 2 ^ 9 % 2 ≡ 1)
      × (th.frame.tf_eflags % 2 ^ 9 ≡ tf.tf_eflags % 2 ^ 9)
      × (th.frame.tf_eflags / 2 ^ 10 ≡ tf.tf_eflags / 2 ^ 10)
      × (th.context ≡ record { eip = forkret; esp = th.tf })
      × (free_kstack fuel (setup_kstack (some (page2kva page)) proc).0 s ≡ pages_free fuel page 1 s)
unfolding copy_thread setup_kstack free_kstack page2kva
copy_thread-child forkret esp fuel page proc tf s low =
    let (on, below, above) = set_interrupt_flag-bits tf.tf_eflags in
    let back = kva2page-page2kva page low in
    (
      copy_thread forkret (setup_kstack (some (page2kva page)) proc).0 esp tf,
      refl,
      omega arith,
      omega arith,
      refl,
      on,
      below,
      above,
      refl,
      ap (λ p. pages_free fuel p 1 s) back,
    )
