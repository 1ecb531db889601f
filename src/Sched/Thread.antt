-- ===== src/Sched/Thread.antt =====
-- kern/sched/sched.c: the frame, the context and the stack of a new task. The addresses of `forkret` and of
-- `init_main` are arguments.
pub mod Child
use zonix.Prelude.{◌==◌, if◌then◌else◌, ℕ, ◌+◌, ◌-◌, ◌/◌, ◌%◌, ◌^◌, ◌||◌, Option, none, some}
use zonix.Trap.{TrapFrame}
use zonix.Mm.PageTable.{Vm, pages_free}
use zonix.Mm.Setup.{kernel_base, kva2page}
use zonix.Sched.{Sched, Task, TaskStruct}

abbrev pub kstack_size : ℕ
kstack_size = 4096

-- `sizeof(trap_frame)`, with the padding.
abbrev pub sizeof_trap_frame : ℕ
sizeof_trap_frame = 60

-- The two fields of `context` that are set.
pub record Context : Type 0 where
  pub eip : ℕ
  pub esp : ℕ

-- The field `tf` of the task, the frame at that address, and the context.
pub record Thread : Type 0 where
  pub tf : ℕ
  pub frame : TrapFrame
  pub context : Context

-- `eflags | 0x200`
unfoldable pub set_interrupt_flag : ℕ → ℕ
set_interrupt_flag eflags = if eflags / 2 ^ 9 % 2 == 1 then eflags else eflags + 2 ^ 9

unfoldable pub copy_thread : ℕ → TaskStruct → ℕ → TrapFrame → Thread
copy_thread forkret proc esp tf =
    let at = (proc.kstack + kstack_size + 2 ^ 32 - sizeof_trap_frame) % 2 ^ 32 in
    record {
      tf = at;
      frame = record tf { reg_eax = 0; tf_esp = esp; tf_eflags = set_interrupt_flag tf.tf_eflags };
      context = record { eip = forkret; esp = at };
    }

unfoldable pub free_kstack : ℕ → TaskStruct → Vm → Option Vm
free_kstack fuel proc s = pages_free fuel (kva2page proc.kstack) 1 s

abbrev pub get_current : Sched → Task
get_current s = s.current

-- The frame that `init_proc_init` passes to `do_fork`.
unfoldable pub init_frame : ℕ → TrapFrame
init_frame init_main = record {
  reg_edi = 0;
  reg_esi = 0;
  reg_ebp = 0;
  reg_ebx = 0;
  reg_edx = 0;
  reg_ecx = 0;
  reg_eax = 0;
  tf_trapno = 0;
  tf_err = 0;
  tf_eip = init_main;
  tf_cs = 8;
  tf_eflags = 0x200;
  tf_esp = 0;
  tf_ss = 0;
}
