-- ===== src/Examples/Kernel.antt =====
-- The swap space and a child task at concrete values.
use zonix.Prelude.{
  ◌==◌, if◌then◌else◌, codes, ℕ, ◌+◌, ◌/◌, ◌%◌, ◌^◌, ◌≤◌, ◌≡◌, true, Option, none, some, [], arith,
}
use zonix.Mm.PageTable.{Vm, pages_free}
use zonix.Mm.Setup.{page2kva}
use zonix.Examples.Paging.{no_memory}
use zonix.Drivers.Hd.{IdeDevice}
use zonix.Sched.{TaskStruct, sleeping}
use zonix.Sched.Fork.{setup_kstack}
use zonix.Sched.Thread.{
  Thread, copy_thread, sizeof_trap_frame, kstack_size, free_kstack, init_frame,
}
use zonix.Sched.Thread.Child.{copy_thread-child}

-- A machine to free a page in.
abbrev start : Vm
start = record { pmm = no_memory; mem = λ a. 0 }

abbrev hdb : IdeDevice
hdb = record {
  channel = 0;
  drive = 1;
  base = 0x1F0;
  irq = 14;
  size = 2000;
  cylinders = 10;
  heads = 10;
  sectors = 20;
  present = true;
  name = codes "hdb";
}

-- Only the second disk is there.
abbrev second_disk : ℕ → Option IdeDevice
second_disk i = if i == 1 then some hdb else none

abbrev new_task : TaskStruct
new_task = record {
  state = sleeping;
  pid = 0;
  kstack = 0;
  parent = 0;
  mm = 0;
  name = [];
  exit_code = 0;
  wait_state = 0;
  cptr = 0;
  yptr = 0;
  optr = 0;
}

copy_thread-child_example :
    (th : Thread) × (copy_thread 0xC0102000
        (setup_kstack (some (page2kva 0x300)) new_task).0
        0
        (init_frame 0xC0103000)
      ≡ th)
    × (page2kva 0x300 ≤ th.tf)
    × (th.tf + sizeof_trap_frame ≡ page2kva 0x300 + kstack_size)
    × (th.frame ≡ record (init_frame 0xC0103000) {
      reg_eax = 0;
      tf_esp = 0;
      tf_eflags = th.frame.tf_eflags;
    })
    × (th.frame.tf_eflags / 2 ^ 9 % 2 ≡ 1)
    × (th.frame.tf_eflags % 2 ^ 9 ≡ (init_frame 0xC0103000).tf_eflags % 2 ^ 9)
    × (th.frame.tf_eflags / 2 ^ 10 ≡ (init_frame 0xC0103000).tf_eflags / 2 ^ 10)
    × (th.context ≡ record { eip = 0xC0102000; esp = th.tf })
    × (free_kstack 3 (setup_kstack (some (page2kva 0x300)) new_task).0 start
        ≡ pages_free 3 0x300 1 start)
copy_thread-child_example =
    copy_thread-child 0xC0102000 0 3 0x300 new_task (init_frame 0xC0103000) start (ground arith)
