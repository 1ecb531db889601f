-- ===== src/Lib.antt =====
-- zonix, a small kernel for 32-bit x86: a model of its memory management, console, drivers and
-- scheduler, with the theorems that make these parts correct.
--
-- Links models kern/include/list.h, the circular lists on which the page manager, the swap managers
-- and the scheduler stand: a store gives the `next` and `prev` word at each address. Links/Ring says
-- which list of addresses a ring stands for; every client states its own invariant with it.
-- Mm/FirstFit models kern/mm/pmm_firstfit.c, with Mm/Page for the descriptors of kern/mm/pmm.h. Its
-- abstract view is a sequence of blocks (Mm/FirstFit/Blocks), with `first_fit` for `alloc` and
-- `release` for `free`. Mm/Swap models the interface of kern/mm/swap.h; Fifo, Lru and Clock below it are
-- kern/mm/swap_fifo.c, kern/mm/archived/swap_lru.c and kern/mm/archived/swap_clock.c, and `QueueLaws`
-- is what a manager promises.
-- Mm/PageTable models the page tables of kern/mm/pmm.c over words of physical memory (`K_ADDR` of an address
-- stands for that address itself, which is so for the memory that the kernel has mapped: 4 MiB while
-- vmm_init runs, 896 MiB after it; an access behind it is not modelled as a fault), and Mm/SwapSpace kern/mm/swap.c and the page fault of kern/mm/vmm.c over any manager; whether a transfer
-- of the disk succeeds is a parameter, and the bytes of pages are not kept. Mm/SwapSpace/Drain is the loop
-- of swap_out over a queue and Mm/SwapSpace/Start swap_init. Mm/Vmm is vmm_init of kern/mm/vmm.c: Step and
-- NewTable one page, Range the loop and Kernel the whole.
-- Cons/Stdio models kern/cons/stdio.c (with `do_div` of kern/include/math.h): a call is the list of
-- the characters that it prints. Cons/Shell models kern/cons/shell.c; what it calls outside is a list
-- of events, Cons/Commands has what the commands that print alone write, and cons_putc of
-- kern/cons/cons.c, and Cons/Commands/Tables the commands that print a table of the kernel. Drivers/Cga models kern/drivers/cga.c.
-- Drivers/Hd models kern/drivers/hd.c. The drive is a parameter, the value of the status register at
-- each read; the writes to the registers are kept in order, and Drivers/Hd/Transfer says which sectors
-- a controller moves for them; Drivers/Hd/Detect is hd_init and Drivers/Hd/SelfTest hd_test. Drivers/Blk models kern/drivers/blk.c.
-- Sched models kern/sched/sched.c: the tasks, their two kinds of list and the pointers of a family.
-- Sched/Fork is do_fork and the start-up; Sched/Table says when the list of all tasks, the hash table and
-- the pids agree, on the ground of Sched/Linked, and Sched/Running has the steps of the scheduler as a
-- relation, Sched/Switch the assertions of proc_run, Sched/Listing what `ps` prints and Sched/Thread the frame and stack of a new task. Drivers/Pic and Drivers/Kdb model kern/drivers/pic.c and kern/drivers/kdb.c, and Trap the
-- dispatch of kern/trap/trap.c, which calls them, the line editor of Cons/Shell and the page fault of
-- Mm/SwapSpace; what a command of the shell does to the kernel is a parameter there. Mm/Setup models the set-up of the free pages, kmalloc and kfree in kern/mm/pmm.c, with the
-- memory map of kern/arch/x86/e820.c, over Mm/FirstFit. Boot models boot/bootload.c.
-- Arch/Gates models kern/arch/x86/idt.c, Arch/Segments the descriptors of include/arch/x86/asm/seg.h, and
-- Arch/Pit kern/drivers/pit.c, with the registers of the clock as a parameter.
-- Prelude holds the shared names, and Examples the theorems at concrete inputs.
--
-- Pointers and pages are numbers, NULL is 0, and an entry inside a structure has an address of its
-- own. Unsigned integers of the source keep their wrap-around where it can be reached. Loops over a
-- list take fuel and give `none` when it runs out; the theorems ask for more fuel than the list has
-- entries, and then show a result. The waits of Drivers/Hd count their 100000 reads as the source does.
--
-- The loops of Boot have two bounds, the sectors of a segment and the reads of the status for each wait.
--
-- Not modelled: the flag that holds interrupts off, the switch of contexts (switch_to, forkret), the TLB,
-- assembly and the headers of it, kern/init.c, which calls the parts in order, and kern/mm/swap_test.c, tests
-- that run on the machine.
pub mod Prelude
pub mod Links
pub mod Mm
pub mod Cons
pub mod Drivers
pub mod Sched
pub mod Trap
pub mod Arch
pub mod Boot
pub mod Examples
