-- ===== src/Lib.antt =====
-- little_OS: the kernel's lists, page manager, page tables, descriptor and interrupt
-- tables, scheduler, text tools and loader.
--
-- The kernel starts by handing free memory to a manager of pages, fills the descriptor tables,
-- and then runs tasks that lie in lists by their embedded nodes. The parts and their files:
--
--   Klist    source/kernel/tools/klist.c: the doubly linked list between two sentinel nodes. The
--            memory is a record of the fields `prev`, `next` and `len`, each a function of the
--            address, so nodes may be shared as in C.
--   Mem      `kmemset` and `kmemcpy` of source/kernel/tools/klib.c, on bytes by address.
--   Klib     strings and numbers of klib.c, and source/kernel/tools/kmath.c.
--   Serial   source/kernel/tools/log.c: the serial port, on which Klib/Printf prints.
--   Loader   source/loader/loader16.c and loader32.c: memory detection, which Memory starts from,
--            reading sectors, and the ELF loader.
--   Bitmap   source/kernel/memory/bitmap.c: the page bitmap, on the bytes that Mem writes.
--   Memory   source/kernel/memory/memory.c: pages, which uses Bitmap.
--   PageTable  source/kernel/mmu/pagetable.c: the two levels of page tables in physical memory,
--            which takes pages from Memory and gives them back.
--   Gdt      source/kernel/gdt/gdt.c; Loader/Gdt16 is source/loader/gdt16/gdt16.c.
--   Irq      source/kernel/irq/irq.c: the interrupt flag, the table of gates, and the writes to
--            the interrupt controller.
--   Task     source/kernel/core/task.c: the scheduler, which uses Klist for its queues and Irq for
--            its protected sections.
--   Timer    source/kernel/Timer/Timer.c: the timer's interrupt, which drives Task.
--   Thread   source/kernel/task_old/task_old.c: the threads of the old scheduler, their
--            creation, and on them the semaphores of source/kernel/sync/sync.c.
--   Tss      source/kernel/tss_old/tss_old.c: tasks that the processor switches by their state
--            segments, each in a page of Memory, with stacks and a directory of PageTable and a
--            descriptor of Gdt; their queues are Klist's.
--   Syscall  source/kernel/syscall/syscall.c: the table of system calls, and `sys_fork` on Tss; and
--            the states that ticks, new tasks and forks lead to.
--   Proc     the processes of source/kernel/task_old/task_old.c, with `sys_getpid` of syscall.c.
--   Cmd      the commands of Klist, Task, Thread, Tss and Proc: a run ends with a value and a
--            state, with a fault (access through `NULL`, or to what is no task), or out of fuel.
--   Base     the library's names, Boolean tests, bits, and words with their wrap-around.
--   Tests    runs at concrete data.
--
-- Functions keep their C names; a function that changes a global takes and returns it. Words wrap
-- at their width. Loops over a count are recursion on the count. Walks along `next`, the search
-- for a string's end, the loops over digits and segments, and the polls of a port take fuel, and
-- the theorems give an amount that is enough: one more than the nodes or characters passed, or
-- more than the number printed, the segment's size, or the polls that a device needs. The
-- scheduler gives its walks two rounds more than the list's length.
--
-- Parameters: what the BIOS, the disk and the serial port answer; the addresses of exception
-- handlers and of the task manager, which the linker gives, OS_TICKS_MS, and the memory's
-- contents. The processor's task switch is the selector that is jumped to; what other threads do
-- between two runs of a thread is a parameter too. `sti` and `cli` set and clear bit 9 of the
-- flags. The fields of tasks, the nodes of lists and the bytes of memory are kept apart, so a write
-- to one of them is not seen in another. The code's assertions are empty, as in a build without
-- KERNEL_DEBUG: a theorem on what a new task, a new process or the page manager gets has as a
-- hypothesis that the descriptor and the pages, or the place, that the code asserts were found.
--
-- Not modelled: copy_pagetable of pagetable.c, which nothing calls; the system calls that only
-- halt the processor; start-up code and assembly, with the loader's switch to protected mode;
-- `timer_init`, and of task.c the initialisers, which do not compile as they stand.
pub mod Base
pub mod Cmd
pub mod Klist
pub mod Mem
pub mod Bitmap
pub mod Memory
pub mod PageTable
pub mod Gdt
pub mod Irq
pub mod Task
pub mod Timer
pub mod Thread
pub mod Tss
pub mod Syscall
pub mod Proc
pub mod Serial
pub mod Klib
pub mod Loader
pub mod Tests
