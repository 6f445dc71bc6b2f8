-- ===== src/Tests/Systems.antt =====
-- Tasks by their state segments, with their manager at 1000 and the kernel's tables at 4 MB.
use little_os.Base.{ℕ, ◌≡◌, refl, arith, some, none, [], ◌∷◌, update}
use little_os.Base.Bits.{test_bit, raise_bit}
use little_os.Base.Word.{add32}
use little_os.Cmd.{ok}
use little_os.Klist.{Heap}
use little_os.Bitmap.{alloc_loop, scan_loop, bitmap_alloc_nbits, bitmap_get_bit, bitmap_set_bit}
use little_os.Memory.{kalloc_pages, ualloc_pages}
use little_os.Irq.{intr_on, irq_enter_protection}
use little_os.PageTable.{create_page_table}
use little_os.PageTable.Entry.{translate, IsTables}
use little_os.PageTable.Table.{Grown-IsTables}
use little_os.Memory.Single.{Grown-trans, kalloc_page}
use little_os.Thread.{died, blocked}
use little_os.Tss.{
  TssTask, System, zero_tss, tss_task_init, init_task, task_time_ticks, task_set_block,
}
use little_os.Tss.Boot.{first_task, started, tss_task_init-ok, tss_task_init-any}
use little_os.Tss.Fair.{ticks, ticks-turn}
use little_os.Tss.Refines.{task_time_ticks-robin_tick}
use little_os.Tss.Robin.{robin_tick, IsRobin}
use little_os.Gdt.{gdt_alloc_seg, gdt_segment_set, segment_desc}
use little_os.Tss.Init.{kernel_stack, user_stack, tables, HasMeans, OwnMeans}
use little_os.Tss.Kernel.{first_stack, second_stack, HasKernelMeans, OwnKernelMeans}
use little_os.Tss.Child.{paid, new_page, new_turn, spawned}
use little_os.Tss.Spawn.{init_task-ok, init_task-any}
use little_os.Tss.Waiting.{update_self}
use little_os.Tss.Writes.{task_set_block-stays}
use little_os.Syscall.{SyscallFrame, Calls, sys_fork}
use little_os.Syscall.Fork.{fork_child, forked, sys_fork-ok, sys_fork-any}
use little_os.Syscall.Reach.{Reach, Step, HasRoom, HasRobin, boot-HasRobin}
use little_os.Syscall.Space.{sys_fork-translate}
use little_os.Tests.Pages.{zeros, manager, manager-IsManager}
use little_os.Tests.PageTables.{dir, empty-IsTables}

-- What a new page is read as.
abbrev raw : TssTask
raw = record {
  status = died;
  tss = zero_tss;
  tss_sel = 0;
  ifkernel = 0;
  parent = 0;
  pid = 0;
  ticks = 0;
  default_ticks = 0;
}

abbrev blank : System
blank = record {
  heap = record { prev = λ p. 0; next = λ p. 0; len = λ p. 0 };
  task = λ p. none;
  cur_task = 0;
  mem = zeros;
  manager = manager;
  gdt = λ i. record { limit_low = 0; base_low = 0; base_middle = 0; attributes = 0; base_high = 0 };
  global_pid = 0;
  eflags = 0x202;
  tr = 0;
}

blank-page : new_page blank ≡ 0x100000
unfolding kalloc_pages bitmap_alloc_nbits alloc_loop scan_loop bitmap_get_bit test_bit
blank-page = refl

first_stack-blank : (first_stack dir (paid blank) (new_page blank) 0).1 ≡ 0x101000
unfolding kalloc_pages bitmap_alloc_nbits alloc_loop scan_loop bitmap_get_bit bitmap_set_bit
    test_bit raise_bit
first_stack-blank = refl

second_stack-blank : (second_stack dir (paid blank) (new_page blank) 0).1 ≡ 0x102000
unfolding kalloc_pages bitmap_alloc_nbits alloc_loop scan_loop bitmap_get_bit bitmap_set_bit
    test_bit raise_bit
second_stack-blank = refl

gdt_alloc_seg-blank : gdt_alloc_seg blank.gdt ≡ some 8
unfolding gdt_alloc_seg
gdt_alloc_seg-blank = refl

blank-HasKernelMeans : HasKernelMeans dir (paid blank) (new_page blank) 0
blank-HasKernelMeans = record {
  sel = 8;
  free = gdt_alloc_seg-blank;
  first = omega (arith, first_stack-blank);
  second = omega (arith, second_stack-blank);
}

tss_task_init-ok_example :
    (g : Heap) × (tss_task_init 1000 dir raw blank ≡ ok tt (started 1000 dir raw blank g))
    × OwnKernelMeans dir (paid blank) (new_page blank) 0
    × IsRobin 1000
        (started 1000 dir raw blank g)
        (new_page blank ∷ [])
        (new_turn (new_page blank) ∷ [])
tss_task_init-ok_example =
    tss_task_init-ok 1000 dir raw blank manager-IsManager (omega arith) (omega (arith, blank-page))
      blank-HasKernelMeans

booted :
    (g : Heap) × (tss_task_init 1000 dir raw blank ≡ ok tt (started 1000 dir raw blank g))
    × IsRobin 1000
        (started 1000 dir raw blank g)
        (new_page blank ∷ [])
        (new_turn (new_page blank) ∷ [])
booted =
    tss_task_init-any 1000 dir raw blank manager-IsManager (omega arith) (omega (arith, blank-page))

abbrev boot : System
boot = started 1000 dir raw blank booted.0

boot-page : new_page boot ≡ 0x103000
unfolding kalloc_pages bitmap_alloc_nbits alloc_loop scan_loop bitmap_get_bit bitmap_set_bit
    test_bit raise_bit
boot-page = refl

kernel_stack-boot : (kernel_stack dir (paid boot) (new_page boot) 0).1 ≡ 0x104000
unfolding kalloc_pages bitmap_alloc_nbits alloc_loop scan_loop bitmap_get_bit bitmap_set_bit
    test_bit raise_bit
kernel_stack-boot = refl

user_stack-boot : (user_stack dir (paid boot) (new_page boot) 0).1 ≡ 0x200000
unfolding kalloc_pages ualloc_pages create_page_table bitmap_alloc_nbits alloc_loop scan_loop
    bitmap_get_bit bitmap_set_bit test_bit raise_bit
user_stack-boot = refl

tables-boot : (tables dir (paid boot) (new_page boot) 0).1 ≡ 0x201000
unfolding kalloc_pages ualloc_pages create_page_table bitmap_alloc_nbits alloc_loop scan_loop
    bitmap_get_bit bitmap_set_bit test_bit raise_bit
tables-boot = refl

gdt_alloc_seg-boot : gdt_alloc_seg boot.gdt ≡ some 16
unfolding gdt_alloc_seg gdt_segment_set segment_desc kalloc_pages bitmap_alloc_nbits alloc_loop
    scan_loop bitmap_get_bit bitmap_set_bit test_bit raise_bit
gdt_alloc_seg-boot = refl

-- A task that starts at `entry` gets what it needs.
boot-HasMeans : (entry : ℕ) → HasMeans dir (paid boot) (new_page boot) entry
boot-HasMeans entry = record {
  sel = 16;
  free = gdt_alloc_seg-boot;
  kernel = omega (arith, kernel_stack-boot);
  user = omega (arith, user_stack-boot);
  directory = omega (arith, tables-boot);
}

init_task-ok_example :
    (g : Heap) × (init_task 1000 dir raw 0x400000 boot
      ≡ ok (new_page boot) (spawned 1000 dir raw boot 0x400000 g))
    × OwnMeans dir (paid boot) (new_page boot) 0x400000
    × IsRobin 1000
        (spawned 1000 dir raw boot 0x400000 g)
        (new_page blank ∷ new_page boot ∷ [])
        (new_turn (new_page blank) ∷ new_turn (new_page boot) ∷ [])
init_task-ok_example =
    init_task-ok 1000 dir raw boot 0x400000 (new_page blank ∷ []) (new_turn (new_page blank) ∷ [])
      booted.2 (omega (arith, boot-page)) (boot-HasMeans 0x400000) (omega arith) (omega arith)

-- A kernel task and behind it a user task.
grown :
    (g : Heap) × (init_task 1000 dir raw 0x400000 boot
      ≡ ok (new_page boot) (spawned 1000 dir raw boot 0x400000 g))
    × IsRobin 1000
        (spawned 1000 dir raw boot 0x400000 g)
        (new_page blank ∷ new_page boot ∷ [])
        (new_turn (new_page blank) ∷ new_turn (new_page boot) ∷ [])
grown =
    init_task-any 1000 dir raw boot 0x400000 (new_page blank ∷ []) (new_turn (new_page blank) ∷ [])
      booted.2 (omega (arith, boot-page)) (omega arith) (omega arith)

abbrev two : System
two = spawned 1000 dir raw boot 0x400000 grown.0

task_time_ticks-robin_tick_example :
    (k : System) × (task_time_ticks 1000 two ≡ ok tt k)
    × IsRobin 1000 k
        (new_page blank ∷ new_page boot ∷ [])
        (robin_tick (new_turn (new_page blank) ∷ new_turn (new_page boot) ∷ []))
    × (k.eflags ≡ two.eflags)
task_time_ticks-robin_tick_example =
    task_time_ticks-robin_tick 1000 two (new_page blank ∷ new_page boot ∷ [])
      (new_turn (new_page blank) ∷ new_turn (new_page boot) ∷ []) grown.2

-- After five ticks the user task runs.
ticks-turn_example :
    (k : System) × (ticks 1000 5 two ≡ ok tt k)
    × (k.cur_task ≡ new_page boot)
    × IsRobin 1000 k
        (new_page blank ∷ new_page boot ∷ [])
        (new_turn (new_page boot) ∷ new_turn (new_page blank) ∷ [])
ticks-turn_example =
    ticks-turn 1000 two (new_page blank ∷ new_page boot ∷ []) (new_turn (new_page blank) ∷ [])
      (new_turn (new_page boot)) [] grown.2

boot-now : boot.task boot.cur_task ≡ some (first_task 1000 dir raw blank)
boot-now = update_self blank.task (new_page blank) (some (first_task 1000 dir raw blank))

task_set_block-stays_example :
    (task_set_block 1000 boot.cur_task boot
      ≡ ok tt (record boot {
        task =
            update boot.task boot.cur_task
              (some (record (first_task 1000 dir raw blank) { status = blocked }));
      }))
    × IsRobin 1000
        (record boot {
          task =
              update boot.task boot.cur_task
                (some (record (first_task 1000 dir raw blank) { status = blocked }));
        })
        (new_page blank ∷ [])
        (new_turn (new_page blank) ∷ [])
task_set_block-stays_example =
    task_set_block-stays 1000 boot (new_page blank ∷ []) (new_turn (new_page blank) ∷ [])
      (first_task 1000 dir raw blank) booted.2 boot-now

-- A program at 8 MB that calls fork with its stack at 9 MB.
abbrev frame : SyscallFrame
frame = record {
  arg1 = 0;
  arg2 = 0;
  arg3 = 0;
  gs = 0x23;
  fs = 0x23;
  es = 0x23;
  ds = 0x23;
  edi = 1;
  esi = 2;
  ebp = 0x900000;
  esp = 0x900000;
  ebx = 3;
  edx = 4;
  ecx = 5;
  eax = 3;
  num = 0x80;
  erro_code = 0;
  eip = 0x800000;
  cs = 0x1B;
  eflags = 0x202;
}

abbrev calls : Calls
calls = record { system = boot; irq_state = intr_on }

sys_fork-ok_example :
    (g : Heap) × (sys_fork 1000 dir raw frame calls
      ≡ ok (add32 boot.global_pid 1) (record {
        system = forked 1000 dir raw boot frame g (first_task 1000 dir raw blank);
        irq_state = (irq_enter_protection boot.eflags).1;
      }))
    × OwnMeans dir (paid boot) (new_page boot) 0x800000
    × IsRobin 1000
        (forked 1000 dir raw boot frame g (first_task 1000 dir raw blank))
        (new_page blank ∷ new_page boot ∷ [])
        (new_turn (new_page blank) ∷ new_turn (new_page boot) ∷ [])
sys_fork-ok_example =
    sys_fork-ok 1000 dir raw boot frame intr_on (new_page blank ∷ [])
      (new_turn (new_page blank) ∷ []) (first_task 1000 dir raw blank) booted.2 boot-now
      (omega (arith, boot-page)) (boot-HasMeans 0x800000) (omega arith) (omega arith)

forking :
    (g : Heap) × (sys_fork 1000 dir raw frame calls
      ≡ ok (add32 boot.global_pid 1) (record {
        system = forked 1000 dir raw boot frame g (first_task 1000 dir raw blank);
        irq_state = (irq_enter_protection boot.eflags).1;
      }))
    × IsRobin 1000
        (forked 1000 dir raw boot frame g (first_task 1000 dir raw blank))
        (new_page blank ∷ new_page boot ∷ [])
        (new_turn (new_page blank) ∷ new_turn (new_page boot) ∷ [])
forking =
    sys_fork-any 1000 dir raw boot frame intr_on (new_page blank ∷ [])
      (new_turn (new_page blank) ∷ []) (first_task 1000 dir raw blank) booted.2 boot-now
      (omega (arith, boot-page)) (omega arith) (omega arith)

abbrev after : Calls
after = record {
  system = forked 1000 dir raw boot frame forking.0 (first_task 1000 dir raw blank);
  irq_state = (irq_enter_protection boot.eflags).1;
}

abbrev forked_child : TssTask
forked_child = fork_child 1000 dir raw boot frame (first_task 1000 dir raw blank)

child-directory : forked_child.tss.cr3 ≡ 0x201000
unfolding kalloc_pages ualloc_pages create_page_table bitmap_alloc_nbits alloc_loop scan_loop
    bitmap_get_bit bitmap_set_bit test_bit raise_bit
child-directory = refl

boot-IsTables : IsTables (record { mem = boot.mem; manager = boot.manager }) dir
boot-IsTables =
    let one = (kalloc_page manager-IsManager).0 in
    let two = (kalloc_page one.manager).0 in
    Grown-IsTables (Grown-trans one (Grown-trans two (kalloc_page two.manager).0)) empty-IsTables

-- The stack of the parent is not mapped for its child.
sys_fork-translate_example : translate after.system.mem forked_child.tss.cr3 0x8FFFFC ≡ none
sys_fork-translate_example =
    sys_fork-translate 1000 dir raw boot frame intr_on (new_page blank ∷ [])
      (new_turn (new_page blank) ∷ []) (first_task 1000 dir raw blank) forked_child after
      (add32 boot.global_pid 1) 0x8FFFFC booted.2 boot-IsTables boot-now (omega (arith, boot-page))
      (omega arith) (omega arith) forking.1
      (update_self boot.task (new_page boot) (some forked_child)) (omega (arith, child-directory))
      (omega arith)

-- A tick behind the fork.
ticked :
    (k : System) × (task_time_ticks 1000 after.system ≡ ok tt k)
    × IsRobin 1000 k
        (new_page blank ∷ new_page boot ∷ [])
        (robin_tick (new_turn (new_page blank) ∷ new_turn (new_page boot) ∷ []))
    × (k.eflags ≡ after.system.eflags)
ticked =
    task_time_ticks-robin_tick 1000 after.system (new_page blank ∷ new_page boot ∷ [])
      (new_turn (new_page blank) ∷ new_turn (new_page boot) ∷ []) forking.2

boot-HasRoom : HasRoom 1000 boot
boot-HasRoom = record {
  all = omega (arith, booted.2.general.count);
  queue = omega (arith, booted.2.queue.count);
}

fork_and_tick : Reach 1000 dir raw calls (record after { system = ticked.0 })
fork_and_tick =
    Reach.next
      (Reach.next Reach.here (
        Step.fork calls after frame (add32 boot.global_pid 1) boot-HasRoom (boot-HasMeans 0x800000)
          forking.1))
      (Step.tick after ticked.0 ticked.1)

boot-HasRobin_example :
    HasRobin 1000 ticked.0 × ((k : System) × (task_time_ticks 1000 ticked.0 ≡ ok tt k))
boot-HasRobin_example =
    boot-HasRobin 1000 dir raw blank boot intr_on (record after { system = ticked.0 })
      manager-IsManager (omega arith) (omega (arith, blank-page)) blank-HasKernelMeans booted.1
      fork_and_tick
