-- ===== src/Tests/Procs.antt =====
-- Processes and new threads with their manager at 1000: 5000 runs and 6000 is ready.
use little_os.Base.{
  ℕ, ◌+◌, ◌≡◌, inr, refl, arith, some, none, [], ◌∷◌, if◌then◌else◌, leb, ltb, ◌==◌, ◌&&◌, update,
  length,
}
use little_os.Base.Bits.{test_bit}
use little_os.Bitmap.{alloc_loop, scan_loop, bitmap_alloc_nbits, bitmap_get_bit}
use little_os.Cmd.{ok}
use little_os.Klist.{Heap}
use little_os.Klist.Chain.{ring, IsList}
use little_os.Klist.Frame.{Untouched}
use little_os.Klib.Swap.{IsString}
use little_os.Irq.{intr_on, irq_leave_protection}
use little_os.Mem.{Memory, read32}
use little_os.Memory.{kalloc_pages}
use little_os.Gdt.{segment_desc, GdtTable}
use little_os.Loader.Gdt16.{gdt16_init, gdt16_init-gdt_init}
use little_os.Thread.{Threads, ThreadPcb, died, ready}
use little_os.Thread.Create.{thread_start}
use little_os.Thread.Create.Stack.{stack_at}
use little_os.Thread.Create.Start.{started, thread_start-ok}
use little_os.Tss.{zero_tss}
use little_os.Proc.{ProcPcb, Procs, Context, unsaved_context}
use little_os.Proc.Switch.{proc_time_ticks, proc_dispatch}
use little_os.Proc.Queue.{switched, proc_time_ticks-next, proc_dispatch_first}
use little_os.Tests.Pages.{zeros, manager, manager-IsManager}

abbrev blank : Context
blank = record {
  edi = 0;
  esi = 0;
  ebp = 0;
  esp_dummy = 0;
  ebx = 0;
  edx = 0;
  ecx = 0;
  eax = 0;
  gs = 0;
  fs = 0;
  es = 0;
  ds = 0;
  eip = 0;
  cs = 0;
  eflags = 0x202;
  esp = 0;
  ss = 0;
}

abbrev pcb : ProcPcb
pcb = record {
  pid = 1;
  kstack = 8192;
  filename = 0x2000;
  priority = 31;
  status = ready;
  stack_magic = 0x19870916;
  ticks = 1;
  parent = 0;
  ifkernel = 0;
  ifsaved_context = unsaved_context;
  thread_table = 0;
  context = 5092;
  pgdir = 0x4000;
}

-- The ready queue at 1024 holds both processes.
abbrev two : Heap
two = record {
  prev = λ p. if p == 5060 then 1024 else if p == 6060 then 5060 else if p == 1032 then 6060 else 0;
  next = λ p. if p == 1024 then 5060 else if p == 5060 then 6060 else if p == 6060 then 1032 else 0;
  len = λ p. if p == 1024 then 2 else 0;
}

two-IsList : IsList two 1024 (5060 ∷ 6060 ∷ [])
two-IsList = record {
  start = refl;
  chain = omega arith;
  stop = refl;
  apart = omega arith;
  real = omega arith;
  count = refl;
  small = omega arith;
}

abbrev procs : Procs
procs = record {
  heap = two;
  proc = λ p.
      if p == 5000
      then some pcb
      else if p == 6000
      then some (record pcb { pid = 2; context = 6092 })
      else none;
  contexts = λ p. record blank { cs = 0x23; esp = 0x300000; ss = 0x2B };
  cur_proc = 5000;
  irq_state = intr_on;
  mem = zeros;
  manager = manager;
  global_pid = 2;
  tss = zero_tss;
  gdt = λ i. segment_desc 0 0 0;
  tr = 0;
  eflags = 2;
  cr3 = 0x4000;
  cpu = blank;
}

proc_time_ticks-next_example :
    (g : Heap) × (proc_time_ticks 1000 procs
      ≡ ok tt (
          switched 5000 6000
            (record pcb { ticks = 5; status = ready })
            (record pcb { pid = 2; context = 6092 })
            (record procs {
              heap = g;
              proc = update procs.proc 5000 (some (record pcb { ticks = 5; status = ready }));
            })))
    × IsList g 1024 (6060 ∷ 5060 ∷ [])
    × Untouched two g 1024 (ring 1024 (5060 ∷ 6060 ∷ []))
proc_time_ticks-next_example =
    proc_time_ticks-next 1000 procs 6000 pcb (record pcb { pid = 2; context = 6092 }) [] two-IsList
      (omega arith) refl refl refl refl (omega arith)

proc_dispatch_first_example :
    proc_dispatch 1000 procs
    ≡ ok tt (record procs {
      eflags = if length {A = ℕ} (6060 ∷ []) == 0 then irq_leave_protection 2 intr_on else 2;
    })
proc_dispatch_first_example = proc_dispatch_first 1000 procs (6060 ∷ []) two-IsList (omega arith)

-- Empty lists, and a name of four characters at 0x3000.
abbrev none_yet : Heap
none_yet = record {
  prev = λ p. if p == 1012 then 1004 else if p == 1032 then 1024 else 0;
  next = λ p. if p == 1004 then 1012 else if p == 1024 then 1032 else 0;
  len = λ p. 0;
}

general-IsList : IsList none_yet 1004 []
general-IsList = record {
  start = refl;
  chain = omega arith;
  stop = refl;
  apart = omega arith;
  real = omega arith;
  count = refl;
  small = omega arith;
}

ready-IsList : IsList none_yet 1024 []
ready-IsList = record {
  start = refl;
  chain = omega arith;
  stop = refl;
  apart = omega arith;
  real = omega arith;
  count = refl;
  small = omega arith;
}

abbrev names : Memory
names p = if leb 0x3000 p && ltb p 0x3004 then b'p' else 0

names-IsString : IsString names 0x3000 4
names-IsString = record { body = λ i h. ground arith; end = refl }

manager-page : (kalloc_pages manager 1).1 ≡ 0x100000
unfolding kalloc_pages bitmap_alloc_nbits alloc_loop scan_loop bitmap_get_bit test_bit
manager-page = refl

abbrev idle : Procs
idle = record procs { heap = none_yet; mem = names }

abbrev new_thread : ThreadPcb
new_thread = record { kstack = 0; priority = 0; status = died; stack_magic = 0; ticks = 0 }

abbrev threads : Threads
threads = record {
  heap = none_yet;
  thread = λ p. none;
  cur_thread = 0;
  value = λ p. 0;
  mem = names;
  manager = manager;
  eflags = 0x202;
  esp = 0x8000;
}

thread_start-ok_example :
    (m : Memory) × (g : Heap) × (thread_start 1000 5 0x2100 new_thread 0x3000 31 0x2200 7 threads
      ≡ ok (kalloc_pages manager 1).1 (started 0x2100 0x2200 31 new_thread threads m g))
    × IsList g 1004 (((kalloc_pages manager 1).1 + 48) ∷ [])
    × IsList g 1024 (((kalloc_pages manager 1).1 + 40) ∷ [])
    × (stack_at (kalloc_pages manager 1).1 ≡ (kalloc_pages manager 1).1 + 3680)
    × (read32
          (started 0x2100 0x2200 31 new_thread threads m g).mem
          ((kalloc_pages manager 1).1 + 3680 + 16)
        ≡ 0x2100)
    × (read32
          (started 0x2100 0x2200 31 new_thread threads m g).mem
          ((kalloc_pages manager 1).1 + 3680 + 24)
        ≡ 0x2200)
    × (read32
          (started 0x2100 0x2200 31 new_thread threads m g).mem
          ((kalloc_pages manager 1).1 + 3680 + 28)
        ≡ 0)
thread_start-ok_example =
    thread_start-ok 1000 5 0x2100 new_thread threads 0x3000 31 0x2200 7 4 [] [] manager-IsManager
      (omega arith) general-IsList ready-IsList tt tt (omega (arith, manager-page)) (omega arith)
      (omega arith) names-IsString (omega arith) (inr (omega (arith, manager-page))) (omega arith)
      (omega arith)

-- Tables that held other descriptors.
abbrev full_table : GdtTable
full_table i = segment_desc 0xFFFF 0x1000 0x92

gdt16_init-gdt_init_example : gdt16_init full_table 3 ≡ segment_desc 0 0 0
gdt16_init-gdt_init_example = gdt16_init-gdt_init full_table full_table 3
