-- ===== src/Thread/Create.antt =====
-- The creation of threads in source/kernel/task_old/task_old.c: a thread lies at the start of a
-- page, with its name 4 bytes into it, and its stack comes down from the page's end. `raw` is what
-- a new page holds, read as a thread; `kthread` is the address of the function of that name.
pub mod Stack
pub mod Start
use little_os.Base.{ℕ, ◌+◌, ◌-◌, ◌*◌, Option, none, some, if◌then◌else◌, ◌==◌, update}
use little_os.Base.Word.{add32, sub32}
use little_os.Cmd.{Run, ok, fault, out_of_fuel, Cmd, pure, ◌>>=◌, ◌>>◌}
use little_os.Klib.{kstrcpy}
use little_os.Klist.{Ptr, null}
use little_os.Mem.{write32}
use little_os.Memory.{mem_page_size, kalloc_pages}
use little_os.Thread.{
  ThreadPcb, Threads, created, running, task_ticks_default, get_thread, enter_protection,
  leave_protection, thread_set_general, thread_set_ready,
}

-- TASK_STACK_MAGIC.
abbrev pub task_stack_magic : ℕ
task_stack_magic = 0x19870916

-- `sizeof(intr_stack)` and `sizeof(thread_stack)`, which are taken from a pointer to words.
abbrev pub intr_stack_size : ℕ
intr_stack_size = 72

abbrev pub thread_stack_size : ℕ
thread_stack_size = 32

abbrev pub name_addr : Ptr → Ptr
name_addr thread = thread + 4

-- `&thread_manager.main_thread`.
abbrev pub main_thread : Ptr → Ptr
main_thread mgr = mgr + 64

-- A write to fields of a thread.
unfoldable pub change_thread : Ptr → (ThreadPcb → ThreadPcb) → Cmd Threads (Unit {0})
change_thread p f k = elim (k.thread p) [
  | none ↦ fault
  | some v ↦ ok tt (record k { thread = update k.thread p (some (f v)) })
]

unfoldable pub copy_name : ℕ → Ptr → Ptr → Cmd Threads (Unit {0})
copy_name fuel dest src k = elim (kstrcpy fuel k.mem dest src) [
  | none ↦ out_of_fuel
  | some m ↦ ok tt (record k { mem = m })
]

abbrev pub put_word : Ptr → ℕ → Cmd Threads (Unit {0})
put_word p v k = ok tt (record k { mem = write32 k.mem p v })

abbrev pub kalloc : ℕ → Cmd Threads ℕ
kalloc n k =
    let (manager, addr) = kalloc_pages k.manager n in ok addr (record k { manager = manager })

abbrev pub place_thread : Ptr → ThreadPcb → Cmd Threads (Unit {0})
place_thread p raw k =
    if p == null then fault else ok tt (record k { thread = update k.thread p (some raw) })

-- `sizeof(pthread)` is that of a pointer: only the first field, `kstack`, is cleared.
unfoldable pub kthread_init : (fuel : ℕ) → (pthread name prio : ℕ) → Cmd Threads (Unit {0})
unfolding change_thread copy_name
kthread_init fuel pthread name prio = do
  change_thread pthread (λ v. record v { kstack = 0 })
  copy_name fuel (name_addr pthread) name
  change_thread pthread (λ v. record v {
    status = created;
    priority = prio;
    kstack = add32 pthread mem_page_size;
    stack_magic = task_stack_magic;
  })

unfoldable pub kthread_create : (kthread : Ptr) → (pthread func args : ℕ) → Cmd Threads (Unit {0})
unfolding change_thread get_thread
kthread_create kthread pthread func args = do
  change_thread pthread (λ v. record v { kstack = sub32 v.kstack (4 * intr_stack_size) })
  change_thread pthread (λ v. record v { kstack = sub32 v.kstack (4 * thread_stack_size) })
  v ← get_thread pthread
  put_word (add32 v.kstack 16) kthread
  put_word (add32 v.kstack 24) func
  put_word (add32 v.kstack 28) args
  put_word (add32 v.kstack 8) 0
  put_word (add32 v.kstack 12) 0
  put_word (add32 v.kstack 4) 0
  put_word v.kstack 0

module _ (mgr : Ptr) (fuel : ℕ) (kthread : Ptr) where
  unfoldable pub thread_start : (raw : ThreadPcb) → (name prio func args : ℕ) → Cmd Threads Ptr
  unfolding change_thread kthread_init kthread_create thread_set_general thread_set_ready
  thread_start raw name prio func args = do
    status ← enter_protection
    thread ← kalloc 1
    place_thread thread raw
    kthread_init fuel thread name prio
    kthread_create kthread thread func null
    change_thread thread (λ v. record v { ticks = task_ticks_default })
    thread_set_general mgr thread
    thread_set_ready mgr thread
    leave_protection status
    pure thread

  unfoldable pub main_thread_init : (name prio func args : ℕ) → Cmd Threads (Unit {0})
  unfolding change_thread kthread_init kthread_create thread_set_general thread_set_ready
  main_thread_init name prio func args = do
    (λ k. ok tt (record k { cur_thread = main_thread mgr }))
    kthread_init fuel (main_thread mgr) name prio
    kthread_create kthread (main_thread mgr) func null
    thread_set_general mgr (main_thread mgr)
    thread_set_ready mgr (main_thread mgr)
    change_thread (main_thread mgr) (λ v. record v { ticks = task_ticks_default; status = running })
