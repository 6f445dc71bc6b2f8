-- ===== src/Tests/Threads.antt =====
-- Threads with their manager at 1000 and a semaphore at 2000: 5000 and 6000 are ready, and 7000
-- waits.
use little_os.Base.{◌+◌, ◌≡◌, refl, arith, [], ◌∷◌, if◌then◌else◌, ◌==◌, some, none, update}
use little_os.Base.Word.{u8}
use little_os.Cmd.{ok, fault, pure}
use little_os.Klist.{Heap}
use little_os.Klist.Chain.{IsList}
use little_os.Tests.Pages.{zeros, manager}
use little_os.Thread.{Threads, ThreadPcb, ready, blocked}
use little_os.Thread.Sync.{thread_sem_post, thread_sem_wait}
use little_os.Thread.Sync.Block.{wait_alone_fault}
use little_os.Thread.Sync.Post.{thread_sem_post-ok}

abbrev queues : Heap
queues = record {
  prev = λ p.
      if p == 5040
      then 1024
      else if p == 6040
      then 5040
      else if p == 1032
      then 6040
      else if p == 7040
      then 2004
      else if p == 2012
      then 7040
      else if p == 1052
      then 1044
      else 0;
  next = λ p.
      if p == 1024
      then 5040
      else if p == 5040
      then 6040
      else if p == 6040
      then 1032
      else if p == 2004
      then 7040
      else if p == 7040
      then 2012
      else if p == 1044
      then 1052
      else 0;
  len = λ p. if p == 1024 then 2 else if p == 2004 then 1 else 0;
}

abbrev some_thread : ThreadPcb
some_thread = record {
  kstack = 0x9000;
  priority = 31;
  status = blocked;
  stack_magic = 0x19870916;
  ticks = 5;
}

abbrev ready_thread : ThreadPcb
ready_thread = record {
  kstack = 0xA000;
  priority = 31;
  status = ready;
  stack_magic = 0x19870916;
  ticks = 5;
}

abbrev threads : Threads
threads = record {
  heap = queues;
  thread = λ p.
      if p == 5000
      then some some_thread
      else if p == 6000
      then some ready_thread
      else if p == 7000
      then some some_thread
      else none;
  cur_thread = 5000;
  value = λ p. 0;
  mem = zeros;
  manager = manager;
  eflags = 0x202;
  esp = 0x8000;
}

ready-IsList : IsList queues 1024 (5040 ∷ 6040 ∷ [])
ready-IsList = record {
  start = refl;
  chain = omega arith;
  stop = refl;
  apart = omega arith;
  real = omega arith;
  count = refl;
  small = omega arith;
}

wait-IsList : IsList queues 2004 (7040 ∷ [])
wait-IsList = record {
  start = refl;
  chain = omega arith;
  stop = refl;
  apart = omega arith;
  real = omega arith;
  count = refl;
  small = omega arith;
}

thread_sem_post-ok_example :
    (g : Heap) × (thread_sem_post 1000 2000 threads
      ≡ ok tt (record threads {
        heap = g;
        thread = update threads.thread 7000 (some (record some_thread { status = ready }));
        value = update threads.value 2000 (u8 (threads.value 2000 + 1));
      }))
    × IsList g 1024 (7040 ∷ 5040 ∷ 6040 ∷ [])
    × IsList g 2004 []
thread_sem_post-ok_example =
    thread_sem_post-ok 1000 2000 7000 some_thread (5040 ∷ 6040 ∷ []) [] threads wait-IsList
      ready-IsList (omega arith) (omega arith) refl (omega arith)

sleep-IsList : IsList queues 1044 []
sleep-IsList = record {
  start = refl;
  chain = omega arith;
  stop = refl;
  apart = omega arith;
  real = omega arith;
  count = refl;
  small = omega arith;
}

-- Only the thread at 5000 is ready.
abbrev alone : Threads
alone = record threads {
  heap = record {
    prev = λ p.
        if p == 5040
        then 1024
        else if p == 1032
        then 5040
        else if p == 1052
        then 1044
        else if p == 2012
        then 2004
        else 0;
    next = λ p.
        if p == 1024
        then 5040
        else if p == 5040
        then 1032
        else if p == 1044
        then 1052
        else if p == 2004
        then 2012
        else 0;
    len = λ p. if p == 1024 then 1 else 0;
  };
}

alone_ready-IsList : IsList alone.heap 1024 (5040 ∷ [])
alone_ready-IsList = record {
  start = refl;
  chain = omega arith;
  stop = refl;
  apart = omega arith;
  real = omega arith;
  count = refl;
  small = omega arith;
}

alone_sleep-IsList : IsList alone.heap 1044 []
alone_sleep-IsList = record {
  start = refl;
  chain = omega arith;
  stop = refl;
  apart = omega arith;
  real = omega arith;
  count = refl;
  small = omega arith;
}

alone_wait-IsList : IsList alone.heap 2004 []
alone_wait-IsList = record {
  start = refl;
  chain = omega arith;
  stop = refl;
  apart = omega arith;
  real = omega arith;
  count = refl;
  small = omega arith;
}

wait_alone_fault_example : thread_sem_wait 1000 (pure tt) 3 2000 alone ≡ fault
wait_alone_fault_example =
    wait_alone_fault 1000 (pure tt) alone 2000 some_thread [] [] alone_ready-IsList
      alone_sleep-IsList alone_wait-IsList (omega arith) (omega arith) (omega arith) refl
      (omega arith) (omega arith) (omega arith) refl refl 2
