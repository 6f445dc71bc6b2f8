-- ===== src/Klist.antt =====
-- source/kernel/tools/klist.c and klist.h: the doubly linked list with a sentinel at each end.
-- A node is its address. A list at address `l` has its `head` node at `l`, its `tail` node at
-- `l + 8` (a node is two 32-bit pointers) and its `len` behind them, kept under `l`.
pub mod Access
pub mod Chain
pub mod Frame
pub mod Insert
pub mod Unlink
pub mod Remove
pub mod Find
use little_os.Base.{ℕ, zero, suc, ◌+◌, ◌≡◌, Bool, ◌==◌, if◌then◌else◌, update}
use little_os.Base.Word.{add32, sub32}
use little_os.Cmd.{Run, ok, fault, out_of_fuel, Cmd, pure, ◌>>=◌, ◌>>◌}

abbrev pub Ptr : Type 0
Ptr = ℕ

abbrev pub null : Ptr
null = 0

-- The memory that lists use: the fields `prev` and `next` of each node, and `len` of each list.
pub record Heap : Type 0 where
  pub prev : Ptr → Ptr
  pub next : Ptr → Ptr
  pub len : Ptr → ℕ

abbrev pub head : Ptr → Ptr
head l = l

abbrev pub tail : Ptr → Ptr
tail l = l + 8

-- Access through `NULL` is a fault.
unfoldable pub get_prev : Ptr → Cmd Heap Ptr
get_prev p h = if p == null then fault else ok (h.prev p) h

unfoldable pub get_next : Ptr → Cmd Heap Ptr
get_next p h = if p == null then fault else ok (h.next p) h

unfoldable pub set_prev : Ptr → Ptr → Cmd Heap (Unit {0})
set_prev p v h = if p == null then fault else ok tt (record h { prev = update h.prev p v })

unfoldable pub set_next : Ptr → Ptr → Cmd Heap (Unit {0})
set_next p v h = if p == null then fault else ok tt (record h { next = update h.next p v })

unfoldable pub get_len : Ptr → Cmd Heap ℕ
get_len l h = if l == null then fault else ok (h.len l) h

unfoldable pub set_len : Ptr → ℕ → Cmd Heap (Unit {0})
set_len l v h = if l == null then fault else ok tt (record h { len = update h.len l v })

unfoldable pub klist_node_init : Ptr → Cmd Heap (Unit {0})
klist_node_init node = do set_prev node null; set_next node null

unfoldable pub klist_init : Ptr → Cmd Heap (Unit {0})
klist_init list = do
  set_prev (head list) null
  set_next (head list) (tail list)
  set_prev (tail list) (head list)
  set_next (tail list) null
  set_len list 0

unfoldable pub klist_push : Ptr → Ptr → Cmd Heap (Unit {0})
klist_push list node = do
  set_prev node (head list)
  first ← get_next (head list)
  set_next node first
  first ← get_next (head list)
  set_prev first node
  set_next (head list) node
  n ← get_len list
  set_len list (add32 n 1)

unfoldable pub klist_append : Ptr → Ptr → Cmd Heap (Unit {0})
klist_append list node = do
  set_next node (tail list)
  last ← get_prev (tail list)
  set_prev node last
  last ← get_prev (tail list)
  set_next last node
  set_prev (tail list) node
  n ← get_len list
  set_len list (add32 n 1)

unfoldable pub klist_pop : Ptr → Cmd Heap Ptr
klist_pop list = do
  node ← get_next (head list)
  first ← get_next (head list)
  second ← get_next first
  set_prev second (head list)
  first ← get_next (head list)
  second ← get_next first
  set_next (head list) second
  n ← get_len list
  set_len list (sub32 n 1)
  pure node

-- What `klist_remove` does to the node that it looked for.
unfoldable pub unlink : Ptr → Ptr → Cmd Heap Ptr
unlink list node = do
  pre ← get_prev node
  behind ← get_next node
  set_next pre behind
  behind ← get_next node
  set_prev behind pre
  n ← get_len list
  set_len list (sub32 n 1)
  pure node

-- The walk of `klist_remove` from `temp`; the fuel bounds its rounds.
unfoldable pub remove_loop : ℕ → Ptr → Ptr → Ptr → Cmd Heap Ptr
unfolding unlink
remove_loop zero list remove_node temp = λ _. out_of_fuel
remove_loop (suc k) list remove_node temp =
    if temp == null
    then pure null
    else if temp == remove_node
    then unlink list temp
    else do following ← get_next temp; remove_loop k list remove_node following

unfoldable pub klist_remove : ℕ → Ptr → Ptr → Cmd Heap Ptr
unfolding remove_loop
klist_remove fuel list remove_node = do
  first ← get_next (head list)
  remove_loop fuel list remove_node first

unfoldable pub klist_len : Ptr → Cmd Heap ℕ
klist_len list = get_len list

unfoldable pub klist_count : Ptr → Cmd Heap ℕ
klist_count list = get_len list

unfoldable pub klist_empty : Ptr → Cmd Heap Bool
unfolding klist_len
klist_empty list = do n ← klist_len list; pure (n == 0)

unfoldable pub klist_get_first_node : Ptr → Cmd Heap Ptr
klist_get_first_node list = get_next (head list)

unfoldable pub klist_get_last_node : Ptr → Cmd Heap Ptr
klist_get_last_node list = get_prev (tail list)

unfoldable pub klist_get_next_node : Ptr → Cmd Heap Ptr
klist_get_next_node curr = get_next curr

-- The walk of `klist_find` from `temp`.
unfoldable pub find_loop : ℕ → Ptr → Ptr → Cmd Heap Ptr
find_loop zero target_node temp = λ _. out_of_fuel
find_loop (suc k) target_node temp =
    if temp == null
    then pure null
    else if temp == target_node
    then pure temp
    else do following ← get_next temp; find_loop k target_node following

unfoldable pub klist_find : ℕ → Ptr → Ptr → Cmd Heap Ptr
unfolding find_loop
klist_find fuel list target_node = do first ← get_next (head list); find_loop fuel target_node first
