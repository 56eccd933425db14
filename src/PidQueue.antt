-- ===== src/PidQueue.antt =====
-- kernel/lib/data_struct.c and include/comm/data_struct.h: the queue of pids, a ring of 8192 slots.
-- A `uint16_t` is a number below 2 ^ 16, with its wrap written out. `none` is a loop that never ends:
-- each loop has one more round than the ring has slots, which is enough while the tail lies in the array.
pub mod Ring
pub mod Fifo
pub mod Search
pub mod Delete
use weg_os.Base.{
  ℕ, zero, suc, ◌+◌, ◌-◌, ◌%◌, ◌^◌, Bool, Option, none, some, ◌==◌, leb, if◌then◌else◌, Array,
  update,
}

abbrev pub max_gdt_terms : ℕ
max_gdt_terms = 8192

-- `NOT_FOUND`, `(uint16_t)(-1)`
abbrev pub not_found : ℕ
not_found = 0xffff

pub record PidQueue : Type 0 where
  pub head : ℕ
  pub tail : ℕ
  pub pids : Array ℕ

-- `INC_PID_QUEUE_INDEX`
abbrev pub inc : ℕ → ℕ
inc i = (i + 1) % max_gdt_terms

-- The difference is an `int`, whose remainder has its sign; the result is cast to `uint16_t`.
unfoldable pub pid_queue_length : PidQueue → ℕ
pid_queue_length q =
    if leb q.head q.tail
    then (q.tail - q.head) % max_gdt_terms
    else (2 ^ 16 - (q.head - q.tail) % max_gdt_terms) % 2 ^ 16

-- The loop of `pid_queue_init` from slot i on, with so many rounds left.
pub init_loop : ℕ → ℕ → Array ℕ → Array ℕ
init_loop zero i pids = pids
init_loop (suc rounds) i pids = init_loop rounds (i + 1) (update pids i not_found)

unfoldable pub pid_queue_init : PidQueue → PidQueue
pid_queue_init q = record { head = 0; tail = 0; pids = init_loop max_gdt_terms 0 q.pids }

unfoldable pub pid_enqueue : PidQueue → ℕ → PidQueue
pid_enqueue q pid = record q { pids = update q.pids q.tail pid; tail = inc q.tail }

-- The pid and the queue that is left.
unfoldable pub pid_dequeue : PidQueue → ℕ × PidQueue
unfolding pid_queue_length
pid_dequeue q =
    if pid_queue_length q == 0
    then (not_found, q)
    else (q.pids q.head, record q { head = inc q.head })

pub find_loop : ℕ → ℕ → PidQueue → ℕ → Option ℕ
find_loop zero i q pid = none
find_loop (suc rounds) i q pid =
    let rest = find_loop rounds (inc i) q pid in
    if i == q.tail then some not_found else (if q.pids i == pid then some pid else rest)

-- The code returns the pid it was given, and not the slot where it stands.
unfoldable pub pid_queue_find : PidQueue → ℕ → Option ℕ
pid_queue_find q pid = find_loop (max_gdt_terms + 1) q.head q pid

pub delete_loop : ℕ → ℕ → ℕ → Array ℕ → Option (Array ℕ)
delete_loop zero j tail pids = none
delete_loop (suc rounds) j tail pids =
    let rest = delete_loop rounds (inc j) tail (update pids j (pids (inc j))) in
    if j == tail then some pids else rest

-- `tail--` on a `uint16_t`
unfoldable pub pid_queue_delete : PidQueue → ℕ → Option PidQueue
pid_queue_delete q i = elim (delete_loop (max_gdt_terms + 1) i q.tail q.pids) [
  | none ↦ none
  | some pids ↦ some (record q { pids = pids; tail = (q.tail + 2 ^ 16 - 1) % 2 ^ 16 })
]
