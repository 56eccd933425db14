-- ===== src/PidQueue/Search.antt =====
-- `pid_queue_find`: what it returns, and when its loop never ends.
use weg_os.Base.{
  ℕ, zero, suc, ◌+◌, ◌≤◌, ◌<◌, ◌≡◌, ◌≢◌, refl, arith, Bool, false, ◌||◌, none, some, List, [], ◌∷◌,
  ◌==◌, if◌then◌else◌,
}
use weg_os.PidQueue.{PidQueue, max_gdt_terms, not_found, inc, find_loop, pid_queue_find}
use weg_os.PidQueue.Ring.{run_of, steps, contents, IsValid}

abbrev pub has : ℕ → List ℕ → Bool
has pid [] = false
has pid (x ∷ xs) = (x == pid) || has pid xs

-- With more rounds than slots before the tail, the loop ends.
find_loop-has :
    (n rounds i : ℕ) (q : PidQueue) (pid : ℕ)
    → i < max_gdt_terms
    → q.tail < max_gdt_terms
    → n ≡ steps i q.tail
    → n < rounds
    → find_loop rounds i q pid ≡ some (if has pid (run_of q.pids i n) then pid else not_found)
unfolding find_loop
find_loop-has n zero i q pid hi ht e fuel = absurd (omega arith)
find_loop-has zero (suc rounds) i q pid hi ht e fuel =
    let done : i ≡ q.tail = omega arith in ground arith
find_loop-has (suc n) (suc rounds) i q pid hi ht e fuel =
    let more : i ≢ q.tail = omega arith in
    ground
      (arith, find_loop-has n rounds (inc i) q pid (omega arith) ht (omega arith) (omega arith))

-- On a valid queue `pid_queue_find` ends. It returns the pid itself, and no slot, if the queue holds
-- it, and `NOT_FOUND` if not.
pub pid_queue_find-has :
    {q : PidQueue} (pid : ℕ)
    → IsValid q
    → pid_queue_find q pid ≡ some (if has pid (contents q) then pid else not_found)
unfolding pid_queue_find
pid_queue_find-has {q} pid v =
    find_loop-has (steps q.head q.tail) (max_gdt_terms + 1) q.head q pid v.head_in v.tail_in refl
      (omega arith)

-- If the tail lies outside the array and no slot holds the pid, the loop of `pid_queue_find` never
-- ends, however many rounds it is given.
pub find_loop-endless :
    (rounds i : ℕ) (q : PidQueue) (pid : ℕ)
    → i < max_gdt_terms
    → max_gdt_terms ≤ q.tail
    → ((j : ℕ) → j < max_gdt_terms → q.pids j ≢ pid)
    → find_loop rounds i q pid ≡ none
unfolding find_loop
find_loop-endless zero i q pid hi ht absent = refl
find_loop-endless (suc rounds) i q pid hi ht absent =
    ground (arith, absent i hi, find_loop-endless rounds (inc i) q pid (omega arith) ht absent)
