-- ===== src/PidQueue/Fifo.antt =====
-- Making a queue, putting a pid at its end and taking one from its front, against lists.
use weg_os.Base.{
  ℕ, zero, suc, ◌+◌, ◌-◌, ◌%◌, ◌^◌, ◌<◌, ◌≡◌, refl, ap, ap₂, ◌∙◌, arith, Array, update, update_self,
  List, [], ◌∷◌, ◌++◌, length, leb, ◌==◌, if◌then◌else◌, Bool-cases, ==_iff, inl, inr,
}
use weg_os.PidQueue.{
  PidQueue, max_gdt_terms, not_found, inc, pid_queue_length, init_loop, pid_queue_init, pid_enqueue,
  pid_dequeue,
}
use weg_os.PidQueue.Ring.{
  run_of, steps, contents, IsValid, length-run_of, run_of-snoc, run_of-update_outside,
  contents-empty, contents-cons,
}

init_loop-slots :
    (rounds i : ℕ) (a : Array ℕ) (j : ℕ)
    → init_loop rounds i a j
      ≡ (if leb i j then (if leb (i + rounds) j then a j else not_found) else a j)
unfolding init_loop
init_loop-slots zero i a j = ground arith
init_loop-slots (suc rounds) i a j =
    ground (arith, init_loop-slots rounds (i + 1) (update a i not_found) j)

-- `pid_queue_init` makes a valid empty queue, and marks each of its slots as unused.
pub pid_queue_init_lem :
    (q : PidQueue)
    → IsValid (pid_queue_init q)
      × (contents (pid_queue_init q) ≡ [])
      × ((j : ℕ) → j < max_gdt_terms → (pid_queue_init q).pids j ≡ not_found)
unfolding pid_queue_init
pid_queue_init_lem q = (
  record { head_in = omega arith; tail_in = omega arith },
  refl,
  λ j h. ground (arith, init_loop-slots max_gdt_terms 0 q.pids j),
)

-- Unless the ring is full, `pid_enqueue` keeps the queue valid and puts the pid behind those that it
-- holds.
pub contents-pid_enqueue :
    {q : PidQueue} (pid : ℕ)
    → IsValid q
    → suc (length (contents q)) < max_gdt_terms
    → IsValid (pid_enqueue q pid) × (contents (pid_enqueue q pid) ≡ contents q ++ (pid ∷ []))
unfolding pid_enqueue
contents-pid_enqueue {q} pid v room = (
  record { head_in = v.head_in; tail_in = omega arith },
  ap (run_of (update q.pids q.tail pid) q.head) grown
      ∙ run_of-snoc (update q.pids q.tail pid) q.head count q.tail v.head_in here
      ∙ ap₂ (λ xs x. xs ++ (x ∷ []))
          (run_of-update_outside q.pids q.head count q.tail pid v.head_in (omega arith) v.tail_in
            (omega arith))
          (update_self q.pids q.tail pid),
)
  where
    open v use {head_in, tail_in}

    count : ℕ
    count = steps q.head q.tail

    fits : suc count < max_gdt_terms
    fits = omega (arith, length-run_of q.pids q.head count)

    grown : steps q.head (inc q.tail) ≡ suc count
    grown = omega (arith, fits)

    here : q.tail ≡ (q.head + count) % max_gdt_terms
    here = omega arith

-- Taking the front of a list, as the code reports it.
abbrev pub pop : List ℕ → ℕ × List ℕ
pop [] = (not_found, [])
pop (x ∷ xs) = (x, xs)

-- The test that `pid_dequeue` makes is right, although the length may be wrong.
pid_queue_length-is_zero :
    (q : PidQueue) → IsValid q → (pid_queue_length q == 0) ≡ (q.head == q.tail)
unfolding pid_queue_length
pid_queue_length-is_zero q v = ground (arith, v.head_in, v.tail_in)

-- `pid_dequeue` keeps a valid queue valid, and takes the oldest pid from it; it returns `NOT_FOUND`
-- and changes nothing if there is none.
pub contents-pid_dequeue :
    {q : PidQueue}
    → IsValid q
    → let (pid, q') = pid_dequeue q in IsValid q' × ((pid, contents q') ≡ pop (contents q))
unfolding pid_dequeue
contents-pid_dequeue {q} v =
    rw (pid_queue_length-is_zero q v) (elim (Bool-cases (q.head == q.tail)) [
      | inl e ↦
          let same : contents q ≡ [] = contents-empty q v ((==_iff q.head q.tail).0 e) in
          rw (e, same) (v, refl)
      | inr ne ↦
          let cons : contents q ≡ _ = contents-cons q v (λ e. ground arith) in
          rw (ne, cons) (record { head_in = omega arith; tail_in = v.tail_in }, refl)
    ])

-- A queue that has gone round the end of the array reports a wrong length: 2 ^ 16 - (head - tail)
-- where it holds 8192 - (head - tail) pids.
pub pid_queue_length-wrapped :
    {q : PidQueue}
    → IsValid q
    → q.tail < q.head
    → (pid_queue_length q ≡ 2 ^ 16 - (q.head - q.tail))
      × (length (contents q) ≡ max_gdt_terms - (q.head - q.tail))
unfolding pid_queue_length
pid_queue_length-wrapped {q} v h =
    (ground arith, omega (arith, length-run_of q.pids q.head (steps q.head q.tail)))
