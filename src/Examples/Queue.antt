-- ===== src/Examples/Queue.antt =====
-- kernel/lib/data_struct.c at concrete queues.
use weg_os.Base.{ℕ, ◌+◌, ◌≡◌, refl, arith, Array, some, List, [], ◌∷◌}
use weg_os.PidQueue.{PidQueue, pid_dequeue, pid_queue_delete}
use weg_os.PidQueue.Ring.{contents, IsValid}
use weg_os.PidQueue.Fifo.{contents-pid_dequeue}
use weg_os.PidQueue.Delete.{contents-pid_queue_delete}

-- Slot i holds pid i + 1.
abbrev slots : Array ℕ
slots i = i + 1

abbrev three : PidQueue
three = record { head = 4; tail = 7; pids = slots }

abbrev wrapped : PidQueue
wrapped = record { head = 8191; tail = 1; pids = slots }

abbrev at_start : PidQueue
at_start = record { head = 8190; tail = 0; pids = slots }

three-IsValid : IsValid three
three-IsValid = record { head_in = omega arith; tail_in = omega arith }

wrapped-IsValid : IsValid wrapped
wrapped-IsValid = record { head_in = omega arith; tail_in = omega arith }

contents-three : contents three ≡ 5 ∷ 6 ∷ 7 ∷ []
contents-three = refl

contents-wrapped : contents wrapped ≡ 8192 ∷ 1 ∷ []
contents-wrapped = refl

contents-pid_dequeue_example :
    let (pid, q') = pid_dequeue three in
    IsValid q' × ◌≡◌ {A = ℕ × List ℕ} (pid, contents q') (5, 6 ∷ 7 ∷ [])
contents-pid_dequeue_example = contents-pid_dequeue {q = three} three-IsValid

contents-pid_queue_delete_example :
    (q' : PidQueue) × (pid_queue_delete three 5 ≡ some q')
    × IsValid q'
    × (contents q' ≡ 5 ∷ 7 ∷ [])
    × (q'.head ≡ 4)
contents-pid_queue_delete_example =
    contents-pid_queue_delete {q = three} 1 5 three-IsValid (omega arith) (omega arith)
      (omega arith)
