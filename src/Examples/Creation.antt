-- ===== src/Examples/Creation.antt =====
-- kernel/proc/task.c at a kernel with a free descriptor.
use weg_os.Base.{
  ℕ, ◌+◌, ◌*◌, ◌≡◌, ◌≢◌, refl, arith, [], ◌∷◌, ◌==◌, if◌then◌else◌, inl, inr, true, false, ◌/◌, ◌%◌,
  ◌^◌, ◌<◌,
}
use native.Mathlib.Decide.{dec_lt}
use weg_os.Bit.{testbit}
use weg_os.BitAllocation.Search.{bit_at}
use weg_os.Memory.{page_size}
use weg_os.Memory.Frames.{is_taken}
use weg_os.PidQueue.Ring.{contents}
use weg_os.Task.{Kernel}
use weg_os.Task.{Image, get_pid_empty, is_a_tss_descriptor, create_task}
use weg_os.Task.Descriptor.{base_of, get_pid_empty-first}
use weg_os.Task.Creation.{create_task_lem}
use weg_os.Sched.Queues.{IsConsistent}
use weg_os.Examples.Kernels.{three_tasks, three_tasks-IsConsistent}

abbrev image : Image
image = record { tss_address = λ p. 0x20000 + 104 * p; kernel_pd = 0x10000 }

-- Descriptor 4 is the first that is free.
abbrev with_free : Kernel
with_free = record three_tasks {
  gdt = λ i. if i == 4 then record { low = 0; high = 0 } else record { low = 1; high = 1 };
  memory = record { mem = λ a. 0; alloc_bitmap = record { bits = λ i. 0; size = 2 ^ 20 } };
}

get_pid_empty-with_free : get_pid_empty with_free.gdt ≡ 4
get_pid_empty-with_free = elim (get_pid_empty-first with_free.gdt) [
  | inl (none_left, all) ↦ absurd (ground (arith, all 4 (omega arith) (omega arith)))
  | inr (low, high, free, below) ↦ elim (dec_lt 4 (get_pid_empty with_free.gdt)) [
    | yes later ↦ absurd (ground (arith, below 4 (omega arith) later))
    | no here ↦ ground arith
  ]
]

no_frame_taken : is_taken with_free.memory 0 ≡ false
unfolding bit_at testbit
no_frame_taken = refl

create_task_example :
    let (pid', k') = create_task image with_free 0 0x1000 0x2000 0xff in
    (pid' ≡ 4)
    × IsConsistent k'.task_manager
    × (contents k'.task_manager.pid_queue_ready ≡ 2 ∷ 4 ∷ [])
    × (base_of (k'.gdt 4) ≡ 0x201a0)
    × (is_a_tss_descriptor (k'.gdt 4) ≡ true)
    × ((i : ℕ) → i ≢ 4 → k'.gdt i ≡ with_free.gdt i)
    × ((k'.task_manager.tasks 4).tss.eip ≡ 0x1000)
    × ((k'.task_manager.tasks 4).tss.esp ≡ 0x2000)
    × ((k'.task_manager.tasks 4).tss.cs ≡ 0x8)
    × ((k'.task_manager.tasks 4).tss.ss ≡ 0x10)
    × ((k'.task_manager.tasks 4).tss.ds ≡ 0x10)
    × ((k'.task_manager.tasks 4).tss.cr3 % page_size ≡ 0)
    × ((k'.task_manager.tasks 4).tss.cr3 < 2 ^ 32)
    × (is_taken with_free.memory (k'.task_manager.tasks 4).tss.cr3 ≡ false)
    × ((a : ℕ)
        → is_taken k'.memory a ≡ (
            if (k'.task_manager.tasks 4).tss.cr3 / page_size == a / page_size
            then true
            else is_taken with_free.memory a))
create_task_example =
    create_task_lem image with_free 0 0x1000 0x2000 0xff 4 0 three_tasks-IsConsistent (omega arith)
      get_pid_empty-with_free (λ e. omega arith)
      (record {
        not_ready = refl;
        not_blocked = refl;
        not_sleeping = refl;
        not_running = λ e. omega arith;
      })
      (omega arith) (record { bytes = λ i. omega arith; full_size = refl }) (omega arith)
      no_frame_taken
