-- ===== src/Sched/Directories.antt =====
-- The page directories of the first two tasks: `sched_init`, `task_init` and `copy_pts`.
use weg_os.Base.{
  ℕ, ◌+◌, ◌*◌, ◌%◌, ◌^◌, ◌≤◌, ◌<◌, ◌≡◌, ◌⊎◌, inl, inr, refl, ap, ◌∙◌, arith, ltb, [], ◌∷◌,
}
use weg_os.Base.Bytes.{load32}
use weg_os.Memory.{Memory, page_size, p_malloc, copy_pts}
use weg_os.Memory.Copy.{copy_pts-word, copy_pts-other}
use weg_os.Memory.Frames.{HasFrames, is_taken}
use weg_os.Memory.Identity.{p_malloc-lowest}
use weg_os.Processor.{initial_gdt}
use weg_os.Sched.{task_manager_init, sched_init}
use weg_os.Sched.Start.{IsFresh, sched_init-pids, create_task-Queued, task_manager_init-Queued}
use weg_os.Task.{
  Kernel, Task, Image, create_task, task_init, set_task_state, enter_state, task_flag_kernel,
}

-- The memory of a new task: a copy of the kernel's directory in a frame of its own.
create_task-memory :
    (image : Image) (k : Kernel) (flag eip esp ddl : ℕ)
    → (create_task image k flag eip esp ddl).1.memory
      ≡ copy_pts (p_malloc k.memory).1 image.kernel_pd (p_malloc k.memory).0
unfolding create_task task_init set_task_state enter_state
create_task-memory image k flag eip esp ddl = refl

-- A directory that is copied to the first free frame, the one at `first`.
pub record IsCopied (kernel_pd first : ℕ) (m m' : Memory) : Type 0 where
  pub frames : HasFrames m'
  pub taken : (a : ℕ) → a < 2 ^ 32 → is_taken m' a ≡ ltb a (first + page_size)
  pub copied : (k : ℕ) → k < 1024 → load32 m'.mem (first + 4 * k) ≡ load32 m.mem (kernel_pd + 4 * k)
  pub others :
      (a : ℕ) → (a + 4 ≤ first) ⊎ (first + page_size ≤ a) → load32 m'.mem a ≡ load32 m.mem a

copy_pts-p_malloc :
    (kernel_pd first : ℕ) (m : Memory)
    → HasFrames m
    → first % page_size ≡ 0
    → first + page_size ≤ 2 ^ 32
    → ((a : ℕ) → a < 2 ^ 32 → is_taken m a ≡ ltb a first)
    → kernel_pd + page_size ≤ first
    → ((p_malloc m).0 ≡ first)
      × IsCopied kernel_pd first m (copy_pts (p_malloc m).1 kernel_pd (p_malloc m).0)
unfolding copy_pts
copy_pts-p_malloc kernel_pd first m frames page top taken below =
    let (at, kept, frames', taken') = p_malloc-lowest first m frames page (omega arith) taken in
    (
      at,
      rw at (record {
        frames = record { bytes = frames'.bytes; full_size = frames'.full_size };
        taken = taken';
        copied = λ k h.
            copy_pts-word (p_malloc m).1 kernel_pd first k below top h
            ∙ ap (λ mem. load32 mem (kernel_pd + 4 * k)) kept;
        others = λ a far.
            copy_pts-other (p_malloc m).1 kernel_pd first a below top far
            ∙ ap (λ mem. load32 mem a) kept;
      }),
    )

-- With the initial table, just the frames below `first` taken, the kernel's directory below it and room for
-- two frames behind it: `sched_init` gives the tasks 5 and 6 the next two frames as page directories, each
-- of which holds the entries of the kernel's; no other word of memory changes, and no other frame is taken.
pub sched_init-directories :
    (image : Image) (k : Kernel) (idle stack_0_end stack_1_end first : ℕ)
    → IsFresh k.task_manager
    → k.gdt ≡ initial_gdt
    → image.tss_address 5 < 2 ^ 32
    → image.tss_address 6 < 2 ^ 32
    → HasFrames k.memory
    → first % page_size ≡ 0
    → first + 2 * page_size ≤ 2 ^ 32
    → ((a : ℕ) → a < 2 ^ 32 → is_taken k.memory a ≡ ltb a first)
    → image.kernel_pd + page_size ≤ first
    → let k' = sched_init image k idle stack_0_end stack_1_end in
      ((k'.task_manager.tasks 5).tss.cr3 ≡ first)
      × ((k'.task_manager.tasks 6).tss.cr3 ≡ first + page_size)
      × ((n : ℕ)
          → n < 1024
          → load32 k'.memory.mem (first + 4 * n) ≡ load32 k.memory.mem (image.kernel_pd + 4 * n))
      × ((n : ℕ)
          → n < 1024
          → load32 k'.memory.mem (first + page_size + 4 * n)
            ≡ load32 k.memory.mem (image.kernel_pd + 4 * n))
      × ((a : ℕ)
          → (a + 4 ≤ first) ⊎ (first + 2 * page_size ≤ a)
          → load32 k'.memory.mem a ≡ load32 k.memory.mem a)
      × ((a : ℕ) → a < 2 ^ 32 → is_taken k'.memory a ≡ ltb a (first + 2 * page_size))
unfolding sched_init
sched_init-directories image k idle stack_0_end stack_1_end first fresh table fits_5 fits_6 frames
      page top taken below =
    let pd : ℕ = image.kernel_pd in
    let k0 : Kernel = record k { task_manager = task_manager_init k.task_manager } in
    let k1 : Kernel = (create_task image k0 task_flag_kernel idle stack_0_end 0xff).1 in
    let k2 : Kernel = (create_task image k1 task_flag_kernel idle stack_1_end 0xff).1 in
    let (pid5, pid6) = sched_init-pids image k idle stack_0_end fresh table fits_5 in
    let (s1, _, _, _, _, _, _, cr3_5) =
      create_task-Queued image k0 [] 5 idle stack_0_end 0xff
        (task_manager_init-Queued k.task_manager fresh) (omega arith) pid5 (omega arith) refl
        fits_5 in
    let (_, _, _, _, _, _, tasks, cr3_6) =
      create_task-Queued image k1 (5 ∷ []) 6 idle stack_1_end 0xff s1 (omega arith) pid6
        (omega arith) refl fits_6 in
    let (at1, copied1) =
      copy_pts-p_malloc pd first k.memory frames page (omega arith) taken below in
    let c1 : IsCopied pd first k.memory k1.memory =
      rw (create_task-memory image k0 task_flag_kernel idle stack_0_end 0xff) copied1 in
    let (at2, copied2) =
      copy_pts-p_malloc pd (first + page_size) k1.memory c1.frames (omega arith) (omega arith)
        c1.taken (omega arith) in
    let c2 : IsCopied pd (first + page_size) k1.memory k2.memory =
      rw (create_task-memory image k1 task_flag_kernel idle stack_1_end 0xff) copied2 in
    (
      ap (λ (t : Task). t.tss.cr3) (tasks 5 (λ e. omega arith)) ∙ cr3_5 ∙ at1,
      cr3_6 ∙ at2,
      λ n h. c2.others (first + 4 * n) (inl (omega arith)) ∙ c1.copied n h,
      λ n h. c2.copied n h ∙ c1.others (pd + 4 * n) (inl (omega arith)),
      λ a far.
          c2.others a (elim far [ inl low ↦ inl (omega arith) | inr high ↦ inr (omega arith) ])
          ∙ c1.others a (elim far [ inl low ↦ inl low | inr high ↦ inr (omega arith) ]),
      λ a h. c2.taken a h ∙ ap (ltb a) (omega arith),
    )
