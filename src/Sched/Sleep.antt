-- ===== src/Sched/Sleep.antt =====
-- How many calls of `check_wakeup` a sleeping task sleeps for.
use weg_os.Base.{
  ℕ, zero, suc, ◌≤◌, ◌≡◌, refl, ◌∙◌, arith, true, false, Array, Option, some, ◌>>=◌, List, [], ◌∷◌,
  ◌==◌, if◌then◌else◌, Bool-cases, inl, inr, ==_iff, ==_of_ne,
}
use weg_os.PidQueue.Ring.{contents}
use weg_os.PidQueue.Search.{has}
use weg_os.Task.{Kernel, Task, state_ready, state_sleeping}
use weg_os.Sched.{dec32, check_wakeup}
use weg_os.Sched.Queues.{IsConsistent}
use weg_os.Sched.Wakeup.Lists.{due, still_asleep, not-has-due}
use weg_os.Sched.Wakeup.Loop.{check_wakeup-Woken}

-- So many calls of `check_wakeup`. On a tick `on_timer` makes one, and then calls `check_schedule`, which is
-- not part of this.
unfoldable pub check_wakeups : ℕ → Kernel → Option Kernel
check_wakeups zero k = some k
check_wakeups (suc n) k = (check_wakeup k) >>= λ k'. check_wakeups n k'

pub has-due :
    (tasks : Array Task) (p : ℕ) (ps : List ℕ)
    → has p ps ≡ true
    → has p (due tasks ps) ≡ (dec32 (tasks p).wakeup_counter == 0)
has-due tasks p [] h = absurd (ground arith)
has-due tasks p (x ∷ ps) h = elim (Bool-cases (has p ps)) [
  | inl deep ↦ ground (arith, has-due tasks p ps deep)
  | inr here ↦ ground (arith, not-has-due tasks p ps here)
]

pub has-still_asleep :
    (tasks : Array Task) (p : ℕ) (ps : List ℕ)
    → has p ps ≡ true
    → (dec32 (tasks p).wakeup_counter == 0) ≡ false
    → has p (still_asleep tasks ps) ≡ true
has-still_asleep tasks p [] h later = absurd (ground arith)
has-still_asleep tasks p (x ∷ ps) h later = elim (Bool-cases (has p ps)) [
  | inl deep ↦ ground (arith, has-still_asleep tasks p ps deep later)
  | inr here ↦ ground arith
]

-- One call, for a task that is asleep.
one_call :
    (k : Kernel) (p : ℕ)
    → IsConsistent k.task_manager
    → has p (contents k.task_manager.pid_queue_sleeping) ≡ true
    → (k' : Kernel) × (check_wakeup k ≡ some k')
      × IsConsistent k'.task_manager
      × ((k'.task_manager.tasks p).wakeup_counter ≡ dec32 (k.task_manager.tasks p).wakeup_counter)
      × ((k'.task_manager.tasks p).state ≡ (
          if dec32 (k.task_manager.tasks p).wakeup_counter == 0
          then state_ready
          else (k.task_manager.tasks p).state))
      × ((dec32 (k.task_manager.tasks p).wakeup_counter == 0) ≡ false
          → has p (contents k'.task_manager.pid_queue_sleeping) ≡ true)
one_call k p c asleep =
    let (k', done, w) = check_wakeup-Woken k c in
    (
      k',
      done,
      w.consistent,
      w.counter p ∙ rw asleep,
      w.state p ∙ rw (has-due tasks p (contents k.task_manager.pid_queue_sleeping) asleep),
      λ later.
          rw (w.sleeping_is)
            (has-still_asleep tasks p (contents k.task_manager.pid_queue_sleeping) asleep later),
    )
  where
    open k.task_manager use {tasks}

-- On a consistent state, with nothing but calls of `check_wakeup`, a sleeping task whose counter is n + 1 is
-- woken by the call number n + 1 and not before: after m calls for any m up to n it is still asleep,
-- and after one more than n it is ready. A counter of 0 stands for 2 ^ 32, since it is decremented
-- before it is tested.
pub sleeps_for :
    (n : ℕ) (k : Kernel) (p : ℕ)
    → IsConsistent k.task_manager
    → has p (contents k.task_manager.pid_queue_sleeping) ≡ true
    → (k.task_manager.tasks p).state ≡ state_sleeping
    → dec32 (k.task_manager.tasks p).wakeup_counter ≡ n
    → ((m : ℕ)
        → m ≤ n
        → (k' : Kernel) × (check_wakeups m k ≡ some k')
          × ((k'.task_manager.tasks p).state ≡ state_sleeping))
      × (k' : Kernel) × (check_wakeups (suc n) k ≡ some k')
      × ((k'.task_manager.tasks p).state ≡ state_ready)
unfolding check_wakeups
sleeps_for zero k p c asleep state e =
    let (k', done, _, _, woken, _) = one_call k p c asleep in
    let over : (dec32 (k.task_manager.tasks p).wakeup_counter == 0) ≡ true = (==_iff _ _).1 e in
    (at_once, k', rw done, woken ∙ rw over)
  where
    at_once :
        (m : ℕ)
        → m ≤ 0
        → (k' : Kernel) × (check_wakeups m k ≡ some k')
          × ((k'.task_manager.tasks p).state ≡ state_sleeping)
    at_once zero h = (k, refl, state)
    at_once (suc m) h = absurd (omega arith)
sleeps_for (suc n) k p c asleep state e =
    let more : (dec32 (k.task_manager.tasks p).wakeup_counter == 0) ≡ false =
      ==_of_ne _ _ (λ z. omega (arith, e, z)) in
    let (k', done, c', counter, now, kept) = one_call k p c asleep in
    let counted : dec32 (k'.task_manager.tasks p).wakeup_counter ≡ n = omega (arith, counter, e) in
    let state' : (k'.task_manager.tasks p).state ≡ state_sleeping = now ∙ rw more state in
    let (early, k'', ends, ready) = sleeps_for n k' p c' (kept more) state' counted in
    (go k' done early, k'', rw done ends, ready)
  where
    go :
        (k' : Kernel)
        → check_wakeup k ≡ some k'
        → ((m : ℕ)
            → m ≤ n
            → (x : Kernel) × (check_wakeups m k' ≡ some x)
              × ((x.task_manager.tasks p).state ≡ state_sleeping))
        → (m : ℕ) → m ≤ suc n
        → (x : Kernel) × (check_wakeups m k ≡ some x)
          × ((x.task_manager.tasks p).state ≡ state_sleeping)
    go k' done early zero h = (k, refl, state)
    go k' done early (suc m) h =
        let (x, ends, asleep) = early m (omega arith) in (x, rw done ends, asleep)
