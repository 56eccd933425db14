-- ===== src/Sched/Ticks.antt =====
-- How many timer interrupts a sleeping task sleeps for: `on_timer` of kernel/time/time.c, with the wake-ups
-- and the time slices of kernel/proc/sched.c.
use weg_os.Base.{
  ℕ, zero, suc, ◌+◌, ◌≤◌, ◌^◌, ◌%◌, ◌≡◌, ◌≢◌, refl, sym, subst, ap, ◌∙◌, arith, true, false, Array,
  Option, some, ◌>>=◌, List, [], ◌∷◌, ◌++◌, append-nil, ◌==◌, Bool-cases, inl, inr, ==_iff,
  ==_of_ne,
}
use weg_os.PidQueue.{not_found}
use weg_os.PidQueue.Ring.{contents}
use weg_os.PidQueue.Search.{has}
use weg_os.Task.{Kernel, Task, state_ready}
use weg_os.Sched.{dec32, on_timer, check_task_affairs, check_schedule, time_piece_over}
use weg_os.Sched.Queues.{IsConsistent, AllIn}
use weg_os.Sched.Sleep.{has-due, has-still_asleep}
use weg_os.Sched.Switch.{schedule-Scheduled}
use weg_os.Sched.Wakeup.Lists.{due, still_asleep}
use weg_os.Sched.Wakeup.Loop.{check_wakeup-Woken}

-- So many timer interrupts.
unfoldable pub timer_ticks : ℕ → Kernel → Option Kernel
timer_ticks zero k = some k
timer_ticks (suc n) k = (on_timer k) >>= λ k'. timer_ticks n k'

not-has-still_asleep :
    (tasks : Array Task) (p : ℕ) (ps : List ℕ)
    → (dec32 (tasks p).wakeup_counter == 0) ≡ true
    → has p (still_asleep tasks ps) ≡ false
not-has-still_asleep tasks p [] over = refl
not-has-still_asleep tasks p (x ∷ ps) over = ground (arith, not-has-still_asleep tasks p ps over)

has-append_left : (p : ℕ) (xs ys : List ℕ) → has p xs ≡ true → has p (xs ++ ys) ≡ true
has-append_left p [] ys h = absurd (ground arith)
has-append_left p (x ∷ xs) ys h = elim (Bool-cases (has p xs)) [
  | inl deep ↦ ground (arith, has-append_left p xs ys deep)
  | inr here ↦ ground arith
]

has-append_right : (p : ℕ) (xs ys : List ℕ) → has p ys ≡ true → has p (xs ++ ys) ≡ true
has-append_right p [] ys h = h
has-append_right p (x ∷ xs) ys h = ground (arith, has-append_right p xs ys h)

-- A task is on the processor and another is ready.
abbrev pub IsBusy : Kernel → Type 0
IsBusy k =
    IsConsistent k.task_manager
    × (k.task_manager.pid_running ≢ not_found)
    × ((best : ℕ) × (rest : List ℕ) × (contents k.task_manager.pid_queue_ready ≡ best ∷ rest))

first_ready_found :
    (k : Kernel) (best : ℕ) (rest : List ℕ)
    → IsConsistent k.task_manager
    → contents k.task_manager.pid_queue_ready ≡ best ∷ rest
    → best ≢ not_found
first_ready_found k best rest c first e =
    let (bound, _, _) = subst (AllIn k.task_manager.tasks state_ready) first c.ready.all_in in
    absurd (omega (arith, e))

ends_with : (rest : List ℕ) (r : ℕ) → (b : ℕ) × (bs : List ℕ) × (rest ++ (r ∷ []) ≡ b ∷ bs)
ends_with [] r = (r, [], refl)
ends_with (x ∷ xs) r = (x, xs ++ (r ∷ []), refl)

-- What the end of a tick leaves: the system busy, those that sleep, the counters, and the tasks that were
-- ready behind the first.
abbrev Kept : Kernel → List ℕ → Kernel → Type 0
Kept k rest k' =
    IsBusy k'
    × (contents k'.task_manager.pid_queue_sleeping ≡ contents k.task_manager.pid_queue_sleeping)
    × ((p : ℕ) → (k'.task_manager.tasks p).wakeup_counter ≡ (k.task_manager.tasks p).wakeup_counter)
    × ((p : ℕ) → has p rest ≡ true → has p (contents k'.task_manager.pid_queue_ready) ≡ true)

check_schedule-Kept :
    (k : Kernel) (best : ℕ) (rest : List ℕ)
    → IsConsistent k.task_manager
    → k.task_manager.pid_running ≢ not_found
    → contents k.task_manager.pid_queue_ready ≡ best ∷ rest
    → (k' : Kernel) × (check_schedule k ≡ some k') × Kept k rest k'
unfolding check_schedule
check_schedule-Kept k best rest c runs first =
    let counted : Kernel = record k {
      task_manager = record (k.task_manager) {
        schdule_counter = dec32 k.task_manager.schdule_counter;
      };
    } in
    let c1 : IsConsistent counted.task_manager = record {
      ready = c.ready;
      blocked = c.blocked;
      sleeping = c.sleeping;
      running = c.running;
      sleeping_head = c.sleeping_head;
      room = c.room;
    } in
    elim (Bool-cases (dec32 k.task_manager.schdule_counter == 0)) [
      | inl over ↦
          let (k', done, s) = schedule-Scheduled counted time_piece_over best rest c1 first in
          let ready : contents k'.task_manager.pid_queue_ready
              ≡ rest ++ (k.task_manager.pid_running ∷ []) =
            s.ready_is ∙ rw (==_of_ne _ _ runs) refl in
          let (b, bs, e) = ends_with rest k.task_manager.pid_running in
          (
            k',
            rw over done,
            (
              (
                s.consistent,
                λ e. first_ready_found k best rest c first (sym s.runs ∙ e),
                (b, bs, ready ∙ e),
              ),
              s.sleeping_is ∙ rw (==_of_ne _ _ runs) (append-nil _),
              s.counters_are,
              λ p h. ap (has p) ready ∙ has-append_left p rest (k.task_manager.pid_running ∷ []) h,
            ),
          )
      | inr more ↦ (
        counted,
        rw more refl,
        (
          (c1, runs, (best, rest, first)),
          refl,
          λ p. refl,
          λ p h. ap (has p) first ∙ has-append_right p (best ∷ []) rest h,
        ),
      )
    ]

-- One tick, for a task that is asleep.
tick :
    (k : Kernel) (p : ℕ)
    → IsBusy k
    → has p (contents k.task_manager.pid_queue_sleeping) ≡ true
    → let over = dec32 (k.task_manager.tasks p).wakeup_counter == 0 in
      (k' : Kernel) × (on_timer k ≡ some k')
      × IsBusy k'
      × ((k'.task_manager.tasks p).wakeup_counter ≡ dec32 (k.task_manager.tasks p).wakeup_counter)
      × (over ≡ false → has p (contents k'.task_manager.pid_queue_sleeping) ≡ true)
      × (over ≡ true
          → (has p (contents k'.task_manager.pid_queue_sleeping) ≡ false)
            × (has p (contents k'.task_manager.pid_queue_ready) ≡ true))
unfolding on_timer check_task_affairs
tick k p (c, runs, (best, rest, first)) asleep =
    let tasks = k.task_manager.tasks in
    let ps = contents k.task_manager.pid_queue_sleeping in
    let (k1, woke, w) = check_wakeup-Woken (record k { ticks = (k.ticks + 1) % 2 ^ 32 }) c in
    let ready : contents k1.task_manager.pid_queue_ready ≡ best ∷ (rest ++ due tasks ps) =
      w.ready_is ∙ ap (λ qs. qs ++ due tasks ps) first in
    let (k2, done, (busy, sleeping, counters, kept)) =
      check_schedule-Kept k1 best (rest ++ due tasks ps) w.consistent
        (λ e. runs (sym w.running_is ∙ e)) ready in
    (
      k2,
      rw woke done,
      busy,
      counters p ∙ w.counter p ∙ rw asleep,
      λ later. ap (has p) (sleeping ∙ w.sleeping_is) ∙ has-still_asleep tasks p ps asleep later,
      λ over. (
        ap (has p) (sleeping ∙ w.sleeping_is) ∙ not-has-still_asleep tasks p ps over,
        kept p (has-append_right p rest (due tasks ps) (has-due tasks p ps asleep ∙ over)),
      ),
    )

-- On a consistent state with a task on the processor and another ready, a sleeping task whose counter is
-- n + 1 is woken by the timer interrupt number n + 1 and not before: after m of them, for any m up to n,
-- it is in the sleeping queue; and after one more than n it is in the ready queue and sleeps no more.
-- The interrupts return, and leave the state consistent, whoever runs. A counter of 0 stands for 2 ^ 32,
-- since it is decremented before it is tested.
pub sleeps_for_ticks :
    (n : ℕ) (k : Kernel) (p : ℕ)
    → IsBusy k
    → has p (contents k.task_manager.pid_queue_sleeping) ≡ true
    → dec32 (k.task_manager.tasks p).wakeup_counter ≡ n
    → ((m : ℕ)
        → m ≤ n
        → (k' : Kernel) × (timer_ticks m k ≡ some k')
          × IsConsistent k'.task_manager
          × (has p (contents k'.task_manager.pid_queue_sleeping) ≡ true))
      × (k' : Kernel) × (timer_ticks (suc n) k ≡ some k')
      × IsConsistent k'.task_manager
      × (has p (contents k'.task_manager.pid_queue_sleeping) ≡ false)
      × (has p (contents k'.task_manager.pid_queue_ready) ≡ true)
unfolding timer_ticks
sleeps_for_ticks zero k p busy asleep e =
    let (k', done, busy', _, _, woken) = tick k p busy asleep in
    let (gone, ready) = woken ((==_iff _ _).1 e) in
    (at_once, k', rw done refl, busy'.0, gone, ready)
  where
    at_once :
        (m : ℕ)
        → m ≤ 0
        → (k' : Kernel) × (timer_ticks m k ≡ some k')
          × IsConsistent k'.task_manager
          × (has p (contents k'.task_manager.pid_queue_sleeping) ≡ true)
    at_once zero h = (k, refl, busy.0, asleep)
    at_once (suc m) h = absurd (omega arith)
sleeps_for_ticks (suc n) k p busy asleep e =
    let more : (dec32 (k.task_manager.tasks p).wakeup_counter == 0) ≡ false =
      ==_of_ne _ _ (λ z. omega (arith, e, z)) in
    let (k', done, busy', counter, kept, _) = tick k p busy asleep in
    let counted : dec32 (k'.task_manager.tasks p).wakeup_counter ≡ n = omega (arith, counter, e) in
    let (early, k'', ends, c, gone, ready) = sleeps_for_ticks n k' p busy' (kept more) counted in
    (go k' done early, k'', rw done ends, c, gone, ready)
  where
    go :
        (k' : Kernel)
        → on_timer k ≡ some k'
        → ((m : ℕ)
            → m ≤ n
            → (x : Kernel) × (timer_ticks m k' ≡ some x)
              × IsConsistent x.task_manager
              × (has p (contents x.task_manager.pid_queue_sleeping) ≡ true))
        → (m : ℕ) → m ≤ suc n
        → (x : Kernel) × (timer_ticks m k ≡ some x)
          × IsConsistent x.task_manager
          × (has p (contents x.task_manager.pid_queue_sleeping) ≡ true)
    go k' done early zero h = (k, refl, busy.0, asleep)
    go k' done early (suc m) h =
        let (x, ends, c, sleeping) = early m (omega arith) in (x, rw done ends, c, sleeping)
