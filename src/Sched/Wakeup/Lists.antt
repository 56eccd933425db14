-- ===== src/Sched/Wakeup/Lists.antt =====
-- The sleeping tasks as a list: those that a tick wakes, those that it leaves asleep, and what taking
-- one out of the middle of a queue leaves.
use weg_os.Base.{
  ℕ, zero, suc, ◌+◌, ◌<◌, ◌≡◌, refl, ap, arith, false, Array, update, List, [], ◌∷◌, ◌++◌, length,
  ◌==◌, if◌then◌else◌,
}
use weg_os.PidQueue.{max_gdt_terms, inc}
use weg_os.PidQueue.Ring.{run_of}
use weg_os.PidQueue.Search.{has}
use weg_os.PidQueue.Delete.{remove_at}
use weg_os.Task.{Task, TaskState}
use weg_os.Sched.{dec32}
use weg_os.Sched.Queues.{AllIn, AreDistinct}

-- The tasks whose counter reaches 0 when it is decremented, in order.
abbrev pub due : Array Task → List ℕ → List ℕ
due tasks [] = []
due tasks (p ∷ ps) = if dec32 (tasks p).wakeup_counter == 0 then p ∷ due tasks ps else due tasks ps

-- The others, in order.
abbrev pub still_asleep : Array Task → List ℕ → List ℕ
still_asleep tasks [] = []
still_asleep tasks (p ∷ ps) =
    if dec32 (tasks p).wakeup_counter == 0 then still_asleep tasks ps else p ∷ still_asleep tasks ps

pub due-update :
    (tasks : Array Task) (pid : ℕ) (t : Task) (ps : List ℕ)
    → has pid ps ≡ false
    → due (update tasks pid t) ps ≡ due tasks ps
due-update tasks pid t [] out = refl
due-update tasks pid t (p ∷ ps) out = ground (arith, due-update tasks pid t ps)

pub still_asleep-update :
    (tasks : Array Task) (pid : ℕ) (t : Task) (ps : List ℕ)
    → has pid ps ≡ false
    → still_asleep (update tasks pid t) ps ≡ still_asleep tasks ps
still_asleep-update tasks pid t [] out = refl
still_asleep-update tasks pid t (p ∷ ps) out = ground (arith, still_asleep-update tasks pid t ps)

pub not-has-due :
    (tasks : Array Task) (pid : ℕ) (ps : List ℕ)
    → has pid ps ≡ false
    → has pid (due tasks ps) ≡ false
not-has-due tasks pid [] out = refl
not-has-due tasks pid (p ∷ ps) out = ground (arith, not-has-due tasks pid ps)

pub entry_in_run :
    (a : Array ℕ) (i n j p : ℕ) (pre ps : List ℕ)
    → j ≡ i + length pre
    → j < max_gdt_terms
    → run_of a i n ≡ pre ++ (p ∷ ps)
    → a j ≡ p
entry_in_run a i zero j p [] ps e h same = cc
entry_in_run a i zero j p (x ∷ pre) ps e h same = cc
entry_in_run a i (suc n) j p [] ps e h same = let here : j ≡ i = omega arith in rw here (cc)
entry_in_run a i (suc n) j p (x ∷ pre) ps e h same =
    entry_in_run a (inc i) n j p pre ps (omega arith) h (cc)

pub remove_at-middle :
    (pre ps : List ℕ) (p : ℕ) → remove_at (length pre) (pre ++ (p ∷ ps)) ≡ pre ++ ps
remove_at-middle [] ps p = refl
remove_at-middle (x ∷ pre) ps p = ap (λ l. x ∷ l) (remove_at-middle pre ps p)

pub AllIn-middle :
    (tasks : Array Task) (s : TaskState) (pre ps : List ℕ) (p : ℕ)
    → AllIn tasks s (pre ++ (p ∷ ps))
    → (p < max_gdt_terms) × ((tasks p).state ≡ s) × AllIn tasks s (pre ++ ps)
AllIn-middle tasks s [] ps p h = h
AllIn-middle tasks s (x ∷ pre) ps p (bound, state, rest) =
    let (b, st, r) = AllIn-middle tasks s pre ps p rest in (b, st, (bound, state, r))

pub has-middle :
    (a : ℕ) (pre ps : List ℕ) (p : ℕ)
    → has a (pre ++ (p ∷ ps)) ≡ false
    → (has a (pre ++ ps) ≡ false) × ((p == a) ≡ false)
has-middle a [] ps p h = ground arith
has-middle a (x ∷ pre) ps p h = ground (arith, has-middle a pre ps p)

pub AreDistinct-middle :
    (pre ps : List ℕ) (p : ℕ)
    → AreDistinct (pre ++ (p ∷ ps))
    → (has p (pre ++ ps) ≡ false) × AreDistinct (pre ++ ps)
AreDistinct-middle [] ps p h = h
AreDistinct-middle (x ∷ pre) ps p (out, rest) =
    let (gone, d) = AreDistinct-middle pre ps p rest in
    let (away, ne) = has-middle x pre ps p out in (ground arith, (away, d))

pub not-has-suffix : (a : ℕ) (pre ps : List ℕ) → has a (pre ++ ps) ≡ false → has a ps ≡ false
not-has-suffix a [] ps h = h
not-has-suffix a (x ∷ pre) ps h = not-has-suffix a pre ps (ground arith)
