-- ===== src/PidQueue/Ring.antt =====
-- The ring of slots: the runs of slots that a queue holds, and what a write does to them.
use Prim.Native.Nat.add
use weg_os.Base.{
  ℕ, zero, suc, ◌+◌, ◌-◌, ◌%◌, ◌≤◌, ◌<◌, ◌≡◌, ◌≢◌, refl, ap, ap₂, arith, Array, update, update_ne,
  List, [], ◌∷◌, ◌++◌, length,
}
use weg_os.PidQueue.{PidQueue, max_gdt_terms, inc}

-- The n entries from slot i on, going round.
abbrev pub run_of : Array ℕ → ℕ → ℕ → List ℕ
run_of a i zero = []
run_of a i (suc n) = a i ∷ run_of a (inc i) n

-- How many steps lead from slot i to slot j.
abbrev pub steps : ℕ → ℕ → ℕ
steps i j = (j + max_gdt_terms - i) % max_gdt_terms

-- The pids in the queue, oldest first.
abbrev pub contents : PidQueue → List ℕ
contents q = run_of q.pids q.head (steps q.head q.tail)

-- Both indices lie in the array.
pub record IsValid (q : PidQueue) : Type 0 where
  pub head_in : q.head < max_gdt_terms
  pub tail_in : q.tail < max_gdt_terms

pub length-run_of : (a : Array ℕ) (i n : ℕ) → length (run_of a i n) ≡ n
length-run_of a i zero = refl
length-run_of a i (suc n) = ap suc (length-run_of a (inc i) n)

pub run_of-snoc :
    (a : Array ℕ) (i n j : ℕ)
    → i < max_gdt_terms
    → j ≡ (i + n) % max_gdt_terms
    → run_of a i (suc n) ≡ run_of a i n ++ (a j ∷ [])
run_of-snoc a i zero j hi e = ap (λ (k : ℕ). a k ∷ []) (omega arith)
run_of-snoc a i (suc n) j hi e =
    ap (λ l. a i ∷ l) (run_of-snoc a (inc i) n j (omega arith) (omega arith))

pub run_of-append :
    (a : Array ℕ) (i m n j : ℕ)
    → i < max_gdt_terms
    → j ≡ (i + m) % max_gdt_terms
    → run_of a i (m + n) ≡ run_of a i m ++ run_of a j n
run_of-append a i zero n j hi e =
    let same : i ≡ j = omega arith in rw add.zero (ap (λ (k : ℕ). run_of a k n) same)
run_of-append a i (suc m) n j hi e =
    rw add.suc (ap (λ l. a i ∷ l) (run_of-append a (inc i) m n j (omega arith) (omega arith)))

-- Arrays that agree on a run have the same run.
pub run_of-agree :
    (a b : Array ℕ) (i n : ℕ)
    → i < max_gdt_terms
    → n ≤ max_gdt_terms
    → ((j : ℕ) → j < max_gdt_terms → steps i j < n → a j ≡ b j)
    → run_of a i n ≡ run_of b i n
run_of-agree a b i zero hi hn same = refl
run_of-agree a b i (suc n) hi hn same =
    ap₂ ◌∷◌ (same i hi (omega arith))
      (run_of-agree a b (inc i) n (omega arith) (omega arith) λ j hj h. same j hj (omega arith))

pub run_of-update_outside :
    (a : Array ℕ) (i n j v : ℕ)
    → i < max_gdt_terms
    → n ≤ max_gdt_terms
    → j < max_gdt_terms
    → n ≤ steps i j
    → run_of (update a j v) i n ≡ run_of a i n
run_of-update_outside a i n j v hi hn hj out =
    run_of-agree (update a j v) a i n hi hn λ k hk h. update_ne a j k v (λ e. omega arith)

pub contents-empty : (q : PidQueue) → IsValid q → q.head ≡ q.tail → contents q ≡ []
contents-empty q v e =
    let none_left : steps q.head q.tail ≡ 0 = omega (arith, v.head_in) in
    ap (run_of q.pids q.head) none_left

pub contents-cons :
    (q : PidQueue)
    → IsValid q
    → q.head ≢ q.tail
    → contents q ≡ q.pids q.head ∷ run_of q.pids (inc q.head) (steps (inc q.head) q.tail)
contents-cons q v ne =
    let one_more : steps q.head q.tail ≡ suc (steps (inc q.head) q.tail) =
      omega (arith, v.head_in, v.tail_in) in
    ap (run_of q.pids q.head) one_more
