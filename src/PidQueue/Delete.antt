-- ===== src/PidQueue/Delete.antt =====
-- `pid_queue_delete`: the entries behind the slot move down by one and the tail goes back by one.
use Prim.Native.Nat.add
use weg_os.Base.{
  ℕ, zero, suc, ◌+◌, ◌-◌, ◌%◌, ◌^◌, ◌≤◌, ◌<◌, ◌≡◌, ◌≢◌, refl, sym, ap, ap₂, ◌∙◌, arith, Array,
  update, update_self, update_ne, none, some, List, [], ◌∷◌, ◌++◌, length,
}
use weg_os.PidQueue.{PidQueue, max_gdt_terms, inc, delete_loop, pid_queue_delete}
use weg_os.PidQueue.Ring.{
  run_of, steps, contents, IsValid, length-run_of, run_of-append, run_of-agree,
  run_of-update_outside,
}

-- The list without its entry at position k.
abbrev pub remove_at : ℕ → List ℕ → List ℕ
remove_at k [] = []
remove_at zero (x ∷ xs) = xs
remove_at (suc k) (x ∷ xs) = x ∷ remove_at k xs

-- The array after m rounds of the loop from slot j on.
shifted : ℕ → ℕ → Array ℕ → Array ℕ
shifted zero j a = a
shifted (suc m) j a = shifted m (inc j) (update a j (a (inc j)))

delete_loop-shifted :
    (m rounds j tail : ℕ) (a : Array ℕ)
    → j < max_gdt_terms
    → tail < max_gdt_terms
    → m ≡ steps j tail
    → m < rounds
    → delete_loop rounds j tail a ≡ some (shifted m j a)
unfolding delete_loop shifted
delete_loop-shifted m zero j tail a hj ht e fuel = absurd (omega arith)
delete_loop-shifted zero (suc rounds) j tail a hj ht e fuel =
    let done : j ≡ tail = omega arith in ground arith
delete_loop-shifted (suc m) (suc rounds) j tail a hj ht e fuel =
    let more : j ≢ tail = omega arith in
    ground (
      arith,
      delete_loop-shifted m rounds (inc j) tail (update a j (a (inc j))) (omega arith) ht
          (omega arith) (omega arith),
    )

shifted-outside :
    (m j : ℕ) (a : Array ℕ) (x : ℕ)
    → j < max_gdt_terms
    → x < max_gdt_terms
    → m ≤ steps j x
    → shifted m j a x ≡ a x
unfolding shifted
shifted-outside zero j a x hj hx out = refl
shifted-outside (suc m) j a x hj hx out =
    shifted-outside m (inc j) (update a j (a (inc j))) x (omega arith) hx (omega arith)
    ∙ update_ne a j x (a (inc j)) (omega arith)

shifted-run_of :
    (l m j : ℕ) (a : Array ℕ)
    → j < max_gdt_terms
    → l ≤ m
    → m < max_gdt_terms
    → run_of (shifted m j a) j l ≡ run_of a (inc j) l
unfolding shifted
shifted-run_of zero m j a hj hl hm = refl
shifted-run_of (suc l) zero j a hj hl hm = absurd (omega arith)
shifted-run_of (suc l) (suc m) j a hj hl hm =
    ap₂ ◌∷◌
      (shifted-outside m (inc j) (update a j (a (inc j))) j (omega arith) hj (omega arith)
        ∙ update_self a j (a (inc j)))
      (shifted-run_of l m (inc j) (update a j (a (inc j))) (omega arith) (omega arith) (omega arith)
        ∙ run_of-update_outside a (inc (inc j)) l j (a (inc j)) (omega arith) (omega arith) hj
            (omega arith))

remove_at-run_of :
    (k n i j : ℕ) (a : Array ℕ)
    → i < max_gdt_terms
    → j ≡ (i + k) % max_gdt_terms
    → remove_at k (run_of a i (k + suc n)) ≡ run_of a i k ++ run_of a (inc j) n
remove_at-run_of zero n i j a hi e =
    let same : i ≡ j = omega arith in rw add.zero (ap (λ (x : ℕ). run_of a (inc x) n) same)
remove_at-run_of (suc k) n i j a hi e =
    rw add.suc (ap (λ l. a i ∷ l) (remove_at-run_of k n (inc i) j a (omega arith) (omega arith)))

-- What `shifted` leaves of a run from `h` of k entries before slot i, the entry at i and n more.
shifted-remove_at :
    (k n h i : ℕ) (a : Array ℕ)
    → h < max_gdt_terms
    → i ≡ (h + k) % max_gdt_terms
    → k + suc n < max_gdt_terms
    → run_of (shifted (suc n) i a) h (k + n) ≡ remove_at k (run_of a h (k + suc n))
shifted-remove_at k n h i a hh e fits =
    run_of-append (shifted (suc n) i a) h k n i hh e
    ∙ ap₂ ◌++◌ front (shifted-run_of n (suc n) i a (omega arith) (omega arith) (omega arith))
    ∙ sym (remove_at-run_of k n h i a hh e)
  where
    front : run_of (shifted (suc n) i a) h k ≡ run_of a h k
    front =
        run_of-agree (shifted (suc n) i a) a h k hh (omega arith)
          λ x hx near. shifted-outside (suc n) i a x (omega arith) hx (omega arith)

-- On a valid queue whose tail is not slot 0, `pid_queue_delete` of the slot at position k ends, keeps
-- the queue valid and its head where it is, and takes the pid at that position out of the queue.
pub contents-pid_queue_delete :
    {q : PidQueue} (k i : ℕ)
    → IsValid q
    → q.tail ≢ 0
    → k < length (contents q)
    → i ≡ (q.head + k) % max_gdt_terms
    → (q' : PidQueue) × (pid_queue_delete q i ≡ some q')
      × IsValid q'
      × (contents q' ≡ remove_at k (contents q))
      × (q'.head ≡ q.head)
unfolding pid_queue_delete
contents-pid_queue_delete {q} k i v ne hk e = (
  after,
  rw (done, pid_queue_delete),
  record { head_in = v.head_in; tail_in = omega (arith, v.tail_in) },
  ap (run_of after.pids q.head) left
      ∙ shifted-remove_at k n q.head i q.pids v.head_in e (omega (arith, count))
      ∙ ap (λ m. remove_at k (run_of q.pids q.head m)) (sym held),
  refl,
)
  where
    open v use {head_in, tail_in}

    count : length (contents q) ≡ steps q.head q.tail
    count = length-run_of q.pids q.head (steps q.head q.tail)

    n : ℕ
    n = steps q.head q.tail - k - 1

    held : steps q.head q.tail ≡ k + suc n
    held = omega (arith, count)

    after : PidQueue
    after = record q { pids = shifted (suc n) i q.pids; tail = (q.tail + 2 ^ 16 - 1) % 2 ^ 16 }

    left : steps q.head after.tail ≡ k + n
    left = omega (arith, held)

    done : delete_loop (max_gdt_terms + 1) i q.tail q.pids ≡ some (shifted (suc n) i q.pids)
    done =
        delete_loop-shifted (suc n) (max_gdt_terms + 1) i q.tail q.pids (omega arith) tail_in
          (omega (arith, held, count)) (omega (arith, held))

-- When the tail is slot 0 the decrement wraps: the queue that `pid_queue_delete` leaves has its tail
-- outside the array, and is not valid.
pub pid_queue_delete-wraps :
    (q : PidQueue) (i : ℕ)
    → i < max_gdt_terms
    → q.tail ≡ 0
    → (q' : PidQueue) × (pid_queue_delete q i ≡ some q') × (q'.tail ≡ 2 ^ 16 - 1) × ¬ IsValid q'
unfolding pid_queue_delete
pid_queue_delete-wraps q i hi e = (
  record q { pids = shifted (steps i q.tail) i q.pids; tail = (q.tail + 2 ^ 16 - 1) % 2 ^ 16 },
  rw (done, pid_queue_delete),
  omega arith,
  λ v. omega (arith, v.tail_in),
)
  where
    done :
        delete_loop (max_gdt_terms + 1) i q.tail q.pids ≡ some (shifted (steps i q.tail) i q.pids)
    done =
        delete_loop-shifted (steps i q.tail) (max_gdt_terms + 1) i q.tail q.pids hi (omega arith)
          refl (omega arith)

-- With the tail outside the array the loop of `pid_queue_delete` never ends, however many rounds it is
-- given.
pub delete_loop-endless :
    (rounds j tail : ℕ) (a : Array ℕ)
    → j < max_gdt_terms
    → max_gdt_terms ≤ tail
    → delete_loop rounds j tail a ≡ none
unfolding delete_loop
delete_loop-endless zero j tail a hj ht = refl
delete_loop-endless (suc rounds) j tail a hj ht =
    ground
      (arith, delete_loop-endless rounds (inc j) tail (update a j (a (inc j))) (omega arith) ht)

-- `pid_queue_delete` of any slot returns as long as the tail lies in the array, and moves the tail back.
pub pid_queue_delete-returns :
    (q : PidQueue) (i : ℕ)
    → i < max_gdt_terms
    → q.tail < max_gdt_terms
    → (q' : PidQueue) × (pid_queue_delete q i ≡ some q')
      × (q'.tail ≡ (q.tail + 2 ^ 16 - 1) % 2 ^ 16)
      × (q'.head ≡ q.head)
unfolding pid_queue_delete
pid_queue_delete-returns q i hi ht = (
  record q { pids = shifted (steps i q.tail) i q.pids; tail = (q.tail + 2 ^ 16 - 1) % 2 ^ 16 },
  rw (done, pid_queue_delete) refl,
  refl,
  refl,
)
  where
    done :
        delete_loop (max_gdt_terms + 1) i q.tail q.pids ≡ some (shifted (steps i q.tail) i q.pids)
    done =
        delete_loop-shifted (steps i q.tail) (max_gdt_terms + 1) i q.tail q.pids hi ht refl
          (omega arith)
