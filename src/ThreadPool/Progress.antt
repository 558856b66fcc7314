-- ===== src/ThreadPool/Progress.antt =====
-- What the pool promises: tasks are taken in their order, `front` is never called on an empty
-- queue, and the pool does not get stuck.
use school_system.Base.{
  ℕ, ◌-◌, ◌≤◌, ◌<◌, ◌≡◌, refl, ap, ◌∙◌, ◌⊎◌, inl, inr, ◌≢◌, false, List, [], ◌∷◌, ◌++◌, arith, ◌==◌,
  if◌then◌else◌, length, int_mod, Bool-cases,
}
use school_system.ThreadPool.{
  Pool, Phase, starting, waiting, woken, fetching, running, stopped, moves, blocked, turn, fetch,
}
use school_system.ThreadPool.Threads.{System, Reach}
use school_system.ThreadPool.Counters.{count, count-append, one, owes, is_stopped, Inv}
use school_system.ThreadPool.Invariant.{Reach-Inv}

module _ {processors n : ℕ} {s : System} (pos : 0 < processors) (fits : processors < int_mod)
    (r : Reach processors n s) where
  -- In every reachable state the tasks that were put on the queue are, in their order, those that
  -- workers have taken and then those on the queue: each task is taken at most once, none is lost,
  -- and the oldest is taken first. And the pool has no more threads than it was given.
  pub tasks_in_order :
      (s.accepted ≡ s.taken ++ s.pool.task_queue)
      × (count one s.threads ≤ s.pool.max_threads)
      × (s.pool.max_threads ≤ processors)
  tasks_in_order =
      let v = Reach-Inv pos fits r in (v.order, omega (arith, v.threads, v.handles), v.limit)

  -- In every reachable state a worker that is about to take a task finds one: its call of `front`
  -- is defined, and it goes on to run the oldest task.
  pub fetch_defined :
      (before after : List Phase)
      → s.threads ≡ before ++ fetching ∷ after
      → (task : ℕ) × (rest : List ℕ) × (s.pool.task_queue ≡ task ∷ rest)
        × (turn s.pool fetching ≡ moves (record s.pool { task_queue = rest }) (running task))
  unfolding turn
  fetch_defined before after e = nonempty s.pool.task_queue refl
    where
      v : Inv processors s
      v = Reach-Inv pos fits r

      nonempty :
          (q : List ℕ)
          → s.pool.task_queue ≡ q
          → (task : ℕ) × (rest : List ℕ) × (q ≡ task ∷ rest)
            × (fetch s.pool q ≡ moves (record s.pool { task_queue = rest }) (running task))
      nonempty [] f = absurd (
          omega (
            arith,
            v.tasks,
            ap length f,
            ap (count owes) e,
            count-append owes before (fetching ∷ after),
          ))
      nonempty (task ∷ rest) f = (task, rest, refl, refl)

-- Some thread of the list can move.
abbrev pub CanMove : Pool → List Phase → Type 0
CanMove p threads =
    (before : List Phase) × (a : Phase) × (after : List Phase) × (q : Pool) × (b : Phase) × (threads
      ≡ before ++ a ∷ after)
    × (turn p a ≡ moves q b)

pub CanMove-cons : (p : Pool) (a : Phase) (xs : List Phase) → CanMove p xs → CanMove p (a ∷ xs)
CanMove-cons p a xs (before, c, after, q, b, e, m) = (a ∷ before, c, after, q, b, ap (◌∷◌ a) e, m)

-- All of the threads wait for the semaphore, which has no task.
abbrev AllWait : Pool → List Phase → Type 0
AllWait p xs = (count owes xs ≡ 0) × ((count one xs ≡ 0) ⊎ (p.sem_count ≡ 0))

find_mover :
    (p : Pool) (task : ℕ) (rest : List ℕ) (xs : List Phase)
    → p.stop_event ≡ false
    → p.task_queue ≡ task ∷ rest
    → count is_stopped xs ≡ 0
    → CanMove p xs ⊎ AllWait p xs
unfolding turn
find_mover p task rest [] off q alive = inr (refl, inl refl)
find_mover p task rest (starting ∷ xs) off q alive = inl ([], starting, xs, _, waiting, refl, refl)
find_mover p task rest (waiting ∷ xs) off q alive = elim (Bool-cases (p.sem_count == 0)) [
  | inl none ↦ elim (find_mover p task rest xs off q (omega arith)) [
    | inl m ↦ inl (CanMove-cons p waiting xs m)
    | inr w ↦ inr (omega (arith, w.0), inr (ground arith))
  ]
  | inr free ↦ inl (
    [],
    waiting,
    xs,
    record p { sem_count = p.sem_count - 1 },
    woken,
    refl,
    ap
          (λ t.
            if t
            then moves p stopped
            else if p.sem_count == 0
            then blocked
            else moves (record p { sem_count = p.sem_count - 1 }) woken)
          off
        ∙ rw free,
  )
]
find_mover p task rest (woken ∷ xs) off q alive = inl ([], woken, xs, _, fetching, refl, refl)
find_mover p task rest (fetching ∷ xs) off q alive =
    inl ([], fetching, xs, record p { task_queue = rest }, running task, refl, ap (fetch p) q)
find_mover p task rest (running t ∷ xs) off q alive =
    inl ([], running t, xs, p, starting, refl, refl)
find_mover p task rest (stopped ∷ xs) off q alive = absurd (omega arith)

-- The pool does not get stuck, where executions of tasks return: in a reachable state with a task
-- on the queue, outside of `AddTask` and before the pool is destroyed, some worker can move.
pub no_deadlock :
    {processors n : ℕ} {s : System}
    → 0 < processors
    → processors < int_mod
    → Reach processors n s
    → s.checking ≡ false
    → s.pool.stop_event ≡ false
    → s.pool.task_queue ≢ []
    → CanMove s.pool s.threads
no_deadlock {processors} {n} {s} pos fits r free off left = by_queue s.pool.task_queue refl
  where
    v : Inv processors s
    v = Reach-Inv pos fits r

    by_queue : (q : List ℕ) → s.pool.task_queue ≡ q → CanMove s.pool s.threads
    by_queue [] e = absurd (left e)
    by_queue (task ∷ rest) e = elim (find_mover s.pool task rest s.threads off e (v.alive off)) [
      | inl m ↦ m
      | inr w ↦ absurd (
          omega (
            arith,
            ap length e,
            v.tasks,
            v.threads,
            w.0,
            w.1,
            v.served free (omega (arith, ap length e)),
          ))
    ]
