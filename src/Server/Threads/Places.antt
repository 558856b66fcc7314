-- ===== src/Server/Threads/Places.antt =====
-- Where a task can be: in the queue, or with a worker.
use school_system.Base.{
  ℕ, suc, ◌+◌, ◌≤◌, ◌≡◌, sym, ap, ◌∙◌, inl, inr, Bool-cases, Option-cases, List, [], ◌∷◌, ◌++◌,
  append-nil, map, length, ltb, ◌==◌, if◌then◌else◌, arith,
}
use school_system.Tcp.Socket.Reception.{of_gets}
use school_system.Tcp.Server.{poll}
use school_system.Tcp.Socket.{gets}
use school_system.ThreadPool.{
  Pool, Phase, starting, waiting, woken, fetching, running, stopped, moves, turn, fetch, enqueue,
  sem_free, wants_thread,
}
use school_system.ThreadPool.Threads.{System, submit, check}
use school_system.ThreadPool.Counters.{count, count-append}
use school_system.Server.Requests.{recv_int, recv_sql}
use school_system.Server.Loop.{
  MainPhase, selecting, reading_len, reading_sql, adding, checking, Main, turn_at,
}
use school_system.Server.Threads.{new_jobs}
use school_system.Server.Threads.Parts.{and_then-gets}

-- Whether a worker executes task `n`.
abbrev pub runs : ℕ → Phase → ℕ
runs n (running task) = if task == n then 1 else 0
runs n a = 0

-- How often task `n` stands in the queue.
abbrev pub queued : ℕ → List ℕ → ℕ
queued n [] = 0
queued n (task ∷ l) = (if task == n then 1 else 0) + queued n l

pub queued-append : (n : ℕ) (l k : List ℕ) → queued n (l ++ k) ≡ queued n l + queued n k
queued-append n [] k = omega arith
queued-append n (task ∷ l) k = omega (arith, queued-append n l k)

-- 1, if task `n` was made.
abbrev pub made_of : ℕ → ℕ → ℕ
made_of n k = if ltb n k then 1 else 0

-- Task `n` is in one place at most, and in none before it is made.
abbrev pub IsOwned : ℕ → System → ℕ → Type 0
IsOwned n s k = count (runs n) s.threads + queued n s.pool.task_queue ≤ made_of n k

module _ (n : ℕ) where
  pub submit-IsOwned : (s : System) (k : ℕ) → IsOwned n s k → IsOwned n (submit k s) (suc k)
  unfolding enqueue
  submit-IsOwned s k h = elim (Bool-cases (sem_free s.pool)) [
    | inl e ↦ rw e (ground (arith, queued-append n s.pool.task_queue (k ∷ [])))
    | inr e ↦ rw e (ground arith)
  ]

  pub check-IsOwned : (s : System) (k : ℕ) → IsOwned n s k → IsOwned n (check s) k
  check-IsOwned s k h = elim (Bool-cases (wants_thread s.pool)) [
    | inl e ↦ rw e (omega (arith, count-append (runs n) s.threads (starting ∷ [])))
    | inr e ↦ rw e h
  ]

  -- What a turn does to the places of a task.
  fetch-runs :
      (p : Pool) (l : List ℕ) (q : Pool) (b : Phase)
      → fetch p l ≡ moves q b
      → runs n b + queued n q.task_queue ≡ queued n l
  fetch-runs p [] q b e = cc
  fetch-runs p (task ∷ l) q b e = ground arith

  pub turn-runs :
      (p : Pool) (a : Phase) (q : Pool) (b : Phase)
      → turn p a ≡ moves q b
      → runs n b + queued n q.task_queue ≤ runs n a + queued n p.task_queue
  unfolding turn
  turn-runs p starting q b e = ground arith
  turn-runs p waiting q b e = ground arith
  turn-runs p woken q b e = ground arith
  turn-runs p fetching q b e = omega (arith, fetch-runs p p.task_queue q b e)
  turn-runs p (running task) q b e = ground arith
  turn-runs p stopped q b e = ground arith

-- The pool after a turn of the main thread.
abbrev pub pool_after : MainPhase → Main → System
pool_after (adding a sql) m = submit (length m.tasks) m.pool
pool_after checking m = check m.pool
pool_after p m = m.pool

pub turn_at-tasks :
    (p : MainPhase) (m m' : Main)
    → turn_at p m ≡ gets m'
    → (m'.pool ≡ pool_after p m) × (m'.tasks ≡ m.tasks ++ map (λ j. j.task) (new_jobs p))
turn_at-tasks selecting m m' e = elim (Option-cases (poll m.socket.connect_map)) [
  | inl n ↦ let f = rw n at e in cc
  | inr ((b, map'), found) ↦
      let f = of_gets (rw found at e) in
      (ap (λ m. m.pool) (sym f), ap (λ m. m.tasks) (sym f) ∙ sym (append-nil m.tasks))
]
turn_at-tasks (reading_len b) m m' e =
    let (_, _, f) = and_then-gets (recv_int m.socket b) _ e in
    (
      ap (λ m. m.pool) (sym (of_gets f)),
      ap (λ m. m.tasks) (sym (of_gets f)) ∙ sym (append-nil m.tasks),
    )
turn_at-tasks (reading_sql b len) m m' e =
    let (_, _, f) = and_then-gets (recv_sql m.socket b len) _ e in
    (
      ap (λ m. m.pool) (sym (of_gets f)),
      ap (λ m. m.tasks) (sym (of_gets f)) ∙ sym (append-nil m.tasks),
    )
turn_at-tasks (adding b sql) m m' e =
    (ap (λ m. m.pool) (sym (of_gets e)), ap (λ m. m.tasks) (sym (of_gets e)))
turn_at-tasks checking m m' e = (
  ap (λ m. m.pool) (sym (of_gets e)),
  ap (λ m. m.tasks) (sym (of_gets e)) ∙ sym (append-nil m.tasks),
)
