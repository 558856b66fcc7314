-- ===== src/ThreadPool/Counters.antt =====
-- SchoolSystemServer/CThreadPool.cpp: how the counters, the semaphore and the queue of the pool agree
-- with its threads, and what the main thread does to them.
use school_system.Base.{
  ℕ, ◌+◌, ◌≤◌, ◌<◌, ◌≡◌, refl, ap, ◌∙◌, false, ◌&&◌, List, [], ◌∷◌, ◌++◌, append_assoc, append-nil,
  arith, leb, length, length-append, next_int, int_mod, inl, inr, Bool-cases,
}
use school_system.ThreadPool.{
  Phase, starting, waiting, woken, fetching, stopped, enqueue, sem_free, wants_thread, new_pool_of,
}
use school_system.ThreadPool.Threads.{System, submit, check, signal_stop, init}

-- The sum of a weight over the threads.
abbrev pub count : (Phase → ℕ) → List Phase → ℕ
count w [] = 0
count w (a ∷ xs) = w a + count w xs

pub count-append :
    (w : Phase → ℕ) (xs ys : List Phase) → count w (xs ++ ys) ≡ count w xs + count w ys
count-append w [] ys = omega arith
count-append w (a ∷ xs) ys = omega (arith, count-append w xs ys)

-- Between the two changes of `m_nIdleThreads`, or returned from there.
abbrev pub idles : Phase → ℕ
idles waiting = 1
idles woken = 1
idles stopped = 1
idles _ = 0

-- The semaphore was passed for a task that was not taken yet.
abbrev pub owes : Phase → ℕ
owes woken = 1
owes fetching = 1
owes _ = 0

abbrev pub is_stopped : Phase → ℕ
is_stopped stopped = 1
is_stopped _ = 0

abbrev pub one : Phase → ℕ
one _ = 1

pub idle-le : (xs : List Phase) → count idles xs ≤ count one xs
idle-le [] = omega arith
idle-le (a ∷ xs) = ground (arith, idle-le xs)

pub record Inv (processors : ℕ) (s : System) : Type 0 where
  pub fits : processors < int_mod
  pub limit : s.pool.max_threads ≤ processors
  pub some_thread : 0 < s.pool.max_threads
  pub handles : s.pool.cur_threads ≤ s.pool.max_threads
  pub threads : count one s.threads ≡ s.pool.cur_threads
  pub idle : count idles s.threads ≡ s.pool.idle_threads
  pub tasks : length s.pool.task_queue ≡ s.pool.sem_count + count owes s.threads
  pub room : s.pool.sem_count ≤ s.pool.sem_limit
  pub order : s.accepted ≡ s.taken ++ s.pool.task_queue
  pub served : s.checking ≡ false → 0 < length s.pool.task_queue → 0 < s.pool.cur_threads
  pub alive : s.pool.stop_event ≡ false → count is_stopped s.threads ≡ 0

pub init-Inv :
    (processors n : ℕ)
    → 0 < processors
    → processors < int_mod
    → Inv processors (init (new_pool_of processors n))
unfolding new_pool_of
init-Inv processors n pos fits = elim (Bool-cases (leb 1 n && leb n processors)) [
  | inl e ↦ rw e (record {
    fits = fits;
    limit = ground arith;
    some_thread = ground arith;
    handles = omega arith;
    threads = refl;
    idle = refl;
    tasks = refl;
    room = omega arith;
    order = refl;
    served = λ _ h. h;
    alive = λ _. refl;
  })
  | inr e ↦ rw e (record {
    fits = fits;
    limit = omega arith;
    some_thread = pos;
    handles = omega arith;
    threads = refl;
    idle = refl;
    tasks = refl;
    room = omega arith;
    order = refl;
    served = λ _ h. h;
    alive = λ _. refl;
  })
]

module _ {k : ℕ} {s : System} (v : Inv k s) where
  pub submit-Inv : (task : ℕ) → Inv k (submit task s)
  unfolding enqueue
  submit-Inv task = elim (Bool-cases (sem_free s.pool)) [
    | inl e ↦ rw e (record {
      fits = v.fits;
      limit = v.limit;
      some_thread = v.some_thread;
      handles = v.handles;
      threads = v.threads;
      idle = v.idle;
      tasks = omega (arith, v.tasks, length-append s.pool.task_queue (task ∷ []));
      room = ground arith;
      order = ap (λ l. l ++ task ∷ []) v.order ∙ append_assoc s.taken s.pool.task_queue (task ∷ []);
      served = λ h. cc;
      alive = v.alive;
    })
    | inr e ↦ rw e (record {
      fits = v.fits;
      limit = v.limit;
      some_thread = v.some_thread;
      handles = v.handles;
      threads = v.threads;
      idle = v.idle;
      tasks = v.tasks;
      room = v.room;
      order = append-nil s.accepted ∙ v.order;
      served = λ h. cc;
      alive = v.alive;
    })
  ]

  pub check-Inv : Inv k (check s)
  check-Inv = elim (Bool-cases (wants_thread s.pool)) [
    | inl e ↦
        let more : next_int s.pool.cur_threads ≡ s.pool.cur_threads + 1 =
          ground (arith, v.fits, v.limit, v.handles) in
        rw e (record {
          fits = v.fits;
          limit = v.limit;
          some_thread = v.some_thread;
          handles = ground (arith, more);
          threads = omega (arith, more, v.threads, count-append one s.threads (starting ∷ []));
          idle = omega (arith, v.idle, count-append idles s.threads (starting ∷ []));
          tasks = omega (arith, v.tasks, count-append owes s.threads (starting ∷ []));
          room = v.room;
          order = v.order;
          served = λ _ _. omega (arith, more);
          alive = λ h. omega (arith, v.alive h, count-append is_stopped s.threads (starting ∷ []));
        })
    | inr e ↦ rw e (record {
      fits = v.fits;
      limit = v.limit;
      some_thread = v.some_thread;
      handles = v.handles;
      threads = v.threads;
      idle = v.idle;
      tasks = v.tasks;
      room = v.room;
      order = v.order;
      served = λ _ _. ground (arith, v.idle, v.threads, v.some_thread, idle-le s.threads);
      alive = v.alive;
    })
  ]

  pub stop-Inv : Inv k (signal_stop s)
  stop-Inv = record {
    fits = v.fits;
    limit = v.limit;
    some_thread = v.some_thread;
    handles = v.handles;
    threads = v.threads;
    idle = v.idle;
    tasks = v.tasks;
    room = v.room;
    order = v.order;
    served = v.served;
    alive = λ h. cc;
  }
