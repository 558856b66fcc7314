-- ===== src/Tests/Pool.antt =====
-- SchoolSystemServer/CThreadPool.cpp: a run of a pool of two threads with one task.
use school_system.Base.{true, ℕ, ◌*◌, ◌≤◌, ◌≡◌, refl, false, List, [], ◌∷◌, ◌++◌, arith}
use school_system.ThreadPool.{
  Pool, Phase, starting, waiting, woken, fetching, running, moves, turn, enqueue, new_pool,
  new_pool_of,
}
use school_system.ThreadPool.Threads.{
  System, submit, check, submits, checks, works, stops, signal_stop, init, Reach, start, next,
}
use school_system.ThreadPool.Counters.{count, one}
use school_system.ThreadPool.{all_stopped, drop_pool}
use school_system.Base.{some}
use school_system.ThreadPool.Shutdown.{Runs, shutdown}
use school_system.ThreadPool.Progress.{CanMove, tasks_in_order, fetch_defined, no_deadlock}

-- Task 7 was put on the queue, and a thread was made for it.
abbrev asked : System
asked = check (submit 7 (init (new_pool_of 2 0)))

asked-Reach : Reach 2 0 asked
asked-Reach = next (next start (submits 7 refl refl)) (checks refl refl)

abbrev served_pool : ℕ → ℕ → Pool
served_pool idle sem = record {
  max_threads = 2;
  cur_threads = 1;
  idle_threads = idle;
  task_queue = 7 ∷ [];
  stop_event = false;
  sem_count = sem;
  sem_limit = 2000;
}

abbrev at_phase : Pool → Phase → System
at_phase p a = record {
  pool = p;
  threads = a ∷ [];
  checking = false;
  accepted = 7 ∷ [];
  taken = [];
}

-- The thread is about to take the task.
abbrev about : System
about = at_phase (served_pool 0 0) fetching

about-Reach : Reach 2 0 about
unfolding turn enqueue new_pool_of new_pool
about-Reach =
    next
      (next (next asked-Reach (works [] starting waiting [] (served_pool 1 1) refl refl refl))
        (works [] waiting woken [] (served_pool 1 0) refl refl refl))
      (works [] woken fetching [] (served_pool 0 0) refl refl refl)

tasks_in_order_example : (about.accepted ≡ [] ++ 7 ∷ []) × (count one (fetching ∷ []) ≤ 2) × (2 ≤ 2)
tasks_in_order_example = tasks_in_order (omega arith) (omega arith) about-Reach

fetch_defined_example :
    (task : ℕ) × (rest : List ℕ) × (7 ∷ [] ≡ task ∷ rest)
    × (turn (served_pool 0 0) fetching
        ≡ moves (record (served_pool 0 0) { task_queue = rest }) (running task))
fetch_defined_example = fetch_defined (omega arith) (omega arith) about-Reach [] [] refl

no_deadlock_example : CanMove (served_pool 0 0) (fetching ∷ [])
no_deadlock_example = no_deadlock (omega arith) (omega arith) about-Reach refl refl (λ e. cc)

-- The pool is destroyed while the thread is about to take the task.
abbrev ending : System
ending = signal_stop about

shutdown_example :
    (n : ℕ) × (t : System) × (left : List ℕ) × Runs ending n t
    × (n ≤ 5 * 2)
    × (all_stopped t.threads ≡ true)
    × (drop_pool t.pool t.threads ≡ some left)
    × (ending.accepted ≡ t.taken ++ left)
shutdown_example = shutdown (omega arith) (omega arith) (next about-Reach (stops refl refl)) refl
