-- ===== src/ThreadPool.antt =====
-- SchoolSystemServer/CThreadPool.h and CThreadPool.cpp: a pool of worker threads over a queue of
-- tasks. A task is named by a number, which stands for its pointer.
pub mod Threads
pub mod Counters
pub mod Invariant
pub mod Progress
pub mod Shutdown
use school_system.Base.{
  ℕ, ◌+◌, ◌-◌, ◌*◌, ◌%◌, Bool, true, false, ◌&&◌, ◌||◌, Option, none, some, List, [], ◌∷◌, ◌++◌,
  ltb, leb, ◌==◌, if◌then◌else◌, next_int, int_mod,
}

-- The members of `CThreadPool`. The handles of `m_hSem` are given by the state of their objects:
-- the event, and the count and the limit of the semaphore.
pub record Pool : Type 0 where
  pub max_threads : ℕ
  pub cur_threads : ℕ
  pub idle_threads : ℕ
  pub task_queue : List ℕ
  pub stop_event : Bool
  pub sem_count : ℕ
  pub sem_limit : ℕ

-- `CThreadPool()`, on a machine with `processors` processors. The limit of the semaphore is handed over as
-- a `LONG`, which it fits below 2147484 processors.
unfoldable pub new_pool : ℕ → Pool
new_pool processors = record {
  max_threads = processors;
  cur_threads = 0;
  idle_threads = 0;
  task_queue = [];
  stop_event = false;
  sem_count = 0;
  sem_limit = processors * 1000 % int_mod;
}

-- `CThreadPool(nMaxThreads)`: a number of threads that is out of range is ignored.
unfoldable pub new_pool_of : ℕ → ℕ → Pool
unfolding new_pool
new_pool_of processors n =
    if leb 1 n && leb n (new_pool processors).max_threads
    then record (new_pool processors) { max_threads = n }
    else new_pool processors

-- `ReleaseSemaphore(m_hSem[1], 1, NULL)` succeeds as long as the limit is not reached.
abbrev pub sem_free : Pool → Bool
sem_free p = ltb p.sem_count p.sem_limit

-- The critical section of `AddTask`. At the limit the task is dropped.
unfoldable pub enqueue : ℕ → Pool → Pool
enqueue task p =
    if sem_free p
    then record p { sem_count = p.sem_count + 1; task_queue = p.task_queue ++ task ∷ [] }
    else p

-- Whether `AddTask` goes on to create a thread.
abbrev pub wants_thread : Pool → Bool
wants_thread p = p.idle_threads == 0 && ltb p.cur_threads p.max_threads

-- `m_pThreadHandles[m_nCurThreads++] = CreateThread(...)`
abbrev pub with_thread : Pool → Pool
with_thread p = record p { cur_threads = next_int p.cur_threads }

-- Where a worker stands in the loop of `ThreadProc`.
pub data Phase : Type 0 where
  starting : Phase  -- before `InterlockedIncrement`
  waiting : Phase  -- in `WaitForMultipleObjects`
  woken : Phase  -- before `InterlockedDecrement`
  fetching : Phase  -- before the critical section
  running : (task : ℕ) → Phase  -- in `Execute`
  stopped : Phase  -- after the return

-- A turn of a worker: it moves, it is blocked, or it calls `front` of an empty queue.
pub data Turn : Type 0 where
  moves : Pool → Phase → Turn
  blocked : Turn
  undefined : Turn

-- The critical section of `ThreadProc`.
abbrev pub fetch : Pool → List ℕ → Turn
fetch p [] = undefined
fetch p (task ∷ rest) = moves (record p { task_queue = rest }) (running task)

-- `ThreadProc`, a turn at a time. The event goes before the semaphore. Both counters are of type
-- `unsigned int`, and wrap.
unfoldable pub turn : Pool → Phase → Turn
turn p starting = moves (record p { idle_threads = next_int p.idle_threads }) waiting
turn p waiting =
    if p.stop_event
    then moves p stopped
    else if p.sem_count == 0
    then blocked
    else moves (record p { sem_count = p.sem_count - 1 }) woken
turn p woken =
    moves (record p { idle_threads = (p.idle_threads + (int_mod - 1)) % int_mod }) fetching
turn p fetching = fetch p p.task_queue
turn p (running task) = moves p starting
turn p stopped = blocked

-- The loop of the destructor over the tasks that are left: `Abort` is called on each, from the front.
unfoldable pub abort_all : List ℕ → List ℕ
abort_all [] = []
abort_all (task ∷ rest) = task ∷ abort_all rest

abbrev pub has_stopped : Phase → Bool
has_stopped stopped = true
has_stopped a = false

abbrev pub all_stopped : List Phase → Bool
all_stopped [] = true
all_stopped (a ∷ xs) = has_stopped a && all_stopped xs

-- `MAXIMUM_WAIT_OBJECTS`
abbrev maximum_wait_objects : ℕ
maximum_wait_objects = 64

-- `~CThreadPool`, after the event has been set: the tasks that it aborts, or `none` while it waits for
-- the threads. A wait for more than 64 handles fails, and the destructor goes on at once.
unfoldable pub drop_pool : Pool → List Phase → Option (List ℕ)
drop_pool p threads =
    if ltb maximum_wait_objects p.cur_threads || all_stopped threads
    then some (abort_all p.task_queue)
    else none
