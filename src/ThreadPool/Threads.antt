-- ===== src/ThreadPool/Threads.antt =====
-- The server's main thread and the workers of its pool, interleaved in any order.
use school_system.Base.{ℕ, ◌≡◌, Bool, true, false, List, [], ◌∷◌, ◌++◌, if◌then◌else◌}
use school_system.ThreadPool.{
  Pool, Phase, starting, moves, turn, enqueue, sem_free, wants_thread, with_thread, new_pool_of,
}

-- `checking` says that the main thread is in `AddTask`, behind the critical section. The lists
-- `accepted` and `taken` are a record of the past: the tasks put on the queue, and those that
-- workers took from it.
pub record System : Type 0 where
  pub pool : Pool
  pub threads : List Phase
  pub checking : Bool
  pub accepted : List ℕ
  pub taken : List ℕ

-- The tasks that a worker takes by entering a phase.
abbrev pub takes : Phase → Phase → List ℕ
takes Phase.fetching (Phase.running task) = task ∷ []
takes a b = []

-- `AddTask`, first part.
abbrev pub submit : ℕ → System → System
submit task s = record s {
  pool = enqueue task s.pool;
  checking = true;
  accepted = s.accepted ++ (if sem_free s.pool then task ∷ [] else []);
}

-- `AddTask`, second part.
abbrev pub check : System → System
check s =
    if wants_thread s.pool
    then record s {
      pool = with_thread s.pool;
      threads = s.threads ++ starting ∷ [];
      checking = false;
    }
    else record s { checking = false }

-- The destructor's `SetEvent(m_hSem[0])`
abbrev pub signal_stop : System → System
signal_stop s = record s { pool = record s.pool { stop_event = true } }

pub data Step (s t : System) : Type 0 where
  submits : (task : ℕ) → s.checking ≡ false → t ≡ submit task s → Step s t
  checks : s.checking ≡ true → t ≡ check s → Step s t
  works :
      (before : List Phase) (a b : Phase) (after : List Phase) (p : Pool)
      → s.threads ≡ before ++ a ∷ after
      → turn s.pool a ≡ moves p b
      → t ≡ record s { pool = p; threads = before ++ b ∷ after; taken = s.taken ++ takes a b }
      → Step s t
  stops : s.checking ≡ false → t ≡ signal_stop s → Step s t

abbrev pub init : Pool → System
init p = record { pool = p; threads = []; checking = false; accepted = []; taken = [] }

pub data Reach (processors n : ℕ) : System → Type 0 where
  start : Reach processors n (init (new_pool_of processors n))
  next : {s t : System} → Reach processors n s → Step s t → Reach processors n t
