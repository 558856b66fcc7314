-- ===== src/Server/Threads.antt =====
-- The server as a whole: the main thread of CServer.cpp, the workers of CThreadPool.cpp with the
-- tasks that they execute, and the two threads of the socket, in any interleaving of their turns.
pub mod Parts
pub mod Requests
pub mod Clients
pub mod Places
pub mod Ownership
pub mod Executions
use school_system.Base.{
  ℕ, ◌<◌, ◌≡◌, Bool, true, false, Option, none, some, List, [], ◌∷◌, ◌++◌, ◌>>=◌, length, ltb,
  if◌then◌else◌, int_bytes, int_mod,
}
use school_system.Mysql.{MysqlApi, MysqlRes, query_result}
use school_system.Tcp.Address.{SockAddr}
use school_system.Tcp.Packet.{DataPacket}
use school_system.Tcp.Conn.{conn_at}
use school_system.Tcp.Socket.{TcpSocket, gets, Answers, resend, goes_on, on_packet, send}
use school_system.Tcp.Server.{Network, unselect}
use school_system.ThreadPool.{Pool, Phase, starting, running, moves, turn}
use school_system.ThreadPool.Threads.{System, takes}
use school_system.Server.Results.{in_buffer, field_bytes, rows_bytes}
use school_system.Server.Tasks.{SqlTask, new_sql_task, free_client}
use school_system.Server.Loop.{MainPhase, adding, Main, main_turn, new_server}

-- The calls of `Send` that bring an answer to the client, in order: the bytes of each.
abbrev pub block_sends : List ℕ → List (List ℕ)
block_sends b = int_bytes (length b) ∷ b ∷ []

unfoldable pub answer_sends : ℕ → Option MysqlRes → Option (List (List ℕ))
answer_sends n none = some (int_bytes n ∷ [])
answer_sends n (some res) = in_buffer (field_bytes res.fields) >>= λ fields.
    rows_bytes res.rows >>= in_buffer >>= λ rows. some (block_sends fields ++ block_sends rows)

-- How far `CSqlTask::Execute` has come: before `Query`; before `Send`, for what is left of the answer;
-- before `UnSelect`, when nothing is left; and at its end.
pub data Stage : Type 0 where
  asking : Stage
  answering : List (List ℕ) → Stage
  finished : Stage

-- A task that was made, whether a worker has it or not.
pub record Job : Type 0 where
  pub task : SqlTask
  pub stage : Stage

-- `jobs` has the tasks of `main.tasks` under the same numbers.
pub record ServerState (S : Type 0) : Type 0 where
  pub main : Main
  pub jobs : List Job
  pub database : S

-- A worker that is in `Execute`: the job of the task that its phase names.
pub record Execution {S : Type 0} (s : ServerState S) : Type 0 where
  pub before : List Job
  pub job : Job
  pub after : List Job
  pub made : s.jobs ≡ before ++ job ∷ after
  pub workers : List Phase
  pub other_workers : List Phase
  pub at_work : s.main.pool.threads ≡ workers ++ running (length before) ∷ other_workers

-- The job of a worker, if it has one, is finished.
abbrev pub IsOver : List Job → Phase → Type 0
IsOver jobs (running task) =
    (before : List Job) × (job : Job) × (after : List Job) × (jobs ≡ before ++ job ∷ after)
    × (length before ≡ task)
    × (job.stage ≡ finished)
IsOver jobs a = Unit {0}

-- `new CSqlTask`, when the main thread calls `AddTask`
abbrev pub new_jobs : MainPhase → List Job
new_jobs (adding a sql) = record { task = new_sql_task a sql; stage = asking } ∷ []
new_jobs p = []

abbrev pub with_socket : {S : Type 0} → ServerState S → TcpSocket → ServerState S
with_socket s k = record s { main = record s.main { socket = k } }

abbrev pub with_pool : {S : Type 0} → ServerState S → System → ServerState S
with_pool s p = record s { main = record s.main { pool = p } }

abbrev pub with_stage : {S : Type 0} → (s : ServerState S) → Execution s → Stage → ServerState S
with_stage s x g = record s { jobs = x.before ++ record x.job { stage = g } ∷ x.after }

module _ {S : Type 0} (api : MysqlApi S) where
  -- One turn of one thread.
  pub data Step (s t : ServerState S) : Type 0 where
    main_moves :
        (m : Main)
        → main_turn s.main ≡ gets m
        → t ≡ record s { main = m; jobs = s.jobs ++ new_jobs s.main.phase }
        → Step s t
    hears :
        (from : SockAddr) (p : DataPacket) (ok : Bool)
        → (on_packet s.main.socket from p ok).ending ≡ goes_on
        → t ≡ with_socket s (on_packet s.main.socket from p ok).socket
        → Step s t
    resends :
        (w : Answers)
        → t
          ≡ with_socket s
              (record s.main.socket { send_list = (resend w 0 s.main.socket.send_list).nodes })
        → Step s t
    works :
        (before : List Phase) (a b : Phase) (after : List Phase) (p : Pool)
        → s.main.pool.threads ≡ before ++ a ∷ after
        → turn s.main.pool.pool a ≡ moves p b
        → IsOver s.jobs a
        → t
          ≡ with_pool s (record s.main.pool {
            pool = p;
            threads = before ++ b ∷ after;
            taken = s.main.pool.taken ++ takes a b;
          })
        → Step s t
    asks :
        (x : Execution s) (n : ℕ) (res : Option MysqlRes) (st : S) (bs : List (List ℕ))
        → x.job.stage ≡ asking
        → query_result api x.job.task.sql s.database ≡ (n, res, st)
        → answer_sends n res ≡ some bs
        → t ≡ record (with_stage s x (answering bs)) { database = st }
        → Step s t
    answers :
        (x : Execution s) (b : List ℕ) (bs : List (List ℕ)) (k : TcpSocket) (n : ℕ)
        → x.job.stage ≡ answering (b ∷ bs)
        → send s.main.socket x.job.task.addr b (length b) ≡ some (k, n)
        → t ≡ with_socket (with_stage s x (answering bs)) k
        → Step s t
    frees :
        (x : Execution s)
        → x.job.stage ≡ answering []
        → length (conn_at x.job.task.addr s.main.socket.connect_map).byte_stream.vt_buf < int_mod
        → t ≡ with_socket (with_stage s x finished) (free_client x.job.task.addr s.main.socket)
        → Step s t

  -- The states that a server reaches whose `Init` succeeded.
  pub data Reach (net : Network) (processors : ℕ) (st : S) : ServerState S → Type 0 where
    start :
        (m : Main) (db : S)
        → new_server api net processors st ≡ (some m, db)
        → Reach net processors st (record { main = m; jobs = []; database = db })
    next : {s t : ServerState S} → Reach net processors st s → Step s t → Reach net processors st t
