-- ===== src/Tests/Threads.antt =====
-- The server as a whole: a statement arrives in one packet, and a worker takes its task.
use school_system.Base.{
  ℕ, ◌+◌, ◌≤◌, ◌≡◌, ◌≢◌, refl, true, Option, some, List, [], ◌∷◌, ◌++◌, length, c_string, map,
  int_bytes, arith,
}
use school_system.Mysql
use school_system.Mysql.{MysqlRes, query, query_result}
use school_system.Tcp.Address.{less}
use school_system.Tcp.ByteStream.{write, push_bytes, read, get_size}
use school_system.Tcp.Packet.{DataPacket}
use school_system.Tcp.Conn.{conn_at, modify, in_use}
use school_system.Tcp.Receive.{on_data, deliver, drain}
use school_system.Tcp.Socket.{Receipt, waits, gets, undefined, recv, take_bytes, on_packet}
use school_system.Tcp.Socket.Reception.{stream_at}
use school_system.Tcp.Server.{listen, poll}
use school_system.ThreadPool.{
  Pool, Phase, Turn, moves, blocked, starting, waiting, woken, fetching, running, new_pool, enqueue,
  turn,
}
use school_system.ThreadPool.Threads.{takes}
use school_system.ThreadPool.Counters.{count}
use school_system.Server.Tables.{init, create_tables, run_statements}
use school_system.Server.Requests.{message, int_over, recv_int, recv_sql}
use school_system.Server.Tasks.{execute}
use school_system.Server.Loop.{Main, main_turn, main_at_start, new_server}
use school_system.Server.Threads.{
  asking, finished, answer_sends, with_pool, ServerState, Execution, Reach, start, next, main_moves,
  hears, works,
}
use school_system.Server.Threads.Requests.{held, open_jobs, served}
use school_system.Server.Threads.Clients.{one_request}
use school_system.Server.Threads.Places.{runs, queued}
use school_system.Server.Threads.Ownership.{task_owned}
use school_system.Server.Threads.Executions.{Runs, execute-Runs}
use school_system.Tests.Messages.{log_api, good_network, client, use_test}

abbrev database : List (List ℕ)
database = (new_server log_api good_network 2 []).1

abbrev at_start : ServerState (List (List ℕ))
at_start = record { main = main_at_start log_api 2; jobs = []; database = database }

server_starts : new_server log_api good_network 2 [] ≡ (some (main_at_start log_api 2), database)
unfolding new_server init create_tables run_statements Mysql.init query listen
server_starts = refl

abbrev statement_packet : DataPacket
statement_packet = record { n_type = 2; n_seq = 0; n_len = 14; bytes = message use_test }

abbrev got : Receipt Main → Main → Main
got waits m = m
got (gets m') m = m'
got undefined m = m

abbrev heard : Main
heard = record (main_at_start log_api 2) {
  socket = (on_packet (main_at_start log_api 2).socket client statement_packet true).socket;
}

abbrev turned : Main → Main
turned m = got (main_turn m) m

abbrev added : ServerState (List (List ℕ))
added = record {
  main = turned (turned (turned (turned (turned heard))));
  jobs = record { task = record { addr = client; sql = use_test }; stage = asking } ∷ [];
  database = database;
}

added-Reach : Reach log_api good_network 2 [] added
unfolding main_turn on_packet conn_at modify less on_data deliver drain write push_bytes poll
    recv_int recv_sql recv take_bytes read get_size int_over c_string enqueue new_pool
added-Reach =
    next
      (next
        (next
          (next
            (next
              (next (start (main_at_start log_api 2) database server_starts)
                (hears client statement_packet true refl refl))
              (main_moves (turned heard) refl refl))
            (main_moves (turned (turned heard)) refl refl))
          (main_moves (turned (turned (turned heard))) refl refl))
        (main_moves (turned (turned (turned (turned heard)))) refl refl))
      (main_moves (turned (turned (turned (turned (turned heard))))) refl refl)

abbrev pool_of : Turn → Pool → Pool
pool_of (moves p b) q = p
pool_of blocked q = q
pool_of Turn.undefined q = q

-- The only worker makes a turn, from one phase to the next.
abbrev worked : Phase → Phase → ServerState (List (List ℕ)) → ServerState (List (List ℕ))
worked a b s = with_pool s (record s.main.pool {
  pool = pool_of (turn s.main.pool.pool a) s.main.pool.pool;
  threads = b ∷ [];
  taken = s.main.pool.taken ++ takes a b;
})

abbrev at_work : ServerState (List (List ℕ))
at_work =
    worked fetching (running 0)
      (worked woken fetching (worked waiting woken (worked starting waiting added)))

at_work-Reach : Reach log_api good_network 2 [] at_work
unfolding main_turn on_packet conn_at modify less on_data deliver drain write push_bytes poll
    recv_int recv_sql recv take_bytes read get_size int_over c_string enqueue new_pool turn
at_work-Reach =
    next
      (next
        (next (next added-Reach (works [] starting waiting [] _ refl refl tt refl))
          (works [] waiting woken [] _ refl refl tt refl))
        (works [] woken fetching [] _ refl refl tt refl))
      (works [] fetching (running 0) [] _ refl refl tt refl)

one_request_example :
    (held client at_work.main.phase + open_jobs client at_work.jobs
      ≤ served (conn_at client at_work.main.socket.connect_map).status)
    × (served (conn_at client at_work.main.socket.connect_map).status ≤ 1)
one_request_example = one_request at_work-Reach client

only_worker : at_work.main.pool.threads ≡ [] ++ running 0 ∷ []
only_worker = refl

task_owned_example :
    (x : Execution at_work) × (length x.before ≡ 0)
    × (at_work.main.tasks ≡ map (λ j. j.task) x.before ++ x.job.task ∷ map (λ j. j.task) x.after)
    × (count (runs 0) ([] ++ []) ≡ 0)
    × (queued 0 at_work.main.pool.pool.task_queue ≡ 0)
task_owned_example = task_owned at_work-Reach 0 [] [] only_worker

abbrev first_job : Execution at_work
first_job = record {
  before = [];
  job = record { task = record { addr = client; sql = use_test }; stage = asking };
  after = [];
  made = refl;
  workers = [];
  other_workers = [];
  at_work = refl;
}

unheard : length (stream_at client at_work.main.socket) ≡ 0
unfolding main_turn on_packet conn_at modify less on_data deliver drain write push_bytes poll
    recv_int recv_sql recv take_bytes read get_size int_over c_string enqueue new_pool turn
unheard = refl

abbrev asked : ℕ × Option MysqlRes × List (List ℕ)
asked = query_result log_api use_test database

answer_is : answer_sends asked.0 asked.1 ≡ some (int_bytes asked.0 ∷ [])
unfolding answer_sends query_result
answer_is = refl

execute-Runs_example :
    (t : ServerState (List (List ℕ))) × Runs log_api 0 at_work t
    × (execute log_api first_job.job.task database at_work.main.socket
        ≡ some (t.database, t.main.socket))
    × (t.jobs ≡ [] ++ record first_job.job { stage = finished } ∷ [])
    × (t.main.pool.pool ≡ at_work.main.pool.pool)
    × (t.main.pool.threads ≡ [] ++ starting ∷ [])
    × ((conn_at client t.main.socket.connect_map).status ≢ in_use)
execute-Runs_example =
    execute-Runs log_api at_work first_job (int_bytes asked.0 ∷ []) refl answer_is
      (omega (arith, unheard))
