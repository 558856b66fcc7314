-- ===== src/Server/Loop.antt =====
-- SchoolSystemServer/CServer.cpp, the loop of `CServer::CServer`, which the main thread runs: it
-- selects a client, reads its statement and gives it to the pool. A turn ends where the thread may
-- wait or where the workers may come between.
pub mod Serving
use school_system.Base.{ℕ, List, [], ◌∷◌, ◌++◌, Option, none, some, Bool, length, if◌then◌else◌}
use school_system.Tcp.Address.{SockAddr}
use school_system.Tcp.Conn.{ConnMap}
use school_system.Tcp.Socket.{TcpSocket, Receipt, waits, gets, undefined, and_then}
use school_system.Tcp.Server.{poll}
use school_system.ThreadPool.Threads
use school_system.ThreadPool.Threads.{System, submit, check}
use school_system.Mysql.{MysqlApi}
use school_system.Tcp.Server.{Network, Request}
use school_system.ThreadPool.{new_pool}
use school_system.Server.Tables.{init}
use school_system.Server.Requests.{recv_int, recv_sql}
use school_system.Server.Tasks.{SqlTask, new_sql_task}

-- Where the main thread stands.
pub data MainPhase : Type 0 where
  selecting : MainPhase  -- before `Select`
  reading_len : SockAddr → MainPhase  -- before the first `Recv`
  reading_sql : SockAddr → ℕ → MainPhase  -- before the second
  adding : SockAddr → List ℕ → MainPhase  -- before `AddTask`
  checking : MainPhase  -- in `AddTask`, behind the critical section

-- The members of `CServer` that the loop works on. The pool's tasks are numbers, which count the
-- tasks that were made: `tasks` lists these.
pub record Main : Type 0 where
  pub phase : MainPhase
  pub socket : TcpSocket
  pub pool : System
  pub tasks : List SqlTask

abbrev chosen : Main → Option (SockAddr × ConnMap) → Receipt Main
chosen m none = waits
chosen m (some (a, map')) =
    gets (record m { phase = reading_len a; socket = record m.socket { connect_map = map' } })

abbrev with_len : Main → SockAddr → ℕ × TcpSocket → Receipt Main
with_len m a (n, s) = gets (record m { phase = reading_sql a n; socket = s })

abbrev with_sql : Main → SockAddr → List ℕ × TcpSocket → Receipt Main
with_sql m a (sql, s) = gets (record m { phase = adding a sql; socket = s })

-- `new CSqlTask(this, addr, string(buf))`, and the first part of `AddTask`
abbrev added : Main → SockAddr → List ℕ → Main
added m a sql = record m {
  phase = checking;
  pool = submit (length m.tasks) m.pool;
  tasks = m.tasks ++ new_sql_task a sql ∷ [];
}

abbrev pub turn_at : MainPhase → Main → Receipt Main
turn_at selecting m = chosen m (poll m.socket.connect_map)
turn_at (reading_len a) m = and_then (recv_int m.socket a) (with_len m a)
turn_at (reading_sql a n) m = and_then (recv_sql m.socket a n) (with_sql m a)
turn_at (adding a sql) m = gets (added m a sql)
turn_at checking m = gets (record m { phase = selecting; pool = check m.pool })

-- A turn of the main thread.
unfoldable pub main_turn : Main → Receipt Main
main_turn m = turn_at m.phase m

-- Five turns make a round of the loop.
unfoldable pub round : Main → Receipt Main
round m = and_then (main_turn m) λ m1.
    and_then (main_turn m1) λ m2. and_then (main_turn m2) λ m3. and_then (main_turn m3) main_turn

module _ {S : Type 0} (api : MysqlApi S) where
  -- Where the loop begins: no packet has arrived, and the pool has no thread.
  abbrev pub main_at_start : ℕ → Main
  main_at_start processors = record {
    phase = selecting;
    socket = record { connect_map = []; send_list = [] };
    pool = Threads.init (new_pool processors);
    tasks = [];
  }

  abbrev initialised : ℕ → Bool × S × List Request → Option Main × S
  initialised processors (ok, st, requests) =
      (if ok then some (main_at_start processors) else none, st)

  -- `CServer::CServer` up to its loop, and `main`: if `Init` fails, the server ends.
  unfoldable pub new_server : Network → ℕ → S → Option Main × S
  new_server net processors st = initialised processors (init api net st)
