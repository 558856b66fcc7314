-- ===== src/Server/Tasks.antt =====
-- SchoolSystemServer/CServer.cpp, `CSqlTask`: a statement of a client, and its execution.
use school_system.Base.{
  ℕ, sym, ◌∙◌, ap, Option, none, some, List, ◌>>=◌, int_bytes, Holds, Bool, true, false, ◌==◌,
  if◌then◌else◌, ◌≢◌,
}
use school_system.Mysql.{MysqlApi, MysqlRes, query_result}
use school_system.Tcp.Address.{SockAddr}
use school_system.Tcp.Conn.{Conn, no_data, has_data, in_use, conn_at}
use school_system.Tcp.Conn.Laws.{conn_at-modify_self}
use school_system.Tcp.ByteStream.{get_size}
use school_system.Tcp.Socket.{TcpSocket, send}
use school_system.Tcp.Server.{unselect, released}
use school_system.Server.Results.{send_res}

-- `CSqlTask`, without the pointer to the server
pub record SqlTask : Type 0 where
  pub addr : SockAddr
  pub sql : List ℕ

-- `CSqlTask::CSqlTask`
abbrev pub new_sql_task : SockAddr → List ℕ → SqlTask
new_sql_task addr sql = record { addr = addr; sql = sql }

-- `CSqlTask::Abort`: nothing is done, and nobody is told.
abbrev abort : SqlTask → ℕ
abort t = 0

-- `m_tcpServer.UnSelect(m_addr)`
abbrev pub free_client : SockAddr → TcpSocket → TcpSocket
free_client addr s = record s { connect_map = unselect addr s.connect_map }

-- The answer: the number of rows, or the result set.
abbrev pub answer : ℕ → Option MysqlRes → SockAddr → TcpSocket → Option TcpSocket
answer n none addr s = send s addr (int_bytes n) 4 >>= λ r. some r.0
answer n (some res) addr s = send_res res addr s

free_status : (b : Bool) → (if b then no_data else has_data) ≢ in_use
free_status true e = cc
free_status false e = cc

released_free : (c : Conn) → (released c).status ≢ in_use
released_free c e = free_status (get_size c.byte_stream == 0) e

free_client_free :
    (addr : SockAddr) (s : TcpSocket)
    → (conn_at addr (free_client addr s).connect_map).status ≢ in_use
unfolding unselect
free_client_free addr s e =
    released_free (conn_at addr s.connect_map)
      (ap (λ c. c.status) (sym (conn_at-modify_self addr released s.connect_map)) ∙ e)

module _ {S : Type 0} (api : MysqlApi S) where
  abbrev executed : SqlTask → TcpSocket → ℕ × Option MysqlRes × S → Option (S × TcpSocket)
  executed t s (n, res, st) = answer n res t.addr s >>= λ s'. some (st, free_client t.addr s')

  -- `CSqlTask::Execute`
  unfoldable pub execute : SqlTask → S → TcpSocket → Option (S × TcpSocket)
  execute t st s = executed t s (query_result api t.sql st)

  freed :
      (t : SqlTask) (st : S) (o : Option TcpSocket)
      → Holds {A = S × TcpSocket}
          (λ r. (conn_at t.addr r.1.connect_map).status ≢ in_use)
          (o >>= λ s'. some (st, free_client t.addr s'))
  freed t st none = tt
  freed t st (some s') = free_client_free t.addr s'

  -- When a statement has been executed, whether it failed, gave a number or gave a result set, and
  -- its answer was put on the send list, its client is not marked as being served any more.
  pub execute_frees :
      (t : SqlTask) (st : S) (s : TcpSocket)
      → Holds {A = S × TcpSocket}
          (λ r. (conn_at t.addr r.1.connect_map).status ≢ in_use)
          (execute t st s)
  unfolding execute
  execute_frees t st s =
      freed t (query_result api t.sql st).2
        (answer (query_result api t.sql st).0 (query_result api t.sql st).1 t.addr s)
