-- ===== src/Server/Threads/Clients.antt =====
-- The server's main thread and its workers share the clients: `Select` takes one, and `UnSelect` gives
-- it back at the end of `CSqlTask::Execute`.
use school_system.Base.{ℕ, ◌+◌, ◌≤◌, sym, subst, [], ◌∷◌, ◌++◌, length, arith, Holds}
use school_system.Mysql.{MysqlApi}
use school_system.Tcp.Address.{SockAddr}
use school_system.Tcp.Conn.{conn_at}
use school_system.Tcp.Socket.{on_packet}
use school_system.Tcp.Socket.Taken.{Taken, on_packet-Taken, send-Taken}
use school_system.Tcp.Server.{Network}
use school_system.Tcp.System.Invariant.{Reach-IsValid}
use school_system.Tcp.Conn.Laws.{Ordered}
use school_system.Server.Loop.{main_turn}
use school_system.Server.Threads.{
  answering, ServerState, Step, main_moves, hears, resends, works, asks, answers, frees, Reach,
  start, next,
}
use school_system.Server.Threads.Parts.{Reach-IsProjected, new_server-starts}
use school_system.Server.Threads.Requests.{
  held, open_jobs, served, served_bound, Kept, Kept-socket, turn_at-Kept, free-Kept, stage-Kept,
}

-- The state as this invariant sees it.
abbrev IsKept : {S : Type 0} → SockAddr → ServerState S → Type 0
IsKept a s = Kept a s.main.phase s.jobs s.main.socket

module _ {S : Type 0} (api : MysqlApi S) (a : SockAddr) where
  Step-IsKept :
      {s t : ServerState S}
      → Step api s t
      → Ordered s.main.socket.connect_map
      → IsKept a s
      → IsKept a t
  unfolding main_turn
  Step-IsKept {s} (main_moves m e f) o h =
      subst (IsKept a) (sym f) (turn_at-Kept a s.main.phase s.jobs s.main m o e h)
  Step-IsKept {s} (hears from p ok on f) o h = subst (IsKept a) (sym f) (
      Kept-socket a s.main.phase s.jobs s.main.socket (on_packet s.main.socket from p ok).socket
        (on_packet-Taken a s.main.socket from p ok) h)
  Step-IsKept {s} (resends w f) o h = subst (IsKept a) (sym f) h
  Step-IsKept {s} (works before b c after p stands turned over f) o h = subst (IsKept a) (sym f) h
  Step-IsKept {s} (asks x n res st bs at asked sends f) o h = subst (IsKept a) (sym f) (
      stage-Kept a s.main.phase s.main.socket x.before x.job x.after (answering bs)
        (rw at (omega arith)) (subst (λ js. Kept a s.main.phase js s.main.socket) x.made h))
  Step-IsKept {s} (answers x b bs k n at sent f) o h = subst (IsKept a) (sym f) (
      Kept-socket a s.main.phase (x.before ++ record x.job { stage = answering bs } ∷ x.after)
        s.main.socket k
        (λ t.
          subst (Holds (λ r. Taken a r.0)) sent
            (send-Taken a s.main.socket x.job.task.addr b (length b) t))
        (stage-Kept a s.main.phase s.main.socket x.before x.job x.after (answering bs)
          (rw at (omega arith)) (subst (λ js. Kept a s.main.phase js s.main.socket) x.made h)))
  Step-IsKept {s} (frees x at small f) o h = subst (IsKept a) (sym f) (
      free-Kept a s.main.phase s.main.socket x.before x.job x.after at
        (subst (λ js. Kept a s.main.phase js s.main.socket) x.made h))

-- One request at a time: in every state that the server's threads reach, in any interleaving, for
-- every client, what the main thread has taken from it and not yet made a task of, and the tasks of
-- this client that have not yet given it back, are together at most one; and they are none, unless
-- the client is marked as being served.
pub one_request :
    {S : Type 0} {api : MysqlApi S} {net : Network} {processors : ℕ} {st : S} {s : ServerState S}
    → Reach api net processors st s
    → (a : SockAddr)
    → (held a s.main.phase + open_jobs a s.jobs
        ≤ served (conn_at a s.main.socket.connect_map).status)
      × (served (conn_at a s.main.socket.connect_map).status ≤ 1)
one_request r a = (kept r, served_bound _)
  where
    kept :
        {S : Type 0} {api : MysqlApi S} {net : Network} {processors : ℕ} {st : S}
        {s : ServerState S}
        → Reach api net processors st s
        → IsKept a s
    kept {api} {net} {processors} {st} (start m db e) =
        let f = new_server-starts api net processors st e in
        subst (λ m. Kept a m.phase [] m.socket) (sym f) (omega arith)
    kept {api} (next r m) =
        Step-IsKept api a m (Reach-IsValid (Reach-IsProjected r).socket).ordered (kept r)
