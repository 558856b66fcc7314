-- ===== src/Server/Threads/Parts.antt =====
-- What the threads of the server do to the socket and to the pool are the steps of these.
use school_system.Base.{
  ℕ, ◌≡◌, refl, sym, ap, subst, ◌∙◌, inl, inr, Bool, Bool-cases, Option-cases, true, false, some,
  List, length, arith,
}
use school_system.Mysql.{MysqlApi}
use school_system.Tcp.Address.{SockAddr}
use school_system.Tcp.Socket.Reception.{of_gets}
use school_system.Tcp.Socket.{TcpSocket, Receipt, waits, gets, undefined, and_then, recv}
use school_system.Tcp.Server.{Network, poll}
use school_system.Tcp
use school_system.ThreadPool.Threads
use school_system.ThreadPool.Threads.{System, submit, check}
use school_system.ThreadPool.{new_pool_of, wants_thread}
use school_system.Server.Requests.{recv_int, recv_sql}
use school_system.Server.Tables.{init}
use school_system.Server.Loop.{
  MainPhase, selecting, reading_len, reading_sql, adding, checking, Main, turn_at, main_turn,
  new_server, main_at_start,
}
use school_system.Server.Threads.{
  ServerState, Step, main_moves, hears, resends, works, asks, answers, frees, Reach, start, next,
}

-- A receipt that gives something came from one that did.
pub and_then-gets :
    {A B : Type 0} (r : Receipt A) (f : A → Receipt B) {b : B}
    → and_then r f ≡ gets b
    → (a : A) × (r ≡ gets a) × (f a ≡ gets b)
and_then-gets waits f e = cc
and_then-gets (gets a) f e = (a, refl, e)
and_then-gets undefined f e = cc

-- The two receipts of the loop are calls of `Recv`, and change the socket by nothing else.
pub recv_int-recv :
    (s : TcpSocket) (a : SockAddr) {n : ℕ} {s' : TcpSocket}
    → recv_int s a ≡ gets (n, s')
    → (bytes : List ℕ) × (recv s a 4 ≡ gets (bytes, s'))
unfolding recv_int
recv_int-recv s a e = let ((bytes, t), r, f) = and_then-gets (recv s a 4) _ e in (bytes, cc)

pub recv_sql-recv :
    (s : TcpSocket) (a : SockAddr) (len : ℕ) {sql : List ℕ} {s' : TcpSocket}
    → recv_sql s a len ≡ gets (sql, s')
    → (bytes : List ℕ) × (recv s a len ≡ gets (bytes, s'))
unfolding recv_sql
recv_sql-recv s a len e =
    let ((bytes, t), r, f) = and_then-gets (recv s a len) _ e in (bytes, ground arith)

-- The main thread is in `AddTask`, behind the critical section.
abbrev is_checking : MainPhase → Bool
is_checking checking = true
is_checking p = false

-- The socket and the pool are in states that they reach by their own steps.
pub record IsProjected (processors : ℕ) (m : Main) : Type 0 where
  pub socket : Tcp.System.Reach m.socket
  pub pool : Threads.Reach processors 0 m.pool
  pub agrees : m.pool.checking ≡ is_checking m.phase

check-checking : (p : System) → (check p).checking ≡ false
check-checking p = elim (Bool-cases (wants_thread p.pool)) [ inl e ↦ rw e | inr e ↦ rw e ]

module _ {processors : ℕ} where
  turn_at-IsProjected :
      (p : MainPhase) (m m' : Main)
      → m.phase ≡ p
      → turn_at p m ≡ gets m'
      → IsProjected processors m
      → IsProjected processors m'
  turn_at-IsProjected selecting m m' at e v = elim (Option-cases (poll m.socket.connect_map)) [
    | inl n ↦ let f = rw n at e in cc
    | inr ((a, map'), found) ↦ subst (IsProjected processors) (of_gets (rw found at e)) (record {
      socket = Tcp.System.next v.socket (Tcp.System.selects a map' found refl);
      pool = v.pool;
      agrees = v.agrees ∙ ap is_checking at;
    })
  ]
  turn_at-IsProjected (reading_len a) m m' at e v =
      let ((n, s), r, f) = and_then-gets (recv_int m.socket a) _ e in
      let (bytes, received) = recv_int-recv m.socket a r in
      subst (IsProjected processors) (of_gets f) (record {
        socket = Tcp.System.next v.socket (Tcp.System.receives a 4 bytes received);
        pool = v.pool;
        agrees = v.agrees ∙ ap is_checking at;
      })
  turn_at-IsProjected (reading_sql a len) m m' at e v =
      let ((sql, s), r, f) = and_then-gets (recv_sql m.socket a len) _ e in
      let (bytes, received) = recv_sql-recv m.socket a len r in
      subst (IsProjected processors) (of_gets f) (record {
        socket = Tcp.System.next v.socket (Tcp.System.receives a len bytes received);
        pool = v.pool;
        agrees = v.agrees ∙ ap is_checking at;
      })
  turn_at-IsProjected (adding a sql) m m' at e v =
      subst (IsProjected processors) (of_gets e) (record {
        socket = v.socket;
        pool =
            Threads.next v.pool
              (Threads.submits (length m.tasks) (v.agrees ∙ ap is_checking at) refl);
        agrees = refl;
      })
  turn_at-IsProjected checking m m' at e v = subst (IsProjected processors) (of_gets e) (record {
    socket = v.socket;
    pool = Threads.next v.pool (Threads.checks (v.agrees ∙ ap is_checking at) refl);
    agrees = check-checking m.pool;
  })

  module _ {S : Type 0} (api : MysqlApi S) where
    Step-IsProjected :
        {s t : ServerState S}
        → Step api s t
        → IsProjected processors s.main
        → IsProjected processors t.main
    unfolding main_turn
    Step-IsProjected {s} (main_moves m e f) v =
        subst (λ t. IsProjected processors t.main) (sym f)
          (turn_at-IsProjected s.main.phase s.main m refl e v)
    Step-IsProjected {s} (hears from p ok on f) v =
        subst (λ t. IsProjected processors t.main) (sym f)
          (record {
            socket = Tcp.System.next v.socket (Tcp.System.arrives from p ok on refl);
            pool = v.pool;
            agrees = v.agrees;
          })
    Step-IsProjected {s} (resends w f) v =
        subst (λ t. IsProjected processors t.main) (sym f)
          (record {
            socket = Tcp.System.next v.socket (Tcp.System.transmits w refl);
            pool = v.pool;
            agrees = v.agrees;
          })
    Step-IsProjected {s} (works before a b after p stands turned over f) v =
        subst (λ t. IsProjected processors t.main) (sym f)
          (record {
            socket = v.socket;
            pool = Threads.next v.pool (Threads.works before a b after p stands turned refl);
            agrees = v.agrees;
          })
    Step-IsProjected {s} (asks x n res st bs at asked sends f) v =
        subst (λ t. IsProjected processors t.main) (sym f) v
    Step-IsProjected {s} (answers x b bs k n at sent f) v =
        subst (λ t. IsProjected processors t.main) (sym f)
          (record {
            socket =
                Tcp.System.next v.socket (Tcp.System.sends x.job.task.addr b (length b) n sent);
            pool = v.pool;
            agrees = v.agrees;
          })
    Step-IsProjected {s} (frees x at small f) v =
        subst (λ t. IsProjected processors t.main) (sym f)
          (record {
            socket = Tcp.System.next v.socket (Tcp.System.unselects x.job.task.addr small refl);
            pool = v.pool;
            agrees = v.agrees;
          })

main_at_start-IsProjected :
    {S : Type 0} (api : MysqlApi S) (processors : ℕ)
    → IsProjected processors (main_at_start api processors)
unfolding new_pool_of
main_at_start-IsProjected api processors = record {
  socket = Tcp.System.start;
  pool = Threads.start;
  agrees = refl;
}

pub new_server-starts :
    {S : Type 0} (api : MysqlApi S) (net : Network) (processors : ℕ) (st : S) {m : Main} {db : S}
    → new_server api net processors st ≡ (some m, db)
    → m ≡ main_at_start api processors
unfolding new_server
new_server-starts api net processors st e = elim (Bool-cases (init api net st).0) [
  | inl y ↦ let f = rw y at e in cc
  | inr y ↦ let f = rw y at e in cc
]

-- The server is put together of its parts: in every state that its threads reach, in any
-- interleaving, the socket is in a state that it reaches by its own steps, and so is the pool; so
-- that what holds in all states of either holds in the server. And the main thread stands in
-- `AddTask` just when the pool says so.
pub Reach-IsProjected :
    {S : Type 0} {api : MysqlApi S} {net : Network} {processors : ℕ} {st : S} {s : ServerState S}
    → Reach api net processors st s
    → IsProjected processors s.main
Reach-IsProjected {api} {net} {processors} {st} (start m db e) =
    subst (IsProjected processors) (sym (new_server-starts api net processors st e))
      (main_at_start-IsProjected api processors)
Reach-IsProjected {api} (next r m) = Step-IsProjected api m (Reach-IsProjected r)
