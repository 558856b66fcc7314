-- ===== src/Server/Threads/Executions.antt =====
-- SchoolSystemServer/CServer.cpp, `CSqlTask::Execute`: the turns that a worker makes in it, one after
-- the other, are what the function does as a whole.
use school_system.Base.{
  ℕ, ◌<◌, ◌≡◌, ◌≢◌, refl, sym, ap, subst, ◌∙◌, inl, inr, Option-cases, Option, none, some, List, [],
  ◌∷◌, ◌++◌, ◌>>=◌, length, of_some, Holds, int_mod, int_limit, is_negative, leb, ltb, lt→leb,
  le→leb, ◌≤◌, true, false, All, arith, Bool-cases,
}
use school_system.Mysql.{MysqlApi, MysqlRes, query_result}
use school_system.Tcp.Address.{SockAddr}
use school_system.Tcp.Conn.{conn_at}
use school_system.Tcp.Conn.{in_use}
use school_system.ThreadPool.{starting, running, turn}
use school_system.Tcp.Socket.{TcpSocket, send}
use school_system.Tcp.Socket.Reception.{stream_at}
use school_system.Server.Results.{in_buffer, field_bytes, rows_bytes, send_block, send_res}
use school_system.Server.Requests.{buf_len}
use school_system.Tcp.Channel.Elsewhere.{SameAt, sent-Same}
use school_system.Server.Tasks.{answer, execute, execute_frees, free_client}
use school_system.Server.Threads.{
  Stage, asking, answering, finished, ServerState, Execution, Step, asks, answers, frees, works,
  answer_sends, IsOver, block_sends, with_socket, with_stage,
}

-- Some calls of `Send`, one after the other.
abbrev send_all : SockAddr → List (List ℕ) → TcpSocket → Option TcpSocket
send_all addr [] s = some s
send_all addr (b ∷ bs) s = send s addr b (length b) >>= λ r. send_all addr bs r.0

send_all-append :
    (addr : SockAddr) (bs cs : List (List ℕ)) (s : TcpSocket)
    → send_all addr (bs ++ cs) s ≡ (send_all addr bs s >>= send_all addr cs)
send_all-append addr [] cs s = refl
send_all-append addr (b ∷ bs) cs s = elim (Option-cases (send s addr b (length b))) [
  | inl n ↦ rw n
  | inr (r, e) ↦ rw e (send_all-append addr bs cs r.0)
]

some-of_bind :
    {A B : Type 0} (m : Option A) (f : A → Option B) {b : B}
    → (m >>= f) ≡ some b
    → (a : A) × (m ≡ some a) × (f a ≡ some b)
some-of_bind none f e = cc
some-of_bind (some a) f e = (a, refl, e)

send_block-send_all :
    (addr : SockAddr) (b : List ℕ) (s : TcpSocket)
    → send_block addr b s ≡ send_all addr (block_sends b) s
unfolding send_block
send_block-send_all addr b s = refl

send_defined :
    (addr : SockAddr) (b : List ℕ) (s : TcpSocket)
    → length b < int_limit
    → (r : TcpSocket × ℕ) × (send s addr b (length b) ≡ some r)
unfolding send
send_defined addr b s small =
    let e : is_negative (length b) ≡ false = lt→leb int_limit (length b) small in
    let f : leb (length b) (length b) ≡ true = le→leb (length b) (length b) (omega arith) in
    elim (Option-cases (send s addr b (length b))) [
      | inl n ↦ let g = rw (e, f) at n in cc
      | inr r ↦ r
    ]

-- Calls of `Send` with the bytes that they say, fewer than 2 ^ 31 each, are defined, and change no stream.
send_all-defined :
    (addr : SockAddr) (bs : List (List ℕ)) (s : TcpSocket)
    → All (λ b. length b < int_limit) bs
    → (k : TcpSocket) × (send_all addr bs s ≡ some k) × (stream_at addr k ≡ stream_at addr s)
send_all-defined addr [] s h = (s, refl, refl)
send_all-defined addr (b ∷ bs) s h =
    let ((s1, n), sent) = send_defined addr b s h.0 in
    let same = subst (Holds (λ r. SameAt addr s r.0)) sent (sent-Same addr addr s b (length b)) in
    let (k, rest, kept) = send_all-defined addr bs s1 h.1 in
    (k, rw sent rest, kept ∙ ap (λ b. b.vt_buf) same.2)

in_buffer-small : (b : List ℕ) {c : List ℕ} → in_buffer b ≡ some c → length c ≤ buf_len
in_buffer-small b e = elim (Bool-cases (ltb buf_len (length b))) [
  | inl y ↦ let f = rw y at e in cc
  | inr n ↦
      let f : b ≡ _ = of_some (rw n at e) in
      let fits : length b ≤ buf_len = ground arith in subst (λ c. length c ≤ buf_len) f fits
]

-- The parts of an answer that is a result set.
record Parts (res : MysqlRes) (bs : List (List ℕ)) : Type 0 where
  fields : List ℕ
  rows : List ℕ
  sent_rows : List ℕ
  small : in_buffer (field_bytes res.fields) ≡ some fields
  written : rows_bytes res.rows ≡ some rows
  small_rows : in_buffer rows ≡ some sent_rows
  together : bs ≡ block_sends fields ++ block_sends sent_rows

answer_sends-Parts :
    (n : ℕ) (res : MysqlRes) {bs : List (List ℕ)}
    → answer_sends n (some res) ≡ some bs
    → Parts res bs
unfolding answer_sends
answer_sends-Parts n res e =
    let (fields, small, e1) = some-of_bind (in_buffer (field_bytes res.fields)) _ e in
    let (rows', both, e3) = some-of_bind (rows_bytes res.rows >>= in_buffer) _ e1 in
    let (rows, written, small') = some-of_bind (rows_bytes res.rows) in_buffer both in
    record {
      fields = fields;
      rows = rows;
      sent_rows = rows';
      small = small;
      written = written;
      small_rows = small';
      together = sym (of_some e3);
    }

answer_sends-small :
    (n : ℕ) (res : Option MysqlRes) {bs : List (List ℕ)}
    → answer_sends n res ≡ some bs
    → All (λ b. length b < int_limit) bs
unfolding answer_sends
answer_sends-small n none e = subst (All (λ b. length b < int_limit)) (of_some e) (omega arith, tt)
answer_sends-small n (some res) e =
    let p = answer_sends-Parts n res e in
    let f = in_buffer-small (field_bytes res.fields) p.small in
    let g = in_buffer-small p.rows p.small_rows in
    subst (All (λ b. length b < int_limit)) (sym p.together)
      (omega arith, (omega arith, (omega arith, (omega arith, tt))))

-- The answer is put on the send list when its calls of `Send` are defined.
answer-defined :
    (n : ℕ) (res : Option MysqlRes) (addr : SockAddr) (s k : TcpSocket) {bs : List (List ℕ)}
    → answer_sends n res ≡ some bs
    → send_all addr bs s ≡ some k
    → answer n res addr s ≡ some k
unfolding answer_sends send_res
answer-defined n none addr s k e f = ap (λ bs. send_all addr bs s) (of_some e) ∙ f
answer-defined n (some res) addr s k e f =
    let p = answer_sends-Parts n res e in
    let g =
      sym (send_all-append addr (block_sends p.fields) (block_sends p.sent_rows) s)
      ∙ ap (λ bs. send_all addr bs s) (sym p.together)
      ∙ f in
    let (s1, first, second) = some-of_bind (send_all addr (block_sends p.fields) s) _ g in
    let first' = send_block-send_all addr p.fields s ∙ first in
    rw (p.small, first', p.written, p.small_rows) (send_block-send_all addr p.sent_rows s1 ∙ second)

module _ {S : Type 0} (api : MysqlApi S) where
  -- The turn is one of worker `w`: a turn in `Execute`, or one of `ThreadProc`.
  abbrev pub IsTurnOf : {s t : ServerState S} → ℕ → Step api s t → Type 0
  IsTurnOf w (asks x n res st bs at q sends e) = length x.workers ≡ w
  IsTurnOf w (answers x b bs k n at sent e) = length x.workers ≡ w
  IsTurnOf w (frees x at small e) = length x.workers ≡ w
  IsTurnOf w (works before a b after p at moved over e) = length before ≡ w
  IsTurnOf w _ = ⊥

  -- Turns of worker `w`, one after the other, with none of another thread between them.
  pub data Runs (w : ℕ) (s : ServerState S) : ServerState S → Type 0 where
    still : Runs w s s
    goes : {t u : ServerState S} → Runs w s t → (m : Step api t u) → IsTurnOf w m → Runs w s u

  -- The worker's own view of a state in the course of its task.
  abbrev during : (s : ServerState S) → Execution s → Stage → S → TcpSocket → ServerState S
  during s x g db k = record (with_socket (with_stage s x g) k) { database = db }

  during-Execution :
      (s : ServerState S) (x : Execution s) (g : Stage) (db : S) (k : TcpSocket)
      → Execution (during s x g db k)
  during-Execution s x g db k = record {
    before = x.before;
    job = record x.job { stage = g };
    after = x.after;
    made = refl;
    workers = x.workers;
    other_workers = x.other_workers;
    at_work = x.at_work;
  }

  answering-Runs :
      (s : ServerState S) (x : Execution s) (db : S) (bs : List (List ℕ)) (k k' : TcpSocket)
      → Runs (length x.workers) s (during s x (answering bs) db k)
      → send_all x.job.task.addr bs k ≡ some k'
      → Runs (length x.workers) s (during s x (answering []) db k')
  unfolding during-Execution
  answering-Runs s x db [] k k' r e =
      subst (λ k. Runs (length x.workers) s (during s x (answering []) db k)) (of_some e) r
  answering-Runs s x db (b ∷ bs) k k' r e =
      let ((k1, n), sent, rest) = some-of_bind (send k x.job.task.addr b (length b)) _ e in
      answering-Runs s x db bs k1 k'
        (goes r (answers (during-Execution s x (answering (b ∷ bs)) db k) b bs k1 n refl sent refl)
          refl)
        rest

  -- A worker gets its task done: let a worker be about to ask the database, and let the answer be a
  -- number, or a result set without NULL that fits the buffers, and the client's stream hold less
  -- than 2 ^ 32 bytes. Then the worker has turns, with none of any other thread between them, after
  -- which the socket and the database are as `Execute` as a whole leaves them, which is defined;
  -- the job is finished, and no other job is changed; the queue and the counters of the pool are as
  -- they were, the worker goes on with its loop, and no other worker has moved; and the client is
  -- not marked as being served any more.
  pub execute-Runs :
      (s : ServerState S) (x : Execution s) (bs : List (List ℕ))
      → x.job.stage ≡ asking
      → answer_sends
          (query_result api x.job.task.sql s.database).0
          (query_result api x.job.task.sql s.database).1
        ≡ some bs
      → length (stream_at x.job.task.addr s.main.socket) < int_mod
      → (t : ServerState S) × Runs (length x.workers) s t
        × (execute api x.job.task s.database s.main.socket ≡ some (t.database, t.main.socket))
        × (t.jobs ≡ x.before ++ record x.job { stage = finished } ∷ x.after)
        × (t.main.pool.pool ≡ s.main.pool.pool)
        × (t.main.pool.threads ≡ x.workers ++ starting ∷ x.other_workers)
        × ((conn_at x.job.task.addr t.main.socket.connect_map).status ≢ in_use)
  unfolding execute during-Execution turn
  execute-Runs s x bs at sends small =
      let addr = x.job.task.addr in
      let r = query_result api x.job.task.sql s.database in
      let (k0, all, stream) =
        send_all-defined addr bs s.main.socket (answer_sends-small r.0 r.1 sends) in
      let answered = answer-defined r.0 r.1 addr s.main.socket k0 sends all in
      let done : execute api x.job.task s.database s.main.socket ≡ some (r.2, free_client addr k0) =
        rw answered refl in
      let first : Runs (length x.workers) s (during s x (answering bs) r.2 s.main.socket) =
        goes still (asks x r.0 r.1 r.2 bs at refl sends refl) refl in
      let second = answering-Runs s x r.2 bs s.main.socket k0 first all in
      let small0 : length (stream_at addr k0) < int_mod =
        subst (λ b. length b < int_mod) (sym stream) small in
      let x' = during-Execution s x (answering []) r.2 k0 in
      let third = goes second (frees x' refl small0 refl) refl in
      let over : IsOver (x.before ++ record x.job { stage = finished } ∷ x.after)
          (running (length x.before)) =
        (x.before, record x.job { stage = finished }, x.after, refl, refl, refl) in
      let last =
        works x.workers (running (length x.before)) starting x.other_workers s.main.pool.pool
          x.at_work refl over refl in
      (
        _,
        goes third last refl,
        done,
        refl,
        refl,
        refl,
        subst (Holds (λ r. (conn_at addr r.1.connect_map).status ≢ in_use)) done
            (execute_frees api x.job.task s.database s.main.socket),
      )
