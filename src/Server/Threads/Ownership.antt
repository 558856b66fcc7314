-- ===== src/Server/Threads/Ownership.antt =====
-- The tasks of the pool: `new CSqlTask` in the main thread, and `delete pTask` in the worker that has
-- taken it.
use school_system.Base.{
  ℕ, zero, suc, ◌<◌, ◌≡◌, refl, sym, ap, subst, ◌∙◌, List, [], ◌∷◌, ◌++◌, append-nil, map,
  map-append, length, length-append, ==_self, arith,
}
use school_system.Mysql.{MysqlApi}
use school_system.Tcp.Server.{Network}
use school_system.ThreadPool.{new_pool, Phase, running}
use school_system.ThreadPool.Threads.{submit, check}
use school_system.ThreadPool.Counters.{count, count-append}
use school_system.Server.Loop.{
  MainPhase, selecting, reading_len, reading_sql, adding, checking, Main, main_turn,
}
use school_system.Server.Threads.{
  Job, Stage, answering, finished, ServerState, Execution, new_jobs, Step, main_moves, hears,
  resends, works, asks, answers, frees, Reach, start, next,
}
use school_system.Server.Threads.Parts.{new_server-starts}
use school_system.Server.Threads.Places.{
  runs, queued, IsOwned, submit-IsOwned, check-IsOwned, turn-runs, pool_after, turn_at-tasks,
}

-- The tasks and their jobs have the same numbers, and every task is owned at most once.
pub record IsMade {S : Type 0} (s : ServerState S) : Type 0 where
  pub tasks : map (λ j. j.task) s.jobs ≡ s.main.tasks
  pub owned : (n : ℕ) → IsOwned n s.main.pool (length s.jobs)

length-tasks : (js : List Job) → length (map (λ j. j.task) js) ≡ length js
length-tasks [] = refl
length-tasks (j ∷ js) = ap suc (length-tasks js)

pool_after-IsOwned :
    (p : MainPhase) (m : Main) (js : List Job) (n : ℕ)
    → length m.tasks ≡ length js
    → IsOwned n m.pool (length js)
    → IsOwned n (pool_after p m) (length (js ++ new_jobs p))
pool_after-IsOwned selecting m js n e h =
    subst (λ l. IsOwned n m.pool (length l)) (sym (append-nil js)) h
pool_after-IsOwned (reading_len b) m js n e h =
    subst (λ l. IsOwned n m.pool (length l)) (sym (append-nil js)) h
pool_after-IsOwned (reading_sql b len) m js n e h =
    subst (λ l. IsOwned n m.pool (length l)) (sym (append-nil js)) h
pool_after-IsOwned (adding b sql) m js n e h =
    let one_more : suc (length m.tasks) ≡ length (js ++ new_jobs (adding b sql)) =
      omega (arith, e, length-append js (new_jobs (adding b sql))) in
    subst (IsOwned n (submit (length m.tasks) m.pool)) one_more
      (submit-IsOwned n m.pool (length m.tasks) (subst (IsOwned n m.pool) (sym e) h))
pool_after-IsOwned checking m js n e h =
    subst (λ l. IsOwned n (check m.pool) (length l)) (sym (append-nil js))
      (check-IsOwned n m.pool (length js) h)

-- The stage of one job changes.
stage-IsMade :
    {S : Type 0} (s : ServerState S) (x : Execution s) (g : Stage)
    → IsMade s
    → (map (λ j. j.task) (x.before ++ record x.job { stage = g } ∷ x.after) ≡ s.main.tasks)
      × (length (x.before ++ record x.job { stage = g } ∷ x.after) ≡ length s.jobs)
stage-IsMade s x g v = (
  map-append (λ j. j.task) x.before (record x.job { stage = g } ∷ x.after)
      ∙ sym (map-append (λ j. j.task) x.before (x.job ∷ x.after))
      ∙ ap (map (λ j. j.task)) (sym x.made)
      ∙ v.tasks,
  length-append x.before (record x.job { stage = g } ∷ x.after)
      ∙ sym (length-append x.before (x.job ∷ x.after))
      ∙ ap length (sym x.made),
)

module _ {S : Type 0} (api : MysqlApi S) where
  staged :
      (s t : ServerState S) (x : Execution s) (g : Stage)
      → t.main.pool ≡ s.main.pool
      → t.main.tasks ≡ s.main.tasks
      → t.jobs ≡ x.before ++ record x.job { stage = g } ∷ x.after
      → IsMade s
      → IsMade t
  staged s t x g p l e v =
      let (tasks, same_length) = stage-IsMade s x g v in
      record {
        tasks = ap (map (λ j. j.task)) e ∙ tasks ∙ sym l;
        owned = λ n.
            subst (λ k. IsOwned n t.main.pool k) (sym (ap length e ∙ same_length))
              (subst (λ q. IsOwned n q (length s.jobs)) (sym p) (v.owned n));
      }

  Step-IsMade : {s t : ServerState S} → Step api s t → IsMade s → IsMade t
  unfolding main_turn
  Step-IsMade {s} (main_moves m e f) v =
      let (pool, tasks) = turn_at-tasks s.main.phase s.main m e in
      subst IsMade (sym f) (record {
        tasks =
            map-append (λ j. j.task) s.jobs (new_jobs s.main.phase)
            ∙ ap (λ l. l ++ map (λ j. j.task) (new_jobs s.main.phase)) v.tasks
            ∙ sym tasks;
        owned = λ n.
            subst (λ q. IsOwned n q (length (s.jobs ++ new_jobs s.main.phase))) (sym pool)
              (pool_after-IsOwned s.main.phase s.main s.jobs n
                (ap length (sym v.tasks) ∙ length-tasks s.jobs) (v.owned n));
      })
  Step-IsMade (hears from p ok on f) v =
      subst IsMade (sym f) (record { tasks = v.tasks; owned = v.owned })
  Step-IsMade (resends w f) v = subst IsMade (sym f) (record { tasks = v.tasks; owned = v.owned })
  Step-IsMade {s} (works before a b after p stands turned over f) v = subst IsMade (sym f) (record {
    tasks = v.tasks;
    owned = λ n. omega (
      arith,
      v.owned n,
      ap (count (runs n)) stands,
      count-append (runs n) before (a ∷ after),
      count-append (runs n) before (b ∷ after),
      turn-runs n s.main.pool.pool a p b turned,
    );
  })
  Step-IsMade {s} {t} (asks x n res st bs at asked sends f) v =
      staged s t x (answering bs) (ap (λ t. t.main.pool) f) (ap (λ t. t.main.tasks) f)
        (ap (λ t. t.jobs) f) v
  Step-IsMade {s} {t} (answers x b bs k n at sent f) v =
      staged s t x (answering bs) (ap (λ t. t.main.pool) f) (ap (λ t. t.main.tasks) f)
        (ap (λ t. t.jobs) f) v
  Step-IsMade {s} {t} (frees x at small f) v =
      staged s t x finished (ap (λ t. t.main.pool) f) (ap (λ t. t.main.tasks) f)
        (ap (λ t. t.jobs) f) v

Reach-IsMade :
    {S : Type 0} {api : MysqlApi S} {net : Network} {processors : ℕ} {st : S} {s : ServerState S}
    → Reach api net processors st s
    → IsMade s
unfolding new_pool
Reach-IsMade {api} {net} {processors} {st} (start m db e) =
    let f = new_server-starts api net processors st e in
    record {
      tasks = ap (λ m. m.tasks) (sym f);
      owned = λ n. subst (λ m. IsOwned n m.pool 0) (sym f) (omega arith);
    }
Reach-IsMade {api} (next r m) = Step-IsMade api m (Reach-IsMade r)

-- The place of an element.
split_at :
    {A : Type 0} (l : List A) (n : ℕ)
    → n < length l
    → (before : List A) × (x : A) × (after : List A) × (l ≡ before ++ x ∷ after)
      × (length before ≡ n)
split_at [] n h = absurd (omega arith)
split_at (x ∷ l) zero h = ([], x, l, refl, refl)
split_at (x ∷ l) (suc n) h =
    let (before, y, after, e, k) = split_at l n (omega arith) in
    (x ∷ before, y, after, ap (◌∷◌ x) e, ap suc k)

-- A worker owns its task: in every state that the server's threads reach, in any interleaving, the
-- task that a worker executes was made, has its job under the same number, with the client and the
-- statement that the main thread gave it, and is in no other place: no other worker has it, and it
-- is not in the queue. So a task that a worker deletes is used by nobody else.
pub task_owned :
    {S : Type 0} {api : MysqlApi S} {net : Network} {processors : ℕ} {st : S} {s : ServerState S}
    → Reach api net processors st s
    → (n : ℕ) (workers others : List Phase) → s.main.pool.threads ≡ workers ++ running n ∷ others
    → (x : Execution s) × (length x.before ≡ n)
      × (s.main.tasks ≡ map (λ j. j.task) x.before ++ x.job.task ∷ map (λ j. j.task) x.after)
      × (count (runs n) (workers ++ others) ≡ 0)
      × (queued n s.main.pool.pool.task_queue ≡ 0)
task_owned {s} r n workers others at_work =
    let v = Reach-IsMade r in
    let own : (runs n (running n) ≡ 1) = rw (==_self n) in
    let split = count-append (runs n) workers (running n ∷ others) in
    let rest = count-append (runs n) workers others in
    let here = ap (count (runs n)) at_work in
    let made : n < length s.jobs = ground (arith, v.owned n, own, split, here) in
    let (before, job, after, e, k) = split_at s.jobs n made in
    (
      record {
        before = before;
        job = job;
        after = after;
        made = e;
        workers = workers;
        other_workers = others;
        at_work = at_work ∙ ap (λ n. workers ++ running n ∷ others) (sym k);
      },
      k,
      sym v.tasks ∙ ap (map (λ j. j.task)) e ∙ map-append (λ j. j.task) before (job ∷ after),
      ground (arith, v.owned n, own, split, here, rest),
      ground (arith, v.owned n, own, split, here, rest),
    )
