-- ===== src/ThreadPool/Shutdown.antt =====
-- The destructor of the pool: once the event is set every worker returns, after a few turns.
use school_system.Base.{
  ℕ, zero, suc, ◌+◌, ◌*◌, ◌≤◌, ◌<◌, ◌≡◌, refl, sym, ap, ◌∙◌, inl, inr, true, some, ltb, List, [],
  ◌∷◌, ◌++◌, arith, length, int_mod, Bool-cases,
}
use school_system.ThreadPool.{
  Pool, Phase, starting, waiting, woken, fetching, running, stopped, moves, turn, fetch, abort_all,
  all_stopped, drop_pool,
}
use school_system.ThreadPool.Threads.{System, takes, works, Reach, next}
use school_system.ThreadPool.Counters.{count, count-append, one, owes}
use school_system.ThreadPool.Invariant.{Reach-Inv}
use school_system.ThreadPool.Progress.{CanMove, CanMove-cons}

-- The turns that a worker has left once the event is set.
abbrev pub turns_left : Phase → ℕ
turns_left starting = 2
turns_left waiting = 1
turns_left woken = 5
turns_left fetching = 4
turns_left (running task) = 3
turns_left stopped = 0

-- A turn of one worker.
pub record Turns (s t : System) : Type 0 where
  pub before : List Phase
  pub from : Phase
  pub to : Phase
  pub after : List Phase
  pub pool : Pool
  pub stands : s.threads ≡ before ++ from ∷ after
  pub turned : turn s.pool from ≡ moves pool to
  pub result :
      t ≡ record s { pool = pool; threads = before ++ to ∷ after; taken = s.taken ++ takes from to }

-- A number of turns of the workers, of any of them at any time.
pub data Runs (s : System) : ℕ → System → Type 0 where
  done : Runs s 0 s
  more : {n : ℕ} {t u : System} → Runs s n t → Turns t u → Runs s (suc n) u

-- What a turn does to the number of turns left, when the event is set.
abbrev Loses : Pool → Phase → Pool → Phase → Type 0
Loses p a q b = (turns_left a ≡ suc (turns_left b)) × (q.stop_event ≡ true)

fetch-Loses :
    (p : Pool) (l : List ℕ) (q : Pool) (b : Phase)
    → p.stop_event ≡ true
    → fetch p l ≡ moves q b
    → Loses p fetching q b
fetch-Loses p [] q b on m = cc
fetch-Loses p (task ∷ rest) q b on m = ground arith

turn-Loses :
    (p : Pool) (a : Phase) (q : Pool) (b : Phase)
    → p.stop_event ≡ true
    → turn p a ≡ moves q b
    → Loses p a q b
unfolding turn
turn-Loses p starting q b on m = ground arith
turn-Loses p waiting q b on m = ground arith
turn-Loses p woken q b on m = ground arith
turn-Loses p fetching q b on m = fetch-Loses p p.task_queue q b on m
turn-Loses p (running task) q b on m = ground arith
turn-Loses p stopped q b on m = ground arith

Turns-Loses :
    {s t : System}
    → Turns s t
    → s.pool.stop_event ≡ true
    → (count turns_left s.threads ≡ suc (count turns_left t.threads)) × (t.pool.stop_event ≡ true)
Turns-Loses {s} {t} m on =
    let l = turn-Loses s.pool m.from m.pool m.to on m.turned in
    let threads : t.threads ≡ m.before ++ m.to ∷ m.after = ap (λ u. u.threads) m.result in
    (
      omega (
        arith,
        l.0,
        ap (count turns_left) m.stands,
        ap (count turns_left) threads,
        count-append turns_left m.before (m.from ∷ m.after),
        count-append turns_left m.before (m.to ∷ m.after),
      ),
      ap (λ u. u.pool.stop_event) m.result ∙ l.1,
    )

Turns-Reach : {k n : ℕ} {s t : System} → Turns s t → Reach k n s → Reach k n t
Turns-Reach m r = next r (works m.before m.from m.to m.after m.pool m.stands m.turned m.result)

-- After the event is set, every run of the workers, in whatever order they are scheduled, takes as
-- many turns off those that are left: it is no longer than that, and it is over when all workers
-- have returned.
pub Runs-turns_left :
    {s t : System} {n : ℕ}
    → s.pool.stop_event ≡ true
    → Runs s n t
    → (n + count turns_left t.threads ≡ count turns_left s.threads) × (t.pool.stop_event ≡ true)
Runs-turns_left on done = (omega arith, on)
Runs-turns_left on (more r m) =
    let (e, on') = Runs-turns_left on r in
    let (e', on'') = Turns-Loses m on' in (omega (arith, e, e'), on'')

fetching_moves :
    (p : Pool) (l : List ℕ)
    → p.task_queue ≡ l
    → 0 < length l
    → (xs : List Phase) → CanMove p (fetching ∷ xs)
unfolding turn
fetching_moves p [] e h xs = elim h [ ]
fetching_moves p (task ∷ rest) e h xs =
    ([], fetching, xs, record p { task_queue = rest }, running task, refl, ap (fetch p) e)

-- A worker that has not returned can move.
find_mover :
    (p : Pool) (xs : List Phase)
    → p.stop_event ≡ true
    → count owes xs ≤ length p.task_queue
    → 0 < count turns_left xs
    → CanMove p xs
unfolding turn
find_mover p [] on h l = elim l [ ]
find_mover p (starting ∷ xs) on h l = ([], starting, xs, _, waiting, refl, refl)
find_mover p (waiting ∷ xs) on h l = ([], waiting, xs, p, stopped, refl, rw on)
find_mover p (woken ∷ xs) on h l = ([], woken, xs, _, fetching, refl, refl)
find_mover p (fetching ∷ xs) on h l = fetching_moves p p.task_queue refl (omega arith) xs
find_mover p (running task ∷ xs) on h l = ([], running task, xs, p, starting, refl, refl)
find_mover p (stopped ∷ xs) on h l =
    CanMove-cons p stopped xs (find_mover p xs on (omega arith) (omega arith))

-- The workers run until all have returned.
Runs-out :
    {k m : ℕ} {s : System}
    → 0 < k
    → k < int_mod
    → (n : ℕ) {t : System} {i : ℕ} → Reach k m t
    → t.pool.stop_event ≡ true
    → Runs s i t
    → count turns_left t.threads ≡ n
    → (j : ℕ) × (u : System) × Runs s j u × Reach k m u × (count turns_left u.threads ≡ 0)
Runs-out pos fits zero r on run e = (_, _, run, r, e)
Runs-out pos fits (suc n) {t} r on run e =
    let v = Reach-Inv pos fits r in
    let (before, a, after, q, b, stands, turned) =
      find_mover t.pool t.threads on (omega (arith, v.tasks)) (omega (arith, e)) in
    let turn : Turns t _ = record {
      before = before;
      from = a;
      to = b;
      after = after;
      pool = q;
      stands = stands;
      turned = turned;
      result = refl;
    } in
    let (e', on') = Turns-Loses turn on in
    Runs-out pos fits n (Turns-Reach turn r) on' (more run turn) (omega (arith, e, e'))

no_turns_left : (xs : List Phase) → count turns_left xs ≡ 0 → all_stopped xs ≡ true
no_turns_left [] h = refl
no_turns_left (starting ∷ xs) h = absurd (omega arith)
no_turns_left (waiting ∷ xs) h = absurd (omega arith)
no_turns_left (woken ∷ xs) h = absurd (omega arith)
no_turns_left (fetching ∷ xs) h = absurd (omega arith)
no_turns_left (running task ∷ xs) h = absurd (omega arith)
no_turns_left (stopped ∷ xs) h = no_turns_left xs (omega arith)

turns_left_bounded : (xs : List Phase) → count turns_left xs ≤ 5 * count one xs
turns_left_bounded [] = omega arith
turns_left_bounded (a ∷ xs) = ground (arith, turns_left_bounded xs)

Runs-accepted : {s t : System} {n : ℕ} → Runs s n t → t.accepted ≡ s.accepted
Runs-accepted done = refl
Runs-accepted (more r m) = ap (λ u. u.accepted) m.result ∙ Runs-accepted r

abort_all_lem : (l : List ℕ) → abort_all l ≡ l
unfolding abort_all
abort_all_lem [] = refl
abort_all_lem (task ∷ l) = ap (◌∷◌ task) (abort_all_lem l)

drop_pool_lem :
    (p : Pool) (threads : List Phase)
    → all_stopped threads ≡ true
    → drop_pool p threads ≡ some p.task_queue
unfolding drop_pool
drop_pool_lem p threads h = elim (Bool-cases (ltb 64 p.cur_threads)) [
  | inl y ↦ rw (y, abort_all_lem p.task_queue)
  | inr y ↦ rw (y, h, abort_all_lem p.task_queue)
]

-- Shutdown is orderly: from every reachable state in which the destructor has set the event, the
-- workers can run until all of them have returned, in at most five turns of theirs for each
-- processor; then the destructor does not wait any more, and the tasks that were accepted are, in
-- their order, those that workers took and those that the destructor aborts.
pub shutdown :
    {k m : ℕ} {s : System}
    → 0 < k
    → k < int_mod
    → Reach k m s
    → s.pool.stop_event ≡ true
    → (n : ℕ) × (t : System) × (left : List ℕ) × Runs s n t
      × (n ≤ 5 * k)
      × (all_stopped t.threads ≡ true)
      × (drop_pool t.pool t.threads ≡ some left)
      × (s.accepted ≡ t.taken ++ left)
shutdown {k} {s} pos fits r on =
    let (n, t, run, r', e) = Runs-out pos fits _ r on done refl in
    let v = Reach-Inv pos fits r in
    let v' = Reach-Inv pos fits r' in
    let (l, _) = Runs-turns_left on run in
    let over = no_turns_left t.threads e in
    (
      n,
      t,
      t.pool.task_queue,
      run,
      omega (arith, l, e, turns_left_bounded s.threads, v.threads, v.handles, v.limit),
      over,
      drop_pool_lem t.pool t.threads over,
      sym (Runs-accepted run) ∙ v'.order,
    )
