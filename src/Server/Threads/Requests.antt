-- ===== src/Server/Threads/Requests.antt =====
-- What the main thread and the workers keep of a client: its request, from `Select` to `UnSelect`.
use school_system.Base.{
  ℕ, ◌+◌, ◌≤◌, ◌≡◌, refl, sym, ap, subst, ◌∙◌, ◌⊎◌, inl, inr, Bool-cases, Option-cases, false, some,
  List, [], ◌∷◌, ◌++◌, if◌then◌else◌, arith,
}
use school_system.Tcp.Socket.Reception.{of_gets}
use school_system.Tcp.Address.{SockAddr, less}
use school_system.Tcp.Conn.{ConnMap, Status, no_data, has_data, in_use, conn_at}
use school_system.Tcp.Socket.{TcpSocket, gets}
use school_system.Tcp.Socket.Isolation.{DifferentKeys}
use school_system.Tcp.Socket.Taken.{Taken, conn_at-same, recv-Taken}
use school_system.Tcp.Server.{poll, unselect}
use school_system.Tcp.System.Exclusive.{poll-entry, poll-IsTaken, unselect-IsTaken}
use school_system.Server.Requests.{recv_int, recv_sql}
use school_system.Server.Tasks.{free_client}
use school_system.Tcp.Conn.Laws.{Ordered}
use school_system.Server.Loop.{
  MainPhase, selecting, reading_len, reading_sql, adding, checking, Main, turn_at,
}
use school_system.Server.Threads.{Stage, asking, answering, finished, Job, new_jobs}
use school_system.Server.Threads.Parts.{and_then-gets, recv_int-recv, recv_sql-recv}

-- 1, if the two addresses are one key.
abbrev pub same : SockAddr → SockAddr → ℕ
same b a = if less b a then 0 else if less a b then 0 else 1

-- Whether the main thread has taken the client `a` and not yet made a task for it.
abbrev pub held : SockAddr → MainPhase → ℕ
held a (reading_len b) = same b a
held a (reading_sql b n) = same b a
held a (adding b sql) = same b a
held a p = 0

-- How many tasks of the client `a` are not at their end.
abbrev open_by : ℕ → Stage → ℕ
open_by n asking = n
open_by n (answering bs) = n
open_by n finished = 0

abbrev pub open_jobs : SockAddr → List Job → ℕ
open_jobs a [] = 0
open_jobs a (j ∷ js) = open_by (same j.task.addr a) j.stage + open_jobs a js

abbrev pub served : Status → ℕ
served no_data = 0
served has_data = 0
served in_use = 1

open_jobs-append :
    (a : SockAddr) (js ks : List Job) → open_jobs a (js ++ ks) ≡ open_jobs a js + open_jobs a ks
open_jobs-append a [] ks = omega arith
open_jobs-append a (j ∷ js) ks = omega (arith, open_jobs-append a js ks)

same_cases :
    (b a : SockAddr)
    → (DifferentKeys b a × (same b a ≡ 0))
      ⊎ ((less b a ≡ false) × (less a b ≡ false) × (same b a ≡ 1))
same_cases b a = elim (Bool-cases (less b a)) [
  | inl e ↦ inl (inl e, rw e)
  | inr e ↦ elim (Bool-cases (less a b)) [
    | inl e' ↦ inl (inr e', rw (e, e'))
    | inr e' ↦ inr (e, e', rw (e, e'))
  ]
]

served_mono : (t u : Status) → (t ≡ in_use → u ≡ in_use) → served t ≤ served u
served_mono no_data u h = omega arith
served_mono has_data u h = omega arith
served_mono in_use u h = rw (h refl) (omega arith)

pub served_bound : (t : Status) → served t ≤ 1
served_bound no_data = omega arith
served_bound has_data = omega arith
served_bound in_use = omega arith

-- What the server keeps for the client `a`, at most once.
abbrev pub Kept : SockAddr → MainPhase → List Job → TcpSocket → Type 0
Kept a p js s = held a p + open_jobs a js ≤ served (conn_at a s.connect_map).status

module _ (a : SockAddr) where
  -- The socket changes, and leaves the client taken if it was.
  pub Kept-socket :
      (p : MainPhase) (js : List Job) (s t : TcpSocket)
      → (Taken a s → Taken a t)
      → Kept a p js s
      → Kept a p js t
  Kept-socket p js s t k h =
      omega (arith, served_mono (conn_at a s.connect_map).status (conn_at a t.connect_map).status k)

  -- The stage of a job changes.
  open_jobs-stage :
      (before : List Job) (j : Job) (after : List Job) (g : Stage)
      → open_jobs a (before ++ record j { stage = g } ∷ after)
          + open_by (same j.task.addr a) j.stage
        ≡ open_jobs a (before ++ j ∷ after) + open_by (same j.task.addr a) g
  open_jobs-stage before j after g = omega (
    arith,
    open_jobs-append a before (record j { stage = g } ∷ after),
    open_jobs-append a before (j ∷ after),
  )

  select-Kept :
      (js : List Job) (m : ConnMap) {b : SockAddr} {m' : ConnMap}
      → Ordered m
      → poll m ≡ some (b, m')
      → open_jobs a js ≤ served (conn_at a m).status
      → same b a + open_jobs a (js ++ []) ≤ served (conn_at a m').status
  select-Kept js m {b} {m'} o found h =
      let more = open_jobs-append a js [] in
      elim (same_cases b a) [
        | inl (d, z) ↦ omega (
          arith,
          z,
          more,
          served_mono (conn_at a m).status (conn_at a m').status (poll-IsTaken a m found),
        )
        | inr (e, e', z) ↦
            let (ready, taken) = poll-entry m o found in
            let before : served (conn_at a m).status ≡ 0 =
              ap (λ c. served c.status) (sym (conn_at-same b a m e e')) ∙ ap served ready in
            let after : served (conn_at a m').status ≡ 1 =
              ap (λ c. served c.status) (sym (conn_at-same b a m' e e')) ∙ ap served taken in
            omega (arith, z, more, before, after)
      ]

  pub turn_at-Kept :
      (p : MainPhase) (js : List Job) (m m' : Main)
      → Ordered m.socket.connect_map
      → turn_at p m ≡ gets m'
      → Kept a p js m.socket
      → Kept a m'.phase (js ++ new_jobs p) m'.socket
  turn_at-Kept selecting js m m' o e h = elim (Option-cases (poll m.socket.connect_map)) [
    | inl n ↦ let f = rw n at e in cc
    | inr ((b, map'), found) ↦
        subst (λ m'. Kept a m'.phase (js ++ []) m'.socket) (of_gets (rw found at e))
          (select-Kept js m.socket.connect_map o found (omega (arith, h)))
  ]
  turn_at-Kept (reading_len b) js m m' o e h =
      let ((n, s), r, f) = and_then-gets (recv_int m.socket b) _ e in
      let (bytes, received) = recv_int-recv m.socket b r in
      subst (λ m'. Kept a m'.phase (js ++ []) m'.socket) (of_gets f)
        (omega (
          arith,
          open_jobs-append a js [],
          Kept-socket (reading_len b) js m.socket s (λ t. recv-Taken a m.socket b 4 t received) h,
        ))
  turn_at-Kept (reading_sql b len) js m m' o e h =
      let ((sql, s), r, f) = and_then-gets (recv_sql m.socket b len) _ e in
      let (bytes, received) = recv_sql-recv m.socket b len r in
      subst (λ m'. Kept a m'.phase (js ++ []) m'.socket) (of_gets f)
        (omega (
          arith,
          open_jobs-append a js [],
          Kept-socket (reading_sql b len) js m.socket s
              (λ t. recv-Taken a m.socket b len t received) h,
        ))
  turn_at-Kept (adding b sql) js m m' o e h =
      subst (λ m'. Kept a m'.phase (js ++ new_jobs (adding b sql)) m'.socket) (of_gets e)
        (omega (arith, open_jobs-append a js (new_jobs (adding b sql))))
  turn_at-Kept checking js m m' o e h =
      subst (λ m'. Kept a m'.phase (js ++ []) m'.socket) (of_gets e)
        (omega (arith, open_jobs-append a js []))

  -- A job that is at its end has given its client back.
  pub free-Kept :
      (p : MainPhase) (s : TcpSocket) (before : List Job) (j : Job) (after : List Job)
      → j.stage ≡ answering []
      → Kept a p (before ++ j ∷ after) s
      → Kept a p (before ++ record j { stage = finished } ∷ after) (free_client j.task.addr s)
  free-Kept p s before j after at h =
      let changed = open_jobs-stage before j after finished in
      let was : open_by (same j.task.addr a) j.stage ≡ same j.task.addr a =
        ap (open_by (same j.task.addr a)) at in
      elim (same_cases j.task.addr a) [
        | inl (d, z) ↦ omega (
          arith,
          z,
          changed,
          was,
          served_mono (conn_at a s.connect_map).status
              (conn_at a (unselect j.task.addr s.connect_map)).status
              (unselect-IsTaken a j.task.addr s.connect_map d),
        )
        | inr (e, e', z) ↦
            omega (arith, z, changed, was, served_bound (conn_at a s.connect_map).status)
      ]

  -- A job goes on, and keeps its client.
  pub stage-Kept :
      (p : MainPhase) (s : TcpSocket) (before : List Job) (j : Job) (after : List Job) (g : Stage)
      → open_by (same j.task.addr a) g ≤ open_by (same j.task.addr a) j.stage
      → Kept a p (before ++ j ∷ after) s
      → Kept a p (before ++ record j { stage = g } ∷ after) s
  stage-Kept p s before j after g less_or_eq h = omega (arith, open_jobs-stage before j after g)
