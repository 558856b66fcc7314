-- ===== src/Tcp/System/Exclusive.antt =====
-- TcpSocketDll: a client that `Select` has taken stays taken until `UnSelect`.
use school_system.Base.{
  ◌≡◌, ◌≢◌, refl, sym, ap, subst, ◌∙◌, inl, inr, true, some, [], ◌∷◌, ◌++◌, Bool-cases, of_some,
  Holds,
}
use school_system.Tcp.Address.{SockAddr, less, less-asymm, less_irrefl}
use school_system.Tcp.Conn.{Conn, ConnMap, has_data, in_use, conn_at}
use school_system.Tcp.Conn.Laws.{Ordered, Ordered-replace, Behind, conn_at-modify}
use school_system.Tcp.Socket.{TcpSocket}
use school_system.Tcp.Socket.Isolation.{DifferentKeys}
use school_system.Tcp.Socket.Taken.{
  IsTaken, Taken, conn_at-same, on_packet-Taken, send-Taken, recv-Taken,
}
use school_system.Tcp.Server.{poll, released, unselect}
use school_system.Tcp.Server.Selection.{poll-Polled}
use school_system.Tcp.System.{
  Step, arrives, transmits, sends, receives, selects, unselects, Reach, next,
}
use school_system.Tcp.System.Invariant.{Reach-IsValid}

-- The step does not give the client `a` back.
abbrev pub Keeps : SockAddr → {s t : TcpSocket} → Step s t → Type 0
Keeps a (unselects b small e) = DifferentKeys b a
Keeps a m = Unit {0}

-- Any number of steps of any threads, none of which gives the client `a` back.
pub data Serves (a : SockAddr) (s : TcpSocket) : TcpSocket → Type 0 where
  still : Serves a s s
  goes : {t u : TcpSocket} → Serves a s t → (m : Step t u) → Keeps a m → Serves a s u

replace-IsTaken :
    (a : SockAddr) (before : ConnMap) (b : SockAddr) (c : Conn) (after : ConnMap)
    → IsTaken (conn_at a (before ++ (b, c) ∷ after))
    → IsTaken (conn_at a (before ++ (b, record c { status = in_use }) ∷ after))
unfolding conn_at
replace-IsTaken a [] b c after h = elim (Bool-cases (less b a)) [
  | inl e ↦ rw e (rw e at h)
  | inr e ↦ elim (Bool-cases (less a b)) [
    | inl e' ↦ rw (e, e') (rw (e, e') at h)
    | inr e' ↦ rw (e, e') refl
  ]
]
replace-IsTaken a ((d, k) ∷ before) b c after h = elim (Bool-cases (less d a)) [
  | inl e ↦ rw e (replace-IsTaken a before b c after (rw e at h))
  | inr e ↦ elim (Bool-cases (less a d)) [
    | inl e' ↦ rw (e, e') (rw (e, e') at h)
    | inr e' ↦ rw (e, e') (rw (e, e') at h)
  ]
]

pub poll-IsTaken :
    (a : SockAddr) (m : ConnMap) {b : SockAddr} {m' : ConnMap}
    → poll m ≡ some (b, m')
    → IsTaken (conn_at a m)
    → IsTaken (conn_at a m')
poll-IsTaken a m {b} {m'} e h = elim (poll-Polled m) [
  | inl (u, n) ↦ cc
  | inr (before, d, c, after, eq, u, s, r) ↦
      subst (λ t. IsTaken (conn_at a t)) (ap (λ t. t.1) (of_some (sym r ∙ e)))
        (replace-IsTaken a before d c after (subst (λ t. IsTaken (conn_at a t)) eq h))
]

pub unselect-IsTaken :
    (a b : SockAddr) (m : ConnMap)
    → DifferentKeys b a
    → IsTaken (conn_at a m)
    → IsTaken (conn_at a (unselect b m))
unfolding unselect
unselect-IsTaken a b m (inl d) h = subst IsTaken (sym (conn_at-modify b a released m)) (rw d h)
unselect-IsTaken a b m (inr d) h =
    subst IsTaken (sym (conn_at-modify b a released m)) (rw (less-asymm a b d, d) h)

Step-Taken : (a : SockAddr) {s t : TcpSocket} (m : Step s t) → Keeps a m → Taken a s → Taken a t
Step-Taken a {s} (arrives from p ok on e) k h =
    subst (Taken a) (sym e) (on_packet-Taken a s from p ok h)
Step-Taken a (transmits w e) k h = subst (Taken a) (sym e) h
Step-Taken a {s} (sends to buf len n e) k h =
    subst (Holds (λ r. Taken a r.0)) e (send-Taken a s to buf len h)
Step-Taken a {s} (receives from n bytes e) k h = recv-Taken a s from n h e
Step-Taken a {s} (selects b m found e) k h =
    subst (Taken a) (sym e) (poll-IsTaken a s.connect_map found h)
Step-Taken a {s} (unselects b small e) k h =
    subst (Taken a) (sym e) (unselect-IsTaken a b s.connect_map k h)

Serves-Taken : (a : SockAddr) {s t : TcpSocket} → Serves a s t → Taken a s → Taken a t
Serves-Taken a still h = h
Serves-Taken a (goes r m k) h = Step-Taken a m k (Serves-Taken a r h)

Serves-Reach : (a : SockAddr) {s t : TcpSocket} → Serves a s t → Reach s → Reach t
Serves-Reach a still r = r
Serves-Reach a (goes w m k) r = next (Serves-Reach a w r) m

Behind-mid :
    (k : SockAddr) (before : ConnMap) (a : SockAddr) (c : Conn) (after : ConnMap)
    → Behind k (before ++ (a, c) ∷ after)
    → less k a ≡ true
Behind-mid k [] a c after h = h.0
Behind-mid k ((b, d) ∷ before) a c after h = Behind-mid k before a c after h.1

-- In an ordered map every entry is found at its key.
conn_at-entry :
    (before : ConnMap) (a : SockAddr) (c : Conn) (after : ConnMap)
    → Ordered (before ++ (a, c) ∷ after)
    → conn_at a (before ++ (a, c) ∷ after) ≡ c
unfolding conn_at
conn_at-entry [] a c after o = let e = less_irrefl a a (refl, refl) in rw e refl
conn_at-entry ((b, d) ∷ before) a c after o =
    rw (Behind-mid b before a c after o.0) (conn_at-entry before a c after o.1)

in_use-ne : in_use ≢ has_data
in_use-ne e = cc

-- What `Select` finds was ready, and is taken then.
pub poll-entry :
    (m : ConnMap) {a : SockAddr} {m' : ConnMap}
    → Ordered m
    → poll m ≡ some (a, m')
    → ((conn_at a m).status ≡ has_data) × IsTaken (conn_at a m')
poll-entry m {a} {m'} o e = elim (poll-Polled m) [
  | inl (u, n) ↦ cc
  | inr (before, b, c, after, eq, u, ready, r) ↦
      let o' = subst Ordered eq o in
      subst
        (λ (t : SockAddr × ConnMap).
          ((conn_at t.0 m).status ≡ has_data) × IsTaken (conn_at t.0 t.1))
        (of_some (sym r ∙ e))
        (
          ap (λ n. (conn_at b n).status) eq
              ∙ ap (λ d. d.status) (conn_at-entry before b c after o')
              ∙ ready,
          ap (λ d. d.status)
              (conn_at-entry before b (record c { status = in_use }) after
                (Ordered-replace before b c (record c { status = in_use }) after o')),
        )
]

-- A client is served by one handler at a time: after `Select` has taken it in a reachable state,
-- whatever the threads do, in any interleaving, as long as nobody calls `UnSelect` for it, no look of
-- `Select` takes it again, nor an address with the same host and port.
pub exclusive_service :
    {s u : TcpSocket} {a b : SockAddr} {m m' : ConnMap}
    → Reach s
    → poll s.connect_map ≡ some (a, m)
    → Serves a (record s { connect_map = m }) u
    → poll u.connect_map ≡ some (b, m')
    → DifferentKeys a b
exclusive_service {s} {u} {a} {b} {m} r found w again =
    let (_, taken) = poll-entry s.connect_map (Reach-IsValid r).ordered found in
    let selected : Step s (record s { connect_map = m }) = selects a m found refl in
    let reached = Serves-Reach a w (next r selected) in
    let (ready, _) = poll-entry u.connect_map (Reach-IsValid reached).ordered again in
    let serving = Serves-Taken a w taken in
    elim (Bool-cases (less a b)) [
      | inl e ↦ inl e
      | inr e ↦ elim (Bool-cases (less b a)) [
        | inl e' ↦ inr e'
        | inr e' ↦
            let same = ap (λ c. c.status) (conn_at-same a b u.connect_map e e') in
            absurd (in_use-ne (sym serving ∙ same ∙ ready))
      ]
    ]
