-- ===== src/Tcp/Server/Selection.antt =====
-- `Select` finds a ready connection whenever there is one, and marks that one only.
use school_system.Base.{
  ◌≡◌, refl, sym, ap, subst, of_some, ◌∙◌, ◌⊎◌, inl, inr, true, false, Option, none, some, [], ◌∷◌,
  ◌++◌, Bool-cases,
}
use school_system.Tcp.Address.{SockAddr, less}
use school_system.Tcp.Conn.{Conn, conn_at, ConnMap, Status, no_data, has_data, in_use}
use school_system.Tcp.Conn.Laws.{Everywhere, Ordered, Ordered-replace}
use school_system.Tcp.Server.{poll, is_ready, behind}

-- The connection has no data that wait for a handler.
abbrev pub IsUnready : Conn → Type 0
IsUnready c = is_ready c.status ≡ false

is_ready-has_data : (t : Status) → is_ready t ≡ true → t ≡ has_data
is_ready-has_data no_data h = cc
is_ready-has_data has_data h = refl
is_ready-has_data in_use h = cc

-- `none` when no connection is ready; otherwise the first ready connection, marked.
abbrev pub Polled : ConnMap → Option (SockAddr × ConnMap) → Type 0
Polled m r =
    (Everywhere IsUnready m × (r ≡ none))
    ⊎ ((before : ConnMap) × (a : SockAddr) × (c : Conn) × (after : ConnMap) × (m
          ≡ before ++ (a, c) ∷ after)
        × Everywhere IsUnready before
        × (c.status ≡ has_data)
        × (r ≡ some (a, before ++ (a, record c { status = in_use }) ∷ after)))

-- One look of `Select` either finds that no connection is ready, and sleeps; or it takes the first
-- ready connection in the order of the map, marks it as being handled, and changes no other.
pub poll-Polled : (m : ConnMap) → Polled m (poll m)
unfolding poll
poll-Polled [] = inl (tt, refl)
poll-Polled ((a, c) ∷ m) = elim (Bool-cases (is_ready c.status)) [
  | inl e ↦ inr ([], a, c, m, refl, tt, is_ready-has_data c.status e, rw e)
  | inr e ↦ elim (poll-Polled m) [
    | inl (u, n) ↦ inl ((e, u), rw e (ap (behind (a, c)) n))
    | inr (before, b, d, after, eq, u, h, r) ↦
        inr
          ((a, c) ∷ before, b, d, after, ap (◌∷◌ (a, c)) eq, (e, u), h, rw e (ap (behind (a, c)) r))
  ]
]

Everywhere-replace :
    (P : Conn → Type 0) (before : ConnMap) (a : SockAddr) (c d : Conn) (after : ConnMap)
    → (P c → P d)
    → Everywhere P (before ++ (a, c) ∷ after)
    → Everywhere P (before ++ (a, d) ∷ after)
Everywhere-replace P [] a c d after k h = (k h.0, h.1)
Everywhere-replace P ((b, e) ∷ before) a c d after k h =
    (h.0, Everywhere-replace P before a c d after k h.1)

-- `poll` keeps what holds of every connection, if marking a connection keeps it.
pub poll-Everywhere :
    (P : Conn → Type 0) (m : ConnMap) {a : SockAddr} {m' : ConnMap}
    → ((c : Conn) → P c → P (record c { status = in_use }))
    → Everywhere P m
    → poll m ≡ some (a, m')
    → Everywhere P m'
poll-Everywhere P m {a} {m'} k h e = elim (poll-Polled m) [
  | inl (u, n) ↦ cc
  | inr (before, b, c, after, eq, u, s, r) ↦
      subst (Everywhere P) (ap (λ t. t.1) (of_some (sym r ∙ e))) (
        Everywhere-replace P before b c (record c { status = in_use }) after (k c)
          (subst (Everywhere P) eq h))
]

-- `poll` keeps the keys, and so their order.
pub poll-Ordered :
    (m : ConnMap) {a : SockAddr} {m' : ConnMap} → Ordered m → poll m ≡ some (a, m') → Ordered m'
poll-Ordered m {a} {m'} h e = elim (poll-Polled m) [
  | inl (u, n) ↦ cc
  | inr (before, b, c, after, eq, u, s, r) ↦
      subst Ordered (ap (λ t. t.1) (of_some (sym r ∙ e)))
        (Ordered-replace before b c (record c { status = in_use }) after (subst Ordered eq h))
]

module _ {A : Type 0} (f : Conn → A)
    (same : (c : Conn) (t : Status) → f (record c { status = t }) ≡ f c) where
  field-replace :
      (before : ConnMap) (a : SockAddr) (c : Conn) (t : Status) (after : ConnMap) (b : SockAddr)
      → f (conn_at b (before ++ (a, record c { status = t }) ∷ after))
        ≡ f (conn_at b (before ++ (a, c) ∷ after))
  unfolding conn_at
  field-replace [] a c t after b = elim (Bool-cases (less a b)) [
    | inl e ↦ rw e
    | inr e ↦ elim (Bool-cases (less b a)) [ inl e' ↦ rw (e, e') | inr e' ↦ rw (e, e') (same c t) ]
  ]
  field-replace ((k, d) ∷ before) a c t after b = elim (Bool-cases (less k b)) [
    | inl e ↦ rw e (field-replace before a c t after b)
    | inr e ↦ elim (Bool-cases (less b k)) [ inl e' ↦ rw (e, e') | inr e' ↦ rw (e, e') ]
  ]

  -- `poll` changes nothing of a connection but its status.
  pub poll-fields :
      (m : ConnMap) {a : SockAddr} {m' : ConnMap} (b : SockAddr)
      → poll m ≡ some (a, m')
      → f (conn_at b m') ≡ f (conn_at b m)
  poll-fields m {a} {m'} b e = elim (poll-Polled m) [
    | inl (u, n) ↦ cc
    | inr (before, k, c, after, eq, u, s, r) ↦
        ap (λ t. f (conn_at b t.1)) (of_some (sym e ∙ r))
        ∙ field-replace before k c in_use after b
        ∙ ap (λ t. f (conn_at b t)) (sym eq)
  ]

-- `poll` changes no stream.
pub poll-streams :
    (m : ConnMap) {a : SockAddr} {m' : ConnMap} (b : SockAddr)
    → poll m ≡ some (a, m')
    → (conn_at b m').byte_stream ≡ (conn_at b m).byte_stream
poll-streams m b e = poll-fields (λ c. c.byte_stream) (λ c t. refl) m b e
