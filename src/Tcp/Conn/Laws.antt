-- ===== src/Tcp/Conn/Laws.antt =====
-- The connection map keeps its keys in order, and `operator[]` reaches one connection only.
use school_system.Base.{
  ◌≡◌, refl, ◌∙◌, inl, inr, true, false, [], ◌∷◌, ◌++◌, arith, if◌then◌else◌, Bool-cases,
}
use school_system.Tcp.Address.{SockAddr, less, less_trans, less-asymm, less-weak, less_irrefl}
use school_system.Tcp.Conn.{Conn, ConnMap, new_conn, conn_at, modify}

-- Every key of the map comes behind `a`.
abbrev pub Behind : SockAddr → ConnMap → Type 0
Behind a [] = Unit {0}
Behind a ((b, c) ∷ m) = (less a b ≡ true) × Behind a m

-- The keys stand in strictly rising order.
abbrev pub Ordered : ConnMap → Type 0
Ordered [] = Unit {0}
Ordered ((b, c) ∷ m) = Behind b m × Ordered m

Behind-trans : (a b : SockAddr) (m : ConnMap) → less a b ≡ true → Behind b m → Behind a m
Behind-trans a b [] h k = tt
Behind-trans a b ((d, c) ∷ m) h k = (less_trans a b d h k.0, Behind-trans a b m h k.1)

modify-Behind :
    (b a : SockAddr) (f : Conn → Conn) (m : ConnMap)
    → less b a ≡ true
    → Behind b m
    → Behind b (modify a f m)
unfolding modify
modify-Behind b a f [] h k = (h, tt)
modify-Behind b a f ((d, c) ∷ m) h k = elim (Bool-cases (less d a)) [
  | inl e ↦ rw e (k.0, modify-Behind b a f m h k.1)
  | inr e ↦ elim (Bool-cases (less a d)) [ inl e' ↦ rw (e, e') (h, k) | inr e' ↦ rw (e, e') k ]
]

-- `operator[]` keeps the keys of the map in order.
pub modify-Ordered :
    (a : SockAddr) (f : Conn → Conn) (m : ConnMap) → Ordered m → Ordered (modify a f m)
unfolding modify
modify-Ordered a f [] o = (tt, tt)
modify-Ordered a f ((b, c) ∷ m) o = elim (Bool-cases (less b a)) [
  | inl e ↦ rw e (modify-Behind b a f m e o.0, modify-Ordered a f m o.1)
  | inr e ↦ elim (Bool-cases (less a b)) [
    | inl e' ↦ rw (e, e') ((e', Behind-trans a b m e' o.0), o)
    | inr e' ↦ rw (e, e') o
  ]
]

-- A change at one key is seen at that key, and at no other.
pub conn_at-modify :
    (a b : SockAddr) (f : Conn → Conn) (m : ConnMap)
    → conn_at b (modify a f m)
      ≡ (if less a b then conn_at b m else if less b a then conn_at b m else f (conn_at a m))
unfolding modify conn_at
conn_at-modify a b f [] = ground arith
conn_at-modify a b f ((d, c) ∷ m) = elim (Bool-cases (less d a)) [
  | inl e ↦
      rw e
        (ground (arith, conn_at-modify a b f m, less_trans d a b, less-weak a b d, less-asymm d a))
  | inr e ↦ elim (Bool-cases (less a d)) [
    | inl e' ↦ rw (e, e') (ground (arith, less_trans b a d, less-asymm a d, less-asymm b d))
    | inr e' ↦ rw (e, e') (ground (arith, less-weak d a b))
  ]
]

pub conn_at-modify_self :
    (a : SockAddr) (f : Conn → Conn) (m : ConnMap) → conn_at a (modify a f m) ≡ f (conn_at a m)
conn_at-modify_self a f m =
    let e : less a a ≡ false = less_irrefl a a (refl, refl) in conn_at-modify a a f m ∙ rw e

-- A property of every connection of the map.
abbrev pub Everywhere : (Conn → Type 0) → ConnMap → Type 0
Everywhere P [] = Unit {0}
Everywhere P ((a, c) ∷ m) = P c × Everywhere P m

module _ (P : Conn → Type 0) where
  pub conn_at-Everywhere :
      (a : SockAddr) (m : ConnMap) → P new_conn → Everywhere P m → P (conn_at a m)
  unfolding conn_at
  conn_at-Everywhere a [] n h = n
  conn_at-Everywhere a ((b, c) ∷ m) n h = elim (Bool-cases (less b a)) [
    | inl e ↦ rw e (conn_at-Everywhere a m n h.1)
    | inr e ↦ elim (Bool-cases (less a b)) [ inl e' ↦ rw (e, e') n | inr e' ↦ rw (e, e') h.0 ]
  ]

  pub modify-Everywhere :
      (a : SockAddr) (f : Conn → Conn) (m : ConnMap)
      → P (f new_conn)
      → ((c : Conn) → P c → P (f c))
      → Everywhere P m
      → Everywhere P (modify a f m)
  unfolding modify
  modify-Everywhere a f [] n k h = (n, tt)
  modify-Everywhere a f ((b, c) ∷ m) n k h = elim (Bool-cases (less b a)) [
    | inl e ↦ rw e (h.0, modify-Everywhere a f m n k h.1)
    | inr e ↦ elim (Bool-cases (less a b)) [
      | inl e' ↦ rw (e, e') (n, h)
      | inr e' ↦ rw (e, e') (k c h.0, h.1)
    ]
  ]

  -- It is enough to know of the one connection that is changed.
  pub modify-Everywhere_at :
      (a : SockAddr) (f : Conn → Conn) (m : ConnMap)
      → P (f (conn_at a m))
      → Everywhere P m
      → Everywhere P (modify a f m)
  unfolding modify conn_at
  modify-Everywhere_at a f [] n h = (n, tt)
  modify-Everywhere_at a f ((b, c) ∷ m) n h = elim (Bool-cases (less b a)) [
    | inl e ↦ rw e (h.0, modify-Everywhere_at a f m (rw e at n) h.1)
    | inr e ↦ elim (Bool-cases (less a b)) [
      | inl e' ↦ rw (e, e') (rw (e, e') at n, h)
      | inr e' ↦ rw (e, e') (rw (e, e') at n, h.1)
    ]
  ]

Behind-replace :
    (k : SockAddr) (before : ConnMap) (a : SockAddr) (c d : Conn) (after : ConnMap)
    → Behind k (before ++ (a, c) ∷ after)
    → Behind k (before ++ (a, d) ∷ after)
Behind-replace k [] a c d after h = h
Behind-replace k ((b, e) ∷ before) a c d after h = (h.0, Behind-replace k before a c d after h.1)

pub Ordered-replace :
    (before : ConnMap) (a : SockAddr) (c d : Conn) (after : ConnMap)
    → Ordered (before ++ (a, c) ∷ after)
    → Ordered (before ++ (a, d) ∷ after)
Ordered-replace [] a c d after h = h
Ordered-replace ((b, e) ∷ before) a c d after h =
    (Behind-replace b before a c d after h.0, Ordered-replace before a c d after h.1)
