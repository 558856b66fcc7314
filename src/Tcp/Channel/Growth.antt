-- ===== src/Tcp/Channel/Growth.antt =====
-- A stream of packets that grows: what was known of its first packets stays true.
use school_system.Base.{
  ℕ, zero, suc, ◌+◌, ◌≤◌, ◌<◌, ◌≡◌, refl, sym, ap, ap₂, ◌∙◌, inl, inr, Bool, false, ◌||◌, List, [],
  ◌∷◌, ◌++◌, append_assoc, append-nil, map, arith, ltb, ◌==◌, All, Bool-cases, ==_iff,
}
use school_system.Tcp.Packet.{DataPacket}
use school_system.Tcp.Conn.{Conn}
use school_system.Tcp.Receive.Index.{Arrived, member, known}
use school_system.Tcp.Receive.Refine.{Stream, Represents, joined}
use school_system.Tcp.Socket.Splices.{spliced, spliced-low, joined-spliced_front}

-- Some packet that is held back has the number.
abbrev pub holds_back : ℕ → List DataPacket → Bool
holds_back q [] = false
holds_back q (p ∷ ps) = p.n_seq == q || holds_back q ps

-- The packet with the number is in the stream, or is held back.
abbrev pub has_arrived : ℕ → Conn → Bool
has_arrived q c = ltb q c.next_recv_seq || holds_back q c.recv_list

map-spliced_front :
    (n : ℕ) (pk pk' : ℕ → DataPacket) (js : List ℕ)
    → All (λ j. j < n) js
    → map pk js ≡ map (spliced n pk pk') js
map-spliced_front n pk pk' [] a = refl
map-spliced_front n pk pk' (j ∷ js) a =
    ap₂ ◌∷◌ (sym (spliced-low n pk pk' j a.0)) (map-spliced_front n pk pk' js a.1)

below_more : (n m : ℕ) (js : List ℕ) → All (λ j. j < n) js → All (λ j. j < n + m) js
below_more n m [] a = tt
below_more n m (j ∷ js) a = (omega (arith, a.0), below_more n m js a.1)

module _ {base n : ℕ} {piece : ℕ → List ℕ} {pk : ℕ → DataPacket} where
  holds_back-map :
      Stream base n piece pk
      → (i : ℕ) (js : List ℕ) → All (λ j. j < n) js
      → holds_back (base + i) (map pk js) ≡ member i js
  holds_back-map st i [] a = refl
  holds_back-map st i (j ∷ js) a =
      let here : ((pk j).n_seq == base + i) ≡ (i == j) =
        ground (arith, (st.carries j a.0).numbered) in
      rw (here, holds_back-map st i js a.1)

  -- In a connection that represents what has arrived, the packets that have arrived are the known.
  pub has_arrived_lem :
      {taken first : List ℕ} {s : Arrived} {c : Conn}
      → Stream base n piece pk
      → Represents base n piece pk taken first s c
      → (i : ℕ) → has_arrived (base + i) c ≡ known i s
  has_arrived_lem {s} {c} st r i =
      let front : ltb (base + i) c.next_recv_seq ≡ ltb i s.expected = ground (arith, r.next) in
      let back : holds_back (base + i) c.recv_list ≡ member i s.ahead =
        ap (holds_back (base + i)) r.list ∙ holds_back-map st i s.ahead r.ahead_below in
      rw (front, back)

  pub Represents-spliced :
      (m : ℕ) (piece' : ℕ → List ℕ) (pk' : ℕ → DataPacket) {taken first : List ℕ} {s : Arrived}
      {c : Conn}
      → Represents base n piece pk taken first s c
      → Represents base (n + m) (spliced n piece piece') (spliced n pk pk') taken first s c
  Represents-spliced m piece' pk' {first} {s} r = record {
    below = omega (arith, r.below);
    ahead_below = below_more n m s.ahead r.ahead_below;
    next = r.next;
    list = r.list ∙ map-spliced_front n pk pk' s.ahead r.ahead_below;
    stream =
        r.stream
        ∙ ap (λ b. first ++ b) (sym (joined-spliced_front n piece piece' s.expected r.below));
  }

-- The first pieces stand at the front of all.
pub joined_front :
    (piece : ℕ → List ℕ) (n k : ℕ)
    → k ≤ n
    → (rest : List ℕ) × (joined piece n ≡ joined piece k ++ rest)
joined_front piece zero zero h = ([], refl)
joined_front piece zero (suc k) h = absurd (omega arith)
joined_front piece (suc n) k h = elim (Bool-cases (k == suc n)) [
  | inl e ↦
      ([], ap (joined piece) (sym ((==_iff k (suc n)).0 e)) ∙ sym (append-nil (joined piece k)))
  | inr e ↦
      let (rest, f) = joined_front piece n k (ground arith) in
      (rest ++ piece n, ap (λ b. b ++ piece n) f ∙ append_assoc (joined piece k) rest (piece n))
]
