-- ===== src/Tcp/Receive/Refine.antt =====
-- `on_data` refines the specification of reassembly: a connection's state is given by the numbers
-- of the packets that have arrived.
use school_system.Base.{
  ℕ, zero, suc, ◌+◌, ◌≤◌, ◌<◌, ◌≡◌, refl, sym, ap, subst, ◌∙◌, inl, inr, true, false, some, List,
  [], ◌∷◌, ◌++◌, map, append_assoc, arith, ltb, ◌==◌, length, take, All, Bool-cases, ==_iff, int_lt,
  next_int, int_limit,
}
use school_system.Tcp.ByteStream.{write_lem}
use school_system.Tcp.Packet.{DataPacket, data_len}
use school_system.Tcp.Conn.{Conn}
use school_system.Tcp.Receive.{signal, deliver, drain, insert_packet, on_data, on_data_all}
use school_system.Tcp.Receive.Index.{Arrived, advance, insert_index, absorb, absorb_all}

-- The packet is number `i` of a stream that starts with the number `base`, and holds `piece`.
pub record Carries (base i : ℕ) (piece : List ℕ) (p : DataPacket) : Type 0 where
  pub numbered : p.n_seq ≡ base + i
  pub small : p.n_len ≤ data_len
  pub room : p.n_len ≤ length p.bytes
  pub holds : take p.n_len p.bytes ≡ piece

-- The first `k` pieces of a stream.
abbrev pub joined : (ℕ → List ℕ) → ℕ → List ℕ
joined piece zero = []
joined piece (suc k) = joined piece k ++ piece k

-- `n` packets `pk i`, one for each piece; no number reaches 2 ^ 31.
pub record Stream (base n : ℕ) (piece : ℕ → List ℕ) (pk : ℕ → DataPacket) : Type 0 where
  pub bound : base + n < int_limit
  pub carries : (i : ℕ) → i < n → Carries base i (piece i) (pk i)

-- The connection has the bytes `start` and those of the delivered packets, of which `taken` are not
-- in the stream any more, and keeps the other packets.
pub record Represents (base n : ℕ) (piece : ℕ → List ℕ) (pk : ℕ → DataPacket) (taken start : List ℕ)
    (s : Arrived) (c : Conn) : Type 0 where
  pub below : s.expected ≤ n
  pub ahead_below : All (λ i. i < n) s.ahead
  pub next : c.next_recv_seq ≡ base + s.expected
  pub list : c.recv_list ≡ map pk s.ahead
  pub stream : taken ++ c.byte_stream.vt_buf ≡ start ++ joined piece s.expected

module _ {base n : ℕ} {piece : ℕ → List ℕ} {pk : ℕ → DataPacket} (st : Stream base n piece pk)
    (taken start : List ℕ) where
  abbrev delivered : ℕ → Conn → Conn
  delivered k c = record c {
    byte_stream = record { vt_buf = c.byte_stream.vt_buf ++ piece k };
    status = signal c.status;
    next_recv_seq = base + suc k;
  }

  deliver_lem :
      (k : ℕ) (c : Conn)
      → k < n
      → c.next_recv_seq ≡ base + k
      → deliver (pk k) c ≡ some (delivered k c)
  unfolding deliver
  deliver_lem k c h e =
      rw (write_lem c.byte_stream p.bytes p.n_len (omega (arith, q.small)) q.room) (λ i.
        some (record c {
          byte_stream = record { vt_buf = bytes i };
          status = signal c.status;
          next_recv_seq = next i;
        }))
    where
      p : DataPacket
      p = pk k

      q : Carries base k (piece k) p
      q = st.carries k h

      bytes : c.byte_stream.vt_buf ++ take p.n_len p.bytes ≡ c.byte_stream.vt_buf ++ piece k
      bytes = ap (λ b. c.byte_stream.vt_buf ++ b) q.holds

      next : next_int c.next_recv_seq ≡ base + suc k
      next = omega (arith, st.bound)

  one_more :
      (k : ℕ) (c : Conn)
      → taken ++ c.byte_stream.vt_buf ≡ start ++ joined piece k
      → taken ++ (c.byte_stream.vt_buf ++ piece k) ≡ start ++ joined piece (suc k)
  one_more k c f =
      sym (append_assoc taken c.byte_stream.vt_buf (piece k))
      ∙ ap (λ b. b ++ piece k) f
      ∙ append_assoc start (joined piece k) (piece k)

  -- `drain` delivers what `advance` does.
  drain_lem :
      (js : List ℕ) (k : ℕ) (c : Conn)
      → k ≤ n
      → All (λ i. i < n) js
      → c.next_recv_seq ≡ base + k
      → taken ++ c.byte_stream.vt_buf ≡ start ++ joined piece k
      → (c' : Conn) × (drain (map pk js) c ≡ some c')
        × Represents base n piece pk taken start (advance k js) c'
  unfolding drain advance
  drain_lem [] k c h a e f = (
    record c { recv_list = [] },
    refl,
    record { below = h; ahead_below = tt; next = e; list = refl; stream = f },
  )
  drain_lem (j ∷ js) k c h a e f = elim (Bool-cases (j == k)) [
    | inl hit ↦
        let same : (j ≡ k) = (==_iff j k).0 hit in
        let test : (((pk j).n_seq == c.next_recv_seq) ≡ true) =
          ground (arith, (st.carries j a.0).numbered) in
        rw
          (
            test,
            hit,
            subst (λ t. deliver (pk t) c ≡ some (delivered k c)) (sym same)
                (deliver_lem k c (omega (arith, a.0)) e),
          )
          (drain_lem js (suc k) (delivered k c) (omega (arith, a.0)) a.1 refl (one_more k c f))
    | inr miss ↦
        let test : (((pk j).n_seq == c.next_recv_seq) ≡ false) =
          ground (arith, (st.carries j a.0).numbered) in
        rw (test, miss)
          (
            record c { recv_list = pk j ∷ map pk js },
            refl,
            record { below = h; ahead_below = a; next = e; list = refl; stream = f },
          )
  ]

  int_lt_lem : (i j : ℕ) → i < n → j < n → int_lt (pk i).n_seq (pk j).n_seq ≡ ltb i j
  int_lt_lem i j hi hj =
      ground (arith, (st.carries i hi).numbered, (st.carries j hj).numbered, st.bound)

  insert_lem :
      (i : ℕ) (js : List ℕ)
      → i < n
      → All (λ j. j < n) js
      → insert_packet (pk i) (map pk js) ≡ map pk (insert_index i js)
  unfolding insert_packet insert_index
  insert_lem i [] h a = refl
  insert_lem i (j ∷ js) h a = rw (int_lt_lem i j h a.0, insert_lem i js h a.1) (ground arith)

  insert-below :
      (i : ℕ) (js : List ℕ) → i < n → All (λ j. j < n) js → All (λ j. j < n) (insert_index i js)
  unfolding insert_index
  insert-below i [] h a = (h, tt)
  insert-below i (j ∷ js) h a = ground (arith, insert-below i js h a.1)

  -- The arrival of one packet, whether it is new or not.
  pub on_data_lem :
      (i : ℕ) (s : Arrived) (c : Conn)
      → i < n
      → Represents base n piece pk taken start s c
      → (c' : Conn) × (on_data (pk i) c ≡ some c')
        × Represents base n piece pk taken start (absorb i s) c'
  unfolding on_data absorb
  on_data_lem i s c h r = elim (Bool-cases (i == s.expected)) [
    | inl hit ↦
        let same : (i ≡ s.expected) = (==_iff i s.expected).0 hit in
        let test : (((pk i).n_seq == c.next_recv_seq) ≡ true) =
          ground (arith, (st.carries i h).numbered, r.next) in
        rw
          (
            test,
            hit,
            subst (λ t. deliver (pk t) c ≡ some (delivered s.expected c)) (sym same)
                (deliver_lem s.expected c (omega arith) r.next),
          )
          (subst
            (λ l.
              (c' : Conn) × (drain l (delivered s.expected c) ≡ some c')
              × Represents base n piece pk taken start (advance (suc s.expected) s.ahead) c')
            (sym r.list)
            (drain_lem s.ahead (suc s.expected) (delivered s.expected c) (omega arith) r.ahead_below
              refl (one_more s.expected c r.stream)))
    | inr other ↦
        let test : (((pk i).n_seq == c.next_recv_seq) ≡ false) =
          ground (arith, (st.carries i h).numbered, r.next) in
        let order : int_lt c.next_recv_seq (pk i).n_seq ≡ ltb s.expected i =
          ground (arith, (st.carries i h).numbered, r.next, st.bound) in
        rw (test, other, order)
          (elim (Bool-cases (ltb s.expected i)) [
            | inl later ↦ rw later (
              record c { recv_list = insert_packet (pk i) c.recv_list },
              refl,
              record {
                below = r.below;
                ahead_below = insert-below i s.ahead h r.ahead_below;
                next = r.next;
                list = ap (insert_packet (pk i)) r.list ∙ insert_lem i s.ahead h r.ahead_below;
                stream = r.stream;
              },
            )
            | inr old ↦ rw old (c, refl, r)
          ])
  ]

  -- Any arrivals, with repetitions and in any order.
  pub on_data_all_lem :
      (is : List ℕ) (s : Arrived) (c : Conn)
      → All (λ i. i < n) is
      → Represents base n piece pk taken start s c
      → (c' : Conn) × (on_data_all (map pk is) c ≡ some c')
        × Represents base n piece pk taken start (absorb_all is s) c'
  unfolding on_data_all absorb_all
  on_data_all_lem [] s c a r = (c, refl, r)
  on_data_all_lem (i ∷ is) s c a r =
      let (c1, e1, r1) = on_data_lem i s c a.0 r in
      rw e1 (on_data_all_lem is (absorb i s) c1 a.1 r1)
