-- ===== src/Tcp/Receive/Delivery.antt =====
-- What reassembly guarantees of the byte stream: nothing wrong, and everything once all is there.
use school_system.Base.{
  ℕ, ◌+◌, ◌≤◌, ◌<◌, ◌≡◌, sym, ap, ◌∙◌, true, some, List, [], ◌++◌, map, append-nil, arith, ltb, All,
  All-range_from, range_from,
}
use school_system.Tcp.Packet.{DataPacket}
use school_system.Tcp.Conn.{Conn}
use school_system.Tcp.Receive.{on_data_all}
use school_system.Tcp.Receive.Index.{
  absorb_all, nothing, member, Distinct, known-absorb_all, absorb_all_complete,
}
use school_system.Tcp.Receive.Refine.{Stream, Represents, joined, on_data_all_lem}

-- A connection that waits for packet `base` and holds none back.
pub record IsFresh (base : ℕ) (c : Conn) : Type 0 where
  pub next : c.next_recv_seq ≡ base
  pub empty : c.recv_list ≡ []

pub IsFresh-Represents :
    (base n : ℕ) (piece : ℕ → List ℕ) (pk : ℕ → DataPacket) (c : Conn)
    → IsFresh base c
    → Represents base n piece pk [] c.byte_stream.vt_buf nothing c
IsFresh-Represents base n piece pk c f = record {
  below = omega arith;
  ahead_below = tt;
  next = omega (arith, f.next);
  list = f.empty;
  stream = sym (append-nil c.byte_stream.vt_buf);
}

module _ {base n : ℕ} {piece : ℕ → List ℕ} {pk : ℕ → DataPacket} (st : Stream base n piece pk) where
  -- Take packets of one stream, from any set of its `n` packets, in any order and with any
  -- repetitions, on a connection that is fresh. All are processed without an undefined read, and
  -- the byte stream has grown by exactly the first `k` pieces for some `k`, the number that is
  -- expected next is the number of packet `k`, and each of those `k` packets has arrived.
  pub stream_prefix :
      (is : List ℕ) (c : Conn)
      → All (λ i. i < n) is
      → IsFresh base c
      → (c' : Conn) × (k : ℕ) × (on_data_all (map pk is) c ≡ some c')
        × (k ≤ n)
        × (c'.byte_stream.vt_buf ≡ c.byte_stream.vt_buf ++ joined piece k)
        × (c'.next_recv_seq ≡ base + k)
        × All (λ i. member i is ≡ true) (range_from 0 k)
  stream_prefix is c a f =
      let (c', e, r) =
        on_data_all_lem st [] c.byte_stream.vt_buf is nothing c a
          (IsFresh-Represents base n piece pk c f) in
      (
        c',
        (absorb_all is nothing).expected,
        e,
        r.below,
        r.stream,
        r.next,
        All-range_from (absorb_all is nothing).expected 0
            (λ i h. ground (arith, known-absorb_all i is nothing)),
      )

  -- If each of the `n` packets arrives exactly once, in any order, the byte stream has grown by all
  -- pieces in their order, no packet is held back, and packet `n` is expected.
  pub stream_complete :
      (is : List ℕ) (c : Conn)
      → All (λ i. i < n) is
      → Distinct is
      → ((i : ℕ) → member i is ≡ ltb i n)
      → IsFresh base c
      → (c' : Conn) × (on_data_all (map pk is) c ≡ some c')
        × (c'.byte_stream.vt_buf ≡ c.byte_stream.vt_buf ++ joined piece n)
        × (c'.next_recv_seq ≡ base + n)
        × (c'.recv_list ≡ [])
  stream_complete is c a d h f =
      let (c', e, r) =
        on_data_all_lem st [] c.byte_stream.vt_buf is nothing c a
          (IsFresh-Represents base n piece pk c f) in
      let all : absorb_all is nothing ≡ record { expected = n; ahead = [] } =
        absorb_all_complete n is d h in
      (
        c',
        e,
        r.stream ∙ ap (λ s. c.byte_stream.vt_buf ++ joined piece s.expected) all,
        r.next ∙ ap (λ s. base + s.expected) all,
        r.list ∙ ap (λ s. map pk s.ahead) all,
      )
