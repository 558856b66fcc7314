-- ===== src/Tcp/Receive/Stall.antt =====
-- A weakness of reassembly: a packet that is received twice while it has to wait stays at the head
-- of the waiting list for ever, and holds back those behind it.
use school_system.Base.{
  ℕ, suc, ◌+◌, ◌≤◌, ◌<◌, ◌≡◌, refl, false, some, List, [], ◌∷◌, ◌++◌, map, arith, All, ltb, ◌==◌,
  if◌then◌else◌,
}
use school_system.Tcp.Packet.{DataPacket}
use school_system.Tcp.Conn.{Conn}
use school_system.Tcp.Receive.{on_data_all}
use school_system.Tcp.Receive.Index.{advance, insert_index, absorb, absorb_all, nothing, member}
use school_system.Tcp.Receive.Refine.{Stream, joined, on_data_all_lem}
use school_system.Tcp.Receive.Delivery.{IsFresh, IsFresh-Represents}

-- If the head of the waiting list has been delivered already, a packet is delivered only when it
-- arrives at its turn, and the head stays.
absorb_stale :
    (i k j : ℕ) (js : List ℕ)
    → j < k
    → absorb i (record { expected = k; ahead = j ∷ js }) ≡ record {
      expected = if i == k then suc k else k;
      ahead = j ∷ (if ltb k i then insert_index i js else js);
    }
unfolding absorb advance insert_index
absorb_stale i k j js h = ground arith

absorb_all_stale :
    (is : List ℕ) (k j : ℕ) (js : List ℕ) (x : ℕ)
    → j < k
    → k ≤ x
    → member x is ≡ false
    → (absorb_all is (record { expected = k; ahead = j ∷ js })).expected ≤ x
unfolding absorb_all
absorb_all_stale [] k j js x h l m = l
absorb_all_stale (i ∷ is) k j js x h l m =
    rw (absorb_stale i k j js h, absorb_all)
      (absorb_all_stale is (if i == k then suc k else k) j
        (if ltb k i then insert_index i js else js) x (ground arith) (ground arith) (ground arith))

repeated_first :
    (is : List ℕ)
    → absorb_all (1 ∷ 1 ∷ 0 ∷ 3 ∷ is) nothing
      ≡ absorb_all is (record { expected = 2; ahead = 1 ∷ 3 ∷ [] })
unfolding absorb_all absorb advance insert_index
repeated_first is = refl

-- On a fresh connection packet 1 arrives twice, then packets 0 and 3. Whatever arrives afterwards,
-- if it is not packet 3 once more, the stream never grows beyond the first three pieces: packet 3,
-- although it was received, is not delivered, even after packet 2 has arrived.
pub duplicate_starves :
    {base n : ℕ} {piece : ℕ → List ℕ} {pk : ℕ → DataPacket} (st : Stream base n piece pk)
    (is : List ℕ) (c : Conn)
    → 3 < n
    → All (λ i. i < n) is
    → member 3 is ≡ false
    → IsFresh base c
    → (c' : Conn) × (k : ℕ) × (on_data_all (map pk (1 ∷ 1 ∷ 0 ∷ 3 ∷ is)) c ≡ some c')
      × (k ≤ 3)
      × (c'.byte_stream.vt_buf ≡ c.byte_stream.vt_buf ++ joined piece k)
      × (c'.next_recv_seq ≡ base + k)
duplicate_starves {base} {n} {piece} {pk} st is c h a m f =
    let (c', e, r) =
      on_data_all_lem st [] c.byte_stream.vt_buf (1 ∷ 1 ∷ 0 ∷ 3 ∷ is) nothing c
        (omega arith, (omega arith, (omega arith, (h, a))))
        (IsFresh-Represents base n piece pk c f) in
    (
      c',
      (absorb_all (1 ∷ 1 ∷ 0 ∷ 3 ∷ is) nothing).expected,
      e,
      rw (repeated_first is) (absorb_all_stale is 2 1 (3 ∷ []) 3 (omega arith) (omega arith) m),
      r.stream,
      r.next,
    )
