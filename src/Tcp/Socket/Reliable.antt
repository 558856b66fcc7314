-- ===== src/Tcp/Socket/Reliable.antt =====
-- `Send` on one side, `SendThreadProc` behind it, and `RecvThreadProc` on the other side.
use school_system.Base.{
  ℕ, ◌+◌, ◌≤◌, ◌<◌, ◌≡◌, refl, sym, ap, ◌∙◌, true, some, List, [], ◌∷◌, ◌++◌, map, ltb, All, length,
  take, range_from, int_limit,
}
use school_system.Tcp.Packet.{DataPacket, data_packet, data_package, code_of, data_image}
use school_system.Tcp.Address.{SockAddr}
use school_system.Tcp.Conn.{conn_at}
use school_system.Tcp.Receive.Index.{member, Distinct}
use school_system.Tcp.Receive.Delivery.{IsFresh}
use school_system.Tcp.Socket.{TcpSocket, Answers, send, resend}
use school_system.Tcp.Socket.Fragments.{fragment, fragment_count, queued, send_lem}
use school_system.Tcp.Socket.Resend.{resend_new}
use school_system.Tcp.Socket.Reception.{stream_at}
use school_system.Tcp.Socket.Batches.{arrivals, part-Batch, Batch-stream}

map-after {ℓ κ ι} :
    {A : Type ℓ} {B : Type κ} {C : Type ι} (f : B → C) (g : A → B) (xs : List A)
    → map f (map g xs) ≡ map (λ x. f (g x)) xs
map-after f g [] = refl
map-after f g (x ∷ xs) = ap (◌∷◌ (f (g x))) (map-after f g xs)

fragments-typed :
    (seq : ℕ) (buf : List ℕ) (len : ℕ) (is : List ℕ)
    → All (λ p. p.n_type ≡ code_of data_package) (map (fragment seq buf len) is)
unfolding fragment data_packet
fragments-typed seq buf len [] = tt
fragments-typed seq buf len (i ∷ is) = (refl, fragments-typed seq buf len is)

-- The transport is reliable: `Send` of `len` bytes that the buffer has, fewer than 2 ^ 31, on a
-- connection whose numbers stay below 2 ^ 31, returns `len`, and puts ⌈len / 1024⌉ data packets
-- behind what stands on the send list. A turn of the send thread over these, in which every
-- `sendto` succeeds, sends their images, each once and in order. And if these datagrams reach a
-- socket that waits for the sender's number and holds nothing back of the sender, each exactly once
-- and in any order, then the receive thread goes on after each, the sender's stream has grown by
-- exactly the `len` bytes in order, and the socket waits for the next number and holds nothing
-- back.
pub reliable_transfer :
    (s : TcpSocket) (to : SockAddr) (buf : List ℕ) (len : ℕ) (w : Answers) (r : TcpSocket)
    (from : SockAddr) (is : List ℕ)
    → len < int_limit
    → len ≤ length buf
    → (conn_at to s.connect_map).next_send_seq + fragment_count len < int_limit
    → ((j : ℕ) → w.sendto_ok j ≡ true)
    → All (λ i. i < fragment_count len) is
    → Distinct is
    → ((i : ℕ) → member i is ≡ ltb i (fragment_count len))
    → IsFresh (conn_at to s.connect_map).next_send_seq (conn_at from r.connect_map)
    → (s' : TcpSocket) × (packet : ℕ → DataPacket) × (r' : TcpSocket) × (send s to buf len
        ≡ some (s', len))
      × (s'.send_list
          ≡ s.send_list ++ map (λ i. queued to (packet i)) (range_from 0 (fragment_count len)))
      × ((resend w 0 (map (λ i. queued to (packet i)) (range_from 0 (fragment_count len)))).sent
          ≡ map
              (λ i. record { to = to; content = data_image (packet i) })
              (range_from 0 (fragment_count len)))
      × (arrivals from (map (λ i. data_image (packet i)) is) r ≡ some r')
      × (stream_at from r' ≡ stream_at from r ++ take len buf)
      × IsFresh
          ((conn_at to s.connect_map).next_send_seq + fragment_count len)
          (conn_at from r'.connect_map)
reliable_transfer s to buf len w r from is small fits room ok a d h f =
    let seq = (conn_at to s.connect_map).next_send_seq in
    let numbers = range_from 0 (fragment_count len) in
    let packet = fragment seq buf len in
    let (r', arrive, stream, fresh, _) =
      Batch-stream (part-Batch seq buf len fits room) is from r a d h f in
    let (sent, _) =
      resend_new w 0 to (map packet numbers) ok (fragments-typed seq buf len numbers) in
    (
      _,
      packet,
      r',
      send_lem s to buf len small fits room,
      refl,
      ap (λ ns. (resend w 0 ns).sent) (sym (map-after (queued to) packet numbers))
          ∙ sent
          ∙ map-after (λ p. record { to = to; content = data_image p }) packet numbers,
      arrive,
      stream,
      fresh,
    )
