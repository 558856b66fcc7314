-- ===== src/Tcp/Channel/Guarantees.antt =====
-- What a channel promises to the program that calls `Send` on one side and `Recv` on the other.
use school_system.Base.{ℕ, ◌≡◌, sym, ap, ◌∙◌, List, ◌++◌, append_assoc}
use school_system.Tcp.Address.{SockAddr}
use school_system.Tcp.Socket.Reception.{stream_at}
use school_system.Tcp.Channel.{Channel, Reach}
use school_system.Tcp.Channel.Growth.{joined_front}
use school_system.Tcp.Channel.Reached.{Reach-Flow}

-- A channel is a queue of bytes: take a connection after its handshake, whose sender sends to this
-- receiver only, on which no first packet comes once more, and whose numbers, and the sizes given
-- to `Send`, stay below 2 ^ 31. Whatever data and acknowledgements the network loses, gives again
-- or gives in another order, and however the threads of the two sides take turns, what `Recv` has
-- given, and behind it what stands in the receiver's stream, are the first bytes of what was given
-- to `Send`, in their order.
pub in_order :
    {there here : SockAddr} {base : ℕ} {x : Channel}
    → Reach there here base x
    → (rest : List ℕ) × (x.sent ≡ x.taken ++ (stream_at here x.receiver ++ rest))
in_order {here} {x} r =
    let v = Reach-Flow r in
    let piece = v.made.batch.piece in
    let (rest, e) = joined_front piece v.n v.arrived.expected v.reassembly.below in
    (
      rest,
      sym v.made.batch.whole
          ∙ e
          ∙ ap (λ b. b ++ rest) (sym v.reassembly.stream)
          ∙ append_assoc x.taken (stream_at here x.receiver) rest,
    )
