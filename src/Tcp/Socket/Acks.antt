-- ===== src/Tcp/Socket/Acks.antt =====
-- Acknowledgements: which packet of the send list an `ACK` takes off.
use school_system.Base.{
  ℕ, ◌≡◌, refl, ap, ◌∙◌, ◌⊎◌, inl, inr, Bool, false, List, [], ◌∷◌, ◌++◌, arith, ◌==◌, All,
  Bool-cases, ==_iff,
}
use school_system.Tcp.Packet.{DataPacket, code_of, ack}
use school_system.Tcp.Address.{SockAddr}
use school_system.Tcp.Socket.{TcpSocket, SendListNode, seq_of, remove_acked, on_packet}

-- No packet of the list has the number.
abbrev pub Free : ℕ → List SendListNode → Type 0
Free q = All (λ n. (seq_of n.packet == q) ≡ false)

-- Either no packet has the number, and the list stays; or it falls into packets with other
-- numbers, the first packet with the number, and the rest, and that one packet is taken out.
pub remove_acked_lem :
    (q : ℕ) (ns : List SendListNode)
    → (Free q ns × (remove_acked q ns ≡ ns))
      ⊎ ((before : List SendListNode) × (n : SendListNode) × (after : List SendListNode) × (ns
            ≡ before ++ n ∷ after)
          × Free q before
          × (seq_of n.packet ≡ q)
          × (remove_acked q ns ≡ before ++ after))
unfolding remove_acked
remove_acked_lem q [] = inl (tt, refl)
remove_acked_lem q (n ∷ ns) = elim (Bool-cases (seq_of n.packet == q)) [
  | inl hit ↦ inr ([], n, ns, refl, tt, (==_iff (seq_of n.packet) q).0 hit, rw hit)
  | inr miss ↦ elim (remove_acked_lem q ns) [
    | inl (f, e) ↦ inl ((miss, f), rw miss (ap (◌∷◌ n) e))
    | inr (b, m, a, e, f, s, r) ↦
        inr (n ∷ b, m, a, ap (◌∷◌ n) e, (miss, f), s, rw miss (ap (◌∷◌ n) r))
  ]
]

pub remove_acked_first :
    (q : ℕ) (before : List SendListNode) (n : SendListNode) (after : List SendListNode)
    → Free q before
    → seq_of n.packet ≡ q
    → remove_acked q (before ++ n ∷ after) ≡ before ++ after
unfolding remove_acked
remove_acked_first q [] n after f e = ground arith
remove_acked_first q (m ∷ before) n after f e =
    rw f.0 (ap (◌∷◌ m) (remove_acked_first q before n after f.1 e))

-- An acknowledgement takes the first packet with its number off the send list, to whichever
-- address that packet is bound; the list keeps every other packet.
pub on_ack :
    (s : TcpSocket) (from : SockAddr) (p : DataPacket) (ok : Bool) (before : List SendListNode)
    (n : SendListNode) (after : List SendListNode)
    → p.n_type ≡ code_of ack
    → s.send_list ≡ before ++ n ∷ after
    → Free p.n_seq before
    → seq_of n.packet ≡ p.n_seq
    → (on_packet s from p ok).socket.send_list ≡ before ++ after
unfolding on_packet
on_ack s from p ok before n after t l f e =
    rw t (ap (remove_acked p.n_seq) l ∙ remove_acked_first p.n_seq before n after f e)
