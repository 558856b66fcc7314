-- ===== src/Tcp/System/Bounds.antt =====
-- What the threads of a server's socket hand to the system, in every state that they can reach.
use school_system.Base.{ℕ, ◌≤◌, ◌≡◌, sym, subst, ◌≢◌, List, length, All, Holds}
use school_system.Tcp.Address.{SockAddr}
use school_system.Tcp.Packet.{image_len}
use school_system.Tcp.ByteStream.{ByteStream}
use school_system.Tcp.Socket.{
  TcpSocket, Receipt, waits, gets, undefined, Answers, resend, put_receipt, recv, take_bytes,
}
use school_system.Tcp.Conn.{conn_at}
use school_system.Tcp.Socket.Outbound.{
  AllSendable, resend-Bounded, resend-Sendable, on_packet-Sendable, send-Sendable,
}
use school_system.Tcp.System.{
  Step, arrives, transmits, sends, receives, selects, unselects, Reach, start, next,
}

put_receipt_keeps :
    (s t : TcpSocket) (a : SockAddr) (r : Receipt (List ℕ × ByteStream)) (bytes : List ℕ)
    → put_receipt s a r ≡ gets (bytes, t)
    → t.send_list ≡ s.send_list
put_receipt_keeps s t a waits bytes e = cc
put_receipt_keeps s t a (gets (b, c)) bytes e = cc
put_receipt_keeps s t a undefined bytes e = cc

Step-Sendable : {s t : TcpSocket} → Step s t → AllSendable s.send_list → AllSendable t.send_list
unfolding recv
Step-Sendable {s} (arrives from p ok goes e) h =
    subst (λ u. AllSendable u.send_list) (sym e) (on_packet-Sendable s from p ok h)
Step-Sendable {s} (transmits w e) h =
    subst (λ u. AllSendable u.send_list) (sym e) (resend-Sendable w 0 s.send_list h)
Step-Sendable {s} (sends to buf len n e) h =
    subst (Holds (λ r. AllSendable r.0.send_list)) e (send-Sendable s to buf len h)
Step-Sendable {s} {t} (receives from n bytes e) h =
    subst AllSendable
      (sym (
        put_receipt_keeps s t from (take_bytes (conn_at from s.connect_map).byte_stream n) bytes e))
      h
Step-Sendable (selects a m found e) h = subst (λ u. AllSendable u.send_list) (sym e) h
Step-Sendable (unselects a small e) h = subst (λ u. AllSendable u.send_list) (sym e) h

pub Reach-Sendable : {s : TcpSocket} → Reach s → AllSendable s.send_list
Reach-Sendable start = tt
Reach-Sendable (next r st) = Step-Sendable st (Reach-Sendable r)

-- In every state that the threads can reach, in any interleaving of their turns and whatever the
-- system answers, a turn of the send thread hands no datagram to `sendto` that is longer than the
-- buffer of the receiver, 1036 bytes, and never casts a `Packet` to a `DataPacket`.
pub datagram_bounds :
    {s : TcpSocket}
    → Reach s
    → (w : Answers)
    → All (λ d. length d.content ≤ image_len) (resend w 0 s.send_list).sent
      × ((resend w 0 s.send_list).ending ≢ undefined)
datagram_bounds {s} r w = resend-Bounded w 0 s.send_list (Reach-Sendable r)
