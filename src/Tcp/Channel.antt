-- ===== src/Tcp/Channel.antt =====
-- CTcpSocket.cpp on both sides of a connection, after the handshake: one direction of it, with what one
-- side sends and a network that may lose datagrams, give them again, and change their order; and what
-- the threads of both sides do besides. The side that sends is a client: it sends to this receiver
-- only. Its first packet does not come once more.
pub mod Lists
pub mod Growth
pub mod Flow
pub mod Steps
pub mod Kept
pub mod Reached
pub mod Guarantees
pub mod Progress
pub mod Connected
pub mod Elsewhere
use school_system.Base.{
  ℕ, ◌+◌, ◌<◌, ◌≡◌, List, [], ◌∷◌, ◌++◌, Option, some, Bool, length, int_limit, ◌⊎◌,
}
use school_system.Tcp.Address.{SockAddr}
use school_system.Tcp.Packet.{
  DataPacket, PackageType, establish_2, data_package, ack, code_of, type_of, received,
}
use school_system.Tcp.Conn.{ConnMap, conn_at}
use school_system.Tcp.Server.{poll, unselect}
use school_system.Tcp.Socket.Isolation.{DifferentKeys}
use school_system.Tcp.Receive.Delivery.{IsFresh}
use school_system.Tcp.Socket.{
  TcpSocket, Datagram, gets, Answers, resend, goes_on, on_packet, send, recv,
}
use school_system.Tcp.Socket.Fragments.{fragment_count}
use school_system.Tcp.Socket.Reception.{stream_at}

-- `datagrams` and `acks` have all that was ever handed to `sendto`, on the side that sends and on the
-- side that receives: one that is lost stands there and is not taken, and one that comes twice is
-- taken twice. `sent` has the bytes that were given to `Send`, and `taken` those that `Recv` gave.
pub record Channel : Type 0 where
  pub sender : TcpSocket
  pub receiver : TcpSocket
  pub datagrams : List Datagram
  pub acks : List Datagram
  pub sent : List ℕ
  pub taken : List ℕ

abbrev pub opened : TcpSocket → TcpSocket → Channel
opened s r = record { sender = s; receiver = r; datagrams = []; acks = []; sent = []; taken = [] }

-- `there` is the receiver's address, as the sender has it, and `here` the sender's.
module _ (there here : SockAddr) where
  -- One turn of one thread on either side. Left out are: a packet whose number, and a call of
  -- `Send` whose size, is 2 ^ 31 or more; a
  -- sender that sends to others, too; and a first packet (`ESTABLISH_1`) that comes once more.
  pub data Step (x y : Channel) : Type 0 where
    sends :
        (buf : List ℕ) (s : TcpSocket)
        → length buf < int_limit
        → (conn_at there x.sender.connect_map).next_send_seq + fragment_count (length buf)
          < int_limit
        → send x.sender there buf (length buf) ≡ some (s, length buf)
        → y ≡ record x { sender = s; sent = x.sent ++ buf }
        → Step x y
    transmits :
        (w : Answers)
        → y ≡ record x {
          sender = record x.sender { send_list = (resend w 0 x.sender.send_list).nodes };
          datagrams = x.datagrams ++ (resend w 0 x.sender.send_list).sent;
        }
        → Step x y
    arrives :
        (before : List Datagram) (d : Datagram) (after : List Datagram) (p : DataPacket) (ok : Bool)
        → x.datagrams ≡ before ++ d ∷ after
        → received d.content ≡ some p
        → (on_packet x.receiver here p ok).ending ≡ goes_on
        → y ≡ record x {
          receiver = (on_packet x.receiver here p ok).socket;
          acks = x.acks ++ (on_packet x.receiver here p ok).sent;
        }
        → Step x y
    acknowledged :
        (before : List Datagram) (d : Datagram) (after : List Datagram) (p : DataPacket) (ok : Bool)
        → x.acks ≡ before ++ d ∷ after
        → received d.content ≡ some p
        → y ≡ record x { sender = (on_packet x.sender there p ok).socket }
        → Step x y
    takes :
        (n : ℕ) (bytes : List ℕ) (r : TcpSocket)
        → recv x.receiver here n ≡ gets (bytes, r)
        → y ≡ record x { receiver = r; taken = x.taken ++ bytes }
        → Step x y
    -- The other direction: the sender gets data, or the answer of the handshake once more, and takes
    -- data; the receiver sends, and gets acknowledgements.
    hears_back :
        (from : SockAddr) (p : DataPacket) (ok : Bool) (t : PackageType)
        → type_of p.n_type ≡ some t
        → (t ≡ data_package) ⊎ (t ≡ establish_2)
        → (on_packet x.sender from p ok).ending ≡ goes_on
        → y ≡ record x { sender = (on_packet x.sender from p ok).socket }
        → Step x y
    takes_back :
        (from : SockAddr) (n : ℕ) (bytes : List ℕ) (s : TcpSocket)
        → recv x.sender from n ≡ gets (bytes, s)
        → y ≡ record x { sender = s }
        → Step x y
    answers :
        (to : SockAddr) (buf : List ℕ) (len n : ℕ) (r : TcpSocket)
        → send x.receiver to buf len ≡ some (r, n)
        → y ≡ record x { receiver = r }
        → Step x y
    transmits_back :
        (w : Answers)
        → y ≡ record x {
          receiver = record x.receiver { send_list = (resend w 0 x.receiver.send_list).nodes };
        }
        → Step x y
    acknowledged_back :
        (from : SockAddr) (p : DataPacket) (ok : Bool)
        → p.n_type ≡ code_of ack
        → y ≡ record x { receiver = (on_packet x.receiver from p ok).socket }
        → Step x y
    -- The receiver has other clients, and serves all.
    hears_other :
        (from : SockAddr) (p : DataPacket) (ok : Bool)
        → DifferentKeys from here
        → (on_packet x.receiver from p ok).ending ≡ goes_on
        → y ≡ record x { receiver = (on_packet x.receiver from p ok).socket }
        → Step x y
    takes_other :
        (from : SockAddr) (n : ℕ) (bytes : List ℕ) (r : TcpSocket)
        → DifferentKeys from here
        → recv x.receiver from n ≡ gets (bytes, r)
        → y ≡ record x { receiver = r }
        → Step x y
    selects :
        (a : SockAddr) (m : ConnMap)
        → poll x.receiver.connect_map ≡ some (a, m)
        → y ≡ record x { receiver = record x.receiver { connect_map = m } }
        → Step x y
    unselects :
        (a : SockAddr)
        → y ≡ record x {
          receiver = record x.receiver { connect_map = unselect a x.receiver.connect_map };
        }
        → Step x y

  -- The states that the two sides reach, if the sender's next number is `base`, the receiver waits
  -- for it, and nothing is on the way or in the stream.
  pub data Reach (base : ℕ) : Channel → Type 0 where
    start :
        (s r : TcpSocket)
        → (conn_at there s.connect_map).next_send_seq ≡ base
        → base < int_limit
        → s.send_list ≡ []
        → IsFresh base (conn_at here r.connect_map)
        → stream_at here r ≡ []
        → Reach base (opened s r)
    next : {x y : Channel} → Reach base x → Step x y → Reach base y
