-- ===== src/Tcp/Socket.antt =====
-- TcpSocketDll/CTcpSocket.h and CTcpSocket.cpp: the state that the application, `SendThreadProc`
-- and `RecvThreadProc` share, and what each does to it. An operation stands for the code between
-- two waits; what it does under a lock is one step. Datagrams that are sent are listed in a result,
-- and whether a call of `sendto` succeeds is an argument.
pub mod Fragments
pub mod Transfer
pub mod Reliable
pub mod Acks
pub mod Resend
pub mod Wakeups
pub mod Isolation
pub mod Reception
pub mod Outbound
pub mod Splices
pub mod Batches
pub mod Taken
use school_system.Base.{
  ℕ, zero, suc, ◌+◌, ◌-◌, ◌/◌, ◌%◌, Bool, true, false, Option, none, some, List, [], ◌∷◌, ◌++◌,
  ◌||◌, ltb, leb, ◌==◌, if◌then◌else◌, ◌>>=◌, length, take, drop, next_int, int_lt, int_mod,
  is_negative,
}
use school_system.Tcp.ByteStream
use school_system.Tcp.Packet.{
  Packet, DataPacket, PackageType, establish_1, establish_2, data_package, ack, code_of, type_of,
  data_packet, data_len, packet_image, data_image, size,
}
use school_system.Tcp.Address.{SockAddr}
use school_system.Tcp.Conn.{
  Conn, ConnMap, Status, no_data, has_data, in_use, new_conn, conn_at, modify,
}
use school_system.Tcp.Receive.{on_data}

-- What a `Packet*` of the send list points at.
pub data Outgoing : Type 0 where
  plain : Packet → Outgoing
  payload : DataPacket → Outgoing

abbrev pub type_of_outgoing : Outgoing → ℕ
type_of_outgoing (plain p) = p.n_type
type_of_outgoing (payload p) = p.n_type

abbrev pub seq_of : Outgoing → ℕ
seq_of (plain p) = p.n_seq
seq_of (payload p) = p.n_seq

-- `SendListNode`; a time of 0 stands for a packet that was not sent yet.
pub record SendListNode : Type 0 where
  pub time : ℕ
  pub addr : SockAddr
  pub packet : Outgoing

-- `CTcpSocket`
pub record TcpSocket : Type 0 where
  pub connect_map : ConnMap
  pub send_list : List SendListNode

pub record Datagram : Type 0 where
  pub to : SockAddr
  pub content : List ℕ

-- The loop of `Send`: `cnt` full packets, from the number `seq` on. The results are the next
-- number, the rest of the buffer and the send list.
unfoldable pub full_packets :
    ℕ → SockAddr → ℕ → List ℕ → List SendListNode → ℕ × List ℕ × List SendListNode
full_packets zero addr seq buf nodes = (seq, buf, nodes)
full_packets (suc cnt) addr seq buf nodes =
    full_packets cnt addr (next_int seq) (drop data_len buf) (
      nodes
      ++ record {
        time = 0;
        addr = addr;
        packet = payload (data_packet (code_of data_package) seq data_len buf);
      }
        ∷ [])

-- The last packet, if a part of a packet is left.
unfoldable pub last_packet : ℕ → SockAddr → ℕ × List ℕ × List SendListNode → ℕ × List SendListNode
last_packet rest addr (seq, buf, nodes) = if rest == 0 then (seq, nodes) else (
  next_int seq,
  nodes
      ++ record {
        time = 0;
        addr = addr;
        packet = payload (data_packet (code_of data_package) seq rest buf);
      }
        ∷ [],
)

abbrev pub put_packets : TcpSocket → SockAddr → ℕ × List SendListNode → TcpSocket
put_packets s addr (seq, nodes) = record {
  connect_map = modify addr (λ c. record c { next_send_seq = seq }) s.connect_map;
  send_list = nodes;
}

-- `CTcpSocket::Send`. `none` stands for a read behind the buffer. A negative length is cut into no
-- packet if it is a multiple of 1024, and else makes a copy of a negative size.
unfoldable pub send : TcpSocket → SockAddr → List ℕ → ℕ → Option (TcpSocket × ℕ)
send s addr buf len =
    if is_negative len
    then (if len % data_len == 0
        then some (record s { connect_map = modify addr (λ c. c) s.connect_map }, len)
        else none)
    else if leb len (length buf)
    then some (
      put_packets s addr (
          last_packet (len % data_len) addr (
            full_packets (len / data_len) addr (conn_at addr s.connect_map).next_send_seq buf
              s.send_list)),
      len,
    )
    else none

-- What a call of `Recv` does at one look at the stream: it waits while the stream is empty, and
-- else takes what there is, up to the size of the buffer. A negative size is undefined.
pub data Receipt (A : Type 0) : Type 0 where
  waits : Receipt A
  gets : A → Receipt A
  undefined : Receipt A

-- A receipt, and what is done with it.
abbrev pub and_then : {A B : Type 0} → Receipt A → (A → Receipt B) → Receipt B
and_then waits f = waits
and_then (gets a) f = f a
and_then undefined f = undefined

-- `min(nStreamSize, nBufLen)`
abbrev min_int : ℕ → ℕ → ℕ
min_int a b = if int_lt b a then b else a

of_read : Option (List ℕ × ByteStream.ByteStream) → Receipt (List ℕ × ByteStream.ByteStream)
of_read none = undefined
of_read (some r) = gets r

-- The body of `Recv`, on the stream of the connection.
unfoldable pub take_bytes : ByteStream.ByteStream → ℕ → Receipt (List ℕ × ByteStream.ByteStream)
unfolding of_read
take_bytes b buf_len =
    if ByteStream.get_size b == 0
    then waits
    else of_read (ByteStream.read b (min_int (ByteStream.get_size b) buf_len))

abbrev pub put_stream : TcpSocket → SockAddr → ByteStream.ByteStream → TcpSocket
put_stream s addr b = record s {
  connect_map = modify addr (λ c. record c { byte_stream = b }) s.connect_map;
}

abbrev pub put_receipt :
    TcpSocket → SockAddr → Receipt (List ℕ × ByteStream.ByteStream) → Receipt (List ℕ × TcpSocket)
put_receipt s addr waits = waits
put_receipt s addr (gets (bytes, b)) = gets (bytes, put_stream s addr b)
put_receipt s addr undefined = undefined

-- `CTcpSocket::Recv`; the bytes are those that it writes to the buffer.
unfoldable pub recv : TcpSocket → SockAddr → ℕ → Receipt (List ℕ × TcpSocket)
recv s addr buf_len =
    put_receipt s addr (take_bytes (conn_at addr s.connect_map).byte_stream buf_len)

-- `n.m_time == 0 || clock() - n.m_time >= 1000`, when `clock()` returns `now`
unfoldable pub is_due : ℕ → SendListNode → Bool
is_due now n = n.time == 0 || leb 1000 (now - n.time)

-- What the `switch` on a packet's type hands to `sendto`: nothing for a type that it has no case
-- for. Only a `DataPacket` may be cast to one.
pub data Emission : Type 0 where
  nothing : Emission
  image : List ℕ → Emission
  bad_cast : Emission

abbrev head_image : Outgoing → List ℕ
head_image p = packet_image (record { n_type = type_of_outgoing p; n_seq = seq_of p })

abbrev whole_image : Outgoing → Emission
whole_image (plain p) = bad_cast
whole_image (payload p) = image (data_image p)

abbrev pub emission_by : Option PackageType → Outgoing → Emission
emission_by none p = nothing
emission_by (some establish_1) p = image (head_image p)
emission_by (some establish_2) p = image (head_image p)
emission_by (some data_package) p = whole_image p
emission_by (some ack) p = nothing

unfoldable pub emission : Outgoing → Emission
emission p = emission_by (type_of (type_of_outgoing p)) p

-- How a thread's turn ends: it goes on, it returns because a call of the system failed, or what it
-- does is undefined.
pub data Ending : Type 0 where
  goes_on returns undefined : Ending

-- One turn of `SendThreadProc`: the send list after it, and the datagrams that were sent. It holds
-- `m_sendListLock` all the time, and does not release it where it returns.
pub record Pass : Type 0 where
  pub nodes : List SendListNode
  pub sent : List Datagram
  pub ending : Ending

-- What the system answers in a turn: the two readings of `clock()` at node `i`, and whether
-- `sendto` succeeds there.
pub record Answers : Type 0 where
  pub clock_test : ℕ → ℕ
  pub clock_set : ℕ → ℕ
  pub sendto_ok : ℕ → Bool

abbrev keeps : SendListNode → Pass → Pass
keeps n r = record r { nodes = n ∷ r.nodes }

abbrev sends : Datagram → SendListNode → Pass → Pass
sends d n r = record r { nodes = n ∷ r.nodes; sent = d ∷ r.sent }

abbrev stops : List SendListNode → Ending → Pass
stops ns e = record { nodes = ns; sent = []; ending = e }

abbrev pub pass_node : ℕ → Bool → SendListNode → List SendListNode → Emission → Pass → Pass
pass_node now ok n ns nothing rest = keeps (record n { time = now }) rest
pass_node now ok n ns (image b) rest =
    if ok
    then sends (record { to = n.addr; content = b }) (record n { time = now }) rest
    else stops (n ∷ ns) returns
pass_node now ok n ns bad_cast rest = stops (n ∷ ns) undefined

-- The loop of `SendThreadProc` over the send list, from node `i` on.
unfoldable pub resend : Answers → ℕ → List SendListNode → Pass
unfolding is_due emission
resend w i [] = record { nodes = []; sent = []; ending = goes_on }
resend w i (n ∷ ns) =
    let rest = resend w (suc i) ns in
    if is_due (w.clock_test i) n
    then pass_node (w.clock_set i) (w.sendto_ok i) n ns (emission n.packet) rest
    else keeps n rest

-- The case `ACK`: the first packet with the number goes, whatever its address and type.
unfoldable pub remove_acked : ℕ → List SendListNode → List SendListNode
remove_acked seq [] = []
remove_acked seq (n ∷ ns) = if seq_of n.packet == seq then ns else n ∷ remove_acked seq ns

-- What one turn of `RecvThreadProc` does with a packet.
pub record Handled : Type 0 where
  pub socket : TcpSocket
  pub sent : List Datagram
  pub ending : Ending

abbrev pub ack_for : SockAddr → ℕ → Datagram
ack_for to seq = record {
  to = to;
  content = packet_image (record { n_type = code_of ack; n_seq = seq });
}

-- `m_connectMap[fromAddr]`, which makes a connection where there is none
abbrev pub touch : SockAddr → TcpSocket → TcpSocket
touch a s = record s { connect_map = modify a (λ c. c) s.connect_map }

abbrev pub established : SockAddr → DataPacket → TcpSocket → TcpSocket
established from p s = record {
  connect_map =
      modify from (λ c. record c { next_send_seq = next_int 0; next_recv_seq = next_int p.n_seq })
        s.connect_map;
  send_list =
      s.send_list
      ++ record {
        time = 0;
        addr = from;
        packet = plain (record { n_type = code_of establish_2; n_seq = 0 });
      }
        ∷ [];
}

abbrev pub put_conn : TcpSocket → SockAddr → Option Conn → List Datagram → Handled
put_conn s a none sent = record { socket = s; sent = sent; ending = undefined }
put_conn s a (some c) sent = record {
  socket = record s { connect_map = modify a (λ _. c) s.connect_map };
  sent = sent;
  ending = goes_on;
}

abbrev pub handle_by : Option PackageType → TcpSocket → SockAddr → DataPacket → Bool → Handled
handle_by none s from p ok = record { socket = touch from s; sent = []; ending = goes_on }
handle_by (some establish_1) s from p ok = record {
  socket = established from p s;
  sent = [];
  ending = goes_on;
}
handle_by (some establish_2) s from p ok =
    if ok
    then record { socket = touch from s; sent = ack_for from p.n_seq ∷ []; ending = goes_on }
    else record { socket = touch from s; sent = []; ending = returns }
handle_by (some data_package) s from p ok =
    if ok
    then put_conn s from (on_data p (conn_at from s.connect_map)) (ack_for from p.n_seq ∷ [])
    else record { socket = touch from s; sent = []; ending = returns }
handle_by (some ack) s from p ok = record {
  socket = record (touch from s) { send_list = remove_acked p.n_seq s.send_list };
  sent = [];
  ending = goes_on;
}

-- A turn of `RecvThreadProc` with packet `p` from `from`; `ok` says whether `sendto` succeeds.
unfoldable pub on_packet : TcpSocket → SockAddr → DataPacket → Bool → Handled
on_packet s from p ok = handle_by (type_of p.n_type) s from p ok
