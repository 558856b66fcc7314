-- ===== src/Tcp/Server.antt =====
-- TcpSocketDll/CTcpServer.cpp: listening, and the choice of a client to serve.
pub mod Selection
use school_system.Base.{
  ℕ, Bool, true, false, Option, none, some, List, [], ◌∷◌, ◌==◌, if◌then◌else◌,
}
use school_system.Tcp.ByteStream
use school_system.Tcp.Address.{SockAddr}
use school_system.Tcp.Conn.{Conn, ConnMap, Status, no_data, has_data, in_use, modify}

-- What the system's socket library answers, and its two conversions.
pub record Network : Type 0 where
  pub socket_ok : Bool
  pub bind_ok : Bool
  pub htons : ℕ → ℕ
  pub inet_pton : List ℕ → ℕ

-- What `Listen` asks of the system, in order.
pub data Request : Type 0 where
  opens_socket : Request
  binds : SockAddr → Request
  starts_send_thread starts_recv_thread : Request

-- `AF_INET`
abbrev pub af_inet : ℕ
af_inet = 2

abbrev pub inet_address : Network → List ℕ → ℕ → SockAddr
inet_address net ip port = record {
  sin_family = af_inet;
  sin_port = net.htons port;
  s_addr = net.inet_pton ip;
}

-- `CTcpServer::Listen`, with the requests that it makes.
unfoldable pub listen : Network → List ℕ → ℕ → List Request × Bool
listen net ip port =
    if net.socket_ok
    then (if net.bind_ok
        then (
          opens_socket
              ∷ binds (inet_address net ip port)
              ∷ starts_send_thread
              ∷ starts_recv_thread
              ∷ [],
          true,
        )
        else (opens_socket ∷ binds (inet_address net ip port) ∷ [], false))
    else (opens_socket ∷ [], false)

abbrev pub is_ready : Status → Bool
is_ready no_data = false
is_ready has_data = true
is_ready in_use = false

abbrev pub behind : SockAddr × Conn → Option (SockAddr × ConnMap) → Option (SockAddr × ConnMap)
behind e none = none
behind e (some (a, m)) = some (a, e ∷ m)

-- One look of `Select` at the connections, in the order of the map: it takes the first that has
-- data which nobody handles. `none` means that it sleeps and looks again.
unfoldable pub poll : ConnMap → Option (SockAddr × ConnMap)
poll [] = none
poll ((a, c) ∷ m) =
    let rest = behind (a, c) (poll m) in
    if is_ready c.status then some (a, (a, record c { status = in_use }) ∷ m) else rest

-- `CTcpServer::UnSelect`: the connection is free again; if more has come in, it is ready at once.
abbrev pub released : Conn → Conn
released c = record c {
  status = if ByteStream.get_size c.byte_stream == 0 then no_data else has_data;
}

unfoldable pub unselect : SockAddr → ConnMap → ConnMap
unselect a m = modify a released m
