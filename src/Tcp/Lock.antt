-- ===== src/Tcp/Lock.antt =====
-- TcpSocketDll/CLock.cpp, and the operations of CTcpSocket.cpp that stand under `m_sendListLock`. The
-- system's critical section is a parameter; a thread is given by a number.
pub mod Blocking
use school_system.Base.{
  ℕ, ◌≡◌, ◌≢◌, refl, sym, ap, ◌∙◌, Bool, true, false, Option, none, some, List,
}
use school_system.Tcp.Address.{SockAddr}
use school_system.Tcp.Packet.{
  DataPacket, PackageType, establish_1, establish_2, data_package, ack, code_of, type_of,
}
use school_system.Tcp.Socket.{
  TcpSocket, Receipt, waits, gets, undefined, and_then, Answers, Ending, goes_on, returns, Pass,
  resend, Handled, on_packet, send, Datagram,
}

-- The system's calls. `enter` gives `none` while it waits.
pub record CriticalSection (L : Type 0) : Type 0 where
  pub initialize : L
  pub delete : L → L
  pub enter : ℕ → L → Option L
  pub leave : ℕ → L → L

-- What the system documents: while a thread owns the section, no other thread enters it; and a
-- thread that leaves gives it back as it was before it entered.
pub record IsExclusive {L : Type 0} (cs : CriticalSection L) : Type 0 where
  pub exclusive : (t u : ℕ) (l l' : L) → cs.enter t l ≡ some l' → t ≢ u → cs.enter u l' ≡ none
  pub given_back : (t : ℕ) (l l' : L) → cs.enter t l ≡ some l' → cs.leave t l' ≡ l
  pub free_at_first : (t : ℕ) → cs.enter t cs.initialize ≢ none

-- A socket with the lock of its send list.
pub record Shared (L : Type 0) : Type 0 where
  pub socket : TcpSocket
  pub send_list_lock : L

-- How a turn of a thread ends, when it does not wait: what it sent, and whether the thread is gone.
pub record Turned (L : Type 0) : Type 0 where
  pub shared : Shared L
  pub sent : List Datagram
  pub gone : Bool

module _ {L : Type 0} (cs : CriticalSection L) where
  -- `CLock::CLock`
  abbrev pub new_lock : L
  new_lock = cs.initialize

  -- `CLock::~CLock`
  abbrev pub drop_lock : L → L
  drop_lock l = cs.delete l

  abbrev entered : TcpSocket → Option L → Receipt (Shared L)
  entered s none = waits
  entered s (some l) = gets (record { socket = s; send_list_lock = l })

  -- `CLock::Lock`
  unfoldable pub lock : ℕ → Shared L → Receipt (Shared L)
  lock t s = entered s.socket (cs.enter t s.send_list_lock)

  -- `CLock::UnLock`
  unfoldable pub unlock : ℕ → Shared L → Shared L
  unlock t s = record s { send_list_lock = cs.leave t s.send_list_lock }

  abbrev sent_locked : ℕ → Shared L → Option (TcpSocket × ℕ) → Receipt (Shared L × ℕ)
  sent_locked t s none = undefined
  sent_locked t s (some (k, n)) = gets (unlock t (record s { socket = k }), n)

  -- `CTcpSocket::Send`, by thread `t`
  unfoldable pub send_locked : ℕ → SockAddr → List ℕ → ℕ → Shared L → Receipt (Shared L × ℕ)
  send_locked t to buf len s =
      and_then (lock t s) λ s'. sent_locked t s' (send s'.socket to buf len)

  abbrev passed : ℕ → Shared L → Pass → Ending → Receipt (Turned L)
  passed t s r goes_on = gets (record {
    shared = unlock t (record s { socket = record s.socket { send_list = r.nodes } });
    sent = r.sent;
    gone = false;
  })
  passed t s r returns = gets (record {
    shared = record s { socket = record s.socket { send_list = r.nodes } };
    sent = r.sent;
    gone = true;
  })
  passed t s r Ending.undefined = undefined

  abbrev with_pass : ℕ → Shared L → Pass → Receipt (Turned L)
  with_pass t s r = passed t s r r.ending

  -- A turn of `SendThreadProc`, which is thread `t`. Where it returns, it does not unlock.
  unfoldable pub send_turn : ℕ → Answers → Shared L → Receipt (Turned L)
  send_turn t w s = and_then (lock t s) λ s'. with_pass t s' (resend w 0 s'.socket.send_list)

  abbrev handled : Shared L → Handled → Ending → Receipt (Turned L)
  handled s h goes_on =
      gets (record { shared = record s { socket = h.socket }; sent = h.sent; gone = false })
  handled s h returns =
      gets (record { shared = record s { socket = h.socket }; sent = h.sent; gone = true })
  handled s h Ending.undefined = undefined

  abbrev with_packet : Shared L → Handled → Receipt (Turned L)
  with_packet s h = handled s h h.ending

  abbrev unlocked : ℕ → Receipt (Turned L) → Receipt (Turned L)
  unlocked t waits = waits
  unlocked t (gets r) = gets (record r { shared = unlock t r.shared })
  unlocked t undefined = undefined

  abbrev packet_by :
      Option PackageType → ℕ → SockAddr → DataPacket → Bool → Shared L → Receipt (Turned L)
  packet_by (some establish_1) t from p ok s =
      and_then (lock t s) λ s'. unlocked t (with_packet s' (on_packet s'.socket from p ok))
  packet_by (some ack) t from p ok s =
      and_then (lock t s) λ s'. unlocked t (with_packet s' (on_packet s'.socket from p ok))
  packet_by (some establish_2) t from p ok s = with_packet s (on_packet s.socket from p ok)
  packet_by (some data_package) t from p ok s = with_packet s (on_packet s.socket from p ok)
  packet_by none t from p ok s = with_packet s (on_packet s.socket from p ok)

  -- A turn of `RecvThreadProc`, which is thread `t`: the cases `ESTABLISH_1` and `ACK` stand under the
  -- lock.
  unfoldable pub packet_turn : ℕ → SockAddr → DataPacket → Bool → Shared L → Receipt (Turned L)
  packet_turn t from p ok s = packet_by (type_of p.n_type) t from p ok s
