-- ===== src/Tests/System.antt =====
-- TcpSocketDll: a critical section that lists its owners, a send thread that returns, and what the
-- threads send in a reachable state.
use school_system.Base.{
  ℕ, ◌≡◌, ◌≢◌, refl, sym, ap, ◌∙◌, of_some, inl, true, false, Option, some, none, List, [], ◌∷◌,
  arith, ◌==◌, if◌then◌else◌,
}
use school_system.Tcp.Packet.{DataPacket}
use school_system.Tcp.Address.{SockAddr}
use school_system.Tcp.Socket.{waits, gets, Answers, resend, is_due, emission}
use school_system.Tcp.Socket.Fragments.{queued}
use school_system.Tcp.Lock.{
  CriticalSection, IsExclusive, Shared, Turned, lock, send_locked, send_turn, packet_turn,
}
use school_system.Tcp.Lock.Blocking.{send_thread_gone}

-- The owner, as often as it has entered.
abbrev entered_by : ℕ → List ℕ → Option (List ℕ)
entered_by t [] = some (t ∷ [])
entered_by t (o ∷ os) = if t == o then some (t ∷ o ∷ os) else none

abbrev left_by : ℕ → List ℕ → List ℕ
left_by t [] = []
left_by t (o ∷ os) = os

abbrev owners : CriticalSection (List ℕ)
owners = record { initialize = []; delete = λ l. l; enter = entered_by; leave = left_by }

entered_lem : (t : ℕ) (l l' : List ℕ) → entered_by t l ≡ some l' → l' ≡ t ∷ l
entered_lem t [] l' e = sym (of_some e)
entered_lem t (o ∷ os) l' e = ground arith

others_wait : (t u : ℕ) (l : List ℕ) → t ≢ u → entered_by u (t ∷ l) ≡ none
others_wait t u l d = ground arith

owners-IsExclusive : IsExclusive owners
owners-IsExclusive = record {
  exclusive = λ t u l l' e d. ap (entered_by u) (entered_lem t l l' e) ∙ others_wait t u l d;
  given_back = λ t l l' e. ap (left_by t) (entered_lem t l l' e);
  free_at_first = λ t e. cc;
}

abbrev dave : SockAddr
dave = record { sin_family = 2; sin_port = 3000; s_addr = 7 }

abbrev small_packet : DataPacket
small_packet = record { n_type = 2; n_seq = 1; n_len = 1; bytes = 9 ∷ [] }

abbrev unsent : Shared (List ℕ)
unsent = record {
  socket = record { connect_map = []; send_list = queued dave small_packet ∷ [] };
  send_list_lock = [];
}

-- The network is down.
abbrev failing : Answers
failing = record { clock_test = λ _. 5; clock_set = λ _. 5; sendto_ok = λ _. false }

-- Thread 1 has returned, and owns the lock.
abbrev deserted : Turned (List ℕ)
deserted = record { shared = record unsent { send_list_lock = 1 ∷ [] }; sent = []; gone = true }

deserted_lem : send_turn owners 1 failing unsent ≡ gets deserted
unfolding send_turn lock resend is_due emission
deserted_lem = refl

abbrev ack_one : DataPacket
ack_one = record { n_type = 3; n_seq = 1; n_len = 0; bytes = [] }

send_thread_gone_example :
    (send_locked owners 2 dave (7 ∷ []) 1 deserted.shared ≡ waits)
    × (packet_turn owners 2 dave ack_one true deserted.shared ≡ waits)
send_thread_gone_example =
    send_thread_gone owners-IsExclusive 1 failing unsent deserted deserted_lem refl 2 dave (7 ∷ [])
      1 ack_one true (omega arith) (inl refl)
