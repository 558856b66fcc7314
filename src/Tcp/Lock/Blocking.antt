-- ===== src/Tcp/Lock/Blocking.antt =====
-- Who waits for the lock of the send list.
use school_system.Base.{
  ℕ, ◌≡◌, ◌≢◌, sym, ap, ◌∙◌, ◌⊎◌, inl, inr, Bool, true, false, some, List, Option-cases,
}
use school_system.Tcp.Socket.Reception.{of_gets}
use school_system.Tcp.Address.{SockAddr}
use school_system.Tcp.Packet.{DataPacket, code_of, ack, establish_1}
use school_system.Tcp.Socket.{
  TcpSocket, waits, gets, Answers, Ending, goes_on, returns, Pass, resend,
}
use school_system.Tcp.Lock.{
  CriticalSection, IsExclusive, Shared, Turned, lock, unlock, send_locked, send_turn, packet_turn,
  passed, entered,
}

module _ {L : Type 0} {cs : CriticalSection L} (x : IsExclusive cs) where
  -- How the lock stands after a turn of the send thread that had locked `s`.
  abbrev Left : ℕ → Shared L → Turned L → Type 0
  Left t s r =
      ((r.gone ≡ false) × (r.shared.send_list_lock ≡ cs.leave t s.send_list_lock))
      ⊎ ((r.gone ≡ true) × (r.shared.send_list_lock ≡ s.send_list_lock))

  passed-Left :
      (t : ℕ) (s : Shared L) (p : Pass) (e : Ending) (r : Turned L)
      → passed cs t s p e ≡ gets r
      → Left t s r
  unfolding unlock
  passed-Left t s p goes_on r h =
      let e = of_gets h in inl (sym (ap (λ q. q.gone) e), sym (ap (λ q. q.shared.send_list_lock) e))
  passed-Left t s p returns r h =
      let e = of_gets h in inr (sym (ap (λ q. q.gone) e), sym (ap (λ q. q.shared.send_list_lock) e))
  passed-Left t s p Ending.undefined r h = cc

  waits_for :
      (t u : ℕ) (k : TcpSocket) (l l' : L)
      → cs.enter t l ≡ some l'
      → t ≢ u
      → lock cs u (record { socket = k; send_list_lock = l' }) ≡ waits
  unfolding lock
  waits_for t u k l l' e d = ap (entered cs k) (x.exclusive t u l l' e d)

  -- What a turn of the send thread that ends leaves behind.
  turn_cases :
      (t : ℕ) (w : Answers) (s : Shared L) (r : Turned L)
      → send_turn cs t w s ≡ gets r
      → (l : L) × (cs.enter t s.send_list_lock ≡ some l)
        × Left t (record s { send_list_lock = l }) r
  unfolding send_turn lock
  turn_cases t w s r h = elim (Option-cases (cs.enter t s.send_list_lock)) [
    | inl e ↦ let f = rw e at h in cc
    | inr (l, e) ↦
        let f = rw e at h in
        let pass = resend w 0 s.socket.send_list in
        (l, e, passed-Left t (record s { send_list_lock = l }) pass pass.ending r f)
  ]

  -- A turn of the send thread that goes on leaves the lock as it found it.
  pub send_turn_unlocks :
      (t : ℕ) (w : Answers) (s : Shared L) (r : Turned L)
      → send_turn cs t w s ≡ gets r
      → r.gone ≡ false
      → r.shared.send_list_lock ≡ s.send_list_lock
  send_turn_unlocks t w s r h alive =
      let (l, e, left) = turn_cases t w s r h in
      elim left [ inl (a, k) ↦ k ∙ x.given_back t s.send_list_lock l e | inr (a, k) ↦ cc ]

  -- A send thread that has returned, as it does where `sendto` fails, is gone with the lock, if a
  -- section stays entered whose owner has returned: whoever sends afterwards, to any address and
  -- whatever the bytes, waits, and so does the receive thread at the next acknowledgement and at
  -- the next first packet of a client.
  pub send_thread_gone :
      (t : ℕ) (w : Answers) (s : Shared L) (r : Turned L)
      → send_turn cs t w s ≡ gets r
      → r.gone ≡ true
      → (u : ℕ) (to : SockAddr) (buf : List ℕ) (len : ℕ) (p : DataPacket) (ok : Bool) → t ≢ u
      → (p.n_type ≡ code_of ack) ⊎ (p.n_type ≡ code_of establish_1)
      → (send_locked cs u to buf len r.shared ≡ waits) × (packet_turn cs u to p ok r.shared ≡ waits)
  unfolding send_locked packet_turn
  send_thread_gone t w s r h dead u to buf len p ok d k =
      let (l, e, left) = turn_cases t w s r h in
      elim left [
        | inl (a, _) ↦ cc
        | inr (_, q) ↦
            let blocked : lock cs u r.shared ≡ waits =
              ap (λ m. lock cs u (record r.shared { send_list_lock = m })) q
              ∙ waits_for t u r.shared.socket s.send_list_lock l e d in
            (rw blocked, elim k [ inl z ↦ rw (z, blocked) | inr z ↦ rw (z, blocked) ])
      ]
