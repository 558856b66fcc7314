-- ===== src/Tcp/Socket/Resend.antt =====
-- `SendThreadProc`: what a turn over the send list sends, and what it leaves.
use school_system.Base.{
  ℕ, suc, ◌+◌, ◌-◌, ◌<◌, ◌≡◌, refl, ap, ap₂, ◌∙◌, inl, inr, ◌≢◌, Bool, true, false, List, [], ◌∷◌,
  map, arith, leb, ◌==◌, ◌||◌, All, Bool-cases,
}
use school_system.Tcp.Packet.{DataPacket, code_of, data_package, data_image, type_of}
use school_system.Tcp.Address.{SockAddr}
use school_system.Tcp.Socket.{
  SendListNode, Outgoing, payload, Answers, Pass, Emission, nothing, image, bad_cast, emission,
  pass_node, emission_by, sends, goes_on, is_due, resend,
}
use school_system.Tcp.Socket.Fragments.{queued}

-- A packet with its address.
abbrev pub entry : SendListNode → SockAddr × Outgoing
entry n = (n.addr, n.packet)

pass_node_entries :
    (now : ℕ) (ok : Bool) (n : SendListNode) (ns : List SendListNode) (e : Emission) (rest : Pass)
    → map entry rest.nodes ≡ map entry ns
    → map entry (pass_node now ok n ns e rest).nodes ≡ map entry (n ∷ ns)
pass_node_entries now ok n ns nothing rest h = ap (◌∷◌ (entry n)) h
pass_node_entries now true n ns (image b) rest h = ap (◌∷◌ (entry n)) h
pass_node_entries now false n ns (image b) rest h = refl
pass_node_entries now ok n ns bad_cast rest h = refl

-- A turn of the send thread, however it ends, neither loses nor adds nor reorders a packet: the
-- packets and their addresses stay, and only the times change.
pub resend_entries :
    (w : Answers) (i : ℕ) (ns : List SendListNode) → map entry (resend w i ns).nodes ≡ map entry ns
unfolding resend
resend_entries w i [] = refl
resend_entries w i (n ∷ ns) = elim (Bool-cases (is_due (w.clock_test i) n)) [
  | inl due ↦ rw due (
      pass_node_entries (w.clock_set i) (w.sendto_ok i) n ns (emission n.packet)
        (resend w (suc i) ns) (resend_entries w (suc i) ns))
  | inr early ↦ rw early (ap (◌∷◌ (entry n)) (resend_entries w (suc i) ns))
]

resend_new_node :
    (w : Answers) (i : ℕ) (addr : SockAddr) (p : DataPacket) (ns : List SendListNode)
    → w.sendto_ok i ≡ true
    → p.n_type ≡ code_of data_package
    → resend w i (queued addr p ∷ ns)
      ≡ sends
          (record { to = addr; content = data_image p })
          (record (queued addr p) { time = w.clock_set i })
          (resend w (suc i) ns)
unfolding resend
resend_new_node w i addr p ns ok t =
    ap₂
      (λ o k.
        pass_node (w.clock_set i) o (queued addr p) ns (emission_by (type_of k) (payload p))
          (resend w (suc i) ns))
      ok t

-- The first turn after `Send`: where `sendto` succeeds, every data packet that was not sent yet
-- is sent, once, as its image, to its address and in the order of the list, and the thread goes on.
pub resend_new :
    (w : Answers) (i : ℕ) (addr : SockAddr) (ps : List DataPacket)
    → ((j : ℕ) → w.sendto_ok j ≡ true)
    → All (λ p. p.n_type ≡ code_of data_package) ps
    → ((resend w i (map (queued addr) ps)).sent
        ≡ map (λ p. record { to = addr; content = data_image p }) ps)
      × ((resend w i (map (queued addr) ps)).ending ≡ goes_on)
unfolding resend
resend_new w i addr [] ok t = (refl, refl)
resend_new w i addr (p ∷ ps) ok t =
    let (sent, ends) = resend_new w (suc i) addr ps ok t.1 in
    (
      ap (λ r. r.sent) (resend_new_node w i addr p (map (queued addr) ps) (ok i) t.0)
          ∙ ap (◌∷◌ (record { to = addr; content = data_image p })) sent,
      ap (λ r. r.ending) (resend_new_node w i addr p (map (queued addr) ps) (ok i) t.0) ∙ ends,
    )

-- The node was sent less than a second before any of these readings of the clock.
abbrev pub SentLately : Answers → List SendListNode → Type 0
SentLately w ns = All (λ n. (n.time ≢ 0) × ((j : ℕ) → w.clock_test j < n.time + 1000)) ns

-- No packet is sent again within a second: a turn in which every packet of the list has been sent
-- less than a second before sends nothing, leaves the list as it is, and goes on.
pub resend_recent :
    (w : Answers) (i : ℕ) (ns : List SendListNode)
    → SentLately w ns
    → resend w i ns ≡ record { nodes = ns; sent = []; ending = goes_on }
unfolding resend
resend_recent w i [] h = refl
resend_recent w i (n ∷ ns) h =
    let early : (n.time == 0 || leb 1000 (w.clock_test i - n.time)) ≡ false =
      ground (arith, h.0.0, h.0.1 i) in
    rw (early, resend_recent w (suc i) ns h.1)
