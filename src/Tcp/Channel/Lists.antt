-- ===== src/Tcp/Channel/Lists.antt =====
-- The send list, seen by the numbers of its packets: what the send thread, an acknowledgement and
-- `Send` do to it.
use school_system.Base.{
  ℕ, zero, suc, ◌+◌, ◌≤◌, ◌<◌, ◌≡◌, refl, sym, subst, inl, inr, Bool, true, false, ◌||◌, List, [],
  ◌∷◌, ◌++◌, map, arith, ◌==◌, All, Bool-cases,
}
use school_system.Tcp.Address.{SockAddr}
use school_system.Tcp.Packet.{DataPacket, data_packet, code_of, data_package, type_of, data_image}
use school_system.Tcp.Socket.{
  SendListNode, payload, Datagram, Answers, Pass, Emission, nothing, image, bad_cast, emission,
  emission_by, pass_node, resend, is_due, remove_acked, seq_of,
}
use school_system.Tcp.Socket.Resend.{entry, resend_entries}
use school_system.Tcp.Socket.Fragments.{fragment, nodes_of}

-- Some packet on the list has the number.
abbrev pub lists : ℕ → List SendListNode → Bool
lists q [] = false
lists q (n ∷ ns) = seq_of n.packet == q || lists q ns

pub lists-append :
    (q : ℕ) (ns ms : List SendListNode) → lists q (ns ++ ms) ≡ (lists q ns || lists q ms)
lists-append q [] ms = refl
lists-append q (n ∷ ns) ms = ground (arith, lists-append q ns ms)

-- An acknowledgement takes no packet with another number off.
pub lists-remove_acked :
    (q r : ℕ) (ns : List SendListNode) → (q == r) ≡ false → lists q (remove_acked r ns) ≡ lists q ns
unfolding remove_acked
lists-remove_acked q r [] h = refl
lists-remove_acked q r (n ∷ ns) h = ground (arith, lists-remove_acked q r ns h)

entries-lists :
    (q : ℕ) (ns ms : List SendListNode) → map entry ns ≡ map entry ms → lists q ns ≡ lists q ms
entries-lists q [] [] e = refl
entries-lists q [] (m ∷ ms) e = cc
entries-lists q (n ∷ ns) [] e = cc
entries-lists q (n ∷ ns) (m ∷ ms) e =
    let p : n.packet ≡ m.packet = cc in
    let r : map entry ns ≡ map entry ms = cc in rw (p, entries-lists q ns ms r)

pub lists-resend :
    (q : ℕ) (w : Answers) (ns : List SendListNode) → lists q (resend w 0 ns).nodes ≡ lists q ns
lists-resend q w ns = entries-lists q (resend w 0 ns).nodes ns (resend_entries w 0 ns)

-- The packets of a call of `Send` are on the list.
pub lists-nodes_of :
    (addr : SockAddr) (seq : ℕ) (buf : List ℕ) (len i m j : ℕ)
    → i ≤ j
    → j < i + m
    → lists (seq + j) (nodes_of addr seq buf len i m) ≡ true
unfolding fragment data_packet
lists-nodes_of addr seq buf len i zero j h k = absurd (omega arith)
lists-nodes_of addr seq buf len i (suc m) j h k = elim (Bool-cases (i == j)) [
  | inl e ↦ ground arith
  | inr e ↦ ground (arith, lists-nodes_of addr seq buf len (suc i) m j)
]

-- A property of the packets on the list.
abbrev pub AllPackets : (DataPacket → Type 0) → List SendListNode → Type 0
AllPackets P = All (λ n. (p : DataPacket) × (n.packet ≡ payload p) × P p)

entries-AllPackets :
    (P : DataPacket → Type 0) (ns ms : List SendListNode)
    → map entry ns ≡ map entry ms
    → AllPackets P ms
    → AllPackets P ns
entries-AllPackets P [] ms e h = tt
entries-AllPackets P (n ∷ ns) [] e h = cc
entries-AllPackets P (n ∷ ns) (m ∷ ms) e h =
    let p : m.packet ≡ n.packet = cc in
    let r : map entry ns ≡ map entry ms = cc in
    (subst (λ o. (p : DataPacket) × (o ≡ payload p) × P p) p h.0, entries-AllPackets P ns ms r h.1)

pub resend-AllPackets :
    (P : DataPacket → Type 0) (w : Answers) (ns : List SendListNode)
    → AllPackets P ns
    → AllPackets P (resend w 0 ns).nodes
resend-AllPackets P w ns h = entries-AllPackets P (resend w 0 ns).nodes ns (resend_entries w 0 ns) h

pub remove_acked-AllPackets :
    (P : DataPacket → Type 0) (q : ℕ) (ns : List SendListNode)
    → AllPackets P ns
    → AllPackets P (remove_acked q ns)
unfolding remove_acked
remove_acked-AllPackets P q [] h = tt
remove_acked-AllPackets P q (n ∷ ns) h = elim (Bool-cases (seq_of n.packet == q)) [
  | inl e ↦ rw e h.1
  | inr e ↦ rw e (h.0, remove_acked-AllPackets P q ns h.1)
]

pub nodes_of-AllPackets :
    (P : DataPacket → Type 0) (addr : SockAddr) (seq : ℕ) (buf : List ℕ) (len i m : ℕ)
    → ((j : ℕ) → j < i + m → P (fragment seq buf len j))
    → AllPackets P (nodes_of addr seq buf len i m)
nodes_of-AllPackets P addr seq buf len i zero h = tt
nodes_of-AllPackets P addr seq buf len i (suc m) h = (
  (fragment seq buf len i, refl, h i (omega arith)),
  nodes_of-AllPackets P addr seq buf len (suc i) m (λ j k. h j (omega arith)),
)

-- What is handed to `sendto`, if it is anything.
abbrev Emits : (List ℕ → Type 0) → Emission → Type 0
Emits Q nothing = Unit {0}
Emits Q (image b) = Q b
Emits Q bad_cast = Unit {0}

abbrev pub AllContents : (List ℕ → Type 0) → List Datagram → Type 0
AllContents Q = All (λ d. Q d.content)

pass_node-AllContents :
    (Q : List ℕ → Type 0) (now : ℕ) (ok : Bool) (n : SendListNode) (ns : List SendListNode)
    (e : Emission) (rest : Pass)
    → Emits Q e
    → AllContents Q rest.sent
    → AllContents Q (pass_node now ok n ns e rest).sent
pass_node-AllContents Q now ok n ns nothing rest f h = h
pass_node-AllContents Q now true n ns (image b) rest f h = (f, h)
pass_node-AllContents Q now false n ns (image b) rest f h = tt
pass_node-AllContents Q now ok n ns bad_cast rest f h = tt

-- A turn of the send thread sends images of the data packets on the list only.
pub resend-AllContents :
    (Q : List ℕ → Type 0) (w : Answers) (i : ℕ) (ns : List SendListNode)
    → AllPackets (λ p. (p.n_type ≡ code_of data_package) × Q (data_image p)) ns
    → AllContents Q (resend w i ns).sent
unfolding resend emission
resend-AllContents Q w i [] h = tt
resend-AllContents Q w i (n ∷ ns) h =
    let rest = resend-AllContents Q w (suc i) ns h.1 in
    let (p, e, tq) = h.0 in
    let whole : Emits Q (emission (payload p)) =
      subst (λ k. Emits Q (emission_by (type_of k) (payload p))) (sym tq.0) tq.1 in
    let here : Emits Q (emission n.packet) = subst (λ o. Emits Q (emission o)) (sym e) whole in
    elim (Bool-cases (is_due (w.clock_test i) n)) [
      | inl due ↦ rw due (
          pass_node-AllContents Q (w.clock_set i) (w.sendto_ok i) n ns (emission n.packet)
            (resend w (suc i) ns) here rest)
      | inr early ↦ rw early rest
    ]
