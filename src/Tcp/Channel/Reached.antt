-- ===== src/Tcp/Channel/Reached.antt =====
-- Every state that the two sides of a channel reach has what they and the network have in common.
use school_system.Base.{
  ℕ, ◌+◌, ◌<◌, ◌≡◌, sym, ap, subst, ◌∙◌, [], ◌++◌, arith, length, int_limit, of_some, Holds, refl,
}
use school_system.Tcp.Address.{SockAddr}
use school_system.Tcp.Conn.{conn_at}
use school_system.Tcp.Conn.Laws.{conn_at-modify_self}
use school_system.Tcp.Receive.Index.{nothing}
use school_system.Tcp.Receive.Refine.{Represents}
use school_system.Tcp.Receive.Delivery.{IsFresh, IsFresh-Represents}
use school_system.Tcp.Socket.{TcpSocket}
use school_system.Tcp.Socket.Fragments.{fragment, fragment_count, nodes_of, send_lem}
use school_system.Tcp.Socket.Reception.{stream_at}
use school_system.Tcp.Channel.{
  Channel, Step, sends, transmits, arrives, acknowledged, takes, hears_back, takes_back, answers,
  transmits_back, acknowledged_back, hears_other, takes_other, selects, unselects, Reach, start,
  next, opened,
}
use school_system.Tcp.Channel.Lists.{AllPackets, AllContents}
use school_system.Tcp.Channel.Flow.{IsOneOf, HoldsOneOf, Acknowledges, Flow, All-at, send-Packets}
use school_system.Tcp.Channel.Steps.{
  sends-Flow, transmits-Flow, takes-Flow, sender-Flow, receiver-Flow,
}
use school_system.Tcp.Channel.Elsewhere.{
  SameAt, alike, heard-SendsNext, recv-apart, sent-Same, acked-Same, polled-Same, unselected-Same,
}
use school_system.Tcp.Socket.Isolation.{on_packet_apart}
use school_system.Tcp.Channel.Kept.{arrives-Flow, acknowledged-Flow}

module _ {there here : SockAddr} {base : ℕ} where
  start-Flow :
      (s r : TcpSocket)
      → (conn_at there s.connect_map).next_send_seq ≡ base
      → base < int_limit
      → s.send_list ≡ []
      → IsFresh base (conn_at here r.connect_map)
      → stream_at here r ≡ []
      → Flow there here base (opened s r)
  start-Flow s r at small list fresh empty =
      let none_yet = send-Packets base [] (omega arith) in
      let was =
        IsFresh-Represents base 0 none_yet.batch.piece none_yet.batch.seen
          (conn_at here r.connect_map) fresh in
      record {
        n = 0;
        packet = fragment base [] 0;
        made = none_yet;
        number = at ∙ omega arith;
        listed = subst (AllPackets (IsOneOf 0 (fragment base [] 0))) (sym list) tt;
        flying = tt;
        arrived = nothing;
        reassembly =
            subst
              (λ b.
                Represents base 0 none_yet.batch.piece none_yet.batch.seen [] b nothing
                  (conn_at here r.connect_map))
              empty was;
        acked = tt;
        kept = λ i h. absurd (omega arith);
      }

  Step-Flow :
      {x y : Channel} → Step there here x y → Flow there here base x → Flow there here base y
  Step-Flow {x} (sends buf s small room e f) v =
      let sent =
        of_some (sym (send_lem x.sender there buf (length buf) small (omega arith) room) ∙ e) in
      let same = ap (λ p. p.0) sent in
      subst (Flow there here base) (sym f) (
        sends-Flow v buf s (omega (arith, v.number))
          (ap (λ k. (conn_at there k.connect_map).next_send_seq) (sym same)
            ∙ ap (λ c. c.next_send_seq) (conn_at-modify_self there _ x.sender.connect_map)
            ∙ ap (λ n. n + fragment_count (length buf)) v.number)
          (ap (λ k. k.send_list) (sym same)
            ∙ ap
                (λ n.
                  x.sender.send_list
                  ++ nodes_of there n buf (length buf) 0 (fragment_count (length buf)))
                v.number))
  Step-Flow (transmits w f) v = subst (Flow there here base) (sym f) (transmits-Flow v w)
  Step-Flow {x} (arrives before d after p ok at e ends f) v =
      let one =
        All-at _ before d after (subst (AllContents (HoldsOneOf v.n v.packet)) at v.flying) in
      subst (Flow there here base) (sym f) (arrives-Flow v d p ok one e ends)
  Step-Flow {x} (acknowledged before d after p ok at e f) v =
      let one =
        All-at _ before d after
          (subst (AllContents (Acknowledges base v.n v.arrived)) at v.acked) in
      subst (Flow there here base) (sym f) (acknowledged-Flow v d p ok one e)
  Step-Flow (takes n bytes r e f) v =
      subst (Flow there here base) (sym f) (takes-Flow v n bytes r e)
  Step-Flow {x} (hears_back from p ok t typed k ends f) v =
      let (number, list) =
        heard-SendsNext there from (base + v.n) x.sender p ok t typed k v.number in
      subst (Flow there here base) (sym f) (sender-Flow v _ (λ h. number) list)
  Step-Flow {x} (takes_back from n bytes s e f) v =
      let (number, list, _) = recv-apart there from (base + v.n) x.sender n e in
      subst (Flow there here base) (sym f) (sender-Flow v s number list)
  Step-Flow {x} (answers to buf len n r e f) v =
      let same =
        subst (Holds (λ q. SameAt here x.receiver q.0)) e (sent-Same here to x.receiver buf len) in
      subst (Flow there here base) (sym f) (receiver-Flow v r same)
  Step-Flow {x} (transmits_back w f) v =
      subst (Flow there here base) (sym f) (receiver-Flow v _ (refl, refl, refl))
  Step-Flow {x} (acknowledged_back from p ok typed f) v =
      subst (Flow there here base) (sym f)
        (receiver-Flow v _ (acked-Same here from x.receiver p ok typed))
  Step-Flow {x} (hears_other from p ok other ends f) v =
      subst (Flow there here base) (sym f)
        (receiver-Flow v _ (alike (on_packet_apart x.receiver from here p ok other)))
  Step-Flow {x} (takes_other from n bytes r other e f) v =
      let (_, _, same) = recv-apart here from 0 x.receiver n e in
      subst (Flow there here base) (sym f) (receiver-Flow v r (alike (same other)))
  Step-Flow {x} (selects a m e f) v =
      subst (Flow there here base) (sym f) (receiver-Flow v _ (polled-Same here x.receiver a m e))
  Step-Flow {x} (unselects a f) v =
      subst (Flow there here base) (sym f)
        (receiver-Flow v _ (unselected-Same here a x.receiver.connect_map))

  pub Reach-Flow : {x : Channel} → Reach there here base x → Flow there here base x
  Reach-Flow (start s r at small list fresh empty) = start-Flow s r at small list fresh empty
  Reach-Flow (next r m) = Step-Flow m (Reach-Flow r)
