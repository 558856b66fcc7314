-- ===== src/Tcp/Channel/Flow.antt =====
-- What the two sides of a channel and the network between them have in common, in every state that
-- they reach.
use school_system.Base.{
  ℕ, ◌+◌, ◌≤◌, ◌<◌, ◌≡◌, refl, ◌∙◌, inl, inr, true, ◌||◌, List, [], ◌∷◌, ◌++◌, arith, ltb, ◌-◌, All,
  Bool-cases, length, int_limit,
}
use school_system.Tcp.Address.{SockAddr}
use school_system.Tcp.Packet.{
  DataPacket, data_packet, code_of, data_package, ack, data_image, packet_image,
}
use school_system.Tcp.Conn.{conn_at}
use school_system.Tcp.Receive.Index.{Arrived, known}
use school_system.Tcp.Receive.Refine.{Represents}
use school_system.Tcp.Socket.Fragments.{fragment, fragment_count}
use school_system.Tcp.Socket.Splices.{spliced}
use school_system.Tcp.Socket.Batches.{Batch, send-Batch, appended}
use school_system.Tcp.Channel.{Channel}
use school_system.Tcp.Channel.Lists.{lists, AllPackets, AllContents}

-- The packet is one of the `n` that were made.
abbrev pub IsOneOf : ℕ → (ℕ → DataPacket) → DataPacket → Type 0
IsOneOf n packet p = (i : ℕ) × (i < n) × (p ≡ packet i)

-- The datagram holds one of them.
abbrev pub HoldsOneOf : ℕ → (ℕ → DataPacket) → List ℕ → Type 0
HoldsOneOf n packet b = (i : ℕ) × (i < n) × (b ≡ data_image (packet i))

-- The acknowledgement of a packet that has arrived.
abbrev pub Acknowledges : ℕ → ℕ → Arrived → List ℕ → Type 0
Acknowledges base n s b =
    (i : ℕ) × (i < n)
    × (known i s ≡ true)
    × (b ≡ packet_image (record { n_type = code_of ack; n_seq = base + i }))

-- The `n` packets bring what was given to `Send`.
pub record Packets (base n : ℕ) (sent : List ℕ) (packet : ℕ → DataPacket) : Type 0 where
  pub batch : Batch base n sent packet
  pub typed : (i : ℕ) → i < n → (packet i).n_type ≡ code_of data_package
  pub numbered : (i : ℕ) → i < n → (packet i).n_seq ≡ base + i

pub record Flow (there here : SockAddr) (base : ℕ) (x : Channel) : Type 0 where
  pub n : ℕ
  pub packet : ℕ → DataPacket
  pub made : Packets base n x.sent packet
  pub number : (conn_at there x.sender.connect_map).next_send_seq ≡ base + n
  pub listed : AllPackets (IsOneOf n packet) x.sender.send_list
  pub flying : AllContents (HoldsOneOf n packet) x.datagrams
  pub arrived : Arrived
  pub reassembly :
      Represents base n made.batch.piece made.batch.seen x.taken [] arrived
        (conn_at here x.receiver.connect_map)
  pub acked : AllContents (Acknowledges base n arrived) x.acks
  pub kept : (i : ℕ) → i < n → (lists (base + i) x.sender.send_list || known i arrived) ≡ true

pub All-map {ℓ κ} :
    {A : Type ℓ} {P Q : A → Type κ} → ((a : A) → P a → Q a) → (xs : List A) → All P xs → All Q xs
All-map f [] h = tt
All-map f (x ∷ xs) h = (f x h.0, All-map f xs h.1)

pub All-at {ℓ κ} :
    {A : Type ℓ} (P : A → Type κ) (before : List A) (x : A) (after : List A)
    → All P (before ++ x ∷ after)
    → P x
All-at P [] x after h = h.0
All-at P (y ∷ before) x after h = All-at P before x after h.1

pub send-Packets :
    (seq : ℕ) (buf : List ℕ)
    → seq + fragment_count (length buf) < int_limit
    → Packets seq (fragment_count (length buf)) buf (fragment seq buf (length buf))
unfolding fragment data_packet
send-Packets seq buf room = record {
  batch = send-Batch seq buf room;
  typed = λ i h. refl;
  numbered = λ i h. refl;
}

pub append-Packets :
    {base n m : ℕ} {b b' : List ℕ} {pk pk' : ℕ → DataPacket} (first : Packets base n b pk)
    (second : Packets (base + n) m b' pk')
    → (both : Packets base (n + m) (b ++ b') (spliced n pk pk')) × (both.batch.piece
        ≡ spliced n first.batch.piece second.batch.piece)
      × (both.batch.seen ≡ spliced n first.batch.seen second.batch.seen)
append-Packets {base} {n} first second =
    let (batch, pieces, packets) = appended first.batch second.batch in
    (
      record {
        batch = batch;
        typed = λ i h. elim (Bool-cases (ltb i n)) [
          | inl e ↦ rw e (first.typed i (ground arith))
          | inr e ↦ rw e (second.typed (i - n) (ground arith))
        ];
        numbered = λ i h. elim (Bool-cases (ltb i n)) [
          | inl e ↦ rw e (first.numbered i (ground arith))
          | inr e ↦
              let past : n ≤ i = ground arith in
              let there : base + n + (i - n) ≡ base + i = omega arith in
              rw e (second.numbered (i - n) (ground arith) ∙ there)
        ];
      },
      pieces,
      packets,
    )
