-- ===== src/Tcp/Socket/Transfer.antt =====
-- From `Send` to the byte stream of the other side.
use school_system.Base.{
  ℕ, zero, suc, ◌+◌, ◌-◌, ◌*◌, ◌≤◌, ◌<◌, min, ◌≡◌, refl, ap, ap₂, ◌∙◌, some, List, ◌++◌, append-nil,
  arith, leb, length, take, take_all, take_front, drop, replicate, take_add, length-take,
  length-drop, length-append, length-replicate, int_limit, inl, inr, Bool-cases,
}
use school_system.Tcp.Packet.{
  DataPacket, data_len, data_packet, data_image, padded, size, image_len, received,
  received-data_image,
}
use school_system.Tcp.Receive.Refine.{Stream, joined}
use school_system.Tcp.Socket.Fragments.{fragment, fragment_count}

-- The bytes of packet `i`.
abbrev pub piece_of : List ℕ → ℕ → ℕ → List ℕ
piece_of buf len i = take (min data_len (len - data_len * i)) (drop (data_len * i) buf)

-- Packet `i` as its receiver sees it.
abbrev pub arrived : ℕ → List ℕ → ℕ → ℕ → DataPacket
arrived seq buf len i = record (fragment seq buf len i) { bytes = padded (fragment seq buf len i) }

pub joined-piece_of :
    (buf : List ℕ) (len k : ℕ) → joined (piece_of buf len) k ≡ take (min len (data_len * k)) buf
joined-piece_of buf len zero = ap (λ t. take t buf) {x = 0} {y = min len 0} (omega arith)
joined-piece_of buf len (suc k) =
    ap (λ b. b ++ piece_of buf len k) (joined-piece_of buf len k)
    ∙ elim (Bool-cases (leb (data_len * k) len)) [
      | inl inside ↦
          let whole : min len (data_len * k) ≡ data_len * k = ground arith in
          ap (λ t. take t buf ++ piece_of buf len k) whole
          ∙ take_add (data_len * k) (min data_len (len - data_len * k)) (min len (data_len * suc k))
              buf (ground arith)
      | inr past ↦
          let none_left : min data_len (len - data_len * k) ≡ 0 = ground arith in
          let all : min len (data_len * k) ≡ min len (data_len * suc k) = ground arith in
          ap₂ (λ t u. take t buf ++ take u (drop (data_len * k) buf)) all none_left
          ∙ append-nil (take (min len (data_len * suc k)) buf)
    ]

pub arrived-Stream :
    (seq : ℕ) (buf : List ℕ) (len : ℕ)
    → len ≤ length buf
    → seq + fragment_count len < int_limit
    → Stream seq (fragment_count len) (piece_of buf len) (arrived seq buf len)
unfolding fragment data_packet size
arrived-Stream seq buf len fits room = record {
  bound = room;
  carries = λ i h.
      let n = min data_len (len - data_len * i) in
      let d = drop (data_len * i) buf in
      let pad : List ℕ = replicate (image_len - (4 + 4 + 4 + n)) 0 in
      let l : length (take n d) ≡ n =
        omega (arith, length-take n d, length-drop (data_len * i) buf) in
      let twice : take n (take n d) ≡ take n d = take_all n (take n d) (omega arith) in
      record {
        numbered = refl;
        small = omega arith;
        room = omega (
          arith,
          length-append (take n (take n d)) pad,
          length-replicate {A = ℕ} (image_len - (4 + 4 + 4 + n)) 0,
          ap length twice,
        );
        holds = take_front n (take n (take n d)) pad (ap length twice ∙ l) ∙ twice;
      };
}

pub received-fragment :
    (seq : ℕ) (buf : List ℕ) (len i : ℕ)
    → len ≤ length buf
    → seq + fragment_count len < int_limit
    → i < fragment_count len
    → received (data_image (fragment seq buf len i)) ≡ some (arrived seq buf len i)
unfolding fragment data_packet
received-fragment seq buf len i fits room h =
    let n = min data_len (len - data_len * i) in
    let d = drop (data_len * i) buf in
    let l : n ≤ length (take n d) =
      omega (arith, length-take n d, length-drop (data_len * i) buf) in
    received-data_image (fragment seq buf len i) (omega arith) (omega arith) (omega arith) l
