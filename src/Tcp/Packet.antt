-- ===== src/Tcp/Packet.antt =====
-- TcpSocketDll/CTcpSocket.h: the packets and their image in a datagram.
use school_system.Base.{
  ℕ, ◌+◌, ◌-◌, ◌≤◌, ◌<◌, ◌≡◌, ◌∙◌, Option, none, some, List, ◌++◌, arith, ltb, ◌==◌, if◌then◌else◌,
  ◌>>=◌, length, take, replicate, length-take, int_mod, int_bytes, read_int, le→ltb,
}

-- `DATA_LEN`: the most bytes that one packet carries.
abbrev pub data_len : ℕ
data_len = 1024

pub data PackageType : Type 0 where
  establish_1 establish_2 data_package ack : PackageType

-- The enumerators' values.
abbrev pub code_of : PackageType → ℕ
code_of establish_1 = 0
code_of establish_2 = 1
code_of data_package = 2
code_of ack = 3

-- The case of `switch (packet->m_nType)` that an `int` selects.
abbrev pub type_of : ℕ → Option PackageType
type_of n =
    if n == 0
    then some establish_1
    else if n == 1
    then some establish_2
    else if n == 2
    then some data_package
    else if n == 3
    then some ack
    else none

pub record Packet : Type 0 where
  pub n_type : ℕ
  pub n_seq : ℕ

-- Of the array `m_data` an outgoing packet lists the `n_len` bytes that were copied into it; those
-- behind them are not initialised, and are not sent. A received packet lists all 1024.
pub record DataPacket : Type 0 where
  pub n_type : ℕ
  pub n_seq : ℕ
  pub n_len : ℕ
  pub bytes : List ℕ

-- `DataPacket(nType, nSeq, nLen, pData)`, where `nLen` bytes stand at `pData`
unfoldable pub data_packet : ℕ → ℕ → ℕ → List ℕ → DataPacket
data_packet ty seq len p = record { n_type = ty; n_seq = seq; n_len = len; bytes = take len p }

-- `DataPacket::Size`: the bytes of a datagram that holds the packet.
unfoldable pub size : DataPacket → ℕ
size p = 4 + 4 + 4 + p.n_len

-- The memory of a `Packet`, as it is sent.
pub packet_image : Packet → List ℕ
packet_image p = int_bytes p.n_type ++ int_bytes p.n_seq

-- The first `Size()` bytes of a `DataPacket`.
pub data_image : DataPacket → List ℕ
data_image p =
    int_bytes p.n_type ++ (int_bytes p.n_seq ++ (int_bytes p.n_len ++ take p.n_len p.bytes))

-- `sizeof(DataPacket)`
abbrev pub image_len : ℕ
image_len = 1036

-- A buffer of that size, read as a `DataPacket`.
pub of_image : List ℕ → Option DataPacket
of_image m = read_int m >>= λ t. read_int t.1 >>= λ s.
    read_int s.1 >>= λ l. some (record { n_type = t.0; n_seq = s.0; n_len = l.0; bytes = l.1 })

-- `recvfrom` into a new `DataPacket()`, which is all zeros: what the datagram does not overwrite
-- stays 0. A datagram that is longer than the buffer makes `recvfrom` fail.
pub received : List ℕ → Option DataPacket
received dgram =
    if ltb image_len (length dgram)
    then none
    else of_image (dgram ++ replicate (image_len - length dgram) 0)

pub length-packet_image : (p : Packet) → length (packet_image p) ≡ 8
unfolding packet_image
length-packet_image p = omega arith

pub length-data_image : (p : DataPacket) → p.n_len ≤ length p.bytes → length (data_image p) ≡ size p
unfolding data_image size
length-data_image p h = omega (arith, length-take p.n_len p.bytes)

of_image_lem :
    (t s l : ℕ) (rest : List ℕ)
    → t < int_mod
    → s < int_mod
    → l < int_mod
    → of_image (int_bytes t ++ (int_bytes s ++ (int_bytes l ++ rest)))
      ≡ some (record { n_type = t; n_seq = s; n_len = l; bytes = rest })
unfolding of_image
of_image_lem t s l rest ht hs hl = ground arith

-- The bytes that a receiver finds in `m_data`.
abbrev pub padded : DataPacket → List ℕ
padded p = take p.n_len p.bytes ++ replicate (image_len - size p) 0

received_lem :
    (m : List ℕ) (k : ℕ)
    → length m ≡ k
    → k ≤ image_len
    → received m ≡ of_image (m ++ replicate (image_len - k) 0)
unfolding received
received_lem m k e h = rw (e, le→ltb image_len k h)

-- A packet with at most 1024 bytes of data arrives as it was sent, padded with zeros.
pub received-data_image :
    (p : DataPacket)
    → p.n_type < int_mod
    → p.n_seq < int_mod
    → p.n_len ≤ data_len
    → p.n_len ≤ length p.bytes
    → received (data_image p) ≡ some (record p { bytes = padded p })
unfolding data_image size
received-data_image p ht hs small fits =
    received_lem (data_image p) (size p) (length-data_image p fits) (omega arith)
    ∙ of_image_lem p.n_type p.n_seq p.n_len (padded p) ht hs (omega arith)

-- A packet without data arrives as it was sent.
pub received-packet_image :
    (p : Packet)
    → p.n_type < int_mod
    → p.n_seq < int_mod
    → received (packet_image p)
      ≡ some (record { n_type = p.n_type; n_seq = p.n_seq; n_len = 0; bytes = replicate 1024 0 })
unfolding packet_image
received-packet_image p ht hs =
    received_lem (packet_image p) 8 (length-packet_image p) (omega arith)
    ∙ of_image_lem p.n_type p.n_seq 0 (replicate 1024 0) ht hs (omega arith)
