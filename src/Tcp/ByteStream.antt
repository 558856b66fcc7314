-- ===== src/Tcp/ByteStream.antt =====
-- TcpSocketDll/CByteStream.h and CByteStream.cpp: the bytes that have arrived and wait for a reader.
-- `none` stands for a read or an erase outside of the buffer, which C++ leaves undefined.
use school_system.Base.{
  ℕ, zero, suc, ◌%◌, ◌≤◌, ◌≡◌, refl, sym, ap, ◌∙◌, Option, none, some, List, [], ◌∷◌, ◌++◌,
  append_assoc, append-nil, arith, leb, if◌then◌else◌, length, take, drop, is_negative, int_mod,
  int_limit, ◌<◌,
}

pub record ByteStream : Type 0 where
  pub vt_buf : List ℕ

abbrev pub empty : ByteStream
empty = record { vt_buf = [] }

-- The loop of `Write`: `k` rounds are left, `buf` starts at `pBuf[i]`.
unfoldable pub push_bytes : ℕ → List ℕ → List ℕ → Option (List ℕ)
push_bytes zero buf vt = some vt
push_bytes (suc k) [] vt = none
push_bytes (suc k) (b ∷ buf) vt = push_bytes k buf (vt ++ b ∷ [])

of_bytes : Option (List ℕ) → Option ByteStream
of_bytes none = none
of_bytes (some vt) = some (record { vt_buf = vt })

-- `for (int i = 0; i < nSize; i++)` makes no round for a negative size.
unfoldable pub write : ByteStream → List ℕ → ℕ → Option ByteStream
unfolding of_bytes
write s buf size = if is_negative size then some s else of_bytes (push_bytes size buf s.vt_buf)

-- The first `nSize` bytes, left in the stream.
abbrev peek : ByteStream → ℕ → Option (List ℕ)
peek s size =
    if is_negative size
    then none
    else if leb size (length s.vt_buf)
    then some (take size s.vt_buf)
    else none

-- The first `nSize` bytes, and the stream without them.
unfoldable pub read : ByteStream → ℕ → Option (List ℕ × ByteStream)
read s size =
    if is_negative size
    then none
    else if leb size (length s.vt_buf)
    then some (take size s.vt_buf, record { vt_buf = drop size s.vt_buf })
    else none

-- `m_vtBuf.size()` as an `int`
unfoldable pub get_size : ByteStream → ℕ
get_size s = length s.vt_buf % int_mod

push_bytes_lem :
    (k : ℕ) (buf vt : List ℕ) → k ≤ length buf → push_bytes k buf vt ≡ some (vt ++ take k buf)
unfolding push_bytes
push_bytes_lem zero buf vt h = ap some (sym (append-nil vt))
push_bytes_lem (suc k) [] vt h = absurd (omega arith)
push_bytes_lem (suc k) (b ∷ buf) vt h =
    push_bytes_lem k buf (vt ++ b ∷ []) (omega arith)
    ∙ ap some (append_assoc vt (b ∷ []) (take k buf))

push_bytes_short : (k : ℕ) (buf vt : List ℕ) → length buf < k → push_bytes k buf vt ≡ none
unfolding push_bytes
push_bytes_short zero buf vt h = absurd (omega arith)
push_bytes_short (suc k) [] vt h = refl
push_bytes_short (suc k) (b ∷ buf) vt h = push_bytes_short k buf (vt ++ b ∷ []) (omega arith)

-- A write whose size fits the buffer appends that many of its bytes.
pub write_lem :
    (s : ByteStream) (buf : List ℕ) (size : ℕ)
    → size < int_limit
    → size ≤ length buf
    → write s buf size ≡ some (record { vt_buf = s.vt_buf ++ take size buf })
unfolding write
write_lem s buf size h fits = ground (arith, push_bytes_lem size buf s.vt_buf)

pub write_short :
    (s : ByteStream) (buf : List ℕ) (size : ℕ)
    → size < int_limit
    → length buf < size
    → write s buf size ≡ none
unfolding write
write_short s buf size h short = ground (arith, push_bytes_short size buf s.vt_buf)

pub read_lem :
    (s : ByteStream) (size : ℕ)
    → size < int_limit
    → size ≤ length s.vt_buf
    → read s size ≡ some (take size s.vt_buf, record { vt_buf = drop size s.vt_buf })
unfolding read
read_lem s size h fits = ground arith

pub get_size_lem : (s : ByteStream) → length s.vt_buf < int_mod → get_size s ≡ length s.vt_buf
unfolding get_size
get_size_lem s h = omega arith

pub get_size_nil : (s : ByteStream) → s.vt_buf ≡ [] → get_size s ≡ 0
unfolding get_size
get_size_nil s e = ap (λ b. length b % int_mod) e
