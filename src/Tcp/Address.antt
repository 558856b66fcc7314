-- ===== src/Tcp/Address.antt =====
-- TcpSocketDll/CTcpSocket.h: socket addresses and `Compare`, the order of the connection map.
use school_system.Base.{
  ℕ, ◌≡◌, ◌⊎◌, inl, inr, Bool-cases, Bool, true, false, arith, ltb, ◌==◌, if◌then◌else◌,
}

-- A `sockaddr_in`.
pub record SockAddr : Type 0 where
  pub sin_family : ℕ
  pub sin_port : ℕ
  pub s_addr : ℕ

-- `Compare()(left, right)`: by the host, then by the port. The family plays no part.
unfoldable pub less : SockAddr → SockAddr → Bool
less left right =
    if left.s_addr == right.s_addr
    then ltb left.sin_port right.sin_port
    else ltb left.s_addr right.s_addr

-- Two addresses that the map takes for one key.
abbrev pub SameKey : SockAddr → SockAddr → Type 0
SameKey a b = (a.s_addr ≡ b.s_addr) × (a.sin_port ≡ b.sin_port)

pub less_irrefl : (a b : SockAddr) → SameKey a b → less a b ≡ false
unfolding less
less_irrefl a b h = ground arith

pub less_trans : (a b c : SockAddr) → less a b ≡ true → less b c ≡ true → less a c ≡ true
unfolding less
less_trans a b c p q = ground arith

pub less-asymm : (a b : SockAddr) → less a b ≡ true → less b a ≡ false
unfolding less
less-asymm a b p = ground arith

pub less-total : (a b : SockAddr) → less a b ≡ false → less b a ≡ false → SameKey a b
unfolding less
less-total a b p q = ground arith

-- Keys that are tied compare alike with every other key.
pub less-weak :
    (a b c : SockAddr)
    → less a b ≡ false
    → less b a ≡ false
    → (less a c ≡ less b c) × (less c a ≡ less c b)
unfolding less
less-weak a b c p q = ground arith

-- `Compare` is a strict weak order whose ties are the equal host and port, which is what
-- `std::map` needs of it: it is transitive, and of two addresses exactly one of "less", "greater"
-- and "same host and port" holds.
pub less_strict_weak :
    (a b c : SockAddr)
    → ((less a b ≡ false) ⊎ ((less b c ≡ false) ⊎ (less a c ≡ true)))
      × (((less a b ≡ true) × (less b a ≡ false))
          ⊎ (((less b a ≡ true) × (less a b ≡ false))
              ⊎ (SameKey a b × (less a b ≡ false) × (less b a ≡ false))))
less_strict_weak a b c = (
  elim (Bool-cases (less a b)) [
    | inl h ↦ elim (Bool-cases (less b c)) [
      | inl k ↦ inr (inr (less_trans a b c h k))
      | inr k ↦ inr (inl k)
    ]
    | inr h ↦ inl h
  ],
  elim (Bool-cases (less a b)) [
    | inl h ↦ inl (h, less-asymm a b h)
    | inr h ↦ elim (Bool-cases (less b a)) [
      | inl k ↦ inr (inl (k, h))
      | inr k ↦ inr (inr (less-total a b h k, h, k))
    ]
  ],
)
