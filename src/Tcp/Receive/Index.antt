-- ===== src/Tcp/Receive/Index.antt =====
-- The specification of reassembly: which of the packets 0, 1, 2, … have been delivered, and which
-- wait. Only the numbers of packets are kept.
use school_system.Base.{
  ℕ, suc, ◌≤◌, ◌<◌, ◌≡◌, refl, Bool, true, false, ◌||◌, List, [], ◌∷◌, arith, ltb, ◌==◌,
  if◌then◌else◌,
}

pub record Arrived : Type 0 where
  pub expected : ℕ
  pub ahead : List ℕ

unfoldable pub advance : ℕ → List ℕ → Arrived
advance k [] = record { expected = k; ahead = [] }
advance k (j ∷ js) = if j == k then advance (suc k) js else record { expected = k; ahead = j ∷ js }

unfoldable pub insert_index : ℕ → List ℕ → List ℕ
insert_index i [] = i ∷ []
insert_index i (j ∷ js) = if ltb i j then i ∷ j ∷ js else j ∷ insert_index i js

unfoldable pub absorb : ℕ → Arrived → Arrived
absorb i s =
    if i == s.expected
    then advance (suc s.expected) s.ahead
    else if ltb s.expected i
    then record s { ahead = insert_index i s.ahead }
    else s

unfoldable pub absorb_all : List ℕ → Arrived → Arrived
absorb_all [] s = s
absorb_all (i ∷ is) s = absorb_all is (absorb i s)

abbrev pub nothing : Arrived
nothing = record { expected = 0; ahead = [] }

abbrev pub member : ℕ → List ℕ → Bool
member x [] = false
member x (j ∷ js) = x == j || member x js

abbrev pub Distinct : List ℕ → Type 0
Distinct [] = Unit {0}
Distinct (i ∷ is) = (member i is ≡ false) × Distinct is

-- Delivered or waiting.
abbrev pub known : ℕ → Arrived → Bool
known x s = ltb x s.expected || member x s.ahead

-- The waiting packets are in strictly rising order, and the expected one is not among them.
abbrev pub Rising : ℕ → List ℕ → Type 0
Rising k [] = Unit {0}
Rising k (j ∷ js) = (k < j) × Rising j js

known-advance : (x k : ℕ) (js : List ℕ) → known x (advance k js) ≡ (ltb x k || member x js)
unfolding advance
known-advance x k [] = refl
known-advance x k (j ∷ js) = ground (arith, known-advance x (suc k) js)

member-insert : (x i : ℕ) (js : List ℕ) → member x (insert_index i js) ≡ (x == i || member x js)
unfolding insert_index
member-insert x i [] = refl
member-insert x i (j ∷ js) = ground (arith, member-insert x i js)

pub known-absorb : (x i : ℕ) (s : Arrived) → known x (absorb i s) ≡ (x == i || known x s)
unfolding absorb
known-absorb x i s =
    ground (arith, known-advance x (suc s.expected) s.ahead, member-insert x i s.ahead)

pub known-absorb_all :
    (x : ℕ) (is : List ℕ) (s : Arrived) → known x (absorb_all is s) ≡ (member x is || known x s)
unfolding absorb_all
known-absorb_all x [] s = refl
known-absorb_all x (i ∷ is) s =
    ground (arith, known-absorb_all x is (absorb i s), known-absorb x i s)

Rising-weaken : (k l : ℕ) (js : List ℕ) → k ≤ l → Rising l js → Rising k js
Rising-weaken k l [] h r = tt
Rising-weaken k l (j ∷ js) h r = (omega arith, r.1)

advance-Rising :
    (k : ℕ) (js : List ℕ) (j : ℕ)
    → j < k
    → k ≤ suc j
    → Rising j js
    → Rising (advance k js).expected (advance k js).ahead
unfolding advance
advance-Rising k [] l h h' r = tt
advance-Rising k (j ∷ js) l h h' r = ground (arith, advance-Rising (suc k) js j)

insert-Rising :
    (k i : ℕ) (js : List ℕ)
    → k < i
    → member i js ≡ false
    → Rising k js
    → Rising k (insert_index i js)
unfolding insert_index
insert-Rising k i [] h m r = (h, tt)
insert-Rising k i (j ∷ js) h m r = ground (arith, insert-Rising j i js)

absorb-Rising :
    (i : ℕ) (s : Arrived)
    → known i s ≡ false
    → Rising s.expected s.ahead
    → Rising (absorb i s).expected (absorb i s).ahead
unfolding absorb
absorb-Rising i s f r =
    ground (
      arith,
      advance-Rising (suc s.expected) s.ahead s.expected,
      insert-Rising s.expected i s.ahead,
    )

absorb_all-Rising :
    (is : List ℕ) (s : Arrived)
    → Distinct is
    → ((x : ℕ) → member x is ≡ true → known x s ≡ false)
    → Rising s.expected s.ahead
    → Rising (absorb_all is s).expected (absorb_all is s).ahead
unfolding absorb_all
absorb_all-Rising [] s d f r = r
absorb_all-Rising (i ∷ is) s d f r =
    absorb_all-Rising is (absorb i s) d.1 (λ x m. ground (arith, known-absorb x i s, f x, d.0))
      (absorb-Rising i s (f i (ground arith)) r)

Rising-not-member : (x k : ℕ) (js : List ℕ) → x ≤ k → Rising k js → member x js ≡ false
Rising-not-member x k [] h r = refl
Rising-not-member x k (j ∷ js) h r = ground (arith, Rising-not-member x j js)

finished :
    (n k : ℕ) (js : List ℕ)
    → Rising k js
    → ((x : ℕ) → (ltb x k || member x js) ≡ ltb x n)
    → (k ≡ n) × (js ≡ [])
finished n k [] r h = (ground (arith, h n, h k), refl)
finished n k (j ∷ js) r h = absurd (ground (arith, h k, h j, Rising-not-member k j js))

-- When each of the packets 0, …, n - 1 arrives once, in any order, all have been delivered and
-- none waits.
pub absorb_all_complete :
    (n : ℕ) (is : List ℕ)
    → Distinct is
    → ((x : ℕ) → member x is ≡ ltb x n)
    → absorb_all is nothing ≡ record { expected = n; ahead = [] }
absorb_all_complete n is d h =
    let (e, f) =
      finished n (absorb_all is nothing).expected (absorb_all is nothing).ahead
        (absorb_all-Rising is nothing d (λ x m. ground arith) tt)
        (λ x. ground (arith, known-absorb_all x is nothing, h x)) in
    λ i. record { expected = e i; ahead = f i }
