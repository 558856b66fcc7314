-- ===== src/Tcp/Socket/Splices.antt =====
-- Sequences of packets, one after the other.
use school_system.Base.{
  ℕ, zero, suc, ◌+◌, ◌-◌, ◌≤◌, ◌<◌, ◌≡◌, refl, sym, ap, ap₂, ◌∙◌, List, ◌∷◌, ◌++◌, append_assoc,
  append-nil, map, arith, ltb, lt→ltb, le→ltb, if◌then◌else◌, range_from,
}
use school_system.Tcp.Receive.Refine.{joined}

-- The first `n` from one sequence, the others from another.
abbrev pub spliced {ℓ} : {A : Type ℓ} → ℕ → (ℕ → A) → (ℕ → A) → ℕ → A
spliced n f g i = if ltb i n then f i else g (i - n)

pub spliced-low {ℓ} : {A : Type ℓ} (n : ℕ) (f g : ℕ → A) (i : ℕ) → i < n → spliced n f g i ≡ f i
spliced-low n f g i h = rw (lt→ltb i n h)

pub spliced-high {ℓ} : {A : Type ℓ} (n : ℕ) (f g : ℕ → A) (j : ℕ) → spliced n f g (n + j) ≡ g j
spliced-high n f g j =
    let k : n + j - n ≡ j = omega arith in rw (le→ltb (n + j) n (omega arith)) (ap g k)

pub joined-spliced_front :
    (n : ℕ) (f g : ℕ → List ℕ) (k : ℕ) → k ≤ n → joined (spliced n f g) k ≡ joined f k
joined-spliced_front n f g zero h = refl
joined-spliced_front n f g (suc k) h =
    ap₂ (λ a b. a ++ b) (joined-spliced_front n f g k (omega arith)) (spliced-low n f g k h)

pub joined-spliced :
    (n : ℕ) (f g : ℕ → List ℕ) (m : ℕ) → joined (spliced n f g) (n + m) ≡ joined f n ++ joined g m
joined-spliced n f g zero =
    ap (joined (spliced n f g)) {x = n + 0} {y = n} (omega arith)
    ∙ joined-spliced_front n f g n (omega arith)
    ∙ sym (append-nil (joined f n))
joined-spliced n f g (suc m) =
    ap (joined (spliced n f g)) {x = n + suc m} {y = suc (n + m)} (omega arith)
    ∙ ap₂ (λ a b. a ++ b) (joined-spliced n f g m) (spliced-high n f g m)
    ∙ append_assoc (joined f n) (joined g m) (g m)

pub map-shift {ℓ} :
    {A : Type ℓ} (f g : ℕ → A) (m j k : ℕ)
    → ((i : ℕ) → f (k + i) ≡ g (j + i))
    → map f (range_from k m) ≡ map g (range_from j m)
map-shift f g zero j k h = refl
map-shift f g (suc m) j k h =
    let here : f k ≡ g j =
      ap f {x = k} {y = k + 0} (omega arith) ∙ h 0 ∙ ap g {x = j + 0} {y = j} (omega arith) in
    ap₂ ◌∷◌ here (
      map-shift f g m (suc j) (suc k) (λ i.
        ap f {x = suc k + i} {y = k + suc i} (omega arith)
        ∙ h (suc i)
        ∙ ap g {x = j + suc i} {y = suc j + i} (omega arith)))

spliced_nodes {ℓ ℓ'} :
    {A : Type ℓ} {B : Type ℓ'} (q : A → B) (n m : ℕ) (f g : ℕ → A) (k j : ℕ)
    → j + k ≡ n
    → map (λ i. q (spliced n f g i)) (range_from j (k + m))
      ≡ map (λ i. q (f i)) (range_from j k) ++ map (λ i. q (g i)) (range_from 0 m)
spliced_nodes q n m f g zero j e =
    ap (λ l. map (λ i. q (spliced n f g i)) (range_from j l)) {x = zero + m} {y = m} (omega arith)
    ∙ map-shift (λ i. q (spliced n f g i)) (λ i. q (g i)) m 0 j
        (λ i.
          ap (λ h. q (spliced n f g (h + i))) {x = j} {y = n} (omega (arith, e))
          ∙ ap q (spliced-high n f g i)
          ∙ ap (λ h. q (g h)) {x = i} {y = 0 + i} (omega arith))
spliced_nodes q n m f g (suc k) j e =
    ap (λ l. map (λ i. q (spliced n f g i)) (range_from j l)) {x = suc k + m} {y = suc (k + m)}
      (omega arith)
    ∙ ap₂ ◌∷◌ (ap q (spliced-low n f g j (omega (arith, e))))
        (spliced_nodes q n m f g k (suc j) (omega (arith, e)))

-- The images of two sequences, the second behind the first.
pub map-spliced {ℓ ℓ'} :
    {A : Type ℓ} {B : Type ℓ'} (q : A → B) (n m : ℕ) (f g : ℕ → A)
    → map (λ i. q (spliced n f g i)) (range_from 0 (n + m))
      ≡ map (λ i. q (f i)) (range_from 0 n) ++ map (λ i. q (g i)) (range_from 0 m)
map-spliced q n m f g = spliced_nodes q n m f g n 0 (omega arith)
