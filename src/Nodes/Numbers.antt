-- ===== src/Nodes/Numbers.antt =====
-- The numbers of `big.Int` that the program uses: `SetBytes`, `Bytes` and `Xor`.
use polarcloud.Prelude.{
  ℕ, zero, suc, ◌+◌, ◌*◌, ◌/◌, ◌%◌, ◌≤◌, ◌<◌, ◌≡◌, refl, ap, ◌∙◌, inl, inr, true, false, List, [],
  ◌∷◌, ◌++◌, append-nil, All, ltb, ◌==◌, if◌then◌else◌, Bool-cases, arith,
}

abbrev pub Bytes : Type 0
Bytes = List ℕ

unfoldable pub number_from : ℕ → Bytes → ℕ
number_from n [] = n
number_from n (b ∷ bs) = number_from (n * 256 + b) bs

-- `SetBytes`, the highest byte first.
abbrev pub number : Bytes → ℕ
number bs = number_from 0 bs

unfoldable pub bytes_from : ℕ → ℕ → Bytes → Bytes
bytes_from zero n bs = bs
bytes_from (suc fuel) n bs =
    let rest = bytes_from fuel (n / 256) (n % 256 ∷ bs) in if n == 0 then bs else rest

-- `Bytes`, with no zero in front.
abbrev pub bytes_of : ℕ → Bytes
bytes_of n = bytes_from n n []

unfoldable pub xor_from : ℕ → ℕ → ℕ → ℕ
xor_from zero a b = 0
xor_from (suc fuel) a b = (a % 2 + b % 2) % 2 + 2 * xor_from fuel (a / 2) (b / 2)

-- `Xor`; the sum is more rounds than either has bits.
abbrev pub xor : ℕ → ℕ → ℕ
xor a b = xor_from (a + b) a b

bytes_from-fuel : (f g n : ℕ) (bs : Bytes) → n ≤ f → n ≤ g → bytes_from f n bs ≡ bytes_from g n bs
unfolding bytes_from
bytes_from-fuel zero zero n bs h k = refl
bytes_from-fuel zero (suc g) n bs h k = let none : (n == 0) ≡ true = ground (arith, h) in rw none
bytes_from-fuel (suc f) zero n bs h k = let none : (n == 0) ≡ true = ground (arith, k) in rw none
bytes_from-fuel (suc f) (suc g) n bs h k = elim (Bool-cases (n == 0)) [
  | inl none ↦ rw none
  | inr more ↦
      let positive : 0 < n = ground (arith, more) in
      rw more (
        bytes_from-fuel f g (n / 256) (n % 256 ∷ bs) (omega (arith, h, positive))
          (omega (arith, k, positive)))
]

bytes_from-suc :
    (f n : ℕ) (bs : Bytes) → 0 < n → bytes_from (suc f) n bs ≡ bytes_from f (n / 256) (n % 256 ∷ bs)
unfolding bytes_from
bytes_from-suc f n bs h = let more : (n == 0) ≡ false = ground (arith, h) in rw more

pub no_more : (bs : Bytes) → bytes_from 0 0 bs ≡ bs
unfolding bytes_from
no_more bs = refl

bytes_of-step :
    (n b : ℕ) (bs : Bytes)
    → 0 < n * 256 + b
    → b < 256
    → bytes_from (n * 256 + b) (n * 256 + b) bs ≡ bytes_from n n (b ∷ bs)
bytes_of-step n b bs h l =
    let high : (n * 256 + b) / 256 ≡ n = omega (arith, l) in
    let low : (n * 256 + b) % 256 ≡ b = omega (arith, l) in
    bytes_from-fuel (n * 256 + b) (suc (n * 256 + b)) (n * 256 + b) bs (omega arith) (omega arith)
    ∙ bytes_from-suc (n * 256 + b) (n * 256 + b) bs h
    ∙ ap (λ (k : ℕ). bytes_from (n * 256 + b) k ((n * 256 + b) % 256 ∷ bs)) high
    ∙ ap (λ (k : ℕ). bytes_from (n * 256 + b) n (k ∷ bs)) low
    ∙ bytes_from-fuel (n * 256 + b) n n (b ∷ bs) (omega arith) (omega arith)

bytes_from-number_from :
    (m : ℕ) (bs rest : Bytes)
    → 0 < m
    → All (λ (c : ℕ). c < 256) bs
    → bytes_from (number_from m bs) (number_from m bs) rest ≡ bytes_from m m (bs ++ rest)
unfolding number_from
bytes_from-number_from m [] rest h a = refl
bytes_from-number_from m (b ∷ bs) rest h (l, a) =
    bytes_from-number_from (m * 256 + b) bs rest (omega (arith, h)) a
    ∙ bytes_of-step m b (bs ++ rest) (omega (arith, h)) l

-- Bytes with no zero in front are those of their number.
pub bytes_of-number :
    (b : ℕ) (bs : Bytes)
    → 0 < b
    → b < 256
    → All (λ (c : ℕ). c < 256) bs
    → bytes_of (number (b ∷ bs)) ≡ b ∷ bs
unfolding number_from
bytes_of-number b bs h l a =
    bytes_from-number_from (0 * 256 + b) bs [] (omega (arith, h)) a
    ∙ bytes_of-step 0 b (bs ++ []) (omega (arith, h)) l
    ∙ no_more (b ∷ (bs ++ []))
    ∙ ap (λ (t : Bytes). b ∷ t) (append-nil bs)

-- The bytes of a number have no zero in front.
pub bytes_from-positive :
    (f n : ℕ) (bs : Bytes)
    → 0 < n
    → n ≤ f
    → (c : ℕ) × (cs : Bytes) × (0 < c) × (bytes_from f n bs ≡ c ∷ cs)
bytes_from-positive zero n bs h k = absurd (omega (arith, h, k))
bytes_from-positive (suc f) n bs h k = elim (Bool-cases (ltb n 256)) [
  | inl small ↦
      let high : n / 256 ≡ 0 = ground (arith, small) in
      let low : n % 256 ≡ n = ground (arith, small) in
      (
        n,
        bs,
        h,
        bytes_from-suc f n bs h
            ∙ ap (λ (k : ℕ). bytes_from f k (n % 256 ∷ bs)) high
            ∙ bytes_from-fuel f 0 0 (n % 256 ∷ bs) (omega arith) (omega arith)
            ∙ no_more (n % 256 ∷ bs)
            ∙ ap (λ (k : ℕ). k ∷ bs) low,
      )
  | inr large ↦
      let some_left : 0 < n / 256 = ground (arith, large) in
      let (c, cs, p, e) =
        bytes_from-positive f (n / 256) (n % 256 ∷ bs) some_left (omega (arith, h, k)) in
      (c, cs, p, bytes_from-suc f n bs h ∙ e)
]
