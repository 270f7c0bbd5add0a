-- ===== src/Wallet/Naming.antt =====
-- The keys of `Txs` tell outputs apart.
use polarcloud.Prelude.{
  ℕ, zero, suc, ◌+◌, ◌-◌, ◌*◌, ◌/◌, ◌%◌, ◌≤◌, ◌<◌, ◌≡◌, ◌≢◌, refl, sym, ap, ◌∙◌, inl, inr, ℤ, pos,
  negsuc, List, [], ◌∷◌, ◌++◌, Text, All, arith, Bool-cases, ltb,
}
use polarcloud.Strings.{to_string}
use polarcloud.Strings.Decimal.{to_string_small, to_string_step, to_string-IsDigit, IsDigit}
use polarcloud.Wallet.{hex_digit, itoa, item_key}

-- The value of a list of bytes.
abbrev pub AreBytes : List ℕ → Type 0
AreBytes = All (λ b. b < 256)

hex_digit-injective : (m n : ℕ) → m < 16 → n < 16 → hex_digit m ≡ hex_digit n → m ≡ n
hex_digit-injective m n h k e = ground arith

hex_digit_plain : (n : ℕ) → n < 16 → hex_digit n ≢ b'_'
hex_digit_plain n h e = ground arith

-- The number that digits write, read on from `acc`.
read_on : ℕ → Text → ℕ
read_on acc [] = acc
read_on acc (c ∷ s) = read_on (acc * 10 + (c - b'0')) s

read_on-append :
    (acc c : ℕ) (s : Text) → read_on acc (s ++ c ∷ []) ≡ read_on acc s * 10 + (c - b'0')
unfolding read_on
read_on-append acc c [] = refl
read_on-append acc c (d ∷ s) = read_on-append (acc * 10 + (d - b'0')) c s

read_on-to_string : (fuel n : ℕ) → n < fuel → read_on 0 (to_string n) ≡ n
unfolding read_on
read_on-to_string zero n h = absurd (omega (arith, h))
read_on-to_string (suc fuel) n h = elim (Bool-cases (ltb n 10)) [
  | inl small ↦ let s : n < 10 = ground arith in rw (to_string_small n s) (omega arith)
  | inr large ↦
      let l : 10 ≤ n = ground arith in
      rw (to_string_step n l, read_on-append 0 (b'0' + n % 10) (to_string (n / 10)))
        (omega (arith, read_on-to_string fuel (n / 10) (omega (arith, h, l))))
]

to_string-injective : (m n : ℕ) → to_string m ≡ to_string n → m ≡ n
to_string-injective m n e =
    sym (read_on-to_string (suc m) m (omega arith))
    ∙ ap (read_on 0) e
    ∙ read_on-to_string (suc n) n (omega arith)

no_minus : (s t : Text) → All IsDigit s → s ≢ b'-' ∷ t
no_minus [] t h e = cc
no_minus (c ∷ s) t (h, _) e = let f : c ≡ b'-' = cc in omega (arith, f, h.0)

itoa-injective : (i j : ℤ) → itoa i ≡ itoa j → i ≡ j
itoa-injective (pos m) (pos n) e = ap pos (to_string-injective m n e)
itoa-injective (pos m) (negsuc n) e =
    absurd (no_minus (to_string m) (to_string (suc n)) (to_string-IsDigit m) e)
itoa-injective (negsuc m) (pos n) e =
    absurd (no_minus (to_string n) (to_string (suc m)) (to_string-IsDigit n) (sym e))
itoa-injective (negsuc m) (negsuc n) e =
    let f : to_string (suc m) ≡ to_string (suc n) = cc in
    let g : suc m ≡ suc n = to_string-injective (suc m) (suc n) f in ap negsuc (omega (arith, g))

-- Two outputs with one key are the same output.
pub item_key-injective :
    (s t : List ℕ) (i j : ℤ)
    → AreBytes s
    → AreBytes t
    → item_key s i ≡ item_key t j
    → (s ≡ t) × (i ≡ j)
unfolding item_key
item_key-injective [] [] i j h k e = (refl, itoa-injective i j (cc))
item_key-injective [] (c ∷ t) i j h (k, _) e =
    absurd (hex_digit_plain (c / 16) (omega (arith, k)) (cc))
item_key-injective (b ∷ s) [] i j (h, _) k e =
    absurd (hex_digit_plain (b / 16) (omega (arith, h)) (cc))
item_key-injective (b ∷ s) (c ∷ t) i j (h, hs) (k, ks) e =
    let high : b / 16 ≡ c / 16 =
      hex_digit-injective (b / 16) (c / 16) (omega (arith, h)) (omega (arith, k)) (cc) in
    let low : b % 16 ≡ c % 16 =
      hex_digit-injective (b % 16) (c % 16) (omega (arith, h)) (omega (arith, k)) (cc) in
    let same : b ≡ c = omega (arith, high, low) in
    let (rest, index) = item_key-injective s t i j hs ks (cc) in ((cc), index)
