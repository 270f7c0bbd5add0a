-- ===== src/Strings/Decimal.antt =====
-- Laws of `n.toString()` for natural numbers: the last digit, the last three digits, what a digit is.
use polarcloud.Prelude.{
  ℕ, zero, suc, ◌+◌, ◌/◌, ◌%◌, ◌≤◌, ◌<◌, ◌≡◌, refl, ap, sym, ◌∙◌, inl, inr, [], ◌∷◌, ◌++◌,
  append_assoc, Text, All, arith, Bool-cases, ltb,
}
use polarcloud.Strings.{digits_onto, to_string}

digits_onto-append : (f n : ℕ) (acc : Text) → digits_onto f n acc ≡ digits_onto f n [] ++ acc
unfolding digits_onto
digits_onto-append zero n acc = refl
digits_onto-append (suc f) n acc = elim (Bool-cases (ltb n 10)) [
  | inl small ↦ rw small
  | inr large ↦ rw large (
      digits_onto-append f (n / 10) ((b'0' + n % 10) ∷ acc)
      ∙ sym (append_assoc (digits_onto f (n / 10) []) ((b'0' + n % 10) ∷ []) acc)
      ∙ ap (λ t. t ++ acc) (sym (digits_onto-append f (n / 10) ((b'0' + n % 10) ∷ []))))
]

-- More fuel than the number changes nothing.
digits_onto-fuel :
    (f g n : ℕ) (acc : Text) → n < f → n < g → digits_onto f n acc ≡ digits_onto g n acc
unfolding digits_onto
digits_onto-fuel zero g n acc h k = elim h [ ]
digits_onto-fuel (suc f) zero n acc h k = elim k [ ]
digits_onto-fuel (suc f) (suc g) n acc h k =
    ground (arith, digits_onto-fuel f g (n / 10) ((b'0' + n % 10) ∷ acc))

digits_onto_large :
    (f n : ℕ) (acc : Text)
    → 10 ≤ n
    → digits_onto (suc f) n acc ≡ digits_onto f (n / 10) ((b'0' + n % 10) ∷ acc)
unfolding digits_onto
digits_onto_large f n acc h = ground arith

to_string_lem : (n : ℕ) → to_string n ≡ digits_onto (suc n) n []
unfolding to_string
to_string_lem n = refl

pub to_string_small : (n : ℕ) → n < 10 → to_string n ≡ (b'0' + n) ∷ []
unfolding to_string
to_string_small n h = ground arith

-- A number of two digits or more ends in its last digit.
pub to_string_step : (n : ℕ) → 10 ≤ n → to_string n ≡ to_string (n / 10) ++ (b'0' + n % 10) ∷ []
to_string_step n h =
    to_string_lem n
    ∙ digits_onto_large n n [] h
    ∙ digits_onto-append n (n / 10) ((b'0' + n % 10) ∷ [])
    ∙ ap (λ t. t ++ (b'0' + n % 10) ∷ [])
        (digits_onto-fuel n (suc (n / 10)) (n / 10) [] (omega arith) (omega arith)
          ∙ sym (to_string_lem (n / 10)))

-- The three last digits of a number.
abbrev pub three : ℕ → Text
three r = (b'0' + r / 100) ∷ (b'0' + r / 10 % 10) ∷ (b'0' + r % 10) ∷ []

pub to_string-three : (n : ℕ) → 1000 ≤ n → to_string n ≡ to_string (n / 1000) ++ three (n % 1000)
to_string-three n h =
    let a : n / 10 / 10 / 10 ≡ n / 1000 = omega arith in
    let b : n / 10 / 10 % 10 ≡ n % 1000 / 100 = omega arith in
    let c : n / 10 % 10 ≡ n % 1000 / 10 % 10 = omega arith in
    let d : n % 10 ≡ n % 1000 % 10 = omega arith in
    rw (
      to_string_step n (omega arith),
      to_string_step (n / 10) (omega arith),
      to_string_step (n / 10 / 10) (omega arith),
      a,
      b,
      c,
      d,
      append_assoc,
      append_assoc,
    )

abbrev pub IsDigit : ℕ → Type 0
IsDigit c = (b'0' ≤ c) × (c ≤ b'9')

digits_onto-IsDigit : (f n : ℕ) (acc : Text) → All IsDigit acc → All IsDigit (digits_onto f n acc)
unfolding digits_onto
digits_onto-IsDigit zero n acc h = h
digits_onto-IsDigit (suc f) n acc h =
    ground (arith, digits_onto-IsDigit f (n / 10) ((b'0' + n % 10) ∷ acc))

pub to_string-IsDigit : (n : ℕ) → All IsDigit (to_string n)
unfolding to_string
to_string-IsDigit n = digits_onto-IsDigit (suc n) n [] tt
