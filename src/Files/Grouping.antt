-- ===== src/Files/Grouping.antt =====
-- What the size column shows.
use polarcloud.Prelude.{
  ap, ◌∙◌, ℕ, zero, suc, ◌+◌, ◌-◌, ◌/◌, ◌%◌, ◌≤◌, ◌<◌, ◌≡◌, refl, sym, ◌∙◌, inl, inr, [], ◌∷◌, ◌++◌,
  append_assoc, Text, js, eq_text, All, length, arith, Bool-cases, ltb, ◌==◌, if◌then◌else◌,
}
use polarcloud.Strings.{substring, to_string}
use polarcloud.Strings.Laws.{substring-append}
use polarcloud.Strings.Decimal.{three, to_string-three, to_string-IsDigit, IsDigit}
use polarcloud.Files.{size_loop, size_end, size_text}

-- The text of a size: the decimal digits with a comma before the last three, again and again, while
-- what stands before them is more than 1000.
pub data Grouped : ℕ → Text → Type 0 where
  plain : (n : ℕ) → n ≤ 1000 → Grouped n (to_string n)
  group :
      (n : ℕ) (t : Text)
      → 1000 < n
      → Grouped (n / 1000) t
      → Grouped n (t ++ b',' ∷ three (n % 1000))

last_three :
    (n : ℕ)
    → 1000 ≤ n
    → substring (to_string n) (length (to_string n) - 3) (length (to_string n)) ≡ three (n % 1000)
last_three n h =
    rw (to_string-three n h) (substring-append (to_string (n / 1000)) (three (n % 1000)))

-- The loop in the shape of the specification.
size_loop_step :
    (f n : ℕ) (r : Text)
    → 1000 < n
    → size_loop (suc f) n r
      ≡ size_loop f
          (n / 1000)
          (if eq_text r [] then three (n % 1000) else three (n % 1000) ++ b',' ∷ r)
unfolding size_loop js
size_loop_step f n r h = rw (last_three n (omega arith)) (ground arith)

size_loop_end : (f n : ℕ) (r : Text) → n ≤ 1000 → size_loop f n r ≡ (n, r)
unfolding size_loop
size_loop_end zero n r h = refl
size_loop_end (suc f) n r h = ground arith

-- The loop ends by its test when the fuel is at least the size.
size_loop_ends : (f n : ℕ) (r : Text) → n ≤ f → (size_loop f n r).0 ≤ 1000
size_loop_ends zero n r h = rw (size_loop_end zero n r (omega arith)) (omega arith)
size_loop_ends (suc f) n r h = elim (Bool-cases (ltb 1000 n)) [
  | inl large ↦
      rw (size_loop_step f n r (ground arith)) (size_loop_ends f (n / 1000) _ (ground arith))
  | inr small ↦ rw (size_loop_end (suc f) n r (ground arith)) (ground arith)
]

abbrev finish : ℕ × Text → Text
finish (m, r) = size_end m r

to_string_zero : js "0" ≡ to_string 0
unfolding js to_string
to_string_zero = refl

size_end_nil : (n : ℕ) → size_end n [] ≡ to_string n
unfolding size_end eq_text
size_end_nil zero = to_string_zero
size_end_nil (suc n) = ground arith

size_end_cons : (n c : ℕ) (r : Text) → 0 < n → size_end n (c ∷ r) ≡ to_string n ++ b',' ∷ (c ∷ r)
unfolding size_end js eq_text
size_end_cons n c r h = ground (arith, append_assoc (to_string n) (b',' ∷ []) (c ∷ r))

-- The step with its test decided: the first round, and a later one.
size_loop_first :
    (f n : ℕ) → 1000 < n → size_loop (suc f) n [] ≡ size_loop f (n / 1000) (three (n % 1000))
unfolding eq_text
size_loop_first f n h = size_loop_step f n [] h

size_loop_later :
    (f n c : ℕ) (r : Text)
    → 1000 < n
    → size_loop (suc f) n (c ∷ r) ≡ size_loop f (n / 1000) (three (n % 1000) ++ b',' ∷ c ∷ r)
unfolding eq_text
size_loop_later f n c r h = size_loop_step f n (c ∷ r) h

-- With digits collected, the loop puts the groups of the number before them.
size_loop-onto :
    (f n c : ℕ) (r : Text)
    → n ≤ f
    → 0 < n
    → (t : Text) × Grouped n t × (finish (size_loop f n (c ∷ r)) ≡ t ++ b',' ∷ (c ∷ r))
size_loop-onto zero n c r h k = absurd (omega arith)
size_loop-onto (suc f) n c r h k = elim (Bool-cases (ltb 1000 n)) [
  | inl large ↦
      later
        (size_loop-onto f (n / 1000) (b'0' + n % 1000 / 100)
          ((b'0' + n % 1000 / 10 % 10) ∷ (b'0' + n % 1000 % 10) ∷ b',' ∷ c ∷ r) (ground arith)
          (ground arith))
        (ground arith)
  | inr small ↦ (
    to_string n,
    plain n (ground arith),
    rw (size_loop_end (suc f) n (c ∷ r) (ground arith)) (size_end_cons n c r k),
  )
]
  where
    later :
        (t : Text) × Grouped (n / 1000) t
          × (finish (size_loop f (n / 1000) (three (n % 1000) ++ b',' ∷ c ∷ r))
              ≡ t ++ b',' ∷ (three (n % 1000) ++ b',' ∷ c ∷ r))
        → 1000 < n
        → (t : Text) × Grouped n t × (finish (size_loop (suc f) n (c ∷ r)) ≡ t ++ b',' ∷ (c ∷ r))
    later (t, g, e) large = (
      t ++ b',' ∷ three (n % 1000),
      group n t large g,
      rw (size_loop_later f n c r large)
          (e ∙ sym (append_assoc t (b',' ∷ three (n % 1000)) (b',' ∷ c ∷ r))),
    )

-- The size column shows every size as `Grouped` says: the digits with a comma before the last three,
-- again and again, while what stands before them is more than 1000.
pub size_text-Grouped : (n : ℕ) → Grouped n (size_text n)
unfolding size_text
size_text-Grouped zero =
    rw (size_loop_end 0 0 [] (omega arith), size_end_nil) (plain 0 (omega arith))
size_text-Grouped (suc m) = elim (Bool-cases (ltb 1000 (suc m))) [
  | inl large ↦
      first
        (size_loop-onto m (suc m / 1000) (b'0' + suc m % 1000 / 100)
          ((b'0' + suc m % 1000 / 10 % 10) ∷ (b'0' + suc m % 1000 % 10) ∷ []) (ground arith)
          (ground arith))
        (ground arith)
  | inr small ↦
      rw (size_loop_end (suc m) (suc m) [] (ground arith), size_end_nil)
        (plain (suc m) (ground arith))
]
  where
    first :
        (t : Text) × Grouped (suc m / 1000) t
          × (finish (size_loop m (suc m / 1000) (three (suc m % 1000)))
              ≡ t ++ b',' ∷ three (suc m % 1000))
        → 1000 < suc m
        → Grouped (suc m) (finish (size_loop (suc m) (suc m) []))
    first (t, g, e) large = rw (size_loop_first m (suc m) large, e) (group (suc m) t large g)

-- The text without its commas.
pub strip : Text → Text
strip [] = []
strip (c ∷ s) = let rest = strip s in if c == b',' then rest else c ∷ rest

strip-append : (s t : Text) → strip (s ++ t) ≡ strip s ++ strip t
unfolding strip
strip-append [] t = refl
strip-append (c ∷ s) t = ground (arith, strip-append s t)

strip-IsDigit : (s : Text) → All IsDigit s → strip s ≡ s
unfolding strip
strip-IsDigit [] h = refl
strip-IsDigit (c ∷ s) (p, h) = ground (arith, strip-IsDigit s h)

strip-three : (r : ℕ) (h : r < 1000) → strip (b',' ∷ three r) ≡ three r
unfolding strip
strip-three r h = ground arith

strip-Grouped : {n : ℕ} {t : Text} → Grouped n t → strip t ≡ to_string n
strip-Grouped (plain n h) = strip-IsDigit (to_string n) (to_string-IsDigit n)
strip-Grouped (group n t h g) = rw (
  strip-append t (b',' ∷ three (n % 1000)),
  strip-Grouped g,
  strip-three (n % 1000) (omega arith),
  to_string-three n (omega arith),
)

-- Whatever the size, its text without the commas is the decimal number.
strip-size_text : (n : ℕ) → strip (size_text n) ≡ to_string n
strip-size_text n = strip-Grouped (size_text-Grouped n)

-- A size from 1 000 000 to 1 000 999 is shown with four digits before its only comma.
size_text-million : (r : ℕ) → r < 1000 → size_text (1000000 + r) ≡ to_string 1000 ++ b',' ∷ three r
unfolding size_text
size_text-million r h =
    let s : 1000000 + r ≡ suc (999999 + r) = omega arith in
    let q : (1000000 + r) / 1000 ≡ 1000 = omega arith in
    let m : (1000000 + r) % 1000 ≡ r = omega arith in
    (ap (λ (f : ℕ). finish (size_loop f (1000000 + r) [])) s)
    ∙ ap finish (size_loop_first (999999 + r) (1000000 + r) (omega arith))
    ∙ rw (q, m, size_loop_end (999999 + r) 1000 (three r) (omega arith))
        (size_end_cons 1000 (b'0' + r / 100) ((b'0' + r / 10 % 10) ∷ (b'0' + r % 10) ∷ [])
          (omega arith))
