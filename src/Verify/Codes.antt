-- ===== src/Verify/Codes.antt =====
-- Which text `validate` accepts.
use Prim.Native.Nat.{◌^◌}
use polarcloud.Prelude.{
  ℕ, suc, zero, ◌*◌, ◌-◌, ◌≤◌, ◌<◌, ◌≡◌, ◌≢◌, refl, ap, ◌∙◌, inl, inr, true, false, List, [], ◌∷◌,
  map, Text, eq_text, eq_text_sound, eq_text_iff, ◌↔◌, All, length, length-append, arith,
  Bool-cases,
}
use polarcloud.Verify.{Options, random_num, text_at, alphabet, drawn, refresh, lower, validate}

-- On fresh options the drawn characters are accepted, and so is exactly what agrees with them up to
-- the case of the letters.
pub validate-refresh :
    (o : Options) (randoms : List ℕ) (s : Text)
    → o.code ≡ []
    → (validate s (refresh randoms o) ≡ true) ↔ (map lower s ≡ map lower (drawn o randoms))
unfolding validate refresh drawn alphabet
validate-refresh o randoms s e = rw e (eq_text_iff (map lower s) (map lower (drawn o randoms)))

length-map : (s : Text) → length (map lower s) ≡ length s
length-map [] = refl
length-map (c ∷ s) = ap suc (length-map s)

-- A text that is shorter than the code is not accepted.
pub validate-length : (s : Text) (o : Options) → length s < length o.code → validate s o ≡ false
unfolding validate
validate-length s o h = elim (Bool-cases (eq_text (map lower s) (map lower o.code))) [
  | inr no_ ↦ no_
  | inl yes_ ↦
      let same = ap length (eq_text_sound _ _ yes_) in
      absurd (omega (arith, same, length-map s, length-map o.code))
]

-- A refresh keeps the old code: once there is one, no text as long as the drawn characters is accepted
-- any more, the drawn characters themselves included.
validate-refresh_again :
    (o : Options) (randoms : List ℕ) (s : Text)
    → o.code ≢ []
    → length s ≡ length (drawn o randoms)
    → validate s (refresh randoms o) ≡ false
unfolding refresh
validate-refresh_again o randoms s n e =
    validate-length s (refresh randoms o)
      (omega (arith, e, length-append {0} o.code (drawn o randoms), longer o.code n))
  where
    longer : (t : Text) → t ≢ [] → 0 < length t
    longer [] h = absurd (h refl)
    longer (c ∷ t) h = omega arith

random_num-lt : (r n : ℕ) → r < 2 ^ 53 → 0 < n → random_num r 0 n < n
unfolding random_num
random_num-lt r n h k =
    let a : r * n ≤ 9007199254740991 * n = grind arith in
    let b : n - 0 ≡ n = omega arith in rw b (omega (arith, a))

text_at-length :
    (ts : List Text) (i : ℕ)
    → All (λ t. length t ≡ 1) ts
    → i < length ts
    → length (text_at ts i) ≡ 1
unfolding text_at
text_at-length [] i h k = absurd (omega arith)
text_at-length (t ∷ ts) zero (a, h) k = a
text_at-length (t ∷ ts) (suc i) (a, h) k = text_at-length ts i h (omega arith)

-- A refresh draws one character for each random number, for an alphabet of single characters.
pub length-drawn :
    (o : Options) (rs : List ℕ)
    → All (λ t. length t ≡ 1) (alphabet o)
    → 0 < length (alphabet o)
    → All (λ r. r < 2 ^ 53) rs
    → length (drawn o rs) ≡ length rs
unfolding drawn
length-drawn o [] h k a = refl
length-drawn o (r ∷ rs) h k (b, a) =
    length-append {0} (text_at (alphabet o) (random_num r 0 (length (alphabet o)))) (drawn o rs)
    ∙ omega (
      arith,
      text_at-length (alphabet o) _ h (random_num-lt r (length (alphabet o)) b k),
      length-drawn o rs h k a,
    )
