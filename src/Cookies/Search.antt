-- ===== src/Cookies/Search.antt =====
-- The search of `getCookie` on a text that is cut at its semicolons.
use polarcloud.Prelude.{
  ℕ, ◌≡◌, ◌≢◌, refl, inl, inr, [], ◌∷◌, ◌++◌, none, some, Text, Lacks, arith, Bool-cases,
  Option-cases, ◌==◌,
}
use polarcloud.Cookies.{strip_prefix, until_semicolon, match_here, search_text}

-- A prefix with no semicolon ends before the first semicolon of the text.
strip_prefix-append :
    (p e r : Text)
    → Lacks b';' p
    → strip_prefix p (e ++ b';' ∷ r)
      ≡ elim (strip_prefix p e) [ none ↦ none | some t ↦ some (t ++ b';' ∷ r) ]
unfolding strip_prefix
strip_prefix-append [] e r h = refl
strip_prefix-append (c ∷ p) [] r (a, h) = ground arith
strip_prefix-append (c ∷ p) (d ∷ e) r (a, h) = elim (Bool-cases (c == d)) [
  | inl same ↦ rw same (strip_prefix-append p e r h)
  | inr other ↦ rw other
]

until_semicolon-append : (t r : Text) → until_semicolon (t ++ b';' ∷ r) ≡ until_semicolon t
unfolding until_semicolon
until_semicolon-append [] r = refl
until_semicolon-append (c ∷ t) r = ground (arith, until_semicolon-append t r)

match_here-append : (p e r : Text) → Lacks b';' p → match_here p (e ++ b';' ∷ r) ≡ match_here p e
unfolding match_here
match_here-append p e r h = elim (Option-cases (strip_prefix p e)) [
  | inl n ↦ ground (arith, strip_prefix-append p e r h)
  | inr (t, s) ↦ ground (arith, strip_prefix-append p e r h, until_semicolon-append t r)
]

match_here-cons :
    (p : Text) (d : ℕ) (e r : Text)
    → Lacks b';' p
    → match_here p (d ∷ (e ++ b';' ∷ r)) ≡ match_here p (d ∷ e)
match_here-cons p d e r h = match_here-append p (d ∷ e) r h

search_text_start :
    (c : ℕ) (p r : Text)
    → Lacks b';' (c ∷ p)
    → search_text (c ∷ p) (b';' ∷ r)
      ≡ elim (search_text (c ∷ p) []) [ none ↦ search_text (c ∷ p) r | some v ↦ some v ]
unfolding search_text match_here strip_prefix
search_text_start c p r h = ground arith

-- A search goes through the part before the first semicolon, and then through the rest.
pub search_text-append :
    (c : ℕ) (p e r : Text)
    → Lacks b';' (c ∷ p)
    → search_text (c ∷ p) (e ++ b';' ∷ r)
      ≡ elim (search_text (c ∷ p) e) [ none ↦ search_text (c ∷ p) r | some v ↦ some v ]
unfolding search_text
search_text-append c p [] r h = search_text_start c p r h
search_text-append c p (d ∷ e) r h =
    ground (arith, match_here-cons (c ∷ p) d e r h, search_text-append c p e r h)

-- A character that does not begin the pattern is passed over.
pub search_text_skip :
    (c d : ℕ) (p s : Text) → c ≢ d → search_text (c ∷ p) (d ∷ s) ≡ search_text (c ∷ p) s
unfolding search_text match_here strip_prefix
search_text_skip c d p s h = ground arith
