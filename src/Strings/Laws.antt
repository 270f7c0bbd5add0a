-- ===== src/Strings/Laws.antt =====
-- Laws of `lastIndexOf`, `slice` and `substring`.
use Prim.Native.Nat.{min}
use polarcloud.Prelude.{
  ℕ, zero, suc, ◌-◌, ◌≤◌, ◌≡◌, ◌≢◌, refl, ap, ◌∙◌, inl, inr, [], ◌∷◌, ◌++◌, none, some, Text, Lacks,
  All-drop, length, take, drop, length-append, drop-length, arith, Bool-cases, Option-cases, ◌==◌,
}
use polarcloud.Strings.{last_index_of, next, slice, substring}

-- A unit that does not occur has no index.
pub last_index_of-Lacks : (s : Text) (c : ℕ) → Lacks c s → last_index_of s c ≡ none
unfolding last_index_of
last_index_of-Lacks [] c h = refl
last_index_of-Lacks (d ∷ s) c (p, h) = ground (arith, last_index_of-Lacks s c h)

-- The last occurrence of a unit stands before a rest that lacks it.
pub last_index_of-append :
    (s : Text) (c : ℕ) (t : Text) → Lacks c t → last_index_of (s ++ c ∷ t) c ≡ some (length s)
unfolding last_index_of
last_index_of-append [] c t h = ground (arith, last_index_of-Lacks t c h)
last_index_of-append (d ∷ s) c t h = rw (last_index_of-append s c t h)

pub drop-append_unit : (s : Text) (c : ℕ) (t : Text) → drop (suc (length s)) (s ++ c ∷ t) ≡ t
drop-append_unit [] c t = refl
drop-append_unit (d ∷ s) c t = drop-append_unit s c t

pub slice-last_index_of :
    (s : Text) (c : ℕ) (t : Text)
    → Lacks c t
    → slice (s ++ c ∷ t) (next (last_index_of (s ++ c ∷ t) c)) ≡ t
slice-last_index_of s c t h = rw (last_index_of-append s c t h) (drop-append_unit s c t)

-- Whatever the text, what stands behind the last occurrence lacks the unit.
pub slice_last-Lacks : (s : Text) (c : ℕ) → Lacks c (slice s (next (last_index_of s c)))
unfolding last_index_of
slice_last-Lacks [] c = tt
slice_last-Lacks (d ∷ s) c = elim (Option-cases (last_index_of s c)) [
  | inr (i, e) ↦ rw e (rw e at (slice_last-Lacks s c))
  | inl e ↦
      let ih = rw e at (slice_last-Lacks s c) in
      elim (Bool-cases (d == c)) [
        | inl same ↦ rw (e, same) ih
        | inr other ↦ rw (e, other) (ground arith, ih)
      ]
]

-- A unit that is lacking keeps lacking.
pub slice-Lacks : (s : Text) (a c : ℕ) → Lacks c s → Lacks c (slice s a)
slice-Lacks s a c h = All-drop (λ d. d ≢ c) a s h

take_all : (n : ℕ) (s : Text) → length s ≤ n → take n s ≡ s
take_all zero [] h = refl
take_all zero (d ∷ s) h = absurd (omega arith)
take_all (suc n) [] h = refl
take_all (suc n) (d ∷ s) h = ap (λ r. d ∷ r) (take_all n s (omega arith))

drop_all : (n : ℕ) (s : Text) → length s ≤ n → drop n s ≡ []
drop_all zero [] h = refl
drop_all zero (d ∷ s) h = absurd (omega arith)
drop_all (suc n) [] h = refl
drop_all (suc n) (d ∷ s) h = drop_all n s (omega arith)

length-drop : (n : ℕ) (s : Text) → length (drop n s) ≡ length s - n
length-drop zero s = omega arith
length-drop (suc n) [] = omega arith
length-drop (suc n) (d ∷ s) = omega (arith, length-drop n s)

-- From a position to the end.
pub substring_to_end : (s : Text) (a : ℕ) → a ≤ length s → substring s a (length s) ≡ drop a s
unfolding substring
substring_to_end s a h =
    let low : min (min a (length s)) (min (length s) (length s)) ≡ a = omega arith in
    rw low (take_all _ (drop a s) (omega (arith, length-drop a s)))

-- The rest of a sum behind its first part.
pub substring-append :
    (s t : Text) → substring (s ++ t) (length (s ++ t) - length t) (length (s ++ t)) ≡ t
substring-append s t =
    let here : length (s ++ t) - length t ≡ length s = omega (arith, length-append s t) in
    rw here
      (substring_to_end (s ++ t) (length s) (omega (arith, length-append s t)) ∙ drop-length s t)

pub next_le : (s : Text) (c : ℕ) → next (last_index_of s c) ≤ length s
unfolding last_index_of
next_le [] c = omega arith
next_le (d ∷ s) c = ground (arith, next_le s c)
