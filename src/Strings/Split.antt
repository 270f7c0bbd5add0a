-- ===== src/Strings/Split.antt =====
-- Laws of `split` at one unit, and the texts that it takes apart.
use polarcloud.Prelude.{
  ℕ, ◌≡◌, refl, ap, ◌∙◌, List, [], ◌∷◌, ◌++◌, Text, Lacks, All, arith, Bool-cases, inl, inr, ◌==◌,
}
use polarcloud.Strings.{split}

-- There is a first part.
split-cons : (s : Text) (c : ℕ) → (t : Text) × (ts : List Text) × (split s c ≡ t ∷ ts)
unfolding split
split-cons [] c = ([], [], refl)
split-cons (d ∷ s) c =
    let (t, ts, e) = split-cons s c in
    elim (Bool-cases (d == c)) [
      | inl same ↦ ([], t ∷ ts, ground arith)
      | inr other ↦ (d ∷ t, ts, ground arith)
    ]

pub split-append : (t s : Text) (c : ℕ) → Lacks c t → split (t ++ c ∷ s) c ≡ t ∷ split s c
unfolding split
split-append [] s c h = let (t, ts, e) = split-cons s c in rw e (ground arith)
split-append (d ∷ t) s c (a, h) = ground (arith, split-append t s c h)

pub split-Lacks : (t : Text) (c : ℕ) → Lacks c t → split t c ≡ t ∷ []
unfolding split
split-Lacks [] c h = refl
split-Lacks (d ∷ t) c (a, h) = ground (arith, split-Lacks t c h)

-- The parts with the unit between two of them.
unfoldable pub join : List Text → ℕ → Text
join [] c = []
join (t ∷ []) c = t
join (t ∷ u ∷ ts) c = t ++ c ∷ join (u ∷ ts) c

-- Parts that lack the unit are found again, if there is one.
pub split-join :
    (t : Text) (ts : List Text) (c : ℕ)
    → Lacks c t
    → All (Lacks c) ts
    → split (join (t ∷ ts) c) c ≡ t ∷ ts
unfolding join
split-join t [] c h k = split-Lacks t c h
split-join t (u ∷ ts) c h (a, k) =
    split-append t (join (u ∷ ts) c) c h ∙ ap (λ r. t ∷ r) (split-join u ts c a k)
