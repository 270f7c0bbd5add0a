-- ===== src/Drive/Selection/Lists.antt =====
-- What the lists of the checked boxes hold.
use polarcloud.Prelude.{
  ℕ, ◌≡◌, ◌≢◌, refl, ap, sym, ◌∙◌, inl, inr, Bool, false, List, [], ◌∷◌, ◌++◌, append-nil,
  append_assoc, map, none, some, Text, js, ◌↔◌, eq_text, Lacks, All, arith, Bool-cases,
  if◌then◌else◌,
}
use polarcloud.Strings.{split}
use polarcloud.Strings.Split.{join, split-join}
use polarcloud.Drive.Selection.{Checkbox, checked, quanxuan, quanxuan_from, get_quanxuan_list}

-- The ids of the checked boxes, in the order of the table.
unfoldable pub checked_ids : List Checkbox → List Text
checked_ids [] = []
checked_ids (b ∷ bs) = let rest = checked_ids bs in if checked b then b.value ∷ rest else rest

-- Texts, each behind a comma.
behind_commas : List Text → Text
behind_commas [] = []
behind_commas (t ∷ ts) = b',' ∷ (t ++ behind_commas ts)

join-behind_commas : (t : Text) (ts : List Text) → join (t ∷ ts) b',' ≡ t ++ behind_commas ts
unfolding join behind_commas
join-behind_commas t [] = sym (append-nil t)
join-behind_commas t (u ∷ ts) = ap (λ r. t ++ b',' ∷ r) (join-behind_commas u ts)

eq_text_cons : (c : ℕ) (s : Text) → eq_text (c ∷ s) [] ≡ false
unfolding eq_text
eq_text_cons c s = refl

-- With ids collected, each further one goes behind a comma.
quanxuan_from-cons :
    (c : ℕ) (s : Text) (bs : List Checkbox)
    → quanxuan_from (c ∷ s) bs ≡ c ∷ (s ++ behind_commas (checked_ids bs))
unfolding quanxuan_from checked_ids behind_commas js
quanxuan_from-cons c s [] = ap (λ r. c ∷ r) (sym (append-nil s))
quanxuan_from-cons c s (b ∷ bs) = elim (Bool-cases (checked b)) [
  | inl on ↦
      rw (on, eq_text_cons c s)
        (quanxuan_from-cons c (s ++ b',' ∷ [] ++ b.value) bs ∙ ap (λ r. c ∷ r) (simp append_assoc))
  | inr off ↦ rw off (quanxuan_from-cons c s bs)
]

-- The first checked box.
quanxuan_from-first :
    (v : Text) (bs : List Checkbox) → v ≢ [] → quanxuan_from v bs ≡ join (v ∷ checked_ids bs) b','
quanxuan_from-first [] bs h = absurd (h refl)
quanxuan_from-first (c ∷ s) bs h =
    quanxuan_from-cons c s bs ∙ sym (join-behind_commas (c ∷ s) (checked_ids bs))

quanxuan_from-nil :
    (bs : List Checkbox)
    → All (λ b. b.value ≢ []) bs
    → quanxuan_from [] bs ≡ join (checked_ids bs) b','
unfolding quanxuan_from checked_ids eq_text join
quanxuan_from-nil [] h = refl
quanxuan_from-nil (b ∷ bs) (n, h) = elim (Bool-cases (checked b)) [
  | inl on ↦ rw on (quanxuan_from-first b.value bs n)
  | inr off ↦ rw off (quanxuan_from-nil bs h)
]

ids_ne_nil :
    (bs : List Checkbox)
    → All (λ b. (b.value ≢ []) × Lacks b',' b.value) bs
    → All (λ b. b.value ≢ []) bs
ids_ne_nil [] h = tt
ids_ne_nil (b ∷ bs) ((n, l), h) = (n, ids_ne_nil bs h)

module _ (P : Text → Type 0) where
  All-checked_ids : (bs : List Checkbox) → All (λ b. P b.value) bs → All P (checked_ids bs)
  unfolding checked_ids
  All-checked_ids [] h = tt
  All-checked_ids (b ∷ bs) (p, h) = elim (Bool-cases (checked b)) [
    | inl on ↦ rw on (p, All-checked_ids bs h)
    | inr off ↦ rw off (All-checked_ids bs h)
  ]

checked_ids-Lacks :
    (bs : List Checkbox)
    → All (λ b. (b.value ≢ []) × Lacks b',' b.value) bs
    → All (Lacks b',') (checked_ids bs)
unfolding checked_ids
checked_ids-Lacks [] h = tt
checked_ids-Lacks (b ∷ bs) ((n, l), h) = elim (Bool-cases (checked b)) [
  | inl on ↦ rw on (l, checked_ids-Lacks bs h)
  | inr off ↦ rw off (checked_ids-Lacks bs h)
]

split_ids : (ts : List Text) → ts ≢ [] → All (Lacks b',') ts → split (join ts b',') b',' ≡ ts
split_ids [] h k = absurd (h refl)
split_ids (t ∷ ts) h (a, k) = split-join t ts b',' a k

pub checked_ids-ne_nil :
    (bs : List Checkbox) → All (λ b. b.value ≢ []) bs → All (λ t. t ≢ []) (checked_ids bs)
checked_ids-ne_nil bs h = All-checked_ids (λ t. t ≢ []) bs h

join_nil : (ts : List Text) → All (λ t. t ≢ []) ts → join ts b',' ≡ [] → ts ≡ []
unfolding join
join_nil [] h e = refl
join_nil (t ∷ []) (n, h) e = absurd (n e)
join_nil ([] ∷ u ∷ ts) (n, h) e = absurd (n refl)
join_nil ((c ∷ t) ∷ u ∷ ts) (n, h) e = cc

-- `getQuanxuanList` writes the ids of the checked boxes with a comma between two of them; no id is
-- empty.
pub get_quanxuan_list-join :
    (bs : List Checkbox)
    → All (λ b. b.value ≢ []) bs
    → get_quanxuan_list bs ≡ join (checked_ids bs) b','
unfolding get_quanxuan_list
get_quanxuan_list-join bs h = quanxuan_from-nil bs h

-- Cutting the list that is sent at its commas gives the ids of the checked boxes, in the order of the
-- table, if a box is checked, and no id is empty or holds a comma.
pub split-get_quanxuan_list :
    (bs : List Checkbox)
    → All (λ b. (b.value ≢ []) × Lacks b',' b.value) bs
    → checked_ids bs ≢ []
    → split (get_quanxuan_list bs) b',' ≡ checked_ids bs
split-get_quanxuan_list bs h n =
    ap (λ t. split t b',') (get_quanxuan_list-join bs (ids_ne_nil bs h))
    ∙ split_ids (checked_ids bs) n (checked_ids-Lacks bs h)

-- Nothing is sent, as the empty text, exactly when no box is checked; no id is empty.
pub get_quanxuan_list-nil :
    (bs : List Checkbox)
    → All (λ b. b.value ≢ []) bs
    → (get_quanxuan_list bs ≡ []) ↔ (checked_ids bs ≡ [])
unfolding join
get_quanxuan_list-nil bs h = (
  λ e. join_nil (checked_ids bs) (checked_ids-ne_nil bs h) (sym (get_quanxuan_list-join bs h) ∙ e),
  λ e. get_quanxuan_list-join bs h ∙ rw e,
)

-- "Select all" on boxes that the user has not clicked selects every entry, and without its mark none.
checked_ids-quanxuan :
    (on : Bool) (bs : List Checkbox)
    → All (λ b. b.clicked ≡ none) bs
    → checked_ids (quanxuan on bs) ≡ (if on then map (λ b. b.value) bs else [])
unfolding checked_ids quanxuan
checked_ids-quanxuan on [] h = ground arith
checked_ids-quanxuan on (b ∷ bs) (n, h) = ground (arith, checked_ids-quanxuan on bs h)

-- A box that the user has clicked stays as the click left it.
quanxuan-clicked :
    (on c : Bool) (b : Checkbox) (bs : List Checkbox)
    → b.clicked ≡ some c
    → checked_ids (quanxuan on (b ∷ bs))
      ≡ (if c then b.value ∷ checked_ids (quanxuan on bs) else checked_ids (quanxuan on bs))
unfolding checked_ids quanxuan
quanxuan-clicked on c b bs e = ground arith
