-- ===== src/Store/Folders.antt =====
-- A folder of files, as the store uses it: names and contents.
use polarcloud.Prelude.{
  ℕ, zero, suc, ◌≤◌, ◌≡◌, refl, sym, ap, ◌∙◌, inl, inr, false, List, [], ◌∷◌, ◌++◌, append-nil,
  Option, none, some, length, drop, drop-length, Text, eq_text, eq_text_sound, eq_text_refl,
  if◌then◌else◌, Bool-cases, arith,
}

abbrev pub Bytes : Type 0
Bytes = List ℕ

abbrev pub Folder : Type 0
Folder = List (Text × Bytes)

unfoldable pub find_file : Text → Folder → Option Bytes
find_file name [] = none
find_file name ((n, bs) ∷ files) = if eq_text n name then some bs else find_file name files

unfoldable pub put_file : Text → Bytes → Folder → Folder
put_file name bs [] = (name, bs) ∷ []
put_file name bs ((n, old) ∷ files) =
    let rest = put_file name bs files in if eq_text n name then (n, bs) ∷ files else (n, old) ∷ rest

unfoldable pub remove_file : Text → Folder → Folder
remove_file name [] = []
remove_file name ((n, old) ∷ files) =
    let rest = remove_file name files in if eq_text n name then rest else (n, old) ∷ rest

-- What a file holds after `bs` was written from its start, where it was opened without O_TRUNC.
abbrev pub written_over : Bytes → Option Bytes → Bytes
written_over bs none = bs
written_over bs (some old) = bs ++ drop (length bs) old

pub find_file-put_file :
    (name : Text) (bs : Bytes) (files : Folder) → find_file name (put_file name bs files) ≡ some bs
unfolding find_file put_file
find_file-put_file name bs [] = rw (eq_text_refl name)
find_file-put_file name bs ((n, old) ∷ files) = elim (Bool-cases (eq_text n name)) [
  | inl same ↦ rw (same, same)
  | inr other ↦ rw (other, other) (find_file-put_file name bs files)
]

pub find_file-put_file_other :
    (name other : Text) (bs : Bytes) (files : Folder)
    → eq_text other name ≡ false
    → find_file name (put_file other bs files) ≡ find_file name files
unfolding find_file put_file
find_file-put_file_other name other bs [] h = rw h
find_file-put_file_other name other bs ((n, old) ∷ files) h = elim (Bool-cases (eq_text n other)) [
  | inl same ↦
      let e : n ≡ other = eq_text_sound n other same in
      rw (same, ap (λ (t : Text). eq_text t name) e ∙ h)
  | inr differ ↦ rw (differ, find_file-put_file_other name other bs files h)
]

pub written_over_same : (bs : Bytes) → written_over bs (some bs) ≡ bs
written_over_same bs =
    ap (λ (t : Bytes). bs ++ drop (length bs) t) (sym (append-nil bs))
    ∙ ap (λ (t : Bytes). bs ++ t) (drop-length bs [])
    ∙ append-nil bs

pub drop_all : (n : ℕ) (bs : Bytes) → length bs ≤ n → drop n bs ≡ []
drop_all zero [] h = refl
drop_all (suc n) [] h = refl
drop_all zero (b ∷ bs) h = absurd (omega arith)
drop_all (suc n) (b ∷ bs) h = drop_all n bs (omega arith)

-- What a file holds, nothing if there is none.
abbrev pub or_nil : Option Bytes → Bytes
or_nil none = []
or_nil (some bs) = bs

pub written_over_longer :
    (bs : Bytes) (old : Option Bytes) → length (or_nil old) ≤ length bs → written_over bs old ≡ bs
written_over_longer bs none h = refl
written_over_longer bs (some old) h =
    ap (λ (t : Bytes). bs ++ t) (drop_all (length bs) old h) ∙ append-nil bs
