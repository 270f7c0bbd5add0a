-- ===== src/Files/Names.antt =====
-- What `getFileExt` and `getFileKind` answer.
use polarcloud.Prelude.{
  ◌≡◌, ◌≢◌, ◌⊎◌, inl, inr, true, false, List, [], ◌∷◌, ◌++◌, Text, js, eq_text, eq_text_iff,
  eq_text_sound, Bool, ◌||◌, ◌↔◌, Bool-cases, if◌then◌else◌, Lacks, All-append, arith,
}
use polarcloud.Strings.{last_index_of, next, slice}
use polarcloud.Strings.Laws.{
  slice-last_index_of, slice_last-Lacks, slice-Lacks, substring_to_end, next_le,
}
use polarcloud.Files.{get_file_kind, base_name, get_file_ext}

get_file_ext_lem :
    (path : Text)
    → get_file_ext path ≡ slice (base_name path) (next (last_index_of (base_name path) b'.'))
unfolding get_file_ext
get_file_ext_lem path =
    substring_to_end (base_name path) (next (last_index_of (base_name path) b'.'))
      (next_le (base_name path) b'.')

base_name-Lacks : (path : Text) → Lacks b'\\' (base_name path)
unfolding base_name
base_name-Lacks path = slice_last-Lacks path b'\\'

-- The extension of any path holds neither a dot nor a backslash.
get_file_ext-Lacks :
    (path : Text) → Lacks b'.' (get_file_ext path) × Lacks b'\\' (get_file_ext path)
get_file_ext-Lacks path = rw (get_file_ext_lem path) (
  slice_last-Lacks (base_name path) b'.',
  slice-Lacks (base_name path) _ b'\\' (base_name-Lacks path),
)

pub base_name-append : (dir name : Text) → Lacks b'\\' name → base_name (dir ++ b'\\' ∷ name) ≡ name
unfolding base_name
base_name-append dir name h = slice-last_index_of dir b'\\' name h

-- Of a path `dir\stem.ext`, where `stem` holds no backslash and `ext` neither a dot nor a backslash,
-- the extension is `ext`.
pub get_file_ext-append :
    (dir stem ext : Text)
    → Lacks b'\\' stem
    → Lacks b'\\' ext
    → Lacks b'.' ext
    → get_file_ext (dir ++ b'\\' ∷ (stem ++ b'.' ∷ ext)) ≡ ext
get_file_ext-append dir stem ext hs he hd =
    let plain : Lacks b'\\' (stem ++ b'.' ∷ ext) =
      All-append (λ d. d ≢ b'\\') stem (b'.' ∷ ext) hs (omega arith, he) in
    rw
      (
        get_file_ext_lem (dir ++ b'\\' ∷ (stem ++ b'.' ∷ ext)),
        base_name-append dir (stem ++ b'.' ∷ ext) plain,
      )
      (slice-last_index_of stem b'.' ext hd)

abbrev pub pictures : List Text
pictures = js "jpg" ∷ js "png" ∷ js "PNG" ∷ js "JPG" ∷ js "GIF" ∷ js "jpeg" ∷ js "gif" ∷ []

abbrev pub videos : List Text
videos = js "avi" ∷ js "mpeg" ∷ []

abbrev pub documents : List Text
documents = js "doc" ∷ js "docx" ∷ js "pdf" ∷ js "xls" ∷ []

-- The text is one of the listed ones.
abbrev pub OneOf : Text → List Text → Type 0
OneOf t [] = ⊥
OneOf t (u ∷ us) = (t ≡ u) ⊎ OneOf t us

one_of : Text → List Text → Bool
one_of t [] = false
one_of t (u ∷ us) = eq_text t u || one_of t us

one_of_iff : (t : Text) (us : List Text) → (one_of t us ≡ true) ↔ OneOf t us
unfolding one_of
one_of_iff t [] = (λ h. cc, λ h. absurd h)
one_of_iff t (u ∷ us) = (
  λ h. ground (arith, eq_text_sound t u, (one_of_iff t us).0),
  λ h. ground (arith, eq_text_iff t u, (one_of_iff t us).1),
)

get_file_kind_lem :
    (ext : Text)
    → get_file_kind ext ≡ (
        if one_of ext pictures
        then js "pic"
        else if one_of ext videos
        then js "video"
        else if one_of ext documents
        then js "doc"
        else js "other")
unfolding get_file_kind one_of
get_file_kind_lem ext = ground arith

-- `getFileKind` answers exactly by the table of extensions: `pic` for the pictures, `video` for the
-- videos, `doc` for the documents, and `other` for every extension in none of the three groups.
get_file_kind-table :
    (ext : Text)
    → (OneOf ext pictures × (get_file_kind ext ≡ js "pic"))
      ⊎ (OneOf ext videos × (get_file_kind ext ≡ js "video"))
      ⊎ (OneOf ext documents × (get_file_kind ext ≡ js "doc"))
      ⊎ ((¬ OneOf ext pictures)
          × (¬ OneOf ext videos)
          × (¬ OneOf ext documents)
          × (get_file_kind ext ≡ js "other"))
get_file_kind-table ext = rw (get_file_kind_lem ext) (elim (Bool-cases (one_of ext pictures)) [
  | inl p ↦ inl ((one_of_iff ext pictures).0 p, rw p)
  | inr p ↦ elim (Bool-cases (one_of ext videos)) [
    | inl v ↦ inr (inl ((one_of_iff ext videos).0 v, rw (p, v)))
    | inr v ↦ elim (Bool-cases (one_of ext documents)) [
      | inl d ↦ inr (inr (inl ((one_of_iff ext documents).0 d, rw (p, v, d))))
      | inr d ↦ inr (
          inr (
            inr (
              λ h. cc ((one_of_iff ext pictures).1 h),
              λ h. cc ((one_of_iff ext videos).1 h),
              λ h. cc ((one_of_iff ext documents).1 h),
              rw (p, v, d),
            )))
    ]
  ]
])
