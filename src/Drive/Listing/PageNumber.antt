-- ===== src/Drive/Listing/PageNumber.antt =====
-- Pages that ask for the first page of a listing only, through the operations that list.
use polarcloud.Prelude.{
  ℕ, ◌≡◌, refl, inl, inr, List, [], ◌∷◌, Option, Text, All, Bool-cases, Option-cases, js, eq_text,
  ◌==◌,
}
use polarcloud.Browser.Values.{Value, loosely_is_text}
use polarcloud.Page.{Item, Callback, Request, Page, Answer, on_files}
use polarcloud.Drive.Row.{display_items}
use polarcloud.Drive.Panels.{cancel_dirction_panel}
use polarcloud.Drive.Listing.{
  listing_buttons, request_files, get_file_list, on_files_answer, open_this_file, create_new_dir,
  on_dir_created_answer, back_parent_dir, on_parent_answer,
}

-- The request that the answer belongs to asks for page 1, if it is for a listing.
abbrev pub AsksPage : Callback → Type 0
AsksPage (on_files n kind del parent) = n ≡ 1
AsksPage _ = Unit

-- The page number is 1, and every request for a listing asks for page 1.
pub record IsValid (p : Page) : Type 0 where
  pub number : p.currentpage ≡ 1
  pub asked : All (λ r. AsksPage r.callback) p.pending

-- One more request, which is for no listing or for page 1.
pub asked-IsValid :
    {p q : Page} (r : Request)
    → q.currentpage ≡ p.currentpage
    → q.pending ≡ r ∷ p.pending
    → AsksPage r.callback
    → IsValid p
    → IsValid q
asked-IsValid r e f a v = record { number = rw e v.number; asked = rw f (a, v.asked) }

-- The other fields do not count.
pub same-IsValid :
    {p q : Page} → q.currentpage ≡ p.currentpage → q.pending ≡ p.pending → IsValid p → IsValid q
same-IsValid e f v = record { number = rw e v.number; asked = rw f v.asked }

pub get_file_list-IsValid :
    (n : ℕ) (kind : Text) (del : ℕ) (parent : Value) {p : Page}
    → n ≡ 1
    → IsValid p
    → IsValid (get_file_list n kind del parent p)
unfolding get_file_list request_files listing_buttons
get_file_list-IsValid n kind del parent {p} one v = elim (Bool-cases (n == 0)) [
  | inl zero ↦ rw zero (same-IsValid refl refl v)
  | inr positive ↦ elim (Bool-cases (del == 1)) [
    | inl bin ↦ rw (positive, bin) (asked-IsValid _ refl refl one v)
    | inr files ↦ rw (positive, files) (asked-IsValid _ refl refl one v)
  ]
]

pub display_items-IsValid :
    (del : Option ℕ) (is : List Item) {p : Page} → IsValid p → IsValid (display_items del is p)
unfolding display_items
display_items-IsValid del [] v = v
display_items-IsValid del (i ∷ is) v = display_items-IsValid del is (same-IsValid refl refl v)

pub on_files_answer-IsValid :
    (n : ℕ) (kind : Text) (del : ℕ) (parent : Value) (res : Answer (List Item)) {p : Page}
    → n ≡ 1
    → IsValid p
    → IsValid (on_files_answer n kind del parent res p)
unfolding on_files_answer
on_files_answer-IsValid n kind del parent res k v = elim (Bool-cases (res.status == 200)) [
  | inr no_ ↦ rw no_ (same-IsValid refl refl v)
  | inl yes_ ↦ elim (Bool-cases (res.status == 401)) [
    | inl out ↦ rw (yes_, out) (same-IsValid refl refl v)
    | inr in_ ↦ elim (Option-cases res.body) [
      | inl no_body ↦ rw (yes_, in_, no_body) (record { number = k; asked = v.asked })
      | inr (is, body) ↦
          rw (yes_, in_, body) (display_items-IsValid _ is (record { number = k; asked = v.asked }))
    ]
  ]
]

pub open_this_file-IsValid : (id : Value) {p : Page} → IsValid p → IsValid (open_this_file id p)
unfolding open_this_file
open_this_file-IsValid id v = get_file_list-IsValid _ _ _ id v.number v

pub create_new_dir-IsValid :
    (title : Text) {p : Page} → IsValid p → IsValid (create_new_dir title p)
unfolding create_new_dir
create_new_dir-IsValid title v = asked-IsValid _ refl refl tt v

pub on_dir_created_answer-IsValid :
    (res : Answer Item) {p : Page} → IsValid p → IsValid (on_dir_created_answer res p)
unfolding on_dir_created_answer cancel_dirction_panel
on_dir_created_answer-IsValid res v = elim (Bool-cases (res.status == 200)) [
  | inr no_ ↦ rw no_ (same-IsValid refl refl v)
  | inl yes_ ↦ elim (Bool-cases (res.status == 401)) [
    | inl out ↦ rw (yes_, out) (same-IsValid refl refl v)
    | inr in_ ↦ elim (Option-cases res.body) [
      | inl no_body ↦ rw (yes_, in_, no_body) (same-IsValid refl refl v)
      | inr (item, body) ↦ rw (yes_, in_, body) (same-IsValid refl refl v)
    ]
  ]
]

pub back_parent_dir-IsValid : {p : Page} → IsValid p → IsValid (back_parent_dir p)
unfolding back_parent_dir
back_parent_dir-IsValid {p} v = elim (Bool-cases (loosely_is_text p.currentdir 0)) [
  | inl top ↦ rw top (same-IsValid refl refl v)
  | inr below ↦ rw below (asked-IsValid _ refl refl tt v)
]

pub on_parent_answer-IsValid :
    (res : Answer (List Item)) {p : Page} → IsValid p → IsValid (on_parent_answer res p)
unfolding on_parent_answer
on_parent_answer-IsValid res v = elim (Bool-cases (res.status == 200)) [
  | inr no_ ↦ rw no_ (same-IsValid refl refl v)
  | inl yes_ ↦ elim (Bool-cases (res.status == 401)) [
    | inl out ↦ rw (yes_, out) (same-IsValid refl refl v)
    | inr in_ ↦ elim (Bool-cases (eq_text res.msg (js "top"))) [
      | inl top ↦ rw (yes_, in_, top) (same-IsValid refl refl v)
      | inr below ↦ elim (Option-cases res.body) [
        | inl no_body ↦ rw (yes_, in_, below, no_body) (same-IsValid refl refl v)
        | inr (is, body) ↦
            rw (yes_, in_, below, body) (display_items-IsValid _ is (same-IsValid refl refl v))
      ]
    ]
  ]
]
