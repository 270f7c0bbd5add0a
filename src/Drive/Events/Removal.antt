-- ===== src/Drive/Events/Removal.antt =====
-- The handlers of the bin and of the check boxes, on a page that asks for the first page of a listing only
-- (`IsValid`).
use polarcloud.Prelude.{
  ℕ, refl, inl, inr, Bool, true, false, List, [], ◌∷◌, Text, js, eq_text, arith, Bool-cases, ◌==◌,
  if◌then◌else◌, pos, ℤ,
}
use polarcloud.Browser.{alert}
use polarcloud.Browser.Values.{Value, str, num, undefined, nan}
use polarcloud.Page.{Page, call}
use polarcloud.Drive.Listing.PageNumber.{
  IsValid, asked-IsValid, same-IsValid, get_file_list-IsValid,
}
use polarcloud.Drive.Selection
use polarcloud.Drive.Selection.{Checkbox}
use polarcloud.Drive.Trash
use polarcloud.Drive.Trash.Requests.{kill_request}

pub do_kill_item-IsValid :
    (ids : Value) (z : ℤ) {p : Page} → IsValid p → IsValid (Trash.do_kill_item ids z p)
unfolding Trash.do_kill_item Trash.list_length Trash.request_kill
do_kill_item-IsValid (num n) z v = asked-IsValid _ refl refl tt v
do_kill_item-IsValid (str s) z {p} v = elim (Bool-cases (eq_text s [])) [
  | inl empty ↦ same-IsValid (ground arith) (ground arith) v
  | inr some_ ↦ asked-IsValid (kill_request (str s) z p) (ground arith) (ground arith) tt v
]
do_kill_item-IsValid undefined z v = v
do_kill_item-IsValid nan z v = asked-IsValid _ refl refl tt v

pub on_killed_answer-IsValid :
    (status : ℕ) (msg : Text) {p : Page} → IsValid p → IsValid (Trash.on_killed_answer status msg p)
unfolding Trash.on_killed_answer
on_killed_answer-IsValid status msg v = elim (Bool-cases (status == 200)) [
  | inr no_ ↦ rw no_ (same-IsValid refl refl v)
  | inl yes_ ↦ elim (Bool-cases (status == 401)) [
    | inl out ↦ rw (yes_, out) (same-IsValid refl refl v)
    | inr in_ ↦ rw (yes_, in_) (get_file_list-IsValid _ _ _ _ v.number (same-IsValid refl refl v))
  ]
]

-- What the user is asked to confirm.
sure-IsValid : (sure : Bool) {p q : Page} → IsValid q → IsValid p → IsValid (if sure then q else p)
sure-IsValid true w v = w
sure-IsValid false w v = v

pub reuse_item-IsValid :
    (sure : Bool) (id : Value) {p : Page} → IsValid p → IsValid (Trash.reuse_item sure id p)
unfolding Trash.reuse_item
reuse_item-IsValid sure id v =
    sure-IsValid sure (do_kill_item-IsValid id (pos 0) (same-IsValid refl refl v)) v

pub kill_item-IsValid :
    (sure : Bool) (id : Value) {p : Page} → IsValid p → IsValid (Trash.kill_item sure id p)
unfolding Trash.kill_item
kill_item-IsValid sure id v = sure-IsValid sure (do_kill_item-IsValid id (pos 1) v) v

pub remove_all-IsValid :
    (sure : Bool) (boxes : List Checkbox) {p : Page}
    → IsValid p
    → IsValid (Trash.remove_all sure boxes p)
unfolding Trash.remove_all
remove_all-IsValid sure boxes v = sure-IsValid sure (do_kill_item-IsValid _ _ v) v

pub delete_all-IsValid :
    (sure : Bool) (boxes : List Checkbox) {p : Page}
    → IsValid p
    → IsValid (Trash.delete_all sure boxes p)
unfolding Trash.delete_all
delete_all-IsValid sure boxes {p} v = elim (Bool-cases (p.current_delete == 1)) [
  | inl bin ↦ rw bin (sure-IsValid sure (do_kill_item-IsValid _ _ v) v)
  | inr files ↦ rw files (sure-IsValid sure (do_kill_item-IsValid _ _ v) v)
]

pub download_all-IsValid :
    (hs : List (Text × Text)) {p : Page} → IsValid p → IsValid (Selection.download_all hs p)
unfolding Selection.download_all
download_all-IsValid [] v = v
download_all-IsValid ((hash, title) ∷ hs) v = download_all-IsValid hs (same-IsValid refl refl v)

pub batch_download-IsValid :
    (boxes : List Checkbox) {p : Page} → IsValid p → IsValid (Selection.batch_download boxes p)
unfolding Selection.batch_download Selection.get_hash_quanxuan_list
batch_download-IsValid boxes {p} v = all (Selection.get_hash_quanxuan_list boxes)
  where
    all :
        (hs : List (Text × Text))
        → IsValid (elim hs [
          | [] ↦ call (alert (js "没有选择")) p
          | h ∷ hs ↦ Selection.download_all (h ∷ hs) p
        ])
    all [] = same-IsValid refl refl v
    all (h ∷ hs) = download_all-IsValid (h ∷ hs) v
