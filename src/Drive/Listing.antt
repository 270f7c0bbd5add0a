-- ===== src/Drive/Listing.antt =====
-- file-index.js: opening the page, listing a directory of the user's files, and going up.
pub mod Shown
pub mod PageNumber
use polarcloud.Prelude.{
  ℕ, false, not, List, [], ◌∷◌, ◌++◌, none, some, pos, Text, js, eq_text, ◌==◌, if◌then◌else◌,
}
use polarcloud.Strings.{to_string, split, contains, unescape}
use polarcloud.Browser.{
  Call, show, hide, empty, set_text, set_checked, alert, href, log, query, json, no_payload,
  set_style,
}
use polarcloud.Browser.Values.{
  Value, num, str, undefined, loosely_is, loosely_is_text, not_positive, text_of,
}
use polarcloud.Page.{
  Item, Page, Answer, on_files, on_dir_created, on_parent, call, call_all, ask_center, session_of,
}
use polarcloud.Drive.Row.{display_item_file, display_items}
use polarcloud.Drive.Panels.{cancel_dirction_panel}

-- The buttons of a listing: of the bin, and of the files.
listing_buttons : ℕ → List Call
listing_buttons del =
    if del == 1
    then hide "#uploadBT"
      ∷ hide "#downloadBT"
      ∷ hide "#newdirBT"
      ∷ set_text "#deleteBT" (js "恢复选择")
      ∷ show "#removeBT"
      ∷ []
    else show "#uploadBT"
      ∷ show "#downloadBT"
      ∷ show "#newdirBT"
      ∷ set_text "#deleteBT" (js "移除选择")
      ∷ hide "#removeBT"
      ∷ []

-- The request of `getFileList` once the parent is settled.
request_files : ℕ → Text → ℕ → Value → Page → Page
request_files pagenum kind del parent_id p =
    ask_center (js "/api/file/mine") (js "get")
      (query (("kind", str kind) ∷ ("delete", num (pos del)) ∷ ("parentid", parent_id) ∷ []))
      (on_files pagenum kind del parent_id) p

-- `getFileList`
pub get_file_list : ℕ → Text → ℕ → Value → Page → Page
unfolding listing_buttons request_files
get_file_list pagenum kind del parent_id p =
    let p1 = call_all (show "#userinfoBar" ∷ hide "#nimingBar" ∷ []) p in
    let parent = if not_positive parent_id then num (pos 0) else parent_id in
    let p2 = call_all (listing_buttons del) p1 in
    if pagenum == 0
    then p1
    else request_files pagenum kind del parent (record p2 { current_delete = del })

-- Its success function. It sets the text of `#currentPage`, which file-index.html has in a comment only.
pub on_files_answer : ℕ → Text → ℕ → Value → Answer (List Item) → Page → Page
on_files_answer pagenum kind del parent_id res p =
    let p1 = call_all (set_checked "quanxuanCB" false ∷ empty "#mainTable" ∷ []) p in
    let p2 = record p1 {
      currentpage = pagenum;
      currentkind = kind;
      current_delete = del;
      currentdir = parent_id;
    } in
    let p3 = call (set_text "#currentPage" (to_string pagenum)) p2 in
    if not (res.status == 200)
    then call (href (js "./web-login.html")) p
    else if res.status == 401
    then call (href (js "./web-login.html")) p
    else elim res.body [ none ↦ p3 | some items ↦ display_items (some del) items p3 ]

-- `openThisFile`
pub open_this_file : Value → Page → Page
open_this_file id p = get_file_list p.currentpage p.currentkind p.current_delete id p

-- `createNewDir`, for the text of its input.
pub create_new_dir : Text → Page → Page
create_new_dir title p =
    ask_center (js "/api/file/createDir") (js "post")
      (json (
        ("title", str title)
        ∷ ("kind", str (js "dir"))
        ∷ ("ext", str (js "dir"))
        ∷ ("delete", num (pos 0))
        ∷ ("parent_id", p.currentdir)
        ∷ []))
      on_dir_created p

pub on_dir_created_answer : Answer Item → Page → Page
on_dir_created_answer res p =
    let p1 = call (log (text_of p.currentdir)) p in
    if not (res.status == 200)
    then call (alert res.msg) p1
    else if res.status == 401
    then call (href (js "./login.html")) p1
    else elim res.body [
      | none ↦ p1
      | some item ↦ cancel_dirction_panel (display_item_file none item p1)
    ]

-- `backparentdir`
pub back_parent_dir : Page → Page
back_parent_dir p =
    let asked =
      ask_center (js "/api/file/backParent/" ++ text_of p.currentdir) (js "get")
        (query (("delete", num (pos p.current_delete)) ∷ [])) on_parent p in
    if loosely_is_text p.currentdir 0 then call (alert (js "已经是最顶级")) p else asked

pub on_parent_answer : Answer (List Item) → Page → Page
on_parent_answer res p =
    let p1 = call_all (empty "#mainTable" ∷ set_text "#currentPage" (js "0") ∷ []) p in
    let p2 = record p1 { currentdir = str res.msg } in
    if not (res.status == 200)
    then call (alert res.msg) p
    else if res.status == 401
    then call (href (js "./login.html")) p
    else if not (eq_text res.msg (js "top"))
    then elim res.body [ none ↦ p2 | some items ↦ display_items none items p2 ]
    else call (alert (js "已经是最顶级")) p
