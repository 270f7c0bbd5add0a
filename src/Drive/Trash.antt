-- ===== src/Drive/Trash.antt =====
-- file-index.js: moving entries to the bin and back, and removing them. `sure` is the answer of
-- `confirm`. An id list is a text of ids, or the id of one entry.
pub mod Requests
use polarcloud.Prelude.{
  ℕ, Bool, not, List, [], ◌∷◌, none, some, ℤ, pos, negsuc, Text, js, eq_text, ◌==◌, if◌then◌else◌,
}
use polarcloud.Browser.{alert, href, log, query}
use polarcloud.Browser.Values.{Value, num, str, undefined, nan}
use polarcloud.Page.{Page, Answer, on_killed, call, ask_center}
use polarcloud.Drive.Listing.{get_file_list}
use polarcloud.Drive.Selection.{Checkbox, get_quanxuan_list}

-- `idlist.length == 0`; the length of `undefined` throws.
pub data Length : Type 0 where
  empty_list other_list throws : Length

unfoldable pub list_length : Value → Length
list_length (num z) = other_list
list_length (str s) = if eq_text s [] then empty_list else other_list
list_length undefined = throws
list_length nan = other_list

unfoldable pub request_kill : Value → ℤ → Page → Page
request_kill idlist kill p =
    ask_center (js "/api/file/kill") (js "get")
      (query (("delete", num kill) ∷ ("idList", idlist) ∷ [])) on_killed p

-- `dokillItem`
unfoldable pub do_kill_item : Value → ℤ → Page → Page
unfolding list_length request_kill
do_kill_item idlist kill p = elim (list_length idlist) [
  | empty_list ↦ call (alert (js "没有选择")) p
  | other_list ↦ request_kill idlist kill p
  | throws ↦ p
]

unfoldable pub on_killed_answer : ℕ → Text → Page → Page
on_killed_answer status msg p =
    let p1 = call (log (js " ")) p in
    if not (status == 200)
    then call (alert msg) p1
    else if status == 401
    then call (href (js "./login.html")) p1
    else get_file_list p1.currentpage p1.currentkind p1.current_delete p1.currentdir p1

-- `reuseItem`, `killItem`
unfoldable pub reuse_item : Bool → Value → Page → Page
reuse_item sure id p =
    let done = do_kill_item id (pos 0) (record p { current_delete = 1 }) in if sure then done else p

unfoldable pub kill_item : Bool → Value → Page → Page
kill_item sure id p = let done = do_kill_item id (pos 1) p in if sure then done else p

-- `removeAll`, `deleteAll`
unfoldable pub remove_all : Bool → List Checkbox → Page → Page
remove_all sure boxes p =
    let done = do_kill_item (str (get_quanxuan_list boxes)) (negsuc 0) p in if sure then done else p

unfoldable pub delete_all : Bool → List Checkbox → Page → Page
delete_all sure boxes p =
    let restored = do_kill_item (str (get_quanxuan_list boxes)) (pos 0) p in
    let moved = do_kill_item (str (get_quanxuan_list boxes)) (pos 1) p in
    if p.current_delete == 1 then if sure then restored else p else if sure then moved else p
