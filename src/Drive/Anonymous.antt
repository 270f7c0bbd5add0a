-- ===== src/Drive/Anonymous.antt =====
-- file-index.js: the files of the node's own store, which a user sees who has not logged in.
pub mod Shown
use polarcloud.Prelude.{
  ℕ, Bool, not, ◌||◌, List, [], ◌∷◌, Option, none, some, pos, Text, js, cat, ◌+◌, eq_text, ◌==◌,
  if◌then◌else◌,
}
use polarcloud.Files.{get_file_kind, get_file_ext}
use polarcloud.Strings.{to_string}
use polarcloud.Browser.{show, hide, empty, set_text, alert, href, query, no_payload}
use polarcloud.Browser.Values.{num, str, undefined}
use polarcloud.Page.{
  Item, LocalTime, StoreFile, Page, Answer, on_anonymous, on_store_files, call, call_all, ask,
  ask_center, session_of,
}
use polarcloud.Drive.Row.{display_item_file}

-- `getAnonymousFileList`
unfoldable pub get_anonymous_file_list : Text → Page → Page
get_anonymous_file_list kind p =
    let p1 = call_all (hide "#userinfoBar" ∷ show "#nimingBar" ∷ []) p in
    let p2 =
      call_all
        (empty "#mainTable"
          ∷ set_text "#currentPage" (js "0")
          ∷ hide "#rubbishUI"
          ∷ hide "#newdirBT"
          ∷ hide "#deleteBT"
          ∷ [])
        (record p1 { loginuser = num (pos 0) }) in
    ask
      (record {
        url = js "/store/getlist";
        verb = js "GET";
        session = none;
        payload = query (("kind", str kind) ∷ []);
        callback = on_store_files kind;
      })
      p2

-- `nimingItem.upload_time`
upload_time_text : LocalTime → Text
upload_time_text d = cat (
    to_string d.year
    ∷ js "年"
    ∷ to_string (d.month + 1)
    ∷ js "月"
    ∷ to_string d.date
    ∷ js "日 "
    ∷ to_string d.hours
    ∷ js ":"
    ∷ to_string d.minutes
    ∷ [])

-- `nimingItem`: it has no id.
unfoldable pub anonymous_item : StoreFile → Item
unfolding upload_time_text
anonymous_item f = record {
  id = undefined;
  kind = get_file_kind (get_file_ext f.name);
  title = f.name;
  hash_code = f.has_code;
  size = f.size;
  upload_time = upload_time_text f.time;
}

-- `kindvalue == kindstr || kindstr == "*"`
unfoldable pub is_listed : Text → StoreFile → Bool
is_listed kind f = eq_text (get_file_kind (get_file_ext f.name)) kind || eq_text kind (js "*")

unfoldable pub display_store_files : Text → List StoreFile → Page → Page
display_store_files kind [] p = p
display_store_files kind (f ∷ fs) p =
    display_store_files kind fs
      (if is_listed kind f then display_item_file none (anonymous_item f) p else p)

unfoldable pub on_store_files_answer : Text → Answer (List StoreFile) → Page → Page
on_store_files_answer kind res p =
    let all_kinds = if eq_text kind [] then js "*" else kind in
    if not (res.status == 200)
    then call (alert (js "匿名模式出错")) p
    else elim res.body [ none ↦ p | some files ↦ display_store_files all_kinds files p ]

-- `useAnonymous`: a session is logged out first.
unfoldable pub use_anonymous : Page → Page
use_anonymous p =
    let listed = get_anonymous_file_list [] p in
    let asked = ask_center (js "/api/user/logout") (js "GET") no_payload on_anonymous p in
    if eq_text (session_of p) [] then listed else asked

unfoldable pub on_anonymous_answer : ℕ → Page → Page
on_anonymous_answer status p = if not (status == 200) then p else call (href (js "?user=0")) p
