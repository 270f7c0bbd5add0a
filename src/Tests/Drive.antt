-- ===== src/Tests/Drive.antt =====
-- The drive page: listings, the store's list, messages, selections and the bin.
use polarcloud.Prelude.{
  length, ltb, ◌≡◌, refl, Bool, true, false, ◌&&◌, List, [], ◌∷◌, map, none, some, pos, Text, js,
  eq_text, arith, ◌==◌, if◌then◌else◌,
}
use polarcloud.Strings.{split}
use polarcloud.Browser.Values.{num, str}
use polarcloud.Browser.View.{children}
use polarcloud.Page.{Item, StoreFile, Message, Page, loaded}
use polarcloud.Drive.Row.Buttons.{row_of}
use polarcloud.Strings.Split.{join}
use polarcloud.Drive.Listing.{on_files_answer}
use polarcloud.Drive.Listing.Shown
use polarcloud.Drive.Listing.Shown.{entries, files_request, parent_request}
use polarcloud.Drive.Selection.{Checkbox, quanxuan, get_quanxuan_list}
use polarcloud.Drive.Selection.Lists
use polarcloud.Drive.Selection.Lists.{checked_ids}
use polarcloud.Drive.Trash.{delete_all}
use polarcloud.Drive.Trash.Requests
use polarcloud.Drive.Trash.Requests.{kill_request}
use polarcloud.Tests.Browser.{jar}

abbrev page : Page
page = loaded jar

abbrev photo : Item
photo = record {
  id = num (pos 12);
  kind = js "pic";
  title = js "a.jpg";
  hash_code = js "Qm1";
  size = 1500;
  upload_time = js "2019";
}

abbrev stored : StoreFile
stored = record {
  name = js "a.jpg";
  has_code = js "Qm1";
  size = 1500;
  time = record { year = 2019; month = 4; date = 7; hours = 9; minutes = 5 };
}

abbrev hello : Message
hello = record { id = 3; title = js "hello"; content = js "text" }

abbrev box : Text → Bool → Checkbox
box id on = record {
  attribute = false;
  clicked = if on then some true else none;
  name = js "Qm1";
  placeholder = js "a.jpg";
  value = id;
}

abbrev boxes : List Checkbox
boxes = box (js "12") true ∷ box (js "13") false ∷ box (js "14") true ∷ []

sent_ids : get_quanxuan_list boxes ≡ js "12,14"
unfolding get_quanxuan_list polarcloud.Drive.Selection.quanxuan_from js eq_text
sent_ids = refl

on_files_answer-entries_example :
    (children "#mainTable"
        (on_files_answer 1 (js "*") 0 (num (pos 0)) (entries [] (photo ∷ [])) page).calls
      ≡ map (row_of false false) (photo ∷ []))
    × ((on_files_answer 1 (js "*") 0 (num (pos 0)) (entries [] (photo ∷ [])) page).currentpage ≡ 1)
    × ((on_files_answer 1 (js "*") 0 (num (pos 0)) (entries [] (photo ∷ [])) page).currentkind
        ≡ js "*")
    × ((on_files_answer 1 (js "*") 0 (num (pos 0)) (entries [] (photo ∷ [])) page).current_delete
        ≡ 0)
    × ((on_files_answer 1 (js "*") 0 (num (pos 0)) (entries [] (photo ∷ [])) page).currentdir
        ≡ num (pos 0))
    × ((on_files_answer 1 (js "*") 0 (num (pos 0)) (entries [] (photo ∷ [])) page).pending
        ≡ page.pending)
    × ((on_files_answer 1 (js "*") 0 (num (pos 0)) (entries [] (photo ∷ [])) page).loginuser
        ≡ page.loginuser)
on_files_answer-entries_example =
    Shown.on_files_answer-entries 1 (js "*") 0 (num (pos 0)) [] (photo ∷ []) page
      (on_files_answer 1 (js "*") 0 (num (pos 0)) (entries [] (photo ∷ [])) page) refl

abbrev inbox : Page
inbox = record page { user_message = some (hello ∷ []) }

split-get_quanxuan_list_example : split (get_quanxuan_list boxes) b',' ≡ checked_ids boxes
unfolding js checked_ids
split-get_quanxuan_list_example = Lists.split-get_quanxuan_list boxes (ground arith) (λ e. cc)

abbrev unchecked : Checkbox
unchecked = record (box (js "13") false) { clicked = some false }

delete_all-pending_example : (delete_all true boxes page).pending ≡ (
    if true && ltb 0 (length (checked_ids boxes))
    then kill_request
        (str (join (checked_ids boxes) b','))
        (if page.current_delete == 1 then pos 0 else pos 1)
        page
      ∷ page.pending
    else page.pending)
unfolding js
delete_all-pending_example = Requests.delete_all-pending true boxes page (ground arith)

abbrev folder : Page
folder = record page { currentdir = num (pos 7) }
