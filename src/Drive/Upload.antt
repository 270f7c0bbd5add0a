-- ===== src/Drive/Upload.antt =====
-- file-index.js: uploading a file to the node's store, and recording it in the user's directory.
pub mod Recorded
use polarcloud.Prelude.{ℕ, not, [], ◌∷◌, ◌++◌, some, pos, Text, js, ◌==◌, if◌then◌else◌}
use polarcloud.Files.{get_file_kind, get_file_ext, base_name}
use polarcloud.Browser.{alert, form, json, open_window}
use polarcloud.Browser.Values.{num, str, loosely_is, parse_int}
use polarcloud.Page.{Page, on_uploaded, on_recorded, call, ask, ask_center, session_of}
use polarcloud.Drive.Panels.{cancel_upload_panel}
use polarcloud.Drive.Listing.{get_file_list}
use polarcloud.Drive.Anonymous.{get_anonymous_file_list}

-- `doUploadfile`, for the path in its input.
unfoldable pub do_upload_file : Text → Page → Page
do_upload_file path p =
    ask
      (record {
        url = js "/store/addfile";
        verb = js "post";
        session = some (session_of p);
        payload = form;
        callback =
            on_uploaded (get_file_kind (get_file_ext path)) (base_name path) (get_file_ext path);
      })
      p

-- What `/store/addfile` answers.
pub record Stored : Type 0 where
  pub code : ℕ
  pub msg : Text
  pub hash_name : Text
  pub size : ℕ

unfoldable pub request_record : Text → Text → Text → Stored → Page → Page
request_record kind title ext res p =
    ask_center (js "/api/file/createDir") (js "post")
      (json (
        ("title", str title)
        ∷ ("kind", str kind)
        ∷ ("ext", str ext)
        ∷ ("delete", num (pos 0))
        ∷ ("parent_id", parse_int p.currentdir)
        ∷ ("hash_code", str res.hash_name)
        ∷ ("size", num (pos res.size))
        ∷ []))
      on_recorded p

unfoldable pub on_uploaded_answer : Text → Text → Text → Stored → Page → Page
unfolding request_record
on_uploaded_answer kind title ext res p =
    let p1 = cancel_upload_panel p in
    if not (res.code == 0)
    then call (alert res.msg) p
    else if loosely_is p1.loginuser 0
    then get_anonymous_file_list kind p1
    else if loosely_is p1.loginuser 1
    then request_record kind title ext res p1
    else p1

unfoldable pub on_recorded_answer : ℕ → Text → Page → Page
on_recorded_answer status msg p =
    if not (status == 200)
    then call (alert msg) p
    else get_file_list p.currentpage p.currentkind p.current_delete p.currentdir p

-- `downloadThisFile`
unfoldable pub download_this_file : Text → Page → Page
download_this_file hash_code p = call (open_window (js "/store/" ++ hash_code)) p
