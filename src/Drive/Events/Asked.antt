-- ===== src/Drive/Events/Asked.antt =====
-- Every page that can be reached asks for the first page of a listing only, since the page buttons of
-- file-index.html stand inside a comment.
use polarcloud.Prelude.{◌≡◌, refl, sym, List, [], ◌∷◌, ◌++◌, Text, All}
use polarcloud.Browser.{Host}
use polarcloud.Cookies.Entries.{Entry}
use polarcloud.Page.{
  loaded, Callback, Request, Page, on_files, on_messages, on_message_read, on_dir_created,
  on_parent, on_killed, on_uploaded, on_recorded, on_anonymous, on_store_files, on_logged_out,
  on_logged_in, on_code, on_information, on_user_updated, on_pswd_updated,
}
use polarcloud.Account
use polarcloud.Account.Panels.{
  cancel_person_info_panel, open_update_pswd_panel, cancel_update_pswd_panel,
}
use polarcloud.Drive.Listing.PageNumber.{
  AsksPage, IsValid, asked-IsValid, same-IsValid, on_files_answer-IsValid, open_this_file-IsValid,
  create_new_dir-IsValid, on_dir_created_answer-IsValid, back_parent_dir-IsValid,
  on_parent_answer-IsValid,
}
use polarcloud.Drive.Panels
use polarcloud.Drive.Upload
use polarcloud.Drive.Upload.{Stored}
use polarcloud.Drive.Start
use polarcloud.Drive.Events.Session.{
  on_logged_in_answer-IsValid, on_code_answer-IsValid, on_information_answer-IsValid,
  on_user_updated_answer-IsValid, on_pswd_updated_answer-IsValid, get_code-IsValid,
  do_update_pswd-IsValid, logout_func-IsValid,
}
use polarcloud.Drive.Events.Removal.{
  on_killed_answer-IsValid, reuse_item-IsValid, kill_item-IsValid, remove_all-IsValid,
  delete_all-IsValid, batch_download-IsValid,
}
use polarcloud.Drive.Events.Handlers.{
  init-IsValid, on_store_files_answer-IsValid, use_anonymous-IsValid, on_anonymous_answer-IsValid,
  on_messages_answer-IsValid, on_message_read_answer-IsValid, open_message-IsValid,
  on_uploaded_answer-IsValid, on_recorded_answer-IsValid, open_file_list-IsValid,
}
use polarcloud.Drive.Events.{
  Action, menu, open_dir, up, new_dir, cancel_dir, create_dir, reuse, kill, remove_checked,
  delete_checked, download_checked, new_upload, cancel_upload, upload, go_anonymous, open_message,
  close_message, logout, information, close_information, password_panel, close_password_panel,
  send_code, change_password, change_user, perform, Answers, answer, Step, act, answered, Reach,
  here, next,
}

perform-IsValid : (host : Host) (a : Action) {p : Page} → IsValid p → IsValid (perform host a p)
unfolding perform Panels.new_dirctionary Panels.cancel_dirction_panel Panels.uploadfile
    Panels.cancel_upload_panel Panels.cancel_message_panel Upload.do_upload_file
    Account.open_infomation_panel cancel_person_info_panel open_update_pswd_panel
    cancel_update_pswd_panel Account.update_userinfo
perform-IsValid host (menu kind del button) v = open_file_list-IsValid kind del _ button v
perform-IsValid host (open_dir id) v = open_this_file-IsValid id v
perform-IsValid host up v = back_parent_dir-IsValid v
perform-IsValid host new_dir v = same-IsValid refl refl v
perform-IsValid host cancel_dir v = same-IsValid refl refl v
perform-IsValid host (create_dir title) v = create_new_dir-IsValid title v
perform-IsValid host (reuse sure id) v = reuse_item-IsValid sure id v
perform-IsValid host (kill sure id) v = kill_item-IsValid sure id v
perform-IsValid host (remove_checked sure boxes) v = remove_all-IsValid sure boxes v
perform-IsValid host (delete_checked sure boxes) v = delete_all-IsValid sure boxes v
perform-IsValid host (download_checked boxes) v = batch_download-IsValid boxes v
perform-IsValid host new_upload v = same-IsValid refl refl v
perform-IsValid host cancel_upload v = same-IsValid refl refl v
perform-IsValid host (upload path) v = asked-IsValid _ refl refl tt v
perform-IsValid host go_anonymous v = use_anonymous-IsValid v
perform-IsValid host (open_message id) v = open_message-IsValid id v
perform-IsValid host close_message v = same-IsValid refl refl v
perform-IsValid host (logout sure) v = logout_func-IsValid sure _ v
perform-IsValid host information v = asked-IsValid _ refl refl tt v
perform-IsValid host close_information v = same-IsValid refl refl v
perform-IsValid host password_panel v = same-IsValid refl refl v
perform-IsValid host close_password_panel v = same-IsValid refl refl v
perform-IsValid host (send_code username) v = get_code-IsValid host username v
perform-IsValid host (change_password code old new) v = do_update_pswd-IsValid host code old new v
perform-IsValid host (change_user f) v = asked-IsValid _ refl refl tt v

answer-IsValid :
    (host : Host) (c : Callback) (res : Answers c) {p : Page}
    → AsksPage c
    → IsValid p
    → IsValid (answer host c res p)
unfolding answer Account.on_logged_out_answer
answer-IsValid host (on_files n kind del parent) res k v =
    on_files_answer-IsValid n kind del parent res k v
answer-IsValid host on_messages res k v = on_messages_answer-IsValid res v
answer-IsValid host on_message_read res k v = on_message_read_answer-IsValid res v
answer-IsValid host on_dir_created res k v = on_dir_created_answer-IsValid res v
answer-IsValid host on_parent res k v = on_parent_answer-IsValid res v
answer-IsValid host on_killed (status, msg) k v = on_killed_answer-IsValid status msg v
answer-IsValid host (on_uploaded kind title ext) res k v =
    on_uploaded_answer-IsValid kind title ext res v
answer-IsValid host on_recorded (status, msg) k v = on_recorded_answer-IsValid status msg v
answer-IsValid host on_anonymous status k v = on_anonymous_answer-IsValid status v
answer-IsValid host (on_store_files kind) res k v = on_store_files_answer-IsValid kind res v
answer-IsValid host (on_logged_out url) res k v = same-IsValid refl refl v
answer-IsValid host (on_logged_in url) (status, msg, user_json, name, remember) k v =
    on_logged_in_answer-IsValid host url status msg user_json name remember v
answer-IsValid host on_code (status, msg) k v = on_code_answer-IsValid status msg v
answer-IsValid host on_information res k v = on_information_answer-IsValid res v
answer-IsValid host on_user_updated (status, msg) k v = on_user_updated_answer-IsValid status msg v
answer-IsValid host on_pswd_updated (status, msg, body) k v =
    on_pswd_updated_answer-IsValid status msg body v

taken :
    (before after : List Request) (r : Request)
    → All (λ x. AsksPage x.callback) (before ++ r ∷ after)
    → AsksPage r.callback × All (λ x. AsksPage x.callback) (before ++ after)
taken [] after r h = h
taken (b ∷ before) after r (k, h) = let (a, rest) = taken before after r h in (a, (k, rest))

Step-IsValid : {host : Host} {p q : Page} → Step host p q → IsValid p → IsValid q
Step-IsValid {host} (act a p) v = perform-IsValid host a v
Step-IsValid {host} (answered p before after r res e) v =
    let (a, rest) = taken before after r (rw (sym e) v.asked) in
    answer-IsValid host r.callback res a (record { number = v.number; asked = rest })

Reach-IsValid : {host : Host} {p q : Page} → IsValid p → Reach host p q → IsValid q
Reach-IsValid v here = v
Reach-IsValid v (next r st) = Step-IsValid st (Reach-IsValid v r)

-- Once the page is loaded and `init` has run, whatever its query, its browser and its cookies, every
-- page that is reached by actions of the user and answers of the server, in any order, has the page
-- number 1, and every open request for a listing is one for page 1.
pub init-Reach :
    (host : Host) (jar : List Entry) (url agent : Text) (q : Page)
    → Reach host (Start.init url agent (loaded jar)) q
    → (q.currentpage ≡ 1) × All (λ r. AsksPage r.callback) q.pending
init-Reach host jar url agent q r =
    let v = Reach-IsValid (init-IsValid url agent (record { number = refl; asked = tt })) r in
    (v.number, v.asked)
