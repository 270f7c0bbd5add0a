-- ===== src/Drive/Events.antt =====
-- The drive page as a machine: what its user can do, the answers of the server, which may come in any
-- order, and the pages that can be reached.
pub mod Handlers
pub mod Removal
pub mod Session
pub mod Asked
use Prim.Native.String.{String}
use polarcloud.Prelude.{ℕ, ◌≡◌, Bool, List, ◌∷◌, ◌++◌, Text, js, some, negsuc}
use polarcloud.Browser.{Host}
use polarcloud.Browser.Values.{Value, num}
use polarcloud.Page.{
  Item, StoreFile, Message, Callback, Request, Page, Answer, on_files, on_messages, on_message_read,
  on_dir_created, on_parent, on_killed, on_uploaded, on_recorded, on_anonymous, on_store_files,
  on_logged_out, on_logged_in, on_code, on_information, on_user_updated, on_pswd_updated,
}
use polarcloud.Account
use polarcloud.Account.{UserForm}
use polarcloud.Account.Panels.{
  Information, cancel_person_info_panel, open_update_pswd_panel, cancel_update_pswd_panel,
}
use polarcloud.Drive.Listing
use polarcloud.Drive.Anonymous
use polarcloud.Drive.Messages
use polarcloud.Drive.Panels
use polarcloud.Drive.Selection
use polarcloud.Drive.Selection.{Checkbox}
use polarcloud.Drive.Trash
use polarcloud.Drive.Upload
use polarcloud.Drive.Upload.{Stored}
use polarcloud.Drive.Start

-- The buttons and links of file-index.html and of the panels that it opens, with what the user enters or
-- answers. The two page buttons stand inside a comment of the file, so there are none.
pub data Action : Type 0 where
  menu : Text → ℕ → String → Action
  open_dir : Value → Action
  up : Action
  new_dir cancel_dir : Action
  create_dir : Text → Action
  reuse kill : Bool → Value → Action
  remove_checked delete_checked : Bool → List Checkbox → Action
  download_checked : List Checkbox → Action
  new_upload cancel_upload : Action
  upload : Text → Action
  go_anonymous : Action
  open_message : ℕ → Action
  close_message : Action
  logout : Bool → Action
  information close_information password_panel close_password_panel : Action
  send_code : Text → Action
  change_password : Text → Text → Text → Action
  change_user : UserForm → Action

-- The menu gives the directory -1, for the top.
pub perform : Host → Action → Page → Page
perform host (menu kind del button) p = Start.open_file_list kind del (num (negsuc 0)) button p
perform host (open_dir id) p = Listing.open_this_file id p
perform host up p = Listing.back_parent_dir p
perform host new_dir p = Panels.new_dirctionary p
perform host cancel_dir p = Panels.cancel_dirction_panel p
perform host (create_dir title) p = Listing.create_new_dir title p
perform host (reuse sure id) p = Trash.reuse_item sure id p
perform host (kill sure id) p = Trash.kill_item sure id p
perform host (remove_checked sure boxes) p = Trash.remove_all sure boxes p
perform host (delete_checked sure boxes) p = Trash.delete_all sure boxes p
perform host (download_checked boxes) p = Selection.batch_download boxes p
perform host new_upload p = Panels.uploadfile p
perform host cancel_upload p = Panels.cancel_upload_panel p
perform host (upload path) p = Upload.do_upload_file path p
perform host go_anonymous p = Anonymous.use_anonymous p
perform host (open_message id) p = Messages.open_message id p
perform host close_message p = Panels.cancel_message_panel p
perform host (logout sure) p = Account.logout_func sure (some (js "index.html")) p
perform host information p = Account.open_infomation_panel p
perform host close_information p = cancel_person_info_panel p
perform host password_panel p = open_update_pswd_panel p
perform host close_password_panel p = cancel_update_pswd_panel p
perform host (send_code username) p = Account.get_code host username p
perform host (change_password code old new) p = Account.do_update_pswd host code old new p
perform host (change_user f) p = Account.update_userinfo f p

-- What the server answers to each request, as far as the success function reads it.
abbrev pub Answers : Callback → Type 0
Answers (on_files n kind del parent) = Answer (List Item)
Answers on_messages = Answer (List Message)
Answers on_message_read = Answer (List Message)
Answers on_dir_created = Answer Item
Answers on_parent = Answer (List Item)
Answers on_killed = ℕ × Text
Answers (on_uploaded kind title ext) = Stored
Answers on_recorded = ℕ × Text
Answers on_anonymous = ℕ
Answers (on_store_files kind) = Answer (List StoreFile)
Answers (on_logged_out url) = Unit {0}
Answers (on_logged_in url) = ℕ × Text × Text × Text × Bool
Answers on_code = ℕ × Text
Answers on_information = Answer Information
Answers on_user_updated = ℕ × Text
Answers on_pswd_updated = ℕ × Text × Bool

pub answer : Host → (c : Callback) → Answers c → Page → Page
answer host (on_files n kind del parent) res p = Listing.on_files_answer n kind del parent res p
answer host on_messages res p = Messages.on_messages_answer res p
answer host on_message_read res p = Messages.on_message_read_answer res p
answer host on_dir_created res p = Listing.on_dir_created_answer res p
answer host on_parent res p = Listing.on_parent_answer res p
answer host on_killed (status, msg) p = Trash.on_killed_answer status msg p
answer host (on_uploaded kind title ext) res p = Upload.on_uploaded_answer kind title ext res p
answer host on_recorded (status, msg) p = Upload.on_recorded_answer status msg p
answer host on_anonymous status p = Anonymous.on_anonymous_answer status p
answer host (on_store_files kind) res p = Anonymous.on_store_files_answer kind res p
answer host (on_logged_out url) res p = Account.on_logged_out_answer host url p
answer host (on_logged_in url) (status, msg, user, name, remember) p =
    Account.on_logged_in_answer host url status msg user name remember p
answer host on_code (status, msg) p = Account.on_code_answer status msg p
answer host on_information res p = Account.on_information_answer res p
answer host on_user_updated (status, msg) p = Account.on_user_updated_answer status msg p
answer host on_pswd_updated (status, msg, body) p = Account.on_pswd_updated_answer status msg body p

-- A step of the page: something that the user does, or the answer to any one of the open requests.
pub data Step (host : Host) : Page → Page → Type 0 where
  act : (a : Action) (p : Page) → Step host p (perform host a p)
  answered :
      (p : Page) (before after : List Request) (r : Request) (res : Answers r.callback)
      → p.pending ≡ before ++ r ∷ after
      → Step host p (answer host r.callback res (record p { pending = before ++ after }))

pub data Reach (host : Host) (p : Page) : Page → Type 0 where
  here : Reach host p p
  next : {q r : Page} → Reach host p q → Step host q r → Reach host p r
