-- ===== src/Drive/Events/Handlers.antt =====
-- The handlers and success functions that list nothing themselves, on a page that asks for the first page
-- of a listing only (`IsValid`).
use Prim.Native.String.{String}
use polarcloud.Prelude.{
  ℕ, refl, inl, inr, List, [], ◌∷◌, Text, js, eq_text, arith, Bool-cases, Option-cases, ◌==◌,
}
use polarcloud.Browser.Values.{Value, loosely_is}
use polarcloud.Page.{StoreFile, Message, Page, Answer, session_of}
use polarcloud.Drive.Listing.PageNumber.{
  IsValid, asked-IsValid, same-IsValid, get_file_list-IsValid,
}
use polarcloud.Strings.{contains}
use polarcloud.Account
use polarcloud.Drive.Anonymous
use polarcloud.Drive.Messages
use polarcloud.Drive.Messages.Shown.{read_request}
use polarcloud.Drive.Panels
use polarcloud.Drive.Upload
use polarcloud.Drive.Upload.{Stored}
use polarcloud.Drive.Start

pub get_anonymous_file_list-IsValid :
    (kind : Text) {p : Page} → IsValid p → IsValid (Anonymous.get_anonymous_file_list kind p)
unfolding Anonymous.get_anonymous_file_list
get_anonymous_file_list-IsValid kind v = asked-IsValid _ refl refl tt v

pub display_store_files-IsValid :
    (kind : Text) (fs : List StoreFile) {p : Page}
    → IsValid p
    → IsValid (Anonymous.display_store_files kind fs p)
unfolding Anonymous.display_store_files
display_store_files-IsValid kind [] v = v
display_store_files-IsValid kind (f ∷ fs) v = elim (Bool-cases (Anonymous.is_listed kind f)) [
  | inl listed ↦ rw listed (display_store_files-IsValid kind fs (same-IsValid refl refl v))
  | inr other ↦ rw other (display_store_files-IsValid kind fs v)
]

pub on_store_files_answer-IsValid :
    (kind : Text) (res : Answer (List StoreFile)) {p : Page}
    → IsValid p
    → IsValid (Anonymous.on_store_files_answer kind res p)
unfolding Anonymous.on_store_files_answer
on_store_files_answer-IsValid kind res v = elim (Bool-cases (res.status == 200)) [
  | inr no_ ↦ rw no_ (same-IsValid refl refl v)
  | inl yes_ ↦ elim (Option-cases res.body) [
    | inl no_body ↦ rw (yes_, no_body) v
    | inr (fs, body) ↦ rw (yes_, body) (display_store_files-IsValid _ fs v)
  ]
]

pub use_anonymous-IsValid : {p : Page} → IsValid p → IsValid (Anonymous.use_anonymous p)
unfolding Anonymous.use_anonymous
use_anonymous-IsValid {p} v = elim (Bool-cases (eq_text (session_of p) [])) [
  | inl out ↦ rw out (get_anonymous_file_list-IsValid [] v)
  | inr in_ ↦ rw in_ (asked-IsValid _ refl refl tt v)
]

pub on_anonymous_answer-IsValid :
    (status : ℕ) {p : Page} → IsValid p → IsValid (Anonymous.on_anonymous_answer status p)
unfolding Anonymous.on_anonymous_answer
on_anonymous_answer-IsValid status v = elim (Bool-cases (status == 200)) [
  | inl yes_ ↦ rw yes_ (same-IsValid refl refl v)
  | inr no_ ↦ rw no_ v
]

pub display_messages-IsValid :
    (ms : List Message) (k : ℕ) {p : Page} → IsValid p → IsValid (Messages.display_messages k ms p)
unfolding Messages.display_messages
display_messages-IsValid [] k v = same-IsValid refl refl v
display_messages-IsValid (m ∷ ms) k v = display_messages-IsValid ms _ (same-IsValid refl refl v)

pub on_messages_answer-IsValid :
    (res : Answer (List Message)) {p : Page}
    → IsValid p
    → IsValid (Messages.on_messages_answer res p)
unfolding Messages.on_messages_answer
on_messages_answer-IsValid res v = elim (Bool-cases (res.status == 500)) [
  | inl bad ↦ rw bad (same-IsValid refl refl v)
  | inr good ↦ elim (Option-cases res.body) [
    | inl no_body ↦ rw (good, no_body) (same-IsValid refl refl v)
    | inr (ms, body) ↦ rw (good, body) (display_messages-IsValid ms 0 (same-IsValid refl refl v))
  ]
]

pub on_message_read_answer-IsValid :
    (res : Answer (List Message)) {p : Page}
    → IsValid p
    → IsValid (Messages.on_message_read_answer res p)
unfolding Messages.on_message_read_answer
on_message_read_answer-IsValid res v = elim (Bool-cases (res.status == 500)) [
  | inl bad ↦ rw bad v
  | inr good ↦ elim (Option-cases res.body) [
    | inl no_body ↦ rw (good, no_body) v
    | inr (ms, body) ↦ rw (good, body) (display_messages-IsValid ms 0 v)
  ]
]

pub open_message-IsValid : (id : ℕ) {p : Page} → IsValid p → IsValid (Messages.open_message id p)
unfolding Messages.open_message Messages.show_message
open_message-IsValid id {p} v = elim (Option-cases p.user_message) [
  | inl none_ ↦ same-IsValid (ground arith) (ground arith) v
  | inr (ms, kept) ↦ elim (Option-cases (Messages.find_message id ms)) [
    | inl missing ↦ same-IsValid (ground arith) (ground arith) v
    | inr (m, found) ↦ asked-IsValid (read_request m.id p) (ground arith) (ground arith) tt v
  ]
]

pub on_uploaded_answer-IsValid :
    (kind title ext : Text) (res : Stored) {p : Page}
    → IsValid p
    → IsValid (Upload.on_uploaded_answer kind title ext res p)
unfolding Upload.on_uploaded_answer Upload.request_record Panels.cancel_upload_panel
on_uploaded_answer-IsValid kind title ext res {p} v = elim (Bool-cases (res.code == 0)) [
  | inr bad ↦ rw bad (same-IsValid refl refl v)
  | inl good ↦ elim (Bool-cases (loosely_is p.loginuser 0)) [
    | inl out ↦ rw (good, out) (get_anonymous_file_list-IsValid kind (same-IsValid refl refl v))
    | inr not_out ↦ elim (Bool-cases (loosely_is p.loginuser 1)) [
      | inl in_ ↦ rw (good, not_out, in_) (asked-IsValid _ refl refl tt v)
      | inr neither ↦ rw (good, not_out, neither) (same-IsValid refl refl v)
    ]
  ]
]

pub on_recorded_answer-IsValid :
    (status : ℕ) (msg : Text) {p : Page}
    → IsValid p
    → IsValid (Upload.on_recorded_answer status msg p)
unfolding Upload.on_recorded_answer
on_recorded_answer-IsValid status msg v = elim (Bool-cases (status == 200)) [
  | inr no_ ↦ rw no_ (same-IsValid refl refl v)
  | inl yes_ ↦ rw yes_ (get_file_list-IsValid _ _ _ _ v.number v)
]

pub open_file_list-IsValid :
    (kind : Text) (del : ℕ) (parent : Value) (button : String) {p : Page}
    → IsValid p
    → IsValid (Start.open_file_list kind del parent button p)
unfolding Start.open_file_list
open_file_list-IsValid kind del parent button {p} v = elim (Bool-cases (loosely_is p.loginuser 0)) [
  | inl out ↦ rw out (get_anonymous_file_list-IsValid kind (same-IsValid refl refl v))
  | inr in_ ↦ rw in_ (get_file_list-IsValid _ _ _ _ refl (same-IsValid refl refl v))
]

my_message-IsValid : {p : Page} → IsValid p → IsValid (Messages.my_message p)
unfolding Messages.my_message
my_message-IsValid v = asked-IsValid _ refl refl tt v

open_listing-IsValid : {p : Page} → IsValid p → IsValid (Start.open_listing p)
unfolding Start.open_listing Account.do_logout_func
open_listing-IsValid {p} v = elim (Bool-cases (loosely_is p.loginuser 0)) [
  | inl out ↦ elim (Bool-cases (eq_text (session_of p) [])) [
    | inl no_session ↦ rw (out, no_session) (get_anonymous_file_list-IsValid _ v)
    | inr session ↦ rw (out, session) (asked-IsValid _ refl refl tt v)
  ]
  | inr not_out ↦ elim (Bool-cases (loosely_is p.loginuser 1)) [
    | inl in_ ↦
        rw (not_out, in_)
          (get_file_list-IsValid _ _ _ _ (my_message-IsValid v).number (my_message-IsValid v))
    | inr neither ↦ rw (not_out, neither) v
  ]
]

pub init-IsValid : (url agent : Text) {p : Page} → IsValid p → IsValid (Start.init url agent p)
unfolding Start.init
init-IsValid url agent {p} v = elim (Bool-cases (contains agent (js ".NET"))) [
  | inl windows ↦ rw windows (same-IsValid refl refl (listed v))
  | inr other ↦ rw other (listed v)
]
  where
    listed :
        IsValid p
        → IsValid (Start.open_listing (record p { loginuser = Start.read_user url p.loginuser }))
    listed w = open_listing-IsValid (same-IsValid refl refl w)
