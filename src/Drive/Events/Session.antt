-- ===== src/Drive/Events/Session.antt =====
-- The account's handlers and success functions, on a page that asks for the first page of a listing only
-- (`IsValid`).
use polarcloud.Prelude.{
  ◌⊎◌, ℕ, ◌≡◌, refl, inl, inr, Bool, true, false, [], Option, Text, js, eq_text, Bool-cases,
  Option-cases, ◌==◌,
}
use polarcloud.Browser.{Parsed, threw, null, User, user, Host}
use polarcloud.Page.{cookie_of, Page, Answer}
use polarcloud.Account
use polarcloud.Account.Panels.{Information, cancel_person_info_panel, cancel_update_pswd_panel}
use polarcloud.Drive.Listing.PageNumber.{IsValid, asked-IsValid, same-IsValid}

pub on_logged_in_answer-IsValid :
    (host : Host) (url : Text) (status : ℕ) (msg user_json name : Text) (remember : Bool) {p : Page}
    → IsValid p
    → IsValid (Account.on_logged_in_answer host url status msg user_json name remember p)
unfolding Account.on_logged_in_answer
on_logged_in_answer-IsValid host url status msg user_json name remember v =
    elim (Bool-cases (status == 200)) [
      | inl yes_ ↦ rw yes_ (same-IsValid refl refl v)
      | inr no_ ↦ rw no_ (same-IsValid refl refl v)
    ]

pub on_code_answer-IsValid :
    (status : ℕ) (msg : Text) {p : Page} → IsValid p → IsValid (Account.on_code_answer status msg p)
unfolding Account.on_code_answer
on_code_answer-IsValid status msg v = elim (Bool-cases (status == 200)) [
  | inl yes_ ↦ rw yes_ (same-IsValid refl refl v)
  | inr no_ ↦ rw no_ (same-IsValid refl refl v)
]

pub on_information_answer-IsValid :
    (res : Answer Information) {p : Page}
    → IsValid p
    → IsValid (Account.on_information_answer res p)
unfolding Account.on_information_answer
on_information_answer-IsValid res v = elim (Bool-cases (res.status == 500)) [
  | inl bad ↦ rw bad v
  | inr good ↦ elim (Option-cases res.body) [
    | inl no_body ↦ rw (good, no_body) (same-IsValid refl refl v)
    | inr (item, body) ↦ rw (good, body) (same-IsValid refl refl v)
  ]
]

pub on_user_updated_answer-IsValid :
    (status : ℕ) (msg : Text) {p : Page}
    → IsValid p
    → IsValid (Account.on_user_updated_answer status msg p)
unfolding Account.on_user_updated_answer cancel_person_info_panel
on_user_updated_answer-IsValid status msg v = elim (Bool-cases (status == 200)) [
  | inl yes_ ↦ rw yes_ (same-IsValid refl refl v)
  | inr no_ ↦ rw no_ (same-IsValid refl refl v)
]

pub on_pswd_updated_answer-IsValid :
    (status : ℕ) (msg : Text) (body : Bool) {p : Page}
    → IsValid p
    → IsValid (Account.on_pswd_updated_answer status msg body p)
unfolding Account.on_pswd_updated_answer cancel_update_pswd_panel
on_pswd_updated_answer-IsValid status msg true v = elim (Bool-cases (status == 500)) [
  | inl bad ↦ rw bad (same-IsValid refl refl v)
  | inr good ↦ rw good (same-IsValid refl refl v)
]
on_pswd_updated_answer-IsValid status msg false v = elim (Bool-cases (status == 500)) [
  | inl bad ↦ rw bad (same-IsValid refl refl v)
  | inr good ↦ rw good (same-IsValid refl refl v)
]

Parsed-cases : (x : Parsed) → (x ≡ threw) ⊎ (x ≡ null) ⊎ ((u : User) × (x ≡ user u))
Parsed-cases threw = inl refl
Parsed-cases null = inr (inl refl)
Parsed-cases (user u) = inr (inr (u, refl))

pub get_code-IsValid :
    (host : Host) (username : Text) {p : Page}
    → IsValid p
    → IsValid (Account.get_code host username p)
unfolding Account.get_code
get_code-IsValid host username {p} v =
    elim (Bool-cases (eq_text (cookie_of (js "currentuser") p) [])) [
      | inl out ↦ rw out (asked-IsValid _ refl refl tt v)
      | inr in_ ↦ elim (Parsed-cases (host.parse_json (cookie_of (js "currentuser") p))) [
        | inl e ↦ rw (in_, e) v
        | inr (inl e) ↦ rw (in_, e) v
        | inr (inr (u, e)) ↦ rw (in_, e) (asked-IsValid _ refl refl tt v)
      ]
    ]

pub do_update_pswd-IsValid :
    (host : Host) (code old new : Text) {p : Page}
    → IsValid p
    → IsValid (Account.do_update_pswd host code old new p)
unfolding Account.do_update_pswd
do_update_pswd-IsValid host code old new {p} v =
    elim (Parsed-cases (host.parse_json (cookie_of (js "currentuser") p))) [
      | inl e ↦ rw (Account.do_update_pswd, e) v
      | inr (inl e) ↦ rw (Account.do_update_pswd, e) (same-IsValid refl refl v)
      | inr (inr (u, e)) ↦ elim (Bool-cases (eq_text u.password (host.hex_md5 old))) [
        | inl right ↦ rw (Account.do_update_pswd, e, right) (asked-IsValid _ refl refl tt v)
        | inr wrong ↦ rw (Account.do_update_pswd, e, wrong) (same-IsValid refl refl v)
      ]
    ]

pub logout_func-IsValid :
    (sure : Bool) (url : Option Text) {p : Page}
    → IsValid p
    → IsValid (Account.logout_func sure url p)
unfolding Account.logout_func Account.do_logout_func
logout_func-IsValid true url v = asked-IsValid _ refl refl tt v
logout_func-IsValid false url v = v
