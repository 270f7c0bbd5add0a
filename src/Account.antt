-- ===== src/Account.antt =====
-- web/static/assets/js/model/user.js: logging in and out, the account's panels and changes of it.
-- What a handler reads from the document (`$("#x").val()`, `.checked`, whether an element is there)
-- is an argument.
pub mod Panels
pub mod Sessions
pub mod Passwords
use polarcloud.Prelude.{
  ℕ, Bool, true, false, not, ◌&&◌, List, [], ◌∷◌, ◌++◌, Option, none, some, pos, Text, js, eq_text,
  ◌==◌, if◌then◌else◌,
}
use polarcloud.Browser.{
  Host, Parsed, threw, null, user, set_cookie, del_cookie, alert, href, log, set_value, set_checked,
  query, json, no_payload,
}
use polarcloud.Browser.Values.{str}
use polarcloud.Page.{
  Page, Answer, on_logged_in, on_logged_out, on_code, on_information, on_user_updated,
  on_pswd_updated, call, call_all, ask, ask_center, cookie_of,
}
use polarcloud.Verify.{Options, validate}
use Panels.{Information, information_panel, cancel_person_info_panel, cancel_update_pswd_panel}
use polarcloud.Drive.Panels.{open_panel}

-- `window.onload`, for whether the inputs of the login form are there: it fills them.
unfoldable pub on_load : Bool → Bool → Page → Page
on_load has_user has_pswd p =
    let username = cookie_of (js "username") p in
    let password = cookie_of (js "password") p in
    let p1 =
      if has_user && not (eq_text username [])
      then call (set_value "usernameInput" username) p
      else p in
    if has_pswd && not (eq_text password [])
    then call_all (set_value "passwordInput" password ∷ set_checked "remember" true ∷ []) p1
    else p1

-- `oRemember.onchange`
unfoldable pub remember_changed : Host → Bool → Page → Page
remember_changed host on p =
    if on
    then p
    else call (set_value "passwordInput" []) (record p {
      cookie = del_cookie host (js "password") (del_cookie host (js "username") p.cookie);
    })

-- `pswdOnFocus`
unfoldable pub pswd_on_focus : Host → Page → Page
pswd_on_focus host p =
    let jar = del_cookie host (js "password") p.cookie in
    let p1 = record p { cookie = jar; crypto_password = [] } in
    call_all
      (set_value "passwordInput" []
        ∷ log (js "delete cookie: " ++ cookie_of (js "password") p1)
        ∷ [])
      p1

request_login : Text → Text → Text → Page → Page
request_login redict_url username code p =
    ask
      (record {
        url = p.center_url ++ js "/api/user/login";
        verb = js "get";
        session = none;
        payload = query (
            ("username", str username)
            ∷ ("password", str p.crypto_password)
            ∷ ("code", str code)
            ∷ []);
        callback = on_logged_in redict_url;
      })
      p

-- `redictUrl`, if it is given.
abbrev pub or_default : Option Text → Text → Text
or_default none d = d
or_default (some u) d = u

-- `loginFunc`
pub login_func : Host → Options → Option Text → Text → Text → Text → Page → Page
unfolding request_login
login_func host verify redict_url code username password p =
    let kept = cookie_of (js "password") p in
    let crypto = if eq_text kept [] then host.hex_md5 password else kept in
    let p1 = record p { crypto_password = crypto } in
    let p2 = call (log (js "cryptoPassword: " ++ crypto)) p1 in
    if not (validate code verify)
    then call (alert (js "验证码错误")) p1
    else if eq_text username []
    then call (alert (js "用户名必填")) p1
    else if eq_text crypto []
    then call (alert (js "密码必填")) p2
    else request_login (or_default redict_url (js "./index.html")) username code p2

-- Its success function: `user_json` is the text of `res.data`, `username` what the form holds then,
-- `remember` whether its box is there and checked.
unfoldable pub on_logged_in_answer : Host → Text → ℕ → Text → Text → Text → Bool → Page → Page
on_logged_in_answer host redict_url status msg user_json username remember p =
    let jar =
      set_cookie host (js "currentuser") user_json (pos 10)
        (set_cookie host (js "Sessionid") msg (pos 10) p.cookie) in
    let jar2 =
      set_cookie host (js "password") p.crypto_password (pos 70)
        (set_cookie host (js "username") username (pos 70) jar) in
    if not (status == 200)
    then call
        (href (
          if eq_text redict_url (js "./index.html")
          then js "./login.html"
          else js "./web-login.html"))
        (call (alert msg) p)
    else call (href redict_url) (record p { cookie = if remember then jar2 else jar })

-- `getCode`, for the user name of the form.
unfoldable pub get_code : Host → Text → Page → Page
get_code host username p =
    let current = cookie_of (js "currentuser") p in
    let send =
      λ (tel : Text). ask_center (js "/api/user/sendSMS/" ++ tel) (js "get") no_payload on_code p in
    if eq_text current []
    then send username
    else elim (host.parse_json current) [ threw ↦ p | null ↦ p | user u ↦ send u.tel ]

unfoldable pub on_code_answer : ℕ → Text → Page → Page
on_code_answer status msg p =
    if not (status == 200) then call (alert msg) p else call (log (js "[object Object]")) p

-- `doLogoutFunc` and `logoutFunc`; `sure` is the answer of `confirm`.
unfoldable pub do_logout_func : Option Text → Page → Page
do_logout_func redict_url p =
    ask_center (js "/api/user/logout") (js "GET") no_payload
      (on_logged_out (or_default redict_url (js "./login.html"))) p

unfoldable pub logout_func : Bool → Option Text → Page → Page
logout_func sure redict_url p = let done = do_logout_func redict_url p in if sure then done else p

unfoldable pub on_logged_out_answer : Host → Text → Page → Page
on_logged_out_answer host redict_url p = call (href redict_url) (record p {
  cookie = del_cookie host (js "currentuser") (del_cookie host (js "Sessionid") p.cookie);
})

-- `clearUsernameInput`
unfoldable pub clear_username_input : Page → Page
clear_username_input p = call (set_value "usernameInput" []) p

-- `openInfomationPanel`
unfoldable pub open_infomation_panel : Page → Page
open_infomation_panel p = ask_center (js "/api/user/whoami") (js "GET") no_payload on_information p

unfoldable pub on_information_answer : Answer Information → Page → Page
on_information_answer res p = if res.status == 500 then p else elim res.body [
  | none ↦ call (alert (js "没有登录")) p
  | some item ↦ open_panel "#openInfoPanel-layer" (information_panel item) p
]

-- The fields that `updateUserinfo` reads from the document.
pub record UserForm : Type 0 where
  pub username : Text
  pub name : Text
  pub email : Text
  pub tel : Text
  pub firstname : Text
  pub lastname : Text
  pub intro : Text

-- `updateUserinfo`
unfoldable pub update_userinfo : UserForm → Page → Page
update_userinfo f p =
    ask_center (js "/api/user/update") (js "POST")
      (json (
        ("username", str f.username)
        ∷ ("name", str f.name)
        ∷ ("email", str f.email)
        ∷ ("tel", str f.tel)
        ∷ ("firstname", str f.firstname)
        ∷ ("lastname", str f.lastname)
        ∷ ("comments", str f.intro)
        ∷ []))
      on_user_updated p

unfoldable pub on_user_updated_answer : ℕ → Text → Page → Page
on_user_updated_answer status msg p =
    if not (status == 200)
    then call (alert msg) p
    else call (alert (js "修改成功")) (cancel_person_info_panel p)

-- `doUpdatePswd`, for the code, the old and the new password of its panel. A JSON text that holds an
-- empty string equals "" too; the server writes objects only.
unfoldable pub do_update_pswd : Host → Text → Text → Text → Page → Page
do_update_pswd host code old new p = elim (host.parse_json (cookie_of (js "currentuser") p)) [
  | threw ↦ p
  | null ↦ call (alert (js "非法用户")) p
  | user u ↦
      let asked =
        ask_center (js "/api/user/updatePswd") (js "GET")
          (query
            (("code", str code) ∷ ("tel", str u.tel) ∷ ("newpswd", str (host.hex_md5 new)) ∷ []))
          on_pswd_updated p in
      if not (eq_text u.password (host.hex_md5 old)) then call (alert (js "密码验证错误")) p else asked
]

unfoldable pub on_pswd_updated_answer : ℕ → Text → Bool → Page → Page
on_pswd_updated_answer status msg has_body p =
    if status == 500
    then call (alert msg) p
    else if not has_body
    then call (alert (js "没有登录")) p
    else cancel_update_pswd_panel (call (alert (js "修改成功")) p)
