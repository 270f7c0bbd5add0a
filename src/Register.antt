-- ===== src/Register.antt =====
-- web/static/assets/js/model/register.js: the registration form, its two checks of the passwords, the
-- code by SMS with its countdown, and the request.
pub mod Passwords
pub mod Countdown
pub mod SmsCode
use Prim.Native.String.{String}
use polarcloud.Prelude.{
  ℕ, suc, zero, ◌+◌, Bool, true, false, not, List, [], ◌∷◌, ◌++◌, Option, none, some, ℤ, pos,
  negsuc, is_nat, Text, js, eq_text, ◌==◌, if◌then◌else◌,
}
use polarcloud.Cookies.{get_cookie}
use polarcloud.Cookies.Entries.{Entry, cookie_text}
use polarcloud.Browser.{
  Host, Call, Payload, json, no_payload, set_cookie, alert, href, log, set_html,
}
use polarcloud.Browser.Values.{Value, num, str, text_of, parse_int}

-- The success functions of the form.
pub data Callback : Type 0 where
  on_code : Callback
  on_registered : Text → Callback

pub record Request : Type 0 where
  pub url : Text
  pub verb : Text
  pub session : Text
  pub payload : Payload
  pub callback : Callback

-- `tip` is the element `repasswordTip`, when there is one; `intervals` are the running timers of
-- `setDaoJiShi` by their ids, which the browser gives out upwards, and `current` is `currentDaoJIshi`.
pub record Form : Type 0 where
  pub tip : Option Text
  pub leveltime : ℤ
  pub current : Option ℕ
  pub intervals : List ℕ
  pub next_id : ℕ
  pub cookie : List Entry
  pub calls : List Call
  pub pending : List Request

-- The form as the page loads it.
abbrev pub new_form : List Entry → Form
new_form cookie = record {
  tip = none;
  leveltime = pos 60;
  current = none;
  intervals = [];
  next_id = 1;
  cookie = cookie;
  calls = [];
  pending = [];
}

abbrev pub call : Call → Form → Form
call c f = record f { calls = c ∷ f.calls }

-- `getCookie`
abbrev pub form_cookie : Text → Form → Text
form_cookie name f = get_cookie (cookie_text f.cookie) name

abbrev pub ask : Text → Text → Payload → Callback → Form → Form
ask path verb payload callback f = record f {
  pending =
      record {
        url = js "http://39.104.112.203:8080" ++ path;
        verb = verb;
        session = form_cookie (js "Sessionid") f;
        payload = payload;
        callback = callback;
      }
      ∷ f.pending;
}

-- `checkPasswords`: the tip of an earlier check goes first.
pub check_passwords : Text → Text → Form → Form × Bool
check_passwords pass1 repassword f =
    let clean = record f { tip = none } in
    if eq_text pass1 []
    then (record clean { tip = some (js "密码不能为空") }, false)
    else if not (eq_text pass1 repassword)
    then (record clean { tip = some (js "两次输入的密码不一致") }, false)
    else (clean, true)

-- `getCode`, for the telephone number of the form.
unfoldable pub get_code : Text → Form → Form
get_code tel f = ask (js "/api/user/sendSMS/" ++ tel) (js "get") no_payload on_code f

-- Its success function; `code` is the text of `res.data`. `0.1` days are one tenth.
unfoldable pub on_code_answer : Host → ℕ → Text → Text → Form → Form
on_code_answer host status msg code f =
    let started = record f {
      leveltime = pos 60;
      current = some f.next_id;
      intervals = f.next_id ∷ f.intervals;
      next_id = suc f.next_id;
      cookie = set_cookie host (js "smscode") code (pos 1) f.cookie;
    } in
    if not (status == 200) then call (alert msg) f else call (log (js "[object Object]")) started

-- `window.clearInterval(id)`
pub clear_interval : Option ℕ → List ℕ → List ℕ
clear_interval none ids = ids
clear_interval (some i) [] = []
clear_interval (some i) (j ∷ ids) =
    let rest = clear_interval (some i) ids in if i == j then rest else j ∷ rest

-- `leveltime--`
abbrev pub decrement : ℤ → ℤ
decrement (pos zero) = negsuc 0
decrement (pos (suc n)) = pos n
decrement (negsuc n) = negsuc (suc n)

-- `setDaoJiShi`, one tick of a timer, but for the value of the element that it logs first.
pub set_dao_ji_shi : Form → Form
set_dao_ji_shi f =
    let left = decrement f.leveltime in
    let ended = record f { leveltime = left; intervals = clear_interval f.current f.intervals } in
    if is_nat left 0
    then call (set_html "huoquyanzhengma" (js "发送验证码")) ended
    else call (set_html "huoquyanzhengma" (js "等待" ++ text_of (num left) ++ js "后重发"))
        (record f { leveltime = left })

-- The fields that `submitform` reads from the document.
pub record Fields : Type 0 where
  pub password : Text
  pub repassword : Text
  pub code : Text
  pub username : Text
  pub name : Text
  pub email : Text
  pub tel : Text
  pub firstname : Text
  pub lastname : Text
  pub intro : Text

request_register : Host → Text → Text → Fields → Form → Form
request_register host redict_url currentcode u f =
    ask (js "/api/user/register") (js "POST")
      (json (
        ("code", parse_int (str currentcode))
        ∷ ("username", str u.username)
        ∷ ("password", str (host.hex_md5 u.password))
        ∷ ("name", str u.name)
        ∷ ("email", str u.email)
        ∷ ("tel", str u.tel)
        ∷ ("firstname", str u.firstname)
        ∷ ("lastname", str u.lastname)
        ∷ ("intro", str u.intro)
        ∷ []))
      (on_registered redict_url) f

-- `submitform`
pub submit_form : Host → Text → Fields → Form → Form
unfolding request_register
submit_form host redict_url u f =
    let (f1, ok) = check_passwords u.password u.repassword f in
    let currentcode = form_cookie (js "smscode") f1 in
    if not ok
    then f1
    else if not (eq_text currentcode u.code)
    then call (alert (js "验证码错误")) f1
    else request_register host redict_url currentcode u f1

-- `submitWebform`, for the box of the terms of use.
unfoldable pub submit_web_form : Host → Bool → Fields → Form → Form
submit_web_form host readed u f =
    let submitted = submit_form host (js "index.html") u f in
    if readed then submitted else call (alert (js "请先阅读用户协议")) f

unfoldable pub on_registered_answer : Host → Text → ℕ → Text → Text → Form → Form
on_registered_answer host redict_url status msg user_json f =
    let jar =
      set_cookie host (js "currentuser") user_json (pos 10)
        (set_cookie host (js "Sessionid") msg (pos 10) f.cookie) in
    if not (status == 200)
    then call (alert msg) f
    else call (href redict_url) (record f { cookie = jar })
