-- ===== src/Register/SmsCode.antt =====
-- The code by SMS in the cookie `smscode`.
use polarcloud.Prelude.{
  ◌≡◌, ◌≢◌, ap, ◌∙◌, Bool, true, if◌then◌else◌, [], Text, js, eq_text_sound, All, arith,
}
use polarcloud.Cookies.{get_cookie}
use polarcloud.Cookies.Entries.{cookie_text, IsPlain}
use polarcloud.Browser.{Host}
use polarcloud.Browser.Jar.{IsJar, IsValue, is_gone, get_cookie-set_cookie}
use polarcloud.Register.{Form, Fields, on_code_answer, submit_form, check_passwords}

gone_at_once : (host : Host) → host.ahead ≡ 0 → is_gone host 1 ≡ true
gone_at_once host east = ground (arith, east)

-- The form keeps the code for a tenth of a day, which `setDate` cuts to no day: in a browser that does not
-- read the date ahead, right after the code was sent `getCookie` finds none.
pub smscode_lost :
    (host : Host) (msg code : Text) (f : Form)
    → IsJar host
    → host.ahead ≡ 0
    → IsValue code
    → code ≢ []
    → All (IsPlain (js "smscode")) f.cookie
    → get_cookie (cookie_text (on_code_answer host 200 msg code f).cookie) (js "smscode") ≡ []
unfolding on_code_answer js
smscode_lost host msg code f law east v n plain =
    get_cookie-set_cookie host b's' (js "mscode") code 1 f.cookie law (omega arith) v n plain
    ∙ ap (λ (g : Bool). if g then [] else code) (gone_at_once host east)

submit_form-refused :
    (host : Host) (redict_url : Text) (u : Fields) (f : Form)
    → get_cookie (cookie_text f.cookie) (js "smscode") ≡ []
    → u.code ≢ []
    → (submit_form host redict_url u f).pending ≡ f.pending
unfolding submit_form check_passwords
submit_form-refused host redict_url u f e n = ground (
  arith,
  eq_text_sound [] u.code,
  eq_text_sound (get_cookie (cookie_text f.cookie) (js "smscode")) u.code,
)

-- Once a code was sent, a form with any code in it, the one received included, registers nothing, in a
-- browser by RFC 6265 (`IsJar`) that reads the date of a cookie as no later time, as one does at UTC or
-- west of it: the cookie `smscode` is gone and only an empty field agrees with it. The code sent is not
-- empty, has no equals sign, no semicolon, and no blank or tab at its ends, and the cookies before it are
-- plain for `smscode`.
pub submit_form_with_code :
    (host : Host) (msg code redict_url : Text) (u : Fields) (f : Form)
    → IsJar host
    → host.ahead ≡ 0
    → IsValue code
    → code ≢ []
    → All (IsPlain (js "smscode")) f.cookie
    → u.code ≢ []
    → (submit_form host redict_url u (on_code_answer host 200 msg code f)).pending
      ≡ (on_code_answer host 200 msg code f).pending
submit_form_with_code host msg code redict_url u f law east v n plain k =
    submit_form-refused host redict_url u (on_code_answer host 200 msg code f)
      (smscode_lost host msg code f law east v n plain) k
