-- ===== src/Account/Sessions.antt =====
-- The session: who asks the server to log in, and what the cookies hold after logging in and out.
use polarcloud.Prelude.{
  ◌≡◌, ◌≢◌, refl, ◌∙◌, inl, inr, false, not, ◌&&◌, [], ◌∷◌, ◌++◌, Option, none, pos, Text, js,
  eq_text, All, arith, Bool-cases, if◌then◌else◌,
}
use polarcloud.Cookies.Entries.{IsPlain, NoProperSuffix-self}
use polarcloud.Browser.{Host, set_cookie, del_cookie, query}
use polarcloud.Browser.Values.{str}
use polarcloud.Browser.Jar.{
  IsJar, IsValue, get_cookie-set_cookie, get_cookie-set_other, All-set_cookie,
  get_cookie-del_cookie, get_cookie-del_other, All-del_cookie,
}
use polarcloud.Page.{Page, Request, on_logged_in, cookie_of, session_of}
use polarcloud.Verify.{Options, validate}
use polarcloud.Account.{or_default, login_func, on_logged_in_answer, on_logged_out_answer}

-- The request that logs in.
abbrev pub login_request : Text → Text → Text → Text → Page → Request
login_request redict_url username password code p = record {
  url = p.center_url ++ js "/api/user/login";
  verb = js "get";
  session = none;
  payload =
      query (("username", str username) ∷ ("password", str password) ∷ ("code", str code) ∷ []);
  callback = on_logged_in redict_url;
}

-- The password that is sent: the kept one, or the md5 text of the one in the form.
abbrev pub sent_password : Host → Text → Page → Text
sent_password host password p =
    if eq_text (cookie_of (js "password") p) []
    then host.hex_md5 password
    else cookie_of (js "password") p

-- The form asks the server to log in exactly if the code of the picture is right, the user name is not
-- empty and the password that is sent is not empty; then it asks once.
pub login_func-pending :
    (host : Host) (verify : Options) (url : Option Text) (code username password : Text) (p : Page)
    → (login_func host verify url code username password p).pending ≡ (
        if validate code verify
          && not (eq_text username [])
          && not (eq_text (sent_password host password p) [])
        then login_request
            (or_default url (js "./index.html"))
            username
            (sent_password host password p)
            code
            p
          ∷ p.pending
        else p.pending)
unfolding login_func
login_func-pending host verify url code username password p =
    elim (Bool-cases (validate code verify)) [
      | inr wrong ↦ rw wrong
      | inl right ↦ elim (Bool-cases (eq_text username [])) [
        | inl empty ↦ rw (right, empty)
        | inr user ↦ elim (Bool-cases (eq_text (sent_password host password p) [])) [
          | inl none_ ↦ rw (right, user, none_)
          | inr some_ ↦ rw (right, user, some_)
        ]
      ]
    ]

-- After logging out there is no session: the next request carries the empty text. The cookies before
-- are plain for `Sessionid`, in a browser by RFC 6265.
on_logged_out_answer-session_of :
    (host : Host) (url : Text) (p : Page)
    → IsJar host
    → All (IsPlain (js "Sessionid")) p.cookie
    → session_of (on_logged_out_answer host url p) ≡ []
unfolding on_logged_out_answer js
on_logged_out_answer-session_of host url p law plain =
    get_cookie-del_other host (js "currentuser") b'S' (js "essionid")
      (del_cookie host (js "Sessionid") p.cookie) law (λ e. cc) (omega arith) (omega arith)
      (omega arith) (omega arith) (λ e. cc)
      (All-del_cookie host (js "Sessionid") (IsPlain (js "Sessionid")) p.cookie law (λ e. cc)
        (omega arith) (omega arith) (omega arith) plain)
    ∙ get_cookie-del_cookie host b'S' (js "essionid") p.cookie law (omega arith) plain

-- After logging in without "remember", the session is the one that the server sent: a text that is not
-- empty, with no equals sign, no semicolon and no blank at its ends, as the text of the user has none. The cookies
-- before are plain for `Sessionid`, in a browser that stores cookies as RFC 6265 says.
on_logged_in_answer-session_of :
    (host : Host) (url msg user_json username : Text) (p : Page)
    → IsJar host
    → IsValue msg
    → msg ≢ []
    → IsValue user_json
    → All (IsPlain (js "Sessionid")) p.cookie
    → session_of (on_logged_in_answer host url 200 msg user_json username false p) ≡ msg
unfolding on_logged_in_answer js
on_logged_in_answer-session_of host url msg user_json username p law v n w plain =
    get_cookie-set_other host (js "currentuser") user_json 10 b'S' (js "essionid")
      (set_cookie host (js "Sessionid") msg (pos 10) p.cookie) law (λ e. cc) (omega arith)
      (omega arith) w.2 w.1 refl (omega arith) (λ e. cc)
      (record { name_plain = omega arith; value_plain = (w.0, w.1); no_suffix = ground arith })
      (All-set_cookie host (js "Sessionid") msg 10 (IsPlain (js "Sessionid")) p.cookie law (λ e. cc)
        (omega arith) (omega arith) (omega arith) v.2 v.1
        (record {
          name_plain = omega arith;
          value_plain = (v.0, v.1);
          no_suffix = NoProperSuffix-self (js "Sessionid");
        })
        plain)
    ∙ get_cookie-set_cookie host b'S' (js "essionid") msg 10 p.cookie law (omega arith) v n plain
