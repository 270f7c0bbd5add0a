-- ===== src/Account/Passwords.antt =====
-- Changing the password after logging in.
use polarcloud.Prelude.{
  ◌≡◌, ◌≢◌, inl, inr, false, [], ◌∷◌, ◌++◌, some, pos, Text, js, eq_text, All, arith, Bool-cases,
  if◌then◌else◌,
}
use polarcloud.Cookies.Entries.{IsPlain}
use polarcloud.Browser.{Host, User, user, set_cookie, query}
use polarcloud.Browser.Values.{str}
use polarcloud.Browser.Jar.{IsJar, IsValue, get_cookie-set_cookie, All-set_cookie}
use polarcloud.Page.{Page, Request, on_pswd_updated, session_of, cookie_of}
use polarcloud.Account.{on_logged_in_answer, do_update_pswd}

-- The request that changes the password of a user.
abbrev pub pswd_request : Host → Text → Text → Text → Page → Request
pswd_request host code tel new p = record {
  url = p.center_url ++ js "/api/user/updatePswd";
  verb = js "GET";
  session = some (session_of p);
  payload =
      query (("code", str code) ∷ ("tel", str tel) ∷ ("newpswd", str (host.hex_md5 new)) ∷ []);
  callback = on_pswd_updated;
}

-- After logging in without "remember", the cookie `currentuser` holds the user that the server sent.
on_logged_in_answer-user :
    (host : Host) (url msg user_json username : Text) (p : Page)
    → IsJar host
    → IsValue msg
    → IsValue user_json
    → user_json ≢ []
    → All (IsPlain (js "currentuser")) p.cookie
    → cookie_of (js "currentuser") (on_logged_in_answer host url 200 msg user_json username false p)
      ≡ user_json
unfolding on_logged_in_answer js
on_logged_in_answer-user host url msg user_json username p law v w n plain =
    get_cookie-set_cookie host b'c' (js "urrentuser") user_json 10
      (set_cookie host (js "Sessionid") msg (pos 10) p.cookie) law (omega arith) w n
      (All-set_cookie host (js "Sessionid") msg 10 (IsPlain (js "currentuser")) p.cookie law
        (λ e. cc) (omega arith) (omega arith) (omega arith) v.2 v.1
        (record { name_plain = omega arith; value_plain = (v.0, v.1); no_suffix = ground arith })
        plain)

do_update_pswd-user :
    (host : Host) (code old new : Text) (u : User) (p : Page)
    → host.parse_json (cookie_of (js "currentuser") p) ≡ user u
    → (do_update_pswd host code old new p).pending ≡ (
        if eq_text u.password (host.hex_md5 old)
        then pswd_request host code u.tel new p ∷ p.pending
        else p.pending)
unfolding do_update_pswd
do_update_pswd-user host code old new u p e =
    elim (Bool-cases (eq_text u.password (host.hex_md5 old))) [
      | inl right ↦ rw (do_update_pswd, e, right)
      | inr wrong ↦ rw (do_update_pswd, e, wrong)
    ]

-- On the page after logging in without "remember", changing the password asks the server exactly if
-- the old one has the md5 text of the user that the server sent; the request names that user's
-- telephone number and the md5 text of the new one. The texts of the session and of the user have no
-- equals sign, no semicolon and no blank at their ends, that of the user is not empty and the JSON parser reads it as a user,
-- and the cookies before are plain for `currentuser`, in a browser that stores cookies as RFC 6265
-- says.
do_update_pswd-pending :
    (host : Host) (url msg user_json username code old new : Text) (u : User) (p q : Page)
    → IsJar host
    → IsValue msg
    → IsValue user_json
    → user_json ≢ []
    → host.parse_json user_json ≡ user u
    → All (IsPlain (js "currentuser")) p.cookie
    → q ≡ on_logged_in_answer host url 200 msg user_json username false p
    → (do_update_pswd host code old new q).pending ≡ (
        if eq_text u.password (host.hex_md5 old)
        then pswd_request host code u.tel new q ∷ q.pending
        else q.pending)
do_update_pswd-pending host url msg user_json username code old new u p q law v w n parsed plain e =
    do_update_pswd-user host code old new u q
      (rw (e, on_logged_in_answer-user host url msg user_json username p law v w n plain, parsed))
