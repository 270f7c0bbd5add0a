-- ===== src/Tests/Cookies.antt =====
-- Cookies.
use polarcloud.Prelude.{◌≡◌, refl, [], none, some, pos, js, arith}
use polarcloud.Cookies.{get_cookie, search_text, match_here, strip_prefix, until_semicolon}
use polarcloud.Cookies.Entries.{cookie_text, find_value, get_cookie-cookie_text}
use polarcloud.Browser.{set_cookie}
use polarcloud.Tests.Browser.{jar, browser, browser-IsJar, session-IsPlain, password-IsPlain}
use polarcloud.Browser.Jar.{get_cookie-set_cookie}

-- The value runs to the next semicolon.
second_cookie : get_cookie (cookie_text jar) (js "password") ≡ js "x1"
unfolding get_cookie js cookie_text search_text match_here strip_prefix until_semicolon
second_cookie = refl

-- A name that ends in the name looked for is taken for it.
suffix_cookie : get_cookie (js "mypassword=zz; password=x1") (js "password") ≡ js "zz"
unfolding get_cookie js search_text match_here strip_prefix until_semicolon
suffix_cookie = refl

get_cookie-cookie_text_example :
    get_cookie (cookie_text jar) (js "password")
    ≡ elim (find_value jar (js "password")) [ some v ↦ v | none ↦ [] ]
unfolding js
get_cookie-cookie_text_example =
    get_cookie-cookie_text b'p' (js "assword") jar (omega arith) password-IsPlain

get_cookie-set_cookie_example :
    get_cookie
      (cookie_text (set_cookie browser (js "Sessionid") (js "b2") (pos 10) jar))
      (js "Sessionid")
    ≡ js "b2"
unfolding js
get_cookie-set_cookie_example =
    get_cookie-set_cookie browser b'S' (js "essionid") (js "b2") 10 jar browser-IsJar (omega arith)
      (omega arith) (λ e. cc) session-IsPlain
