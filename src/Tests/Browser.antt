-- ===== src/Tests/Browser.antt =====
-- A browser for the tests, which stores cookies as RFC 6265 says, writes a time as one unit and reads
-- every text as a user, and
-- the cookies of a page.
use polarcloud.Prelude.{
  ℕ, ◌≡◌, List, [], ◌∷◌, ◌++◌, ◌+◌, ◌-◌, ◌*◌, ◌/◌, Text, js, All, Lacks, arith, leb, Bool, false,
  append_assoc, ◌==◌, if◌then◌else◌,
}
use polarcloud.Cookies.{set_cookie_text}
use polarcloud.Cookies.Entries.{Entry, IsPlain}
use polarcloud.Browser.{Host, user}
use polarcloud.Browser.Jar.{IsJar, put, erase}

abbrev pub jar : List Entry
jar =
    record { name = js "Sessionid"; value = js "a7f" }
    ∷ record { name = js "password"; value = js "x1" }
    ∷ []

-- The text before the first such unit, and the text behind it.
cut_at : ℕ → Text → Text × Text
cut_at c [] = ([], [])
cut_at c (d ∷ s) = let (a, b) = cut_at c s in if d == c then ([], s) else (d ∷ a, b)

cut_at-append : (c : ℕ) (s t : Text) → Lacks c s → cut_at c (s ++ c ∷ t) ≡ (s, t)
unfolding cut_at
cut_at-append c [] t h = ground arith
cut_at-append c (d ∷ s) t (a, h) = ground (arith, cut_at-append c s t h)

-- Whether the only unit of a text, in whole seconds at UTC, is at most the number.
past : ℕ → Text → Bool
past now [] = false
past now (t ∷ s) = leb ((t + 0 * 60000 - 0 * 60000) / 1000 * 1000) now

pub store_at : ℕ → List Entry → Text → List Entry
store_at now jar t =
    let (n, r) = cut_at b'=' t in
    let (v, s) = cut_at b';' r in
    let (e, d) = cut_at b'=' s in if past now d then erase n jar else put n v jar

-- The browser of the tests; its zone is UTC.
abbrev pub browser : Host
browser = record {
  store = store_at 1500000000000;
  now = 1500000000000;
  ahead = 0;
  behind = 0;
  date_text = λ t. t ∷ [];
  hex_md5 = λ t. js "md5 " ++ t;
  parse_json = λ t. user (record { tel = t; password = js "md5 pw" });
}

assigned :
    (n v : Text) (t : ℕ)
    → set_cookie_text n v (t ∷ []) ≡ n ++ b'=' ∷ (v ++ b';' ∷ (js "expires" ++ b'=' ∷ t ∷ []))
unfolding set_cookie_text js
assigned n v t = simp append_assoc

stores :
    (jar : List Entry) (n v : Text) (t : ℕ)
    → Lacks b'=' n
    → Lacks b';' v
    → store_at 1500000000000 jar (set_cookie_text n v (t ∷ [])) ≡ (
        if leb ((t + 0 * 60000 - 0 * 60000) / 1000 * 1000) 1500000000000
        then erase n jar
        else put n v jar)
unfolding store_at past js
stores jar n v t a c = rw (
  assigned n v t,
  cut_at-append b'=' n (v ++ b';' ∷ (js "expires" ++ b'=' ∷ t ∷ [])) a,
  cut_at-append b';' v (js "expires" ++ b'=' ∷ t ∷ []) c,
  cut_at-append b'=' (js "expires") (t ∷ []) (omega arith),
)

pub browser-IsJar : IsJar browser
browser-IsJar =
    (omega arith, omega arith, omega arith, λ jar n v t ne tn a b tv c. stores jar n v t a c)

pub session-IsPlain : All (IsPlain (js "Sessionid")) jar
unfolding js
session-IsPlain = ground arith

pub password-IsPlain : All (IsPlain (js "password")) jar
unfolding js
password-IsPlain = ground arith

pub user-IsPlain : All (IsPlain (js "currentuser")) jar
unfolding js
user-IsPlain = ground arith
