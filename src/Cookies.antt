-- ===== src/Cookies.antt =====
-- The cookie functions, which file-index.js (818-827), user.js (36-55) and register.js (27-46) of
-- web/static/assets/js/model each declare: `getCookie` looks through the text `document.cookie` by
-- the regular expression `name=([^;]+)`, `setCookie` writes a text to it, `delCookie` writes an
-- empty value that expired a day ago. The names in use hold letters only, so the expression reads
-- them literally. The expiry is an argument: `Browser` computes it from the clock.
pub mod Search
pub mod Entries
use polarcloud.Prelude.{
  ℕ, Bool, true, false, [], ◌∷◌, ◌++◌, Option, none, some, Text, js, ◌==◌, if◌then◌else◌,
}

-- What follows the prefix, if the text begins with it.
unfoldable pub strip_prefix : Text → Text → Option Text
strip_prefix [] s = some s
strip_prefix (c ∷ p) [] = none
strip_prefix (c ∷ p) (d ∷ s) = let rest = strip_prefix p s in if c == d then rest else none

-- `[^;]*`
unfoldable pub until_semicolon : Text → Text
until_semicolon [] = []
until_semicolon (c ∷ s) = let rest = until_semicolon s in if c == b';' then [] else c ∷ rest

-- The group of a match: it holds one character at least.
abbrev pub group : Text → Option Text
group [] = none
group (c ∷ s) = some (c ∷ s)

-- A match of the expression at the start of the text.
unfoldable pub match_here : Text → Text → Option Text
match_here pat s = elim (strip_prefix pat s) [ none ↦ none | some r ↦ group (until_semicolon r) ]

-- The leftmost match.
unfoldable pub search_text : Text → Text → Option Text
search_text pat [] = match_here pat []
search_text pat (c ∷ s) = elim (match_here pat (c ∷ s)) [
  | some v ↦ some v
  | none ↦ search_text pat s
]

unfoldable pub get_cookie : Text → Text → Text
get_cookie cookie name = elim (search_text (name ++ js "=") cookie) [ some v ↦ v | none ↦ [] ]

-- What `setCookie` assigns to `document.cookie`, for the text of the expiry date.
unfoldable pub set_cookie_text : Text → Text → Text → Text
set_cookie_text name value expires = name ++ js "=" ++ value ++ js ";expires=" ++ expires
