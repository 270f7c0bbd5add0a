-- ===== src/Cookies/Entries.antt =====
-- `getCookie` as a lookup: the text `document.cookie` is the cookies of the page, `name=value` each,
-- with a semicolon and a blank between two of them.
use polarcloud.Prelude.{
  ap, length, ◌<◌, ℕ, ◌≡◌, ◌≢◌, refl, ◌∙◌, false, List, [], ◌∷◌, ◌++◌, Option, none, some, Text, js,
  eq_text, eq_text_sound, Lacks, All, All-append, arith, if◌then◌else◌,
}
use polarcloud.Cookies.{strip_prefix, until_semicolon, group, match_here, search_text, get_cookie}
use polarcloud.Cookies.Search.{search_text-append, search_text_skip}

pub record Entry : Type 0 where
  pub name : Text
  pub value : Text

abbrev pub entry_text : Entry → Text
entry_text e = e.name ++ b'=' ∷ e.value

unfoldable pub cookie_text : List Entry → Text
cookie_text [] = []
cookie_text (e ∷ []) = entry_text e
cookie_text (e ∷ f ∷ es) = entry_text e ++ b';' ∷ b' ' ∷ cookie_text (f ∷ es)

-- The first cookie of the name whose value is not empty.
unfoldable pub find_value : List Entry → Text → Option Text
find_value [] name = none
find_value (e ∷ es) name =
    let rest = find_value es name in
    if eq_text name e.name then elim (group e.value) [ none ↦ rest | some v ↦ some v ] else rest

-- No end of the text is the name.
abbrev NoSuffix : Text → Text → Type 0
NoSuffix p [] = p ≢ []
NoSuffix p (c ∷ s) = (p ≢ c ∷ s) × NoSuffix p s

-- No proper end of the text is the name.
abbrev pub NoProperSuffix : Text → Text → Type 0
NoProperSuffix p [] = Unit
NoProperSuffix p (c ∷ s) = NoSuffix p s

-- A cookie whose text has no further equals sign and whose value has no semicolon, and whose name does not end in the
-- name looked for, unless it is that name.
pub record IsPlain (name : Text) (e : Entry) : Type 0 where
  pub name_plain : Lacks b'=' e.name
  pub value_plain : Lacks b'=' e.value × Lacks b';' e.value
  pub no_suffix : NoProperSuffix name e.name

NoSuffix-shorter : (p s : Text) → length s < length p → NoSuffix p s
NoSuffix-shorter [] s h = elim h [ ]
NoSuffix-shorter (c ∷ p) [] h = λ e. cc
NoSuffix-shorter (c ∷ p) (d ∷ s) h =
    (λ e. absurd (omega (arith, ap length e)), NoSuffix-shorter (c ∷ p) s (omega arith))

-- A name is no proper end of itself.
pub NoProperSuffix-self : (p : Text) → NoProperSuffix p p
NoProperSuffix-self [] = tt
NoProperSuffix-self (c ∷ p) = NoSuffix-shorter (c ∷ p) p (omega arith)

strip_prefix_name :
    (p s v : Text)
    → Lacks b'=' p
    → Lacks b'=' s
    → strip_prefix (p ++ b'=' ∷ []) (s ++ b'=' ∷ v) ≡ (if eq_text p s then some v else none)
unfolding strip_prefix eq_text
strip_prefix_name [] [] v h k = ground arith
strip_prefix_name [] (d ∷ s) v h k = ground arith
strip_prefix_name (c ∷ p) [] v h k = ground arith
strip_prefix_name (c ∷ p) (d ∷ s) v (a, h) (b, k) = ground (arith, strip_prefix_name p s v h k)

strip_prefix_value : (p v : Text) → Lacks b'=' v → strip_prefix (p ++ b'=' ∷ []) v ≡ none
unfolding strip_prefix
strip_prefix_value [] [] h = refl
strip_prefix_value [] (d ∷ v) h = ground arith
strip_prefix_value (c ∷ p) [] h = refl
strip_prefix_value (c ∷ p) (d ∷ v) (a, h) = ground (arith, strip_prefix_value p v h)

search_text_value : (p v : Text) → Lacks b'=' v → search_text (p ++ b'=' ∷ []) v ≡ none
unfolding search_text match_here
search_text_value p [] h = ground (arith, strip_prefix_value p [] tt)
search_text_value p (d ∷ v) h =
    ground (arith, strip_prefix_value p (d ∷ v) h, search_text_value p v)

until_semicolon_all : (v : Text) → Lacks b';' v → until_semicolon v ≡ v
unfolding until_semicolon
until_semicolon_all [] h = refl
until_semicolon_all (c ∷ v) (a, h) = ground (arith, until_semicolon_all v h)

eq_text_ne : (s t : Text) → s ≢ t → eq_text s t ≡ false
eq_text_ne s t h = ground (arith, eq_text_sound s t)

match_name :
    (p s v : Text)
    → Lacks b'=' p
    → Lacks b'=' s
    → Lacks b';' v
    → match_here (p ++ b'=' ∷ []) (s ++ b'=' ∷ v) ≡ (if eq_text p s then group v else none)
unfolding match_here
match_name p s v hp hs hv = ground (arith, strip_prefix_name p s v hp hs, until_semicolon_all v hv)

match_name-cons :
    (p : Text) (d : ℕ) (s v : Text)
    → Lacks b'=' p
    → Lacks b'=' (d ∷ s)
    → Lacks b';' v
    → match_here (p ++ b'=' ∷ []) (d ∷ (s ++ b'=' ∷ v))
      ≡ (if eq_text p (d ∷ s) then group v else none)
match_name-cons p d s v hp hs hv = match_name p (d ∷ s) v hp hs hv

search_text-none :
    (p s v : Text)
    → Lacks b'=' p
    → Lacks b'=' s
    → Lacks b'=' v × Lacks b';' v
    → NoSuffix p s
    → search_text (p ++ b'=' ∷ []) (s ++ b'=' ∷ v) ≡ none
unfolding search_text
search_text-none p [] v hp hs (hv, hw) n =
    ground (arith, match_name p [] v hp tt hw, eq_text_ne p [] n, search_text_value p v hv)
search_text-none p (d ∷ s) v hp (a, hs) (hv, hw) (n, ns) = ground (
  arith,
  match_name-cons p d s v hp (a, hs) hw,
  eq_text_ne p (d ∷ s) n,
  search_text-none p s v hp hs (hv, hw) ns,
)

-- The search in one cookie.
search_text_entry :
    (p s v : Text)
    → Lacks b'=' p
    → Lacks b'=' s
    → Lacks b'=' v × Lacks b';' v
    → NoProperSuffix p s
    → search_text (p ++ b'=' ∷ []) (s ++ b'=' ∷ v) ≡ (if eq_text p s then group v else none)
unfolding search_text
search_text_entry p [] v hp hs (hv, hw) n =
    ground (arith, match_name p [] v hp tt hw, search_text_value p v hv)
search_text_entry p (d ∷ s) v hp (a, hs) (hv, hw) n =
    ground (arith, match_name-cons p d s v hp (a, hs) hw, search_text-none p s v hp hs (hv, hw) n)

search_text_nil : (c : ℕ) (p : Text) → search_text (c ∷ p) [] ≡ none
unfolding search_text match_here strip_prefix
search_text_nil c p = refl

-- The cookies one after the other, for a name `c p`.
search_text-cookie_text :
    (c : ℕ) (p : Text) (es : List Entry)
    → Lacks b'=' (c ∷ p) × Lacks b';' (c ∷ p) × (c ≢ b' ')
    → All (IsPlain (c ∷ p)) es
    → search_text (c ∷ (p ++ b'=' ∷ [])) (cookie_text es) ≡ find_value es (c ∷ p)
unfolding cookie_text find_value
search_text-cookie_text c p [] h k = search_text_nil c (p ++ b'=' ∷ [])
search_text-cookie_text c p (e ∷ []) (hp, hq, hc) (k, ks) =
    search_text_entry (c ∷ p) e.name e.value hp k.name_plain k.value_plain k.no_suffix
    ∙ ground arith
search_text-cookie_text c p (e ∷ f ∷ es) (hp, hq, hc) (k, ks) = ground (
  arith,
  search_text-append c (p ++ b'=' ∷ []) (entry_text e) (b' ' ∷ cookie_text (f ∷ es))
      (hq.0, All-append (λ d. d ≢ b';') p (b'=' ∷ []) hq.1 (omega arith, tt)),
  search_text_skip c b' ' (p ++ b'=' ∷ []) (cookie_text (f ∷ es)) hc,
  search_text_entry (c ∷ p) e.name e.value hp k.name_plain k.value_plain k.no_suffix,
  search_text-cookie_text c p (f ∷ es) (hp, hq, hc) ks,
)

-- `getCookie` looks up the first cookie of that name with a value. The name is not empty, begins
-- with no blank and holds no equals sign and no semicolon; every cookie is plain for it.
pub get_cookie-cookie_text :
    (c : ℕ) (p : Text) (es : List Entry)
    → Lacks b'=' (c ∷ p) × Lacks b';' (c ∷ p) × (c ≢ b' ')
    → All (IsPlain (c ∷ p)) es
    → get_cookie (cookie_text es) (c ∷ p) ≡ elim (find_value es (c ∷ p)) [ some v ↦ v | none ↦ [] ]
unfolding get_cookie js
get_cookie-cookie_text c p es h k = ground (arith, search_text-cookie_text c p es h k)
