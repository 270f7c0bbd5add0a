-- ===== src/Browser/Jar.antt =====
-- The cookies of a page after `setCookie` and `delCookie`, in a browser that stores an assigned
-- cookie as RFC 6265 says.
use polarcloud.Prelude.{
  ℕ, Bool, ◌<◌, ◌≤◌, ◌&&◌, leb_of_le, ap, ◌+◌, ◌-◌, ◌/◌, ◌*◌, ◌≡◌, ◌≢◌, refl, sym, inl, inr, false,
  List, [], ◌∷◌, none, some, pos, negsuc, Text, eq_text, eq_text_refl, eq_text_sound, Lacks, All,
  arith, Bool-cases, leb, ltb, ◌∙◌, if◌then◌else◌,
}
use polarcloud.Cookies.{set_cookie_text, get_cookie}
use polarcloud.Cookies.Entries.{
  Entry, cookie_text, find_value, IsPlain, NoProperSuffix-self, get_cookie-cookie_text,
}
use polarcloud.Browser.{Host, set_cookie, del_cookie}

-- The cookie of a name is replaced where it stands, or added behind the others.
pub put : Text → Text → List Entry → List Entry
put n v [] = record { name = n; value = v } ∷ []
put n v (e ∷ es) =
    let rest = put n v es in
    if eq_text n e.name then record { name = n; value = v } ∷ es else e ∷ rest

-- The cookies of other names.
pub erase : Text → List Entry → List Entry
erase n [] = []
erase n (e ∷ es) = let rest = erase n es in if eq_text n e.name then rest else e ∷ rest

-- A text that begins and ends with neither a blank nor a tab.
abbrev IsNoBlank : ℕ → Type 0
IsNoBlank c = (c ≢ b' ') × (c ≢ 9)

abbrev BeginsTrimmed : Text → Type 0
BeginsTrimmed [] = Unit
BeginsTrimmed (c ∷ s) = IsNoBlank c

abbrev EndsTrimmed : Text → Type 0
EndsTrimmed [] = Unit
EndsTrimmed (c ∷ []) = IsNoBlank c
EndsTrimmed (c ∷ d ∷ s) = EndsTrimmed (d ∷ s)

abbrev pub IsTrimmed : Text → Type 0
IsTrimmed t = BeginsTrimmed t × EndsTrimmed t

-- The time, in milliseconds, that the browser reads in the text of a date: the seconds of it, ahead or
-- behind.
abbrev pub read_time : Host → ℕ → ℕ
read_time host t = (t + host.ahead * 60000 - host.behind * 60000) / 1000 * 1000

-- A browser by RFC 6265, sections 5.1.1 to 5.3, for a text that `setCookie` assigns: it takes name and
-- value, from which no blanks are to be cut off, drops a cookie that is past the time that it reads,
-- and keeps any other. Its zone is less than a day from UTC, and its clock is past the first day of 1970.
abbrev pub IsJar : Host → Type 0
IsJar host =
    (host.ahead < 1440)
    × (host.behind < 1440)
    × (86400000 ≤ host.now)
    × ((jar : List Entry) (n v : Text) (t : ℕ)
        → n ≢ []
        → IsTrimmed n
        → Lacks b'=' n
        → Lacks b';' n
        → IsTrimmed v
        → Lacks b';' v
        → host.store jar (set_cookie_text n v (host.date_text t))
          ≡ (if leb (read_time host t) host.now then erase n jar else put n v jar))

find_value-put : (n v : Text) (es : List Entry) → v ≢ [] → find_value (put n v es) n ≡ some v
unfolding find_value put
find_value-put n [] es h = absurd (h refl)
find_value-put n (c ∷ v) [] h = ground (arith, eq_text_refl n)
find_value-put n (c ∷ v) (e ∷ es) h = elim (Bool-cases (eq_text n e.name)) [
  | inl same ↦ ground (arith, eq_text_refl n)
  | inr other ↦ ground (arith, find_value-put n (c ∷ v) es h)
]

find_value-erase : (n : Text) (es : List Entry) → find_value (erase n es) n ≡ none
unfolding find_value erase
find_value-erase n [] = refl
find_value-erase n (e ∷ es) = ground (arith, find_value-erase n es)

find_value-put_other :
    (n m v : Text) (es : List Entry) → m ≢ n → find_value (put n v es) m ≡ find_value es m
unfolding find_value put
find_value-put_other n m v [] h = ground (arith, eq_text_sound m n)
find_value-put_other n m v (e ∷ es) h = ground (
  arith,
  eq_text_sound m n,
  eq_text_sound n e.name,
  eq_text_sound m e.name,
  find_value-put_other n m v es h,
)

module _ (P : Entry → Type 0) where
  All-put :
      (n v : Text) (es : List Entry)
      → All P es
      → P (record { name = n; value = v })
      → All P (put n v es)
  unfolding put
  All-put n v [] h p = (p, tt)
  All-put n v (e ∷ es) (q, h) p = elim (Bool-cases (eq_text n e.name)) [
    | inl same ↦ rw same (p, h)
    | inr other ↦ rw other (q, All-put n v es h p)
  ]

  All-erase : (n : Text) (es : List Entry) → All P es → All P (erase n es)
  unfolding erase
  All-erase n [] h = tt
  All-erase n (e ∷ es) (q, h) = elim (Bool-cases (eq_text n e.name)) [
    | inl same ↦ rw same (All-erase n es h)
    | inr other ↦ rw other (q, All-erase n es h)
  ]

-- A name that `getCookie` can look for: no equals sign, no semicolon, no blank in front, and no blank or
-- tab at its ends; and a value that it can give back.
abbrev pub IsName : ℕ → Text → Type 0
IsName c p = Lacks b'=' (c ∷ p) × Lacks b';' (c ∷ p) × (c ≢ b' ') × IsTrimmed (c ∷ p)

abbrev pub IsValue : Text → Type 0
IsValue v = Lacks b'=' v × Lacks b';' v × IsTrimmed v

entry_IsPlain : (n v : Text) → Lacks b'=' n → IsValue v → IsPlain n (record { name = n; value = v })
entry_IsPlain n v h k = record {
  name_plain = h;
  value_plain = (k.0, k.1);
  no_suffix = NoProperSuffix-self n;
}

-- Whether a cookie for `tenths` tenths of a day is gone at once: for less than a day `setDate` leaves the
-- time as it is, and the browser does not read it ahead.
abbrev pub is_gone : Host → ℕ → Bool
is_gone host tenths = ltb tenths 10 && leb host.ahead host.behind

is_gone-read_time :
    (host : Host) (tenths : ℕ)
    → host.ahead < 1440
    → host.behind < 1440
    → leb (read_time host (host.now + tenths / 10 * 86400000)) host.now ≡ is_gone host tenths
is_gone-read_time host tenths a b = ground (arith, a, b)

stored_at :
    (host : Host) (n v : Text) (tenths : ℕ) (jar : List Entry)
    → IsJar host
    → n ≢ []
    → IsTrimmed n
    → Lacks b'=' n
    → Lacks b';' n
    → IsTrimmed v
    → Lacks b';' v
    → set_cookie host n v (pos tenths) jar
      ≡ (if is_gone host tenths then erase n jar else put n v jar)
unfolding set_cookie
stored_at host n v tenths jar (x, y, z, law) ne tn a b tv c =
    law jar n v (host.now + tenths / 10 * 86400000) ne tn a b tv c
    ∙ ap (λ (g : Bool). if g then erase n jar else put n v jar) (is_gone-read_time host tenths x y)

erased_at :
    (host : Host) (n : Text) (jar : List Entry)
    → IsJar host
    → n ≢ []
    → IsTrimmed n
    → Lacks b'=' n
    → Lacks b';' n
    → set_cookie host n [] (negsuc 9) jar ≡ erase n jar
unfolding set_cookie
erased_at host n jar (x, y, z, law) ne tn a b =
    law jar n [] (host.now - (9 + 1 + 9) / 10 * 86400000) ne tn a b (tt, tt) tt
    ∙ ap (λ (g : Bool). if g then erase n jar else put n [] jar)
        (leb_of_le (read_time host (host.now - 86400000)) host.now (omega (arith, x, z)))

-- In a browser that stores cookies as RFC 6265 says (`IsJar`), what `setCookie` stores for `tenths` tenths
-- of a day, `getCookie` reads, if that is a day or more, or if the browser reads the local date, whose
-- zone is ignored, as a later time; else the cookie is gone at once. The value is not empty; name and
-- value have no equals sign, no semicolon, and no blank or tab at their ends; the cookies before are
-- plain for the name, so it is not the end of another's name.
pub get_cookie-set_cookie :
    (host : Host) (c : ℕ) (p v : Text) (tenths : ℕ) (jar : List Entry)
    → IsJar host
    → IsName c p
    → IsValue v
    → v ≢ []
    → All (IsPlain (c ∷ p)) jar
    → get_cookie (cookie_text (set_cookie host (c ∷ p) v (pos tenths) jar)) (c ∷ p)
      ≡ (if is_gone host tenths then [] else v)
get_cookie-set_cookie host c p v tenths jar law (a, b, d, tn) (e, f, tv) ne plain =
    rw (stored_at host (c ∷ p) v tenths jar law (λ q. cc) tn a b tv f)
      (elim (Bool-cases (is_gone host tenths)) [
        | inl early ↦ rw early (
            get_cookie-cookie_text c p (erase (c ∷ p) jar) (a, b, d)
              (All-erase (IsPlain (c ∷ p)) (c ∷ p) jar plain)
            ∙ rw (find_value-erase (c ∷ p) jar))
        | inr late ↦ rw late (
            get_cookie-cookie_text c p (put (c ∷ p) v jar) (a, b, d)
              (All-put (IsPlain (c ∷ p)) (c ∷ p) v jar plain (entry_IsPlain (c ∷ p) v a (e, f, tv)))
            ∙ rw (find_value-put (c ∷ p) v jar ne))
      ])

-- After `delCookie` the name has no value, in a browser by RFC 6265, for a name that `getCookie` can look
-- for, where the cookies before are plain for it.
pub get_cookie-del_cookie :
    (host : Host) (c : ℕ) (p : Text) (jar : List Entry)
    → IsJar host
    → IsName c p
    → All (IsPlain (c ∷ p)) jar
    → get_cookie (cookie_text (del_cookie host (c ∷ p) jar)) (c ∷ p) ≡ []
unfolding del_cookie
get_cookie-del_cookie host c p jar law (a, b, d, tn) plain =
    rw (erased_at host (c ∷ p) jar law (λ q. cc) tn a b) (
      get_cookie-cookie_text c p (erase (c ∷ p) jar) (a, b, d)
        (All-erase (IsPlain (c ∷ p)) (c ∷ p) jar plain)
      ∙ rw (find_value-erase (c ∷ p) jar))

find_value-erase_other :
    (n m : Text) (es : List Entry) → m ≢ n → find_value (erase n es) m ≡ find_value es m
unfolding find_value erase
find_value-erase_other n m [] h = refl
find_value-erase_other n m (e ∷ es) h =
    ground (arith, eq_text_sound n e.name, eq_text_sound m e.name, find_value-erase_other n m es h)

-- `delCookie` leaves what `getCookie` reads under another name.
pub get_cookie-del_other :
    (host : Host) (n : Text) (c : ℕ) (p : Text) (jar : List Entry)
    → IsJar host
    → n ≢ []
    → IsTrimmed n
    → Lacks b'=' n
    → Lacks b';' n
    → IsName c p
    → (c ∷ p) ≢ n
    → All (IsPlain (c ∷ p)) jar
    → get_cookie (cookie_text (del_cookie host n jar)) (c ∷ p)
      ≡ get_cookie (cookie_text jar) (c ∷ p)
unfolding del_cookie
get_cookie-del_other host n c p jar law ne tn a b (nb, nc, nd, nt) h plain =
    rw (erased_at host n jar law ne tn a b) (
      get_cookie-cookie_text c p (erase n jar) (nb, nc, nd)
        (All-erase (IsPlain (c ∷ p)) n jar plain)
      ∙ rw (find_value-erase_other n (c ∷ p) jar h)
          (sym (get_cookie-cookie_text c p jar (nb, nc, nd) plain)))

pub All-del_cookie :
    (host : Host) (n : Text) (P : Entry → Type 0) (jar : List Entry)
    → IsJar host
    → n ≢ []
    → IsTrimmed n
    → Lacks b'=' n
    → Lacks b';' n
    → All P jar
    → All P (del_cookie host n jar)
unfolding del_cookie
All-del_cookie host n P jar law ne tn a b h =
    rw (erased_at host n jar law ne tn a b) (All-erase P n jar h)

-- `setCookie` for a day or more leaves what `getCookie` reads under another name, for which the new
-- cookie is plain.
pub get_cookie-set_other :
    (host : Host) (n v : Text) (tenths c : ℕ) (p : Text) (jar : List Entry)
    → IsJar host
    → n ≢ []
    → IsTrimmed n
    → Lacks b';' n
    → IsTrimmed v
    → Lacks b';' v
    → ltb tenths 10 ≡ false
    → IsName c p
    → (c ∷ p) ≢ n
    → IsPlain (c ∷ p) (record { name = n; value = v })
    → All (IsPlain (c ∷ p)) jar
    → get_cookie (cookie_text (set_cookie host n v (pos tenths) jar)) (c ∷ p)
      ≡ get_cookie (cookie_text jar) (c ∷ p)
get_cookie-set_other host n v tenths c p jar law ne tn b tv d late (nb, nc, nd, nt) h new plain =
    rw (stored_at host n v tenths jar law ne tn new.name_plain b tv d, late)
      (get_cookie-cookie_text c p (put n v jar) (nb, nc, nd)
          (All-put (IsPlain (c ∷ p)) n v jar plain new)
        ∙ rw (find_value-put_other n (c ∷ p) v jar h)
            (sym (get_cookie-cookie_text c p jar (nb, nc, nd) plain)))

pub All-set_cookie :
    (host : Host) (n v : Text) (tenths : ℕ) (P : Entry → Type 0) (jar : List Entry)
    → IsJar host
    → n ≢ []
    → IsTrimmed n
    → Lacks b'=' n
    → Lacks b';' n
    → IsTrimmed v
    → Lacks b';' v
    → P (record { name = n; value = v })
    → All P jar
    → All P (set_cookie host n v (pos tenths) jar)
All-set_cookie host n v tenths P jar law ne tn a b tv d new h =
    rw (stored_at host n v tenths jar law ne tn a b tv d) (elim (Bool-cases (is_gone host tenths)) [
      | inl early ↦ rw early (All-erase P n jar h)
      | inr late ↦ rw late (All-put P n v jar h new)
    ])
