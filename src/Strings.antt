-- ===== src/Strings.antt =====
-- The operations of JavaScript's strings and numbers that web/static/assets/js/model uses, after the
-- language's definition: `lastIndexOf` of one unit, `slice`, `substring`, `String(n)` of a natural
-- number.
pub mod Laws
pub mod Decimal
pub mod Split
use Prim.Native.Nat.{min, max}
use polarcloud.Prelude.{
  ℕ, zero, suc, ◌+◌, ◌-◌, ◌/◌, ◌%◌, [], ◌∷◌, ◌++◌, Option, none, some, Text, length, take, drop,
  ltb, leb, ◌*◌, ◌&&◌, List, Bool, true, false, eq_text, js, ◌==◌, if◌then◌else◌,
}

-- `none` is the answer -1.
unfoldable pub last_index_of : Text → ℕ → Option ℕ
last_index_of [] c = none
last_index_of (d ∷ s) c = elim (last_index_of s c) [
  | some i ↦ some (suc i)
  | none ↦ if d == c then some 0 else none
]

-- The answer plus one: the program uses no other.
abbrev pub next : Option ℕ → ℕ
next none = 0
next (some i) = suc i

-- `s.slice(a)` for a natural number.
abbrev pub slice : Text → ℕ → Text
slice s a = drop a s

-- `s.substring(a, b)`: both ends are capped at the length, and put in order.
unfoldable pub substring : Text → ℕ → ℕ → Text
substring s a b =
    let i = min a (length s) in
    let j = min b (length s) in take (max i j - min i j) (drop (min i j) s)

-- The digits of a number before `acc`; the fuel only has to exceed the number of digits.
pub digits_onto : ℕ → ℕ → Text → Text
digits_onto zero n acc = acc
digits_onto (suc f) n acc =
    let rest = digits_onto f (n / 10) ((b'0' + n % 10) ∷ acc) in
    if ltb n 10 then (b'0' + n) ∷ acc else rest

-- `n.toString()`
unfoldable pub to_string : ℕ → Text
unfolding digits_onto
to_string n = digits_onto (suc n) n []

-- `s.split(sep)` for a separator of one unit.
pub split : Text → ℕ → List Text
split [] sep = [] ∷ []
split (c ∷ s) sep = elim (split s sep) [
  | [] ↦ []
  | t ∷ ts ↦ if c == sep then [] ∷ t ∷ ts else (c ∷ t) ∷ ts
]

-- Whether the text begins with another, and `s.indexOf(t) != -1`.
pub starts_with : Text → Text → Bool
starts_with s t = eq_text (take (length t) s) t

unfoldable pub contains : Text → Text → Bool
unfolding starts_with
contains [] t = eq_text [] t
contains (c ∷ s) t = elim (starts_with (c ∷ s) t) [ true ↦ true | false ↦ contains s t ]

hex_value : ℕ → Option ℕ
hex_value c =
    if leb b'0' c && leb c b'9'
    then some (c - b'0')
    else if leb b'a' c && leb c b'f'
    then some (c - b'a' + 10)
    else if leb b'A' c && leb c b'F'
    then some (c - b'A' + 10)
    else none

-- The number of exactly `n` hexadecimal digits at the start of a text.
hex_digits : ℕ → Text → ℕ → Option ℕ
unfolding hex_value
hex_digits zero s acc = some acc
hex_digits (suc n) [] acc = none
hex_digits (suc n) (c ∷ s) acc = elim (hex_value c) [
  | none ↦ none
  | some d ↦ hex_digits n s (acc * 16 + d)
]

-- What stands behind a percent sign: the unit that is written, and how many units write it.
escape_at : Text → Option (ℕ × ℕ)
unfolding hex_digits
escape_at [] = none
escape_at (c ∷ s) =
    if c == b'u'
    then elim (hex_digits 4 s 0) [ none ↦ none | some d ↦ some (d, 5) ]
    else elim (hex_digits 2 (c ∷ s) 0) [ none ↦ none | some d ↦ some (d, 2) ]

-- `unescape`; the number counts the units to pass over.
unescape_from : ℕ → Text → Text
unfolding escape_at
unescape_from n [] = []
unescape_from (suc n) (c ∷ s) = unescape_from n s
unescape_from zero (c ∷ s) = elim (if c == b'%' then escape_at s else none) [
  | none ↦ c ∷ unescape_from 0 s
  | some (d, n) ↦ d ∷ unescape_from n s
]

unfoldable pub unescape : Text → Text
unfolding unescape_from
unescape s = unescape_from 0 s
