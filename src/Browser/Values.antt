-- ===== src/Browser/Values.antt =====
-- The values of JavaScript that the globals and parameters of the scripts hold: integers, texts and
-- `undefined` and NaN, with the conversions that `==`, `<=` and `+` make.
use polarcloud.Prelude.{
  ℕ, ◌+◌, ◌-◌, ◌*◌, suc, zero, ℤ, pos, negsuc, at_most_zero, is_nat, Bool, false, ◌&&◌, [], ◌∷◌,
  Option, none, some, Text, js, eq_text, leb, ◌==◌, if◌then◌else◌,
}
use polarcloud.Strings.{to_string}

pub data Value : Type 0 where
  num : ℤ → Value
  str : Text → Value
  undefined nan : Value

-- The number of a text of decimal digits, read with `acc` before it.
pub digits_value : Text → ℕ → Option ℕ
digits_value [] acc = some acc
digits_value (c ∷ s) acc =
    let rest = digits_value s (acc * 10 + (c - b'0')) in
    if leb b'0' c && leb c b'9' then rest else none

negated : ℕ → ℤ
negated zero = pos 0
negated (suc n) = negsuc n

-- `Number(s)` of a text that is empty or a decimal integer, with a minus sign or without. Other
-- texts are no numbers here: the ids and flags that the server and the pages write have no
-- fractions, exponents, blanks or radix prefixes.
pub number_of : Text → Option ℤ
unfolding digits_value negated
number_of [] = some (pos 0)
number_of (c ∷ []) = elim (digits_value (c ∷ []) 0) [ none ↦ none | some n ↦ some (pos n) ]
number_of (c ∷ d ∷ s) =
    if c == b'-'
    then elim (digits_value (d ∷ s) 0) [ none ↦ none | some n ↦ some (negated n) ]
    else elim (digits_value (c ∷ d ∷ s) 0) [ none ↦ none | some n ↦ some (pos n) ]

-- `v == n` for a number `n`.
unfoldable pub loosely_is : Value → ℕ → Bool
unfolding number_of
loosely_is (num z) n = is_nat z n
loosely_is (str s) n = elim (number_of s) [ none ↦ false | some z ↦ is_nat z n ]
loosely_is undefined n = false
loosely_is nan n = false

-- `v == "n"` for the text of a number `n` of one digit.
unfoldable pub loosely_is_text : Value → ℕ → Bool
loosely_is_text (num z) n = is_nat z n
loosely_is_text (str s) n = eq_text s (to_string n)
loosely_is_text undefined n = false
loosely_is_text nan n = false

-- `v <= 0`
unfoldable pub not_positive : Value → Bool
unfolding number_of
not_positive (num z) = at_most_zero z
not_positive (str s) = elim (number_of s) [ none ↦ false | some z ↦ at_most_zero z ]
not_positive undefined = false
not_positive nan = false

-- `"" + v`
unfoldable pub text_of : Value → Text
text_of (num (pos n)) = to_string n
text_of (num (negsuc n)) = b'-' ∷ to_string (suc n)
text_of (str s) = s
text_of undefined = js "undefined"
text_of nan = js "NaN"

abbrev next_value : Option ℕ → ℕ → ℕ
next_value none d = d
next_value (some n) d = n * 10 + d

-- The number that the digits at the start of a text write, if there is a digit.
pub leading_digits : Text → Option ℕ → Option ℕ
leading_digits [] acc = acc
leading_digits (c ∷ s) acc =
    let rest = leading_digits s (some (next_value acc (c - b'0'))) in
    if leb b'0' c && leb c b'9' then rest else acc

-- `parseInt(v)`, for texts that begin with neither a blank, a sign nor `0x`.
unfoldable pub parse_int : Value → Value
unfolding leading_digits
parse_int (num z) = num z
parse_int (str s) = elim (leading_digits s none) [ none ↦ nan | some n ↦ num (pos n) ]
parse_int undefined = nan
parse_int nan = nan
