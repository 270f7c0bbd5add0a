-- ===== src/Verify.antt =====
-- web/static/assets/js/model/gVerify.js: the picture with a code that the login form asks for. The
-- model is the text of the code: `refresh` without its drawing, `validate`, and the random numbers.
-- A value of `Math.random()` is given by its numerator over 2^53, and its products are exact.
pub mod Codes
pub mod Picture
pub mod Created
use polarcloud.Prelude.{
  ℕ, zero, suc, ◌+◌, ◌-◌, ◌*◌, ◌/◌, Bool, ◌&&◌, List, [], ◌∷◌, ◌++◌, map, Text, js, eq_text, length,
  leb, ◌==◌, if◌then◌else◌,
}
use Prim.Native.Nat.{◌^◌}
use polarcloud.Strings.{split}

pub record Options : Type 0 where
  pub kind : Text
  pub code : Text
  pub num_arr : List Text
  pub letter_arr : List Text

-- `getAllLetter`
unfoldable pub get_all_letter : List Text
get_all_letter =
    split
      (js
        "a,b,c,d,e,f,g,h,i,j,k,l,m,n,o,p,q,r,s,t,u,v,w,x,y,z,A,B,C,D,E,F,G,H,I,J,K,L,M,N,O,P,Q,R,S,T,U,V,W,X,Y,Z")
      b','

-- The options of the constructor that the code depends on, for the type that the page gives.
unfoldable pub new_options : Text → Options
new_options kind = record {
  kind = kind;
  code = [];
  num_arr = split (js "0,1,2,3,4,5,6,7,8,9") b',';
  letter_arr = get_all_letter;
}

-- `randomNum(min, max)` for natural numbers with `min` at most `max`.
pub random_num : ℕ → ℕ → ℕ → ℕ
random_num random min max = random * (max - min) / 2 ^ 53 + min

-- `txtArr[i]`; an index behind the end gives the text "undefined".
pub text_at : List Text → ℕ → Text
text_at [] i = js "undefined"
text_at (t ∷ ts) zero = t
text_at (t ∷ ts) (suc i) = text_at ts i

-- `txtArr`
unfoldable pub alphabet : Options → List Text
alphabet o =
    if eq_text o.kind (js "blend")
    then o.num_arr ++ o.letter_arr
    else if eq_text o.kind (js "number")
    then o.num_arr
    else o.letter_arr

-- The characters that one refresh draws, by its random numbers, four in the source.
pub drawn : Options → List ℕ → Text
drawn o [] = []
drawn o (r ∷ rs) = text_at (alphabet o) (random_num r 0 (length (alphabet o))) ++ drawn o rs

-- `this.options.code += txt` in the loop.
pub refresh : List ℕ → Options → Options
refresh randoms o = record o { code = o.code ++ drawn o randoms }

-- One unit of `toLowerCase`: the capitals of ASCII, and the one other unit that becomes a letter of
-- ASCII (the Kelvin sign). Every other unit stays outside ASCII, so the comparison does not see it.
unfoldable pub lower : ℕ → ℕ
lower c = if leb b'A' c && leb c b'Z' then c + 32 else if c == 0x212a then b'k' else c

-- `validate`
pub validate : Text → Options → Bool
validate code o = eq_text (map lower code) (map lower o.code)
