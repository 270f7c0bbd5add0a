-- ===== src/Prelude/Texts.antt =====
-- The texts of the program: a JavaScript string is the list of its UTF-16 units. Every literal of
-- the program lies in the basic plane, where a unit is a code point.
use Prim.Native.Nat.{ℕ}
use Prim.Native.Char.{code}
use Prim.Native.String.{String}
use mathlib.Core.Path.{◌≡◌, refl}
use mathlib.Core.Logic.{◌↔◌, ◌≢◌}
use mathlib.Core.Bool.{Bool, true, false, ◌&&◌}
use mathlib.Core.List.{List, [], ◌∷◌, ◌++◌}
use native.Mathlib.Omega.{arith}
use polarcloud.Prelude.Tests.{◌==◌}
use polarcloud.Prelude.Lists.{All}

abbrev pub Text : Type 0
Text = List ℕ

-- A literal. It is shut: a proof that reads its characters names it on its `unfolding` line.
unfoldable pub js : String → Text
js String.[] = []
js (String.◌∷◌ c s) = code c ∷ js s

-- `s === t`
unfoldable pub eq_text : Text → Text → Bool
eq_text [] [] = true
eq_text [] (_ ∷ _) = false
eq_text (_ ∷ _) [] = false
eq_text (c ∷ s) (d ∷ t) = c == d && eq_text s t

pub eq_text_sound : (s t : Text) → eq_text s t ≡ true → s ≡ t
unfolding eq_text
eq_text_sound [] [] h = refl
eq_text_sound [] (d ∷ t) h = ground arith
eq_text_sound (c ∷ s) [] h = ground arith
eq_text_sound (c ∷ s) (d ∷ t) h = ground (arith, eq_text_sound s t)

pub eq_text_refl : (s : Text) → eq_text s s ≡ true
unfolding eq_text
eq_text_refl [] = refl
eq_text_refl (c ∷ s) = ground (arith, eq_text_refl s)

pub eq_text_sym : (s t : Text) → eq_text s t ≡ eq_text t s
unfolding eq_text
eq_text_sym [] [] = refl
eq_text_sym [] (d ∷ t) = refl
eq_text_sym (c ∷ s) [] = refl
eq_text_sym (c ∷ s) (d ∷ t) = ground (arith, eq_text_sym s t)

pub eq_text_iff : (s t : Text) → (eq_text s t ≡ true) ↔ (s ≡ t)
eq_text_iff s t = (eq_text_sound s t, λ e. ground (arith, eq_text_refl s))

-- The unit does not occur in the text.
abbrev pub Lacks : ℕ → Text → Type 0
Lacks c = All (λ d. d ≢ c)

-- A chain of `+` on texts.
unfoldable pub cat : List Text → Text
cat [] = []
cat (t ∷ ts) = t ++ cat ts
