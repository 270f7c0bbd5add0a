-- ===== src/Verify/Created.antt =====
-- gVerify.js: the constructor, `_init` and the clicks on the canvas. `this.options` is an object whose
-- properties are texts; `numArr` and `letterArr` are written after the given options. A container is
-- its `offsetWidth` and `offsetHeight`; what draws on the canvas is `Verify.Picture`.
use polarcloud.Prelude.{
  ℕ, ◌≡◌, ◌↔◌, refl, ap, ◌∙◌, inl, inr, Bool, true, false, List, [], ◌∷◌, map, Option, none, some,
  Text, js, eq_text, eq_text_sound, Bool-cases, if◌then◌else◌, length, ◌+◌, ◌<◌, ◌≤◌, length-append,
  arith, All,
}
use Prim.Native.Nat.{◌^◌}
use polarcloud.Table.{lookup, put, lookup-put, lookup-put_other}
use polarcloud.Verify.{Options, new_options, alphabet, drawn, refresh, lower, validate}
use polarcloud.Verify.Codes.{validate-refresh, length-drawn, validate-length}
use polarcloud.Verify.Picture.{canvas_width, canvas_height}

-- What the page gives the constructor: an object, or anything else, which is taken for the id.
pub data Argument : Type 0 where
  given : List (Text × Text) → Argument
  container_id : Text → Argument

-- The first value of `this.options`.
unfoldable pub default_options : List (Text × Text)
default_options =
    (js "id", [])
    ∷ (js "canvasId", js "verifyCanvas")
    ∷ (js "width", js "100")
    ∷ (js "height", js "30")
    ∷ (js "type", js "blend")
    ∷ (js "code", [])
    ∷ []

-- `for(var i in options) this.options[i] = options[i]`
unfoldable pub copy_options : List (Text × Text) → List (Text × Text) → List (Text × Text)
copy_options [] table = table
copy_options ((key, value) ∷ rest) table = copy_options rest (put key value table)

unfoldable pub merged : Argument → List (Text × Text)
merged (given options) = copy_options options default_options
merged (container_id id) = put (js "id") id default_options

-- A property of the options.
abbrev pub text_of : Option Text → Text
text_of none = js "undefined"
text_of (some t) = t

unfoldable pub option_of : Text → Argument → Text
option_of key argument = text_of (lookup key (merged argument))

-- The canvas that `_init` adds to the container.
pub record Canvas : Type 0 where
  pub id : Text
  pub width : ℕ
  pub height : ℕ
  pub cursor : Text
  pub inner_html : Text

pub record GVerify : Type 0 where
  pub options : Options
  pub canvas : Canvas

-- `_init`, in a container of that size.
unfoldable pub init_canvas : Argument → ℕ → ℕ → Canvas
unfolding canvas_width canvas_height
init_canvas argument offset_width offset_height = record {
  id = option_of (js "canvasId") argument;
  width = canvas_width offset_width;
  height = canvas_height offset_height;
  cursor = js "pointer";
  inner_html = js "您的浏览器版本不支持canvas";
}

-- The options that the code depends on.
unfoldable pub code_options : Argument → Options
code_options argument = record (new_options (option_of (js "type") argument)) {
  code = option_of (js "code") argument;
}

-- Whether `refresh` can draw: `getElementById` finds the element of the canvas id that stands first, the
-- new canvas or one before it, of which it is given whether it has a `getContext`; no element has the
-- empty id. Without a context the first assignment to it throws.
unfoldable pub can_draw : (Text → Option Bool) → Text → Bool
can_draw earlier id =
    if eq_text id []
    then false
    else elim (earlier id) [ none ↦ true | some has_context ↦ has_context ]

-- `new GVerify(argument)`: a document without the container gives `null`, whose `offsetWidth` throws.
unfoldable pub created :
    (Text → Option (ℕ × ℕ)) → (Text → Option Bool) → List ℕ → Argument → Option GVerify
created container earlier randoms argument = elim (container (option_of (js "id") argument)) [
  | none ↦ none
  | some (offset_width, offset_height) ↦
      if can_draw earlier (option_of (js "canvasId") argument)
      then some (record {
        options = refresh randoms (code_options argument);
        canvas = init_canvas argument offset_width offset_height;
      })
      else none
]

-- `canvas.onclick`
unfoldable pub on_click : List ℕ → GVerify → GVerify
on_click randoms v = record v { options = refresh randoms v.options }

-- Several clicks, with the random numbers of each.
abbrev pub clicked : List (List ℕ) → GVerify → GVerify
clicked [] v = v
clicked (randoms ∷ rest) v = clicked rest (on_click randoms v)

-- How many random numbers several clicks take.
abbrev pub total_length : List (List ℕ) → ℕ
total_length [] = 0
total_length (randoms ∷ rest) = length randoms + total_length rest

abbrev pub or_else : Option Text → Option Text → Option Text
or_else none other = other
or_else (some t) other = some t

-- The last value that a list of options gives a key.
abbrev pub last_value : Text → List (Text × Text) → Option Text
last_value key [] = none
last_value key ((k, value) ∷ rest) =
    or_else (last_value key rest) (if eq_text k key then some value else none)

lookup-put_overridden :
    (key k value : Text) (table : List (Text × Text)) (later : Option Text)
    → or_else later (lookup key (put k value table))
      ≡ or_else (or_else later (if eq_text k key then some value else none)) (lookup key table)
lookup-put_overridden key k value table (some t) = refl
lookup-put_overridden key k value table none = elim (Bool-cases (eq_text k key)) [
  | inl same ↦ rw (same, eq_text_sound k key same) (lookup-put key value table)
  | inr other ↦ rw other (lookup-put_other key k value table other)
]

-- The merged options have the given value of a key, and else the default.
pub lookup-copy_options :
    (key : Text) (options table : List (Text × Text))
    → lookup key (copy_options options table) ≡ or_else (last_value key options) (lookup key table)
unfolding copy_options
lookup-copy_options key [] table = refl
lookup-copy_options key ((k, value) ∷ rest) table =
    lookup-copy_options key rest (put k value table)
    ∙ lookup-put_overridden key k value table (last_value key rest)

-- What a list of options gives a key, and else the default.
abbrev pub value_or : Text → Text → List (Text × Text) → Text
value_or key default options = text_of (or_else (last_value key options) (some default))

-- Of the merged options, that is their property.
option_of-value_or :
    (key default : Text) (options : List (Text × Text))
    → lookup key default_options ≡ some default
    → option_of key (given options) ≡ value_or key default options
unfolding option_of merged
option_of-value_or key default options e =
    ap text_of (lookup-copy_options key options default_options)
    ∙ ap (λ (o : Option Text). text_of (or_else (last_value key options) o)) e

-- Options that give no code leave those of their type, with an empty code.
code_options_fresh :
    (options : List (Text × Text))
    → last_value (js "code") options ≡ none
    → code_options (given options) ≡ new_options (value_or (js "type") (js "blend") options)
unfolding code_options new_options default_options js lookup eq_text
code_options_fresh options absent =
    let code : option_of (js "code") (given options) ≡ [] =
      option_of-value_or (js "code") [] options refl
      ∙ ap (λ (o : Option Text). text_of (or_else o (some []))) absent in
    let kind = option_of-value_or (js "type") (js "blend") options refl in
    ap (λ (t : Text). record (new_options (option_of (js "type") (given options))) { code = t })
      code
    ∙ ap new_options kind

new_code : (kind : Text) → (new_options kind).code ≡ []
unfolding new_options
new_code kind = refl

created_runs :
    (container : Text → Option (ℕ × ℕ)) (earlier : Text → Option Bool) (randoms : List ℕ)
    (argument : Argument) (width height : ℕ)
    → container (option_of (js "id") argument) ≡ some (width, height)
    → can_draw earlier (option_of (js "canvasId") argument) ≡ true
    → created container earlier randoms argument
      ≡ some (record {
        options = refresh randoms (code_options argument);
        canvas = init_canvas argument width height;
      })
unfolding created
created_runs container earlier randoms argument width height e f = rw (e, f, created) refl

-- Once a page has the container that the options name, the canvas id is not empty and of no earlier
-- element without a context, and the options give no code, the constructor succeeds, and `validate`
-- accepts exactly what agrees, up to the case of the letters, with the characters drawn from the
-- alphabet of the type that the options give, last if several times, and else of "blend". The id is
-- else empty and the canvas id "verifyCanvas".
pub created-validate :
    (container : Text → Option (ℕ × ℕ)) (earlier : Text → Option Bool) (randoms : List ℕ)
    (options : List (Text × Text)) (size : ℕ × ℕ) (s : Text)
    → last_value (js "code") options ≡ none
    → container (value_or (js "id") [] options) ≡ some size
    → can_draw earlier (value_or (js "canvasId") (js "verifyCanvas") options) ≡ true
    → (v : GVerify) × (created container earlier randoms (given options) ≡ some v)
      × ((validate s v.options ≡ true) ↔ (
          map lower s
          ≡ map lower (drawn (new_options (value_or (js "type") (js "blend") options)) randoms)))
unfolding default_options js lookup eq_text
created-validate container earlier randoms options (width, height) s absent found drawable =
    let start : Options = new_options (value_or (js "type") (js "blend") options) in
    (
      record {
        options = refresh randoms (code_options (given options));
        canvas = init_canvas (given options) width height;
      },
      created_runs container earlier randoms (given options) width height
          (ap container (option_of-value_or (js "id") [] options refl) ∙ found)
          (ap (can_draw earlier)
              (option_of-value_or (js "canvasId") (js "verifyCanvas") options refl)
            ∙ drawable),
      rw (code_options_fresh options absent) (validate-refresh start randoms s (new_code _)),
    )

-- Whether every character of the alphabet has length one, and there is one.
abbrev pub IsAlphabet : Options → Type 0
IsAlphabet o = All (λ t. length t ≡ 1) (alphabet o) × (0 < length (alphabet o))

-- The random numbers of several clicks.
abbrev pub AreRandom : List (List ℕ) → Type 0
AreRandom = All (All (λ r. r < 2 ^ 53))

-- Every click adds to the code, which never gets shorter.
length-clicked :
    (clicks : List (List ℕ)) (v : GVerify)
    → IsAlphabet v.options
    → AreRandom clicks
    → length (clicked clicks v).options.code ≡ length v.options.code + total_length clicks
unfolding on_click refresh alphabet
length-clicked [] v h r = omega arith
length-clicked (randoms ∷ rest) v h (a, r) = omega (
  arith,
  length-clicked rest (on_click randoms v) h r,
  length-append {0} v.options.code (drawn v.options randoms),
  length-drawn v.options randoms h.0 h.1 a,
)

-- A click on the canvas does not replace the code but adds to it: after one click or more, no text that
-- is at most as long as the code before them is accepted, whatever the new picture shows.
pub clicked-validate :
    (v : GVerify) (click : List ℕ) (rest : List (List ℕ)) (s : Text)
    → IsAlphabet v.options
    → AreRandom (click ∷ rest)
    → 0 < length click
    → length s ≤ length v.options.code
    → validate s (clicked (click ∷ rest) v).options ≡ false
clicked-validate v click rest s h r some_random short =
    validate-length s (clicked (click ∷ rest) v).options
      (omega (arith, length-clicked (click ∷ rest) v h r))
