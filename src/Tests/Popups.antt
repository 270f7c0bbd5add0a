-- ===== src/Tests/Popups.antt =====
-- The layers over a page, and the constructor of the picture with a code.
use Prim.Native.Nat.{◌^◌}
use polarcloud.Prelude.{
  ℕ, ◌≡◌, ◌↔◌, refl, Bool, true, false, List, [], ◌∷◌, map, Option, none, some, Text, js, eq_text,
  arith, if◌then◌else◌,
}
use polarcloud.Layers.{Layer, Popups, Event, on_button, on_trigger, on_overlay, on_key, handle_all}
use polarcloud.Layers.Shown.{find_layer, map_found, after_events, find_layer-handle_all}
use polarcloud.Verify.{Options, new_options, alphabet, drawn, lower, validate}
use polarcloud.Verify.Created.{
  GVerify, given, can_draw, created, clicked, created-validate, clicked-validate,
}

abbrev layers : List Layer
layers =
    record { id = js "a"; is_overlay = true; is_shown = false; wrap_height = 90; shift = none }
    ∷ record { id = js "b"; is_overlay = true; is_shown = true; wrap_height = 40; shift = none }
    ∷ []

abbrev popups : Popups
popups = record { send_to_input = []; current_account_ui = []; jine_jiaoyifei = 0; layers = layers }

abbrev events : List Event
events = on_trigger (js "a") ∷ on_overlay false ∷ on_key 27 ∷ on_trigger (js "b") ∷ on_button ∷ []

find_layer-handle_all_example :
    find_layer (js "a") (handle_all events popups).layers
    ≡ map_found (after_events (js "a") events) (find_layer (js "a") popups.layers)
find_layer-handle_all_example = find_layer-handle_all (js "a") events popups

-- web-login.html
abbrev login_options : List (Text × Text)
login_options = (js "id", js "v_container") ∷ (js "type", js "number") ∷ []

abbrev container : Text → Option (ℕ × ℕ)
container id = if eq_text id (js "v_container") then some (120, 0) else none

-- An id that an element of the page has already, without a context.
abbrev earlier : Text → Option Bool
earlier id = if eq_text id (js "v_container") then some false else none

created-validate_example :
    (v : GVerify) × (created container earlier (2 ^ 52 ∷ 0 ∷ []) (given login_options) ≡ some v)
    × ((validate (js "50") v.options ≡ true)
        ↔ (map lower (js "50") ≡ map lower (drawn (new_options (js "number")) (2 ^ 52 ∷ 0 ∷ []))))
unfolding js eq_text can_draw
created-validate_example =
    created-validate container earlier (2 ^ 52 ∷ 0 ∷ []) login_options (120, 0) (js "50") refl refl
      refl

abbrev digits : Options
digits = record {
  kind = js "number";
  code = js "2";
  num_arr = js "0" ∷ js "1" ∷ js "2" ∷ [];
  letter_arr = [];
}

abbrev verifier : GVerify
verifier = record {
  options = digits;
  canvas = record { id = []; width = 100; height = 30; cursor = []; inner_html = [] };
}

clicked-validate_example :
    validate (js "1") (clicked ((2 ^ 52 ∷ []) ∷ (0 ∷ []) ∷ []) verifier).options ≡ false
unfolding js alphabet eq_text
clicked-validate_example =
    clicked-validate verifier (2 ^ 52 ∷ []) ((0 ∷ []) ∷ []) (js "1") (omega arith) (omega arith)
      (omega arith) (omega arith)
