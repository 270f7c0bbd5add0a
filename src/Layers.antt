-- ===== src/Layers.antt =====
-- web/static/assets/js/model/popmodel.js: the layers that pop up over a page, and the inputs that it
-- fills. A layer is an element with an id, which `.hw-overlay` may select; fading is taken to its end.
pub mod Shown
use polarcloud.Prelude.{
  ℕ, ◌*◌, Bool, true, false, List, [], ◌∷◌, Option, none, some, Text, eq_text, ◌==◌, if◌then◌else◌,
}

pub record Layer : Type 0 where
  pub id : Text
  pub is_overlay : Bool
  pub is_shown : Bool
  pub wrap_height : ℕ
  pub shift : Option ℕ

-- The inputs `sendToInput` and `currentAccountUI`, the fee shown in units of 10^-7, and the layers.
pub record Popups : Type 0 where
  pub send_to_input : Text
  pub current_account_ui : Text
  pub jine_jiaoyifei : ℕ
  pub layers : List Layer

-- `fillAddrInput`, `fillAccountAddrInput`, `jinechange` for an amount in whole units
unfoldable pub fill_addr_input : Text → Popups → Popups
fill_addr_input evt p = record p { send_to_input = evt }

unfoldable pub fill_account_addr_input : Text → Popups → Popups
fill_account_addr_input evt p = record p { current_account_ui = evt }

unfoldable pub jinechange : ℕ → Popups → Popups
jinechange value p = record p { jine_jiaoyifei = value * 2 }

-- `showLayer(id)`: the first element of that id fades in, and its wrap moves up by half its height;
-- `shift` counts the halves.
unfoldable pub show_layer : Text → List Layer → List Layer
show_layer id [] = []
show_layer id (l ∷ layers) =
    let rest = show_layer id layers in
    if eq_text l.id id
    then (record l { is_shown = true; shift = some l.wrap_height }) ∷ layers
    else l ∷ rest

-- `hideLayer()`
unfoldable pub hide_layer : List Layer → List Layer
hide_layer [] = []
hide_layer (l ∷ layers) =
    (if l.is_overlay then record l { is_shown = false } else l) ∷ hide_layer layers

-- What the user does: a click on a button of a layer, on a trigger with its `data-show-layer`, on an
-- overlay or inside of it (`event.target == this` or not), or a key.
pub data Event : Type 0 where
  on_button : Event
  on_trigger : Text → Event
  on_overlay : Bool → Event
  on_key : ℕ → Event
  on_address on_account : Text → Event
  on_amount : ℕ → Event

-- The handlers that the document gets when it is ready, and those of the page's inputs.
unfoldable pub handle : Event → Popups → Popups
handle on_button p = record p { layers = hide_layer p.layers }
handle (on_trigger layerid) p = record p { layers = show_layer layerid p.layers }
handle (on_overlay is_target) p = if is_target then record p { layers = hide_layer p.layers } else p
handle (on_key key_code) p = if key_code == 27 then record p { layers = hide_layer p.layers } else p
handle (on_address evt) p = fill_addr_input evt p
handle (on_account evt) p = fill_account_addr_input evt p
handle (on_amount value) p = jinechange value p

-- Several events, in their order.
abbrev pub handle_all : List Event → Popups → Popups
handle_all [] p = p
handle_all (e ∷ es) p = handle_all es (handle e p)
