-- ===== src/Layers/Shown.antt =====
-- Which layers are shown after any events.
use polarcloud.Prelude.{
  ◌≡◌, refl, sym, ap, ◌∙◌, inl, inr, Bool, true, false, ◌&&◌, List, [], ◌∷◌, Option, none, some,
  Text, eq_text, eq_text_sound, eq_text_sym, ◌==◌, if◌then◌else◌, Bool-cases,
}
use polarcloud.Layers.{
  Layer, Popups, Event, on_button, on_trigger, on_overlay, on_key, on_address, on_account,
  on_amount, fill_addr_input, fill_account_addr_input, jinechange, show_layer, hide_layer, handle,
  handle_all,
}

-- The element that a search for an id finds.
abbrev pub find_layer : Text → List Layer → Option Layer
find_layer id [] = none
find_layer id (l ∷ layers) = if eq_text l.id id then some l else find_layer id layers

-- Whether an event closes the overlays, and whether it opens the layer of an id.
abbrev pub closes : Event → Bool
closes on_button = true
closes (on_trigger layerid) = false
closes (on_overlay is_target) = is_target
closes (on_key key_code) = key_code == 27
closes (on_address evt) = false
closes (on_account evt) = false
closes (on_amount value) = false

abbrev pub opens : Text → Event → Bool
opens id (on_trigger layerid) = eq_text layerid id
opens id e = false

-- What one event makes of a layer: an independent reading of it, that sees no other layer.
abbrev pub after_event : Text → Event → Layer → Layer
after_event id e l =
    if opens id e
    then record l { is_shown = true; shift = some l.wrap_height }
    else if closes e && l.is_overlay
    then record l { is_shown = false }
    else l

abbrev pub after_events : Text → List Event → Layer → Layer
after_events id [] l = l
after_events id (e ∷ es) l = after_events id es (after_event id e l)

abbrev pub map_found : (Layer → Layer) → Option Layer → Option Layer
map_found f none = none
map_found f (some l) = some (f l)

find_layer-hide_layer :
    (id : Text) (layers : List Layer)
    → find_layer id (hide_layer layers)
      ≡ map_found
          (λ l. if l.is_overlay then record l { is_shown = false } else l)
          (find_layer id layers)
unfolding hide_layer
find_layer-hide_layer id [] = refl
find_layer-hide_layer id (l ∷ layers) = elim (Bool-cases l.is_overlay) [
  | inl over ↦ elim (Bool-cases (eq_text l.id id)) [
    | inl same ↦ rw (over, same)
    | inr other ↦ rw (over, other) (find_layer-hide_layer id layers)
  ]
  | inr free ↦ elim (Bool-cases (eq_text l.id id)) [
    | inl same ↦ rw (free, same)
    | inr other ↦ rw (free, other) (find_layer-hide_layer id layers)
  ]
]

map_found_same : (o : Option Layer) → map_found (λ l. l) o ≡ o
map_found_same none = refl
map_found_same (some l) = refl

find_layer-show_layer :
    (id layerid : Text) (layers : List Layer)
    → find_layer id (show_layer layerid layers)
      ≡ map_found
          (λ l.
            if eq_text layerid id
            then record l { is_shown = true; shift = some l.wrap_height }
            else l)
          (find_layer id layers)
unfolding show_layer
find_layer-show_layer id layerid [] = refl
find_layer-show_layer id layerid (l ∷ layers) = elim (Bool-cases (eq_text l.id layerid)) [
  | inl shown ↦ elim (Bool-cases (eq_text l.id id)) [
    | inl same ↦
        let e : eq_text layerid id ≡ true =
          ap (λ (t : Text). eq_text t id) (sym (eq_text_sound l.id layerid shown)) ∙ same in
        rw (shown, same, e)
    | inr other ↦
        let e : eq_text layerid id ≡ false =
          ap (λ (t : Text). eq_text t id) (sym (eq_text_sound l.id layerid shown)) ∙ other in
        rw (shown, other, e) (sym (map_found_same (find_layer id layers)))
  ]
  | inr kept ↦ elim (Bool-cases (eq_text l.id id)) [
    | inl same ↦
        let e : eq_text layerid id ≡ false =
          eq_text_sym layerid id
          ∙ ap (λ (t : Text). eq_text t layerid) (sym (eq_text_sound l.id id same))
          ∙ kept in
        rw (kept, same, e)
    | inr other ↦ rw (kept, other) (find_layer-show_layer id layerid layers)
  ]
]

find_layer-close :
    (id : Text) (closing : Bool) (p : Popups)
    → find_layer id (if closing then record p { layers = hide_layer p.layers } else p).layers
      ≡ map_found
          (λ l. if closing && l.is_overlay then record l { is_shown = false } else l)
          (find_layer id p.layers)
find_layer-close id true p = find_layer-hide_layer id p.layers
find_layer-close id false p = sym (map_found_same (find_layer id p.layers))

-- One event, as it is seen at one layer.
find_layer-handle :
    (id : Text) (e : Event) (p : Popups)
    → find_layer id (handle e p).layers ≡ map_found (after_event id e) (find_layer id p.layers)
unfolding handle fill_addr_input fill_account_addr_input jinechange
find_layer-handle id on_button p = find_layer-hide_layer id p.layers
find_layer-handle id (on_trigger layerid) p = find_layer-show_layer id layerid p.layers
find_layer-handle id (on_overlay is_target) p = find_layer-close id is_target p
find_layer-handle id (on_key key_code) p = find_layer-close id (key_code == 27) p
find_layer-handle id (on_address evt) p = sym (map_found_same (find_layer id p.layers))
find_layer-handle id (on_account evt) p = sym (map_found_same (find_layer id p.layers))
find_layer-handle id (on_amount value) p = sym (map_found_same (find_layer id p.layers))

map_found_twice :
    (f g : Layer → Layer) (o : Option Layer)
    → map_found g (map_found f o) ≡ map_found (λ l. g (f l)) o
map_found_twice f g none = refl
map_found_twice f g (some l) = refl

-- After any events the layer of an id is what these events, read one by one, make of that layer alone:
-- its own triggers open it, and what closes overlays closes it if it is one.
pub find_layer-handle_all :
    (id : Text) (es : List Event) (p : Popups)
    → find_layer id (handle_all es p).layers
      ≡ map_found (after_events id es) (find_layer id p.layers)
find_layer-handle_all id [] p = sym (map_found_same (find_layer id p.layers))
find_layer-handle_all id (e ∷ es) p =
    find_layer-handle_all id es (handle e p)
    ∙ ap (map_found (after_events id es)) (find_layer-handle id e p)
    ∙ map_found_twice (after_event id e) (after_events id es) (find_layer id p.layers)
