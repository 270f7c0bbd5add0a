-- ===== src/Drive/Selection.antt =====
-- file-index.js: the boxes of the listing (class `qx`), the button that selects all, and the lists
-- that the batch buttons send. A box is its attribute `checked` with what the user made of it since:
-- once the user has clicked it, the browser's `.checked` no longer follows the attribute.
pub mod Lists
use polarcloud.Prelude.{
  Bool, true, false, List, [], ◌∷◌, ◌++◌, Option, none, some, Text, js, eq_text, map, if◌then◌else◌,
}
use polarcloud.Browser.{Call, click_on, alert}
use polarcloud.Page.{Page, call}

pub record Checkbox : Type 0 where
  pub attribute : Bool
  pub clicked : Option Bool
  pub name : Text
  pub placeholder : Text
  pub value : Text

-- `ck[i].checked`
abbrev pub checked : Checkbox → Bool
checked b = elim b.clicked [ none ↦ b.attribute | some c ↦ c ]

-- `quanxuan`: `setAttribute` or `removeAttribute` on every box.
pub quanxuan : Bool → List Checkbox → List Checkbox
quanxuan on [] = []
quanxuan on (b ∷ bs) = record b { attribute = on } ∷ quanxuan on bs

-- The loop of `getQuanxuanList`, with `idlist` before it.
unfoldable pub quanxuan_from : Text → List Checkbox → Text
quanxuan_from idlist [] = idlist
quanxuan_from idlist (b ∷ bs) =
    quanxuan_from
      (if checked b
        then if eq_text idlist [] then b.value else idlist ++ js "," ++ b.value
        else idlist)
      bs

unfoldable pub get_quanxuan_list : List Checkbox → Text
unfolding quanxuan_from
get_quanxuan_list boxes = quanxuan_from [] boxes

-- `getHashQuanxuanList`: the hash and the title of each checked box.
unfoldable pub get_hash_quanxuan_list : List Checkbox → List (Text × Text)
get_hash_quanxuan_list [] = []
get_hash_quanxuan_list (b ∷ bs) =
    let rest = get_hash_quanxuan_list bs in
    if checked b then (b.name, b.placeholder) ∷ rest else rest

-- `download`: a click on the link whose id is the hash.
abbrev pub download : Text → Page → Page
download hash p = call (click_on hash) p

unfoldable pub download_all : List (Text × Text) → Page → Page
download_all [] p = p
download_all ((hash, title) ∷ hs) p = download_all hs (download hash p)

unfoldable pub batch_download : List Checkbox → Page → Page
unfolding download_all get_hash_quanxuan_list
batch_download boxes p = elim (get_hash_quanxuan_list boxes) [
  | [] ↦ call (alert (js "没有选择")) p
  | h ∷ hs ↦ download_all (h ∷ hs) p
]
