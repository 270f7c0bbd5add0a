-- ===== src/Drive/Row.antt =====
-- `displayItemFile` of file-index.js: the row of a table that shows one entry.
pub mod Buttons
use polarcloud.Prelude.{
  ℕ, Bool, false, List, [], ◌∷◌, Option, none, some, Text, js, cat, eq_text, ◌==◌, if◌then◌else◌,
}
use polarcloud.Browser.{append}
use polarcloud.Browser.Values.{text_of}
use polarcloud.Files.{size_text}
use polarcloud.Page.{Item, Page, call}

-- The local variables of the function once its branches are done.
pub record Cells : Type 0 where
  pub type_img : Text
  pub href : Text
  pub size : Text
  pub control : Text
  pub action : Text

-- `controlBt` and `actionStr` at first, and for an entry of the bin.
save_button : Item → Text
save_button item = cat (
    js "<a target=\"_blank\" download=\""
    ∷ item.title
    ∷ js "\" href=\"/store/"
    ∷ item.hash_code
    ∷ js
        "\"\" style=\"padding-top:15px;\" class=\"am-btn am-btn-default am-btn-xs am-hide-sm-only\"><span class=\"am-icon-save\"></span> </a>"
    ∷ [])

kill_button : Item → Text
kill_button item = cat (
    js "  <button onclick=\"killItem("
    ∷ text_of item.id
    ∷ js
        ")\" class=\"am-btn am-btn-default am-btn-xs am-text-danger am-hide-sm-only\"><span class=\"am-icon-trash-o\"></span>  </button>"
    ∷ [])

reuse_button : Item → Text
reuse_button item = cat (
    js " <button  onclick=\"reuseItem("
    ∷ text_of item.id
    ∷ js
        ")\" class=\"am-btn am-btn-default am-btn-xs am-hide-sm-only\"><img src=\"assets/web/hf.png\"  style=\"width: 20px;height:22px;\" />   恢复</button>"
    ∷ [])

remove_button : Item → Text
remove_button item = cat (
    js "  <button onclick=\"killItem("
    ∷ text_of item.id
    ∷ js
        ")\" class=\"am-btn am-btn-default am-btn-xs am-text-danger am-hide-sm-only\"><img src=\"assets/web/yc.png\"  style=\"width: 20px;height:22px;\" />  彻底移除</button>"
    ∷ [])

-- `hrefStr` of a directory, and of a file, with the blanks of its case.
dir_link : Item → Text
dir_link item = cat (
    js "<a href=\"#\"  onclick=\"openThisFile('"
    ∷ text_of item.id
    ∷ js "' )\">"
    ∷ item.title
    ∷ js "</a>"
    ∷ [])

file_link : Bool → Text → Text → Item → Text
file_link iswindows before behind item =
    let blank =
      if iswindows
      then cat (js "target=\"_blank\"  download=\"" ∷ item.title ∷ js "\" " ∷ [])
      else js "target=\"_blank\"  " in
    cat (
      js " <a "
      ∷ blank
      ∷ before
      ∷ item.hash_code
      ∷ js "\" href=\"/store/"
      ∷ item.hash_code
      ∷ behind
      ∷ item.title
      ∷ js "</a>"
      ∷ [])

file_cells : Bool → Item → Text → Text → Text → Cells
unfolding save_button kill_button file_link
file_cells iswindows item img before behind = record {
  type_img = img;
  href = file_link iswindows before behind item;
  size = size_text item.size;
  control = save_button item;
  action = kill_button item;
}

-- The switch on the kind: `typeImg`, `hrefStr`, `sizeresult` and `controlBt`.
pub cells : Bool → Item → Cells
unfolding kill_button dir_link file_cells
cells iswindows item =
    if eq_text item.kind (js "pic")
    then file_cells iswindows item (js "assets/web/tp.png") (js " id=\"") (js "\"    > ")
    else if eq_text item.kind (js "video")
    then file_cells iswindows item (js "assets/web/sp.png") (js "   id=\"") (js "\"   > ")
    else if eq_text item.kind (js "doc")
    then file_cells iswindows item (js "assets/web/doc.png") (js " id=\"") (js "\"   > ")
    else if eq_text item.kind (js "other")
    then file_cells iswindows item (js "assets/web/wgx.png") (js "   id=\"") (js "\"  > ")
    else if eq_text item.kind (js "dir")
    then record {
      type_img = js "assets/web/dir.png";
      href = dir_link item;
      size = [];
      control = [];
      action = kill_button item;
    }
    else file_cells iswindows item (js "assets/web/wgx.png") (js "  id=\"") (js "\"   > ")

-- `deletitem == 1`, where the argument may be missing.
abbrev pub in_bin : Option ℕ → Bool
in_bin none = false
in_bin (some d) = d == 1

bin_cells : Option ℕ → Item → Cells → Cells
unfolding reuse_button remove_button
bin_cells del item c =
    if in_bin del then record c { control = reuse_button item; action = remove_button item } else c

-- `accountstr`
row_text : Item → Cells → Text
row_text item c = cat (
    js "   <tr>"
    ∷ js "<td><input type=\"checkbox\" placeholder=\""
    ∷ item.title
    ∷ js "\" name=\""
    ∷ item.hash_code
    ∷ js "\" value=\""
    ∷ text_of item.id
    ∷ js "\" class=\"qx\"  /></td>"
    ∷ js "<td> <img style=\" width:32px;height:32px;\" src=\""
    ∷ c.type_img
    ∷ js "\"  />&nbsp;&nbsp;"
    ∷ c.href
    ∷ js "</td>"
    ∷ js "<td>"
    ∷ c.size
    ∷ js "</td>"
    ∷ js " <td >"
    ∷ item.hash_code
    ∷ js "</td>"
    ∷ js " <td class=\"am-hide-sm-only\">"
    ∷ item.upload_time
    ∷ js "</td>"
    ∷ js " <td>"
    ∷ js "  <div class=\"am-btn-toolbar\" style=\"text-align:right;\">"
    ∷ js "    <div class=\"am-btn-group am-btn-group-xs\">"
    ∷ js "     "
    ∷ c.control
    ∷ c.action
    ∷ js ""
    ∷ js "    </div>"
    ∷ js "  </div>"
    ∷ js " </td>"
    ∷ js "</tr>"
    ∷ [])

unfoldable pub item_row : Bool → Option ℕ → Item → Text
unfolding bin_cells row_text
item_row iswindows del item = row_text item (bin_cells del item (cells iswindows item))

abbrev pub display_item_file : Option ℕ → Item → Page → Page
display_item_file del item p = call (append "#mainTable" (item_row p.iswindows del item)) p

-- `res.data.forEach(...)`
unfoldable pub display_items : Option ℕ → List Item → Page → Page
display_items del [] p = p
display_items del (i ∷ is) p = display_items del is (display_item_file del i p)
