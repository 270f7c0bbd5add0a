-- ===== src/Files.antt =====
-- web/static/assets/js/model/file-index.js: how a file is named, classified and measured.
-- `get_file_ext`, `get_file_kind` are `getFileExt`, `getFileKind`; `size_text` is the head of
-- `displayItemFile`, which writes a size with a comma before every three digits. Sizes and offsets
-- are natural numbers below 2^53, where `parseInt(x / 1000)` is the quotient.
pub mod Names
pub mod Grouping
use polarcloud.Prelude.{
  ℕ, zero, suc, ◌-◌, ◌/◌, Bool, true, false, ◌||◌, [], ◌++◌, Text, js, eq_text, length, ltb, ◌==◌,
  if◌then◌else◌,
}
use polarcloud.Strings.{last_index_of, next, slice, substring, to_string}

-- The switch of `getFileKind`: each group of cases assigns one kind.
unfoldable pub get_file_kind : Text → Text
get_file_kind ext =
    if eq_text ext (js "jpg")
      || eq_text ext (js "png")
      || eq_text ext (js "PNG")
      || eq_text ext (js "JPG")
      || eq_text ext (js "GIF")
      || eq_text ext (js "jpeg")
      || eq_text ext (js "gif")
    then js "pic"
    else if eq_text ext (js "avi") || eq_text ext (js "mpeg")
    then js "video"
    else if eq_text ext (js "doc")
        || eq_text ext (js "docx")
        || eq_text ext (js "pdf")
        || eq_text ext (js "xls")
    then js "doc"
    else js "other"

-- The name behind the last backslash.
unfoldable pub base_name : Text → Text
base_name path = slice path (next (last_index_of path b'\\'))

unfoldable pub get_file_ext : Text → Text
unfolding base_name
get_file_ext path =
    let name = base_name path in substring name (next (last_index_of name b'.')) (length name)

-- `while (itemsize > 1000)`: what is left of `itemsize`, and `sizeresult`.
unfoldable pub size_loop : ℕ → ℕ → Text → ℕ × Text
size_loop zero n r = (n, r)
size_loop (suc f) n r =
    let s = to_string n in
    let last = substring s (length s - 3) (length s) in
    let rest = size_loop f (n / 1000) (if eq_text r [] then last else last ++ js "," ++ r) in
    if ltb 1000 n then rest else (n, r)

-- The branches behind the loop.
unfoldable pub size_end : ℕ → Text → Text
size_end n r =
    if n == 0 then js "0" else if eq_text r [] then to_string n else to_string n ++ js "," ++ r

unfoldable pub size_text : ℕ → Text
size_text n = let (m, r) = size_loop n n [] in size_end m r
