-- ===== src/Tests/Files.antt =====
-- File names and sizes.
use polarcloud.Prelude.{◌≡◌, refl, [], ◌∷◌, js, eq_text}
use polarcloud.Strings.{substring, last_index_of, to_string, unescape}
use polarcloud.Files.{get_file_kind, get_file_ext, size_loop, size_end, size_text}
use polarcloud.Files.Grouping.{Grouped, size_text-Grouped}

ext_of_path : get_file_ext (js "C:\\fakepath\\a.b.jpg") ≡ js "jpg"
unfolding get_file_ext js substring last_index_of
ext_of_path = refl

-- The table knows "jpeg" and "PNG" and not "JPEG".
capital_jpeg : get_file_kind (js "JPEG") ≡ js "other"
unfolding get_file_kind js eq_text
capital_jpeg = refl

size_of_1234567 : size_text 1234567 ≡ js "1,234,567"
unfolding size_text js substring to_string eq_text size_loop size_end
size_of_1234567 = refl

size_of_million : size_text 1000000 ≡ js "1000,000"
unfolding size_text js substring to_string eq_text size_loop size_end
size_of_million = refl

escaped_user : unescape (js "%u4e2d%41+") ≡ 0x4e2d ∷ b'A' ∷ b'+' ∷ []
unfolding unescape js
escaped_user = refl

size_text-Grouped_example : Grouped 45001 (size_text 45001)
size_text-Grouped_example = size_text-Grouped 45001
