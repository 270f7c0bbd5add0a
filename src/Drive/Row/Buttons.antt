-- ===== src/Drive/Row/Buttons.antt =====
-- The buttons in the row of an entry.
use polarcloud.Prelude.{
  ℕ, ◌≡◌, refl, ap, inl, inr, Bool, false, List, [], ◌∷◌, map, some, Text, js, eq_text,
  eq_text_sound, ◌==◌, arith, Bool-cases, if◌then◌else◌,
}
use polarcloud.Page.{Item}
use polarcloud.Drive.Row.{
  Cells, save_button, kill_button, reuse_button, remove_button, cells, file_cells, bin_cells,
  row_text, item_row,
}

abbrev is_directory : Item → Bool
is_directory item = eq_text item.kind (js "dir")

-- The buttons by the listing and the kind of the entry, in the two places of a row.
first_button : Bool → Item → Text
first_button bin item =
    if bin then reuse_button item else if is_directory item then [] else save_button item

second_button : Bool → Item → Text
second_button bin item = if bin then remove_button item else kill_button item

-- The row of an entry with these buttons.
pub row_of : Bool → Bool → Item → Text
row_of iswindows bin item = row_text item (record (cells iswindows item) {
  control = first_button bin item;
  action = second_button bin item;
})

-- The switch on the kind gives the buttons of the files, and no link that saves a directory.
cells_buttons :
    (iswindows : Bool) (item : Item)
    → ((cells iswindows item).control ≡ first_button false item)
      × ((cells iswindows item).action ≡ second_button false item)
unfolding cells file_cells first_button second_button eq_text js
cells_buttons iswindows item = elim (Bool-cases (is_directory item)) [
  | inl dir ↦ let e = eq_text_sound item.kind (js "dir") dir in rw e (refl, refl)
  | inr file ↦ ground (arith, file)
]

with_buttons :
    (c : Cells) (a b : Text)
    → c.control ≡ a
    → c.action ≡ b
    → c ≡ record c { control = a; action = b }
with_buttons c a b e f = rw⁻¹ (e, f) refl

item_row-row_of :
    (iswindows : Bool) (del : ℕ) (item : Item)
    → item_row iswindows (some del) item ≡ row_of iswindows (del == 1) item
unfolding item_row row_of bin_cells first_button second_button
item_row-row_of iswindows del item = elim (Bool-cases (del == 1)) [
  | inl bin ↦ rw bin refl
  | inr files ↦
      let (e, f) = cells_buttons iswindows item in
      rw files (ap (row_text item) (with_buttons (cells iswindows item) _ _ e f))
]

-- The rows of a listing have the buttons of its flag.
pub item_rows :
    (iswindows : Bool) (del : ℕ) (is : List Item)
    → map (item_row iswindows (some del)) is ≡ map (row_of iswindows (del == 1)) is
item_rows iswindows del [] = refl
item_rows iswindows del (i ∷ is) = rw (item_row-row_of iswindows del i, item_rows iswindows del is)
