-- ===== src/Drive/Anonymous/Shown.antt =====
-- What the anonymous listing shows.
use mathlib.Core.Path.{ap₂}
use polarcloud.Prelude.{
  ◌≡◌, refl, ap, sym, ◌∙◌, inl, inr, Bool, true, false, List, [], ◌∷◌, ◌++◌, map, append-nil,
  append_assoc, none, Text, js, eq_text, Bool-cases, if◌then◌else◌,
}
use polarcloud.Browser.Values.{str, loosely_is}
use polarcloud.Browser.{query}
use polarcloud.Browser.View.{children, shown}
use polarcloud.Page.{Page, StoreFile, on_store_files}
use polarcloud.Drive.Row.{item_row, display_item_file}
use polarcloud.Drive.Listing.Shown.{entries}
use polarcloud.Drive.Anonymous.{
  get_anonymous_file_list, anonymous_item, is_listed, display_store_files, on_store_files_answer,
}

-- The files of a kind, or all of them for "*".
pub listed : Text → List StoreFile → List StoreFile
listed kind [] = []
listed kind (f ∷ fs) = let rest = listed kind fs in if is_listed kind f then f ∷ rest else rest

abbrev pub file_row : Bool → StoreFile → Text
file_row iswindows f = item_row iswindows none (anonymous_item f)

-- One round of the loop.
display_listed :
    (kind : Text) (f : StoreFile) (fs : List StoreFile) (p : Page) (b : Bool)
    → is_listed kind f ≡ b
    → display_store_files kind (f ∷ fs) p
      ≡ display_store_files kind fs (if b then display_item_file none (anonymous_item f) p else p)
unfolding display_store_files
display_listed kind f fs p b e =
    ap
      (λ (c : Bool).
        display_store_files kind fs (if c then display_item_file none (anonymous_item f) p else p))
      e

display_store_files-children :
    (kind : Text) (fs : List StoreFile) (p : Page)
    → children "#mainTable" (display_store_files kind fs p).calls
      ≡ children "#mainTable" p.calls ++ map (file_row p.iswindows) (listed kind fs)
unfolding display_store_files children listed
display_store_files-children kind [] p = sym (append-nil _)
display_store_files-children kind (f ∷ fs) p = elim (Bool-cases (is_listed kind f)) [
  | inl found ↦
      ap (λ (q : Page). children "#mainTable" q.calls) (display_listed kind f fs p true found)
      ∙ display_store_files-children kind fs (display_item_file none (anonymous_item f) p)
      ∙ append_assoc (children "#mainTable" p.calls) _ _
      ∙ rw found
  | inr other ↦
      ap (λ (q : Page). children "#mainTable" q.calls) (display_listed kind f fs p false other)
      ∙ display_store_files-children kind fs p
      ∙ rw other
]

-- When the list of the store arrives, the table gets a row for each file of the kind that was asked
-- for, in the order of the list, behind the rows that it has; the empty kind stands for all kinds.
on_store_files_answer-children :
    (kind msg : Text) (fs : List StoreFile) (p : Page)
    → children "#mainTable" (on_store_files_answer kind (entries msg fs) p).calls
      ≡ children "#mainTable" p.calls
        ++ map (file_row p.iswindows) (listed (if eq_text kind [] then js "*" else kind) fs)
unfolding on_store_files_answer
on_store_files_answer-children kind msg fs p =
    display_store_files-children (if eq_text kind [] then js "*" else kind) fs p

display_store_files-iswindows :
    (kind : Text) (fs : List StoreFile) (p : Page)
    → (display_store_files kind fs p).iswindows ≡ p.iswindows
unfolding display_store_files
display_store_files-iswindows kind [] p = refl
display_store_files-iswindows kind (f ∷ fs) p = elim (Bool-cases (is_listed kind f)) [
  | inl found ↦
      ap (λ (q : Page). q.iswindows) (display_listed kind f fs p true found)
      ∙ display_store_files-iswindows kind fs (display_item_file none (anonymous_item f) p)
  | inr other ↦
      ap (λ (q : Page). q.iswindows) (display_listed kind f fs p false other)
      ∙ display_store_files-iswindows kind fs p
]

on_store_files_answer-iswindows :
    (kind msg : Text) (fs : List StoreFile) (p : Page)
    → (on_store_files_answer kind (entries msg fs) p).iswindows ≡ p.iswindows
unfolding on_store_files_answer
on_store_files_answer-iswindows kind msg fs p = display_store_files-iswindows _ fs p

-- The table is emptied when a list is asked for, not when it arrives: of two lists, of kinds that are
-- not empty, that arrive one after the other in an empty table, both stay, whichever was asked for
-- last.
on_store_files_answer_twice :
    (k1 k2 msg : Text) (fs gs : List StoreFile) (p : Page)
    → eq_text k1 [] ≡ false
    → eq_text k2 [] ≡ false
    → children "#mainTable" p.calls ≡ []
    → children "#mainTable"
        (on_store_files_answer k2
          (entries msg gs)
          (on_store_files_answer k1 (entries msg fs) p)).calls
      ≡ map (file_row p.iswindows) (listed k1 fs) ++ map (file_row p.iswindows) (listed k2 gs)
on_store_files_answer_twice k1 k2 msg fs gs p h1 h2 e =
    on_store_files_answer-children k2 msg gs (on_store_files_answer k1 (entries msg fs) p)
    ∙ ap₂ (λ (a b : List Text). a ++ b) (on_store_files_answer-children k1 msg fs p ∙ rw (e, h1))
        (ap₂ (λ (w : Bool) (t : Text). map (file_row w) (listed t gs))
          (on_store_files_answer-iswindows k1 msg fs p) (rw h2))

-- The anonymous listing asks the node's own store, with no session and for the kind that is given; the
-- page is anonymous from then on, its table is empty, and the buttons for directories, for deleting
-- and the bin are hidden.
get_anonymous_file_list_lem :
    (kind : Text) (p q : Page) (b : Bool)
    → q ≡ get_anonymous_file_list kind p
    → (q.pending
        ≡ record {
          url = js "/store/getlist";
          verb = js "GET";
          session = none;
          payload = query (("kind", str kind) ∷ []);
          callback = on_store_files kind;
        }
          ∷ p.pending)
      × (loosely_is q.loginuser 0 ≡ true)
      × (children "#mainTable" q.calls ≡ [])
      × (shown "#newdirBT" q.calls b ≡ false)
      × (shown "#deleteBT" q.calls b ≡ false)
      × (shown "#rubbishUI" q.calls b ≡ false)
unfolding get_anonymous_file_list children shown loosely_is
get_anonymous_file_list_lem kind p q b e = rw e (refl, refl, refl, refl, refl, refl)
