-- ===== src/Drive/Listing/Shown.antt =====
-- What the page shows and keeps when a listing arrives.
use Prim.Native.String.{String}
use polarcloud.Prelude.{
  ℕ, ◌≡◌, ◌≢◌, refl, ap, sym, ◌∙◌, inl, inr, Bool, not, List, [], ◌∷◌, ◌++◌, map, append-nil,
  append_assoc, Option, none, some, pos, Text, js, arith, Bool-cases, eq_text, eq_text_sound, ◌==◌,
  if◌then◌else◌,
}
use polarcloud.Browser.{query, href, show, hide}
use polarcloud.Browser.Values.{Value, num, str, not_positive, loosely_is_text, text_of}
use polarcloud.Browser.View.{children, shown, text_in}
use polarcloud.Page.{Item, Page, Answer, Request, call_all, on_files, on_parent, session_of}
use polarcloud.Drive.Row.{item_row, display_items}
use polarcloud.Drive.Row.Buttons.{row_of, item_rows}
use polarcloud.Drive.Listing.{
  request_files, listing_buttons, get_file_list, on_files_answer, on_parent_answer, back_parent_dir,
}

-- The loop over the entries appends a row for each, in order, and touches nothing else.
pub display_items-children :
    (del : Option ℕ) (is : List Item) (p : Page)
    → children "#mainTable" (display_items del is p).calls
      ≡ children "#mainTable" p.calls ++ map (item_row p.iswindows del) is
unfolding display_items children
display_items-children del [] p = sym (append-nil _)
display_items-children del (i ∷ is) p =
    display_items-children del is _ ∙ append_assoc (children "#mainTable" p.calls) _ _

pub display_items-text_in :
    (e : String) (del : Option ℕ) (is : List Item) (p : Page)
    → text_in e (display_items del is p).calls ≡ text_in e p.calls
unfolding display_items text_in
display_items-text_in e del [] p = refl
display_items-text_in e del (i ∷ is) p = display_items-text_in e del is _

-- What a page keeps besides its calls.
pub display_items-state :
    (del : Option ℕ) (is : List Item) (p : Page)
    → display_items del is p ≡ record p { calls = (display_items del is p).calls }
unfolding display_items
display_items-state del [] p = refl
display_items-state del (i ∷ is) p = display_items-state del is _

-- The server's answer with the entries of a listing.
abbrev pub entries : {A : Type 0} → Text → List A → Answer (List A)
entries msg is = record { status = 200; msg = msg; body = some is }

-- When a listing arrives, whatever the page shows then: the table shows exactly the rows of its
-- entries, in order. The row of an entry has the buttons for restoring and for removing for good if the
-- flag of the request is 1; otherwise it has the button that deletes, and, if the entry is no directory,
-- the link that saves. The globals take the page, the kind, the flag and the directory of the request
-- that is answered. Nothing is requested, and the login stays.
pub on_files_answer-entries :
    (pagenum : ℕ) (kind : Text) (del : ℕ) (parent : Value) (msg : Text) (is : List Item)
    (p q : Page)
    → q ≡ on_files_answer pagenum kind del parent (entries msg is) p
    → (children "#mainTable" q.calls ≡ map (row_of p.iswindows (del == 1)) is)
      × (q.currentpage ≡ pagenum)
      × (q.currentkind ≡ kind)
      × (q.current_delete ≡ del)
      × (q.currentdir ≡ parent)
      × (q.pending ≡ p.pending)
      × (q.loginuser ≡ p.loginuser)
unfolding on_files_answer children text_in
on_files_answer-entries pagenum kind del parent msg is p q e = rw e (
  display_items-children (some del) is _ ∙ item_rows p.iswindows del is,
  ap (λ (x : Page). x.currentpage) (display_items-state (some del) is _),
  ap (λ (x : Page). x.currentkind) (display_items-state (some del) is _),
  ap (λ (x : Page). x.current_delete) (display_items-state (some del) is _),
  ap (λ (x : Page). x.currentdir) (display_items-state (some del) is _),
  ap (λ (x : Page). x.pending) (display_items-state (some del) is _),
  ap (λ (x : Page). x.loginuser) (display_items-state (some del) is _),
)

-- Any other status sends the user to the login page and leaves the table, the globals and the
-- requests as they are; so the test for 401 behind it is never reached.
on_files_answer-refused :
    (pagenum : ℕ) (kind : Text) (del : ℕ) (parent : Value) (res : Answer (List Item)) (p : Page)
    → res.status ≢ 200
    → on_files_answer pagenum kind del parent res p
      ≡ record p { calls = href (js "./web-login.html") ∷ p.calls }
unfolding on_files_answer
on_files_answer-refused pagenum kind del parent res p h = ground arith

get_file_list-asks :
    (pagenum : ℕ) (kind : Text) (del : ℕ) (parent : Value) (p : Page)
    → pagenum ≢ 0
    → get_file_list pagenum kind del parent p
      ≡ request_files pagenum kind del
          (if not_positive parent then num (pos 0) else parent)
          (record (call_all
            (listing_buttons del)
            (call_all (show "#userinfoBar" ∷ hide "#nimingBar" ∷ []) p)) { current_delete = del })
unfolding get_file_list
get_file_list-asks pagenum kind del parent p h = ground arith

-- The request for a listing.
abbrev pub files_request : ℕ → Text → ℕ → Value → Page → Request
files_request pagenum kind del parent p = record {
  url = p.center_url ++ js "/api/file/mine";
  verb = js "get";
  session = some (session_of p);
  payload = query (("kind", str kind) ∷ ("delete", num (pos del)) ∷ ("parentid", parent) ∷ []);
  callback = on_files pagenum kind del parent;
}

-- `getFileList` asks nothing for page 0, and leaves the flag then. For any other page it adds one
-- request, with the session of the cookie, for the kind and the flag that were given and for the
-- directory that was given, or the top directory if that is a number or text that is at most zero.
pub get_file_list-pending :
    (pagenum : ℕ) (kind : Text) (del : ℕ) (parent : Value) (p : Page)
    → ((get_file_list pagenum kind del parent p).pending ≡ (
        if pagenum == 0
        then p.pending
        else files_request pagenum kind del (if not_positive parent then num (pos 0) else parent) p
          ∷ p.pending))
      × ((get_file_list pagenum kind del parent p).current_delete
          ≡ (if pagenum == 0 then p.current_delete else del))
unfolding get_file_list
get_file_list-pending pagenum kind del parent p = elim (Bool-cases (pagenum == 0)) [
  | inl zero ↦ rw zero (refl, refl)
  | inr positive ↦ elim (Bool-cases (del == 1)) [
    | inl bin ↦ rw (positive, bin) (refl, refl)
    | inr files ↦ rw (positive, files) (refl, refl)
  ]
]

-- The buttons of a listing that was asked for: "remove for good" is shown exactly for the bin, and
-- uploading and downloading exactly for the files.
get_file_list-shown :
    (pagenum : ℕ) (kind : Text) (del : ℕ) (parent : Value) (p q : Page) (b : Bool)
    → pagenum ≢ 0
    → q ≡ get_file_list pagenum kind del parent p
    → (shown "#removeBT" q.calls b ≡ (del == 1))
      × (shown "#uploadBT" q.calls b ≡ not (del == 1))
      × (shown "#downloadBT" q.calls b ≡ not (del == 1))
      × (shown "#newdirBT" q.calls b ≡ not (del == 1))
unfolding request_files listing_buttons shown
get_file_list-shown pagenum kind del parent p q b h e = elim (Bool-cases (del == 1)) [
  | inl bin ↦ rw (e ∙ get_file_list-asks pagenum kind del parent p h, bin) (refl, refl, refl, refl)
  | inr files ↦
      rw (e ∙ get_file_list-asks pagenum kind del parent p h, files) (refl, refl, refl, refl)
]

-- Going up, unless the server answers "top", shows the entries with the buttons of files also where
-- the page lists the bin: the rows are those without the flag, whatever `currentDelete` is, and it
-- stays. The directory becomes the one of the answer.
on_parent_answer-entries :
    (msg : Text) (is : List Item) (p q : Page)
    → msg ≢ js "top"
    → q ≡ on_parent_answer (entries msg is) p
    → (children "#mainTable" q.calls ≡ map (item_row p.iswindows none) is)
      × (q.currentdir ≡ str msg)
      × (q.current_delete ≡ p.current_delete)
unfolding on_parent_answer children
on_parent_answer-entries msg is p q h e = rw e (elim (Bool-cases (eq_text msg (js "top"))) [
  | inl same ↦ absurd (h (eq_text_sound msg (js "top") same))
  | inr other ↦ rw other (
    display_items-children none is _,
    ap (λ (x : Page). x.currentdir) (display_items-state none is _),
    ap (λ (x : Page). x.current_delete) (display_items-state none is _),
  )
])

-- The request for the parent of the directory that `dir` names.
abbrev pub parent_request : Text → Page → Request
parent_request dir p = record {
  url = p.center_url ++ (js "/api/file/backParent/" ++ dir);
  verb = js "get";
  session = some (session_of p);
  payload = query (("delete", num (pos p.current_delete)) ∷ []);
  callback = on_parent;
}

back_parent_dir-asks :
    (p : Page)
    → (back_parent_dir p).pending ≡ (
        if loosely_is_text p.currentdir 0
        then p.pending
        else parent_request (text_of p.currentdir) p ∷ p.pending)
unfolding back_parent_dir
back_parent_dir-asks p = elim (Bool-cases (loosely_is_text p.currentdir 0)) [
  | inl e ↦ rw e
  | inr e ↦ rw e
]
