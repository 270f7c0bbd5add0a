-- ===== src/Drive/Trash/Requests.antt =====
-- What the buttons of the bin ask the server.
use polarcloud.Prelude.{
  ℕ, All, length, ltb, ◌≡◌, ◌≢◌, refl, inl, inr, Bool, true, false, not, ◌&&◌, List, [], ◌∷◌, ◌++◌,
  some, ℤ, pos, negsuc, Text, js, eq_text, arith, Bool-cases, ◌==◌, if◌then◌else◌,
}
use polarcloud.Browser.{log, query}
use polarcloud.Browser.Values.{Value, num, str, undefined, not_positive}
use polarcloud.Page.{call, Page, Request, on_killed, session_of}
use polarcloud.Drive.Selection.{Checkbox, get_quanxuan_list}
use polarcloud.Drive.Selection.Lists.{checked_ids, get_quanxuan_list-join, checked_ids-ne_nil}
use polarcloud.Strings.Split.{join}
use polarcloud.Drive.Listing.Shown.{files_request, get_file_list-pending}
use polarcloud.Drive.Trash.{do_kill_item, on_killed_answer, kill_item, remove_all, delete_all}

-- The request that moves entries: `kill` is 1 into the bin, 0 out of it, -1 for good.
abbrev pub kill_request : Value → ℤ → Page → Request
kill_request ids kill p = record {
  url = p.center_url ++ js "/api/file/kill";
  verb = js "get";
  session = some (session_of p);
  payload = query (("delete", num kill) ∷ ("idList", ids) ∷ []);
  callback = on_killed;
}

do_kill_item-text :
    (ids : Text) (kill : ℤ) (p : Page)
    → (do_kill_item (str ids) kill p).pending
      ≡ (if eq_text ids [] then p.pending else kill_request (str ids) kill p ∷ p.pending)
unfolding do_kill_item
do_kill_item-text ids kill p = ground arith

join_is_empty :
    (ts : List Text) → All (λ t. t ≢ []) ts → eq_text (join ts b',') [] ≡ not (ltb 0 (length ts))
unfolding join eq_text
join_is_empty [] h = refl
join_is_empty ([] ∷ ts) (n, h) = absurd (n refl)
join_is_empty ((c ∷ t) ∷ []) h = refl
join_is_empty ((c ∷ t) ∷ u ∷ ts) h = ground arith

-- When no id is empty, the list of the checked ids is empty exactly if no box is checked.
list_is_empty :
    (boxes : List Checkbox)
    → All (λ b. b.value ≢ []) boxes
    → eq_text (get_quanxuan_list boxes) [] ≡ not (ltb 0 (length (checked_ids boxes)))
list_is_empty boxes h =
    rw (get_quanxuan_list-join boxes h)
      (join_is_empty (checked_ids boxes) (checked_ids-ne_nil boxes h))

-- "Delete selected" asks the server only if the user is sure and a box is checked; then it asks one
-- thing, with the ids of the checked boxes in the order of the table and a comma between two of them:
-- out of the bin if the flag `currentDelete` is 1, else into it. No id is empty.
pub delete_all-pending :
    (sure : Bool) (boxes : List Checkbox) (p : Page)
    → All (λ b. b.value ≢ []) boxes
    → (delete_all sure boxes p).pending ≡ (
        if sure && ltb 0 (length (checked_ids boxes))
        then kill_request
            (str (join (checked_ids boxes) b','))
            (if p.current_delete == 1 then pos 0 else pos 1)
            p
          ∷ p.pending
        else p.pending)
unfolding delete_all
delete_all-pending false boxes p h = elim (Bool-cases (p.current_delete == 1)) [
  | inl e ↦ rw e
  | inr e ↦ rw e
]
delete_all-pending true boxes p h = ground (
  arith,
  list_is_empty boxes h,
  get_quanxuan_list-join boxes h,
  do_kill_item-text (get_quanxuan_list boxes) (pos 0) p,
  do_kill_item-text (get_quanxuan_list boxes) (pos 1) p,
)

-- "Remove for good" asks with -1, only if the user is sure and a box is checked.
remove_all-pending :
    (sure : Bool) (boxes : List Checkbox) (p : Page)
    → (remove_all sure boxes p).pending ≡ (
        if sure && not (eq_text (get_quanxuan_list boxes) [])
        then kill_request (str (get_quanxuan_list boxes)) (negsuc 0) p ∷ p.pending
        else p.pending)
unfolding remove_all
remove_all-pending false boxes p = refl
remove_all-pending true boxes p =
    ground (arith, do_kill_item-text (get_quanxuan_list boxes) (negsuc 0) p)

-- When the server has done it, the page asks again for the listing that it shows: the same page
-- number, kind, flag and directory, if the number is not 0 and the directory is none that is at most
-- zero. When the server refuses, nothing is asked.
on_killed_answer-pending :
    (status : ℕ) (msg : Text) (p : Page)
    → p.currentpage ≢ 0
    → not_positive p.currentdir ≡ false
    → (on_killed_answer status msg p).pending ≡ (
        if status == 200
        then files_request p.currentpage p.currentkind p.current_delete p.currentdir p ∷ p.pending
        else p.pending)
unfolding on_killed_answer
on_killed_answer-pending status msg p h d = ground (
  arith,
  (get_file_list-pending p.currentpage p.currentkind p.current_delete p.currentdir
      (call (log (js " ")) p)).0,
)

-- In the anonymous listing an entry has no id, and its button does nothing at all.
kill_item-undefined : (sure : Bool) (p : Page) → kill_item sure undefined p ≡ p
unfolding kill_item do_kill_item
kill_item-undefined sure p = ground arith
