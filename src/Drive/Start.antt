-- ===== src/Drive/Start.antt =====
-- file-index.js: what the page does when it is loaded, and the menu of its kinds of files.
use Prim.Native.String.{String}
use polarcloud.Prelude.{
  ℕ, Bool, true, false, List, [], ◌∷◌, Option, none, some, pos, Text, js, eq_text, drop,
  if◌then◌else◌,
}
use polarcloud.Strings.{split, contains, unescape}
use polarcloud.Browser.{show, set_style}
use polarcloud.Browser.Values.{Value, num, str, loosely_is}
use polarcloud.Page.{Page, call_all, session_of}
use polarcloud.Account.{do_logout_func}
use polarcloud.Drive.Listing.{get_file_list}
use polarcloud.Drive.Anonymous.{get_anonymous_file_list}
use polarcloud.Drive.Messages.{my_message}

-- `parts[0] == "user"`, and the value of `unescape(parts[1])`.
is_user : List Text → Bool
is_user [] = false
is_user (k ∷ ks) = eq_text k (js "user")

user_value : List Text → Text
user_value (k ∷ v ∷ vs) = unescape v
user_value _ = js "undefined"

-- The loop of `init` over the parts of the query, which ends at the first `user`.
find_user : List Text → Option Text
unfolding is_user user_value
find_user [] = none
find_user (s ∷ ss) =
    let rest = find_user ss in
    if is_user (split s b'=') then some (user_value (split s b'=')) else rest

-- `loginuser` after the loop, for `location.search`.
unfoldable pub read_user : Text → Value → Value
unfolding find_user
read_user url old =
    if contains url (js "?")
    then elim (find_user (split (drop 1 url) b'&')) [ none ↦ old | some u ↦ str u ]
    else old

-- The branches of `init` on `loginuser`.
unfoldable pub open_listing : Page → Page
open_listing p =
    let anonymous = get_anonymous_file_list (js "*") p in
    let left = do_logout_func (some (js "?user=0")) p in
    let p1 = my_message p in
    let listed = get_file_list p1.currentpage p1.currentkind p1.current_delete (num (pos 0)) p1 in
    if loosely_is p.loginuser 0
    then if eq_text (session_of p) [] then anonymous else left
    else if loosely_is p.loginuser 1
    then listed
    else p

-- `init`, for `location.search` and `navigator.userAgent`.
unfoldable pub init : Text → Text → Page → Page
init url agent p =
    let p1 = open_listing (record p { loginuser = read_user url p.loginuser }) in
    if contains agent (js ".NET") then record p1 { iswindows = true } else p1

-- `openFileList`; the first call stands for the loop over the elements of the class.
unfoldable pub open_file_list : Text → ℕ → Value → String → Page → Page
open_file_list kind deleteit parent_id button p =
    let p1 =
      record (call_all
        (set_style ".menuLi" "backgroundColor" (js "#343a3d")
          ∷ set_style button "backgroundColor" (js "#242b2e")
          ∷ [])
        p) { current_delete = deleteit } in
    let p2 = call_all (show "#rubbishUI" ∷ show "#newdirBT" ∷ show "#deleteBT" ∷ []) p1 in
    let anonymous = get_anonymous_file_list kind p1 in
    let listed = get_file_list 1 kind p2.current_delete parent_id p2 in
    if loosely_is p1.loginuser 0 then anonymous else listed
