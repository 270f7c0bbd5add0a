-- ===== src/Page.antt =====
-- The state of a page that loads web/static/assets/js/model/file-index.js and then user.js, as
-- file-index.html does: the globals of both, and what their handlers write. A handler is a function of
-- the page; its calls are recorded in `calls`, the latest first, and each `$.ajax` adds to `pending` a
-- request whose `Callback` names the success function with the variables that it closes over.
-- `centerUrl` has user.js's value, which takes the place of file-index.js's.
use polarcloud.Prelude.{ℕ, Bool, false, List, [], ◌∷◌, ◌++◌, Option, none, some, Text, js, pos}
use polarcloud.Browser.{Call, Payload}
use polarcloud.Browser.Values.{Value, num}
use polarcloud.Cookies.{get_cookie}
use polarcloud.Cookies.Entries.{Entry, cookie_text}

-- An entry of a listing, as the server answers it or as `getAnonymousFileList` builds it.
pub record Item : Type 0 where
  pub id : Value
  pub kind : Text
  pub title : Text
  pub hash_code : Text
  pub size : ℕ
  pub upload_time : Text

-- The fields of a `Date` in local time, which the browser computes; `month` counts from 0.
pub record LocalTime : Type 0 where
  pub year : ℕ
  pub month : ℕ
  pub date : ℕ
  pub hours : ℕ
  pub minutes : ℕ

-- An entry of `/store/getlist`, with the date of its `Time`.
pub record StoreFile : Type 0 where
  pub name : Text
  pub has_code : Text
  pub size : ℕ
  pub time : LocalTime

pub record Message : Type 0 where
  pub id : ℕ
  pub title : Text
  pub content : Text

-- The success functions, with what they close over.
pub data Callback : Type 0 where
  on_files : ℕ → Text → ℕ → Value → Callback
  on_messages on_message_read on_dir_created on_parent on_killed : Callback
  on_uploaded : Text → Text → Text → Callback
  on_recorded on_anonymous : Callback
  on_store_files : Text → Callback
  on_logged_out on_logged_in : Text → Callback
  on_code on_information on_user_updated on_pswd_updated : Callback

pub record Request : Type 0 where
  pub url : Text
  pub verb : Text
  pub session : Option Text
  pub payload : Payload
  pub callback : Callback

pub record Page : Type 0 where
  pub center_url : Text
  pub loginuser : Value
  pub currentdir : Value
  pub currentpage : ℕ
  pub currentkind : Text
  pub current_delete : ℕ
  pub iswindows : Bool
  pub user_message : Option (List Message)
  pub crypto_password : Text
  pub cookie : List Entry
  pub calls : List Call
  pub pending : List Request

-- The globals once both scripts are loaded.
abbrev pub loaded : List Entry → Page
loaded cookie = record {
  center_url = js "http://39.104.112.203:8080";
  loginuser = num (pos 1);
  currentdir = num (pos 0);
  currentpage = 1;
  currentkind = js "*";
  current_delete = 0;
  iswindows = false;
  user_message = none;
  crypto_password = [];
  cookie = cookie;
  calls = [];
  pending = [];
}

-- One call, and one `$.ajax`.
abbrev pub call : Call → Page → Page
call c p = record p { calls = c ∷ p.calls }

abbrev pub ask : Request → Page → Page
ask r p = record p { pending = r ∷ p.pending }

-- `getCookie(name)`, and the session that the requests send.
abbrev pub cookie_of : Text → Page → Text
cookie_of name p = get_cookie (cookie_text p.cookie) name

abbrev pub session_of : Page → Text
session_of p = cookie_of (js "Sessionid") p

-- Several calls, in the order of the source.
abbrev pub call_all : List Call → Page → Page
call_all [] p = p
call_all (c ∷ cs) p = call_all cs (call c p)

-- A request of the server with the session in its headers.
abbrev pub ask_center : Text → Text → Payload → Callback → Page → Page
ask_center path verb payload callback p =
    ask
      (record {
        url = p.center_url ++ path;
        verb = verb;
        session = some (session_of p);
        payload = payload;
        callback = callback;
      })
      p

-- What a success function reads: `res.status`, `res.msg` and `res.data`.
pub record Answer (A : Type 0) : Type 0 where
  pub status : ℕ
  pub msg : Text
  pub body : Option A
