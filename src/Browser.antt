-- ===== src/Browser.antt =====
-- What web/static/assets/js/model sees of the browser and of jQuery, neither of which is part of the
-- model: the values of JavaScript that its globals hold, its calls on the document (`Call`), which a
-- page records with the latest first, and its requests (`Request`), which the server answers later.
-- `Host` is what the scripts ask of the browser, the clock, md5.js and jQuery's JSON parser.
pub mod View
pub mod Values
pub mod Jar
use Prim.Native.String.{String}
use polarcloud.Prelude.{ℕ, ◌+◌, ◌-◌, ◌*◌, ◌/◌, ℤ, pos, negsuc, Bool, List, [], Text, suc}
use polarcloud.Cookies.{set_cookie_text}
use polarcloud.Cookies.Entries.{Entry}
use Values.{Value}

-- The calls; an element is named by its id or selector.
pub data Call : Type 0 where
  show hide remove empty remove_children : String → Call
  set_text set_html set_value append prepend : String → Text → Call
  set_checked : String → Bool → Call
  set_style : String → String → Text → Call
  alert log href open_window click_on : Text → Call
  set_interval clear_interval : Text → Call

-- What `$.ajax` sends: the fields of the query or of the JSON text, or a file of a form.
pub data Payload : Type 0 where
  no_payload : Payload
  query json : List (String × Value) → Payload
  form : Payload

-- The user that the cookie `currentuser` keeps, and what `jQuery.parseJSON` makes of a text.
pub record User : Type 0 where
  pub tel : Text
  pub password : Text

pub data Parsed : Type 0 where
  threw null : Parsed
  user : User → Parsed

-- What the program asks of its surroundings. `store jar t` are the cookies after `t` is assigned to
-- `document.cookie`; `now` is the clock in milliseconds and `date_text` writes a time of it, in the zone
-- of the browser, which reads such a text as a time so many minutes ahead or behind: RFC 6265 ignores
-- the zone.
pub record Host : Type 0 where
  pub store : List Entry → Text → List Entry
  pub now : ℕ
  pub date_text : ℕ → Text
  pub ahead : ℕ
  pub behind : ℕ
  pub hex_md5 : Text → Text
  pub parse_json : Text → Parsed

-- `date.setDate(date.getDate() + day)` for `day` in tenths: `setDate` cuts the sum, which is
-- positive, to a whole number of days. Every day is taken to have 24 hours.
abbrev day_ms : ℕ
day_ms = 86400000

pub expiry : Host → ℤ → ℕ
expiry host (pos tenths) = host.now + tenths / 10 * day_ms
expiry host (negsuc tenths) = host.now - (suc tenths + 9) / 10 * day_ms

-- `setCookie(name, value, day)` on the cookies of the page, and `delCookie(name)`.
pub set_cookie : Host → Text → Text → ℤ → List Entry → List Entry
unfolding expiry
set_cookie host name value day jar =
    host.store jar (set_cookie_text name value (host.date_text (expiry host day)))

pub del_cookie : Host → Text → List Entry → List Entry
unfolding set_cookie
del_cookie host name jar = set_cookie host name [] (negsuc 9) jar
