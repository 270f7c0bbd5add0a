-- ===== src/Address.antt =====
-- web/static/assets/js/model/getnewaddress.js: the request for the account's numbers and the comment
-- that shows them. `Date.toString` is the browser's: its text is an argument. jQuery writes the
-- nested parameter as `params[id]`.
use Prim.Native.String.{String}
use polarcloud.Prelude.{List, [], ◌∷◌, Text, js, cat, pos}
use polarcloud.Strings.{substring}
use polarcloud.Browser.{Call, append}
use polarcloud.Browser.Values.{Value, num, str, text_of}

-- What `$.ajax` is given, and what the page has done, the latest first.
pub record Asked : Type 0 where
  pub url : Text
  pub verb : Text
  pub headers : List (String × Text)
  pub params : List (String × Value)

pub record Accounts : Type 0 where
  pub calls : List Call
  pub asked : List Asked

unfoldable pub getnewaddress : Accounts → Accounts
getnewaddress a = record a {
  asked =
      record {
        url = js "/v1/object/";
        verb = js "POST";
        headers = ("user", js "test") ∷ ("password", js "testp") ∷ [];
        params = ("method", str (js "getinfo")) ∷ ("params[id]", num (pos 10)) ∷ [];
      }
      ∷ a.asked;
}

unfoldable pub account_comment : Text → Value → Value → Text
account_comment time balance blocks = cat (
    js " <li class=\"am-comment\">\n"
    ∷ js "                      <a href=\"#\">\n"
    ∷ js
        "                        <img src=\"face/1.jpeg\" alt=\"\" class=\"am-comment-avatar\" width=\"48\" height=\"48\">\n"
    ∷ js "                      </a>\n"
    ∷ js "                      <div>\n"
    ∷ js "                        <header class=\"am-comment-hd\">\n"
    ∷ js "                          <div class=\"am-comment-meta\">\n"
    ∷ js "                            <a href=\"#\" class=\"am-comment-author\">账户1 </a>\n"
    ∷ js "                            <time>   "
    ∷ substring time 10 25
    ∷ js "</time>\n"
    ∷ js "                          </div>\n"
    ∷ js "                        </header>\n"
    ∷ js "                        <div class=\"am-comment-bd\">\n"
    ∷ js "                          <div class=\"am-g am-margin-top\">\n"
    ∷ js "                            <div class=\"am-u-sm-4 am-u-md-1 am-text-right\">可使用</div>\n"
    ∷ js "                            <div class=\"am-u-sm-8 am-u-md-11\">\n"
    ∷ js "                              <label>"
    ∷ text_of balance
    ∷ js " </label>\n"
    ∷ js "                            </div>\n"
    ∷ js "                          </div>\n"
    ∷ js "    \n"
    ∷ js "                          <div class=\"am-g am-margin-top\">\n"
    ∷ js "                            <div class=\"am-u-sm-4 am-u-md-1 am-text-right\">\n"
    ∷ js "                              等待中\n"
    ∷ js "                            </div>\n"
    ∷ js "                            <div class=\"am-u-sm-8 am-u-md-11\">\n"
    ∷ js "                              <label> 0.25821232 </label>\n"
    ∷ js "                            </div>\n"
    ∷ js "                          </div>\n"
    ∷ js "    \n"
    ∷ js "                          <div class=\"am-g am-margin-top\">\n"
    ∷ js "                            <div class=\"am-u-sm-4 am-u-md-1 am-text-right\">\n"
    ∷ js "                              总额\n"
    ∷ js "                            </div>\n"
    ∷ js "                            <div class=\"am-u-sm-8 am-u-md-11\">\n"
    ∷ js "                              <label>"
    ∷ text_of blocks
    ∷ js " </label>\n"
    ∷ js "                            </div>\n"
    ∷ js "                          </div>\n"
    ∷ js "                        </div>\n"
    ∷ js "                      </div>\n"
    ∷ js "                    </li>"
    ∷ [])

-- Its success function, for `res.result.balance` and `res.result.blocks`.
unfoldable pub on_info_answer : Text → Value → Value → Accounts → Accounts
on_info_answer time balance blocks a = record a {
  calls = append "#accountDiv" (account_comment time balance blocks) ∷ a.calls;
}
