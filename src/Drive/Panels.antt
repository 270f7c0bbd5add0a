-- ===== src/Drive/Panels.antt =====
-- file-index.js: the panels that its buttons open over the page, and the removal of a panel.
use Prim.Native.String.{String}
use polarcloud.Prelude.{[], ◌∷◌, Text, js, cat}
use polarcloud.Browser.{prepend, show, hide, remove, set_style}
use polarcloud.Page.{Page, call_all}

-- A panel goes before the page's body, is shown and gets a margin.
abbrev pub open_panel : String → Text → Page → Page
open_panel layer panel p =
    call_all (prepend "#mainBody" panel ∷ show layer ∷ set_style layer "margin-top" (js "10") ∷ [])
      p

abbrev pub cancel_panel : String → Page → Page
cancel_panel layer p = call_all (hide layer ∷ remove layer ∷ []) p

dirction_panel : Text
dirction_panel = cat (
    js " <div class=\"hw-overlay\" id=\"dirction-layer\" style=\"display:none;z-index:99999;\">"
    ∷ js " <div class=\"hw-layer-wrap\" style=\" width:450px;\" >"
    ∷ js " <h3 style=\"margin:-50px;border: 2px solid #1999e3;"
    ∷ js " padding-left:20px; width:auto;"
    ∷ js " color: white; "
    ∷ js " font-family: MicrosoftYaHei;"
    ∷ js " font-size: 24px;"
    ∷ js " font-weight: normal;"
    ∷ js " font-stretch: normal;"
    ∷ js " height: 46px;"
    ∷ js
        " background-color: #1999e3; \"> 新建文件夹  <label   style=\" cursor:  pointer;color:#fff; margin-left:270px; \" onclick=\"cancelDirctionpanel()\">╳</label> </h3 >"
    ∷ js " <br>"
    ∷ js "  <br>"
    ∷ js "  <div class=\"row\" style=\"margin-top:50px;\">"
    ∷ js "   <div class=\"am-g am-margin-top\">"
    ∷ js
        "    <label><input id=\"newdir\" type=\"text\" placeholder=\"文件夹名称\"  style=\"width:350px;height:46px;padding-left:10px;\" />  </label>"
    ∷ js "    <br>"
    ∷ js "    <br>"
    ∷ js
        "    <label   style=\" cursor:  pointer;color:#1999e3;padding-left:20px;\" onclick=\"createNewDir(newdir)\" class=\" hwLayer-ok\">确 定"
    ∷ js "    </label>"
    ∷ js
        "    <label   style=\" cursor:  pointer;color:#1999e3;padding-left:250px;\"   class=\"  hwLayer-cancel\" onclick=\"cancelDirctionpanel()\">取 消</label>"
    ∷ js "  </div>"
    ∷ js "  </div>"
    ∷ js " </div>"
    ∷ [])

-- `newDirctionary`, `cancelDirctionpanel`
unfoldable pub new_dirctionary : Page → Page
unfolding dirction_panel
new_dirctionary p = open_panel "#dirction-layer" dirction_panel p

unfoldable pub cancel_dirction_panel : Page → Page
cancel_dirction_panel p = cancel_panel "#dirction-layer" p

uploadfile_panel : Text
uploadfile_panel = cat (
    js " <div class=\"hw-overlay\" id=\"uploadfile-layer\" style=\"display:none;z-index:99999;\">"
    ∷ js " <div class=\"hw-layer-wrap\" style=\" width:450px;\" >"
    ∷ js "   <h3 style=\"margin:-50px;border: 2px solid #1999e3;"
    ∷ js "   padding-left:20px; width:auto; height: 46px;"
    ∷ js "  font-family: MicrosoftYaHei; color: white;  font-size: 24px;"
    ∷ js "  font-weight: normal;  font-stretch: normal; background-color: #1999e3; "
    ∷ js
        "  \">上传文件 <label   style=\" cursor:  pointer;color:#fff; margin-left:270px; \" onclick=\"cancelUploadpanel()\">╳</label> </h3 >"
    ∷ js "  <br>   <br>   <div class=\"row\" style=\"margin-top:50px;\">"
    ∷ js "  <div class=\"am-g am-margin-top\">"
    ∷ js "  <form id=\"fileForm\" enctype=\"multipart/form-data\">"
    ∷ js
        "    <label><input id=\"fileInput\" type=\"file\"   style=\"width:350px;height:46px;padding-left:10px;\" />  </label>"
    ∷ js
        "       <br>   <br>    <label   style=\" cursor:  pointer;color:#1999e3;padding-left:20px;\" onclick=\"doUploadfile(fileInput)\" class=\" hwLayer-ok\">确定 </label>"
    ∷ js
        "     <label   style=\" cursor:  pointer;color:#1999e3;padding-left:250px;\"   class=\"  hwLayer-cancel\" onclick=\"cancelUploadpanel()\">取 消</label>"
    ∷ js "     </form>"
    ∷ js "   </div>"
    ∷ js " </div>"
    ∷ js "</div>"
    ∷ [])

-- `uploadfile`, `cancelUploadpanel`
unfoldable pub uploadfile : Page → Page
unfolding uploadfile_panel
uploadfile p = open_panel "#uploadfile-layer" uploadfile_panel p

unfoldable pub cancel_upload_panel : Page → Page
cancel_upload_panel p = cancel_panel "#uploadfile-layer" p

-- The panel of one message, and `cancelMessagepanel`.
unfoldable pub message_panel : Text → Text → Text
message_panel title content = cat (
    js "   <div class=\"hw-overlay\" id=\"message-layer\" style=\"display:none;z-index:99999;\">"
    ∷ js "<div class=\"hw-layer-wrap\" style=\" width:450px;\" >"
    ∷ js
        "  <h3 style=\"margin:-50px;border: 2px solid #1999e3;  padding-left:20px; width:auto;   color: white; "
    ∷ js
        " font-family: MicrosoftYaHei;  font-size: 24px;  font-weight: normal;  font-stretch: normal;    height: 46px;"
    ∷ js
        "  background-color: #1999e3; \">消息 <label   style=\" cursor:  pointer;color:#fff; margin-left:300px; \" onclick=\"cancelMessagepanel()\">╳</label> </h3 >"
    ∷ js " <br>   <br>    <div class=\"row\">"
    ∷ js "  <form class=\"am-form\" method=\"POST\"> "
    ∷ js " <div class=\"am-g am-margin-top\"> "
    ∷ js " </div>"
    ∷ js "  <div class=\"am-g am-margin-top\">"
    ∷ js "   <div class=\"am-u-sm-2 am-u-md-3  am-text-right\">    标题:"
    ∷ js " </div>"
    ∷ js " <div class=\"am-u-sm-10 am-u-md-9  \">"
    ∷ js " <label>"
    ∷ title
    ∷ js "  </label>"
    ∷ js "  </div>"
    ∷ js " </div>"
    ∷ js " <div class=\"am-g am-margin-top\">"
    ∷ js " <div class=\"am-u-sm-2 am-u-md-3  am-text-right\">  内容:"
    ∷ js " </div>"
    ∷ js "<div class=\"am-u-sm-10 am-u-md-9  \">"
    ∷ js "<label>"
    ∷ content
    ∷ js "  </label>"
    ∷ js "</div>"
    ∷ js " </div>  "
    ∷ js "</form>   <hr> "
    ∷ js
        " <button type=\"reset\" class=\"am-btn am-btn-primary am-btn-xs am-fr  hwLayer-cancel\" onclick=\"cancelMessagepanel()\">确  定</button>"
    ∷ js " </div>"
    ∷ js " </div>"
    ∷ js " </div>"
    ∷ [])

unfoldable pub cancel_message_panel : Page → Page
cancel_message_panel p = cancel_panel "#message-layer" p
