-- ===== src/Account/Panels.antt =====
-- user.js: the panels of the account, and the removal of each.
use polarcloud.Prelude.{[], ◌∷◌, Text, js, cat}
use polarcloud.Page.{Page}
use polarcloud.Drive.Panels.{open_panel, cancel_panel}

-- What `/api/user/whoami` answers of the user.
pub record Information : Type 0 where
  pub username : Text
  pub email : Text
  pub tel : Text
  pub reg_time : Text
  pub comments : Text

unfoldable pub information_panel : Information → Text
information_panel item = cat (
    js
      "  <div class=\"hw-overlay\" id=\"openInfoPanel-layer\" style=\"display:none;z-index:99999;\">"
    ∷ js " <div class=\"hw-layer-wrap\" style=\" width:450px;\" >"
    ∷ js " <h3 style=\"margin:-50px;border: 2px solid #1999e3;"
    ∷ js " padding-left:20px; width:auto;"
    ∷ js " color: white; "
    ∷ js " font-family: MicrosoftYaHei;"
    ∷ js " font-size: 24px;"
    ∷ js " font-weight: normal;"
    ∷ js " font-stretch: normal;"
    ∷ js " height: 46px;"
    ∷ js
        " background-color: #1999e3; \">我的资料 <label   style=\" cursor:  pointer;color:#fff; margin-left:270px; \" onclick=\"cancelPersonInfopanel()\">╳</label> </h3 >"
    ∷ js " <br>"
    ∷ js "  <br> "
    ∷ js "  <div class=\"row\">"
    ∷ js "  <form class=\"am-form\" method=\"POST\"> "
    ∷ js "  <div class=\"am-g am-margin-top\"> "
    ∷ js "  </div>"
    ∷ js " <div class=\"am-g am-margin-top\">"
    ∷ js "  <div class=\"am-u-sm-3 am-u-md-3  am-text-right\">      登录名:"
    ∷ js "   </div>"
    ∷ js "   <div class=\"am-u-sm-9 am-u-md-9  \">"
    ∷ js "    <input id=\"password\" type=\"text\" readonly value="
    ∷ item.username
    ∷ js " required class=\"am-input-sm am-u-sm-9 am-u-md-8 \">"
    ∷ js "   </div>"
    ∷ js "   </div>"
    ∷ js "  <div class=\"am-g am-margin-top\">"
    ∷ js " <div class=\"am-u-sm-3 am-u-md-3  am-text-right\">   邮件:"
    ∷ js "  </div>"
    ∷ js "  <div class=\"am-u-sm-9 am-u-md-9  \">"
    ∷ js "    <input type=\"text\" id=\"email\" placeholder=\"你的电子邮件 / Email\" value="
    ∷ item.email
    ∷ js "  required class=\"am-input-sm am-u-sm-9 am-u-md-8 \">"
    ∷ js "  </div>"
    ∷ js "   </div>"
    ∷ js " <div class=\"am-g am-margin-top\">"
    ∷ js "   <div class=\"am-u-sm-3 am-u-md-3 am-text-right\">"
    ∷ js "     电话:"
    ∷ js "   </div>"
    ∷ js "   <div class=\"am-u-sm-9 am-u-md-9  \">"
    ∷ js "     <input type=\"text\" id=\"tel\" placeholder=\"电话 / Telephone\" value="
    ∷ item.tel
    ∷ js "  required class=\"am-input-sm am-u-sm-9 am-u-md-8 \">"
    ∷ js "   </div>"
    ∷ js "  </div>"
    ∷ js "  <div class=\"am-g am-margin-top\">"
    ∷ js "   <div class=\"am-u-sm-3 am-u-md-3  am-text-right\">"
    ∷ js "    注册于:"
    ∷ js "   </div>"
    ∷ js "   <div class=\"am-u-sm-9 am-u-md-9  \">"
    ∷ js "  <input type=\"text\" readonly  value="
    ∷ item.reg_time
    ∷ js "  required class=\"am-input-sm am-u-sm-9 am-u-md-8 \"> "
    ∷ js "   </div>"
    ∷ js " </div>"
    ∷ js " <div class=\"am-g am-margin-top\">"
    ∷ js "   <div class=\"am-u-sm-3 am-u-md-3  am-text-right\">  简介:"
    ∷ js "  </div>"
    ∷ js "   <div class=\"am-u-sm-9 am-u-md-9  \">"
    ∷ js
        "     <textarea class=\"\" rows=\"5\" id=\"intro\" placeholder=\"输入个人简介\"  class=\"am-input-sm am-u-sm-9 am-u-md-8 \">"
    ∷ item.comments
    ∷ js "</textarea>"
    ∷ js "     <small>250字以内写出你的梦想.</small>"
    ∷ js "   </div>"
    ∷ js "  </div>"
    ∷ js " </form>"
    ∷ js "   <br>"
    ∷ js
        "  <button type=\"button\" onclick=\"updateUserinfo()\" class=\"am-btn am-fl am-btn-primary am-btn-xs  hwLayer-ok\">确  定"
    ∷ js "   </button>"
    ∷ js
        "    <button type=\"reset\" class=\"am-btn am-btn-primary am-btn-xs am-fr  hwLayer-cancel\" onclick=\"cancelPersonInfopanel()\">取 消</button>"
    ∷ js "   </div>"
    ∷ js "  </div>"
    ∷ js " </div>"
    ∷ [])

-- `cancelPersonInfopanel`
unfoldable pub cancel_person_info_panel : Page → Page
cancel_person_info_panel p = cancel_panel "#openInfoPanel-layer" p

setting_panel : Text
setting_panel = cat (
    js "   <div class=\"hw-overlay\" id=\"setting-layer\" style=\"display:none;z-index:99999;\">"
    ∷ js "  <div class=\"hw-layer-wrap\" style=\" width:450px;\" >"
    ∷ js "  <h3 style=\"margin:-50px;border: 2px solid #1999e3;"
    ∷ js "  padding-left:20px; width:auto;"
    ∷ js "  color: white; "
    ∷ js "  font-family: MicrosoftYaHei;"
    ∷ js "  font-size: 24px;"
    ∷ js "  font-weight: normal;"
    ∷ js "  font-stretch: normal;"
    ∷ js "  height: 46px;"
    ∷ js
        "  background-color: #1999e3; \">设置<label   style=\" cursor:  pointer;color:#fff; margin-left:270px; \" onclick=\"cancelPersonInfopanel()\">╳</label> </h3 >"
    ∷ js "  <br>"
    ∷ js "   <br>  "
    ∷ js "    <div class=\"row\">"
    ∷ js "    <form class=\"am-form\" method=\"POST\"> "
    ∷ js "    <div class=\"am-g am-margin-top\"> "
    ∷ js "   </div>"
    ∷ js "    <div class=\"am-g am-margin-top\">"
    ∷ js "     <div class=\"am-u-sm-5 am-u-md-5  am-text-right\">  记住密码: "
    ∷ js "      </div>"
    ∷ js "      <div class=\"am-u-sm-5 am-u-md-5  \">"
    ∷ js
        "      <label><input name=\"remember\" type=\"checkbox\" checked value=\"1\" />记住密码 </label>"
    ∷ js "      </div>"
    ∷ js "    </div>"
    ∷ js "    <div class=\"am-g am-margin-top\">"
    ∷ js "     <div class=\"am-u-sm-5 am-u-md-5  am-text-right\">  交易费用自动扣除:"
    ∷ js "      </div>"
    ∷ js "      <div class=\"am-u-sm-5 am-u-md-5  \" id=\"repasswordWrap\">"
    ∷ js "     <input name=\"sex\" type=\"checkbox\" checked value=\"1\" />自动扣除</label>"
    ∷ js "     </div>"
    ∷ js "    </div> "
    ∷ js "   </form>"
    ∷ js "     <br>"
    ∷ js
        "      <button type=\"button\" onclick=\"createAccount()\" class=\"am-btn am-fl am-btn-primary am-btn-xs  hwLayer-ok\">确 定"
    ∷ js "     </button>"
    ∷ js
        "     <button type=\"reset\" class=\"am-btn am-btn-primary am-btn-xs am-fr  hwLayer-cancel\" onclick=\"cancelSettingpanel()\">取 消</button>"
    ∷ js "    </div>"
    ∷ js "  </div>"
    ∷ js "  </div>"
    ∷ [])

-- `openSettingPanel`, `cancelSettingpanel`
unfoldable pub open_setting_panel : Page → Page
unfolding setting_panel
open_setting_panel p = open_panel "#setting-layer" setting_panel p

unfoldable pub cancel_setting_panel : Page → Page
cancel_setting_panel p = cancel_panel "#setting-layer" p

update_pswd_panel : Text
update_pswd_panel = cat (
    js
      "   <div class=\"hw-overlay\" id=\"openUpdatePswdPanel-layer\" style=\"display:none;z-index:99999;\">"
    ∷ js "  <div class=\"hw-layer-wrap\" style=\" width:450px;\" >"
    ∷ js "  <h3 style=\"margin:-50px;border: 2px solid #1999e3;"
    ∷ js "  padding-left:20px; width:auto;"
    ∷ js "  color: white; "
    ∷ js "  font-family: MicrosoftYaHei;"
    ∷ js "  font-size: 24px;"
    ∷ js "  font-weight: normal;"
    ∷ js "  font-stretch: normal;"
    ∷ js "  height: 46px;"
    ∷ js
        "   background-color: #1999e3; \">修改密码 <label   style=\" cursor:  pointer;color:#fff; margin-left:270px; \" onclick=\"cancelUpdatepswdpanel()\">╳</label> </h3 >"
    ∷ js "   <br>"
    ∷ js "   <br>  "
    ∷ js "    <div class=\"row\"> "
    ∷ js "    <form  > "
    ∷ js "    <div class=\"am-g am-margin-top\"> "
    ∷ js "    </div> "
    ∷ js "    </form>  "
    ∷ js "    <div class=\"am-g am-margin-top\">"
    ∷ js "    <div class=\"am-u-sm-3 am-u-md-3  am-text-right\">   验证码:"
    ∷ js "   </div>"
    ∷ js "    <div class=\"am-u-sm-9 am-u-md-9  \">"
    ∷ js "    <input type=\"text\" id=\"updatePswdCodeinput\" >"
    ∷ js "      <button onclick=\"getCode()\" style=\"width: 110px;  "
    ∷ js "      height: 41px; text-align: center; "
    ∷ js "      background-color: #c6cdd1; font-size: 14px;"
    ∷ js "  font-weight: normal;"
    ∷ js "  font-stretch: normal;"
    ∷ js "  letter-spacing: 0px;"
    ∷ js "  color: #f5f6f7;"
    ∷ js "  border: solid 1px #c6cdd1;\"> 获取验证码"
    ∷ js "  </button>"
    ∷ js "    </div>"
    ∷ js "  </div>"
    ∷ js "    <div class=\"am-g am-margin-top\">"
    ∷ js "     <div class=\"am-u-sm-3 am-u-md-3  am-text-right\">  旧密码:"
    ∷ js "      </div>"
    ∷ js "     <div class=\"am-u-sm-9 am-u-md-9  \">"
    ∷ js
        "       <input id=\"oldpasswordInput\" type=\"text\"  required class=\"am-input-sm am-u-sm-9 am-u-md-8 \">"
    ∷ js "     </div>"
    ∷ js "   </div>"
    ∷ js "   <div class=\"am-g am-margin-top\">"
    ∷ js "   <div class=\"am-u-sm-3 am-u-md-3  am-text-right\">   新密码:"
    ∷ js "  </div>"
    ∷ js "    <div class=\"am-u-sm-9 am-u-md-9  \">"
    ∷ js
        "     <input id=\"newpasswordInput\" type=\"text\" required class=\"am-input-sm am-u-sm-9 am-u-md-8 \">"
    ∷ js "   </div>"
    ∷ js "  </div>"
    ∷ js "    <br>"
    ∷ js
        "   <button type=\"button\" onclick=\"doUpdatePswd()\" class=\"am-btn am-fl am-btn-primary am-btn-xs  hwLayer-ok\">确   定"
    ∷ js "     </button>"
    ∷ js
        "     <button type=\"reset\" class=\"am-btn am-btn-primary am-btn-xs am-fr  hwLayer-cancel\" onclick=\"cancelUpdatepswdpanel()\">取 消</button>"
    ∷ js "   </div>"
    ∷ js "  </div>"
    ∷ js "  </div>"
    ∷ [])

-- `openUpdatePswdPanel`, `cancelUpdatepswdpanel`
unfoldable pub open_update_pswd_panel : Page → Page
unfolding update_pswd_panel
open_update_pswd_panel p = open_panel "#openUpdatePswdPanel-layer" update_pswd_panel p

unfoldable pub cancel_update_pswd_panel : Page → Page
cancel_update_pswd_panel p = cancel_panel "#openUpdatePswdPanel-layer" p
