-- ===== src/Tests/Forms.antt =====
-- The login form, the picture with a code and the registration form.
use Prim.Native.Nat.{◌^◌}
use polarcloud.Prelude.{
  ℕ, ◌*◌, ◌≡◌, inl, refl, not, ◌&&◌, [], ◌∷◌, none, js, eq_text, arith, if◌then◌else◌,
}
use polarcloud.Browser.{set_html}
use polarcloud.Page.{Page, loaded}
use polarcloud.Verify.{Options, refresh, validate}
use polarcloud.Verify.Picture.{Rgb, Glyph, Line, Dot, picture, written, indices, written-picture}
use polarcloud.Account.{or_default, login_func}
use polarcloud.Account.Sessions
use polarcloud.Account.Sessions.{login_request, sent_password}
use polarcloud.Register.{Form, Fields, new_form, on_code_answer, submit_form}
use polarcloud.Register.Countdown
use polarcloud.Register.Countdown.{Running, ticks, Reach, here}
use polarcloud.Register.SmsCode.{submit_form_with_code}
use polarcloud.Tests.Browser.{jar, browser, browser-IsJar}

abbrev page : Page
page = loaded jar

abbrev form : Form
form = new_form []

abbrev options : Options
options = record {
  kind = js "number";
  code = [];
  num_arr = js "0" ∷ js "1" ∷ js "2" ∷ [];
  letter_arr = [];
}

abbrev fields : Fields
fields = record {
  password = js "pw";
  repassword = js "pw";
  code = js "4711";
  username = js "u";
  name = [];
  email = [];
  tel = [];
  firstname = [];
  lastname = [];
  intro = [];
}

login_func-pending_example :
    (login_func browser options none (js "12") (js "u") (js "pw") page).pending ≡ (
      if validate (js "12") options
        && not (eq_text (js "u") [])
        && not (eq_text (sent_password browser (js "pw") page) [])
      then login_request
          (or_default none (js "./index.html"))
          (js "u")
          (sent_password browser (js "pw") page)
          (js "12")
          page
        ∷ page.pending
      else page.pending)
login_func-pending_example =
    Sessions.login_func-pending browser options none (js "12") (js "u") (js "pw") page

abbrev drawn_once : Options
drawn_once = record options { code = js "1" }

abbrev counting : Form
counting = on_code_answer browser 200 [] (js "4711") form

on_code_answer-ticks_example :
    ((ticks 59 counting).intervals ≡ form.next_id ∷ [])
    × ((ticks 60 counting).intervals ≡ [])
    × ((ticks 60 counting).calls
        ≡ set_html "huoquyanzhengma" (js "发送验证码") ∷ (ticks 59 counting).calls)
on_code_answer-ticks_example =
    Countdown.on_code_answer-ticks browser [] (js "4711") form counting refl refl

on_code_answer-Running_example :
    Running 1 (on_code_answer browser 200 [] (js "4712") counting).intervals
unfolding on_code_answer
on_code_answer-Running_example =
    Countdown.on_code_answer-Running browser [] (js "4712") counting
      (on_code_answer browser 200 [] (js "4712") counting) 1 (inl refl) (omega arith) here

submit_form_with_code_example :
    (submit_form browser (js "x") fields (on_code_answer browser 200 [] (js "4711") form)).pending
    ≡ (on_code_answer browser 200 [] (js "4711") form).pending
unfolding js
submit_form_with_code_example =
    submit_form_with_code browser [] (js "4711") (js "x") fields form browser-IsJar refl
      (omega arith) (λ e. cc) tt (λ e. cc)

abbrev black : Rgb
black = record { red = 0; green = 0; blue = 0 }

abbrev glyphs : ℕ → Glyph
glyphs i = record {
  index = i * 2 ^ 50;
  size = 0;
  color = black;
  offset_x = 0;
  offset_y = i;
  blur = 0;
  angle = 2 ^ 52;
}

abbrev lines : ℕ → Line
lines i = record { color = black; from_x = i; from_y = 0; to_x = 0; to_y = 0 }

abbrev dots : ℕ → Dot
dots i = record { color = black; x = i; y = i }

written-picture_example :
    written (picture options 100 30 black glyphs lines dots)
    ≡ (refresh (indices glyphs 4 1) options).code
written-picture_example = written-picture options 100 30 black glyphs lines dots refl
