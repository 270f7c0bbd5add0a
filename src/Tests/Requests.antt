-- ===== src/Tests/Requests.antt =====
-- Uploading a file, and changing the password.
use polarcloud.Prelude.{◌≡◌, refl, false, [], ◌∷◌, ◌++◌, js, arith}
use polarcloud.Files.{get_file_kind}
use polarcloud.Page.{Page, loaded}
use polarcloud.Account.{on_logged_in_answer}
use polarcloud.Browser.{User}
use polarcloud.Browser.Values.{loosely_is}
use polarcloud.Drive.Upload.{Stored, do_upload_file, on_uploaded_answer}
use polarcloud.Drive.Upload.Recorded
use polarcloud.Drive.Upload.Recorded.{upload_request, record_request}
use polarcloud.Tests.Browser.{jar, browser}

abbrev page : Page
page = loaded jar

abbrev stored : Stored
stored = record { code = 0; msg = []; hash_name = js "f0"; size = 9 }

do_upload_file-recorded_example :
    ((do_upload_file (js "C:" ++ b'\\' ∷ (js "a.b" ++ b'.' ∷ js "png")) page).pending
      ≡ upload_request (get_file_kind (js "png")) (js "a.b" ++ b'.' ∷ js "png") (js "png") page
        ∷ page.pending)
    × ((on_uploaded_answer
          (get_file_kind (js "png"))
          (js "a.b" ++ b'.' ∷ js "png")
          (js "png")
          stored
          page).pending
        ≡ record_request
            (get_file_kind (js "png"))
            (js "a.b" ++ b'.' ∷ js "png")
            (js "png")
            stored
            page
          ∷ page.pending)
unfolding js loosely_is
do_upload_file-recorded_example =
    Recorded.do_upload_file-recorded (js "C:") (js "a.b") (js "png") stored page page (omega arith)
      (omega arith) (omega arith) refl refl refl

abbrev someone : User
someone = record { tel = js "u1"; password = js "md5 pw" }

abbrev logged_in : Page
logged_in = on_logged_in_answer browser (js "x") 200 (js "b2") (js "u1") (js "u") false page
