-- ===== src/Drive/Upload/Recorded.antt =====
-- What is stored and recorded of an uploaded file.
use polarcloud.Prelude.{
  ◌≡◌, true, false, [], ◌∷◌, ◌++◌, some, pos, Text, js, Lacks, All-append, ◌==◌, ◌≢◌, arith,
}
use polarcloud.Files.{get_file_kind}
use polarcloud.Files.Names.{base_name-append, get_file_ext-append}
use polarcloud.Browser.{form, json}
use polarcloud.Browser.Values.{num, str, loosely_is, parse_int}
use polarcloud.Page.{Page, Request, on_uploaded, on_recorded, session_of}
use polarcloud.Drive.Panels.{cancel_upload_panel}
use polarcloud.Drive.Upload.{do_upload_file, Stored, request_record, on_uploaded_answer}

-- The request that stores a file, and the one that records it in the current directory.
abbrev pub upload_request : Text → Text → Text → Page → Request
upload_request kind title ext p = record {
  url = js "/store/addfile";
  verb = js "post";
  session = some (session_of p);
  payload = form;
  callback = on_uploaded kind title ext;
}

abbrev pub record_request : Text → Text → Text → Stored → Page → Request
record_request kind title ext res p = record {
  url = p.center_url ++ js "/api/file/createDir";
  verb = js "post";
  session = some (session_of p);
  payload = json (
      ("title", str title)
      ∷ ("kind", str kind)
      ∷ ("ext", str ext)
      ∷ ("delete", num (pos 0))
      ∷ ("parent_id", parse_int p.currentdir)
      ∷ ("hash_code", str res.hash_name)
      ∷ ("size", num (pos res.size))
      ∷ []);
  callback = on_recorded;
}

upload_request-append :
    (dir stem ext : Text) (p : Page)
    → Lacks b'\\' stem
    → Lacks b'\\' ext
    → Lacks b'.' ext
    → (do_upload_file (dir ++ b'\\' ∷ (stem ++ b'.' ∷ ext)) p).pending
      ≡ upload_request (get_file_kind ext) (stem ++ b'.' ∷ ext) ext p ∷ p.pending
unfolding do_upload_file
upload_request-append dir stem ext p hs he hd =
    let plain : Lacks b'\\' (stem ++ b'.' ∷ ext) =
      All-append (λ d. d ≢ b'\\') stem (b'.' ∷ ext) hs (omega arith, he) in
    rw (base_name-append dir (stem ++ b'.' ∷ ext) plain, get_file_ext-append dir stem ext hs he hd)

on_uploaded_answer-pending :
    (kind title ext : Text) (res : Stored) (p : Page)
    → res.code ≡ 0
    → loosely_is p.loginuser 0 ≡ false
    → loosely_is p.loginuser 1 ≡ true
    → (on_uploaded_answer kind title ext res p).pending
      ≡ record_request kind title ext res p ∷ p.pending
unfolding on_uploaded_answer request_record cancel_upload_panel
on_uploaded_answer-pending kind title ext res p c out in_ =
    let good : (res.code == 0) ≡ true = ground arith in rw (good, out, in_)

-- A file `dir\stem.ext` that a user who is logged in uploads, where `stem` holds no backslash and `ext`
-- neither a dot nor a backslash: one request stores it, and when the store has answered with code 0,
-- whatever the page is then, one request records it in the directory shown then, with the name
-- `stem.ext`, the extension, its kind, and the hash and size that the store answered.
pub do_upload_file-recorded :
    (dir stem ext : Text) (res : Stored) (p q : Page)
    → Lacks b'\\' stem
    → Lacks b'\\' ext
    → Lacks b'.' ext
    → res.code ≡ 0
    → loosely_is q.loginuser 0 ≡ false
    → loosely_is q.loginuser 1 ≡ true
    → ((do_upload_file (dir ++ b'\\' ∷ (stem ++ b'.' ∷ ext)) p).pending
        ≡ upload_request (get_file_kind ext) (stem ++ b'.' ∷ ext) ext p ∷ p.pending)
      × ((on_uploaded_answer (get_file_kind ext) (stem ++ b'.' ∷ ext) ext res q).pending
          ≡ record_request (get_file_kind ext) (stem ++ b'.' ∷ ext) ext res q ∷ q.pending)
do_upload_file-recorded dir stem ext res p q hs he hd c out in_ = (
  upload_request-append dir stem ext p hs he hd,
  on_uploaded_answer-pending (get_file_kind ext) (stem ++ b'.' ∷ ext) ext res q c out in_,
)
