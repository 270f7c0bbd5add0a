-- ===== src/Tests/Events.antt =====
-- A run of the drive page.
use polarcloud.Prelude.{◌≡◌, All, pos, js}
use polarcloud.Browser.Values.{num}
use polarcloud.Page.{Page, loaded}
use polarcloud.Drive.Start.{init}
use polarcloud.Drive.Listing.PageNumber.{AsksPage}
use polarcloud.Drive.Events.{perform, open_dir, Reach, here, next, act}
use polarcloud.Drive.Events.Asked.{init-Reach}
use polarcloud.Tests.Browser.{jar, browser}

abbrev start : Page
start = init (js "?user=1") (js "Mozilla") (loaded jar)

-- The user opens the directory 7.
abbrev opened : Page
opened = perform browser (open_dir (num (pos 7))) start

opened_reached : Reach browser start opened
opened_reached = next here (act (open_dir (num (pos 7))) start)

init-Reach_example : (opened.currentpage ≡ 1) × All (λ r. AsksPage r.callback) opened.pending
init-Reach_example = init-Reach browser jar (js "?user=1") (js "Mozilla") opened opened_reached
