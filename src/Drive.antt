-- ===== src/Drive.antt =====
-- web/static/assets/js/model/file-index.js, the page of the user's files.
pub mod Row
pub mod Panels
pub mod Listing
pub mod Anonymous
pub mod Messages
pub mod Trash
pub mod Selection
pub mod Upload
pub mod Start
pub mod Events
