-- ===== src/Store/Network.antt =====
-- `DownloadFileOpt` of store/operation.go with what its goroutines do to the disk: each calls
-- `DownloadFilechunkToLocal` of store/fileinfo_local.go for a piece. They are given in the order in which
-- they end; `Store.Fetch` is how one of them comes by its bytes.
use polarcloud.Prelude.{
  ◌≡◌, refl, ap, ◌∙◌, List, [], ◌∷◌, ◌++◌, Bool, true, false, Option, none, some, Text, js,
}
use mathlib.Core.List.{Memᴰ}
use polarcloud.Store.Folders.{Bytes, Folder, find_file, put_file, remove_file}
use polarcloud.Store.Ascending.{Within}
use polarcloud.Store.Collected.{IsWhole}
use polarcloud.Store.Download.{download_file_opt-missing}
use polarcloud.Store.{FileChunk, FileInfo, Disk, download_file_opt}

-- How a goroutine ends: the store has the piece already; the bytes were fetched and renamed into the
-- store; or it failed, and leaves what the file "_tmp" holds, if a user was asked.
pub data Fetched : Type 0 where
  there : FileChunk → Fetched
  renamed : FileChunk → Bytes → Fetched
  failed : FileChunk → Option Bytes → Fetched

abbrev pub tmp_name : FileChunk → Text
tmp_name chunk = chunk.hash ++ js "_tmp"

-- What it does to the store, and the piece that it adds to the file.
unfoldable pub store_fetched : Fetched → Folder → Folder
store_fetched (there chunk) store = store
store_fetched (renamed chunk bs) store = put_file chunk.hash bs (remove_file (tmp_name chunk) store)
store_fetched (failed chunk none) store = store
store_fetched (failed chunk (some bs)) store = put_file (tmp_name chunk) bs store

unfoldable pub arrived_of : List Fetched → List FileChunk
arrived_of [] = []
arrived_of (there chunk ∷ rest) = chunk ∷ arrived_of rest
arrived_of (renamed chunk bs ∷ rest) = chunk ∷ arrived_of rest
arrived_of (failed chunk left ∷ rest) = arrived_of rest

unfoldable pub fetch_all : List Fetched → Disk → Disk
fetch_all [] d = d
fetch_all (one ∷ rest) d = fetch_all rest (record d { store = store_fetched one d.store })

-- `DownloadFileOpt`
unfoldable pub download : FileInfo → List Fetched → Disk → Bool × Disk
download fi fetches d = elim (find_file fi.name d.temp) [
  | some bs ↦ (true, d)
  | none ↦ download_file_opt fi (arrived_of fetches) (fetch_all fetches d)
]

fetch_all-temp : (fetches : List Fetched) (d : Disk) → (fetch_all fetches d).temp ≡ d.temp
unfolding fetch_all
fetch_all-temp [] d = refl
fetch_all-temp (one ∷ rest) d = fetch_all-temp rest (record d { store = store_fetched one d.store })

download_new :
    (fi : FileInfo) (fetches : List Fetched) (d : Disk)
    → find_file fi.name d.temp ≡ none
    → download fi fetches d ≡ download_file_opt fi (arrived_of fetches) (fetch_all fetches d)
unfolding download
download_new fi fetches d new = rw (new, download) refl

-- A download of which a piece was neither fetched nor in the store already ends with an error. Nothing is
-- put together: the folder of the files is as it was, and the store is as the goroutines left it, with
-- the pieces that were fetched and the "_tmp" files of those that failed. The description is whole, the
-- file is not there yet, and what has arrived are pieces of the file.
pub download-missing :
    (fi : FileInfo) (fetches : List Fetched) (missing : FileChunk) (d : Disk)
    → IsWhole fi
    → Within fi.file_chunk (arrived_of fetches)
    → find_file fi.name d.temp ≡ none
    → Memᴰ missing fi.file_chunk
    → (Memᴰ missing (arrived_of fetches) → ⊥)
    → (download fi fetches d ≡ (false, fetch_all fetches d))
      × ((download fi fetches d).1.temp ≡ d.temp)
download-missing fi fetches missing d whole of_file new m absent =
    let ended =
      download_new fi fetches d new
      ∙ download_file_opt-missing fi whole (arrived_of fetches) of_file missing
          (fetch_all fetches d)
          (ap (λ (t : Folder). find_file fi.name t) (fetch_all-temp fetches d) ∙ new) m absent in
    (ended, ap (λ (x : Bool × Disk). x.1.temp) ended ∙ fetch_all-temp fetches d)
