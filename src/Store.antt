-- ===== src/Store.antt =====
-- store: a file of the cloud is cut into pieces, each stored under its hash, and put together again from
-- them. `diced` is `Diced` of store/filechunk.go, with the hashes as parameters: the name of the piece
-- with such bytes, and the hash of the whole file. `download_file_opt` is `DownloadFileOpt` of
-- store/operation.go. A `Disk` has the folders of the configuration that they use, `Store_dir` and
-- `Store_temp`, and what is done with the files of it succeeds where they are there.
pub mod Folders
pub mod Ascending
pub mod Collected
pub mod Download
pub mod Network
pub mod Pieces
pub mod Diced
pub mod RoundTrip
pub mod Fetch
use polarcloud.Prelude.{
  ℕ, zero, suc, ◌+◌, ◌*◌, ◌/◌, ◌%◌, Bool, true, false, not, ◌||◌, List, [], ◌∷◌, ◌++◌, Option, none,
  some, length, take, drop, ltb, ◌==◌, if◌then◌else◌, Text,
}
use Folders.{Bytes, Folder, find_file, put_file, remove_file, written_over}

-- The users of a piece have no part in what is modelled.
pub record FileChunk : Type 0 where
  pub no : ℕ
  pub hash : Text

pub record FileInfo : Type 0 where
  pub hash : Text
  pub name : Text
  pub size : ℕ
  pub time : ℕ
  pub file_chunk : List FileChunk
  pub chunk_count : ℕ

pub record File : Type 0 where
  pub name : Text
  pub hash : Text
  pub file_chunk : List FileChunk
  pub chunk_count : ℕ

pub record Disk : Type 0 where
  pub store : Folder
  pub temp : Folder

-- Whether a piece has the number: the loop of `AddFileChunk` and `AddChunk`.
unfoldable pub has_no : ℕ → List FileChunk → Bool
has_no n [] = false
has_no n (one ∷ chunks) = one.no == n || has_no n chunks

unfoldable pub add_chunk : FileChunk → FileInfo → FileInfo
add_chunk chunk fi =
    if not (ltb chunk.no fi.chunk_count)
    then fi
    else if has_no chunk.no fi.file_chunk
    then fi
    else record fi { file_chunk = fi.file_chunk ++ chunk ∷ [] }

unfoldable pub add_file_chunk : FileChunk → File → File
add_file_chunk chunk file =
    if not (ltb chunk.no file.chunk_count)
    then file
    else if has_no chunk.no file.file_chunk
    then file
    else record file { file_chunk = file.file_chunk ++ chunk ∷ [] }

abbrev pub new_file : FileInfo → File
new_file fi = record {
  name = fi.name;
  hash = fi.hash;
  file_chunk = [];
  chunk_count = fi.chunk_count;
}

-- `sort.Sort` by `Less`, the number: the numbers differ, so there is one result.
unfoldable pub insert_chunk : FileChunk → List FileChunk → List FileChunk
insert_chunk chunk [] = chunk ∷ []
insert_chunk chunk (one ∷ chunks) =
    let rest = insert_chunk chunk chunks in
    if ltb one.no chunk.no then one ∷ rest else chunk ∷ one ∷ chunks

unfoldable pub sort_chunks : List FileChunk → List FileChunk
sort_chunks [] = []
sort_chunks (one ∷ chunks) = insert_chunk one (sort_chunks chunks)

unfoldable pub check : File → Bool × File
check file =
    let sorted = sort_chunks file.file_chunk in
    (length sorted == file.chunk_count, record file { file_chunk = sorted })

-- The bytes that the loop of `Assemble` writes: up to a piece that is not there.
unfoldable pub read_chunks : Folder → List FileChunk → Bool × Bytes
read_chunks store [] = (true, [])
read_chunks store (one ∷ chunks) =
    let (ok, rest) = read_chunks store chunks in
    elim (find_file one.hash store) [ none ↦ (false, []) | some bs ↦ (ok, bs ++ rest) ]

unfoldable pub assemble : File → Disk → Bool × Disk
assemble file d =
    let (ok, bs) = read_chunks d.store (sort_chunks file.file_chunk) in
    let whole = written_over bs (find_file file.hash d.temp) in
    if ok
    then (true, record d { temp = put_file file.name whole (remove_file file.hash d.temp) })
    else (false, record d { temp = put_file file.hash whole d.temp })

-- The pieces arrive in some order, each some number of times: what the goroutines of `DownloadFileOpt`
-- add to the file.
unfoldable pub add_arrived : List FileChunk → File → File
add_arrived [] file = file
add_arrived (one ∷ arrived) file = add_arrived arrived (add_file_chunk one file)

-- `DownloadFileOpt` but for what fetching writes: the disk is the one that the goroutines leave
-- (`Store.Network.download` puts both together).
unfoldable pub download_file_opt : FileInfo → List FileChunk → Disk → Bool × Disk
download_file_opt fi arrived d =
    let (complete, file) = check (add_arrived arrived (new_file fi)) in
    let assembled = if complete then assemble file d else (false, d) in
    elim (find_file fi.name d.temp) [ some bs ↦ (true, d) | none ↦ assembled ]

module _ (piece_name whole_hash : Bytes → Text) where
  unfoldable pub write_file_chunk : Bytes → Disk → Text × Disk
  write_file_chunk bs d =
      let name = piece_name bs in
      (name, record d { store = put_file name (written_over bs (find_file name d.store)) d.store })

  -- The piece with the number, and all from it on, so many.
  unfoldable pub dice_piece : ℕ → ℕ → Bytes → FileInfo → Disk → FileInfo × Disk
  dice_piece chunk_size i content fi d =
      let (hash, d1) = write_file_chunk (take chunk_size (drop (i * chunk_size) content)) d in
      (add_chunk (record { no = i; hash = hash }) fi, d1)

  unfoldable pub dice_pieces : ℕ → ℕ → ℕ → Bytes → FileInfo → Disk → FileInfo × Disk
  dice_pieces chunk_size zero i content fi d = (fi, d)
  dice_pieces chunk_size (suc n) i content fi d =
      let (fi1, d1) = dice_piece chunk_size i content fi d in
      dice_pieces chunk_size n (suc i) content fi1 d1

  unfoldable pub diced : ℕ → ℕ → Text → Disk → Option FileInfo × Disk
  diced chunk_size now name d = elim (find_file name d.temp) [
    | none ↦ (none, d)
    | some content ↦
        let size = length content in
        let full = size / chunk_size in
        let rest = size % chunk_size in
        let fi : FileInfo = record {
          hash = whole_hash content;
          name = name;
          size = size;
          time = now;
          file_chunk = [];
          chunk_count = if ltb 0 rest then full + 1 else full;
        } in
        let (fi1, d1) = dice_pieces chunk_size full 0 content fi d in
        let (fi2, d2) = dice_piece chunk_size full content fi1 d1 in
        if ltb 0 rest then (some fi2, d2) else (some fi1, d1)
  ]
