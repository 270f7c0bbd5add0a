-- ===== src/Tests/Store.antt =====
-- A file of three bytes in pieces of two, each named by its own bytes.
use polarcloud.Prelude.{◌≡◌, refl, ap, inl, true, false, List, [], ◌∷◌, some, Text, eq_text, arith}
use mathlib.Core.List.{Memᴰ}
use polarcloud.Store.Folders.{Bytes, find_file, put_file}
use polarcloud.Store.Pieces.{pieces}
use polarcloud.Store.Collected.{IsWhole}
use polarcloud.Store.Network.{
  Fetched, renamed, failed, arrived_of, fetch_all, download, download-missing,
}
use polarcloud.Store.Diced.{write_all, diced-pieces}
use polarcloud.Store.RoundTrip.{download_file_opt-diced}
use polarcloud.Store.{
  FileChunk, FileInfo, Disk, has_no, add_chunk, write_file_chunk, dice_piece, dice_pieces, diced,
  download_file_opt,
}

abbrev own_bytes : Bytes → Text
own_bytes bs = bs

abbrev whole : Bytes → Text
whole bs = 0 ∷ bs

abbrev dicer : Disk
dicer = record { store = []; temp = (5 ∷ [], 1 ∷ 2 ∷ 3 ∷ []) ∷ [] }

abbrev first_chunk : FileChunk
first_chunk = record { no = 0; hash = 1 ∷ 2 ∷ [] }

abbrev second_chunk : FileChunk
second_chunk = record { no = 1; hash = 3 ∷ [] }

abbrev description : FileInfo
description = record {
  hash = 0 ∷ 1 ∷ 2 ∷ 3 ∷ [];
  name = 5 ∷ [];
  size = 3;
  time = 77;
  file_chunk = first_chunk ∷ second_chunk ∷ [];
  chunk_count = 2;
}

-- Another disk that has the pieces, and a rest of an earlier try.
abbrev reader : Disk
reader = record {
  store = (3 ∷ [], 3 ∷ []) ∷ (1 ∷ 2 ∷ [], 1 ∷ 2 ∷ []) ∷ [];
  temp = (0 ∷ 1 ∷ 2 ∷ 3 ∷ [], 1 ∷ []) ∷ [];
}

download_file_opt-diced_example :
    ((download_file_opt description (second_chunk ∷ first_chunk ∷ second_chunk ∷ []) reader).0
      ≡ true)
    × (find_file
          (5 ∷ [])
          (download_file_opt description
            (second_chunk ∷ first_chunk ∷ second_chunk ∷ [])
            reader).1.temp
        ≡ some (1 ∷ 2 ∷ 3 ∷ []))
unfolding diced dice_pieces dice_piece write_file_chunk add_chunk has_no find_file put_file pieces
    eq_text
download_file_opt-diced_example =
    download_file_opt-diced own_bytes whole 2 77 (5 ∷ []) dicer (1 ∷ 2 ∷ 3 ∷ []) (omega arith) refl
      (λ p q m n e. e) (λ p m. inl refl) description refl
      (second_chunk ∷ first_chunk ∷ second_chunk ∷ []) reader
      (Memᴰ.tail (Memᴰ.head refl), (Memᴰ.head refl, (Memᴰ.tail (Memᴰ.head refl), tt)))
      (Memᴰ.tail (Memᴰ.head refl), (Memᴰ.head refl, tt)) (refl, (refl, tt)) refl (omega arith)

diced-pieces_example :
    diced own_bytes whole 2 77 (5 ∷ []) dicer
    ≡ (some description, write_all own_bytes whole ((1 ∷ 2 ∷ []) ∷ (3 ∷ []) ∷ []) dicer)
unfolding pieces find_file eq_text
diced-pieces_example = diced-pieces own_bytes whole 2 77 (5 ∷ []) dicer (1 ∷ 2 ∷ 3 ∷ []) refl

description-IsWhole : IsWhole description
description-IsWhole = record {
  ascending = ((omega arith, tt), (tt, tt));
  fits = (omega arith, (omega arith, tt));
  counted = refl;
}

first_not_second : Memᴰ first_chunk (second_chunk ∷ []) → ⊥
first_not_second (Memᴰ.head e) = omega (arith, ap (λ (c : FileChunk). c.no) e)
first_not_second (Memᴰ.tail m) = elim m [ ]

-- The second piece comes, and of the first only a byte.
abbrev fetches : List Fetched
fetches = renamed second_chunk (3 ∷ []) ∷ failed first_chunk (some (1 ∷ [])) ∷ []

download-missing_example :
    (download description fetches reader ≡ (false, fetch_all fetches reader))
    × ((download description fetches reader).1.temp ≡ reader.temp)
unfolding find_file eq_text arrived_of
download-missing_example =
    download-missing description fetches first_chunk reader description-IsWhole
      (Memᴰ.tail (Memᴰ.head refl), tt) refl (Memᴰ.head refl) first_not_second
