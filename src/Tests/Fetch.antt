-- ===== src/Tests/Fetch.antt =====
-- Three bytes, fetched two at a time.
use polarcloud.Prelude.{◌≡◌, refl, [], ◌∷◌, arith}
use polarcloud.Store.Folders.{Bytes}
use polarcloud.Store.Fetch.Sharers.{silent, short, fetch_from-serve, fetch_from-short}
use polarcloud.Store.Fetch.{Part, renamed, unfinished, serve, fetch_from}

abbrev part_of : Bytes → Part
part_of tmp = record { tmp = tmp; place = 0; content_length = 0; fc_length = 2 }

fetch_from-serve_example :
    fetch_from 4 (silent ∷ serve (1 ∷ 2 ∷ 3 ∷ []) ∷ short (9 ∷ []) ∷ []) (part_of (1 ∷ []))
    ≡ renamed (1 ∷ 2 ∷ 3 ∷ [])
fetch_from-serve_example =
    fetch_from-serve 1 4 (1 ∷ 2 ∷ 3 ∷ []) (1 ∷ []) (2 ∷ 3 ∷ []) (short (9 ∷ []) ∷ []) 0 2 refl
      (omega arith) (omega arith) (omega arith) (omega arith) (omega arith)

fetch_from-short_example :
    fetch_from 50 (short (9 ∷ []) ∷ serve (1 ∷ 2 ∷ 3 ∷ []) ∷ []) (part_of []) ≡ unfinished
fetch_from-short_example =
    fetch_from-short 50 (9 ∷ []) (serve (1 ∷ 2 ∷ 3 ∷ []) ∷ []) 0 2 (omega arith) (omega arith)
      (omega arith)
