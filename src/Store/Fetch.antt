-- ===== src/Store/Fetch.antt =====
-- store: how a piece of a file is fetched from a user that shares it, part by part. `fetch` is the loop of
-- `DownloadFilechunkToLocal` in store/fileinfo_local.go with one of the users, `fetch_from` its loop over
-- them, where no other call puts the piece into the store; `serve` is `DownloadFilechunk` of
-- store/handlers.go, for a user that has the piece.
pub mod Rounds
pub mod Ends
pub mod Sharers
use polarcloud.Prelude.{
  ℕ, zero, suc, ◌+◌, ◌%◌, Bool, not, ◌&&◌, ◌||◌, List, [], ◌∷◌, ◌++◌, Option, none, some, length,
  take, drop, ltb, leb, ◌==◌, if◌then◌else◌,
}
use Prim.Native.Nat.{◌^◌}
use polarcloud.Store.Folders.{Bytes}

-- `Content` and `ContentLength` of a `FileChunkVO`, which a user answers.
pub record Answer : Type 0 where
  pub content : Bytes
  pub content_length : ℕ

-- A user: the answer to a request from `Index` to `Length`, if one comes.
abbrev pub Sharer : Type 0
Sharer = ℕ → ℕ → Option Answer

-- The file "_tmp" with the place in it where the next `Write` goes, and the variables of the loops.
pub record Part : Type 0 where
  pub tmp : Bytes
  pub place : ℕ
  pub content_length : ℕ
  pub fc_length : ℕ

-- A user's loop ends with the piece, which is renamed into the store, or with a `break`.
pub data Outcome : Type 0 where
  renamed : Bytes → Outcome
  given_up : Part → Outcome
  unfinished : Outcome

unfoldable pub serve : Bytes → Sharer
serve piece index fc_length =
    let upto = if fc_length == 0 || ltb (length piece) fc_length then length piece else fc_length in
    if ltb (length piece) index
    then none
    else if ltb upto index
    then none
    else some (record { content = drop index (take upto piece); content_length = length piece })

-- `newfile.Write`
abbrev pub write_at : ℕ → Bytes → Bytes → Bytes
write_at place bs file = take place file ++ bs ++ drop (place + length bs) file

abbrev pub is_complete : Bytes → ℕ → Bool
is_complete tmp content_length = length tmp == content_length && not (content_length == 0)

-- What becomes of the bytes that came, less than were asked for, more, or as many. The difference is
-- taken as a signed number, below 2^63.
unfoldable pub received : Bytes → Part → Part
received content p =
    let size = length p.tmp in
    if ltb (size + length content) p.fc_length
    then p
    else if ltb p.fc_length (size + length content)
    then record p { tmp = write_at p.place content p.tmp; place = p.place + length content }
    else record p { tmp = write_at size content p.tmp; place = size + length content }

-- The request of a round.
unfoldable pub asked : Part → ℕ
asked p =
    let grown = (p.fc_length + length p.tmp) % 2 ^ 64 in
    if ltb p.content_length grown && not (p.content_length == 0) then p.content_length else grown

-- What a round comes to.
pub data Round : Type 0 where
  ends : Outcome → Round
  again : Part → Round

-- The rest of a round when an answer has come.
unfoldable pub answered : Answer → Part → Round
answered a p =
    let total =
      if leb p.content_length a.content_length then a.content_length else p.content_length in
    let p1 = record p { content_length = total } in
    if is_complete p.tmp total
    then ends (renamed p.tmp)
    else if length a.content == 0
    then ends (given_up p1)
    else again (received a.content p1)

unfoldable pub round : Sharer → Part → Round
round sharer p =
    let p1 = record p { fc_length = asked p } in
    let after : Round = elim (sharer (length p.tmp) (asked p)) [
      | none ↦ ends (given_up p1)
      | some a ↦ answered a p1
    ] in
    if is_complete p.tmp p.content_length then ends (renamed p.tmp) else after

unfoldable pub fetch : ℕ → Sharer → Part → Outcome
fetch zero sharer p = unfinished
fetch (suc n) sharer p = elim (round sharer p) [ ends o ↦ o | again p1 ↦ fetch n sharer p1 ]

-- The users one after the other; each opens the file anew.
unfoldable pub fetch_from : ℕ → List Sharer → Part → Outcome
fetch_from n [] p = given_up p
fetch_from n (sharer ∷ sharers) p = elim (fetch n sharer (record p { place = 0 })) [
  | renamed bs ↦ renamed bs
  | given_up p1 ↦ fetch_from n sharers p1
  | unfinished ↦ unfinished
]
