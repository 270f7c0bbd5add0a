-- ===== src/Store/Diced.antt =====
-- What `Diced` makes of a file: its description, and the pieces in the store.
use polarcloud.Prelude.{
  ℕ, zero, suc, ◌+◌, ◌*◌, ◌/◌, ◌%◌, ◌≤◌, ◌<◌, ◌≡◌, refl, sym, ap, ◌∙◌, Bool, true, false, List, [],
  ◌∷◌, append-nil, append_assoc, Option, some, length, take, drop, All, All-append, ltb,
  if◌then◌else◌, Text, arith,
}
use native.Mathlib.Nat.{zero-add}
use polarcloud.Store.Folders.{Bytes, find_file}
use polarcloud.Store.Ascending.{All-map}
use polarcloud.Store.Pieces.{pieces, count, numbered, with_chunks, add_chunk-new}
use polarcloud.Store.{FileChunk, FileInfo, Disk, write_file_chunk, dice_piece, dice_pieces, diced}

module _ (piece_name whole_hash : Bytes → Text) where
  abbrev pub write_all : List Bytes → Disk → Disk
  write_all [] d = d
  write_all (p ∷ ps) d = write_all ps (write_file_chunk piece_name whole_hash p d).1

  dice_pieces-numbered :
      (c n i : ℕ) (content : Bytes) (fi : FileInfo) (d : Disk)
      → i + n ≤ fi.chunk_count
      → All (λ (x : FileChunk). x.no < i) fi.file_chunk
      → dice_pieces piece_name whole_hash c n i content fi d ≡ (
        with_chunks piece_name fi (numbered piece_name i (pieces c n i content)),
        write_all (pieces c n i content) d,
      )
  unfolding dice_pieces dice_piece pieces write_file_chunk
  dice_pieces-numbered c zero i content fi d h a =
      ap (λ (cs : List FileChunk). (record fi { file_chunk = cs }, d))
        (sym (append-nil fi.file_chunk))
  dice_pieces-numbered c (suc n) i content fi d h a =
      let p : Bytes = take c (drop (i * c) content) in
      let fi1 = with_chunks piece_name fi (numbered piece_name i (p ∷ [])) in
      let lower =
        All-append (λ (x : FileChunk). x.no < suc i) fi.file_chunk (numbered piece_name i (p ∷ []))
          (All-map (λ (x : FileChunk). x.no < i) (λ (x : FileChunk). x.no < suc i) fi.file_chunk
            (λ x l. omega (arith, l)) a)
          (omega arith, tt) in
      rw (add_chunk-new piece_name i p fi (omega (arith, h)) a) (
        dice_pieces-numbered c n (suc i) content fi1 (write_file_chunk piece_name whole_hash p d).1
          (omega (arith, h)) lower
        ∙ ap
            (λ (cs : List FileChunk). (
              record fi { file_chunk = cs },
              write_all (pieces c n (suc i) content) (write_file_chunk piece_name whole_hash p d).1,
            ))
            (append_assoc fi.file_chunk (numbered piece_name i (p ∷ []))
              (numbered piece_name (suc i) (pieces c n (suc i) content))))

  -- The piece behind some pieces is the last of one more.
  dice_pieces_last :
      (c n i : ℕ) (content : Bytes) (fi : FileInfo) (d : Disk)
      → dice_piece piece_name whole_hash c
          (i + n)
          content
          (dice_pieces piece_name whole_hash c n i content fi d).0
          (dice_pieces piece_name whole_hash c n i content fi d).1
        ≡ dice_pieces piece_name whole_hash c (suc n) i content fi d
  unfolding dice_pieces
  dice_pieces_last c zero i content fi d =
      ap (λ (k : ℕ). dice_piece piece_name whole_hash c k content fi d) (omega arith)
  dice_pieces_last c (suc n) i content fi d =
      let r = dice_piece piece_name whole_hash c i content fi d in
      ap
        (λ (k : ℕ).
          dice_piece piece_name whole_hash c k content
            (dice_pieces piece_name whole_hash c n (suc i) content r.0 r.1).0
            (dice_pieces piece_name whole_hash c n (suc i) content r.0 r.1).1)
        (omega arith)
      ∙ dice_pieces_last c n (suc i) content r.0 r.1

  abbrev pub new_info : ℕ → ℕ → Text → Bytes → FileInfo
  new_info c now name content = record {
    hash = whole_hash content;
    name = name;
    size = length content;
    time = now;
    file_chunk = [];
    chunk_count = count c content;
  }

  abbrev answer : FileInfo × Disk → Option FileInfo × Disk
  answer r = (some r.0, r.1)

  -- The piece that is left over, if there is one, counted with the others.
  with_rest :
      (c full : ℕ) (content : Bytes) (fi : FileInfo) (d : Disk) (more : Bool)
      → (if more
          then answer (
              dice_piece piece_name whole_hash c full content
                (dice_pieces piece_name whole_hash c full 0 content fi d).0
                (dice_pieces piece_name whole_hash c full 0 content fi d).1)
          else answer (dice_pieces piece_name whole_hash c full 0 content fi d))
        ≡ answer
            (dice_pieces piece_name whole_hash c (if more then full + 1 else full) 0 content fi d)
  with_rest c full content fi d true =
      let r = dice_pieces piece_name whole_hash c full 0 content fi d in
      let next : suc full ≡ full + 1 = omega arith in
      ap answer (
        ap (λ (k : ℕ). dice_piece piece_name whole_hash c k content r.0 r.1) (sym (zero-add full))
        ∙ dice_pieces_last c full 0 content fi d
        ∙ ap (λ (k : ℕ). dice_pieces piece_name whole_hash c k 0 content fi d) next)
  with_rest c full content fi d false = refl

  -- Of a file that is there, `Diced` answers a description with its size, its hash and the names of its
  -- pieces, numbered from 0 in their order, as many as the size divided by the size of a piece, rounded
  -- up, and it has written just these pieces to the store.
  pub diced-pieces :
      (c now : ℕ) (name : Text) (d : Disk) (content : Bytes)
      → find_file name d.temp ≡ some content
      → diced piece_name whole_hash c now name d ≡ (
        some (record (new_info c now name content) {
          file_chunk = numbered piece_name 0 (pieces c (count c content) 0 content);
        }),
        write_all (pieces c (count c content) 0 content) d,
      )
  unfolding diced
  diced-pieces c now name d content e =
      let r =
        dice_pieces-numbered c (count c content) 0 content (new_info c now name content) d
          (omega arith) tt in
      rw (diced, e)
        (with_rest c (length content / c) content (new_info c now name content) d
            (ltb 0 (length content % c))
          ∙ ap (λ (t : FileInfo × Disk). (some t.0, t.1)) r)
