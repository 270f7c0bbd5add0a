-- ===== src/Store/RoundTrip.antt =====
-- What was cut into pieces comes back when it is downloaded.
use polarcloud.Prelude.{
  ℕ, suc, ◌≤◌, ◌<◌, ◌≡◌, ◌⊎◌, refl, sym, ap, ◌∙◌, inl, inr, Bool, true, false, List, [], ◌∷◌, ◌++◌,
  Option, none, some, length, All, Bool-cases, Text, eq_text, eq_text_sound, arith,
}
use mathlib.Core.Path.{subst}
use mathlib.Core.List.{Memᴰ}
use polarcloud.Store.Folders.{
  Bytes, Folder, find_file, written_over, written_over_same, find_file-put_file,
  find_file-put_file_other, or_nil,
}
use polarcloud.Store.Ascending.{Within}
use polarcloud.Store.Collected.{IsWhole}
use polarcloud.Store.Download.{download_file_opt-read_chunks}
use polarcloud.Store.Pieces.{
  concat, pieces, count, concat-pieces, length-pieces, numbered, length-numbered,
  numbered-Ascending, numbered-fits,
}
use polarcloud.Store.Diced.{write_all, diced-pieces}
use polarcloud.Store.{
  FileChunk, FileInfo, Disk, write_file_chunk, diced, read_chunks, download_file_opt,
}

-- No two of the pieces have one name and other bytes.
abbrev pub NoCollision : (Bytes → Text) → List Bytes → Type 0
NoCollision piece_name ps =
    (p q : Bytes) → Memᴰ p ps → Memᴰ q ps → piece_name p ≡ piece_name q → p ≡ q

-- What the store holds under the names of the pieces, if anything, is the pieces.
abbrev pub HoldsNoOther : (Bytes → Text) → List Bytes → Folder → Type 0
HoldsNoOther piece_name ps store =
    (p : Bytes)
    → Memᴰ p ps
    → (find_file (piece_name p) store ≡ none) ⊎ (find_file (piece_name p) store ≡ some p)

module _ (piece_name whole_hash : Bytes → Text) (all : List Bytes)
    (apart : NoCollision piece_name all) where
  write_file_chunk-stored :
      (p : Bytes) (d : Disk)
      → Memᴰ p all
      → HoldsNoOther piece_name all d.store
      → find_file (piece_name p) (write_file_chunk piece_name whole_hash p d).1.store ≡ some p
  unfolding write_file_chunk
  write_file_chunk-stored p d m h =
      find_file-put_file (piece_name p) (written_over p (find_file (piece_name p) d.store)) d.store
      ∙ elim (h p m) [
        | inl e ↦ ap (λ (o : Option Bytes). some (written_over p o)) e
        | inr e ↦
            ap (λ (o : Option Bytes). some (written_over p o)) e ∙ ap some (written_over_same p)
      ]

  -- Of another piece the store holds what it held.
  write_file_chunk-other :
      (p q : Bytes) (d : Disk)
      → Memᴰ p all
      → Memᴰ q all
      → HoldsNoOther piece_name all d.store
      → (find_file (piece_name q) (write_file_chunk piece_name whole_hash p d).1.store ≡ some q)
        ⊎ (find_file (piece_name q) (write_file_chunk piece_name whole_hash p d).1.store
            ≡ find_file (piece_name q) d.store)
  unfolding write_file_chunk
  write_file_chunk-other p q d m n h = elim (Bool-cases (eq_text (piece_name p) (piece_name q))) [
    | inl same ↦
        let e : p ≡ q = apart p q m n (eq_text_sound (piece_name p) (piece_name q) same) in
        inl (
          subst
            (λ (x : Bytes).
              find_file (piece_name x) (write_file_chunk piece_name whole_hash p d).1.store
              ≡ some x)
            e (write_file_chunk-stored p d m h))
    | inr other ↦ inr (
        find_file-put_file_other (piece_name q) (piece_name p)
          (written_over p (find_file (piece_name p) d.store)) d.store other)
  ]

  write_file_chunk-HoldsNoOther :
      (p : Bytes) (d : Disk)
      → Memᴰ p all
      → HoldsNoOther piece_name all d.store
      → HoldsNoOther piece_name all (write_file_chunk piece_name whole_hash p d).1.store
  write_file_chunk-HoldsNoOther p d m h q n = elim (write_file_chunk-other p q d m n h) [
    | inl e ↦ inr e
    | inr e ↦ elim (h q n) [ inl f ↦ inl (e ∙ f) | inr f ↦ inr (e ∙ f) ]
  ]

  write_all-stored :
      (ps : List Bytes) (q : Bytes) (d : Disk)
      → All (λ (p : Bytes). Memᴰ p all) ps
      → Memᴰ q all
      → HoldsNoOther piece_name all d.store
      → Memᴰ q ps ⊎ (find_file (piece_name q) d.store ≡ some q)
      → find_file (piece_name q) (write_all piece_name whole_hash ps d).store ≡ some q
  write_all-stored [] q d w n h (inl m) = elim m [ ]
  write_all-stored [] q d w n h (inr e) = e
  write_all-stored (p ∷ ps) q d (m, w) n h o =
      let d1 = (write_file_chunk piece_name whole_hash p d).1 in
      write_all-stored ps q d1 w n (write_file_chunk-HoldsNoOther p d m h) (elim o [
        | inl (Memᴰ.head e) ↦ inr (
            subst (λ (x : Bytes). find_file (piece_name x) d1.store ≡ some x) (sym e)
              (write_file_chunk-stored p d m h))
        | inl (Memᴰ.tail l) ↦ inl l
        | inr e ↦ elim (write_file_chunk-other p q d m n h) [ inl f ↦ inr f | inr f ↦ inr (f ∙ e) ]
      ])

  read_chunks-numbered :
      (i : ℕ) (ps : List Bytes) (store : Folder)
      → ((q : Bytes) → Memᴰ q ps → find_file (piece_name q) store ≡ some q)
      → read_chunks store (numbered piece_name i ps) ≡ (true, concat ps)
  unfolding read_chunks
  read_chunks-numbered i [] store h = refl
  read_chunks-numbered i (p ∷ ps) store h = rw (
    read_chunks,
    h p (Memᴰ.head refl),
    read_chunks-numbered (suc i) ps store (λ q m. h q (Memᴰ.tail m)),
  )

-- Stores that hold the same under the names of some pieces.
abbrev pub HoldsSame : List FileChunk → Folder → Folder → Type 0
HoldsSame chunks store other =
    All (λ (c : FileChunk). find_file c.hash other ≡ find_file c.hash store) chunks

abbrev read_one : Option Bytes → Bool × Bytes → Bool × Bytes
read_one o r = elim o [ none ↦ (false, []) | some bs ↦ (r.0, bs ++ r.1) ]

read_chunks-HoldsSame :
    (chunks : List FileChunk) (store other : Folder)
    → HoldsSame chunks store other
    → read_chunks other chunks ≡ read_chunks store chunks
unfolding read_chunks
read_chunks-HoldsSame [] store other h = refl
read_chunks-HoldsSame (c ∷ chunks) store other (e, h) =
    ap (λ (o : Option Bytes). read_one o (read_chunks other chunks)) e
    ∙ ap (λ (r : Bool × Bytes). read_one (find_file c.hash store) r)
        (read_chunks-HoldsSame chunks store other h)

Within-self : (xs : List Bytes) → All (λ (p : Bytes). Memᴰ p xs) xs
Within-self xs = go xs (λ p m. m)
  where
    go :
        (ys : List Bytes)
        → ((p : Bytes) → Memᴰ p ys → Memᴰ p xs)
        → All (λ (p : Bytes). Memᴰ p xs) ys
    go [] f = tt
    go (y ∷ ys) f = (f y (Memᴰ.head refl), go ys (λ p m. f p (Memᴰ.tail m)))

module _ (piece_name whole_hash : Bytes → Text) (chunk_size now : ℕ) (name : Text) (d : Disk)
    (content : Bytes) (positive : 0 < chunk_size) (there : find_file name d.temp ≡ some content)
    (apart : NoCollision piece_name (pieces chunk_size (count chunk_size content) 0 content))
    (no_other : HoldsNoOther piece_name
      (pieces chunk_size (count chunk_size content) 0 content)
      d.store)
    (fi : FileInfo) (got : (diced piece_name whole_hash chunk_size now name d).0 ≡ some fi) where
  abbrev cut : List Bytes
  cut = pieces chunk_size (count chunk_size content) 0 content

  abbrev info : FileInfo
  info = record {
    hash = whole_hash content;
    name = name;
    size = length content;
    time = now;
    file_chunk = numbered piece_name 0 cut;
    chunk_count = count chunk_size content;
  }

  abbrev or_info : Option FileInfo → FileInfo
  or_info none = info
  or_info (some x) = x

  answered :
      diced piece_name whole_hash chunk_size now name d
      ≡ (some info, write_all piece_name whole_hash cut d)
  answered = diced-pieces piece_name whole_hash chunk_size now name d content there

  same_info : info ≡ fi
  same_info = ap or_info (sym (ap (λ (r : Option FileInfo × Disk). r.0) answered) ∙ got)

  info-IsWhole : IsWhole info
  info-IsWhole =
      let long = length-pieces chunk_size (count chunk_size content) 0 content in
      record {
        ascending = numbered-Ascending piece_name 0 cut;
        fits = numbered-fits piece_name 0 (count chunk_size content) cut (omega (arith, long));
        counted = length-numbered piece_name 0 cut ∙ long;
      }

  pub diced-IsWhole : IsWhole fi
  diced-IsWhole = subst IsWhole same_info info-IsWhole

  pub read_chunks-diced :
      read_chunks (diced piece_name whole_hash chunk_size now name d).1.store fi.file_chunk
      ≡ (true, content)
  read_chunks-diced =
      subst
        (λ (x : FileInfo).
          read_chunks (diced piece_name whole_hash chunk_size now name d).1.store x.file_chunk
          ≡ (true, content))
        same_info
        (rw answered (
          read_chunks-numbered piece_name whole_hash cut apart 0 cut
            (write_all piece_name whole_hash cut d).store
            (λ q m.
              write_all-stored piece_name whole_hash cut apart cut q d (Within-self cut) m no_other
                (inl m))
          ∙ ap (λ (t : Bytes). (true, t)) (concat-pieces chunk_size content positive)))

  -- A file that was cut into pieces is there again after its download, on the disk that has the pieces or
  -- on another that holds the same under their names: if each of its pieces has arrived and nothing
  -- else, in whatever order and however often, no two pieces of the file have one name and other
  -- bytes, the store had nothing else under their names, and the file is new in its folder, with nothing
  -- longer left at the place where it is put together.
  pub download_file_opt-diced :
      (arrived : List FileChunk) (other : Disk)
      → Within fi.file_chunk arrived
      → Within arrived fi.file_chunk
      → HoldsSame fi.file_chunk
          (diced piece_name whole_hash chunk_size now name d).1.store
          other.store
      → find_file name other.temp ≡ none
      → length (or_nil (find_file fi.hash other.temp)) ≤ length content
      → ((download_file_opt fi arrived other).0 ≡ true)
        × (find_file name (download_file_opt fi arrived other).1.temp ≡ some content)
  download_file_opt-diced arrived other of_file each same new short =
      let called : fi.name ≡ name = ap (λ (x : FileInfo). x.name) (sym same_info) in
      let r =
        download_file_opt-read_chunks fi diced-IsWhole arrived of_file content other
          (ap (λ (n : Text). find_file n other.temp) called ∙ new) each
          (read_chunks-HoldsSame fi.file_chunk
              (diced piece_name whole_hash chunk_size now name d).1.store other.store same
            ∙ read_chunks-diced)
          short in
      (
        r.0,
        ap (λ (n : Text). find_file n (download_file_opt fi arrived other).1.temp) (sym called)
            ∙ r.1,
      )
