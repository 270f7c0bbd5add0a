-- ===== src/Store/Download.antt =====
-- What `DownloadFileOpt` makes of the pieces that arrive.
use polarcloud.Prelude.{
  ◌≤◌, ◌≡◌, refl, sym, ◌∙◌, ◌⊎◌, inl, inr, true, false, List, [], ◌∷◌, none, some, length, ◌==◌,
  if◌then◌else◌, Bool-cases, Text, arith,
}
use mathlib.Core.Path.{subst}
use mathlib.Core.List.{Memᴰ}
use polarcloud.Store.Ascending.{
  Ascending, Within, All-sort_chunks, Memᴰ-sort_chunks, sort_chunks-Ascending, sort_chunks-sorted,
  Ascending-equal, Ascending-whole,
}
use polarcloud.Store.Collected.{IsWhole, IsPartOf, add_arrived-Adds, add_arrived-from}
use polarcloud.Store.Folders.{
  Bytes, find_file, put_file, remove_file, find_file-put_file, written_over_longer, or_nil,
}
use polarcloud.Store.{
  FileChunk, FileInfo, File, Disk, new_file, sort_chunks, check, read_chunks, assemble, add_arrived,
  download_file_opt,
}

-- The pieces of `cs` at a list: each of them, or one by one.
Within-All : (cs ds : List FileChunk) → ((x : FileChunk) → Memᴰ x ds → Memᴰ x cs) → Within cs ds
Within-All cs [] f = tt
Within-All cs (d ∷ ds) f = (f d (Memᴰ.head refl), Within-All cs ds (λ x m. f x (Memᴰ.tail m)))

Within-Memᴰ : (cs ds : List FileChunk) (x : FileChunk) → Within cs ds → Memᴰ x ds → Memᴰ x cs
Within-Memᴰ cs [] x w m = elim m [ ]
Within-Memᴰ cs (d ∷ ds) x (n, w) (Memᴰ.head e) = subst (λ y. Memᴰ y cs) (sym e) n
Within-Memᴰ cs (d ∷ ds) x (n, w) (Memᴰ.tail m) = Within-Memᴰ cs ds x w m

download_file_opt-new :
    (fi : FileInfo) (arrived : List FileChunk) (d : Disk)
    → find_file fi.name d.temp ≡ none
    → download_file_opt fi arrived d ≡ (
        if (check (add_arrived arrived (new_file fi))).0
        then assemble (check (add_arrived arrived (new_file fi))).1 d
        else (false, d))
unfolding download_file_opt
download_file_opt-new fi arrived d e = rw (download_file_opt, e)

assemble-read_chunks :
    (file : File) (d : Disk) (chunks : List FileChunk) (content : Bytes)
    → sort_chunks file.file_chunk ≡ chunks
    → read_chunks d.store chunks ≡ (true, content)
    → length (or_nil (find_file file.hash d.temp)) ≤ length content
    → assemble file d
      ≡ (true, record d { temp = put_file file.name content (remove_file file.hash d.temp) })
unfolding assemble
assemble-read_chunks file d chunks content e r short =
    rw (e, r, written_over_longer content (find_file file.hash d.temp) short)

module _ (fi : FileInfo) (whole : IsWhole fi) (arrived : List FileChunk)
    (of_file : Within fi.file_chunk arrived) where
  abbrev collected : File
  collected = add_arrived arrived (new_file fi)

  adds :
      IsPartOf fi collected
      × ((x : FileChunk)
          → Memᴰ x arrived ⊎ Memᴰ x (new_file fi).file_chunk
          → Memᴰ x collected.file_chunk)
  adds =
      add_arrived-Adds fi whole arrived (new_file fi)
        (record {
          distinct = tt;
          within = tt;
          same_name = refl;
          same_hash = refl;
          same_count = refl;
        })
        of_file

  sorted-Ascending : Ascending (sort_chunks collected.file_chunk)
  sorted-Ascending = sort_chunks-Ascending collected.file_chunk adds.0.distinct

  sorted-Within : Within fi.file_chunk (sort_chunks collected.file_chunk)
  sorted-Within =
      All-sort_chunks (λ (c : FileChunk). Memᴰ c fi.file_chunk) collected.file_chunk adds.0.within

  -- If all have arrived, the sorted ones are those of the file's description.
  sorted_all : Within arrived fi.file_chunk → sort_chunks collected.file_chunk ≡ fi.file_chunk
  sorted_all all =
      Ascending-equal (sort_chunks collected.file_chunk) fi.file_chunk sorted-Ascending
        whole.ascending sorted-Within
        (Within-All (sort_chunks collected.file_chunk) fi.file_chunk (λ x m.
          Memᴰ-sort_chunks x collected.file_chunk
            (adds.1 x (inl (Within-Memᴰ arrived fi.file_chunk x all m)))))

  -- `Check` finds the file complete only if all have arrived.
  check-all : (check collected).0 ≡ true → Within arrived fi.file_chunk
  unfolding check
  check-all h =
      let same : sort_chunks collected.file_chunk ≡ fi.file_chunk =
        Ascending-whole (sort_chunks collected.file_chunk) fi.file_chunk sorted-Ascending
          whole.ascending sorted-Within (ground (arith, h, whole.counted, adds.0.same_count)) in
      let from_collected =
        All-sort_chunks (λ (c : FileChunk). Memᴰ c collected.file_chunk) collected.file_chunk
          (Within-All collected.file_chunk collected.file_chunk (λ x m. m)) in
      Within-All arrived fi.file_chunk (λ x m.
        elim (add_arrived-from arrived (new_file fi) x (
          Within-Memᴰ collected.file_chunk (sort_chunks collected.file_chunk) x from_collected
            (subst (λ (cs : List FileChunk). Memᴰ x cs) (sym same) m))) [
              | inl k ↦ k
              | inr k ↦ elim k [ ]
            ])

  check_complete :
      Within arrived fi.file_chunk
      → check collected ≡ (true, record collected { file_chunk = fi.file_chunk })
  unfolding check
  check_complete all =
      let long : (length fi.file_chunk == collected.chunk_count) ≡ true =
        ground (arith, whole.counted, adds.0.same_count) in
      rw (sorted_all all, long)

  -- A download ends with the file in its folder: of a whole description, if the file was not there, each of
  -- its pieces has arrived, in whatever order and however often and nothing else, the pieces that the
  -- store holds under their hashes make up the content, and nothing longer was left at the place where
  -- the file is put together.
  pub download_file_opt-read_chunks :
      (content : Bytes) (d : Disk)
      → find_file fi.name d.temp ≡ none
      → Within arrived fi.file_chunk
      → read_chunks d.store fi.file_chunk ≡ (true, content)
      → length (or_nil (find_file fi.hash d.temp)) ≤ length content
      → ((download_file_opt fi arrived d).0 ≡ true)
        × (find_file fi.name (download_file_opt fi arrived d).1.temp ≡ some content)
        × ((download_file_opt fi arrived d).1.store ≡ d.store)
  download_file_opt-read_chunks content d new all readable short =
      let assembled =
        assemble-read_chunks (record collected { file_chunk = fi.file_chunk }) d fi.file_chunk
          content (sort_chunks-sorted fi.file_chunk whole.ascending) readable
          (subst (λ (h : Text). length (or_nil (find_file h d.temp)) ≤ length content)
            (sym adds.0.same_hash) short) in
      let result : download_file_opt fi arrived d ≡ (
        true,
        record d { temp = put_file collected.name content (remove_file collected.hash d.temp) },
      ) =
        download_file_opt-new fi arrived d new ∙ rw (check_complete all) assembled in
      rw result (
        refl,
        rw adds.0.same_name
            (find_file-put_file fi.name content (remove_file collected.hash d.temp)),
        refl,
      )

  -- A download of which a piece has not arrived ends with an error and does nothing to the disk that the
  -- goroutines left, if the description is whole, the file is not there yet, and what has arrived are
  -- pieces of the file.
  pub download_file_opt-missing :
      (missing : FileChunk) (d : Disk)
      → find_file fi.name d.temp ≡ none
      → Memᴰ missing fi.file_chunk
      → (Memᴰ missing arrived → ⊥)
      → download_file_opt fi arrived d ≡ (false, d)
  download_file_opt-missing missing d new m absent = elim (Bool-cases (check collected).0) [
    | inl complete ↦
        absurd (absent (Within-Memᴰ arrived fi.file_chunk missing (check-all complete) m))
    | inr incomplete ↦ download_file_opt-new fi arrived d new ∙ rw incomplete
  ]
