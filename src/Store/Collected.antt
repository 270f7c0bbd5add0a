-- ===== src/Store/Collected.antt =====
-- The pieces that a download has collected, in whatever order they arrived.
use polarcloud.Prelude.{
  ℕ, ◌<◌, ◌≡◌, ◌≢◌, refl, sym, ◌⊎◌, inl, inr, true, false, List, [], ◌∷◌, ◌++◌, length, All,
  All-append, ltb, ltb_of_lt, ◌==◌, Bool-cases, arith,
}
use mathlib.Core.Path.{subst}
use mathlib.Core.List.{Memᴰ}
use polarcloud.Store.Ascending.{Ascending, Distinct, Within, All-Memᴰ, same_no}
use polarcloud.Store.{FileChunk, FileInfo, File, has_no, add_file_chunk, add_arrived}

-- The pieces of a file's description are all of the file's, in their order.
pub record IsWhole (fi : FileInfo) : Type 0 where
  pub ascending : Ascending fi.file_chunk
  pub fits : All (λ (c : FileChunk). c.no < fi.chunk_count) fi.file_chunk
  pub counted : length fi.file_chunk ≡ fi.chunk_count

-- Either no piece has the number, or one has.
has_no-cases :
    (n : ℕ) (cs : List FileChunk)
    → ((has_no n cs ≡ false) × All (λ (d : FileChunk). d.no ≢ n) cs)
      ⊎ ((has_no n cs ≡ true) × ((d : FileChunk) × Memᴰ d cs × (d.no ≡ n)))
unfolding has_no
has_no-cases n [] = inl (refl, tt)
has_no-cases n (c ∷ cs) = elim (Bool-cases (c.no == n)) [
  | inl same ↦ inr (rw same refl, (c, Memᴰ.head refl, ground arith))
  | inr other ↦ elim (has_no-cases n cs) [
    | inl (none_has, lacks) ↦ inl (rw other none_has, (ground arith, lacks))
    | inr (one_has, (d, m, e)) ↦ inr (rw other one_has, (d, Memᴰ.tail m, e))
  ]
]

snoc-Distinct :
    (c : FileChunk) (cs : List FileChunk)
    → Distinct cs
    → All (λ (d : FileChunk). d.no ≢ c.no) cs
    → Distinct (cs ++ c ∷ [])
snoc-Distinct c [] h n = (tt, tt)
snoc-Distinct c (d ∷ cs) (m, h) (k, n) = (
  All-append (λ (x : FileChunk). x.no ≢ d.no) cs (c ∷ []) m ((λ e. k (sym e)), tt),
  snoc-Distinct c cs h n,
)

Memᴰ-snoc : (x c : FileChunk) (cs : List FileChunk) → Memᴰ x cs → Memᴰ x (cs ++ c ∷ [])
Memᴰ-snoc x c [] m = elim m [ ]
Memᴰ-snoc x c (d ∷ cs) (Memᴰ.head e) = Memᴰ.head e
Memᴰ-snoc x c (d ∷ cs) (Memᴰ.tail m) = Memᴰ.tail (Memᴰ-snoc x c cs m)

Memᴰ-last : (c : FileChunk) (cs : List FileChunk) → Memᴰ c (cs ++ c ∷ [])
Memᴰ-last c [] = Memᴰ.head refl
Memᴰ-last c (d ∷ cs) = Memᴰ.tail (Memᴰ-last c cs)

-- What a file has collected of the pieces of its description: none twice, and what it is called.
pub record IsPartOf (fi : FileInfo) (file : File) : Type 0 where
  pub distinct : Distinct file.file_chunk
  pub within : Within fi.file_chunk file.file_chunk
  pub same_name : file.name ≡ fi.name
  pub same_hash : file.hash ≡ fi.hash
  pub same_count : file.chunk_count ≡ fi.chunk_count

module _ (fi : FileInfo) (whole : IsWhole fi) where
  record Adds (one : FileChunk) (before after : File) : Type 0 where
    part : IsPartOf fi after
    added : Memᴰ one after.file_chunk
    kept : (x : FileChunk) → Memᴰ x before.file_chunk → Memᴰ x after.file_chunk

  add_file_chunk-Adds :
      (one : FileChunk) (file : File)
      → IsPartOf fi file
      → Memᴰ one fi.file_chunk
      → Adds one file (add_file_chunk one file)
  unfolding add_file_chunk
  add_file_chunk-Adds one file p m =
      let fits : one.no < file.chunk_count = omega (
        arith,
        p.same_count,
        All-Memᴰ (λ (c : FileChunk). c.no < fi.chunk_count) one fi.file_chunk whole.fits m,
      ) in
      let guard = ltb_of_lt one.no file.chunk_count fits in
      elim (has_no-cases one.no file.file_chunk) [
        | inl (absent, lacks) ↦
            rw (guard, absent)
              (record {
                part = record {
                  distinct = snoc-Distinct one file.file_chunk p.distinct lacks;
                  within =
                      All-append (λ (c : FileChunk). Memᴰ c fi.file_chunk) file.file_chunk
                        (one ∷ []) p.within (m, tt);
                  same_name = p.same_name;
                  same_hash = p.same_hash;
                  same_count = p.same_count;
                };
                added = Memᴰ-last one file.file_chunk;
                kept = λ x k. Memᴰ-snoc x one file.file_chunk k;
              })
        | inr (present, (d, k, e)) ↦
            let same : d ≡ one =
              same_no fi.file_chunk d one whole.ascending
                (All-Memᴰ (λ (c : FileChunk). Memᴰ c fi.file_chunk) d file.file_chunk p.within k) m
                e in
            rw (guard, present)
              (record {
                part = p;
                added = subst (λ (x : FileChunk). Memᴰ x file.file_chunk) same k;
                kept = λ x l. l;
              })
      ]

  pub add_arrived-Adds :
      (arrived : List FileChunk) (file : File)
      → IsPartOf fi file
      → Within fi.file_chunk arrived
      → IsPartOf fi (add_arrived arrived file)
        × ((x : FileChunk)
            → Memᴰ x arrived ⊎ Memᴰ x file.file_chunk
            → Memᴰ x (add_arrived arrived file).file_chunk)
  unfolding add_arrived
  add_arrived-Adds [] file p w = (p, λ x o. elim o [ inl m ↦ elim m [ ] | inr m ↦ m ])
  add_arrived-Adds (one ∷ arrived) file p (m, w) =
      let r = add_file_chunk-Adds one file p m in
      let (part, kept) = add_arrived-Adds arrived (add_file_chunk one file) r.part w in
      (
        part,
        λ x o. elim o [
          | inl (Memᴰ.head e) ↦ kept x (
              inr (
                subst (λ (y : FileChunk). Memᴰ y (add_file_chunk one file).file_chunk) (sym e)
                  r.added))
          | inl (Memᴰ.tail k) ↦ kept x (inl k)
          | inr k ↦ kept x (inr (r.kept x k))
        ],
      )

add_file_chunk-cases :
    (one : FileChunk) (file : File)
    → ((add_file_chunk one file).file_chunk ≡ file.file_chunk)
      ⊎ ((add_file_chunk one file).file_chunk ≡ file.file_chunk ++ one ∷ [])
unfolding add_file_chunk
add_file_chunk-cases one file = elim (Bool-cases (ltb one.no file.chunk_count)) [
  | inl low ↦ elim (Bool-cases (has_no one.no file.file_chunk)) [
    | inl present ↦ inl (rw (low, present) refl)
    | inr absent ↦ inr (rw (low, absent) refl)
  ]
  | inr high ↦ inl (rw high refl)
]

snoc-from : (x c : FileChunk) (cs : List FileChunk) → Memᴰ x (cs ++ c ∷ []) → Memᴰ x cs ⊎ (x ≡ c)
snoc-from x c [] (Memᴰ.head e) = inr e
snoc-from x c [] (Memᴰ.tail m) = elim m [ ]
snoc-from x c (d ∷ cs) (Memᴰ.head e) = inl (Memᴰ.head e)
snoc-from x c (d ∷ cs) (Memᴰ.tail m) = elim (snoc-from x c cs m) [
  | inl k ↦ inl (Memᴰ.tail k)
  | inr e ↦ inr e
]

-- Nothing is collected that has not arrived.
pub add_arrived-from :
    (arrived : List FileChunk) (file : File) (x : FileChunk)
    → Memᴰ x (add_arrived arrived file).file_chunk
    → Memᴰ x arrived ⊎ Memᴰ x file.file_chunk
unfolding add_arrived
add_arrived-from [] file x m = inr m
add_arrived-from (one ∷ arrived) file x m =
    elim (add_arrived-from arrived (add_file_chunk one file) x m) [
      | inl k ↦ inl (Memᴰ.tail k)
      | inr k ↦ elim (add_file_chunk-cases one file) [
        | inl e ↦ inr (subst (λ (cs : List FileChunk). Memᴰ x cs) e k)
        | inr e ↦
            elim (snoc-from x one file.file_chunk
              (subst (λ (cs : List FileChunk). Memᴰ x cs) e k)) [
                | inl l ↦ inr l
                | inr f ↦ inl (Memᴰ.head f)
              ]
      ]
    ]
