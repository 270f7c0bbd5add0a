-- ===== src/Store/Pieces.antt =====
-- The pieces of a content, in their order.
use polarcloud.Prelude.{
  ℕ, zero, suc, ◌+◌, ◌*◌, ◌/◌, ◌%◌, ◌≤◌, ◌<◌, ◌≡◌, refl, sym, ap, ◌∙◌, inl, inr, false, List, [],
  ◌∷◌, ◌++◌, append-nil, append_assoc, length, take, drop, take-append-drop, All, ltb, ltb_of_lt,
  if◌then◌else◌, Bool-cases, Text, arith,
}
use native.Mathlib.Nat.{div-add-mod', mod-lt, suc-mul, zero-mul, zero-add, add_comm}
use polarcloud.Store.Folders.{Bytes, drop_all}
use polarcloud.Store.Ascending.{Ascending}
use polarcloud.Store.{FileChunk, FileInfo, has_no, add_chunk}

drop_more : (m n : ℕ) (bs : Bytes) → drop n (drop m bs) ≡ drop (m + n) bs
drop_more zero n bs = ap (λ (k : ℕ). drop k bs) (omega arith)
drop_more (suc m) n [] = drop_all n [] (omega arith) ∙ sym (drop_all (suc m + n) [] (omega arith))
drop_more (suc m) n (b ∷ bs) =
    let e : suc (m + n) ≡ suc m + n = omega arith in
    drop_more m n bs ∙ ap (λ (k : ℕ). drop k (b ∷ bs)) e

abbrev pub concat : List Bytes → Bytes
concat [] = []
concat (p ∷ ps) = p ++ concat ps

-- `n` pieces of a content, from the one with the number `i` on.
unfoldable pub pieces : ℕ → ℕ → ℕ → Bytes → List Bytes
pieces c zero i content = []
pieces c (suc n) i content = take c (drop (i * c) content) ∷ pieces c n (suc i) content

-- How many pieces a content has.
abbrev pub count : ℕ → Bytes → ℕ
count c content = if ltb 0 (length content % c) then length content / c + 1 else length content / c

concat-pieces-drop :
    (c n i : ℕ) (content : Bytes)
    → concat (pieces c n i content) ++ drop ((i + n) * c) content ≡ drop (i * c) content
unfolding pieces
concat-pieces-drop c zero i content = ap (λ (k : ℕ). drop (k * c) content) (omega arith)
concat-pieces-drop c (suc n) i content =
    append_assoc (take c (drop (i * c) content)) (concat (pieces c n (suc i) content))
      (drop ((i + suc n) * c) content)
    ∙ ap (λ (t : Bytes). take c (drop (i * c) content) ++ t)
        (ap (λ (k : ℕ). concat (pieces c n (suc i) content) ++ drop (k * c) content) (omega arith)
          ∙ concat-pieces-drop c n (suc i) content
          ∙ ap (λ (k : ℕ). drop k content) (suc-mul i c)
          ∙ sym (drop_more (i * c) c content))
    ∙ take-append-drop c (drop (i * c) content)

length-count : (c : ℕ) (content : Bytes) → 0 < c → length content ≤ count c content * c
length-count c content h =
    let parts = div-add-mod' (length content) c in
    let small = mod-lt (length content) h in
    elim (Bool-cases (ltb 0 (length content % c))) [
      | inl more ↦ rw more (
          omega (
            arith,
            parts,
            small,
            suc-mul (length content / c) c,
            ap (λ (k : ℕ). k * c) (add_comm 1 (length content / c)),
          ))
      | inr none_left ↦
          let zero_left : length content % c ≡ 0 = ground (arith, none_left) in
          rw none_left (omega (arith, parts, zero_left))
    ]

-- The pieces make up the content.
pub concat-pieces :
    (c : ℕ) (content : Bytes) → 0 < c → concat (pieces c (count c content) 0 content) ≡ content
concat-pieces c content h =
    let m : ℕ = count c content in
    let all : length content ≤ m * c = length-count c content h in
    sym (append-nil (concat (pieces c m 0 content)))
    ∙ ap (λ (t : Bytes). concat (pieces c m 0 content) ++ t)
        (sym
          (drop_all ((0 + m) * c) content (omega (arith, all, ap (λ (k : ℕ). k * c) (zero-add m)))))
    ∙ concat-pieces-drop c m 0 content
    ∙ ap (λ (k : ℕ). drop k content) (zero-mul c)

pub length-pieces : (c n i : ℕ) (content : Bytes) → length (pieces c n i content) ≡ n
unfolding pieces
length-pieces c zero i content = refl
length-pieces c (suc n) i content = ap suc (length-pieces c n (suc i) content)

-- Pieces with their numbers, from `i` on, and their names.
module _ (piece_name : Bytes → Text) where
  abbrev pub numbered : ℕ → List Bytes → List FileChunk
  numbered i [] = []
  numbered i (p ∷ ps) = record { no = i; hash = piece_name p } ∷ numbered (suc i) ps

  pub length-numbered : (i : ℕ) (ps : List Bytes) → length (numbered i ps) ≡ length ps
  length-numbered i [] = refl
  length-numbered i (p ∷ ps) = ap suc (length-numbered (suc i) ps)

  pub numbered-Behind :
      (i j : ℕ) (ps : List Bytes) → i < j → All (λ (c : FileChunk). i < c.no) (numbered j ps)
  numbered-Behind i j [] h = tt
  numbered-Behind i j (p ∷ ps) h = (h, numbered-Behind i (suc j) ps (omega arith))

  pub numbered-Ascending : (i : ℕ) (ps : List Bytes) → Ascending (numbered i ps)
  numbered-Ascending i [] = tt
  numbered-Ascending i (p ∷ ps) =
      (numbered-Behind i (suc i) ps (omega arith), numbered-Ascending (suc i) ps)

  pub numbered-fits :
      (i m : ℕ) (ps : List Bytes)
      → i + length ps ≤ m
      → All (λ (c : FileChunk). c.no < m) (numbered i ps)
  numbered-fits i m [] h = tt
  numbered-fits i m (p ∷ ps) h = (omega arith, numbered-fits (suc i) m ps (omega arith))

  -- A new piece whose number is behind those that are there is added at the end.
  lacks_no :
      (i : ℕ) (cs : List FileChunk) → All (λ (c : FileChunk). c.no < i) cs → has_no i cs ≡ false
  unfolding has_no
  lacks_no i [] h = refl
  lacks_no i (c ∷ cs) (l, h) = ground (arith, lacks_no i cs h)

  abbrev pub with_chunks : FileInfo → List FileChunk → FileInfo
  with_chunks fi cs = record fi { file_chunk = fi.file_chunk ++ cs }

  pub add_chunk-new :
      (i : ℕ) (p : Bytes) (fi : FileInfo)
      → i < fi.chunk_count
      → All (λ (c : FileChunk). c.no < i) fi.file_chunk
      → add_chunk (record { no = i; hash = piece_name p }) fi ≡ with_chunks fi (numbered i (p ∷ []))
  unfolding add_chunk
  add_chunk-new i p fi h a = rw (ltb_of_lt i fi.chunk_count h, lacks_no i fi.file_chunk a)
