-- ===== src/Store/Ascending.antt =====
-- Lists of pieces by their numbers, and the sort of `Check` and `Assemble`.
use polarcloud.Prelude.{
  ◌<◌, ◌≡◌, ◌≢◌, refl, sym, ap, ◌∙◌, ◌⊎◌, inl, inr, List, [], ◌∷◌, length, All, ltb, ltb_of_le,
  Bool-cases, arith,
}
use mathlib.Core.Path.{subst}
use mathlib.Core.List.{Memᴰ}
use polarcloud.Store.{FileChunk, insert_chunk, sort_chunks}

abbrev pub Behind : FileChunk → List FileChunk → Type 0
Behind c = All (λ (d : FileChunk). c.no < d.no)

-- The numbers go up.
abbrev pub Ascending : List FileChunk → Type 0
Ascending [] = Unit
Ascending (c ∷ cs) = Behind c cs × Ascending cs

-- No two pieces have one number.
abbrev pub Distinct : List FileChunk → Type 0
Distinct [] = Unit
Distinct (c ∷ cs) = All (λ (d : FileChunk). d.no ≢ c.no) cs × Distinct cs

abbrev pub Within : List FileChunk → List FileChunk → Type 0
Within cs = All (λ (c : FileChunk). Memᴰ c cs)

module _ (P : FileChunk → Type 0) where
  pub All-Memᴰ : (c : FileChunk) (cs : List FileChunk) → All P cs → Memᴰ c cs → P c
  All-Memᴰ c [] h m = elim m [ ]
  All-Memᴰ c (d ∷ cs) (p, h) (Memᴰ.head e) = rw e p
  All-Memᴰ c (d ∷ cs) (p, h) (Memᴰ.tail m) = All-Memᴰ c cs h m

  All-insert_chunk :
      (c : FileChunk) (cs : List FileChunk) → P c → All P cs → All P (insert_chunk c cs)
  unfolding insert_chunk
  All-insert_chunk c [] p h = (p, h)
  All-insert_chunk c (d ∷ cs) p (q, h) = elim (Bool-cases (ltb d.no c.no)) [
    | inl less ↦ rw less (q, All-insert_chunk c cs p h)
    | inr not_less ↦ rw not_less (p, (q, h))
  ]

  pub All-sort_chunks : (cs : List FileChunk) → All P cs → All P (sort_chunks cs)
  unfolding sort_chunks
  All-sort_chunks [] h = h
  All-sort_chunks (c ∷ cs) (p, h) = All-insert_chunk c (sort_chunks cs) p (All-sort_chunks cs h)

pub All-map :
    (P Q : FileChunk → Type 0) (cs : List FileChunk)
    → ((c : FileChunk) → P c → Q c)
    → All P cs
    → All Q cs
All-map P Q [] f h = h
All-map P Q (c ∷ cs) f (p, h) = (f c p, All-map P Q cs f h)

Memᴰ-insert_chunk :
    (x c : FileChunk) (cs : List FileChunk) → (x ≡ c) ⊎ Memᴰ x cs → Memᴰ x (insert_chunk c cs)
unfolding insert_chunk
Memᴰ-insert_chunk x c [] (inl e) = Memᴰ.head e
Memᴰ-insert_chunk x c [] (inr m) = elim m [ ]
Memᴰ-insert_chunk x c (d ∷ cs) (inl e) = elim (Bool-cases (ltb d.no c.no)) [
  | inl less ↦ rw less (Memᴰ.tail (Memᴰ-insert_chunk x c cs (inl e)))
  | inr not_less ↦ rw not_less (Memᴰ.head e)
]
Memᴰ-insert_chunk x c (d ∷ cs) (inr (Memᴰ.head e)) = elim (Bool-cases (ltb d.no c.no)) [
  | inl less ↦ rw less (Memᴰ.head e)
  | inr not_less ↦ rw not_less (Memᴰ.tail (Memᴰ.head e))
]
Memᴰ-insert_chunk x c (d ∷ cs) (inr (Memᴰ.tail m)) = elim (Bool-cases (ltb d.no c.no)) [
  | inl less ↦ rw less (Memᴰ.tail (Memᴰ-insert_chunk x c cs (inr m)))
  | inr not_less ↦ rw not_less (Memᴰ.tail (Memᴰ.tail m))
]

pub Memᴰ-sort_chunks : (x : FileChunk) (cs : List FileChunk) → Memᴰ x cs → Memᴰ x (sort_chunks cs)
unfolding sort_chunks
Memᴰ-sort_chunks x [] m = elim m [ ]
Memᴰ-sort_chunks x (c ∷ cs) (Memᴰ.head e) = Memᴰ-insert_chunk x c (sort_chunks cs) (inl e)
Memᴰ-sort_chunks x (c ∷ cs) (Memᴰ.tail m) =
    Memᴰ-insert_chunk x c (sort_chunks cs) (inr (Memᴰ-sort_chunks x cs m))

insert_chunk-Ascending :
    (c : FileChunk) (cs : List FileChunk)
    → All (λ (d : FileChunk). d.no ≢ c.no) cs
    → Ascending cs
    → Ascending (insert_chunk c cs)
unfolding insert_chunk
insert_chunk-Ascending c [] h a = (tt, tt)
insert_chunk-Ascending c (d ∷ cs) (n, h) (b, a) = elim (Bool-cases (ltb d.no c.no)) [
  | inl less ↦ rw less (
    All-insert_chunk (λ (x : FileChunk). d.no < x.no) c cs (ground arith) b,
    insert_chunk-Ascending c cs h a,
  )
  | inr not_less ↦
      let c_first : c.no < d.no = ground arith in
      rw not_less (
        (
          c_first,
          All-map (λ (x : FileChunk). d.no < x.no) (λ (x : FileChunk). c.no < x.no) cs
              (λ x l. omega (arith, c_first, l)) b,
        ),
        (b, a),
      )
]

-- Of pieces with different numbers the sort makes a list whose numbers go up.
pub sort_chunks-Ascending : (cs : List FileChunk) → Distinct cs → Ascending (sort_chunks cs)
unfolding sort_chunks
sort_chunks-Ascending [] h = tt
sort_chunks-Ascending (c ∷ cs) (n, h) =
    insert_chunk-Ascending c (sort_chunks cs)
      (All-sort_chunks (λ (d : FileChunk). d.no ≢ c.no) cs n) (sort_chunks-Ascending cs h)

pub sort_chunks-sorted : (cs : List FileChunk) → Ascending cs → sort_chunks cs ≡ cs
unfolding sort_chunks insert_chunk
sort_chunks-sorted [] a = refl
sort_chunks-sorted (c ∷ []) a = refl
sort_chunks-sorted (c ∷ (d ∷ cs)) ((l, b), a) =
    ap (λ (xs : List FileChunk). insert_chunk c xs) (sort_chunks-sorted (d ∷ cs) a)
    ∙ rw (ltb_of_le d.no c.no (omega (arith, l)))

-- Two pieces of a list whose numbers go up are one if they have one number.
pub same_no :
    (cs : List FileChunk) (c d : FileChunk)
    → Ascending cs
    → Memᴰ c cs
    → Memᴰ d cs
    → c.no ≡ d.no
    → c ≡ d
same_no [] c d a m l n = elim m [ ]
same_no (x ∷ cs) c d (b, a) (Memᴰ.head e) (Memᴰ.head f) n = e ∙ sym f
same_no (x ∷ cs) c d (b, a) (Memᴰ.head e) (Memᴰ.tail m) n =
    let less = All-Memᴰ (λ (y : FileChunk). x.no < y.no) d cs b m in
    absurd (omega (arith, less, n, ap (λ (y : FileChunk). y.no) e))
same_no (x ∷ cs) c d (b, a) (Memᴰ.tail m) (Memᴰ.head f) n =
    let less = All-Memᴰ (λ (y : FileChunk). x.no < y.no) c cs b m in
    absurd (omega (arith, less, n, ap (λ (y : FileChunk). y.no) f))
same_no (x ∷ cs) c d (b, a) (Memᴰ.tail l) (Memᴰ.tail m) n = same_no cs c d a l m n

-- What stands behind the first piece lies behind the first piece of a list that holds it.
Within-tail :
    (c d : FileChunk) (cs ds : List FileChunk)
    → c.no ≡ d.no ⊎ d.no < c.no
    → Behind c cs
    → Within (d ∷ ds) cs
    → Within ds cs
Within-tail c d [] ds n b w = tt
Within-tail c d (x ∷ cs) ds n (l, b) (Memᴰ.head e, w) =
    absurd (ground (arith, n, l, ap (λ (y : FileChunk). y.no) e))
Within-tail c d (x ∷ cs) ds n (l, b) (Memᴰ.tail m, w) = (m, Within-tail c d cs ds n b w)

Memᴰ-le :
    (c d : FileChunk) (ds : List FileChunk)
    → Behind d ds
    → Memᴰ c (d ∷ ds)
    → (c ≡ d) ⊎ (d.no < c.no)
Memᴰ-le c d ds b (Memᴰ.head e) = inl e
Memᴰ-le c d ds b (Memᴰ.tail m) = inr (All-Memᴰ (λ (y : FileChunk). d.no < y.no) c ds b m)

-- Two lists whose numbers go up are equal if each lies within the other.
pub Ascending-equal :
    (cs ds : List FileChunk) → Ascending cs → Ascending ds → Within ds cs → Within cs ds → cs ≡ ds
Ascending-equal [] [] a a' w v = refl
Ascending-equal [] (d ∷ ds) a a' w (m, v) = elim m [ ]
Ascending-equal (c ∷ cs) [] a a' (m, w) v = elim m [ ]
Ascending-equal (c ∷ cs) (d ∷ ds) (b, a) (b', a') (m, w) (m', v) =
    let same : c ≡ d = elim (Memᴰ-le c d ds b' m) [
      | inl e ↦ e
      | inr l ↦ elim (Memᴰ-le d c cs b m') [ inl e ↦ sym e | inr k ↦ absurd (omega (arith, l, k)) ]
    ] in
    let n : c.no ≡ d.no = ap (λ (y : FileChunk). y.no) same in
    rw (
      same,
      Ascending-equal cs ds a a' (Within-tail c d cs ds (inl n) b w)
          (Within-tail d c ds cs (inl (sym n)) b' v),
    )

-- A list whose numbers go up is another such list, if it lies within it and is as long.
pub Ascending-whole :
    (cs ds : List FileChunk)
    → Ascending cs
    → Ascending ds
    → Within ds cs
    → length cs ≡ length ds
    → cs ≡ ds
Ascending-whole [] [] a a' w e = refl
Ascending-whole [] (d ∷ ds) a a' w e = absurd (omega (arith, e))
Ascending-whole (c ∷ cs) [] a a' w e = absurd (omega (arith, e))
Ascending-whole (c ∷ cs) (d ∷ ds) (b, a) (b', a') (m, w) e =
    let first = Memᴰ-le c d ds b' m in
    let n : (c.no ≡ d.no) ⊎ (d.no < c.no) = elim first [
      | inl s ↦ inl (ap (λ (y : FileChunk). y.no) s)
      | inr l ↦ inr l
    ] in
    let rest : cs ≡ ds =
      Ascending-whole cs ds a a' (Within-tail c d cs ds n b w) (omega (arith, e)) in
    elim m [
      | Memᴰ.head s ↦ rw (s, rest)
      | Memᴰ.tail l ↦ absurd (
          omega (
            arith,
            All-Memᴰ (λ (y : FileChunk). c.no < y.no) c cs b
                (subst (λ (ys : List FileChunk). Memᴰ c ys) (sym rest) l),
          ))
    ]
