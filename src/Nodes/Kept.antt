-- ===== src/Nodes/Kept.antt =====
-- Which ids `AddId` keeps.
use polarcloud.Prelude.{
  ℕ, ◌<◌, ◌≡◌, refl, sym, ap, ◌∙◌, inl, inr, Bool, true, false, List, [], ◌∷◌, leb, All, ◌==◌,
  eq_text, eq_text_sound, eq_text_refl, if◌then◌else◌, Bool-cases, arith,
}
use polarcloud.Nodes.Numbers.{
  Bytes, number, bytes_of, xor, bytes_of-number, bytes_from-positive, no_more,
}
use polarcloud.Nodes.{
  Ids, has_node, add_all, less, insert_node, sort_nodes, get, near_bytes, stays, replace_ids,
  add_id,
}

either : (b : Bool) (x y : Bytes) → x ≡ y → y ≡ (if b then x else y)
either true x y e = sym e
either false x y e = refl

if_equal : (a b : Bytes) → (if eq_text a b then a else b) ≡ b
if_equal a b = elim (Bool-cases (eq_text a b)) [
  | inl same ↦ rw same (eq_text_sound a b same)
  | inr other ↦ rw other
]

if_same :
    (f : Bytes → Bool) (b : Bool) (x y : Bytes)
    → f x ≡ false
    → f y ≡ false
    → f (if b then x else y) ≡ false
if_same f true x y h k = h
if_same f false x y h k = k

-- The first of two nodes.
near_two :
    (f a b : ℕ)
    → near_bytes (get f (add_all (a ∷ b ∷ []) []))
      ≡ (if leb (xor f b) (xor f a) then bytes_of b else bytes_of a)
unfolding near_bytes get add_all has_node sort_nodes insert_node less
near_two f a b = elim (Bool-cases (a == b)) [
  | inl same ↦
      let e : a ≡ b = ground (arith, same) in
      rw same (
        either (leb (xor f b) (xor f a)) (bytes_of b) (bytes_of a)
          (ap (λ (n : ℕ). bytes_of n) (sym e)))
  | inr differ ↦ elim (Bool-cases (leb (xor f b) (xor f a))) [
    | inl near ↦ rw (differ, near)
    | inr far ↦ rw (differ, far)
  ]
]

-- Bytes with no zero in front.
abbrev pub IsId : Bytes → Type 0
IsId [] = ⊥
IsId (b ∷ bs) = (0 < b) × ((b < 256) × All (λ (c : ℕ). c < 256) bs)

same_bytes : (id : Bytes) → IsId id → bytes_of (number id) ≡ id
same_bytes [] h = absurd h
same_bytes (b ∷ bs) (p, (l, a)) = bytes_of-number b bs p l a

-- Of two ids the one that is not further from an id of the network.
abbrev pub nearer : Bytes → Bytes → Bytes → Bytes
nearer id one net =
    if leb (xor (number net) (number id)) (xor (number net) (number one)) then id else one

stays-nearer :
    (id one net : Bytes)
    → IsId id
    → IsId one
    → (if stays id one net then one else id) ≡ nearer id one net
unfolding stays
stays-nearer id one net h k =
    elim (Bool-cases (leb (xor (number net) (number id)) (xor (number net) (number one)))) [
      | inl near ↦
          rw (near_two (number net) (number one) (number id), near, same_bytes id h)
            (if_equal one id)
      | inr far ↦
          rw (
            near_two (number net) (number one) (number id),
            far,
            same_bytes one k,
            eq_text_refl one,
          )
    ]

-- The ids that should be kept: each the nearer one of what it was and the new one.
unfoldable pub nearest_ids : Bytes → List Bytes → List Bytes → List Bytes
nearest_ids id [] nets = []
nearest_ids id (one ∷ ids) [] = one ∷ ids
nearest_ids id (one ∷ ids) (net ∷ nets) = nearer id one net ∷ nearest_ids id ids nets

first_kept :
    (b : Bool) (id one : Bytes) (kept deleted : List Bytes) (rest : Bytes)
    → (if b then one else id) ≡ rest
    → (if◌then◌else◌ {A = List Bytes × List Bytes} b
        (one ∷ kept, deleted)
        (id ∷ kept, one ∷ deleted)).0
      ≡ rest ∷ kept
first_kept true id one kept deleted rest e = ap (λ (t : Bytes). t ∷ kept) e
first_kept false id one kept deleted rest e = ap (λ (t : Bytes). t ∷ kept) e

replace_ids-nearest_ids :
    (id : Bytes) (ids nets : List Bytes)
    → IsId id
    → All IsId ids
    → (replace_ids id ids nets).0 ≡ nearest_ids id ids nets
unfolding replace_ids nearest_ids
replace_ids-nearest_ids id [] nets h a = refl
replace_ids-nearest_ids id (one ∷ ids) [] h a = refl
replace_ids-nearest_ids id (one ∷ ids) (net ∷ nets) h (k, a) =
    let r = replace_ids id ids nets in
    first_kept (stays id one net) id one r.0 r.1 (nearer id one net) (stays-nearer id one net h k)
    ∙ ap (λ (ts : List Bytes). nearer id one net ∷ ts) (replace_ids-nearest_ids id ids nets h a)

-- Once there is an id (a count above 0), a new one takes the place of just those ids than which
-- it is not further from their ids of the logical network, for ids that have no zero byte in
-- front.
pub add_id-nearest_ids :
    (id : Bytes) (s : Ids)
    → 0 < s.count
    → IsId id
    → All IsId s.ids
    → (add_id id s).1.ids ≡ nearest_ids id s.ids s.net_ids
unfolding add_id
add_id-nearest_ids id s p h a =
    let some_id : (s.count == 0) ≡ false = ground (arith, p) in
    rw some_id (replace_ids-nearest_ids id s.ids s.net_ids h a)

zero_first : (n : ℕ) (bs : Bytes) → eq_text (0 ∷ bs) (bytes_of n) ≡ false
unfolding eq_text
zero_first n bs = elim (Bool-cases (n == 0)) [
  | inl none ↦
      let e : n ≡ 0 = ground (arith, none) in
      ap (λ (k : ℕ). eq_text (0 ∷ bs) (bytes_of k)) e
      ∙ ap (λ (t : Bytes). eq_text (0 ∷ bs) t) (no_more [])
  | inr more ↦
      let (c, cs, p, e) = bytes_from-positive n n [] (ground (arith, more)) (omega arith) in
      let other : (0 == c) ≡ false = ground (arith, p) in
      ap (λ (t : Bytes). eq_text (0 ∷ bs) t) e ∙ rw other
]

stays-zero : (id bs net : Bytes) → stays id (0 ∷ bs) net ≡ false
unfolding stays
stays-zero id bs net = rw (near_two (number net) (number (0 ∷ bs)) (number id)) (
    if_same (λ (t : Bytes). eq_text (0 ∷ bs) t) _ _ _ (zero_first (number id) bs)
      (zero_first (number (0 ∷ bs)) bs))

-- If the first id that is kept has a zero byte in front, it is replaced by any new one, however
-- far: `Bytes` of a `big.Int` leaves the zero out, so the comparison with the bytes of the id
-- fails. There is an id of the logical network for it, and a count above 0.
pub add_id-zero :
    (id bs net : Bytes) (ids nets : List Bytes) (count : ℕ)
    → 0 < count
    → (add_id id (record { ids = (0 ∷ bs) ∷ ids; count = count; net_ids = net ∷ nets })).1.ids
      ≡ id ∷ (replace_ids id ids nets).0
unfolding add_id replace_ids
add_id-zero id bs net ids nets count p =
    let some_id : (count == 0) ≡ false = ground (arith, p) in rw (some_id, stays-zero id bs net)
