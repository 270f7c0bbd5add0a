-- ===== src/Wallet/Merkle/Roots.antt =====
-- The root is always found, and different lists of transactions can have the same.
use Prim.Native.Nat.{◌^◌}
use polarcloud.Prelude.{
  ℕ, zero, suc, ◌+◌, ◌%◌, ◌≤◌, ◌<◌, ◌≡◌, refl, sym, ap, ◌∙◌, List, [], ◌∷◌, ◌++◌, some, length,
  length-append, arith,
}
use polarcloud.Wallet.Merkle.{big_endian, pair_up, merkleroot, first_of, build_merkle_root}

module _ (hash : List ℕ → List ℕ) where
  -- A level is shorter than the one below it, and not empty.
  length-pair_up :
      (b first : List ℕ) (tx : List (List ℕ))
      → (length (pair_up hash b first tx) + length (pair_up hash b first tx) ≤ suc (length tx))
        × (length tx ≤ length (pair_up hash b first tx) + length (pair_up hash b first tx))
  unfolding pair_up
  length-pair_up b first [] = (omega arith, omega arith)
  length-pair_up b first (x ∷ []) = (omega arith, omega arith)
  length-pair_up b first (x ∷ y ∷ tx) =
      let (low, high) = length-pair_up b first tx in (omega (arith, low), omega (arith, high))

  -- With at least as much fuel as entries the loop ends in one entry, and more fuel changes nothing.
  merkleroot_ends :
      (fuel more level : ℕ) (tx : List (List ℕ))
      → 0 < length tx
      → length tx ≤ fuel
      → length tx ≤ more
      → (root : List ℕ) × (merkleroot hash fuel level tx ≡ root ∷ [])
        × (merkleroot hash more level tx ≡ root ∷ [])
  unfolding merkleroot
  merkleroot_ends fuel more level [] h k l = absurd (omega (arith, h))
  merkleroot_ends zero more level (x ∷ tx) h k l = absurd (omega (arith, k))
  merkleroot_ends (suc fuel) zero level (x ∷ tx) h k l = absurd (omega (arith, l))
  merkleroot_ends (suc fuel) (suc more) level (x ∷ []) h k l = (big_endian level ++ x, refl, refl)
  merkleroot_ends (suc fuel) (suc more) level (x ∷ y ∷ tx) h k l =
      let (low, high) = length-pair_up (big_endian level) x (x ∷ y ∷ tx) in
      merkleroot_ends fuel more ((level + 1) % 2 ^ 64)
        (pair_up hash (big_endian level) x (x ∷ y ∷ tx)) (omega (arith, high))
        (omega (arith, low, k)) (omega (arith, low, l))

  -- Every list of transactions has a root: the loop over the levels ends.
  pub build_merkle_root_ends :
      (tx : List (List ℕ)) → (root : List ℕ) × (build_merkle_root hash tx ≡ some root)
  unfolding build_merkle_root
  build_merkle_root_ends [] = ([], refl)
  build_merkle_root_ends (x ∷ []) = (_, refl)
  build_merkle_root_ends (x ∷ y ∷ tx) =
      let n = length (x ∷ y ∷ tx) in
      let (root, e, f) =
        merkleroot_ends n n 0 (x ∷ y ∷ tx) (omega arith) (omega arith) (omega arith) in
      (root, ap (first_of hash) e)

  abbrev pub flat : List (List ℕ × List ℕ) → List (List ℕ)
  flat [] = []
  flat ((x, y) ∷ pairs) = x ∷ y ∷ flat pairs

  pair_up-odd :
      (b first c : List ℕ) (pairs : List (List ℕ × List ℕ))
      → pair_up hash b first (flat pairs ++ c ∷ [])
        ≡ pair_up hash b first (flat pairs ++ first ∷ c ∷ [])
  unfolding pair_up
  pair_up-odd b first c [] = refl
  pair_up-odd b first c ((x, y) ∷ pairs) =
      ap (λ (hs : List (List ℕ)). hash (b ++ (x ++ y)) ∷ hs) (pair_up-odd b first c pairs)

  -- Whatever the hash, a block with an odd number of transactions, three at least, has the same root
  -- as the block in which the first transaction comes once more before the last one.
  pub build_merkle_root-repeated :
      (x y c : List ℕ) (pairs : List (List ℕ × List ℕ))
      → build_merkle_root hash (x ∷ y ∷ flat pairs ++ c ∷ [])
        ≡ build_merkle_root hash (x ∷ y ∷ flat pairs ++ x ∷ c ∷ [])
  unfolding build_merkle_root merkleroot
  build_merkle_root-repeated x y c pairs =
      let odd = flat pairs ++ c ∷ [] in
      let even = flat pairs ++ x ∷ c ∷ [] in
      let b = big_endian 0 in
      let (low, high) = length-pair_up b x (x ∷ y ∷ odd) in
      let one = length-append (flat pairs) (c ∷ []) in
      let two = length-append (flat pairs) (x ∷ c ∷ []) in
      let (root, e, f) =
        merkleroot_ends (suc (length odd)) (suc (length even)) ((0 + 1) % 2 ^ 64)
          (pair_up hash b x (x ∷ y ∷ odd)) (omega (arith, high)) (omega (arith, low))
          (omega (arith, low, one, two)) in
      ap (first_of hash) (
        e
        ∙ sym f
        ∙ ap (merkleroot hash (suc (length even)) ((0 + 1) % 2 ^ 64))
            (pair_up-odd b x c ((x, y) ∷ pairs)))
