-- ===== src/Wallet/Merkle.antt =====
-- block.go: the Merkle root of the transactions of a block. The hash, SHA3-256 in the source, is an
-- argument; an `append` to an id is taken not to reach another one.
pub mod Roots
use Prim.Native.Nat.{◌^◌}
use polarcloud.Prelude.{
  ℕ, zero, suc, ◌+◌, ◌/◌, ◌%◌, List, [], ◌∷◌, ◌++◌, Option, none, some, length,
}

-- `binary.BigEndian.PutUint64`
unfoldable pub big_endian : ℕ → List ℕ
big_endian n =
    n / 2 ^ 56 % 256
    ∷ n / 2 ^ 48 % 256
    ∷ n / 2 ^ 40 % 256
    ∷ n / 2 ^ 32 % 256
    ∷ n / 2 ^ 24 % 256
    ∷ n / 2 ^ 16 % 256
    ∷ n / 2 ^ 8 % 256
    ∷ n % 256
    ∷ []

module _ (hash : List ℕ → List ℕ) where
  -- The hashes of one level: of each pair, and of the first entry with the last if that has no partner.
  unfoldable pub pair_up : List ℕ → List ℕ → List (List ℕ) → List (List ℕ)
  pair_up b first [] = []
  pair_up b first (x ∷ []) = hash (b ++ (first ++ x)) ∷ []
  pair_up b first (x ∷ y ∷ tx) = hash (b ++ (x ++ y)) ∷ pair_up b first tx

  -- `merkleroot`
  unfoldable pub merkleroot : ℕ → ℕ → List (List ℕ) → List (List ℕ)
  merkleroot zero level tx = []
  merkleroot (suc fuel) level [] = merkleroot fuel ((level + 1) % 2 ^ 64) []
  merkleroot (suc fuel) level (x ∷ []) = (big_endian level ++ x) ∷ []
  merkleroot (suc fuel) level (x ∷ y ∷ tx) =
      merkleroot fuel ((level + 1) % 2 ^ 64) (pair_up (big_endian level) x (x ∷ y ∷ tx))

  -- `txbs[0]`
  abbrev pub first_of : List (List ℕ) → Option (List ℕ)
  first_of [] = none
  first_of (x ∷ tx) = some x

  -- `BuildMerkleRoot`
  unfoldable pub build_merkle_root : List (List ℕ) → Option (List ℕ)
  build_merkle_root [] = some []
  build_merkle_root (x ∷ []) = some (hash (big_endian 1 ++ (x ++ x)))
  build_merkle_root (x ∷ y ∷ tx) = first_of (merkleroot (length (x ∷ y ∷ tx)) 0 (x ∷ y ∷ tx))
