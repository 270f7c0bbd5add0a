-- ===== src/Tests/Nodes.antt =====
-- Ids of one and two bytes.
use polarcloud.Prelude.{◌≡◌, [], ◌∷◌, arith}
use polarcloud.Nodes.Numbers.{number_from, xor_from}
use polarcloud.Nodes.Kept.{nearest_ids, add_id-nearest_ids, add_id-zero}
use polarcloud.Nodes.{Ids, replace_ids, add_id}

-- The new id is nearer to the second id of the network only.
abbrev two_ids : Ids
two_ids = record {
  ids = (8 ∷ 1 ∷ []) ∷ (8 ∷ 1 ∷ []) ∷ [];
  count = 1;
  net_ids = (8 ∷ 3 ∷ []) ∷ (24 ∷ 3 ∷ []) ∷ [];
}

add_id-nearest_ids_example :
    (add_id (16 ∷ 3 ∷ []) two_ids).1.ids ≡ (8 ∷ 1 ∷ []) ∷ (16 ∷ 3 ∷ []) ∷ []
unfolding nearest_ids number_from xor_from
add_id-nearest_ids_example =
    add_id-nearest_ids (16 ∷ 3 ∷ []) two_ids (omega arith)
      (omega arith, (omega arith, (omega arith, tt)))
      (
        (omega arith, (omega arith, (omega arith, tt))),
        ((omega arith, (omega arith, (omega arith, tt))), tt),
      )

add_id-zero_example :
    (add_id
      (200 ∷ 0 ∷ [])
      (record { ids = (0 ∷ 3 ∷ []) ∷ []; count = 1; net_ids = (0 ∷ 3 ∷ []) ∷ [] })).1.ids
    ≡ (200 ∷ 0 ∷ []) ∷ []
unfolding replace_ids
add_id-zero_example = add_id-zero (200 ∷ 0 ∷ []) (3 ∷ []) (0 ∷ 3 ∷ []) [] [] 1 (omega arith)
