-- ===== src/Tests/Wallet.antt =====
-- A wallet with two keys.
use polarcloud.Prelude.{
  ℕ, ◌≡◌, ◌↔◌, inr, refl, true, length, List, [], ◌∷◌, some, eq_text, pos, arith,
}
use polarcloud.Table.{lookup, put}
use polarcloud.Wallet.{
  TxBase, TxItem, Keystore, item_key, items_of, count_txs, count_tx, count_vins, count_vouts,
  count_vout, count,
}
use polarcloud.Wallet.Movements.{movements}
use polarcloud.Wallet.Unspent.{Received, count_txs-recorded}
use polarcloud.Wallet.Kept.{count_txs-kept}
use polarcloud.Wallet.Chain.{
  BlockHead, Node, add_block, add_counted, add_depositors, deposits, link,
}
use polarcloud.Wallet.Chain.Linked.{
  AreGroups, Linked, all_blocks, last_entry, comes_after, extended,
}
use polarcloud.Wallet.Chain.Added.{new_block, start, after_block, add_block-extended, reach-Linked}
use polarcloud.Wallet.Merkle.{build_merkle_root}
use polarcloud.Wallet.Merkle.Roots.{build_merkle_root-repeated, build_merkle_root_ends}

-- The key of an address is the address.
abbrev keystore : Keystore
keystore = record {
  build_addr_by_pubkey = λ puk. some puk;
  parse_hash_by_pubkey = λ puk. some puk;
  is_verify = λ address. true;
  is_mine = λ address. eq_text address (7 ∷ []);
  coinbase = some (7 ∷ []);
  build_hash = λ tx. tx.hash;
}

abbrev pub reward : TxBase
reward = record {
  hash = 0 ∷ 5 ∷ [];
  class = 0;
  vin_total = 0;
  vin = [];
  vout_total = 1;
  vout = record { value = 50; address = 7 ∷ []; tx = [] } ∷ [];
  gas = 0;
  block_hash = [];
}

abbrev head : ℕ → BlockHead
head height = record { hash = 1 ∷ []; height = height; group_height = 1 }

abbrev node : Node
node = record {
  balance_manager = record { sync_height = 0; balance = [] };
  witnesses = [];
  groups = [];
}

abbrev pub item : ℕ → TxItem
item value = record { value = value; txid = 0 ∷ 5 ∷ []; out_index = 0 }

count_txs-recorded_example :
    (lookup
        (item_key (0 ∷ 5 ∷ []) (pos 0))
        (items_of (7 ∷ []) (count_txs keystore (reward ∷ []) []))
      ≡ some (item 50))
    ↔ Received (7 ∷ []) (item_key (0 ∷ 5 ∷ []) (pos 0)) (item 50) (movements keystore (reward ∷ []))
count_txs-recorded_example =
    count_txs-recorded keystore (reward ∷ []) (7 ∷ []) (item_key (0 ∷ 5 ∷ []) (pos 0)) (item 50)

add_block-extended_example :
    (next : Node) × (add_block keystore (head 4) (reward ∷ []) node
      ≡ some (comes_after 4 (last_entry (all_blocks node.groups)), next))
    × AreGroups next.groups
    × (all_blocks next.groups
        ≡ extended (head 4) (new_block (head 4) (reward ∷ [])) (all_blocks node.groups))
    × (next.balance_manager.sync_height ≡ 4)
    × (next.balance_manager.balance ≡ count_txs keystore (reward ∷ []) node.balance_manager.balance)
add_block-extended_example =
    add_block-extended keystore (7 ∷ []) (head 4) (reward ∷ []) node refl tt
      ((λ e. omega (arith, e)), tt)

-- The node with its first block.
abbrev next : Node
next = record {
  balance_manager = record {
    sync_height = 4;
    balance = (7 ∷ [], (item_key (0 ∷ 5 ∷ []) (pos 0), item 50) ∷ []) ∷ [];
  };
  witnesses = [];
  groups =
      record { height = 1; blocks = record { height = 4; id = 1 ∷ []; deposit_tx = [] } ∷ [] } ∷ [];
}

reach-Linked_example : Linked next.groups
unfolding add_block add_counted add_depositors deposits link count count_txs count_tx count_vins
    count_vouts count_vout eq_text lookup put
reach-Linked_example =
    reach-Linked keystore next
      (after_block (head 4) (reward ∷ []) node next true (start node refl) refl)

-- A reward, and a payment of another wallet after it.
abbrev elsewhere : TxBase
elsewhere = record reward {
  hash = 6 ∷ [];
  vin = record { txid = 0 ∷ 5 ∷ []; vout = 1; puk = 7 ∷ []; sign = []; vout_sign = [] } ∷ [];
  vout =
      record { value = 30; address = 9 ∷ []; tx = [] }
      ∷ record { value = 39; address = 7 ∷ []; tx = [] }
      ∷ [];
}

count_txs-kept_example :
    lookup
      (item_key (0 ∷ 5 ∷ []) (pos 0))
      (items_of (7 ∷ []) (count_txs keystore (elsewhere ∷ reward ∷ elsewhere ∷ []) []))
    ≡ some (item 50)
unfolding eq_text
count_txs-kept_example =
    count_txs-kept keystore (elsewhere ∷ []) (elsewhere ∷ []) reward 0
      (record { value = 50; address = 7 ∷ []; tx = [] }) refl refl refl refl
      (omega arith, (omega arith, tt))
      (
        (
          (λ e. cc),
          (omega arith, tt),
          (((omega arith, (omega arith, tt)), inr (λ (p, q). omega (arith, q))), tt),
        ),
        tt,
      )

-- A hash that only counts.
abbrev counted : List ℕ → List ℕ
counted bs = length bs ∷ []

build_merkle_root-repeated_example :
    build_merkle_root counted ((1 ∷ []) ∷ (2 ∷ []) ∷ (3 ∷ []) ∷ [])
    ≡ build_merkle_root counted ((1 ∷ []) ∷ (2 ∷ []) ∷ (1 ∷ []) ∷ (3 ∷ []) ∷ [])
build_merkle_root-repeated_example =
    build_merkle_root-repeated counted (1 ∷ []) (2 ∷ []) (3 ∷ []) []

build_merkle_root_ends_example :
    (root : List ℕ) × (build_merkle_root counted ((1 ∷ []) ∷ (2 ∷ []) ∷ (3 ∷ []) ∷ []) ≡ some root)
build_merkle_root_ends_example =
    build_merkle_root_ends counted ((1 ∷ []) ∷ (2 ∷ []) ∷ (3 ∷ []) ∷ [])
