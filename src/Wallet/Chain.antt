-- ===== src/Wallet/Chain.antt =====
-- chain.go: `AddBlock`, `GetFirstBlock` and `GetLastBlock`, with `addWitness` of witness_new.go. The
-- groups of the chain are a list with the current one first, and the blocks of a group are in their
-- order: these lists stand for the links between groups and between blocks. An index out of range
-- and a missing coinbase, which panic, give `none`. `Mining`, which a block that is added starts, is left out.
pub mod Linked
pub mod Added
use Prim.Native.Nat.{◌^◌}
use polarcloud.Prelude.{
  ℕ, ◌+◌, ◌%◌, Bool, true, false, List, [], ◌∷◌, ◌++◌, Option, none, some, Text, ◌==◌,
  if◌then◌else◌,
}
use polarcloud.Wallet.{Vin, Vout, TxBase, Keystore, BalanceManager, type_deposit_in, count}

pub record Block : Type 0 where
  pub height : ℕ
  pub id : List ℕ
  pub deposit_tx : List TxBase

pub record Group : Type 0 where
  pub height : ℕ
  pub blocks : List Block

pub record BackupWitness : Type 0 where
  pub addr : Text
  pub score : ℕ

-- The fields of a `BlockHead` that `AddBlock` reads.
pub record BlockHead : Type 0 where
  pub hash : List ℕ
  pub height : ℕ
  pub group_height : ℕ

pub record Node : Type 0 where
  pub balance_manager : BalanceManager
  pub witnesses : List BackupWitness
  pub groups : List Group

-- `addWitness(witnessAddr, score)`
unfoldable pub add_witness : Text → ℕ → List BackupWitness → List BackupWitness
add_witness witness_addr score witnesses =
    witnesses ++ (record { addr = witness_addr; score = 0 }) ∷ []

-- What a deposit does to the witnesses, for its address and its outputs, and by its inputs.
unfoldable pub add_scored :
    Option Text → List Vout → List BackupWitness → Option (List BackupWitness)
add_scored none vouts witnesses = some witnesses
add_scored (some addr) [] witnesses = none
add_scored (some addr) (vout ∷ vouts) witnesses = some (add_witness addr vout.value witnesses)

unfoldable pub add_depositor :
    Keystore → List Vin → List Vout → List BackupWitness → Option (List BackupWitness)
add_depositor keys [] vouts witnesses = none
add_depositor keys (vin ∷ vins) vouts witnesses =
    add_scored (keys.parse_hash_by_pubkey vin.puk) vouts witnesses

-- The loop over the transactions of a block, for the witnesses; and the deposits among them.
unfoldable pub add_depositors :
    Keystore → List TxBase → List BackupWitness → Option (List BackupWitness)
add_depositors keys [] witnesses = some witnesses
add_depositors keys (tx ∷ txs) witnesses =
    elim (if tx.class == type_deposit_in
      then add_depositor keys tx.vin tx.vout witnesses
      else some witnesses) [ none ↦ none | some more ↦ add_depositors keys txs more ]

unfoldable pub deposits : List TxBase → List TxBase
deposits [] = []
deposits (tx ∷ txs) = if tx.class == type_deposit_in then tx ∷ deposits txs else deposits txs

-- `GetLastBlock` of the first block of a group, and of the chain.
unfoldable pub last_block : List Block → Option Block
last_block [] = none
last_block (b ∷ []) = some b
last_block (b ∷ c ∷ blocks) = last_block (c ∷ blocks)

unfoldable pub get_last_block : List Group → Option Block
get_last_block [] = none
get_last_block (g ∷ groups) = last_block g.blocks

-- `GetFirstBlock`
unfoldable pub get_first_block : List Group → Option Block
get_first_block [] = none
get_first_block (g ∷ []) = elim g.blocks [ [] ↦ none | b ∷ blocks ↦ some b ]
get_first_block (g ∷ h ∷ groups) = get_first_block (h ∷ groups)

-- Linking the new block: whether its height follows, and the groups.
unfoldable pub link : BlockHead → Block → List Group → Option (Bool × List Group)
link bh new [] = some (true, (record { height = bh.group_height; blocks = new ∷ [] }) ∷ [])
link bh new (g ∷ groups) = elim (last_block g.blocks) [
  | none ↦ none
  | some last ↦ some (
      if (last.height + 1) % 2 ^ 64 == bh.height
      then (
        true,
        if bh.group_height == g.height
            then (record g { blocks = g.blocks ++ new ∷ [] }) ∷ groups
            else (record { height = bh.group_height; blocks = new ∷ [] }) ∷ g ∷ groups,
      )
      else (false, g ∷ groups))
]

-- What `AddBlock` does once the transactions are counted.
unfoldable pub add_counted :
    Keystore → BlockHead → List TxBase → Node → BalanceManager → Option (Bool × Node)
add_counted keys bh txs node counted = elim (add_depositors keys txs node.witnesses) [
  | none ↦ none
  | some witnesses ↦
      elim (link bh (record { height = bh.height; id = bh.hash; deposit_tx = deposits txs })
        node.groups) [
          | none ↦ none
          | some (added, groups) ↦
              some (
                added,
                record { balance_manager = counted; witnesses = witnesses; groups = groups },
              )
        ]
]

-- `AddBlock`
unfoldable pub add_block : Keystore → BlockHead → List TxBase → Node → Option (Bool × Node)
add_block keys bh txs node = elim (count keys bh.height txs node.balance_manager) [
  | none ↦ none
  | some counted ↦ add_counted keys bh txs node counted
]
