-- ===== src/Wallet/Chain/Added.antt =====
-- What `AddBlock` does to a node.
use polarcloud.Prelude.{
  ℕ, ◌≡◌, ◌≢◌, refl, sym, ap, ◌∙◌, inl, inr, Bool, List, [], ◌∷◌, All, Option, none, some,
  Option-cases, Text, ◌==◌, if◌then◌else◌, Bool-cases, arith,
}
use polarcloud.Wallet.{
  TxBase, Keystore, Vin, Vout, BalanceManager, type_deposit_in, count, count_txs,
}
use polarcloud.Wallet.Chain.{
  Block, Group, BlockHead, BackupWitness, Node, add_scored, add_depositor, add_depositors, deposits,
  add_counted, add_block,
}
use polarcloud.Wallet.Chain.Linked.{
  AreGroups, Linked, all_blocks, last_entry, comes_after, extended, link-extended,
  extended-Consecutive,
}

-- A deposit has an input and an output.
abbrev pub IsDeposit : TxBase → Type 0
IsDeposit tx = tx.class ≡ type_deposit_in → (tx.vin ≢ []) × (tx.vout ≢ [])

scored :
    (addr : Option Text) (vouts : List Vout) (witnesses : List BackupWitness)
    → vouts ≢ []
    → (more : List BackupWitness) × (add_scored addr vouts witnesses ≡ some more)
unfolding add_scored
scored none vouts witnesses k = (witnesses, refl)
scored (some addr) [] witnesses k = absurd (k refl)
scored (some addr) (vout ∷ vouts) witnesses k = (_, refl)

depositor_found :
    (keys : Keystore) (vins : List Vin) (vouts : List Vout) (witnesses : List BackupWitness)
    → vins ≢ []
    → vouts ≢ []
    → (more : List BackupWitness) × (add_depositor keys vins vouts witnesses ≡ some more)
unfolding add_depositor
depositor_found keys [] vouts witnesses h k = absurd (h refl)
depositor_found keys (vin ∷ vins) vouts witnesses h k =
    scored (keys.parse_hash_by_pubkey vin.puk) vouts witnesses k

depositors_step :
    (keys : Keystore) (tx : TxBase) (txs : List TxBase) (witnesses more : List BackupWitness)
    → (if tx.class == type_deposit_in
        then add_depositor keys tx.vin tx.vout witnesses
        else some witnesses)
      ≡ some more
    → add_depositors keys (tx ∷ txs) witnesses ≡ add_depositors keys txs more
unfolding add_depositors
depositors_step keys tx txs witnesses more e = rw (e, add_depositors) refl

depositors_found :
    (keys : Keystore) (txs : List TxBase) (witnesses : List BackupWitness)
    → All IsDeposit txs
    → (more : List BackupWitness) × (add_depositors keys txs witnesses ≡ some more)
unfolding add_depositors
depositors_found keys [] witnesses h = (witnesses, refl)
depositors_found keys (tx ∷ txs) witnesses (h, hs) =
    elim (Bool-cases (tx.class == type_deposit_in)) [
      | inr other ↦
          let (more, f) = depositors_found keys txs witnesses hs in
          (more, depositors_step keys tx txs witnesses witnesses (rw other refl) ∙ f)
      | inl deposit ↦
          let (v, o) = h (ground arith) in
          let (more, e) = depositor_found keys tx.vin tx.vout witnesses v o in
          let (all_more, f) = depositors_found keys txs more hs in
          (all_more, depositors_step keys tx txs witnesses more (rw deposit e) ∙ f)
    ]

-- The block that `AddBlock` makes.
abbrev pub new_block : BlockHead → List TxBase → Block
new_block bh txs = record { height = bh.height; id = bh.hash; deposit_tx = deposits txs }

add_counted-extended :
    (keys : Keystore) (bh : BlockHead) (txs : List TxBase) (node : Node) (counted : BalanceManager)
    (witnesses : List BackupWitness)
    → AreGroups node.groups
    → add_depositors keys txs node.witnesses ≡ some witnesses
    → (groups : List Group) × (add_counted keys bh txs node counted
        ≡ some (
          comes_after bh.height (last_entry (all_blocks node.groups)),
          record { balance_manager = counted; witnesses = witnesses; groups = groups },
        ))
      × AreGroups groups
      × (all_blocks groups ≡ extended bh (new_block bh txs) (all_blocks node.groups))
unfolding add_counted
add_counted-extended keys bh txs node counted witnesses h e =
    let (groups, f, g, k) = link-extended bh (new_block bh txs) node.groups h in
    (groups, rw (e, f, add_counted) refl, g, k)

count_some :
    (keys : Keystore) (coinbase : Text) (height : ℕ) (txs : List TxBase) (m : BalanceManager)
    → keys.coinbase ≡ some coinbase
    → count keys height txs m
      ≡ some (record { sync_height = height; balance = count_txs keys txs m.balance })
unfolding count
count_some keys coinbase height txs m own =
    ap
      (λ (c : Option Text). elim c [
        | none ↦ none
        | some key ↦ some (record { sync_height = height; balance = count_txs keys txs m.balance })
      ])
      own

-- Adding a block whose deposits have inputs and outputs does not panic, if the wallet has a coinbase and
-- the groups of the chain are not empty and neighbouring ones differ in height. It answers whether the
-- height follows that of the last block, if there is one; it adds the block at the end of the chain
-- exactly then; and in every case, also when it refuses the block, it counts its transactions.
pub add_block-extended :
    (keys : Keystore) (coinbase : Text) (bh : BlockHead) (txs : List TxBase) (node : Node)
    → keys.coinbase ≡ some coinbase
    → AreGroups node.groups
    → All IsDeposit txs
    → (next : Node) × (add_block keys bh txs node
        ≡ some (comes_after bh.height (last_entry (all_blocks node.groups)), next))
      × AreGroups next.groups
      × (all_blocks next.groups ≡ extended bh (new_block bh txs) (all_blocks node.groups))
      × (next.balance_manager.sync_height ≡ bh.height)
      × (next.balance_manager.balance ≡ count_txs keys txs node.balance_manager.balance)
unfolding add_block
add_block-extended keys coinbase bh txs node own h d =
    let counted : BalanceManager = record {
      sync_height = bh.height;
      balance = count_txs keys txs node.balance_manager.balance;
    } in
    let (witnesses, e) = depositors_found keys txs node.witnesses d in
    let (groups, f, g, k) = add_counted-extended keys bh txs node counted witnesses h e in
    (
      record { balance_manager = counted; witnesses = witnesses; groups = groups },
      rw (count_some keys coinbase bh.height txs node.balance_manager own, add_block) f,
      g,
      k,
      refl,
      refl,
    )

-- The nodes that come from an empty chain by adding blocks, whatever `AddBlock` answers.
pub data Reach (keys : Keystore) : Node → Type 0 where
  start : (node : Node) → node.groups ≡ [] → Reach keys node
  after_block :
      (bh : BlockHead) (txs : List TxBase) (node next : Node) (added : Bool)
      → Reach keys node
      → add_block keys bh txs node ≡ some (added, next)
      → Reach keys next

groups_of : Option (Bool × Node) → List Group
groups_of none = []
groups_of (some (b, n)) = n.groups

add_counted-link :
    (keys : Keystore) (bh : BlockHead) (txs : List TxBase) (node next : Node) (added : Bool)
    (counted : BalanceManager)
    → AreGroups node.groups
    → add_counted keys bh txs node counted ≡ some (added, next)
    → AreGroups next.groups
      × (all_blocks next.groups ≡ extended bh (new_block bh txs) (all_blocks node.groups))
unfolding add_counted groups_of
add_counted-link keys bh txs node next added counted h e =
    elim (Option-cases (add_depositors keys txs node.witnesses)) [
      | inl panic ↦
          let f : add_counted keys bh txs node counted ≡ none = rw (panic, add_counted) refl in
          absurd (cc)
      | inr (witnesses, found) ↦
          let (groups, f, g, k) = add_counted-extended keys bh txs node counted witnesses h found in
          let same : groups ≡ next.groups = ap groups_of (sym f ∙ e) in rw⁻¹ same (g, k)
    ]

add_block-link :
    (keys : Keystore) (bh : BlockHead) (txs : List TxBase) (node next : Node) (added : Bool)
    → AreGroups node.groups
    → add_block keys bh txs node ≡ some (added, next)
    → AreGroups next.groups
      × (all_blocks next.groups ≡ extended bh (new_block bh txs) (all_blocks node.groups))
unfolding add_block
add_block-link keys bh txs node next added h e =
    elim (Option-cases (count keys bh.height txs node.balance_manager)) [
      | inl panic ↦
          let f : add_block keys bh txs node ≡ none = rw (panic, add_block) refl in absurd (cc)
      | inr (counted, found) ↦
          let f : add_block keys bh txs node ≡ add_counted keys bh txs node counted =
            rw (found, add_block) refl in
          add_counted-link keys bh txs node next added counted h (sym f ∙ e)
    ]

-- In every node that comes about by adding blocks to an empty chain, in any order and with any
-- heights, no group is empty, neighbouring groups differ in height, and every block of the chain is
-- one higher, in uint64, than the one before it.
pub reach-Linked : (keys : Keystore) (node : Node) → Reach keys node → Linked node.groups
reach-Linked keys node (start n e) = rw e (tt, tt)
reach-Linked keys next (after_block bh txs node n added r e) =
    let (h, c) = reach-Linked keys node r in
    let (g, k) = add_block-link keys bh txs node next added h e in
    (g, rw k (extended-Consecutive bh (new_block bh txs) (all_blocks node.groups) refl c))
