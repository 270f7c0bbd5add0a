-- ===== src/Wallet/Movements.antt =====
-- `count` as a sequence of movements: what its rounds delete and record, in their order.
use polarcloud.Prelude.{
  ℕ, suc, ◌≡◌, refl, sym, ap, ◌∙◌, inl, inr, pos, ◌&&◌, List, [], ◌∷◌, ◌++◌, none, some, Text, ◌==◌,
  if◌then◌else◌, Bool-cases, arith,
}
use polarcloud.Table.{put, delete}
use polarcloud.Wallet.{
  Vin, Vout, TxBase, Keystore, TxItem, Items, item_key, to_int, items_of, is_own, is_counted,
  type_deposit_in, type_deposit_out, count_vin, count_vins, count_vout, count_vouts, count_tx,
  count_txs,
}

-- An own address spends the output of a key, or receives one.
pub data Movement : Type 0 where
  spent : Text → Text → Movement
  received : Text → Text → TxItem → Movement

-- The movements of an input, of an output and of transactions, in their order: the inputs of a
-- transaction that gives a deposit back are none, and the first output of a deposit is none.
unfoldable pub vin_movements : Keystore → Vin → List Movement
vin_movements keys vin = elim (keys.build_addr_by_pubkey vin.puk) [
  | none ↦ []
  | some address ↦
      if is_own keys address then spent address (item_key vin.txid (to_int vin.vout)) ∷ [] else []
]

unfoldable pub vins_movements : Keystore → ℕ → List Vin → List Movement
vins_movements keys class [] = []
vins_movements keys class (vin ∷ vins) =
    (if class == type_deposit_out then [] else vin_movements keys vin)
    ++ vins_movements keys class vins

unfoldable pub vout_movements : Keystore → ℕ → List ℕ → ℕ → Vout → List Movement
vout_movements keys class hash index vout =
    if is_own keys vout.address
    then if class == type_deposit_in && index == 0
      then []
      else received vout.address (item_key hash (pos index))
          (record { value = vout.value; txid = hash; out_index = index })
        ∷ []
    else []

unfoldable pub vouts_movements : Keystore → ℕ → List ℕ → ℕ → List Vout → List Movement
vouts_movements keys class hash index [] = []
vouts_movements keys class hash index (vout ∷ vouts) =
    vout_movements keys class hash index vout ++ vouts_movements keys class hash (suc index) vouts

unfoldable pub tx_movements : Keystore → TxBase → List Movement
tx_movements keys tx =
    if is_counted tx
    then vins_movements keys tx.class tx.vin
      ++ vouts_movements keys tx.class (keys.build_hash tx) 0 tx.vout
    else []

unfoldable pub movements : Keystore → List TxBase → List Movement
movements keys [] = []
movements keys (tx ∷ txs) = tx_movements keys tx ++ movements keys txs

-- One movement, and several, on the balances.
unfoldable pub move : Movement → List (Text × Items) → List (Text × Items)
move (spent address key) balance = put address (delete key (items_of address balance)) balance
move (received address key item) balance =
    put address (put key item (items_of address balance)) balance

unfoldable pub move_all : List Movement → List (Text × Items) → List (Text × Items)
move_all [] balance = balance
move_all (m ∷ ms) balance = move_all ms (move m balance)

move_all-append :
    (ms ns : List Movement) (balance : List (Text × Items))
    → move_all (ms ++ ns) balance ≡ move_all ns (move_all ms balance)
unfolding move_all
move_all-append [] ns balance = refl
move_all-append (m ∷ ms) ns balance = move_all-append ms ns (move m balance)

count_vin-move_all :
    (keys : Keystore) (vin : Vin) (balance : List (Text × Items))
    → count_vin keys vin balance ≡ move_all (vin_movements keys vin) balance
unfolding count_vin vin_movements move_all move
count_vin-move_all keys vin balance = ground arith

count_vins-move_all :
    (keys : Keystore) (class : ℕ) (vins : List Vin) (balance : List (Text × Items))
    → count_vins keys class vins balance ≡ move_all (vins_movements keys class vins) balance
unfolding count_vins vins_movements move_all
count_vins-move_all keys class [] balance = refl
count_vins-move_all keys class (vin ∷ vins) balance =
    elim (Bool-cases (class == type_deposit_out)) [
      | inl out ↦ rw out (count_vins-move_all keys class vins balance)
      | inr other ↦
          rw (other, move_all-append (vin_movements keys vin))
            (count_vins-move_all keys class vins (count_vin keys vin balance)
              ∙ ap (move_all (vins_movements keys class vins))
                  (count_vin-move_all keys vin balance))
    ]

count_vout-move_all :
    (keys : Keystore) (class : ℕ) (hash : List ℕ) (index : ℕ) (vout : Vout)
    (balance : List (Text × Items))
    → count_vout keys class hash index vout balance
      ≡ move_all (vout_movements keys class hash index vout) balance
unfolding count_vout vout_movements move_all move
count_vout-move_all keys class hash index vout balance = ground arith

count_vouts-move_all :
    (keys : Keystore) (class : ℕ) (hash : List ℕ) (index : ℕ) (vouts : List Vout)
    (balance : List (Text × Items))
    → count_vouts keys class hash index vouts balance
      ≡ move_all (vouts_movements keys class hash index vouts) balance
unfolding count_vouts vouts_movements move_all
count_vouts-move_all keys class hash index [] balance = refl
count_vouts-move_all keys class hash index (vout ∷ vouts) balance =
    count_vouts-move_all keys class hash (suc index) vouts
      (count_vout keys class hash index vout balance)
    ∙ ap (move_all (vouts_movements keys class hash (suc index) vouts))
        (count_vout-move_all keys class hash index vout balance)
    ∙ sym (move_all-append (vout_movements keys class hash index vout) _ balance)

count_tx-move_all :
    (keys : Keystore) (tx : TxBase) (balance : List (Text × Items))
    → count_tx keys tx balance ≡ move_all (tx_movements keys tx) balance
unfolding count_tx move_all tx_movements
count_tx-move_all keys tx balance = elim (Bool-cases (is_counted tx)) [
  | inl counted ↦
      rw (counted, move_all-append (vins_movements keys tx.class tx.vin))
        (count_vouts-move_all keys tx.class (keys.build_hash tx) 0 tx.vout _
          ∙ ap (move_all (vouts_movements keys tx.class (keys.build_hash tx) 0 tx.vout))
              (count_vins-move_all keys tx.class tx.vin balance))
  | inr other ↦ rw other refl
]

pub count_txs-move_all :
    (keys : Keystore) (txs : List TxBase) (balance : List (Text × Items))
    → count_txs keys txs balance ≡ move_all (movements keys txs) balance
unfolding count_txs movements move_all
count_txs-move_all keys [] balance = refl
count_txs-move_all keys (tx ∷ txs) balance =
    count_txs-move_all keys txs (count_tx keys tx balance)
    ∙ ap (move_all (movements keys txs)) (count_tx-move_all keys tx balance)
    ∙ sym (move_all-append (tx_movements keys tx) (movements keys txs) balance)
