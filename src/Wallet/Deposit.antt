-- ===== src/Wallet/Deposit.antt =====
-- transaction_deposit.go: `CreateTxDepositIn`, the deposit of a witness. `none` is the answer nil; a key
-- without a balance, which is refused at once, has too little like any other.
pub mod Locked
use Prim.Native.Nat.{◌^◌}
use polarcloud.Prelude.{
  ℕ, ◌+◌, ◌-◌, ◌%◌, List, [], ◌∷◌, map, Option, none, some, Text, ltb, if◌then◌else◌,
}
use polarcloud.Wallet.{Vin, Vout, TxBase, Items, items_of, type_deposit_in}
use polarcloud.Wallet.Pay.{Address, Signer, collect, hashed}

-- `Mining_deposit` of config
abbrev pub mining_deposit : ℕ
mining_deposit = 100000000

-- The deposit, and what is left over, both to the key.
unfoldable pub deposit_outputs : Address → ℕ → List Vout
deposit_outputs key total =
    record { value = mining_deposit; address = key.hash; tx = [] }
    ∷ (if ltb mining_deposit total
        then (record { value = total - mining_deposit; address = key.hash; tx = [] }) ∷ []
        else [])

-- Every input gets the one signature of the outputs.
abbrev pub signed_with : List ℕ → List Vin → List Vin
signed_with sign vins = map (λ (vin : Vin). record vin { vout_sign = sign }) vins

unfoldable pub deposit_tx : List Vin → List Vout → TxBase
deposit_tx vins vouts = record {
  hash = [];
  class = type_deposit_in;
  vin_total = 1;
  vin = vins;
  vout_total = 0;
  vout = vouts;
  gas = 0;
  block_hash = [];
}

-- The end of `CreateTxDepositIn`, from the inputs and outputs on.
unfoldable pub finish_deposit : Signer → Address → List Vin → List Vout → Option TxBase
finish_deposit signer key vins vouts = elim (signer.marshal vouts) [
  | none ↦ none
  | some bs ↦ elim (signer.sign key bs) [
    | none ↦ none
    | some sign ↦ some (hashed signer (deposit_tx (signed_with sign vins) vouts))
  ]
]

unfoldable pub create_tx_deposit_in : Signer → List (Text × Items) → Address → Option TxBase
create_tx_deposit_in signer balance key =
    let (vins, total) = collect signer key mining_deposit (items_of key.hash balance) ([], 0) in
    if ltb total mining_deposit
    then none
    else finish_deposit signer key vins (deposit_outputs key total)
