-- ===== src/Wallet/Pay.antt =====
-- transaction_pay.go and transaction_deposit.go: the payments and the deposits that a wallet makes from
-- what it has recorded. `Range` over a map visits it in the order of its list, which may be any.
pub mod Chosen
pub mod Once
pub mod Collected
pub mod Enough
pub mod Signed
pub mod Balanced
pub mod Overflow
use Prim.Native.Nat.{◌^◌}
use polarcloud.Prelude.{
  ℕ, ◌+◌, ◌-◌, ◌*◌, ◌%◌, Bool, true, false, List, [], ◌∷◌, ◌++◌, Option, none, some, Text, eq_text,
  length, ltb, leb, if◌then◌else◌,
}
use polarcloud.Wallet.{
  Vin, Vout, TxBase, TxItem, Items, hex_text, items_of, type_deposit_in, type_pay,
}

-- A key of the wallet, with the text of its `Hash`.
pub record Address : Type 0 where
  pub hash : Text
  pub pubkey : List ℕ

-- What the wallet asks of its keystore, of its database and of encoding/json: `GetCoinbase`, `GetAddr`,
-- `db.Find` with `ParseTxBase`, `CheckJson`, `Sign` with the password of the program, `json.Marshal` of
-- outputs, and the hash of `BuildHash`.
pub record Signer : Type 0 where
  pub coinbase : Option Address
  pub addresses : List Address
  pub find_tx : List ℕ → Option TxBase
  pub check_json : Vout → Option (List ℕ)
  pub sign : Address → List ℕ → Option (List ℕ)
  pub marshal : List Vout → Option (List ℕ)
  pub build_hash : TxBase → List ℕ

pub data Failure : Type 0 where
  no_coinbase insufficient bad_outputs bad_sign : Failure

pub data Outcome : Type 0 where
  failed : Failure → Outcome
  created : TxBase → Outcome

-- `sign` for the first output of a transaction that pays the key; `none` is every `return false`.
unfoldable pub sign_first : Signer → Address → List Vout → Option (List ℕ)
sign_first signer key [] = none
sign_first signer key (vout ∷ vouts) =
    let rest = sign_first signer key vouts in
    if eq_text vout.address key.hash
    then elim (signer.check_json vout) [ none ↦ none | some bs ↦ signer.sign key bs ]
    else rest

unfoldable pub sign_item : Signer → Address → TxItem → Option (List ℕ)
sign_item signer key item = elim (signer.find_tx item.txid) [
  | none ↦ none
  | some tx ↦ sign_first signer key tx.vout
]

-- The input that spends an item.
abbrev pub vin_of : Address → TxItem → List ℕ → Vin
vin_of key item sign = record {
  txid = item.txid;
  vout = item.out_index;
  puk = key.pubkey;
  sign = sign;
  vout_sign = [];
}

-- The function that `Range` calls, over the items of a key: it stops at an error and once the total
-- reaches what is needed. `total` is a uint64.
unfoldable pub collect : Signer → Address → ℕ → Items → List Vin × ℕ → List Vin × ℕ
collect signer key need [] (vins, total) = (vins, total)
collect signer key need ((_, item) ∷ items) (vins, total) = elim (sign_item signer key item) [
  | none ↦ (vins, total)
  | some sign ↦
      let more = (total + item.value) % 2 ^ 64 in
      let rest = collect signer key need items (vins ++ vin_of key item sign ∷ [], more) in
      if leb need more then (vins ++ vin_of key item sign ∷ [], more) else rest
]

-- The loop over the keys other than that of the coinbase.
unfoldable pub collect_from :
    Signer → Address → List (Text × Items) → ℕ → List Address → List Vin × ℕ → List Vin × ℕ
collect_from signer coinbase balance need [] picked = picked
collect_from signer coinbase balance need (key ∷ keys) picked =
    collect_from signer coinbase balance need keys (
      if eq_text key.hash coinbase.hash
      then picked
      else collect signer key need (items_of key.hash balance) picked)

-- All of the inputs: those of the coinbase only if the others are not enough.
unfoldable pub collect_all : Signer → Address → List (Text × Items) → ℕ → List Vin × ℕ
collect_all signer coinbase balance need =
    let (vins, total) = collect_from signer coinbase balance need signer.addresses ([], 0) in
    if ltb total need
    then collect signer coinbase need (items_of coinbase.hash balance) (vins, total)
    else (vins, total)

-- The outputs: the payment, and what is left over to the coinbase; the differences are those of uint64.
unfoldable pub pay_outputs : Address → Text → ℕ → ℕ → ℕ → List Vout
pay_outputs coinbase address amount gas total =
    record { value = amount; address = address; tx = [] }
    ∷ (if ltb ((amount + gas) % 2 ^ 64) total
        then (record {
          value = ((total + 2 ^ 64 - amount) % 2 ^ 64 + 2 ^ 64 - gas) % 2 ^ 64;
          address = coinbase.hash;
          tx = [];
        })
          ∷ []
        else [])

-- `VoutSign` of an input, by the first key with its public key.
unfoldable pub sign_vin : Signer → List ℕ → List Address → Vin → Option Vin
sign_vin signer bs [] vin = some vin
sign_vin signer bs (key ∷ keys) vin =
    let rest = sign_vin signer bs keys vin in
    if eq_text (hex_text key.pubkey) (hex_text vin.puk)
    then elim (signer.sign key bs) [
      | none ↦ none
      | some sign ↦ some (record vin { vout_sign = sign })
    ]
    else rest

unfoldable pub sign_vins : Signer → List ℕ → List Vin → Option (List Vin)
sign_vins signer bs [] = some []
sign_vins signer bs (vin ∷ vins) = elim (sign_vin signer bs signer.addresses vin) [
  | none ↦ none
  | some signed ↦ elim (sign_vins signer bs vins) [ none ↦ none | some rest ↦ some (signed ∷ rest) ]
]

-- The transaction with the hash of `BuildHash`.
abbrev pub hashed : Signer → TxBase → TxBase
hashed signer tx = record tx { hash = signer.build_hash tx }

abbrev pub pay_tx : List Vin → List Vout → ℕ → TxBase
pay_tx vins vouts gas = record {
  hash = [];
  class = type_pay;
  vin_total = length vins;
  vin = vins;
  vout_total = length vouts;
  vout = vouts;
  gas = gas;
  block_hash = [];
}

-- The end of `CreateTxPay`, from the inputs and outputs on.
unfoldable pub finish_pay : Signer → List Vin → List Vout → ℕ → Outcome
finish_pay signer vins vouts gas = elim (signer.marshal vouts) [
  | none ↦ failed bad_outputs
  | some bs ↦ elim (sign_vins signer bs vins) [
    | none ↦ failed bad_sign
    | some signed ↦ created (hashed signer (pay_tx signed vouts gas))
  ]
]

-- `CreateTxPay` with what `GetCoinbase` answers.
unfoldable pub pay_with : Signer → List (Text × Items) → Text → ℕ → ℕ → Option Address → Outcome
pay_with signer balance address amount gas none = failed no_coinbase
pay_with signer balance address amount gas (some coinbase) =
    let need = (amount + gas) % 2 ^ 64 in
    let (vins, total) = collect_all signer coinbase balance need in
    if ltb total need
    then failed insufficient
    else finish_pay signer vins (pay_outputs coinbase address amount gas total) gas

-- `CreateTxPay`; its comment is not used.
unfoldable pub create_tx_pay : Signer → List (Text × Items) → Text → ℕ → ℕ → Outcome
create_tx_pay signer balance address amount gas =
    pay_with signer balance address amount gas signer.coinbase
