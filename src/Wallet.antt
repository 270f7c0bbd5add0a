-- ===== src/Wallet.antt =====
-- wallet/mining: the transactions of transaction.go, the outputs of the wallet's own addresses that
-- balance.go keeps, the blocks of chain.go, and the payments of transaction_pay.go. An address is
-- given by the text that its B58String writes.
pub mod Naming
pub mod Movements
pub mod Unspent
pub mod Spared
pub mod Kept
pub mod Chain
pub mod Pay
pub mod Merkle
pub mod Deposit
use Prim.Native.Nat.{◌^◌}
use polarcloud.Prelude.{
  ℕ, suc, ◌+◌, ◌-◌, ◌*◌, ◌/◌, ◌%◌, ℤ, pos, negsuc, Bool, true, false, not, ◌&&◌, ◌||◌, List, [],
  ◌∷◌, ◌++◌, Option, none, some, Text, js, ltb, ◌==◌, if◌then◌else◌,
}
use polarcloud.Strings.{to_string}
use polarcloud.Table.{lookup, put, delete}

-- `Wallet_tx_type_…` of config
abbrev pub type_mining : ℕ
type_mining = 0

abbrev pub type_deposit_in : ℕ
type_deposit_in = 1

abbrev pub type_deposit_out : ℕ
type_deposit_out = 2

abbrev pub type_pay : ℕ
type_pay = 3

pub record Vin : Type 0 where
  pub txid : List ℕ
  pub vout : ℕ
  pub puk : List ℕ
  pub sign : List ℕ
  pub vout_sign : List ℕ

pub record Vout : Type 0 where
  pub value : ℕ
  pub address : Text
  pub tx : List ℕ

pub record TxBase : Type 0 where
  pub hash : List ℕ
  pub class : ℕ
  pub vin_total : ℕ
  pub vin : List Vin
  pub vout_total : ℕ
  pub vout : List Vout
  pub gas : ℕ
  pub block_hash : List ℕ

-- What the wallet asks of its keystore and of the hash of transactions: `BuildAddrByPubkey`,
-- `ParseHashByPubkey`, the two fields of `ValidateByAddress`, the hash of the key that `GetCoinbase`
-- gives, and the hash that `BuildHash` leaves.
pub record Keystore : Type 0 where
  pub build_addr_by_pubkey : List ℕ → Option Text
  pub parse_hash_by_pubkey : List ℕ → Option Text
  pub is_verify : Text → Bool
  pub is_mine : Text → Bool
  pub coinbase : Option Text
  pub build_hash : TxBase → List ℕ

-- `TxItem` without its address, which nothing reads.
pub record TxItem : Type 0 where
  pub value : ℕ
  pub txid : List ℕ
  pub out_index : ℕ

-- `hex.EncodeToString`
abbrev pub hex_digit : ℕ → ℕ
hex_digit n = if ltb n 10 then b'0' + n else b'a' + (n - 10)

abbrev pub hex_text : List ℕ → Text
hex_text [] = []
hex_text (b ∷ bytes) = hex_digit (b / 16) ∷ hex_digit (b % 16) ∷ hex_text bytes

-- `int(n)` of a uint64, and `strconv.Itoa`.
abbrev pub to_int : ℕ → ℤ
to_int n = if ltb n (2 ^ 63) then pos n else negsuc (2 ^ 64 - 1 - n)

abbrev pub itoa : ℤ → Text
itoa (pos n) = to_string n
itoa (negsuc n) = b'-' ∷ to_string (suc n)

-- The key of an output in `Txs`.
unfoldable pub item_key : List ℕ → ℤ → Text
item_key txid index = hex_text txid ++ b'_' ∷ itoa index

-- `Txs` of a `Balance`, and `balance` of the manager.
abbrev pub Items : Type 0
Items = List (Text × TxItem)

pub record BalanceManager : Type 0 where
  pub sync_height : ℕ
  pub balance : List (Text × Items)

-- `this.balance.Load(address)`, with a new `Balance` for an address that has none.
abbrev pub or_empty : Option Items → Items
or_empty none = []
or_empty (some items) = items

abbrev pub items_of : Text → List (Text × Items) → Items
items_of address balance = or_empty (lookup address balance)

abbrev pub is_own : Keystore → Text → Bool
is_own keys address = keys.is_verify address && keys.is_mine address

-- The types that count.
abbrev pub is_counted : TxBase → Bool
is_counted tx =
    tx.class == type_mining
    || tx.class == type_deposit_in
    || tx.class == type_deposit_out
    || tx.class == type_pay

-- The round of `count` for one input.
unfoldable pub count_vin : Keystore → Vin → List (Text × Items) → List (Text × Items)
count_vin keys vin balance = elim (keys.build_addr_by_pubkey vin.puk) [
  | none ↦ balance
  | some address ↦
      if is_own keys address
      then put address (delete (item_key vin.txid (to_int vin.vout)) (items_of address balance))
          balance
      else balance
]

unfoldable pub count_vins : Keystore → ℕ → List Vin → List (Text × Items) → List (Text × Items)
count_vins keys class [] balance = balance
count_vins keys class (vin ∷ vins) balance =
    count_vins keys class vins
      (if class == type_deposit_out then balance else count_vin keys vin balance)

-- The round for one output, by its index.
unfoldable pub count_vout :
    Keystore → ℕ → List ℕ → ℕ → Vout → List (Text × Items) → List (Text × Items)
count_vout keys class hash index vout balance =
    if is_own keys vout.address
    then if class == type_deposit_in && index == 0
      then balance
      else put vout.address
          (put (item_key hash (pos index))
            (record { value = vout.value; txid = hash; out_index = index })
            (items_of vout.address balance))
          balance
    else balance

unfoldable pub count_vouts :
    Keystore → ℕ → List ℕ → ℕ → List Vout → List (Text × Items) → List (Text × Items)
count_vouts keys class hash index [] balance = balance
count_vouts keys class hash index (vout ∷ vouts) balance =
    count_vouts keys class hash (suc index) vouts (count_vout keys class hash index vout balance)

unfoldable pub count_tx : Keystore → TxBase → List (Text × Items) → List (Text × Items)
count_tx keys tx balance =
    if is_counted tx
    then count_vouts keys tx.class (keys.build_hash tx) 0 tx.vout
        (count_vins keys tx.class tx.vin balance)
    else balance

unfoldable pub count_txs : Keystore → List TxBase → List (Text × Items) → List (Text × Items)
count_txs keys [] balance = balance
count_txs keys (tx ∷ txs) balance = count_txs keys txs (count_tx keys tx balance)

-- `count`: at the end it prints what the outputs of the coinbase add up to, for which it reads the hash
-- of the coinbase without looking at the error; with no coinbase this panics, as `none`. The values
-- of the outputs change nothing.
unfoldable pub count : Keystore → ℕ → List TxBase → BalanceManager → Option BalanceManager
count keys height txs m = elim keys.coinbase [
  | none ↦ none
  | some key ↦ some (record { sync_height = height; balance = count_txs keys txs m.balance })
]
