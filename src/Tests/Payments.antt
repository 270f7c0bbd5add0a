-- ===== src/Tests/Payments.antt =====
-- Payments and deposits of a wallet with two keys.
use Prim.Native.Nat.{◌^◌}
use mathlib.Core.List.{Sublistᴰ}
use polarcloud.Prelude.{
  ◌+◌, ◌-◌, ◌≤◌, ◌<◌, ◌≡◌, refl, List, [], ◌∷◌, some, Text, eq_text, All, arith,
}
use polarcloud.Table.{lookup}
use polarcloud.Wallet.{Vout, TxBase, TxItem, Items}
use polarcloud.Wallet.Pay.{
  Address, Signer, created, failed, insufficient, create_tx_pay, pay_with, collect_all,
  collect_from, collect, sign_item, sign_first, pay_outputs, sign_vins, sign_vin, finish_pay,
}
use polarcloud.Wallet.Pay.Chosen.{Entry, all_entries, sum_of, Spends}
use polarcloud.Wallet.Pay.Once.{SpendsOnce}
use polarcloud.Wallet.Pay.Balanced.{sum_outputs, create_tx_pay-balanced, create_tx_pay-enough}
use polarcloud.Wallet.Pay.Overflow.{create_tx_pay-free}
use polarcloud.Tests.Wallet.{item, reward}

abbrev coinbase : Address
coinbase = record { hash = 7 ∷ []; pubkey = 7 ∷ [] }

abbrev saver : Address
saver = record { hash = 8 ∷ []; pubkey = 8 ∷ [] }

abbrev paid : TxBase
paid = record reward {
  vout =
      record { value = 50; address = 7 ∷ []; tx = [] }
      ∷ record { value = 20; address = 8 ∷ []; tx = [] }
      ∷ [];
}

abbrev signer : Signer
signer = record {
  coinbase = some coinbase;
  addresses = coinbase ∷ saver ∷ [];
  find_tx = λ txid. some paid;
  check_json = λ vout. some [];
  sign = λ key bs. some key.pubkey;
  marshal = λ vouts. some [];
  build_hash = λ tx. 3 ∷ [];
}

abbrev poor : Signer
poor = record signer { addresses = coinbase ∷ [] }

abbrev second : TxItem
second = record { value = 20; txid = 0 ∷ 5 ∷ []; out_index = 1 }

abbrev balance : List (Text × Items)
balance = (7 ∷ [], (1 ∷ [], item 50) ∷ []) ∷ (8 ∷ [], (2 ∷ [], second) ∷ []) ∷ []

-- A payment of 30 with a fee of 1: the saver's 20 and the coinbase's 50, of which 39 come back.
abbrev payment : TxBase
payment = record {
  hash = 3 ∷ [];
  class = 3;
  vin_total = 2;
  vin =
      record { txid = 0 ∷ 5 ∷ []; vout = 1; puk = 8 ∷ []; sign = 8 ∷ []; vout_sign = 8 ∷ [] }
      ∷ record { txid = 0 ∷ 5 ∷ []; vout = 0; puk = 7 ∷ []; sign = 7 ∷ []; vout_sign = 7 ∷ [] }
      ∷ [];
  vout_total = 2;
  vout =
      record { value = 30; address = 9 ∷ []; tx = [] }
      ∷ record { value = 39; address = 7 ∷ []; tx = [] }
      ∷ [];
  gas = 1;
  block_hash = [];
}

create_tx_pay_runs : create_tx_pay signer balance (9 ∷ []) 30 1 ≡ created payment
unfolding create_tx_pay pay_with collect_all collect_from collect sign_item sign_first pay_outputs
    sign_vins sign_vin finish_pay eq_text lookup
create_tx_pay_runs = refl

create_tx_pay-balanced_example :
    (es : List Entry) × Sublistᴰ es (all_entries signer coinbase balance)
    × Spends es payment.vin
    × SpendsOnce payment.vin
    × (sum_of es ≡ sum_outputs payment.vout + 1)
    × (payment.gas ≡ 1)
    × (change : List Vout) × (payment.vout
        ≡ record { value = 30; address = 9 ∷ []; tx = [] } ∷ change)
    × All (λ v. v.address ≡ coinbase.hash) change
unfolding eq_text lookup
create_tx_pay-balanced_example =
    create_tx_pay-balanced signer coinbase balance (9 ∷ []) 30 1 payment refl (omega arith)
      (omega arith) (((λ (a, b). omega (arith, b)), tt), (tt, tt)) create_tx_pay_runs

create_tx_pay-enough_example :
    (30 + 1 ≤ sum_of (all_entries signer coinbase balance)
      → (tx : TxBase) × (create_tx_pay signer balance (9 ∷ []) 30 1 ≡ created tx))
    × (sum_of (all_entries signer coinbase balance) < 30 + 1
        → create_tx_pay signer balance (9 ∷ []) 30 1 ≡ failed insufficient)
unfolding eq_text lookup sign_item sign_first
create_tx_pay-enough_example =
    create_tx_pay-enough signer coinbase balance (9 ∷ []) 30 1 refl (omega arith) (omega arith)
      ((8 ∷ [], refl), ((7 ∷ [], refl), tt)) (λ vouts. ([], refl)) (λ key bs. (key.pubkey, refl))

create_tx_pay-free_example :
    (tx : TxBase) × (create_tx_pay poor [] (9 ∷ []) (2 ^ 64 - 1) 1 ≡ created tx)
    × (tx.vin ≡ [])
    × (tx.vout ≡ record { value = 2 ^ 64 - 1; address = 9 ∷ []; tx = [] } ∷ [])
unfolding eq_text
create_tx_pay-free_example =
    create_tx_pay-free poor coinbase [] (9 ∷ []) (2 ^ 64 - 1) 1 refl (refl, tt)
      (λ vouts. ([], refl)) refl

-- A deposit from an output that is 5 too large.
abbrev savings : List (Text × Items)
savings = (7 ∷ [], (1 ∷ [], item 100000005) ∷ []) ∷ []

abbrev locked : TxBase
locked = record {
  hash = 3 ∷ [];
  class = 1;
  vin_total = 1;
  vin =
      record { txid = 0 ∷ 5 ∷ []; vout = 0; puk = 7 ∷ []; sign = 7 ∷ []; vout_sign = 7 ∷ [] } ∷ [];
  vout_total = 0;
  vout =
      record { value = 100000000; address = 7 ∷ []; tx = [] }
      ∷ record { value = 5; address = 7 ∷ []; tx = [] }
      ∷ [];
  gas = 0;
  block_hash = [];
}
