-- ===== src/Wallet/Pay/Balanced.antt =====
-- What `CreateTxPay` creates, and when.
use Prim.Native.Nat.{◌^◌}
use mathlib.Core.List.{Sublistᴰ}
use polarcloud.Prelude.{
  ℕ, ◌+◌, ◌%◌, ◌≤◌, ◌<◌, ◌≡◌, refl, sym, ap, ◌∙◌, ◌⊎◌, inl, inr, Bool, false, List, [], ◌∷◌, some,
  Text, ltb, ltb_of_le, ltb_of_lt, if◌then◌else◌, Bool-cases, All, arith,
}
use polarcloud.Wallet.{Vin, Vout, TxBase, Items}
use polarcloud.Wallet.Pay.{
  Address, Signer, insufficient, Outcome, failed, created, collect_all, pay_outputs, hashed, pay_tx,
  finish_pay, pay_with, create_tx_pay,
}
use polarcloud.Wallet.Pay.Chosen.{Entry, all_entries, sum_of, Spends, Chosen-bounds}
use polarcloud.Wallet.Pay.Once.{AreDistinct, SpendsOnce, AreDistinct-sublist, Spends-SpendsOnce}
use polarcloud.Wallet.Pay.Collected.{collect_all-Chosen}
use polarcloud.Wallet.Pay.Enough.{IsSpendable, collect_all-Reaches}
use polarcloud.Wallet.Pay.Signed.{failed_created, finished, sign_vins-some, finish_some}

abbrev pub sum_outputs : List Vout → ℕ
sum_outputs [] = 0
sum_outputs (v ∷ vs) = v.value + sum_outputs vs

ltb_le : (m n : ℕ) → ltb m n ≡ false → n ≤ m
ltb_le m n h = ground arith

-- The outputs and the fee make up the total.
sum_outputs-pay_outputs :
    (coinbase : Address) (address : Text) (amount gas total : ℕ)
    → amount + gas ≤ total
    → total < 2 ^ 64
    → sum_outputs (pay_outputs coinbase address amount gas total) + gas ≡ total
unfolding pay_outputs
sum_outputs-pay_outputs coinbase address amount gas total h k =
    let same : (amount + gas) % 2 ^ 64 ≡ amount + gas = omega (arith, h, k) in
    elim (Bool-cases (ltb ((amount + gas) % 2 ^ 64) total)) [
      | inl over ↦ rw over (omega (arith, h, k))
      | inr exact ↦
          let le : total ≤ amount + gas = ground arith in rw exact (omega (arith, h, k, le))
    ]

pub paying :
    (signer : Signer) (coinbase : Address) (balance : List (Text × Items)) (address : Text)
    (amount gas : ℕ)
    → signer.coinbase ≡ some coinbase
    → create_tx_pay signer balance address amount gas ≡ (
        let need = (amount + gas) % 2 ^ 64 in
        let picked = collect_all signer coinbase balance need in
        if ltb picked.1 need
        then failed insufficient
        else finish_pay signer picked.0 (pay_outputs coinbase address amount gas picked.1) gas)
unfolding create_tx_pay pay_with
paying signer coinbase balance address amount gas e =
    ap (pay_with signer balance address amount gas) e

pay_outputs_shape :
    (coinbase : Address) (address : Text) (amount gas total : ℕ)
    → (change : List Vout) × (pay_outputs coinbase address amount gas total
        ≡ record { value = amount; address = address; tx = [] } ∷ change)
      × All (λ v. v.address ≡ coinbase.hash) change
unfolding pay_outputs
pay_outputs_shape coinbase address amount gas total =
    elim (Bool-cases (ltb ((amount + gas) % 2 ^ 64) total)) [
      | inl over ↦ rw over (_, refl, (refl, tt))
      | inr exact ↦ rw exact ([], refl, tt)
    ]

-- The transaction that a payment creates spends outputs recorded for the wallet's keys, and no two of its
-- inputs name the same output; the values of the outputs that it spends make up its own outputs and the
-- fee exactly; and it pays the amount to the address, and what is left over to the coinbase. The wallet
-- has a coinbase; no two records of its keys, in the order in which a payment looks at them, are of the
-- same output, so no key is listed twice either if it has records; and the sum of the recorded values,
-- and the amount with the fee, stay below 2^64.
pub create_tx_pay-balanced :
    (signer : Signer) (coinbase : Address) (balance : List (Text × Items)) (address : Text)
    (amount gas : ℕ) (tx : TxBase)
    → signer.coinbase ≡ some coinbase
    → amount + gas < 2 ^ 64
    → sum_of (all_entries signer coinbase balance) < 2 ^ 64
    → AreDistinct (all_entries signer coinbase balance)
    → create_tx_pay signer balance address amount gas ≡ created tx
    → (es : List Entry) × Sublistᴰ es (all_entries signer coinbase balance)
      × Spends es tx.vin
      × SpendsOnce tx.vin
      × (sum_of es ≡ sum_outputs tx.vout + gas)
      × (tx.gas ≡ gas)
      × (change : List Vout) × (tx.vout
          ≡ record { value = amount; address = address; tx = [] } ∷ change)
      × All (λ v. v.address ≡ coinbase.hash) change
create_tx_pay-balanced signer coinbase balance address amount gas tx own small h distinct e =
    let need : ℕ = (amount + gas) % 2 ^ 64 in
    let same : need ≡ amount + gas = omega (arith, small) in
    let picked : List Vin × ℕ = collect_all signer coinbase balance need in
    let (es, new, s, spends, eq) = collect_all-Chosen signer coinbase balance need h in
    let total : picked.1 ≡ sum_of es = omega (arith, ap (λ (x : List Vin × ℕ). x.1) eq) in
    let vins : picked.0 ≡ new = ap (λ (x : List Vin × ℕ). x.0) eq in
    let outputs : List Vout = pay_outputs coinbase address amount gas picked.1 in
    let (_, high) =
      Chosen-bounds (all_entries signer coinbase balance) ([], 0) picked (es, new, s, spends, eq) in
    let branch : Bool → Outcome =
      λ (b : Bool). if b then failed insufficient else finish_pay signer picked.0 outputs gas in
    let step : branch (ltb picked.1 need) ≡ created tx =
      sym (paying signer coinbase balance address amount gas own) ∙ e in
    elim (Bool-cases (ltb picked.1 need)) [
      | inl short ↦ absurd (failed_created insufficient tx (ap branch (sym short) ∙ step))
      | inr enough ↦
          let (o, g, keep) =
            finished signer picked.0 outputs gas tx (ap branch (sym enough) ∙ step) in
          let (change, shape, to_coinbase) =
            pay_outputs_shape coinbase address amount gas picked.1 in
          let reached : amount + gas ≤ picked.1 =
            omega (arith, same, ltb_le picked.1 need enough) in
          (
            es,
            s,
            keep es (rw vins spends),
            Spends-SpendsOnce es tx.vin (keep es (rw vins spends)) (AreDistinct-sublist s distinct),
            sym total
                ∙ sym (
                    sum_outputs-pay_outputs coinbase address amount gas picked.1 reached
                      (omega (arith, high, h)))
                ∙ ap (λ (vs : List Vout). sum_outputs vs + gas) (sym o),
            g,
            change,
            o ∙ shape,
            to_coinbase,
          )
    ]

reached_need :
    (wanted need total sum : ℕ)
    → need ≡ wanted
    → (need ≤ total) ⊎ (0 + sum ≤ total)
    → wanted ≤ sum
    → need ≤ total
reached_need wanted need total sum e (inl h) rich = h
reached_need wanted need total sum e (inr h) rich = omega (arith, e, h, rich)

-- When the wallet has a coinbase, the transactions of all its recorded outputs are at hand, its keys sign
-- and outputs can be marshalled, a payment is created if the recorded values reach the amount and the
-- fee, and fails for want of funds if not. The sum of the recorded values, and the amount with the
-- fee, are below 2^64.
pub create_tx_pay-enough :
    (signer : Signer) (coinbase : Address) (balance : List (Text × Items)) (address : Text)
    (amount gas : ℕ)
    → signer.coinbase ≡ some coinbase
    → amount + gas < 2 ^ 64
    → sum_of (all_entries signer coinbase balance) < 2 ^ 64
    → All (IsSpendable signer) (all_entries signer coinbase balance)
    → ((vouts : List Vout) → (bs : List ℕ) × (signer.marshal vouts ≡ some bs))
    → ((key : Address) (bs : List ℕ) → (sign : List ℕ) × (signer.sign key bs ≡ some sign))
    → (amount + gas ≤ sum_of (all_entries signer coinbase balance)
        → (tx : TxBase) × (create_tx_pay signer balance address amount gas ≡ created tx))
      × (sum_of (all_entries signer coinbase balance) < amount + gas
          → create_tx_pay signer balance address amount gas ≡ failed insufficient)
create_tx_pay-enough signer coinbase balance address amount gas own small h a marshals signs =
    let need : ℕ = (amount + gas) % 2 ^ 64 in
    let same : need ≡ amount + gas = omega (arith, small) in
    let picked : List Vin × ℕ = collect_all signer coinbase balance need in
    let outputs : List Vout = pay_outputs coinbase address amount gas picked.1 in
    let (_, high) =
      Chosen-bounds (all_entries signer coinbase balance) ([], 0) picked
        (collect_all-Chosen signer coinbase balance need h) in
    let branch : Bool → Outcome =
      λ (b : Bool). if b then failed insufficient else finish_pay signer picked.0 outputs gas in
    let step = paying signer coinbase balance address amount gas own in
    let (bs, m) = marshals outputs in
    let (signed, g) = sign_vins-some signer bs picked.0 signs in
    let reaches = collect_all-Reaches signer coinbase balance need a h in
    (
      λ rich. (
        hashed signer (pay_tx signed outputs gas),
        step
            ∙ ap branch (
                ltb_of_le picked.1 need
                  (reached_need (amount + gas) need picked.1 _ same reaches rich))
            ∙ finish_some signer picked.0 outputs gas bs signed m g,
      ),
      λ poor. step ∙ ap branch (ltb_of_lt picked.1 need (omega (arith, high, poor, same))),
    )
