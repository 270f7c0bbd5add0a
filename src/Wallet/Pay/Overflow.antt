-- ===== src/Wallet/Pay/Overflow.antt =====
-- A payment whose amount and fee together do not fit in a uint64.
use Prim.Native.Nat.{◌^◌}
use polarcloud.Prelude.{
  ℕ, ◌+◌, ◌%◌, ◌≡◌, refl, ◌∙◌, true, List, [], ◌∷◌, some, Text, eq_text, All, arith,
}
use polarcloud.Wallet.{Vin, Vout, TxBase, Items}
use polarcloud.Wallet.Pay.{
  Address, Signer, created, collect_from, collect_all, pay_outputs, sign_vins, hashed, pay_tx,
  create_tx_pay,
}
use polarcloud.Wallet.Pay.Signed.{finish_some}
use polarcloud.Wallet.Pay.Balanced.{paying}

-- A key with the address of the coinbase.
abbrev pub IsCoinbase : Address → Address → Type 0
IsCoinbase coinbase key = eq_text key.hash coinbase.hash ≡ true

collect_from_coinbase :
    (signer : Signer) (coinbase : Address) (balance : List (Text × Items)) (need : ℕ)
    (keys : List Address) (picked : List Vin × ℕ)
    → All (IsCoinbase coinbase) keys
    → collect_from signer coinbase balance need keys picked ≡ picked
unfolding collect_from
collect_from_coinbase signer coinbase balance need [] picked h = refl
collect_from_coinbase signer coinbase balance need (key ∷ keys) picked (own, h) =
    rw own (collect_from_coinbase signer coinbase balance need keys picked h)

none_signed : (signer : Signer) (bs : List ℕ) → sign_vins signer bs [] ≡ some []
unfolding sign_vins
none_signed signer bs = refl

nothing_chosen :
    (signer : Signer) (coinbase : Address) (balance : List (Text × Items))
    → All (IsCoinbase coinbase) signer.addresses
    → ◌≡◌ {A = List Vin × ℕ} (collect_all signer coinbase balance 0) ([], 0)
unfolding collect_all
nothing_chosen signer coinbase balance keys =
    rw (collect_from_coinbase signer coinbase balance 0 signer.addresses ([], 0) keys, collect_all)
      refl

-- A wallet with no key but that of its coinbase, which may own nothing, creates a payment of an amount
-- that with its fee makes 2^64: a transaction without inputs that pays the whole amount.
pub create_tx_pay-free :
    (signer : Signer) (coinbase : Address) (balance : List (Text × Items)) (address : Text)
    (amount gas : ℕ)
    → signer.coinbase ≡ some coinbase
    → All (IsCoinbase coinbase) signer.addresses
    → ((vouts : List Vout) → (bs : List ℕ) × (signer.marshal vouts ≡ some bs))
    → amount + gas ≡ 2 ^ 64
    → (tx : TxBase) × (create_tx_pay signer balance address amount gas ≡ created tx)
      × (tx.vin ≡ [])
      × (tx.vout ≡ record { value = amount; address = address; tx = [] } ∷ [])
unfolding pay_outputs
create_tx_pay-free signer coinbase balance address amount gas own keys marshals e =
    let payment : List Vout = record { value = amount; address = address; tx = [] } ∷ [] in
    let (bs, m) = marshals payment in
    let none_needed : (amount + gas) % 2 ^ 64 ≡ 0 = omega (arith, e) in
    (
      hashed signer (pay_tx [] payment gas),
      paying signer coinbase balance address amount gas own
          ∙ rw (none_needed, nothing_chosen signer coinbase balance keys)
              (finish_some signer [] payment gas bs [] m (none_signed signer bs)),
      refl,
      refl,
    )
