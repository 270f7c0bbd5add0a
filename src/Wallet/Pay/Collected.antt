-- ===== src/Wallet/Pay/Collected.antt =====
-- The loops of a payment choose from the recorded outputs of its keys.
use Prim.Native.Nat.{◌^◌}
use polarcloud.Prelude.{
  ℕ, ◌+◌, ◌%◌, ◌<◌, ◌≡◌, refl, inl, inr, Bool, true, false, List, [], ◌∷◌, ◌++◌, some, Option-cases,
  Text, eq_text, leb, ltb, if◌then◌else◌, Bool-cases, arith,
}
use polarcloud.Wallet.{Vin, TxItem, Items, items_of}
use polarcloud.Wallet.Pay.{Address, Signer, sign_item, vin_of, collect, collect_from, collect_all}
use polarcloud.Wallet.Pay.Chosen.{
  Entry, entries, entries_from, all_entries, sum_of, Chosen, sum_of-append, Chosen-empty,
  Chosen-append, Chosen-single, Chosen-bounds,
}

pub collect_step :
    (signer : Signer) (key : Address) (need : ℕ) (k : Text) (item : TxItem) (items : Items)
    (vins : List Vin) (total : ℕ) (sign : List ℕ)
    → sign_item signer key item ≡ some sign
    → collect signer key need ((k, item) ∷ items) (vins, total) ≡ (
        if leb need ((total + item.value) % 2 ^ 64)
        then (vins ++ vin_of key item sign ∷ [], (total + item.value) % 2 ^ 64)
        else collect signer key need items
            (vins ++ vin_of key item sign ∷ [], (total + item.value) % 2 ^ 64))
unfolding collect
collect_step signer key need k item items vins total sign e = rw (e, collect) refl

-- The function of `Range` over the items of a key chooses from its outputs.
pub collect-Chosen :
    (signer : Signer) (key : Address) (need : ℕ) (items : Items) (vins : List Vin) (total : ℕ)
    → total + sum_of (entries key items) < 2 ^ 64
    → Chosen (entries key items) (vins, total) (collect signer key need items (vins, total))
unfolding collect
collect-Chosen signer key need [] vins total h = Chosen-empty [] (vins, total)
collect-Chosen signer key need ((k, item) ∷ items) vins total h =
    elim (Option-cases (sign_item signer key item)) [
      | inl stopped ↦ rw (stopped, collect) (Chosen-empty _ (vins, total))
      | inr (sign, signed) ↦
          let one = Chosen-single key item sign vins total (omega (arith, h)) in
          rw (collect_step signer key need k item items vins total sign signed)
            (elim (Bool-cases (leb need ((total + item.value) % 2 ^ 64))) [
              | inl enough ↦ rw enough (
                  Chosen-append ((key, item) ∷ []) (entries key items) _ _ _ one (Chosen-empty _ _))
              | inr more ↦ rw more (
                  Chosen-append ((key, item) ∷ []) (entries key items) _ _ _ one
                    (collect-Chosen signer key need items _ _ (omega (arith, h))))
            ])
    ]

-- One round of the loop over the keys.
abbrev pub key_round :
    Signer → Address → List (Text × Items) → ℕ → Address → List Vin × ℕ → List Vin × ℕ
key_round signer coinbase balance need key picked =
    if eq_text key.hash coinbase.hash
    then picked
    else collect signer key need (items_of key.hash balance) picked

abbrev pub key_entries : Address → List (Text × Items) → Address → List Entry
key_entries coinbase balance key =
    if eq_text key.hash coinbase.hash then [] else entries key (items_of key.hash balance)

pub key_round-Chosen :
    (signer : Signer) (coinbase : Address) (balance : List (Text × Items)) (need : ℕ)
    (key : Address) (picked : List Vin × ℕ)
    → picked.1 + sum_of (key_entries coinbase balance key) < 2 ^ 64
    → Chosen
        (key_entries coinbase balance key)
        picked
        (key_round signer coinbase balance need key picked)
key_round-Chosen signer coinbase balance need key (vins, total) =
    elim (eq_text key.hash coinbase.hash)
      as (λ (own : Bool).
        total + sum_of (if own then [] else entries key (items_of key.hash balance)) < 2 ^ 64
        → Chosen (if own then [] else entries key (items_of key.hash balance)) (vins, total)
            (if own
              then (vins, total)
              else collect signer key need (items_of key.hash balance) (vins, total))) [
                | true ↦ λ h. Chosen-empty [] (vins, total)
                | false ↦
                    λ h. collect-Chosen signer key need (items_of key.hash balance) vins total h
              ]

-- The loop over the keys chooses from their outputs, and leaves the coinbase's out.
pub collect_from-Chosen :
    (signer : Signer) (coinbase : Address) (balance : List (Text × Items)) (need : ℕ)
    (keys : List Address) (picked : List Vin × ℕ)
    → picked.1 + sum_of (entries_from coinbase balance keys) < 2 ^ 64
    → Chosen
        (entries_from coinbase balance keys)
        picked
        (collect_from signer coinbase balance need keys picked)
unfolding collect_from
collect_from-Chosen signer coinbase balance need [] picked h = Chosen-empty [] picked
collect_from-Chosen signer coinbase balance need (key ∷ keys) picked h =
    let split =
      sum_of-append (key_entries coinbase balance key) (entries_from coinbase balance keys) in
    let first =
      key_round-Chosen signer coinbase balance need key picked (omega (arith, h, split)) in
    let second = key_round signer coinbase balance need key picked in
    let (low, high) = Chosen-bounds (key_entries coinbase balance key) picked second first in
    Chosen-append (key_entries coinbase balance key) (entries_from coinbase balance keys) picked
      second (collect_from signer coinbase balance need keys second) first
      (collect_from-Chosen signer coinbase balance need keys second (omega (arith, h, split, high)))

-- All of a payment's inputs spend outputs that are recorded for its keys.
pub collect_all-Chosen :
    (signer : Signer) (coinbase : Address) (balance : List (Text × Items)) (need : ℕ)
    → sum_of (all_entries signer coinbase balance) < 2 ^ 64
    → Chosen
        (all_entries signer coinbase balance)
        ([], 0)
        (collect_all signer coinbase balance need)
unfolding collect_all
collect_all-Chosen signer coinbase balance need h =
    let others = entries_from coinbase balance signer.addresses in
    let own = entries coinbase (items_of coinbase.hash balance) in
    let split = sum_of-append others own in
    let picked = collect_from signer coinbase balance need signer.addresses ([], 0) in
    let first =
      collect_from-Chosen signer coinbase balance need signer.addresses ([], 0)
        (omega (arith, h, split)) in
    let (low, high) = Chosen-bounds others ([], 0) picked first in
    elim (Bool-cases (ltb picked.1 need)) [
      | inl short ↦ rw short (
          Chosen-append others own ([], 0) picked _ first
            (collect-Chosen signer coinbase need (items_of coinbase.hash balance) picked.0 picked.1
              (omega (arith, h, split, high))))
      | inr enough ↦
          rw enough (Chosen-append others own ([], 0) picked picked first (Chosen-empty own picked))
    ]
