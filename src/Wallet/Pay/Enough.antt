-- ===== src/Wallet/Pay/Enough.antt =====
-- A payment goes on until it has enough or has looked at every output.
use Prim.Native.Nat.{◌^◌}
use polarcloud.Prelude.{
  ℕ, ◌+◌, ◌%◌, ◌≤◌, ◌<◌, ◌≡◌, ◌⊎◌, inl, inr, Bool, true, false, List, [], ◌∷◌, ◌++◌, some, Text,
  eq_text, leb, ltb, if◌then◌else◌, Bool-cases, All, All-split, arith,
}
use polarcloud.Wallet.{Vin, Items, items_of}
use polarcloud.Wallet.Pay.{Address, Signer, sign_item, vin_of, collect, collect_from, collect_all}
use polarcloud.Wallet.Pay.Chosen.{
  Entry, entries, entries_from, all_entries, sum_of, sum_of-append, Chosen-bounds,
}
use polarcloud.Wallet.Pay.Collected.{
  key_round, key_entries, collect_step, collect-Chosen, key_round-Chosen, collect_from-Chosen,
}

-- The output's transaction is found and its output to the key can be signed.
abbrev pub IsSpendable : Signer → Entry → Type 0
IsSpendable signer (key, item) = (sign : List ℕ) × (sign_item signer key item ≡ some sign)

-- The total is enough, or has grown by all of the outputs.
abbrev pub Reaches : ℕ → List Entry → ℕ → ℕ → Type 0
Reaches need all first second = (need ≤ second) ⊎ (first + sum_of all ≤ second)

Reaches-append :
    (need first second third : ℕ) (all more : List Entry)
    → Reaches need all first second
    → Reaches need more second third
    → second ≤ third
    → Reaches need (all ++ more) first third
Reaches-append need first second third all more (inl h) k le = inl (omega (arith, h, le))
Reaches-append need first second third all more (inr h) (inl k) le = inl k
Reaches-append need first second third all more (inr h) (inr k) le =
    inr (omega (arith, h, k, sum_of-append all more))

collect-Reaches :
    (signer : Signer) (key : Address) (need : ℕ) (items : Items) (vins : List Vin) (total : ℕ)
    → All (IsSpendable signer) (entries key items)
    → total + sum_of (entries key items) < 2 ^ 64
    → Reaches need (entries key items) total (collect signer key need items (vins, total)).1
unfolding collect
collect-Reaches signer key need [] vins total a h = inr (omega arith)
collect-Reaches signer key need ((k, item) ∷ items) vins total ((sign, signed), a) h =
    let more = (total + item.value) % 2 ^ 64 in
    let same : more ≡ total + item.value = omega (arith, h) in
    rw (collect_step signer key need k item items vins total sign signed)
      (elim (Bool-cases (leb need more)) [
        | inl enough ↦ rw enough (inl (ground arith))
        | inr short ↦
            rw short
              (elim (collect-Reaches signer key need items (vins ++ vin_of key item sign ∷ []) more
                a (omega (arith, h, same))) [
                  | inl reached ↦ inl reached
                  | inr all ↦ inr (omega (arith, all, same))
                ])
      ])

key_round-Reaches :
    (signer : Signer) (coinbase : Address) (balance : List (Text × Items)) (need : ℕ)
    (key : Address) (picked : List Vin × ℕ)
    → All (IsSpendable signer) (key_entries coinbase balance key)
    → picked.1 + sum_of (key_entries coinbase balance key) < 2 ^ 64
    → Reaches need
        (key_entries coinbase balance key)
        picked.1
        (key_round signer coinbase balance need key picked).1
key_round-Reaches signer coinbase balance need key (vins, total) =
    elim (eq_text key.hash coinbase.hash)
      as (λ (own : Bool).
        All (IsSpendable signer) (if own then [] else entries key (items_of key.hash balance))
        → total + sum_of (if own then [] else entries key (items_of key.hash balance)) < 2 ^ 64
        → Reaches need (if own then [] else entries key (items_of key.hash balance)) total
            (if own
              then (vins, total)
              else collect signer key need (items_of key.hash balance) (vins, total)).1) [
                | true ↦ λ a h. inr (omega arith)
                | false ↦ λ a h.
                    collect-Reaches signer key need (items_of key.hash balance) vins total a h
              ]

pub collect_from-Reaches :
    (signer : Signer) (coinbase : Address) (balance : List (Text × Items)) (need : ℕ)
    (keys : List Address) (picked : List Vin × ℕ)
    → All (IsSpendable signer) (entries_from coinbase balance keys)
    → picked.1 + sum_of (entries_from coinbase balance keys) < 2 ^ 64
    → Reaches need
        (entries_from coinbase balance keys)
        picked.1
        (collect_from signer coinbase balance need keys picked).1
unfolding collect_from
collect_from-Reaches signer coinbase balance need [] picked a h = inr (omega arith)
collect_from-Reaches signer coinbase balance need (key ∷ keys) picked a h =
    let here = key_entries coinbase balance key in
    let rest = entries_from coinbase balance keys in
    let split = sum_of-append here rest in
    let (b, c) = All-split (IsSpendable signer) here rest a in
    let second = key_round signer coinbase balance need key picked in
    let (_, high) =
      Chosen-bounds here picked second
        (key_round-Chosen signer coinbase balance need key picked (omega (arith, h, split))) in
    let third = collect_from signer coinbase balance need keys second in
    let (low, _) = Chosen-bounds rest second third (
      collect_from-Chosen signer coinbase balance need keys second
        (omega (arith, h, split, high))) in
    Reaches-append need picked.1 second.1 third.1 here rest
      (key_round-Reaches signer coinbase balance need key picked b (omega (arith, h, split)))
      (collect_from-Reaches signer coinbase balance need keys second c
        (omega (arith, h, split, high)))
      low

-- All of it: a payment has what it needs, or all there is.
pub collect_all-Reaches :
    (signer : Signer) (coinbase : Address) (balance : List (Text × Items)) (need : ℕ)
    → All (IsSpendable signer) (all_entries signer coinbase balance)
    → sum_of (all_entries signer coinbase balance) < 2 ^ 64
    → Reaches need
        (all_entries signer coinbase balance)
        0
        (collect_all signer coinbase balance need).1
unfolding collect_all
collect_all-Reaches signer coinbase balance need a h =
    let others = entries_from coinbase balance signer.addresses in
    let own = entries coinbase (items_of coinbase.hash balance) in
    let split = sum_of-append others own in
    let (b, c) = All-split (IsSpendable signer) others own a in
    let picked = collect_from signer coinbase balance need signer.addresses ([], 0) in
    let (_, high) =
      Chosen-bounds others ([], 0) picked
        (collect_from-Chosen signer coinbase balance need signer.addresses ([], 0)
          (omega (arith, h, split))) in
    let first =
      collect_from-Reaches signer coinbase balance need signer.addresses ([], 0) b
        (omega (arith, h, split)) in
    elim (Bool-cases (ltb picked.1 need)) [
      | inr enough ↦ rw enough (inl (ground arith))
      | inl short ↦
          let third = collect signer coinbase need (items_of coinbase.hash balance) picked in
          let (low, _) = Chosen-bounds own picked third (
            collect-Chosen signer coinbase need (items_of coinbase.hash balance) picked.0 picked.1
              (omega (arith, h, split, high))) in
          rw short (
            Reaches-append need 0 picked.1 third.1 others own first
              (collect-Reaches signer coinbase need (items_of coinbase.hash balance) picked.0
                picked.1 c (omega (arith, h, split, high)))
              low)
    ]
