-- ===== src/Wallet/Spared.antt =====
-- Which movements, and which transactions, have nothing to do with an output.
use Prim.Native.Nat.{◌^◌}
use polarcloud.Prelude.{
  ℕ, suc, ◌-◌, ◌≤◌, ◌≡◌, ◌≢◌, refl, ap, ◌∙◌, ◌⊎◌, inl, inr, pos, negsuc, ◌&&◌, List, [], ◌∷◌, some,
  Option-cases, Text, ltb, ◌==◌, Bool-cases, All, All-append, arith,
}
use polarcloud.Wallet.{
  Vin, Vout, TxBase, Keystore, item_key, to_int, is_own, is_counted, type_deposit_in,
  type_deposit_out,
}
use polarcloud.Wallet.Naming.{AreBytes, item_key-injective}
use polarcloud.Wallet.Movements.{
  Movement, vin_movements, vins_movements, vout_movements, vouts_movements, tx_movements, movements,
}
use polarcloud.Wallet.Unspent.{Touches}

-- The movement is none of that output.
abbrev pub Spares : Text → List ℕ → ℕ → Movement → Type 0
Spares address hash i m = ¬ (Touches address (item_key hash (pos i)) m)

-- The transaction has another hash, and no input that names the output with a key of the address.
abbrev pub Leaves : Keystore → Text → List ℕ → ℕ → TxBase → Type 0
Leaves keys address hash i tx =
    (keys.build_hash tx ≢ hash)
    × AreBytes (keys.build_hash tx)
    × All
        (λ vin.
          AreBytes vin.txid
          × ((keys.build_addr_by_pubkey vin.puk ≢ some address)
              ⊎ ¬ ((vin.txid ≡ hash) × (vin.vout ≡ i))))
        tx.vin

to_int_pos : (n i : ℕ) → to_int n ≡ pos i → n ≡ i
to_int_pos n i e = elim (Bool-cases (ltb n (2 ^ 63))) [
  | inl small ↦ let f : pos n ≡ pos i = rw⁻¹ e (rw small refl) in cc
  | inr large ↦ let f : negsuc (2 ^ 64 - 1 - n) ≡ pos i = rw⁻¹ e (rw large refl) in absurd (cc)
]

vin-Spares :
    (keys : Keystore) (address : Text) (hash : List ℕ) (i : ℕ) (vin : Vin)
    → AreBytes hash
    → AreBytes vin.txid
    → (keys.build_addr_by_pubkey vin.puk ≢ some address) ⊎ ¬ ((vin.txid ≡ hash) × (vin.vout ≡ i))
    → All (Spares address hash i) (vin_movements keys vin)
unfolding vin_movements
vin-Spares keys address hash i vin b c h = elim (Option-cases (keys.build_addr_by_pubkey vin.puk)) [
  | inl unknown ↦ rw (unknown, vin_movements) tt
  | inr (a, known) ↦ elim (Bool-cases (is_own keys a)) [
    | inr other ↦ rw (known, other, vin_movements) tt
    | inl own ↦
        rw (known, own, vin_movements)
          (
            (λ (p, q).
                let (r, s) = item_key-injective vin.txid hash (to_int vin.vout) (pos i) c b q in
                elim h [
                  | inl stranger ↦ stranger (known ∙ ap some p)
                  | inr unnamed ↦ unnamed (r, to_int_pos vin.vout i s)
                ]),
            tt,
          )
  ]
]

vins-Spares :
    (keys : Keystore) (address : Text) (hash : List ℕ) (i class : ℕ) (vins : List Vin)
    → AreBytes hash
    → All
        (λ vin.
          AreBytes vin.txid
          × ((keys.build_addr_by_pubkey vin.puk ≢ some address)
              ⊎ ¬ ((vin.txid ≡ hash) × (vin.vout ≡ i))))
        vins
    → All (Spares address hash i) (vins_movements keys class vins)
unfolding vins_movements
vins-Spares keys address hash i class [] b h = tt
vins-Spares keys address hash i class (vin ∷ vins) b ((c, k), h) =
    elim (Bool-cases (class == type_deposit_out)) [
      | inl out ↦ rw out (vins-Spares keys address hash i class vins b h)
      | inr other ↦ rw other (
          All-append (Spares address hash i) (vin_movements keys vin)
            (vins_movements keys class vins) (vin-Spares keys address hash i vin b c k)
            (vins-Spares keys address hash i class vins b h))
    ]

-- The outputs of a transaction with another hash, or behind the output, are other outputs.
vout-Spares :
    (keys : Keystore) (address : Text) (hash own_hash : List ℕ) (i class index : ℕ) (vout : Vout)
    → ¬ (item_key own_hash (pos index) ≡ item_key hash (pos i))
    → All (Spares address hash i) (vout_movements keys class own_hash index vout)
unfolding vout_movements
vout-Spares keys address hash own_hash i class index vout differ =
    elim (Bool-cases (is_own keys vout.address)) [
      | inr other ↦ rw other tt
      | inl own ↦ elim (Bool-cases (class == type_deposit_in && index == 0)) [
        | inl locked ↦ rw (own, locked) tt
        | inr free ↦ rw (own, free) ((λ (p, q). differ q), tt)
      ]
    ]

pub vouts-Spares :
    (keys : Keystore) (address : Text) (hash own_hash : List ℕ) (i class index : ℕ)
    (vouts : List Vout)
    → ((j : ℕ) → index ≤ j → ¬ (item_key own_hash (pos j) ≡ item_key hash (pos i)))
    → All (Spares address hash i) (vouts_movements keys class own_hash index vouts)
unfolding vouts_movements
vouts-Spares keys address hash own_hash i class index [] differ = tt
vouts-Spares keys address hash own_hash i class index (vout ∷ vouts) differ =
    All-append (Spares address hash i) (vout_movements keys class own_hash index vout)
      (vouts_movements keys class own_hash (suc index) vouts)
      (vout-Spares keys address hash own_hash i class index vout (differ index (omega arith)))
      (vouts-Spares keys address hash own_hash i class (suc index) vouts
        (λ j le. differ j (omega (arith, le))))

pub movements-Spares :
    (keys : Keystore) (address : Text) (hash : List ℕ) (i : ℕ) (txs : List TxBase)
    → AreBytes hash
    → All (Leaves keys address hash i) txs
    → All (Spares address hash i) (movements keys txs)
unfolding movements tx_movements
movements-Spares keys address hash i [] b h = tt
movements-Spares keys address hash i (tx ∷ txs) b ((other_hash, c, k), h) =
    All-append (Spares address hash i) (tx_movements keys tx) (movements keys txs)
      (elim (Bool-cases (is_counted tx)) [
        | inr free ↦ rw free tt
        | inl counted ↦ rw counted (
            All-append (Spares address hash i) (vins_movements keys tx.class tx.vin) _
              (vins-Spares keys address hash i tx.class tx.vin b k)
              (vouts-Spares keys address hash (keys.build_hash tx) i tx.class 0 tx.vout (λ j le e.
                other_hash (item_key-injective (keys.build_hash tx) hash (pos j) (pos i) c b e).0)))
      ])
      (movements-Spares keys address hash i txs b h)
