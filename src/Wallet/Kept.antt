-- ===== src/Wallet/Kept.antt =====
-- An output of an own address is recorded until one of its keys spends it.
use mathlib.Core.Path.{subst}
use polarcloud.Prelude.{
  ℕ, zero, suc, ◌+◌, ◌<◌, ◌≡◌, refl, sym, ap, ◌∙◌, pos, true, false, ◌&&◌, List, [], ◌∷◌, ◌++◌,
  append-nil, append_assoc, get_elem?, some, Text, ◌==◌, All, All-append, arith,
}
use polarcloud.Table.{lookup}
use polarcloud.Wallet.{
  Vout, TxBase, Keystore, TxItem, item_key, items_of, is_own, is_counted, type_deposit_in,
  count_txs,
}
use polarcloud.Wallet.Naming.{AreBytes, item_key-injective}
use polarcloud.Wallet.Movements.{
  Movement, received, vins_movements, vout_movements, vouts_movements, tx_movements, movements,
}
use polarcloud.Wallet.Unspent.{Touches, Received, count_txs-recorded}
use polarcloud.Wallet.Spared.{Leaves, vouts-Spares, movements-Spares}

-- What is recorded for an output.
abbrev pub item_of : List ℕ → ℕ → Vout → TxItem
item_of hash i vout = record { value = vout.value; txid = hash; out_index = i }

other_index :
    (hash : List ℕ) (i j : ℕ)
    → AreBytes hash
    → i < j
    → ¬ (item_key hash (pos j) ≡ item_key hash (pos i))
other_index hash i j b lt e =
    let f : pos j ≡ pos i = (item_key-injective hash hash (pos j) (pos i) b b e).1 in
    let g : j ≡ i = cc in omega (arith, g, lt)

-- An output is received in a longer sequence of movements if none behind it is one of it.
Received-append :
    (address key : Text) (item : TxItem) (ls ms ns : List Movement)
    → Received address key item ms
    → All (λ m. ¬ (Touches address key m)) ns
    → Received address key item (ls ++ (ms ++ ns))
Received-append address key item ls ms ns (before, after, e, u) v = (
  ls ++ before,
  after ++ ns,
  ap (λ (x : List Movement). ls ++ (x ++ ns)) e
      ∙ ap (λ (x : List Movement). ls ++ x)
          (append_assoc before (received address key item ∷ after) ns)
      ∙ sym (append_assoc ls before (received address key item ∷ (after ++ ns))),
  All-append (λ m. ¬ (Touches address key m)) after ns u v,
)

own_movements :
    (keys : Keystore) (class : ℕ) (hash : List ℕ) (i : ℕ) (vout : Vout)
    → is_own keys vout.address ≡ true
    → (class == type_deposit_in && i == 0) ≡ false
    → vout_movements keys class hash i vout
      ≡ received vout.address (item_key hash (pos i)) (item_of hash i vout) ∷ []
unfolding vout_movements
own_movements keys class hash i vout own free = rw (own, free) refl

output-Received :
    (keys : Keystore) (hash : List ℕ) (class start n i : ℕ) (vouts : List Vout) (vout : Vout)
    → AreBytes hash
    → get_elem? vouts n ≡ some vout
    → i ≡ start + n
    → is_own keys vout.address ≡ true
    → (class == type_deposit_in && i == 0) ≡ false
    → Received vout.address
        (item_key hash (pos i))
        (item_of hash i vout)
        (vouts_movements keys class hash start vouts)
unfolding vouts_movements
output-Received keys hash class start n i [] vout b e f own free = absurd (cc)
output-Received keys hash class start zero i (v ∷ vouts) vout b e f own free =
    let same : v ≡ vout = cc in
    let here : start ≡ i = omega (arith, f) in
    rw (same, here, own_movements keys class hash i vout own free)
      (
        [],
        vouts_movements keys class hash (suc i) vouts,
        refl,
        vouts-Spares keys vout.address hash hash i class (suc i) vouts
            (λ j le. other_index hash i j b (omega (arith, le))),
      )
output-Received keys hash class start (suc n) i (v ∷ vouts) vout b e f own free =
    subst (Received vout.address (item_key hash (pos i)) (item_of hash i vout))
      (ap (λ (ms : List Movement). vout_movements keys class hash start v ++ ms)
        (append-nil (vouts_movements keys class hash (suc start) vouts)))
      (Received-append vout.address (item_key hash (pos i)) (item_of hash i vout)
        (vout_movements keys class hash start v) (vouts_movements keys class hash (suc start) vouts)
        []
        (output-Received keys hash class (suc start) n i vouts vout b e (omega (arith, f)) own free)
        tt)

movements-append :
    (keys : Keystore) (txs more : List TxBase)
    → movements keys (txs ++ more) ≡ movements keys txs ++ movements keys more
unfolding movements
movements-append keys [] more = refl
movements-append keys (tx ∷ txs) more =
    ap (λ (ms : List Movement). tx_movements keys tx ++ ms) (movements-append keys txs more)
    ∙ sym (append_assoc (tx_movements keys tx) (movements keys txs) (movements keys more))

tx-Received :
    (keys : Keystore) (tx : TxBase) (i : ℕ) (vout : Vout)
    → is_counted tx ≡ true
    → get_elem? tx.vout i ≡ some vout
    → is_own keys vout.address ≡ true
    → (tx.class == type_deposit_in && i == 0) ≡ false
    → AreBytes (keys.build_hash tx)
    → Received vout.address
        (item_key (keys.build_hash tx) (pos i))
        (item_of (keys.build_hash tx) i vout)
        (tx_movements keys tx)
unfolding tx_movements
tx-Received keys tx i vout counted e own free b = rw counted (
    subst
      (Received vout.address (item_key (keys.build_hash tx) (pos i))
        (item_of (keys.build_hash tx) i vout))
      (ap (λ (ms : List Movement). vins_movements keys tx.class tx.vin ++ ms)
        (append-nil (vouts_movements keys tx.class (keys.build_hash tx) 0 tx.vout)))
      (Received-append vout.address (item_key (keys.build_hash tx) (pos i))
        (item_of (keys.build_hash tx) i vout) (vins_movements keys tx.class tx.vin)
        (vouts_movements keys tx.class (keys.build_hash tx) 0 tx.vout) []
        (output-Received keys (keys.build_hash tx) tx.class 0 i i tx.vout vout b e (omega arith) own
          free)
        tt))

-- An output of an own address, in a counted transaction whose hash consists of bytes, is recorded with
-- its value and stays so whatever comes before and after, as long as no later transaction has the same
-- hash or an input that names the output with a key of its address. The first output of a deposit is
-- the exception: it is locked.
pub count_txs-kept :
    (keys : Keystore) (before after : List TxBase) (tx : TxBase) (i : ℕ) (vout : Vout)
    → is_counted tx ≡ true
    → get_elem? tx.vout i ≡ some vout
    → is_own keys vout.address ≡ true
    → (tx.class == type_deposit_in && i == 0) ≡ false
    → AreBytes (keys.build_hash tx)
    → All (Leaves keys vout.address (keys.build_hash tx) i) after
    → lookup
        (item_key (keys.build_hash tx) (pos i))
        (items_of vout.address (count_txs keys (before ++ tx ∷ after) []))
      ≡ some (item_of (keys.build_hash tx) i vout)
unfolding movements
count_txs-kept keys before after tx i vout counted e own free b leaves =
    let hash = keys.build_hash tx in
    let key = item_key hash (pos i) in
    let item = item_of hash i vout in
    (count_txs-recorded keys (before ++ tx ∷ after) vout.address key item).1 (
      subst (Received vout.address key item) (sym (movements-append keys before (tx ∷ after))) (
        Received-append vout.address key item (movements keys before) (tx_movements keys tx)
          (movements keys after) (tx-Received keys tx i vout counted e own free b)
          (movements-Spares keys vout.address hash i after b leaves)))
