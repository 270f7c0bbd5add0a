-- ===== src/Wallet/Pay/Chosen.antt =====
-- Which recorded outputs a payment chooses.
use Prim.Native.Nat.{◌^◌}
use mathlib.Core.List.{Sublistᴰ}
use mathlib.Core.List.Sublistᴰ.{nil-sublist, append as sublist-append}
use mathlib.Core.Path.{subst}
use polarcloud.Prelude.{
  ℕ, ◌+◌, ◌%◌, ◌≤◌, ◌<◌, ◌≡◌, refl, sym, ap, ◌∙◌, List, [], ◌∷◌, ◌++◌, append-nil, append_assoc,
  Text, eq_text, if◌then◌else◌, arith,
}
use polarcloud.Wallet.{Vin, TxItem, Items, items_of}
use polarcloud.Wallet.Pay.{Address, Signer, vin_of}

-- A recorded output with the key that spends it; the outputs of a key, and those of all keys in the
-- order in which a payment looks at them.
abbrev pub Entry : Type 0
Entry = Address × TxItem

abbrev pub entries : Address → Items → List Entry
entries key [] = []
entries key ((_, item) ∷ items) = (key, item) ∷ entries key items

abbrev pub entries_from : Address → List (Text × Items) → List Address → List Entry
entries_from coinbase balance [] = []
entries_from coinbase balance (key ∷ keys) =
    (if eq_text key.hash coinbase.hash then [] else entries key (items_of key.hash balance))
    ++ entries_from coinbase balance keys

abbrev pub all_entries : Signer → Address → List (Text × Items) → List Entry
all_entries signer coinbase balance =
    entries_from coinbase balance signer.addresses
    ++ entries coinbase (items_of coinbase.hash balance)

abbrev pub sum_of : List Entry → ℕ
sum_of [] = 0
sum_of ((_, item) ∷ es) = item.value + sum_of es

-- The inputs spend these outputs with their keys, one by one.
abbrev pub Spends : List Entry → List Vin → Type 0
Spends [] [] = Unit
Spends [] (v ∷ vs) = ⊥
Spends (e ∷ es) [] = ⊥
Spends ((key, item) ∷ es) (v ∷ vs) =
    (v.txid ≡ item.txid) × (v.vout ≡ item.out_index) × (v.puk ≡ key.pubkey) × Spends es vs

-- What the choice from `all` adds to inputs and to a total: inputs for some of `all`, each at
-- most once, and their values.
abbrev pub Chosen : List Entry → List Vin × ℕ → List Vin × ℕ → Type 0
Chosen all (vins, total) picked =
    (es : List Entry) × (new : List Vin) × Sublistᴰ es all
    × Spends es new
    × (picked ≡ (vins ++ new, total + sum_of es))

pub sum_of-append : (es fs : List Entry) → sum_of (es ++ fs) ≡ sum_of es + sum_of fs
sum_of-append [] fs = omega arith
sum_of-append ((_, item) ∷ es) fs = omega (arith, sum_of-append es fs)

pub sum_of-sublist : {es fs : List Entry} → Sublistᴰ es fs → sum_of es ≤ sum_of fs
sum_of-sublist Sublistᴰ.slnil = omega arith
sum_of-sublist (Sublistᴰ.cons {a = (_, item)} s) = omega (arith, sum_of-sublist s)
sum_of-sublist (Sublistᴰ.cons-cons {a = (_, item)} {b = (_, other)} e s) =
    let f : item.value ≡ other.value = ap (λ (x : Entry). x.1.value) e in
    omega (arith, f, sum_of-sublist s)

Spends-append :
    (es fs : List Entry) (vs ws : List Vin)
    → Spends es vs
    → Spends fs ws
    → Spends (es ++ fs) (vs ++ ws)
Spends-append [] fs [] ws h k = k
Spends-append [] fs (v ∷ vs) ws h k = absurd h
Spends-append (e ∷ es) fs [] ws h k = absurd h
Spends-append ((key, item) ∷ es) fs (v ∷ vs) ws (a, b, c, h) k =
    (a, b, c, Spends-append es fs vs ws h k)

pub pair_eq :
    {vs ws : List Vin} {m n : ℕ} → vs ≡ ws → m ≡ n → ◌≡◌ {A = List Vin × ℕ} (vs, m) (ws, n)
pair_eq p q = rw (p, q) refl

-- Choosing nothing, and choosing twice.
pub Chosen-empty : (all : List Entry) (picked : List Vin × ℕ) → Chosen all picked picked
Chosen-empty all (vins, total) =
    ([], [], nil-sublist all, tt, pair_eq (sym (append-nil vins)) (omega arith))

Chosen-join :
    (all more : List Entry) (vins : List Vin) (total : ℕ) (es : List Entry) (new : List Vin)
    (third : List Vin × ℕ)
    → Sublistᴰ es all
    → Spends es new
    → Chosen more (vins ++ new, total + sum_of es) third
    → Chosen (all ++ more) (vins, total) third
Chosen-join all more vins total es new third s h (fs, newer, t, k, e) = (
  es ++ fs,
  new ++ newer,
  sublist-append s t,
  Spends-append es fs new newer h k,
  e ∙ pair_eq (append_assoc vins new newer) (omega (arith, sum_of-append es fs)),
)

pub Chosen-append :
    (all more : List Entry) (first second third : List Vin × ℕ)
    → Chosen all first second
    → Chosen more second third
    → Chosen (all ++ more) first third
Chosen-append all more (vins, total) second third (es, new, s, h, e) k =
    Chosen-join all more vins total es new third s h (subst (λ x. Chosen more x third) e k)

-- Choosing one output.
pub Chosen-single :
    (key : Address) (item : TxItem) (sign : List ℕ) (vins : List Vin) (total : ℕ)
    → total + item.value < 2 ^ 64
    → Chosen
        ((key, item) ∷ [])
        (vins, total)
        (vins ++ vin_of key item sign ∷ [], (total + item.value) % 2 ^ 64)
Chosen-single key item sign vins total h = (
  (key, item) ∷ [],
  vin_of key item sign ∷ [],
  Sublistᴰ.cons-cons refl Sublistᴰ.slnil,
  (refl, refl, refl, tt),
  ap (λ (n : ℕ). (vins ++ vin_of key item sign ∷ [], n)) (omega (arith, h)),
)

-- A choice brings the total to that of some of the outputs, so it stays below that of all.
pub Chosen-bounds :
    (all : List Entry) (first second : List Vin × ℕ)
    → Chosen all first second
    → (first.1 ≤ second.1) × (second.1 ≤ first.1 + sum_of all)
Chosen-bounds all (vins, total) second (es, new, s, h, e) =
    let f : second.1 ≡ total + sum_of es = ap (λ (x : List Vin × ℕ). x.1) e in
    (omega (arith, f), omega (arith, f, sum_of-sublist s))
