-- ===== src/Wallet/Pay/Once.antt =====
-- No output is spent twice: from the recorded outputs to the inputs of a payment.
use mathlib.Core.List.{Sublistᴰ}
use polarcloud.Prelude.{◌≡◌, ap, sym, ◌∙◌, List, [], ◌∷◌, All}
use polarcloud.Wallet.{Vin, TxItem}
use polarcloud.Wallet.Pay.Chosen.{Entry, Spends}

-- Two recorded outputs are the same one, and two inputs name the same one.
abbrev pub SameOutput : TxItem → Entry → Type 0
SameOutput item (_, other) = (other.txid ≡ item.txid) × (other.out_index ≡ item.out_index)

abbrev pub SameInput : Vin → Vin → Type 0
SameInput v w = (w.txid ≡ v.txid) × (w.vout ≡ v.vout)

-- No two of these are the same output.
abbrev pub AreDistinct : List Entry → Type 0
AreDistinct [] = Unit
AreDistinct ((_, item) ∷ es) = All (λ e. ¬ (SameOutput item e)) es × AreDistinct es

abbrev pub SpendsOnce : List Vin → Type 0
SpendsOnce [] = Unit
SpendsOnce (v ∷ vs) = All (λ w. ¬ (SameInput v w)) vs × SpendsOnce vs

module _ (P : Entry → Type 0) where
  All-sublist : {es fs : List Entry} → Sublistᴰ es fs → All P fs → All P es
  All-sublist Sublistᴰ.slnil h = tt
  All-sublist (Sublistᴰ.cons s) (p, h) = All-sublist s h
  All-sublist (Sublistᴰ.cons-cons e s) (p, h) = (rw e p, All-sublist s h)

pub AreDistinct-sublist : {es fs : List Entry} → Sublistᴰ es fs → AreDistinct fs → AreDistinct es
AreDistinct-sublist Sublistᴰ.slnil h = tt
AreDistinct-sublist (Sublistᴰ.cons {a = (_, item)} s) (p, h) = AreDistinct-sublist s h
AreDistinct-sublist (Sublistᴰ.cons-cons {a = (_, item)} {b = (_, other)} e s) (p, h) = (
  (let f : item ≡ other = ap (λ (x : Entry). x.1) e in
      rw f (All-sublist (λ x. ¬ (SameOutput other x)) s p)),
  AreDistinct-sublist s h,
)

Spends-other :
    (item : TxItem) (v : Vin) (es : List Entry) (vs : List Vin)
    → v.txid ≡ item.txid
    → v.vout ≡ item.out_index
    → Spends es vs
    → All (λ e. ¬ (SameOutput item e)) es
    → All (λ w. ¬ (SameInput v w)) vs
Spends-other item v [] [] a b s h = tt
Spends-other item v [] (w ∷ vs) a b s h = absurd s
Spends-other item v (e ∷ es) [] a b s h = absurd s
Spends-other item v ((key, other) ∷ es) (w ∷ vs) a b (c, d, _, s) (n, h) =
    (λ (f, g). n (sym c ∙ f ∙ a, sym d ∙ g ∙ b), Spends-other item v es vs a b s h)

-- Inputs that spend different outputs name different ones.
pub Spends-SpendsOnce :
    (es : List Entry) (vs : List Vin) → Spends es vs → AreDistinct es → SpendsOnce vs
Spends-SpendsOnce [] [] s h = tt
Spends-SpendsOnce [] (v ∷ vs) s h = absurd s
Spends-SpendsOnce (e ∷ es) [] s h = absurd s
Spends-SpendsOnce ((key, item) ∷ es) (v ∷ vs) (a, b, _, s) (p, h) =
    (Spends-other item v es vs a b s p, Spends-SpendsOnce es vs s h)
