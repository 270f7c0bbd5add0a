-- ===== src/Wallet/Pay/Signed.antt =====
-- The signatures of a payment, and its end.
use polarcloud.Prelude.{
  ℕ, ◌≡◌, refl, sym, ◌∙◌, ◌⊎◌, inl, inr, List, [], ◌∷◌, none, some, Option-cases, eq_text,
  Bool-cases,
}
use polarcloud.Wallet.{Vin, Vout, TxBase, hex_text}
use polarcloud.Wallet.Pay.{
  Address, Signer, Failure, bad_outputs, bad_sign, failed, created, sign_vin, sign_vins, hashed,
  pay_tx, finish_pay,
}
use polarcloud.Wallet.Pay.Chosen.{Entry, Spends}

-- Signing an input changes nothing else of it.
signed_vin :
    (signer : Signer) (bs : List ℕ) (keys : List Address) (vin : Vin)
    → (sign_vin signer bs keys vin ≡ none)
      ⊎ ((sign : List ℕ) × (sign_vin signer bs keys vin ≡ some (record vin { vout_sign = sign })))
unfolding sign_vin
signed_vin signer bs [] vin = inr (vin.vout_sign, refl)
signed_vin signer bs (key ∷ keys) vin =
    elim (Bool-cases (eq_text (hex_text key.pubkey) (hex_text vin.puk))) [
      | inr other ↦ rw other (signed_vin signer bs keys vin)
      | inl own ↦ elim (Option-cases (signer.sign key bs)) [
        | inl error ↦ inl (rw (own, error) refl)
        | inr (sign, e) ↦ inr (sign, rw (own, e) refl)
      ]
    ]

Spends-cons :
    (es : List Entry) (v w : Vin) (vs ws : List Vin)
    → v.txid ≡ w.txid
    → v.vout ≡ w.vout
    → v.puk ≡ w.puk
    → ((fs : List Entry) → Spends fs vs → Spends fs ws)
    → Spends es (v ∷ vs)
    → Spends es (w ∷ ws)
Spends-cons [] v w vs ws a b c f h = h
Spends-cons ((key, item) ∷ es) v w vs ws a b c f (d, e, g, h) =
    (sym a ∙ d, sym b ∙ e, sym c ∙ g, f es h)

signed_vins :
    (signer : Signer) (bs : List ℕ) (vins : List Vin)
    → (sign_vins signer bs vins ≡ none)
      ⊎ ((signed : List Vin) × (sign_vins signer bs vins ≡ some signed)
          × ((es : List Entry) → Spends es vins → Spends es signed))
unfolding sign_vins
signed_vins signer bs [] = inr ([], refl, λ es h. h)
signed_vins signer bs (vin ∷ vins) = elim (signed_vin signer bs signer.addresses vin) [
  | inl error ↦ inl (rw (error, sign_vins) refl)
  | inr (sign, e) ↦ elim (signed_vins signer bs vins) [
    | inl error ↦ inl (rw (e, error, sign_vins) refl)
    | inr (signed, f, keep) ↦ inr (
      (record vin { vout_sign = sign }) ∷ signed,
      rw (e, f, sign_vins) refl,
      λ es h.
          Spends-cons es vin (record vin { vout_sign = sign }) vins signed refl refl refl keep h,
    )
  ]
]

pub failed_created : (f : Failure) (tx : TxBase) → ¬ (failed f ≡ created tx)
failed_created f tx e = cc

created_tx : (s t : TxBase) → created s ≡ created t → s ≡ t
created_tx s t e = cc

pub finished :
    (signer : Signer) (vins : List Vin) (vouts : List Vout) (gas : ℕ) (tx : TxBase)
    → finish_pay signer vins vouts gas ≡ created tx
    → (tx.vout ≡ vouts) × (tx.gas ≡ gas) × ((es : List Entry) → Spends es vins → Spends es tx.vin)
unfolding finish_pay
finished signer vins vouts gas tx h = elim (Option-cases (signer.marshal vouts)) [
  | inl error ↦
      let f : finish_pay signer vins vouts gas ≡ failed bad_outputs = rw (error, finish_pay) refl in
      absurd (failed_created _ tx (sym f ∙ h))
  | inr (bs, e) ↦ elim (signed_vins signer bs vins) [
    | inl error ↦
        let f : finish_pay signer vins vouts gas ≡ failed bad_sign =
          rw (e, error, finish_pay) refl in
        absurd (failed_created _ tx (sym f ∙ h))
    | inr (signed, g, keep) ↦
        let f : finish_pay signer vins vouts gas
            ≡ created (hashed signer (pay_tx signed vouts gas)) =
          rw (e, g, finish_pay) refl in
        let same : hashed signer (pay_tx signed vouts gas) ≡ tx = created_tx _ tx (sym f ∙ h) in
        rw⁻¹ same (refl, refl, keep)
  ]
]

sign_vin-some :
    (signer : Signer) (bs : List ℕ) (keys : List Address) (vin : Vin)
    → ((key : Address) (bs : List ℕ) → (sign : List ℕ) × (signer.sign key bs ≡ some sign))
    → (signed : Vin) × (sign_vin signer bs keys vin ≡ some signed)
unfolding sign_vin
sign_vin-some signer bs [] vin signs = (vin, refl)
sign_vin-some signer bs (key ∷ keys) vin signs =
    let (sign, e) = signs key bs in
    elim (Bool-cases (eq_text (hex_text key.pubkey) (hex_text vin.puk))) [
      | inr other ↦ rw other (sign_vin-some signer bs keys vin signs)
      | inl own ↦ (record vin { vout_sign = sign }, rw (own, e) refl)
    ]

pub sign_vins-some :
    (signer : Signer) (bs : List ℕ) (vins : List Vin)
    → ((key : Address) (bs : List ℕ) → (sign : List ℕ) × (signer.sign key bs ≡ some sign))
    → (signed : List Vin) × (sign_vins signer bs vins ≡ some signed)
unfolding sign_vins
sign_vins-some signer bs [] signs = ([], refl)
sign_vins-some signer bs (vin ∷ vins) signs =
    let (v, e) = sign_vin-some signer bs signer.addresses vin signs in
    let (vs, f) = sign_vins-some signer bs vins signs in (v ∷ vs, rw (e, f, sign_vins) refl)

pub finish_some :
    (signer : Signer) (vins : List Vin) (vouts : List Vout) (gas : ℕ) (bs : List ℕ)
    (signed : List Vin)
    → signer.marshal vouts ≡ some bs
    → sign_vins signer bs vins ≡ some signed
    → finish_pay signer vins vouts gas ≡ created (hashed signer (pay_tx signed vouts gas))
unfolding finish_pay
finish_some signer vins vouts gas bs signed m g = rw (m, g, finish_pay) refl
