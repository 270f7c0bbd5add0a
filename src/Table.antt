-- ===== src/Table.antt =====
-- A Go map with texts as keys, and an object of JavaScript.
use polarcloud.Prelude.{
  ◌≡◌, refl, ap, ◌∙◌, inl, inr, false, List, [], ◌∷◌, Option, none, some, Text, eq_text,
  eq_text_sound, eq_text_refl, if◌then◌else◌, Bool-cases,
}

module _ {ℓ} {V : Type ℓ} where
  unfoldable pub lookup : Text → List (Text × V) → Option V
  lookup key [] = none
  lookup key ((k, v) ∷ table) = if eq_text k key then some v else lookup key table

  unfoldable pub put : Text → V → List (Text × V) → List (Text × V)
  put key v [] = (key, v) ∷ []
  put key v ((k, old) ∷ table) =
      let rest = put key v table in if eq_text k key then (k, v) ∷ table else (k, old) ∷ rest

  unfoldable pub delete : Text → List (Text × V) → List (Text × V)
  delete key [] = []
  delete key ((k, old) ∷ table) =
      let rest = delete key table in if eq_text k key then rest else (k, old) ∷ rest

  pub lookup-put :
      (key : Text) (v : V) (table : List (Text × V)) → lookup key (put key v table) ≡ some v
  unfolding lookup put
  lookup-put key v [] = rw (eq_text_refl key)
  lookup-put key v ((k, old) ∷ table) = elim (Bool-cases (eq_text k key)) [
    | inl same ↦ rw (same, same)
    | inr other ↦ rw (other, other) (lookup-put key v table)
  ]

  pub lookup-put_other :
      (key other : Text) (v : V) (table : List (Text × V))
      → eq_text other key ≡ false
      → lookup key (put other v table) ≡ lookup key table
  unfolding lookup put
  lookup-put_other key other v [] h = rw h
  lookup-put_other key other v ((k, old) ∷ table) h = elim (Bool-cases (eq_text k other)) [
    | inl same ↦
        let e : eq_text k key ≡ false =
          ap (λ (t : Text). eq_text t key) (eq_text_sound k other same) ∙ h in
        rw (same, e)
    | inr differ ↦ rw (differ, lookup-put_other key other v table h)
  ]

  pub lookup-delete : (key : Text) (table : List (Text × V)) → lookup key (delete key table) ≡ none
  unfolding lookup delete
  lookup-delete key [] = refl
  lookup-delete key ((k, old) ∷ table) = elim (Bool-cases (eq_text k key)) [
    | inl same ↦ rw same (lookup-delete key table)
    | inr other ↦ rw (other, other) (lookup-delete key table)
  ]

  pub lookup-delete_other :
      (key other : Text) (table : List (Text × V))
      → eq_text other key ≡ false
      → lookup key (delete other table) ≡ lookup key table
  unfolding lookup delete
  lookup-delete_other key other [] h = refl
  lookup-delete_other key other ((k, old) ∷ table) h = elim (Bool-cases (eq_text k other)) [
    | inl same ↦
        let e : eq_text k key ≡ false =
          ap (λ (t : Text). eq_text t key) (eq_text_sound k other same) ∙ h in
        rw (same, e) (lookup-delete_other key other table h)
    | inr differ ↦ rw (differ, lookup-delete_other key other table h)
  ]
