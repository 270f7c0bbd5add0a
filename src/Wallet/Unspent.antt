-- ===== src/Wallet/Unspent.antt =====
-- What `count` records, seen at one output of one address.
use polarcloud.Prelude.{
  ◌≡◌, ◌↔◌, refl, sym, ap, ◌∙◌, ◌⊎◌, inl, inr, Bool, true, false, ◌&&◌, List, [], ◌∷◌, ◌++◌, Option,
  none, some, Text, eq_text, eq_text_sound, eq_text_refl, if◌then◌else◌, Bool-cases, All,
}
use polarcloud.Table.{
  lookup, put, delete, lookup-put, lookup-put_other, lookup-delete, lookup-delete_other,
}
use polarcloud.Wallet.{TxBase, Keystore, TxItem, Items, items_of, count_txs}
use polarcloud.Wallet.Movements.{
  Movement, spent, received, movements, move, move_all, count_txs-move_all,
}

-- Whether a movement is one of that output of that address.
abbrev pub Touches : Text → Text → Movement → Type 0
Touches address key (spent a k) = (a ≡ address) × (k ≡ key)
Touches address key (received a k item) = (a ≡ address) × (k ≡ key)

-- The item that a movement leaves for an output.
abbrev pub standing : Text → Text → Movement → Option TxItem → Option TxItem
standing address key (spent a k) old = if eq_text a address && eq_text k key then none else old
standing address key (received a k item) old =
    if eq_text a address && eq_text k key then some item else old

lookup-put_items :
    (address a : Text) (key : Text) (items : Items) (balance : List (Text × Items))
    → lookup key (items_of address (put a items balance))
      ≡ (if eq_text a address then lookup key items else lookup key (items_of address balance))
lookup-put_items address a key items balance = elim (Bool-cases (eq_text a address)) [
  | inl same ↦ rw (same, eq_text_sound a address same, lookup-put address items balance)
  | inr other ↦ rw (other, lookup-put_other address a items balance other)
]

lookup-move :
    (address key : Text) (m : Movement) (balance : List (Text × Items))
    → lookup key (items_of address (move m balance))
      ≡ standing address key m (lookup key (items_of address balance))
unfolding move
lookup-move address key (spent a k) balance =
    lookup-put_items address a key (delete k (items_of a balance)) balance
    ∙ elim (Bool-cases (eq_text a address)) [
      | inr other ↦ rw other
      | inl own ↦ elim (Bool-cases (eq_text k key)) [
        | inl same ↦
            rw (own, same, eq_text_sound k key same) (lookup-delete key (items_of a balance))
        | inr different ↦
            rw (own, different, eq_text_sound a address own)
              (lookup-delete_other key k (items_of address balance) different)
      ]
    ]
lookup-move address key (received a k item) balance =
    lookup-put_items address a key (put k item (items_of a balance)) balance
    ∙ elim (Bool-cases (eq_text a address)) [
      | inr other ↦ rw other
      | inl own ↦ elim (Bool-cases (eq_text k key)) [
        | inl same ↦
            rw (own, same, eq_text_sound k key same) (lookup-put key item (items_of a balance))
        | inr different ↦
            rw (own, different, eq_text_sound a address own)
              (lookup-put_other key k item (items_of address balance) different)
      ]
    ]

abbrev pub standing_all : Text → Text → List Movement → Option TxItem → Option TxItem
standing_all address key [] old = old
standing_all address key (m ∷ ms) old = standing_all address key ms (standing address key m old)

lookup-move_all :
    (address key : Text) (ms : List Movement) (balance : List (Text × Items))
    → lookup key (items_of address (move_all ms balance))
      ≡ standing_all address key ms (lookup key (items_of address balance))
unfolding move_all
lookup-move_all address key [] balance = refl
lookup-move_all address key (m ∷ ms) balance =
    lookup-move_all address key ms (move m balance)
    ∙ ap (standing_all address key ms) (lookup-move address key m balance)

-- The output is received with that item, and no later movement is one of it.
abbrev pub Received : Text → Text → TxItem → List Movement → Type 0
Received address key item ms =
    (before after : List Movement) × (ms ≡ before ++ received address key item ∷ after)
    × All (λ m. ¬ (Touches address key m)) after

eq_texts : (s t u v : Text) → (eq_text s u && eq_text t v) ≡ true → (s ≡ u) × (t ≡ v)
eq_texts s t u v e = elim (Bool-cases (eq_text s u)) [
  | inl same ↦
      (eq_text_sound s u same, eq_text_sound t v (ap (λ b. b && eq_text t v) (sym same) ∙ e))
  | inr other ↦ cc
]

other_texts : (s t u v : Text) → (eq_text s u && eq_text t v) ≡ false → ¬ ((s ≡ u) × (t ≡ v))
other_texts s t u v e (p, q) =
    let w : (eq_text s u && eq_text t v) ≡ true = rw (p, q, eq_text_refl u, eq_text_refl v) in cc

standing_untouched :
    (address key : Text) (m : Movement) (old : Option TxItem)
    → ¬ (Touches address key m)
    → standing address key m old ≡ old
standing_untouched address key (spent a k) old u =
    elim (Bool-cases (eq_text a address && eq_text k key)) [
      | inr no_ ↦ rw no_
      | inl yes_ ↦ absurd (u (eq_texts a k address key yes_))
    ]
standing_untouched address key (received a k item) old u =
    elim (Bool-cases (eq_text a address && eq_text k key)) [
      | inr no_ ↦ rw no_
      | inl yes_ ↦ absurd (u (eq_texts a k address key yes_))
    ]

standing_all_untouched :
    (address key : Text) (ms : List Movement) (old : Option TxItem)
    → All (λ m. ¬ (Touches address key m)) ms
    → standing_all address key ms old ≡ old
standing_all_untouched address key [] old u = refl
standing_all_untouched address key (m ∷ ms) old (v, u) =
    ap (standing_all address key ms) (standing_untouched address key m old v)
    ∙ standing_all_untouched address key ms old u

standing_all-append :
    (address key : Text) (ms ns : List Movement) (old : Option TxItem)
    → standing_all address key (ms ++ ns) old
      ≡ standing_all address key ns (standing_all address key ms old)
standing_all-append address key [] ns old = refl
standing_all-append address key (m ∷ ms) ns old =
    standing_all-append address key ms ns (standing address key m old)

standing-received :
    (address key : Text) (item : TxItem) (old : Option TxItem)
    → standing address key (received address key item) old ≡ some item
standing-received address key item old = rw (eq_text_refl address, eq_text_refl key) refl

-- What one movement leaves was there before, untouched, or comes from it.
standing-some :
    (address key : Text) (m : Movement) (old : Option TxItem) (item : TxItem)
    → standing address key m old ≡ some item
    → (m ≡ received address key item) ⊎ ((old ≡ some item) × ¬ (Touches address key m))
standing-some address key (spent a k) old item e =
    elim (Bool-cases (eq_text a address && eq_text k key)) [
      | inl yes_ ↦
          let f : none ≡ some item = ap (λ (b : Bool). if b then none else old) (sym yes_) ∙ e in
          absurd (cc)
      | inr no_ ↦ inr (
        ap (λ (b : Bool). if b then none else old) (sym no_) ∙ e,
        other_texts a k address key no_,
      )
    ]
standing-some address key (received a k new) old item e =
    elim (Bool-cases (eq_text a address && eq_text k key)) [
      | inl yes_ ↦
          let f : some new ≡ some item =
            ap (λ (b : Bool). if b then some new else old) (sym yes_) ∙ e in
          let (p, q) = eq_texts a k address key yes_ in inl (cc)
      | inr no_ ↦ inr (
        ap (λ (b : Bool). if b then some new else old) (sym no_) ∙ e,
        other_texts a k address key no_,
      )
    ]

standing_all-some :
    (address key : Text) (ms : List Movement) (old : Option TxItem) (item : TxItem)
    → standing_all address key ms old ≡ some item
    → Received address key item ms ⊎ ((old ≡ some item) × All (λ m. ¬ (Touches address key m)) ms)
standing_all-some address key [] old item e = inr (e, tt)
standing_all-some address key (m ∷ ms) old item e =
    elim (standing_all-some address key ms (standing address key m old) item e) [
      | inl (before, after, f, u) ↦ inl (m ∷ before, after, ap (λ ns. m ∷ ns) f, u)
      | inr (f, u) ↦ elim (standing-some address key m old item f) [
        | inl g ↦ inl ([], ms, ap (λ (n : Movement). n ∷ ms) g, u)
        | inr (g, v) ↦ inr (g, (v, u))
      ]
    ]

-- What `count` records of a sequence of transactions, from the start of the program, is what is
-- unspent, by the movements of the transactions in the order of their inputs and outputs: an address and
-- an output have an item exactly if they receive it, and no later movement spends or receives that
-- output of the address. Of a counted transaction, every output to an own address is received with its
-- value, except the first one of a deposit; and every input whose key belongs to an own address spends
-- the output that it names, except those of the type that gives a deposit back.
pub count_txs-recorded :
    (keys : Keystore) (txs : List TxBase) (address key : Text) (item : TxItem)
    → (lookup key (items_of address (count_txs keys txs [])) ≡ some item)
      ↔ Received address key item (movements keys txs)
unfolding lookup
count_txs-recorded keys txs address key item = (
  λ e. elim (standing_all-some address key (movements keys txs) none item (sym seen ∙ e)) [
    | inl found ↦ found
    | inr (f, u) ↦ absurd (cc)
  ],
  λ (before, after, f, u).
      seen
      ∙ ap (λ ms. standing_all address key ms none) f
      ∙ standing_all-append address key before (received address key item ∷ after) none
      ∙ standing_all_untouched address key after _ u
      ∙ standing-received address key item _,
)
  where
    seen :
        lookup key (items_of address (count_txs keys txs []))
        ≡ standing_all address key (movements keys txs) none
    seen =
        ap (λ b. lookup key (items_of address b)) (count_txs-move_all keys txs [])
        ∙ lookup-move_all address key (movements keys txs) []
