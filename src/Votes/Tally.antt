-- ===== src/Votes/Tally.antt =====
-- What a poll has counted after any events.
use polarcloud.Prelude.{
  ℕ, suc, ◌+◌, ◌≡◌, refl, sym, ap, ◌∙◌, inl, inr, Bool, true, false, ◌&&◌, ◌||◌, List, [], ◌∷◌,
  length, leb, Text, eq_text, eq_text_sound, if◌then◌else◌, Bool-cases, arith,
}
use mathlib.Core.Path.{subst}
use polarcloud.Table.{lookup}
use polarcloud.Votes.Polls.{
  hashes_of, same_poll, vote-hashes_of, vote-other, remove_pross-hashes_of, remove_pross-other,
}
use polarcloud.Votes.{PollManager, add_hash, vote, remove_pross}

false_not_true : false ≡ true → ⊥
false_not_true e = cc

-- What happens to the polls.
pub data Event : Type 0 where
  ballot : ℕ → Text → Text → Text → Event
  over : Text → Text → Event

unfoldable pub run : List Event → PollManager → PollManager
run [] m = m
run (ballot now class params reply ∷ events) m = run events (vote now class params reply m).1
run (over class params ∷ events) m = run events (remove_pross class params m)

-- The replies for one poll since it was over last, the latest first.
unfoldable pub replies_since : Text → Text → List Event → List Text → List Text
replies_since c p [] replies = replies
replies_since c p (ballot now class params reply ∷ events) replies =
    replies_since c p events
      (if eq_text class c && eq_text params p then reply ∷ replies else replies)
replies_since c p (over class params ∷ events) replies =
    replies_since c p events (if eq_text class c && eq_text params p then [] else replies)

abbrev counted : List Text → List Text
counted [] = []
counted (reply ∷ replies) = add_hash reply (counted replies)

at_keys :
    (class params c p : Text) (P : Text → Text → Type 0)
    → same_poll class params c p ≡ true
    → P class params
    → P c p
at_keys class params c p P same h = elim (Bool-cases (eq_text class c)) [
  | inr other_class ↦
      absurd (false_not_true (sym (ap (λ (b : Bool). b && eq_text params p) other_class) ∙ same))
  | inl same_class ↦
      subst (λ x. P x p) (eq_text_sound class c same_class)
        (subst (λ y. P class y)
          (eq_text_sound params p
            (sym (ap (λ (b : Bool). b && eq_text params p) same_class) ∙ same))
          h)
]

run-replies_since :
    (c p : Text) (events : List Event) (replies : List Text) (m : PollManager)
    → hashes_of c p m ≡ counted replies
    → hashes_of c p (run events m) ≡ counted (replies_since c p events replies)
unfolding run replies_since
run-replies_since c p [] replies m h = h
run-replies_since c p (ballot now class params reply ∷ events) replies m h =
    elim (Bool-cases (same_poll class params c p)) [
      | inl same ↦ rw same (
          run-replies_since c p events (reply ∷ replies) (vote now class params reply m).1 (
            at_keys class params c p
              (λ x y.
                hashes_of x y (vote now class params reply m).1 ≡ add_hash reply (hashes_of x y m))
              same (vote-hashes_of now class params reply m).0
            ∙ ap (λ (hs : List Text). add_hash reply hs) h))
      | inr differ ↦ rw differ (
          run-replies_since c p events replies (vote now class params reply m).1
            (vote-other now class params reply c p m differ ∙ h))
    ]
run-replies_since c p (over class params ∷ events) replies m h =
    elim (Bool-cases (same_poll class params c p)) [
      | inl same ↦ rw same (
          run-replies_since c p events [] (remove_pross class params m) (
            at_keys class params c p (λ x y. hashes_of x y (remove_pross class params m) ≡ []) same
              (remove_pross-hashes_of class params m)))
      | inr differ ↦ rw differ (
          run-replies_since c p events replies (remove_pross class params m)
            (remove_pross-other class params c p m differ ∙ h))
    ]

unfoldable pub occurs : Text → List Text → Bool
occurs t [] = false
occurs t (u ∷ us) = eq_text u t || occurs t us

-- How many texts a list has that differ.
unfoldable pub different : List Text → ℕ
different [] = 0
different (t ∷ ts) = if occurs t ts then different ts else different ts + 1

or_twice : (a b : Bool) → (a || (a || b)) ≡ (a || b)
or_twice true b = refl
or_twice false b = refl

or_swap : (a b c : Bool) → (a || (b || c)) ≡ (b || (a || c))
or_swap true true c = refl
or_swap true false c = refl
or_swap false b c = refl

one_more : (b : Bool) (n : ℕ) → suc (if b then n else n + 1) ≡ (if b then suc n else suc n + 1)
one_more true n = refl
one_more false n = omega arith

occurs-add_hash :
    (t hash : Text) (hashes : List Text)
    → occurs t (add_hash hash hashes) ≡ (eq_text hash t || occurs t hashes)
unfolding occurs add_hash
occurs-add_hash t hash [] = refl
occurs-add_hash t hash (h ∷ hashes) = elim (Bool-cases (eq_text h hash)) [
  | inl same ↦ rw same (
      sym (or_twice (eq_text h t) (occurs t hashes))
      ∙ ap (λ (x : Text). eq_text x t || (eq_text h t || occurs t hashes))
          (eq_text_sound h hash same))
  | inr other ↦ rw other (
      ap (λ (b : Bool). eq_text h t || b) (occurs-add_hash t hash hashes)
      ∙ or_swap (eq_text h t) (eq_text hash t) (occurs t hashes))
]

length-add_hash :
    (hash : Text) (hashes : List Text)
    → length (add_hash hash hashes)
      ≡ (if occurs hash hashes then length hashes else length hashes + 1)
unfolding occurs add_hash
length-add_hash hash [] = omega arith
length-add_hash hash (h ∷ hashes) = elim (Bool-cases (eq_text h hash)) [
  | inl same ↦ rw same
  | inr other ↦
      rw other
        (ap suc (length-add_hash hash hashes) ∙ one_more (occurs hash hashes) (length hashes))
]

occurs-counted : (t : Text) (replies : List Text) → occurs t (counted replies) ≡ occurs t replies
unfolding occurs
occurs-counted t [] = refl
occurs-counted t (r ∷ replies) =
    occurs-add_hash t r (counted replies)
    ∙ ap (λ (b : Bool). eq_text r t || b) (occurs-counted t replies)

length-counted : (replies : List Text) → length (counted replies) ≡ different replies
unfolding different
length-counted [] = refl
length-counted (r ∷ replies) =
    length-add_hash r (counted replies) ∙ rw (occurs-counted r replies, length-counted replies)

abbrev pub no_polls : PollManager
no_polls = record { polls = []; timetask = [] }

-- A vote succeeds if and only if eight different replies have come for its poll, its own included, since
-- the poll was over last, whatever votes came for other polls and whenever those were over.
pub vote-different :
    (events : List Event) (now : ℕ) (class params reply : Text)
    → (vote now class params reply (run events no_polls)).0
      ≡ leb 8 (different (reply ∷ replies_since class params events []))
unfolding lookup
vote-different events now class params reply =
    (vote-hashes_of now class params reply (run events no_polls)).1
    ∙ ap (λ (hs : List Text). leb 8 (length (add_hash reply hs)))
        (run-replies_since class params events [] no_polls refl)
    ∙ ap (λ n. leb 8 n) (length-counted (reply ∷ replies_since class params events []))
