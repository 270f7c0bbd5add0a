-- ===== src/Votes/Polls.antt =====
-- What one vote changes, and what the end of a poll.
use polarcloud.Prelude.{
  ℕ, ◌≡◌, refl, sym, ap, ◌∙◌, inl, inr, Bool, false, ◌&&◌, List, [], ◌∷◌, Option, none, some,
  length, leb, Text, eq_text, eq_text_sound, Bool-cases, Option-cases,
}
use polarcloud.Table.{
  lookup, put, delete, lookup-put, lookup-put_other, lookup-delete, lookup-delete_other,
}
use polarcloud.Votes.{Poll, PollManager, add_hash, vote_in, vote, remove_pross}

-- The votes that a poll counts, none if there is no such poll.
abbrev or_none : Option (List Text) → List Text
or_none none = []
or_none (some hashes) = hashes

abbrev in_poll : Text → Option Poll → List Text
in_poll params none = []
in_poll params (some poll) = or_none (lookup params poll)

abbrev pub hashes_of : Text → Text → PollManager → List Text
hashes_of class params m = in_poll params (lookup class m.polls)

abbrev with_poll : Text → Text → List Text → Poll → List (Text × Poll) → List (Text × Poll)
with_poll class params hashes poll polls = put class (put params hashes poll) polls

own :
    (class params : Text) (hashes : List Text) (poll : Poll) (polls : List (Text × Poll))
    → in_poll params (lookup class (with_poll class params hashes poll polls)) ≡ hashes
own class params hashes poll polls =
    rw (lookup-put class (put params hashes poll) polls, lookup-put params hashes poll)

abbrev pub same_poll : Text → Text → Text → Text → Bool
same_poll class params c p = eq_text class c && eq_text params p

-- What is stored for one poll changes no other: `new` is the polls of its class then.
other :
    (class params c p : Text) (poll new : Poll) (polls : List (Text × Poll))
    → same_poll class params c p ≡ false
    → in_poll p (lookup class polls) ≡ in_poll p (some poll)
    → (eq_text params p ≡ false → lookup p new ≡ lookup p poll)
    → in_poll p (lookup c (put class new polls)) ≡ in_poll p (lookup c polls)
other class params c p poll new polls differ e same = elim (Bool-cases (eq_text class c)) [
  | inr other_class ↦ rw (lookup-put_other c class new polls other_class)
  | inl same_class ↦
      let class_is : class ≡ c = eq_text_sound class c same_class in
      let other_params : eq_text params p ≡ false =
        ap (λ (b : Bool). b && eq_text params p) (sym same_class) ∙ differ in
      ap (λ (x : Text). in_poll p (lookup x (put class new polls))) (sym class_is)
      ∙ rw (lookup-put class new polls, same other_params) (sym e)
      ∙ ap (λ (x : Text). in_poll p (lookup x polls)) class_is
]

-- A vote for a poll adds its reply to what the poll has counted, and succeeds when eight have been
-- counted then.
vote_in-hashes_of :
    (now : ℕ) (class params reply : Text) (poll : Poll) (m : PollManager)
    → (hashes_of class params (vote_in now class params reply poll m).1
        ≡ add_hash reply (or_none (lookup params poll)))
      × ((vote_in now class params reply poll m).0
          ≡ leb 8 (length (add_hash reply (or_none (lookup params poll)))))
unfolding vote_in add_hash
vote_in-hashes_of now class params reply poll m = elim (Option-cases (lookup params poll)) [
  | inl e ↦ rw (vote_in, e) (own class params (reply ∷ []) poll m.polls, refl)
  | inr (hashes, e) ↦ rw (vote_in, e) (own class params (add_hash reply hashes) poll m.polls, refl)
]

vote_in-other :
    (now : ℕ) (class params reply c p : Text) (poll : Poll) (m : PollManager)
    → same_poll class params c p ≡ false
    → in_poll p (lookup class m.polls) ≡ in_poll p (some poll)
    → hashes_of c p (vote_in now class params reply poll m).1 ≡ hashes_of c p m
unfolding vote_in
vote_in-other now class params reply c p poll m differ e =
    elim (Option-cases (lookup params poll)) [
      | inl f ↦
          rw (vote_in, f)
            (other class params c p poll (put params (reply ∷ []) poll) m.polls differ e
              (λ h. lookup-put_other p params (reply ∷ []) poll h))
      | inr (hashes, f) ↦
          rw (vote_in, f)
            (other class params c p poll (put params (add_hash reply hashes) poll) m.polls differ e
              (λ h. lookup-put_other p params (add_hash reply hashes) poll h))
    ]

pub vote-hashes_of :
    (now : ℕ) (class params reply : Text) (m : PollManager)
    → (hashes_of class params (vote now class params reply m).1
        ≡ add_hash reply (hashes_of class params m))
      × ((vote now class params reply m).0
          ≡ leb 8 (length (add_hash reply (hashes_of class params m))))
unfolding vote lookup add_hash
vote-hashes_of now class params reply m = elim (Option-cases (lookup class m.polls)) [
  | inl e ↦
      rw (vote, e)
        (
          (vote_in-hashes_of now class params reply []
              (record m { polls = put class [] m.polls })).0,
          refl,
        )
  | inr (poll, e) ↦ rw (vote, e) (vote_in-hashes_of now class params reply poll m)
]

pub vote-other :
    (now : ℕ) (class params reply c p : Text) (m : PollManager)
    → same_poll class params c p ≡ false
    → hashes_of c p (vote now class params reply m).1 ≡ hashes_of c p m
unfolding vote lookup
vote-other now class params reply c p m differ = elim (Option-cases (lookup class m.polls)) [
  | inl e ↦
      rw (vote, e)
        (vote_in-other now class params reply c p [] (record m { polls = put class [] m.polls })
            differ (ap (λ o. in_poll p o) (lookup-put class [] m.polls))
          ∙ other class params c p [] [] m.polls differ (ap (λ o. in_poll p o) e) (λ h. refl))
  | inr (poll, e) ↦
      rw (vote, e)
        (vote_in-other now class params reply c p poll m differ (ap (λ o. in_poll p o) e))
]

pub remove_pross-hashes_of :
    (class params : Text) (m : PollManager)
    → hashes_of class params (remove_pross class params m) ≡ []
unfolding remove_pross
remove_pross-hashes_of class params m = elim (Option-cases (lookup class m.polls)) [
  | inl e ↦ rw (remove_pross, e, e)
  | inr (poll, e) ↦
      rw (remove_pross, e, lookup-put class (delete params poll) m.polls, lookup-delete params poll)
]

pub remove_pross-other :
    (class params c p : Text) (m : PollManager)
    → same_poll class params c p ≡ false
    → hashes_of c p (remove_pross class params m) ≡ hashes_of c p m
unfolding remove_pross
remove_pross-other class params c p m differ = elim (Option-cases (lookup class m.polls)) [
  | inl e ↦ rw (remove_pross, e)
  | inr (poll, e) ↦
      rw (remove_pross, e)
        (other class params c p poll (delete params poll) m.polls differ (ap (λ o. in_poll p o) e)
          (λ h. lookup-delete_other p params poll h))
]
