-- ===== src/Votes.antt =====
-- core/utils/vote.go: polls. `vote` is `Vote` of the `pollManager`, `remove_pross` is `removePross`,
-- which its `Task` calls when the time of a poll is over. A vote is held by its poll's locks, so votes
-- come one after the other.
pub mod Polls
pub mod Tally
use polarcloud.Prelude.{
  ℕ, ◌+◌, Bool, true, false, List, [], ◌∷◌, ◌++◌, Option, none, some, length, leb, Text, eq_text,
  if◌then◌else◌,
}
use polarcloud.Table.{lookup, put, delete}

-- `votes` of a `poll`: for each of its parameters the keys of `replyHash`.
abbrev pub Poll : Type 0
Poll = List (Text × List Text)

pub record Timer : Type 0 where
  pub tick : ℕ
  pub class : Text
  pub params : Text

pub record PollManager : Type 0 where
  pub polls : List (Text × Poll)
  pub timetask : List Timer

-- `replyHash[hash] = 0`
unfoldable pub add_hash : Text → List Text → List Text
add_hash hash [] = hash ∷ []
add_hash hash (h ∷ hashes) =
    let rest = add_hash hash hashes in if eq_text h hash then h ∷ hashes else h ∷ rest

-- `Vote` for a class that has its poll.
unfoldable pub vote_in : ℕ → Text → Text → Text → Poll → PollManager → Bool × PollManager
vote_in now class params reply_hash poll m =
    let started = record m {
      polls = put class (put params (reply_hash ∷ []) poll) m.polls;
      timetask = m.timetask ++ (record { tick = now + 3; class = class; params = params }) ∷ [];
    } in
    elim (lookup params poll) [
      | none ↦ (false, started)
      | some hashes ↦
          let counted = add_hash reply_hash hashes in
          (leb 8 (length counted), record m { polls = put class (put params counted poll) m.polls })
    ]

unfoldable pub vote : ℕ → Text → Text → Text → PollManager → Bool × PollManager
vote now class params reply_hash m = elim (lookup class m.polls) [
  | some poll ↦ vote_in now class params reply_hash poll m
  | none ↦ (
    false,
    (vote_in now class params reply_hash [] (record m { polls = put class [] m.polls })).1,
  )
]

unfoldable pub remove_pross : Text → Text → PollManager → PollManager
remove_pross class params m = elim (lookup class m.polls) [
  | none ↦ m
  | some poll ↦ record m { polls = put class (delete params poll) m.polls }
]
