-- ===== src/Tests/Votes.antt =====
-- Eight votes for a poll, with one vote for another poll and the end of a third among them.
use polarcloud.Prelude.{ℕ, ◌≡◌, true, List, [], ◌∷◌, Text, eq_text}
use polarcloud.Votes.Tally.{
  Event, ballot, over, run, replies_since, occurs, different, no_polls, vote-different,
}
use polarcloud.Votes.{vote}

abbrev remove_class : Text
remove_class = 7 ∷ []

abbrev from_node : ℕ → Event
from_node n = ballot 100 remove_class (4 ∷ []) (n ∷ [])

abbrev events : List Event
events =
    from_node 9
    ∷ over remove_class (4 ∷ [])
    ∷ from_node 1
    ∷ from_node 2
    ∷ from_node 2
    ∷ ballot 101 remove_class (5 ∷ []) (8 ∷ [])
    ∷ from_node 3
    ∷ over (6 ∷ []) (4 ∷ [])
    ∷ from_node 4
    ∷ from_node 5
    ∷ from_node 6
    ∷ from_node 7
    ∷ []

vote-different_example : (vote 102 remove_class (4 ∷ []) (8 ∷ []) (run events no_polls)).0 ≡ true
unfolding replies_since occurs different eq_text
vote-different_example = vote-different events 102 remove_class (4 ∷ []) (8 ∷ [])
