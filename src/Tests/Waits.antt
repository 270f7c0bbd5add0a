-- ===== src/Tests/Waits.antt =====
-- Two requests for one tag.
use mathlib.Core.List.{Memᴰ}
use polarcloud.Prelude.{List, [], ◌∷◌}
use polarcloud.Waits.{Center}
use polarcloud.Waits.Steps.{Action, asked, answered, received, History}
use polarcloud.Waits.Answers.{received-answered}
use polarcloud.Waits.Late.{late_answer}

abbrev history : List Action
history =
    asked (1 ∷ []) (2 ∷ [])
    ∷ answered (1 ∷ []) (2 ∷ []) (4 ∷ [])
    ∷ received (1 ∷ []) (2 ∷ []) (3 ∷ [])
    ∷ answered (1 ∷ []) (2 ∷ []) (3 ∷ [])
    ∷ asked (1 ∷ []) (2 ∷ [])
    ∷ []

late_answer_example : (s : Center) × History (received (1 ∷ []) (2 ∷ []) (4 ∷ []) ∷ history) s
late_answer_example = late_answer (1 ∷ []) (2 ∷ []) (3 ∷ []) (4 ∷ [])

received-answered_example : Memᴰ (answered (1 ∷ []) (2 ∷ []) (4 ∷ [])) history
received-answered_example =
    received-answered history (late_answer (1 ∷ []) (2 ∷ []) (3 ∷ []) (4 ∷ [])).0 (1 ∷ []) (2 ∷ [])
      (4 ∷ []) (late_answer (1 ∷ []) (2 ∷ []) (3 ∷ []) (4 ∷ [])).1
