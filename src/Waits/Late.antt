-- ===== src/Waits/Late.antt =====
-- An answer that comes late.
use mathlib.Core.Path.{subst}
use polarcloud.Prelude.{
  ℕ, ◌≡◌, refl, ap, ◌∙◌, List, [], ◌∷◌, Option, none, some, Text, eq_text_refl,
}
use polarcloud.Table.{lookup, put}
use polarcloud.Waits.{
  Waiter, Center, wait_on, wait_new, wait_request_in, wait_request, offer, emptied, response_wait,
  without, receive, no_waits,
}
use polarcloud.Waits.Steps.{
  asked, answered, received, Step, asks, answers, receives, History, at_start, then_step,
}

-- The waiter of a class and a tag, and the center whose one channel is for them.
abbrev waiter : Text → Text → Waiter
waiter class tag = record { class = class; tag = tag; channel = 0 }

abbrev waiting : Text → Text → Option (List ℕ) → List Waiter → Center
waiting class tag buffer waiters = record {
  wait_request = (class, (tag, 0) ∷ []) ∷ [];
  channels = record { class = class; tag = tag; buffer = buffer } ∷ [];
  waiters = waiters;
}

lookup-only : {V : Type 0} (key : Text) (v : V) → lookup key ((key, v) ∷ []) ≡ some v
unfolding lookup
lookup-only key v = rw (eq_text_refl key) refl

asks_first :
    (class tag : Text)
    → Step no_waits (asked class tag) (waiting class tag none (waiter class tag ∷ []))
unfolding wait_request wait_request_in wait_new wait_on lookup put
asks_first class tag = asks no_waits class tag

found_again :
    (class tag : Text) (buffer : Option (List ℕ))
    → wait_request class tag (waiting class tag buffer [])
      ≡ waiting class tag buffer (waiter class tag ∷ [])
unfolding wait_request wait_request_in wait_on
found_again class tag buffer =
    ap (λ (o : Option (List (Text × ℕ))). wait_request_in class tag o (waiting class tag buffer []))
      (lookup-only {V = List (Text × ℕ)} class ((tag, 0) ∷ []))
    ∙ rw (lookup-only {V = ℕ} tag 0, wait_request_in) refl

asks_again :
    (class tag : Text) (buffer : Option (List ℕ))
    → Step
        (waiting class tag buffer [])
        (asked class tag)
        (waiting class tag buffer (waiter class tag ∷ []))
asks_again class tag buffer =
    subst (Step (waiting class tag buffer []) (asked class tag)) (found_again class tag buffer)
      (asks (waiting class tag buffer []) class tag)

found_empty :
    (class tag : Text) (bs : List ℕ) (waiters : List Waiter)
    → response_wait class tag bs (waiting class tag none waiters)
      ≡ waiting class tag (some bs) waiters
unfolding response_wait offer
found_empty class tag bs waiters =
    rw
      (
        lookup-only {V = List (Text × ℕ)} class ((tag, 0) ∷ []),
        lookup-only {V = ℕ} tag 0,
        response_wait,
      )
      refl

answers_empty :
    (class tag : Text) (bs : List ℕ) (waiters : List Waiter)
    → Step
        (waiting class tag none waiters)
        (answered class tag bs)
        (waiting class tag (some bs) waiters)
answers_empty class tag bs waiters =
    subst (Step (waiting class tag none waiters) (answered class tag bs))
      (found_empty class tag bs waiters) (answers (waiting class tag none waiters) class tag bs)

takes :
    (class tag : Text) (bs : List ℕ)
    → Step
        (waiting class tag (some bs) (waiter class tag ∷ []))
        (received class tag bs)
        (waiting class tag none [])
unfolding receive emptied without
takes class tag bs =
    receives (waiting class tag (some bs) (waiter class tag ∷ [])) 0 (waiter class tag)
      (record { class = class; tag = tag; buffer = some bs }) bs refl refl refl

-- A request may get an answer that was given before it was made: an answer that comes twice for one
-- request stays in the channel of the tag, and the next request for the tag takes it at once.
pub late_answer :
    (class tag : Text) (first late : List ℕ)
    → (s : Center) × History
        (received class tag late
          ∷ asked class tag
          ∷ answered class tag late
          ∷ received class tag first
          ∷ answered class tag first
          ∷ asked class tag
          ∷ [])
        s
late_answer class tag first late = (
  waiting class tag none [],
  then_step _ _ _ _
      (then_step _ _ _ _
        (then_step _ _ _ _
          (then_step _ _ _ _
            (then_step _ _ _ _ (then_step _ _ _ _ at_start (asks_first class tag))
              (answers_empty class tag first (waiter class tag ∷ [])))
            (takes class tag first))
          (answers_empty class tag late []))
        (asks_again class tag (some late)))
      (takes class tag late),
)
