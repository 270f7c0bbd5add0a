-- ===== src/Waits.antt =====
-- core/message_center/waitrecv.go: requests that wait for their answers. A channel for one value is its
-- buffer; `waiters` are the calls of `WaitRequest` that stand in their `select`. What a call does up
-- to that point, and what it does after it, are one step each. A channel keeps the class and the tag
-- of the call that made it, which nothing reads.
pub mod Steps
pub mod Entries
pub mod Answers
pub mod Late
use polarcloud.Prelude.{ℕ, zero, suc, List, [], ◌∷◌, ◌++◌, Option, none, some, Text, length}
use polarcloud.Table.{lookup, put, delete}

pub record Channel : Type 0 where
  pub class : Text
  pub tag : Text
  pub buffer : Option (List ℕ)

pub record Waiter : Type 0 where
  pub class : Text
  pub tag : Text
  pub channel : ℕ

-- `waitRequest` with the `tagMap` of each class, whose values are numbers of channels.
pub record Center : Type 0 where
  pub wait_request : List (Text × List (Text × ℕ))
  pub channels : List Channel
  pub waiters : List Waiter

-- `c := make(chan *[]byte, 1)`, stored for the tag; and the wait on a channel.
unfoldable pub wait_on : Text → Text → ℕ → Center → Center
wait_on class tag n s = record s {
  waiters = s.waiters ++ (record { class = class; tag = tag; channel = n }) ∷ [];
}

unfoldable pub wait_new : Text → Text → List (Text × ℕ) → Center → Center
wait_new class tag tag_map s = wait_on class tag (length s.channels) (record s {
  wait_request = put class (put tag (length s.channels) tag_map) s.wait_request;
  channels = s.channels ++ (record { class = class; tag = tag; buffer = none }) ∷ [];
})

-- `WaitRequest`, up to its `select`
unfoldable pub wait_request_in : Text → Text → Option (List (Text × ℕ)) → Center → Center
wait_request_in class tag none s = wait_new class tag [] s
wait_request_in class tag (some tag_map) s = elim (lookup tag tag_map) [
  | none ↦ wait_new class tag tag_map s
  | some n ↦ wait_on class tag n s
]

unfoldable pub wait_request : Text → Text → Center → Center
wait_request class tag s = wait_request_in class tag (lookup class s.wait_request) s

-- The buffer of a channel takes a value if it is empty, and loses it.
abbrev pub put_value : List ℕ → Option (List ℕ) → Option (List ℕ)
put_value bs none = some bs
put_value bs (some old) = some old

unfoldable pub offer : List ℕ → ℕ → List Channel → List Channel
offer bs n [] = []
offer bs zero (c ∷ channels) = (record c { buffer = put_value bs c.buffer }) ∷ channels
offer bs (suc n) (c ∷ channels) = c ∷ offer bs n channels

unfoldable pub emptied : ℕ → List Channel → List Channel
emptied n [] = []
emptied zero (c ∷ channels) = (record c { buffer = none }) ∷ channels
emptied (suc n) (c ∷ channels) = c ∷ emptied n channels

-- `ResponseWait`
unfoldable pub response_wait : Text → Text → List ℕ → Center → Center
response_wait class tag bs s = elim (lookup class s.wait_request) [
  | none ↦ s
  | some tag_map ↦ elim (lookup tag tag_map) [
    | none ↦ s
    | some n ↦ record s { channels = offer bs n s.channels }
  ]
]

unfoldable pub without : ℕ → List Waiter → List Waiter
without n [] = []
without zero (w ∷ waiters) = waiters
without (suc n) (w ∷ waiters) = w ∷ without n waiters

-- The cases of the `select` of the waiter `k`: the answer is there, or the time is over.
unfoldable pub receive : ℕ → Waiter → Center → Center
receive k w s = record s { channels = emptied w.channel s.channels; waiters = without k s.waiters }

unfoldable pub time_out : ℕ → Waiter → Center → Center
time_out k w s = elim (lookup w.class s.wait_request) [
  | none ↦ record s { waiters = without k s.waiters }
  | some tag_map ↦ record s {
    wait_request = put w.class (delete w.tag tag_map) s.wait_request;
    waiters = without k s.waiters;
  }
]

-- The center at the start.
abbrev pub no_waits : Center
no_waits = record { wait_request = []; channels = []; waiters = [] }
