-- ===== src/Waits/Steps.antt =====
-- The steps of the center, and what holds of it after them.
use mathlib.Core.List.{Memᴰ}
use polarcloud.Prelude.{
  ℕ, zero, suc, ◌≡◌, refl, List, [], ◌∷◌, ◌++◌, Option, none, some, Text, length, get_elem?, All,
  All-map,
}
use polarcloud.Table.{lookup}
use polarcloud.Waits.{
  Channel, Waiter, Center, wait_request, offer, put_value, emptied, response_wait, without, receive,
  time_out, no_waits,
}

-- What happens at the center, in the order of its calls.
pub data Action : Type 0 where
  asked : Text → Text → Action
  answered : Text → Text → List ℕ → Action
  received : Text → Text → List ℕ → Action
  gave_up : Text → Text → Action

-- One step; a waiter may give up at any time, and takes an answer when its channel has one.
pub data Step : Center → Action → Center → Type 0 where
  asks : (s : Center) (class tag : Text) → Step s (asked class tag) (wait_request class tag s)
  answers :
      (s : Center) (class tag : Text) (bs : List ℕ)
      → Step s (answered class tag bs) (response_wait class tag bs s)
  receives :
      (s : Center) (k : ℕ) (w : Waiter) (c : Channel) (bs : List ℕ)
      → get_elem? s.waiters k ≡ some w
      → get_elem? s.channels w.channel ≡ some c
      → c.buffer ≡ some bs
      → Step s (received w.class w.tag bs) (receive k w s)
  gives_up :
      (s : Center) (k : ℕ) (w : Waiter)
      → get_elem? s.waiters k ≡ some w
      → Step s (gave_up w.class w.tag) (time_out k w s)

-- A history of the center, its latest action first.
pub data History : List Action → Center → Type 0 where
  at_start : History [] no_waits
  then_step :
      (acts : List Action) (a : Action) (s t : Center)
      → History acts s
      → Step s a t
      → History (a ∷ acts) t

-- The channel of a number was made for this class and tag.
abbrev pub IsFor : List Channel → ℕ → Text → Text → Type 0
IsFor channels n class tag =
    (c : Channel) × (get_elem? channels n ≡ some c) × (c.class ≡ class) × (c.tag ≡ tag)

abbrev pub or_no_tags : Option (List (Text × ℕ)) → List (Text × ℕ)
or_no_tags none = []
or_no_tags (some tag_map) = tag_map

-- The entry of a class and a tag is a channel for them; so is the channel of every waiter; and what a
-- buffer holds was an answer for its class and tag.
pub record Sorted (acts : List Action) (s : Center) : Type 0 where
  pub entries :
      (class tag : Text) (n : ℕ)
      → lookup tag (or_no_tags (lookup class s.wait_request)) ≡ some n
      → IsFor s.channels n class tag
  pub waiting : All (λ w. IsFor s.channels w.channel w.class w.tag) s.waiters
  pub buffers :
      All
        (λ c. (bs : List ℕ) → c.buffer ≡ some bs → Memᴰ (answered c.class c.tag bs) acts)
        s.channels

pub get_elem?_append :
    (channels more : List Channel) (n : ℕ) (c : Channel)
    → get_elem? channels n ≡ some c
    → get_elem? (channels ++ more) n ≡ some c
get_elem?_append [] more n c e = absurd (cc)
get_elem?_append (d ∷ channels) more zero c e = e
get_elem?_append (d ∷ channels) more (suc n) c e = get_elem?_append channels more n c e

pub get_elem?_last :
    (channels : List Channel) (c : Channel)
    → get_elem? (channels ++ c ∷ []) (length channels) ≡ some c
get_elem?_last [] c = refl
get_elem?_last (d ∷ channels) c = get_elem?_last channels c

-- A new value in a buffer, or its loss, leaves every channel with its class and tag.
pub IsFor-offer :
    (bs : List ℕ) (m n : ℕ) (channels : List Channel) (class tag : Text)
    → IsFor channels n class tag
    → IsFor (offer bs m channels) n class tag
unfolding offer
IsFor-offer bs m n [] class tag h = h
IsFor-offer bs zero zero (d ∷ channels) class tag (c, e, p, q) =
    let f : d ≡ c = cc in (record d { buffer = put_value bs d.buffer }, refl, rw f p, rw f q)
IsFor-offer bs zero (suc n) (d ∷ channels) class tag h = h
IsFor-offer bs (suc m) zero (d ∷ channels) class tag h = h
IsFor-offer bs (suc m) (suc n) (d ∷ channels) class tag h = IsFor-offer bs m n channels class tag h

pub IsFor-emptied :
    (m n : ℕ) (channels : List Channel) (class tag : Text)
    → IsFor channels n class tag
    → IsFor (emptied m channels) n class tag
unfolding emptied
IsFor-emptied m n [] class tag h = h
IsFor-emptied zero zero (d ∷ channels) class tag (c, e, p, q) =
    let f : d ≡ c = cc in (record d { buffer = none }, refl, rw f p, rw f q)
IsFor-emptied zero (suc n) (d ∷ channels) class tag h = h
IsFor-emptied (suc m) zero (d ∷ channels) class tag h = h
IsFor-emptied (suc m) (suc n) (d ∷ channels) class tag h = IsFor-emptied m n channels class tag h

pub IsFor-append :
    (channels more : List Channel) (n : ℕ) (class tag : Text)
    → IsFor channels n class tag
    → IsFor (channels ++ more) n class tag
IsFor-append channels more n class tag (c, e, p, q) =
    (c, get_elem?_append channels more n c e, p, q)

-- A predicate on all channels after a change of one of them, and on all waiters but one.
pub All-offer :
    (P : Channel → Type 0) (bs : List ℕ) (n : ℕ) (channels : List Channel)
    → ((c : Channel)
        → get_elem? channels n ≡ some c
        → P c
        → P (record c { buffer = put_value bs c.buffer }))
    → All P channels
    → All P (offer bs n channels)
unfolding offer
All-offer P bs n [] f h = tt
All-offer P bs zero (c ∷ channels) f (p, h) = (f c refl p, h)
All-offer P bs (suc n) (c ∷ channels) f (p, h) = (p, All-offer P bs n channels f h)

pub All-emptied :
    (P : Channel → Type 0) (n : ℕ) (channels : List Channel)
    → ((c : Channel) → P (record c { buffer = none }))
    → All P channels
    → All P (emptied n channels)
unfolding emptied
All-emptied P n [] f h = tt
All-emptied P zero (c ∷ channels) f (p, h) = (f c, h)
All-emptied P (suc n) (c ∷ channels) f (p, h) = (p, All-emptied P n channels f h)

pub All-without :
    (P : Waiter → Type 0) (n : ℕ) (waiters : List Waiter)
    → All P waiters
    → All P (without n waiters)
unfolding without
All-without P n [] h = tt
All-without P zero (w ∷ waiters) (p, h) = h
All-without P (suc n) (w ∷ waiters) (p, h) = (p, All-without P n waiters h)

-- What is true of the buffers stays true when more happens.
pub buffers_later :
    (acts : List Action) (a : Action) (channels : List Channel)
    → All (λ c. (bs : List ℕ) → c.buffer ≡ some bs → Memᴰ (answered c.class c.tag bs) acts) channels
    → All
        (λ c. (bs : List ℕ) → c.buffer ≡ some bs → Memᴰ (answered c.class c.tag bs) (a ∷ acts))
        channels
buffers_later acts a channels h = All-map _ _ channels (λ c f bs e. Memᴰ.tail (f bs e)) h
